-- ===== src/Resident/ClockKept.antt =====
-- modules/object_management/clock.rs: `ClockObjectManagementModule` keeps the books, and what the
-- manager relies on of its object management module.
use vnv_heap.Base.{ℕ, ◌≡◌, refl, true, Option, arith}
use vnv_heap.Base.Outcome.{Outcome}
use vnv_heap.Status.{clock_accessed, clock_modified}
use vnv_heap.Storage.Device.{PersistentStorageModule}
use vnv_heap.Buddy.Chain.{has}
use vnv_heap.Resident.Object.{TypeLayout, ResidentObject}
use vnv_heap.Resident.Persist.{IsObject}
use vnv_heap.Resident.State.{Resident, AllocatorModule, Layouts, put}
use vnv_heap.Resident.Allocation.{AllocatorSpec}
use vnv_heap.Resident.Books.{Books, Kept, Kept-refl, Kept-trans, Untouched, replace-Kept}
use vnv_heap.Resident.Items.{
  Spares, sync_user_data-Kept, unload-Kept, unload_and_check_for_space-Kept,
}
use vnv_heap.Resident.Lent.{Untouched-SameData, dirty_size-Untouched}
use vnv_heap.Resident.Management.{IsManagement, Progress, Syncs, OkOrErr}
use vnv_heap.Resident.Rounds.{Gained, Enough, account-Progress, until_space-Progress}
use vnv_heap.Resident.DefaultKept.{finish-Syncs, finish-OkOrErr, and_then-Progress}
use vnv_heap.Resident.Clock.{
  ClockObjectManagementModule, Clocked, modified_clock, resident_clock, sync_chosen, unload_chosen,
  sync_dirty_data, space_chosen, unload_objects, clock_module,
}
use vnv_heap.Resident.ClockRounds.{
  IsSteady, modified_clock-IsClock, resident_clock-IsClock, with_clock-Untouched, iter-Ends,
}

module _ {S H : Type 0} (l : Layouts) {a : AllocatorModule H} (spec : AllocatorSpec a) {initial : ℕ}
    (r : Resident S H) where
  touched-Kept :
      {r' : Resident S H} {p : ℕ} {y : ResidentObject}
      → Kept l spec initial r r'
      → has p r'.resident_list ≡ true
      → IsObject y × Untouched (r'.objects p) y
      → Kept l spec initial r (record r' { objects = put r'.objects p y })
  touched-Kept {r'} {p} {y} k hp c =
      replace-Kept l spec p r'.remaining_dirty_size y r'.storage k hp c.0 (Untouched-SameData c.1)
        (omega (arith, dirty_size-Untouched (k.books.objects_valid p hp) c.0 c.1)) (λ u. c.1)

  pub Gained-IsSteady : IsSteady (Gained l spec initial r)
  Gained-IsSteady = record {
    distinct = λ g. g.kept.books.distinct;
    object = λ g hp. g.kept.books.objects_valid _ hp;
    touched = λ g hp c. record { kept = touched-Kept g.kept hp c; bytes = g.bytes };
  }

  pub Kept-IsSteady : IsSteady (λ (u : Unit {0}). Kept l spec initial r)
  Kept-IsSteady = record {
    distinct = λ k. k.books.distinct;
    object = λ k hp. k.books.objects_valid _ hp;
    touched = λ k hp c. touched-Kept k hp c;
  }

module _ {S H : Type 0} (d : PersistentStorageModule S) (a : AllocatorModule H) (l : Layouts)
    (spec : AllocatorSpec a) where
  abbrev Good : ℕ → Resident S H → ℕ → Outcome (Option ℕ) → Clocked S H → Type 0
  Good initial r required =
      Progress (λ k (y : Clocked S H). Gained l spec initial r k y.1)
        (λ (y : Clocked S H). Enough l spec initial r required y.1)

  module _ {initial : ℕ} {r : Resident S H} (required : ℕ) where
    sync_chosen-Good :
        (p curr : ℕ) (x : Clocked S H)
        → has p x.1.resident_list ≡ true
        → Gained l spec initial r curr x.1
        → let e = sync_chosen d a l required p curr x in
          Good initial r required e.0 e.1 × Spares p x.1 e.1.1
    unfolding sync_chosen
    sync_chosen-Good p curr (m, y) hp g =
        let k = sync_user_data-Kept d a l spec p g.kept.books hp in
        account-Progress l spec (λ (x : Clocked S H). x.1) required curr p y _ _ g k.0 k.1 k.2

    unload_chosen-Good :
        (p curr : ℕ) (x : Clocked S H)
        → has p x.1.resident_list ≡ true
        → Gained l spec initial r curr x.1
        → let e = unload_chosen d a l required p curr x in
          Good initial r required e.0 e.1 × Spares p x.1 e.1.1
    unfolding unload_chosen
    unload_chosen-Good p curr (m, y) hp g =
        let k = unload-Kept d a l spec p g.kept.books hp in
        account-Progress l spec (λ (x : Clocked S H). x.1) required curr p y _ _ g k.0 k.1 k.2

  -- For an allocator that keeps its laws and books in order: `sync_dirty_data` of the clock
  -- module, wherever its two pointers stand, ends with `Ok` or `Err` and does not panic, keeps
  -- the books and the objects in use, and ends with `Ok` only where the remaining dirty size has
  -- grown by the bytes that it was asked for.
  pub clock_sync-Syncs :
      {initial : ℕ} {r : Resident S H} (required : ℕ) (m : ClockObjectManagementModule)
      → Books l spec initial r
      → let e = sync_dirty_data d a l required m r in
        Kept l spec initial r e.1.1
        × Syncs required r.remaining_dirty_size e.1.1.remaining_dirty_size e.0
  unfolding sync_dirty_data
  clock_sync-Syncs {initial} {r} required m b =
      finish-Syncs l spec (λ (y : Clocked S H). y.1) required _ _
        (and_then-Progress _ _ _
          (λ c x g.
            iter-Ends resident_clock resident_clock-IsClock (Gained l spec initial r)
              (Enough l spec initial r required) (Gained-IsSteady l spec r) _
              (unload_chosen-Good required) c x g)
          _ _
          (iter-Ends modified_clock modified_clock-IsClock (Gained l spec initial r)
            (Enough l spec initial r required) (Gained-IsSteady l spec r) _
            (sync_chosen-Good required) 0 (m, r)
            (record { kept = Kept-refl l spec b; bytes = omega arith })))

  space_chosen-Progress :
      {initial : ℕ} {r : Resident S H} (layout : TypeLayout) (p : ℕ) (c : Unit {0})
      (x : Clocked S H)
      → has p x.1.resident_list ≡ true
      → Kept l spec initial r x.1
      → let e = space_chosen d a l layout p c x in
        Progress
          (λ (u : Unit {0}) (y : Clocked S H). Kept l spec initial r y.1)
          (λ (y : Clocked S H). Kept l spec initial r y.1)
          e.0
          e.1
        × Spares p x.1 e.1.1
  unfolding space_chosen
  space_chosen-Progress layout p c (m, y) hp k =
      let u = unload_and_check_for_space-Kept d a l spec p layout k.books hp in
      until_space-Progress l spec (λ (x : Clocked S H). x.1) p y _ _ (Kept-trans l spec k u.0) u.1
        u.2

  pub clock_unload-Kept :
      {initial : ℕ} {r : Resident S H} (layout : TypeLayout) (m : ClockObjectManagementModule)
      → Books l spec initial r
      → let e = unload_objects d a l layout m r in Kept l spec initial r e.1.1 × OkOrErr e.0
  unfolding unload_objects
  clock_unload-Kept {initial} {r} layout m b =
      finish-OkOrErr l spec (λ (y : Clocked S H). y.1) _ _
        (iter-Ends resident_clock resident_clock-IsClock (λ (u : Unit {0}). Kept l spec initial r)
          (Kept l spec initial r) (Kept-IsSteady l spec r) _ (space_chosen-Progress layout) tt
          (m, r) (Kept-refl l spec b))

  pub clock_module-IsManagement : IsManagement l spec (clock_module d a l)
  clock_module-IsManagement = record {
    sync_kept = clock_sync-Syncs;
    unload_kept = clock_unload-Kept;
    access_keeps = λ m v. with_clock-Untouched clock_accessed true refl v;
    modify_keeps = λ m v. with_clock-Untouched clock_modified true refl v;
  }
