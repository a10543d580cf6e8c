-- ===== src/Resident/DefaultKept.antt =====
-- The default module keeps the books, and gives the bytes that it reports.
use vnv_heap.Base.{ℕ, ◌≡◌, refl, true, ◌&&◌, Option, arith, inl, inr, Bool-cases}
use vnv_heap.Base.Outcome.{Outcome}
use vnv_heap.Storage.Device.{PersistentStorageModule}
use vnv_heap.Buddy.Chain.{has}
use vnv_heap.Resident.Object.{TypeLayout, is_data_dirty}
use vnv_heap.Resident.State.{
  AllocatorModule, Layouts, Resident, object_in_use, object_mutable_ref_active,
}
use vnv_heap.Resident.Allocation.{AllocatorSpec}
use vnv_heap.Resident.Books.{Books, Kept, Kept-refl, Kept-trans, Untouched-refl}
use vnv_heap.Resident.Items.{
  Spares, Spares-same, sync_user_data-Kept, unload-Kept, unload_and_check_for_space-Kept,
}
use vnv_heap.Resident.Management.{
  Progress, goes, stops, IsManagement, Syncs, enough, short, OkOrErr, went, erred, Round, and_then,
  for_each-Progress,
}
use vnv_heap.Resident.Rounds.{Gained, Enough, account-Progress, until_space-Progress}
use vnv_heap.Resident.Default.{
  Stateless, finish, sync_item, unload_item, sync_dirty_data, unload_for_space, unload_objects,
  default_module,
}

module _ {S H X : Type 0} (l : Layouts) {a : AllocatorModule H} (spec : AllocatorSpec a)
    (resident : X → Resident S H) {initial : ℕ} {r : Resident S H} where
  -- A loop over the objects that has counted bytes, and how the call that makes it ends.
  pub finish-Syncs :
      (required : ℕ) (w : Outcome (Option ℕ)) (x : X)
      → Progress
          (λ (k : ℕ) (y : X). Gained l spec initial r k (resident y))
          (λ (y : X). Enough l spec initial r required (resident y))
          w
          x
      → let e = finish (w, x) in
        Kept l spec initial r (resident e.1)
        × Syncs required r.remaining_dirty_size (resident e.1).remaining_dirty_size e.0
  finish-Syncs required w x (goes g) = (g.kept, short)
  finish-Syncs required w x (stops g) = (g.kept, enough g.bytes)

  pub finish-OkOrErr :
      (w : Outcome (Option (Unit {0}))) (x : X)
      → Progress
          (λ (u : Unit {0}) (y : X). Kept l spec initial r (resident y))
          (λ (y : X). Kept l spec initial r (resident y))
          w
          x
      → let e = finish (w, x) in Kept l spec initial r (resident e.1) × OkOrErr e.0
  finish-OkOrErr w x (goes g) = (g, erred)
  finish-OkOrErr w x (stops g) = (g, went)

-- A second loop goes on where a first one has not returned.
pub and_then-Progress :
    {C X : Type 0} (Going : C → X → Type 0) (Done : X → Type 0) (k : C → X → Round C X)
    → ((c : C) (x : X) → Going c x → let e = k c x in Progress Going Done e.0 e.1)
    → (w : Outcome (Option C)) (x : X) → Progress Going Done w x
    → let e = and_then (w, x) k in Progress Going Done e.0 e.1
and_then-Progress Going Done k go w x (goes {c} g) = go c x g
and_then-Progress Going Done k go w x (stops g) = stops g

module _ {S H : Type 0} (d : PersistentStorageModule S) (a : AllocatorModule H) (l : Layouts)
    (spec : AllocatorSpec a) where
  abbrev pub Good : ℕ → Resident S H → ℕ → Outcome (Option ℕ) → Resident S H → Type 0
  Good initial r required = Progress (Gained l spec initial r) (Enough l spec initial r required)

  module _ {initial : ℕ} {r : Resident S H} (required : ℕ) where
    pub sync_item-Good :
        (p curr : ℕ) (x : Resident S H)
        → has p x.resident_list ≡ true
        → Gained l spec initial r curr x
        → let e = sync_item d a l required p curr x in
          Good initial r required e.0 e.1 × Spares p x e.1
    unfolding sync_item
    sync_item-Good p curr x hp g =
        let k = sync_user_data-Kept d a l spec p g.kept.books hp in
        elim (Bool-cases (object_in_use (x.objects p) && object_mutable_ref_active (x.objects p))) [
          | inl busy ↦ rw busy (goes g, Spares-same refl)
          | inr idle ↦ rw idle (elim (Bool-cases (is_data_dirty (x.objects p))) [
            | inl dirty ↦
                rw dirty (account-Progress l spec (λ y. y) required curr p x _ _ g k.0 k.1 k.2)
            | inr clean ↦ rw clean (goes g, Spares-same refl)
          ])
        ]

    pub unload_item-Good :
        (p curr : ℕ) (x : Resident S H)
        → has p x.resident_list ≡ true
        → Gained l spec initial r curr x
        → let e = unload_item d a l required p curr x in
          Good initial r required e.0 e.1 × Spares p x e.1
    unfolding unload_item
    unload_item-Good p curr x hp g =
        let k = unload-Kept d a l spec p g.kept.books hp in
        elim (Bool-cases (object_in_use (x.objects p) && object_mutable_ref_active (x.objects p))) [
          | inl busy ↦ rw busy (goes g, Spares-same refl)
          | inr idle ↦ rw idle (elim (Bool-cases (object_in_use (x.objects p))) [
            | inl used ↦ rw used (goes g, Spares-same refl)
            | inr free ↦
                rw free (account-Progress l spec (λ y. y) required curr p x _ _ g k.0 k.1 k.2)
          ])
        ]

  -- For an allocator that keeps its laws and books in order: `sync_dirty_data` of the default
  -- module ends with `Ok` or `Err` and does not panic, keeps the books and the objects in use,
  -- and ends with `Ok` only where the remaining dirty size has grown by the bytes that it was
  -- asked for.
  pub sync_dirty_data-Syncs :
      {initial : ℕ} {r : Resident S H} (required : ℕ) (m : Stateless)
      → Books l spec initial r
      → let e = sync_dirty_data d a l required m r in
        Kept l spec initial r e.1.1
        × Syncs required r.remaining_dirty_size e.1.1.remaining_dirty_size e.0
  unfolding sync_dirty_data
  sync_dirty_data-Syncs {initial} {r} required m b =
      finish-Syncs l spec (λ y. y) required _ _
        (and_then-Progress (Gained l spec initial r) (Enough l spec initial r required) _
          (λ c x g.
            for_each-Progress (λ y. y) (Gained l spec initial r) (Enough l spec initial r required)
              _ (unload_item-Good required) x.resident_list c x g.kept.books.distinct (λ q h. h) g)
          _ _
          (for_each-Progress (λ y. y) (Gained l spec initial r) (Enough l spec initial r required) _
            (sync_item-Good required) r.resident_list 0 r b.distinct (λ q h. h)
            (record { kept = Kept-refl l spec b; bytes = omega arith })))

  unload_for_space-Progress :
      {initial : ℕ} {r : Resident S H} (layout : TypeLayout) (p : ℕ) (c : Unit {0})
      (x : Resident S H)
      → has p x.resident_list ≡ true
      → Kept l spec initial r x
      → let e = unload_for_space d a l layout p c x in
        Progress (λ (u : Unit {0}). Kept l spec initial r) (Kept l spec initial r) e.0 e.1
        × Spares p x e.1
  unfolding unload_for_space
  unload_for_space-Progress layout p c x hp k =
      let u = unload_and_check_for_space-Kept d a l spec p layout k.books hp in
      elim (Bool-cases (object_in_use (x.objects p))) [
        | inl used ↦ rw used (goes k, Spares-same refl)
        | inr free ↦
            rw free (until_space-Progress l spec (λ y. y) p x _ _ (Kept-trans l spec k u.0) u.1 u.2)
      ]

  pub unload_objects-Kept :
      {initial : ℕ} {r : Resident S H} (layout : TypeLayout) (m : Stateless)
      → Books l spec initial r
      → let e = unload_objects d a l layout m r in Kept l spec initial r e.1.1 × OkOrErr e.0
  unfolding unload_objects
  unload_objects-Kept {initial} {r} layout m b =
      finish-OkOrErr l spec (λ y. y) _ _
        (for_each-Progress (λ y. y) (λ (u : Unit {0}). Kept l spec initial r)
          (Kept l spec initial r) _ (unload_for_space-Progress layout) r.resident_list tt r
          b.distinct (λ q h. h) (Kept-refl l spec b))

  pub default_module-IsManagement : IsManagement l spec (default_module d a l)
  default_module-IsManagement = record {
    sync_kept = sync_dirty_data-Syncs;
    unload_kept = unload_objects-Kept;
    access_keeps = λ m v. (v, Untouched-refl);
    modify_keeps = λ m v. (v, Untouched-refl);
  }
