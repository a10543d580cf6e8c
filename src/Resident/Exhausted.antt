-- ===== src/Resident/Exhausted.antt =====
-- modules/object_management/default.rs: when `sync_dirty_data` gives up.
use vnv_heap.Base.{
  ℕ, ◌≡◌, ◌∙◌, sym, refl, ap, true, false, List, [], ◌∷◌, Option, none, some, arith, ◌==◌, inl, inr,
  Bool-cases, length,
}
use vnv_heap.Base.Outcome.{Outcome, ok, err, panic, out_of_fuel}
use vnv_heap.Base.Words.{add_usize}
use vnv_heap.Status.{in_use}
use vnv_heap.Storage.Device.{PersistentStorageModule}
use vnv_heap.Buddy.Chain.{has}
use vnv_heap.Resident.Object.{ResidentObject, is_data_dirty, persist_user_data_dynamic}
use vnv_heap.Resident.Persist.{IsObject, write_whole}
use vnv_heap.Resident.Total.{Distinct, has-erase_gone}
use vnv_heap.Resident.State.{
  Resident, AllocatorModule, Layouts, object_in_use, object_mutable_ref_active, unload,
  unload_resident_object_dynamic, unload_end, remove_item,
}
use vnv_heap.Resident.Allocation.{AllocatorSpec}
use vnv_heap.Resident.Books.{Books, Kept, Kept-refl, Kept-trans}
use vnv_heap.Resident.Items.{Spares, Spares-same, unload-Kept}
use vnv_heap.Resident.Management.{
  Round, goes, stops, for_each-Progress, for_each, and_then, account,
}
use vnv_heap.Resident.Rounds.{Gained, Enough}
use vnv_heap.Resident.Default.{Stateless, finish, unload_item, sync_dirty_data}
use vnv_heap.Resident.DefaultKept.{Good, sync_item-Good, unload_item-Good}

-- The data of the resident objects can be written.
abbrev pub Writable : {S H : Type 0} → PersistentStorageModule S → Resident S H → Type 0
Writable {S} d r =
    (q : ℕ) (s : S)
    → has q r.resident_list ≡ true
    → (d.write (add_usize (r.objects q).offset 0) (r.objects q).bytes s).0 ≡ true

-- The object at `p` is not resident any more, or in use.
abbrev pub Stuck : {S H : Type 0} → Resident S H → ℕ → Type 0
Stuck r p = has p r.resident_list ≡ true → object_in_use (r.objects p) ≡ true

account-state :
    {X : Type 0} (required curr : ℕ) (w : Outcome ℕ) (x : X) → (account required curr w x).1 ≡ x
unfolding account
account-state required curr (ok n) x = refl
account-state required curr err x = refl
account-state required curr panic x = refl
account-state required curr out_of_fuel x = refl

persist-ok :
    {S : Type 0} (d : PersistentStorageModule S) {o : ResidentObject} (s : S)
    → IsObject o
    → (d.write (add_usize o.offset 0) o.bytes s).0 ≡ true
    → (n : ℕ) × ((persist_user_data_dynamic d o s).0 ≡ ok n)
unfolding persist_user_data_dynamic
persist-ok d {o} s v done = elim (Bool-cases (is_data_dirty o)) [
  | inr clean ↦ (0, rw clean refl)
  | inl dirty ↦ (length o.bytes, rw (dirty, write_whole d s v, done) refl)
]

module _ {S H : Type 0} (d : PersistentStorageModule S) (a : AllocatorModule H) (l : Layouts)
    (spec : AllocatorSpec a) {initial : ℕ} where
  Writable-Kept : {r r' : Resident S H} → Kept l spec initial r r' → Writable d r → Writable d r'
  Writable-Kept {r} {r'} k w q s h =
      let same = k.same q h in let done = w q s (k.shrinks q h) in rw (same.offset, same.bytes) done

  Stuck-Kept : {r r' : Resident S H} (p : ℕ) → Kept l spec initial r r' → Stuck r p → Stuck r' p
  Stuck-Kept p k stuck h =
      let before = k.shrinks p h in
      let used = stuck before in (k.stays p before used).1.flags in_use refl ∙ used

  unload-gone :
      {r : Resident S H} (p : ℕ)
      → Books l spec initial r
      → Writable d r
      → has p r.resident_list ≡ true
      → object_in_use (r.objects p) ≡ false
      → has p (unload d a l p r).1.resident_list ≡ false
  unfolding unload unload_resident_object_dynamic unload_end remove_item
  unload-gone {r} p b w hp idle =
      let done = persist-ok d r.storage (b.objects_valid p hp) (w p r.storage hp) in
      rw (idle, done.1) (has-erase_gone p r.resident_list b.distinct)

  -- A round of the second loop leaves its object only where it is in use.
  unload_item-Stuck :
      {r : Resident S H} (required p curr : ℕ)
      → Books l spec initial r
      → Writable d r
      → has p r.resident_list ≡ true
      → let e = unload_item d a l required p curr r in
        Kept l spec initial r e.1 × Spares p r e.1 × Stuck e.1 p
  unfolding unload_item
  unload_item-Stuck {r} required p curr b w hp = elim (Bool-cases (object_in_use (r.objects p))) [
    | inl used ↦ elim (Bool-cases (object_mutable_ref_active (r.objects p))) [
      | inl lent ↦ rw (used, lent) (Kept-refl l spec b, Spares-same refl, λ h. used)
      | inr read ↦ rw (used, read) (Kept-refl l spec b, Spares-same refl, λ h. used)
    ]
    | inr idle ↦
        let k = unload-Kept d a l spec p b hp in
        let gone = unload-gone p b w hp idle in
        rw (idle, account-state required curr (unload d a l p r).0 (unload d a l p r).1)
          (k.0, k.1, λ h. absurd (ground (arith, gone, h)))
  ]

  -- The second loop ends without a return only where every object that it met is in use or gone.
  unload_loop-Stuck :
      (required : ℕ) (ps : List ℕ) {r : Resident S H} (curr : ℕ)
      → Distinct ps
      → ((q : ℕ) → has q ps ≡ true → has q r.resident_list ≡ true)
      → Books l spec initial r
      → Writable d r
      → (c : ℕ) (y : Resident S H)
      → for_each (unload_item d a l required) ps curr r ≡ (ok (some c), y)
      → Kept l spec initial r y × ((q : ℕ) → has q ps ≡ true → Stuck y q)
  unfolding for_each
  unload_loop-Stuck required [] {r = r} curr dis inside b w c y e =
      let at : y ≡ r = ap (λ (x : Round ℕ (Resident S H)). x.1) (sym e) in
      rw at (Kept-refl l spec b, λ q h. absurd (ground (arith, h)))
  unload_loop-Stuck required (p ∷ ps) {r = r} curr dis inside b w c y e =
      let s = unload_item-Stuck required p curr b w (inside p (ground arith)) in
      next
        (λ c' r' inside' b' w' e'.
          unload_loop-Stuck required ps {r = r'} c' dis.1 inside' b' w' c y e')
        (unload_item d a l required p curr r).0 _ s.0 s.1 s.2 e
    where
      next :
          ((c' : ℕ) (r' : Resident S H)
            → ((q : ℕ) → has q ps ≡ true → has q r'.resident_list ≡ true)
            → Books l spec initial r'
            → Writable d r'
            → for_each (unload_item d a l required) ps c' r' ≡ (ok (some c), y)
            → Kept l spec initial r' y × ((q : ℕ) → has q ps ≡ true → Stuck y q))
          → (v : Outcome (Option ℕ)) (r' : Resident S H) → Kept l spec initial r r'
          → Spares p r r'
          → Stuck r' p
          → and_then (v, r') (for_each (unload_item d a l required) ps) ≡ (ok (some c), y)
          → Kept l spec initial r y × ((q : ℕ) → has q (p ∷ ps) ≡ true → Stuck y q)
      next again (ok (some c')) r' k sp stuck e' =
          let t =
            again c' r' (λ q h. sp.others q (ground (arith, dis.0)) (inside q (ground arith)))
              k.books (Writable-Kept k w) e' in
          (
            Kept-trans l spec k t.0,
            λ q h. elim (Bool-cases (q == p)) [
              | inl here ↦ let at : q ≡ p = ground arith in rw at (Stuck-Kept p t.0 stuck)
              | inr other ↦ t.1 q (ground (arith, other, h))
            ],
          )
      next again (ok none) r' k sp stuck e' = absurd cc
      next again err r' k sp stuck e' = absurd cc
      next again panic r' k sp stuck e' = absurd cc
      next again out_of_fuel r' k sp stuck e' = absurd cc

  module _ {r : Resident S H} (required : ℕ) where
    second :
        (x y : Resident S H) (c : ℕ) (v : Outcome (Option ℕ))
        → Kept l spec initial r x
        → Writable d x
        → Good d a l spec initial r required v y
        → for_each (unload_item d a l required) x.resident_list c x ≡ (v, y)
        → (finish (v, y)).0 ≡ err
        → (q : ℕ) → Stuck (finish (v, y)).1 q
    second x y c v k w (goes {c = c'} g) e f q h =
        let t =
          unload_loop-Stuck required x.resident_list c k.books.distinct (λ j u. u) k.books w c' y
            e in
        t.1 q (t.0.shrinks q h) h
    second x y c v k w (stops g) e f q h = absurd cc

    first :
        (x : Resident S H) (v : Outcome (Option ℕ))
        → Writable d r
        → Good d a l spec initial r required v x
        → let e =
            finish (
              and_then (v, x) (λ c y. for_each (unload_item d a l required) y.resident_list c y)) in
          e.0 ≡ err → (q : ℕ) → Stuck e.1 q
    first x v w (goes {c} g) f q h =
        second x _ c _ g.kept (Writable-Kept g.kept w)
          (for_each-Progress (λ y. y) (Gained l spec initial r) (Enough l spec initial r required) _
            (unload_item-Good d a l spec required) x.resident_list c x g.kept.books.distinct
            (λ q h. h) g)
          refl f q h
    first x v w (stops g) f q h = absurd cc

    -- For an allocator that keeps its laws, books in order, and objects whose data can be
    -- written: where `sync_dirty_data` of the default module gives up with `Err`, every object
    -- that is still resident is in use.
    pub sync_dirty_data-exhausted :
        (m : Stateless)
        → Books l spec initial r
        → Writable d r
        → (sync_dirty_data d a l required m r).0 ≡ err
        → (q : ℕ) → has q (sync_dirty_data d a l required m r).1.1.resident_list ≡ true
        → object_in_use ((sync_dirty_data d a l required m r).1.1.objects q) ≡ true
    unfolding sync_dirty_data
    sync_dirty_data-exhausted m b w = first _ _ w (
        for_each-Progress (λ y. y) (Gained l spec initial r) (Enough l spec initial r required) _
          (sync_item-Good d a l spec required) r.resident_list 0 r b.distinct (λ q h. h)
          (record { kept = Kept-refl l spec b; bytes = omega arith }))
