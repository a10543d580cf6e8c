-- ===== src/Resident/Items.antt =====
-- The operations of one item of the resident list keep the books.
use vnv_heap.Base.{
  ℕ, ◌+◌, ◌<◌, ◌≡◌, refl, ◌∙◌, Bool, true, false, ◌&&◌, Option, none, some, arith, ◌==◌, inl, inr,
  Bool-cases,
}
use vnv_heap.Base.Outcome.{Outcome, ok, err}
use vnv_heap.Base.Words.{usize_mod, add_usize, sub_usize}
use vnv_heap.Storage.Device.{PersistentStorageModule}
use vnv_heap.Buddy.Chain.{has}
use vnv_heap.Buddy.Remove.{erase, has-erase_ne}
use vnv_heap.Resident.Object.{is_tracked, TypeLayout, ResidentObject, dirty_size, is_data_dirty}
use vnv_heap.Resident.Persist.{SameData-refl, Synced, skipped, written, failed, persist-Synced}
use vnv_heap.Resident.Total.{le-total}
use vnv_heap.Resident.State.{
  calc_resident_obj_layout_dynamic, AllocatorModule, Layouts, Resident, object_in_use,
  sync_user_data, sync_end, unload, unload_end, unload_resident_object_dynamic, remove_item,
  with_object, freed_since, check_for_space, space_after, unload_and_check_for_space,
}
use vnv_heap.Resident.Allocation.{AllocatorSpec, block_layout, at_block, given_back}
use vnv_heap.Resident.Books.{
  blocks_of, Books, Kept, Kept-refl, Kept-trans, Untouched-refl, replace-Kept, remove-Kept,
  heap-Kept, size_of,
}

-- How a call that gives back bytes ends: with their number or with an error, never by a panic or
-- for want of rounds.
pub data GivesBack {S H : Type 0} (r r' : Resident S H) : Outcome ℕ → Type 0 where
  gives : {n : ℕ} → r'.remaining_dirty_size ≡ r.remaining_dirty_size + n → GivesBack r r' (ok n)
  fails : r'.remaining_dirty_size ≡ r.remaining_dirty_size → GivesBack r r' err

-- An unloading for want of space ends with the answer or an error.
pub data Answers : Outcome Bool → Type 0 where
  answers : (space : Bool) → Answers (ok space)
  refuses : Answers err

-- The list has lost no object but the one at `p`.
pub record Spares {S H : Type 0} (p : ℕ) (r r' : Resident S H) : Type 0 where
  pub others :
      (q : ℕ) → (q == p) ≡ false → has q r.resident_list ≡ true → has q r'.resident_list ≡ true

pub Spares-same :
    {S H : Type 0} {p : ℕ} {r r' : Resident S H}
    → r'.resident_list ≡ r.resident_list
    → Spares p r r'
Spares-same e = record { others = λ q ne h. rw e h }

Spares-erase :
    {S H : Type 0} {p : ℕ} {r r' : Resident S H}
    → r'.resident_list ≡ erase p r.resident_list
    → Spares p r r'
Spares-erase {p} {r} e = record {
  others = λ q ne h. rw e (has-erase_ne q p r.resident_list (λ g. ground arith) ∙ h);
}

module _ {S H : Type 0} (d : PersistentStorageModule S) (a : AllocatorModule H) (l : Layouts)
    (spec : AllocatorSpec a) where
  -- The dirty size of a resident object, added to the remaining size, does not wrap.
  pub room :
      {initial : ℕ} {r : Resident S H} (p : ℕ)
      → Books l spec initial r
      → has p r.resident_list ≡ true
      → r.remaining_dirty_size + dirty_size (r.objects p) < usize_mod
  room {initial} {r} p b hp =
      omega (arith, b.sum, b.fits, le-total (size_of r.objects) p r.resident_list hp)

  room_eq :
      {initial : ℕ} {r : Resident S H} (p : ℕ)
      → Books l spec initial r
      → has p r.resident_list ≡ true
      → add_usize r.remaining_dirty_size (dirty_size (r.objects p))
        ≡ r.remaining_dirty_size + dirty_size (r.objects p)
  room_eq p b hp = omega (arith, room p b hp)

  pub sync_end-Kept :
      {initial : ℕ} {r : Resident S H} (p : ℕ) (s : S)
      → Books l spec initial r
      → has p r.resident_list ≡ true
      → (is_data_dirty (r.objects p) && object_in_use (r.objects p)) ≡ false
      → {w : Outcome ℕ} {o : ResidentObject} → Synced (r.objects p) w o
      → let e = sync_end d a l w (with_object d a l p (o, s) r) in
        Kept l spec initial r e.1 × Spares p r e.1 × GivesBack r e.1 e.0
  unfolding sync_end
  sync_end-Kept {initial} {r} p s b hp idle (skipped clean) =
      let none_wrapped : add_usize r.remaining_dirty_size 0 ≡ r.remaining_dirty_size + 0 =
        omega (arith, room p b hp) in
      (
        replace-Kept l spec p _ (r.objects p) s (Kept-refl l spec b) hp (b.objects_valid p hp)
            SameData-refl (omega (arith, none_wrapped)) (λ u. Untouched-refl),
        Spares-same refl,
        gives none_wrapped,
      )
  sync_end-Kept {initial} {r} p s b hp idle (written {n} {o'} dirty v el e clean) =
      let none_wrapped : add_usize r.remaining_dirty_size n ≡ r.remaining_dirty_size + n =
        omega (arith, e, room p b hp) in
      (
        replace-Kept l spec p _ o' s (Kept-refl l spec b) hp v el (omega (arith, e, none_wrapped))
            (λ u. absurd (ground arith)),
        Spares-same refl,
        gives none_wrapped,
      )
  sync_end-Kept {initial} {r} p s b hp idle failed = (
    replace-Kept l spec p r.remaining_dirty_size (r.objects p) s (Kept-refl l spec b) hp
        (b.objects_valid p hp) SameData-refl (omega arith) (λ u. Untouched-refl),
    Spares-same refl,
    fails refl,
  )

  -- `sync_user_data` of a resident item keeps the books and gives back what it reports.
  pub sync_user_data-Kept :
      {initial : ℕ} {r : Resident S H} (p : ℕ)
      → Books l spec initial r
      → has p r.resident_list ≡ true
      → let e = sync_user_data d a l p r in
        Kept l spec initial r e.1 × Spares p r e.1 × GivesBack r e.1 e.0
  unfolding sync_user_data
  sync_user_data-Kept {initial} {r} p b hp =
      elim (Bool-cases (is_data_dirty (r.objects p) && object_in_use (r.objects p))) [
        | inl busy ↦ rw busy (Kept-refl l spec b, Spares-same refl, fails refl)
        | inr idle ↦
            rw idle
              (sync_end-Kept p _ b hp idle (persist-Synced d r.storage (b.objects_valid p hp)))
      ]

  -- How an unloading ends: the object has left the list and given back its dirty size, or it is
  -- still there.
  pub data Unloaded (p : ℕ) (r r' : Resident S H) : Outcome (Unit {0}) → Type 0 where
    gone :
        r'.remaining_dirty_size ≡ r.remaining_dirty_size + dirty_size (r.objects p)
        → r'.resident_list ≡ erase p r.resident_list
        → Unloaded p r r' (ok tt)
    remains :
        r'.remaining_dirty_size ≡ r.remaining_dirty_size
        → r'.resident_list ≡ r.resident_list
        → Unloaded p r r' err

  -- The block of an object is given back with its own layout.
  freed :
      {initial : ℕ} {r : Resident S H} (p : ℕ) (layout : TypeLayout × ℕ)
      → (layout.0 ≡ block_layout l (r.objects p).layout) × (layout.1 ≡ 0)
      → Books l spec initial r
      → has p r.resident_list ≡ true
      → a.deallocate (sub_usize p layout.1) layout.0 r.heap
        ≡ a.deallocate p (block_layout l (r.objects p).layout) r.heap
  freed {initial} {r} p layout el b hp =
      let at : sub_usize p 0 ≡ p =
        at_block spec (block_layout l (r.objects p).layout) r.heap (blocks_of l r) p b.blocks
          (rw hp refl) in
      rw (el.0, el.1, at) refl

  -- What follows the sync of an object takes it out of the list, whatever the sync has left of it.
  pub unload_end-Unloaded :
      {initial : ℕ} {r : Resident S H} (p n : ℕ) (s : S) (layout : TypeLayout × ℕ)
      (x : ResidentObject)
      → (layout.0 ≡ block_layout l (r.objects p).layout) × (layout.1 ≡ 0)
      → Books l spec initial r
      → has p r.resident_list ≡ true
      → object_in_use (r.objects p) ≡ false
      → let e =
          unload_end d a l p
            (dirty_size (r.objects p))
            layout
            (ok n)
            (with_object d a l p (x, s) r) in
        Kept l spec initial r e.1 × Unloaded p r e.1 e.0
  unfolding unload_end remove_item
  unload_end-Unloaded {initial} {r} p n s layout x el b hp idle =
      let none_wrapped = room_eq p b hp in
      (
        remove-Kept l spec p _ x s _ b hp idle (freed p layout el b hp) none_wrapped,
        gone none_wrapped refl,
      )

  pub unload_end-Kept :
      {initial : ℕ} {r : Resident S H} (p : ℕ) (s : S) (layout : TypeLayout × ℕ)
      → (layout.0 ≡ block_layout l (r.objects p).layout) × (layout.1 ≡ 0)
      → Books l spec initial r
      → has p r.resident_list ≡ true
      → object_in_use (r.objects p) ≡ false
      → {w : Outcome ℕ} {x : ResidentObject} → Synced (r.objects p) w x
      → let e =
          unload_end d a l p (dirty_size (r.objects p)) layout w (with_object d a l p (x, s) r) in
        Kept l spec initial r e.1 × Unloaded p r e.1 e.0
  unfolding unload_end
  unload_end-Kept {initial} {r} p s layout el b hp idle (skipped clean) =
      unload_end-Unloaded p 0 s layout (r.objects p) el b hp idle
  unload_end-Kept {initial} {r} p s layout el b hp idle (written {n} {o'} dirty v e' e clean) =
      unload_end-Unloaded p n s layout o' el b hp idle
  unload_end-Kept {initial} {r} p s layout el b hp idle failed = (
    replace-Kept l spec p r.remaining_dirty_size (r.objects p) s (Kept-refl l spec b) hp
        (b.objects_valid p hp) SameData-refl (omega arith) (λ u. Untouched-refl),
    remains refl refl,
  )

  layout_of :
      {initial : ℕ} {r : Resident S H} (p : ℕ)
      → Books l spec initial r
      → has p r.resident_list ≡ true
      → let layout =
          calc_resident_obj_layout_dynamic l (r.objects p).layout (is_tracked (r.objects p)) in
        (layout.0 ≡ block_layout l (r.objects p).layout) × (layout.1 ≡ 0)
  unfolding calc_resident_obj_layout_dynamic
  layout_of p b hp = rw (b.objects_valid p hp).whole (refl, refl)

  pub unload_resident_object_dynamic-Kept :
      {initial : ℕ} {r : Resident S H} (p : ℕ)
      → Books l spec initial r
      → has p r.resident_list ≡ true
      → object_in_use (r.objects p) ≡ false
      → let e = unload_resident_object_dynamic d a l p r in
        Kept l spec initial r e.1 × Unloaded p r e.1 e.0
  unfolding unload_resident_object_dynamic
  unload_resident_object_dynamic-Kept {initial} {r} p b hp idle =
      unload_end-Kept p _ _ (layout_of p b hp) b hp idle
        (persist-Synced d r.storage (b.objects_valid p hp))

  -- `unload` of an item keeps the books and gives back what it reports; an item in use is refused.
  pub unload-Kept :
      {initial : ℕ} {r : Resident S H} (p : ℕ)
      → Books l spec initial r
      → has p r.resident_list ≡ true
      → let e = unload d a l p r in Kept l spec initial r e.1 × Spares p r e.1 × GivesBack r e.1 e.0
  unfolding unload
  unload-Kept {initial} {r} p b hp = elim (Bool-cases (object_in_use (r.objects p))) [
    | inl busy ↦ rw busy (Kept-refl l spec b, Spares-same refl, fails refl)
    | inr idle ↦
        let u = unload_resident_object_dynamic-Kept p b hp idle in
        rw idle (freed_since-Kept (unload_resident_object_dynamic d a l p r).0 _ u.0 u.1)
  ]
    where
      freed_since-Kept :
          (w : Outcome (Unit {0})) (r' : Resident S H)
          → Kept l spec initial r r'
          → Unloaded p r r' w
          → let e = freed_since d a l r.remaining_dirty_size (w, r') in
            Kept l spec initial r e.1 × Spares p r e.1 × GivesBack r e.1 e.0
      freed_since-Kept w r' k (gone more less) =
          (k, Spares-erase less, gives (omega (arith, more, room p b hp)))
      freed_since-Kept w r' k (remains same kept) = (k, Spares-same kept, fails same)

  check_for_space-Kept :
      {initial : ℕ} {r : Resident S H} (layout : TypeLayout)
      → Books l spec initial r
      → let e = check_for_space d a l layout r in
        Kept l spec initial r e.1 × (e.1.resident_list ≡ r.resident_list)
  unfolding check_for_space
  check_for_space-Kept {initial} {r} layout b = split (a.allocate layout r.heap).0 refl
    where
      split :
          (m : Option ℕ)
          → (a.allocate layout r.heap).0 ≡ m
          → let e : Bool × Resident S H = elim m [
            | none ↦ (false, record r { heap = (a.allocate layout r.heap).1 })
            | some p ↦
                (true, record r { heap = a.deallocate p layout (a.allocate layout r.heap).1 })
          ] in
            Kept l spec initial r e.1 × (e.1.resident_list ≡ r.resident_list)
      split none e = (heap-Kept l spec b (spec.refused layout r.heap _ b.blocks e), refl)
      split (some p) e = (heap-Kept l spec b (given_back spec layout r.heap _ p b.blocks e), refl)

  pub unload_and_check_for_space-Kept :
      {initial : ℕ} {r : Resident S H} (p : ℕ) (layout : TypeLayout)
      → Books l spec initial r
      → has p r.resident_list ≡ true
      → let e = unload_and_check_for_space d a l p layout r in
        Kept l spec initial r e.1 × Spares p r e.1 × Answers e.0
  unfolding unload_and_check_for_space
  unload_and_check_for_space-Kept {initial} {r} p layout b hp =
      elim (Bool-cases (object_in_use (r.objects p))) [
        | inl busy ↦ rw busy (Kept-refl l spec b, Spares-same refl, refuses)
        | inr idle ↦
            let u = unload_resident_object_dynamic-Kept p b hp idle in
            rw idle (after (unload_resident_object_dynamic d a l p r).0 _ u.0 u.1)
      ]
    where
      after :
          (w : Outcome (Unit {0})) (r' : Resident S H)
          → Kept l spec initial r r'
          → Unloaded p r r' w
          → let e = space_after d a l layout (w, r') in
            Kept l spec initial r e.1 × Spares p r e.1 × Answers e.0
      after w r' k (gone more less) =
          let c = check_for_space-Kept layout k.books in
          (Kept-trans l spec k c.0, Spares-erase (c.1 ∙ less), answers _)
      after w r' k (remains same kept) = (k, Spares-same kept, refuses)
