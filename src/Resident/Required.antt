-- ===== src/Resident/Required.antt =====
-- What `require_resident` of the manager gives, for objects without partial dirtiness tracking.
use vnv_heap.Base.{
  ℕ, ◌≤◌, ◌<◌, ◌≡◌, refl, true, List, arith, ◌==◌, ltb, leb, inl, inr, Option, none, some,
  Bool-cases, length,
}
use vnv_heap.Base.Outcome.{Outcome, ok, err, panic}
use vnv_heap.Base.Words.{usize_mod, add_usize, sub_usize}
use vnv_heap.Storage.Device.{PersistentStorageModule}
use vnv_heap.Resident.Object.{TypeLayout}
use vnv_heap.Resident.State.{Resident, Layouts, AllocatorModule}
use vnv_heap.Resident.Allocation.{AllocatorSpec, given_back}
use vnv_heap.Resident.Books.{Books, Kept, Kept-refl, Kept-trans, heap-Kept, blocks_of}
use vnv_heap.Resident.Management.{
  ObjectManagementModule, IsManagement, Syncs, enough, short, OkOrErr, went, erred,
}
use vnv_heap.Resident.Require.{
  Manager, ◌then_call◌, assert_enough, sync_dirty_data, allocate_block, expect_address, make_space,
  make_dirty_space,
}

-- `read` fills the buffer that it is given, where it succeeds.
abbrev pub Fills : {S : Type 0} → PersistentStorageModule S → Type 0
Fills {S} d = (o n : ℕ) (s : S) (bytes : List ℕ) → (d.read o n s).0 ≡ some bytes → length bytes ≡ n

module _ {M S H : Type 0} (d : PersistentStorageModule S) (a : AllocatorModule H) (l : Layouts)
    (o : ObjectManagementModule M S H) (spec : AllocatorSpec a)
    (managed : IsManagement l spec o) where
  -- `sync_dirty_data` of the manager keeps the books. Its `assert!` does not fail.
  pub sync_dirty_data-Syncs :
      {initial : ℕ} {r : Resident S H} (required : ℕ) (m : M)
      → Books l spec initial r
      → let e = sync_dirty_data d a l o required (m, r) in
        Kept l spec initial r e.1.1
        × Syncs required r.remaining_dirty_size e.1.1.remaining_dirty_size e.0
  unfolding sync_dirty_data
  sync_dirty_data-Syncs {initial} {r} required m b = elim (Bool-cases (required == 0)) [
    | inl nothing ↦ rw nothing (Kept-refl l spec b, enough (ground arith))
    | inr some_bytes ↦
        let k = managed.sync_kept required m b in
        rw some_bytes (asserted (o.sync_dirty_data required m r).0 _ k.0 k.1)
  ]
    where
      asserted :
          (w : Outcome (Unit {0})) (x : Manager M S H)
          → Kept l spec initial r x.1
          → Syncs required r.remaining_dirty_size x.1.remaining_dirty_size w
          → let e = (w, x) then_call assert_enough d a l o r.remaining_dirty_size required in
            Kept l spec initial r e.1.1
            × Syncs required r.remaining_dirty_size e.1.1.remaining_dirty_size e.0
      asserted w x k (enough h) =
          let holds : leb (add_usize r.remaining_dirty_size required) x.1.remaining_dirty_size
              ≡ true =
            ground (arith, k.books.sum, k.books.fits) in
          rw holds (k, enough h)
      asserted w x k short = (k, short)

  -- The allocation of a block with at least `need` bytes left to be made dirty. It panics only in a
  -- state in which the allocator has no space, although objects were unloaded for it.
  pub data Allocated (initial need : ℕ) (layout : TypeLayout) (r r' : Resident S H)
      : Outcome ℕ → Type 0 where
    got :
        (x : Resident S H) {q : ℕ}
        → Kept l spec initial r x
        → need ≤ x.remaining_dirty_size
        → (a.allocate layout x.heap).0 ≡ some q
        → r' ≡ (record x { heap = (a.allocate layout x.heap).1 })
        → Allocated initial need layout r r' (ok q)
    refused : Kept l spec initial r r' → Allocated initial need layout r r' err
    exhausted :
        (x : Resident S H)
        → Kept l spec initial r x
        → (a.allocate layout x.heap).0 ≡ none
        → Allocated initial need layout r r' panic

  expect-Allocated :
      {initial need : ℕ} {r : Resident S H} (layout : TypeLayout) (m : M) (x : Resident S H)
      → Kept l spec initial r x
      → need ≤ x.remaining_dirty_size
      → let e = expect_address d a l o (allocate_block d a l o layout x) m in
        Allocated initial need layout r e.1.1 e.0
  expect-Allocated {initial} {need} {r} layout m x k fits = go (a.allocate layout x.heap).0 refl
    where
      go :
          (w : Option ℕ)
          → (a.allocate layout x.heap).0 ≡ w
          → let e =
              expect_address d a l o (w, record x { heap = (a.allocate layout x.heap).1 }) m in
            Allocated initial need layout r e.1.1 e.0
      go none e = exhausted x k e
      go (some q) e = got x k fits e refl

  pub make_space-Allocated :
      {initial : ℕ} {r : Resident S H} (layout : TypeLayout) (m : M)
      → Books l spec initial r
      → let e = make_space d a l o layout (allocate_block d a l o layout r) m in
        Allocated initial 0 layout r e.1.1 e.0
  make_space-Allocated {initial} {r} layout m b = go (a.allocate layout r.heap).0 refl
    where
      again :
          (w : Outcome (Unit {0})) (x : Manager M S H)
          → Kept l spec initial r x.1
          → OkOrErr w
          → let e =
              (w, x)
              then_call (λ u y. expect_address d a l o (allocate_block d a l o layout y.1) y.0) in
            Allocated initial 0 layout r e.1.1 e.0
      again w x k went = expect-Allocated layout x.0 x.1 k (omega arith)
      again w x k erred = refused k

      go :
          (w : Option ℕ)
          → (a.allocate layout r.heap).0 ≡ w
          → let e =
              make_space d a l o layout (w, record r { heap = (a.allocate layout r.heap).1 }) m in
            Allocated initial 0 layout r e.1.1 e.0
      go (some q) e = got r (Kept-refl l spec b) (omega arith) e refl
      go none e =
          let k = heap-Kept l spec b (spec.refused layout r.heap _ b.blocks e) in
          let u = managed.unload_kept layout m k.books in again _ _ (Kept-trans l spec k u.0) u.1

  pub make_dirty_space-Allocated :
      {initial : ℕ} {r : Resident S H} (need : ℕ) (layout : TypeLayout) (m : M) (x : Resident S H)
      (q : ℕ)
      → need < usize_mod
      → Kept l spec initial r x
      → (a.allocate layout x.heap).0 ≡ some q
      → let e =
          make_dirty_space d a l o need layout q
            (m, record x { heap = (a.allocate layout x.heap).1 }) in
        Allocated initial need layout r e.1.1 e.0
  unfolding make_dirty_space
  make_dirty_space-Allocated {initial} {r} need layout m x q small k e =
      elim (Bool-cases (ltb x.remaining_dirty_size need)) [
        | inr fits ↦ rw fits (got x k (ground arith) e refl)
        | inl lacks ↦
            let b = k.books in
            let g =
              heap-Kept l spec b (given_back spec layout x.heap (blocks_of l x) q b.blocks e) in
            let u = sync_dirty_data-Syncs (sub_usize need x.remaining_dirty_size) m g.books in
            rw lacks (again lacks _ _ (Kept-trans l spec k (Kept-trans l spec g u.0)) u.1)
      ]
    where
      again :
          ltb x.remaining_dirty_size need ≡ true
          → (w : Outcome (Unit {0})) (y : Manager M S H) → Kept l spec initial r y.1
          → Syncs
              (sub_usize need x.remaining_dirty_size)
              x.remaining_dirty_size
              y.1.remaining_dirty_size
              w
          → let e =
              (w, y)
              then_call (λ u z. expect_address d a l o (allocate_block d a l o layout z.1) z.0) in
            Allocated initial need layout r e.1.1 e.0
      again lacks w y k' (enough h) =
          expect-Allocated layout y.0 y.1 k' (ground (arith, h, lacks, small))
      again lacks w y k' short = refused k'
