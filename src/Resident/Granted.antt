-- ===== src/Resident/Granted.antt =====
-- `get_mut` of the manager: the object that it lends for writing is paid for as a whole, and what
-- happens if the sync that makes room for it unloads the object itself.
use vnv_heap.Base.{
  ℕ, ◌+◌, ◌≤◌, ◌<◌, ◌≡◌, refl, ap, ◌∙◌, true, false, not, arith, if◌then◌else◌, ◌==◌, ltb, leb, inl,
  inr, none, some, Bool-cases,
}
use vnv_heap.Base.Outcome.{Outcome, ok, err, panic}
use vnv_heap.Base.Words.{usize_mod, sub_usize}
use vnv_heap.Status.{data_dirty}
use vnv_heap.Storage.Device.{PersistentStorageModule}
use vnv_heap.Buddy.Chain.{has}
use vnv_heap.Resident.Object.{TypeLayout, ResidentObject, is_data_dirty, total_metadata_backup_size}
use vnv_heap.Resident.Persist.{
  dirty_size-make_dirty, with_flag, with_flag-IsObject, with_flag-SameData, flag-with_flag,
}
use vnv_heap.Resident.State.{Resident, Layouts, AllocatorModule, object_in_use}
use vnv_heap.Resident.Allocation.{AllocatorSpec, IsCompiled, block_layout}
use vnv_heap.Resident.Books.{Books, Kept, Kept-refl, replace-Kept, put_self}
use vnv_heap.Resident.Management.{ObjectManagementModule, IsManagement, Syncs, enough, short}
use vnv_heap.Resident.Require.{
  Manager, ◌then_call◌, find_element_mut, sync_dirty_data, require_resident,
}
use vnv_heap.Resident.References.{bytes_to_sync, make_dirty, get_mut_at, get_mut}
use vnv_heap.Resident.Insert.{Stays}
use vnv_heap.Resident.Required.{Fills, sync_dirty_data-Syncs}
use vnv_heap.Resident.Loaded.{Required, ready, unavailable as not_loaded, no_space as no_block}
use vnv_heap.Resident.Residence.{require_resident-Required}
use vnv_heap.Resident.Lent.{IsLentMut, lend_mut-Kept}

-- The bytes that a clean object costs when it is made dirty.
abbrev pub cost : ResidentObject → ℕ
cost x = if is_data_dirty x then 0 else x.layout.size

module _ {M S H : Type 0} (d : PersistentStorageModule S) (a : AllocatorModule H) (l : Layouts)
    (o : ObjectManagementModule M S H) (spec : AllocatorSpec a) (managed : IsManagement l spec o)
    (initial : ℕ) where
  -- The object at `p` of the state `r` is resident, dirty, lent for writing, and paid for, and the
  -- books have been kept since `r₀`.
  pub record Granted (p : ℕ) (r₀ r r' : Resident S H) : Type 0 where
    pub kept : Kept l spec initial r₀ r'
    pub listed : has p r'.resident_list ≡ true
    pub lent : IsLentMut (r'.objects p)
    pub dirty : is_data_dirty (r'.objects p) ≡ true
    pub paid : r'.remaining_dirty_size + cost (r.objects p) ≡ r.remaining_dirty_size

  module _ {r₀ r : Resident S H} (p : ℕ) (m : M) (k : Kept l spec initial r₀ r) where
    make_dirty-Granted :
        has p r.resident_list ≡ true
        → object_in_use (r₀.objects p) ≡ false
        → cost (r.objects p) ≤ r.remaining_dirty_size
        → let e = make_dirty d a l o p (m, r) in (e.0 ≡ ok p) × Granted p r₀ r e.1.1
    unfolding make_dirty
    make_dirty-Granted hp idle fits = elim (Bool-cases (is_data_dirty (r.objects p))) [
      | inl dirty ↦
          let g = lend_mut-Kept d a l o spec managed initial p m k hp idle in
          rw dirty (
            refl,
            record {
              kept = g.0;
              listed = rw g.1 hp;
              lent = g.3;
              dirty = g.4 ∙ dirty;
              paid = rw dirty (omega (arith, g.2));
            },
          )
      | inr clean ↦
          let x = r.objects p in
          let v = k.books.objects_valid p hp in
          let room : x.layout.size ≤ r.remaining_dirty_size = ground (arith, clean, fits) in
          let holds : leb x.layout.size r.remaining_dirty_size ≡ true = ground (arith, room) in
          let left = sub_usize r.remaining_dirty_size x.layout.size in
          let less : left + x.layout.size ≡ r.remaining_dirty_size =
            omega (arith, room, k.books.sum, k.books.fits) in
          let k' =
            replace-Kept l spec p left (with_flag data_dirty true x) r.storage k hp
              (with_flag-IsObject data_dirty true refl v) (with_flag-SameData data_dirty true x)
              (omega (arith, less, dirty_size-make_dirty v clean)) (λ u. absurd (ground arith)) in
          let self = put_self r.objects p (with_flag data_dirty true x) in
          let g = lend_mut-Kept d a l o spec managed initial p m k' hp idle in
          rw (clean, holds)
            (
              refl,
              record {
                kept = g.0;
                listed = rw g.1 hp;
                lent = g.3;
                dirty = g.4 ∙ rw self (flag-with_flag data_dirty data_dirty true v);
                paid = rw clean (omega (arith, g.2, less));
              },
            )
    ]

  -- How a request for an object to write to ends, for the resident object at `p`. Only where its bytes
  -- do not fit a sync is made, which may fail. In the case `dangling` that sync, whose state is `y`,
  -- has taken the object itself out of the list, and the call has gone on with its memory.
  pub data Grants (p : ℕ) (m : M) (r : Resident S H) : Outcome ℕ → Resident S H → Type 0 where
    granted :
        {y r' : Resident S H} → Kept l spec initial r y → Granted p r y r' → Grants p m r (ok p) r'
    dangling :
        (y : Manager M S H)
        → r.remaining_dirty_size < cost (r.objects p)
        → sync_dirty_data d a l o (bytes_to_sync d a l o p r) (m, r) ≡ (ok tt, y)
        → has p y.1.resident_list ≡ false
        → Grants p m r (make_dirty d a l o p y).0 (make_dirty d a l o p y).1.1
    denied :
        {r' : Resident S H}
        → r.remaining_dirty_size < cost (r.objects p)
        → Kept l spec initial r r'
        → Grants p m r err r'

  missing_none :
      (p : ℕ) (r : Resident S H)
      → cost (r.objects p) ≤ r.remaining_dirty_size
      → bytes_to_sync d a l o p r ≡ 0
  unfolding bytes_to_sync
  missing_none p r fits = elim (Bool-cases (is_data_dirty (r.objects p))) [
    | inl dirty ↦ rw dirty refl
    | inr clean ↦
        let enough : ltb r.remaining_dirty_size (r.objects p).layout.size ≡ false =
          ground (arith, fits, clean) in
        rw (clean, enough) refl
  ]

  module _ {r : Resident S H} (p : ℕ) (m : M) (b : Books l spec initial r) where
    -- For an allocator and an object management module that keep their laws and books in order:
    -- where there is room, `get_mut` of an object that is resident and not in use grants it: it
    -- is made dirty for the size of its data if it was clean, and lent for writing.
    pub get_mut_at-Granted :
        has p r.resident_list ≡ true
        → object_in_use (r.objects p) ≡ false
        → cost (r.objects p) ≤ r.remaining_dirty_size
        → let e = get_mut_at d a l o p (m, r) in (e.0 ≡ ok p) × Granted p r r e.1.1
    unfolding get_mut_at bytes_to_sync
    get_mut_at-Granted hp idle fits =
        let none_missing : bytes_to_sync d a l o p r ≡ 0 = missing_none p r fits in
        rw none_missing (make_dirty-Granted p m (Kept-refl l spec b) hp idle fits)

    -- The missing bytes of a clean object.
    pub missing_some :
        has p r.resident_list ≡ true
        → r.remaining_dirty_size < cost (r.objects p)
        → bytes_to_sync d a l o p r + r.remaining_dirty_size ≡ cost (r.objects p)
    unfolding bytes_to_sync
    missing_some hp lacks = elim (Bool-cases (is_data_dirty (r.objects p))) [
      | inl dirty ↦ absurd (ground (arith, dirty, lacks))
      | inr clean ↦
          let less : r.remaining_dirty_size < (r.objects p).layout.size =
            ground (arith, clean, lacks) in
          let test : ltb r.remaining_dirty_size (r.objects p).layout.size ≡ true =
            ground (arith, less) in
          rw (clean, test) (omega (arith, less, (b.objects_valid p hp).small))
    ]

    covered :
        (y : Resident S H)
        → (y.objects p).layout ≡ (r.objects p).layout
        → r.remaining_dirty_size < cost (r.objects p)
        → cost (r.objects p) ≤ y.remaining_dirty_size
        → cost (y.objects p) ≤ y.remaining_dirty_size
    covered y same lacks h =
        let size = ap (λ (x : TypeLayout). x.size) same in ground (arith, size, lacks, h)

    pub get_mut_at-Grants :
        has p r.resident_list ≡ true
        → object_in_use (r.objects p) ≡ false
        → let e = get_mut_at d a l o p (m, r) in Grants p m r e.0 e.1.1
    unfolding get_mut_at
    get_mut_at-Grants hp idle =
        elim (Bool-cases (leb (cost (r.objects p)) r.remaining_dirty_size)) [
          | inl fits ↦
              let g = get_mut_at-Granted hp idle (ground (arith, fits)) in
              rw g.0 (granted (Kept-refl l spec b) g.1)
          | inr lacks ↦
              let some_missing = missing_some hp (ground (arith, lacks)) in
              let more : not (bytes_to_sync d a l o p r == 0) ≡ true =
                ground (arith, some_missing, lacks) in
              let u = sync_dirty_data-Syncs d a l o spec managed (bytes_to_sync d a l o p r) m b in
              rw more (after (ground (arith, lacks)) some_missing _ _ refl u.0 u.1)
        ]
      where
        after :
            r.remaining_dirty_size < cost (r.objects p)
            → bytes_to_sync d a l o p r + r.remaining_dirty_size ≡ cost (r.objects p)
            → (w : Outcome (Unit {0})) (x : Manager M S H)
            → sync_dirty_data d a l o (bytes_to_sync d a l o p r) (m, r) ≡ (w, x)
            → Kept l spec initial r x.1
            → Syncs (bytes_to_sync d a l o p r) r.remaining_dirty_size x.1.remaining_dirty_size w
            → let e = (w, x) then_call (λ u y. make_dirty d a l o p y) in Grants p m r e.0 e.1.1
        after lacks all w (m', y) run k short = denied lacks k
        after lacks all w (m', y) run k (enough h) = elim (Bool-cases (has p y.resident_list)) [
          | inr gone ↦ dangling (m', y) lacks run gone
          | inl stays ↦
              let g =
                make_dirty-Granted p m' k stays idle
                  (covered y (k.same p stays).layout lacks (omega (arith, all, h))) in
              rw g.0 (granted k g.1)
        ]

-- The requests of the manager, for a type without partial dirtiness tracking whose objects are not
-- in use.
module _ {M S H : Type 0} (d : PersistentStorageModule S) (a : AllocatorModule H) (l : Layouts)
    (o : ObjectManagementModule M S H) (spec : AllocatorSpec a) (managed : IsManagement l spec o)
    (fills : Fills d) (compiled : IsCompiled l) (initial : ℕ) where
  -- How `get_mut` ends: the state `x` is the one in which `require_resident` leaves it.
  pub data Gets (layout : TypeLayout) (offset : ℕ) (m : M) (r : Resident S H)
      : Outcome ℕ → Resident S H → Type 0 where
    found :
        {p : ℕ} {w : Outcome ℕ} {r' : Resident S H} (x : Manager M S H)
        → require_resident d a l o layout offset false (m, r) ≡ (ok p, x)
        → Stays l spec initial r x.1
        → (x.1.objects p).offset ≡ offset
        → has p x.1.resident_list ≡ true
        → Grants d a l o spec managed initial p x.0 x.1 w r'
        → Gets layout offset m r w r'
    unavailable :
        (x : Manager M S H)
        → require_resident d a l o layout offset false (m, r) ≡ (err, x)
        → Kept l spec initial r x.1
        → Gets layout offset m r err x.1
    no_space :
        (x : Manager M S H) (y : Resident S H)
        → require_resident d a l o layout offset false (m, r) ≡ (panic, x)
        → Kept l spec initial r y
        → (a.allocate (block_layout l layout) y.heap).0 ≡ none
        → Gets layout offset m r panic x.1

  -- For a storage whose reads fill the buffer, an allocator and an object management module that
  -- keep their laws, and books in order; for a type without partial dirtiness tracking whose
  -- size and metadata fit `usize`, and whose object is not in use where it is resident:
  -- `get_mut` takes the object at the offset by `require_resident`, which keeps the books in
  -- order. It then ends with this object in the list, dirty, lent for writing and paid for, and
  -- the books in order. Only where the bytes that its data cost do not fit it may end otherwise:
  -- with an error and the books in order, or, where the sync that it makes for them succeeds and
  -- has taken this object itself out of the list, as marking the object's memory dirty ends in
  -- the state after that sync. Where `require_resident` ends with an error, so does `get_mut`,
  -- with the books in order, and it panics where the allocator has refused the block.
  pub get_mut-Gets :
      {r : Resident S H} (layout : TypeLayout) (offset : ℕ) (m : M)
      → layout.size + total_metadata_backup_size < usize_mod
      → Books l spec initial r
      → ((q : ℕ) → find_element_mut offset r ≡ some q → object_in_use (r.objects q) ≡ false)
      → let e = get_mut d a l o layout offset false (m, r) in Gets layout offset m r e.0 e.1.1
  unfolding get_mut
  get_mut-Gets {r} layout offset m small b idle =
      then_get _ _ refl
        (require_resident-Required d a l o spec managed fills compiled layout offset small m b)
    where
      then_get :
          (w : Outcome ℕ) (x : Manager M S H)
          → require_resident d a l o layout offset false (m, r) ≡ (w, x)
          → Required d a l o spec managed fills compiled initial layout offset r x.1 w
          → let e = (w, x) then_call (λ p y. get_mut_at d a l o p y) in
            Gets layout offset m r e.0 e.1.1
      then_get w (m', x) run (ready {p} s hp at (inl free)) =
          found (m', x) run s at hp
            (get_mut_at-Grants d a l o spec managed initial p m' s.books hp free)
      then_get w (m', x) run (ready {p} s hp at (inr (e, same))) =
          let free : object_in_use (x.objects p) ≡ false = rw same (idle p e) in
          found (m', x) run s at hp
            (get_mut_at-Grants d a l o spec managed initial p m' s.books hp free)
      then_get w x run (not_loaded k) = unavailable x run k
      then_get w x run (no_block y k e) = no_space x y run k e
