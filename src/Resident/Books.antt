-- ===== src/Resident/Books.antt =====
-- The books of the resident objects: together with the remaining dirty size, their dirty sizes are
-- the initial one, which `check_integrity` of the manager asserts.
use vnv_heap.Base.{
  ℕ, ◌+◌, ◌<◌, ◌≡◌, refl, sym, ap, ◌∙◌, true, false, arith, if◌then◌else◌, ◌==◌, ltb, inl, inr,
  fun_ext, subst, none, some, Bool-cases, ==_self,
}
use vnv_heap.Base.Words.{usize_mod}
use vnv_heap.Status.{Flag, bit_of, get_flag, in_use}
use vnv_heap.Buddy.Chain.{has}
use vnv_heap.Buddy.Remove.{erase, has-erase_sub, has-erase_ne}
use vnv_heap.Resident.Object.{ResidentObject, dirty_size}
use vnv_heap.Resident.Persist.{IsObject, SameData, SameData-refl, SameData-trans}
use vnv_heap.Resident.Total.{
  Distinct, total, total-congr, total-erase, total-change, erase-Distinct, has-erase_gone,
}
use vnv_heap.Resident.State.{Resident, Layouts, put, object_in_use, AllocatorModule}
use vnv_heap.Resident.Allocation.{Blocks, AllocatorSpec, block_layout, without_block}

abbrev pub size_of : (ℕ → ResidentObject) → ℕ → ℕ
size_of objects p = dirty_size (objects p)

-- The objects of a changed store are the new one and the old others.
pub put-each :
    (P : ℕ → ResidentObject → Type 0) (objects : ℕ → ResidentObject) (p q : ℕ) (o : ResidentObject)
    → ((q == p) ≡ true → P p o)
    → ((q == p) ≡ false → P q (objects q))
    → P q (put objects p o q)
put-each P objects p q o new old = elim (Bool-cases (q == p)) [
  | inl here ↦ let e : q ≡ p = ground arith in rw here (rw e (new here))
  | inr other ↦ rw other (old other)
]

pub put-other :
    (objects : ℕ → ResidentObject) (p q : ℕ) (o : ResidentObject)
    → (q == p) ≡ false
    → put objects p o q ≡ objects q
put-other objects p q o h = rw h refl

put-layout :
    (objects : ℕ → ResidentObject) (p q : ℕ) (o : ResidentObject)
    → o.layout ≡ (objects p).layout
    → (put objects p o q).layout ≡ (objects q).layout
put-layout objects p q o e = elim (Bool-cases (q == p)) [
  | inl here ↦ let at : q ≡ p = ground arith in rw here (rw at e)
  | inr other ↦ rw other refl
]

pub put_self : (objects : ℕ → ResidentObject) (p : ℕ) (o : ResidentObject) → put objects p o p ≡ o
put_self objects p o = rw (==_self p) refl

-- Of an object nothing but its two clock bits may have changed.
pub record Untouched (o o' : ResidentObject) : Type 0 where
  pub flags : (g : Flag) → ltb (bit_of g) 4 ≡ true → get_flag g o'.status ≡ get_flag g o.status
  pub tracking : o'.tracking ≡ o.tracking
  pub offset : o'.offset ≡ o.offset
  pub layout : o'.layout ≡ o.layout
  pub bytes : o'.bytes ≡ o.bytes

pub Untouched-refl : {o : ResidentObject} → Untouched o o
Untouched-refl = record {
  flags = λ g h. refl;
  tracking = refl;
  offset = refl;
  layout = refl;
  bytes = refl;
}

pub Untouched-trans :
    {o₁ o₂ o₃ : ResidentObject} → Untouched o₁ o₂ → Untouched o₂ o₃ → Untouched o₁ o₃
Untouched-trans u u' = record {
  flags = λ g h. u'.flags g h ∙ u.flags g h;
  tracking = u'.tracking ∙ u.tracking;
  offset = u'.offset ∙ u.offset;
  layout = u'.layout ∙ u.layout;
  bytes = u'.bytes ∙ u.bytes;
}

-- The blocks of the resident objects.
abbrev pub blocks_of : {S H : Type 0} → Layouts → Resident S H → Blocks
blocks_of l r q = if has q r.resident_list then some (block_layout l (r.objects q).layout) else none

module _ {S H : Type 0} (l : Layouts) {a : AllocatorModule H} (spec : AllocatorSpec a) where
  pub record Books (initial : ℕ) (r : Resident S H) : Type 0 where
    pub fits : initial < usize_mod
    pub distinct : Distinct r.resident_list
    pub objects_valid : (p : ℕ) → has p r.resident_list ≡ true → IsObject (r.objects p)
    pub blocks : spec.Live r.heap (blocks_of l r)
    pub sum : total (size_of r.objects) r.resident_list + r.remaining_dirty_size ≡ initial

  -- The books are in order after a step, the list has no new object, the objects in it keep their
  -- data, and an object in use stays resident and untouched.
  pub record Kept (initial : ℕ) (r r' : Resident S H) : Type 0 where
    pub books : Books initial r'
    pub shrinks : (p : ℕ) → has p r'.resident_list ≡ true → has p r.resident_list ≡ true
    pub same : (p : ℕ) → has p r'.resident_list ≡ true → SameData (r.objects p) (r'.objects p)
    pub stays :
        (p : ℕ)
        → has p r.resident_list ≡ true
        → object_in_use (r.objects p) ≡ true
        → (has p r'.resident_list ≡ true) × Untouched (r.objects p) (r'.objects p)

  pub Kept-refl : {initial : ℕ} {r : Resident S H} → Books initial r → Kept initial r r
  Kept-refl b = record {
    books = b;
    shrinks = λ p h. h;
    same = λ p h. SameData-refl;
    stays = λ p h u. (h, Untouched-refl);
  }

  pub Kept-trans :
      {initial : ℕ} {r₁ r₂ r₃ : Resident S H}
      → Kept initial r₁ r₂
      → Kept initial r₂ r₃
      → Kept initial r₁ r₃
  Kept-trans {initial} {r₁} {r₂} {r₃} k k' = record {
    books = k'.books;
    shrinks = λ p h. k.shrinks p (k'.shrinks p h);
    same = λ p h. SameData-trans (k.same p (k'.shrinks p h)) (k'.same p h);
    stays = λ p h u.
        let s = k.stays p h u in
        let s' = k'.stays p s.0 (s.1.flags in_use refl ∙ u) in (s'.0, Untouched-trans s.1 s'.1);
  }

  -- A new version of one object is paid for by the remaining dirty size.
  pub replace-Kept :
      {initial : ℕ} {r₀ r : Resident S H} (p m : ℕ) (o : ResidentObject) (s : S)
      → Kept initial r₀ r
      → has p r.resident_list ≡ true
      → IsObject o
      → SameData (r.objects p) o
      → dirty_size o + m ≡ dirty_size (r.objects p) + r.remaining_dirty_size
      → (object_in_use (r₀.objects p) ≡ true → Untouched (r.objects p) o)
      → Kept initial r₀ (record {
        storage = s;
        heap = r.heap;
        remaining_dirty_size = m;
        resident_list = r.resident_list;
        objects = put r.objects p o;
      })
  replace-Kept {initial} {r₀} {r} p m o s k₀ hp v el e same = record {
    books = record {
      fits = k₀.books.fits;
      distinct = k₀.books.distinct;
      objects_valid = λ q hq.
          put-each (λ k x. IsObject x) r.objects p q o (λ g. v) (λ g. k₀.books.objects_valid q hq);
      blocks =
          let same : blocks_of l r ≡ (λ q.
            if has q r.resident_list
            then some (block_layout l (put r.objects p o q).layout)
            else none) =
            fun_ext (λ q.
              ap (λ x. if has q r.resident_list then some (block_layout l x) else none)
                (sym (put-layout r.objects p q o el.layout))) in
          subst (spec.Live r.heap) same k₀.books.blocks;
      sum = omega (
        arith,
        e,
        k₀.books.sum,
        ap dirty_size (put_self r.objects p o),
        total-change (size_of r.objects) (size_of (put r.objects p o)) p r.resident_list
            k₀.books.distinct hp (λ q g. ap dirty_size (sym (put-other r.objects p q o g))),
      );
    };
    shrinks = λ q hq. k₀.shrinks q hq;
    same = λ q hq.
        SameData-trans (k₀.same q hq) (
          put-each (λ k x. SameData (r.objects k) x) r.objects p q o (λ g. el)
            (λ g. SameData-refl));
    stays = λ q hq u.
        let t = k₀.stays q hq u in
        (
          t.0,
          Untouched-trans t.1 (
              put-each (λ k x. object_in_use (r₀.objects k) ≡ true → Untouched (r.objects k) x)
                r.objects p q o (λ g. same) (λ g f. Untouched-refl) u),
        );
  }

  -- An object that is not in use leaves the list and gives back its whole dirty size.
  pub remove-Kept :
      {initial : ℕ} {r : Resident S H} (p m : ℕ) (o : ResidentObject) (s : S) (h : H)
      → Books initial r
      → has p r.resident_list ≡ true
      → object_in_use (r.objects p) ≡ false
      → h ≡ a.deallocate p (block_layout l (r.objects p).layout) r.heap
      → m ≡ r.remaining_dirty_size + dirty_size (r.objects p)
      → Kept initial r (record {
        storage = s;
        heap = h;
        remaining_dirty_size = m;
        resident_list = erase p r.resident_list;
        objects = put r.objects p o;
      })
  remove-Kept {initial} {r} p m o s h b hp idle eh em = record {
    books = record {
      fits = b.fits;
      distinct = erase-Distinct p r.resident_list b.distinct;
      objects_valid = λ q hq.
          let ne : (q == p) ≡ false = apart q hq in
          rw ne (b.objects_valid q (has-erase_sub q p r.resident_list hq));
      blocks =
          let freed =
            spec.deallocated (block_layout l (r.objects p).layout) r.heap (blocks_of l r) p b.blocks
              (rw hp refl) in
          rw eh (subst (spec.Live _) (fun_ext left_over) freed);
      sum = omega (
        arith,
        em,
        b.sum,
        total-erase (size_of r.objects) p r.resident_list hp,
        total-congr (size_of (put r.objects p o)) (size_of r.objects) (erase p r.resident_list)
            (λ q hq. ap dirty_size (put-other r.objects p q o (apart q hq))),
      );
    };
    shrinks = λ q hq. has-erase_sub q p r.resident_list hq;
    same = λ q hq. rw (apart q hq) SameData-refl;
    stays = λ q hq u. elim (Bool-cases (q == p)) [
      | inl here ↦
          let e : q ≡ p = ground arith in
          absurd (ground (arith, ap (λ k. object_in_use (r.objects k)) e))
      | inr other ↦
          (has-erase_ne q p r.resident_list (λ e. ground (arith)) ∙ hq, rw other Untouched-refl)
    ];
  }
    where
      left_over :
          (q : ℕ)
          → without_block p (blocks_of l r) q ≡ (
              if has q (erase p r.resident_list)
              then some (block_layout l (put r.objects p o q).layout)
              else none)
      left_over q = elim (Bool-cases (q == p)) [
        | inl here ↦
            let at : q ≡ p = ground arith in
            rw (here, at, has-erase_gone p r.resident_list b.distinct) refl
        | inr other ↦ rw (other, has-erase_ne q p r.resident_list (λ e. ground (arith))) refl
      ]

      apart : (q : ℕ) → has q (erase p r.resident_list) ≡ true → (q == p) ≡ false
      apart q hq = elim (Bool-cases (q == p)) [
        | inl here ↦
            let e : q ≡ p = ground arith in
            let gone = has-erase_gone p r.resident_list b.distinct in
            absurd (ground (arith, rw e at hq))
        | inr other ↦ other
      ]

  -- Another heap with the same blocks.
  pub heap-Kept :
      {initial : ℕ} {r : Resident S H} {h : H}
      → Books initial r
      → spec.Live h (blocks_of l r)
      → Kept initial r (record r { heap = h })
  heap-Kept b live = record {
    books = record {
      fits = b.fits;
      distinct = b.distinct;
      objects_valid = b.objects_valid;
      blocks = live;
      sum = b.sum;
    };
    shrinks = λ p m. m;
    same = λ p m. SameData-refl;
    stays = λ p m u. (m, Untouched-refl);
  }
