-- ===== src/NvList/Remove.antt =====
-- `remove_where` on the entries, over a storage that keeps its laws.
use vnv_heap.Base.{
  ℕ, zero, suc, ◌+◌, ◌≤◌, ◌<◌, ◌≡◌, refl, sym, ap, ◌∙◌, subst, subst₂, Bool, true, false, inl, inr,
  List, [], ◌∷◌, ◌++◌, some, arith, if◌then◌else◌, ◌==◌, length, Bool-cases,
}
use vnv_heap.Base.Outcome.{Outcome, ok}
use vnv_heap.Base.Words.{usize_mod, usize_size, add_usize}
use vnv_heap.Storage.Device.{PersistentStorageModule, IsReliable}
use vnv_heap.Storage.Encoding.{Layout, to_bytes, length-to_bytes}
use vnv_heap.NvList.State.{
  next_null, NonResidentLinkedList, read_item, unlink, remove_round, remove_loop, remove_where,
}
use vnv_heap.NvList.Stored.{Entries, first, Stored}
use vnv_heap.NvList.Push.{Represents, read_first, Stored-same}
use vnv_heap.NvList.Relink.{Stored-relink}

-- The entries that stay, and how many go.
pub survivors : {T : Type 0} → Bool → (ℕ → T → Bool) → Entries T → Entries T
survivors single f [] = []
survivors single f (e ∷ es) =
    if f e.0 e.1 then (if single then es else survivors single f es) else e ∷ survivors single f es

pub removed : {T : Type 0} → Bool → (ℕ → T → Bool) → Entries T → ℕ
removed single f [] = 0
removed single f (e ∷ es) =
    if f e.0 e.1 then (if single then 1 else suc (removed single f es)) else removed single f es

-- What the loop has kept: nothing, or entries of which the last is at `prev`.
data Kept (T : Type 0) : Type 0 where
  at_start : Kept T
  behind : Entries T → ℕ × T → Kept T

abbrev fill : {T : Type 0} → Kept T → Entries T → Entries T
fill at_start es = es
fill (behind zs a) es = zs ++ a ∷ es

abbrev prev_of : {T : Type 0} → Kept T → ℕ
prev_of at_start = next_null
prev_of (behind zs a) = a.0

abbrev keep : {T : Type 0} → Kept T → ℕ × T → Kept T
keep at_start e = behind [] e
keep (behind zs a) e = behind (zs ++ a ∷ []) e

snoc-append :
    {T : Type 0} (zs : Entries T) (a : ℕ × T) (es : Entries T) → (zs ++ a ∷ []) ++ es ≡ zs ++ a ∷ es
snoc-append [] a es = refl
snoc-append (z ∷ zs) a es = ap (◌∷◌ z) (snoc-append zs a es)

if_false : {A : Type 0} {b : Bool} (x y : A) → b ≡ false → (if b then x else y) ≡ y
if_false x y e = rw e refl

fill-keep :
    {T : Type 0} (k : Kept T) (e : ℕ × T) (es : Entries T) → fill (keep k e) es ≡ fill k (e ∷ es)
fill-keep at_start e es = refl
fill-keep (behind zs a) e es = snoc-append zs a (e ∷ es)

module _ {S T : Type 0} {d : PersistentStorageModule S} (t : Layout T) (r : IsReliable d) where
  Stored-tail :
      (m : ℕ) (s : S) (zs es : Entries T)
      → Stored t m (r.contents s) (zs ++ es)
      → Stored t m (r.contents s) es
  Stored-tail m s [] es st = st
  Stored-tail m s (z ∷ zs) es st = Stored-tail m s zs es st.3

  Stored-fill :
      (m : ℕ) (s : S) (k : Kept T) (es : Entries T)
      → Stored t m (r.contents s) (fill k es)
      → Stored t m (r.contents s) es
  Stored-fill m s at_start es st = st
  Stored-fill m s (behind zs a) es st = (Stored-tail m s zs (a ∷ es) st).3

  -- The list with the item at the front of the rest read and taken out.
  unlink-Represents :
      (k : Kept T) (e : ℕ × T) (es : Entries T) (l : NonResidentLinkedList S)
      → Represents t r l (fill k (e ∷ es))
      → (l' : NonResidentLinkedList S) × (unlink d t (prev_of k) e.0 (first es) l ≡ (true, l'))
        × Represents t r l' (fill k es)
  unfolding unlink
  unlink-Represents at_start e es l p = (
    record { head = first es; storage = d.forget_region e.0 (usize_size + t.size) l.storage },
    refl,
    record {
      starts = refl;
      stored =
          Stored-same t r l.storage _ es (r.forget_keeps e.0 (usize_size + t.size) l.storage)
            (r.forget_size e.0 (usize_size + t.size) l.storage) p.stored.3;
    },
  )
  unlink-Represents (behind zs (o, x)) e es l p =
      let bytes : List ℕ = to_bytes usize_size (first es) in
      let at_prev =
        Stored-tail (d.get_max_size l.storage) l.storage zs ((o, x) ∷ e ∷ es) p.stored in
      let fits : o + length bytes ≤ d.get_max_size l.storage =
        omega (arith, at_prev.0, length-to_bytes 8 (first es)) in
      let some_prev : (o == next_null) ≡ false =
        ground (arith, at_prev.0, r.addressable l.storage) in
      let s₁ : S = (d.write o bytes l.storage).1 in
      let s₂ : S = d.forget_region e.0 (usize_size + t.size) s₁ in
      (
        record l { storage = s₂ },
        rw (some_prev, r.write_done o bytes l.storage fits) refl,
        record {
          starts = p.starts ∙ first_same zs;
          stored =
              subst₂ (λ m b. Stored t m b (zs ++ (o, x) ∷ es))
                (sym (r.forget_size e.0 (usize_size + t.size) s₁ ∙ r.write_size o bytes l.storage))
                (sym (
                  r.forget_keeps e.0 (usize_size + t.size) s₁
                  ∙ r.write_stores o bytes l.storage fits))
                (Stored-relink t (d.get_max_size l.storage) (r.contents l.storage) zs o x e es
                  p.stored);
        },
      )
    where
      first_same : (ys : Entries T) → first (ys ++ (o, x) ∷ e ∷ es) ≡ first (ys ++ (o, x) ∷ es)
      first_same [] = refl
      first_same (y ∷ ys) = refl

  -- One round on a list with a rest reads its first item.
  loop_round :
      (single : Bool) (f : ℕ → T → Bool) (k : Kept T) (o : ℕ) (x : T) (es : Entries T)
      (fuel counter : ℕ) (l : NonResidentLinkedList S)
      → Stored t (d.get_max_size l.storage) (r.contents l.storage) ((o, x) ∷ es)
      → remove_loop d t (suc fuel) single f (prev_of k) o counter l
        ≡ remove_round d t single f
            (prev_of k)
            o
            counter
            (record l { storage = (read_item d t o l.storage).1 })
            (remove_loop d t fuel single f)
            (some (record { next = first es; value = x }))
  unfolding remove_loop
  loop_round single f k o x es fuel counter l st =
      let used : (o == next_null) ≡ false = ground (arith, st.0, r.addressable l.storage) in
      rw used (
        ap
          (remove_round d t single f (prev_of k) o counter
            (record l { storage = (read_item d t o l.storage).1 }) (remove_loop d t fuel single f))
          ((read_first t r l.storage (o, x) es st).0))

  read-Represents :
      (k : Kept T) (o : ℕ) (x : T) (es : Entries T) (l : NonResidentLinkedList S)
      → Represents t r l (fill k ((o, x) ∷ es))
      → Represents t r (record l { storage = (read_item d t o l.storage).1 }) (fill k ((o, x) ∷ es))
  read-Represents k o x es l p =
      let st = Stored-fill (d.get_max_size l.storage) l.storage k ((o, x) ∷ es) p.stored in
      let q = read_first t r l.storage (o, x) es st in
      record {
        starts = p.starts;
        stored = Stored-same t r l.storage _ (fill k ((o, x) ∷ es)) q.1 q.2 p.stored;
      }

  module _ (single : Bool) (f : ℕ → T → Bool) (k : Kept T) (o : ℕ) (x : T) (es : Entries T)
      (fuel counter : ℕ) (l : NonResidentLinkedList S)
      (p : Represents t r l (fill k ((o, x) ∷ es))) where
    abbrev l₁ : NonResidentLinkedList S
    l₁ = record l { storage = (read_item d t o l.storage).1 }

    enter :
        remove_loop d t (suc fuel) single f (prev_of k) o counter l
        ≡ remove_round d t single f
            (prev_of k)
            o
            counter
            l₁
            (remove_loop d t fuel single f)
            (some (record { next = first es; value = x }))
    enter =
        loop_round single f k o x es fuel counter l
          (Stored-fill (d.get_max_size l.storage) l.storage k ((o, x) ∷ es) p.stored)

    -- A round in which the test holds takes the item out.
    hit_round :
        f o x ≡ true
        → counter + 1 < usize_mod
        → (l₂ : NonResidentLinkedList S) × (remove_loop d t
              (suc fuel)
              single
              f
              (prev_of k)
              o
              counter
              l
            ≡ (if single
                then (ok (counter + 1), l₂)
                else remove_loop d t fuel single f (prev_of k) (first es) (counter + 1) l₂))
          × Represents t r l₂ (fill k es)
    unfolding remove_round
    hit_round hit small =
        let (l₂, u, q) = unlink-Represents k (o, x) es l₁ (read-Represents k o x es l p) in
        let one_more : add_usize counter 1 ≡ counter + 1 = omega arith in
        (l₂, enter ∙ rw (hit, u, one_more) refl, q)

    -- A round in which it does not hold keeps the item.
    miss_round :
        f o x ≡ false
        → (remove_loop d t (suc fuel) single f (prev_of k) o counter l
            ≡ remove_loop d t fuel single f (prev_of (keep k (o, x))) (first es) counter l₁)
          × Represents t r l₁ (fill (keep k (o, x)) es)
    unfolding remove_round
    miss_round miss =
        (enter ∙ rw miss (same_prev k), rw (fill-keep k (o, x) es) (read-Represents k o x es l p))
      where
        same_prev :
            (k' : Kept T)
            → remove_loop d t fuel single f o (first es) counter l₁
              ≡ remove_loop d t fuel single f (prev_of (keep k' (o, x))) (first es) counter l₁
        same_prev at_start = refl
        same_prev (behind zs a) = refl

  loop-survivors :
      (single : Bool) (f : ℕ → T → Bool) (es : Entries T) (k : Kept T) (fuel counter : ℕ)
      (l : NonResidentLinkedList S)
      → Represents t r l (fill k es)
      → length es < fuel
      → counter + length es < usize_mod
      → (l' : NonResidentLinkedList S) × (remove_loop d t fuel single f
            (prev_of k)
            (first es)
            counter
            l
          ≡ (ok (counter + removed single f es), l'))
        × Represents t r l' (fill k (survivors single f es))
  unfolding survivors removed
  loop-survivors single f es k zero counter l p lt small = absurd (omega arith)
  loop-survivors single f [] k (suc fuel) counter l p lt small =
      let z : counter + 0 ≡ counter = omega arith in (l, (unfold remove_loop in rw z refl), p)
  loop-survivors single f ((o, x) ∷ es) k (suc fuel) counter l p lt small =
      elim (Bool-cases (f o x)) [
        | inl hit ↦
            let (l₂, go, q) = hit_round single f k o x es fuel counter l p hit (omega arith) in
            elim (Bool-cases single) [
              | inl one ↦
                  let kept : es ≡ survivors single f ((o, x) ∷ es) = rw (hit, one) refl in
                  (l₂, go ∙ rw (one, hit) refl, subst (λ xs. Represents t r l₂ (fill k xs)) kept q)
              | inr many ↦
                  let (l', rest, q') =
                    loop-survivors single f es k fuel (counter + 1) l₂ q (omega arith)
                      (omega arith) in
                  let out : ℕ → Outcome ℕ × NonResidentLinkedList S = (λ n. (ok n, l')) in
                  let sum : counter + 1 + removed single f es
                      ≡ counter + removed single f ((o, x) ∷ es) =
                    (let more : removed single f ((o, x) ∷ es) ≡ suc (removed single f es) =
                        rw hit (if_false _ _ many) in
                      rw more (omega arith)) in
                  let kept : survivors single f es ≡ survivors single f ((o, x) ∷ es) =
                    sym (rw hit (if_false _ _ many)) in
                  (
                    l',
                    go ∙ if_false _ _ many ∙ rest ∙ ap out sum,
                    subst (λ xs. Represents t r l' (fill k xs)) kept q',
                  )
            ]
        | inr miss ↦
            let (go, q) = miss_round single f k o x es fuel counter l p miss in
            let (l', rest, q') =
              loop-survivors single f es (keep k (o, x)) fuel counter
                (l₁ single f k o x es fuel counter l p) q (omega arith) (omega arith) in
            let out : ℕ → Outcome ℕ × NonResidentLinkedList S = (λ n. (ok n, l')) in
            let sum : counter + removed single f es ≡ counter + removed single f ((o, x) ∷ es) =
              rw miss refl in
            let kept : (o, x) ∷ survivors single f es ≡ survivors single f ((o, x) ∷ es) =
              rw miss refl in
            (
              l',
              go ∙ rest ∙ ap out sum,
              subst (Represents t r l')
                  (fill-keep k (o, x) (survivors single f es) ∙ ap (fill k) kept) q',
            )
      ]

  -- Over a storage that keeps its laws, on a list of less than 2 ^ 64 entries, with one round for
  -- each entry and one more, `remove_where` takes out every entry at which the test holds, or the
  -- first of them where `single_item` is set, keeps the others in their order, and returns how
  -- many it took out.
  pub remove_where-survivors :
      (single_item : Bool) (f : ℕ → T → Bool) (es : Entries T) (fuel : ℕ)
      (l : NonResidentLinkedList S)
      → Represents t r l es
      → length es < fuel
      → length es < usize_mod
      → (l' : NonResidentLinkedList S) × (remove_where d t fuel single_item f l
          ≡ (ok (removed single_item f es), l'))
        × Represents t r l' (survivors single_item f es)
  unfolding remove_where
  remove_where-survivors single_item f es fuel l p lt small =
      let (l', go, q) = loop-survivors single_item f es at_start fuel 0 l p lt (omega arith) in
      let z : 0 + removed single_item f es ≡ removed single_item f es = omega arith in
      let out : ℕ → Outcome ℕ × NonResidentLinkedList S = (λ n. (ok n, l')) in
      (l', ap (λ h. remove_loop d t fuel single_item f next_null h 0 l) p.starts ∙ go ∙ ap out z, q)
