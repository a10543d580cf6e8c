-- ===== src/Storage/SlicedRead.antt =====
-- Reading in slices gives what one read gives.
use native.Mathlib.Decide.{dec_le}
use vnv_heap.Base.{
  ℕ, zero, suc, ◌+◌, ◌-◌, ◌≤◌, ◌<◌, ◌≡◌, refl, sym, ap, ◌∙◌, inl, inr, Option, none, some, List, [],
  ◌∷◌, ◌++◌, min, arith, ltb, ltb→lt, Bool-cases,
}
use vnv_heap.Base.Words.{usize_mod, add_usize}
use vnv_heap.Storage.Bytes.{Contents, slice, slice-append}
use vnv_heap.Storage.Device.{PersistentStorageModule, IsReliable}
use vnv_heap.Storage.Sliced.{join, read_slices}

pub append-none : (xs : List ℕ) → xs ++ [] ≡ xs
append-none [] = refl
append-none (x ∷ xs) = ap (λ ys. x ∷ ys) (append-none xs)

-- The first slice and what is after it.
slice-split :
    (b : Contents) (o rel size len : ℕ)
    → rel < len
    → slice b (o + rel) (min (rel + size) len - rel)
        ++ slice b (o + (rel + size)) (len - (rel + size))
      ≡ slice b (o + rel) (len - rel)
unfolding slice
slice-split b o rel size len lt = elim (dec_le (rel + size) len) [
  | yes le ↦
      let k : min (rel + size) len - rel ≡ size = omega arith in
      let p : o + (rel + size) ≡ o + rel + size = omega arith in
      let w : len - rel ≡ size + (len - (rel + size)) = omega arith in
      rw (k, p, w) (sym (slice-append b (o + rel) size (len - (rel + size))))
  | no gt ↦
      let k : min (rel + size) len - rel ≡ len - rel = omega arith in
      let z : len - (rel + size) ≡ 0 = omega arith in
      rw (k, z) (append-none (slice b (o + rel) (len - rel)))
]

join-state :
    {S : Type 0} (P : S → Type 0) (x y : Option (List ℕ) × S) → P x.1 → P y.1 → P (join x y).1
join-state P (none, s) y p q = p
join-state P (some bytes, s) (none, s') p q = q
join-state P (some bytes, s) (some more, s') p q = q

join-some :
    {S : Type 0} (x y : Option (List ℕ) × S) (bytes more : List ℕ)
    → x.0 ≡ some bytes
    → y.0 ≡ some more
    → (join x y).0 ≡ some (bytes ++ more)
join-some x y bytes more e e' = rw (e, e') refl

module _ {S : Type 0} {d : PersistentStorageModule S} (r : IsReliable d) (size : ℕ) where
  abbrev Same : S → S → Type 0
  Same s s' = (r.contents s' ≡ r.contents s) × (d.get_max_size s' ≡ d.get_max_size s)

  pub read_slices-Same :
      (fuel o len rel : ℕ) (s : S) → Same s (read_slices size d fuel o len rel s).1
  unfolding read_slices
  read_slices-Same zero o len rel s = (refl, refl)
  read_slices-Same (suc fuel) o len rel s =
      let n : ℕ = min (add_usize rel size) len - rel in
      let c = r.read_keeps (add_usize o rel) n s in
      let m = r.read_size (add_usize o rel) n s in
      let s₁ : S = (d.read (add_usize o rel) n s).1 in
      let later = read_slices-Same fuel o len (add_usize rel size) s₁ in
      elim (Bool-cases (ltb rel len)) [
        | inr done ↦ rw done (refl, refl)
        | inl more ↦ rw more (
            join-state (Same s) (d.read (add_usize o rel) n s)
              (read_slices size d fuel o len (add_usize rel size) s₁) (c, m)
              (later.0 ∙ c, later.1 ∙ m))
      ]

  pub read_slices-slice :
      (fuel o len rel : ℕ) (s : S)
      → 0 < size
      → len - rel < fuel
      → o + len ≤ d.get_max_size s
      → size + d.get_max_size s < usize_mod
      → (read_slices size d fuel o len rel s).0 ≡ some (slice (r.contents s) (o + rel) (len - rel))
  unfolding read_slices
  read_slices-slice zero o len rel s pos enough inside fits = absurd (omega arith)
  read_slices-slice (suc fuel) o len rel s pos enough inside fits =
      elim (Bool-cases (ltb rel len)) [
        | inr done ↦ rw done (let z : len - rel ≡ 0 = ground arith in rw z (unfold slice in refl))
        | inl more ↦
            let lt : rel < len = ltb→lt rel len more in
            let here : add_usize o rel ≡ o + rel = omega arith in
            let next : add_usize rel size ≡ rel + size = omega arith in
            let n : ℕ = min (rel + size) len - rel in
            let s₁ : S = (d.read (o + rel) n s).1 in
            let c = r.read_keeps (o + rel) n s in
            let m = r.read_size (o + rel) n s in
            rw (more, here, next)
              (join-some (d.read (o + rel) n s) (read_slices size d fuel o len (rel + size) s₁)
                  (slice (r.contents s) (o + rel) n)
                  (slice (r.contents s) (o + (rel + size)) (len - (rel + size)))
                  (r.read_gives (o + rel) n s (omega arith))
                  (read_slices-slice fuel o len (rel + size) s₁ pos (omega arith) (rw m inside)
                      (rw m fits)
                    ∙ rw c refl)
                ∙ ap some (slice-split (r.contents s) o rel size len lt))
      ]
