-- ===== src/Storage/SlicedWrite.antt =====
-- Writing in slices stores what one write stores.
use native.Mathlib.Decide.{dec_le, ℕ_discrete}
use vnv_heap.Base.{
  ℕ, zero, suc, ◌+◌, ◌-◌, ◌≤◌, ◌<◌, ◌≡◌, refl, sym, ap, ◌∙◌, fun_ext, Bool, true, false, inl, inr,
  List, [], ◌∷◌, ◌++◌, ==_self, min, arith, if◌then◌else◌, ◌==◌, ltb, ltb→lt, length, take, drop,
  Bool-cases, take-append-drop,
}
use vnv_heap.Base.Words.{usize_mod, add_usize}
use vnv_heap.Storage.Bytes.{Contents, patch, patch_outside}
use vnv_heap.Storage.Device.{PersistentStorageModule, IsReliable}
use vnv_heap.Storage.Sliced.{write_slices}
use vnv_heap.Storage.SlicedRead.{append-none}

length-take-min : (n : ℕ) (xs : List ℕ) → length (take n xs) ≡ min n (length xs)
length-take-min zero xs = omega arith
length-take-min (suc n) [] = omega arith
length-take-min (suc n) (x ∷ xs) = omega (arith, length-take-min n xs)

length-drop-sub : (n : ℕ) (xs : List ℕ) → length (drop n xs) ≡ length xs - n
length-drop-sub zero xs = omega arith
length-drop-sub (suc n) [] = omega arith
length-drop-sub (suc n) (x ∷ xs) = omega (arith, length-drop-sub n xs)

drop-drop : (n m : ℕ) (xs : List ℕ) → drop m (drop n xs) ≡ drop (n + m) xs
drop-drop zero m xs = let z : 0 + m ≡ m = omega arith in rw z refl
drop-drop (suc n) zero [] = let z : suc n + 0 ≡ suc n = omega arith in rw z refl
drop-drop (suc n) (suc m) [] = let z : suc n + suc m ≡ suc (n + suc m) = omega arith in rw z refl
drop-drop (suc n) m (x ∷ xs) =
    let z : suc n + m ≡ suc (n + m) = omega arith in rw z (drop-drop n m xs)

patch-congr :
    (b c : Contents) (o : ℕ) (xs : List ℕ) (a : ℕ) → b a ≡ c a → patch b o xs a ≡ patch c o xs a
unfolding patch
patch-congr b c o [] a e = e
patch-congr b c o (x ∷ xs) a e = ap (λ y. if o == a then x else y) (patch-congr b c (o + 1) xs a e)

-- Two writes, the second right behind the first, are one.
patch-append :
    (b : Contents) (o : ℕ) (xs ys : List ℕ) (a : ℕ)
    → patch (patch b o xs) (o + length xs) ys a ≡ patch b o (xs ++ ys) a
unfolding patch
patch-append b o [] ys a = let z : o + 0 ≡ o = omega arith in rw z refl
patch-append b o (x ∷ xs) ys a =
    let p : o + suc (length xs) ≡ o + 1 + length xs = omega arith in
    elim (ℕ_discrete o a) [
      | yes e ↦ rw (← e) (
          patch_outside (patch b o (x ∷ xs)) (o + suc (length xs)) ys o (inl (omega arith))
          ∙ rw (==_self o) refl)
      | no ne ↦
          let f : (o == a) ≡ false = ground arith in
          patch-congr (patch b o (x ∷ xs)) (patch b (o + 1) xs) (o + suc (length xs)) ys a
            (rw f refl)
          ∙ rw (p, f) (patch-append b (o + 1) xs ys a)
    ]

drop_all : (n : ℕ) (xs : List ℕ) → length xs ≤ n → drop n xs ≡ []
drop_all zero [] h = refl
drop_all zero (x ∷ xs) h = absurd (omega arith)
drop_all (suc n) [] h = refl
drop_all (suc n) (x ∷ xs) h = drop_all n xs (omega arith)

-- The bytes of the slice at `rel`.
abbrev chunk : ℕ → List ℕ → ℕ → List ℕ
chunk size src rel = take (min (rel + size) (length src) - rel) (drop rel src)

length-chunk :
    (size rel : ℕ) (src : List ℕ)
    → rel < length src
    → length (chunk size src rel) ≡ min (rel + size) (length src) - rel
length-chunk size rel src lt =
    let a = length-take-min (min (rel + size) (length src) - rel) (drop rel src) in
    omega (arith, a, length-drop-sub rel src)

patch-split :
    (b : Contents) (o rel size : ℕ) (src : List ℕ)
    → rel < length src
    → patch (patch b (o + rel) (chunk size src rel)) (o + (rel + size)) (drop (rel + size) src)
      ≡ patch b (o + rel) (drop rel src)
patch-split b o rel size src lt = elim (dec_le (rel + size) (length src)) [
  | yes le ↦
      let len : length (chunk size src rel) ≡ size = omega (arith, length-chunk size rel src lt) in
      let k : min (rel + size) (length src) - rel ≡ size = omega arith in
      let p : o + (rel + size) ≡ o + rel + length (chunk size src rel) = omega (arith, len) in
      let whole : chunk size src rel ++ drop (rel + size) src ≡ drop rel src =
        rw (k, ← drop-drop rel size src) (take-append-drop size (drop rel src)) in
      rw p (
        fun_ext (λ a. patch-append b (o + rel) (chunk size src rel) (drop (rel + size) src) a)
        ∙ ap (patch b (o + rel)) whole)
  | no gt ↦
      let gone : drop (rel + size) src ≡ [] = drop_all (rel + size) src (omega arith) in
      let k : min (rel + size) (length src) - rel ≡ length src - rel = omega arith in
      let rest : drop (length src - rel) (drop rel src) ≡ [] =
        drop_all (length src - rel) (drop rel src) (omega (arith, length-drop-sub rel src)) in
      let whole : take (length src - rel) (drop rel src) ≡ drop rel src =
        sym (append-none (take (length src - rel) (drop rel src)))
        ∙ ap (λ ys. take (length src - rel) (drop rel src) ++ ys) (sym rest)
        ∙ take-append-drop (length src - rel) (drop rel src) in
      rw (gone, k, whole) (unfold patch in refl)
]

module _ {S : Type 0} {d : PersistentStorageModule S} (r : IsReliable d) (size : ℕ) where
  pub write_slices-size :
      (fuel o : ℕ) (src : List ℕ) (rel : ℕ) (s : S)
      → d.get_max_size (write_slices size d fuel o src rel s).1 ≡ d.get_max_size s
  unfolding write_slices
  write_slices-size zero o src rel s = refl
  write_slices-size (suc fuel) o src rel s =
      let bytes : List ℕ = take (min (add_usize rel size) (length src) - rel) (drop rel src) in
      let w : Bool × S = d.write (add_usize o rel) bytes s in
      let m = r.write_size (add_usize o rel) bytes s in
      elim (Bool-cases (ltb rel (length src))) [
        | inr done ↦ rw done refl
        | inl more ↦ elim (Bool-cases w.0) [
          | inl done ↦ rw (more, done) (write_slices-size fuel o src (add_usize rel size) w.1 ∙ m)
          | inr failed ↦ rw (more, failed) m
        ]
      ]

  pub write_slices-patch :
      (fuel o : ℕ) (src : List ℕ) (rel : ℕ) (s : S)
      → 0 < size
      → length src - rel < fuel
      → o + length src ≤ d.get_max_size s
      → size + d.get_max_size s < usize_mod
      → ((write_slices size d fuel o src rel s).0 ≡ true)
        × (r.contents (write_slices size d fuel o src rel s).1
            ≡ patch (r.contents s) (o + rel) (drop rel src))
  unfolding write_slices
  write_slices-patch zero o src rel s pos enough inside fits = absurd (omega arith)
  write_slices-patch (suc fuel) o src rel s pos enough inside fits =
      elim (Bool-cases (ltb rel (length src))) [
        | inr done ↦
            let gone : drop rel src ≡ [] = drop_all rel src (ground arith) in
            rw (done, gone) (refl, unfold patch in refl)
        | inl more ↦
            let lt : rel < length src = ltb→lt rel (length src) more in
            let here : add_usize o rel ≡ o + rel = omega arith in
            let next : add_usize rel size ≡ rel + size = omega arith in
            let bytes : List ℕ = chunk size src rel in
            let len = length-chunk size rel src lt in
            let slot : o + rel + length bytes ≤ d.get_max_size s = omega (arith, len) in
            let s₁ : S = (d.write (o + rel) bytes s).1 in
            let m = r.write_size (o + rel) bytes s in
            let stored = r.write_stores (o + rel) bytes s slot in
            let later =
              write_slices-patch fuel o src (rel + size) s₁ pos (omega arith) (rw m inside)
                (rw m fits) in
            rw (more, here, next, r.write_done (o + rel) bytes s slot)
              (
                later.0,
                later.1
                    ∙ ap (λ b. patch b (o + (rel + size)) (drop (rel + size) src)) stored
                    ∙ patch-split (r.contents s) o rel size src lt,
              )
      ]
