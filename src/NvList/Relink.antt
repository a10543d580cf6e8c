-- ===== src/NvList/Relink.antt =====
-- Writing the next pointer of the item before another takes that other item out of the list.
use mathlib.Core.Path.{ap₂}
use vnv_heap.Base.{ℕ, ◌+◌, ◌≤◌, ◌≡◌, refl, sym, ap, ◌∙◌, ◌⊎◌, inr, [], ◌∷◌, ◌++◌, arith, drop}
use vnv_heap.Base.Words.{usize_size}
use vnv_heap.Storage.Bytes.{
  Contents, slice, patch, slice-congr, slice-append, patch_outside, slice-patch, length-slice,
  drop-append,
}
use vnv_heap.Storage.Encoding.{Layout, to_bytes, length-to_bytes}
use vnv_heap.NvList.Stored.{Entries, first, Clear, Stored, Stored-patch}

first-skip :
    {T : Type 0} (zs : Entries T) (a e : ℕ × T) (es : Entries T)
    → first (zs ++ a ∷ e ∷ es) ≡ first (zs ++ a ∷ es)
first-skip [] a e es = refl
first-skip (z ∷ zs) a e es = refl

Clear-fewer :
    {T : Type 0} (size o n m : ℕ) (es : Entries T) → m ≤ n → Clear size o n es → Clear size o m es
Clear-fewer size o n m [] le c = tt
Clear-fewer size o n m (e ∷ es) le c = (omega (arith, c.0), Clear-fewer size o n m es le c.1)

Clear-skip :
    {T : Type 0} (size o n : ℕ) (zs : Entries T) (a e : ℕ × T) (es : Entries T)
    → Clear size o n (zs ++ a ∷ e ∷ es)
    → Clear size o n (zs ++ a ∷ es)
Clear-skip size o n [] a e es c = (c.0, c.1.1)
Clear-skip size o n (z ∷ zs) a e es c = (c.0, Clear-skip size o n zs a e es c.1)

Clear-at :
    {T : Type 0} (size o n : ℕ) (zs : Entries T) (a : ℕ × T) (es : Entries T)
    → Clear size o n (zs ++ a ∷ es)
    → (o + n ≤ a.0) ⊎ (a.0 + size ≤ o)
Clear-at size o n [] a es c = c.0
Clear-at size o n (z ∷ zs) a es c = Clear-at size o n zs a es c.1

module _ {T : Type 0} (t : Layout T) where
  -- The pointer is new, the value behind it stays.
  relinked_item :
      (b : Contents) (o old : ℕ) (after : ℕ) (x : T)
      → slice b o (usize_size + t.size) ≡ to_bytes usize_size old ++ t.encode x
      → slice (patch b o (to_bytes usize_size after)) o (usize_size + t.size)
        ≡ to_bytes usize_size after ++ t.encode x
  relinked_item b o old after x s =
      slice-append (patch b o (to_bytes 8 after)) o 8 t.size
      ∙ ap₂ ◌++◌ (rw (length-to_bytes 8 after) at (slice-patch b o (to_bytes 8 after))) (
          slice-congr (patch b o (to_bytes 8 after)) b (o + 8) t.size (λ a lo hi.
            patch_outside b o (to_bytes 8 after) a (inr (omega (arith, length-to_bytes 8 after))))
          ∙ value)
    where
      value : slice b (o + 8) t.size ≡ t.encode x
      value =
          sym (rw (length-slice b o 8) at (drop-append (slice b o 8) (slice b (o + 8) t.size)))
          ∙ ap (drop 8) (sym (slice-append b o 8 t.size) ∙ s)
          ∙ rw (length-to_bytes 8 old) at (drop-append (to_bytes 8 old) (t.encode x))

  pub Stored-relink :
      (max_size : ℕ) (b : Contents) (zs : Entries T) (o : ℕ) (x : T) (e : ℕ × T) (es : Entries T)
      → Stored t max_size b (zs ++ (o, x) ∷ e ∷ es)
      → Stored t max_size (patch b o (to_bytes usize_size (first es))) (zs ++ (o, x) ∷ es)
  Stored-relink max_size b [] o x e es s = (
    s.0,
    relinked_item b o e.0 (first es) x s.1,
    s.2.1,
    Stored-patch t max_size b o (to_bytes usize_size (first es)) es
        (Clear-fewer _ o (usize_size + t.size) _ es (omega (arith, length-to_bytes 8 (first es)))
          s.2.1)
        s.3.3,
  )
  Stored-relink max_size b (z ∷ zs) o x e es s = (
    s.0,
    slice-congr (patch b o (to_bytes usize_size (first es))) b z.0 (usize_size + t.size) (λ a lo hi.
          patch_outside b o (to_bytes usize_size (first es)) a (
            omega (
              arith,
              Clear-at _ z.0 (usize_size + t.size) zs (o, x) (e ∷ es) s.2,
              length-to_bytes 8 (first es),
            )))
        ∙ s.1
        ∙ ap (λ h. to_bytes usize_size h ++ t.encode z.1) (first-skip zs (o, x) e es),
    Clear-skip _ z.0 _ zs (o, x) e es s.2,
    Stored-relink max_size b zs o x e es s.3,
  )
