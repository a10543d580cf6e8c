-- ===== src/NvList/Stored.antt =====
-- The entries that a list in the storage stands for.
use mathlib.Core.Path.{ap₂}
use vnv_heap.Base.{
  ℕ, ◌+◌, ◌≤◌, ◌<◌, ◌≡◌, ◌∙◌, ◌⊎◌, inl, inr, List, [], ◌∷◌, ◌++◌, arith, length, length-append,
}
use vnv_heap.Base.Words.{usize_mod, usize_size}
use vnv_heap.Storage.Bytes.{Contents, slice, patch, slice-congr, patch_outside}
use vnv_heap.Storage.Encoding.{Layout, to_bytes, length-to_bytes}
use vnv_heap.NvList.State.{next_null}

abbrev pub Entries : Type 0 → Type 0
Entries T = List (ℕ × T)

-- Where the list starts.
abbrev pub first : {T : Type 0} → Entries T → ℕ
first [] = next_null
first (e ∷ es) = e.0

-- The `n` bytes from `o` on touch none of the items, of `size` bytes each.
abbrev pub Clear : {T : Type 0} → ℕ → ℕ → ℕ → Entries T → Type 0
Clear size o n [] = Unit
Clear size o n (e ∷ es) = ((o + n ≤ e.0) ⊎ (e.0 + size ≤ o)) × Clear size o n es

module _ {T : Type 0} (t : Layout T) where
  abbrev item_size : ℕ
  item_size = usize_size + t.size

  -- Each entry lies in the storage as an item that leads to the next one, apart from the later
  -- ones.
  abbrev pub Stored : ℕ → Contents → Entries T → Type 0
  Stored max_size b [] = Unit
  Stored max_size b (e ∷ es) =
      (e.0 + item_size ≤ max_size)
      × (slice b e.0 item_size ≡ to_bytes usize_size (first es) ++ t.encode e.1)
      × Clear item_size e.0 item_size es
      × Stored max_size b es

  -- A write that touches no item keeps the entries.
  pub Stored-patch :
      (max_size : ℕ) (b : Contents) (o : ℕ) (bytes : List ℕ) (es : Entries T)
      → Clear item_size o (length bytes) es
      → Stored max_size b es
      → Stored max_size (patch b o bytes) es
  Stored-patch max_size b o bytes [] c s = tt
  Stored-patch max_size b o bytes (e ∷ es) c s = (
    s.0,
    slice-congr (patch b o bytes) b e.0 item_size
          (λ a lo hi. patch_outside b o bytes a (apart a lo hi c.0))
        ∙ s.1,
    s.2,
    Stored-patch max_size b o bytes es c.1 s.3,
  )
    where
      apart :
          (a : ℕ)
          → e.0 ≤ a
          → a < e.0 + item_size
          → (o + length bytes ≤ e.0) ⊎ (e.0 + item_size ≤ o)
          → (a < o) ⊎ (o + length bytes ≤ a)
      apart a lo hi (inl h) = inr (omega arith)
      apart a lo hi (inr h) = inl (omega arith)

  pub first-lt :
      (max_size : ℕ) (b : Contents) (es : Entries T)
      → max_size < usize_mod
      → Stored max_size b es
      → first es < usize_mod
  first-lt max_size b [] small s = omega arith
  first-lt max_size b (e ∷ es) small s = omega (arith, s.0)

  pub length-item : (n : ℕ) (x : T) → length (to_bytes usize_size n ++ t.encode x) ≡ item_size
  length-item n x =
      length-append (to_bytes usize_size n) (t.encode x)
      ∙ ap₂ ◌+◌ (length-to_bytes usize_size n) (t.length-encode x)
