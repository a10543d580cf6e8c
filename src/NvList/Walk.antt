-- ===== src/NvList/Walk.antt =====
-- `find` and `all` on the entries, over a storage that keeps its laws.
use vnv_heap.Base.{
  ℕ, zero, suc, ◌<◌, ◌≡◌, refl, ap, ◌∙◌, Bool, true, false, not, ◌&&◌, inl, inr, [], ◌∷◌, Option,
  none, some, arith, if◌then◌else◌, ◌==◌, length, Bool-cases, is_some,
}
use vnv_heap.Base.Outcome.{ok}
use vnv_heap.Storage.Device.{PersistentStorageModule, IsReliable}
use vnv_heap.Storage.Encoding.{Layout}
use vnv_heap.NvList.State.{next_null, Iter, read_item, next, find_round, find, all}
use vnv_heap.NvList.Stored.{Entries, first, Stored}
use vnv_heap.NvList.Push.{read_first, Stored-same}

-- The first entry at which the test holds.
pub find_entry : {T : Type 0} → (ℕ → T → Bool) → Entries T → Option (ℕ × T)
find_entry f [] = none
find_entry f (e ∷ es) = if f e.0 e.1 then some e else find_entry f es

pub all_entries : {T : Type 0} → (ℕ → T → Bool) → Entries T → Bool
all_entries f [] = true
all_entries f (e ∷ es) = f e.0 e.1 && all_entries f es

module _ {S T : Type 0} {d : PersistentStorageModule S} (t : Layout T) (r : IsReliable d) where
  next_first :
      (o : ℕ) (x : T) (es : Entries T) (s : S)
      → Stored t (d.get_max_size s) (r.contents s) ((o, x) ∷ es)
      → next d t (record { curr = o; storage = s })
        ≡ (ok (some (o, x)), record { curr = first es; storage = (read_item d t o s).1 })
  unfolding next
  next_first o x es s st =
      let q = read_first t r s (o, x) es st in
      let used : (o == next_null) ≡ false = ground (arith, st.0, r.addressable s) in
      rw (used, q.0) refl

  first_round :
      (f : ℕ → T → Bool) (o : ℕ) (x : T) (es : Entries T) (fuel : ℕ) (s : S)
      → Stored t (d.get_max_size s) (r.contents s) ((o, x) ∷ es)
      → let i : Iter S = record { curr = first es; storage = (read_item d t o s).1 } in
        find d t (suc fuel) f (record { curr = o; storage = s })
        ≡ (if f o x then (ok (some (o, x)), i) else find d t fuel f i)
  unfolding find
  first_round f o x es fuel s st =
      ap (λ n. find_round d t f n (find d t fuel f n.1)) (next_first o x es s st)

  -- Over a storage that keeps its laws, with one round for each entry and one more, `find` from
  -- the first entry on gives the first entry at which the test holds, or none, and changes nothing
  -- that is stored.
  pub find-find_entry :
      (f : ℕ → T → Bool) (es : Entries T) (fuel : ℕ) (s : S)
      → Stored t (d.get_max_size s) (r.contents s) es
      → length es < fuel
      → (i : Iter S) × (find d t fuel f (record { curr = first es; storage = s })
          ≡ (ok (find_entry f es), i))
        × (r.contents i.storage ≡ r.contents s)
        × (d.get_max_size i.storage ≡ d.get_max_size s)
  unfolding find next find_entry
  find-find_entry f es zero s st lt = absurd (omega arith)
  find-find_entry f [] (suc fuel) s st lt =
      (record { curr = next_null; storage = s }, refl, refl, refl)
  find-find_entry f ((o, x) ∷ es) (suc fuel) s st lt =
      let q = read_first t r s (o, x) es st in
      let s₁ : S = (read_item d t o s).1 in
      elim (Bool-cases (f o x)) [
        | inl hit ↦ (
          record { curr = first es; storage = s₁ },
          first_round f o x es fuel s st ∙ rw hit refl,
          q.1,
          q.2,
        )
        | inr miss ↦
            let (i, go, c, m) =
              find-find_entry f es fuel s₁ (Stored-same t r s s₁ es q.1 q.2 st.3) (omega arith) in
            (i, first_round f o x es fuel s st ∙ rw miss go, c ∙ q.1, m ∙ q.2)
      ]

  none_misses :
      (f : ℕ → T → Bool) (es : Entries T)
      → not (is_some (find_entry (λ x y. not (f x y)) es)) ≡ all_entries f es
  unfolding find_entry all_entries
  none_misses f [] = refl
  none_misses f (e ∷ es) = elim (Bool-cases (f e.0 e.1)) [
    | inl hit ↦ rw hit (none_misses f es)
    | inr miss ↦ rw miss refl
  ]

  -- Over a storage that keeps its laws, with one round for each entry and one more, `all` from the
  -- first entry on tells whether the test holds at every entry.
  pub all-all_entries :
      (f : ℕ → T → Bool) (es : Entries T) (fuel : ℕ) (s : S)
      → Stored t (d.get_max_size s) (r.contents s) es
      → length es < fuel
      → (all d t fuel f (record { curr = first es; storage = s })).0 ≡ ok (all_entries f es)
  unfolding all
  all-all_entries f es fuel s st lt =
      let (i, go, c, m) = find-find_entry (λ x y. not (f x y)) es fuel s st lt in
      rw (all, go) (ap ok (shape (find_entry (λ x y. not (f x y)) es) ∙ none_misses f es))
    where
      shape :
          (o : Option (ℕ × T))
          → (elim o as (λ _. Bool) [ none ↦ true | some e ↦ false ]) ≡ not (is_some o)
      shape none = refl
      shape (some e) = refl
