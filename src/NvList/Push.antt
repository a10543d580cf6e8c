-- ===== src/NvList/Push.antt =====
-- `push` and `pop` on the entries, over a storage that keeps its laws.
use vnv_heap.Base.{
  ℕ, ◌+◌, ◌≤◌, ◌<◌, ◌≡◌, refl, sym, ap, ◌∙◌, subst, subst₂, false, List, ◌∷◌, ◌++◌, some, arith,
  ◌==◌, length, take, drop,
}
use vnv_heap.Base.Outcome.{ok}
use vnv_heap.Base.Words.{usize_mod, usize_size}
use vnv_heap.Storage.Bytes.{slice, patch, slice-patch, take-append, drop-append}
use vnv_heap.Storage.Device.{PersistentStorageModule, IsReliable}
use vnv_heap.Storage.Encoding.{Layout, to_bytes, length-to_bytes, from_bytes-usize}
use vnv_heap.NvList.State.{next_null, NonResidentLinkedList, item_of, read_item, push, pop}
use vnv_heap.NvList.Stored.{Entries, first, Clear, Stored, Stored-patch, first-lt, length-item}

module _ {S T : Type 0} {d : PersistentStorageModule S} (t : Layout T) (r : IsReliable d) where
  -- The list starts at the first of the entries, which lie in the storage.
  pub record Represents (l : NonResidentLinkedList S) (es : Entries T) : Type 0 where
    pub starts : l.head ≡ first es
    pub stored : Stored t (d.get_max_size l.storage) (r.contents l.storage) es

  pub item_of-bytes :
      (n : ℕ) (x : T)
      → n < usize_mod
      → item_of d t (to_bytes usize_size n ++ t.encode x) ≡ record { next = n; value = x }
  item_of-bytes n x small =
      let k : length (to_bytes 8 n) ≡ 8 = length-to_bytes 8 n in
      let front : take 8 (to_bytes 8 n ++ t.encode x) ≡ to_bytes 8 n =
        rw k at (take-append (to_bytes 8 n) (t.encode x)) in
      let back : drop 8 (to_bytes 8 n ++ t.encode x) ≡ t.encode x =
        rw k at (drop-append (to_bytes 8 n) (t.encode x)) in
      rw (front, back, from_bytes-usize n small, t.decode-encode x) refl

  -- Reading the first item gives its value and the offset of the second, and changes nothing.
  pub read_first :
      (s : S) (e : ℕ × T) (es : Entries T)
      → Stored t (d.get_max_size s) (r.contents s) (e ∷ es)
      → ((read_item d t e.0 s).0 ≡ some (record { next = first es; value = e.1 }))
        × (r.contents (read_item d t e.0 s).1 ≡ r.contents s)
        × (d.get_max_size (read_item d t e.0 s).1 ≡ d.get_max_size s)
  read_first s e es st = (
    (let small = first-lt t (d.get_max_size s) (r.contents s) es (r.addressable s) st.3 in
        rw (r.read_gives e.0 (usize_size + t.size) s st.0, st.1)
          (ap some (item_of-bytes (first es) e.1 small))),
    r.read_keeps e.0 (usize_size + t.size) s,
    r.read_size e.0 (usize_size + t.size) s,
  )

  pub Stored-same :
      (s s' : S) (es : Entries T)
      → r.contents s' ≡ r.contents s
      → d.get_max_size s' ≡ d.get_max_size s
      → Stored t (d.get_max_size s) (r.contents s) es
      → Stored t (d.get_max_size s') (r.contents s') es
  Stored-same s s' es c m st = rw (c, m) st

  -- Over a storage that keeps its laws, `push` at an offset within the storage whose region
  -- touches no item of the list succeeds, and puts the new entry in front of the entries.
  pub push-Represents :
      (o : ℕ) (x : T) (l : NonResidentLinkedList S) (es : Entries T)
      → Represents l es
      → o + (usize_size + t.size) ≤ d.get_max_size l.storage
      → Clear (usize_size + t.size) o (usize_size + t.size) es
      → (l' : NonResidentLinkedList S) × (push d t o x l ≡ (ok tt, l'))
        × Represents l' ((o, x) ∷ es)
  unfolding push
  push-Represents o x l es p inside clear =
      let bytes : List ℕ = to_bytes usize_size l.head ++ t.encode x in
      let len : length bytes ≡ usize_size + t.size = length-item t l.head x in
      let fits : o + length bytes ≤ d.get_max_size l.storage = rw len inside in
      let s' : S = (d.write o bytes l.storage).1 in
      (
        record { head = o; storage = s' },
        rw (r.write_done o bytes l.storage fits) refl,
        record {
          starts = refl;
          stored =
              subst₂ (λ m b. Stored t m b ((o, x) ∷ es)) (sym (r.write_size o bytes l.storage))
                (sym (r.write_stores o bytes l.storage fits))
                (
                  inside,
                  subst
                      (λ n.
                        slice (patch (r.contents l.storage) o bytes) o n
                        ≡ to_bytes usize_size (first es) ++ t.encode x)
                      len
                      (slice-patch (r.contents l.storage) o bytes
                        ∙ ap (λ h. to_bytes usize_size h ++ t.encode x) p.starts),
                  clear,
                  Stored-patch t (d.get_max_size l.storage) (r.contents l.storage) o bytes es
                      (rw len clear) p.stored,
                );
        },
      )

  pop_first :
      (o : ℕ) (x : T) (es : Entries T) (s : S)
      → Stored t (d.get_max_size s) (r.contents s) ((o, x) ∷ es)
      → pop d t (record { head = o; storage = s }) ≡ (
        ok (some (o, x)),
        record {
          head = first es;
          storage = d.forget_region o (usize_size + t.size) (read_item d t o s).1;
        },
      )
  unfolding pop
  pop_first o x es s st =
      let q = read_first s (o, x) es st in
      let used : (o == next_null) ≡ false = ground (arith, st.0, r.addressable s) in
      rw (used, q.0) refl

  -- Over a storage that keeps its laws, `pop` on a list with entries gives the first of them, with
  -- its offset, and leaves the others.
  pub pop-Represents :
      (o : ℕ) (x : T) (es : Entries T) (l : NonResidentLinkedList S)
      → Represents l ((o, x) ∷ es)
      → (l' : NonResidentLinkedList S) × (pop d t l ≡ (ok (some (o, x)), l')) × Represents l' es
  pop-Represents o x es l p =
      let q = read_first l.storage (o, x) es p.stored in
      let s₁ : S = (read_item d t o l.storage).1 in
      let s₂ : S = d.forget_region o (usize_size + t.size) s₁ in
      (
        record { head = first es; storage = s₂ },
        ap (λ h. pop d t (record { head = h; storage = l.storage })) p.starts
            ∙ pop_first o x es l.storage p.stored,
        record {
          starts = refl;
          stored =
              Stored-same l.storage s₂ es (r.forget_keeps o (usize_size + t.size) s₁ ∙ q.1)
                (r.forget_size o (usize_size + t.size) s₁ ∙ q.2) p.stored.3;
        },
      )
