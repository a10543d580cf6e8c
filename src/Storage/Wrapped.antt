-- ===== src/Storage/Wrapped.antt =====
-- The sliced and the truncated module keep the laws of the module that they wrap.
use vnv_heap.Base.{ℕ, suc, ◌+◌, ◌-◌, ◌≤◌, ◌<◌, ◌≡◌, refl, ap, ◌∙◌, some, arith, length}
use vnv_heap.Base.Words.{usize_mod}
use vnv_heap.Storage.Bytes.{patch}
use vnv_heap.Storage.Device.{PersistentStorageModule, IsReliable}
use vnv_heap.Storage.Sliced.{sliced, truncated, new_truncated}
use vnv_heap.Storage.SlicedRead.{read_slices-Same, read_slices-slice}
use vnv_heap.Storage.SlicedWrite.{write_slices-size, write_slices-patch}

-- Over a storage that keeps its laws, for a slice size above 0 that does not overflow when it is
-- added to the storage's size, the sliced module keeps them too, with the same contents: a read in
-- slices gives the bytes of one read, a write in slices stores those of one write.
pub sliced-IsReliable :
    {S : Type 0} {d : PersistentStorageModule S} (size : ℕ) (r : IsReliable d)
    → 0 < size
    → ((s : S) → size + d.get_max_size s < usize_mod)
    → (q : IsReliable (sliced size d)) × (q.contents ≡ r.contents)
sliced-IsReliable {S} {d} size r pos fits = (
  record {
    contents = r.contents;
    read_gives = λ o n s inside.
        let z : o + 0 ≡ o = omega arith in
        let w : n - 0 ≡ n = omega arith in
        rw (z, w) at (read_slices-slice r size (suc n) o n 0 s pos (omega arith) inside (fits s));
    read_keeps = λ o n s. (read_slices-Same r size (suc n) o n 0 s).0;
    read_size = λ o n s. (read_slices-Same r size (suc n) o n 0 s).1;
    write_done = λ o xs s inside.
        (write_slices-patch r size (suc (length xs)) o xs 0 s pos (omega arith) inside (fits s)).0;
    write_stores = λ o xs s inside.
        let z : o + 0 ≡ o = omega arith in
        (write_slices-patch r size (suc (length xs)) o xs 0 s pos (omega arith) inside (fits s)).1
        ∙ ap (λ p. patch (r.contents s) p xs) z;
    write_size = λ o xs s. write_slices-size r size (suc (length xs)) o xs 0 s;
    forget_keeps = λ o n s. refl;
    forget_size = λ o n s. refl;
    addressable = r.addressable;
  },
  refl,
)

-- Over a storage that keeps its laws and stays at least as large as the size that the `assert!` of
-- `new` compares with, the truncated module keeps them too, with the same contents.
pub truncated-IsReliable :
    {S : Type 0} {d : PersistentStorageModule S} (size : ℕ) (r : IsReliable d)
    → ((s : S) → new_truncated d size s ≡ some s)
    → (q : IsReliable (truncated size d)) × (q.contents ≡ r.contents)
unfolding new_truncated
truncated-IsReliable {S} {d} size r accepted = (
  record {
    contents = r.contents;
    read_gives = λ o n s inside. r.read_gives o n s (omega (arith, large s));
    read_keeps = r.read_keeps;
    read_size = λ o n s. refl;
    write_done = λ o xs s inside. r.write_done o xs s (omega (arith, large s));
    write_stores = λ o xs s inside. r.write_stores o xs s (omega (arith, large s));
    write_size = λ o xs s. refl;
    forget_keeps = λ o n s. refl;
    forget_size = λ o n s. refl;
    addressable = λ s. omega (arith, large s, r.addressable s);
  },
  refl,
)
  where
    large : (s : S) → size ≤ d.get_max_size s
    large s = ground (arith, accepted s)
