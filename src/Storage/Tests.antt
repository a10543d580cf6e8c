-- ===== src/Storage/Tests.antt =====
-- The theorems on truncated.rs and sliced.rs at a storage of 1000 bytes that never fails.
use vnv_heap.Base.{◌≡◌, refl, true, some, [], ◌∷◌, arith}
use vnv_heap.Storage.Bytes.{Contents, slice, patch}
use vnv_heap.Storage.Device.{PersistentStorageModule, IsReliable}
use vnv_heap.Storage.Sliced.{sliced, new_truncated, read_slices}
use vnv_heap.Storage.Wrapped.{sliced-IsReliable}

abbrev pub ram : PersistentStorageModule Contents
ram = record {
  read = λ o n s. (some (slice s o n), s);
  write = λ o xs s. (true, patch s o xs);
  get_max_size = λ s. 1000;
  forget_region = λ o n s. s;
}

abbrev pub ram-IsReliable : IsReliable ram
ram-IsReliable = record {
  contents = λ s. s;
  read_gives = λ o n s h. refl;
  read_keeps = λ o n s. refl;
  read_size = λ o n s. refl;
  write_done = λ o xs s h. refl;
  write_stores = λ o xs s h. refl;
  write_size = λ o xs s. refl;
  forget_keeps = λ o n s. refl;
  forget_size = λ o n s. refl;
  addressable = λ s. omega arith;
}

sliced_read : ((sliced 2 ram).read 3 5 (λ a. a)).0 ≡ some (3 ∷ 4 ∷ 5 ∷ 6 ∷ 7 ∷ [])
unfolding read_slices slice
sliced_read = refl

sliced-IsReliable_example :
    (q : IsReliable (sliced 32 ram)) × (q.contents ≡ ram-IsReliable.contents)
sliced-IsReliable_example = sliced-IsReliable 32 ram-IsReliable (omega arith) (λ s. omega arith)

accepts_600 : (s : Contents) → new_truncated ram 600 s ≡ some s
unfolding new_truncated
accepts_600 s = refl
