-- ===== src/Storage/Sliced.antt =====
-- modules/persistent_storage/truncated.rs and sliced.rs: a module that shows less of another one,
-- and a module that reads and writes in slices.
use vnv_heap.Base.{
  ℕ, zero, suc, ◌-◌, Bool, true, false, Option, none, some, List, [], ◌++◌, min, if◌then◌else◌, ltb,
  leb, length, take, drop,
}
use vnv_heap.Base.Words.{add_usize}
use vnv_heap.Storage.Device.{PersistentStorageModule}

-- `TruncatedStorageModule::new`: `none` is the failed `assert!`.
unfoldable pub new_truncated : {S : Type 0} → PersistentStorageModule S → ℕ → S → Option S
new_truncated d size s = if leb size (d.get_max_size s) then some s else none

-- `forget_region` is the default of the trait, which does nothing.
abbrev pub truncated : {S : Type 0} → ℕ → PersistentStorageModule S → PersistentStorageModule S
truncated size d = record {
  read = λ o n s. d.read o n s;
  write = λ o xs s. d.write o xs s;
  get_max_size = λ s. size;
  forget_region = λ o n s. s;
}

-- The bytes of one slice and those of the later ones, or the first error.
abbrev pub join : {S : Type 0} → Option (List ℕ) × S → Option (List ℕ) × S → Option (List ℕ) × S
join (none, s) rest = (none, s)
join (some bytes, s) (none, s') = (none, s')
join (some bytes, s) (some more, s') = (some (bytes ++ more), s')

module _ {S : Type 0} (slice_size : ℕ) (d : PersistentStorageModule S) where
  -- The loop of `read`, which gives the bytes of `dest` from `rel_offset` on. For a slice size of 0
  -- the source does not end; for any other, as many rounds as there are bytes and one more do.
  unfoldable pub read_slices : ℕ → ℕ → ℕ → ℕ → S → Option (List ℕ) × S
  read_slices zero offset len rel_offset s = (none, s)
  read_slices (suc fuel) offset len rel_offset s =
      let end_read = min (add_usize rel_offset slice_size) len in
      let r = d.read (add_usize offset rel_offset) (end_read - rel_offset) s in
      let rest = read_slices fuel offset len (add_usize rel_offset slice_size) r.1 in
      if ltb rel_offset len then join r rest else (some [], s)

  -- The loop of `write`.
  unfoldable pub write_slices : ℕ → ℕ → List ℕ → ℕ → S → Bool × S
  write_slices zero offset src rel_offset s = (false, s)
  write_slices (suc fuel) offset src rel_offset s =
      let end_read = min (add_usize rel_offset slice_size) (length src) in
      let bytes = take (end_read - rel_offset) (drop rel_offset src) in
      let r = d.write (add_usize offset rel_offset) bytes s in
      let rest = write_slices fuel offset src (add_usize rel_offset slice_size) r.1 in
      if ltb rel_offset (length src) then (if r.0 then rest else (false, r.1)) else (true, s)

  abbrev pub sliced : PersistentStorageModule S
  sliced = record {
    read = λ o n s. read_slices (suc n) o n 0 s;
    write = λ o xs s. write_slices (suc (length xs)) o xs 0 s;
    get_max_size = d.get_max_size;
    forget_region = λ o n s. s;
  }
