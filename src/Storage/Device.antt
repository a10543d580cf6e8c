-- ===== src/Storage/Device.antt =====
-- `PersistentStorageModule`: a storage is a state that its operations change.
use vnv_heap.Base.{ℕ, ◌+◌, ◌≤◌, ◌<◌, ◌^◌, ◌≡◌, Bool, true, Option, some, List, length}
use vnv_heap.Storage.Bytes.{Contents, slice, patch}

-- `read` takes the offset and the length of `dest` and gives the bytes, or `none` for `Err(())`;
-- `write` tells whether it succeeded.
pub record PersistentStorageModule (S : Type 0) : Type 0 where
  pub read : ℕ → ℕ → S → Option (List ℕ) × S
  pub write : ℕ → List ℕ → S → Bool × S
  pub get_max_size : S → ℕ
  pub forget_region : ℕ → ℕ → S → S

-- The documented behaviour of a storage that does not fail: `read` gives the stored bytes of a
-- region within the maximum size and `write` stores them there; neither `read` nor `forget_region`
-- changes what is stored.
pub record IsReliable {S : Type 0} (d : PersistentStorageModule S) : Type 0 where
  pub contents : S → Contents
  pub read_gives :
      (o n : ℕ) (s : S)
      → o + n ≤ d.get_max_size s
      → (d.read o n s).0 ≡ some (slice (contents s) o n)
  pub read_keeps : (o n : ℕ) (s : S) → contents (d.read o n s).1 ≡ contents s
  pub read_size : (o n : ℕ) (s : S) → d.get_max_size (d.read o n s).1 ≡ d.get_max_size s
  pub write_done :
      (o : ℕ) (xs : List ℕ) (s : S) → o + length xs ≤ d.get_max_size s → (d.write o xs s).0 ≡ true
  pub write_stores :
      (o : ℕ) (xs : List ℕ) (s : S)
      → o + length xs ≤ d.get_max_size s
      → contents (d.write o xs s).1 ≡ patch (contents s) o xs
  pub write_size :
      (o : ℕ) (xs : List ℕ) (s : S) → d.get_max_size (d.write o xs s).1 ≡ d.get_max_size s
  pub forget_keeps : (o n : ℕ) (s : S) → contents (d.forget_region o n s) ≡ contents s
  pub forget_size : (o n : ℕ) (s : S) → d.get_max_size (d.forget_region o n s) ≡ d.get_max_size s
  pub addressable : (s : S) → d.get_max_size s < 2 ^ 64
