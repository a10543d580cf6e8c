-- ===== src/Resident/Persist.antt =====
-- What a write of an object's data does to its dirty size.
use vnv_heap.Base.{
  ℕ, ◌+◌, ◌<◌, ◌≡◌, refl, sym, ◌∙◌, Bool, true, false, arith, if◌then◌else◌, ◌==◌, length, inl, inr,
  Bool-cases,
}
use vnv_heap.Base.Outcome.{Outcome, ok, err, panic, out_of_fuel}
use vnv_heap.Base.Words.{usize_mod, add_usize}
use vnv_heap.Status.{Flag, data_dirty, partial_dirtiness_tracking, get_flag, set_flag, bit_of}
use vnv_heap.Status.Flags.{IsStatus, get_flag-set_flag}
use vnv_heap.Storage.Device.{PersistentStorageModule}
use vnv_heap.Resident.Object.{
  ResidentObject, total_metadata_backup_size, calc_dirty_metadata_dirty_byte_cnt, is_tracked,
  is_data_dirty, dirty_size, synced, write_user_data_dynamic, persist_user_data_dynamic,
  persist_user_data,
}

-- An object without partial dirtiness tracking, whose data have the size of its layout and, with
-- its metadata, fit into the address space.
pub record IsObject (o : ResidentObject) : Type 0 where
  pub status_byte : IsStatus o.status
  pub whole : is_tracked o ≡ false
  pub filled : length o.bytes ≡ o.layout.size
  pub small : o.layout.size + total_metadata_backup_size < usize_mod

-- The dirty size of such an object: its metadata, and its data while they are dirty.
pub dirty_size-whole :
    {o : ResidentObject}
    → IsObject o
    → dirty_size o ≡ (if is_data_dirty o then o.layout.size else 0) + total_metadata_backup_size
unfolding dirty_size calc_dirty_metadata_dirty_byte_cnt
dirty_size-whole {o} v = rw v.whole (ground (arith, v.small))

-- What identifies an object, and its data.
pub record SameData (o o' : ResidentObject) : Type 0 where
  pub layout : o'.layout ≡ o.layout
  pub offset : o'.offset ≡ o.offset
  pub bytes : o'.bytes ≡ o.bytes

pub SameData-refl : {o : ResidentObject} → SameData o o
SameData-refl = record { layout = refl; offset = refl; bytes = refl }

pub SameData-trans : {o₁ o₂ o₃ : ResidentObject} → SameData o₁ o₂ → SameData o₂ o₃ → SameData o₁ o₃
SameData-trans s s' = record {
  layout = s'.layout ∙ s.layout;
  offset = s'.offset ∙ s.offset;
  bytes = s'.bytes ∙ s.bytes;
}

-- A change of the status alone, and its value at the two flags that the dirty size reads.
unfoldable pub with_flag : Flag → Bool → ResidentObject → ResidentObject
with_flag f b o = record o { status = set_flag f b o.status }

pub flag-with_flag :
    (f g : Flag) (b : Bool) {o : ResidentObject}
    → IsObject o
    → get_flag g (with_flag f b o).status
      ≡ (if bit_of f == bit_of g then b else get_flag g o.status)
unfolding with_flag
flag-with_flag f g b {o} v = (get_flag-set_flag f g b o.status v.status_byte).1

pub with_flag-SameData : (f : Flag) (b : Bool) (o : ResidentObject) → SameData o (with_flag f b o)
unfolding with_flag
with_flag-SameData f b o = record { layout = refl; offset = refl; bytes = refl }

pub with_flag-IsObject :
    (f : Flag) (b : Bool) {o : ResidentObject}
    → (bit_of f == 2) ≡ false
    → IsObject o
    → IsObject (with_flag f b o)
unfolding with_flag
with_flag-IsObject f b {o} ne v = record {
  status_byte = (get_flag-set_flag f f b o.status v.status_byte).0;
  whole =
      (get_flag-set_flag f partial_dirtiness_tracking b o.status v.status_byte).1 ∙ rw ne v.whole;
  filled = v.filled;
  small = v.small;
}

-- A flag that neither tells of dirty data nor of partial dirtiness tracking costs nothing.
pub dirty_size-with_flag :
    (f : Flag) (b : Bool) {o : ResidentObject}
    → (bit_of f == 2) ≡ false
    → (bit_of f == 3) ≡ false
    → IsObject o
    → dirty_size (with_flag f b o) ≡ dirty_size o
dirty_size-with_flag f b {o} ne ne' v =
    dirty_size-whole (with_flag-IsObject f b ne v)
    ∙ rw (flag-with_flag f data_dirty b v, ne', (with_flag-SameData f b o).layout)
        (sym (dirty_size-whole v))

pub synced-IsObject : {o : ResidentObject} → IsObject o → IsObject (synced o)
unfolding synced
synced-IsObject {o} v =
    let t = get_flag-set_flag data_dirty partial_dirtiness_tracking false o.status v.status_byte in
    record { status_byte = t.0; whole = t.1 ∙ v.whole; filled = v.filled; small = v.small }

pub synced-SameData : (o : ResidentObject) → SameData o (synced o)
unfolding synced
synced-SameData o = record { layout = refl; offset = refl; bytes = refl }

-- A sync leaves every flag but `DATA_DIRTY`.
pub flag-synced :
    (g : Flag) {o : ResidentObject}
    → IsObject o
    → get_flag g (synced o).status
      ≡ (if bit_of data_dirty == bit_of g then false else get_flag g o.status)
unfolding synced
flag-synced g {o} v = (get_flag-set_flag data_dirty g false o.status v.status_byte).1

pub dirty_size-synced :
    {o : ResidentObject} → IsObject o → dirty_size (synced o) ≡ total_metadata_backup_size
dirty_size-synced v = dirty_size-whole (synced-IsObject v) ∙ rw (flag-synced data_dirty v) refl

-- A clean object costs the size of its data when it is made dirty.
pub dirty_size-make_dirty :
    {o : ResidentObject}
    → IsObject o
    → is_data_dirty o ≡ false
    → dirty_size (with_flag data_dirty true o) ≡ dirty_size o + o.layout.size
dirty_size-make_dirty {o} v clean =
    dirty_size-whole (with_flag-IsObject data_dirty true refl v)
    ∙ rw
        (
          flag-with_flag data_dirty data_dirty true v,
          (with_flag-SameData data_dirty true o).layout,
          dirty_size-whole v,
          clean,
        )
        (omega arith)

-- How a sync of an object ends: there was nothing to do, or `n` bytes are not dirty any more, or
-- nothing changed.
pub data Synced (o : ResidentObject) : Outcome ℕ → ResidentObject → Type 0 where
  skipped : is_data_dirty o ≡ false → Synced o (ok 0) o
  written :
      {n : ℕ} {o' : ResidentObject}
      → is_data_dirty o ≡ true
      → IsObject o'
      → SameData o o'
      → dirty_size o' + n ≡ dirty_size o
      → is_data_dirty o' ≡ false
      → Synced o (ok n) o'
  failed : Synced o err o

abbrev pub is_ok : {A : Type 0} → Outcome A → Bool
is_ok (ok x) = true
is_ok err = false
is_ok panic = false
is_ok out_of_fuel = false

module _ {S : Type 0} (d : PersistentStorageModule S) where
  -- Without tracking a sync of a dirty object is one write.
  pub write_whole :
      {o : ResidentObject} (s : S)
      → IsObject o
      → let w = d.write (add_usize o.offset 0) o.bytes s in
        write_user_data_dynamic d o s ≡ ((if w.0 then ok (length o.bytes) else err), w.1)
  unfolding write_user_data_dynamic
  write_whole {o} s v = elim (Bool-cases (d.write (add_usize o.offset 0) o.bytes s).0) [
    | inl done ↦ rw (v.whole, done) refl
    | inr fails ↦ rw (v.whole, fails) refl
  ]

  -- A sync of an object without tracking writes all of its data or fails, and never panics.
  pub persist-Synced :
      {o : ResidentObject} (s : S)
      → IsObject o
      → let r = persist_user_data_dynamic d o s in Synced o r.0 r.1.0
  unfolding persist_user_data_dynamic
  persist-Synced {o} s v = elim (Bool-cases (is_data_dirty o)) [
    | inr clean ↦ rw clean (skipped clean)
    | inl dirty ↦ elim (Bool-cases (d.write (add_usize o.offset 0) o.bytes s).0) [
      | inl done ↦
          rw (dirty, write_whole s v, done)
            (written dirty (synced-IsObject v) (synced-SameData o)
              (rw (dirty_size-synced v, dirty_size-whole v, dirty, v.filled) (omega arith))
              (flag-synced data_dirty v))
      | inr fails ↦ rw (dirty, write_whole s v, fails) failed
    ]
  ]

  -- The write that a sync of an object owes to the storage: all of its bytes at its offset, if its
  -- data are dirty.
  abbrev pub written_back : ResidentObject → S → Bool × S
  written_back o s = if is_data_dirty o then d.write (add_usize o.offset 0) o.bytes s else (true, s)

  pub persist-written_back :
      {o : ResidentObject} (s : S)
      → IsObject o
      → let e = persist_user_data_dynamic d o s in written_back o s ≡ (is_ok e.0, e.1.1)
  unfolding persist_user_data_dynamic
  persist-written_back {o} s v = elim (Bool-cases (is_data_dirty o)) [
    | inr clean ↦ rw clean refl
    | inl dirty ↦ elim (Bool-cases (d.write (add_usize o.offset 0) o.bytes s).0) [
      | inl done ↦ rw (dirty, write_whole s v, done) refl
      | inr fails ↦ rw (dirty, write_whole s v, fails) refl
    ]
  ]

  -- Where the type of the object is known the sync is the same.
  pub persist_user_data-dynamic :
      (o : ResidentObject) (s : S) → persist_user_data d o s ≡ persist_user_data_dynamic d o s
  unfolding persist_user_data persist_user_data_dynamic
  persist_user_data-dynamic o s = elim (Bool-cases (is_data_dirty o)) [
    | inl dirty ↦ rw dirty refl
    | inr clean ↦ rw clean refl
  ]
