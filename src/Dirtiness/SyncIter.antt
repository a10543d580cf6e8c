-- ===== src/Dirtiness/SyncIter.antt =====
-- `SyncDirtyIter`: the iterator over the ranges of dirty blocks, and the position that its steps
-- keep.
use vnv_heap.Base.{
  ℕ, suc, ◌+◌, ◌*◌, ◌/◌, ◌%◌, ◌<◌, ◌≡◌, refl, sym, ◌∙◌, Bool, true, false, ◌&&◌, ◌⊎◌, inl, inr,
  Option, some, bit_and, arith, if◌then◌else◌, ◌==◌, leb, ◌>>=◌, length, get_elem?, get_or,
  get_elem?-eq-get_or, Bool-cases,
}
use vnv_heap.Base.Bits.{bit}
use vnv_heap.Base.Words.{add_usize, sub_usize, mul_usize}
use vnv_heap.Dirtiness.SizeInfo.{get_last_byte_bit_cnt}
use vnv_heap.Dirtiness.Info.{block_size}
use vnv_heap.Dirtiness.Wrapper.{Wrapper}
use vnv_heap.Dirtiness.Blocks.{IsValid, block_count}

pub record SyncDirtyIter : Type 0 where
  pub curr_byte : ℕ
  pub curr_byte_id : ℕ
  pub curr_bit_id : ℕ
  pub reached_end : Bool
  pub wrapper_data : Wrapper

unfoldable pub dirty_iter : Wrapper → Option SyncDirtyIter
dirty_iter w = do
  item ← get_elem? w.data_range 0
  some (record {
    curr_byte = item;
    curr_byte_id = 0;
    curr_bit_id = 0;
    reached_end = false;
    wrapper_data = w;
  })

abbrev pub calc_curr_offset : SyncDirtyIter → ℕ
calc_curr_offset i = mul_usize (add_usize (mul_usize i.curr_byte_id 8) i.curr_bit_id) block_size

abbrev pub next_bit : SyncDirtyIter → ℕ
next_bit i = bit_and i.curr_byte 1

unfoldable pub advance_bit : SyncDirtyIter → Option SyncDirtyIter
advance_bit i =
    let len = length i.wrapper_data.data_range in
    let bit_id = (i.curr_bit_id + 1) % 8 in
    let byte_id = add_usize i.curr_byte_id 1 in
    let next_item = do
      item ← get_elem? i.wrapper_data.data_range byte_id
      some (record i { curr_bit_id = bit_id; curr_byte_id = byte_id; curr_byte = item })
    in if bit_id == 0
      then (if leb len byte_id
          then some (record i { curr_bit_id = bit_id; curr_byte_id = byte_id; reached_end = true })
          else next_item)
      else if (i.curr_byte_id == sub_usize len 1)
          && leb (get_last_byte_bit_cnt i.wrapper_data.size_info_cache) bit_id
      then some (record i { curr_bit_id = bit_id; reached_end = true })
      else some (record i { curr_bit_id = bit_id; curr_byte = i.curr_byte / 2 })

-- The iterator stands before block `k`.
pub record At (k : ℕ) (i : SyncDirtyIter) : Type 0 where
  pub byte_id : i.curr_byte_id ≡ k / 8
  pub bit_id : i.curr_bit_id ≡ k % 8
  pub running : i.reached_end ≡ false
  pub bits :
      (j : ℕ) → bit i.curr_byte j ≡ bit (get_or i.wrapper_data.data_range (k / 8) 0) (k % 8 + j)

-- What a step from block `k` reaches: the end behind the last block, or the next block.
pub record Step (k : ℕ) (i i' : SyncDirtyIter) : Type 0 where
  pub same : i'.wrapper_data ≡ i.wrapper_data
  pub position : i'.curr_byte_id * 8 + i'.curr_bit_id ≡ k + 1
  pub reached :
      ((k + 1 ≡ block_count i.wrapper_data) × (i'.reached_end ≡ true))
      ⊎ ((k + 1 < block_count i.wrapper_data) × At (k + 1) i')

-- On a valid wrapper, from a block of the object, `advance_bit` reads inside the bit list. Behind
-- the last block it sets `reached_end`, and before it the iterator stands at the next block, whose
-- status is the lowest bit of its byte.
pub advance_bit-Step :
    (k : ℕ) (i : SyncDirtyIter)
    → IsValid i.wrapper_data
    → At k i
    → k < block_count i.wrapper_data
    → (i' : SyncDirtyIter) × (advance_bit i ≡ some i') × Step k i i'
unfolding advance_bit bit
advance_bit-Step k i v p lt = elim (Bool-cases ((i.curr_bit_id + 1) % 8 == 0)) [
  | inl whole ↦
      elim (Bool-cases (leb (length i.wrapper_data.data_range) (add_usize i.curr_byte_id 1))) [
        | inl ends ↦ (
          record i {
            curr_bit_id = (i.curr_bit_id + 1) % 8;
            curr_byte_id = add_usize i.curr_byte_id 1;
            reached_end = true;
          },
          rw (whole, ends) refl,
          record {
            same = refl;
            position = ground (arith, p.byte_id, p.bit_id, v.few_bytes);
            reached = inl (ground (arith, p.byte_id, p.bit_id, v.few_bytes, v.bits_hi), refl);
          },
        )
        | inr goes ↦
            let byte : ℕ = add_usize i.curr_byte_id 1 in
            let next : byte ≡ (k + 1) / 8 = ground (arith, p.byte_id, p.bit_id, v.few_bytes) in
            let item = get_elem?-eq-get_or i.wrapper_data.data_range byte 0 (ground arith) in
            (
              record i {
                curr_bit_id = (i.curr_bit_id + 1) % 8;
                curr_byte_id = byte;
                curr_byte = get_or i.wrapper_data.data_range byte 0;
              },
              rw (whole, goes, item) refl,
              record {
                same = refl;
                position = ground (arith, p.byte_id, p.bit_id, v.few_bytes);
                reached = inr (
                  ground (arith, p.byte_id, p.bit_id, v.few_bytes, v.bits_lo),
                  record {
                    byte_id = next;
                    bit_id = ground (arith, p.bit_id);
                    running = p.running;
                    bits = λ j.
                        let z : (k + 1) % 8 + j ≡ j = ground (arith, p.bit_id) in rw (next, z) refl;
                  },
                );
              },
            )
      ]
  | inr inner ↦
      elim (Bool-cases (
        (i.curr_byte_id == sub_usize (length i.wrapper_data.data_range) 1)
        && leb (get_last_byte_bit_cnt i.wrapper_data.size_info_cache) ((i.curr_bit_id + 1) % 8))) [
          | inl ends ↦ (
            record i { curr_bit_id = (i.curr_bit_id + 1) % 8; reached_end = true },
            rw (inner, ends) refl,
            record {
              same = refl;
              position = ground (arith, p.byte_id, p.bit_id);
              reached = inl (ground (arith, p.byte_id, p.bit_id, v.few_bytes, v.some_byte), refl);
            },
          )
          | inr goes ↦
              let b : (k + 1) / 8 ≡ k / 8 = ground (arith, p.bit_id) in
              let m : (k + 1) % 8 ≡ k % 8 + 1 = ground (arith, p.bit_id) in
              (
                record i { curr_bit_id = (i.curr_bit_id + 1) % 8; curr_byte = i.curr_byte / 2 },
                rw (inner, goes) refl,
                record {
                  same = refl;
                  position = ground (arith, p.byte_id, p.bit_id);
                  reached = inr (
                    ground (arith, p.byte_id, p.bit_id, v.few_bytes, v.some_byte, v.bits_lo),
                    record {
                      byte_id = p.byte_id ∙ sym b;
                      bit_id = ground (arith, p.bit_id);
                      running = p.running;
                      bits = λ j.
                          let z : k % 8 + suc j ≡ k % 8 + 1 + j = omega arith in
                          rw (b, m, ← z) (p.bits (suc j));
                    },
                  );
                },
              )
        ]
]

start_of : Wrapper → SyncDirtyIter
start_of w = record {
  curr_byte = get_or w.data_range 0 0;
  curr_byte_id = 0;
  curr_bit_id = 0;
  reached_end = false;
  wrapper_data = w;
}

-- On a valid wrapper `dirty_iter` does not panic and starts before the first block.
pub dirty_iter-At :
    {w : Wrapper}
    → IsValid w
    → (i : SyncDirtyIter) × (dirty_iter w ≡ some i) × (i.wrapper_data ≡ w) × At 0 i
unfolding dirty_iter start_of
dirty_iter-At {w} v = (
  start_of w,
  rw (get_elem?-eq-get_or w.data_range 0 0 v.some_byte) refl,
  refl,
  record {
    byte_id = refl;
    bit_id = refl;
    running = refl;
    bits = λ j. let z : 0 + j ≡ j = omega arith in rw z refl;
  },
)
