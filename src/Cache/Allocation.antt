-- ===== src/Cache/Allocation.antt =====
-- fuzztruction_shared/src/mutation_cache_entry.rs: the memory of an entry.
use fuzztruction_net.Base.{
  ℕ, ◌+◌, ◌/◌, ◌%◌, ◌<◌, ◌≡◌, ◌↔◌, arith, some, ltb, if◌then◌else◌, length, replicate,
  length-replicate,
}
use fuzztruction_net.Cache.EntryData.{
  LlvmInstruction, Entry, max_mask_len, new, size, size_wo_overflow_padding, target_value_size_byte,
  padded, alloc_size, padded_msk_len,
}

-- A new entry with a mask that is not too long is allocated as many bytes as its `size` says, a multiple of 8 that has
-- room for the metadata, the mask and one more value of the site behind a mask that is not empty.
pub size-alloc_size :
    (m id : ℕ) (instruction : LlvmInstruction) (vma flags loc_type bits n : ℕ)
    → n < max_mask_len
    → (e : Entry) × (new id instruction vma flags loc_type bits n ≡ some e)
      × (size m e ≡ alloc_size m bits n)
      × (size m e % 8 ≡ 0)
      × (m + n + (if ltb 0 n then (bits + 7) / 8 else 0) < size m e)
unfolding new size size_wo_overflow_padding target_value_size_byte padded alloc_size
size-alloc_size m id instruction vma flags loc_type bits n h =
    let e : Entry = record {
      id = id;
      llvm_instruction = instruction;
      vma = vma;
      flags = flags;
      loc_type = loc_type;
      target_value_size_bits = bits;
      read_pos_bits = 0;
      msk = replicate n 0;
    } in
    let l : length {A = ℕ} (replicate n 0) ≡ n = length-replicate n 0 in
    (e, ground arith, rw l (ground arith), rw l (ground arith), rw l (ground arith))

-- `new` writes zeros past the end of the allocation just when the mask is not empty and the site's value and the
-- alignment together leave fewer than the 8 bytes behind the mask that it clears.
pub alloc_size-padded_msk_len :
    (m bits n : ℕ)
    → (alloc_size m bits n < m + padded_msk_len n)
      ↔ ((0 < n) × ((bits + 7) / 8 < (m + n + (bits + 7) / 8) % 8))
unfolding alloc_size padded_msk_len padded
alloc_size-padded_msk_len m bits n = ground arith
