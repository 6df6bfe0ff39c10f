-- ===== src/Cache/EntryData.antt =====
-- fuzztruction_shared/src/mutation_cache_entry.rs: one entry of the mutation cache, the metadata of a
-- mutation site and the mask that is applied there. The location type is a kind of
-- the stack map library and is its number here. The bytes behind the mask, always 0, are left out.
use Prim.Native.Nat.{bit_and, bit_or}
use fuzztruction_net.Base.{
  ℕ, ◌+◌, ◌-◌, ◌*◌, ◌/◌, ◌%◌, ◌<◌, arith, Bool, true, not, ◌&&◌, Option, none, some, List, [], ◌∷◌,
  ◌++◌, ltb, leb, ◌==◌, if◌then◌else◌, ◌>>=◌, ◌^◌, length, take, replicate,
}
use fuzztruction_net.Bits.{not_u8}

abbrev pub max_mask_len : ℕ
max_mask_len = 1024 * 1024 * 64

-- The instructions of the stack map library that the program names, and the others by number.
pub data LlvmInstruction : Type 0 where
  br load store injected_call custom_patch_point switch select i_cmp call : LlvmInstruction
  other : ℕ → LlvmInstruction

pub record Entry : Type 0 where
  pub id : ℕ
  pub llvm_instruction : LlvmInstruction
  pub vma : ℕ
  pub flags : ℕ
  pub loc_type : ℕ
  pub target_value_size_bits : ℕ
  pub read_pos_bits : ℕ
  pub msk : List ℕ

abbrev pub msk_len : Entry → ℕ
msk_len self = length self.msk

-- MutationCacheEntryFlags, as `u8`.
abbrev pub tracing_enabled : ℕ
tracing_enabled = 1

abbrev pub disable_flag : ℕ
disable_flag = 2

-- An assertion on the length fails for long masks.
unfoldable pub new : ℕ → LlvmInstruction → ℕ → ℕ → ℕ → ℕ → ℕ → Option Entry
new id llvm_instruction vma flags loc_type target_value_size_bits msk_len =
    if ltb msk_len max_mask_len
    then some (record {
      id = id;
      llvm_instruction = llvm_instruction;
      vma = vma;
      flags = flags;
      loc_type = loc_type;
      target_value_size_bits = target_value_size_bits;
      read_pos_bits = 0;
      msk = replicate msk_len 0;
    })
    else none

unfoldable pub target_value_size_byte : Entry → ℕ
target_value_size_byte self = (self.target_value_size_bits + 7) / 8

-- `metadata` is `size_of::<MutationCacheEntryMetadata>()`.
unfoldable pub size_wo_overflow_padding : ℕ → Entry → ℕ
size_wo_overflow_padding metadata self = metadata + msk_len self

unfoldable pub padded : ℕ → ℕ
padded ret = ret + (8 - ret % 8)

unfoldable pub size : ℕ → Entry → ℕ
unfolding size_wo_overflow_padding target_value_size_byte padded
size metadata self = padded (
    if ltb 0 (msk_len self)
    then size_wo_overflow_padding metadata self + target_value_size_byte self
    else size_wo_overflow_padding metadata self)

-- The bytes that `new` allocates, and those that it writes from the start of the mask on.
unfoldable pub alloc_size : ℕ → ℕ → ℕ → ℕ
unfolding padded
alloc_size metadata target_value_size_bits msk_len =
    if ltb 0 msk_len
    then padded (metadata + msk_len + (target_value_size_bits + 7) / 8)
    else padded (metadata + msk_len)

unfoldable pub padded_msk_len : ℕ → ℕ
padded_msk_len msk_len = if ltb 0 msk_len then msk_len + 8 else msk_len

-- The old mask is cut off or filled up with zeros.
unfoldable pub clone_with_new_msk : ℕ → Entry → Option Entry
clone_with_new_msk new_msk_len self =
    if leb new_msk_len max_mask_len && ltb 0 new_msk_len
    then some (record self {
      msk = take new_msk_len self.msk ++ replicate (new_msk_len - length self.msk) 0;
    })
    else none

unfoldable pub set_flag : ℕ → Entry → Entry
set_flag flag self = record self { flags = bit_or self.flags flag }

unfoldable pub unset_flag : ℕ → Entry → Entry
unset_flag flag self = record self { flags = bit_and self.flags (not_u8 flag) }

pub reset_flags : Entry → Entry
reset_flags self = record self { flags = 0 }

unfoldable pub is_flag_set : ℕ → Entry → Bool
is_flag_set flag self = ltb 0 (bit_and self.flags flag)

unfoldable pub enable : Entry → Entry
unfolding unset_flag
enable self = unset_flag disable_flag self

unfoldable pub disable : Entry → Entry
unfolding set_flag
disable self = set_flag disable_flag self

unfoldable pub enable_tracing : Entry → Entry
unfolding set_flag
enable_tracing self = set_flag tracing_enabled self

unfoldable pub disable_tracing : Entry → Entry
unfolding unset_flag
disable_tracing self = unset_flag tracing_enabled self

unfoldable pub enabled : Entry → Bool
unfolding is_flag_set
enabled self = not (is_flag_set disable_flag self)

unfoldable pub all_zero : List ℕ → Bool
all_zero [] = true
all_zero (b ∷ bs) = (b == 0) && all_zero bs

unfoldable pub is_nop : Entry → Bool
unfolding all_zero
is_nop self = all_zero self.msk

pub size-pos : (metadata : ℕ) (e : Entry) → 0 < size metadata e
unfolding size padded
size-pos metadata e = omega arith

-- `chunk_size_bits`, a `u16`: a branch and a call read one bit, `try_into` fails on what does not fit, and other
-- instructions are not supported.
unfoldable pub chunk_size_bits : Entry → Option ℕ
chunk_size_bits self = elim self.llvm_instruction [
  | br ↦ if self.target_value_size_bits == 1 then some 1 else none
  | call ↦ if self.target_value_size_bits == 1 then some 1 else none
  | other n ↦ none
  | _ ↦ if ltb self.target_value_size_bits (2 ^ 16) then some self.target_value_size_bits else none
]

unfoldable pub chunk_size_bytes : Entry → Option ℕ
unfolding chunk_size_bits
chunk_size_bytes self = do
  bits ← chunk_size_bits self
  some (if ltb 0 (bits % 8) then bits / 8 + 1 else bits / 8)
