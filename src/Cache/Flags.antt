-- ===== src/Cache/Flags.antt =====
-- fuzztruction_shared/src/mutation_cache_entry.rs: the flags of an entry.
use Prim.Native.Nat.{bit_and, bit_or}
use fuzztruction_net.Base.{
  ℕ, ◌<◌, ◌≡◌, arith, true, false, not, ltb, ◌==◌, if◌then◌else◌, ◌∙◌, ap, sym, ◌^◌,
}
use fuzztruction_net.Bits.{bit_at, not_u8}
use fuzztruction_net.Bits.Laws.{test_bit}
use fuzztruction_net.Bits.Vectors.{raised, cleared}
use fuzztruction_net.Cache.EntryData.{
  Entry, tracing_enabled, set_flag, unset_flag, is_flag_set, enable, disable, enable_tracing,
  disable_tracing, enabled,
}

-- Setting and clearing flag `j` as seen at flag `i`.
is_set_raised :
    (b i j : ℕ) → (bit_at (bit_or b (2 ^ j)) i == 1) ≡ (if i == j then true else bit_at b i == 1)
is_set_raised b i j = rw (raised b j i) (ground arith)

is_set_cleared :
    (b i j : ℕ)
    → j < 8
    → i < 8
    → (bit_at (bit_and b (not_u8 (2 ^ j))) i == 1) ≡ (if i == j then false else bit_at b i == 1)
is_set_cleared b i j h k = rw (cleared b j i h k) (ground arith)

-- An entry is enabled after `enable` and not after `disable`, traced after `enable_tracing` and not after
-- `disable_tracing`, and neither flag depends on changes of the other.
pub flags-separate :
    (e : Entry)
    → (enabled (enable e) ≡ true)
      × (enabled (disable e) ≡ false)
      × (enabled (enable_tracing e) ≡ enabled e)
      × (enabled (disable_tracing e) ≡ enabled e)
      × (is_flag_set tracing_enabled (enable_tracing e) ≡ true)
      × (is_flag_set tracing_enabled (disable_tracing e) ≡ false)
      × (is_flag_set tracing_enabled (enable e) ≡ is_flag_set tracing_enabled e)
      × (is_flag_set tracing_enabled (disable e) ≡ is_flag_set tracing_enabled e)
unfolding enabled enable disable enable_tracing disable_tracing is_flag_set set_flag unset_flag
flags-separate e =
    let b = e.flags in
    let t : (n j : ℕ) → ltb 0 (bit_and n (2 ^ j)) ≡ (bit_at n j == 1) = test_bit in
    (
      ap not (t (bit_and b (not_u8 2)) 1 ∙ is_set_cleared b 1 1 (omega arith) (omega arith)),
      ap not (t (bit_or b 2) 1 ∙ is_set_raised b 1 1),
      ap not (t (bit_or b 1) 1 ∙ is_set_raised b 1 0 ∙ sym (t b 1)),
      ap not (
          t (bit_and b (not_u8 1)) 1
          ∙ is_set_cleared b 1 0 (omega arith) (omega arith)
          ∙ sym (t b 1)),
      t (bit_or b 1) 0 ∙ is_set_raised b 0 0,
      t (bit_and b (not_u8 1)) 0 ∙ is_set_cleared b 0 0 (omega arith) (omega arith),
      t (bit_and b (not_u8 2)) 0 ∙ is_set_cleared b 0 1 (omega arith) (omega arith) ∙ sym (t b 0),
      t (bit_or b 2) 0 ∙ is_set_raised b 0 1 ∙ sym (t b 0),
    )
