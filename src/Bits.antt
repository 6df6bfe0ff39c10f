-- ===== src/Bits.antt =====
-- Binary digits of native numbers: the `&`, `|`, `^`, `!` and `<<` of the machine words of the
-- program, read digit by digit. The proofs stand in the child modules.
mod Step
pub mod Laws
pub mod Words
pub mod Vectors
use fuzztruction_net.Base.{ℕ, zero, suc, ◌-◌, ◌/◌, ◌%◌, ◌^◌}

-- The digit at position `i`, the lowest at 0.
abbrev pub bit_at : ℕ → ℕ → ℕ
bit_at n zero = n % 2
bit_at n (suc i) = bit_at (n / 2) i

-- `!x` on `u8` and `u64`.
abbrev pub not_u8 : ℕ → ℕ
not_u8 x = 255 - x

abbrev pub not_u64 : ℕ → ℕ
not_u64 x = 2 ^ 64 - 1 - x
