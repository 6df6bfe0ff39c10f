-- ===== src/Bits/Vectors.antt =====
-- Digits of a vector of bytes: bit `e % 8` of byte `e / 8`.
use Prim.Native.Nat.{bit_and, bit_or}
use fuzztruction_net.Base.{
  ℕ, zero, suc, ◌/◌, ◌%◌, ◌^◌, ◌<◌, ◌≡◌, ◌≢◌, List, arith, ◌==◌, get_or, set, length,
  get_or-set_self, get_or-set_ne, if◌then◌else◌,
}
use fuzztruction_net.Bits.{bit_at, not_u8}
use fuzztruction_net.Bits.Laws.{
  bit_at-lt, bit_at-bit_and, bit_at-bit_or, bit_at-pow_self, bit_at-pow_ne, bit_at-not_u8,
}

pub pow_byte : (j : ℕ) → j < 8 → 2 ^ j < 256
pow_byte zero h = omega arith
pow_byte (suc zero) h = omega arith
pow_byte (suc (suc zero)) h = omega arith
pow_byte (suc (suc (suc zero))) h = omega arith
pow_byte (suc (suc (suc (suc zero)))) h = omega arith
pow_byte (suc (suc (suc (suc (suc zero))))) h = omega arith
pow_byte (suc (suc (suc (suc (suc (suc zero)))))) h = omega arith
pow_byte (suc (suc (suc (suc (suc (suc (suc zero))))))) h = omega arith
pow_byte (suc (suc (suc (suc (suc (suc (suc (suc j)))))))) h = absurd (omega arith)

-- A digit of the bytes after one of them was written.
pub bit_at-set :
    (xs : List ℕ) (e x v b : ℕ)
    → e / 8 < length xs
    → bit_at v (e % 8) ≡ b
    → ((j : ℕ) → j < 8 → j ≢ e % 8 → bit_at v j ≡ bit_at (get_or xs (e / 8) 0) j)
    → bit_at (get_or (set xs (e / 8) v) (x / 8) 0) (x % 8)
      ≡ (if x == e then b else bit_at (get_or xs (x / 8) 0) (x % 8))
bit_at-set xs e x v b h here other =
    ground
      (arith, get_or-set_self xs (e / 8) v 0, get_or-set_ne xs (e / 8) (x / 8) v 0, other (x % 8))

-- `|= 1 << j` and `&= !(1 << j)` on a byte, digit by digit.
pub raised : (b j i : ℕ) → bit_at (bit_or b (2 ^ j)) i ≡ (if i == j then 1 else bit_at b i)
raised b j i =
    rw (bit_at-bit_or i b (2 ^ j))
      (ground (arith, bit_at-pow_self j, bit_at-pow_ne j i, bit_at-lt b i))

pub cleared :
    (b j i : ℕ)
    → j < 8
    → i < 8
    → bit_at (bit_and b (not_u8 (2 ^ j))) i ≡ (if i == j then 0 else bit_at b i)
cleared b j i h k =
    rw (bit_at-bit_and i b (not_u8 (2 ^ j)), bit_at-not_u8 i (2 ^ j) k (pow_byte j h))
      (ground (arith, bit_at-pow_self j, bit_at-pow_ne j i, bit_at-lt b i))
