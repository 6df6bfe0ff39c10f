-- ===== src/Bits/Step.antt =====
-- One digit of `bit_and`, `bit_or` and `bit_xor`, from the definitions that the native operations
-- stand for.
use Prim.Native.Nat.{
  bit_and, bit_or, bit_xor, digits, bitwise, differ, bit_and-bitwise, bit_or-bitwise,
  bit_xor-bitwise,
}
use fuzztruction_net.Base.{ℕ, zero, suc, ◌+◌, ◌*◌, ◌/◌, ◌%◌, ◌≤◌, ◌<◌, ◌≡◌, refl, min, max, arith}

module _ (rest : ℕ → ℕ) (digit : ℕ → ℕ → ℕ) where
  -- Digits beyond the first number's are not read.
  extra_digits : (x k m y : ℕ) → x ≤ k → k ≤ m → digits rest digit m x y ≡ digits rest digit k x y
  extra_digits zero zero zero y h l = refl
  extra_digits zero zero (suc m) y h l = refl
  extra_digits zero (suc k) (suc m) y h l = refl
  extra_digits (suc x) (suc k) (suc m) y h l =
      omega (arith, extra_digits (suc x / 2) k m (y / 2) (omega arith) (omega arith))
  extra_digits (suc x) zero m y h l = absurd (omega arith)
  extra_digits x (suc k) zero y h l = absurd (omega arith)

  -- The lowest digit of an operation that works digit by digit.
  lowest_digit :
      (op : ℕ → ℕ → ℕ)
      → ((x y : ℕ) → op x y ≡ bitwise rest digit x y)
      → (x y : ℕ) → op (suc x) y ≡ op (suc x / 2) (y / 2) * 2 + digit (suc x % 2) (y % 2)
  lowest_digit op def x y =
      let half = extra_digits (suc x / 2) (suc x / 2) x (y / 2) (omega arith) (omega arith) in
      omega (arith, half, def (suc x) y, def (suc x / 2) (y / 2))

pub bit_and-none : (b : ℕ) → bit_and 0 b ≡ 0
bit_and-none b = bit_and-bitwise 0 b

pub bit_and_step : (a b : ℕ) → bit_and a b ≡ bit_and (a / 2) (b / 2) * 2 + min (a % 2) (b % 2)
bit_and_step (suc a) b = lowest_digit (λ y. 0) min bit_and bit_and-bitwise a b
bit_and_step zero b = omega (arith, bit_and-none b, bit_and-none (b / 2))

pub bit_or_step : (a b : ℕ) → bit_or a b ≡ bit_or (a / 2) (b / 2) * 2 + max (a % 2) (b % 2)
bit_or_step (suc a) b = lowest_digit (λ y. y) max bit_or bit_or-bitwise a b
bit_or_step zero b = omega (arith, bit_or-bitwise 0 b, bit_or-bitwise 0 (b / 2))

differ_sum : (a b : ℕ) → a < 2 → b < 2 → differ a b ≡ (a + b) % 2
differ_sum zero b p q = omega arith
differ_sum (suc a) zero p q = omega arith
differ_sum (suc zero) (suc zero) p q = refl
differ_sum (suc a) (suc (suc b)) p q = absurd (omega arith)
differ_sum (suc (suc a)) b p q = absurd (omega arith)

pub bit_xor_step : (a b : ℕ) → bit_xor a b ≡ bit_xor (a / 2) (b / 2) * 2 + (a + b) % 2
bit_xor_step zero b = omega (arith, bit_xor-bitwise 0 b, bit_xor-bitwise 0 (b / 2))
bit_xor_step (suc a) b =
    let d = differ_sum (suc a % 2) (b % 2) (omega arith) (omega arith) in
    omega (arith, d, lowest_digit (λ y. y) differ bit_xor bit_xor-bitwise a b)
