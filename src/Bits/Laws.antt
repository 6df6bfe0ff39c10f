-- ===== src/Bits/Laws.antt =====
-- Digit laws: what each operation does to each digit, bounds, and that the digits determine the
-- number.
use Prim.Native.Nat.{bit_and, bit_or, bit_xor}
use native.Mathlib.Nat.{pow-suc, one-le-pow}
use fuzztruction_net.Base.{
  ℕ, zero, suc, ◌+◌, ◌-◌, ◌*◌, ◌/◌, ◌%◌, ◌^◌, ◌≤◌, ◌<◌, ◌≡◌, ◌≢◌, refl, ap, min, max, arith, ◌⊎◌,
  inl, inr, ltb, ◌==◌,
}
use fuzztruction_net.Bits.{bit_at, not_u8}
use fuzztruction_net.Bits.Step.{bit_and_step, bit_or_step, bit_xor_step, bit_and-none}

pub bit_at-lt : (n i : ℕ) → bit_at n i < 2
bit_at-lt n zero = omega arith
bit_at-lt n (suc i) = bit_at-lt (n / 2) i

pub bit_at-zero : (i : ℕ) → bit_at 0 i ≡ 0
bit_at-zero zero = refl
bit_at-zero (suc i) = bit_at-zero i

pub bit_at-bit_and : (i a b : ℕ) → bit_at (bit_and a b) i ≡ min (bit_at a i) (bit_at b i)
bit_at-bit_and zero a b = omega (arith, bit_and_step a b)
bit_at-bit_and (suc i) a b =
    let e : bit_and a b / 2 ≡ bit_and (a / 2) (b / 2) = omega (arith, bit_and_step a b) in
    rw e (bit_at-bit_and i (a / 2) (b / 2))

pub bit_at-bit_or : (i a b : ℕ) → bit_at (bit_or a b) i ≡ max (bit_at a i) (bit_at b i)
bit_at-bit_or zero a b = omega (arith, bit_or_step a b)
bit_at-bit_or (suc i) a b =
    let e : bit_or a b / 2 ≡ bit_or (a / 2) (b / 2) = omega (arith, bit_or_step a b) in
    rw e (bit_at-bit_or i (a / 2) (b / 2))

pub bit_at-bit_xor : (i a b : ℕ) → bit_at (bit_xor a b) i ≡ (bit_at a i + bit_at b i) % 2
bit_at-bit_xor zero a b = omega (arith, bit_xor_step a b)
bit_at-bit_xor (suc i) a b =
    let e : bit_xor a b / 2 ≡ bit_xor (a / 2) (b / 2) = omega (arith, bit_xor_step a b) in
    rw e (bit_at-bit_xor i (a / 2) (b / 2))

-- `1 << i` has the digit at `i` alone.
pub bit_at-pow_self : (i : ℕ) → bit_at (2 ^ i) i ≡ 1
bit_at-pow_self zero = refl
bit_at-pow_self (suc i) =
    let e : 2 ^ suc i / 2 ≡ 2 ^ i = omega (arith, pow-suc 2 i) in rw e (bit_at-pow_self i)

pub bit_at-pow_ne : (i j : ℕ) → i ≢ j → bit_at (2 ^ i) j ≡ 0
bit_at-pow_ne zero zero h = absurd (h refl)
bit_at-pow_ne zero (suc j) h = bit_at-zero j
bit_at-pow_ne (suc i) zero h = omega (arith, pow-suc 2 i)
bit_at-pow_ne (suc i) (suc j) h =
    let e : 2 ^ suc i / 2 ≡ 2 ^ i = omega (arith, pow-suc 2 i) in
    rw e (bit_at-pow_ne i j (λ p. h (ap suc p)))

-- The complement in `k` digits.
pub bit_at-complement : (k i n : ℕ) → i < k → n < 2 ^ k → bit_at (2 ^ k - 1 - n) i ≡ 1 - bit_at n i
bit_at-complement zero i n h b = elim h [ ]
bit_at-complement (suc k) zero n h b = omega (arith, pow-suc 2 k, one-le-pow k 2 (omega arith))
bit_at-complement (suc k) (suc i) n h b =
    let e : (2 ^ suc k - 1 - n) / 2 ≡ 2 ^ k - 1 - n / 2 =
      omega (arith, pow-suc 2 k, one-le-pow k 2 (omega arith)) in
    rw e (bit_at-complement k i (n / 2) (omega arith) (omega (arith, pow-suc 2 k)))

pub bit_at-not_u8 : (i n : ℕ) → i < 8 → n < 256 → bit_at (not_u8 n) i ≡ 1 - bit_at n i
bit_at-not_u8 i n h b = bit_at-complement 8 i n h b

-- Numbers below `2 ^ k` that agree in `k` digits are equal.
pub bit_at_ext :
    (k a b : ℕ) → a < 2 ^ k → b < 2 ^ k → ((i : ℕ) → i < k → bit_at a i ≡ bit_at b i) → a ≡ b
bit_at_ext zero a b p q h = omega arith
bit_at_ext (suc k) a b p q h = omega (
  arith,
  h 0 (omega arith),
  bit_at_ext k (a / 2) (b / 2) (omega (arith, pow-suc 2 k)) (omega (arith, pow-suc 2 k))
      (λ i lt. h (suc i) (omega arith)),
)

bit_and_none : (n a : ℕ) → a ≤ n → bit_and a 0 ≡ 0
bit_and_none n zero h = bit_and-none 0
bit_and_none zero (suc a) h = absurd (omega arith)
bit_and_none (suc n) (suc a) h =
    omega (arith, bit_and_step (suc a) 0, bit_and_none n (suc a / 2) (omega arith))

pub bit_and-zero : (a : ℕ) → bit_and a 0 ≡ 0
bit_and-zero a = bit_and_none a a (omega arith)

pub bit_and-le : (k a b : ℕ) → a < 2 ^ k → bit_and a b ≤ a
bit_and-le zero a b h = let e : a ≡ 0 = omega arith in rw e (omega (arith, bit_and-none b))
bit_and-le (suc k) a b h =
    omega (arith, bit_and_step a b, bit_and-le k (a / 2) (b / 2) (omega (arith, pow-suc 2 k)))

-- `x & (1 << j)` keeps the digit at `j`.
pub bit_and-pow : (j n : ℕ) → bit_and n (2 ^ j) ≡ bit_at n j * 2 ^ j
bit_and-pow zero n = omega (arith, bit_and_step n 1, bit_and-zero (n / 2))
bit_and-pow (suc j) n =
    let e : 2 ^ suc j / 2 ≡ 2 ^ j = omega (arith, pow-suc 2 j) in
    let f : 2 ^ suc j % 2 ≡ 0 = omega (arith, pow-suc 2 j) in
    let s : bit_and n (2 ^ suc j)
        ≡ bit_and (n / 2) (2 ^ suc j / 2) * 2 + min (n % 2) (2 ^ suc j % 2) =
      bit_and_step n (2 ^ suc j) in
    rw s (rw (e, f) (rw (bit_and-pow j (n / 2)) (rw (pow-suc 2 j) (omega arith))))

pub test_bit : (n j : ℕ) → ltb 0 (bit_and n (2 ^ j)) ≡ (bit_at n j == 1)
test_bit n j = elim (two_cases (bit_at n j) (bit_at-lt n j)) [
  | inl e ↦ rw (bit_and-pow j n) (rw e (ground arith))
  | inr e ↦ rw (bit_and-pow j n) (rw e (ground (arith, one-le-pow j 2)))
]
  where
    two_cases : (b : ℕ) → b < 2 → (b ≡ 0) ⊎ (b ≡ 1)
    two_cases b h = ground arith

pub bit_or-lt : (k a b : ℕ) → a < 2 ^ k → b < 2 ^ k → bit_or a b < 2 ^ k
bit_or-lt zero a b p q =
    let e : a ≡ 0 = omega arith in let f : b ≡ 0 = omega arith in rw (e, f) (omega arith)
bit_or-lt (suc k) a b p q = omega (
  arith,
  pow-suc 2 k,
  bit_or_step a b,
  bit_or-lt k (a / 2) (b / 2) (omega (arith, pow-suc 2 k)) (omega (arith, pow-suc 2 k)),
)

pub bit_xor-lt : (k a b : ℕ) → a < 2 ^ k → b < 2 ^ k → bit_xor a b < 2 ^ k
bit_xor-lt zero a b p q =
    let e : a ≡ 0 = omega arith in let f : b ≡ 0 = omega arith in rw (e, f) (omega arith)
bit_xor-lt (suc k) a b p q = omega (
  arith,
  pow-suc 2 k,
  bit_xor_step a b,
  bit_xor-lt k (a / 2) (b / 2) (omega (arith, pow-suc 2 k)) (omega (arith, pow-suc 2 k)),
)
