-- ===== src/Bits/Words.antt =====
-- Words as little-endian byte lists, and the word operations byte by byte.
use Prim.Native.Nat.{bit_and, bit_or, bit_xor}
use native.Mathlib.Nat.{pow-suc}
use fuzztruction_net.Base.{
  ℕ, zero, suc, ◌+◌, ◌-◌, ◌*◌, ◌/◌, ◌%◌, ◌^◌, ◌<◌, ◌≡◌, refl, ap, List, [], ◌∷◌, map, arith, length,
}
use fuzztruction_net.Bits.{not_u8}
use fuzztruction_net.Bits.Step.{bit_and_step, bit_or_step, bit_xor_step}

-- `u64::from_le_bytes`, for any number of bytes.
abbrev pub le_word : List ℕ → ℕ
le_word [] = 0
le_word (b ∷ bs) = b + 256 * le_word bs

abbrev pub le_bytes : ℕ → ℕ → List ℕ
le_bytes zero w = []
le_bytes (suc n) w = w % 256 ∷ le_bytes n (w / 256)

abbrev pub zip_with : (ℕ → ℕ → ℕ) → List ℕ → List ℕ → List ℕ
zip_with f [] ys = []
zip_with f (x ∷ xs) [] = []
zip_with f (x ∷ xs) (y ∷ ys) = f x y ∷ zip_with f xs ys

abbrev pub Bytes : List ℕ → Type 0
Bytes [] = Unit {0}
Bytes (b ∷ bs) = (b < 256) × Bytes bs

pub le_bytes-le_word : (bs : List ℕ) → Bytes bs → le_bytes (length bs) (le_word bs) ≡ bs
le_bytes-le_word [] h = refl
le_bytes-le_word (b ∷ bs) h =
    let e : (b + 256 * le_word bs) % 256 ≡ b = omega arith in
    let f : (b + 256 * le_word bs) / 256 ≡ le_word bs = omega arith in
    rw (e, f) (ap (◌∷◌ b) (le_bytes-le_word bs h.1))

mul-pow-suc : (q k : ℕ) → q * 2 ^ suc k ≡ 2 * (q * 2 ^ k)
mul-pow-suc q k = omega (arith, ap (λ (t : ℕ). q * t) (pow-suc 2 k))

-- The lowest `k` digits and the rest are treated apart.
bit_and-cat :
    (k a u b v : ℕ)
    → a < 2 ^ k
    → b < 2 ^ k
    → bit_and (a + u * 2 ^ k) (b + v * 2 ^ k) ≡ bit_and a b + bit_and u v * 2 ^ k
bit_and-cat zero a u b v p q =
    let e : a ≡ 0 = omega arith in
    let f : b ≡ 0 = omega arith in
    let x : 0 + u * 1 ≡ u = omega arith in
    let y : 0 + v * 1 ≡ v = omega arith in rw (e, f) (rw (x, y) (omega arith))
bit_and-cat (suc k) a u b v p q = ground (
  arith,
  bit_and_step (a + u * 2 ^ suc k) (b + v * 2 ^ suc k),
  bit_and_step a b,
  mul-pow-suc u k,
  mul-pow-suc v k,
  mul-pow-suc (bit_and u v) k,
  pow-suc 2 k,
  bit_and-cat k (a / 2) u (b / 2) v,
)

pub bit_or-cat :
    (k a u b v : ℕ)
    → a < 2 ^ k
    → b < 2 ^ k
    → bit_or (a + u * 2 ^ k) (b + v * 2 ^ k) ≡ bit_or a b + bit_or u v * 2 ^ k
bit_or-cat zero a u b v p q =
    let e : a ≡ 0 = omega arith in
    let f : b ≡ 0 = omega arith in
    let x : 0 + u * 1 ≡ u = omega arith in
    let y : 0 + v * 1 ≡ v = omega arith in rw (e, f) (rw (x, y) (omega arith))
bit_or-cat (suc k) a u b v p q = ground (
  arith,
  bit_or_step (a + u * 2 ^ suc k) (b + v * 2 ^ suc k),
  bit_or_step a b,
  mul-pow-suc u k,
  mul-pow-suc v k,
  mul-pow-suc (bit_or u v) k,
  pow-suc 2 k,
  bit_or-cat k (a / 2) u (b / 2) v,
)

bit_xor-cat :
    (k a u b v : ℕ)
    → a < 2 ^ k
    → b < 2 ^ k
    → bit_xor (a + u * 2 ^ k) (b + v * 2 ^ k) ≡ bit_xor a b + bit_xor u v * 2 ^ k
bit_xor-cat zero a u b v p q =
    let e : a ≡ 0 = omega arith in
    let f : b ≡ 0 = omega arith in
    let x : 0 + u * 1 ≡ u = omega arith in
    let y : 0 + v * 1 ≡ v = omega arith in rw (e, f) (rw (x, y) (omega arith))
bit_xor-cat (suc k) a u b v p q = ground (
  arith,
  bit_xor_step (a + u * 2 ^ suc k) (b + v * 2 ^ suc k),
  bit_xor_step a b,
  mul-pow-suc u k,
  mul-pow-suc v k,
  mul-pow-suc (bit_xor u v) k,
  pow-suc 2 k,
  bit_xor-cat k (a / 2) u (b / 2) v,
)

-- A word operation that treats the lowest byte and the rest apart works byte by byte.
module _ (f : ℕ → ℕ → ℕ)
    (cat : (a u b v : ℕ) → a < 256 → b < 256 → f (a + u * 256) (b + v * 256) ≡ f a b + f u v * 256)
    (base : f 0 0 ≡ 0) where
  le_word-zip :
      (xs ys : List ℕ)
      → length xs ≡ length ys
      → Bytes xs
      → Bytes ys
      → f (le_word xs) (le_word ys) ≡ le_word (zip_with f xs ys)
  le_word-zip [] [] l p q = base
  le_word-zip [] (y ∷ ys) l p q = absurd (omega arith)
  le_word-zip (x ∷ xs) [] l p q = absurd (omega arith)
  le_word-zip (x ∷ xs) (y ∷ ys) l p q =
      let e : x + 256 * le_word xs ≡ x + le_word xs * 256 = omega arith in
      let g : y + 256 * le_word ys ≡ y + le_word ys * 256 = omega arith in
      rw (e, g)
        (omega (
          arith,
          cat x (le_word xs) y (le_word ys) p.0 q.0,
          le_word-zip xs ys (omega arith) p.1 q.1,
        ))

module _ (xs ys : List ℕ) (l : length xs ≡ length ys) (p : Bytes xs) (q : Bytes ys) where
  pub bit_and-le_word : bit_and (le_word xs) (le_word ys) ≡ le_word (zip_with bit_and xs ys)
  bit_and-le_word = le_word-zip bit_and (λ a u b v h k. bit_and-cat 8 a u b v h k) refl xs ys l p q

  pub bit_or-le_word : bit_or (le_word xs) (le_word ys) ≡ le_word (zip_with bit_or xs ys)
  bit_or-le_word = le_word-zip bit_or (λ a u b v h k. bit_or-cat 8 a u b v h k) refl xs ys l p q

  pub bit_xor-le_word : bit_xor (le_word xs) (le_word ys) ≡ le_word (zip_with bit_xor xs ys)
  bit_xor-le_word = le_word-zip bit_xor (λ a u b v h k. bit_xor-cat 8 a u b v h k) refl xs ys l p q

pub length-zip_with :
    (f : ℕ → ℕ → ℕ) (xs ys : List ℕ) → length xs ≡ length ys → length (zip_with f xs ys) ≡ length xs
length-zip_with f [] ys l = refl
length-zip_with f (x ∷ xs) [] l = absurd (omega arith)
length-zip_with f (x ∷ xs) (y ∷ ys) l = ap suc (length-zip_with f xs ys (omega arith))

pub le_word-lt : (bs : List ℕ) → Bytes bs → le_word bs < 256 ^ length bs
le_word-lt [] h = omega arith
le_word-lt (b ∷ bs) h = omega (arith, le_word-lt bs h.1, pow-suc 256 (length bs))

-- The complement of a word is that of its bytes.
pub le_word-not :
    (bs : List ℕ) → Bytes bs → 256 ^ length bs - 1 - le_word bs ≡ le_word (map not_u8 bs)
le_word-not [] h = refl
le_word-not (b ∷ bs) h =
    omega (arith, le_word-not bs h.1, le_word-lt bs h.1, pow-suc 256 (length bs))
