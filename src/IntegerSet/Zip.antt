-- ===== src/IntegerSet/Zip.antt =====
-- The binary operations, digit by digit, and that they keep the invariant.
use Prim.Native.Nat.{bit_and, bit_or}
use fuzztruction_net.Base.{
  ℕ, zero, suc, ◌-◌, ◌/◌, ◌%◌, ◌≡◌, refl, ap, sym, List, [], ◌∷◌, arith, get_or, length, min, max,
}
use fuzztruction_net.Bits.{not_u8}
use fuzztruction_net.Bits.Laws.{bit_at-bit_and, bit_at-bit_or, bit_at-not_u8, bit_and-le, bit_or-lt}
use fuzztruction_net.IntegerSet.{IntegerSet, zip_bytes, bitor, bitand, sub, digit}
use fuzztruction_net.IntegerSet.Valid.{IsValid}

length-zip_bytes : (f : ℕ → ℕ → ℕ) (xs ys : List ℕ) → length (zip_bytes f xs ys) ≡ length xs
unfolding zip_bytes
length-zip_bytes f [] ys = refl
length-zip_bytes f (x ∷ xs) [] = refl
length-zip_bytes f (x ∷ xs) (y ∷ ys) = ap suc (length-zip_bytes f xs ys)

get_or-zip_bytes :
    (f : ℕ → ℕ → ℕ) (xs ys : List ℕ) (i : ℕ)
    → f 0 0 ≡ 0
    → length xs ≡ length ys
    → get_or (zip_bytes f xs ys) i 0 ≡ f (get_or xs i 0) (get_or ys i 0)
unfolding zip_bytes
get_or-zip_bytes f [] [] i z h = sym z
get_or-zip_bytes f [] (y ∷ ys) i z h = absurd (omega arith)
get_or-zip_bytes f (x ∷ xs) [] i z h = absurd (omega arith)
get_or-zip_bytes f (x ∷ xs) (y ∷ ys) zero z h = refl
get_or-zip_bytes f (x ∷ xs) (y ∷ ys) (suc i) z h = get_or-zip_bytes f xs ys i z (omega arith)

module _ (n : ℕ) (s t : IntegerSet) (v : IsValid n s) (w : IsValid n t) where
  same_length : length s.bytes ≡ length t.bytes
  same_length = omega (arith, v.allotted, w.allotted)

  pub digit-bitor : (e : ℕ) → digit (bitor s t) e ≡ max (digit s e) (digit t e)
  unfolding bitor
  digit-bitor e =
      rw (get_or-zip_bytes bit_or s.bytes t.bytes (e / 8) refl same_length)
        (bit_at-bit_or (e % 8) (get_or s.bytes (e / 8) 0) (get_or t.bytes (e / 8) 0))

  pub digit-bitand : (e : ℕ) → digit (bitand s t) e ≡ min (digit s e) (digit t e)
  unfolding bitand
  digit-bitand e =
      rw (get_or-zip_bytes bit_and s.bytes t.bytes (e / 8) refl same_length)
        (bit_at-bit_and (e % 8) (get_or s.bytes (e / 8) 0) (get_or t.bytes (e / 8) 0))

  pub digit-sub : (e : ℕ) → digit (sub s t) e ≡ min (digit s e) (1 - digit t e)
  unfolding sub
  digit-sub e =
      rw (get_or-zip_bytes (λ x y. bit_and x (not_u8 y)) s.bytes t.bytes (e / 8) refl same_length) (
        rw (bit_at-bit_and (e % 8) (get_or s.bytes (e / 8) 0) (not_u8 (get_or t.bytes (e / 8) 0)))
          (rw (bit_at-not_u8 (e % 8) (get_or t.bytes (e / 8) 0) (omega arith) (w.is_byte (e / 8)))))

  pub bitor-IsValid : IsValid n (bitor s t)
  unfolding bitor
  bitor-IsValid = record {
    bound = v.bound;
    allotted = omega (arith, v.allotted, length-zip_bytes bit_or s.bytes t.bytes);
    is_byte = λ i.
        rw (get_or-zip_bytes bit_or s.bytes t.bytes i refl same_length)
          (bit_or-lt 8 _ _ (v.is_byte i) (w.is_byte i));
    within = λ e lt. omega (arith, digit-bitor e, v.within e lt, w.within e lt);
  }

  pub bitand-IsValid : IsValid n (bitand s t)
  unfolding bitand
  bitand-IsValid = record {
    bound = v.bound;
    allotted = omega (arith, v.allotted, length-zip_bytes bit_and s.bytes t.bytes);
    is_byte = λ i. rw (get_or-zip_bytes bit_and s.bytes t.bytes i refl same_length) (
        omega (
          arith,
          bit_and-le 8 (get_or s.bytes i 0) (get_or t.bytes i 0) (v.is_byte i),
          v.is_byte i,
        ));
    within = λ e lt. omega (arith, digit-bitand e, v.within e lt, w.within e lt);
  }

  pub sub-IsValid : IsValid n (sub s t)
  unfolding sub
  sub-IsValid = record {
    bound = v.bound;
    allotted =
        omega (arith, v.allotted, length-zip_bytes (λ x y. bit_and x (not_u8 y)) s.bytes t.bytes);
    is_byte = λ i.
        rw (get_or-zip_bytes (λ x y. bit_and x (not_u8 y)) s.bytes t.bytes i refl same_length) (
          omega (
            arith,
            bit_and-le 8 (get_or s.bytes i 0) (not_u8 (get_or t.bytes i 0)) (v.is_byte i),
            v.is_byte i,
          ));
    within = λ e lt. omega (arith, digit-sub e, v.within e lt);
  }
