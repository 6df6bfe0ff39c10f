-- ===== src/Bitmap/Operators.antt =====
-- `new_in_mem`, `reset`, `not` and the binary operators, byte by byte.
use Prim.Native.Nat.{bit_and, bit_or, bit_xor}
use fuzztruction_net.Base.{
  ℕ, zero, suc, ◌/◌, ◌%◌, ◌≤◌, ◌<◌, ◌≡◌, ◌≢◌, refl, ap, true, Option, some, List, [], ◌∷◌, ◌++◌,
  map, arith, length, replicate, ◌∙◌, sym, length-replicate,
}
use fuzztruction_net.Bits.{not_u8, not_u64}
use fuzztruction_net.Bits.Words.{le_word, le_bytes, zip_with, Bytes}
use fuzztruction_net.Bitmap.Chunks.{
  IsValid, Chunked, as_chunks-Chunked, flat-as_chunks, length-as_chunks, zip_with-append, chunk_and,
  chunk_or, chunk_xor, chunk_not,
}
use fuzztruction_net.Bitmap.{
  Bitmap, pow2_loop, is_power_of_two, new_in_mem, as_chunks, flat, not_map, clone_with_pattern,
  op_chunks, bit_op, bitand, bitor, bitxor,
}

-- A bitmap as the constructors make them: a size that they accept, and as many bytes.
pub record IsMap (b : Bitmap) : Type 0 where
  pub sized : length b.bytes ≡ b.size
  pub least : 8 ≤ b.size
  pub power : is_power_of_two b.size ≡ true
  pub are_bytes : Bytes b.bytes

pow2_half :
    (fuel n : ℕ)
    → pow2_loop (suc fuel) n ≡ true
    → n ≢ 1
    → (n % 2 ≡ 0) × (pow2_loop fuel (n / 2) ≡ true)
unfolding pow2_loop
pow2_half fuel n h k = ground arith

pub whole_of_power : (n : ℕ) → is_power_of_two n ≡ true → 8 ≤ n → n % 8 ≡ 0
unfolding is_power_of_two
whole_of_power n h k =
    let (a, h1) = pow2_half 63 n h (omega arith) in
    let (b, h2) = pow2_half 62 (n / 2) h1 (omega arith) in
    let (c, h3) = pow2_half 61 (n / 2 / 2) h2 (omega arith) in omega arith

pow2_more : (fuel n : ℕ) → pow2_loop fuel n ≡ true → pow2_loop (suc fuel) n ≡ true
unfolding pow2_loop
pow2_more zero n h = cc
pow2_more (suc fuel) n h = ground (arith, pow2_more fuel (n / 2))

-- An eighth of a large power of two is a power of two.
pub eighth-power : (n : ℕ) → is_power_of_two n ≡ true → 64 ≤ n → is_power_of_two (n / 8) ≡ true
unfolding is_power_of_two
eighth-power n h k =
    let (a, h1) = pow2_half 63 n h (omega arith) in
    let (b, h2) = pow2_half 62 (n / 2) h1 (omega arith) in
    let (c, h3) = pow2_half 61 (n / 2 / 2) h2 (omega arith) in
    let e : n / 2 / 2 / 2 ≡ n / 8 = omega arith in
    rw (← e) (
      pow2_more 63 (n / 2 / 2 / 2) (pow2_more 62 (n / 2 / 2 / 2) (pow2_more 61 (n / 2 / 2 / 2) h3)))

pub IsMap-IsValid : (b : Bitmap) → IsMap b → IsValid b
IsMap-IsValid b v = record {
  sized = v.sized;
  whole = whole_of_power b.size v.power v.least;
  are_bytes = v.are_bytes;
}

Bytes-replicate : (n a : ℕ) → a < 256 → Bytes (replicate n a)
Bytes-replicate zero a h = tt
Bytes-replicate (suc n) a h = (h, Bytes-replicate n a h)

-- A bitmap can be made of every size that is a power of two and at least 8, and of no other.
pub new_in_mem-IsMap :
    (size fill : ℕ)
    → fill < 256
    → 8 ≤ size
    → is_power_of_two size ≡ true
    → (b : Bitmap) × (new_in_mem size fill ≡ some b)
      × IsMap b
      × (b.bytes ≡ replicate size fill)
      × (b.size ≡ size)
unfolding new_in_mem
new_in_mem-IsMap size fill f l p =
    let b : Bitmap = record { bytes = replicate size fill; fill_pattern = fill; size = size } in
    (
      b,
      ground (arith, p),
      record {
        sized = length-replicate size fill;
        least = l;
        power = p;
        are_bytes = Bytes-replicate size fill f;
      },
      refl,
      refl,
    )

op_chunks-Bytes :
    (op : ℕ → ℕ → ℕ) (rs bs cs : List (List ℕ))
    → ((xs ys : List ℕ)
        → length xs ≡ 8
        → length ys ≡ 8
        → Bytes xs
        → Bytes ys
        → le_bytes 8 (op (le_word xs) (le_word ys)) ≡ zip_with op xs ys)
    → length rs ≡ length bs
    → length bs ≡ length cs
    → Chunked bs
    → Chunked cs
    → flat (op_chunks op rs bs cs) ≡ zip_with op (flat bs) (flat cs)
unfolding op_chunks flat
op_chunks-Bytes op [] [] [] f k l p q = refl
op_chunks-Bytes op [] [] (c ∷ cs) f k l p q = absurd (omega arith)
op_chunks-Bytes op [] (b ∷ bs) cs f k l p q = absurd (omega arith)
op_chunks-Bytes op (r ∷ rs) [] cs f k l p q = absurd (omega arith)
op_chunks-Bytes op (r ∷ rs) (b ∷ bs) [] f k l p q = absurd (omega arith)
op_chunks-Bytes op (r ∷ rs) (b ∷ bs) (c ∷ cs) f k l p q =
    ap (λ z. z ++ flat (op_chunks op rs bs cs)) (f b c p.0 q.0 p.1 q.1)
    ∙ ap (◌++◌ (zip_with op b c))
        (op_chunks-Bytes op rs bs cs f (omega arith) (omega arith) p.2 q.2)
    ∙ sym (zip_with-append op b (flat bs) c (flat cs) (omega arith))

-- The result of an operator: a bitmap of the size of `self` with these bytes.
abbrev pub IsBytewise : Bitmap → Bitmap → (ℕ → ℕ → ℕ) → Option Bitmap → Type 0
IsBytewise self rhs op r =
    (b : Bitmap) × (r ≡ some b)
    × (b.bytes ≡ zip_with op self.bytes rhs.bytes)
    × (b.size ≡ self.size)

module _ (self rhs : Bitmap) (v : IsMap self) (w : IsMap rhs) (e : self.size ≡ rhs.size) where
  bit_op-Bytes :
      (op : ℕ → ℕ → ℕ)
      → ((xs ys : List ℕ)
          → length xs ≡ 8
          → length ys ≡ 8
          → Bytes xs
          → Bytes ys
          → le_bytes 8 (op (le_word xs) (le_word ys)) ≡ zip_with op xs ys)
      → IsBytewise self rhs op (bit_op op self rhs)
  unfolding bit_op clone_with_pattern
  bit_op-Bytes op f =
      let (ret, made, is_map, _, same) =
        new_in_mem-IsMap self.size 0 (omega arith) v.least v.power in
      let vv : IsValid self = IsMap-IsValid self v in
      let ww : IsValid rhs = IsMap-IsValid rhs w in
      let bytes : flat
            (op_chunks op (as_chunks ret.bytes) (as_chunks self.bytes) (as_chunks rhs.bytes))
          ≡ zip_with op (flat (as_chunks self.bytes)) (flat (as_chunks rhs.bytes)) =
        op_chunks-Bytes op (as_chunks ret.bytes) (as_chunks self.bytes) (as_chunks rhs.bytes) f
          (omega (
            arith,
            length-as_chunks ret (IsMap-IsValid ret is_map),
            same,
            length-as_chunks self vv,
          ))
          (omega (arith, length-as_chunks self vv, length-as_chunks rhs ww))
          (as_chunks-Chunked self vv) (as_chunks-Chunked rhs ww) in
      (
        record ret {
          bytes =
              flat
                (op_chunks op (as_chunks ret.bytes) (as_chunks self.bytes) (as_chunks rhs.bytes));
        },
        rw made refl,
        bytes ∙ (rw (flat-as_chunks self vv, flat-as_chunks rhs ww)),
        same,
      )

-- On two bitmaps of the same size, as the constructors make them, `&`, `|` and `^` succeed, and
-- give the bitmap of that size whose bytes are the bytes of both, combined by the operation.
pub operators-bytes :
    (self rhs : Bitmap)
    → IsMap self
    → IsMap rhs
    → self.size ≡ rhs.size
    → IsBytewise self rhs bit_and (bitand self rhs)
      × IsBytewise self rhs bit_or (bitor self rhs)
      × IsBytewise self rhs bit_xor (bitxor self rhs)
unfolding bitand bitor bitxor
operators-bytes self rhs v w e = (
  bit_op-Bytes self rhs v w e bit_and chunk_and,
  bit_op-Bytes self rhs v w e bit_or chunk_or,
  bit_op-Bytes self rhs v w e bit_xor chunk_xor,
)

map-append_not : (xs ys : List ℕ) → map not_u8 (xs ++ ys) ≡ map not_u8 xs ++ map not_u8 ys
map-append_not [] ys = refl
map-append_not (x ∷ xs) ys = ap (◌∷◌ (not_u8 x)) (map-append_not xs ys)

not_chunks :
    (cs : List (List ℕ))
    → Chunked cs
    → flat (map (λ c. le_bytes 8 (not_u64 (le_word c))) cs) ≡ map not_u8 (flat cs)
unfolding flat
not_chunks [] p = refl
not_chunks (c ∷ cs) p =
    ap (λ z. z ++ flat (map (λ c. le_bytes 8 (not_u64 (le_word c))) cs)) (chunk_not c p.0 p.1)
    ∙ ap (◌++◌ (map not_u8 c)) (not_chunks cs p.2)
    ∙ sym (map-append_not c (flat cs))

-- `not` complements every byte.
pub not_map-bytes : (b : Bitmap) → IsValid b → (not_map b).bytes ≡ map not_u8 b.bytes
unfolding not_map
not_map-bytes b v =
    not_chunks (as_chunks b.bytes) (as_chunks-Chunked b v) ∙ ap (map not_u8) (flat-as_chunks b v)
