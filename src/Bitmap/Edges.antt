-- ===== src/Bitmap/Edges.antt =====
-- `minimize` packs one bit per byte; `edges` of the result lists groups of eight edges.
use Prim.Native.Nat.{bit_or}
use fuzztruction_net.Base.{
  ℕ, suc, ◌+◌, ◌-◌, ◌*◌, ◌/◌, ◌%◌, ◌^◌, ◌≤◌, ◌<◌, ◌≡◌, refl, ◌&&◌, List, [], ◌∷◌, arith, ltb, leb,
  ◌==◌, if◌then◌else◌, length, get_or, set, length-set, get_or_beyond, get_or-set_self,
  get_or-set_ne, get_or-cons, Bool-cases, inl, inr,
}
use fuzztruction_net.Bits.{bit_at}
use fuzztruction_net.Bits.Laws.{bit_or-lt}
use fuzztruction_net.Bits.Vectors.{bit_at-set, raised, pow_byte}
use fuzztruction_net.Bits.Words.{Bytes}
use fuzztruction_net.IntegerSet.{elem}
use fuzztruction_net.IntegerSet.Entries.{digit_sum, Rises}
use fuzztruction_net.IntegerSet.Subsets.{Distinct, Rises-Distinct}
use fuzztruction_net.Bitmap.Counts.{ones}
use fuzztruction_net.Bitmap.{Bitmap, minimize_loop, edges_loop, edges, count_ones}

pub elem-edges_loop :
    (idx e : ℕ) (xs : List ℕ)
    → elem e (edges_loop idx xs) ≡ (leb idx e && ltb 0 (get_or xs (e - idx) 0))
unfolding edges_loop
elem-edges_loop idx e [] = ground arith
elem-edges_loop idx e (x ∷ xs) =
    ground (arith, elem-edges_loop (suc idx) e xs, get_or-cons x xs (e - idx))

-- `edges` lists the places of the bytes that are not 0.
pub elem-edges : (b : Bitmap) (e : ℕ) → elem e (edges b) ≡ ltb 0 (get_or b.bytes e 0)
unfolding edges
elem-edges b e = ground (arith, elem-edges_loop 0 e b.bytes)

Rises-edges_loop : (idx : ℕ) (xs : List ℕ) → Rises idx (idx + length xs) (edges_loop idx xs)
unfolding edges_loop
Rises-edges_loop idx [] = omega arith
Rises-edges_loop idx (x ∷ xs) =
    let e : idx + suc (length xs) ≡ suc idx + length xs = omega arith in
    let rest : Rises (suc idx) (suc idx + length xs) (edges_loop (suc idx) xs) =
      Rises-edges_loop (suc idx) xs in
    rw e (keep (edges_loop (suc idx) xs) (suc idx + length xs) rest)
  where
    keep :
        (l : List ℕ) (high : ℕ)
        → Rises (suc idx) high l
        → Rises idx high (if ltb 0 x then idx ∷ l else l)
    keep [] high r = ground arith
    keep (y ∷ l) high r = ground arith

pub edges-Distinct : (b : Bitmap) → Distinct (edges b)
unfolding edges
edges-Distinct b = Rises-Distinct 0 (0 + length b.bytes) (edges b) (Rises-edges_loop 0 b.bytes)

pub length-minimize_loop : (idx : ℕ) (src m : List ℕ) → length (minimize_loop idx src m) ≡ length m
unfolding minimize_loop
length-minimize_loop idx [] m = refl
length-minimize_loop idx (b ∷ src) m = ground (
  arith,
  length-minimize_loop (suc idx) src m,
  length-minimize_loop (suc idx) src
      (set m (idx / 8) (bit_or (get_or m (idx / 8) 0) (2 ^ (idx % 8)))),
  length-set m (idx / 8) (bit_or (get_or m (idx / 8) 0) (2 ^ (idx % 8))),
)

abbrev raise : ℕ → List ℕ → List ℕ
raise idx m = set m (idx / 8) (bit_or (get_or m (idx / 8) 0) (2 ^ (idx % 8)))

digit-raise :
    (idx e : ℕ) (m : List ℕ)
    → idx / 8 < length m
    → bit_at (get_or (raise idx m) (e / 8) 0) (e % 8)
      ≡ (if e == idx then 1 else bit_at (get_or m (e / 8) 0) (e % 8))
digit-raise idx e m h =
    bit_at-set m idx e (bit_or (get_or m (idx / 8) 0) (2 ^ (idx % 8))) 1 h
      (ground (arith, raised (get_or m (idx / 8) 0) (idx % 8) (idx % 8)))
      (λ j lt ne. ground (arith, raised (get_or m (idx / 8) 0) (idx % 8) j))

-- The digits of the packed map: what was there, and one for each byte that is not 0.
pub digit-minimize_loop :
    (idx e : ℕ) (src m : List ℕ)
    → idx + length src ≤ length m * 8
    → bit_at (get_or (minimize_loop idx src m) (e / 8) 0) (e % 8) ≡ (
        if leb idx e && ltb 0 (get_or src (e - idx) 0)
        then 1
        else bit_at (get_or m (e / 8) 0) (e % 8))
unfolding minimize_loop
digit-minimize_loop idx e [] m h = ground arith
digit-minimize_loop idx e (b ∷ src) m h = elim (Bool-cases (ltb 0 b)) [
  | inl hit ↦ rw hit (
      ground (
        arith,
        hit,
        digit-minimize_loop (suc idx) e src (raise idx m),
        length-set m (idx / 8) (bit_or (get_or m (idx / 8) 0) (2 ^ (idx % 8))),
        digit-raise idx e m (omega arith),
        get_or-cons b src (e - idx),
      ))
  | inr miss ↦
      rw miss
        (ground (arith, miss, digit-minimize_loop (suc idx) e src m, get_or-cons b src (e - idx)))
]

pub Bytes-minimize_loop :
    (idx : ℕ) (src m : List ℕ)
    → ((i : ℕ) → get_or m i 0 < 256)
    → (i : ℕ) → get_or (minimize_loop idx src m) i 0 < 256
unfolding minimize_loop
Bytes-minimize_loop idx [] m h i = h i
Bytes-minimize_loop idx (b ∷ src) m h i = elim (Bool-cases (ltb 0 b)) [
  | inl hit ↦ rw hit (Bytes-minimize_loop (suc idx) src (raise idx m) raised_bytes i)
  | inr miss ↦ rw miss (Bytes-minimize_loop (suc idx) src m h i)
]
  where
    new_byte : ℕ
    new_byte = bit_or (get_or m (idx / 8) 0) (2 ^ (idx % 8))

    raised_bytes : (j : ℕ) → get_or (raise idx m) j 0 < 256
    raised_bytes j = elim (Bool-cases (idx / 8 == j && ltb (idx / 8) (length m))) [
      | inl here ↦ ground (
        arith,
        get_or-set_self m (idx / 8) new_byte 0,
        bit_or-lt 8 (get_or m (idx / 8) 0) (2 ^ (idx % 8)) (h (idx / 8))
            (pow_byte (idx % 8) (omega arith)),
      )
      | inr there ↦ elim (Bool-cases (idx / 8 == j)) [
        | inl same ↦
            ground (arith, get_or_beyond (raise idx m) j 0, length-set m (idx / 8) new_byte)
        | inr other ↦ ground (arith, get_or-set_ne m (idx / 8) j new_byte 0, h j)
      ]
    ]

pub Bytes-list : (xs : List ℕ) → ((i : ℕ) → get_or xs i 0 < 256) → Bytes xs
Bytes-list [] h = tt
Bytes-list (x ∷ xs) h = (h 0, Bytes-list xs (λ i. h (suc i)))

pub ones-digit_sum : (xs : List ℕ) → ones xs ≡ digit_sum xs
unfolding count_ones
ones-digit_sum [] = refl
ones-digit_sum (x ∷ xs) = omega (arith, ones-digit_sum xs)
