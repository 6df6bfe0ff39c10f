-- ===== src/Bitmap.antt =====
-- scheduler/src/sink_bitmap.rs: the coverage bitmap, one byte per edge, worked on in chunks of eight
-- bytes read as little-endian words. A bitmap in shared memory and one on the heap differ in where
-- the bytes live, which is left out; a failed assertion is `none`.
pub mod Chunks
pub mod Verdicts
pub mod NewBits
pub mod Operators
pub mod Fresh
pub mod Counts
pub mod Edges
pub mod Minimized
pub mod Classify
pub mod Tests
use Prim.Native.Nat.{bit_and, bit_or, bit_xor}
use fuzztruction_net.Base.{
  ℕ, zero, suc, ◌+◌, ◌-◌, ◌*◌, ◌/◌, ◌%◌, ◌^◌, Bool, true, false, not, ◌&&◌, Option, none, some,
  List, [], ◌∷◌, ◌++◌, map, ltb, leb, ◌==◌, if◌then◌else◌, length, get_or, set, take, drop,
  replicate, ◌>>=◌,
}
use fuzztruction_net.Bits.{not_u64}
use fuzztruction_net.Bits.Words.{le_word, le_bytes}

pub data BitmapStatus : Type 0 where
  no_change new_hit new_edge : BitmapStatus

pub record Bitmap : Type 0 where
  pub bytes : List ℕ
  pub fill_pattern : ℕ
  pub size : ℕ

-- `usize::is_power_of_two`: halving meets 1 before an odd number.
pow2_loop : ℕ → ℕ → Bool
pow2_loop zero n = false
pow2_loop (suc fuel) n =
    let rest = pow2_loop fuel (n / 2) in
    if n == 1 then true else if n % 2 == 1 then false else if n == 0 then false else rest

unfoldable pub is_power_of_two : ℕ → Bool
unfolding pow2_loop
is_power_of_two n = pow2_loop 64 n

unfoldable pub new_in_mem : ℕ → ℕ → Option Bitmap
new_in_mem size fill_pattern =
    if leb 8 size && is_power_of_two size
    then some
        (record { bytes = replicate size fill_pattern; fill_pattern = fill_pattern; size = size })
    else none

-- `copy_from_slice` panics on slices of different lengths.
unfoldable pub copy_from : Bitmap → Bitmap → Option Bitmap
copy_from self other =
    if length self.bytes == length other.bytes
    then some (record self { bytes = other.bytes })
    else none

pub reset : Bitmap → Bitmap
reset self = record self { bytes = replicate (length self.bytes) self.fill_pattern }

-- `as_chunks_unchecked::<8>()`, and the bytes of chunks.
pub chunks_of : ℕ → List ℕ → List (List ℕ)
chunks_of zero xs = []
chunks_of (suc n) xs = take 8 xs ∷ chunks_of n (drop 8 xs)

pub as_chunks : List ℕ → List (List ℕ)
unfolding chunks_of
as_chunks xs = chunks_of (length xs / 8) xs

pub flat : List (List ℕ) → List ℕ
flat [] = []
flat (c ∷ cs) = c ++ flat cs

-- `((val & 0xff << 8 * k) != 0).then(|| bytes_set += 1)`
byte_set : ℕ → ℕ → ℕ
byte_set val k = if bit_and val (255 * 2 ^ (8 * k)) == 0 then 0 else 1

chunk_bytes_set : ℕ → ℕ
unfolding byte_set
chunk_bytes_set val =
    if ltb 0 val
    then byte_set val 0
      + byte_set val 1
      + byte_set val 2
      + byte_set val 3
      + byte_set val 4
      + byte_set val 5
      + byte_set val 6
      + byte_set val 7
    else 0

sum_chunks : (ℕ → ℕ) → List (List ℕ) → ℕ
sum_chunks f [] = 0
sum_chunks f (c ∷ cs) = f (le_word c) + sum_chunks f cs

unfoldable pub count_bytes_set : Bitmap → ℕ
unfolding as_chunks sum_chunks chunk_bytes_set
count_bytes_set self = sum_chunks chunk_bytes_set (as_chunks self.bytes)

-- `count_ones` on the lowest `k` digits.
pub count_ones : ℕ → ℕ → ℕ
count_ones zero w = 0
count_ones (suc k) w = w % 2 + count_ones k (w / 2)

unfoldable pub count_bits_set : Bitmap → ℕ
unfolding as_chunks sum_chunks count_ones
count_bits_set self = sum_chunks (count_ones 64) (as_chunks self.bytes)

unfoldable pub not_map : Bitmap → Bitmap
unfolding as_chunks flat
not_map self = record self {
  bytes = flat (map (λ c. le_bytes 8 (not_u64 (le_word c))) (as_chunks self.bytes));
}

-- The inner loop of `has_new_bit` over the eight byte pairs of a chunk.
pub untouched : List ℕ → List ℕ → Bool
untouched [] vi = false
untouched (s ∷ se) [] = false
untouched (s ∷ se) (v ∷ vi) = if not (s == 0) && v == 0xff then true else untouched se vi

raise_status : BitmapStatus → List ℕ → List ℕ → BitmapStatus
unfolding untouched
raise_status new_edge se vi = new_edge
raise_status no_change se vi = if untouched se vi then new_edge else new_hit
raise_status new_hit se vi = if untouched se vi then new_edge else new_hit

-- The outer loop: the status so far, and the chunks of both maps. The virgin map's chunks come
-- back as they are left.
scan : BitmapStatus → List (List ℕ) → List (List ℕ) → BitmapStatus × List (List ℕ)
scan ret [] vis = (ret, vis)
scan ret (se ∷ ses) [] = (ret, [])
scan ret (se ∷ ses) (vi ∷ vis) =
    let self_bytes = le_word se in
    let virgin_bytes = le_word vi in
    let hit = not (self_bytes == 0) && not (bit_and self_bytes virgin_bytes == 0) in
    let (ret', rest) = scan (if hit then raise_status ret se vi else ret) ses vis in
    (ret', (if hit then le_bytes 8 (bit_and virgin_bytes (not_u64 self_bytes)) else vi) ∷ rest)

unfoldable pub has_new_bit : Bitmap → Bitmap → BitmapStatus × Bitmap
unfolding as_chunks scan raise_status flat
has_new_bit self virgin =
    let (ret, vis) = scan no_change (as_chunks self.bytes) (as_chunks virgin.bytes) in
    (ret, record virgin { bytes = flat vis })

-- LOOKUP_U8_IDX and LOOKUP_BUCKET.
abbrev lookup_u8_idx : List (ℕ × ℕ)
lookup_u8_idx =
    (0, 1) ∷ (1, 2) ∷ (2, 3) ∷ (3, 4) ∷ (4, 8) ∷ (8, 16) ∷ (16, 32) ∷ (32, 128) ∷ (128, 256) ∷ []

abbrev lookup_bucket : List ℕ
lookup_bucket = 0 ∷ 1 ∷ 2 ∷ 4 ∷ 8 ∷ 16 ∷ 32 ∷ 64 ∷ 128 ∷ []

position : ℕ → ℕ → List (ℕ × ℕ) → Option ℕ
position b i [] = none
position b i ((lo, hi) ∷ rs) = if leb lo b && ltb b hi then some i else position b (suc i) rs

-- The `unwrap` cannot fail on a byte; past the bytes the value is 0.
unfoldable pub bucket : ℕ → ℕ
unfolding position
bucket b = elim (position b 0 lookup_u8_idx) [ none ↦ 0 | some idx ↦ get_or lookup_bucket idx 0 ]

-- LOOKUP_U16, at an index `(b1 << 8) + b2`.
lookup_u16 : ℕ → ℕ
lookup_u16 s = bit_or (bucket (s / 256) * 2 ^ 8) (bucket (s % 256))

-- The four `u16` of a chunk.
classify_u16s : List ℕ → List ℕ
classify_u16s [] = []
classify_u16s (x ∷ []) = x ∷ []
classify_u16s (x ∷ y ∷ rest) = le_bytes 2 (lookup_u16 (le_word (x ∷ y ∷ []))) ++ classify_u16s rest

unfoldable pub classify_counts : Bitmap → Bitmap
unfolding as_chunks flat classify_u16s lookup_u16
classify_counts self = record self {
  bytes = flat (map (λ c. if le_word c == 0 then c else classify_u16s c) (as_chunks self.bytes));
}

unfoldable pub clone_with_pattern : Bitmap → ℕ → Option Bitmap
clone_with_pattern self pattern = new_in_mem self.size pattern

pub clone_as_mem_backed : Bitmap → Option Bitmap
unfolding copy_from
clone_as_mem_backed self = do bm ← new_in_mem self.size self.fill_pattern; copy_from bm self

pub minimize_loop : ℕ → List ℕ → List ℕ → List ℕ
minimize_loop idx [] new_map = new_map
minimize_loop idx (b ∷ src) new_map = minimize_loop (suc idx) src (
    if ltb 0 b
    then set new_map (idx / 8) (bit_or (get_or new_map (idx / 8) 0) (2 ^ (idx % 8)))
    else new_map)

-- One bit per byte.
unfoldable pub minimize : Bitmap → Option Bitmap
unfolding minimize_loop
minimize self = do
  new_map ← new_in_mem (self.size / 8) 0
  some (record new_map { bytes = minimize_loop 0 self.bytes new_map.bytes })

pub edges_loop : ℕ → List ℕ → List ℕ
edges_loop idx [] = []
edges_loop idx (val ∷ rest) =
    let more = edges_loop (suc idx) rest in if ltb 0 val then idx ∷ more else more

unfoldable pub edges : Bitmap → List ℕ
unfolding edges_loop
edges self = edges_loop 0 self.bytes

-- `impl_ops!`: the chunks of the result, which start at 0, are overwritten in turn.
op_chunks : (ℕ → ℕ → ℕ) → List (List ℕ) → List (List ℕ) → List (List ℕ) → List (List ℕ)
op_chunks op [] b1s b2s = []
op_chunks op (r ∷ rs) [] b2s = r ∷ rs
op_chunks op (r ∷ rs) (b1 ∷ b1s) [] = r ∷ rs
op_chunks op (r ∷ rs) (b1 ∷ b1s) (b2 ∷ b2s) =
    le_bytes 8 (op (le_word b1) (le_word b2)) ∷ op_chunks op rs b1s b2s

pub bit_op : (ℕ → ℕ → ℕ) → Bitmap → Bitmap → Option Bitmap
unfolding op_chunks as_chunks flat
bit_op op self rhs = do
  ret ← clone_with_pattern self 0
  some (record ret {
    bytes = flat (op_chunks op (as_chunks ret.bytes) (as_chunks self.bytes) (as_chunks rhs.bytes));
  })

pub bitand : Bitmap → Bitmap → Option Bitmap
unfolding bit_op
bitand = bit_op bit_and

pub bitor : Bitmap → Bitmap → Option Bitmap
unfolding bit_op
bitor = bit_op bit_or

pub bitxor : Bitmap → Bitmap → Option Bitmap
unfolding bit_op
bitxor = bit_op bit_xor
