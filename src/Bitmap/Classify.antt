-- ===== src/Bitmap/Classify.antt =====
-- `classify_counts`: the table of byte pairs, byte by byte.
use Prim.Native.Nat.{bit_or}
use fuzztruction_net.Base.{
  ℕ, suc, ◌+◌, ◌*◌, ◌/◌, ◌%◌, ◌^◌, ◌<◌, ◌≡◌, refl, ap, List, [], ◌∷◌, ◌++◌, map, arith, ltb, ◌==◌,
  if◌then◌else◌, length, length-map, ◌∙◌, sym, Bool-cases, inl, inr,
}
use fuzztruction_net.Bits.Laws.{bit_at-zero, bit_at-bit_or, bit_at_ext, bit_or-lt}
use fuzztruction_net.Bits.Words.{le_word, le_bytes, Bytes, bit_or-cat}
use fuzztruction_net.Bitmap.Chunks.{IsValid, Chunked, as_chunks-Chunked, flat-as_chunks}
use fuzztruction_net.Bitmap.{
  Bitmap, as_chunks, flat, bucket, lookup_u16, classify_u16s, classify_counts, edges_loop, edges,
}

pub bucket-lt : (b : ℕ) → bucket b < 256
unfolding bucket
bucket-lt b = ground arith

-- A byte is 0 exactly if its bucket is.
pub bucket-zero : (b : ℕ) → b < 256 → (bucket b == 0) ≡ (b == 0)
unfolding bucket
bucket-zero b h = ground arith

bit_or-zero : (a : ℕ) → a < 256 → bit_or a 0 ≡ a
bit_or-zero a h =
    bit_at_ext 8 (bit_or a 0) a (bit_or-lt 8 a 0 h (omega arith)) h
      λ i lt. rw (bit_at-bit_or i a 0) (omega (arith, bit_at-zero i))

zero-bit_or : (a : ℕ) → a < 256 → bit_or 0 a ≡ a
zero-bit_or a h =
    bit_at_ext 8 (bit_or 0 a) a (bit_or-lt 8 0 a (omega arith) h) h
      λ i lt. rw (bit_at-bit_or i 0 a) (omega (arith, bit_at-zero i))

joined : (x y : ℕ) → bit_or (bucket y * 2 ^ 8) (bucket x) ≡ bucket x + bucket y * 256
joined x y = omega (
  arith,
  bit_or-cat 8 0 (bucket y) (bucket x) 0 (omega arith) (bucket-lt x),
  zero-bit_or (bucket x) (bucket-lt x),
  bit_or-zero (bucket y) (bucket-lt y),
  ap (λ z. bit_or z (bucket x + 0 * 256)) (zero_plus (bucket y * 256)),
  ap (bit_or (bucket y * 256)) (plus_none (bucket x)),
)
  where
    zero_plus : (n : ℕ) → 0 + n ≡ n
    zero_plus n = omega arith

    plus_none : (n : ℕ) → n + 0 * 256 ≡ n
    plus_none n = omega arith

lookup_pair :
    (s x y : ℕ) → s / 256 ≡ y → s % 256 ≡ x → le_bytes 2 (lookup_u16 s) ≡ bucket x ∷ bucket y ∷ []
unfolding lookup_u16
lookup_pair s x y hi lo =
    let low : (bucket x + bucket y * 256) % 256 ≡ bucket x = omega (arith, bucket-lt x) in
    let high : (bucket x + bucket y * 256) / 256 % 256 ≡ bucket y =
      omega (arith, bucket-lt x, bucket-lt y) in
    rw (hi, lo) (rw (joined x y) (rw (low, high)))

classify_u16s-map : (c : List ℕ) → length c % 2 ≡ 0 → Bytes c → classify_u16s c ≡ map bucket c
unfolding classify_u16s
classify_u16s-map [] l p = refl
classify_u16s-map (x ∷ []) l p = absurd (omega arith)
classify_u16s-map (x ∷ y ∷ rest) l p =
    let a = p.0 in
    let b = p.1.0 in
    let tail : classify_u16s rest ≡ map bucket rest = classify_u16s-map rest (omega arith) p.1.1 in
    ap (λ z. z ++ classify_u16s rest)
      (lookup_pair (le_word (x ∷ y ∷ [])) x y (omega arith) (omega arith))
    ∙ ap (λ z. bucket x ∷ bucket y ∷ z) tail

zero_chunk : (c : List ℕ) → le_word c ≡ 0 → map bucket c ≡ c
zero_chunk [] h = refl
zero_chunk (x ∷ xs) h =
    let e : x ≡ 0 = omega arith in rw e (rw (zero_chunk xs (omega arith)) (unfold bucket in refl))

map_append : (xs ys : List ℕ) → map bucket (xs ++ ys) ≡ map bucket xs ++ map bucket ys
map_append [] ys = refl
map_append (x ∷ xs) ys = ap (◌∷◌ (bucket x)) (map_append xs ys)

abbrev classify_chunk : List ℕ → List ℕ
classify_chunk c = if le_word c == 0 then c else classify_u16s c

classify_chunk-map : (c : List ℕ) → length c ≡ 8 → Bytes c → classify_chunk c ≡ map bucket c
classify_chunk-map c l p = elim (Bool-cases (le_word c == 0)) [
  | inl none_set ↦ rw none_set (sym (zero_chunk c (ground arith)))
  | inr some_set ↦ rw some_set (classify_u16s-map c (omega arith) p)
]

classify_chunks :
    (cs : List (List ℕ)) → Chunked cs → flat (map classify_chunk cs) ≡ map bucket (flat cs)
unfolding flat
classify_chunks [] p = refl
classify_chunks (c ∷ cs) p =
    ap (λ z. z ++ flat (map classify_chunk cs)) (classify_chunk-map c p.0 p.1)
    ∙ ap (◌++◌ (map bucket c)) (classify_chunks cs p.2)
    ∙ sym (map_append c (flat cs))

edges-map : (idx : ℕ) (xs : List ℕ) → Bytes xs → edges_loop idx (map bucket xs) ≡ edges_loop idx xs
unfolding edges_loop
edges-map idx [] p = refl
edges-map idx (x ∷ xs) p =
    let same : ltb 0 (bucket x) ≡ ltb 0 x = ground (arith, bucket-zero x p.0) in
    rw same (rw (edges-map (suc idx) xs p.1))

-- The classes of hit counts, one bit each: 1, 2, 3, 4 to 7, 8 to 15, 16 to 31, 32 to 127, and more.
abbrev pub count_class : ℕ → ℕ
count_class b =
    if ltb b 3
    then b
    else if ltb b 4
    then 4
    else if ltb b 8
    then 8
    else if ltb b 16
    then 16
    else if ltb b 32
    then 32
    else if ltb b 128
    then 64
    else 128

bucket-count_class : (b : ℕ) → b < 256 → bucket b ≡ count_class b
unfolding bucket
bucket-count_class b h = ground arith

map-bucket : (xs : List ℕ) → Bytes xs → map bucket xs ≡ map count_class xs
map-bucket [] h = refl
map-bucket (x ∷ xs) (h, hs) =
    rw (bucket-count_class x h) (ap (◌∷◌ (count_class x)) (map-bucket xs hs))

-- On a bitmap of whole chunks, `classify_counts` replaces every byte by the class of hit counts that it is in,
-- and the same edges are hit afterwards.
pub classify_counts-bytes :
    (b : Bitmap)
    → IsValid b
    → ((classify_counts b).bytes ≡ map count_class b.bytes) × (edges (classify_counts b) ≡ edges b)
unfolding classify_counts edges
classify_counts-bytes b v =
    let bytes : flat (map classify_chunk (as_chunks b.bytes)) ≡ map bucket b.bytes =
      classify_chunks (as_chunks b.bytes) (as_chunks-Chunked b v)
      ∙ ap (map bucket) (flat-as_chunks b v) in
    (
      bytes ∙ map-bucket b.bytes v.are_bytes,
      ap (edges_loop 0) bytes ∙ edges-map 0 b.bytes v.are_bytes,
    )

-- The other fields stay as they are.
pub classify_counts-record :
    (b : Bitmap) → IsValid b → classify_counts b ≡ record b { bytes = map count_class b.bytes }
unfolding classify_counts
classify_counts-record b v = ap (λ z. record b { bytes = z }) ((classify_counts-bytes b v).0)

Bytes-map : (xs : List ℕ) → Bytes xs → Bytes (map count_class xs)
Bytes-map [] h = tt
Bytes-map (x ∷ xs) (h, hs) = (ground arith, Bytes-map xs hs)

pub classify_counts-IsValid : (b : Bitmap) → IsValid b → IsValid (classify_counts b)
classify_counts-IsValid b v = rw (classify_counts-record b v) (record {
  sized = length-map count_class b.bytes ∙ v.sized;
  whole = v.whole;
  are_bytes = Bytes-map b.bytes v.are_bytes;
})
