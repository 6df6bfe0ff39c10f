-- ===== src/Bitmap/Chunks.antt =====
-- Bytes, chunks and words: what is done to the words of the chunks is done to the bytes.
use Prim.Native.Nat.{bit_and, bit_or, bit_xor}
use fuzztruction_net.Base.{
  ℕ, zero, suc, ◌-◌, ◌*◌, ◌/◌, ◌%◌, ◌^◌, ◌<◌, ◌≡◌, refl, ap, subst, List, [], ◌∷◌, ◌++◌, map, arith,
  length, take, drop, length-take, take-append-drop, ◌∙◌,
}
use fuzztruction_net.Bits.{not_u8, not_u64}
use fuzztruction_net.Bits.Laws.{bit_and-le, bit_or-lt, bit_xor-lt}
use fuzztruction_net.Bits.Words.{
  le_word, le_bytes, zip_with, Bytes, le_bytes-le_word, bit_and-le_word, bit_or-le_word,
  bit_xor-le_word, length-zip_with, le_word-not,
}
use fuzztruction_net.Bitmap.{Bitmap, chunks_of, as_chunks, flat}

-- As many bytes as the size says, whole chunks of them.
pub record IsValid (b : Bitmap) : Type 0 where
  pub sized : length b.bytes ≡ b.size
  pub whole : b.size % 8 ≡ 0
  pub are_bytes : Bytes b.bytes

abbrev pub Chunked : List (List ℕ) → Type 0
Chunked [] = Unit {0}
Chunked (c ∷ cs) = (length c ≡ 8) × Bytes c × Chunked cs

Bytes-take : (n : ℕ) (xs : List ℕ) → Bytes xs → Bytes (take n xs)
Bytes-take zero xs h = tt
Bytes-take (suc n) [] h = tt
Bytes-take (suc n) (x ∷ xs) h = (h.0, Bytes-take n xs h.1)

Bytes-drop : (n : ℕ) (xs : List ℕ) → Bytes xs → Bytes (drop n xs)
Bytes-drop zero xs h = h
Bytes-drop (suc n) [] h = tt
Bytes-drop (suc n) (x ∷ xs) h = Bytes-drop n xs h.1

length-drop : (n : ℕ) (xs : List ℕ) → length (drop n xs) ≡ length xs - n
length-drop zero xs = omega arith
length-drop (suc n) [] = omega arith
length-drop (suc n) (x ∷ xs) = omega (arith, length-drop n xs)

chunks_of-Chunked : (n : ℕ) (xs : List ℕ) → length xs ≡ n * 8 → Bytes xs → Chunked (chunks_of n xs)
unfolding chunks_of
chunks_of-Chunked zero xs l h = tt
chunks_of-Chunked (suc n) xs l h = (
  omega (arith, length-take 8 xs),
  Bytes-take 8 xs h,
  chunks_of-Chunked n (drop 8 xs) (omega (arith, length-drop 8 xs)) (Bytes-drop 8 xs h),
)

flat-chunks_of : (n : ℕ) (xs : List ℕ) → length xs ≡ n * 8 → flat (chunks_of n xs) ≡ xs
unfolding chunks_of flat
flat-chunks_of zero [] l = refl
flat-chunks_of zero (x ∷ xs) l = absurd (omega arith)
flat-chunks_of (suc n) xs l =
    ap (◌++◌ (take 8 xs)) (flat-chunks_of n (drop 8 xs) (omega (arith, length-drop 8 xs)))
    ∙ take-append-drop 8 xs

length-chunks_of : (n : ℕ) (xs : List ℕ) → length (chunks_of n xs) ≡ n
unfolding chunks_of
length-chunks_of zero xs = refl
length-chunks_of (suc n) xs = ap suc (length-chunks_of n (drop 8 xs))

module _ (b : Bitmap) (v : IsValid b) where
  pub as_chunks-Chunked : Chunked (as_chunks b.bytes)
  unfolding as_chunks
  as_chunks-Chunked =
      chunks_of-Chunked (length b.bytes / 8) b.bytes (omega (arith, v.sized, v.whole)) v.are_bytes

  pub flat-as_chunks : flat (as_chunks b.bytes) ≡ b.bytes
  unfolding as_chunks
  flat-as_chunks = flat-chunks_of (length b.bytes / 8) b.bytes (omega (arith, v.sized, v.whole))

  pub length-as_chunks : length (as_chunks b.bytes) ≡ b.size / 8
  unfolding as_chunks
  length-as_chunks = omega (arith, v.sized, length-chunks_of (length b.bytes / 8) b.bytes)

module _ (f : ℕ → ℕ → ℕ) where
  pub zip_with-append :
      (xs ys us vs : List ℕ)
      → length xs ≡ length us
      → zip_with f (xs ++ ys) (us ++ vs) ≡ zip_with f xs us ++ zip_with f ys vs
  zip_with-append [] ys [] vs l = refl
  zip_with-append [] ys (u ∷ us) vs l = absurd (omega arith)
  zip_with-append (x ∷ xs) ys [] vs l = absurd (omega arith)
  zip_with-append (x ∷ xs) ys (u ∷ us) vs l =
      ap (◌∷◌ (f x u)) (zip_with-append xs ys us vs (omega arith))

  Bytes-zip_with :
      ((a b : ℕ) → a < 256 → b < 256 → f a b < 256)
      → (xs ys : List ℕ) → Bytes xs
      → Bytes ys
      → Bytes (zip_with f xs ys)
  Bytes-zip_with k [] ys p q = tt
  Bytes-zip_with k (x ∷ xs) [] p q = tt
  Bytes-zip_with k (x ∷ xs) (y ∷ ys) p q = (k x y p.0 q.0, Bytes-zip_with k xs ys p.1 q.1)

  -- An operation on the words of two chunks, done on their bytes.
  chunk_op :
      (xs ys : List ℕ)
      → f (le_word xs) (le_word ys) ≡ le_word (zip_with f xs ys)
      → ((a b : ℕ) → a < 256 → b < 256 → f a b < 256)
      → length xs ≡ 8
      → length ys ≡ 8
      → Bytes xs
      → Bytes ys
      → le_bytes 8 (f (le_word xs) (le_word ys)) ≡ zip_with f xs ys
  chunk_op xs ys e k l m p q =
      let n : length (zip_with f xs ys) ≡ 8 =
        omega (arith, length-zip_with f xs ys (omega arith)) in
      rw e (
        subst (λ z. le_bytes z (le_word (zip_with f xs ys)) ≡ zip_with f xs ys) n
          (le_bytes-le_word (zip_with f xs ys) (Bytes-zip_with k xs ys p q)))

byte_and : (a b : ℕ) → a < 256 → b < 256 → bit_and a b < 256
byte_and a b p q = omega (arith, bit_and-le 8 a b p)

module _ (xs ys : List ℕ) (l : length xs ≡ 8) (m : length ys ≡ 8) (p : Bytes xs)
    (q : Bytes ys) where
  pub chunk_and : le_bytes 8 (bit_and (le_word xs) (le_word ys)) ≡ zip_with bit_and xs ys
  chunk_and = chunk_op bit_and xs ys (bit_and-le_word xs ys (omega arith) p q) byte_and l m p q

  pub chunk_or : le_bytes 8 (bit_or (le_word xs) (le_word ys)) ≡ zip_with bit_or xs ys
  chunk_or =
      chunk_op bit_or xs ys (bit_or-le_word xs ys (omega arith) p q)
        (λ a b h k. bit_or-lt 8 a b h k) l m p q

  pub chunk_xor : le_bytes 8 (bit_xor (le_word xs) (le_word ys)) ≡ zip_with bit_xor xs ys
  chunk_xor =
      chunk_op bit_xor xs ys (bit_xor-le_word xs ys (omega arith) p q)
        (λ a b h k. bit_xor-lt 8 a b h k) l m p q

length-map_not : (xs : List ℕ) → length (map not_u8 xs) ≡ length xs
length-map_not [] = refl
length-map_not (x ∷ xs) = ap suc (length-map_not xs)

pub Bytes-map_not : (xs : List ℕ) → Bytes (map not_u8 xs)
Bytes-map_not [] = tt
Bytes-map_not (x ∷ xs) = (omega arith, Bytes-map_not xs)

not_u64-le_word :
    (xs : List ℕ) → length xs ≡ 8 → Bytes xs → not_u64 (le_word xs) ≡ le_word (map not_u8 xs)
not_u64-le_word xs l p =
    subst (λ z. 256 ^ z - 1 - le_word xs ≡ le_word (map not_u8 xs)) l (le_word-not xs p)

pub chunk_not :
    (xs : List ℕ) → length xs ≡ 8 → Bytes xs → le_bytes 8 (not_u64 (le_word xs)) ≡ map not_u8 xs
chunk_not xs l p =
    let n : length (map not_u8 xs) ≡ 8 = omega (arith, length-map_not xs) in
    rw (not_u64-le_word xs l p) (
      subst (λ z. le_bytes z (le_word (map not_u8 xs)) ≡ map not_u8 xs) n
        (le_bytes-le_word (map not_u8 xs) (Bytes-map_not xs)))

zip_with-not :
    (xs ys : List ℕ)
    → zip_with bit_and ys (map not_u8 xs) ≡ zip_with (λ v a. bit_and v (not_u8 a)) ys xs
zip_with-not xs [] = refl
zip_with-not [] (y ∷ ys) = refl
zip_with-not (x ∷ xs) (y ∷ ys) = ap (◌∷◌ (bit_and y (not_u8 x))) (zip_with-not xs ys)

-- `virgin &= !self` on the words of a chunk, done on the bytes.
pub chunk_and_not :
    (xs ys : List ℕ)
    → length xs ≡ 8
    → length ys ≡ 8
    → Bytes xs
    → Bytes ys
    → le_bytes 8 (bit_and (le_word ys) (not_u64 (le_word xs)))
      ≡ zip_with (λ v a. bit_and v (not_u8 a)) ys xs
chunk_and_not xs ys l m p q = rw (not_u64-le_word xs l p) (
    chunk_and ys (map not_u8 xs) m (omega (arith, length-map_not xs)) q (Bytes-map_not xs)
    ∙ zip_with-not xs ys)
