-- ===== src/Bitmap/Counts.antt =====
-- `count_bytes_set`, `count_bits_set` and `edges`: the loops over words, byte by byte.
use Prim.Native.Nat.{bit_and}
use fuzztruction_net.Base.{
  ℕ, zero, suc, ◌+◌, ◌*◌, ◌/◌, ◌^◌, ◌≡◌, refl, ap, List, [], ◌∷◌, ◌++◌, arith, ◌==◌, if◌then◌else◌,
  length, get_or, replicate, ◌∙◌, sym, subst,
}
use fuzztruction_net.Bits.Laws.{bit_and-zero}
use fuzztruction_net.Bits.Words.{le_word, zip_with, Bytes, bit_and-le_word}
use fuzztruction_net.Bitmap.Chunks.{IsValid, Chunked, as_chunks-Chunked, flat-as_chunks}
use fuzztruction_net.Bitmap.Verdicts.{bit_and_full}
use fuzztruction_net.Bitmap.{
  Bitmap, as_chunks, flat, byte_set, chunk_bytes_set, sum_chunks, count_bytes_set, count_ones,
  count_bits_set, edges_loop, edges,
}

-- How many bytes are not 0.
abbrev pub nonzero : List ℕ → ℕ
nonzero [] = 0
nonzero (x ∷ xs) = (if x == 0 then 0 else 1) + nonzero xs

-- The digits that are set, byte by byte.
abbrev pub ones : List ℕ → ℕ
ones [] = 0
ones (x ∷ xs) = count_ones 8 x + ones xs

nonzero-append : (xs ys : List ℕ) → nonzero (xs ++ ys) ≡ nonzero xs + nonzero ys
nonzero-append [] ys = omega arith
nonzero-append (x ∷ xs) ys = omega (arith, nonzero-append xs ys)

ones-append : (xs ys : List ℕ) → ones (xs ++ ys) ≡ ones xs + ones ys
ones-append [] ys = omega arith
ones-append (x ∷ xs) ys = omega (arith, ones-append xs ys)

-- 0xff at place `k` of `n` bytes.
abbrev mask : ℕ → ℕ → List ℕ
mask k zero = []
mask zero (suc n) = 255 ∷ replicate n 0
mask (suc k) (suc n) = 0 ∷ mask k n

le_word-zeros : (xs : List ℕ) → le_word (zip_with bit_and xs (replicate (length xs) 0)) ≡ 0
le_word-zeros [] = refl
le_word-zeros (x ∷ xs) = omega (arith, le_word-zeros xs, bit_and-zero x)

masked :
    (k : ℕ) (xs : List ℕ)
    → Bytes xs
    → (le_word (zip_with bit_and xs (mask k (length xs))) == 0) ≡ (get_or xs k 0 == 0)
masked k [] p = refl
masked zero (x ∷ xs) p = ground (arith, bit_and_full x p.0, le_word-zeros xs)
masked (suc k) (x ∷ xs) p = ground (arith, bit_and-zero x, masked k xs p.1)

Bytes-zeros : (n : ℕ) → Bytes (replicate n 0)
Bytes-zeros zero = tt
Bytes-zeros (suc n) = (omega arith, Bytes-zeros n)

Bytes-mask : (k n : ℕ) → Bytes (mask k n)
Bytes-mask k zero = tt
Bytes-mask zero (suc n) = (omega arith, Bytes-zeros n)
Bytes-mask (suc k) (suc n) = (omega arith, Bytes-mask k n)

module _ (c : List ℕ) (l : length c ≡ 8) (p : Bytes c) where
  byte_set-byte :
      (k : ℕ)
      → length (mask k 8) ≡ 8
      → le_word (mask k 8) ≡ 255 * 2 ^ (8 * k)
      → byte_set (le_word c) k ≡ (if get_or c k 0 == 0 then 0 else 1)
  unfolding byte_set
  byte_set-byte k n m = rw (← m) (
      rw (bit_and-le_word c (mask k 8) (omega arith) p (Bytes-mask k 8)) (
        rw (
          subst (λ z. (le_word (zip_with bit_and c (mask k z)) == 0) ≡ (get_or c k 0 == 0)) l
            (masked k c p))))

spelled_out :
    (c : List ℕ)
    → length c ≡ 8
    → nonzero c
      ≡ (if get_or c 0 0 == 0 then 0 else 1)
        + (if get_or c 1 0 == 0 then 0 else 1)
        + (if get_or c 2 0 == 0 then 0 else 1)
        + (if get_or c 3 0 == 0 then 0 else 1)
        + (if get_or c 4 0 == 0 then 0 else 1)
        + (if get_or c 5 0 == 0 then 0 else 1)
        + (if get_or c 6 0 == 0 then 0 else 1)
        + (if get_or c 7 0 == 0 then 0 else 1)
spelled_out (a ∷ b ∷ c ∷ d ∷ e ∷ f ∷ g ∷ h ∷ []) l = omega arith
spelled_out c l = absurd (omega arith)

nonzero_none : (c : List ℕ) → le_word c ≡ 0 → nonzero c ≡ 0
nonzero_none [] h = refl
nonzero_none (x ∷ xs) h = ground (arith, nonzero_none xs)

chunk_nonzero : (c : List ℕ) → length c ≡ 8 → Bytes c → chunk_bytes_set (le_word c) ≡ nonzero c
unfolding chunk_bytes_set
chunk_nonzero c l p =
    rw
      (
        byte_set-byte c l p 0 refl refl,
        byte_set-byte c l p 1 refl refl,
        byte_set-byte c l p 2 refl refl,
        byte_set-byte c l p 3 refl refl,
        byte_set-byte c l p 4 refl refl,
        byte_set-byte c l p 5 refl refl,
        byte_set-byte c l p 6 refl refl,
        byte_set-byte c l p 7 refl refl,
      )
      (rw (← (spelled_out c l)) (ground (arith, nonzero_none c)))

sum_chunks-flat :
    (f : ℕ → ℕ) (g : List ℕ → ℕ) (cs : List (List ℕ))
    → ((c : List ℕ) → length c ≡ 8 → Bytes c → f (le_word c) ≡ g c)
    → ((xs ys : List ℕ) → g (xs ++ ys) ≡ g xs + g ys)
    → g [] ≡ 0
    → Chunked cs
    → sum_chunks f cs ≡ g (flat cs)
unfolding sum_chunks flat
sum_chunks-flat f g [] one add base p = sym base
sum_chunks-flat f g (c ∷ cs) one add base p =
    omega (arith, one c p.0 p.1, add c (flat cs), sum_chunks-flat f g cs one add base p.2)

pub count_bytes_set-nonzero : (b : Bitmap) → IsValid b → count_bytes_set b ≡ nonzero b.bytes
unfolding count_bytes_set
count_bytes_set-nonzero b v =
    sum_chunks-flat chunk_bytes_set nonzero (as_chunks b.bytes) chunk_nonzero nonzero-append refl
      (as_chunks-Chunked b v)
    ∙ ap nonzero (flat-as_chunks b v)

-- The digits of a word of so many bytes.
abbrev digits_of : List ℕ → ℕ
digits_of [] = 0
digits_of (x ∷ xs) = suc (suc (suc (suc (suc (suc (suc (suc (digits_of xs))))))))

count_ones-le_word : (c : List ℕ) → Bytes c → count_ones (digits_of c) (le_word c) ≡ ones c
unfolding count_ones
count_ones-le_word [] p = refl
count_ones-le_word (x ∷ xs) p =
    let rest : (x + 256 * le_word xs) / 2 / 2 / 2 / 2 / 2 / 2 / 2 / 2 ≡ le_word xs =
      let b = p.0 in omega arith in
    rw rest (let b = p.0 in omega (arith, count_ones-le_word xs p.1))

digits_of-length : (c : List ℕ) → digits_of c ≡ 8 * length c
digits_of-length [] = refl
digits_of-length (x ∷ xs) = omega (arith, digits_of-length xs)

chunk_ones : (c : List ℕ) → length c ≡ 8 → Bytes c → count_ones 64 (le_word c) ≡ ones c
chunk_ones c l p =
    let e : digits_of c ≡ 64 = omega (arith, digits_of-length c) in
    subst (λ z. count_ones z (le_word c) ≡ ones c) e (count_ones-le_word c p)

pub count_bits_set-ones : (b : Bitmap) → IsValid b → count_bits_set b ≡ ones b.bytes
unfolding count_bits_set
count_bits_set-ones b v =
    sum_chunks-flat (count_ones 64) ones (as_chunks b.bytes) chunk_ones ones-append refl
      (as_chunks-Chunked b v)
    ∙ ap ones (flat-as_chunks b v)

length-edges_loop : (idx : ℕ) (xs : List ℕ) → length (edges_loop idx xs) ≡ nonzero xs
unfolding edges_loop
length-edges_loop idx [] = refl
length-edges_loop idx (x ∷ xs) = ground (arith, length-edges_loop (suc idx) xs)

-- On a bitmap of whole chunks, `count_bytes_set` is the number of the edges that `edges` lists.
pub count_bytes_set-edges : (b : Bitmap) → IsValid b → count_bytes_set b ≡ length (edges b)
unfolding edges
count_bytes_set-edges b v = omega (arith, count_bytes_set-nonzero b v, length-edges_loop 0 b.bytes)
