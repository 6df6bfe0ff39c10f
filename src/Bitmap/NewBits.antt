-- ===== src/Bitmap/NewBits.antt =====
-- scheduler/src/sink_bitmap.rs: `has_new_bit` against a description byte by byte.
use Prim.Native.Nat.{bit_and}
use fuzztruction_net.Base.{
  some, ℕ, ◌<◌, ◌≡◌, refl, ap, Bool, false, not, ◌&&◌, List, [], ◌∷◌, ◌++◌, arith, ◌==◌,
  if◌then◌else◌, length, ◌∙◌, sym, Bool-cases, inl, inr,
}
use fuzztruction_net.Bits.{not_u8, not_u64}
use fuzztruction_net.Bits.Laws.{
  bit_at-lt, bit_at-zero, bit_at-bit_and, bit_at-not_u8, bit_at_ext, bit_and-le,
}
use fuzztruction_net.Bits.Words.{le_word, le_bytes, Bytes, bit_and-le_word, length-zip_with}
use fuzztruction_net.Bitmap.Chunks.{
  IsValid, Chunked, as_chunks-Chunked, flat-as_chunks, length-as_chunks, zip_with-append,
  chunk_and_not,
}
use fuzztruction_net.Bitmap.{
  Bitmap, BitmapStatus, no_change, new_hit, new_edge, as_chunks, flat, raise_status, scan,
  has_new_bit, copy_from,
}
use fuzztruction_net.Bitmap.Verdicts.{
  any_pair, is_edge, is_hit, verdict, merge, spent, any_pair-append, untouched-any_pair,
  le_word-zero, edge_hit, spent_nothing, merge-merge,
}

module _ (xs ys : List ℕ) (l : length xs ≡ 8) (m : length ys ≡ 8) (p : Bytes xs)
    (q : Bytes ys) where
  -- The word test of a chunk: some byte pair is a hit.
  chunk_hit :
      (not (le_word xs == 0) && not (bit_and (le_word xs) (le_word ys) == 0))
      ≡ any_pair is_hit xs ys
  chunk_hit = ground (
    arith,
    bit_and-le_word xs ys (omega arith) p q,
    le_word-zero xs ys (omega arith),
    zero_word (le_word xs) (le_word ys),
  )
    where
      zero_word : (a b : ℕ) → a ≡ 0 → bit_and a b ≡ 0
      zero_word a b e = rw e (omega (arith, bit_and-le 0 0 b (omega arith)))

  chunk_status :
      (ret : BitmapStatus)
      → (if any_pair is_hit xs ys then raise_status ret xs ys else ret)
        ≡ merge ret (any_pair is_edge xs ys) (any_pair is_hit xs ys)
  unfolding raise_status
  chunk_status no_change = ground (arith, untouched-any_pair xs ys, edge_hit xs ys p)
  chunk_status new_hit = ground (arith, untouched-any_pair xs ys, edge_hit xs ys p)
  chunk_status new_edge = ground arith

  chunk_spent :
      (if any_pair is_hit xs ys
        then le_bytes 8 (bit_and (le_word ys) (not_u64 (le_word xs)))
        else ys)
      ≡ spent ys xs
  chunk_spent = elim (Bool-cases (any_pair is_hit xs ys)) [
    | inl hit ↦ rw hit (chunk_and_not xs ys l m p q)
    | inr miss ↦ rw miss (sym (spent_nothing ys xs (omega arith) p q miss))
  ]

scan-bytes :
    (ret : BitmapStatus) (ses vis : List (List ℕ))
    → length ses ≡ length vis
    → Chunked ses
    → Chunked vis
    → ((scan ret ses vis).0
        ≡ merge ret
            (any_pair is_edge (flat ses) (flat vis))
            (any_pair is_hit (flat ses) (flat vis)))
      × (flat (scan ret ses vis).1 ≡ spent (flat vis) (flat ses))
unfolding scan flat
scan-bytes ret [] [] l p q = (ground arith, refl)
scan-bytes ret [] (v ∷ vis) l p q = absurd (omega arith)
scan-bytes ret (s ∷ ses) [] l p q = absurd (omega arith)
scan-bytes ret (s ∷ ses) (v ∷ vis) l p q =
    let same : length s ≡ length v = omega arith in
    let edge : Bool = any_pair is_edge s v in
    let hit : Bool = any_pair is_hit s v in
    let (status, left) = scan-bytes (merge ret edge hit) ses vis (omega arith) p.2 q.2 in
    rw (chunk_hit s v p.0 q.0 p.1 q.1, chunk_status s v p.0 q.0 p.1 q.1 ret)
      (
        status
            ∙ (merge-merge ret edge hit (any_pair is_edge (flat ses) (flat vis))
                (any_pair is_hit (flat ses) (flat vis)) (edge_hit s v p.1))
            ∙ sym (
                rw (
                  any_pair-append is_edge s (flat ses) v (flat vis) same,
                  any_pair-append is_hit s (flat ses) v (flat vis) same,
                )),
        ap (λ z. z ++ flat (scan (merge ret edge hit) ses vis).1) (chunk_spent s v p.0 q.0 p.1 q.1)
            ∙ ap (◌++◌ (spent v s)) left
            ∙ sym (
                zip_with-append (λ w a. bit_and w (not_u8 a)) v (flat vis) s (flat ses) (sym same)),
      )

-- On two maps of the same size, `has_new_bit` says that there is a new edge if some byte is hit for
-- which the virgin map is untouched, else a new hit if some byte has a bit in common with the
-- virgin map, else no change. It takes the bits of the map out of the virgin map, byte by byte.
pub has_new_bit-bytes :
    (self virgin : Bitmap)
    → IsValid self
    → IsValid virgin
    → self.size ≡ virgin.size
    → ((has_new_bit self virgin).0
        ≡ verdict
            (any_pair is_edge self.bytes virgin.bytes)
            (any_pair is_hit self.bytes virgin.bytes))
      × ((has_new_bit self virgin).1 ≡ record virgin { bytes = spent virgin.bytes self.bytes })
unfolding has_new_bit
has_new_bit-bytes self virgin v w e =
    let (status, left) =
      scan-bytes no_change (as_chunks self.bytes) (as_chunks virgin.bytes)
        (omega (arith, length-as_chunks self v, length-as_chunks virgin w))
        (as_chunks-Chunked self v) (as_chunks-Chunked virgin w) in
    let a = flat-as_chunks self v in
    let b = flat-as_chunks virgin w in
    (status ∙ (rw (a, b)), ap (λ z. record virgin { bytes = z }) (left ∙ (rw (a, b))))

common_spent : (a v : ℕ) → a < 256 → v < 256 → bit_and a (bit_and v (not_u8 a)) ≡ 0
common_spent a v h k =
    bit_at_ext 8 (bit_and a (bit_and v (not_u8 a))) 0
      (omega (arith, bit_and-le 8 a (bit_and v (not_u8 a)) h)) (omega arith)
      λ i lt. rw (bit_at-bit_and i a (bit_and v (not_u8 a))) (
        rw (bit_at-bit_and i v (not_u8 a))
          (omega (arith, bit_at-not_u8 i a lt h, bit_at-zero i, bit_at-lt a i)))

no_hit-spent : (xs ys : List ℕ) → Bytes xs → Bytes ys → any_pair is_hit xs (spent ys xs) ≡ false
no_hit-spent [] [] p q = refl
no_hit-spent [] (y ∷ ys) p q = refl
no_hit-spent (x ∷ xs) [] p q = refl
no_hit-spent (x ∷ xs) (y ∷ ys) p q =
    ground (arith, common_spent x y p.0 q.0, no_hit-spent xs ys p.1 q.1)

Bytes-spent : (ys xs : List ℕ) → Bytes ys → Bytes (spent ys xs)
Bytes-spent [] xs q = tt
Bytes-spent (y ∷ ys) [] q = tt
Bytes-spent (y ∷ ys) (x ∷ xs) q =
    (omega (arith, bit_and-le 8 y (not_u8 x) q.0, q.0), Bytes-spent ys xs q.1)

pub has_new_bit-IsValid :
    (self virgin : Bitmap)
    → IsValid self
    → IsValid virgin
    → self.size ≡ virgin.size
    → IsValid (has_new_bit self virgin).1
has_new_bit-IsValid self virgin v w e = rw ((has_new_bit-bytes self virgin v w e).1) (record {
  sized = omega (
    arith,
    length-zip_with (λ x a. bit_and x (not_u8 a)) virgin.bytes self.bytes
        (omega (arith, v.sized, w.sized)),
    w.sized,
  );
  whole = w.whole;
  are_bytes = Bytes-spent virgin.bytes self.bytes w.are_bytes;
})

-- Once a map was seen, the same map brings no change, and leaves the virgin map as it is.
pub has_new_bit_twice :
    (self virgin : Bitmap)
    → IsValid self
    → IsValid virgin
    → self.size ≡ virgin.size
    → has_new_bit self (has_new_bit self virgin).1 ≡ (no_change, (has_new_bit self virgin).1)
has_new_bit_twice self virgin v w e =
    let after : Bitmap = (has_new_bit self virgin).1 in
    let is_spent : after ≡ record virgin { bytes = spent virgin.bytes self.bytes } =
      (has_new_bit-bytes self virgin v w e).1 in
    let bytes : after.bytes ≡ spent virgin.bytes self.bytes = ap (λ b. b.bytes) is_spent in
    let valid : IsValid after = has_new_bit-IsValid self virgin v w e in
    let same : self.size ≡ after.size = e ∙ sym (ap (λ b. b.size) is_spent) in
    let (status, left) = has_new_bit-bytes self after v valid same in
    let no_hit : any_pair is_hit self.bytes after.bytes ≡ false =
      rw bytes (no_hit-spent self.bytes virgin.bytes v.are_bytes w.are_bytes) in
    let idle : spent after.bytes self.bytes ≡ after.bytes =
      spent_nothing after.bytes self.bytes (omega (arith, v.sized, valid.sized)) v.are_bytes
        valid.are_bytes no_hit in
    let quiet : (has_new_bit self after).0 ≡ no_change =
      ground (arith, status, no_hit, edge_hit self.bytes after.bytes v.are_bytes) in
    let kept : (has_new_bit self after).1 ≡ after =
      left ∙ ap (λ z. record after { bytes = z }) idle in
    λ i. (quiet i, kept i)

pub copy_from-same :
    (self other : Bitmap)
    → length self.bytes ≡ length other.bytes
    → copy_from self other ≡ some (record self { bytes = other.bytes })
unfolding copy_from
copy_from-same self other h = ground arith

pub has_new_bit-size :
    (self virgin : Bitmap)
    → IsValid self
    → IsValid virgin
    → self.size ≡ virgin.size
    → (has_new_bit self virgin).1.size ≡ virgin.size
has_new_bit-size self virgin v w e = ap (λ b. b.size) ((has_new_bit-bytes self virgin v w e).1)
