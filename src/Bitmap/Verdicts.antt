-- ===== src/Bitmap/Verdicts.antt =====
-- scheduler/src/sink_bitmap.rs: what `has_new_bit` looks for, byte by byte.
use Prim.Native.Nat.{bit_and}
use fuzztruction_net.Base.{
  ℕ, ◌<◌, ◌≡◌, refl, ap, Bool, true, false, not, ◌&&◌, ◌||◌, List, [], ◌∷◌, ◌++◌, arith, ◌==◌,
  if◌then◌else◌, length,
}
use fuzztruction_net.Bits.{bit_at, not_u8}
use fuzztruction_net.Bits.Laws.{
  bit_at-lt, bit_at-zero, bit_at-bit_and, bit_at-not_u8, bit_at_ext, bit_and-le,
}
use fuzztruction_net.Bits.Words.{le_word, zip_with, Bytes}
use fuzztruction_net.Bitmap.{BitmapStatus, no_change, new_hit, new_edge, untouched}

-- Whether some pair of bytes at the same place passes a test.
abbrev pub any_pair : (ℕ → ℕ → Bool) → List ℕ → List ℕ → Bool
any_pair p [] ys = false
any_pair p (x ∷ xs) [] = false
any_pair p (x ∷ xs) (y ∷ ys) = p x y || any_pair p xs ys

-- An edge that was hit and that the virgin map has never seen.
abbrev pub is_edge : ℕ → ℕ → Bool
is_edge a v = not (a == 0) && v == 255

-- A bucket that the virgin map still has.
abbrev pub is_hit : ℕ → ℕ → Bool
is_hit a v = not (bit_and a v == 0)

abbrev pub verdict : Bool → Bool → BitmapStatus
verdict true hit = new_edge
verdict false true = new_hit
verdict false false = no_change

-- The status so far, and what some more bytes add.
abbrev pub merge : BitmapStatus → Bool → Bool → BitmapStatus
merge new_edge edge hit = new_edge
merge no_change edge hit = verdict edge hit
merge new_hit edge hit = if edge then new_edge else new_hit

-- `virgin & !self`, byte by byte.
abbrev pub spent : List ℕ → List ℕ → List ℕ
spent virgin self = zip_with (λ v a. bit_and v (not_u8 a)) virgin self

pub any_pair-append :
    (p : ℕ → ℕ → Bool) (xs ys us vs : List ℕ)
    → length xs ≡ length us
    → any_pair p (xs ++ ys) (us ++ vs) ≡ (any_pair p xs us || any_pair p ys vs)
any_pair-append p [] ys [] vs l = refl
any_pair-append p [] ys (u ∷ us) vs l = absurd (omega arith)
any_pair-append p (x ∷ xs) ys [] vs l = absurd (omega arith)
any_pair-append p (x ∷ xs) ys (u ∷ us) vs l = ground (arith, any_pair-append p xs ys us vs)

pub untouched-any_pair : (xs ys : List ℕ) → untouched xs ys ≡ any_pair is_edge xs ys
unfolding untouched
untouched-any_pair [] ys = refl
untouched-any_pair (x ∷ xs) [] = refl
untouched-any_pair (x ∷ xs) (y ∷ ys) = ground (arith, untouched-any_pair xs ys)

pub le_word-zero :
    (xs ys : List ℕ)
    → length xs ≡ length ys
    → (le_word (zip_with bit_and xs ys) == 0) ≡ not (any_pair is_hit xs ys)
le_word-zero [] [] l = refl
le_word-zero [] (y ∷ ys) l = absurd (omega arith)
le_word-zero (x ∷ xs) [] l = absurd (omega arith)
le_word-zero (x ∷ xs) (y ∷ ys) l = ground (arith, le_word-zero xs ys)

pub bit_and_full : (a : ℕ) → a < 256 → bit_and a 255 ≡ a
bit_and_full a h =
    bit_at_ext 8 (bit_and a 255) a (omega (arith, bit_and-le 8 a 255 h)) h
      λ i lt. rw (bit_at-bit_and i a 255) (omega (arith, full i lt, bit_at-lt a i))
  where
    full : (i : ℕ) → i < 8 → bit_at 255 i ≡ 1
    full i lt = omega (arith, bit_at-not_u8 i 0 lt (omega arith), bit_at-zero i)

-- A fresh edge is also a fresh hit.
pub edge_hit :
    (xs ys : List ℕ) → Bytes xs → any_pair is_edge xs ys ≡ true → any_pair is_hit xs ys ≡ true
edge_hit [] ys p h = cc
edge_hit (x ∷ xs) [] p h = cc
edge_hit (x ∷ xs) (y ∷ ys) p h = ground (arith, edge_hit xs ys p.1, bit_and_full x p.0)

-- Where no digit is common, nothing is spent.
pub spent_none : (v a : ℕ) → v < 256 → a < 256 → bit_and a v ≡ 0 → bit_and v (not_u8 a) ≡ v
spent_none v a h k e =
    bit_at_ext 8 (bit_and v (not_u8 a)) v (omega (arith, bit_and-le 8 v (not_u8 a) h)) h λ i lt.
      rw (bit_at-bit_and i v (not_u8 a)) (
        omega (
          arith,
          bit_at-not_u8 i a lt k,
          bit_at-bit_and i a v,
          ap (λ t. bit_at t i) e,
          bit_at-zero i,
          bit_at-lt v i,
          bit_at-lt a i,
        ))

pub spent_nothing :
    (ys xs : List ℕ)
    → length xs ≡ length ys
    → Bytes xs
    → Bytes ys
    → any_pair is_hit xs ys ≡ false
    → spent ys xs ≡ ys
spent_nothing [] [] l p q h = refl
spent_nothing [] (x ∷ xs) l p q h = absurd (omega arith)
spent_nothing (y ∷ ys) [] l p q h = absurd (omega arith)
spent_nothing (y ∷ ys) (x ∷ xs) l p q h =
    rw (spent_none y x q.0 p.0 (ground arith))
      (ap (◌∷◌ y) (spent_nothing ys xs (omega arith) p.1 q.1 (ground arith)))

pub merge-merge :
    (ret : BitmapStatus) (e h e' h' : Bool)
    → (e ≡ true → h ≡ true)
    → merge (merge ret e h) e' h' ≡ merge ret (e || e') (h || h')
merge-merge ret e h e' h' k = ground (arith, k)
