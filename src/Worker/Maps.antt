-- ===== src/Worker/Maps.antt =====
-- scheduler/src/fuzzer/worker_impl/common.rs: the local and the global virgin map.
use Prim.Native.Nat.{bit_and}
use fuzztruction_net.Base.{
  ℕ, ◌^◌, ◌<◌, ◌≡◌, refl, ap, sym, ◌∙◌, false, some, List, [], ◌∷◌, arith, length, min,
}
use fuzztruction_net.Bits.{bit_at, not_u8}
use fuzztruction_net.Bits.Laws.{bit_at-lt, bit_at-zero, bit_at-bit_and, bit_at_ext, bit_and-le}
use fuzztruction_net.Bits.Words.{Bytes}
use fuzztruction_net.Bitmap.{
  Bitmap, BitmapStatus, no_change, new_hit, new_edge, has_new_bit, copy_from,
}
use fuzztruction_net.Bitmap.Chunks.{IsValid}
use fuzztruction_net.Bitmap.Verdicts.{any_pair, is_hit, spent, edge_hit, spent_nothing}
use fuzztruction_net.Bitmap.NewBits.{
  has_new_bit-bytes, has_new_bit-IsValid, has_new_bit-size, copy_from-same,
}
use fuzztruction_net.Worker.{check_virgin_maps}

-- Every bit of the first bytes is one of the second.
abbrev pub Within : List ℕ → List ℕ → Type 0
Within [] [] = Unit {0}
Within [] (y ∷ ys) = ⊥
Within (x ∷ xs) [] = ⊥
Within (x ∷ xs) (y ∷ ys) = (bit_and x y ≡ x) × Within xs ys

bit_and-bits :
    (k a b : ℕ)
    → a < 2 ^ k
    → ((i : ℕ) → i < k → min (bit_at a i) (bit_at b i) ≡ bit_at a i)
    → bit_and a b ≡ a
bit_and-bits k a b h p =
    bit_at_ext k (bit_and a b) a (omega (arith, bit_and-le k a b h)) h
      λ i lt. bit_at-bit_and i a b ∙ p i lt

pub bit_within : (a b i : ℕ) → bit_and a b ≡ a → min (bit_at a i) (bit_at b i) ≡ bit_at a i
bit_within a b i e = sym (bit_at-bit_and i a b) ∙ ap (λ t. bit_at t i) e

pub Within-refl : (xs : List ℕ) → Bytes xs → Within xs xs
Within-refl [] h = tt
Within-refl (x ∷ xs) h = (bit_and-bits 8 x x h.0 (λ i lt. omega arith), Within-refl xs h.1)

pub Within-trans : (xs ys zs : List ℕ) → Bytes xs → Within xs ys → Within ys zs → Within xs zs
Within-trans [] [] [] h p q = tt
Within-trans [] [] (z ∷ zs) h p q = q
Within-trans [] (y ∷ ys) zs h p q = absurd p
Within-trans (x ∷ xs) [] zs h p q = absurd p
Within-trans (x ∷ xs) (y ∷ ys) [] h p q = absurd q
Within-trans (x ∷ xs) (y ∷ ys) (z ∷ zs) h p q = (
  bit_and-bits 8 x z h.0 (λ i lt.
      omega (arith, bit_within x y i p.0, bit_within y z i q.0, bit_at-lt x i, bit_at-lt y i)),
  Within-trans xs ys zs h.1 p.1 q.1,
)

-- What is taken out of a map leaves bits of it.
pub spent-Within :
    (ys xs : List ℕ) → length xs ≡ length ys → Bytes xs → Bytes ys → Within (spent ys xs) ys
spent-Within [] [] l p q = tt
spent-Within [] (x ∷ xs) l p q = absurd (omega arith)
spent-Within (y ∷ ys) [] l p q = absurd (omega arith)
spent-Within (y ∷ ys) (x ∷ xs) l p q = (
  bit_and-bits 8 (bit_and y (not_u8 x)) y (omega (arith, bit_and-le 8 y (not_u8 x) q.0, q.0))
      (λ i lt. omega (arith, bit_at-bit_and i y (not_u8 x))),
  spent-Within ys xs (omega arith) p.1 q.1,
)

no_bits : (a g l : ℕ) → a < 256 → bit_and g l ≡ g → bit_and a l ≡ 0 → bit_and a g ≡ 0
no_bits a g l h w e =
    bit_at_ext 8 (bit_and a g) 0 (omega (arith, bit_and-le 8 a g h)) (omega arith) λ i lt. omega (
      arith,
      bit_at-bit_and i a g,
      bit_at-bit_and i a l,
      ap (λ t. bit_at t i) e,
      bit_at-zero i,
      bit_within g l i w,
    )

pub no_hit-Within :
    (xs gs ls : List ℕ)
    → Bytes xs
    → Within gs ls
    → any_pair is_hit xs ls ≡ false
    → any_pair is_hit xs gs ≡ false
no_hit-Within [] gs ls p w h = refl
no_hit-Within (x ∷ xs) [] ls p w h = refl
no_hit-Within (x ∷ xs) (g ∷ gs) [] p w h = absurd w
no_hit-Within (x ∷ xs) (g ∷ gs) (l ∷ ls) p w h =
    ground (arith, no_bits x g l p.0 w.0, no_hit-Within xs gs ls p.1 w.1)

-- A map without a common bit brings nothing and changes nothing.
module _ (self virgin : Bitmap) (v : IsValid self) (w : IsValid virgin)
    (e : self.size ≡ virgin.size) where
  pub has_new_bit-idle :
      any_pair is_hit self.bytes virgin.bytes ≡ false
      → has_new_bit self virgin ≡ (no_change, virgin)
  has_new_bit-idle no_hit =
      let (status, left) = has_new_bit-bytes self virgin v w e in
      let idle : spent virgin.bytes self.bytes ≡ virgin.bytes =
        spent_nothing virgin.bytes self.bytes (omega (arith, v.sized, w.sized)) v.are_bytes
          w.are_bytes no_hit in
      let quiet : (has_new_bit self virgin).0 ≡ no_change =
        ground (arith, status, edge_hit self.bytes virgin.bytes v.are_bytes) in
      let kept : (has_new_bit self virgin).1 ≡ virgin =
        left ∙ ap (λ z. record virgin { bytes = z }) idle in
      λ i. (quiet i, kept i)

  pub no_change-no_hit :
      (has_new_bit self virgin).0 ≡ no_change → any_pair is_hit self.bytes virgin.bytes ≡ false
  no_change-no_hit h =
      ground (
        arith,
        (has_new_bit-bytes self virgin v w e).0,
        edge_hit self.bytes virgin.bytes v.are_bytes,
      )

  pub has_new_bit-Within : Within (has_new_bit self virgin).1.bytes virgin.bytes
  has_new_bit-Within = rw ((has_new_bit-bytes self virgin v w e).1) (
      spent-Within virgin.bytes self.bytes (omega (arith, v.sized, w.sized)) v.are_bytes
        w.are_bytes)

-- After a look at both maps, where all of the global map is in the local one: the verdict and the global
-- map are those of the global map alone, and the global map is still in the local one.
abbrev Consulted : Bitmap → Bitmap → Bitmap → Type 0
Consulted coverage local global =
    (l : Bitmap) × (check_virgin_maps coverage local global
      ≡ some ((has_new_bit coverage global).0, l, (has_new_bit coverage global).1))
    × Within (has_new_bit coverage global).1.bytes l.bytes
    × IsValid l
    × (l.size ≡ local.size)

-- The global map without the coverage, and the local map as a copy of that.
abbrev pub after : Bitmap → Bitmap → Bitmap
after coverage global = (has_new_bit coverage global).1

abbrev pub synced : Bitmap → Bitmap → Bitmap → Bitmap
synced coverage local global = record local { bytes = (has_new_bit coverage global).1.bytes }

module _ (coverage local global : Bitmap) (v : IsValid coverage) (wl : IsValid local)
    (wg : IsValid global) (e : coverage.size ≡ local.size) (f : coverage.size ≡ global.size)
    (within : Within global.bytes local.bytes) where
  after-IsValid : IsValid (after coverage global)
  after-IsValid = has_new_bit-IsValid coverage global v wg f

  same_length : length local.bytes ≡ length (after coverage global).bytes
  same_length =
      omega (arith, wl.sized, after-IsValid.sized, has_new_bit-size coverage global v wg f)

  pub synced-IsValid : IsValid (synced coverage local global)
  synced-IsValid = record {
    sized = omega (arith, same_length, wl.sized);
    whole = wl.whole;
    are_bytes = after-IsValid.are_bytes;
  }

  pub copied :
      copy_from (has_new_bit coverage local).1 (after coverage global)
      ≡ some (synced coverage local global)
  copied =
      copy_from-same (has_new_bit coverage local).1 (after coverage global) (
        omega (
          arith,
          (has_new_bit-IsValid coverage local v wl e).sized,
          has_new_bit-size coverage local v wl e,
          same_length,
          wl.sized,
        ))
      ∙ rw ((has_new_bit-bytes coverage local v wl e).1) refl

  consulted :
      (status : BitmapStatus)
      → (has_new_bit coverage local).0 ≡ status
      → Consulted coverage local global
  unfolding check_virgin_maps
  consulted no_change h =
      let idle : has_new_bit coverage global ≡ (no_change, global) =
        has_new_bit-idle coverage global v wg f (
          no_hit-Within coverage.bytes global.bytes local.bytes v.are_bytes within
            (no_change-no_hit coverage local v wl e h)) in
      let same : has_new_bit coverage local ≡ (no_change, local) =
        has_new_bit-idle coverage local v wl e (no_change-no_hit coverage local v wl e h) in
      let kept : (has_new_bit coverage local).1 ≡ local = ap (λ r. r.1) same in
      (local, rw (h, check_virgin_maps) (rw (kept, idle) refl), rw idle within, wl, refl)
  consulted new_hit h = (
    (synced coverage local global),
    rw (h, check_virgin_maps) (rw copied refl),
    Within-refl (after coverage global).bytes after-IsValid.are_bytes,
    synced-IsValid,
    refl,
  )
  consulted new_edge h = (
    (synced coverage local global),
    rw (h, check_virgin_maps) (rw copied refl),
    Within-refl (after coverage global).bytes after-IsValid.are_bytes,
    synced-IsValid,
    refl,
  )

  pub check_virgin_maps-global : Consulted coverage local global
  check_virgin_maps-global = consulted (has_new_bit coverage local).0 refl
