-- ===== src/Bitmap/Tests.antt =====
-- The tests of the source, and the theorems at bitmaps of 8 and of 64 bytes.
use Prim.Native.Nat.{bit_and, bit_or, bit_xor}
use fuzztruction_net.Base.{
  ℕ, ◌/◌, ◌%◌, ◌≡◌, refl, none, some, [], ◌∷◌, arith, ltb, length, get_or, replicate,
}
use fuzztruction_net.Bits.{bit_at}
use fuzztruction_net.IntegerSet.{elem}
use fuzztruction_net.Bitmap.NewBits.{has_new_bit-bytes, has_new_bit_twice}
use fuzztruction_net.Bitmap.Verdicts.{any_pair, is_edge, is_hit, verdict, spent}
use fuzztruction_net.Bitmap.Operators.{IsMap, IsBytewise, operators-bytes, IsMap-IsValid}
use fuzztruction_net.Bitmap.Minimized.{flag, group, minimize-counts, edges-minimize}
use fuzztruction_net.Bitmap.Classify.{classify_counts-bytes}
use fuzztruction_net.Bitmap.{
  Bitmap, no_change, new_hit, new_edge, new_in_mem, is_power_of_two, has_new_bit, classify_counts,
  bucket, minimize, edges, count_bits_set, count_bytes_set, bitand, bitor, bitxor,
}

-- A map with one edge hit once, and a virgin map.
abbrev hit_once : Bitmap
hit_once = record { bytes = 1 ∷ 0 ∷ 0 ∷ 0 ∷ 0 ∷ 0 ∷ 0 ∷ 0 ∷ []; fill_pattern = 0; size = 8 }

abbrev hit_twice : Bitmap
hit_twice = record hit_once { bytes = 2 ∷ 0 ∷ 0 ∷ 0 ∷ 0 ∷ 0 ∷ 0 ∷ 0 ∷ [] }

abbrev virgin : Bitmap
virgin = record { bytes = replicate 8 255; fill_pattern = 255; size = 8 }

program : Unit {0}
unfolding new_in_mem is_power_of_two has_new_bit classify_counts bucket minimize edges
    count_bits_set count_bytes_set bitand bitor bitxor
program = tt

new_edge_first :
    has_new_bit hit_once virgin ≡ (new_edge, record virgin { bytes = 0xfe ∷ replicate 7 255 })
unfolding program
new_edge_first = refl

new_hit_second : (has_new_bit hit_twice (has_new_bit hit_once virgin).1).0 ≡ new_hit
unfolding program
new_hit_second = refl

classified :
    (classify_counts (record virgin { bytes = 5 ∷ 130 ∷ 8 ∷ 15 ∷ 1 ∷ 0 ∷ 3 ∷ 40 ∷ [] })).bytes
    ≡ 8 ∷ 128 ∷ 16 ∷ 16 ∷ 1 ∷ 0 ∷ 4 ∷ 64 ∷ []
unfolding program
classified = refl

too_small : new_in_mem 4 0 ≡ none
unfolding program
too_small = refl

small-IsMap : IsMap hit_once
unfolding is_power_of_two
small-IsMap = record { sized = refl; least = omega arith; power = refl; are_bytes = omega arith }

virgin-IsMap : IsMap virgin
unfolding is_power_of_two
virgin-IsMap = record { sized = refl; least = omega arith; power = refl; are_bytes = omega arith }

has_new_bit-bytes_example :
    ((has_new_bit hit_once virgin).0
      ≡ verdict
          (any_pair is_edge hit_once.bytes virgin.bytes)
          (any_pair is_hit hit_once.bytes virgin.bytes))
    × ((has_new_bit hit_once virgin).1
        ≡ record virgin { bytes = spent virgin.bytes hit_once.bytes })
has_new_bit-bytes_example =
    has_new_bit-bytes hit_once virgin (IsMap-IsValid hit_once small-IsMap)
      (IsMap-IsValid virgin virgin-IsMap) refl

has_new_bit_twice_example :
    has_new_bit hit_once (has_new_bit hit_once virgin).1
    ≡ (no_change, (has_new_bit hit_once virgin).1)
has_new_bit_twice_example =
    has_new_bit_twice hit_once virgin (IsMap-IsValid hit_once small-IsMap)
      (IsMap-IsValid virgin virgin-IsMap) refl

operators-bytes_example :
    IsBytewise hit_once virgin bit_and (bitand hit_once virgin)
    × IsBytewise hit_once virgin bit_or (bitor hit_once virgin)
    × IsBytewise hit_once virgin bit_xor (bitxor hit_once virgin)
operators-bytes_example = operators-bytes hit_once virgin small-IsMap virgin-IsMap refl

abbrev hit_often : Bitmap
hit_often = record hit_once { bytes = 5 ∷ 0 ∷ 3 ∷ 200 ∷ 1 ∷ 0 ∷ 40 ∷ 9 ∷ [] }

classify_counts-bytes_example :
    ((classify_counts hit_often).bytes ≡ 8 ∷ 0 ∷ 4 ∷ 128 ∷ 1 ∷ 0 ∷ 64 ∷ 16 ∷ [])
    × (edges (classify_counts hit_often) ≡ edges hit_often)
classify_counts-bytes_example =
    classify_counts-bytes hit_often (record { sized = refl; whole = refl; are_bytes = omega arith })

-- A map of 64 bytes with the edges 0 and 9 hit.
abbrev large : Bitmap
large = record {
  bytes = 1 ∷ 0 ∷ 0 ∷ 0 ∷ 0 ∷ 0 ∷ 0 ∷ 0 ∷ 0 ∷ 1 ∷ replicate 54 0;
  fill_pattern = 0;
  size = 64;
}

abbrev packed_large : Bitmap
packed_large = record { bytes = 1 ∷ 2 ∷ replicate 6 0; fill_pattern = 0; size = 8 }

large-IsMap : IsMap large
unfolding is_power_of_two
large-IsMap = record { sized = refl; least = omega arith; power = refl; are_bytes = omega arith }

packed_run : minimize large ≡ some packed_large
unfolding program
packed_run = refl

minimize-counts_example :
    (m : Bitmap) × (minimize large ≡ some m)
    × IsMap m
    × (m.size ≡ large.size / 8)
    × ((e : ℕ) → bit_at (get_or m.bytes (e / 8) 0) (e % 8) ≡ flag large e)
    × (count_bits_set m ≡ length (edges large))
minimize-counts_example = minimize-counts large large-IsMap (omega arith)

edges-minimize_example : elem 1 (edges packed_large) ≡ ltb 0 (group large 1)
edges-minimize_example = edges-minimize large packed_large 1 large-IsMap (omega arith) packed_run
