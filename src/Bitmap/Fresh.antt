-- ===== src/Bitmap/Fresh.antt =====
-- scheduler/src/sink_bitmap.rs: bitmaps made from others are bitmaps of the same size.
use fuzztruction_net.Base.{ℕ, ◌<◌, ◌≡◌, refl, ◌∙◌, some, length-map}
use fuzztruction_net.Bits.{not_u8}
use fuzztruction_net.Bitmap.{Bitmap, not_map, clone_with_pattern}
use fuzztruction_net.Bitmap.Chunks.{IsValid, Bytes-map_not}
use fuzztruction_net.Bitmap.Operators.{IsMap, IsMap-IsValid, new_in_mem-IsMap, not_map-bytes}

pub not_map-size : (b : Bitmap) → (not_map b).size ≡ b.size
unfolding not_map
not_map-size b = refl

pub not_map-IsValid : (b : Bitmap) → IsValid b → IsValid (not_map b)
not_map-IsValid b v = record {
  sized = rw (not_map-bytes b v, not_map-size b) (length-map not_u8 b.bytes ∙ v.sized);
  whole = rw (not_map-size b) v.whole;
  are_bytes = rw (not_map-bytes b v) (Bytes-map_not b.bytes);
}

pub clone_with_pattern-IsMap :
    (b : Bitmap) (fill : ℕ)
    → fill < 256
    → IsMap b
    → (m : Bitmap) × (clone_with_pattern b fill ≡ some m) × IsValid m × (m.size ≡ b.size)
unfolding clone_with_pattern
clone_with_pattern-IsMap b fill h v =
    let (m, made, is_map, bytes, size) = new_in_mem-IsMap b.size fill h v.least v.power in
    (m, made, IsMap-IsValid m is_map, size)
