-- ===== src/Bitmap/Minimized.antt =====
-- `minimize`: the packed map counts and groups the edges of the map.
use fuzztruction_net.Base.{
  ℕ, ◌+◌, ◌*◌, ◌/◌, ◌%◌, ◌≤◌, ◌<◌, ◌≡◌, refl, ap, Option, some, List, arith, ltb, if◌then◌else◌,
  length, get_or, replicate, ◌∙◌, sym, length-replicate, get_or-replicate,
}
use fuzztruction_net.Bits.{bit_at}
use fuzztruction_net.Bits.Laws.{bit_at-zero}
use fuzztruction_net.IntegerSet.{IntegerSet, elem}
use fuzztruction_net.IntegerSet.Entries.{contains-digit, size-digit_sum}
use fuzztruction_net.IntegerSet.Subsets.{size_unique}
use fuzztruction_net.Bitmap.Operators.{
  IsMap, IsMap-IsValid, new_in_mem-IsMap, whole_of_power, eighth-power,
}
use fuzztruction_net.Bitmap.Counts.{ones, count_bits_set-ones}
use fuzztruction_net.Bitmap.{Bitmap, new_in_mem, minimize_loop, minimize, edges, count_bits_set}
use fuzztruction_net.Bitmap.Edges.{
  elem-edges, edges-Distinct, digit-minimize_loop, Bytes-minimize_loop, Bytes-list, ones-digit_sum,
  length-minimize_loop,
}

-- One if the edge was hit.
abbrev pub flag : Bitmap → ℕ → ℕ
flag b e = if ltb 0 (get_or b.bytes e 0) then 1 else 0

-- The edges hit in the `i`-th group of eight.
abbrev pub group : Bitmap → ℕ → ℕ
group b i =
    flag b (i * 8 + 0)
    + flag b (i * 8 + 1)
    + flag b (i * 8 + 2)
    + flag b (i * 8 + 3)
    + flag b (i * 8 + 4)
    + flag b (i * 8 + 5)
    + flag b (i * 8 + 6)
    + flag b (i * 8 + 7)

byte_pos :
    (n : ℕ)
    → n < 256
    → ltb 0 n
      ≡ ltb 0 (
          bit_at n 0
          + bit_at n 1
          + bit_at n 2
          + bit_at n 3
          + bit_at n 4
          + bit_at n 5
          + bit_at n 6
          + bit_at n 7)
byte_pos n h = ground arith

module _ (b : Bitmap) (v : IsMap b) (large : 64 ≤ b.size) where
  pub packed : List ℕ
  packed = minimize_loop 0 b.bytes (replicate (b.size / 8) 0)

  small_IsMap :
      (m : Bitmap) × (new_in_mem (b.size / 8) 0 ≡ some m)
      × IsMap m
      × (m.bytes ≡ replicate (b.size / 8) 0)
      × (m.size ≡ b.size / 8)
  small_IsMap =
      new_in_mem-IsMap (b.size / 8) 0 (omega arith) (omega arith)
        (eighth-power b.size v.power large)

  digit-packed : (e : ℕ) → bit_at (get_or packed (e / 8) 0) (e % 8) ≡ flag b e
  unfolding packed
  digit-packed e = ground (
    arith,
    digit-minimize_loop 0 e b.bytes (replicate (b.size / 8) 0),
    length-replicate {A = ℕ} (b.size / 8) 0,
    v.sized,
    whole_of_power b.size v.power (omega arith),
    get_or-replicate {A = ℕ} (b.size / 8) (e / 8) 0,
    bit_at-zero (e % 8),
  )

  byte-packed : (i : ℕ) → get_or packed i 0 < 256
  unfolding packed
  byte-packed =
      Bytes-minimize_loop 0 b.bytes (replicate (b.size / 8) 0)
        (λ i. omega (arith, get_or-replicate {A = ℕ} (b.size / 8) i 0))

  group-packed : (i : ℕ) → ltb 0 (get_or packed i 0) ≡ ltb 0 (group b i)
  group-packed i =
      byte_pos (get_or packed i 0) (byte-packed i)
      ∙ ap (ltb 0) (
          rw (
            at_group 0 (omega arith),
            at_group 1 (omega arith),
            at_group 2 (omega arith),
            at_group 3 (omega arith),
            at_group 4 (omega arith),
            at_group 5 (omega arith),
            at_group 6 (omega arith),
            at_group 7 (omega arith),
          ))
    where
      at_group : (j : ℕ) → j < 8 → bit_at (get_or packed i 0) j ≡ flag b (i * 8 + j)
      at_group j lt =
          let e : (i * 8 + j) / 8 ≡ i = omega arith in
          let f : (i * 8 + j) % 8 ≡ j = omega arith in rw (e, f) at (digit-packed (i * 8 + j))

  pub minimize-packed :
      (m : Bitmap) × (minimize b ≡ some m) × IsMap m × (m.size ≡ b.size / 8) × (m.bytes ≡ packed)
  unfolding minimize packed
  minimize-packed =
      let (fresh, made, is_map, zeros, same) = small_IsMap in
      let e : minimize_loop 0 b.bytes fresh.bytes ≡ packed = ap (minimize_loop 0 b.bytes) zeros in
      (
        record fresh { bytes = minimize_loop 0 b.bytes fresh.bytes },
        rw made refl,
        record {
          sized = omega (arith, is_map.sized, length-minimize_loop 0 b.bytes fresh.bytes);
          least = is_map.least;
          power = is_map.power;
          are_bytes = rw e (Bytes-list packed byte-packed);
        },
        same,
        e,
      )

  count-packed : (m : Bitmap) → IsMap m → m.bytes ≡ packed → count_bits_set m ≡ length (edges b)
  count-packed m is_map e =
      let s : IntegerSet = record { bytes = packed; max_val = 0 } in
      omega (
        arith,
        count_bits_set-ones m (IsMap-IsValid m is_map),
        ap ones e,
        ones-digit_sum packed,
        size-digit_sum s,
        size_unique s (edges b) (edges-Distinct b)
            (λ x. ground (arith, contains-digit s x, elem-edges b x, digit-packed x)),
      )

-- A bitmap as the constructors make them, of at least 64 bytes, can be minimized. The result is a
-- bitmap of an eighth of the size; bit `e % 8` of its byte `e / 8` says whether edge `e` was hit,
-- and as many bits are set as edges were hit.
pub minimize-counts :
    (b : Bitmap)
    → IsMap b
    → 64 ≤ b.size
    → (m : Bitmap) × (minimize b ≡ some m)
      × IsMap m
      × (m.size ≡ b.size / 8)
      × ((e : ℕ) → bit_at (get_or m.bytes (e / 8) 0) (e % 8) ≡ flag b e)
      × (count_bits_set m ≡ length (edges b))
minimize-counts b v large =
    let (m, made, is_map, same, e) = minimize-packed b v large in
    (m, made, is_map, same, λ x. rw e (digit-packed b v large x), count-packed b v large m is_map e)

-- What `edges` lists of a minimized bitmap are groups: it lists `i` exactly if at least one of the
-- eight edges from `8 * i` on was hit.
pub edges-minimize :
    (b m : Bitmap) (i : ℕ)
    → IsMap b
    → 64 ≤ b.size
    → minimize b ≡ some m
    → elem i (edges m) ≡ ltb 0 (group b i)
edges-minimize b m i v large made =
    let (m', made', _, _, e) = minimize-packed b v large in
    let same : m' ≡ m = some_eq made' made in
    elem-edges m i
    ∙ ap (λ z. ltb 0 (get_or z i 0)) (sym (ap (λ z. z.bytes) same) ∙ e)
    ∙ group-packed b v large i
  where
    some_eq : {o : Option Bitmap} {x y : Bitmap} → o ≡ some x → o ≡ some y → x ≡ y
    some_eq p q = cc
