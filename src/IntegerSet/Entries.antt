-- ===== src/IntegerSet/Entries.antt =====
-- `entries`, `contains`, `size` and `empty`: the loops over the bits, against the digits.
use Prim.Native.Nat.{bit_and}
use fuzztruction_net.Base.{
  ℕ, zero, suc, ◌+◌, ◌-◌, ◌*◌, ◌/◌, ◌%◌, ◌^◌, ◌≤◌, ◌<◌, ◌≡◌, refl, ap, true, false, ◌&&◌, ◌||◌,
  List, [], ◌∷◌, ◌++◌, arith, ltb, leb, ◌==◌, get_or, length, Bool-cases, length-append,
  get_or-cons, inl, inr, ◌↔◌,
}
use fuzztruction_net.Bits.{bit_at}
use fuzztruction_net.Bits.Laws.{bit_at-lt, bit_at-zero, bit_at_ext, test_bit}
use fuzztruction_net.IntegerSet.Valid.{IsValid}
use fuzztruction_net.IntegerSet.{
  IntegerSet, any_pos, empty, size_bits, size_bytes, size, entries_bits, entries_bytes, entries,
  elem, contains, digit,
}

elem-append : (e : ℕ) (xs ys : List ℕ) → elem e (xs ++ ys) ≡ (elem e xs || elem e ys)
elem-append e [] ys = refl
elem-append e (x ∷ xs) ys = ground (arith, elem-append e xs ys)

elem-entries_bits :
    (rounds bit byte_idx byte e : ℕ)
    → bit + rounds ≡ 8
    → elem e (entries_bits rounds bit byte_idx byte)
      ≡ (e / 8 == byte_idx && leb bit (e % 8) && bit_at byte (e % 8) == 1)
unfolding entries_bits
elem-entries_bits zero bit byte_idx byte e h = ground arith
elem-entries_bits (suc rounds) bit byte_idx byte e h =
    ground (arith, test_bit byte bit, elem-entries_bits rounds (suc bit) byte_idx byte e)

elem-entries_bytes :
    (byte_idx e : ℕ) (bs : List ℕ)
    → elem e (entries_bytes byte_idx bs)
      ≡ (leb byte_idx (e / 8) && bit_at (get_or bs (e / 8 - byte_idx) 0) (e % 8) == 1)
unfolding entries_bytes
elem-entries_bytes byte_idx e [] = ground (arith, bit_at-zero (e % 8))
elem-entries_bytes byte_idx e (byte ∷ bs) =
    rw (elem-append e (entries_bits 8 0 byte_idx byte) (entries_bytes (suc byte_idx) bs)) (
      rw (elem-entries_bits 8 0 byte_idx byte e refl, elem-entries_bytes (suc byte_idx) e bs)
        (ground (arith, get_or-cons byte bs (e / 8 - byte_idx))))

-- `contains` reads the digit of the element.
pub contains-digit : (s : IntegerSet) (e : ℕ) → contains s e ≡ (digit s e == 1)
unfolding contains entries
contains-digit s e = ground (arith, elem-entries_bytes 0 e s.bytes)

length-entries_bits :
    (rounds bit byte_idx b ret : ℕ)
    → size_bits rounds bit b ret ≡ ret + length (entries_bits rounds bit byte_idx b)
unfolding size_bits entries_bits
length-entries_bits zero bit byte_idx b ret = omega arith
length-entries_bits (suc rounds) bit byte_idx b ret = ground (
  arith,
  length-entries_bits rounds (suc bit) byte_idx b ret,
  length-entries_bits rounds (suc bit) byte_idx b (ret + 1),
)

length-entries_bytes :
    (byte_idx ret : ℕ) (bs : List ℕ) → size_bytes bs ret ≡ ret + length (entries_bytes byte_idx bs)
unfolding size_bytes entries_bytes
length-entries_bytes byte_idx ret [] = omega arith
length-entries_bytes byte_idx ret (b ∷ bs) = omega (
  arith,
  length-entries_bits 8 0 byte_idx b ret,
  length-entries_bytes (suc byte_idx) (size_bits 8 0 b ret) bs,
  length-append (entries_bits 8 0 byte_idx b) (entries_bytes (suc byte_idx) bs),
)

pub size-length-entries : (s : IntegerSet) → size s ≡ length (entries s)
unfolding size entries
size-length-entries s = omega (arith, length-entries_bytes 0 0 s.bytes)

-- Rising along the list from `low` on, up to below `high`: so no entry is there twice.
abbrev pub Rises : ℕ → ℕ → List ℕ → Type 0
Rises low high [] = low ≤ high
Rises low high (x ∷ xs) = (low ≤ x) × Rises (suc x) high xs

Rises-weaken :
    (low low' high : ℕ) (xs : List ℕ) → low' ≤ low → Rises low high xs → Rises low' high xs
Rises-weaken low low' high [] h r = omega arith
Rises-weaken low low' high (x ∷ xs) h r = (omega arith, r.1)

Rises-append :
    (low mid high : ℕ) (xs ys : List ℕ)
    → Rises low mid xs
    → Rises mid high ys
    → Rises low high (xs ++ ys)
Rises-append low mid high [] ys r q = Rises-weaken mid low high ys r q
Rises-append low mid high (x ∷ xs) ys r q = (r.0, Rises-append (suc x) mid high xs ys r.1 q)

Rises-entries_bits :
    (rounds bit byte_idx byte low high : ℕ)
    → bit + rounds ≡ 8
    → low ≡ byte_idx * 8 + bit
    → high ≡ byte_idx * 8 + 8
    → Rises low high (entries_bits rounds bit byte_idx byte)
unfolding entries_bits
Rises-entries_bits zero bit byte_idx byte low high h l u = omega arith
Rises-entries_bits (suc rounds) bit byte_idx byte low high h l u =
    let rest : List ℕ = entries_bits rounds (suc bit) byte_idx byte in
    let r : Rises (suc low) high rest =
      Rises-entries_bits rounds (suc bit) byte_idx byte (suc low) high (omega arith) (omega arith)
        u in
    elim (Bool-cases (ltb 0 (bit_and byte (2 ^ bit)))) [
      | inl hit ↦ rw hit (omega arith, rw (← l) r)
      | inr miss ↦ rw miss (Rises-weaken (suc low) low high rest (omega arith) r)
    ]

Rises-entries_bytes :
    (byte_idx low high : ℕ) (bs : List ℕ)
    → low ≡ byte_idx * 8
    → high ≡ (byte_idx + length bs) * 8
    → Rises low high (entries_bytes byte_idx bs)
unfolding entries_bytes
Rises-entries_bytes byte_idx low high [] l u = omega arith
Rises-entries_bytes byte_idx low high (byte ∷ bs) l u =
    Rises-append low (suc byte_idx * 8) high (entries_bits 8 0 byte_idx byte)
      (entries_bytes (suc byte_idx) bs)
      (Rises-entries_bits 8 0 byte_idx byte low (suc byte_idx * 8) refl (omega arith) (omega arith))
      (Rises-entries_bytes (suc byte_idx) (suc byte_idx * 8) high bs refl (omega arith))

pub entries-Rises : (s : IntegerSet) → Rises 0 (length s.bytes * 8) (entries s)
unfolding entries
entries-Rises s = Rises-entries_bytes 0 0 (length s.bytes * 8) s.bytes refl (omega arith)

any_pos-zero : (bs : List ℕ) → ((i : ℕ) → get_or bs i 0 ≡ 0) → any_pos bs ≡ false
unfolding any_pos
any_pos-zero [] h = refl
any_pos-zero (b ∷ bs) h = ground (arith, h 0, any_pos-zero bs (λ i. h (suc i)))

zero-any_pos : (bs : List ℕ) (i : ℕ) → any_pos bs ≡ false → get_or bs i 0 ≡ 0
unfolding any_pos
zero-any_pos [] i h = refl
zero-any_pos (b ∷ bs) zero h = ground arith
zero-any_pos (b ∷ bs) (suc i) h = ground (arith, zero-any_pos bs i)

digits-zero :
    (s : IntegerSet) (i : ℕ)
    → get_or s.bytes i 0 < 256
    → ((e : ℕ) → digit s e ≡ 0)
    → get_or s.bytes i 0 ≡ 0
digits-zero s i b h = bit_at_ext 8 (get_or s.bytes i 0) 0 b (omega arith) λ j lt.
    let e : (i * 8 + j) / 8 ≡ i = omega arith in
    let f : (i * 8 + j) % 8 ≡ j = omega arith in rw bit_at-zero (rw (e, f) at (h (i * 8 + j)))

-- `empty` tells the set without elements.
pub empty-contains :
    (n : ℕ) (s : IntegerSet) → IsValid n s → (empty s ≡ true) ↔ ((e : ℕ) → contains s e ≡ false)
unfolding empty
empty-contains n s v = (
  λ h e. ground (arith, contains-digit s e, zero-any_pos s.bytes (e / 8), bit_at-zero (e % 8)),
  λ h.
      let none_set : (e : ℕ) → digit s e ≡ 0 = λ e.
        ground (arith, h e, contains-digit s e, bit_at-lt (get_or s.bytes (e / 8) 0) (e % 8)) in
      rw (any_pos-zero s.bytes (λ i. digits-zero s i (v.is_byte i) none_set)) refl,
)

-- The digits of a list of bytes, added up.
abbrev pub digit_sum : List ℕ → ℕ
digit_sum [] = 0
digit_sum (b ∷ bs) =
    bit_at b 0
    + bit_at b 1
    + bit_at b 2
    + bit_at b 3
    + bit_at b 4
    + bit_at b 5
    + bit_at b 6
    + bit_at b 7
    + digit_sum bs

size_bits_step :
    (rounds bit b ret : ℕ)
    → size_bits (suc rounds) bit b ret ≡ size_bits rounds (suc bit) b (ret + bit_at b bit)
unfolding size_bits
size_bits_step rounds bit b ret =
    ap (size_bits rounds (suc bit) b) (ground (arith, test_bit b bit, bit_at-lt b bit))

size_byte :
    (b ret : ℕ)
    → size_bits 8 0 b ret
      ≡ ret
        + bit_at b 0
        + bit_at b 1
        + bit_at b 2
        + bit_at b 3
        + bit_at b 4
        + bit_at b 5
        + bit_at b 6
        + bit_at b 7
size_byte b ret =
    rw
      (
        size_bits_step 7 0 b ret,
        size_bits_step 6 1 b _,
        size_bits_step 5 2 b _,
        size_bits_step 4 3 b _,
        size_bits_step 3 4 b _,
        size_bits_step 2 5 b _,
        size_bits_step 1 6 b _,
        size_bits_step 0 7 b _,
      )
      (unfold size_bits in refl)

size_bytes-digit_sum : (bs : List ℕ) (ret : ℕ) → size_bytes bs ret ≡ ret + digit_sum bs
unfolding size_bytes
size_bytes-digit_sum [] ret = omega arith
size_bytes-digit_sum (b ∷ bs) ret =
    omega (arith, size_byte b ret, size_bytes-digit_sum bs (size_bits 8 0 b ret))

pub size-digit_sum : (s : IntegerSet) → size s ≡ digit_sum s.bytes
unfolding size
size-digit_sum s = omega (arith, size_bytes-digit_sum s.bytes 0)
