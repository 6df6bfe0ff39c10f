-- ===== src/IntegerSet/Valid.antt =====
-- The invariant of a set, and what the operations do to it and to each digit.
use Prim.Native.Nat.{bit_and, bit_or}
use fuzztruction_net.Base.{
  ℕ, zero, suc, ◌+◌, ◌/◌, ◌%◌, ◌^◌, ◌≤◌, ◌<◌, ◌≡◌, refl, some, List, [], ◌∷◌, arith, ◌==◌,
  get_elem?, get_or, set, length, length-set, length-replicate, get_or-set_self, get_or-set_ne,
  get_or-replicate, if◌then◌else◌,
}
use fuzztruction_net.Bits.{not_u8}
use fuzztruction_net.Bits.Laws.{bit_at-lt, bit_at-zero, bit_and-le, bit_or-lt, test_bit}
use fuzztruction_net.Bits.Vectors.{pow_byte, bit_at-set, raised, cleared}
use fuzztruction_net.IntegerSet.{IntegerSet, new, insert, remove, digit}

-- A set with the bound `n`: as many bytes as `new` allots, each a byte, and nothing above `n`.
pub record IsValid (n : ℕ) (s : IntegerSet) : Type 0 where
  pub bound : s.max_val ≡ n
  pub allotted : length s.bytes ≡ n / 8 + 1
  pub is_byte : (i : ℕ) → get_or s.bytes i 0 < 256
  pub within : (e : ℕ) → n < e → digit s e ≡ 0

pub get_elem?-get_or : (xs : List ℕ) (i : ℕ) → i < length xs → get_elem? xs i ≡ some (get_or xs i 0)
get_elem?-get_or [] i h = elim h [ ]
get_elem?-get_or (x ∷ xs) zero h = refl
get_elem?-get_or (x ∷ xs) (suc i) h = get_elem?-get_or xs i (omega arith)

module _ (n : ℕ) (s : IntegerSet) (v : IsValid n s) (e : ℕ) (fits : e ≤ n) where
  abbrev inserted : IntegerSet
  inserted = record s {
    bytes = set s.bytes (e / 8) (bit_or (get_or s.bytes (e / 8) 0) (2 ^ (e % 8)));
  }

  abbrev removed : IntegerSet
  removed = record s {
    bytes = set s.bytes (e / 8) (bit_and (get_or s.bytes (e / 8) 0) (not_u8 (2 ^ (e % 8))));
  }

  insert-inserted :
      insert e s ≡ some (inserted, bit_and (get_or s.bytes (e / 8) 0) (2 ^ (e % 8)) == 0)
  unfolding insert
  insert-inserted = ground (arith, v.bound, v.allotted, get_elem?-get_or s.bytes (e / 8))

  removed-remove : remove e s ≡ some removed
  unfolding remove
  removed-remove = ground (arith, v.bound, v.allotted, get_elem?-get_or s.bytes (e / 8))

  digit-inserted : (x : ℕ) → digit inserted x ≡ (if x == e then 1 else digit s x)
  digit-inserted x =
      bit_at-set s.bytes e x (bit_or old_byte (2 ^ (e % 8))) 1 (omega (arith, v.allotted))
        (ground (arith, raised old_byte (e % 8) (e % 8)))
        (λ j lt ne. ground (arith, raised old_byte (e % 8) j))
    where
      old_byte : ℕ
      old_byte = get_or s.bytes (e / 8) 0

  digit-removed : (x : ℕ) → digit removed x ≡ (if x == e then 0 else digit s x)
  digit-removed x =
      bit_at-set s.bytes e x (bit_and old_byte (not_u8 (2 ^ (e % 8)))) 0 (omega (arith, v.allotted))
        (ground (arith, cleared old_byte (e % 8) (e % 8)))
        (λ j lt ne. ground (arith, cleared old_byte (e % 8) j))
    where
      old_byte : ℕ
      old_byte = get_or s.bytes (e / 8) 0

  is_byte-set : (i w : ℕ) → w < 256 → get_or (set s.bytes (e / 8) w) i 0 < 256
  is_byte-set i w h = ground (
    arith,
    v.allotted,
    v.is_byte i,
    get_or-set_self s.bytes (e / 8) w 0,
    get_or-set_ne s.bytes (e / 8) i w 0,
  )

  inserted-IsValid : IsValid n inserted
  inserted-IsValid = record {
    bound = v.bound;
    allotted = omega (
      arith,
      v.allotted,
      length-set s.bytes (e / 8) (bit_or (get_or s.bytes (e / 8) 0) (2 ^ (e % 8))),
    );
    is_byte =
        λ i. is_byte-set i _ (bit_or-lt 8 _ _ (v.is_byte (e / 8)) (pow_byte (e % 8) (omega arith)));
    within = λ x lt. ground (arith, digit-inserted x, v.within x lt);
  }

  removed-IsValid : IsValid n removed
  removed-IsValid = record {
    bound = v.bound;
    allotted = omega (
      arith,
      v.allotted,
      length-set s.bytes (e / 8) (bit_and (get_or s.bytes (e / 8) 0) (not_u8 (2 ^ (e % 8)))),
    );
    is_byte = λ i. is_byte-set i _ (
        omega (
          arith,
          bit_and-le 8 (get_or s.bytes (e / 8) 0) (not_u8 (2 ^ (e % 8))) (v.is_byte (e / 8)),
          v.is_byte (e / 8),
        ));
    within = λ x lt. ground (arith, digit-removed x, v.within x lt);
  }

  -- Within the bound `insert` succeeds, adds the element alone, and says whether it was new.
  pub insert-digit :
      (s' : IntegerSet) × (insert e s ≡ some (s', digit s e == 0))
      × IsValid n s'
      × ((x : ℕ) → digit s' x ≡ (if x == e then 1 else digit s x))
  insert-digit = (
    inserted,
    ground (
      arith,
      insert-inserted,
      test_bit (get_or s.bytes (e / 8) 0) (e % 8),
      bit_at-lt (get_or s.bytes (e / 8) 0) (e % 8),
    ),
    inserted-IsValid,
    digit-inserted,
  )

  pub remove-digit :
      (s' : IntegerSet) × (remove e s ≡ some s')
      × IsValid n s'
      × ((x : ℕ) → digit s' x ≡ (if x == e then 0 else digit s x))
  remove-digit = (removed, removed-remove, removed-IsValid, digit-removed)

pub new-IsValid : (n : ℕ) → IsValid n (new n)
unfolding new
new-IsValid n = record {
  bound = refl;
  allotted = length-replicate (n / 8 + 1) 0;
  is_byte = λ i. omega (arith, get_or-replicate {A = ℕ} (n / 8 + 1) i 0);
  within = λ e h. rw (get_or-replicate {A = ℕ} (n / 8 + 1) (e / 8) 0) (bit_at-zero (e % 8));
}

pub new-digit : (n e : ℕ) → digit (new n) e ≡ 0
unfolding new
new-digit n e = rw (get_or-replicate {A = ℕ} (n / 8 + 1) (e / 8) 0) (bit_at-zero (e % 8))
