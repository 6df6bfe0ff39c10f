-- ===== src/IntegerSet/Tests.antt =====
-- Runs of the set's operations, and its theorems at concrete sets with the bound 32.
use fuzztruction_net.Base.{
  ℕ, zero, suc, ◌/◌, ◌%◌, ◌<◌, ◌≡◌, refl, false, not, ◌||◌, ◌&&◌, some, [], ◌∷◌, arith, ◌==◌,
  get_or, take, length-take,
}
use fuzztruction_net.Bits.Laws.{bit_at-zero}
use fuzztruction_net.IntegerSet.Valid.{IsValid, new-IsValid}
use fuzztruction_net.IntegerSet.Members.{insert-contains, algebra-contains}
use fuzztruction_net.IntegerSet.Subsets.{IsRng, IsSubset, elem-take, take-Distinct, choose-subset}
use fuzztruction_net.IntegerSet.{
  IntegerSet, Rng, new, insert, remove, bitor, bitand, sub, symm_diff, zip_bytes, size, empty,
  entries, elem, contains, eq, from_iter, choose_random, get_sub_set, digit,
}

-- The set of 1 and 2.
abbrev pub sample : IntegerSet
sample = record { bytes = 6 ∷ 0 ∷ 0 ∷ 0 ∷ 0 ∷ []; max_val = 32 }

high_bytes : (k : ℕ) → get_or sample.bytes (suc k) 0 ≡ 0
high_bytes zero = refl
high_bytes (suc zero) = refl
high_bytes (suc (suc zero)) = refl
high_bytes (suc (suc (suc zero))) = refl
high_bytes (suc (suc (suc (suc k)))) = refl

sample_bytes : (k : ℕ) → get_or sample.bytes k 0 < 256
sample_bytes zero = omega arith
sample_bytes (suc k) = omega (arith, high_bytes k)

above : (e k : ℕ) → e / 8 ≡ suc k → digit sample e ≡ 0
above e k h = rw h (rw (high_bytes k) (bit_at-zero (e % 8)))

above_bound : (e : ℕ) (k : ℕ) → k ≡ e / 8 → 32 < e → digit sample e ≡ 0
above_bound e zero p h = absurd (omega arith)
above_bound e (suc k) p h = above e k (omega arith)

pub sample-IsValid : IsValid 32 sample
sample-IsValid = record {
  bound = refl;
  allotted = refl;
  is_byte = sample_bytes;
  within = λ e h. above_bound e (e / 8) refl h;
}

program : Unit {0}
unfolding new insert remove bitor bitand sub symm_diff zip_bytes size empty entries contains eq
    from_iter
program = tt

insert_twice : insert 2 sample ≡ some (sample, false)
unfolding program
insert_twice = refl

collected : from_iter 32 (2 ∷ 1 ∷ 2 ∷ []) ≡ some sample
unfolding program
collected = refl

listed : entries sample ≡ 1 ∷ 2 ∷ []
unfolding program
listed = refl

symm_diff_same : size (symm_diff sample sample) ≡ 0
unfolding program
symm_diff_same = refl

insert-contains_example :
    (s : IntegerSet) × (insert 9 sample ≡ some (s, not (contains sample 9)))
    × IsValid 32 s
    × ((x : ℕ) → contains s x ≡ (x == 9 || contains sample x))
insert-contains_example = insert-contains 32 sample 9 sample-IsValid (omega arith)

algebra-contains_example :
    (IsValid 32 (bitor sample (new 32))
      × IsValid 32 (bitand sample (new 32))
      × IsValid 32 (sub sample (new 32))
      × IsValid 32 (symm_diff sample (new 32)))
    × ((e : ℕ)
        → (contains (bitor sample (new 32)) e ≡ (contains sample e || contains (new 32) e))
          × (contains (bitand sample (new 32)) e ≡ (contains sample e && contains (new 32) e))
          × (contains (sub sample (new 32)) e ≡ (contains sample e && not (contains (new 32) e)))
          × (contains (symm_diff sample (new 32)) e ≡ (
              contains sample e && not (contains (new 32) e)
              || contains (new 32) e && not (contains sample e))))
algebra-contains_example = algebra-contains 32 sample (new 32) sample-IsValid (new-IsValid 32)

members : (e : ℕ) → elem e (entries sample) ≡ contains sample e
unfolding contains
members e = refl

-- A generator that takes from the front and leaves the order.
abbrev pub in_order : Rng
in_order = record { choose_multiple = λ xs k. take k xs; shuffle = λ xs. xs }

pub in_order-IsRng : IsRng in_order
in_order-IsRng = record {
  shuffle_elem = λ xs e. refl;
  shuffle_length = λ xs. refl;
  shuffle_distinct = λ xs d. d;
  choose_elem = λ xs k e h. elem-take k e xs h;
  choose_length = λ xs k. length-take k xs;
  choose_distinct = λ xs k d. take-Distinct k xs d;
}

choose-subset_example :
    IsSubset 32 sample 1 (choose_random in_order 32 sample 1)
    × IsSubset 32 sample 1 (get_sub_set in_order 32 sample 1)
choose-subset_example = choose-subset in_order 32 sample 1 in_order-IsRng sample-IsValid
