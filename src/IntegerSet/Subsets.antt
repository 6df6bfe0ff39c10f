-- ===== src/IntegerSet/Subsets.antt =====
-- `from_iter`, `size`, and the random subsets, on what the `rand` crate documents.
use fuzztruction_net.Base.{
  ℕ, zero, suc, ◌*◌, ◌≤◌, ◌<◌, ◌≡◌, refl, Bool, true, false, ◌&&◌, ◌||◌, Option, some, List, [],
  ◌∷◌, arith, ◌==◌, length, min, take, length-take, Bool-cases, inl, inr, if◌then◌else◌, ap, sym,
  ltb,
}
use fuzztruction_net.IntegerSet.Valid.{IsValid, new-IsValid, new-digit}
use fuzztruction_net.IntegerSet.Entries.{contains-digit, size-length-entries, entries-Rises, Rises}
use fuzztruction_net.IntegerSet.Members.{insert-contains, contains_above}
use fuzztruction_net.IntegerSet.{
  IntegerSet, Rng, new, size, entries, elem, contains, insert_all, from_iter, choose_random,
  get_sub_set,
}

-- No number is there twice.
abbrev pub Distinct : List ℕ → Type 0
Distinct [] = Unit {0}
Distinct (x ∷ xs) = (elem x xs ≡ false) × Distinct xs

erase : ℕ → List ℕ → List ℕ
erase e [] = []
erase e (x ∷ xs) = if x == e then xs else x ∷ erase e xs

length-erase : (e : ℕ) (xs : List ℕ) → elem e xs ≡ true → length xs ≡ suc (length (erase e xs))
unfolding erase
length-erase e [] h = cc
length-erase e (x ∷ xs) h = ground (arith, length-erase e xs)

elem-erase :
    (e x : ℕ) (xs : List ℕ) → (x == e) ≡ false → elem x xs ≡ true → elem x (erase e xs) ≡ true
unfolding erase
elem-erase e x [] n h = cc
elem-erase e x (y ∷ ys) n h = ground (arith, elem-erase e x ys)

-- A list without repetition whose members are all in another is no longer than that.
pub length-le_of_elem :
    (xs ys : List ℕ)
    → Distinct xs
    → ((e : ℕ) → elem e xs ≡ true → elem e ys ≡ true)
    → length xs ≤ length ys
length-le_of_elem [] ys d h = omega arith
length-le_of_elem (x ∷ xs) ys d h = omega (
  arith,
  length-erase x ys (h x (ground arith)),
  length-le_of_elem xs (erase x ys) d.1 (λ e m. elem-erase x e ys (apart e m) (h e (ground arith))),
)
  where
    apart : (e : ℕ) → elem e xs ≡ true → (e == x) ≡ false
    apart e m = elim (Bool-cases (e == x)) [
      | inl same ↦
          let p : e ≡ x = ground arith in absurd (ground (arith, ap (λ k. elem k xs) p, d.0))
      | inr other ↦ other
    ]

elem_below : (low high e : ℕ) (xs : List ℕ) → Rises low high xs → e < low → elem e xs ≡ false
elem_below low high e [] r h = refl
elem_below low high e (x ∷ xs) r h = ground (arith, elem_below (suc x) high e xs r.1)

pub Rises-Distinct : (low high : ℕ) (xs : List ℕ) → Rises low high xs → Distinct xs
Rises-Distinct low high [] r = tt
Rises-Distinct low high (x ∷ xs) r =
    (elem_below (suc x) high x xs r.1 (omega arith), Rises-Distinct (suc x) high xs r.1)

pub entries-Distinct : (s : IntegerSet) → Distinct (entries s)
entries-Distinct s = Rises-Distinct 0 (length s.bytes * 8) (entries s) (entries-Rises s)

insert_all-contains :
    (n : ℕ) (vs : List ℕ) (s : IntegerSet)
    → IsValid n s
    → ((e : ℕ) → elem e vs ≡ true → e ≤ n)
    → (t : IntegerSet) × (insert_all vs s ≡ some t)
      × IsValid n t
      × ((e : ℕ) → contains t e ≡ (elem e vs || contains s e))
unfolding insert_all
insert_all-contains n [] s v h = (s, refl, v, λ e. refl)
insert_all-contains n (x ∷ xs) s v h =
    let (s', ran, valid, members) = insert-contains n s x v (h x (ground arith)) in
    let (t, rest, valid', all) = insert_all-contains n xs s' valid (λ e m. h e (ground arith)) in
    (t, rw ran rest, valid', λ e. ground (arith, all e, members e))

-- Collecting numbers up to `n` into a set with the bound `n` succeeds; the members are exactly the
-- numbers collected.
pub from_iter-contains :
    (n : ℕ) (vs : List ℕ)
    → ((e : ℕ) → elem e vs ≡ true → e ≤ n)
    → (t : IntegerSet) × (from_iter n vs ≡ some t)
      × IsValid n t
      × ((e : ℕ) → contains t e ≡ elem e vs)
unfolding from_iter
from_iter-contains n vs h =
    let (t, ran, valid, members) = insert_all-contains n vs (new n) (new-IsValid n) h in
    (t, ran, valid, λ e. ground (arith, members e, contains-digit (new n) e, new-digit n e))

elem-entries : (s : IntegerSet) (e : ℕ) → elem e (entries s) ≡ contains s e
unfolding contains
elem-entries s e = refl

-- The size of a set is the number of its members, each counted once: it is the length of every
-- list that holds exactly the members and none of them twice.
pub size_unique :
    (s : IntegerSet) (xs : List ℕ)
    → Distinct xs
    → ((e : ℕ) → elem e xs ≡ contains s e)
    → size s ≡ length xs
size_unique s xs d h = omega (
  arith,
  size-length-entries s,
  length-le_of_elem xs (entries s) d (λ e m. ground (arith, elem-entries s e, h e)),
  length-le_of_elem (entries s) xs (entries-Distinct s)
      (λ e m. ground (arith, elem-entries s e, h e)),
)

-- What the `rand` crate documents: a shuffle keeps the values; a choice takes as many as it is
-- asked for, or all there are, and none twice.
pub record IsRng (rng : Rng) : Type 0 where
  pub shuffle_elem : (xs : List ℕ) (e : ℕ) → elem e (rng.shuffle xs) ≡ elem e xs
  pub shuffle_length : (xs : List ℕ) → length (rng.shuffle xs) ≡ length xs
  pub shuffle_distinct : (xs : List ℕ) → Distinct xs → Distinct (rng.shuffle xs)
  pub choose_elem :
      (xs : List ℕ) (k e : ℕ) → elem e (rng.choose_multiple xs k) ≡ true → elem e xs ≡ true
  pub choose_length : (xs : List ℕ) (k : ℕ) → length (rng.choose_multiple xs k) ≡ min k (length xs)
  pub choose_distinct : (xs : List ℕ) (k : ℕ) → Distinct xs → Distinct (rng.choose_multiple xs k)

pub elem-take : (k e : ℕ) (xs : List ℕ) → elem e (take k xs) ≡ true → elem e xs ≡ true
elem-take zero e xs h = cc
elem-take (suc k) e [] h = cc
elem-take (suc k) e (x ∷ xs) h = ground (arith, elem-take k e xs)

not_elem-take : (k e : ℕ) (xs : List ℕ) → elem e xs ≡ false → elem e (take k xs) ≡ false
not_elem-take k e xs h = elim (Bool-cases (elem e (take k xs))) [
  | inl m ↦ absurd (ground (arith, elem-take k e xs m))
  | inr no_member ↦ no_member
]

pub take-Distinct : (k : ℕ) (xs : List ℕ) → Distinct xs → Distinct (take k xs)
take-Distinct zero xs d = tt
take-Distinct (suc k) [] d = tt
take-Distinct (suc k) (x ∷ xs) d = (not_elem-take k x xs d.0, take-Distinct k xs d.1)

member-le : (n : ℕ) (s : IntegerSet) (e : ℕ) → IsValid n s → contains s e ≡ true → e ≤ n
member-le n s e v h = elim (Bool-cases (ltb n e)) [
  | inl above ↦ absurd (ground (arith, contains_above n s e v (ground arith)))
  | inr within ↦ ground arith
]

-- Collecting some of the members, none twice, gives a subset with as many members.
subset-lem :
    (n : ℕ) (s : IntegerSet) (vs : List ℕ)
    → IsValid n s
    → Distinct vs
    → ((e : ℕ) → elem e vs ≡ true → contains s e ≡ true)
    → (t : IntegerSet) × (from_iter n vs ≡ some t)
      × IsValid n t
      × ((e : ℕ) → contains t e ≡ (contains t e && contains s e))
      × (size t ≡ length vs)
subset-lem n s vs v d h =
    let (t, ran, valid, members) = from_iter-contains n vs (λ e m. member-le n s e v (h e m)) in
    (t, ran, valid, λ e. inside e (members e), size_unique t vs d (λ e. sym (members e)))
  where
    inside : {b : Bool} (e : ℕ) → b ≡ elem e vs → b ≡ (b && contains s e)
    inside {b} e m = elim (Bool-cases (elem e vs)) [
      | inl hit ↦ ground (arith, h e hit)
      | inr miss ↦ ground arith
    ]

-- A set with the bound `n` came out that holds members of `s` only, and `k` of them, or as many as
-- there are.
abbrev pub IsSubset : ℕ → IntegerSet → ℕ → Option IntegerSet → Type 0
IsSubset n s k r =
    (t : IntegerSet) × (r ≡ some t)
    × IsValid n t
    × ((e : ℕ) → contains t e ≡ (contains t e && contains s e))
    × (size t ≡ min k (size s))

module _ (rng : Rng) (laws : IsRng rng) (n : ℕ) (s : IntegerSet) (k : ℕ) (v : IsValid n s) where
  choose_random-IsSubset : IsSubset n s k (choose_random rng n s k)
  unfolding choose_random
  choose_random-IsSubset =
      let chosen : List ℕ = rng.choose_multiple (entries s) k in
      let (t, ran, valid, members, count) =
        subset-lem n s (rng.shuffle chosen) v
          (laws.shuffle_distinct chosen (laws.choose_distinct (entries s) k (entries-Distinct s)))
          (λ e m. ground (
            arith,
            elem-entries s e,
            laws.shuffle_elem chosen e,
            laws.choose_elem (entries s) k e,
          )) in
      (
        t,
        ran,
        valid,
        members,
        omega (
          arith,
          count,
          size-length-entries s,
          laws.shuffle_length chosen,
          laws.choose_length (entries s) k,
        ),
      )

  get_sub_set-IsSubset : IsSubset n s k (get_sub_set rng n s k)
  unfolding get_sub_set
  get_sub_set-IsSubset =
      let mixed : List ℕ = rng.shuffle (entries s) in
      let (t, ran, valid, members, count) =
        subset-lem n s (take k mixed) v
          (take-Distinct k mixed (laws.shuffle_distinct (entries s) (entries-Distinct s)))
          (λ e m.
            ground
              (arith, elem-entries s e, laws.shuffle_elem (entries s) e, elem-take k e mixed m)) in
      (
        t,
        ran,
        valid,
        members,
        omega (
          arith,
          count,
          size-length-entries s,
          length-take k mixed,
          laws.shuffle_length (entries s),
        ),
      )

-- On a set with the bound `n` and with a generator that does what its documentation says, a random
-- choice and a random subset of `k` elements succeed, hold members of the set only, and have `k`
-- members, or as many as the set if that has fewer.
pub choose-subset :
    (rng : Rng) (n : ℕ) (s : IntegerSet) (k : ℕ)
    → IsRng rng
    → IsValid n s
    → IsSubset n s k (choose_random rng n s k) × IsSubset n s k (get_sub_set rng n s k)
choose-subset rng n s k laws v =
    (choose_random-IsSubset rng laws n s k v, get_sub_set-IsSubset rng laws n s k v)
