-- ===== src/IntegerSet/Members.antt =====
-- The operations as they look from outside, through `contains`.
use fuzztruction_net.Base.{
  ℕ, zero, suc, ◌+◌, ◌*◌, ◌/◌, ◌%◌, ◌≤◌, ◌<◌, ◌≡◌, ◌↔◌, refl, true, false, not, ◌&&◌, ◌||◌, Option,
  none, some, List, [], ◌∷◌, arith, ◌==◌, get_or, length, Bool-cases, inl, inr, ltb,
}
use fuzztruction_net.Bits.Laws.{bit_at-lt, bit_at_ext}
use fuzztruction_net.IntegerSet.Valid.{IsValid, insert-digit, remove-digit}
use fuzztruction_net.IntegerSet.Zip.{
  digit-bitor, digit-bitand, digit-sub, bitor-IsValid, bitand-IsValid, sub-IsValid,
}
use fuzztruction_net.IntegerSet.Entries.{contains-digit}
use fuzztruction_net.IntegerSet.{
  IntegerSet, insert, remove, bitor, bitand, sub, symm_diff, contains, same_bytes, eq, digit,
}

-- On a set with the bound `n`, an element up to `n` can be inserted: it is a member then, every
-- other element is a member exactly if it was one before, and the result says whether the element
-- was no member before.
pub insert-contains :
    (n : ℕ) (s : IntegerSet) (e : ℕ)
    → IsValid n s
    → e ≤ n
    → (s' : IntegerSet) × (insert e s ≡ some (s', not (contains s e)))
      × IsValid n s'
      × ((x : ℕ) → contains s' x ≡ (x == e || contains s x))
insert-contains n s e v fits =
    let (s', ran, valid, digits) = insert-digit n s v e fits in
    (
      s',
      ground (arith, ran, contains-digit s e, bit_at-lt (get_or s.bytes (e / 8) 0) (e % 8)),
      valid,
      λ x. ground (arith, digits x, contains-digit s' x, contains-digit s x),
    )

-- On a set with the bound `n`, removing an element up to `n` succeeds: it is no member then, and
-- every other element is a member exactly if it was one before.
pub remove-contains :
    (n : ℕ) (s : IntegerSet) (e : ℕ)
    → IsValid n s
    → e ≤ n
    → (s' : IntegerSet) × (remove e s ≡ some s')
      × IsValid n s'
      × ((x : ℕ) → contains s' x ≡ (not (x == e) && contains s x))
remove-contains n s e v fits =
    let (s', ran, valid, digits) = remove-digit n s v e fits in
    (s', ran, valid, λ x. ground (arith, digits x, contains-digit s' x, contains-digit s x))

pub contains_above : (n : ℕ) (s : IntegerSet) (e : ℕ) → IsValid n s → n < e → contains s e ≡ false
contains_above n s e v h = ground (arith, contains-digit s e, v.within e h)

-- On a set with the bound `n`, `insert` and `remove` panic exactly on the elements above `n`.
pub panics-lt :
    (n : ℕ) (s : IntegerSet) (e : ℕ)
    → IsValid n s
    → ((insert e s ≡ none) ↔ (n < e)) × ((remove e s ≡ none) ↔ (n < e))
unfolding insert remove
panics-lt n s e v = elim (Bool-cases (ltb n e)) [
  | inl above ↦
      let i : insert e s ≡ none = ground (arith, v.bound) in
      let r : remove e s ≡ none = ground (arith, v.bound) in
      ((λ _. ground arith, λ _. i), (λ _. ground arith, λ _. r))
  | inr within ↦
      let fits : e ≤ n = ground arith in
      let (s', ran, _, _) = insert-contains n s e v fits in
      let (t', gone, _, _) = remove-contains n s e v fits in
      (
        (λ h. absurd (some≢none ran h), λ h. absurd (omega arith)),
        (λ h. absurd (some≢none gone h), λ h. absurd (omega arith)),
      )
]
  where
    some≢none : {A : Type 0} {o : Option A} {a : A} → o ≡ some a → o ≡ none → ⊥
    some≢none p q = cc

module _ (n : ℕ) (s t : IntegerSet) (v : IsValid n s) (w : IsValid n t) where
  pub contains-bitor : (e : ℕ) → contains (bitor s t) e ≡ (contains s e || contains t e)
  contains-bitor e = ground (
    arith,
    contains-digit (bitor s t) e,
    contains-digit s e,
    contains-digit t e,
    digit-bitor n s t v w e,
    bit_at-lt (get_or s.bytes (e / 8) 0) (e % 8),
    bit_at-lt (get_or t.bytes (e / 8) 0) (e % 8),
  )

  pub contains-bitand : (e : ℕ) → contains (bitand s t) e ≡ (contains s e && contains t e)
  contains-bitand e = ground (
    arith,
    contains-digit (bitand s t) e,
    contains-digit s e,
    contains-digit t e,
    digit-bitand n s t v w e,
    bit_at-lt (get_or s.bytes (e / 8) 0) (e % 8),
    bit_at-lt (get_or t.bytes (e / 8) 0) (e % 8),
  )

  pub contains-sub : (e : ℕ) → contains (sub s t) e ≡ (contains s e && not (contains t e))
  contains-sub e = ground (
    arith,
    contains-digit (sub s t) e,
    contains-digit s e,
    contains-digit t e,
    digit-sub n s t v w e,
    bit_at-lt (get_or s.bytes (e / 8) 0) (e % 8),
    bit_at-lt (get_or t.bytes (e / 8) 0) (e % 8),
  )

-- The operators `|`, `&`, `-` and `symm_diff` of two sets with the same bound are union,
-- intersection, difference and symmetric difference, and give a set with that bound.
pub algebra-contains :
    (n : ℕ) (s t : IntegerSet)
    → IsValid n s
    → IsValid n t
    → (IsValid n (bitor s t)
        × IsValid n (bitand s t)
        × IsValid n (sub s t)
        × IsValid n (symm_diff s t))
      × ((e : ℕ)
          → (contains (bitor s t) e ≡ (contains s e || contains t e))
            × (contains (bitand s t) e ≡ (contains s e && contains t e))
            × (contains (sub s t) e ≡ (contains s e && not (contains t e)))
            × (contains (symm_diff s t) e
                ≡ (contains s e && not (contains t e) || contains t e && not (contains s e))))
unfolding symm_diff
algebra-contains n s t v w =
    let either : IsValid n (bitor s t) = bitor-IsValid n s t v w in
    let both : IsValid n (bitand s t) = bitand-IsValid n s t v w in
    (
      (either, both, sub-IsValid n s t v w, sub-IsValid n (bitor s t) (bitand s t) either both),
      λ e.
          let o = contains-bitor n s t v w e in
          let a = contains-bitand n s t v w e in
          (
            o,
            a,
            contains-sub n s t v w e,
            ground (arith, o, a, contains-sub n (bitor s t) (bitand s t) either both e),
          ),
    )

same_bytes_refl : (xs : List ℕ) → same_bytes xs xs ≡ true
unfolding same_bytes
same_bytes_refl [] = refl
same_bytes_refl (x ∷ xs) = ground (arith, same_bytes_refl xs)

get_or-same_bytes :
    (xs ys : List ℕ) (i : ℕ) → same_bytes xs ys ≡ true → get_or xs i 0 ≡ get_or ys i 0
unfolding same_bytes
get_or-same_bytes [] [] i h = refl
get_or-same_bytes [] (y ∷ ys) i h = cc
get_or-same_bytes (x ∷ xs) [] i h = cc
get_or-same_bytes (x ∷ xs) (y ∷ ys) zero h = ground arith
get_or-same_bytes (x ∷ xs) (y ∷ ys) (suc i) h = ground (arith, get_or-same_bytes xs ys i)

same_bytes_ext :
    (xs ys : List ℕ)
    → length xs ≡ length ys
    → ((i : ℕ) → get_or xs i 0 ≡ get_or ys i 0)
    → same_bytes xs ys ≡ true
unfolding same_bytes
same_bytes_ext [] [] l h = refl
same_bytes_ext [] (y ∷ ys) l h = absurd (omega arith)
same_bytes_ext (x ∷ xs) [] l h = absurd (omega arith)
same_bytes_ext (x ∷ xs) (y ∷ ys) l h =
    ground (arith, h 0, same_bytes_ext xs ys (omega arith) (λ i. h (suc i)))

-- Two sets with the same bound compare equal exactly if they have the same members.
pub eq-contains :
    (n : ℕ) (s t : IntegerSet)
    → IsValid n s
    → IsValid n t
    → (eq s t ≡ true) ↔ ((e : ℕ) → contains s e ≡ contains t e)
unfolding eq
eq-contains n s t v w = (
  λ h e.
      ground
        (arith, contains-digit s e, contains-digit t e, get_or-same_bytes s.bytes t.bytes (e / 8)),
  λ h.
      let bytes : same_bytes s.bytes t.bytes ≡ true =
        same_bytes_ext s.bytes t.bytes (omega (arith, v.allotted, w.allotted)) λ i.
          bit_at_ext 8 _ _ (v.is_byte i) (w.is_byte i) λ j lt.
            let x : (i * 8 + j) / 8 ≡ i = omega arith in
            let y : (i * 8 + j) % 8 ≡ j = omega arith in
            rw (x, y) at (same_digit (i * 8 + j) (h (i * 8 + j))) in
      ground (arith, bytes, v.bound, w.bound),
)
  where
    same_digit : (e : ℕ) → contains s e ≡ contains t e → digit s e ≡ digit t e
    same_digit e h = ground (
      arith,
      contains-digit s e,
      contains-digit t e,
      bit_at-lt (get_or s.bytes (e / 8) 0) (e % 8),
      bit_at-lt (get_or t.bytes (e / 8) 0) (e % 8),
    )
