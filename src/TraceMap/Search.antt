-- ===== src/TraceMap/Search.antt =====
-- generator/agent/src/tracing.rs: the binary search finds the entry of an id among entries in ascending order.
use fuzztruction_net.Base.{
  ℕ, zero, suc, ◌+◌, ◌-◌, ◌/◌, ◌≡◌, ◌≤◌, ◌<◌, refl, ◌∙◌, sym, ap, true, false, ◌||◌, some, List, [],
  ◌∷◌, ◌==◌, leb, ltb, map, length, get_elem?, arith, All, Bool-cases, inl, inr,
}
use fuzztruction_net.IntegerSet.{elem}
use fuzztruction_net.IntegerSet.Subsets.{Distinct}
use fuzztruction_net.TraceMap.{TraceEntry, sorted_with, sort, search, binary_search}

-- Numbers in ascending order, each once.
abbrev pub Ascending : List ℕ → Type 0
Ascending [] = Unit {0}
Ascending (x ∷ xs) = All (λ y. x < y) xs × Ascending xs

abbrev pub values : List TraceEntry → List ℕ
values entries = map (λ e. e.value) entries

above-at :
    (x : ℕ) (es : List TraceEntry) (j : ℕ) (b : TraceEntry)
    → All (λ y. x < y) (values es)
    → get_elem? es j ≡ some b
    → x < b.value
above-at x [] j b h q = cc
above-at x (e ∷ es) zero b h q =
    let same : e ≡ b = cc in omega (arith, h.0, ap (λ (t : TraceEntry). t.value) same)
above-at x (e ∷ es) (suc j) b h q = above-at x es j b h.1 q

ascending-at :
    (es : List TraceEntry) (i j : ℕ) (a b : TraceEntry)
    → Ascending (values es)
    → i < j
    → get_elem? es i ≡ some a
    → get_elem? es j ≡ some b
    → a.value < b.value
ascending-at [] i j a b h l p q = cc
ascending-at (e ∷ es) zero zero a b h l p q = elim l [ ]
ascending-at (e ∷ es) zero (suc j) a b h l p q =
    let same : e ≡ a = cc in
    omega (arith, above-at e.value es j b h.0 q, ap (λ (t : TraceEntry). t.value) same)
ascending-at (e ∷ es) (suc i) zero a b h l p q = elim l [ ]
ascending-at (e ∷ es) (suc i) (suc j) a b h l p q = ascending-at es i j a b h.1 (omega arith) p q

inside :
    (es : List TraceEntry) (i : ℕ) → i < length es → (e : TraceEntry) × (get_elem? es i ≡ some e)
inside [] i h = elim h [ ]
inside (e ∷ es) zero h = (e, refl)
inside (e ∷ es) (suc i) h = inside es i (omega arith)

pub get_elem?-length :
    (es : List TraceEntry) (i : ℕ) (e : TraceEntry) → get_elem? es i ≡ some e → i < length es
get_elem?-length [] i e h = cc
get_elem?-length (x ∷ es) zero e h = omega arith
get_elem?-length (x ∷ es) (suc i) e h = omega (arith, get_elem?-length es i e h)

module _ (id : ℕ) (es : List TraceEntry) (ascending : Ascending (values es)) (i : ℕ)
    (e : TraceEntry) (at : get_elem? es i ≡ some e) (here : e.value ≡ id) where
  -- The position of an entry by its value.
  not_above : (mid : ℕ) (d : TraceEntry) → get_elem? es mid ≡ some d → d.value ≤ id → mid ≤ i
  not_above mid d p l = elim (Bool-cases (ltb i mid)) [
    | inl t ↦ omega (arith, here, ascending-at es i mid e d ascending (ground arith) at p)
    | inr t ↦ ground arith
  ]

  not_below : (mid : ℕ) (d : TraceEntry) → get_elem? es mid ≡ some d → id ≤ d.value → i ≤ mid
  not_below mid d p l = elim (Bool-cases (ltb mid i)) [
    | inl t ↦ omega (arith, here, ascending-at es mid i d e ascending (ground arith) p at)
    | inr t ↦ ground arith
  ]

  search-index :
      (fuel left right : ℕ)
      → right ≤ length es
      → left ≤ i
      → i < right
      → right - left < fuel
      → search fuel id es left right ≡ some i
  unfolding search
  search-index zero left right b l r f = elim f [ ]
  search-index (suc fuel) left right b l r f =
      let mid = left + (right - left) / 2 in
      let some_left : ltb left right ≡ true = ground arith in
      let (d, p) = inside es mid (omega arith) in
      elim (Bool-cases (d.value == id)) [
        | inl t ↦
            let same : mid ≡ i =
              omega (arith, not_above mid d p (ground arith), not_below mid d p (ground arith)) in
            rw (some_left, p, t) (ap some same)
        | inr t ↦ elim (Bool-cases (ltb d.value id)) [
          | inl u ↦
              let low : mid ≤ i = not_above mid d p (ground arith) in
              let off : mid < i = apart mid d p t low in
              rw (some_left, p, t, u)
                (search-index fuel (suc mid) right b (omega arith) r (omega arith))
          | inr u ↦
              let high : i ≤ mid = not_below mid d p (ground arith) in
              let off : i < mid = apart' mid d p t high in
              rw (some_left, p, t, u) (search-index fuel left mid (omega arith) l off (omega arith))
        ]
      ]
    where
      differ :
          (mid : ℕ) (d : TraceEntry)
          → get_elem? es mid ≡ some d
          → (d.value == id) ≡ false
          → mid ≡ i
          → ⊥
      differ mid d p t q =
          let both : some d ≡ some e = sym p ∙ ap (get_elem? es) q ∙ at in
          let same : d ≡ e = cc in
          let v : d.value ≡ id = ap (λ (x : TraceEntry). x.value) same ∙ here in ground arith

      apart :
          (mid : ℕ) (d : TraceEntry)
          → get_elem? es mid ≡ some d
          → (d.value == id) ≡ false
          → mid ≤ i
          → mid < i
      apart mid d p t l = elim (Bool-cases (ltb mid i)) [
        | inl u ↦ ground arith
        | inr u ↦ absurd (differ mid d p t (ground arith))
      ]

      apart' :
          (mid : ℕ) (d : TraceEntry)
          → get_elem? es mid ≡ some d
          → (d.value == id) ≡ false
          → i ≤ mid
          → i < mid
      apart' mid d p t l = elim (Bool-cases (ltb i mid)) [
        | inl u ↦ ground arith
        | inr u ↦ absurd (differ mid d p t (ground arith))
      ]

  pub binary_search-index : binary_search id es ≡ some i
  unfolding binary_search
  binary_search-index =
      search-index (suc (length es)) 0 (length es) (omega arith) (omega arith)
        (get_elem?-length es i e at) (omega arith)

pub elem-sorted_with :
    (id x : ℕ) (ys : List ℕ) → elem id (sorted_with x ys) ≡ ((x == id) || elem id ys)
unfolding sorted_with
elem-sorted_with id x [] = refl
elem-sorted_with id x (y ∷ ys) = elim (Bool-cases (leb x y)) [
  | inl t ↦ rw t refl
  | inr t ↦ rw (t, elem-sorted_with id x ys) (ground arith)
]

pub elem-sort : (id : ℕ) (xs : List ℕ) → elem id (sort xs) ≡ elem id xs
unfolding sort
elem-sort id [] = refl
elem-sort id (x ∷ xs) = elem-sorted_with id x (sort xs) ∙ ap (λ b. (x == id) || b) (elem-sort id xs)

All-above : (x y : ℕ) (ys : List ℕ) → x < y → All (λ z. y < z) ys → All (λ z. x < z) ys
All-above x y [] l h = tt
All-above x y (z ∷ ys) l h = (omega (arith, h.0), All-above x y ys l h.1)

All-sorted_with :
    (y x : ℕ) (ys : List ℕ) → y < x → All (λ z. y < z) ys → All (λ z. y < z) (sorted_with x ys)
unfolding sorted_with
All-sorted_with y x [] l h = (l, tt)
All-sorted_with y x (z ∷ ys) l h = elim (Bool-cases (leb x z)) [
  | inl t ↦ rw t (l, h)
  | inr t ↦ rw t (h.0, All-sorted_with y x ys l h.1)
]

sorted_with-Ascending :
    (x : ℕ) (ys : List ℕ) → Ascending ys → elem x ys ≡ false → Ascending (sorted_with x ys)
unfolding sorted_with
sorted_with-Ascending x [] h n = (tt, tt)
sorted_with-Ascending x (y ∷ ys) h n =
    let other : (y == x) ≡ false = ground arith in
    let later : elem x ys ≡ false = ground arith in
    elim (Bool-cases (leb x y)) [
      | inl t ↦ let l : x < y = ground arith in rw t ((l, All-above x y ys l h.0), h)
      | inr t ↦
          let l : y < x = ground arith in
          rw t (All-sorted_with y x ys l h.0, sorted_with-Ascending x ys h.1 later)
    ]

-- Sorted numbers, of which none is there twice, are in ascending order.
pub sort-Ascending : (xs : List ℕ) → Distinct xs → Ascending (sort xs)
unfolding sort
sort-Ascending [] h = tt
sort-Ascending (x ∷ xs) h =
    sorted_with-Ascending x (sort xs) (sort-Ascending xs h.1) (elem-sort x xs ∙ h.0)
