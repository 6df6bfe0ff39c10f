-- ===== src/TraceMap/Recorded.antt =====
-- generator/agent/src/tracing.rs: the map from its slots to the hits that it holds.
use fuzztruction_net.Base.{
  sym, subst, false, ℕ, ◌+◌, ◌^◌, ◌≡◌, ◌<◌, ◌≤◌, refl, ◌∙◌, ap, Bool, true, ◌||◌, Option, none,
  some, List, [], ◌∷◌, ◌==◌, ◌>>=◌, map, length, arith, All, Bool-cases, inl, inr,
}
use fuzztruction_net.IntegerSet.{elem}
use fuzztruction_net.TraceMap.{TraceEntry, entry, TraceMap, new, alloc_slot, sort, finalize}
use fuzztruction_net.IntegerSet.Subsets.{Distinct}
use fuzztruction_net.TraceMap.Search.{Ascending, values, elem-sort, sort-Ascending}
use fuzztruction_net.TraceMap.Counts.{
  report_hits-parent, alloc_slots, report_hits, entry_of, occurrences, first_hit,
  report_hits-recorded,
}

alloc_slot-Distinct :
    (x : ℕ) (m : TraceMap) → Distinct m.allocated_slots → Distinct (alloc_slot x m).allocated_slots
unfolding alloc_slot
alloc_slot-Distinct x m h = elim (Bool-cases (elem x m.allocated_slots)) [
  | inl t ↦ rw t h
  | inr t ↦ rw t (t, h)
]

alloc_slots-Distinct :
    (slots : List ℕ) (m : TraceMap)
    → Distinct m.allocated_slots
    → Distinct (alloc_slots slots m).allocated_slots
alloc_slots-Distinct [] m h = h
alloc_slots-Distinct (x ∷ xs) m h =
    alloc_slots-Distinct xs (alloc_slot x m) (alloc_slot-Distinct x m h)

values-entry : (xs : List ℕ) → values (map entry xs) ≡ xs
values-entry [] = refl
values-entry (x ∷ xs) = ap (◌∷◌ x) (values-entry xs)

alloc_slot-keeps :
    (id x : ℕ) (m : TraceMap)
    → (elem id (alloc_slot x m).allocated_slots ≡ ((x == id) || elem id m.allocated_slots))
      × ((alloc_slot x m).entries ≡ m.entries)
      × ((alloc_slot x m).total_hits ≡ m.total_hits)
unfolding alloc_slot
alloc_slot-keeps id x m = elim (Bool-cases (elem x m.allocated_slots)) [
  | inl t ↦ rw t (known t, refl, refl)
  | inr t ↦ rw t (refl, refl, refl)
]
  where
    known :
        elem x m.allocated_slots ≡ true
        → elem id m.allocated_slots ≡ ((x == id) || elem id m.allocated_slots)
    known t = elim (Bool-cases (x == id)) [
      | inl u ↦
          let same : x ≡ id = ground arith in
          let there : elem id m.allocated_slots ≡ true = rw (← same) t in rw (u, there) refl
      | inr u ↦ rw u refl
    ]

entry_of-entry :
    (id : ℕ) (xs : List ℕ) → elem id xs ≡ true → entry_of id (map entry xs) ≡ some (entry id)
entry_of-entry id [] h = cc
entry_of-entry id (x ∷ xs) h = elim (Bool-cases (x == id)) [
  | inl t ↦ let same : x ≡ id = ground arith in rw (t, same) refl
  | inr t ↦ rw t (entry_of-entry id xs (rw t at h))
]

occurrences-le : (id : ℕ) (ids : List ℕ) → occurrences id ids ≤ length ids
occurrences-le id [] = omega arith
occurrences-le id (x ∷ xs) = ground (arith, occurrences-le id xs)

finalize-slots :
    (m : TraceMap) (id : ℕ)
    → m.entries ≡ none
    → elem id m.allocated_slots ≡ true
    → finalize m
      ≡ some
          (record m { entries = some (map entry (sort m.allocated_slots)); allocated_slots = [] })
unfolding finalize
finalize-slots m id empty h = by_slots m.allocated_slots h
  where
    by_slots :
        (ss : List ℕ)
        → elem id ss ≡ true
        → (elim ss [
          | [] ↦ some m
          | slot ∷ slots ↦ elim m.entries [
            | some entries ↦ none
            | none ↦ some (record m {
              entries = some (map entry (sort (slot ∷ slots)));
              allocated_slots = [];
            })
          ]
        ])
          ≡ some (record m { entries = some (map entry (sort ss)); allocated_slots = [] })
    by_slots [] p = cc
    by_slots (s ∷ ss) p = rw empty refl

alloc_slots-keeps :
    (id : ℕ) (slots : List ℕ) (m : TraceMap)
    → (elem id (alloc_slots slots m).allocated_slots ≡ (elem id slots || elem id m.allocated_slots))
      × ((alloc_slots slots m).entries ≡ m.entries)
      × ((alloc_slots slots m).total_hits ≡ m.total_hits)
alloc_slots-keeps id [] m = (refl, refl, refl)
alloc_slots-keeps id (x ∷ xs) m =
    let (a, b, c) = alloc_slot-keeps id x m in
    let (a', b', c') = alloc_slots-keeps id xs (alloc_slot x m) in
    (a' ∙ rw a (swap (x == id) (elem id xs) (elem id m.allocated_slots)), b' ∙ b, c' ∙ c)
  where
    swap : (p q r : Bool) → (q || (p || r)) ≡ ((p || q) || r)
    swap p q r = ground arith

All-map :
    {A : Type 0} {Q R : A → Type 0} (xs : List A) → ((x : A) → Q x → R x) → All Q xs → All R xs
All-map [] f h = tt
All-map (x ∷ xs) f h = (f x h.0, All-map xs f h.1)

-- What the agent does from the slots to the hits.
abbrev pub traced : Bool → List ℕ → List ℕ → Option TraceMap
traced is_child slots ids = finalize (alloc_slots slots new) >>= λ m. report_hits is_child ids m

-- The entry of an id that the hits leave, in a child and in its parent.
abbrev pub hits_of : Bool → ℕ → List ℕ → TraceEntry
hits_of true id ids = record { value = id; hits = occurrences id ids; order = first_hit id 1 ids }
hits_of false id ids = entry id

module _ (slots ids : List ℕ) (id : ℕ) (slot : elem id slots ≡ true)
    (all : All (λ x. elem x slots ≡ true) ids) (small : length ids < 2 ^ 64) where
  slots_map : TraceMap
  slots_map = alloc_slots slots new

  finalized : TraceMap
  unfolding slots_map
  finalized = record slots_map {
    entries = some (map entry (sort slots_map.allocated_slots));
    allocated_slots = [];
  }

  listed : (x : ℕ) → elem x slots ≡ true → elem x (sort slots_map.allocated_slots) ≡ true
  unfolding slots_map
  listed x q =
      let (a, empty, total) = alloc_slots-keeps x slots new in
      elem-sort x slots_map.allocated_slots ∙ a ∙ rw q refl

  finalize-finalized : finalize slots_map ≡ some finalized
  unfolding finalized slots_map
  finalize-finalized =
      let (a, empty, total) = alloc_slots-keeps id slots new in
      finalize-slots slots_map id empty (a ∙ rw slot refl)

  in_order : Ascending (values (map entry (sort slots_map.allocated_slots)))
  unfolding slots_map
  in_order =
      subst Ascending (sym (values-entry (sort slots_map.allocated_slots)))
        (sort-Ascending slots_map.allocated_slots (alloc_slots-Distinct slots new tt))

  slot_entry :
      (x : ℕ)
      → elem x slots ≡ true
      → entry_of x (map entry (sort slots_map.allocated_slots)) ≡ some (entry x)
  slot_entry x q = entry_of-entry x (sort slots_map.allocated_slots) (listed x q)

  reported :
      (m : TraceMap) × ((entries : List TraceEntry) × (report_hits true ids finalized ≡ some m)
        × (m.entries ≡ some entries)
        × (entry_of id entries ≡ some (hits_of true id ids)))
  unfolding finalized slots_map
  reported =
      let (a, empty, total) = alloc_slots-keeps id slots new in
      let few : occurrences id ids ≤ length ids = occurrences-le id ids in
      let none_before : 0 + occurrences id ids ≡ occurrences id ids = omega arith in
      let (m', (entries, ran, kept, at_id)) =
        report_hits-recorded ids finalized (map entry (sort slots_map.allocated_slots)) id
          (entry id) refl in_order (All-map ids (λ x q. (entry x, slot_entry x q)) all)
          (slot_entry id slot) (omega (arith, few, small)) (omega (arith, total, small)) in
      (m', (entries, ran, kept, at_id ∙ rw (total, none_before) refl))

  -- With slots for `slots`, less than 2 ^ 64 hits, each of an id with a slot, are all recorded in a child: the entry of each
  -- slot holds the number of its hits, and the number of the first of them among all hits, counted from 1. In the
  -- parent no hit is recorded: the entry of each slot stays at no hits and no order.
  pub traced-recorded :
      (is_child : Bool)
      → (m : TraceMap) × ((entries : List TraceEntry) × (traced is_child slots ids ≡ some m)
          × (m.entries ≡ some entries)
          × (entry_of id entries ≡ some (hits_of is_child id ids)))
  unfolding slots_map finalized
  traced-recorded true =
      let (m, (entries, ran, kept, at_id)) = reported in
      (m, (entries, rw finalize-finalized ran, kept, at_id))
  traced-recorded false = (
    finalized,
    (
      map entry (sort slots_map.allocated_slots),
      rw finalize-finalized (report_hits-parent ids finalized),
      refl,
      slot_entry id slot,
    ),
  )
