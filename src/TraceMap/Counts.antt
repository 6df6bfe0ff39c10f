-- ===== src/TraceMap/Counts.antt =====
-- generator/agent/src/tracing.rs: what the map holds after hits were reported.
use fuzztruction_net.Base.{
  ℕ, suc, ◌+◌, ◌%◌, ◌^◌, ◌≡◌, ◌<◌, refl, ◌∙◌, ap, true, false, Option, none, some, List, [], ◌∷◌,
  if◌then◌else◌, ◌==◌, ◌>>=◌, length, Bool, get_elem?, set, subst, sym, arith, All, Bool-cases, inl,
  inr,
}
use fuzztruction_net.TraceMap.{TraceEntry, TraceMap, alloc_slot, non_zero, hit, report_hit}
use fuzztruction_net.TraceMap.Search.{Ascending, values, binary_search-index}

-- The calls for all slots, and for all hits.
abbrev pub alloc_slots : List ℕ → TraceMap → TraceMap
alloc_slots [] self = self
alloc_slots (id ∷ ids) self = alloc_slots ids (alloc_slot id self)

abbrev pub report_hits : Bool → List ℕ → TraceMap → Option TraceMap
report_hits is_child [] self = some self
report_hits is_child (id ∷ ids) self =
    report_hit is_child id self >>= λ self'. report_hits is_child ids self'

abbrev pub entry_of : ℕ → List TraceEntry → Option TraceEntry
entry_of id [] = none
entry_of id (e ∷ es) = let rest = entry_of id es in if e.value == id then some e else rest

abbrev pub occurrences : ℕ → List ℕ → ℕ
occurrences id [] = 0
occurrences id (x ∷ xs) = let rest = occurrences id xs in if x == id then suc rest else rest

-- The number of the first hit, where the first of the list has the number `n`.
abbrev pub first_hit : ℕ → ℕ → List ℕ → Option ℕ
first_hit id n [] = none
first_hit id n (x ∷ xs) = let rest = first_hit id (suc n) xs in if x == id then some n else rest

abbrev pub or_else : Option ℕ → Option ℕ → Option ℕ
or_else none b = b
or_else (some a) b = some a

abbrev pub Slot : List TraceEntry → ℕ → Type 0
Slot entries id = (e : TraceEntry) × (entry_of id entries ≡ some e)

abbrev after_hit : ℕ → ℕ → ℕ → TraceEntry → TraceEntry
after_hit id total j e = if id == j then hit total e else e

All-map :
    {A : Type 0} {Q R : A → Type 0} (xs : List A) → ((x : A) → Q x → R x) → All Q xs → All R xs
All-map [] f h = tt
All-map (x ∷ xs) f h = (f x h.0, All-map xs f h.1)

-- What a hit of `id` does: the entries of the others stay.
abbrev Reported : ℕ → ℕ → List TraceEntry → List TraceEntry → Type 0
Reported id total entries entries' =
    (j : ℕ) (e : TraceEntry)
    → entry_of j entries ≡ some e
    → entry_of j entries' ≡ some (after_hit id total j e)

found-Reported :
    (id total : ℕ) (x : TraceEntry) (xs : List TraceEntry)
    → (x.value == id) ≡ true
    → Reported id total (x ∷ xs) (hit total x ∷ xs)
unfolding hit
found-Reported id total x xs t j e h = elim (Bool-cases (x.value == j)) [
  | inl u ↦
      let same : x ≡ e = first (rw u at h) in
      let here : (id == j) ≡ true = ground arith in rw (u, here, same) refl
  | inr u ↦ let other : (id == j) ≡ false = ground arith in rw (u, other) (rw u at h)
]
  where
    first : some x ≡ some e → x ≡ e
    first q = cc

later-Reported :
    (id total : ℕ) (x : TraceEntry) (xs ys : List TraceEntry)
    → (x.value == id) ≡ false
    → Reported id total xs ys
    → Reported id total (x ∷ xs) (x ∷ ys)
later-Reported id total x xs ys t r j e h = elim (Bool-cases (x.value == j)) [
  | inl u ↦
      let same : x ≡ e = first (rw u at h) in
      let other : (id == j) ≡ false = ground arith in rw (u, other, same) refl
  | inr u ↦ rw u (r j e (rw u at h))
]
  where
    first : some x ≡ some e → x ≡ e
    first q = cc

-- The hit of the entry that the binary search finds.
Hits : ℕ → ℕ → List TraceEntry → List TraceEntry → Type 0
Hits id total entries entries' =
    (i : ℕ) × (e : TraceEntry) × (get_elem? entries i ≡ some e)
    × (e.value ≡ id)
    × (set entries i (hit total e) ≡ entries')
    × (values entries' ≡ values entries)

hit-Reported :
    (id total : ℕ) (entries : List TraceEntry)
    → Slot entries id
    → (entries' : List TraceEntry) × Hits id total entries entries'
      × Reported id total entries entries'
unfolding hit Hits
hit-Reported id total [] (e, h) = cc
hit-Reported id total (x ∷ xs) (e, h) = elim (Bool-cases (x.value == id)) [
  | inl t ↦
      (hit total x ∷ xs, (0, x, refl, ground arith, refl, refl), found-Reported id total x xs t)
  | inr t ↦
      let (ys, (i, d, p, v, q, w), r) = hit-Reported id total xs (e, rw t at h) in
      (
        x ∷ ys,
        (suc i, d, p, v, ap (◌∷◌ x) q, ap (◌∷◌ x.value) w),
        later-Reported id total x xs ys t r,
      )
]

-- An entry after the hits of `ids`, of which the first has the number after `total`.
abbrev pub recorded : ℕ → ℕ → List ℕ → TraceEntry → TraceEntry
recorded id total ids e = record e {
  hits = e.hits + occurrences id ids;
  order = or_else e.order (first_hit id (suc total) ids);
}

next_number : (n k : ℕ) → n + suc k < 2 ^ 64 → (n + 1) % 2 ^ 64 ≡ suc n
next_number n k h = omega arith

hit-recorded :
    (id total : ℕ) (xs : List ℕ) (e : TraceEntry)
    → e.hits + suc (occurrences id xs) < 2 ^ 64
    → recorded id (suc total) xs (hit (suc total) e) ≡ record e {
      hits = e.hits + suc (occurrences id xs);
      order = or_else e.order (some (suc total));
    }
unfolding hit non_zero
hit-recorded id total xs e h =
    let n : (e.hits + 1) % 2 ^ 64 ≡ suc e.hits = next_number e.hits (occurrences id xs) h in
    let m : suc e.hits + occurrences id xs ≡ e.hits + suc (occurrences id xs) = omega arith in
    rw (n, m)
      (ap (λ o. record e { hits = e.hits + suc (occurrences id xs); order = o }) (kept e.order))
  where
    kept :
        (o : Option ℕ)
        → or_else
            (elim o [ none ↦ non_zero (suc total) | some n ↦ some n ])
            (first_hit id (suc (suc total)) xs)
          ≡ or_else o (some (suc total))
    kept none = let pos : (suc total == 0) ≡ false = ground arith in rw pos refl
    kept (some n) = refl

after_hit-recorded :
    (id x total : ℕ) (xs : List ℕ) (e : TraceEntry)
    → e.hits + occurrences id (x ∷ xs) < 2 ^ 64
    → recorded id (suc total) xs (after_hit x (suc total) id e) ≡ recorded id total (x ∷ xs) e
after_hit-recorded id x total xs e h = elim (Bool-cases (x == id)) [
  | inl t ↦ rw t (hit-recorded id total xs e (rw t at h))
  | inr t ↦ rw t refl
]

after_hit-bound :
    (id x total : ℕ) (xs : List ℕ) (e : TraceEntry)
    → e.hits + occurrences id (x ∷ xs) < 2 ^ 64
    → (after_hit x total id e).hits + occurrences id xs < 2 ^ 64
unfolding hit
after_hit-bound id x total xs e h = elim (Bool-cases (x == id)) [
  | inl t ↦
      let full : e.hits + suc (occurrences id xs) < 2 ^ 64 = rw t at h in
      let n : (e.hits + 1) % 2 ^ 64 ≡ suc e.hits = next_number e.hits (occurrences id xs) full in
      let l : suc e.hits + occurrences id xs < 2 ^ 64 = omega (arith, full) in rw (t, n) l
  | inr t ↦ rw t (rw t at h)
]

report_hit-hit :
    (x k : ℕ) (m : TraceMap) (entries es : List TraceEntry)
    → m.entries ≡ some entries
    → Ascending (values entries)
    → Hits x (suc m.total_hits) entries es
    → m.total_hits + suc k < 2 ^ 64
    → report_hit true x m ≡ some (record m { entries = some es; total_hits = suc m.total_hits })
unfolding report_hit Hits
report_hit-hit x k m entries es there sorted (i, e, at, v, q, w) c =
    let n : (m.total_hits + 1) % 2 ^ 64 ≡ suc m.total_hits = next_number m.total_hits k c in
    let found = binary_search-index x entries sorted i e at v in
    let ran : report_hit true x m
        ≡ some (record m {
          entries = some (set entries i (hit ((m.total_hits + 1) % 2 ^ 64) e));
          total_hits = (m.total_hits + 1) % 2 ^ 64;
        }) =
      rw (there, found, at) refl in
    ran
    ∙ ap (λ j. some (record m { entries = some (set entries i (hit j e)); total_hits = j })) n
    ∙ ap (λ l. some (record m { entries = some l; total_hits = suc m.total_hits })) q

-- A parent records nothing.
pub report_hits-parent : (ids : List ℕ) (m : TraceMap) → report_hits false ids m ≡ some m
unfolding report_hit
report_hits-parent [] m = refl
report_hits-parent (id ∷ ids) m = report_hits-parent ids m

pub report_hits-recorded :
    (ids : List ℕ) (m : TraceMap) (entries : List TraceEntry) (id : ℕ) (e : TraceEntry)
    → m.entries ≡ some entries
    → Ascending (values entries)
    → All (Slot entries) ids
    → entry_of id entries ≡ some e
    → e.hits + occurrences id ids < 2 ^ 64
    → m.total_hits + length ids < 2 ^ 64
    → (m' : TraceMap) × ((entries' : List TraceEntry) × (report_hits true ids m ≡ some m')
        × (m'.entries ≡ some entries')
        × (entry_of id entries' ≡ some (recorded id m.total_hits ids e)))
unfolding Hits
report_hits-recorded [] m entries id e there sorted slots h b c =
    (m, (entries, refl, there, h ∙ (ap some same)))
  where
    no_hits : e.hits + 0 ≡ e.hits
    no_hits = omega arith

    no_order : (o : Option ℕ) → or_else o none ≡ o
    no_order none = refl
    no_order (some n) = refl

    same : e ≡ record e { hits = e.hits + 0; order = or_else e.order none }
    same = rw (no_hits, no_order e.order) refl
report_hits-recorded (x ∷ xs) m entries id e there sorted (slot, slots) h b c =
    let (es, q, r) = hit-Reported x (suc m.total_hits) entries slot in
    let m1 : TraceMap = record m { entries = some es; total_hits = suc m.total_hits } in
    let (m', (entries', ran, kept, at_id)) =
      report_hits-recorded xs m1 es id (after_hit x (suc m.total_hits) id e) refl
        (subst Ascending (sym (q.5)) sorted)
        (All-map xs (λ j (s : Slot entries j). (after_hit x (suc m.total_hits) j s.0, r j s.0 s.1))
          slots)
        (r id e h) (after_hit-bound id x (suc m.total_hits) xs e b) (omega (arith, c)) in
    (
      m',
      (
        entries',
        rw (report_hit-hit x (length xs) m entries es there sorted q c) ran,
        kept,
        at_id ∙ ap some (after_hit-recorded id x m.total_hits xs e b),
      ),
    )
