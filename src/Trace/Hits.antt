-- ===== src/Trace/Hits.antt =====
-- scheduler/src/trace.rs: what a trace records of the statistics it is made from.
use fuzztruction_net.Base.{
  ℕ, ◌≡◌, refl, ap, ◌∙◌, arith, Bool, true, false, Option, none, some, List, [], ◌∷◌, map, ltb,
  ◌==◌, if◌then◌else◌, Bool-cases, Option-cases, inl, inr,
}
use fuzztruction_net.IntegerSet.{elem}
use fuzztruction_net.Trace.{
  TracePointStat, Trace, trace_exec_cnt_limit, map_insert, map_get, record_stat, record_stats,
  from_trace_point_stats, covered, is_covered, exec_order_of,
}

-- The count and the index of the last statistics of the site that have an index and not too many hits.
abbrev pub later : Option (ℕ × ℕ) → Option (ℕ × ℕ) → Option (ℕ × ℕ)
later old none = old
later old (some new) = some new

abbrev pub counted : ℕ → TracePointStat → Option (ℕ × ℕ)
counted id e =
    if e.patch_point_id == id
    then (if ltb trace_exec_cnt_limit e.cnt
        then none
        else elim e.execution_index [ none ↦ none | some idx ↦ some (e.cnt, idx) ])
    else none

abbrev pub last_counted : ℕ → List TracePointStat → Option (ℕ × ℕ)
last_counted id [] = none
last_counted id (e ∷ es) = later (counted id e) (last_counted id es)

abbrev pub first_of : Option (ℕ × ℕ) → Option ℕ
first_of none = none
first_of (some p) = some (p.0)

abbrev pub second_of : Option (ℕ × ℕ) → Option ℕ
second_of none = none
second_of (some p) = some (p.1)

abbrev or_else : Option ℕ → Option ℕ → Option ℕ
or_else old none = old
or_else old (some new) = some new

map_get-map_insert :
    (k id v : ℕ) (m : List (ℕ × ℕ))
    → map_get id (map_insert k v m) ≡ (if k == id then some v else map_get id m)
unfolding map_get map_insert
map_get-map_insert k id v [] = refl
map_get-map_insert k id v ((k', w) ∷ m) = elim (Bool-cases (k' == k)) [
  | inl y ↦ rw y (ground arith)
  | inr n ↦ rw n (ground (arith, map_get-map_insert k id v m))
]

stat-counted :
    (id : ℕ) (e : TracePointStat) (t : Trace)
    → (map_get id (record_stat e t).exec_cnt
        ≡ or_else (map_get id t.exec_cnt) (first_of (counted id e)))
      × (map_get id (record_stat e t).exec_order
          ≡ or_else (map_get id t.exec_order) (second_of (counted id e)))
unfolding record_stat
stat-counted id e t = elim (Bool-cases (ltb trace_exec_cnt_limit e.cnt)) [
  | inl y ↦ rw y (elim (Bool-cases (e.patch_point_id == id)) [
    | inl s ↦ rw s (refl, refl)
    | inr s ↦ rw s (refl, refl)
  ])
  | inr n ↦ elim (Option-cases e.execution_index) [
    | inl none_ ↦
        rw (n, none_)
          (elim (Bool-cases (e.patch_point_id == id)) [
            | inl s ↦ rw s (refl, refl)
            | inr s ↦ rw s (refl, refl)
          ])
    | inr (idx, some_) ↦
        let a = map_get-map_insert e.patch_point_id id e.cnt t.exec_cnt in
        let b = map_get-map_insert e.patch_point_id id idx t.exec_order in
        rw (n, some_)
          (rw (a, b)
            (elim (Bool-cases (e.patch_point_id == id)) [
              | inl s ↦ rw s (refl, refl)
              | inr s ↦ rw s (refl, refl)
            ]))
  ]
]

or_else-first :
    (old : Option ℕ) (new : Option (ℕ × ℕ)) (last : Option (ℕ × ℕ))
    → or_else (or_else old (first_of new)) (first_of last) ≡ or_else old (first_of (later new last))
or_else-first old new none = refl
or_else-first old new (some p) = refl

or_else-second :
    (old : Option ℕ) (new : Option (ℕ × ℕ)) (last : Option (ℕ × ℕ))
    → or_else (or_else old (second_of new)) (second_of last)
      ≡ or_else old (second_of (later new last))
or_else-second old new none = refl
or_else-second old new (some p) = refl

stats-last_counted :
    (id : ℕ) (es : List TracePointStat) (t : Trace)
    → (map_get id (record_stats es t).exec_cnt
        ≡ or_else (map_get id t.exec_cnt) (first_of (last_counted id es)))
      × (map_get id (record_stats es t).exec_order
          ≡ or_else (map_get id t.exec_order) (second_of (last_counted id es)))
unfolding record_stats
stats-last_counted id [] t = (refl, refl)
stats-last_counted id (e ∷ es) t =
    let (a, b) = stats-last_counted id es (record_stat e t) in
    let (c, d) = stat-counted id e t in
    (
      a
          ∙ ap (λ o. or_else o (first_of (last_counted id es))) c
          ∙ or_else-first (map_get id t.exec_cnt) (counted id e) (last_counted id es),
      b
          ∙ ap (λ o. or_else o (second_of (last_counted id es))) d
          ∙ or_else-second (map_get id t.exec_order) (counted id e) (last_counted id es),
    )

abbrev pub is_some : Option ℕ → Bool
is_some none = false
is_some (some x) = true

pub keys-map_get : (id : ℕ) (m : List (ℕ × ℕ)) → elem id (map (λ p. p.0) m) ≡ is_some (map_get id m)
unfolding map_get
keys-map_get id [] = refl
keys-map_get id ((k, v) ∷ m) = elim (Bool-cases (k == id)) [
  | inl y ↦ rw y refl
  | inr n ↦ rw n (keys-map_get id m)
]

or_else-none : (o : Option ℕ) → or_else none o ≡ o
or_else-none none = refl
or_else-none (some x) = refl

-- A trace has for each site the hits and the place in the order of execution of the last statistics of the site that
-- have an index and no more hits than the limit, and covers just the sites that have such statistics.
pub trace-last_counted :
    (msgs : List TracePointStat) (id : ℕ)
    → (map_get id (from_trace_point_stats msgs).exec_cnt ≡ first_of (last_counted id msgs))
      × (exec_order_of (from_trace_point_stats msgs) id ≡ second_of (last_counted id msgs))
      × (is_covered (from_trace_point_stats msgs) id ≡ is_some (first_of (last_counted id msgs)))
unfolding from_trace_point_stats exec_order_of is_covered covered
trace-last_counted msgs id =
    let (a, b) = stats-last_counted id msgs (record { exec_cnt = []; exec_order = [] }) in
    let a' = a ∙ or_else-none (first_of (last_counted id msgs)) in
    (
      a',
      b ∙ or_else-none (second_of (last_counted id msgs)),
      keys-map_get id (record_stats msgs (record { exec_cnt = []; exec_order = [] })).exec_cnt
          ∙ ap is_some a',
    )
