-- ===== src/Scheduling/Dominators.antt =====
-- scheduler/src/fuzzer/worker_impl/scheduling.rs: the entries that dominate an edge are favoured.
use fuzztruction_net.Base.{
  ℕ, ◌≡◌, ◌≤◌, refl, ◌∙◌, true, false, some, List, [], ◌∷◌, ltb, ◌==◌, if◌then◌else◌, arith, All,
  Bool-cases, Option-cases, inl, inr,
}
use fuzztruction_net.IntegerSet.{elem}
use fuzztruction_net.Bitmap.{edges}
use fuzztruction_net.Queue.{favoured_decrement}
use fuzztruction_net.Queue.Entry.{QueueEntry}
use fuzztruction_net.Scheduling.{
  lookup, put, Stats, modify, bits, Recalculation, count_cached, challenge, dominate, edges_of,
  candidates,
}

module _ {V : Type 0} where
  pub lookup-put :
      (k j : ℕ) (v : V) (m : List (ℕ × V))
      → lookup j (put k v m) ≡ (if k == j then some v else lookup j m)
  unfolding lookup put
  lookup-put k j v [] = refl
  lookup-put k j v ((i, w) ∷ m) = ground (arith, lookup-put k j v m)

  pub All-put :
      (Q : ℕ × V → Type 0) (k : ℕ) (v : V) (m : List (ℕ × V))
      → Q (k, v)
      → All Q m
      → All Q (put k v m)
  unfolding put
  All-put Q k v [] q h = (q, tt)
  All-put Q k v ((i, w) ∷ m) q h = elim (Bool-cases (i == k)) [
    | inl e ↦ rw e (q, h.1)
    | inr e ↦ rw e (h.0, All-put Q k v m q h.1)
  ]

  pub All-lookup :
      (Q : ℕ × V → Type 0) (k : ℕ) (v : V) (m : List (ℕ × V))
      → All Q m
      → lookup k m ≡ some v
      → Q (k, v)
  unfolding lookup
  All-lookup Q k v [] h e = cc
  All-lookup Q k v ((i, w) ∷ m) h e = elim (Bool-cases (i == k)) [
    | inl t ↦ at_head (ground arith) (rw t at e)
    | inr t ↦ All-lookup Q k v m h.1 (rw t at e)
  ]
    where
      at_head : i ≡ k → some w ≡ some v → Q (k, v)
      at_head p q = let r : w ≡ v = cc in rw (← p, ← r) (h.0)

-- `P` is what all entries have in common; `count` gives the bits of an entry by its id.
module _ (P : QueueEntry → Type 0) (count : ℕ → ℕ)
    (agree : (e : QueueEntry) → P e → bits e ≡ count e.id) where
  abbrev pub Cached : List (ℕ × ℕ) → Type 0
  Cached lut = All (λ (r : ℕ × ℕ). r.1 ≡ count (r.0)) lut

  count_cached-count :
      (e : QueueEntry) (lut : List (ℕ × ℕ))
      → P e
      → Cached lut
      → ((count_cached e lut).0 ≡ count e.id) × Cached (count_cached e lut).1
  unfolding count_cached
  count_cached-count e lut p h = elim (Option-cases (lookup e.id lut)) [
    | inl new ↦
        rw (new, count_cached)
          (agree e p, All-put (λ (r : ℕ × ℕ). r.1 ≡ count (r.0)) e.id (bits e) lut (agree e p) h)
    | inr (n, old) ↦
        rw (old, count_cached) (All-lookup (λ (r : ℕ × ℕ). r.1 ≡ count (r.0)) e.id n lut h old, h)
  ]

  -- A dominator covers its edge.
  abbrev pub Dominates : ℕ → QueueEntry → Type 0
  Dominates edge d = P d × (elem edge (edges d.covered_edges) ≡ true)

  abbrev pub Dominated : List (ℕ × QueueEntry) → Type 0
  Dominated m = All (λ (r : ℕ × QueueEntry). Dominates (r.0) (r.1)) m

  abbrev pub Inv : Recalculation → Type 0
  Inv s = Dominated s.edge_dominator × Cached s.bytes_set_lut

  -- An edge's dominator has at least so many bits.
  abbrev pub AtLeast : ℕ → ℕ → Recalculation → Type 0
  AtLeast n edge s = (d : QueueEntry) × (lookup edge s.edge_dominator ≡ some d) × (n ≤ count d.id)

  -- Dominators are replaced by larger ones only.
  abbrev pub Grows : Recalculation → Recalculation → Type 0
  Grows s t = (n edge : ℕ) → AtLeast n edge s → AtLeast n edge t

  abbrev Done : QueueEntry → ℕ → Recalculation → Recalculation → Type 0
  Done c edge s t = Inv t × AtLeast (count c.id) edge t × Grows s t

  module _ (c : QueueEntry) (edge : ℕ) (covers : Dominates edge c) where
    -- With the candidate as the dominator, if a dominator before it has no more bits.
    replaced :
        (s : Recalculation) (lut : List (ℕ × ℕ)) (stats : Stats)
        → Inv s
        → Cached lut
        → ((d : QueueEntry) → lookup edge s.edge_dominator ≡ some d → count d.id ≤ count c.id)
        → Done c edge s (record {
          edge_dominator = put edge c s.edge_dominator;
          bytes_set_lut = lut;
          stats = stats;
        })
    replaced s lut stats h k smaller = (
      (
        All-put (λ (r : ℕ × QueueEntry). Dominates (r.0) (r.1)) edge c s.edge_dominator covers h.0,
        k,
      ),
      (c, lookup-put edge edge c s.edge_dominator ∙ same_key edge, omega arith),
      grows,
    )
      where
        same_key : (j : ℕ) → (if j == j then some c else lookup j s.edge_dominator) ≡ some c
        same_key j = ground arith

        grows :
            (n j : ℕ)
            → AtLeast n j s
            → AtLeast n j (record {
              edge_dominator = put edge c s.edge_dominator;
              bytes_set_lut = lut;
              stats = stats;
            })
        grows n j (d, e, l) = elim (Bool-cases (edge == j)) [
          | inl t ↦
              let same : edge ≡ j = ground arith in
              (
                c,
                lookup-put edge j c s.edge_dominator ∙ (rw t refl),
                omega (arith, smaller d (rw same e)),
              )
          | inr t ↦ (d, lookup-put edge j c s.edge_dominator ∙ (rw t e), l)
        ]

    challenge-Done :
        (current : QueueEntry) (s : Recalculation)
        → Inv s
        → lookup edge s.edge_dominator ≡ some current
        → Done c edge s (challenge c edge current s)
    unfolding challenge
    challenge-Done current s h e =
        let p : P current =
          (All-lookup (λ (r : ℕ × QueueEntry). Dominates (r.0) (r.1)) edge current s.edge_dominator
            h.0 e).0 in
        let first = count_cached current s.bytes_set_lut in
        let second = count_cached c (first.1) in
        let (n, k) = count_cached-count current s.bytes_set_lut p h.1 in
        let (n', k') = count_cached-count c (first.1) covers.0 k in
        elim (Bool-cases (ltb (first.0) (second.0))) [
          | inl less ↦
              rw (less, challenge)
                (replaced s (second.1) (modify current.id favoured_decrement s.stats) h k'
                  (λ d q. small d q less n n'))
          | inr more ↦ rw (more, challenge) ((h.0, k'), (current, e, large more n n'), λ m j a. a)
        ]
      where
        small :
            {a b : ℕ} (d : QueueEntry)
            → lookup edge s.edge_dominator ≡ some d
            → ltb a b ≡ true
            → a ≡ count current.id
            → b ≡ count c.id
            → count d.id ≤ count c.id
        small {a} {b} d q less n n' =
            let same : d ≡ current = cc in
            let l : count current.id ≤ count c.id = ground arith in rw same l

        large :
            {a b : ℕ}
            → ltb a b ≡ false
            → a ≡ count current.id
            → b ≡ count c.id
            → count c.id ≤ count current.id
        large more n n' = ground arith

    dominate-Done : (s : Recalculation) → Inv s → Done c edge s (dominate c edge s)
    unfolding dominate
    dominate-Done s h = elim (Option-cases (lookup edge s.edge_dominator)) [
      | inl new ↦ rw (new, dominate) (replaced s s.bytes_set_lut s.stats h h.1 (λ d q. cc))
      | inr (current, old) ↦ rw (old, dominate) (challenge-Done current s h old)
    ]

  edges_of-Done :
      (c : QueueEntry) (es : List ℕ) (s : Recalculation)
      → ((e : ℕ) → elem e es ≡ true → Dominates e c)
      → Inv s
      → Inv (edges_of c es s)
        × ((e : ℕ) → elem e es ≡ true → AtLeast (count c.id) e (edges_of c es s))
        × Grows s (edges_of c es s)
  unfolding edges_of
  edges_of-Done c [] s covers h = (h, (λ e p. cc), λ n j a. a)
  edges_of-Done c (e ∷ es) s covers h =
      let (h1, first, grows) = dominate-Done c e (covers e (ground arith)) s h in
      let (h2, rest, grows') =
        edges_of-Done c es (dominate c e s) (λ j p. covers j (ground arith)) h1 in
      (
        h2,
        (λ j p. elim (Bool-cases (e == j)) [
          | inl t ↦ let same : e ≡ j = ground arith in grows' (count c.id) j (rw (← same) first)
          | inr t ↦ rest j (rw t at p)
        ]),
        λ n j a. grows' n j (grows n j a),
      )

  -- All edges that the entry covers have a dominator with at least as many bits.
  abbrev pub Ruled : Recalculation → QueueEntry → Type 0
  Ruled s c = (e : ℕ) → elem e (edges c.covered_edges) ≡ true → AtLeast (count c.id) e s

  pub candidates-Done :
      (cs : List QueueEntry) (s : Recalculation)
      → All P cs
      → Inv s
      → Inv (candidates cs s) × All (Ruled (candidates cs s)) cs × Grows s (candidates cs s)
  unfolding candidates
  candidates-Done [] s p h = (h, tt, λ n j a. a)
  candidates-Done (c ∷ cs) s p h =
      let (h1, first, grows) = edges_of-Done c (edges c.covered_edges) s (λ e q. (p.0, q)) h in
      let (h2, rest, grows') = candidates-Done cs (edges_of c (edges c.covered_edges) s) p.1 h1 in
      (h2, ((λ e q. grows' (count c.id) e (first e q)), rest), λ n j a. grows' n j (grows n j a))
