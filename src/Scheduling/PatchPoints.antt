-- ===== src/Scheduling/PatchPoints.antt =====
-- scheduler/src/fuzzer/worker_impl/scheduling.rs: the entries that mutate a patch point.
use fuzztruction_net.Base.{
  ℕ, ◌≡◌, refl, ◌∙◌, Bool, true, ◌||◌, Option, none, some, List, [], ◌∷◌, ◌++◌, ◌==◌, arith, All,
  Bool-cases, inl, inr,
}
use fuzztruction_net.IntegerSet.{elem}
use fuzztruction_net.Queue.Entry.{QueueEntry}
use fuzztruction_net.Scheduling.{
  lookup, put, Entries, has_id, add_entry, add_sites, add_mutations, pp_to_entries,
}
use fuzztruction_net.Scheduling.Dominators.{lookup-put, All-put, All-lookup}

-- The entries of a set.
abbrev pub members : Entries → List QueueEntry
members (first, rest) = first ∷ rest

All-append :
    (Q : QueueEntry → Type 0) (es : List QueueEntry) (e : QueueEntry)
    → All Q es
    → Q e
    → All Q (es ++ e ∷ [])
All-append Q [] e h q = (q, tt)
All-append Q (x ∷ es) e h q = (h.0, All-append Q es e h.1 q)

add_entry-All :
    (Q : QueueEntry → Type 0) (e : QueueEntry) (o : Option Entries)
    → Q e
    → ((s : Entries) → o ≡ some s → All Q (members s))
    → All Q (members (add_entry e o))
unfolding add_entry
add_entry-All Q e none q h = (q, tt)
add_entry-All Q e (some (first, rest)) q h =
    let (head, tail) = h (first, rest) refl in
    elim (Bool-cases (has_id e.id (first ∷ rest))) [
      | inl t ↦ rw (t, add_entry) (head, tail)
      | inr t ↦ rw (t, add_entry) (head, All-append Q rest e tail q)
    ]

has_id-append :
    (id : ℕ) (es : List QueueEntry) (e : QueueEntry)
    → has_id id (es ++ e ∷ []) ≡ (has_id id es || (e.id == id))
unfolding has_id
has_id-append id [] e = ground arith
has_id-append id (x ∷ es) e = ground (arith, has_id-append id es e)

add_entry-has_id :
    (e : QueueEntry) (o : Option Entries) → has_id e.id (members (add_entry e o)) ≡ true
unfolding add_entry has_id
add_entry-has_id e none = ground arith
add_entry-has_id e (some (first, rest)) = elim (Bool-cases (has_id e.id (first ∷ rest))) [
  | inl t ↦ rw (t, add_entry) t
  | inr t ↦
      rw (t, add_entry) (has_id-append e.id (first ∷ rest) e ∙ found (has_id e.id (first ∷ rest)))
]
  where
    found : (b : Bool) → (b || (e.id == e.id)) ≡ true
    found b = ground arith

add_entry-keeps :
    (e : QueueEntry) (s : Entries) (id : ℕ)
    → has_id id (members s) ≡ true
    → has_id id (members (add_entry e (some s))) ≡ true
unfolding add_entry has_id
add_entry-keeps e (first, rest) id h = elim (Bool-cases (has_id e.id (first ∷ rest))) [
  | inl t ↦ rw (t, add_entry) h
  | inr t ↦ rw (t, add_entry) (has_id-append id (first ∷ rest) e ∙ rw h refl)
]

-- `P` is what all entries have in common.
module _ (P : QueueEntry → Type 0) where
  abbrev pub Mutates : ℕ → QueueEntry → Type 0
  Mutates pp d = P d × ((ids : List ℕ) × (d.mutations ≡ some ids) × (elem pp ids ≡ true))

  abbrev pub Site : ℕ × Entries → Type 0
  Site (pp, s) = All (Mutates pp) (members s)

  abbrev pub Has : ℕ → ℕ → List (ℕ × Entries) → Type 0
  Has id pp m = (s : Entries) × (lookup pp m ≡ some s) × (has_id id (members s) ≡ true)

  abbrev pub Keeps : List (ℕ × Entries) → List (ℕ × Entries) → Type 0
  Keeps m m' = (id pp : ℕ) → Has id pp m → Has id pp m'

  abbrev add_site : QueueEntry → ℕ → List (ℕ × Entries) → List (ℕ × Entries)
  add_site e pp m = put pp (add_entry e (lookup pp m)) m

  add_site-Has : (e : QueueEntry) (pp : ℕ) (m : List (ℕ × Entries)) → Has e.id pp (add_site e pp m)
  add_site-Has e pp m = (
    add_entry e (lookup pp m),
    lookup-put pp pp (add_entry e (lookup pp m)) m ∙ ground arith,
    add_entry-has_id e (lookup pp m),
  )

  add_site-Keeps : (e : QueueEntry) (pp : ℕ) (m : List (ℕ × Entries)) → Keeps m (add_site e pp m)
  add_site-Keeps e pp m id j (s, q, h) = elim (Bool-cases (pp == j)) [
    | inl t ↦
        let same : j ≡ pp = ground arith in
        let at_pp : lookup pp m ≡ some s = rw (← same) q in
        (
          add_entry e (lookup pp m),
          lookup-put pp j (add_entry e (lookup pp m)) m ∙ (rw t refl),
          rw at_pp (add_entry-keeps e s id h),
        )
    | inr t ↦ (s, lookup-put pp j (add_entry e (lookup pp m)) m ∙ (rw t q), h)
  ]

  add_site-Site :
      (e : QueueEntry) (pp : ℕ) (m : List (ℕ × Entries))
      → Mutates pp e
      → All Site m
      → All Site (add_site e pp m)
  add_site-Site e pp m q h =
      All-put Site pp (add_entry e (lookup pp m)) m
        (add_entry-All (Mutates pp) e (lookup pp m) q (λ s l. All-lookup Site pp s m h l)) h

  add_sites-Done :
      (e : QueueEntry) (pps : List ℕ) (m : List (ℕ × Entries))
      → ((pp : ℕ) → elem pp pps ≡ true → Mutates pp e)
      → All Site m
      → All Site (add_sites e pps m)
        × ((pp : ℕ) → elem pp pps ≡ true → Has e.id pp (add_sites e pps m))
        × Keeps m (add_sites e pps m)
  unfolding add_sites
  add_sites-Done e [] m q h = (h, (λ pp p. cc), λ id j a. a)
  add_sites-Done e (pp ∷ pps) m q h =
      let (sites, rest, keeps) =
        add_sites-Done e pps (add_site e pp m) (λ j p. q j (ground arith))
          (add_site-Site e pp m (q pp (ground arith)) h) in
      (
        sites,
        (λ j p. elim (Bool-cases (pp == j)) [
          | inl t ↦
              let same : pp ≡ j = ground arith in rw (← same) (keeps e.id pp (add_site-Has e pp m))
          | inr t ↦ rest j (rw t at p)
        ]),
        λ id j a. keeps id j (add_site-Keeps e pp m id j a),
      )

  abbrev pub Kept : List (ℕ × Entries) → QueueEntry → Type 0
  Kept m c = (ids : List ℕ) → c.mutations ≡ some ids → (pp : ℕ) → elem pp ids ≡ true → Has c.id pp m

  add_mutations-Done :
      (c : QueueEntry) (saved : Option (List ℕ)) (m : List (ℕ × Entries))
      → P c
      → c.mutations ≡ saved
      → All Site m
      → All Site (add_mutations c saved m)
        × ((ids : List ℕ)
            → saved ≡ some ids
            → (pp : ℕ) → elem pp ids ≡ true
            → Has c.id pp (add_mutations c saved m))
        × Keeps m (add_mutations c saved m)
  unfolding add_mutations
  add_mutations-Done c none m p e h = (h, (λ ids q. cc), λ id j a. a)
  add_mutations-Done c (some ids) m p e h =
      let (sites, first, keeps) = add_sites-Done c ids m (λ pp q. (p, (ids, e, q))) h in
      (sites, (λ ids' q pp l. let same : ids' ≡ ids = cc in first pp (rw same at l)), keeps)

  pub pp_to_entries-Done :
      (cs : List QueueEntry) (m : List (ℕ × Entries))
      → All P cs
      → All Site m
      → All Site (pp_to_entries cs m)
        × All (Kept (pp_to_entries cs m)) cs
        × Keeps m (pp_to_entries cs m)
  unfolding pp_to_entries
  pp_to_entries-Done [] m p h = (h, tt, λ id j a. a)
  pp_to_entries-Done (c ∷ cs) m p h =
      let (sites, first, keeps) = add_mutations-Done c c.mutations m p.0 refl h in
      let (sites', rest, keeps') =
        pp_to_entries-Done cs (add_mutations c c.mutations m) p.1 sites in
      (
        sites',
        ((λ ids q pp l. keeps' c.id pp (first ids q pp l)), rest),
        λ id j a. keeps' id j (keeps id j a),
      )
