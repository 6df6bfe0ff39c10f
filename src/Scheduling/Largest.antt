-- ===== src/Scheduling/Largest.antt =====
-- scheduler/src/fuzzer/worker_impl/scheduling.rs: the largest entry that mutates a patch point is favoured.
use fuzztruction_net.Base.{
  ℕ, ◌≡◌, ◌≤◌, true, Option, some, List, [], ◌∷◌, ◌==◌, leb, if◌then◌else◌, arith, All, Bool-cases,
  inl, inr, get_elem?,
}
use fuzztruction_net.IntegerSet.{elem}
use fuzztruction_net.Queue.{is_favoured, mark_favoured_once}
use fuzztruction_net.Queue.Entry.{QueueEntry}
use fuzztruction_net.Queue.Order.{is_favoured-mark_favoured_once}
use fuzztruction_net.Scheduling.{
  lookup, Stats, modify, bits, Entries, has_id, pp_to_entries, max_by_bits, mark_largest,
  recalculate_favoured_unique_patch_point_ids,
}
use fuzztruction_net.Scheduling.Dominators.{All-lookup}
use fuzztruction_net.Scheduling.Favoured.{All-index, All-get, Favoured, mark-Favoured}
use fuzztruction_net.Scheduling.PatchPoints.{Mutates, Site, Kept, pp_to_entries-Done}

-- The largest of the entries is one of them.
max_by_bits-All :
    (Q : QueueEntry → Type 0) (best : QueueEntry) (es : List QueueEntry)
    → Q best
    → All Q es
    → Q (max_by_bits best es)
unfolding max_by_bits
max_by_bits-All Q best [] q h = q
max_by_bits-All Q best (e ∷ es) q h = elim (Bool-cases (leb (bits best) (bits e))) [
  | inl t ↦ rw t (max_by_bits-All Q e es h.0 h.1)
  | inr t ↦ rw t (max_by_bits-All Q best es q h.1)
]

larger_of_two :
    (best e : QueueEntry)
    → (bits best ≤ bits (if leb (bits best) (bits e) then e else best))
      × (bits e ≤ bits (if leb (bits best) (bits e) then e else best))
larger_of_two best e = elim (Bool-cases (leb (bits best) (bits e))) [
  | inl t ↦ rw t (ground arith, omega arith)
  | inr t ↦ rw t (omega arith, ground arith)
]

max_by_bits-largest :
    (best : QueueEntry) (es : List QueueEntry)
    → (bits best ≤ bits (max_by_bits best es)) × All (λ e. bits e ≤ bits (max_by_bits best es)) es
unfolding max_by_bits
max_by_bits-largest best [] = (omega arith, tt)
max_by_bits-largest best (e ∷ es) =
    let (l, h) = max_by_bits-largest (if leb (bits best) (bits e) then e else best) es in
    let (a, b) = larger_of_two best e in (omega (arith, l, a), (omega (arith, l, b), h))

mark_largest-still :
    (m : List (ℕ × Entries)) (stats : Stats) (id : ℕ)
    → Favoured stats id
    → Favoured (mark_largest m stats) id
unfolding mark_largest
mark_largest-still [] stats id h = h
mark_largest-still ((k, (e, es)) ∷ m) stats id h =
    mark_largest-still m (modify (max_by_bits e es).id mark_favoured_once stats) id
      (mark-Favoured stats (max_by_bits e es).id id h)

modify-Favoured : (stats : Stats) (j : ℕ) → Favoured (modify j mark_favoured_once stats) j
modify-Favoured stats j =
    let t : (j == j) ≡ true = ground arith in rw t (is_favoured-mark_favoured_once (stats j))

mark_largest-Favoured :
    (m : List (ℕ × Entries)) (stats : Stats) (pp : ℕ) (first : QueueEntry) (rest : List QueueEntry)
    → lookup pp m ≡ some (first, rest)
    → Favoured (mark_largest m stats) (max_by_bits first rest).id
unfolding lookup mark_largest
mark_largest-Favoured [] stats pp first rest e = cc
mark_largest-Favoured ((k, (x, xs)) ∷ m) stats pp first rest e = elim (Bool-cases (k == pp)) [
  | inl t ↦ at_head (rw t at e)
  | inr t ↦ mark_largest-Favoured m after pp first rest (rw t at e)
]
  where
    after : Stats
    after = modify (max_by_bits x xs).id mark_favoured_once stats

    at_head :
        ◌≡◌ {A = Option Entries} (some (x, xs)) (some (first, rest))
        → Favoured (mark_largest m after) (max_by_bits first rest).id
    at_head q =
        let same : x ≡ first = cc in
        let same_rest : xs ≡ rest = cc in
        rw (← same, ← same_rest)
          (mark_largest-still m after (max_by_bits x xs).id
            (modify-Favoured stats (max_by_bits x xs).id))

module _ {A : Type 0} {Q R : A → Type 0} where
  All-map : (xs : List A) → ((x : A) → Q x → R x) → All Q xs → All R xs
  All-map [] f h = tt
  All-map (x ∷ xs) f h = (f x h.0, All-map xs f h.1)

-- No entry with this id is larger.
has_id-bound :
    (count : ℕ → ℕ) (id n : ℕ) (es : List QueueEntry)
    → All (λ e. bits e ≡ count e.id) es
    → All (λ e. bits e ≤ n) es
    → has_id id es ≡ true
    → count id ≤ n
unfolding has_id
has_id-bound count id n [] agree h e = cc
has_id-bound count id n (x ∷ es) agree h e = elim (Bool-cases (x.id == id)) [
  | inl t ↦
      let same : x.id ≡ id = ground arith in
      let counted : bits x ≡ count id = rw (← same) agree.0 in omega (arith, counted, h.0)
  | inr t ↦ has_id-bound count id n es agree.1 h.1 (rw t at e)
]

pub Largest : List QueueEntry → Stats → QueueEntry → ℕ → Type 0
Largest entries stats c pp =
    (d : QueueEntry) × ((j : ℕ) × (get_elem? entries j ≡ some d))
    × ((ids : List ℕ) × (d.mutations ≡ some ids) × (elem pp ids ≡ true))
    × (bits c ≤ bits d)
    × (is_favoured (stats d.id) ≡ true)

-- Where the id of an entry determines how many edges it covers: after the recalculation by patch points, for each
-- entry and each patch point that it mutates there is a favoured entry that mutates it too, and which has at
-- least as many bits set.
pub recalculate-Largest :
    (count : ℕ → ℕ) (entries : List QueueEntry) (stats : Stats)
    → All (λ e. bits e ≡ count e.id) entries
    → (i : ℕ) (c : QueueEntry) (ids : List ℕ) (pp : ℕ) → get_elem? entries i ≡ some c
    → c.mutations ≡ some ids
    → elem pp ids ≡ true
    → Largest entries (recalculate_favoured_unique_patch_point_ids entries stats) c pp
unfolding Largest recalculate_favoured_unique_patch_point_ids
recalculate-Largest count entries stats agree i c ids pp at_i saved mutated =
    let m : List (ℕ × Entries) = pp_to_entries entries [] in
    let all : All Listed entries =
      All-index Listed entries (λ j x q. (All-get Counted entries j x agree q, (j, q))) in
    let (sites, kept, keeps) = pp_to_entries-Done Listed entries [] all tt in
    let ((first, rest), found, has) =
      All-get (Kept Listed m) entries i c kept at_i ids saved pp mutated in
    let site : All (Mutates Listed pp) (first ∷ rest) =
      All-lookup (Site Listed) pp (first, rest) m sites found in
    let ((equal, listed), mutates) = max_by_bits-All (Mutates Listed pp) first rest site.0 site.1 in
    let counted : bits c ≡ count c.id = All-get Counted entries i c agree at_i in
    let bound : count c.id ≤ bits (max_by_bits first rest) =
      has_id-bound count c.id (bits (max_by_bits first rest)) (first ∷ rest)
        (All-map (first ∷ rest) (λ e q. q.0.0) site) (max_by_bits-largest first rest) has in
    (
      max_by_bits first rest,
      listed,
      mutates,
      rw counted bound,
      mark_largest-Favoured m stats pp first rest found,
    )
  where
    Counted : QueueEntry → Type 0
    Counted e = bits e ≡ count e.id

    Listed : QueueEntry → Type 0
    Listed e = (bits e ≡ count e.id) × ((j : ℕ) × (get_elem? entries j ≡ some e))
