-- ===== src/Scheduling/Favoured.antt =====
-- scheduler/src/fuzzer/worker_impl/scheduling.rs: which entries the recalculation favours.
use fuzztruction_net.Base.{
  ℕ, zero, suc, ◌≡◌, ◌≤◌, refl, true, some, List, [], ◌∷◌, ◌==◌, arith, All, Bool-cases, inl, inr,
  get_elem?,
}
use fuzztruction_net.IntegerSet.{elem}
use fuzztruction_net.Bitmap.{edges}
use fuzztruction_net.Queue.{QueueEntryStats, is_favoured, mark_favoured_once}
use fuzztruction_net.Queue.Entry.{QueueEntry}
use fuzztruction_net.Queue.Order.{is_favoured-mark_favoured_once}
use fuzztruction_net.Scheduling.{
  lookup, Stats, modify, bits, Recalculation, candidates, mark_all,
  recalculate_favoured_sink_dominator_edges,
}
use fuzztruction_net.Scheduling.Dominators.{All-lookup, Ruled, candidates-Done}

module _ {A : Type 0} (Q : A → Type 0) where
  pub All-index : (xs : List A) → ((i : ℕ) (x : A) → get_elem? xs i ≡ some x → Q x) → All Q xs
  All-index [] h = tt
  All-index (x ∷ xs) h = (h 0 x refl, All-index xs (λ i. h (suc i)))

  pub All-get : (xs : List A) (i : ℕ) (x : A) → All Q xs → get_elem? xs i ≡ some x → Q x
  All-get [] i x h e = cc
  All-get (y ∷ xs) zero x h e = let same : y ≡ x = cc in rw (← same) h.0
  All-get (y ∷ xs) (suc i) x h e = All-get xs i x h.1 e

pub favoured_still :
    (s : QueueEntryStats) → is_favoured s ≡ true → is_favoured (mark_favoured_once s) ≡ true
unfolding is_favoured mark_favoured_once
favoured_still s h = ground arith

abbrev pub Favoured : Stats → ℕ → Type 0
Favoured stats id = is_favoured (stats id) ≡ true

pub mark-Favoured :
    (stats : Stats) (id k : ℕ) → Favoured stats k → Favoured (modify id mark_favoured_once stats) k
mark-Favoured stats id k h = elim (Bool-cases (k == id)) [
  | inl t ↦ rw t (favoured_still (stats k) h)
  | inr t ↦ rw t h
]

mark_all-still :
    (m : List (ℕ × QueueEntry)) (stats : Stats) (id : ℕ)
    → Favoured stats id
    → Favoured (mark_all m stats) id
unfolding mark_all
mark_all-still [] stats id h = h
mark_all-still ((k, e) ∷ m) stats id h =
    mark_all-still m (modify e.id mark_favoured_once stats) id (mark-Favoured stats e.id id h)

mark_all-Favoured :
    (m : List (ℕ × QueueEntry)) (stats : Stats) (edge : ℕ) (d : QueueEntry)
    → lookup edge m ≡ some d
    → Favoured (mark_all m stats) d.id
unfolding lookup mark_all
mark_all-Favoured [] stats edge d e = cc
mark_all-Favoured ((k, x) ∷ m) stats edge d e = elim (Bool-cases (k == edge)) [
  | inl t ↦ at_head (rw t at e)
  | inr t ↦ mark_all-Favoured m (modify x.id mark_favoured_once stats) edge d (rw t at e)
]
  where
    marked : (j : ℕ) → Favoured (modify j mark_favoured_once stats) j
    marked j =
        let t : (j == j) ≡ true = ground arith in rw t (is_favoured-mark_favoured_once (stats j))

    at_head : some x ≡ some d → Favoured (mark_all m (modify x.id mark_favoured_once stats)) d.id
    at_head q =
        let same : x ≡ d = cc in
        rw (← same) (mark_all-still m (modify x.id mark_favoured_once stats) x.id (marked x.id))

-- The first theorem in words of indices: `c` is the entry `i`, and the dominator is an entry `j`.
pub Dominated : List QueueEntry → Stats → QueueEntry → ℕ → Type 0
Dominated entries stats c edge =
    (d : QueueEntry) × ((j : ℕ) × (get_elem? entries j ≡ some d))
    × (elem edge (edges d.covered_edges) ≡ true)
    × (bits c ≤ bits d)
    × (is_favoured (stats d.id) ≡ true)

-- Where the id of an entry determines how many edges it covers: after the recalculation of the dominators, for
-- each entry and each edge listed for it there is a favoured entry for which the edge is listed too, and
-- which has at least as many bits set.
pub recalculate-Dominated :
    (count : ℕ → ℕ) (entries : List QueueEntry) (stats : Stats)
    → All (λ e. bits e ≡ count e.id) entries
    → (i : ℕ) (c : QueueEntry) (edge : ℕ) → get_elem? entries i ≡ some c
    → elem edge (edges c.covered_edges) ≡ true
    → Dominated entries (recalculate_favoured_sink_dominator_edges entries stats) c edge
unfolding Dominated recalculate_favoured_sink_dominator_edges
recalculate-Dominated count entries stats agree i c edge at_i covers =
    let start : Recalculation = record { edge_dominator = []; bytes_set_lut = []; stats = stats } in
    let end : Recalculation = candidates entries start in
    let all : All Listed entries =
      All-index Listed entries (λ j x q. (All-get Counted entries j x agree q, (j, q))) in
    let (inv, ruled, grows) =
      candidates-Done Listed count (λ e p. p.0) entries start all (tt, tt) in
    let (d, found, larger) =
      All-get (Ruled Listed count (λ e p. p.0) end) entries i c ruled at_i edge covers in
    let ((equal, listed), covered) =
      All-lookup
        (λ (r : ℕ × QueueEntry). Listed (r.1) × (elem (r.0) (edges (r.1).covered_edges) ≡ true))
        edge d end.edge_dominator inv.0 found in
    let counted : bits c ≡ count c.id = All-get Counted entries i c agree at_i in
    (
      d,
      listed,
      covered,
      rw (counted, equal) larger,
      mark_all-Favoured end.edge_dominator end.stats edge d found,
    )
  where
    Counted : QueueEntry → Type 0
    Counted e = bits e ≡ count e.id

    Listed : QueueEntry → Type 0
    Listed e = (bits e ≡ count e.id) × ((j : ℕ) × (get_elem? entries j ≡ some e))
