-- ===== src/Scheduling/Weights.antt =====
-- scheduler/src/fuzzer/worker_impl/scheduling.rs: what the recalculations do to the statistics.
use fuzztruction_net.Base.{
  if◌then◌else◌, ◌+◌, ◌^◌, ℕ, ◌≡◌, refl, ◌∙◌, ap, true, Option, none, some, List, [], ◌∷◌, ◌==◌,
  ltb, ◌%◌, arith, Bool-cases, Option-cases, inl, inr,
}
use fuzztruction_net.Bitmap.{edges}
use fuzztruction_net.Queue.{
  QueueEntryStats, is_favoured, mark_favoured_once, favoured_decrement, decremented,
}
use fuzztruction_net.Queue.Entry.{QueueEntry}
use fuzztruction_net.Queue.Order.{WeightIn, marked-WeightIn, decremented-WeightIn}
use fuzztruction_net.Scheduling.{
  lookup, Stats, modify, Recalculation, count_cached, challenge, dominate, edges_of, candidates,
  mark_all, recalculate_favoured_sink_dominator_edges, Entries, max_by_bits, mark_largest,
  recalculate_favoured_unique_patch_point_ids, pp_to_entries, Scheduler, recalculate_favoured,
  favoured_recalculation_start_delay, favoured_recalculation_interval,
}
use fuzztruction_net.Scheduling.Favoured.{favoured_still}

-- A weight in its bounds stays in them, a favoured entry stays favoured, and nothing else changes.
abbrev pub Reweighs : QueueEntryStats → QueueEntryStats → Type 0
Reweighs s t =
    (WeightIn s.favoured_weight → WeightIn t.favoured_weight)
    × (is_favoured s ≡ true → is_favoured t ≡ true)
    × (t ≡ record s { favoured_weight = t.favoured_weight })

abbrev pub Reweighed : Stats → Stats → Type 0
Reweighed a b = (id : ℕ) → Reweighs (a id) (b id)

pub Reweighed-refl : (a : Stats) → Reweighed a a
Reweighed-refl a id = ((λ h. h), (λ h. h), refl)

pub Reweighed-trans : (a b c : Stats) → Reweighed a b → Reweighed b c → Reweighed a c
Reweighed-trans a b c f g id =
    let (w, v, e) = f id in
    let (w', v', e') = g id in
    (
      (λ h. w' (w h)),
      (λ h. v' (v h)),
      e' ∙ ap (λ (s : QueueEntryStats). record s { favoured_weight = (c id).favoured_weight }) e,
    )

mark-Reweighs : (s : QueueEntryStats) → Reweighs s (mark_favoured_once s)
unfolding mark_favoured_once
mark-Reweighs s = (marked-WeightIn s.favoured_weight, favoured_still s, refl)

decrement-Reweighs : (s : QueueEntryStats) → Reweighs s (favoured_decrement s)
unfolding favoured_decrement is_favoured decremented
decrement-Reweighs s = (decremented-WeightIn s.favoured_weight, still s.favoured_weight, refl)
  where
    still :
        (w : Option ℕ)
        → is_favoured (record s { favoured_weight = w }) ≡ true
        → is_favoured (record s { favoured_weight = decremented w }) ≡ true
    still none h = h
    still (some w) h = ground arith

pub modify-Reweighed :
    (f : QueueEntryStats → QueueEntryStats)
    → ((s : QueueEntryStats) → Reweighs s (f s))
    → (id : ℕ) (a : Stats) → Reweighed a (modify id f a)
modify-Reweighed f h id a k = elim (Bool-cases (k == id)) [
  | inl t ↦ rw t (h (a k))
  | inr t ↦ rw t (Reweighed-refl a k)
]

pub decrement-Reweighed : (id : ℕ) (a : Stats) → Reweighed a (modify id favoured_decrement a)
decrement-Reweighed id a = modify-Reweighed favoured_decrement decrement-Reweighs id a

mark-Reweighed : (id : ℕ) (a : Stats) → Reweighed a (modify id mark_favoured_once a)
mark-Reweighed id a = modify-Reweighed mark_favoured_once mark-Reweighs id a

challenge-Reweighed :
    (c : QueueEntry) (edge : ℕ) (d : QueueEntry) (s : Recalculation)
    → Reweighed s.stats (challenge c edge d s).stats
unfolding challenge
challenge-Reweighed c edge d s =
    let first = count_cached d s.bytes_set_lut in
    let second = count_cached c (first.1) in
    elim (Bool-cases (ltb (first.0) (second.0))) [
      | inl t ↦ rw (t, challenge) (decrement-Reweighed d.id s.stats)
      | inr t ↦ rw (t, challenge) (Reweighed-refl s.stats)
    ]

dominate-Reweighed :
    (c : QueueEntry) (edge : ℕ) (s : Recalculation) → Reweighed s.stats (dominate c edge s).stats
unfolding dominate
dominate-Reweighed c edge s = elim (Option-cases (lookup edge s.edge_dominator)) [
  | inl new ↦ rw (new, dominate) (Reweighed-refl s.stats)
  | inr (d, old) ↦ rw (old, dominate) (challenge-Reweighed c edge d s)
]

edges_of-Reweighed :
    (c : QueueEntry) (es : List ℕ) (s : Recalculation) → Reweighed s.stats (edges_of c es s).stats
unfolding edges_of
edges_of-Reweighed c [] s = Reweighed-refl s.stats
edges_of-Reweighed c (e ∷ es) s =
    Reweighed-trans s.stats (dominate c e s).stats (edges_of c es (dominate c e s)).stats
      (dominate-Reweighed c e s) (edges_of-Reweighed c es (dominate c e s))

candidates-Reweighed :
    (cs : List QueueEntry) (s : Recalculation) → Reweighed s.stats (candidates cs s).stats
unfolding candidates
candidates-Reweighed [] s = Reweighed-refl s.stats
candidates-Reweighed (c ∷ cs) s =
    let t : Recalculation = edges_of c (edges c.covered_edges) s in
    Reweighed-trans s.stats t.stats (candidates cs t).stats
      (edges_of-Reweighed c (edges c.covered_edges) s) (candidates-Reweighed cs t)

mark_all-Reweighed :
    (m : List (ℕ × QueueEntry)) (stats : Stats) → Reweighed stats (mark_all m stats)
unfolding mark_all
mark_all-Reweighed [] stats = Reweighed-refl stats
mark_all-Reweighed ((k, e) ∷ m) stats =
    let next : Stats = modify e.id mark_favoured_once stats in
    Reweighed-trans stats next (mark_all m next) (mark-Reweighed e.id stats)
      (mark_all-Reweighed m next)

mark_largest-Reweighed :
    (m : List (ℕ × Entries)) (stats : Stats) → Reweighed stats (mark_largest m stats)
unfolding mark_largest
mark_largest-Reweighed [] stats = Reweighed-refl stats
mark_largest-Reweighed ((k, (e, es)) ∷ m) stats =
    let next : Stats = modify (max_by_bits e es).id mark_favoured_once stats in
    Reweighed-trans stats next (mark_largest m next) (mark-Reweighed (max_by_bits e es).id stats)
      (mark_largest-Reweighed m next)

edges-Reweighed :
    (entries : List QueueEntry) (stats : Stats)
    → Reweighed stats (recalculate_favoured_sink_dominator_edges entries stats)
unfolding recalculate_favoured_sink_dominator_edges
edges-Reweighed entries stats =
    let start : Recalculation = record { edge_dominator = []; bytes_set_lut = []; stats = stats } in
    let t : Recalculation = candidates entries start in
    Reweighed-trans stats t.stats (mark_all t.edge_dominator t.stats)
      (candidates-Reweighed entries start) (mark_all-Reweighed t.edge_dominator t.stats)

patch_points-Reweighed :
    (entries : List QueueEntry) (stats : Stats)
    → Reweighed stats (recalculate_favoured_unique_patch_point_ids entries stats)
unfolding recalculate_favoured_unique_patch_point_ids
patch_points-Reweighed entries stats = mark_largest-Reweighed (pp_to_entries entries []) stats

-- The counter of recalculations after one at some time.
abbrev pub counted : ℕ → ℕ → ℕ
counted elapsed n = if ltb elapsed favoured_recalculation_start_delay then n else (n + 1) % 2 ^ 64

-- A recalculation changes statistics and the counter alone.
pub recalculate_favoured-Reweighed :
    (elapsed : ℕ) (entries : List QueueEntry) (s : Scheduler)
    → Reweighed s.stats (recalculate_favoured elapsed entries s).stats
      × (recalculate_favoured elapsed entries s ≡ record s {
        stats = (recalculate_favoured elapsed entries s).stats;
        recalculation_ctr = counted elapsed s.recalculation_ctr;
      })
unfolding recalculate_favoured
recalculate_favoured-Reweighed elapsed entries s =
    elim (Bool-cases (ltb elapsed favoured_recalculation_start_delay)) [
      | inl t ↦ rw (t, recalculate_favoured) (Reweighed-refl s.stats, refl)
      | inr t ↦ elim (Bool-cases (s.recalculation_ctr % favoured_recalculation_interval == 0)) [
        | inl u ↦
            let next : Stats = recalculate_favoured_sink_dominator_edges entries s.stats in
            rw (t, u, recalculate_favoured)
              (
                Reweighed-trans s.stats next
                    (recalculate_favoured_unique_patch_point_ids entries next)
                    (edges-Reweighed entries s.stats) (patch_points-Reweighed entries next),
                refl,
              )
        | inr u ↦ rw (t, u, recalculate_favoured) (Reweighed-refl s.stats, refl)
      ]
    ]
