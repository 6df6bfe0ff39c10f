-- ===== src/Scheduling.antt =====
-- scheduler/src/fuzzer/worker_impl/scheduling.rs: which entry a worker fuzzes next. The statistics of the entries,
-- which the workers share, are a function of the entry's id; an entry's own field is not read. What
-- `rand` chooses is a parameter. Times are arguments; the lock's jitter and logging are left out.
pub mod Dominators
pub mod Favoured
pub mod Largest
pub mod Members
pub mod Next
pub mod PatchPoints
pub mod Rounds
pub mod Tests
pub mod Weights
use fuzztruction_net.Base.{
  ℕ, zero, suc, ◌+◌, ◌*◌, ◌%◌, ◌^◌, ◌≡◌, ◌<◌, ◌≤◌, Bool, true, false, not, ◌&&◌, ◌||◌, Option, none,
  some, List, [], ◌∷◌, ◌++◌, ltb, leb, ◌==◌, if◌then◌else◌, ◌>>=◌,
}
use fuzztruction_net.Bitmap.{count_bits_set, edges}
use fuzztruction_net.Queue.{
  FuzzingPhase, QueueEntryStats, Queue, is_phase_done, mark_favoured_once, favoured_decrement,
  iter_without_crashes, filter,
}
use fuzztruction_net.Queue.Entry.{QueueEntry}

-- Maps by number, as association lists.
module _ {V : Type 0} where
  pub lookup : ℕ → List (ℕ × V) → Option V
  lookup k [] = none
  lookup k ((j, v) ∷ m) = if j == k then some v else lookup k m

  pub put : ℕ → V → List (ℕ × V) → List (ℕ × V)
  put k v [] = (k, v) ∷ []
  put k v ((j, w) ∷ m) = if j == k then (k, v) ∷ m else (j, w) ∷ put k v m

abbrev pub Stats : Type 0
Stats = ℕ → QueueEntryStats

-- A write through `stats_rw`.
abbrev pub modify : ℕ → (QueueEntryStats → QueueEntryStats) → Stats → Stats
modify id f stats = λ k. if k == id then f (stats k) else stats k

abbrev pub bits : QueueEntry → ℕ
bits e = count_bits_set e.covered_edges

pub record Recalculation : Type 0 where
  pub edge_dominator : List (ℕ × QueueEntry)
  pub bytes_set_lut : List (ℕ × ℕ)
  pub stats : Stats

-- `entry(e).or_insert_with(count)`; the key of an entry is its id.
pub count_cached : QueueEntry → List (ℕ × ℕ) → ℕ × List (ℕ × ℕ)
unfolding lookup put
count_cached e lut = elim (lookup e.id lut) [
  | some n ↦ (n, lut)
  | none ↦ (bits e, put e.id (bits e) lut)
]

-- The candidate takes the place of a dominator that covers less.
pub challenge : QueueEntry → ℕ → QueueEntry → Recalculation → Recalculation
unfolding count_cached put
challenge candidate edge current s =
    let (current_bytes_set, lut) = count_cached current s.bytes_set_lut in
    let (candidate_bytes_set, lut') = count_cached candidate lut in
    if ltb current_bytes_set candidate_bytes_set
    then record {
      edge_dominator = put edge candidate s.edge_dominator;
      bytes_set_lut = lut';
      stats = modify current.id favoured_decrement s.stats;
    }
    else record s { bytes_set_lut = lut' }

pub dominate : QueueEntry → ℕ → Recalculation → Recalculation
unfolding lookup put challenge
dominate candidate edge s = elim (lookup edge s.edge_dominator) [
  | none ↦ record s { edge_dominator = put edge candidate s.edge_dominator }
  | some current ↦ challenge candidate edge current s
]

pub edges_of : QueueEntry → List ℕ → Recalculation → Recalculation
unfolding dominate
edges_of candidate [] s = s
edges_of candidate (e ∷ es) s = edges_of candidate es (dominate candidate e s)

pub candidates : List QueueEntry → Recalculation → Recalculation
unfolding edges_of
candidates [] s = s
candidates (c ∷ cs) s = candidates cs (edges_of c (edges c.covered_edges) s)

pub mark_all : List (ℕ × QueueEntry) → Stats → Stats
mark_all [] stats = stats
mark_all ((k, e) ∷ m) stats = mark_all m (modify e.id mark_favoured_once stats)

pub recalculate_favoured_sink_dominator_edges : List QueueEntry → Stats → Stats
unfolding candidates mark_all
recalculate_favoured_sink_dominator_edges entries stats =
    let s =
      candidates entries (record { edge_dominator = []; bytes_set_lut = []; stats = stats }) in
    mark_all s.edge_dominator s.stats

-- A set of entries that is not empty, in the order in which they were met, where the order of the code's HashSet is
-- arbitrary; equal entries have the same id.
abbrev pub Entries : Type 0
Entries = QueueEntry × List QueueEntry

pub has_id : ℕ → List QueueEntry → Bool
has_id id [] = false
has_id id (e ∷ es) = (e.id == id) || has_id id es

pub add_entry : QueueEntry → Option Entries → Entries
unfolding has_id
add_entry e none = (e, [])
add_entry e (some (first, rest)) =
    if has_id e.id (first ∷ rest) then (first, rest) else (first, rest ++ e ∷ [])

pub add_sites : QueueEntry → List ℕ → List (ℕ × Entries) → List (ℕ × Entries)
unfolding lookup put add_entry
add_sites e [] m = m
add_sites e (pp ∷ pps) m = add_sites e pps (put pp (add_entry e (lookup pp m)) m)

-- `mutations` are the ids of the entries in the cache that `load_bytes` makes of the saved bytes.
pub add_mutations : QueueEntry → Option (List ℕ) → List (ℕ × Entries) → List (ℕ × Entries)
unfolding add_sites
add_mutations e none m = m
add_mutations e (some ids) m = add_sites e ids m

pub pp_to_entries : List QueueEntry → List (ℕ × Entries) → List (ℕ × Entries)
unfolding add_mutations
pp_to_entries [] m = m
pp_to_entries (e ∷ es) m = pp_to_entries es (add_mutations e e.mutations m)

-- `max_by_key`: the last of the largest.
pub max_by_bits : QueueEntry → List QueueEntry → QueueEntry
max_by_bits best [] = best
max_by_bits best (e ∷ es) = max_by_bits (if leb (bits best) (bits e) then e else best) es

pub mark_largest : List (ℕ × Entries) → Stats → Stats
unfolding max_by_bits
mark_largest [] stats = stats
mark_largest ((pp, (first, rest)) ∷ m) stats =
    mark_largest m (modify (max_by_bits first rest).id mark_favoured_once stats)

pub recalculate_favoured_unique_patch_point_ids : List QueueEntry → Stats → Stats
unfolding pp_to_entries mark_largest
recalculate_favoured_unique_patch_point_ids entries stats =
    mark_largest (pp_to_entries entries []) stats

-- In nanoseconds.
abbrev pub favoured_recalculation_start_delay : ℕ
favoured_recalculation_start_delay = 3600 * 1000000000

abbrev pub favoured_recalculation_interval : ℕ
favoured_recalculation_interval = 100

-- The choices of the `rand` crate: `choose_weighted`, unwrapped, and `shuffle`.
pub record Chooser : Type 0 where
  pub choose_weighted : List QueueEntry → (QueueEntry → ℕ) → Option QueueEntry
  pub shuffle : List QueueEntry → List QueueEntry

pub record Config : Type 0 where
  pub generation_ceiling : Option ℕ
  pub terminate_when_finished : Bool

-- The state that the scheduling reads or changes; `recalculation_ctr` is RECALCULATION_CTR.
pub record Scheduler : Type 0 where
  pub phase : FuzzingPhase
  pub phases_finished : List FuzzingPhase
  pub queue : Queue QueueEntry
  pub stats : Stats
  pub recalculation_ctr : ℕ

pub recalculate_favoured : ℕ → List QueueEntry → Scheduler → Scheduler
unfolding recalculate_favoured_sink_dominator_edges recalculate_favoured_unique_patch_point_ids
recalculate_favoured elapsed entries self =
    let counted : Scheduler = record self {
      recalculation_ctr = (self.recalculation_ctr + 1) % 2 ^ 64;
    } in
    if ltb elapsed favoured_recalculation_start_delay
    then self
    else if not (self.recalculation_ctr % favoured_recalculation_interval == 0)
    then counted
    else record counted {
      stats =
          recalculate_favoured_unique_patch_point_ids entries
            (recalculate_favoured_sink_dominator_edges entries self.stats);
    }

pub below_ceiling : Option ℕ → ℕ → Bool
below_ceiling none generation = true
below_ceiling (some ceiling) generation = leb generation ceiling

pub is_eligible : Config → Stats → QueueEntry → Bool
unfolding below_ceiling
is_eligible config stats e =
    below_ceiling config.generation_ceiling e.generation && not (stats e.id).blacklisted

pub filter_entries : Config → Stats → List QueueEntry → List QueueEntry
unfolding is_eligible
filter_entries config stats [] = []
filter_entries config stats (e ∷ es) =
    let rest = filter_entries config stats es in
    if is_eligible config stats e then e ∷ rest else rest

pub weight : Stats → QueueEntry → ℕ
weight stats e = elim (stats e.id).favoured_weight [ none ↦ 1 | some w ↦ w ]

pub schedule_common : Chooser → Config → ℕ → Scheduler → Option (Scheduler × QueueEntry)
unfolding filter_entries recalculate_favoured weight
schedule_common c config elapsed self =
    let entries =
      filter_entries config self.stats (iter_without_crashes (λ e. e.is_crash) self.queue) in
    let s = recalculate_favoured elapsed entries self in
    do
      selected_entry ← c.choose_weighted entries (weight s.stats)
      some
          (record s { stats = modify selected_entry.id favoured_decrement s.stats }, selected_entry)

-- The entries that the discovery phase may still fuzz.
pub is_discoverable : Stats → QueueEntry → Bool
is_discoverable stats e =
    (e.generation == 0)
    && not (stats e.id).blacklisted
    && not (is_phase_done FuzzingPhase.discovery (stats e.id))
    && not e.is_crash

-- `pop` takes the last one.
pub last : List QueueEntry → Option QueueEntry
last [] = none
last (e ∷ []) = some e
last (e ∷ f ∷ es) = last (f ∷ es)

-- Discovery is done: the next phase.
pub discovery_done : Config → Scheduler → Scheduler
discovery_done config self = record self {
  phases_finished = FuzzingPhase.discovery ∷ self.phases_finished;
  phase = if config.terminate_when_finished then FuzzingPhase.exit else FuzzingPhase.no_phase;
}

-- What `schedule_next` ends with; the fuel counts the rounds of its loop.
pub data Scheduled : Type 0 where
  stop : Scheduler → Scheduled
  next : Scheduler → QueueEntry → Scheduled
  panicked out_of_fuel : Scheduled

pub common : Option (Scheduler × QueueEntry) → Scheduled
common none = panicked
common (some (s, e)) = next s e

pub pop_or : Option QueueEntry → Scheduler → Scheduled
pop_or none self = panicked
pop_or (some e) self = next self e

-- A discovery entry; `again` is the next round of the loop.
pub discover : List QueueEntry → Chooser → Scheduler → Scheduled → Scheduled
unfolding last pop_or
discover [] c self again = again
discover (e ∷ es) c self again = pop_or (last (c.shuffle (e ∷ es))) self

pub by_phase : FuzzingPhase → Scheduler → Scheduled → Scheduled → Scheduled
by_phase FuzzingPhase.discovery self discovered found = discovered
by_phase FuzzingPhase.exit self discovered found = stop self
by_phase FuzzingPhase.mutate self discovered found = found
by_phase FuzzingPhase.add self discovered found = found
by_phase FuzzingPhase.combine self discovered found = found
by_phase FuzzingPhase.no_phase self discovered found = found

pub schedule_next : ℕ → Chooser → Config → ℕ → Scheduler → Scheduled
unfolding by_phase discover schedule_common is_discoverable discovery_done common
schedule_next zero c config elapsed self = out_of_fuel
schedule_next (suc fuel) c config elapsed self =
    let again = schedule_next fuel c config elapsed (discovery_done config self) in
    by_phase self.phase self
      (discover (filter (is_discoverable self.stats) self.queue) c self again)
      (common (schedule_common c config elapsed self))
