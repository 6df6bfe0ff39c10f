-- ===== src/Scheduling/Tests.antt =====
-- Two entries and a chooser, and the theorems of the scheduling at them.
use fuzztruction_net.Base.{
  ℕ, ◌+◌, ◌*◌, ◌≡◌, refl, true, false, none, some, Option, List, [], ◌∷◌, replicate, All,
}
use fuzztruction_net.Bitmap.{count_bits_set, edges}
use fuzztruction_net.Queue.{FuzzingPhase}
use fuzztruction_net.Queue.Entry.{QueueEntry, new_stats}
use fuzztruction_net.Scheduling.{
  Stats, bits, Chooser, Config, Scheduler, recalculate_favoured_sink_dominator_edges,
  recalculate_favoured_unique_patch_point_ids, schedule_next,
}
use fuzztruction_net.Scheduling.Favoured.{All-index, Dominated, recalculate-Dominated}
use fuzztruction_net.Scheduling.Largest.{Largest, recalculate-Largest}
use fuzztruction_net.Scheduling.Next.{Member, Documented}
use fuzztruction_net.Scheduling.Rounds.{Outcome, schedule_next-Outcome}

-- Eight edges, of which the first is covered, or the first two.
abbrev small : QueueEntry
small = record {
  id = 0;
  parent_id = none;
  phase = none;
  mutator = none;
  patch_point = none;
  mutations = some (5 ∷ []);
  bitmap_hash32 = 0;
  covered_edges = record { bytes = 1 ∷ replicate 7 0; fill_pattern = 0; size = 8 };
  avg_exec_duration_raw = 10;
  stats = new_stats;
  sink_unstable = false;
  generation = 0;
  is_crash = false;
}

abbrev large : QueueEntry
large = record small {
  id = 1;
  mutations = some (6 ∷ 5 ∷ []);
  covered_edges = record { bytes = 3 ∷ replicate 7 0; fill_pattern = 0; size = 8 };
}

abbrev both : List QueueEntry
both = small ∷ large ∷ []

abbrev stats : Stats
stats id = new_stats

abbrev count : ℕ → ℕ
count id = id + 1

counted : All (λ e. bits e ≡ count e.id) both
unfolding count_bits_set
counted = (refl, (refl, tt))

recalculate-Dominated_example :
    Dominated both (recalculate_favoured_sink_dominator_edges both stats) small 0
unfolding edges
recalculate-Dominated_example = recalculate-Dominated count both stats counted 0 small 0 refl refl

recalculate-Largest_example :
    Largest both (recalculate_favoured_unique_patch_point_ids both stats) small 5
recalculate-Largest_example =
    recalculate-Largest count both stats counted 0 small (5 ∷ []) 5 refl refl refl

-- Always the first.
abbrev first : List QueueEntry → Option QueueEntry
first [] = none
first (e ∷ es) = some e

abbrev chooser : Chooser
chooser = record { choose_weighted = λ es w. first es; shuffle = λ es. es }

chooser-Documented : Documented chooser
chooser-Documented = record {
  chooses = λ e es w h. (e, refl, (0, refl));
  empty = λ w. refl;
  shuffles = λ e es. (e, (es, refl, All-index (λ y. Member y (e ∷ es)) (e ∷ es) (λ i x q. (i, q))));
}

abbrev config : Config
config = record { generation_ceiling = some 3; terminate_when_finished = false }

-- In the discovery phase, with one entry that is discovered and a crash.
abbrev discovered : Stats
discovered id = record new_stats { phases_done = FuzzingPhase.discovery ∷ [] }

abbrev scheduler : Scheduler
scheduler = record {
  phase = FuzzingPhase.discovery;
  phases_finished = [];
  queue = record { entries = record small { is_crash = true } ∷ large ∷ [] };
  stats = discovered;
  recalculation_ctr = 0;
}

schedule_next-Outcome_example :
    Outcome config
      (4000 * 1000000000)
      scheduler
      (schedule_next 2 chooser config (4000 * 1000000000) scheduler)
schedule_next-Outcome_example =
    schedule_next-Outcome chooser chooser-Documented config (4000 * 1000000000) 0 scheduler
      (λ id. tt)
