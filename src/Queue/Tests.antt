-- ===== src/Queue/Tests.antt =====
-- The sites of one entry, given to workers.
use fuzztruction_net.Base.{ℕ, ◌+◌, ◌≡◌, refl, false, none, some, List, [], ◌∷◌}
use fuzztruction_net.IntegerSet.{IntegerSet, contains}
use fuzztruction_net.IntegerSet.Valid.{IsValid}
use fuzztruction_net.IntegerSet.Tests.{sample, sample-IsValid, in_order, in_order-IsRng}
use fuzztruction_net.Queue.{QueueEntryStats}
use fuzztruction_net.Queue.Discovery.{allocations, holders, count, allocations-holders}

abbrev stats : QueueEntryStats
stats = record {
  trace = none;
  tracing_in_progress = false;
  blacklisted = false;
  phases_done = [];
  discovery_pending = some sample;
  combine_done = none;
  mutators_done = [];
  favoured_weight = none;
}

allocations-holders_example :
    (selections : List IntegerSet) × (rest : IntegerSet) × (t : QueueEntryStats) × (allocations
        in_order 32
        (1 ∷ 5 ∷ [])
        stats
      ≡ some (selections, t))
    × (t.discovery_pending ≡ some rest)
    × IsValid 32 rest
    × ((e : ℕ) → holders e selections + count (contains rest e) ≡ count (contains sample e))
allocations-holders_example =
    allocations-holders in_order 32 (1 ∷ 5 ∷ []) stats sample in_order-IsRng sample-IsValid refl
