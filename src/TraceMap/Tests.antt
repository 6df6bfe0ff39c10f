-- ===== src/TraceMap/Tests.antt =====
-- Three slots and five hits.
use fuzztruction_net.Base.{ℕ, ◌≡◌, refl, true, false, none, some, List, [], ◌∷◌, arith}
use fuzztruction_net.TraceMap.{TraceEntry, TraceMap, alloc_slot, finalize, report_hit}
use fuzztruction_net.TraceMap.Counts.{entry_of}
use fuzztruction_net.TraceMap.Recorded.{traced, traced-recorded}

abbrev slots : List ℕ
slots = 9 ∷ 4 ∷ 9 ∷ 7 ∷ []

abbrev hits : List ℕ
hits = 7 ∷ 4 ∷ 7 ∷ 7 ∷ 4 ∷ []

traced-recorded_example :
    (m : TraceMap) × ((entries : List TraceEntry) × (traced true slots hits ≡ some m)
      × (m.entries ≡ some entries)
      × (entry_of 4 entries ≡ some (record { value = 4; hits = 2; order = some 2 })))
traced-recorded_example =
    traced-recorded slots hits 4 refl (refl, (refl, (refl, (refl, (refl, tt))))) (omega arith) true

traced_entries :
    traced true slots hits
    ≡ some (record {
      entries = some (
          record { value = 4; hits = 2; order = some 2 }
          ∷ record { value = 7; hits = 3; order = some 1 }
          ∷ record { value = 9; hits = 0; order = none }
          ∷ []);
      allocated_slots = [];
      total_hits = 5;
    })
unfolding alloc_slot finalize report_hit
traced_entries = refl

unallocated : traced true (4 ∷ []) (5 ∷ []) ≡ none
unfolding alloc_slot finalize report_hit
unallocated = refl

-- The parent records nothing.
parent :
    traced false (4 ∷ []) (4 ∷ [])
    ≡ some (record {
      entries = some (record { value = 4; hits = 0; order = none } ∷ []);
      allocated_slots = [];
      total_hits = 0;
    })
unfolding alloc_slot finalize report_hit
parent = refl
