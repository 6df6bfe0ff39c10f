-- ===== src/Worker/Tests.antt =====
-- A worker whose run covers a new edge, and the theorems at it.
use fuzztruction_net.Base.{
  ℕ, ◌≡◌, refl, inl, inr, true, false, some, List, [], ◌∷◌, arith, replicate,
}
use fuzztruction_net.Bitmap.{
  Bitmap, no_change, new_edge, has_new_bit, classify_counts, bucket, minimize, new_in_mem,
  is_power_of_two, clone_with_pattern, copy_from, not_map, count_bits_set, count_bytes_set,
}
use fuzztruction_net.Bitmap.Chunks.{IsValid}
use fuzztruction_net.Bitmap.Operators.{IsMap}
use fuzztruction_net.EventCounter.{FuzzerEventCounter}
use fuzztruction_net.EventCounter as EventCounter
use fuzztruction_net.Mutators.{MutatorType}
use fuzztruction_net.Queue.{FuzzingPhase, same_phase, push, mark_favoured_once, is_favoured}
use fuzztruction_net.Queue.Entry.{QueueEntry, new, set_parent}
use fuzztruction_net.Calibration.{terminated, ok, Env, common_calibrate}
use fuzztruction_net.Calibration.Tests.{env, coverage, virgin, parent}
use fuzztruction_net.Worker.{
  FuzzingWorker, Observed, check_virgin_maps, create_new_queue_entry, handle_run_result,
  terminated_with, ignored,
}
use fuzztruction_net.Worker.Maps.{Within, Within-refl}
use fuzztruction_net.Worker.Sharing.{report, one_map, Local, Locals, report-one_map}
use fuzztruction_net.Worker.Classes.{handle_run_result-Alike}
use fuzztruction_net.Worker.Entries.{Queued, create_new_queue_entry-Queued}
use fuzztruction_net.Worker.Findings.{Handles, terminated_with-ignored, terminated_with-Handles}

unfoldable pub program : Unit {0}
unfolding check_virgin_maps create_new_queue_entry handle_run_result terminated_with ignored report
    one_map has_new_bit classify_counts bucket minimize new_in_mem is_power_of_two
    clone_with_pattern copy_from not_map count_bits_set count_bytes_set same_phase push
    mark_favoured_once is_favoured new set_parent common_calibrate
program = tt

-- Maps of eight edges.
abbrev once : Bitmap
once = record { bytes = 1 ∷ 0 ∷ 0 ∷ 0 ∷ 0 ∷ 0 ∷ 0 ∷ 0 ∷ []; fill_pattern = 0; size = 8 }

abbrev twice : Bitmap
twice = record once { bytes = 2 ∷ 1 ∷ 0 ∷ 0 ∷ 0 ∷ 0 ∷ 0 ∷ 0 ∷ [] }

abbrev fresh : Bitmap
fresh = record { bytes = replicate 8 255; fill_pattern = 255; size = 8 }

once-IsValid : IsValid once
once-IsValid = record { sized = refl; whole = refl; are_bytes = omega arith }

twice-IsValid : IsValid twice
twice-IsValid = record { sized = refl; whole = refl; are_bytes = omega arith }

fresh-IsValid : IsValid fresh
fresh-IsValid = record { sized = refl; whole = refl; are_bytes = omega arith }

fresh-Within : Within fresh.bytes fresh.bytes
fresh-Within = Within-refl fresh.bytes (omega arith)

fresh-Local : Local fresh fresh
fresh-Local = (fresh-IsValid, refl, fresh-Within)

abbrev turns : List (ℕ × Bitmap)
turns = (0, once) ∷ (1, once) ∷ (1, twice) ∷ (0, twice) ∷ []

one_map_verdicts : (one_map turns fresh).0 ≡ new_edge ∷ no_change ∷ new_edge ∷ no_change ∷ []
unfolding program
one_map_verdicts = refl

report-one_map_example :
    (ls : List Bitmap) × (report turns (fresh ∷ fresh ∷ []) fresh
      ≡ some ((one_map turns fresh).0, ls, (one_map turns fresh).1))
    × Locals (one_map turns fresh).1 ls
report-one_map_example =
    report-one_map turns (fresh ∷ fresh ∷ []) fresh fresh-IsValid (fresh-Local, (fresh-Local, tt))
      (
        omega arith,
        once-IsValid,
        refl,
        (
          omega arith,
          once-IsValid,
          refl,
          (omega arith, twice-IsValid, refl, (omega arith, twice-IsValid, refl, tt)),
        ),
      )

abbrev worker : FuzzingWorker
worker = record {
  entry = parent;
  phase = FuzzingPhase.mutate;
  mutator = MutatorType.havoc;
  patch_point = 3;
  mutations = 3 ∷ [];
  virgin_map = virgin;
  crash_virgin_map = virgin;
  shared_virgin_map = virgin;
  shared_crash_virgin_map = virgin;
  queue = record { entries = parent ∷ [] };
  next_id = 5;
}

abbrev stats : FuzzerEventCounter
stats = EventCounter.new

abbrev hot : Bitmap
hot = record once { bytes = 17 ∷ 2 ∷ 0 ∷ 0 ∷ 0 ∷ 0 ∷ 0 ∷ 0 ∷ [] }

abbrev hotter : List ℕ
hotter = 120 ∷ 2 ∷ 0 ∷ 0 ∷ 0 ∷ 0 ∷ 0 ∷ 0 ∷ []

-- One classification tells the two runs apart.
classes_apart :
    ((classify_counts hot).bytes ≡ 32 ∷ 2 ∷ 0 ∷ 0 ∷ 0 ∷ 0 ∷ 0 ∷ 0 ∷ [])
    × ((classify_counts (record hot { bytes = hotter })).bytes
        ≡ 64 ∷ 2 ∷ 0 ∷ 0 ∷ 0 ∷ 0 ∷ 0 ∷ 0 ∷ [])
unfolding program
classes_apart = (refl, refl)

abbrev seen : Observed
seen = record {
  now = 30;
  cycles = record { result = ok terminated; duration = 15; bitmap = coverage } ∷ [];
}

handle_run_result-Alike_example :
    handle_run_result env terminated hot seen stats worker
    ≡ handle_run_result env terminated (record hot { bytes = hotter }) seen stats worker
handle_run_result-Alike_example =
    handle_run_result-Alike env terminated seen hot hotter stats worker
      (record { sized = refl; whole = refl; are_bytes = omega arith })
      (record { sized = refl; whole = refl; are_bytes = omega arith })
      (
        inr (omega arith, omega arith, omega arith, omega arith),
        (inl refl, (inl refl, (inl refl, (inl refl, (inl refl, (inl refl, (inl refl, tt))))))),
      )

coverage-IsMap : IsMap coverage
unfolding program
coverage-IsMap = record { sized = refl; least = omega arith; power = refl; are_bytes = omega arith }

coverage-IsValid : IsValid coverage
coverage-IsValid = record { sized = refl; whole = refl; are_bytes = omega arith }

virgin-IsValid : IsValid virgin
virgin-IsValid = record { sized = refl; whole = refl; are_bytes = omega arith }

virgin-Local : Local virgin virgin
virgin-Local = (virgin-IsValid, refl, Within-refl virgin.bytes (omega arith))

-- The entry that the run makes, where the virgin maps still have all bits.
abbrev found : QueueEntry
found = record parent {
  id = 5;
  parent_id = some 4;
  phase = some FuzzingPhase.mutate;
  mutator = some MutatorType.havoc;
  patch_point = some 3;
  mutations = some (3 ∷ []);
  bitmap_hash32 = 16;
  covered_edges = record { bytes = 1 ∷ replicate 7 0; fill_pattern = 0; size = 8 };
  avg_exec_duration_raw = 15;
  stats = record parent.stats { favoured_weight = some 3 };
  generation = 3;
}

abbrev queued : FuzzingWorker
queued = record worker { queue = record { entries = parent ∷ found ∷ [] }; next_id = 6 }

entry_created :
    create_new_queue_entry env new_edge false coverage seen.cycles worker ≡ ok (queued, some found)
unfolding program
entry_created = refl

create_new_queue_entry-Queued_example :
    Queued env new_edge false seen.cycles worker queued (some found)
create_new_queue_entry-Queued_example =
    create_new_queue_entry-Queued env new_edge false coverage seen.cycles worker coverage-IsMap
      (coverage-IsValid, refl, tt) virgin-Local virgin-IsValid refl queued (some found)
      entry_created

abbrev left : Bitmap
left = record virgin { bytes = 250 ∷ replicate 63 255 }

abbrev counted : FuzzerEventCounter
counted = record stats { edges_found = 1; last_finding_ts = some 30 }

abbrev finder : FuzzingWorker
finder = record queued { virgin_map = left; shared_virgin_map = left }

edge_found : terminated_with env coverage seen stats worker ≡ ok (finder, counted)
unfolding program
edge_found = refl

not_ignored : ignored env coverage worker ≡ false
unfolding program
not_ignored = refl

terminated_with-Handles_example :
    Handles env coverage seen stats worker coverage-IsMap
      (coverage-IsValid, refl, tt)
      virgin-Local
      virgin-IsValid
      refl
      (has_new_bit coverage virgin).0
      finder
      counted
terminated_with-Handles_example =
    terminated_with-Handles env coverage seen stats worker coverage-IsMap
      (coverage-IsValid, refl, tt) virgin-Local virgin-IsValid refl finder counted not_ignored
      edge_found

-- In the discovery phase, with a sink that covers little.
abbrev strict : Env
strict = record env { mostly_covered = λ a b. true }

abbrev discoverer : FuzzingWorker
discoverer = record worker { phase = FuzzingPhase.discovery }

is_ignored : ignored strict coverage discoverer ≡ true
unfolding program
is_ignored = refl

abbrev fewer : Bitmap
fewer = record virgin { bytes = 250 ∷ 254 ∷ replicate 62 255 }

-- The second run covers another edge, and is ignored too.
abbrev ignored_twice : FuzzingWorker
ignored_twice = record discoverer { virgin_map = fewer }

other_run :
    terminated_with strict
      (record coverage { bytes = 0 ∷ 1 ∷ replicate 62 0 })
      seen
      stats
      (record discoverer { virgin_map = left })
    ≡ ok (ignored_twice, stats)
unfolding program
other_run = refl

-- Meanwhile another worker found the first edge, and this one left the phase.
abbrev mutating : FuzzingWorker
mutating = record ignored_twice { phase = FuzzingPhase.mutate; shared_virgin_map = left }

terminated_with-ignored_example :
    (terminated_with strict coverage seen stats discoverer
      ≡ ok (record discoverer { virgin_map = left }, stats))
    × (terminated_with strict coverage seen counted mutating ≡ ok (mutating, counted))
unfolding program
terminated_with-ignored_example =
    terminated_with-ignored strict coverage seen seen stats counted discoverer mutating
      coverage-IsValid virgin-IsValid refl is_ignored
      (record { sized = refl; whole = refl; are_bytes = omega arith }) refl
      (refl, (refl, Within-refl (replicate 62 255) (omega arith)))
