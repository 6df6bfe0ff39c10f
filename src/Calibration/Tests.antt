-- ===== src/Calibration/Tests.antt =====
-- Runs of the source and a calibration, and the theorems at them.
use fuzztruction_net.Base.{
  ℕ, ◌+◌, ◌≡◌, refl, true, false, none, some, List, [], ◌∷◌, replicate, get_or,
}
use fuzztruction_net.Bitmap.{
  Bitmap, has_new_bit, classify_counts, bucket, minimize, new_in_mem, is_power_of_two,
}
use fuzztruction_net.Queue.Entry.{QueueEntry, Origin, new_stats, new, set_parent}
use fuzztruction_net.Calibration.{
  terminated, signalled, source_terminated, duplicated_output, exec_error, calibration_error,
  sink_execution_failed, ok, err, Env, Cycle, common_run, common_calibrate,
}
use fuzztruction_net.IntegerSet.{elem}
use fuzztruction_net.Calibration.Outputs.{
  Outputs, Step, check, insert, steps, times, common_run_again,
}
use fuzztruction_net.Calibration.Cycles.{
  AllPass, Descends, start, all_cycled, timeout_of, common_calibrate-made,
}

abbrev first_byte : List ℕ → ℕ
first_byte output = get_or output 0 0

-- Two workers that both found the output new before either of them inserted its hash.
abbrev raced : Outputs
raced = record { seen = []; pending = 3 ∷ 3 ∷ []; sunk = [] }

both_found_new :
    steps first_byte
      (check (ok source_terminated) (3 ∷ 4 ∷ []) ∷ check (ok source_terminated) (3 ∷ 4 ∷ []) ∷ [])
      (record { seen = []; pending = []; sunk = [] })
    ≡ raced
unfolding steps
both_found_new = refl

-- The sink is run with it twice.
sunk_twice :
    steps first_byte (insert 0 ∷ insert 0 ∷ []) raced
    ≡ record { seen = 3 ∷ []; pending = []; sunk = 3 ∷ 3 ∷ [] }
unfolding steps
sunk_twice = refl

abbrev later : List Step
later =
    check (ok source_terminated) (7 ∷ [])
    ∷ check (ok source_terminated) (3 ∷ 4 ∷ [])
    ∷ insert 1
    ∷ []

common_run_again_example :
    (times 3 (steps first_byte (insert 0 ∷ later) raced).sunk
        + times 3 (steps first_byte (insert 0 ∷ later) raced).pending
      ≡ 2)
    × (common_run first_byte
          (ok source_terminated)
          (3 ∷ 4 ∷ [])
          (9 ∷ [])
          (ok terminated)
          (steps first_byte (insert 0 ∷ later) raced).seen
        ≡ ((steps first_byte (insert 0 ∷ later) raced).seen, err (exec_error duplicated_output)))
    × (elem 3
          (common_run first_byte (ok source_terminated) (3 ∷ 4 ∷ []) (9 ∷ []) (ok terminated) []).0
        ≡ true)
common_run_again_example =
    common_run_again first_byte 3 (4 ∷ []) (9 ∷ []) (ok terminated) 0 later raced refl

abbrev pub env : Env
env = record {
  hash32 = λ b. get_or b.bytes 0 0;
  scaled = λ d. d + d;
  mostly_covered = λ a b. false;
  send_sigterm = false;
  allow_unstable_sink = false;
}

-- Edge 0 hit five times, of 64 edges.
abbrev pub coverage : Bitmap
coverage = record { bytes = 5 ∷ replicate 63 0; fill_pattern = 0; size = 64 }

abbrev pub virgin : Bitmap
virgin = record { bytes = replicate 64 255; fill_pattern = 255; size = 64 }

abbrev origin : Origin
origin = record { phase = none; mutator = none; patch_point = none; mutations = none }

abbrev pub parent : QueueEntry
parent = record {
  id = 4;
  parent_id = none;
  phase = none;
  mutator = none;
  patch_point = none;
  mutations = none;
  bitmap_hash32 = 0;
  covered_edges = record { bytes = replicate 8 0; fill_pattern = 0; size = 8 };
  avg_exec_duration_raw = 10;
  stats = new_stats;
  sink_unstable = false;
  generation = 2;
  is_crash = false;
}

abbrev cycles : List Cycle
cycles =
    record { result = ok terminated; duration = 9; bitmap = coverage }
    ∷ record { result = ok (signalled 11); duration = 12; bitmap = coverage }
    ∷ []

-- Of a crash, with the id 6; the classified byte is classified again.
abbrev crash : QueueEntry
crash = record parent {
  id = 6;
  parent_id = some 4;
  bitmap_hash32 = 16;
  generation = 3;
  is_crash = true;
  avg_exec_duration_raw = 12;
  covered_edges = record { bytes = 1 ∷ replicate 7 0; fill_pattern = 0; size = 8 };
}

crash_made :
    common_calibrate env 20 true (some parent) origin 6 cycles virgin
    ≡ ok (crash, record virgin { bytes = 247 ∷ replicate 63 255 })
unfolding common_calibrate has_new_bit classify_counts bucket new set_parent minimize new_in_mem
    is_power_of_two
crash_made = refl

no_crash :
    common_calibrate env 20 false (some parent) origin 6 cycles virgin
    ≡ err (calibration_error (sink_execution_failed (signalled 11)))
unfolding common_calibrate
no_crash = refl

common_calibrate-made_example :
    AllPass env true (timeout_of env 20) cycles
    × (crash.id ≡ 6)
    × (crash.is_crash ≡ true)
    × Descends (some parent) crash
    × (crash.sink_unstable ≡ true → env.allow_unstable_sink ≡ true)
    × (record virgin { bytes = 247 ∷ replicate 63 255 }
        ≡ (all_cycled cycles (start virgin)).virgin_map)
common_calibrate-made_example =
    common_calibrate-made env 20 true (some parent) origin 6 cycles virgin crash
      (record virgin { bytes = 247 ∷ replicate 63 255 }) crash_made
