-- ===== src/Fuzzing/Tests.antt =====
-- Two entries, fuzzed without an interruption, until the worker is to stop, and until the timeout.
use fuzztruction_net.Base.{ℕ, map, length, ◌≡◌, refl, true, false, Bool, none, some, List, [], ◌∷◌}
use fuzztruction_net.EventCounter.{
  FuzzerEventCounter, init, add_assign, time_since_last_new_path_or_crash,
}
use fuzztruction_net.EventCounter as EventCounter
use fuzztruction_net.Mutators.{MutatorType}
use fuzztruction_net.Queue.{FuzzingPhase}
use fuzztruction_net.Calibration.{timed_out, terminated, Result, ok, err, panicked, ◌>>=◌}
use fuzztruction_net.Calibration.Tests.{env, coverage, virgin, parent}
use fuzztruction_net.Worker.{FuzzingWorker, do_run, handle_run_result}
use fuzztruction_net.Worker.Tests.{program}
use fuzztruction_net.Fuzzing as Fuzzing
use fuzztruction_net.Fuzzing.{
  Mutator, Candidate, Flow, go_on, stopped, Run, Task, Fuzzed, fuzz_candidates,
}
use fuzztruction_net.Fuzzing.Restored.{AllKept, fuzz_candidates-AllKept}
use fuzztruction_net.Fuzzing.Plan.{
  turn_to, use_mutator, run_with, plan, settled, State, perform_all,
}
use fuzztruction_net.Fuzzing.Complete.{fuzz_candidates-plan}

abbrev worker : FuzzingWorker
worker = record {
  entry = parent;
  phase = FuzzingPhase.mutate;
  mutator = MutatorType.nop;
  patch_point = 0;
  mutations = [];
  virgin_map = virgin;
  crash_virgin_map = virgin;
  shared_virgin_map = virgin;
  shared_crash_virgin_map = virgin;
  queue = record { entries = [] };
  next_id = 5;
}

abbrev flip_once : Mutator
flip_once = record {
  mutator_type = MutatorType.flip_once;
  masks = (255 ∷ []) ∷ [];
  steps_total = 1;
  one_shot = true;
}

abbrev count_bytes : Mutator
count_bytes = record {
  mutator_type = MutatorType.u8_counter;
  masks = (1 ∷ []) ∷ (2 ∷ []) ∷ [];
  steps_total = 2;
  one_shot = false;
}

abbrev cs : List Candidate
cs =
    record { id = 8; msk = []; enabled = true; mutators = count_bytes ∷ [] }
    ∷ record { id = 9; msk = 0 ∷ []; enabled = false; mutators = flip_once ∷ count_bytes ∷ [] }
    ∷ []

-- The sink runs into its timeout each time.
abbrev run : Run
run = record {
  result = ok timed_out;
  coverage = coverage;
  seen = record { now = 10; cycles = [] };
  update_due = false;
  should_stop = false;
  overdue = false;
}

abbrev quiet : Task
quiet = record { env = env; runs = λ i. run; timeout = none; skip_after_first_path = false }

-- The first run of the sink terminates with a new edge, and later ones with the same.
abbrev terminating : Task
terminating = record quiet {
  runs = λ i. record run {
    result = ok terminated;
    seen = record {
      now = 30;
      cycles = record { result = ok terminated; duration = 15; bitmap = coverage } ∷ [];
    };
  };
}

abbrev start : State
start = record {
  worker = worker;
  stats = record EventCounter.new { init_ts = some 3 };
  log = [];
  count = 0;
}

fuzz_candidates-plan_example : fuzz_candidates terminating 3 false cs worker EventCounter.new ≡ (
    perform_all terminating (plan cs) start >>= λ s. ok (record {
      worker = s.worker;
      shared_stats = add_assign EventCounter.new s.stats;
      candidates = map settled cs;
      log = s.log;
      flow = go_on;
    }))
fuzz_candidates-plan_example =
    fuzz_candidates-plan terminating refl (λ i. refl) 3 cs worker EventCounter.new refl

planned :
    plan cs
    ≡ turn_to 8
      ∷ turn_to 9
      ∷ use_mutator MutatorType.flip_once
      ∷ run_with (9, 255 ∷ [], true)
      ∷ use_mutator MutatorType.u8_counter
      ∷ run_with (9, 1 ∷ [], false)
      ∷ run_with (9, 2 ∷ [], false)
      ∷ []
planned = refl

-- What is seen of a phase that ends: the counters of edges and runs, the number of new queue entries, and the runs.
abbrev summary : Result Fuzzed → List ℕ × List (ℕ × List ℕ × Bool)
summary (ok r) =
    (r.shared_stats.edges_found ∷ r.shared_stats.execs ∷ length r.worker.queue.entries ∷ [], r.log)
summary (err e) = ([], [])
summary panicked = ([], [])

terminates :
    summary (fuzz_candidates terminating 3 false cs worker EventCounter.new)
    ≡ (1 ∷ 3 ∷ 1 ∷ [], (9, 2 ∷ [], false) ∷ (9, 1 ∷ [], false) ∷ (9, 255 ∷ [], true) ∷ [])
unfolding program fuzz_candidates do_run init add_assign
terminates = refl

abbrev stopping : Task
stopping = record quiet { runs = λ i. record run { update_due = true; should_stop = true } }

-- What is left after one run, which ends in the state `flow` with the flag `enabled` of the second entry.
abbrev ended : Bool → Flow → Fuzzed
ended enabled flow = record {
  worker = record worker { patch_point = 9; mutator = MutatorType.flip_once };
  shared_stats =
      add_assign EventCounter.new
        (record EventCounter.new { init_ts = some 3; execs = 1; sink_timeout = 1 });
  candidates =
      record { id = 8; msk = []; enabled = true; mutators = count_bytes ∷ [] }
      ∷ record { id = 9; msk = 0 ∷ []; enabled = enabled; mutators = flip_once ∷ count_bytes ∷ [] }
      ∷ [];
  log = (9, 255 ∷ [], true) ∷ [];
  flow = flow;
}

stops : fuzz_candidates stopping 3 false cs worker EventCounter.new ≡ ok (ended false stopped)
unfolding fuzz_candidates do_run handle_run_result init
stops = refl

fuzz_candidates-AllKept_example : AllKept cs (ended false stopped).candidates
fuzz_candidates-AllKept_example =
    fuzz_candidates-AllKept stopping 3 false cs worker EventCounter.new (ended false stopped) stops
      refl

-- The timeout leaves the entry enabled.
abbrev impatient : Task
impatient = record quiet { runs = λ i. record run { update_due = true }; timeout = some 1 }

left_enabled :
    fuzz_candidates impatient 3 false cs worker EventCounter.new ≡ ok (ended true Fuzzing.timed_out)
unfolding fuzz_candidates do_run handle_run_result init time_since_last_new_path_or_crash
left_enabled = refl
