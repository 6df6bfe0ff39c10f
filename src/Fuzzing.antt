-- ===== src/Fuzzing.antt =====
-- scheduler/src/fuzzer/worker_impl/phases/run_phase.rs: the loop in which a phase applies mutators to the entries of
-- the cache. A mutator is given by the masks that its iteration shows, which Mutators.visit lists, and
-- puts the mask back when it is dropped. What source, sink and clock do in a run is an argument. Logging, the
-- messages that sync the mutations to the source, the number of runs left, which is only logged, the estimates of run time and the reports to the cerebrum
-- are left out.
pub mod Restored
pub mod Complete
pub mod Plan
pub mod Tests
use fuzztruction_net.Base.{
  ℕ, suc, ◌+◌, ◌-◌, Bool, true, false, not, ◌&&◌, Option, none, some, List, [], ◌∷◌, ◌++◌,
  if◌then◌else◌, ◌==◌, ltb,
}
use fuzztruction_net.Bitmap.{Bitmap}
use fuzztruction_net.EventCounter.{
  FuzzerEventCounter, add_u64, paths, time_since_last_new_path_or_crash, add_assign, init,
}
use fuzztruction_net.EventCounter as EventCounter
use fuzztruction_net.Mutators.{MutatorType}
use fuzztruction_net.Calibration.{RunResult, Result, ok, panicked, ◌>>=◌, unwrap, Env}
use fuzztruction_net.Worker.{FuzzingWorker, Observed, do_run}

pub record Mutator : Type 0 where
  pub mutator_type : MutatorType
  pub masks : List (List ℕ)
  pub steps_total : ℕ
  pub one_shot : Bool

-- An entry of the cache with the mutators to apply to it.
pub record Candidate : Type 0 where
  pub id : ℕ
  pub msk : List ℕ
  pub enabled : Bool
  pub mutators : List Mutator

-- A run: what `common_run` gives, the bitmap, what is observed afterwards; whether an update is due, the worker
-- is to stop, and the entry is fuzzed for longer than a minute.
pub record Run : Type 0 where
  pub result : Result RunResult
  pub coverage : Bitmap
  pub seen : Observed
  pub update_due : Bool
  pub should_stop : Bool
  pub overdue : Bool

-- Why the loop over a mutator ends, if it does: `break 'mce`, or one of the two `break 'exit`.
pub data Flow : Type 0 where
  go_on skipped stopped timed_out : Flow

-- `log` lists the runs so far, the last one first: the id of the entry, its mask, and whether it was enabled.
pub record Fuzzing : Type 0 where
  pub worker : FuzzingWorker
  pub stats : FuzzerEventCounter
  pub enabled : Bool
  pub log : List (ℕ × List ℕ × Bool)
  pub count : ℕ

-- The arguments of `fuzz_candidates`, and what the runs do.
pub record Task : Type 0 where
  pub env : Env
  pub runs : ℕ → Run
  pub timeout : Option ℕ
  pub skip_after_first_path : Bool

-- True where the loop is to be left; the time of the check is the end of the run.
pub check_if_no_new_coverage_timeout_was_exceeded : Option ℕ → ℕ → FuzzerEventCounter → Option Bool
check_if_no_new_coverage_timeout_was_exceeded none now stats = some false
check_if_no_new_coverage_timeout_was_exceeded (some t) now stats = elim stats.init_ts [
  | none ↦ none
  | some init_ts ↦ some (
      if ltb (now - init_ts) t
      then false
      else elim (time_since_last_new_path_or_crash now stats) [ none ↦ true | some d ↦ ltb t d ])
]

-- The counters when the loops over an entry and over a mutator began.
pub record Started : Type 0 where
  pub mce_start_paths_cnt : ℕ
  pub mce_start_successful_source_execs : ℕ

-- After a run. Panics where more runs are done than the mutator announced.
pub decide : Task → Mutator → Started → ℕ → Run → FuzzerEventCounter → Option Flow
unfolding check_if_no_new_coverage_timeout_was_exceeded
decide task m started mutator_start_execs run stats =
    let mutator_execs_done = EventCounter.sub_u64 stats.execs mutator_start_execs in
    let unsuccessful = started.mce_start_successful_source_execs == stats.successful_source_execs in
    if task.skip_after_first_path && not (started.mce_start_paths_cnt == paths stats)
    then some skipped
    else if not run.update_due
    then some go_on
    else if ltb m.steps_total mutator_execs_done
    then none
    else if run.should_stop
    then some stopped
    else elim (check_if_no_new_coverage_timeout_was_exceeded task.timeout run.seen.now stats) [
      | none ↦ none
      | some exceeded ↦
          some
            (if exceeded then timed_out else if unsuccessful && run.overdue then skipped else go_on)
    ]

-- A mutator that is to be used once disables the entry where the loop is left, except by the timeout.
pub disable_after : Flow → Mutator → Bool → Bool
disable_after go_on m enabled = enabled
disable_after skipped m enabled = if m.one_shot then false else enabled
disable_after stopped m enabled = if m.one_shot then false else enabled
disable_after timed_out m enabled = enabled

-- One run with a mask in the entry.
pub fuzz_mask : Task → ℕ → Mutator → Started → ℕ → List ℕ → Fuzzing → Result (Fuzzing × Flow)
unfolding decide disable_after
fuzz_mask task id m started mutator_start_execs mask s = do
  let run = task.runs s.count
  let stats = record s.stats { execs = add_u64 s.stats.execs 1 }
  (worker, stats') ← do_run task.env run.result run.coverage run.seen stats s.worker
  flow ← unwrap (decide task m started mutator_start_execs run stats')
  ok (
    record {
      worker = worker;
      stats = stats';
      enabled = disable_after flow m s.enabled;
      log = (id, mask, s.enabled) ∷ s.log;
      count = suc s.count;
    },
    flow,
  )

-- The rest of a loop, unless it is left.
pub continue_with : Fuzzing × Flow → (Fuzzing → Result (Fuzzing × Flow)) → Result (Fuzzing × Flow)
continue_with (s, go_on) rest = rest s
continue_with (s, skipped) rest = ok (s, skipped)
continue_with (s, stopped) rest = ok (s, stopped)
continue_with (s, timed_out) rest = ok (s, timed_out)

pub fuzz_masks :
    Task → ℕ → Mutator → Started → ℕ → List (List ℕ) → Fuzzing → Result (Fuzzing × Flow)
unfolding fuzz_mask continue_with
fuzz_masks task id m started mutator_start_execs [] s =
    ok (record s { enabled = if m.one_shot then false else s.enabled }, go_on)
fuzz_masks task id m started mutator_start_execs (mask ∷ masks) s =
    fuzz_mask task id m started mutator_start_execs mask s >>= λ r.
    continue_with r (fuzz_masks task id m started mutator_start_execs masks)

-- The loop over a mutator, which enables the entry for itself if it is to be used once.
pub fuzz_mutator : Task → ℕ → Started → Mutator → Fuzzing → Result (Fuzzing × Flow)
unfolding fuzz_masks
fuzz_mutator task id started m s = fuzz_masks task id m started s.stats.execs m.masks (record s {
  worker = record s.worker { mutator = m.mutator_type };
  enabled = if m.one_shot then true else s.enabled;
})

pub fuzz_mutators : Task → ℕ → Started → List Mutator → Fuzzing → Result (Fuzzing × Flow)
unfolding fuzz_mutator continue_with
fuzz_mutators task id started [] s = ok (s, go_on)
fuzz_mutators task id started (m ∷ ms) s =
    fuzz_mutator task id started m s >>= λ r. continue_with r (fuzz_mutators task id started ms)

-- `break 'mce` goes on with the next entry.
pub after_mce : Flow → Flow
after_mce go_on = go_on
after_mce skipped = go_on
after_mce stopped = stopped
after_mce timed_out = timed_out

pub unless_empty : List ℕ → Fuzzing → Result (Fuzzing × Flow) → Result (Fuzzing × Flow)
unless_empty [] entered fuzzed = ok (entered, go_on)
unless_empty (b ∷ bs) entered fuzzed = fuzzed

-- One entry of the loop; an entry with an empty mask is left as it is.
pub fuzz_mce : Task → Candidate → Fuzzing → Result (Fuzzing × Flow)
unfolding fuzz_mutators after_mce unless_empty
fuzz_mce task c s =
    let started : Started = record {
      mce_start_paths_cnt = paths s.stats;
      mce_start_successful_source_execs = s.stats.successful_source_execs;
    } in
    let entered : Fuzzing = record s {
      worker = record s.worker { patch_point = c.id };
      enabled = c.enabled;
    } in
    let fuzzed : Result (Fuzzing × Flow) =
      fuzz_mutators task c.id started c.mutators entered >>= λ r. ok (r.0, after_mce r.1) in
    unless_empty c.msk entered fuzzed

-- The entries with their flags afterwards.
abbrev pub Mces : Type 0
Mces = Fuzzing × List Candidate × Flow

pub leave : Candidate → List Candidate → Fuzzing × Flow → (Fuzzing → Result Mces) → Result Mces
leave c cs (s, go_on) rest = rest s >>= λ r. ok (r.0, record c { enabled = s.enabled } ∷ r.1, r.2)
leave c cs (s, skipped) rest = ok (s, record c { enabled = s.enabled } ∷ cs, skipped)
leave c cs (s, stopped) rest = ok (s, record c { enabled = s.enabled } ∷ cs, stopped)
leave c cs (s, timed_out) rest = ok (s, record c { enabled = s.enabled } ∷ cs, timed_out)

pub fuzz_mces : Task → List Candidate → Fuzzing → Result Mces
unfolding fuzz_mce leave
fuzz_mces task [] s = ok (s, [], go_on)
fuzz_mces task (c ∷ cs) s = fuzz_mce task c s >>= λ r. leave c cs r (fuzz_mces task cs)

-- What the phase leaves behind: the worker, the counters that all workers share, the entries, and the runs.
pub record Fuzzed : Type 0 where
  pub worker : FuzzingWorker
  pub shared_stats : FuzzerEventCounter
  pub candidates : List Candidate
  pub log : List (ℕ × List ℕ × Bool)
  pub flow : Flow

-- `now` and `should_stop` are what the start of the function sees.
pub fuzz_candidates :
    Task → ℕ → Bool → List Candidate → FuzzingWorker → FuzzerEventCounter → Result Fuzzed
unfolding fuzz_mces
fuzz_candidates task now should_stop mutations worker shared_stats =
    let start : Result FuzzerEventCounter = unwrap (init now EventCounter.new) in
    let run_all : Result Fuzzed = start >>= λ stats.
    fuzz_mces task mutations
      (record { worker = worker; stats = stats; enabled = false; log = []; count = 0 })
    >>= λ r. ok (record {
      worker = r.0.worker;
      shared_stats = add_assign shared_stats r.0.stats;
      candidates = r.1;
      log = r.0.log;
      flow = r.2;
    }) in
    if worker.entry.is_crash
    then panicked
    else if should_stop
    then ok (record {
      worker = worker;
      shared_stats = shared_stats;
      candidates = mutations;
      log = [];
      flow = stopped;
    })
    else run_all
