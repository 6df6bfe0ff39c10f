-- ===== src/Calibration.antt =====
-- scheduler/src/fuzzer/common.rs: a run of source and sink, and the calibration of a new queue entry. What
-- the two processes do in a run is an argument: how it ended, how long it took and the coverage bitmap
-- that it left. The timeouts, the packet capture and the runs over a network are left out.
pub mod Outputs
pub mod Cycles
pub mod Tests
use fuzztruction_net.Base.{
  ℕ, suc, ◌*◌, max, Bool, true, false, not, ◌&&◌, ◌||◌, Option, none, some, List, [], ◌∷◌, ltb,
  ◌==◌, if◌then◌else◌,
}
use fuzztruction_net.Bitmap.{Bitmap, classify_counts, has_new_bit}
use fuzztruction_net.IntegerSet.{elem}
use fuzztruction_net.Queue.Entry.{QueueEntry, Origin, set_parent}
use fuzztruction_net.Queue.Entry as Entry

-- sink::RunResult and source::RunResult, without exit codes and output.
pub data RunResult : Type 0 where
  terminated timed_out : RunResult
  signalled : ℕ → RunResult

pub data SourceResult : Type 0 where
  source_terminated source_timed_out source_signalled : SourceResult

pub data CalibrationError : Type 0 where
  sink_unstable duration_variance_too_high calibration_no_output : CalibrationError
  source_execution_failed : SourceResult → CalibrationError
  sink_execution_failed : RunResult → CalibrationError

pub data ExecError : Type 0 where
  source_error : SourceResult → ExecError
  no_source_output duplicated_output : ExecError

-- The errors that callers tell apart, and all others.
pub data Error : Type 0 where
  calibration_error : CalibrationError → Error
  exec_error : ExecError → Error
  unexpected : Error

-- What a fallible function ends with.
pub data Result {ℓ} (V : Type ℓ) : Type ℓ where
  panicked : Result V
  err : Error → Result V
  ok : V → Result V

infixl 5 ◌>>=◌
-- A panic and an error end the chain.
abbrev pub ◌>>=◌ {ℓ κ} : {V : Type ℓ} {W : Type κ} → Result V → (V → Result W) → Result W
panicked >>= next = panicked
err reason >>= next = err reason
ok v >>= next = next v

abbrev pub unwrap {ℓ} : {A : Type ℓ} → Option A → Result A
unwrap none = panicked
unwrap (some a) = ok a

-- The code that a run depends on and that the model takes as given: the hash of a bitmap, a duration times
-- EXECUTION_TIMEOUT_MULTIPLYER, the `f32` test whether 0.98 times the first count is at least the
-- second, and two settings of the sink.
pub record Env : Type 0 where
  pub hash32 : Bitmap → ℕ
  pub scaled : ℕ → ℕ
  pub mostly_covered : ℕ → ℕ → Bool
  pub send_sigterm : Bool
  pub allow_unstable_sink : Bool

-- The first part of `common_run`, up to the check under the read lock: how the source ended and its output, against
-- the hashes of the outputs seen so far. It gives the hash of a new output.
check_hash : (List ℕ → ℕ) → List ℕ → List ℕ → Result ℕ
check_hash hash [] seen = err (exec_error no_source_output)
check_hash hash (b ∷ bs) seen =
    if elem (hash (b ∷ bs)) seen then err (exec_error duplicated_output) else ok (hash (b ∷ bs))

pub check_output : (List ℕ → ℕ) → Result SourceResult → List ℕ → List ℕ → Result ℕ
unfolding check_hash
check_output hash (err e) output seen = err e
check_output hash panicked output seen = panicked
check_output hash (ok source_terminated) output seen = check_hash hash output seen
check_output hash (ok source_timed_out) output seen =
    err (exec_error (source_error source_timed_out))
check_output hash (ok source_signalled) output seen =
    err (exec_error (source_error source_signalled))

-- The insert under the write lock, into a set.
pub insert_output : ℕ → List ℕ → List ℕ
insert_output h seen = if elem h seen then seen else h ∷ seen

-- The inserts of other workers.
pub insert_outputs : List ℕ → List ℕ → List ℕ
unfolding insert_output
insert_outputs [] seen = seen
insert_outputs (h ∷ hs) seen = insert_outputs hs (insert_output h seen)

-- `others` are the hashes that other workers insert after the read lock is dropped and before the write lock is
-- taken; `sink` is how the sink ends if it is run.
pub common_run :
    (List ℕ → ℕ)
    → Result SourceResult
    → List ℕ
    → List ℕ
    → Result RunResult
    → List ℕ
    → List ℕ × Result RunResult
unfolding check_output insert_outputs
common_run hash source output others sink seen = elim (check_output hash source output seen) [
  | panicked ↦ (seen, panicked)
  | err e ↦ (seen, err e)
  | ok h ↦ (insert_output h (insert_outputs others seen), sink)
]

-- `common_calibration_run`, without the check for outputs seen before.
calibrate_output : List ℕ → Result RunResult → Result RunResult
calibrate_output [] sink = err (calibration_error calibration_no_output)
calibrate_output (b ∷ bs) sink = sink

pub common_calibration_run : Result SourceResult → List ℕ → Result RunResult → Result RunResult
unfolding calibrate_output
common_calibration_run (err e) output sink = err e
common_calibration_run panicked output sink = panicked
common_calibration_run (ok source_terminated) output sink = calibrate_output output sink
common_calibration_run (ok source_timed_out) output sink =
    err (calibration_error (source_execution_failed source_timed_out))
common_calibration_run (ok source_signalled) output sink =
    err (calibration_error (source_execution_failed source_signalled))

-- One cycle: the result of `common_calibration_run`, its duration, and the bitmap afterwards.
pub record Cycle : Type 0 where
  pub result : Result RunResult
  pub duration : ℕ
  pub bitmap : Bitmap

pub record Calibration : Type 0 where
  pub exec_durations : List ℕ
  pub bitmaps : List Bitmap
  pub virgin_map : Bitmap

pub check_outcome : Bool → RunResult → Result (Unit {0})
check_outcome is_crash terminated = ok tt
check_outcome true (signalled s) = ok tt
check_outcome false (signalled s) = err (calibration_error (sink_execution_failed (signalled s)))
check_outcome is_crash timed_out = err (calibration_error (sink_execution_failed timed_out))

-- The bitmaps and durations stand in the order from the last cycle to the first.
pub calibrate_cycle : Env → Bool → ℕ → Cycle → Calibration → Result Calibration
unfolding check_outcome
calibrate_cycle env is_crash timeout c s = do
  sink_res ← c.result
  checked ← check_outcome is_crash sink_res
  if not env.send_sigterm && ltb timeout c.duration
      then err (calibration_error duration_variance_too_high)
      else ok (record {
        exec_durations = c.duration ∷ s.exec_durations;
        bitmaps = classify_counts c.bitmap ∷ s.bitmaps;
        virgin_map = (has_new_bit (classify_counts c.bitmap) s.virgin_map).1;
      })

pub calibrate_loop : Env → Bool → ℕ → List Cycle → Calibration → Result Calibration
unfolding calibrate_cycle
calibrate_loop env is_crash timeout [] s = ok s
calibrate_loop env is_crash timeout (c ∷ cs) s = do
  s' ← calibrate_cycle env is_crash timeout c s
  calibrate_loop env is_crash timeout cs s'

pub max_duration : List ℕ → ℕ
max_duration [] = 0
max_duration (d ∷ ds) = max d (max_duration ds)

-- More than one hash.
pub all_hash_to : (Bitmap → ℕ) → ℕ → List Bitmap → Bool
all_hash_to hash h [] = true
all_hash_to hash h (b ∷ bs) = (hash b == h) && all_hash_to hash h bs

-- The entry that the end of `common_calibrate` makes, from the cycles done; without a cycle there is no maximal duration to unwrap. The last bitmap
-- is classified again.
pub finish :
    Env → Bool → Option QueueEntry → Origin → ℕ → Calibration → Result (QueueEntry × Bitmap)
unfolding max_duration all_hash_to
finish env is_crash parent origin next_id s = elim s.bitmaps [
  | [] ↦ panicked
  | b ∷ bs ↦
      let stable : Bool = all_hash_to env.hash32 (env.hash32 b) bs in
      let last : Bitmap = classify_counts b in
      if stable || env.allow_unstable_sink
      then (unwrap (
            Entry.new next_id origin (env.hash32 last) (max_duration s.exec_durations) (not stable)
              last is_crash)
          >>= λ qe. ok (elim parent [ none ↦ qe | some p ↦ set_parent p qe ], s.virgin_map))
      else err (calibration_error sink_unstable)
]

-- The entry and the virgin map, from which the bits of all cycles are cleared.
unfoldable pub common_calibrate :
    Env
    → ℕ
    → Bool
    → Option QueueEntry
    → Origin
    → ℕ
    → List Cycle
    → Bitmap
    → Result (QueueEntry × Bitmap)
unfolding calibrate_loop finish
common_calibrate env default_timeout is_crash parent origin next_id cycles virgin_map = do
  let timeout = if env.send_sigterm then default_timeout * 2 else default_timeout
  s ←
      calibrate_loop env is_crash timeout cycles
        (record { exec_durations = []; bitmaps = []; virgin_map = virgin_map })
  finish env is_crash parent origin next_id s
