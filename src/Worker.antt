-- ===== src/Worker.antt =====
-- scheduler/src/fuzzer/worker_impl/phases/run_common.rs, and check_virgin_maps of worker_impl/common.rs: what
-- a worker does with a run of source and sink. The bitmap that the run left in the sink, and the cycles of
-- a calibration, are arguments. The maps that the workers share are fields of the state of the worker that holds
-- their lock. Logging, the files of interesting inputs and the reports to the cerebrum are left out,
-- among them `check_if_nop_mutator_produced_different_coverage`, which only logs.
pub mod Maps
pub mod Sharing
pub mod Classes
pub mod Entries
pub mod Findings
pub mod Tests
use fuzztruction_net.Base.{
  ℕ, suc, Bool, true, false, ◌&&◌, Option, none, some, List, [], ◌∷◌, if◌then◌else◌, ◌==◌,
}
use fuzztruction_net.Base as Base
use fuzztruction_net.Bitmap.{
  Bitmap, BitmapStatus, no_change, new_hit, new_edge, copy_from, has_new_bit, not_map,
  classify_counts, count_bits_set, count_bytes_set, clone_with_pattern,
}
use fuzztruction_net.EventCounter.{FuzzerEventCounter, add_u64}
use fuzztruction_net.Mutators.{MutatorType}
use fuzztruction_net.Queue.{FuzzingPhase, Queue, same_phase, mark_favoured_once}
use fuzztruction_net.Queue as Queue
use fuzztruction_net.Queue.Entry.{QueueEntry, Origin}
use fuzztruction_net.Calibration.{
  RunResult, terminated, timed_out, signalled, SourceResult, source_terminated, source_timed_out,
  source_signalled, ExecError, source_error, no_source_output, duplicated_output, Error,
  calibration_error, exec_error, unexpected, Result, ok, err, panicked, ◌>>=◌, unwrap, Env, Cycle,
  common_calibrate,
}

-- The verdict, and the local and the global map.
unfoldable pub check_virgin_maps :
    Bitmap → Bitmap → Bitmap → Option (BitmapStatus × Bitmap × Bitmap)
check_virgin_maps coverage_map local_virgin global_virgin =
    let (has_new_bits, local) = has_new_bit coverage_map local_virgin in
    let (global_bits, global) = has_new_bit coverage_map global_virgin in
    let consult : Option (BitmapStatus × Bitmap × Bitmap) =
      Base.◌>>=◌ (copy_from local global) (λ l. some (global_bits, l, global)) in
    elim has_new_bits [
      | no_change ↦ some (no_change, local, global_virgin)
      | new_hit ↦ consult
      | new_edge ↦ consult
    ]

-- The fields of FuzzingWorker and of its FuzzerState that a run reads or changes; `next_id` is
-- QUEUE_ENTRY_NEXT_ID, and `mutations` the ids of the entries in the source's cache that are not nop.
pub record FuzzingWorker : Type 0 where
  pub entry : QueueEntry
  pub phase : FuzzingPhase
  pub mutator : MutatorType
  pub patch_point : ℕ
  pub mutations : List ℕ
  pub virgin_map : Bitmap
  pub crash_virgin_map : Bitmap
  pub shared_virgin_map : Bitmap
  pub shared_crash_virgin_map : Bitmap
  pub queue : Queue QueueEntry
  pub next_id : ℕ

-- A new entry with its bits is queued; `virgin` is the map that the calibration cleared.
mark_new : BitmapStatus → QueueEntry → QueueEntry
mark_new new_edge qe = record qe { stats = mark_favoured_once qe.stats }
mark_new new_hit qe = qe
mark_new no_change qe = qe

queue_entry : BitmapStatus → QueueEntry → Bitmap → FuzzingWorker → FuzzingWorker × Option QueueEntry
unfolding mark_new
queue_entry bitmap_status calibrated virgin self =
    let entry : QueueEntry = mark_new bitmap_status calibrated in
    let covered : Bitmap = not_map virgin in
    let cleared : Bitmap = (has_new_bit self.virgin_map covered).1 in
    (
      record self {
        queue = Queue.push entry self.queue;
        next_id = suc self.next_id;
        shared_virgin_map = (has_new_bit cleared self.shared_virgin_map).1;
      },
      some entry,
    )

-- A calibration that fails with a known error gives no entry.
calibration_result :
    BitmapStatus
    → Result (QueueEntry × Bitmap)
    → FuzzingWorker
    → Result (FuzzingWorker × Option QueueEntry)
unfolding queue_entry
calibration_result bitmap_status (ok (entry, virgin)) self =
    ok (queue_entry bitmap_status entry virgin self)
calibration_result bitmap_status (err (calibration_error e)) self = ok (self, none)
calibration_result bitmap_status (err (exec_error e)) self = err (exec_error e)
calibration_result bitmap_status (err unexpected) self = err unexpected
calibration_result bitmap_status panicked self = panicked

-- `coverage` is the sink's bitmap, of whose size a map of 0xff is made.
pub create_new_queue_entry :
    Env
    → BitmapStatus
    → Bool
    → Bitmap
    → List Cycle
    → FuzzingWorker
    → Result (FuzzingWorker × Option QueueEntry)
unfolding calibration_result
create_new_queue_entry env bitmap_status is_crash coverage cycles self = do
  virgin_map ← unwrap (clone_with_pattern coverage 0xff)
  let origin : Origin = record {
    phase = some self.phase;
    mutator = some self.mutator;
    patch_point = some self.patch_point;
    mutations = some self.mutations;
  }
  calibration_result bitmap_status
      (common_calibrate env (env.scaled self.entry.avg_exec_duration_raw) is_crash (some self.entry)
        origin self.next_id cycles virgin_map)
      self

-- A run that terminated is not an error: that is unreachable.
pub handle_source_exec_error : ExecError → FuzzerEventCounter → Result FuzzerEventCounter
handle_source_exec_error (source_error source_timed_out) stats =
    ok (record stats { source_timeout = add_u64 stats.source_timeout 1 })
handle_source_exec_error (source_error source_signalled) stats =
    ok (record stats { source_crashes = add_u64 stats.source_crashes 1 })
handle_source_exec_error (source_error source_terminated) stats = panicked
handle_source_exec_error no_source_output stats =
    ok (record stats { source_no_output = add_u64 stats.source_no_output 1 })
handle_source_exec_error duplicated_output stats =
    ok (record stats { source_duplicated_output = add_u64 stats.source_duplicated_output 1 })

-- The time after a run, and the cycles of the calibration that it may lead to.
pub record Observed : Type 0 where
  pub now : ℕ
  pub cycles : List Cycle

-- The worker and the counters afterwards.
abbrev pub Handled : Type 0
Handled = Result (FuzzingWorker × FuzzerEventCounter)

pub count_finding : BitmapStatus → FuzzerEventCounter → FuzzerEventCounter
count_finding new_edge stats = record stats { edges_found = add_u64 stats.edges_found 1 }
count_finding new_hit stats = record stats { hits_found = add_u64 stats.hits_found 1 }
count_finding no_change stats = stats

-- The global map was consulted: with new bits there, a new entry is made.
pub global_finding :
    Env → BitmapStatus → Bitmap → Observed → FuzzerEventCounter → FuzzingWorker → Handled
unfolding create_new_queue_entry count_finding
global_finding env no_change coverage seen stats self = ok (self, stats)
global_finding env status coverage seen stats self = do
  (self', entry) ← create_new_queue_entry env status false coverage seen.cycles self
  ok (self', record (count_finding status stats) { last_finding_ts = some seen.now })

-- New coverage in the local map: the global map decides.
pub consult_global : Env → Bitmap → Observed → FuzzerEventCounter → FuzzingWorker → Handled
unfolding global_finding
consult_global env coverage seen stats self =
    let (status, global) = has_new_bit coverage self.shared_virgin_map in
    do
      local ← unwrap (copy_from self.virgin_map global)
      global_finding env status coverage seen stats
          (record self { virgin_map = local; shared_virgin_map = global })

-- In the discovery phase a run that covers at most about as much as the entry is ignored.
pub ignored : Env → Bitmap → FuzzingWorker → Bool
ignored env coverage self =
    same_phase self.phase Queue.discovery
    && env.mostly_covered (count_bits_set self.entry.covered_edges) (count_bytes_set coverage)

-- With the bitmap classified.
pub terminated_with : Env → Bitmap → Observed → FuzzerEventCounter → FuzzingWorker → Handled
unfolding ignored consult_global
terminated_with env coverage seen stats self =
    let (new_coverage, virgin) = has_new_bit coverage self.virgin_map in
    let self' : FuzzingWorker = record self { virgin_map = virgin } in
    let consult : Handled = consult_global env coverage seen stats self' in
    if ignored env coverage self then ok (self', stats) else elim new_coverage [
      | no_change ↦ ok (self', stats)
      | new_hit ↦ consult
      | new_edge ↦ consult
    ]

pub handle_run_result_terminated :
    Env → Bitmap → Observed → FuzzerEventCounter → FuzzingWorker → Handled
unfolding terminated_with
handle_run_result_terminated env coverage seen stats self =
    terminated_with env (classify_counts coverage) seen stats self

crash_finding :
    Env → BitmapStatus → Bitmap → Observed → FuzzerEventCounter → FuzzingWorker → Handled
unfolding create_new_queue_entry
crash_finding env no_change coverage seen stats self = ok (self, stats)
crash_finding env status coverage seen stats self = do
  (self', entry) ← create_new_queue_entry env status true coverage seen.cycles self
  ok (
    self',
    record stats {
      sink_unique_crashes = add_u64 stats.sink_unique_crashes 1;
      last_crash_ts = some seen.now;
    },
  )

pub signalled_with : Env → Bitmap → Observed → FuzzerEventCounter → FuzzingWorker → Handled
unfolding crash_finding check_virgin_maps
signalled_with env coverage seen stats self = do
  (new_bits, local, global) ←
      unwrap (check_virgin_maps coverage self.crash_virgin_map self.shared_crash_virgin_map)
  crash_finding env new_bits coverage seen stats
      (record self { crash_virgin_map = local; shared_crash_virgin_map = global })

pub handle_run_result_signalled :
    Env → Bitmap → Observed → FuzzerEventCounter → FuzzingWorker → Handled
unfolding signalled_with
handle_run_result_signalled env coverage seen stats self =
    signalled_with env (classify_counts coverage) seen stats self

unfoldable pub handle_run_result :
    Env → RunResult → Bitmap → Observed → FuzzerEventCounter → FuzzingWorker → Handled
unfolding handle_run_result_terminated handle_run_result_signalled
handle_run_result env terminated coverage seen stats self =
    handle_run_result_terminated env (classify_counts coverage) seen
      (record stats { successful_source_execs = add_u64 stats.successful_source_execs 1 }) self
handle_run_result env (signalled signal) coverage seen stats self =
    handle_run_result_signalled env (classify_counts coverage) seen
      (record stats { sink_crashes = add_u64 stats.sink_crashes 1 }) self
handle_run_result env timed_out coverage seen stats self =
    ok (self, record stats { sink_timeout = add_u64 stats.sink_timeout 1 })

-- With the result of `common_run`; unknown errors are fatal.
unfoldable pub do_run :
    Env → Result RunResult → Bitmap → Observed → FuzzerEventCounter → FuzzingWorker → Handled
unfolding handle_run_result handle_source_exec_error
do_run env (ok run_result) coverage seen stats self =
    handle_run_result env run_result coverage seen stats self
do_run env (err (exec_error e)) coverage seen stats self = do
  stats' ← handle_source_exec_error e stats
  ok (self, stats')
do_run env (err (calibration_error e)) coverage seen stats self = err (calibration_error e)
do_run env (err unexpected) coverage seen stats self = err unexpected
do_run env panicked coverage seen stats self = panicked
