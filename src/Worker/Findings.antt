-- ===== src/Worker/Findings.antt =====
-- scheduler/src/fuzzer/worker_impl/phases/run_common.rs: when a run of the sink that terminates is a finding.
use fuzztruction_net.Base.{◌≡◌, inl, inr, refl, ap, sym, ◌∙◌, true, false, some, arith, Option}
use fuzztruction_net.Bitmap.{Bitmap, BitmapStatus, no_change, new_hit, new_edge, has_new_bit}
use fuzztruction_net.Bitmap.Chunks.{IsValid}
use fuzztruction_net.Bitmap.Operators.{IsMap, IsMap-IsValid}
use fuzztruction_net.Bitmap.NewBits.{has_new_bit-IsValid, has_new_bit-size, has_new_bit_twice}
use fuzztruction_net.EventCounter.{FuzzerEventCounter, add_u64}
use fuzztruction_net.Queue.Entry.{QueueEntry}
use fuzztruction_net.Calibration.{ok, Env}
use fuzztruction_net.Calibration.Cycles.{succeeded, Sized, ok_eq}
use fuzztruction_net.Worker.{
  FuzzingWorker, Observed, ignored, count_finding, global_finding, consult_global, terminated_with,
  create_new_queue_entry,
}
use fuzztruction_net.Worker.Maps.{
  Within, Within-refl, has_new_bit-idle, no_change-no_hit, no_hit-Within, synced-IsValid, copied,
}
use fuzztruction_net.Worker.Sharing.{Local}
use fuzztruction_net.Worker.Entries.{Queued, create_new_queue_entry-Queued}

-- A map that has no more bits than what the coverage left of another one: the coverage brings it nothing.
spent_map-idle :
    (coverage virgin later : Bitmap)
    → IsValid coverage
    → IsValid virgin
    → coverage.size ≡ virgin.size
    → IsValid later
    → later.size ≡ virgin.size
    → Within later.bytes (has_new_bit coverage virgin).1.bytes
    → has_new_bit coverage later ≡ (no_change, later)
spent_map-idle coverage virgin later v w e l size within =
    let left : Bitmap = (has_new_bit coverage virgin).1 in
    let left_valid : IsValid left = has_new_bit-IsValid coverage virgin v w e in
    let left_size : coverage.size ≡ left.size = e ∙ sym (has_new_bit-size coverage virgin v w e) in
    let twice : (has_new_bit coverage left).0 ≡ no_change =
      ap (λ r. r.0) (has_new_bit_twice coverage virgin v w e) in
    has_new_bit-idle coverage later v l (e ∙ sym size) (
      no_hit-Within coverage.bytes later.bytes left.bytes v.are_bytes within
        (no_change-no_hit coverage left v left_valid left_size twice))

-- A run that is ignored in the discovery phase clears its coverage from the local map alone: the shared map and the
-- queue stay as they are. In any later state of the worker whose local map is of that size and has, since
-- then, only lost bits, a run with the same coverage is no finding: whatever the phase, the shared map, the
-- queue and the counters have become by then, it leaves the worker and the counters as they are.
pub terminated_with-ignored :
    (env : Env) (coverage : Bitmap) (seen later : Observed) (stats stats' : FuzzerEventCounter)
    (self w : FuzzingWorker)
    → IsValid coverage
    → IsValid self.virgin_map
    → coverage.size ≡ self.virgin_map.size
    → ignored env coverage self ≡ true
    → IsValid w.virgin_map
    → w.virgin_map.size ≡ self.virgin_map.size
    → Within w.virgin_map.bytes (has_new_bit coverage self.virgin_map).1.bytes
    → (terminated_with env coverage seen stats self
        ≡ ok (record self { virgin_map = (has_new_bit coverage self.virgin_map).1 }, stats))
      × (terminated_with env coverage later stats' w ≡ ok (w, stats'))
unfolding terminated_with
terminated_with-ignored env coverage seen later stats stats' self w v own e h l size within =
    (rw h refl, again (spent_map-idle coverage self.virgin_map w.virgin_map v own e l size within))
  where
    again :
        has_new_bit coverage w.virgin_map ≡ (no_change, w.virgin_map)
        → terminated_with env coverage later stats' w ≡ ok (w, stats')
    again t = rw t (ground arith)

module _ (env : Env) (coverage : Bitmap) (seen : Observed) (stats : FuzzerEventCounter)
    (self : FuzzingWorker) (m : IsMap coverage) (sized : Sized coverage.size seen.cycles)
    (local : Local self.shared_virgin_map self.virgin_map) (valid : IsValid self.shared_virgin_map)
    (same : coverage.size ≡ self.shared_virgin_map.size) where
  -- The worker after it cleared the coverage from the shared map, and its own map is a copy of that.
  abbrev pub base : FuzzingWorker
  base = record self {
    virgin_map = record self.virgin_map {
      bytes = (has_new_bit coverage self.shared_virgin_map).1.bytes;
    };
    shared_virgin_map = (has_new_bit coverage self.shared_virgin_map).1;
  }

  -- By the verdict of the shared map: nothing is counted, or one finding of the kind at the time of the run, and
  -- an entry may be queued.
  abbrev pub Found : BitmapStatus → FuzzingWorker → FuzzerEventCounter → Type 0
  Found no_change self' stats' = (stats' ≡ stats) × (self'.queue ≡ self.queue)
  Found new_edge self' stats' =
      (stats' ≡ record stats {
        edges_found = add_u64 stats.edges_found 1;
        last_finding_ts = some seen.now;
      })
      × ((entry : Option QueueEntry) × Queued env new_edge false seen.cycles base self' entry)
  Found new_hit self' stats' =
      (stats'
        ≡ record stats { hits_found = add_u64 stats.hits_found 1; last_finding_ts = some seen.now })
      × ((entry : Option QueueEntry) × Queued env new_hit false seen.cycles base self' entry)

  v : IsValid coverage
  v = IsMap-IsValid coverage m

  base_valid : IsValid base.shared_virgin_map
  base_valid = has_new_bit-IsValid coverage self.shared_virgin_map v valid same

  base_size : coverage.size ≡ base.shared_virgin_map.size
  base_size = same ∙ sym (has_new_bit-size coverage self.shared_virgin_map v valid same)

  own_size : coverage.size ≡ self.virgin_map.size
  own_size = same ∙ sym (local.1)

  base_local : Local base.shared_virgin_map base.virgin_map
  base_local = (
    synced-IsValid coverage self.virgin_map self.shared_virgin_map v local.0 valid own_size same
        local.2,
    sym own_size ∙ base_size,
    Within-refl base.shared_virgin_map.bytes base_valid.are_bytes,
  )

  Queued-maps :
      (status : BitmapStatus) (self' : FuzzingWorker) (entry : Option QueueEntry)
      → Queued env status false seen.cycles base self' entry
      → (self'.shared_virgin_map ≡ base.shared_virgin_map) × (self'.virgin_map ≡ base.virgin_map)
  Queued-maps status self' entry (inl (e, s)) =
      (ap (λ w. w.shared_virgin_map) s, ap (λ w. w.virgin_map) s)
  Queued-maps status self' entry (inr (qe, e, s, i, k, d, p, f)) =
      (ap (λ w. w.shared_virgin_map) s, ap (λ w. w.virgin_map) s)

  queued :
      (status : BitmapStatus) (self' : FuzzingWorker) (entry : Option QueueEntry)
      → create_new_queue_entry env status false coverage seen.cycles base ≡ ok (self', entry)
      → Queued env status false seen.cycles base self' entry
  queued status self' entry h =
      create_new_queue_entry-Queued env status false coverage seen.cycles base m sized base_local
        base_valid base_size self' entry h

  -- The state and the counters that the shared map's verdict leads to.
  abbrev pub Handles : BitmapStatus → FuzzingWorker → FuzzerEventCounter → Type 0
  Handles status self' stats' =
      Found status self' stats'
      × (self'.shared_virgin_map ≡ base.shared_virgin_map)
      × Local self'.shared_virgin_map self'.virgin_map

  kept_local :
      (self' : FuzzingWorker)
      → (self'.shared_virgin_map ≡ base.shared_virgin_map) × (self'.virgin_map ≡ base.virgin_map)
      → Local self'.shared_virgin_map self'.virgin_map
  kept_local self' (s, l) = rw (s, l) base_local

  handles :
      (status : BitmapStatus) (self' : FuzzingWorker) (stats' : FuzzerEventCounter)
      → global_finding env status coverage seen stats base ≡ ok (self', stats')
      → Handles status self' stats'
  unfolding global_finding count_finding
  handles no_change self' stats' h =
      let e = ok_eq h in
      let shared : self'.shared_virgin_map ≡ base.shared_virgin_map =
        ap (λ r. r.0.shared_virgin_map) e in
      (
        (ap (λ r. r.1) e, ap (λ r. r.0.queue) e),
        shared,
        kept_local self' (shared, ap (λ r. r.0.virgin_map) e),
      )
  handles new_edge self' stats' h =
      let ((w, entry), made, g) =
        succeeded (create_new_queue_entry env new_edge false coverage seen.cycles base) _ h in
      let e = ok_eq g in
      let at : self' ≡ w = ap (λ r. r.0) e in
      let q : Queued env new_edge false seen.cycles base w entry = queued new_edge w entry made in
      let maps = Queued-maps new_edge w entry q in
      rw at ((ap (λ r. r.1) e, (entry, q)), maps.0, kept_local w maps)
  handles new_hit self' stats' h =
      let ((w, entry), made, g) =
        succeeded (create_new_queue_entry env new_hit false coverage seen.cycles base) _ h in
      let e = ok_eq g in
      let at : self' ≡ w = ap (λ r. r.0) e in
      let q : Queued env new_hit false seen.cycles base w entry = queued new_hit w entry made in
      let maps = Queued-maps new_hit w entry q in
      rw at ((ap (λ r. r.1) e, (entry, q)), maps.0, kept_local w maps)

  consulted :
      (self' : FuzzingWorker) (stats' : FuzzerEventCounter)
      → consult_global env coverage seen stats
          (record self { virgin_map = (has_new_bit coverage self.virgin_map).1 })
        ≡ ok (self', stats')
      → Handles (has_new_bit coverage self.shared_virgin_map).0 self' stats'
  unfolding consult_global
  consulted self' stats' h = handles (has_new_bit coverage self.shared_virgin_map).0 self' stats' (
      rw
        (copied coverage self.virgin_map self.shared_virgin_map v local.0 valid own_size same
          local.2)
        at h)

  -- By the local map's verdict.
  decided :
      (status : BitmapStatus)
      → (has_new_bit coverage self.virgin_map).0 ≡ status
      → ignored env coverage self ≡ false
      → (self' : FuzzingWorker) (stats' : FuzzerEventCounter)
      → terminated_with env coverage seen stats self ≡ ok (self', stats')
      → Handles (has_new_bit coverage self.shared_virgin_map).0 self' stats'
  unfolding terminated_with
  decided no_change e i self' stats' h =
      let no_hit = no_change-no_hit coverage self.virgin_map v local.0 own_size e in
      let idle : has_new_bit coverage self.shared_virgin_map ≡ (no_change, self.shared_virgin_map) =
        has_new_bit-idle coverage self.shared_virgin_map v valid same (
          no_hit-Within coverage.bytes self.shared_virgin_map.bytes self.virgin_map.bytes
            v.are_bytes local.2 no_hit) in
      let own : has_new_bit coverage self.virgin_map ≡ (no_change, self.virgin_map) =
        has_new_bit-idle coverage self.virgin_map v local.0 own_size no_hit in
      let r = ok_eq (rw (i, e) at h) in
      let state : self' ≡ self =
        ap (λ x. x.0) r ∙ ap (λ z. record self { virgin_map = z }) (ap (λ x. x.1) own) in
      rw idle (
        (ap (λ x. x.1) r, ap (λ w. w.queue) state),
        ap (λ w. w.shared_virgin_map) state,
        rw state local,
      )
  decided new_edge e i self' stats' h = consulted self' stats' (rw (i, e) at h)
  decided new_hit e i self' stats' h = consulted self' stats' (rw (i, e) at h)

  -- A run that terminates and is not ignored, where every virgin bit of the shared map is one of the local map, is a
  -- finding of the kind that the shared map's verdict says, or none if that is no change. The coverage is cleared
  -- from the shared map, and every virgin bit of the shared map is still one of the local map. A finding is counted
  -- once with its time, and may queue one entry; without one the counters and the queue stay.
  pub terminated_with-Handles :
      (self' : FuzzingWorker) (stats' : FuzzerEventCounter)
      → ignored env coverage self ≡ false
      → terminated_with env coverage seen stats self ≡ ok (self', stats')
      → Handles (has_new_bit coverage self.shared_virgin_map).0 self' stats'
  terminated_with-Handles self' stats' i h =
      decided (has_new_bit coverage self.virgin_map).0 refl i self' stats' h
