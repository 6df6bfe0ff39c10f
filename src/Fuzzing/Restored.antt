-- ===== src/Fuzzing/Restored.antt =====
-- scheduler/src/fuzzer/worker_impl/phases/run_phase.rs: the entries after the loop.
use fuzztruction_net.Base.{
  ℕ, ◌≡◌, refl, ap, Bool, true, false, not, ◌||◌, List, [], ◌∷◌, if◌then◌else◌,
}
use fuzztruction_net.EventCounter.{FuzzerEventCounter, add_u64, paths, init, add_assign}
use fuzztruction_net.EventCounter as EventCounter
use fuzztruction_net.Calibration.{Result, ok, panicked, ◌>>=◌, unwrap}
use fuzztruction_net.Calibration.Cycles.{succeeded, ok_eq}
use fuzztruction_net.Worker.{FuzzingWorker, do_run}
use fuzztruction_net.Fuzzing.{
  Mutator, Candidate, Flow, go_on, skipped, stopped, timed_out, Fuzzing, Run, Task, Started, decide,
  disable_after, fuzz_mask, continue_with, fuzz_masks, fuzz_mutator, fuzz_mutators, after_mce,
  unless_empty, fuzz_mce, Mces, leave, fuzz_mces, Fuzzed, fuzz_candidates,
}

-- Where the loop was not left by the timeout.
abbrev pub Unless : Flow → Type 0 → Type 0
Unless go_on P = P
Unless skipped P = P
Unless stopped P = P
Unless timed_out P = Unit {0}

-- The entry is enabled now only if it was before.
abbrev pub NoMore : Bool → Bool → Type 0
NoMore before now = (not now || before) ≡ true

-- In the loop over a mutator: once it has disabled the entry for itself.
abbrev Held : Mutator → Bool → Bool → Type 0
Held m before now = NoMore before (if m.one_shot then false else now)

pub pair_eq :
    {s s' : Fuzzing} {f f' : Flow}
    → ◌≡◌ {A = Result (Fuzzing × Flow)} (ok (s, f)) (ok (s', f'))
    → (s' ≡ s) × (f' ≡ f)
pair_eq h = (ap (λ (p : Fuzzing × Flow). p.0) (ok_eq h), ap (λ (p : Fuzzing × Flow). p.1) (ok_eq h))

-- What a run changes in the entry and in the log.
pub fuzz_mask-enabled :
    (task : Task) (id : ℕ) (m : Mutator) (started : Started) (execs : ℕ) (mask : List ℕ)
    (s s' : Fuzzing) (flow : Flow)
    → fuzz_mask task id m started execs mask s ≡ ok (s', flow)
    → (s'.enabled ≡ disable_after flow m s.enabled) × (s'.log ≡ (id, mask, s.enabled) ∷ s.log)
unfolding fuzz_mask
fuzz_mask-enabled task id m started execs mask s s' flow h =
    let run : Run = task.runs s.count in
    let counted : FuzzerEventCounter = record s.stats { execs = add_u64 s.stats.execs 1 } in
    let ((worker, stats), ran, h1) =
      succeeded (do_run task.env run.result run.coverage run.seen counted s.worker) _ h in
    let (f, decided, h2) = succeeded (unwrap (decide task m started execs run stats)) _ h1 in
    let e = pair_eq {f = f} h2 in
    rw e.1 (ap (λ (t : Fuzzing). t.enabled) e.0, ap (λ (t : Fuzzing). t.log) e.0)

-- Where a loop is left, other than by the timeout.
abbrev Leaving : Flow → Type 0 → Type 0
Leaving go_on P = Unit {0}
Leaving skipped P = P
Leaving stopped P = P
Leaving timed_out P = Unit {0}

continue_with-Unless :
    (P : Fuzzing → Type 0) (s1 : Fuzzing) (f1 : Flow) (rest : Fuzzing → Result (Fuzzing × Flow))
    (s' : Fuzzing) (flow : Flow)
    → (f1 ≡ go_on → rest s1 ≡ ok (s', flow) → Unless flow (P s'))
    → Leaving f1 (P s1)
    → continue_with (s1, f1) rest ≡ ok (s', flow)
    → Unless flow (P s')
unfolding continue_with
continue_with-Unless P s1 go_on rest s' flow again l q = again refl q
continue_with-Unless P s1 skipped rest s' flow again l q = let (u, v) = pair_eq q in rw (v, u) l
continue_with-Unless P s1 stopped rest s' flow again l q = let (u, v) = pair_eq q in rw (v, u) l
continue_with-Unless P s1 timed_out rest s' flow again l q = let (u, v) = pair_eq q in rw v tt

Held-Leaving :
    (m : Mutator) (before now : Bool) (flow : Flow)
    → Held m before now
    → Leaving flow (NoMore before (disable_after flow m now))
unfolding disable_after
Held-Leaving m before now go_on h = tt
Held-Leaving m before now skipped h = h
Held-Leaving m before now stopped h = h
Held-Leaving m before now timed_out h = tt

Unless-Leaving : (flow : Flow) (P : Type 0) → Unless flow P → Leaving flow P
Unless-Leaving go_on P h = tt
Unless-Leaving skipped P h = h
Unless-Leaving stopped P h = h
Unless-Leaving timed_out P h = h

module _ (task : Task) (id : ℕ) (started : Started) (before : Bool) where
  fuzz_masks-NoMore :
      (m : Mutator) (execs : ℕ) (masks : List (List ℕ)) (s s' : Fuzzing) (flow : Flow)
      → Held m before s.enabled
      → fuzz_masks task id m started execs masks s ≡ ok (s', flow)
      → Unless flow (NoMore before s'.enabled)
  unfolding fuzz_masks disable_after
  fuzz_masks-NoMore m execs [] s s' flow held h = let (e, f) = pair_eq h in rw (f, e) held
  fuzz_masks-NoMore m execs (mask ∷ masks) s s' flow held h =
      let ((s1, f1), ran, h1) = succeeded (fuzz_mask task id m started execs mask s) _ h in
      let (e, l) = fuzz_mask-enabled task id m started execs mask s s1 f1 ran in
      continue_with-Unless (λ t. NoMore before t.enabled) s1 f1
        (fuzz_masks task id m started execs masks) s' flow
        (λ go q. fuzz_masks-NoMore m execs masks s1 s' flow (rw (e, go) held) q)
        (rw e (Held-Leaving m before s.enabled f1 held)) h1

  fuzz_mutator-NoMore :
      (m : Mutator) (s s' : Fuzzing) (flow : Flow)
      → NoMore before s.enabled
      → fuzz_mutator task id started m s ≡ ok (s', flow)
      → Unless flow (NoMore before s'.enabled)
  unfolding fuzz_mutator
  fuzz_mutator-NoMore m s s' flow h q =
      fuzz_masks-NoMore m s.stats.execs m.masks
        (record s {
          worker = record s.worker { mutator = m.mutator_type };
          enabled = if m.one_shot then true else s.enabled;
        })
        s' flow (held m.one_shot) q
    where
      held : (b : Bool) → NoMore before (if b then false else if b then true else s.enabled)
      held true = refl
      held false = h

  fuzz_mutators-NoMore :
      (ms : List Mutator) (s s' : Fuzzing) (flow : Flow)
      → NoMore before s.enabled
      → fuzz_mutators task id started ms s ≡ ok (s', flow)
      → Unless flow (NoMore before s'.enabled)
  unfolding fuzz_mutators
  fuzz_mutators-NoMore [] s s' flow h q = let (e, f) = pair_eq q in rw (f, e) h
  fuzz_mutators-NoMore (m ∷ ms) s s' flow h q =
      let ((s1, f1), ran, q1) = succeeded (fuzz_mutator task id started m s) _ q in
      let first : Unless f1 (NoMore before s1.enabled) = fuzz_mutator-NoMore m s s1 f1 h ran in
      continue_with-Unless (λ t. NoMore before t.enabled) s1 f1 (fuzz_mutators task id started ms)
        s' flow (λ go r. fuzz_mutators-NoMore ms s1 s' flow (rw go at first) r)
        (Unless-Leaving f1 (NoMore before s1.enabled) first) q1

after_mce-Unless : (flow : Flow) (P : Type 0) → Unless flow P → Unless (after_mce flow) P
unfolding after_mce
after_mce-Unless go_on P h = h
after_mce-Unless skipped P h = h
after_mce-Unless stopped P h = h
after_mce-Unless timed_out P h = h

NoMore-refl : (b : Bool) → NoMore b b
NoMore-refl true = refl
NoMore-refl false = refl

fuzz_mce-NoMore :
    (task : Task) (c : Candidate) (s s' : Fuzzing) (flow : Flow)
    → fuzz_mce task c s ≡ ok (s', flow)
    → Unless flow (NoMore c.enabled s'.enabled)
unfolding fuzz_mce unless_empty
fuzz_mce-NoMore task c s s' flow h = by_msk c.msk h
  where
    started : Started
    started = record {
      mce_start_paths_cnt = paths s.stats;
      mce_start_successful_source_execs = s.stats.successful_source_execs;
    }

    entered : Fuzzing
    entered = record s { worker = record s.worker { patch_point = c.id }; enabled = c.enabled }

    by_msk :
        (msk : List ℕ)
        → unless_empty msk entered
            (fuzz_mutators task c.id started c.mutators entered >>= λ r. ok (r.0, after_mce r.1))
          ≡ ok (s', flow)
        → Unless flow (NoMore c.enabled s'.enabled)
    by_msk [] q = let (e, f) = pair_eq q in rw (f, e) (NoMore-refl c.enabled)
    by_msk (b ∷ bs) q =
        let ((s1, f1), ran, q1) =
          succeeded (fuzz_mutators task c.id started c.mutators entered) _ q in
        let (e, f) = pair_eq {s = s1} {s' = s'} {f = after_mce f1} {f' = flow} q1 in
        rw (f, e)
          (after_mce-Unless f1 (NoMore c.enabled s1.enabled) (
            fuzz_mutators-NoMore task c.id started c.enabled c.mutators entered s1 f1
              (NoMore-refl c.enabled) ran))

-- The entries afterwards: the same, and enabled only if they were before.
pub AllKept : List Candidate → List Candidate → Type 0
AllKept [] [] = Unit {0}
AllKept [] (d ∷ ds) = ⊥
AllKept (c ∷ cs) [] = ⊥
AllKept (c ∷ cs) (d ∷ ds) =
    (d ≡ record c { enabled = d.enabled }) × NoMore c.enabled d.enabled × AllKept cs ds

AllKept-refl : (cs : List Candidate) → AllKept cs cs
unfolding AllKept
AllKept-refl [] = tt
AllKept-refl (c ∷ cs) = (refl, NoMore-refl c.enabled, AllKept-refl cs)

Unless-map : (flow : Flow) {P Q : Type 0} → (P → Q) → Unless flow P → Unless flow Q
Unless-map go_on f h = f h
Unless-map skipped f h = f h
Unless-map stopped f h = f h
Unless-map timed_out f h = tt

pub mces_eq :
    {s s' : Fuzzing} {cs cs' : List Candidate} {f f' : Flow}
    → ◌≡◌ {A = Result (Fuzzing × List Candidate × Flow)} (ok (s, cs, f)) (ok (s', cs', f'))
    → (cs' ≡ cs) × (f' ≡ f)
mces_eq h = (
  ap (λ (p : Fuzzing × List Candidate × Flow). p.1) (ok_eq h),
  ap (λ (p : Fuzzing × List Candidate × Flow). p.2) (ok_eq h),
)

leave-AllKept :
    (c : Candidate) (cs : List Candidate) (s1 : Fuzzing) (f1 : Flow) (rest : Fuzzing → Result Mces)
    (s' : Fuzzing) (ds : List Candidate) (flow : Flow)
    → ((t : Fuzzing) (es : List Candidate) (f : Flow)
        → rest s1 ≡ ok (t, es, f)
        → Unless f (AllKept cs es))
    → Unless f1 (NoMore c.enabled s1.enabled)
    → leave c cs (s1, f1) rest ≡ ok (s', ds, flow)
    → Unless flow (AllKept (c ∷ cs) ds)
unfolding leave AllKept
leave-AllKept c cs s1 go_on rest s' ds flow again h q =
    let ((t, es, f), ran, q1) = succeeded (rest s1) _ q in
    let (e, g) =
      mces_eq {s = t} {s' = s'} {cs = record c { enabled = s1.enabled } ∷ es} {cs' = ds} {f = f}
        {f' = flow} q1 in
    rw (g, e) (Unless-map f (λ k. (refl, h, k)) (again t es f ran))
leave-AllKept c cs s1 skipped rest s' ds flow again h q =
    let (e, g) = mces_eq q in rw (g, e) (refl, h, AllKept-refl cs)
leave-AllKept c cs s1 stopped rest s' ds flow again h q =
    let (e, g) = mces_eq q in rw (g, e) (refl, h, AllKept-refl cs)
leave-AllKept c cs s1 timed_out rest s' ds flow again h q = let (e, g) = mces_eq q in rw g tt

fuzz_mces-AllKept :
    (task : Task) (cs : List Candidate) (s s' : Fuzzing) (ds : List Candidate) (flow : Flow)
    → fuzz_mces task cs s ≡ ok (s', ds, flow)
    → Unless flow (AllKept cs ds)
unfolding fuzz_mces
fuzz_mces-AllKept task [] s s' ds flow q = let (e, g) = mces_eq q in rw (g, e) (AllKept-refl [])
fuzz_mces-AllKept task (c ∷ cs) s s' ds flow q =
    let ((s1, f1), ran, q1) = succeeded (fuzz_mce task c s) _ q in
    leave-AllKept c cs s1 f1 (fuzz_mces task cs) s' ds flow
      (λ t es f r. fuzz_mces-AllKept task cs s1 t es f r) (fuzz_mce-NoMore task c s s1 f1 ran) q1

-- Left by the check for new coverage.
abbrev pub by_timeout : Flow → Bool
by_timeout go_on = false
by_timeout skipped = false
by_timeout stopped = false
by_timeout timed_out = true

Unless-holds : (flow : Flow) (P : Type 0) → by_timeout flow ≡ false → Unless flow P → P
Unless-holds go_on P t h = h
Unless-holds skipped P t h = h
Unless-holds stopped P t h = h
Unless-holds timed_out P t h = cc

-- However the runs end, and wherever the loops are left except by the timeout for new coverage: the phase gives the
-- entries back in their order, and none is enabled that was not enabled before.
pub fuzz_candidates-AllKept :
    (task : Task) (now : ℕ) (should_stop : Bool) (cs : List Candidate) (worker : FuzzingWorker)
    (shared_stats : FuzzerEventCounter) (r : Fuzzed)
    → fuzz_candidates task now should_stop cs worker shared_stats ≡ ok r
    → by_timeout r.flow ≡ false
    → AllKept cs r.candidates
unfolding fuzz_candidates
fuzz_candidates-AllKept task now should_stop cs worker shared_stats r h t =
    by_cases worker.entry.is_crash should_stop h
  where
    panicked-ne-ok : ◌≡◌ {A = Result Fuzzed} panicked (ok r) → ⊥
    panicked-ne-ok e = cc

    unstarted : Fuzzed
    unstarted = record {
      worker = worker;
      shared_stats = shared_stats;
      candidates = cs;
      log = [];
      flow = stopped;
    }

    start : FuzzerEventCounter → Fuzzing
    start stats = record { worker = worker; stats = stats; enabled = false; log = []; count = 0 }

    end : Mces → Fuzzed
    end q = record {
      worker = q.0.worker;
      shared_stats = add_assign shared_stats q.0.stats;
      candidates = q.1;
      log = q.0.log;
      flow = q.2;
    }

    by_cases :
        (is_crash stop : Bool)
        → (if is_crash
            then panicked
            else if stop
            then ok unstarted
            else (unwrap (init now EventCounter.new) >>= λ stats.
                fuzz_mces task cs (start stats) >>= λ q. ok (end q)))
          ≡ ok r
        → AllKept cs r.candidates
    by_cases true stop q = absurd (panicked-ne-ok q)
    by_cases false true q =
        let e : r.candidates ≡ cs = ap (λ (f : Fuzzed). f.candidates) (ok_eq q) in
        rw e (AllKept-refl cs)
    by_cases false false q =
        let (stats, inited, q1) = succeeded (unwrap (init now EventCounter.new)) _ q in
        let ((s, ds, flow), ran, q2) = succeeded (fuzz_mces task cs (start stats)) _ q1 in
        let e : r.candidates ≡ ds = ap (λ (f : Fuzzed). f.candidates) (ok_eq q2) in
        let g : r.flow ≡ flow = ap (λ (f : Fuzzed). f.flow) (ok_eq q2) in
        rw e (
          Unless-holds flow (AllKept cs ds) (rw g at t)
            (fuzz_mces-AllKept task cs (start stats) s ds flow ran))
