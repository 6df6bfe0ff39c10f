-- ===== src/Fuzzing/Complete.antt =====
-- scheduler/src/fuzzer/worker_impl/phases/run_phase.rs: a phase that nothing interrupts does all the steps of its plan.
use fuzztruction_net.Base.{
  ℕ, suc, ◌≡◌, refl, sym, ◌∙◌, ap, Bool, true, false, List, [], ◌∷◌, ◌++◌, map, some, if◌then◌else◌,
}
use fuzztruction_net.EventCounter.{FuzzerEventCounter, add_u64, paths, init, add_assign}
use fuzztruction_net.EventCounter as EventCounter
use fuzztruction_net.Calibration.{Result, ok, err, panicked, ◌>>=◌, unwrap}
use fuzztruction_net.Worker.{FuzzingWorker, do_run}
use fuzztruction_net.Fuzzing.{
  Mutator, Candidate, Flow, go_on, Fuzzing, Run, Task, Started, decide, disable_after, fuzz_mask,
  continue_with, fuzz_masks, fuzz_mutator, fuzz_mutators, after_mce, unless_empty, fuzz_mce, Mces,
  leave, fuzz_mces, Fuzzed, fuzz_candidates,
}
use fuzztruction_net.Fuzzing.Plan.{
  Step, use_mutator, run_with, mask_steps, enabled_for, enabled_after, mutator_steps, entry_steps,
  plan, enabled_after_all, settled_flag, settled, State, ran, perform_all, bind_assoc, bind_ext,
  perform_all-append,
}

-- The state of the loops, with the flag of the entry.
abbrev with_flag : Bool → State → Fuzzing
with_flag enabled s = record {
  worker = s.worker;
  stats = s.stats;
  enabled = enabled;
  log = s.log;
  count = s.count;
}

-- How a loop ends that is not left.
abbrev goes_on : Bool → State → Result (Fuzzing × Flow)
goes_on enabled s = ok (with_flag enabled s, go_on)

module _ (task : Task) (whole : task.skip_after_first_path ≡ false)
    (quiet : (i : ℕ) → (task.runs i).update_due ≡ false) where
  -- A loop that does some steps and is not left, and what comes behind it.
  then_goes_on :
      (xs ys : List Step) (e e' : Bool) (x : Result (Fuzzing × Flow))
      (rest : Fuzzing → Result (Fuzzing × Flow)) (s : State)
      → x ≡ (perform_all task xs s >>= goes_on e)
      → ((t : State) → rest (with_flag e t) ≡ (perform_all task ys t >>= goes_on e'))
      → (x >>= λ r. continue_with r rest) ≡ (perform_all task (xs ++ ys) s >>= goes_on e')
  unfolding continue_with
  then_goes_on xs ys e e' x rest s p q =
      ap (λ z. z >>= λ r. continue_with r rest) p
      ∙ bind_assoc (perform_all task xs s) (goes_on e) (λ r. continue_with r rest)
      ∙ bind_ext (perform_all task xs s) (λ t. rest (with_flag e t))
          (λ t. perform_all task ys t >>= goes_on e') q
      ∙ sym (bind_assoc (perform_all task xs s) (perform_all task ys) (goes_on e'))
      ∙ ap (λ z. z >>= goes_on e') (sym (perform_all-append task xs ys s))

  fuzz_mask-run :
      (id : ℕ) (m : Mutator) (started : Started) (execs : ℕ) (mask : List ℕ) (e : Bool) (s : State)
      → fuzz_mask task id m started execs mask (with_flag e s)
        ≡ (perform_all task (run_with (id, mask, e) ∷ []) s >>= goes_on e)
  unfolding fuzz_mask decide disable_after
  fuzz_mask-run id m started execs mask e s = by_result (
      do_run task.env run.result run.coverage run.seen
        (record s.stats { execs = add_u64 s.stats.execs 1 }) s.worker)
    where
      run : Run
      run = task.runs s.count

      by_result :
          (r : Result (FuzzingWorker × FuzzerEventCounter))
          → (r >>= λ p. unwrap (decide task m started execs (task.runs s.count) p.1) >>= λ flow.
              ok (
                record {
                  worker = p.0;
                  stats = p.1;
                  enabled = disable_after flow m e;
                  log = (id, mask, e) ∷ s.log;
                  count = suc s.count;
                },
                flow,
              ))
            ≡ (((r >>= λ p. ok (ran (id, mask, e) s p)) >>= λ t. ok t) >>= goes_on e)
      by_result panicked = refl
      by_result (err x) = refl
      by_result (ok (worker, stats)) = rw (whole, quiet s.count) refl

  module _ (id : ℕ) (started : Started) where
    fuzz_masks-steps :
        (m : Mutator) (execs : ℕ) (masks : List (List ℕ)) (e : Bool) (s : State)
        → fuzz_masks task id m started execs masks (with_flag e s)
          ≡ (perform_all task (mask_steps id e masks) s >>= goes_on (enabled_after m e))
    unfolding fuzz_masks
    fuzz_masks-steps m execs [] e s = refl
    fuzz_masks-steps m execs (mask ∷ masks) e s =
        then_goes_on (run_with (id, mask, e) ∷ []) (mask_steps id e masks) e (enabled_after m e)
          (fuzz_mask task id m started execs mask (with_flag e s))
          (fuzz_masks task id m started execs masks) s (fuzz_mask-run id m started execs mask e s)
          (λ t. fuzz_masks-steps m execs masks e t)

    fuzz_mutator-steps :
        (m : Mutator) (e : Bool) (s : State)
        → fuzz_mutator task id started m (with_flag e s) ≡ (
            perform_all task
              (use_mutator m.mutator_type ∷ mask_steps id (enabled_for m e) m.masks)
              s
            >>= goes_on (enabled_after m e))
    unfolding fuzz_mutator
    fuzz_mutator-steps m e s =
        fuzz_masks-steps m s.stats.execs m.masks (enabled_for m e)
          (record s { worker = record s.worker { mutator = m.mutator_type } })
        ∙ ap
            (λ b.
              perform_all task
                (use_mutator m.mutator_type ∷ mask_steps id (enabled_for m e) m.masks) s
              >>= goes_on b)
            (twice m.one_shot)
      where
        twice : (b : Bool) → (if b then false else if b then true else e) ≡ (if b then false else e)
        twice true = refl
        twice false = refl

    fuzz_mutators-steps :
        (ms : List Mutator) (e : Bool) (s : State)
        → fuzz_mutators task id started ms (with_flag e s)
          ≡ (perform_all task (mutator_steps id e ms) s >>= goes_on (enabled_after_all ms e))
    unfolding fuzz_mutators
    fuzz_mutators-steps [] e s = refl
    fuzz_mutators-steps (m ∷ ms) e s =
        then_goes_on (use_mutator m.mutator_type ∷ mask_steps id (enabled_for m e) m.masks)
          (mutator_steps id (enabled_after m e) ms) (enabled_after m e)
          (enabled_after_all ms (enabled_after m e))
          (fuzz_mutator task id started m (with_flag e s)) (fuzz_mutators task id started ms) s
          (fuzz_mutator-steps m e s) (λ t. fuzz_mutators-steps ms (enabled_after m e) t)

  fuzz_mce-steps :
      (c : Candidate) (e : Bool) (s : State)
      → fuzz_mce task c (with_flag e s)
        ≡ (perform_all task (entry_steps c c.msk) s >>= goes_on (settled_flag c c.msk))
  unfolding fuzz_mce unless_empty after_mce
  fuzz_mce-steps c e s = by_msk c.msk
    where
      started : Started
      started = record {
        mce_start_paths_cnt = paths s.stats;
        mce_start_successful_source_execs = s.stats.successful_source_execs;
      }

      turned : State
      turned = record s { worker = record s.worker { patch_point = c.id } }

      by_msk :
          (msk : List ℕ)
          → unless_empty msk (with_flag c.enabled turned) (
              fuzz_mutators task c.id started c.mutators (with_flag c.enabled turned) >>= λ r.
              ok (r.0, after_mce r.1))
            ≡ (perform_all task (entry_steps c msk) s >>= goes_on (settled_flag c msk))
      by_msk [] = refl
      by_msk (b ∷ bs) =
          ap (λ z. z >>= λ r. ok (r.0, after_mce r.1))
            (fuzz_mutators-steps c.id started c.mutators c.enabled turned)
          ∙ bind_assoc (perform_all task (mutator_steps c.id c.enabled c.mutators) turned)
              (goes_on (enabled_after_all c.mutators c.enabled)) (λ r. ok (r.0, after_mce r.1))

  -- The flag that the last entry leaves behind.
  abbrev last_flag : List Candidate → Bool → Bool
  last_flag [] e = e
  last_flag (c ∷ cs) e = last_flag cs (settled_flag c c.msk)

  abbrev all_go_on : List Candidate → Bool → State → Result Mces
  all_go_on cs e s = ok (with_flag (last_flag cs e) s, map settled cs, go_on)

  fuzz_mces-steps :
      (cs : List Candidate) (e : Bool) (s : State)
      → fuzz_mces task cs (with_flag e s) ≡ (perform_all task (plan cs) s >>= all_go_on cs e)
  unfolding fuzz_mces leave
  fuzz_mces-steps [] e s = refl
  fuzz_mces-steps (c ∷ cs) e s =
      let f = settled_flag c c.msk in
      let xs = entry_steps c c.msk in
      ap (λ z. z >>= λ r. leave c cs r (fuzz_mces task cs)) (fuzz_mce-steps c e s)
      ∙ bind_assoc (perform_all task xs s) (goes_on f) (λ r. leave c cs r (fuzz_mces task cs))
      ∙ bind_ext (perform_all task xs s)
          (λ t. fuzz_mces task cs (with_flag f t) >>= λ r. ok (r.0, settled c ∷ r.1, r.2))
          (λ t. perform_all task (plan cs) t >>= all_go_on (c ∷ cs) e)
          (λ t.
            ap (λ z. z >>= λ r. ok (r.0, settled c ∷ r.1, r.2)) (fuzz_mces-steps cs f t)
            ∙ bind_assoc (perform_all task (plan cs) t) (all_go_on cs f)
                (λ r. ok (r.0, settled c ∷ r.1, r.2)))
      ∙ sym (bind_assoc (perform_all task xs s) (perform_all task (plan cs)) (all_go_on (c ∷ cs) e))
      ∙ ap (λ z. z >>= all_go_on (c ∷ cs) e) (sym (perform_all-append task xs (plan cs) s))

  -- Where no check is due and the phase does not leave an entry at its first path, a phase on an entry that is no crash
  -- is the run of a flat plan, whatever the runs do: for each entry in order the worker turns to it and, if its
  -- mask is not empty, to each of its mutators, and runs source and sink with each mask of that, with the entry enabled if the mutator is
  -- to be used once, disabled after such a mutator, and else as it was. A panic or fatal error of a run is that of the phase. Else
  -- the phase ends without being left, the counters of its runs are added to the shared ones, and each
  -- entry is disabled if it had a mask and a mutator that was used once, and else as it was.
  pub fuzz_candidates-plan :
      (now : ℕ) (cs : List Candidate) (worker : FuzzingWorker) (shared_stats : FuzzerEventCounter)
      → worker.entry.is_crash ≡ false
      → fuzz_candidates task now false cs worker shared_stats ≡ (
          perform_all task (plan cs) (record {
            worker = worker;
            stats = record EventCounter.new { init_ts = some now };
            log = [];
            count = 0;
          })
          >>= λ s. ok (record {
            worker = s.worker;
            shared_stats = add_assign shared_stats s.stats;
            candidates = map settled cs;
            log = s.log;
            flow = go_on;
          }))
  unfolding fuzz_candidates init
  fuzz_candidates-plan now cs worker shared_stats fine =
      by_case worker.entry.is_crash fine
      ∙ ap (λ z. z >>= end) (fuzz_mces-steps cs false start)
      ∙ bind_assoc (perform_all task (plan cs) start) (all_go_on cs false) end
    where
      start : State
      start = record {
        worker = worker;
        stats = record EventCounter.new { init_ts = some now };
        log = [];
        count = 0;
      }

      end : Mces → Result Fuzzed
      end r = ok (record {
        worker = r.0.worker;
        shared_stats = add_assign shared_stats r.0.stats;
        candidates = r.1;
        log = r.0.log;
        flow = r.2;
      })

      by_case :
          (is_crash : Bool)
          → is_crash ≡ false
          → (if is_crash then panicked else (fuzz_mces task cs (with_flag false start) >>= end))
            ≡ (fuzz_mces task cs (with_flag false start) >>= end)
      by_case true fine = cc
      by_case false fine = refl
