-- ===== src/Fuzzing/Plan.antt =====
-- scheduler/src/fuzzer/worker_impl/phases/run_phase.rs: the steps of a phase that nothing interrupts, as a flat list.
use fuzztruction_net.Base.{
  ℕ, suc, ◌≡◌, refl, sym, ◌∙◌, Bool, true, false, List, [], ◌∷◌, ◌++◌, if◌then◌else◌,
}
use fuzztruction_net.EventCounter.{FuzzerEventCounter, add_u64}
use fuzztruction_net.Mutators.{MutatorType}
use fuzztruction_net.Calibration.{Result, ok, err, panicked, ◌>>=◌}
use fuzztruction_net.Worker.{FuzzingWorker, do_run}
use fuzztruction_net.Fuzzing.{Mutator, Candidate, Task}

-- The worker turns to an entry, or to a mutator, or runs source and sink: with the id of the entry, its mask, and
-- whether it is enabled.
pub data Step : Type 0 where
  turn_to : ℕ → Step
  use_mutator : MutatorType → Step
  run_with : ℕ × List ℕ × Bool → Step

-- All masks of each mutator, with the entry enabled where the mutator is to be used once, and disabled after it.
abbrev pub mask_steps : ℕ → Bool → List (List ℕ) → List Step
mask_steps id enabled [] = []
mask_steps id enabled (mask ∷ masks) = run_with (id, mask, enabled) ∷ mask_steps id enabled masks

abbrev pub enabled_for : Mutator → Bool → Bool
enabled_for m enabled = if m.one_shot then true else enabled

abbrev pub enabled_after : Mutator → Bool → Bool
enabled_after m enabled = if m.one_shot then false else enabled

abbrev pub mutator_steps : ℕ → Bool → List Mutator → List Step
mutator_steps id enabled [] = []
mutator_steps id enabled (m ∷ ms) =
    (use_mutator m.mutator_type ∷ mask_steps id (enabled_for m enabled) m.masks)
    ++ mutator_steps id (enabled_after m enabled) ms

-- An entry without a mask is only turned to.
abbrev pub entry_steps : Candidate → List ℕ → List Step
entry_steps c [] = turn_to c.id ∷ []
entry_steps c (b ∷ bs) = turn_to c.id ∷ mutator_steps c.id c.enabled c.mutators

abbrev pub plan : List Candidate → List Step
plan [] = []
plan (c ∷ cs) = entry_steps c c.msk ++ plan cs

abbrev pub enabled_after_all : List Mutator → Bool → Bool
enabled_after_all [] enabled = enabled
enabled_after_all (m ∷ ms) enabled = enabled_after_all ms (enabled_after m enabled)

abbrev pub settled_flag : Candidate → List ℕ → Bool
settled_flag c [] = c.enabled
settled_flag c (b ∷ bs) = enabled_after_all c.mutators c.enabled

-- The entry at the end: disabled if one of its mutators was used once, and else as it was.
abbrev pub settled : Candidate → Candidate
settled c = record c { enabled = settled_flag c c.msk }

-- The state between the steps; `log` lists the runs so far, the last one first.
pub record State : Type 0 where
  pub worker : FuzzingWorker
  pub stats : FuzzerEventCounter
  pub log : List (ℕ × List ℕ × Bool)
  pub count : ℕ

abbrev pub ran : ℕ × List ℕ × Bool → State → FuzzingWorker × FuzzerEventCounter → State
ran entry s (worker, stats) = record {
  worker = worker;
  stats = stats;
  log = entry ∷ s.log;
  count = suc s.count;
}

-- A run is counted before it is done.
abbrev pub perform : Task → Step → State → Result State
perform task (turn_to id) s = ok (record s { worker = record s.worker { patch_point = id } })
perform task (use_mutator m) s = ok (record s { worker = record s.worker { mutator = m } })
perform task (run_with entry) s =
    do_run task.env (task.runs s.count).result (task.runs s.count).coverage (task.runs s.count).seen
      (record s.stats { execs = add_u64 s.stats.execs 1 }) s.worker
    >>= λ r. ok (ran entry s r)

-- The steps in their order, up to the first fatal error or panic.
abbrev pub perform_all : Task → List Step → State → Result State
perform_all task [] s = ok s
perform_all task (x ∷ xs) s = perform task x s >>= perform_all task xs

pub bind_assoc :
    {A B C : Type 0} (r : Result A) (f : A → Result B) (g : B → Result C)
    → ((r >>= f) >>= g) ≡ (r >>= λ a. f a >>= g)
bind_assoc panicked f g = refl
bind_assoc (err e) f g = refl
bind_assoc (ok a) f g = refl

pub bind_ext :
    {A B : Type 0} (r : Result A) (f g : A → Result B)
    → ((a : A) → f a ≡ g a)
    → (r >>= f) ≡ (r >>= g)
bind_ext panicked f g h = refl
bind_ext (err e) f g h = refl
bind_ext (ok a) f g h = h a

pub perform_all-append :
    (task : Task) (xs ys : List Step) (s : State)
    → perform_all task (xs ++ ys) s ≡ (perform_all task xs s >>= perform_all task ys)
perform_all-append task [] ys s = refl
perform_all-append task (x ∷ xs) ys s =
    bind_ext (perform task x s) (perform_all task (xs ++ ys))
      (λ t. perform_all task xs t >>= perform_all task ys) (λ t. perform_all-append task xs ys t)
    ∙ sym (bind_assoc (perform task x s) (perform_all task xs) (perform_all task ys))
