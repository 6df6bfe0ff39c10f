-- ===== src/Mutators/Timeout.antt =====
-- scheduler/src/fuzzer/worker_impl/mutators.rs: `WithTimeout`, which ends
-- another mutator when its time is up. Readings of the clock are arguments, in nanoseconds.
use fuzztruction_net.Base.{
  ℕ, ◌-◌, ◌≤◌, ◌<◌, ◌≡◌, refl, ap, ◌∙◌, Bool, true, false, Option, none, some, List, [], ◌∷◌, ◌++◌,
  map, arith, ltb, if◌then◌else◌, ◌>>=◌, Option-cases, inl, inr,
}
use fuzztruction_net.Mutators.{visit}
use fuzztruction_net.Mutators.Visits.{AllDraws}

-- The fields of the other mutator are its state.
pub record WithTimeout (S : Type 0) : Type 0 where
  pub mutator : S
  pub timeout : ℕ
  pub start_ts : Option ℕ

pub new : {S : Type 0} → S → ℕ → WithTimeout S
new mutator timeout = record { mutator = mutator; timeout = timeout; start_ts = none }

module _ {S D : Type 0} (inner : D → S → Option (S × Bool)) where
  -- The step after the start is known: `elapsed` stops at 0.
  pub run_until : ℕ → ℕ → D → WithTimeout S → Option (WithTimeout S × Bool)
  run_until start now d self =
      if ltb self.timeout (now - start)
      then some (record self { start_ts = some start }, false)
      else (do
        (mutator, more) ← inner d self.mutator
        some (record self { mutator = mutator; start_ts = some start }, more))

  -- The draws are the clock at the first reading, which only the first step makes, the clock at the
  -- second, and the draws of the other mutator.
  pub next_at : Option ℕ → ℕ × ℕ × D → WithTimeout S → Option (WithTimeout S × Bool)
  unfolding run_until
  next_at none (first, now, d) self = run_until first now d self
  next_at (some start) (first, now, d) self = run_until start now d self

  pub next : ℕ × ℕ × D → WithTimeout S → Option (WithTimeout S × Bool)
  unfolding next_at
  next d self = next_at self.start_ts d self

  -- The loop's result without the clock.
  abbrev pub clockless : Option (List (List ℕ) × WithTimeout S) → Option (List (List ℕ) × S)
  clockless none = none
  clockless (some (bs, t)) = some (bs, t.mutator)

  clockless_more :
      (b : List ℕ) (r : Option (List (List ℕ) × WithTimeout S))
      → clockless (r >>= λ v. some (b ∷ v.0, v.1)) ≡ clockless r >>= λ v. some (b ∷ v.0, v.1)
  clockless_more b none = refl
  clockless_more b (some (bs, t)) = refl

  started :
      (view : S → List ℕ) (start timeout : ℕ) (ds : List (ℕ × ℕ × D)) (late : ℕ × ℕ × D)
      (rest : List (ℕ × ℕ × D)) (s : S)
      → AllDraws (λ (c : ℕ × ℕ × D). c.1 - start ≤ timeout) ds
      → timeout < late.1 - start
      → clockless (
          visit next
            (λ t. view t.mutator)
            (ds ++ late ∷ rest)
            (record { mutator = s; timeout = timeout; start_ts = some start }))
        ≡ visit inner view (map (λ (c : ℕ × ℕ × D). c.2) ds) s
  unfolding visit next next_at run_until
  started view start timeout [] late rest s a l =
      let e : ltb timeout (late.1 - start) ≡ true = ground arith in rw e refl
  started view start timeout ((first, now, d) ∷ ds) late rest s (o, a) l =
      let e : ltb timeout (now - start) ≡ false = ground arith in
      elim (Option-cases (inner d s)) [
        | inl none_ ↦ rw e (rw none_ refl)
        | inr ((t, false), h) ↦ rw e (rw h refl)
        | inr ((t, true), h) ↦ rw e (
            rw h (
              clockless_more (view t) (
                visit next (λ t. view t.mutator) (ds ++ late ∷ rest)
                  (record { mutator = t; timeout = timeout; start_ts = some start }))
              ∙ ap (λ r. r >>= λ v. some (view t ∷ v.0, v.1))
                  (started view start timeout ds late rest t a l)))
      ]

-- A loop over a mutator with a timeout, whose last clock reading is the first one further than
-- the timeout from the start, sees what the loop over the mutator alone sees up to there, and
-- is then cut off.
pub within_timeout :
    {S D : Type 0} (inner : D → S → Option (S × Bool)) (view : S → List ℕ) (s : S)
    (timeout first now : ℕ) (d : D) (ds : List (ℕ × ℕ × D)) (late : ℕ × ℕ × D)
    (rest : List (ℕ × ℕ × D))
    → AllDraws (λ (c : ℕ × ℕ × D). c.1 - first ≤ timeout) ((first, now, d) ∷ ds)
    → timeout < late.1 - first
    → clockless inner (
        visit
          (next inner)
          (λ t. view t.mutator)
          ((first, now, d) ∷ ds ++ late ∷ rest)
          (new s timeout))
      ≡ visit inner view (d ∷ map (λ (c : ℕ × ℕ × D). c.2) ds) s
unfolding visit next next_at new
within_timeout inner view s timeout first now d ds late rest a l =
    started inner view first timeout ((first, now, d) ∷ ds) late rest s a l
