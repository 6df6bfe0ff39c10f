-- ===== src/Calibration/Outputs.antt =====
-- scheduler/src/fuzzer/common.rs: which outputs of the source reach the sink when workers run at the same time.
use fuzztruction_net.Base.{
  ℕ, zero, suc, ◌+◌, ◌≡◌, refl, ◌∙◌, true, false, Bool-cases, inl, inr, none, some, Option-cases,
  List, [], ◌∷◌, ◌==◌, if◌then◌else◌, get_elem?, arith,
}
use fuzztruction_net.IntegerSet.{elem}
use fuzztruction_net.Calibration.{
  RunResult, SourceResult, source_terminated, source_timed_out, source_signalled, duplicated_output,
  exec_error, Result, ok, err, panicked, check_hash, check_output, insert_output, insert_outputs,
  common_run,
}

-- The hashes seen, those that a worker found new and has not inserted yet, and those whose outputs reached the sink.
pub record Outputs : Type 0 where
  pub seen : List ℕ
  pub pending : List ℕ
  pub sunk : List ℕ

-- What a worker does under one of the two locks: the check of what its source did, or the insert of a hash
-- that is pending, after which it runs the sink.
pub data Step : Type 0 where
  check : Result SourceResult → List ℕ → Step
  insert : ℕ → Step

unfoldable pub remove_at : ℕ → List ℕ → List ℕ
remove_at i [] = []
remove_at zero (x ∷ xs) = xs
remove_at (suc i) (x ∷ xs) = x ∷ remove_at i xs

unfoldable pub step : (List ℕ → ℕ) → Step → Outputs → Outputs
unfolding check_output insert_output remove_at
step hash (check source output) s = elim (check_output hash source output s.seen) [
  | ok h ↦ record s { pending = h ∷ s.pending }
  | err e ↦ s
  | panicked ↦ s
]
step hash (insert i) s = elim (get_elem? s.pending i) [
  | none ↦ s
  | some h ↦ record {
    seen = insert_output h s.seen;
    pending = remove_at i s.pending;
    sunk = h ∷ s.sunk;
  }
]

unfoldable pub steps : (List ℕ → ℕ) → List Step → Outputs → Outputs
unfolding step
steps hash [] s = s
steps hash (t ∷ ts) s = steps hash ts (step hash t s)

abbrev pub times : ℕ → List ℕ → ℕ
times h [] = 0
times h (x ∷ xs) = let rest = times h xs in if x == h then suc rest else rest

abbrev Kept : ℕ → Outputs → Outputs → Type 0
Kept h s t =
    (elem h t.seen ≡ true)
    × (times h t.sunk + times h t.pending ≡ times h s.sunk + times h s.pending)

times-remove_at :
    (h i x : ℕ) (xs : List ℕ) → get_elem? xs i ≡ some x → times h xs ≡ times h (x ∷ remove_at i xs)
unfolding remove_at
times-remove_at h i x [] p = cc
times-remove_at h zero x (y ∷ xs) p = let same : y ≡ x = cc in rw same refl
times-remove_at h (suc i) x (y ∷ xs) p = ground (arith, times-remove_at h i x xs p)

module _ (hash : List ℕ → ℕ) where
  check_hash-new :
      (h k : ℕ) (output seen : List ℕ)
      → elem h seen ≡ true
      → check_hash hash output seen ≡ ok k
      → (k == h) ≡ false
  unfolding check_hash
  check_hash-new h k [] seen e p = cc
  check_hash-new h k (b ∷ bs) seen e p = elim (Bool-cases (elem (hash (b ∷ bs)) seen)) [
    | inl t ↦ absurd (refused (rw t at p))
    | inr t ↦
        let same : hash (b ∷ bs) ≡ k = new (rw t at p) in
        elim (Bool-cases (k == h)) [
          | inl u ↦ let at_h : hash (b ∷ bs) ≡ h = ground arith in absurd (clash (rw at_h at t))
          | inr u ↦ u
        ]
  ]
    where
      refused : err (exec_error duplicated_output) ≡ ok k → ⊥
      refused q = cc

      new : ok (hash (b ∷ bs)) ≡ ok k → hash (b ∷ bs) ≡ k
      new q = cc

      clash : elem h seen ≡ false → ⊥
      clash q = ground (arith, e, q)

  check_output-new :
      (h k : ℕ) (source : Result SourceResult) (output seen : List ℕ)
      → elem h seen ≡ true
      → check_output hash source output seen ≡ ok k
      → (k == h) ≡ false
  unfolding check_output
  check_output-new h k (err x) output seen e p = cc
  check_output-new h k panicked output seen e p = cc
  check_output-new h k (ok source_terminated) output seen e p = check_hash-new h k output seen e p
  check_output-new h k (ok source_timed_out) output seen e p = cc
  check_output-new h k (ok source_signalled) output seen e p = cc

  check-Kept :
      (h : ℕ) (s : Outputs) (r : Result ℕ)
      → elem h s.seen ≡ true
      → ((k : ℕ) → r ≡ ok k → (k == h) ≡ false)
      → Kept h s (elim r [ ok k ↦ record s { pending = k ∷ s.pending } | err e ↦ s | panicked ↦ s ])
  check-Kept h s (ok k) e f = (e, rw (f k refl) refl)
  check-Kept h s (err x) e f = (e, refl)
  check-Kept h s panicked e f = (e, refl)

  insert_output-keeps :
      (h k : ℕ) (seen : List ℕ) → elem h seen ≡ true → elem h (insert_output k seen) ≡ true
  unfolding insert_output
  insert_output-keeps h k seen e = ground arith

  step-Kept : (h : ℕ) (t : Step) (s : Outputs) → elem h s.seen ≡ true → Kept h s (step hash t s)
  unfolding step
  step-Kept h (check source output) s e =
      check-Kept h s (check_output hash source output s.seen) e
        (λ k p. check_output-new h k source output s.seen e p)
  step-Kept h (insert i) s e = elim (Option-cases (get_elem? s.pending i)) [
    | inl n ↦ rw (step, n) (e, refl)
    | inr (k, p) ↦
        rw (step, p)
          (insert_output-keeps h k s.seen e, ground (arith, times-remove_at h i k s.pending p))
  ]

  steps-Kept :
      (h : ℕ) (ts : List Step) (s : Outputs) → elem h s.seen ≡ true → Kept h s (steps hash ts s)
  unfolding steps
  steps-Kept h [] s e = (e, refl)
  steps-Kept h (t ∷ ts) s e =
      let (e1, q1) = step-Kept h t s e in
      let (e2, q2) = steps-Kept h ts (step hash t s) e1 in (e2, q2 ∙ q1)

  duplicate :
      (b : ℕ) (bs others : List ℕ) (sink : Result RunResult) (seen : List ℕ)
      → elem (hash (b ∷ bs)) seen ≡ true
      → common_run hash (ok source_terminated) (b ∷ bs) others sink seen
        ≡ (seen, err (exec_error duplicated_output))
  unfolding common_run check_output check_hash
  duplicate b bs others sink seen e = rw (common_run, check_output, check_hash, e) refl

  insert_output-has : (h : ℕ) (seen : List ℕ) → elem h (insert_output h seen) ≡ true
  unfolding insert_output
  insert_output-has h seen = ground arith

  remembered :
      (b : ℕ) (bs others : List ℕ) (sink : Result RunResult) (seen : List ℕ)
      → elem (hash (b ∷ bs)) (common_run hash (ok source_terminated) (b ∷ bs) others sink seen).0
        ≡ true
  unfolding common_run check_output check_hash
  remembered b bs others sink seen = elim (Bool-cases (elem (hash (b ∷ bs)) seen)) [
    | inl t ↦ rw (common_run, check_output, check_hash, t) t
    | inr t ↦
        rw (common_run, check_output, check_hash, t)
          (insert_output-has (hash (b ∷ bs)) (insert_outputs others seen))
  ]

  inserted :
      (h i : ℕ) (s : Outputs) → get_elem? s.pending i ≡ some h → Kept h s (step hash (insert i) s)
  unfolding step
  inserted h i s p =
      rw (step, p) (insert_output-has h s.seen, ground (arith, times-remove_at h i h s.pending p))

  -- Once a worker inserts the hash of a new output, the sink is run with an output of that hash only by those runs
  -- that had checked theirs before: over any checks and inserts of any workers from then on, the number of outputs of that
  -- hash that reached the sink, or were found new and wait for their insert, stays what it was before the
  -- insert. A run that starts afterwards and whose source ends with that output is a duplicate, whatever other workers
  -- insert meanwhile, and leaves the seen hashes as they are. After any run whose source ends with an output, the hash of
  -- that output is seen. This is about the runs of `common_run` alone, not those of a calibration.
  pub common_run_again :
      (b : ℕ) (bs others : List ℕ) (sink : Result RunResult) (i : ℕ) (ts : List Step) (s : Outputs)
      → get_elem? s.pending i ≡ some (hash (b ∷ bs))
      → (times (hash (b ∷ bs)) (steps hash (insert i ∷ ts) s).sunk
            + times (hash (b ∷ bs)) (steps hash (insert i ∷ ts) s).pending
          ≡ times (hash (b ∷ bs)) s.sunk + times (hash (b ∷ bs)) s.pending)
        × (common_run hash
              (ok source_terminated)
              (b ∷ bs)
              others
              sink
              (steps hash (insert i ∷ ts) s).seen
            ≡ ((steps hash (insert i ∷ ts) s).seen, err (exec_error duplicated_output)))
        × (elem
              (hash (b ∷ bs))
              (common_run hash (ok source_terminated) (b ∷ bs) others sink s.seen).0
            ≡ true)
  unfolding steps
  common_run_again b bs others sink i ts s p =
      let (e, q) = inserted (hash (b ∷ bs)) i s p in
      let (e', q') = steps-Kept (hash (b ∷ bs)) ts (step hash (insert i) s) e in
      (
        q' ∙ q,
        duplicate b bs others sink (steps hash ts (step hash (insert i) s)).seen e',
        remembered b bs others sink s.seen,
      )
