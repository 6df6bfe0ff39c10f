-- ===== src/Calibration/Cycles.antt =====
-- scheduler/src/fuzzer/common.rs: the cycles of a calibration and the entry that it makes.
use fuzztruction_net.Base.{
  ℕ, suc, ◌*◌, ◌≤◌, ◌≡◌, ◌⊎◌, inl, inr, refl, ap, sym, ◌∙◌, Bool, true, false, not, ◌&&◌, ◌||◌,
  Option, none, some, List, [], ◌∷◌, arith, ltb, if◌then◌else◌, Bool-cases, ◌↔◌,
}
use mathlib.Core.Bool.{false≢true}
use fuzztruction_net.Bitmap.{Bitmap, classify_counts, has_new_bit}
use fuzztruction_net.Bitmap.Chunks.{IsValid}
use fuzztruction_net.Bitmap.Classify.{classify_counts-IsValid, classify_counts-record}
use fuzztruction_net.Bitmap.NewBits.{has_new_bit-IsValid, has_new_bit-size}
use fuzztruction_net.Queue.Entry.{QueueEntry, Origin, set_parent, new_fields}
use fuzztruction_net.Calibration.{
  Error, RunResult, terminated, timed_out, signalled, Result, ok, err, panicked, ◌>>=◌, unwrap, Env,
  Cycle, Calibration, check_outcome, calibrate_cycle, calibrate_loop, all_hash_to, finish,
  common_calibrate,
}

-- A chain that succeeds: its first part did, and the rest from there.
pub succeeded {ℓ κ} :
    {V : Type ℓ} {W : Type κ} (first : Result V) (next : V → Result W) {w : W}
    → (first >>= next) ≡ ok w
    → (v : V) × (first ≡ ok v) × (next v ≡ ok w)
succeeded panicked next h = cc
succeeded (err reason) next h = cc
succeeded (ok v) next h = (v, refl, h)

-- How the sink may end in a cycle: by itself, or by a signal for an entry that is to crash.
abbrev pub Ends : Bool → RunResult → Type 0
Ends is_crash terminated = Unit {0}
Ends is_crash (signalled s) = is_crash ≡ true
Ends is_crash timed_out = ⊥

-- A cycle that succeeds, in time unless the sink is stopped by a signal anyway.
abbrev pub Passes : Env → Bool → ℕ → Cycle → Type 0
Passes env is_crash timeout c =
    (r : RunResult) × (c.result ≡ ok r)
    × Ends is_crash r
    × ((env.send_sigterm ≡ true) ⊎ (c.duration ≤ timeout))

abbrev pub AllPass : Env → Bool → ℕ → List Cycle → Type 0
AllPass env is_crash timeout [] = Unit {0}
AllPass env is_crash timeout (c ∷ cs) =
    Passes env is_crash timeout c × AllPass env is_crash timeout cs

-- What the cycles leave.
abbrev pub cycled : Cycle → Calibration → Calibration
cycled c s = record {
  exec_durations = c.duration ∷ s.exec_durations;
  bitmaps = classify_counts c.bitmap ∷ s.bitmaps;
  virgin_map = (has_new_bit (classify_counts c.bitmap) s.virgin_map).1;
}

abbrev pub all_cycled : List Cycle → Calibration → Calibration
all_cycled [] s = s
all_cycled (c ∷ cs) s = all_cycled cs (cycled c s)

module _ (env : Env) (is_crash : Bool) (timeout : ℕ) where
  check_outcome-Ends : (k : Bool) (r : RunResult) → check_outcome k r ≡ ok tt ↔ Ends k r
  unfolding check_outcome
  check_outcome-Ends k terminated = (λ h. tt, λ h. refl)
  check_outcome-Ends true (signalled s) = (λ h. refl, λ h. refl)
  check_outcome-Ends false (signalled s) = (λ h. cc, λ h. cc)
  check_outcome-Ends true timed_out = (λ h. cc, λ h. absurd h)
  check_outcome-Ends false timed_out = (λ h. cc, λ h. absurd h)

  calibrate_cycle-Passes :
      (c : Cycle) (s : Calibration)
      → Passes env is_crash timeout c
      → calibrate_cycle env is_crash timeout c s ≡ ok (cycled c s)
  unfolding calibrate_cycle
  calibrate_cycle-Passes c s (r, ran, ends, inl sigterm) =
      rw (ran, (check_outcome-Ends is_crash r).1 ends, sigterm) refl
  calibrate_cycle-Passes c s (r, ran, ends, inr fast) =
      rw (ran, (check_outcome-Ends is_crash r).1 ends) (ground arith)

  in_time :
      (c : Cycle) (x s' : Calibration) (e : Error) (b : Bool)
      → (if not b && ltb timeout c.duration then err e else ok x) ≡ ok s'
      → ((b ≡ true) ⊎ (c.duration ≤ timeout)) × (s' ≡ x)
  in_time c x s' e true h = (inl refl, cc)
  in_time c x s' e false h = elim (Bool-cases (ltb timeout c.duration)) [
    | inl late ↦ absurd (slow late (rw late at h))
    | inr fast ↦ (inr (ground arith), quick (rw fast at h))
  ]
    where
      slow : ltb timeout c.duration ≡ true → err e ≡ ok s' → ⊥
      slow late k = cc

      quick : ok x ≡ ok s' → s' ≡ x
      quick k = cc

  Passes-calibrate_cycle :
      (c : Cycle) (s s' : Calibration)
      → calibrate_cycle env is_crash timeout c s ≡ ok s'
      → Passes env is_crash timeout c × (s' ≡ cycled c s)
  unfolding calibrate_cycle
  Passes-calibrate_cycle c s s' h =
      let (r, ran, h') = succeeded c.result _ h in
      let (u, checked, h'') = succeeded (check_outcome is_crash r) _ h' in
      let (fast, e) = in_time c (cycled c s) s' _ env.send_sigterm h'' in
      ((r, ran, (check_outcome-Ends is_crash r).0 checked, fast), e)

  pub calibrate_loop-AllPass :
      (cs : List Cycle) (s : Calibration)
      → AllPass env is_crash timeout cs
      → calibrate_loop env is_crash timeout cs s ≡ ok (all_cycled cs s)
  unfolding calibrate_loop
  calibrate_loop-AllPass [] s p = refl
  calibrate_loop-AllPass (c ∷ cs) s p =
      rw (calibrate_cycle-Passes c s p.0) (calibrate_loop-AllPass cs (cycled c s) p.1)

  pub AllPass-calibrate_loop :
      (cs : List Cycle) (s s' : Calibration)
      → calibrate_loop env is_crash timeout cs s ≡ ok s'
      → AllPass env is_crash timeout cs × (s' ≡ all_cycled cs s)
  unfolding calibrate_loop
  AllPass-calibrate_loop [] s s' h = (tt, cc)
  AllPass-calibrate_loop (c ∷ cs) s s' h =
      let (next, done, h') = succeeded (calibrate_cycle env is_crash timeout c s) _ h in
      let (passes, e) = Passes-calibrate_cycle c s next done in
      let (rest, e') = AllPass-calibrate_loop cs next s' h' in
      ((passes, rest), e' ∙ ap (all_cycled cs) e)

-- The bitmaps of the cycles are as the sink makes them, of the size of the virgin map.
abbrev pub Sized : ℕ → List Cycle → Type 0
Sized n [] = Unit {0}
Sized n (c ∷ cs) = IsValid c.bitmap × (c.bitmap.size ≡ n) × Sized n cs

pub all_cycled-IsValid :
    (cs : List Cycle) (s : Calibration)
    → Sized s.virgin_map.size cs
    → IsValid s.virgin_map
    → IsValid (all_cycled cs s).virgin_map × ((all_cycled cs s).virgin_map.size ≡ s.virgin_map.size)
all_cycled-IsValid [] s h v = (v, refl)
all_cycled-IsValid (c ∷ cs) s h v =
    let coverage : Bitmap = classify_counts c.bitmap in
    let valid : IsValid coverage = classify_counts-IsValid c.bitmap h.0 in
    let sized : coverage.size ≡ s.virgin_map.size =
      ap (λ b. b.size) (classify_counts-record c.bitmap h.0) ∙ h.1 in
    let same : (has_new_bit coverage s.virgin_map).1.size ≡ s.virgin_map.size =
      has_new_bit-size coverage s.virgin_map valid v sized in
    let (v', e) =
      all_cycled-IsValid cs (cycled c s) (rw same (h.2))
        (has_new_bit-IsValid coverage s.virgin_map valid v sized) in
    (v', e ∙ same)

abbrev pub start : Bitmap → Calibration
start virgin_map = record { exec_durations = []; bitmaps = []; virgin_map = virgin_map }

abbrev pub timeout_of : Env → ℕ → ℕ
timeout_of env t = if env.send_sigterm then t * 2 else t

-- What the parent says of an entry.
abbrev pub Descends : Option QueueEntry → QueueEntry → Type 0
Descends none qe = (qe.parent_id ≡ none) × (qe.generation ≡ 0)
Descends (some p) qe = (qe.parent_id ≡ some p.id) × (qe.generation ≡ suc p.generation)

-- The entry and the virgin map that `finish` makes.
abbrev Finished : Env → Bool → Option QueueEntry → ℕ → Bitmap → QueueEntry × Bitmap → Type 0
Finished env is_crash parent next_id virgin r =
    (r.0.id ≡ next_id)
    × (r.0.is_crash ≡ is_crash)
    × Descends parent r.0
    × (r.0.sink_unstable ≡ true → env.allow_unstable_sink ≡ true)
    × (r.1 ≡ virgin)

child : Option QueueEntry → QueueEntry → QueueEntry
child parent qe = elim parent [ none ↦ qe | some p ↦ set_parent p qe ]

child_fields :
    (parent : Option QueueEntry) (qe : QueueEntry)
    → qe.parent_id ≡ none
    → qe.generation ≡ 0
    → Descends parent (child parent qe)
      × ((child parent qe).id ≡ qe.id)
      × ((child parent qe).is_crash ≡ qe.is_crash)
      × ((child parent qe).sink_unstable ≡ qe.sink_unstable)
unfolding child set_parent
child_fields none qe p g = ((p, g), refl, refl, refl)
child_fields (some parent) qe p g = ((refl, refl), refl, refl, refl)

unwrap-ok {ℓ} : {A : Type ℓ} (o : Option A) {a : A} → unwrap o ≡ ok a → o ≡ some a
unwrap-ok none h = cc
unwrap-ok (some b) h = cc

pub ok_eq {ℓ} : {A : Type ℓ} {a b : A} → ok a ≡ ok b → b ≡ a
ok_eq h = cc

err-ne-ok {ℓ} : {A : Type ℓ} {e : Error} {a : A} → ◌≡◌ {A = Result A} (err e) (ok a) → ⊥
err-ne-ok h = cc

allowed : (s a : Bool) → (s || a) ≡ true → not s ≡ true → a ≡ true
allowed true a h k = absurd (false≢true k)
allowed false a h k = h

finish-Finished :
    (env : Env) (is_crash : Bool) (parent : Option QueueEntry) (o : Origin) (next_id : ℕ)
    (ds : List ℕ) (bs : List Bitmap) (virgin : Bitmap) (r : QueueEntry × Bitmap)
    → finish env is_crash parent o next_id
        (record { exec_durations = ds; bitmaps = bs; virgin_map = virgin })
      ≡ ok r
    → Finished env is_crash parent next_id virgin r
unfolding finish child
finish-Finished env is_crash parent o next_id ds [] virgin r h = cc
finish-Finished env is_crash parent o next_id ds (b ∷ bs) virgin r h =
    let stable : Bool = all_hash_to env.hash32 (env.hash32 b) bs in
    elim (Bool-cases (stable || env.allow_unstable_sink)) [
      | inl good ↦
          let (qe, made, e) = succeeded _ _ (rw good at h) in
          let (i, p, g, k, u, m) = new_fields next_id o _ _ _ _ is_crash qe (unwrap-ok _ made) in
          let (d, i', k', u') = child_fields parent qe p g in
          rw (ok_eq e) (i' ∙ i, k' ∙ k, d, λ t. allowed stable _ good (sym (u' ∙ u) ∙ t), refl)
      | inr bad ↦ absurd (err-ne-ok (rw bad at h))
    ]

-- A calibration makes an entry only if every cycle passed: the sink ended by itself, or by a signal where the entry is to
-- crash, and in time unless it is stopped by a signal. The entry has the next id, its parent's id
-- and the generation after it, is unstable only if that is allowed, and the virgin map has lost the classified bits of every cycle.
pub common_calibrate-made :
    (env : Env) (t : ℕ) (is_crash : Bool) (parent : Option QueueEntry) (o : Origin) (next_id : ℕ)
    (cs : List Cycle) (virgin_map : Bitmap) (qe : QueueEntry) (virgin : Bitmap)
    → common_calibrate env t is_crash parent o next_id cs virgin_map ≡ ok (qe, virgin)
    → AllPass env is_crash (timeout_of env t) cs
      × (qe.id ≡ next_id)
      × (qe.is_crash ≡ is_crash)
      × Descends parent qe
      × (qe.sink_unstable ≡ true → env.allow_unstable_sink ≡ true)
      × (virgin ≡ (all_cycled cs (start virgin_map)).virgin_map)
unfolding common_calibrate
common_calibrate-made env t is_crash parent o next_id cs virgin_map qe virgin h =
    let (s, ran, h') =
      succeeded (calibrate_loop env is_crash (timeout_of env t) cs (start virgin_map)) _ h in
    let (passed, e) =
      AllPass-calibrate_loop env is_crash (timeout_of env t) cs (start virgin_map) s ran in
    let (i, k, d, u, v) =
      finish-Finished env is_crash parent o next_id s.exec_durations s.bitmaps s.virgin_map
        (qe, virgin) h' in
    (passed, i, k, d, u, v ∙ ap (λ c. c.virgin_map) e)
