-- ===== src/Worker/Classes.antt =====
-- scheduler/src/fuzzer/worker_impl/phases/run_common.rs: the classes of hit counts that a worker tells apart.
-- `handle_run_result` classifies the sink's bitmap, and the handlers that it calls classify it again.
use fuzztruction_net.Base.{
  ℕ, ◌≤◌, ◌<◌, ◌≡◌, ◌⊎◌, inl, inr, refl, ap, ◌∙◌, sym, List, [], ◌∷◌, map, arith,
}
use mathlib.Core.Path.{ap₂}
use fuzztruction_net.Bitmap.{Bitmap, classify_counts}
use fuzztruction_net.Bitmap.Chunks.{IsValid}
use fuzztruction_net.Bitmap.Classify.{count_class, classify_counts-record, classify_counts-IsValid}
use fuzztruction_net.EventCounter.{FuzzerEventCounter, add_u64}
use fuzztruction_net.Calibration.{RunResult, terminated, timed_out, signalled, Env}
use fuzztruction_net.Worker.{
  FuzzingWorker, Observed, handle_run_result, handle_run_result_terminated,
  handle_run_result_signalled, terminated_with, signalled_with,
}

-- Two bytes that are equal, or both between 16 and 127.
abbrev pub Alike : ℕ → ℕ → Type 0
Alike x y = (x ≡ y) ⊎ ((16 ≤ x) × (x < 128) × (16 ≤ y) × (y < 128))

abbrev pub AllAlike : List ℕ → List ℕ → Type 0
AllAlike [] [] = Unit {0}
AllAlike [] (y ∷ ys) = ⊥
AllAlike (x ∷ xs) [] = ⊥
AllAlike (x ∷ xs) (y ∷ ys) = Alike x y × AllAlike xs ys

class_twice : (x y : ℕ) → Alike x y → count_class (count_class x) ≡ count_class (count_class y)
class_twice x y (inl e) = rw e refl
class_twice x y (inr (a, b, c, d)) = sixty_four x a b ∙ sym (sixty_four y c d)
  where
    sixty_four : (z : ℕ) → 16 ≤ z → z < 128 → count_class (count_class z) ≡ 64
    sixty_four z h k = ground arith

classes_twice :
    (xs ys : List ℕ)
    → AllAlike xs ys
    → map count_class (map count_class xs) ≡ map count_class (map count_class ys)
classes_twice [] [] h = refl
classes_twice [] (y ∷ ys) h = absurd h
classes_twice (x ∷ xs) [] h = absurd h
classes_twice (x ∷ xs) (y ∷ ys) h = ap₂ ◌∷◌ (class_twice x y h.0) (classes_twice xs ys h.1)

classified_twice :
    (b : Bitmap)
    → IsValid b
    → classify_counts (classify_counts b)
      ≡ record b { bytes = map count_class (map count_class b.bytes) }
classified_twice b v =
    classify_counts-record (classify_counts b) (classify_counts-IsValid b v)
    ∙ rw (classify_counts-record b v) refl

-- Runs whose hit counts are the same but for counts from 16 to 127 on both sides are handled alike, however they
-- end: the second classification takes the classes of 16 to 31 and of 32 to 127 together.
pub handle_run_result-Alike :
    (env : Env) (run_result : RunResult) (seen : Observed) (b : Bitmap) (ys : List ℕ)
    (stats : FuzzerEventCounter) (self : FuzzingWorker)
    → IsValid b
    → IsValid (record b { bytes = ys })
    → AllAlike b.bytes ys
    → handle_run_result env run_result b seen stats self
      ≡ handle_run_result env run_result (record b { bytes = ys }) seen stats self
unfolding handle_run_result handle_run_result_terminated handle_run_result_signalled
handle_run_result-Alike env run_result seen b ys stats self v w h = cases run_result
  where
    same :
        classify_counts (classify_counts b)
        ≡ classify_counts (classify_counts (record b { bytes = ys }))
    same =
        classified_twice b v
        ∙ ap (λ z. record b { bytes = z }) (classes_twice b.bytes ys h)
        ∙ sym (classified_twice (record b { bytes = ys }) w)

    cases :
        (r : RunResult)
        → handle_run_result env r b seen stats self
          ≡ handle_run_result env r (record b { bytes = ys }) seen stats self
    cases terminated =
        ap
          (λ z.
            terminated_with env z seen
              (record stats { successful_source_execs = add_u64 stats.successful_source_execs 1 })
              self)
          same
    cases (signalled s) =
        ap
          (λ z.
            signalled_with env z seen (record stats { sink_crashes = add_u64 stats.sink_crashes 1 })
              self)
          same
    cases timed_out = refl
