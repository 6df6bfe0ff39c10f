-- ===== src/EventCounter/Tests.antt =====
-- Counters of two workers.
use fuzztruction_net.Base.{ℕ, ◌-◌, ◌^◌, ◌≡◌, Option, none, some, [], ◌∷◌, arith}
use fuzztruction_net.EventCounter.{
  FuzzerEventCounter, add, sub, add_assign, sub_assign, sum, max_ts,
}
use fuzztruction_net.EventCounter.Sums.{sub-add, sum-latest}

abbrev counter : Option ℕ → ℕ → FuzzerEventCounter
counter ts n = record {
  init_ts = ts;
  last_finding_ts = none;
  last_crash_ts = none;
  execs = n;
  successful_source_execs = n;
  edges_found = n;
  hits_found = n;
  source_crashes = n;
  source_timeout = n;
  source_no_output = n;
  source_duplicated_output = n;
  sink_timeout = n;
  sink_crashes = n;
  sink_unique_crashes = 1;
}

abbrev one : FuzzerEventCounter
one = counter (some 5) 3

abbrev two : FuzzerEventCounter
two = counter (some 9) (2 ^ 64 - 1)

sub-add_example : (sub (add one two) two ≡ one) × (sub_assign (add_assign one two) two ≡ one)
sub-add_example =
    sub-add one two
      (
        omega arith,
        omega arith,
        omega arith,
        omega arith,
        omega arith,
        omega arith,
        omega arith,
        omega arith,
        omega arith,
        omega arith,
      )
      (
        omega arith,
        omega arith,
        omega arith,
        omega arith,
        omega arith,
        omega arith,
        omega arith,
        omega arith,
        omega arith,
        omega arith,
      )

sum-latest_example : ((sum (one ∷ two ∷ [])).init_ts ≡ some 9) × ((sum (one ∷ two ∷ [])).execs ≡ 2)
unfolding max_ts
sum-latest_example = sum-latest (one ∷ two ∷ [])
