-- ===== src/EventCounter/Sums.antt =====
-- Sums and differences of counters.
use fuzztruction_net.Base.{
  ℕ, ◌+◌, ◌%◌, ◌^◌, ◌<◌, ◌≡◌, refl, sym, ap, ◌∙◌, arith, Option, none, some, List, [], ◌∷◌,
}
use fuzztruction_net.EventCounter.{
  FuzzerEventCounter, new, add_u64, sub_u64, add_assign, add, sub, sub_assign, keep_ts, sum_loop,
  sum, max_ts,
}

-- The counters are `u64`.
abbrev pub IsU64 : FuzzerEventCounter → Type 0
IsU64 c =
    (c.execs < 2 ^ 64)
    × (c.successful_source_execs < 2 ^ 64)
    × (c.edges_found < 2 ^ 64)
    × (c.hits_found < 2 ^ 64)
    × (c.source_crashes < 2 ^ 64)
    × (c.source_timeout < 2 ^ 64)
    × (c.source_no_output < 2 ^ 64)
    × (c.source_duplicated_output < 2 ^ 64)
    × (c.sink_timeout < 2 ^ 64)
    × (c.sink_crashes < 2 ^ 64)

sub-add_u64 : (a b : ℕ) → a < 2 ^ 64 → b < 2 ^ 64 → sub_u64 (add_u64 a b) b ≡ a
sub-add_u64 a b h k = omega arith

-- Subtracting counters from a sum with them gives back the other counters, for `u64` counters
-- and also where the sum wraps around; so it does with the assigning operators.
pub sub-add :
    (c d : FuzzerEventCounter)
    → IsU64 c
    → IsU64 d
    → (sub (add c d) d ≡ c) × (sub_assign (add_assign c d) d ≡ c)
unfolding sub add sub_assign add_assign
sub-add c d (h0, h1, h2, h3, h4, h5, h6, h7, h8, h9) (k0, k1, k2, k3, k4, k5, k6, k7, k8, k9) =
    let e : sub (add c d) d ≡ c =
      rw
        (
          sub-add_u64 c.execs d.execs h0 k0,
          sub-add_u64 c.successful_source_execs d.successful_source_execs h1 k1,
          sub-add_u64 c.edges_found d.edges_found h2 k2,
          sub-add_u64 c.hits_found d.hits_found h3 k3,
          sub-add_u64 c.source_crashes d.source_crashes h4 k4,
          sub-add_u64 c.source_timeout d.source_timeout h5 k5,
          sub-add_u64 c.source_no_output d.source_no_output h6 k6,
          sub-add_u64 c.source_duplicated_output d.source_duplicated_output h7 k7,
          sub-add_u64 c.sink_timeout d.sink_timeout h8 k8,
          sub-add_u64 c.sink_crashes d.sink_crashes h9 k9,
        )
        refl in
    (e, e)

-- The latest of the instants.
abbrev pub latest : List FuzzerEventCounter → Option ℕ
latest [] = none
latest (e ∷ es) = max_ts e.init_ts (latest es)

-- The sum of the numbers of executions.
abbrev pub total_execs : List FuzzerEventCounter → ℕ
total_execs [] = 0
total_execs (e ∷ es) = e.execs + total_execs es

keep_ts-max_ts : (a b : Option ℕ) → keep_ts a b ≡ max_ts a b
unfolding keep_ts max_ts
keep_ts-max_ts none none = refl
keep_ts-max_ts none (some b) = refl
keep_ts-max_ts (some a) none = refl
keep_ts-max_ts (some a) (some b) = ap some (ground arith)

max_ts_assoc : (a b c : Option ℕ) → max_ts (max_ts a b) c ≡ max_ts a (max_ts b c)
unfolding max_ts
max_ts_assoc none b c = refl
max_ts_assoc (some a) none c = refl
max_ts_assoc (some a) (some b) none = refl
max_ts_assoc (some a) (some b) (some c) = ap some (omega arith)

max_ts-none : (a : Option ℕ) → max_ts a none ≡ a
unfolding max_ts
max_ts-none none = refl
max_ts-none (some a) = refl

sum_loop-latest :
    (res : FuzzerEventCounter) (es : List FuzzerEventCounter)
    → (sum_loop res es).init_ts ≡ max_ts res.init_ts (latest es)
unfolding sum_loop add_assign
sum_loop-latest res [] = sym (max_ts-none res.init_ts)
sum_loop-latest res (e ∷ es) =
    sum_loop-latest (record (add_assign res e) { init_ts = keep_ts res.init_ts e.init_ts }) es
    ∙ ap (λ t. max_ts t (latest es)) (keep_ts-max_ts res.init_ts e.init_ts)
    ∙ max_ts_assoc res.init_ts e.init_ts (latest es)

sum_loop-total_execs :
    (res : FuzzerEventCounter) (es : List FuzzerEventCounter)
    → res.execs < 2 ^ 64
    → (sum_loop res es).execs ≡ (res.execs + total_execs es) % 2 ^ 64
unfolding sum_loop add_assign
sum_loop-total_execs res [] h = omega arith
sum_loop-total_execs res (e ∷ es) h =
    sum_loop-total_execs (record (add_assign res e) { init_ts = keep_ts res.init_ts e.init_ts }) es
      (omega arith)
    ∙ omega arith

-- A sum of counters has the latest of their start instants, none if no counter has one, and the number of all
-- their executions in a `u64`.
pub sum-latest :
    (es : List FuzzerEventCounter)
    → ((sum es).init_ts ≡ latest es) × ((sum es).execs ≡ total_execs es % 2 ^ 64)
unfolding sum max_ts
sum-latest es =
    (sum_loop-latest new es ∙ refl, sum_loop-total_execs new es (omega arith) ∙ omega arith)
