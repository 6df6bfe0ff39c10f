-- ===== src/EventCounter.antt =====
-- scheduler/src/fuzzer/event_counter.rs: the counters of a fuzzer. An `Instant` is its nanoseconds on
-- the clock; the `u64` counters wrap around, as they do in a release build.
pub mod Sums
pub mod Tests
use fuzztruction_net.Base.{
  ℕ, ◌+◌, ◌-◌, ◌%◌, ◌^◌, max, Option, none, some, List, [], ◌∷◌, ltb, if◌then◌else◌,
}

pub record FuzzerEventCounter : Type 0 where
  pub init_ts : Option ℕ
  pub last_finding_ts : Option ℕ
  pub last_crash_ts : Option ℕ
  pub execs : ℕ
  pub successful_source_execs : ℕ
  pub edges_found : ℕ
  pub hits_found : ℕ
  pub source_crashes : ℕ
  pub source_timeout : ℕ
  pub source_no_output : ℕ
  pub source_duplicated_output : ℕ
  pub sink_timeout : ℕ
  pub sink_crashes : ℕ
  pub sink_unique_crashes : ℕ

abbrev pub new : FuzzerEventCounter
new = record {
  init_ts = none;
  last_finding_ts = none;
  last_crash_ts = none;
  execs = 0;
  successful_source_execs = 0;
  edges_found = 0;
  hits_found = 0;
  source_crashes = 0;
  source_timeout = 0;
  source_no_output = 0;
  source_duplicated_output = 0;
  sink_timeout = 0;
  sink_crashes = 0;
  sink_unique_crashes = 0;
}

-- Panics when it is called twice.
unfoldable pub init : ℕ → FuzzerEventCounter → Option FuzzerEventCounter
init now self = elim self.init_ts [
  | none ↦ some (record self { init_ts = some now })
  | some ts ↦ none
]

abbrev pub add_u64 : ℕ → ℕ → ℕ
add_u64 a b = (a + b) % 2 ^ 64

abbrev pub sub_u64 : ℕ → ℕ → ℕ
sub_u64 a b = (a + 2 ^ 64 - b) % 2 ^ 64

pub paths : FuzzerEventCounter → ℕ
paths self = add_u64 self.hits_found self.edges_found

-- The later of two instants, where an instant there is later than none.
unfoldable pub max_ts : Option ℕ → Option ℕ → Option ℕ
max_ts none b = b
max_ts (some a) none = some a
max_ts (some a) (some b) = some (max a b)

unfoldable pub elapsed : ℕ → Option ℕ → Option ℕ
elapsed now none = none
elapsed now (some ts) = some (now - ts)

unfoldable pub time_since_last_new_path_or_crash : ℕ → FuzzerEventCounter → Option ℕ
unfolding max_ts elapsed
time_since_last_new_path_or_crash now self =
    elapsed now (max_ts self.last_finding_ts self.last_crash_ts)

pub runtime : ℕ → FuzzerEventCounter → Option ℕ
unfolding elapsed
runtime now self = elapsed now self.init_ts

unfoldable pub add_assign : FuzzerEventCounter → FuzzerEventCounter → FuzzerEventCounter
add_assign self rhs = record self {
  execs = add_u64 self.execs rhs.execs;
  successful_source_execs = add_u64 self.successful_source_execs rhs.successful_source_execs;
  edges_found = add_u64 self.edges_found rhs.edges_found;
  hits_found = add_u64 self.hits_found rhs.hits_found;
  source_crashes = add_u64 self.source_crashes rhs.source_crashes;
  source_timeout = add_u64 self.source_timeout rhs.source_timeout;
  source_no_output = add_u64 self.source_no_output rhs.source_no_output;
  source_duplicated_output = add_u64 self.source_duplicated_output rhs.source_duplicated_output;
  sink_timeout = add_u64 self.sink_timeout rhs.sink_timeout;
  sink_crashes = add_u64 self.sink_crashes rhs.sink_crashes;
}

pub add : FuzzerEventCounter → FuzzerEventCounter → FuzzerEventCounter
add self rhs = record self {
  execs = add_u64 self.execs rhs.execs;
  successful_source_execs = add_u64 self.successful_source_execs rhs.successful_source_execs;
  edges_found = add_u64 self.edges_found rhs.edges_found;
  hits_found = add_u64 self.hits_found rhs.hits_found;
  source_crashes = add_u64 self.source_crashes rhs.source_crashes;
  source_timeout = add_u64 self.source_timeout rhs.source_timeout;
  source_no_output = add_u64 self.source_no_output rhs.source_no_output;
  source_duplicated_output = add_u64 self.source_duplicated_output rhs.source_duplicated_output;
  sink_timeout = add_u64 self.sink_timeout rhs.sink_timeout;
  sink_crashes = add_u64 self.sink_crashes rhs.sink_crashes;
}

pub sub : FuzzerEventCounter → FuzzerEventCounter → FuzzerEventCounter
sub self rhs = record self {
  execs = sub_u64 self.execs rhs.execs;
  successful_source_execs = sub_u64 self.successful_source_execs rhs.successful_source_execs;
  edges_found = sub_u64 self.edges_found rhs.edges_found;
  hits_found = sub_u64 self.hits_found rhs.hits_found;
  source_crashes = sub_u64 self.source_crashes rhs.source_crashes;
  source_timeout = sub_u64 self.source_timeout rhs.source_timeout;
  source_no_output = sub_u64 self.source_no_output rhs.source_no_output;
  source_duplicated_output = sub_u64 self.source_duplicated_output rhs.source_duplicated_output;
  sink_timeout = sub_u64 self.sink_timeout rhs.sink_timeout;
  sink_crashes = sub_u64 self.sink_crashes rhs.sink_crashes;
}

pub sub_assign : FuzzerEventCounter → FuzzerEventCounter → FuzzerEventCounter
sub_assign self rhs = record self {
  execs = sub_u64 self.execs rhs.execs;
  successful_source_execs = sub_u64 self.successful_source_execs rhs.successful_source_execs;
  edges_found = sub_u64 self.edges_found rhs.edges_found;
  hits_found = sub_u64 self.hits_found rhs.hits_found;
  source_crashes = sub_u64 self.source_crashes rhs.source_crashes;
  source_timeout = sub_u64 self.source_timeout rhs.source_timeout;
  source_no_output = sub_u64 self.source_no_output rhs.source_no_output;
  source_duplicated_output = sub_u64 self.source_duplicated_output rhs.source_duplicated_output;
  sink_timeout = sub_u64 self.sink_timeout rhs.sink_timeout;
  sink_crashes = sub_u64 self.sink_crashes rhs.sink_crashes;
}

-- "The resulting FuzzerStats will have the timestamp of the oldest": the instant kept for the sum so far and the
-- next one's.
pub keep_ts : Option ℕ → Option ℕ → Option ℕ
keep_ts res none = res
keep_ts none (some ts) = some ts
keep_ts (some res_ts) (some ts) = some (if ltb res_ts ts then ts else res_ts)

pub sum_loop : FuzzerEventCounter → List FuzzerEventCounter → FuzzerEventCounter
unfolding add_assign keep_ts
sum_loop res [] = res
sum_loop res (e ∷ es) =
    sum_loop (record (add_assign res e) { init_ts = keep_ts res.init_ts e.init_ts }) es

pub sum : List FuzzerEventCounter → FuzzerEventCounter
unfolding sum_loop
sum es = sum_loop new es
