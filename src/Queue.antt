-- ===== src/Queue.antt =====
-- scheduler/src/fuzzer/queue.rs: the statistics of a queue entry and the queue of all entries. A trace
-- is the list of the ids that it covers. A panic is `none`.
pub mod Entry
pub mod Discovery
pub mod Order
pub mod Tests
use fuzztruction_net.Base.{
  ℕ, suc, ◌+◌, ◌-◌, Bool, true, false, not, ◌||◌, Option, none, some, List, [], ◌∷◌, ◌++◌, ltb,
  ◌==◌, if◌then◌else◌, length, get_elem?, ◌>>=◌,
}
use fuzztruction_net.IntegerSet.{IntegerSet, Rng, choose_random, from_iter, sub, elem}
use fuzztruction_net.IntegerSet as Set
use fuzztruction_net.Mutators.{MutatorType, same_mutator}

pub data FuzzingPhase : Type 0 where
  discovery mutate add combine no_phase exit : FuzzingPhase

pub record QueueEntryStats : Type 0 where
  pub trace : Option (List ℕ)
  pub tracing_in_progress : Bool
  pub blacklisted : Bool
  pub phases_done : List FuzzingPhase
  pub discovery_pending : Option IntegerSet
  pub combine_done : Option IntegerSet
  pub mutators_done : List MutatorType
  pub favoured_weight : Option ℕ

abbrev pub default_favoured_weight : ℕ
default_favoured_weight = 3

pub set_trace : List ℕ → QueueEntryStats → QueueEntryStats
set_trace trace self = record self { trace = some trace }

pub set_blacklisted : QueueEntryStats → QueueEntryStats
set_blacklisted self = record self { blacklisted = true }

phase_number : FuzzingPhase → ℕ
phase_number discovery = 0
phase_number mutate = 1
phase_number add = 2
phase_number combine = 3
phase_number no_phase = 4
phase_number exit = 5

unfoldable pub same_phase : FuzzingPhase → FuzzingPhase → Bool
unfolding phase_number
same_phase p q = phase_number p == phase_number q

-- A `HashSet` is the list of what was inserted.
phase_in : FuzzingPhase → List FuzzingPhase → Bool
unfolding phase_number
phase_in p [] = false
phase_in p (q ∷ qs) = (phase_number q == phase_number p) || phase_in p qs

pub is_phase_done : FuzzingPhase → QueueEntryStats → Bool
unfolding phase_in
is_phase_done phase self = phase_in phase self.phases_done

pub mark_phase_done : FuzzingPhase → QueueEntryStats → QueueEntryStats
mark_phase_done phase self = record self { phases_done = phase ∷ self.phases_done }

-- Panics when a worker is tracing already.
pub mark_tracing_in_progress : QueueEntryStats → Option QueueEntryStats
mark_tracing_in_progress self =
    if self.tracing_in_progress then none else some (record self { tracing_in_progress = true })

-- `get_or_insert_with`: the ids that the trace covers, at the first call.
pub pending_or_covered : ℕ → Option IntegerSet → Option (List ℕ) → Option IntegerSet
pending_or_covered n (some set) trace = some set
pending_or_covered n none none = none
pending_or_covered n none (some covered) = from_iter n covered

-- The selection, and the statistics without it; `n` is MAX_PATCHPOINT_CNT.
pub discovery_allocate : Rng → ℕ → ℕ → QueueEntryStats → Option (IntegerSet × QueueEntryStats)
unfolding pending_or_covered
discovery_allocate rng n max self = do
  set ← pending_or_covered n self.discovery_pending self.trace
  selection ← choose_random rng n set max
  some (selection, record self { discovery_pending = some (sub set selection) })

-- `get_or_insert`: the set of the entries combined with, and the statistics that hold it; `n` is
-- MAX_QUEUE_ENTRY_CNT.
pub combined_with_mut : ℕ → QueueEntryStats → IntegerSet × QueueEntryStats
combined_with_mut n self = elim self.combine_done [
  | some set ↦ (set, self)
  | none ↦ (Set.new n, record self { combine_done = some (Set.new n) })
]

pub mutator_in : MutatorType → List MutatorType → Bool
mutator_in m [] = false
mutator_in m (x ∷ xs) = same_mutator x m || mutator_in m xs

pub is_mutator_done : MutatorType → QueueEntryStats → Bool
unfolding mutator_in
is_mutator_done mutator self = mutator_in mutator self.mutators_done

-- The flag says whether the mutator was not done before.
pub mark_mutator_done : MutatorType → QueueEntryStats → QueueEntryStats × Bool
unfolding mutator_in
mark_mutator_done mutator self =
    if mutator_in mutator self.mutators_done
    then (self, false)
    else (record self { mutators_done = mutator ∷ self.mutators_done }, true)

unfoldable pub is_favoured : QueueEntryStats → Bool
is_favoured self = elim self.favoured_weight [ none ↦ false | some w ↦ true ]

pub marked : Option ℕ → Option ℕ
marked none = some default_favoured_weight
marked (some w) = some w

unfoldable pub mark_favoured_once : QueueEntryStats → QueueEntryStats
unfolding marked
mark_favoured_once self = record self { favoured_weight = marked self.favoured_weight }

unfoldable pub decremented : Option ℕ → Option ℕ
decremented none = none
decremented (some old) = if ltb 1 old then some (old - 1) else some old

unfoldable pub favoured_decrement : QueueEntryStats → QueueEntryStats
unfolding decremented
favoured_decrement self = record self { favoured_weight = decremented self.favoured_weight }

-- The entries from the oldest to the newest; `E` is a reference to a `QueueEntry`.
pub record Queue (E : Type 0) : Type 0 where
  pub entries : List E

module _ {E : Type 0} where
  pub new : Queue E
  new = record { entries = [] }

  unfoldable pub push : E → Queue E → Queue E
  push entry self = record { entries = self.entries ++ entry ∷ [] }

  pub append : List E → Queue E → Queue E
  unfolding push
  append [] self = self
  append (e ∷ es) self = append es (push e self)

  -- `QueueIterator` pops from the back.
  unfoldable pub drain : List E → List E
  drain [] = []
  drain (e ∷ es) = drain es ++ e ∷ []

  unfoldable pub iter : Queue E → List E
  unfolding drain
  iter self = drain self.entries

  pub len : Queue E → ℕ
  len self = length self.entries

  pub get : Queue E → ℕ → Option E
  get self idx = if ltb idx (len self) then get_elem? self.entries idx else none

  find_id : (E → ℕ) → ℕ → List E → Option E
  find_id id_of id [] = none
  find_id id_of id (e ∷ es) =
      let rest = find_id id_of id es in if id_of e == id then some e else rest

  pub get_id : (E → ℕ) → ℕ → Queue E → Option E
  unfolding find_id iter
  get_id id_of id self = find_id id_of id (iter self)

  pub filter_loop : (E → Bool) → List E → List E → List E
  filter_loop f ret [] = ret
  filter_loop f ret (e ∷ es) = filter_loop f (if f e then ret ++ e ∷ [] else ret) es

  unfoldable pub filter : (E → Bool) → Queue E → List E
  unfolding filter_loop iter
  filter f self = filter_loop f [] (iter self)

  unfoldable pub retain_loop : (E → Bool) → List E → List E
  retain_loop f [] = []
  retain_loop f (e ∷ es) = if f e then e ∷ retain_loop f es else retain_loop f es

  unfoldable pub iter_without_crashes : (E → Bool) → Queue E → List E
  unfolding retain_loop drain
  iter_without_crashes is_crash self = drain (retain_loop (λ e. not (is_crash e)) self.entries)
