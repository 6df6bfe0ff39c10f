-- ===== src/Mutators.antt =====
-- scheduler/src/fuzzer/worker_impl/mutators.rs: the mutators, iterators that change a borrowed
-- buffer at each step and undo the change before the next one. A mutator holds the buffer as a
-- field; a step gives the next state and whether it yields, and is `none` where it panics; what
-- `rand` draws in a step is an argument of the step.
pub mod Visits
pub mod FlipByte
pub mod FlipBit
pub mod Counter
pub mod RandomBit
pub mod Slices
pub mod RandomByte
pub mod Havoc
pub mod Combine
pub mod Once
pub mod Nop
pub mod Timeout
pub mod Tests
use fuzztruction_net.Base.{
  ℕ, ◌+◌, ◌-◌, ◌*◌, ◌^◌, min, Bool, true, false, Option, none, some, List, [], ◌∷◌, ltb, leb, ◌==◌,
  ◌++◌, ◌&&◌, take, drop, if◌then◌else◌, length, set, ◌>>=◌,
}

-- The trait's `steps_left` and `estimate_runtime`, from the other two counts; a `Duration` is its
-- nanoseconds, and `duration_max` the largest.
abbrev pub duration_max : ℕ
duration_max = (2 ^ 64 - 1) * 1000000000 + 999999999

pub steps_left : ℕ → ℕ → ℕ
steps_left steps_total steps_done = steps_total - steps_done

pub estimate_runtime : ℕ → ℕ → ℕ
estimate_runtime avg_exec_time steps_total =
    min (avg_exec_time * (if ltb steps_total (2 ^ 32) then steps_total else 2 ^ 32 - 1))
      duration_max

pub data MutatorType : Type 0 where
  nop flip_bit flip_byte flip_once : MutatorType
  random_bit random_byte : ℕ → MutatorType
  u8_counter havoc combine : MutatorType

-- The derived equality.
pub same_mutator : MutatorType → MutatorType → Bool
same_mutator nop nop = true
same_mutator flip_bit flip_bit = true
same_mutator flip_byte flip_byte = true
same_mutator flip_once flip_once = true
same_mutator (random_bit n) (random_bit m) = n == m
same_mutator (random_byte n) (random_byte m) = n == m
same_mutator u8_counter u8_counter = true
same_mutator havoc havoc = true
same_mutator combine combine = true
same_mutator a b = false

-- `buffer[i] = v`.
pub write : List ℕ → ℕ → ℕ → Option (List ℕ)
write buffer i v = if ltb i (length buffer) then some (set buffer i v) else none

-- "Revert previous mutation": `if let Some(idx) = last.take() { buffer[idx] = saved }`.
pub revert : Option ℕ → ℕ → List ℕ → Option (List ℕ)
unfolding write
revert none saved buffer = some buffer
revert (some idx) saved buffer = write buffer idx saved

-- `buffer[i..j]`.
pub slice : List ℕ → ℕ → ℕ → Option (List ℕ)
slice buffer i j =
    if leb i j && leb j (length buffer) then some (take (j - i) (drop i buffer)) else none

-- `buffer[i..i + bytes.len()].copy_from_slice(bytes)`.
pub write_slice : List ℕ → ℕ → List ℕ → Option (List ℕ)
write_slice buffer i bytes =
    if leb (i + length bytes) (length buffer)
    then some (take i buffer ++ (bytes ++ drop (i + length bytes) buffer))
    else none

-- `buffer.copy_from_slice(bytes)`.
pub copy_from_slice : List ℕ → List ℕ → Option (List ℕ)
copy_from_slice buffer bytes = if length buffer == length bytes then some bytes else none

-- A loop over a mutator, left when the draws end or the mutator is exhausted: the buffer at each
-- step, and the mutator afterwards.
pub visit :
    {S D : Type 0}
    → (D → S → Option (S × Bool))
    → (S → List ℕ)
    → List D
    → S
    → Option (List (List ℕ) × S)
visit next view [] s = some ([], s)
visit next view (d ∷ ds) s = next d s >>= λ r. elim (r.1) [
  | false ↦ some ([], r.0)
  | true ↦ visit next view ds (r.0) >>= λ v. some (view (r.0) ∷ v.0, v.1)
]
