-- ===== src/Mutators/Havoc.antt =====
-- scheduler/src/fuzzer/worker_impl/mutators.rs: `Havoc`, which stacks random
-- mutations and starts over from the original buffer after `max_stacks` of them.
pub mod Stacks
use Prim.Native.Nat.{bit_xor}
use fuzztruction_net.Base.{
  ℕ, zero, suc, ◌+◌, ◌-◌, ◌*◌, ◌/◌, ◌%◌, ◌^◌, ◌≤◌, ◌<◌, ◌≡◌, refl, sym, ap, Bool, true, false,
  Option, none, some, List, [], ◌∷◌, ◌++◌, map, not, ◌&&◌, arith, ltb, leb, ◌==◌, if◌then◌else◌,
  min, length, get_elem?, get_or, set, take, replicate, length-set, length-map, length-take,
  length-append, length-replicate, take-append-drop, ◌>>=◌, Bool-cases, inl, inr, subst,
}
use fuzztruction_net.Mutators.{
  MutatorType, slice, write_slice, copy_from_slice, havoc, write, revert, visit,
}
use fuzztruction_net.Mutators.Visits.{
  Saved, revert-Saved, get_elem?-get_or, write-set, steps, buffers, steps_all, steps-buffers,
  contents, visit_all, visit-contents, AllDraws,
}

pub data HavocMutationType : Type 0 where
  flip_bit_at flip_byte_at random_byte_at interesting_value : HavocMutationType

-- `From<u8>`: any other value is unreachable.
pub from_u8 : ℕ → Option HavocMutationType
from_u8 zero = some flip_bit_at
from_u8 (suc zero) = some flip_byte_at
from_u8 (suc (suc zero)) = some random_byte_at
from_u8 (suc (suc (suc zero))) = some interesting_value
from_u8 (suc (suc (suc (suc value)))) = none

abbrev pub interesting_values : List ℕ
interesting_values = 0x80 ∷ 0x1 ∷ 0x0 ∷ 0x2 ∷ []

pub record Havoc : Type 0 where
  pub buffer : List ℕ
  pub orig_buffer : List ℕ
  pub done : ℕ
  pub max_stacks : ℕ
  pub repetitions : ℕ
  pub total : ℕ

-- The product wraps around in a `usize`.
pub new : List ℕ → ℕ → ℕ → Havoc
new buffer max_stacks repetitions = record {
  buffer = buffer;
  orig_buffer = buffer;
  done = 0;
  total = (max_stacks * repetitions) % 2 ^ 64;
  max_stacks = max_stacks;
  repetitions = repetitions;
}

pub steps_total : Havoc → ℕ
steps_total self = self.total

pub steps_done : Havoc → ℕ
steps_done self = self.done

pub mutator_type : Havoc → MutatorType
mutator_type self = havoc

-- The mutation of one step, on a buffer that is not empty: `%` by an empty buffer's length panics.
pub mutate : HavocMutationType → ℕ → ℕ → List ℕ → Option (List ℕ)
mutate flip_bit_at random_idx r buffer = if length buffer == 0 then none else (do
  value ← get_elem? buffer (random_idx / 8 % length buffer)
  write buffer (random_idx / 8 % length buffer) (bit_xor value (2 ^ (random_idx % 8))))
mutate flip_byte_at random_idx r buffer = if length buffer == 0 then none else (do
  value ← get_elem? buffer (random_idx % length buffer)
  write buffer (random_idx % length buffer) (bit_xor value 0xff))
mutate random_byte_at random_idx r buffer =
    if length buffer == 0 then none else write buffer (random_idx % length buffer) r
mutate interesting_value random_idx r buffer =
    some (map (λ b. get_or interesting_values (random_idx % 4) 0) buffer)

-- "revert previous mutations if we stacked the maximum of mutations"; `%` by 0 panics.
pub unstack : Havoc → Option (List ℕ)
unfolding copy_from_slice
unstack self =
    if ltb 0 self.done
    then (if self.max_stacks == 0
        then none
        else if self.done % self.max_stacks == 0
        then copy_from_slice self.buffer self.orig_buffer
        else some self.buffer)
    else some self.buffer

-- The draws are a `u8`, a `usize` and, for one kind of mutation, another `u8`.
pub next : ℕ × ℕ × ℕ → Havoc → Option (Havoc × Bool)
unfolding unstack from_u8 mutate copy_from_slice
next (choice, random_idx, r) self =
    if self.done == self.total
    then (do
      buffer ← copy_from_slice self.buffer self.orig_buffer
      some (record self { buffer = buffer }, false))
    else (do
      buffer ← unstack self
      kind ← from_u8 (choice % 4)
      mutated ← mutate kind random_idx r buffer
      some (record self { buffer = mutated; done = suc self.done }, true))

pub drop : Havoc → Option (List ℕ)
unfolding copy_from_slice
drop self = copy_from_slice self.buffer self.orig_buffer
