-- ===== src/Mutators/FlipBit.antt =====
-- scheduler/src/fuzzer/worker_impl/mutators.rs: `FlipBit`, which flips each bit in turn.
use Prim.Native.Nat.{bit_xor}
use fuzztruction_net.Base.{
  ℕ, suc, ◌+◌, ◌*◌, ◌/◌, ◌%◌, ◌^◌, ◌≤◌, ◌<◌, ◌≡◌, refl, Bool, true, false, Option, none, some, List,
  arith, ◌==◌, if◌then◌else◌, length, get_elem?, get_or, set, ◌>>=◌,
}
use fuzztruction_net.Mutators.{MutatorType, flip_bit, write, revert}
use fuzztruction_net.Mutators.Visits.{
  Saved, revert-Saved, get_elem?-get_or, write-set, steps, buffers, steps_all, steps-buffers,
}

pub record FlipBit : Type 0 where
  pub buffer : List ℕ
  pub size_in_bits : ℕ
  pub next_bit : ℕ
  pub last_byte_idx : Option ℕ
  pub last_byte_orig_value : ℕ

-- The product wraps around in a `usize`.
pub new : List ℕ → FlipBit
new buffer = record {
  buffer = buffer;
  next_bit = 0;
  size_in_bits = (length buffer * 8) % 2 ^ 64;
  last_byte_idx = none;
  last_byte_orig_value = 0;
}

pub steps_total : FlipBit → ℕ
steps_total self = self.size_in_bits

pub steps_done : FlipBit → ℕ
steps_done self = self.next_bit

pub mutator_type : FlipBit → MutatorType
mutator_type self = flip_bit

pub next : FlipBit → Option (FlipBit × Bool)
next self = do
  buffer ← revert self.last_byte_idx self.last_byte_orig_value self.buffer
  if self.next_bit == self.size_in_bits
      then some (record self { buffer = buffer; last_byte_idx = none }, false)
      else do
        value ← get_elem? buffer (self.next_bit / 8)
        mutated ← write buffer (self.next_bit / 8) (bit_xor value (2 ^ (self.next_bit % 8)))
        some (
          record self {
            buffer = mutated;
            next_bit = suc self.next_bit;
            last_byte_idx = some (self.next_bit / 8);
            last_byte_orig_value = value;
          },
          true,
        )

pub drop : FlipBit → Option (List ℕ)
drop self = revert self.last_byte_idx self.last_byte_orig_value self.buffer

abbrev pub At : List ℕ → ℕ → FlipBit → Type 0
At orig i s =
    (s.size_in_bits ≡ length orig * 8)
    × (s.next_bit ≡ i)
    × Saved orig s.buffer s.last_byte_idx s.last_byte_orig_value

-- The buffer with bit `i` inverted, counted from the lowest bit of the first byte.
abbrev pub bit_flipped : List ℕ → ℕ → List ℕ
bit_flipped orig i = set orig (i / 8) (bit_xor (get_or orig (i / 8) 0) (2 ^ (i % 8)))

step :
    (orig : List ℕ) (i : ℕ) (s : FlipBit)
    → i < length orig * 8
    → At orig i s
    → (t : FlipBit) × (next s ≡ some (t, true))
      × (t.buffer ≡ bit_flipped orig i)
      × At orig (suc i) t
unfolding next
step orig i s h (z, e, v) =
    let x = bit_xor (get_or orig (i / 8) 0) (2 ^ (i % 8)) in
    (
      record s {
        buffer = bit_flipped orig i;
        next_bit = suc i;
        last_byte_idx = some (i / 8);
        last_byte_orig_value = get_or orig (i / 8) 0;
      },
      rw (revert-Saved orig s.buffer s.last_byte_idx s.last_byte_orig_value v, e, z)
          (rw (get_elem?-get_or orig (i / 8) (omega arith), write-set orig (i / 8) x (omega arith))
            (ground arith)),
      refl,
      (z, refl, (omega arith, refl, x, refl)),
    )

stop :
    (orig : List ℕ) (s : FlipBit)
    → At orig (length orig * 8) s
    → (t : FlipBit) × (next s ≡ some (t, false)) × (t.buffer ≡ orig) × At orig (length orig * 8) t
unfolding next
stop orig s (z, e, v) = (
  record s { buffer = orig; last_byte_idx = none },
  rw (revert-Saved orig s.buffer s.last_byte_idx s.last_byte_orig_value v, e, z) (ground arith),
  refl,
  (z, e, refl),
)

-- A loop over a `FlipBit` on a buffer whose bits a `usize` counts sees the buffer with each of its bits inverted,
-- in order and one at a time, ends after as many steps as there are bits, and leaves the buffer as it was.
pub flip_bits :
    (orig : List ℕ) (m : ℕ)
    → length orig * 8 < 2 ^ 64
    → (t : FlipBit) × (steps next (λ t. t.buffer) (length orig * 8 + suc m) (new orig)
        ≡ some (buffers (bit_flipped orig) 0 (length orig * 8), t))
      × (t.buffer ≡ orig)
      × (drop t ≡ some orig)
unfolding new drop
flip_bits orig m h =
    let (t, e, v, a) =
      steps_all next (λ t. t.buffer) orig (length orig * 8) (bit_flipped orig) (At orig) (step orig)
        (stop orig) m (new orig) (omega arith, refl, refl) in
    (t, e, v, revert-Saved orig t.buffer t.last_byte_idx t.last_byte_orig_value (a.2))

-- A `FlipBit` on a buffer whose bits a `usize` counts, dropped after `k` steps, at most one for
-- each bit, has flipped the first `k` bits one at a time, has counted `k` steps as done, and
-- restores the buffer.
pub drop-flip_bits :
    (orig : List ℕ) (k : ℕ)
    → length orig * 8 < 2 ^ 64
    → k ≤ length orig * 8
    → (t : FlipBit) × (steps next (λ t. t.buffer) k (new orig)
        ≡ some (buffers (bit_flipped orig) 0 k, t))
      × (steps_total t ≡ length orig * 8)
      × (steps_done t ≡ k)
      × (drop t ≡ some orig)
unfolding new drop steps_done steps_total
drop-flip_bits orig k h l =
    let (t, e, a) =
      steps-buffers next (λ t. t.buffer) orig (length orig * 8) (bit_flipped orig) (At orig)
        (step orig) (stop orig) k (new orig) l (omega arith, refl, refl) in
    (t, e, a.0, a.1, revert-Saved orig t.buffer t.last_byte_idx t.last_byte_orig_value (a.2))
