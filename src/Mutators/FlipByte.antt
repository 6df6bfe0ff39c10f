-- ===== src/Mutators/FlipByte.antt =====
-- scheduler/src/fuzzer/worker_impl/mutators.rs: `FlipByte`, which inverts each byte in turn.
use Prim.Native.Nat.{bit_xor}
use fuzztruction_net.Base.{
  ℕ, suc, ◌+◌, ◌≤◌, ◌<◌, ◌≡◌, refl, Bool, true, false, Option, none, some, List, arith, ◌==◌,
  if◌then◌else◌, length, get_elem?, get_or, set, ◌>>=◌,
}
use fuzztruction_net.Mutators.{MutatorType, flip_byte, write, revert}
use fuzztruction_net.Mutators.Visits.{
  Saved, revert-Saved, get_elem?-get_or, write-set, steps, buffers, steps_all, steps-buffers,
}

pub record FlipByte : Type 0 where
  pub buffer : List ℕ
  pub next_idx : ℕ
  pub last_idx : Option ℕ
  pub orig_byte : ℕ

pub new : List ℕ → FlipByte
new buffer = record { buffer = buffer; next_idx = 0; last_idx = none; orig_byte = 0 }

pub steps_total : FlipByte → ℕ
steps_total self = length self.buffer

pub steps_done : FlipByte → ℕ
steps_done self = self.next_idx

pub mutator_type : FlipByte → MutatorType
mutator_type self = flip_byte

pub next : FlipByte → Option (FlipByte × Bool)
next self = do
  buffer ← revert self.last_idx self.orig_byte self.buffer
  if self.next_idx == length buffer
      then some (record self { buffer = buffer; last_idx = none }, false)
      else do
        orig_byte ← get_elem? buffer self.next_idx
        mutated ← write buffer self.next_idx (bit_xor orig_byte 0xff)
        some (
          record {
            buffer = mutated;
            next_idx = suc self.next_idx;
            last_idx = some self.next_idx;
            orig_byte = orig_byte;
          },
          true,
        )

pub drop : FlipByte → Option (List ℕ)
drop self = revert self.last_idx self.orig_byte self.buffer

abbrev pub At : List ℕ → ℕ → FlipByte → Type 0
At orig i s = (s.next_idx ≡ i) × Saved orig s.buffer s.last_idx s.orig_byte

abbrev pub byte_flipped : List ℕ → ℕ → List ℕ
byte_flipped orig i = set orig i (bit_xor (get_or orig i 0) 0xff)

step :
    (orig : List ℕ) (i : ℕ) (s : FlipByte)
    → i < length orig
    → At orig i s
    → (t : FlipByte) × (next s ≡ some (t, true))
      × (t.buffer ≡ byte_flipped orig i)
      × At orig (suc i) t
unfolding next
step orig i s h (e, v) = (
  record {
    buffer = byte_flipped orig i;
    next_idx = suc i;
    last_idx = some i;
    orig_byte = get_or orig i 0;
  },
  rw (revert-Saved orig s.buffer s.last_idx s.orig_byte v, e)
      (rw (get_elem?-get_or orig i h, write-set orig i (bit_xor (get_or orig i 0) 0xff) h)
        (ground arith)),
  refl,
  (refl, (h, refl, bit_xor (get_or orig i 0) 0xff, refl)),
)

stop :
    (orig : List ℕ) (s : FlipByte)
    → At orig (length orig) s
    → (t : FlipByte) × (next s ≡ some (t, false)) × (t.buffer ≡ orig) × At orig (length orig) t
unfolding next
stop orig s (e, v) = (
  record s { buffer = orig; last_idx = none },
  rw (revert-Saved orig s.buffer s.last_idx s.orig_byte v, e) (ground arith),
  refl,
  (e, refl),
)

-- A loop over a `FlipByte` sees the buffer with each of its bytes inverted, in order and one at a
-- time, ends after as many steps as there are bytes, and leaves the buffer as it was.
pub flip_bytes :
    (orig : List ℕ) (m : ℕ)
    → (t : FlipByte) × (steps next (λ t. t.buffer) (length orig + suc m) (new orig)
        ≡ some (buffers (byte_flipped orig) 0 (length orig), t))
      × (t.buffer ≡ orig)
      × (drop t ≡ some orig)
unfolding new drop
flip_bytes orig m =
    let (t, e, v, a) =
      steps_all next (λ t. t.buffer) orig (length orig) (byte_flipped orig) (At orig) (step orig)
        (stop orig) m (new orig) (refl, refl) in
    (t, e, v, revert-Saved orig t.buffer t.last_idx t.orig_byte (a.1))

-- A `FlipByte` that is dropped after `k` steps restores the buffer, and counts `k` steps done.
pub drop-flip_bytes :
    (orig : List ℕ) (k : ℕ)
    → k ≤ length orig
    → (t : FlipByte) × (steps next (λ t. t.buffer) k (new orig)
        ≡ some (buffers (byte_flipped orig) 0 k, t))
      × (steps_done t ≡ k)
      × (drop t ≡ some orig)
unfolding new drop steps_done
drop-flip_bytes orig k h =
    let (t, e, a) =
      steps-buffers next (λ t. t.buffer) orig (length orig) (byte_flipped orig) (At orig)
        (step orig) (stop orig) k (new orig) h (refl, refl) in
    (t, e, a.0, revert-Saved orig t.buffer t.last_idx t.orig_byte (a.1))
