-- ===== src/Mutators/Counter.antt =====
-- scheduler/src/fuzzer/worker_impl/mutators.rs: `U8Counter`, which combines each byte in turn with the
-- values of a counter by exclusive or.
use Prim.Native.Nat.{bit_xor}
use fuzztruction_net.Base.{
  ℕ, suc, ◌+◌, ◌*◌, ◌/◌, ◌%◌, ◌^◌, ◌≤◌, ◌<◌, ◌≡◌, refl, Bool, true, false, Option, none, some, List,
  arith, ltb, ◌==◌, if◌then◌else◌, length, get_elem?, get_or, set, ◌>>=◌,
}
use fuzztruction_net.Mutators.{MutatorType, u8_counter, write, revert}
use fuzztruction_net.Mutators.Visits.{
  Saved, revert-Saved, get_elem?-get_or, write-set, steps, buffers, steps_all, steps-buffers,
}

pub record U8Counter : Type 0 where
  pub buffer : List ℕ
  pub next_byte : ℕ
  pub last_byte_idx : Option ℕ
  pub last_byte_orig_value : ℕ
  pub ctr : ℕ

pub new : List ℕ → U8Counter
new buffer = record {
  buffer = buffer;
  next_byte = 0;
  last_byte_idx = none;
  last_byte_orig_value = 0;
  ctr = 0;
}

-- The product wraps around in a `usize`.
pub steps_total : U8Counter → ℕ
steps_total self = (length self.buffer * 2 ^ 8) % 2 ^ 64

pub steps_done : U8Counter → ℕ
steps_done self = self.next_byte

pub mutator_type : U8Counter → MutatorType
mutator_type self = u8_counter

-- `ctr.checked_add(1)` fails at 255.
pub next : U8Counter → Option (U8Counter × Bool)
next self = do
  buffer ← revert self.last_byte_idx self.last_byte_orig_value self.buffer
  if self.next_byte == length buffer
      then some (record self { buffer = buffer; last_byte_idx = none }, false)
      else do
        value ← get_elem? buffer self.next_byte
        mutated ← write buffer self.next_byte (bit_xor value self.ctr)
        some (
          record {
            buffer = mutated;
            next_byte = if ltb self.ctr 255 then self.next_byte else suc self.next_byte;
            last_byte_idx = some self.next_byte;
            last_byte_orig_value = value;
            ctr = if ltb self.ctr 255 then suc self.ctr else 0;
          },
          true,
        )

pub drop : U8Counter → Option (List ℕ)
drop self = revert self.last_byte_idx self.last_byte_orig_value self.buffer

abbrev pub At : List ℕ → ℕ → U8Counter → Type 0
At orig i s =
    (s.next_byte ≡ i / 256)
    × (s.ctr ≡ i % 256)
    × Saved orig s.buffer s.last_byte_idx s.last_byte_orig_value

-- The buffer with the byte at `i / 256` combined with `i % 256`.
abbrev pub counted : List ℕ → ℕ → List ℕ
counted orig i = set orig (i / 256) (bit_xor (get_or orig (i / 256) 0) (i % 256))

step :
    (orig : List ℕ) (i : ℕ) (s : U8Counter)
    → i < length orig * 256
    → At orig i s
    → (t : U8Counter) × (next s ≡ some (t, true)) × (t.buffer ≡ counted orig i) × At orig (suc i) t
unfolding next
step orig i s h (e, c, v) =
    let x = bit_xor (get_or orig (i / 256) 0) (i % 256) in
    (
      record {
        buffer = counted orig i;
        next_byte = if ltb (i % 256) 255 then i / 256 else suc (i / 256);
        last_byte_idx = some (i / 256);
        last_byte_orig_value = get_or orig (i / 256) 0;
        ctr = if ltb (i % 256) 255 then suc (i % 256) else 0;
      },
      rw (revert-Saved orig s.buffer s.last_byte_idx s.last_byte_orig_value v, e, c)
          (rw
            (
              get_elem?-get_or orig (i / 256) (omega arith),
              write-set orig (i / 256) x (omega arith),
            )
            (ground arith)),
      refl,
      (ground arith, ground arith, (omega arith, refl, x, refl)),
    )

stop :
    (orig : List ℕ) (s : U8Counter)
    → At orig (length orig * 256) s
    → (t : U8Counter) × (next s ≡ some (t, false))
      × (t.buffer ≡ orig)
      × At orig (length orig * 256) t
unfolding next
stop orig s (e, c, v) = (
  record s { buffer = orig; last_byte_idx = none },
  rw (revert-Saved orig s.buffer s.last_byte_idx s.last_byte_orig_value v) (ground arith),
  refl,
  (e, c, refl),
)

-- A loop over a `U8Counter` sees, for each byte in order, the buffer with that byte combined by exclusive or with
-- the values from 0 to 255, ends after 256 steps for each byte, and leaves the buffer as it was.
pub count_bytes :
    (orig : List ℕ) (m : ℕ)
    → (t : U8Counter) × (steps next (λ t. t.buffer) (length orig * 256 + suc m) (new orig)
        ≡ some (buffers (counted orig) 0 (length orig * 256), t))
      × (t.buffer ≡ orig)
      × (drop t ≡ some orig)
unfolding new drop
count_bytes orig m =
    let (t, e, v, a) =
      steps_all next (λ t. t.buffer) orig (length orig * 256) (counted orig) (At orig) (step orig)
        (stop orig) m (new orig) (refl, refl, refl) in
    (t, e, v, revert-Saved orig t.buffer t.last_byte_idx t.last_byte_orig_value (a.2))

-- A `U8Counter` dropped after `k` steps, at most 256 for each byte, restores the buffer, but
-- counts `k / 256` steps as done.
pub drop-count_bytes :
    (orig : List ℕ) (k : ℕ)
    → k ≤ length orig * 256
    → (t : U8Counter) × (steps next (λ t. t.buffer) k (new orig)
        ≡ some (buffers (counted orig) 0 k, t))
      × (steps_done t ≡ k / 256)
      × (drop t ≡ some orig)
unfolding new drop steps_done
drop-count_bytes orig k l =
    let (t, e, a) =
      steps-buffers next (λ t. t.buffer) orig (length orig * 256) (counted orig) (At orig)
        (step orig) (stop orig) k (new orig) l (refl, refl, refl) in
    (t, e, a.0, revert-Saved orig t.buffer t.last_byte_idx t.last_byte_orig_value (a.2))
