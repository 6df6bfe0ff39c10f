-- ===== src/Mutators/RandomBit.antt =====
-- scheduler/src/fuzzer/worker_impl/mutators.rs: `RandomBit`, which flips random bits.
use Prim.Native.Nat.{bit_xor}
use fuzztruction_net.Base.{
  ℕ, suc, ◌%◌, ◌^◌, ◌≤◌, ◌<◌, ◌≡◌, refl, Bool, true, false, Option, none, some, List, ◌∷◌, ◌++◌,
  arith, ◌==◌, if◌then◌else◌, length, get_elem?, get_or, set, ◌>>=◌,
}
use fuzztruction_net.Mutators.{MutatorType, random_bit, write, revert, visit}
use fuzztruction_net.Mutators.Visits.{
  Saved, revert-Saved, get_elem?-get_or, write-set, steps, contents, visit_all, visit-contents,
  AllDraws,
}

pub record RandomBit : Type 0 where
  pub buffer : List ℕ
  pub current_step : ℕ
  pub max_step : ℕ
  pub last_idx : Option ℕ
  pub saved_byte : ℕ

-- Panics unless `N == 1`.
pub new : ℕ → List ℕ → ℕ → Option RandomBit
new n buffer steps =
    if n == 1
    then some (record {
      buffer = buffer;
      current_step = 0;
      max_step = steps;
      last_idx = none;
      saved_byte = 0;
    })
    else none

pub steps_total : RandomBit → ℕ
steps_total self = self.max_step

pub steps_done : RandomBit → ℕ
steps_done self = self.current_step

pub mutator_type : ℕ → RandomBit → MutatorType
mutator_type n self = random_bit n

-- The draws are `gen_range(0..buffer.len())`, which panics for an empty buffer, and a `u8`.
pub next : ℕ × ℕ → RandomBit → Option (RandomBit × Bool)
next (target_idx, r) self = do
  buffer ← revert self.last_idx self.saved_byte self.buffer
  if self.current_step == self.max_step
      then some (record self { buffer = buffer; last_idx = none }, false)
      else if length buffer == 0
      then none
      else do
        saved_byte ← get_elem? buffer target_idx
        mutated ← write buffer target_idx (bit_xor saved_byte (2 ^ (r % 8)))
        some (
          record self {
            buffer = mutated;
            saved_byte = saved_byte;
            last_idx = some target_idx;
            current_step = suc self.current_step;
          },
          true,
        )

pub drop : RandomBit → Option (List ℕ)
drop self = revert self.last_idx self.saved_byte self.buffer

abbrev pub At : List ℕ → ℕ → ℕ → RandomBit → Type 0
At orig n i s =
    (s.max_step ≡ n) × (s.current_step ≡ i) × Saved orig s.buffer s.last_idx s.saved_byte

-- What `gen_range` promises.
abbrev pub DrawIn : List ℕ → ℕ × ℕ → Type 0
DrawIn orig d = d.0 < length orig

abbrev pub drawn_flip : List ℕ → ℕ → ℕ × ℕ → List ℕ
drawn_flip orig i d = set orig (d.0) (bit_xor (get_or orig (d.0) 0) (2 ^ (d.1 % 8)))

step :
    (orig : List ℕ) (n i : ℕ) (d : ℕ × ℕ) (s : RandomBit)
    → i < n
    → DrawIn orig d
    → At orig n i s
    → (t : RandomBit) × (next d s ≡ some (t, true))
      × (t.buffer ≡ drawn_flip orig i d)
      × At orig n (suc i) t
unfolding next
step orig n i (d, r) s h o (z, e, v) =
    let x = bit_xor (get_or orig d 0) (2 ^ (r % 8)) in
    (
      record s {
        buffer = set orig d x;
        current_step = suc i;
        last_idx = some d;
        saved_byte = get_or orig d 0;
      },
      rw (revert-Saved orig s.buffer s.last_idx s.saved_byte v, e, z)
          (rw (get_elem?-get_or orig d o, write-set orig d x o) (ground arith)),
      refl,
      (z, refl, (o, refl, x, refl)),
    )

stop :
    (orig : List ℕ) (n : ℕ) (d : ℕ × ℕ) (s : RandomBit)
    → At orig n n s
    → (t : RandomBit) × (next d s ≡ some (t, false)) × (t.buffer ≡ orig) × At orig n n t
unfolding next
stop orig n (d, r) s (z, e, v) = (
  record s { buffer = orig; last_idx = none },
  rw (revert-Saved orig s.buffer s.last_idx s.saved_byte v, e, z) (ground arith),
  refl,
  (z, e, refl),
)

-- A loop over a `RandomBit` whose draws are in the buffer flips the drawn bit of the original buffer at each step,
-- ends after the given number of steps, and leaves the buffer as it was.
pub random_bits :
    (orig : List ℕ) (n : ℕ) (ds : List (ℕ × ℕ)) (d : ℕ × ℕ) (rest : List (ℕ × ℕ))
    → length ds ≡ n
    → AllDraws (DrawIn orig) ds
    → (s : RandomBit) × (t : RandomBit) × (new 1 orig n ≡ some s)
      × (visit next (λ t. t.buffer) (ds ++ d ∷ rest) s ≡ some (contents (drawn_flip orig) 0 ds, t))
      × (t.buffer ≡ orig)
      × (drop t ≡ some orig)
unfolding new drop
random_bits orig n ds d rest h o =
    let s : RandomBit = record {
      buffer = orig;
      current_step = 0;
      max_step = n;
      last_idx = none;
      saved_byte = 0;
    } in
    let (t, e, v, a) =
      visit_all next (λ t. t.buffer) orig n (DrawIn orig) (drawn_flip orig) (At orig n)
        (step orig n) (stop orig n) 0 ds d rest s (omega arith) o (refl, refl, refl) in
    (s, t, refl, e, v, revert-Saved orig t.buffer t.last_idx t.saved_byte (a.2))

-- A `RandomBit` that is dropped after some steps, its draws in the buffer, restores the buffer.
pub drop-random_bits :
    (orig : List ℕ) (n : ℕ) (ds : List (ℕ × ℕ))
    → length ds ≤ n
    → AllDraws (DrawIn orig) ds
    → (s : RandomBit) × (t : RandomBit) × (new 1 orig n ≡ some s)
      × (visit next (λ t. t.buffer) ds s ≡ some (contents (drawn_flip orig) 0 ds, t))
      × (steps_done t ≡ length ds)
      × (drop t ≡ some orig)
unfolding new drop steps_done
drop-random_bits orig n ds h o =
    let s : RandomBit = record {
      buffer = orig;
      current_step = 0;
      max_step = n;
      last_idx = none;
      saved_byte = 0;
    } in
    let (t, e, a) =
      visit-contents next (λ t. t.buffer) orig n (DrawIn orig) (drawn_flip orig) (At orig n)
        (step orig n) (stop orig n) 0 ds s (omega arith) o (refl, refl, refl) in
    (s, t, refl, e, omega (arith, a.1), revert-Saved orig t.buffer t.last_idx t.saved_byte (a.2))
