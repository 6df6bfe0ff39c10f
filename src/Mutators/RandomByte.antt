-- ===== src/Mutators/RandomByte.antt =====
-- scheduler/src/fuzzer/worker_impl/mutators.rs: `RandomByte`, which combines
-- neighbouring bytes at a random place with random bytes.
use Prim.Native.Nat.{bit_xor}
use fuzztruction_net.Base.{
  ℕ, suc, ◌+◌, ◌-◌, ◌≤◌, ◌<◌, ◌≡◌, refl, ap, Bool, true, false, Option, none, some, List, [], ◌∷◌,
  ◌++◌, arith, ltb, ◌==◌, if◌then◌else◌, length, take, replicate, length-take, ◌>>=◌,
}
use fuzztruction_net.Mutators.{MutatorType, slice, write_slice, random_byte, visit}
use fuzztruction_net.Mutators.Visits.{steps, contents, visit_all, visit-contents, AllDraws}
use fuzztruction_net.Mutators.Slices.{patched, write_slice-patched, length-drop}
use fuzztruction_net.Base.{drop}

pub record RandomByte : Type 0 where
  pub buffer : List ℕ
  pub current_step : ℕ
  pub max_step : ℕ
  pub last_idx : Option ℕ
  pub saved_bytes : List ℕ

-- `None` for a buffer with fewer than `N` bytes.
pub new : ℕ → List ℕ → ℕ → Option RandomByte
new n buffer steps =
    if ltb (length buffer) n
    then none
    else some (record {
      buffer = buffer;
      current_step = 0;
      max_step = steps;
      last_idx = none;
      saved_bytes = replicate n 0;
    })

pub steps_total : RandomByte → ℕ
steps_total self = self.max_step

pub steps_done : RandomByte → ℕ
steps_done self = self.current_step

pub mutator_type : ℕ → RandomByte → MutatorType
mutator_type n self = random_byte n

pub revert_bytes : Option ℕ → List ℕ → List ℕ → Option (List ℕ)
unfolding write_slice
revert_bytes none saved buffer = some buffer
revert_bytes (some idx) saved buffer = write_slice buffer idx saved

-- `*e ^= rng.gen::<u8>()` for each of the bytes.
abbrev pub xor_draws : List ℕ → List ℕ → List ℕ
xor_draws [] rs = []
xor_draws (e ∷ es) [] = e ∷ es
xor_draws (e ∷ es) (r ∷ rs) = bit_xor e r ∷ xor_draws es rs

-- The draws are `gen_range(0..=(buffer.len() - N))` and a `u8` for each byte.
pub next : ℕ → ℕ × List ℕ → RandomByte → Option (RandomByte × Bool)
unfolding slice write_slice
next n (last_idx, rs) self = do
  buffer ← revert_bytes self.last_idx self.saved_bytes self.buffer
  if self.current_step == self.max_step
      then some (record self { buffer = buffer; last_idx = none }, false)
      else do
        saved_bytes ← slice buffer last_idx (last_idx + n)
        mutated ← write_slice buffer last_idx (xor_draws saved_bytes rs)
        some (
          record self {
            buffer = mutated;
            saved_bytes = saved_bytes;
            last_idx = some last_idx;
            current_step = suc self.current_step;
          },
          true,
        )

pub drop_mutator : RandomByte → Option (List ℕ)
unfolding revert_bytes
drop_mutator self = revert_bytes self.last_idx self.saved_bytes self.buffer

abbrev pub SavedBytes : List ℕ → ℕ → List ℕ → Option ℕ → List ℕ → Type 0
SavedBytes orig n buffer none saved = buffer ≡ orig
SavedBytes orig n buffer (some i) saved =
    (i + n ≤ length orig)
    × (saved ≡ take n (drop i orig))
    × (w : List ℕ) × (length w ≡ n)
    × (buffer ≡ patched orig i w)

revert_bytes-SavedBytes :
    (orig : List ℕ) (n : ℕ) (buffer : List ℕ) (last : Option ℕ) (saved : List ℕ)
    → SavedBytes orig n buffer last saved
    → revert_bytes last saved buffer ≡ some orig
unfolding revert_bytes
revert_bytes-SavedBytes orig n buffer none saved h = ap some h
revert_bytes-SavedBytes orig n buffer (some i) saved (l, e, w, h, b) =
    rw (b, e) (write_slice-patched orig w i n h l)

abbrev pub At : List ℕ → ℕ → ℕ → ℕ → RandomByte → Type 0
At orig n m i s =
    (s.max_step ≡ m) × (s.current_step ≡ i) × SavedBytes orig n s.buffer s.last_idx s.saved_bytes

-- What `gen_range` promises.
abbrev pub DrawIn : List ℕ → ℕ → ℕ × List ℕ → Type 0
DrawIn orig n d = d.0 + n ≤ length orig

-- The buffer with the `n` bytes from the drawn place on combined with the drawn bytes.
abbrev pub drawn_bytes : List ℕ → ℕ → ℕ → ℕ × List ℕ → List ℕ
drawn_bytes orig n i d = patched orig (d.0) (xor_draws (take n (drop (d.0) orig)) (d.1))

length-xor_draws : (es rs : List ℕ) → length (xor_draws es rs) ≡ length es
length-xor_draws [] rs = refl
length-xor_draws (e ∷ es) [] = refl
length-xor_draws (e ∷ es) (r ∷ rs) = ap suc (length-xor_draws es rs)

slice_window :
    (orig : List ℕ) (n i : ℕ)
    → i + n ≤ length orig
    → slice orig i (i + n) ≡ some (take n (drop i orig))
unfolding slice
slice_window orig n i h = let e : i + n - i ≡ n = omega arith in rw e (ground arith)

write_slice_window :
    (orig w : List ℕ) (i : ℕ)
    → i + length w ≤ length orig
    → write_slice orig i w ≡ some (patched orig i w)
unfolding write_slice
write_slice_window orig w i h = ground arith

step :
    (orig : List ℕ) (n m i : ℕ) (d : ℕ × List ℕ) (s : RandomByte)
    → i < m
    → DrawIn orig n d
    → At orig n m i s
    → (t : RandomByte) × (next n d s ≡ some (t, true))
      × (t.buffer ≡ drawn_bytes orig n i d)
      × At orig n m (suc i) t
unfolding next
step orig n m i (d, rs) s h o (z, e, v) =
    let w = xor_draws (take n (drop d orig)) rs in
    let lw : length w ≡ n = omega (
      arith,
      length-xor_draws (take n (drop d orig)) rs,
      length-take n (drop d orig),
      length-drop d orig,
    ) in
    (
      record s {
        buffer = patched orig d w;
        current_step = suc i;
        last_idx = some d;
        saved_bytes = take n (drop d orig);
      },
      rw (revert_bytes-SavedBytes orig n s.buffer s.last_idx s.saved_bytes v, e, z)
          (rw (slice_window orig n d o, write_slice_window orig w d (omega arith)) (ground arith)),
      refl,
      (z, refl, (o, refl, w, lw, refl)),
    )

stop :
    (orig : List ℕ) (n m : ℕ) (d : ℕ × List ℕ) (s : RandomByte)
    → At orig n m m s
    → (t : RandomByte) × (next n d s ≡ some (t, false)) × (t.buffer ≡ orig) × At orig n m m t
unfolding next
stop orig n m (d, r) s (z, e, v) = (
  record s { buffer = orig; last_idx = none },
  rw (revert_bytes-SavedBytes orig n s.buffer s.last_idx s.saved_bytes v, e, z) (ground arith),
  refl,
  (z, e, refl),
)

-- A loop over a `RandomByte` of a buffer with at least `n` bytes, whose draws are in the buffer, changes at each step
-- only `n` neighbouring bytes of the original buffer, ends after the given number of steps, and leaves the buffer as it was.
pub random_bytes :
    (orig : List ℕ) (n m : ℕ) (ds : List (ℕ × List ℕ)) (d : ℕ × List ℕ) (rest : List (ℕ × List ℕ))
    → n ≤ length orig
    → length ds ≡ m
    → AllDraws (DrawIn orig n) ds
    → (s : RandomByte) × (t : RandomByte) × (new n orig m ≡ some s)
      × (visit (next n) (λ t. t.buffer) (ds ++ d ∷ rest) s
          ≡ some (contents (drawn_bytes orig n) 0 ds, t))
      × (t.buffer ≡ orig)
      × (drop_mutator t ≡ some orig)
unfolding new drop_mutator
random_bytes orig n m ds d rest l h o =
    let s : RandomByte = record {
      buffer = orig;
      current_step = 0;
      max_step = m;
      last_idx = none;
      saved_bytes = replicate n 0;
    } in
    let (t, e, v, a) =
      visit_all (next n) (λ t. t.buffer) orig m (DrawIn orig n) (drawn_bytes orig n) (At orig n m)
        (step orig n m) (stop orig n m) 0 ds d rest s (omega arith) o (refl, refl, refl) in
    (
      s,
      t,
      ground arith,
      e,
      v,
      revert_bytes-SavedBytes orig n t.buffer t.last_idx t.saved_bytes (a.2),
    )

-- A `RandomByte` that is dropped after some steps, its draws in the buffer, restores the buffer.
pub drop-random_bytes :
    (orig : List ℕ) (n m : ℕ) (ds : List (ℕ × List ℕ))
    → n ≤ length orig
    → length ds ≤ m
    → AllDraws (DrawIn orig n) ds
    → (s : RandomByte) × (t : RandomByte) × (new n orig m ≡ some s)
      × (visit (next n) (λ t. t.buffer) ds s ≡ some (contents (drawn_bytes orig n) 0 ds, t))
      × (steps_done t ≡ length ds)
      × (drop_mutator t ≡ some orig)
unfolding new drop_mutator steps_done
drop-random_bytes orig n m ds l h o =
    let s : RandomByte = record {
      buffer = orig;
      current_step = 0;
      max_step = m;
      last_idx = none;
      saved_bytes = replicate n 0;
    } in
    let (t, e, a) =
      visit-contents (next n) (λ t. t.buffer) orig m (DrawIn orig n) (drawn_bytes orig n)
        (At orig n m) (step orig n m) (stop orig n m) 0 ds s (omega arith) o (refl, refl, refl) in
    (
      s,
      t,
      ground arith,
      e,
      omega (arith, a.1),
      revert_bytes-SavedBytes orig n t.buffer t.last_idx t.saved_bytes (a.2),
    )
