-- ===== src/Mutators/Havoc/Stacks.antt =====
-- scheduler/src/fuzzer/worker_impl/mutators.rs: what a loop over `Havoc` sees.
use Prim.Native.Nat.{bit_xor}
use native.Mathlib.Nat.{mod-lt}
use fuzztruction_net.Base.{
  ℕ, zero, suc, ◌+◌, ◌*◌, ◌/◌, ◌%◌, ◌^◌, ◌≤◌, ◌<◌, ◌≡◌, refl, true, false, some, List, [], ◌∷◌,
  ◌++◌, map, arith, ◌==◌, if◌then◌else◌, length, get_or, set, length-set, length-map, subst,
}
use fuzztruction_net.Mutators.{visit}
use fuzztruction_net.Mutators.Visits.{get_elem?-get_or, write-set}
use fuzztruction_net.Mutators.{copy_from_slice}
use fuzztruction_net.Mutators.Havoc.{
  HavocMutationType, flip_bit_at, flip_byte_at, random_byte_at, interesting_value,
  interesting_values, from_u8, Havoc, new, mutate, unstack, next, drop, steps_done,
}

-- The mutation of a step as a function of the buffer.
abbrev pub mutated : HavocMutationType → ℕ → ℕ → List ℕ → List ℕ
mutated flip_bit_at idx r b =
    set b (idx / 8 % length b) (bit_xor (get_or b (idx / 8 % length b) 0) (2 ^ (idx % 8)))
mutated flip_byte_at idx r b = set b (idx % length b) (bit_xor (get_or b (idx % length b) 0) 0xff)
mutated random_byte_at idx r b = set b (idx % length b) r
mutated interesting_value idx r b = map (λ x. get_or interesting_values (idx % 4) 0) b

abbrev pub kind_of : ℕ → HavocMutationType
kind_of zero = flip_bit_at
kind_of (suc zero) = flip_byte_at
kind_of (suc (suc zero)) = random_byte_at
kind_of (suc (suc (suc c))) = interesting_value

-- The buffers from step `i` on: each mutates the one before, or the original one when `i` is a
-- multiple of `max_stacks`.
abbrev pub stack : List ℕ → ℕ → ℕ → List ℕ → List (ℕ × ℕ × ℕ) → List (List ℕ)
stack orig max_stacks i cur [] = []
stack orig max_stacks i cur (d ∷ ds) =
    let b = mutated (kind_of (d.0 % 4)) (d.1) (d.2) (if i % max_stacks == 0 then orig else cur) in
    b ∷ stack orig max_stacks (suc i) b ds

length-mutated :
    (k : HavocMutationType) (idx r : ℕ) (b : List ℕ) → length (mutated k idx r b) ≡ length b
length-mutated flip_bit_at idx r b = length-set b _ _
length-mutated flip_byte_at idx r b = length-set b _ _
length-mutated random_byte_at idx r b = length-set b _ _
length-mutated interesting_value idx r b = length-map _ b

from_u8-kind_of : (c : ℕ) → c < 4 → from_u8 c ≡ some (kind_of c)
unfolding from_u8
from_u8-kind_of zero h = refl
from_u8-kind_of (suc zero) h = refl
from_u8-kind_of (suc (suc zero)) h = refl
from_u8-kind_of (suc (suc (suc zero))) h = refl
from_u8-kind_of (suc (suc (suc (suc c)))) h = absurd (omega arith)

mutate-mutated :
    (k : HavocMutationType) (idx r : ℕ) (b : List ℕ)
    → 0 < length b
    → mutate k idx r b ≡ some (mutated k idx r b)
unfolding mutate
mutate-mutated flip_bit_at idx r b h =
    let l : idx / 8 % length b < length b = mod-lt (idx / 8) h in
    rw
      (
        get_elem?-get_or b (idx / 8 % length b) l,
        write-set b (idx / 8 % length b) (bit_xor (get_or b (idx / 8 % length b) 0) (2 ^ (idx % 8)))
            l,
      )
      (ground arith)
mutate-mutated flip_byte_at idx r b h =
    let l : idx % length b < length b = mod-lt idx h in
    rw
      (
        get_elem?-get_or b (idx % length b) l,
        write-set b (idx % length b) (bit_xor (get_or b (idx % length b) 0) 0xff) l,
      )
      (ground arith)
mutate-mutated random_byte_at idx r b h =
    let l : idx % length b < length b = mod-lt idx h in
    rw (write-set b (idx % length b) r l) (ground arith)
mutate-mutated interesting_value idx r b h = refl

abbrev pub At : List ℕ → ℕ → ℕ → ℕ → List ℕ → Havoc → Type 0
At orig max_stacks n i cur s =
    (s.buffer ≡ cur)
    × (length cur ≡ length orig)
    × (s.orig_buffer ≡ orig)
    × (s.done ≡ i)
    × (s.max_stacks ≡ max_stacks)
    × (s.total ≡ n)
    × (i ≡ 0 → cur ≡ orig)

module _ (orig : List ℕ) (max_stacks n : ℕ) (full : 0 < length orig)
    (room : 0 < n → 0 < max_stacks) where
  unstack-At :
      (i : ℕ) (cur : List ℕ) (s : Havoc)
      → i < n
      → At orig max_stacks n i cur s
      → unstack s ≡ some (if i % max_stacks == 0 then orig else cur)
  unfolding unstack copy_from_slice
  unstack-At i cur s lt (b, l, o, d, m, t, z) =
      rw (b, o, d, m) (ground (arith, room (omega arith), z))

  step :
      (i : ℕ) (cur : List ℕ) (d : ℕ × ℕ × ℕ) (s : Havoc)
      → i < n
      → At orig max_stacks n i cur s
      → (u : Havoc) × (next d s ≡ some (u, true))
        × At orig max_stacks n
            (suc i)
            (mutated (kind_of (d.0 % 4)) (d.1) (d.2) (if i % max_stacks == 0 then orig else cur))
            u
  unfolding next
  step i cur (c, idx, r) s lt (b, l, o, d, m, t, z) =
      let from = if i % max_stacks == 0 then orig else cur in
      let k = kind_of (c % 4) in
      let lf : length from ≡ length orig = ground arith in
      (
        record s { buffer = mutated k idx r from; done = suc i },
        rw
            (
              unstack-At i cur s lt (b, l, o, d, m, t, z),
              from_u8-kind_of (c % 4) (omega arith),
              d,
              t,
            )
            (rw (mutate-mutated k idx r from (omega arith)) (ground arith)),
        (
          refl,
          omega (arith, length-mutated k idx r from),
          o,
          refl,
          m,
          t,
          λ e. absurd (omega arith),
        ),
      )

  stop :
      (cur : List ℕ) (d : ℕ × ℕ × ℕ) (s : Havoc)
      → At orig max_stacks n n cur s
      → next d s ≡ some (record s { buffer = orig }, false)
  unfolding next copy_from_slice
  stop cur (c, idx, r) s (b, l, o, d, m, t, z) = rw (b, o, d, t) (ground arith)

  visit-stack :
      (i : ℕ) (cur : List ℕ) (ds : List (ℕ × ℕ × ℕ)) (d : ℕ × ℕ × ℕ) (rest : List (ℕ × ℕ × ℕ))
      (s : Havoc)
      → i + length ds ≡ n
      → At orig max_stacks n i cur s
      → (t : Havoc) × (visit next (λ t. t.buffer) (ds ++ d ∷ rest) s
          ≡ some (stack orig max_stacks i cur ds, t))
        × (t.buffer ≡ orig)
        × (t.orig_buffer ≡ orig)
  unfolding visit
  visit-stack i cur [] d rest s h a =
      let e : i ≡ n = omega arith in
      (
        record s { buffer = orig },
        rw (stop cur d s (subst (λ k. At orig max_stacks n k cur s) e a)) refl,
        refl,
        a.2,
      )
  visit-stack i cur (c ∷ ds) d rest s h a =
      let (t, e, q) = step i cur c s (omega arith) a in
      let (u, f, w, o) =
        visit-stack (suc i)
          (mutated (kind_of (c.0 % 4)) (c.1) (c.2) (if i % max_stacks == 0 then orig else cur)) ds d
          rest t (omega arith) q in
      (u, rw e (rw f (rw (q.0) refl)), w, o)

  visit-At :
      (i : ℕ) (cur : List ℕ) (ds : List (ℕ × ℕ × ℕ)) (s : Havoc)
      → i + length ds ≤ n
      → At orig max_stacks n i cur s
      → (t : Havoc) × (last : List ℕ) × (visit next (λ t. t.buffer) ds s
          ≡ some (stack orig max_stacks i cur ds, t))
        × At orig max_stacks n (i + length ds) last t
  unfolding visit
  visit-At i cur [] s h a =
      let e : i ≡ i + 0 = omega arith in
      (s, cur, refl, subst (λ k. At orig max_stacks n k cur s) e a)
  visit-At i cur (c ∷ ds) s h a =
      let (t, e, q) = step i cur c s (omega arith) a in
      let (u, last, f, w) =
        visit-At (suc i)
          (mutated (kind_of (c.0 % 4)) (c.1) (c.2) (if i % max_stacks == 0 then orig else cur)) ds t
          (omega arith) q in
      let j : suc i + length ds ≡ i + suc (length ds) = omega arith in
      (u, last, rw e (rw f (rw (q.0) refl)), subst (λ k. At orig max_stacks n k last u) j w)

room : (max_stacks repetitions : ℕ) → 0 < max_stacks * repetitions → 0 < max_stacks
room zero repetitions h = absurd (omega arith)
room (suc max_stacks) repetitions h = omega arith

-- A loop over a `Havoc` on a buffer that is not empty, whatever is drawn, applies the drawn mutations one on top of
-- another and starts over from the original buffer after each `max_stacks` of them; it ends after
-- `max_stacks * repetitions` steps, where a `usize` holds the product, and leaves the buffer as it was.
pub havoc_stacks :
    (orig : List ℕ) (max_stacks repetitions : ℕ) (ds : List (ℕ × ℕ × ℕ)) (d : ℕ × ℕ × ℕ)
    (rest : List (ℕ × ℕ × ℕ))
    → 0 < length orig
    → max_stacks * repetitions < 2 ^ 64
    → length ds ≡ max_stacks * repetitions
    → (t : Havoc) × (visit next (λ t. t.buffer) (ds ++ d ∷ rest) (new orig max_stacks repetitions)
        ≡ some (stack orig max_stacks 0 orig ds, t))
      × (t.buffer ≡ orig)
      × (drop t ≡ some orig)
unfolding new drop copy_from_slice
havoc_stacks orig max_stacks repetitions ds d rest full h l =
    let (t, e, b, o) =
      visit-stack orig max_stacks (max_stacks * repetitions) full (room max_stacks repetitions) 0
        orig ds d rest (new orig max_stacks repetitions) (omega arith)
        (refl, refl, refl, refl, refl, omega arith, λ e. refl) in
    (t, e, b, rw (b, o) (ground arith))

-- A `Havoc` on a buffer that is not empty restores the buffer when it is dropped after some steps, whatever was drawn.
pub drop-havoc_stacks :
    (orig : List ℕ) (max_stacks repetitions : ℕ) (ds : List (ℕ × ℕ × ℕ))
    → 0 < length orig
    → max_stacks * repetitions < 2 ^ 64
    → length ds ≤ max_stacks * repetitions
    → (t : Havoc) × (visit next (λ t. t.buffer) ds (new orig max_stacks repetitions)
        ≡ some (stack orig max_stacks 0 orig ds, t))
      × (steps_done t ≡ length ds)
      × (drop t ≡ some orig)
unfolding new drop copy_from_slice steps_done
drop-havoc_stacks orig max_stacks repetitions ds full h l =
    let (t, last, e, a) =
      visit-At orig max_stacks (max_stacks * repetitions) full (room max_stacks repetitions) 0 orig
        ds (new orig max_stacks repetitions) (omega arith)
        (refl, refl, refl, refl, refl, omega arith, λ e. refl) in
    (t, e, omega (arith, a.3), rw (a.0, a.2) (ground (arith, a.1)))
