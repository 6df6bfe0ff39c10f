-- ===== src/Mutators/Combine.antt =====
-- scheduler/src/fuzzer/worker_impl/mutators.rs: `CombineMutator`, which
-- puts each of a list of masks over the buffer.
use fuzztruction_net.Base
use fuzztruction_net.Base.{
  ℕ, zero, suc, ◌+◌, ◌-◌, ◌*◌, ◌/◌, ◌%◌, ◌^◌, ◌≤◌, ◌<◌, ◌≡◌, refl, sym, ap, ◌∙◌, Bool, true, false,
  Option, none, some, List, [], ◌∷◌, ◌++◌, map, not, ◌&&◌, arith, ltb, leb, ◌==◌, if◌then◌else◌,
  min, length, get_elem?, get_or, set, take, replicate, length-set, length-map, length-take,
  length-append, length-replicate, take-append-drop, ◌>>=◌, Bool-cases, inl, inr, subst,
}
use fuzztruction_net.Mutators.{MutatorType, combine}
use fuzztruction_net.Mutators.Visits.{steps, buffers, steps_all, steps-buffers}
use fuzztruction_net.Mutators.{copy_from_slice, write_slice}
use fuzztruction_net.Mutators.Slices.{patched}

-- `steps_done` and `one_shot` are fields of the same name in the source.
pub record CombineMutator : Type 0 where
  pub total : ℕ
  pub done : ℕ
  pub msks : List (List ℕ)
  pub buffer : List ℕ
  pub buffer_original : List ℕ
  pub once : Bool

pub new : List ℕ → List (List ℕ) → Bool → CombineMutator
new buffer msks one_shot = record {
  total = length msks;
  msks = msks;
  done = 0;
  buffer = buffer;
  buffer_original = buffer;
  once = one_shot;
}

pub steps_total : CombineMutator → ℕ
steps_total self = self.total

pub steps_done : CombineMutator → ℕ
steps_done self = self.done

pub mutator_type : CombineMutator → MutatorType
mutator_type self = combine

pub one_shot : CombineMutator → Bool
one_shot self = self.once

pub needs_sync : CombineMutator → Bool
needs_sync self = true

-- `Vec::pop`: the last mask, and the masks before it.
pub pop : List (List ℕ) → Option (List ℕ × List (List ℕ))
pop [] = none
pop (m ∷ ms) = elim (pop ms) [ none ↦ some (m, []) | some r ↦ some (r.0, m ∷ r.1) ]

-- The step with what `msks.pop()` gives.
pub next_with : Option (List ℕ × List (List ℕ)) → CombineMutator → Option (CombineMutator × Bool)
unfolding copy_from_slice write_slice
next_with none self = do
  buffer ← copy_from_slice self.buffer self.buffer_original
  some (record self { buffer = buffer }, false)
next_with (some (msk, msks)) self = do
  buffer ← copy_from_slice self.buffer self.buffer_original
  mutated ← write_slice buffer 0 (take (min (length buffer) (length msk)) msk)
  some (record self { buffer = mutated; done = suc self.done; msks = msks }, true)

pub next : CombineMutator → Option (CombineMutator × Bool)
unfolding pop next_with
next self = next_with (pop self.msks) self

pub drop : CombineMutator → Option (List ℕ)
unfolding copy_from_slice
drop self = copy_from_slice self.buffer self.buffer_original

-- The buffer under a mask: the mask's bytes, as far as the buffer goes, and the original's behind.
abbrev pub masked : List ℕ → List ℕ → List ℕ
masked [] msk = []
masked (x ∷ orig) [] = x ∷ orig
masked (x ∷ orig) (y ∷ msk) = y ∷ masked orig msk

-- The masks are used from the last to the first.
abbrev pub mask_at : List (List ℕ) → ℕ → List ℕ
mask_at msks i = get_or msks (length msks - suc i) []

pop-take :
    (msks : List (List ℕ)) (k : ℕ)
    → k < length msks
    → pop (take (suc k) msks) ≡ some (get_or msks k [], take k msks)
unfolding pop
pop-take [] k h = elim h [ ]
pop-take (m ∷ ms) zero h = refl
pop-take (m ∷ ms) (suc k) h = rw (pop-take ms k (omega arith)) refl

overlay :
    (orig msk : List ℕ)
    → take (min (length orig) (length msk)) msk ++ Base.drop (min (length orig) (length msk)) orig
      ≡ masked orig msk
overlay [] msk = let e : min 0 (length msk) ≡ 0 = omega arith in rw e refl
overlay (x ∷ orig) [] = let e : min (suc (length orig)) 0 ≡ 0 = omega arith in rw e refl
overlay (x ∷ orig) (y ∷ msk) =
    let e : min (suc (length orig)) (suc (length msk)) ≡ suc (min (length orig) (length msk)) =
      omega arith in
    rw e (ap (◌∷◌ y) (overlay orig msk))

patched-masked :
    (orig msk : List ℕ)
    → patched orig 0 (take (min (length orig) (length msk)) msk) ≡ masked orig msk
patched-masked orig msk =
    let e : 0 + length (take (min (length orig) (length msk)) msk)
        ≡ min (length orig) (length msk) =
      omega (arith, length-take (min (length orig) (length msk)) msk) in
    rw e (overlay orig msk)

length-masked : (orig msk : List ℕ) → length (masked orig msk) ≡ length orig
length-masked [] msk = refl
length-masked (x ∷ orig) [] = refl
length-masked (x ∷ orig) (y ∷ msk) = ap suc (length-masked orig msk)

write_mask :
    (orig msk : List ℕ)
    → write_slice orig 0 (take (min (length orig) (length msk)) msk) ≡ some (masked orig msk)
unfolding write_slice
write_mask orig msk =
    let w = take (min (length orig) (length msk)) msk in
    let e : leb (0 + length w) (length orig) ≡ true =
      ground (arith, length-take (min (length orig) (length msk)) msk) in
    rw e (ap some (patched-masked orig msk))

abbrev pub At : List ℕ → List (List ℕ) → ℕ → CombineMutator → Type 0
At orig msks i s =
    (s.done ≡ i)
    × (s.msks ≡ take (length msks - i) msks)
    × (length s.buffer ≡ length orig)
    × (s.buffer_original ≡ orig)

step :
    (orig : List ℕ) (msks : List (List ℕ)) (i : ℕ) (s : CombineMutator)
    → i < length msks
    → At orig msks i s
    → (t : CombineMutator) × (next s ≡ some (t, true))
      × (t.buffer ≡ masked orig (mask_at msks i))
      × At orig msks (suc i) t
unfolding next next_with copy_from_slice
step orig msks i s h (d, m, l, o) =
    let k = length msks - suc i in
    let e : length msks - i ≡ suc k = omega arith in
    let c : (length s.buffer == length orig) ≡ true = ground arith in
    let p = ap pop m ∙ ap (λ j. pop (take j msks)) e ∙ pop-take msks k (omega arith) in
    (
      record s { buffer = masked orig (mask_at msks i); done = suc i; msks = take k msks },
      rw (p, o, d) (rw c (rw (write_mask orig (mask_at msks i)) refl)),
      refl,
      (refl, refl, length-masked orig (mask_at msks i), o),
    )

stop :
    (orig : List ℕ) (msks : List (List ℕ)) (s : CombineMutator)
    → At orig msks (length msks) s
    → (t : CombineMutator) × (next s ≡ some (t, false))
      × (t.buffer ≡ orig)
      × At orig msks (length msks) t
unfolding next next_with copy_from_slice pop
stop orig msks s (d, m, l, o) =
    let e : length msks - length msks ≡ 0 = omega arith in
    let m' : s.msks ≡ [] = m ∙ ap (λ k. take k msks) e in
    (record s { buffer = orig }, rw (m', o) (ground arith), refl, (d, m, refl, o))

start :
    (orig : List ℕ) (msks : List (List ℕ)) (one_shot : Bool)
    → At orig msks 0 (new orig msks one_shot)
unfolding new
start orig msks one_shot =
    let e : length msks - 0 ≡ length msks = omega arith in
    (refl, rw e (sym (take_all msks)), refl, refl)
  where
    take_all : (ms : List (List ℕ)) → take (length ms) ms ≡ ms
    take_all [] = refl
    take_all (m ∷ ms) = ap (◌∷◌ m) (take_all ms)

-- A loop over a `CombineMutator` sees the original buffer under each of the masks, from the last mask to the first,
-- ends after as many steps as there are masks, and leaves the buffer as it was, whatever the lengths of the masks are.
pub combine_masks :
    (orig : List ℕ) (msks : List (List ℕ)) (one_shot : Bool) (m : ℕ)
    → (t : CombineMutator) × (steps next
          (λ t. t.buffer)
          (length msks + suc m)
          (new orig msks one_shot)
        ≡ some (buffers (λ i. masked orig (mask_at msks i)) 0 (length msks), t))
      × (t.buffer ≡ orig)
      × (drop t ≡ some orig)
unfolding drop copy_from_slice
combine_masks orig msks one_shot m =
    let (t, e, v, a) =
      steps_all next (λ t. t.buffer) orig (length msks) (λ i. masked orig (mask_at msks i))
        (At orig msks) (step orig msks) (stop orig msks) m (new orig msks one_shot)
        (start orig msks one_shot) in
    (t, e, v, rw (v, a.3) (ground arith))

-- A `CombineMutator` that is dropped after `k` steps restores the buffer, and counts `k` steps done.
pub drop-combine_masks :
    (orig : List ℕ) (msks : List (List ℕ)) (one_shot : Bool) (k : ℕ)
    → k ≤ length msks
    → (t : CombineMutator) × (steps next (λ t. t.buffer) k (new orig msks one_shot)
        ≡ some (buffers (λ i. masked orig (mask_at msks i)) 0 k, t))
      × (steps_done t ≡ k)
      × (drop t ≡ some orig)
unfolding drop copy_from_slice steps_done
drop-combine_masks orig msks one_shot k h =
    let (t, e, a) =
      steps-buffers next (λ t. t.buffer) orig (length msks) (λ i. masked orig (mask_at msks i))
        (At orig msks) (step orig msks) (stop orig msks) k (new orig msks one_shot) h
        (start orig msks one_shot) in
    (t, e, a.0, rw (a.3) (ground (arith, a.2)))
