-- ===== src/Mutators/Once.antt =====
-- scheduler/src/fuzzer/worker_impl/mutators.rs: `FlipOnce`, which inverts the
-- whole buffer once.
use fuzztruction_net.Base.{
  ℕ, suc, ◌≡◌, refl, ap, Bool, true, false, Option, some, List, [], ◌∷◌, map, arith, if◌then◌else◌,
}
use fuzztruction_net.Mutators.{MutatorType, flip_once, visit}
use fuzztruction_net.Mutators.Visits.{steps}
use fuzztruction_net.Bits.{not_u8}
use fuzztruction_net.Bits.Words.{Bytes}

-- The field `done` of the source.
pub record FlipOnce : Type 0 where
  pub buffer : List ℕ
  pub done : Bool

pub new : List ℕ → FlipOnce
new buffer = record { buffer = buffer; done = false }

pub steps_total : FlipOnce → ℕ
steps_total self = 1

pub steps_done : FlipOnce → ℕ
steps_done self = if self.done then 1 else 0

pub mutator_type : FlipOnce → MutatorType
mutator_type self = flip_once

pub next : FlipOnce → Option (FlipOnce × Bool)
next self =
    if self.done
    then some (self, false)
    else some (record { buffer = map not_u8 self.buffer; done = true }, true)

pub drop : FlipOnce → Option (List ℕ)
drop self = some (if self.done then map not_u8 self.buffer else self.buffer)

inverted_twice : (orig : List ℕ) → Bytes orig → map not_u8 (map not_u8 orig) ≡ orig
inverted_twice [] h = refl
inverted_twice (b ∷ orig) (h, hs) =
    let e : not_u8 (not_u8 b) ≡ b = omega arith in rw e (ap (◌∷◌ b) (inverted_twice orig hs))

-- A loop over a `FlipOnce` on bytes sees the inverted buffer once. The buffer is still inverted when the
-- mutator is exhausted, and is restored when it is dropped, which restores it before the first step too.
pub flip_all :
    (orig : List ℕ) (m : ℕ)
    → Bytes orig
    → (t : FlipOnce) × (steps next (λ t. t.buffer) (suc (suc m)) (new orig)
        ≡ some (map not_u8 orig ∷ [], t))
      × (t.buffer ≡ map not_u8 orig)
      × (drop t ≡ some orig)
      × (drop (new orig) ≡ some orig)
      × (steps_done t ≡ steps_total t)
unfolding new drop next steps_done steps_total visit
flip_all orig m h = (
  record { buffer = map not_u8 orig; done = true },
  refl,
  refl,
  ap some (inverted_twice orig h),
  refl,
  refl,
)
