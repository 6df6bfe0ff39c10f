-- ===== src/Mutators/Nop.antt =====
-- scheduler/src/fuzzer/worker_impl/mutators.rs: `Nop`, which yields without a
-- mutation.
use fuzztruction_net.Base.{
  ℕ, suc, ◌+◌, ◌-◌, ◌≤◌, ◌<◌, ◌≡◌, refl, Bool, true, false, Option, some, List, [], arith, ◌==◌,
  if◌then◌else◌,
}
use fuzztruction_net.Mutators.{MutatorType, nop}
use fuzztruction_net.Mutators.Visits.{steps, buffers, steps_all, steps-buffers}

pub record Nop : Type 0 where
  pub steps : ℕ
  pub done : ℕ

pub new : ℕ → Nop
new steps = record { steps = steps; done = 0 }

pub steps_total : Nop → ℕ
steps_total self = self.steps

pub steps_done : Nop → ℕ
steps_done self = self.done

pub needs_sync : Nop → Bool
needs_sync self = true

pub mutator_type : Nop → MutatorType
mutator_type self = nop

pub next : Nop → Option (Nop × Bool)
next self =
    if self.steps == 0
    then some (self, false)
    else some (record self { steps = self.steps - 1 }, true)

abbrev pub At : ℕ → ℕ → Nop → Type 0
At n i s = (s.steps ≡ n - i) × (s.done ≡ 0)

abbrev pub no_buffer : List ℕ
no_buffer = []

step :
    (n i : ℕ) (s : Nop)
    → i < n
    → At n i s
    → (t : Nop) × (next s ≡ some (t, true)) × (no_buffer ≡ no_buffer) × At n (suc i) t
unfolding next
step n i s h (e, d) = (record s { steps = s.steps - 1 }, ground arith, refl, (omega arith, d))

stop :
    (n : ℕ) (s : Nop)
    → At n n s
    → (t : Nop) × (next s ≡ some (t, false)) × (no_buffer ≡ no_buffer) × At n n t
unfolding next
stop n s (e, d) = (s, ground arith, refl, (e, d))

-- A loop over a `Nop` of `n` steps runs `n` times; after `k` of them, `k` up to `n`, the count
-- of all steps has gone down to `n - k`, and that of the steps done is still 0.
pub no_mutation :
    (n k m : ℕ)
    → k ≤ n
    → ((t : Nop) × (steps next (λ t. no_buffer) (n + suc m) (new n)
          ≡ some (buffers (λ i. no_buffer) 0 n, t)))
      × ((t : Nop) × (steps next (λ t. no_buffer) k (new n)
            ≡ some (buffers (λ i. no_buffer) 0 k, t))
          × (steps_total t ≡ n - k)
          × (steps_done t ≡ 0))
unfolding new steps_total steps_done
no_mutation n k m h =
    let (t, e, v, a) =
      steps_all next (λ t. no_buffer) no_buffer n (λ i. no_buffer) (At n) (step n) (stop n) m
        (new n) (omega arith, refl) in
    let (u, f, b) =
      steps-buffers next (λ t. no_buffer) no_buffer n (λ i. no_buffer) (At n) (step n) (stop n) k
        (new n) h (omega arith, refl) in
    ((t, e), (u, f, b.0, b.1))
