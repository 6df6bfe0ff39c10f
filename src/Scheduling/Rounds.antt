-- ===== src/Scheduling/Rounds.antt =====
-- scheduler/src/fuzzer/worker_impl/scheduling.rs: the loop that gives a worker its next entry.
use fuzztruction_net.Base.{
  ℕ, suc, ◌≡◌, refl, sym, ◌∙◌, Bool, true, false, Option, some, none, List, [], ◌∷◌, arith, All,
  inl, inr, Bool-cases, ◌⊎◌,
}
use fuzztruction_net.Queue.{FuzzingPhase, is_phase_done, same_phase, drain, retain_loop, filter}
use fuzztruction_net.Queue.Entry.{QueueEntry}
use fuzztruction_net.Scheduling.{
  Chooser, Config, Scheduler, schedule_common, is_discoverable, last, discovery_done, Scheduled,
  stop, next, panicked, out_of_fuel, common, pop_or, discover, by_phase, schedule_next,
}
use fuzztruction_net.Scheduling.Favoured.{All-index, All-get}
use fuzztruction_net.Scheduling.Members.{
  All-drain, All-drained, All-retain, filter-drain, All-refused, last-All,
}
use fuzztruction_net.Scheduling.Next.{
  All-map, Member, Documented, Weighed, Chosen, Nothing, Common, schedule_common-Common,
}

-- An entry for the discovery phase.
pub Discovered : Scheduler → QueueEntry → Type 0
Discovered self e =
    Member e self.queue.entries
    × (e.generation ≡ 0)
    × ((self.stats e.id).blacklisted ≡ false)
    × (is_phase_done FuzzingPhase.discovery (self.stats e.id) ≡ false)
    × (e.is_crash ≡ false)

-- The state in which the worker is when it is no longer in the discovery phase: discovery was over before, or
-- there is no entry left for it.
pub Leaves : Config → Scheduler → Scheduler → Type 0
Leaves config self start =
    ((same_phase self.phase FuzzingPhase.discovery ≡ false) × (start ≡ self))
    ⊎ ((self.phase ≡ FuzzingPhase.discovery)
        × All (λ e. is_discoverable self.stats e ≡ false) self.queue.entries
        × (start ≡ discovery_done config self))

pub Outcome : Config → ℕ → Scheduler → Scheduled → Type 0
Outcome config elapsed self (stop s) = Leaves config self s × (s.phase ≡ FuzzingPhase.exit)
Outcome config elapsed self (next s e) =
    ((self.phase ≡ FuzzingPhase.discovery) × (s ≡ self) × Discovered self e)
    ⊎ ((start : Scheduler) × Leaves config self start × Chosen config elapsed start s e)
Outcome config elapsed self panicked =
    (start : Scheduler) × Leaves config self start × Nothing config start
Outcome config elapsed self out_of_fuel = ⊥

found-Outcome :
    (config : Config) (elapsed : ℕ) (self start : Scheduler) (o : Option (Scheduler × QueueEntry))
    → Leaves config self start
    → Common config elapsed start o
    → Outcome config elapsed self (common o)
unfolding Outcome common
found-Outcome config elapsed self start none l h = (start, l, h)
found-Outcome config elapsed self start (some (s, e)) l h = inr (start, l, h)

discoverable-Discovered :
    (self : Scheduler) (e : QueueEntry)
    → Member e self.queue.entries
    → is_discoverable self.stats e ≡ true
    → Discovered self e
unfolding Discovered is_discoverable
discoverable-Discovered self e m h = (m, ground arith, ground arith, ground arith, ground arith)

popped-Outcome :
    (c : Chooser) (d : Documented c) (config : Config) (elapsed : ℕ) (self : Scheduler)
    (e : QueueEntry) (es : List QueueEntry)
    → self.phase ≡ FuzzingPhase.discovery
    → All (Discovered self) (e ∷ es)
    → Outcome config elapsed self (pop_or (last (c.shuffle (e ∷ es))) self)
unfolding Outcome pop_or
popped-Outcome c d config elapsed self e es p h =
    let (x, (xs, shuffled, members)) = d.shuffles e es in
    let (y, popped, member) = last-All (λ y. Member y (e ∷ es)) x xs members in
    rw (shuffled, popped) (inl (p, refl, All-get (Discovered self) (e ∷ es) member.0 y h member.1))

none_discoverable :
    (self : Scheduler)
    → filter (is_discoverable self.stats) self.queue ≡ []
    → All (λ e. is_discoverable self.stats e ≡ false) self.queue.entries
none_discoverable self h =
    let f : QueueEntry → Bool = is_discoverable self.stats in
    let R : QueueEntry → Type 0 = λ e. f e ≡ false in
    let kept : List QueueEntry = retain_loop f self.queue.entries in
    let empty : drain kept ≡ [] = sym (filter-drain f self.queue) ∙ h in
    All-refused R f self.queue.entries (λ x q. q) (All-drained R kept (rw empty tt))

all_discoverable :
    (self : Scheduler) → All (Discovered self) (filter (is_discoverable self.stats) self.queue)
all_discoverable self =
    let f : QueueEntry → Bool = is_discoverable self.stats in
    let M : QueueEntry → Type 0 = λ e. Member e self.queue.entries in
    let kept : List QueueEntry = retain_loop f self.queue.entries in
    rw (filter-drain f self.queue) (
      All-drain (Discovered self) kept (
        All-map kept (λ e q. discoverable-Discovered self e q.0 q.1)
          (All-retain M f self.queue.entries (All-index M self.queue.entries (λ i x q. (i, q))))))

discover-Outcome :
    (c : Chooser) (d : Documented c) (config : Config) (elapsed : ℕ) (self : Scheduler)
    (es : List QueueEntry) (again : Scheduled)
    → self.phase ≡ FuzzingPhase.discovery
    → All (Discovered self) es
    → (es ≡ [] → Outcome config elapsed self again)
    → Outcome config elapsed self (discover es c self again)
unfolding discover
discover-Outcome c d config elapsed self [] again p h left = left refl
discover-Outcome c d config elapsed self (e ∷ es) again p h left =
    popped-Outcome c d config elapsed self e es p h

by_phase-Outcome :
    (config : Config) (elapsed : ℕ) (self start : Scheduler) (p : FuzzingPhase)
    (discovered found : Scheduled)
    → start.phase ≡ p
    → (p ≡ FuzzingPhase.discovery → Outcome config elapsed self discovered)
    → (same_phase p FuzzingPhase.discovery ≡ false → Leaves config self start)
    → (Leaves config self start → Outcome config elapsed self found)
    → Outcome config elapsed self (by_phase p start discovered found)
unfolding by_phase same_phase Outcome
by_phase-Outcome config elapsed self start FuzzingPhase.discovery discovered found q a b f = a refl
by_phase-Outcome config elapsed self start FuzzingPhase.exit discovered found q a b f = (b refl, q)
by_phase-Outcome config elapsed self start FuzzingPhase.mutate discovered found q a b f = f (b refl)
by_phase-Outcome config elapsed self start FuzzingPhase.add discovered found q a b f = f (b refl)
by_phase-Outcome config elapsed self start FuzzingPhase.combine discovered found q a b f =
    f (b refl)
by_phase-Outcome config elapsed self start FuzzingPhase.no_phase discovered found q a b f =
    f (b refl)

module _ (c : Chooser) (d : Documented c) (config : Config) (elapsed : ℕ) where
  -- The round after the discovery phase.
  last_round :
      (fuel : ℕ) (self start : Scheduler)
      → Weighed start.stats
      → same_phase start.phase FuzzingPhase.discovery ≡ false
      → Leaves config self start
      → Outcome config elapsed self (schedule_next (suc fuel) c config elapsed start)
  unfolding schedule_next same_phase
  last_round fuel self start weighed left leaves =
      by_phase-Outcome config elapsed self start start.phase
        (discover (filter (is_discoverable start.stats) start.queue) c start
          (schedule_next fuel c config elapsed (discovery_done config start)))
        (common (schedule_common c config elapsed start)) refl (λ p. absurd (still p)) (λ q. leaves)
        (λ l.
          found-Outcome config elapsed self start (schedule_common c config elapsed start) l
            (schedule_common-Common c d config elapsed start weighed))
    where
      true_is_not_false : true ≡ false → ⊥
      true_is_not_false e = cc

      still : start.phase ≡ FuzzingPhase.discovery → ⊥
      still p = true_is_not_false (rw p at left)

  discovery_done-phase :
      (self : Scheduler)
      → same_phase (discovery_done config self).phase FuzzingPhase.discovery ≡ false
  unfolding discovery_done same_phase
  discovery_done-phase self = elim (Bool-cases config.terminate_when_finished) [
    | inl t ↦ rw t refl
    | inr t ↦ rw t refl
  ]

  -- With documented choices and weights in their bounds, the loop ends within two rounds. It stops in the exit phase
  -- alone. In the discovery phase it gives an entry of the queue of generation 0 that is neither blacklisted,
  -- nor a crash, nor discovered before, and it leaves that phase only where there is none. In the other phases it gives
  -- an entry of the queue that is no crash and eligible, and changes only weights of entries, which stay
  -- in their bounds, and the counter of recalculations, which goes up by one once the start delay is over; it panics only
  -- where there is no such entry. Leaving the discovery phase changes the scheduler only as the end of that phase does.
  pub schedule_next-Outcome :
      (fuel : ℕ) (self : Scheduler)
      → Weighed self.stats
      → Outcome config elapsed self (schedule_next (suc (suc fuel)) c config elapsed self)
  unfolding schedule_next Leaves
  schedule_next-Outcome fuel self weighed =
      by_phase-Outcome config elapsed self self self.phase
        (discover (filter (is_discoverable self.stats) self.queue) c self
          (schedule_next (suc fuel) c config elapsed (discovery_done config self)))
        (common (schedule_common c config elapsed self)) refl
        (λ p.
          discover-Outcome c d config elapsed self (filter (is_discoverable self.stats) self.queue)
            (schedule_next (suc fuel) c config elapsed (discovery_done config self)) p
            (all_discoverable self)
            (λ q.
              last_round fuel self (discovery_done config self) weighed (discovery_done-phase self)
                (inr (p, none_discoverable self q, refl))))
        (λ q. inl (q, refl))
        (λ l.
          found-Outcome config elapsed self self (schedule_common c config elapsed self) l
            (schedule_common-Common c d config elapsed self weighed))
