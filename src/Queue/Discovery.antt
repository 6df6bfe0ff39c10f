-- ===== src/Queue/Discovery.antt =====
-- The allocation of mutation sites for discovery.
use fuzztruction_net.Base.{
  ℕ, ◌+◌, ◌≡◌, refl, arith, Bool, Option, some, List, [], ◌∷◌, if◌then◌else◌, ◌>>=◌,
}
use fuzztruction_net.IntegerSet.{IntegerSet, Rng, sub, contains}
use fuzztruction_net.IntegerSet.Valid.{IsValid}
use fuzztruction_net.IntegerSet.Members.{algebra-contains}
use fuzztruction_net.IntegerSet.Subsets.{IsRng, choose-subset}
use fuzztruction_net.Queue.{QueueEntryStats, discovery_allocate, pending_or_covered}

-- Allocations one after another, of at most so many sites each.
abbrev pub allocations :
    Rng → ℕ → List ℕ → QueueEntryStats → Option (List IntegerSet × QueueEntryStats)
allocations rng n [] self = some ([], self)
allocations rng n (max ∷ maxs) self = discovery_allocate rng n max self >>= λ r.
    allocations rng n maxs (r.1) >>= λ rs. some (r.0 ∷ rs.0, rs.1)

abbrev pub count : Bool → ℕ
count b = if b then 1 else 0

-- How many of the sets hold the site.
abbrev pub holders : ℕ → List IntegerSet → ℕ
holders e [] = 0
holders e (s ∷ ss) = count (contains s e) + holders e ss

-- However many allocations are made of the sites pending for an entry, each site that was pending is in just one of
-- the selections or is still pending, and no other site is in any of them.
pub allocations-holders :
    (rng : Rng) (n : ℕ) (maxs : List ℕ) (self : QueueEntryStats) (set : IntegerSet)
    → IsRng rng
    → IsValid n set
    → self.discovery_pending ≡ some set
    → (selections : List IntegerSet) × (rest : IntegerSet) × (t : QueueEntryStats) × (allocations
          rng n maxs self
        ≡ some (selections, t))
      × (t.discovery_pending ≡ some rest)
      × IsValid n rest
      × ((e : ℕ) → holders e selections + count (contains rest e) ≡ count (contains set e))
unfolding discovery_allocate pending_or_covered
allocations-holders rng n [] self set laws v p = ([], set, self, refl, p, v, λ e. omega arith)
allocations-holders rng n (max ∷ maxs) self set laws v p =
    let (selection, q, w, inside, k) = (choose-subset rng n set max laws v).0 in
    let (valid, members) = algebra-contains n set selection v w in
    let next : QueueEntryStats = record self { discovery_pending = some (sub set selection) } in
    let (selections, rest, t, r, p', v', sums) =
      allocations-holders rng n maxs next (sub set selection) laws (valid.2) refl in
    (
      selection ∷ selections,
      rest,
      t,
      rw p (rw q (rw r refl)),
      p',
      v',
      λ e. ground (arith, sums e, inside e, (members e).2),
    )
