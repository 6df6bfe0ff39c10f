-- ===== src/Scheduling/Next.antt =====
-- scheduler/src/fuzzer/worker_impl/scheduling.rs: what the worker is given to fuzz next.
use fuzztruction_net.Base.{
  ℕ, ◌≡◌, ◌≤◌, refl, ap, ◌>>=◌, Bool, true, false, not, ◌||◌, Option, some, none, List, [], ◌∷◌,
  get_elem?, arith, All,
}
use fuzztruction_net.Queue.{favoured_decrement, retain_loop, iter_without_crashes}
use fuzztruction_net.Queue.Entry.{QueueEntry}
use fuzztruction_net.Queue.Order.{WeightIn}
use fuzztruction_net.Scheduling.{
  Stats, modify, Chooser, Config, Scheduler, recalculate_favoured, is_eligible, filter_entries,
  weight, schedule_common,
}
use fuzztruction_net.Scheduling.Favoured.{All-index, All-get}
use fuzztruction_net.Scheduling.Members.{
  All-drain, All-drained, All-retain, All-refused, All-filter_entries, filter_entries-none,
}
use fuzztruction_net.Scheduling.Weights.{
  Reweighed, Reweighed-trans, counted, decrement-Reweighed, recalculate_favoured-Reweighed,
}

abbrev pub Member : QueueEntry → List QueueEntry → Type 0
Member e es = (i : ℕ) × (get_elem? es i ≡ some e)

-- What `rand` documents: `choose_weighted` gives an element where there is one and all weights are positive, and an
-- error where there is none; `shuffle` reorders.
pub record Documented (c : Chooser) : Type 0 where
  pub chooses :
      (e : QueueEntry) (es : List QueueEntry) (w : QueueEntry → ℕ)
      → All (λ x. 1 ≤ w x) (e ∷ es)
      → (x : QueueEntry) × (c.choose_weighted (e ∷ es) w ≡ some x) × Member x (e ∷ es)
  pub empty : (w : QueueEntry → ℕ) → c.choose_weighted [] w ≡ none
  pub shuffles :
      (e : QueueEntry) (es : List QueueEntry)
      → (x : QueueEntry) × ((xs : List QueueEntry) × (c.shuffle (e ∷ es) ≡ x ∷ xs)
          × All (λ y. Member y (e ∷ es)) (x ∷ xs))

-- The weights of all entries are in their bounds.
abbrev pub Weighed : Stats → Type 0
Weighed stats = (id : ℕ) → WeightIn (stats id).favoured_weight

-- An entry that the common schedule picks, and all that it changes: weights, and the counter of recalculations.
pub Chosen : Config → ℕ → Scheduler → Scheduler → QueueEntry → Type 0
Chosen config elapsed self s e =
    Member e self.queue.entries
    × (e.is_crash ≡ false)
    × (is_eligible config self.stats e ≡ true)
    × Reweighed self.stats s.stats
    × (s ≡ record self {
      stats = s.stats;
      recalculation_ctr = counted elapsed self.recalculation_ctr;
    })

-- All entries are crashes or not eligible.
pub Nothing : Config → Scheduler → Type 0
Nothing config self =
    All (λ e. (e.is_crash || not (is_eligible config self.stats e)) ≡ true) self.queue.entries

abbrev pub Common : Config → ℕ → Scheduler → Option (Scheduler × QueueEntry) → Type 0
Common config elapsed self none = Nothing config self
Common config elapsed self (some (s, e)) = Chosen config elapsed self s e

weight-positive : (stats : Stats) → Weighed stats → (e : QueueEntry) → 1 ≤ weight stats e
unfolding weight
weight-positive stats h e = positive (stats e.id).favoured_weight (h e.id)
  where
    positive : (w : Option ℕ) → WeightIn w → 1 ≤ (elim w [ none ↦ 1 | some n ↦ n ])
    positive none p = omega arith
    positive (some n) p = p.0

uncrashed : Scheduler → List QueueEntry
unfolding iter_without_crashes
uncrashed self = iter_without_crashes (λ e. e.is_crash) self.queue

uncrashed-All :
    (self : Scheduler)
    → All (λ e. Member e self.queue.entries × (not e.is_crash ≡ true)) (uncrashed self)
unfolding uncrashed iter_without_crashes
uncrashed-All self =
    let f : QueueEntry → Bool = λ e. not e.is_crash in
    let M : QueueEntry → Type 0 = λ e. Member e self.queue.entries in
    All-drain (λ e. M e × (f e ≡ true)) (retain_loop f self.queue.entries)
      (All-retain M f self.queue.entries (All-index M self.queue.entries (λ i x q. (i, q))))

pub All-map :
    {A : Type 0} {Q R : A → Type 0} (xs : List A) → ((x : A) → Q x → R x) → All Q xs → All R xs
All-map [] f h = tt
All-map (x ∷ xs) f h = (f x h.0, All-map xs f h.1)

All-everywhere : {A : Type 0} (Q : A → Type 0) (xs : List A) → ((x : A) → Q x) → All Q xs
All-everywhere Q [] f = tt
All-everywhere Q (x ∷ xs) f = (f x, All-everywhere Q xs f)

none-Nothing :
    (config : Config) (self : Scheduler)
    → filter_entries config self.stats (uncrashed self) ≡ []
    → Nothing config self
unfolding Nothing uncrashed iter_without_crashes
none-Nothing config self h =
    let R : QueueEntry → Type 0 =
      λ e. (e.is_crash || not (is_eligible config self.stats e)) ≡ true in
    let f : QueueEntry → Bool = λ e. not e.is_crash in
    All-refused R f self.queue.entries (λ x q. crash x q)
      (All-drained R (retain_loop f self.queue.entries) (
        All-map (uncrashed self) (λ x q. refused x q)
          (filter_entries-none config self.stats (uncrashed self) h)))
  where
    crash :
        (x : QueueEntry)
        → not x.is_crash ≡ false
        → (x.is_crash || not (is_eligible config self.stats x)) ≡ true
    crash x q = ground arith

    refused :
        (x : QueueEntry)
        → is_eligible config self.stats x ≡ false
        → (x.is_crash || not (is_eligible config self.stats x)) ≡ true
    refused x q = ground arith

-- What the schedule knows of the entries that it filtered.
abbrev Filtered : Config → Scheduler → QueueEntry → Type 0
Filtered config self e =
    (Member e self.queue.entries × (not e.is_crash ≡ true))
    × (is_eligible config self.stats e ≡ true)

abbrev selected : Scheduler → Option QueueEntry → Option (Scheduler × QueueEntry)
selected after o = do
  e ← o
  some (record after { stats = modify e.id favoured_decrement after.stats }, e)

selected-Common :
    (c : Chooser) (d : Documented c) (config : Config) (elapsed : ℕ) (self after : Scheduler)
    (es : List QueueEntry)
    → Reweighed self.stats after.stats
    → after ≡ record self {
      stats = after.stats;
      recalculation_ctr = counted elapsed self.recalculation_ctr;
    }
    → Weighed after.stats
    → All (Filtered config self) es
    → (es ≡ [] → Nothing config self)
    → Common config elapsed self (selected after (c.choose_weighted es (weight after.stats)))
unfolding Chosen
selected-Common c d config elapsed self after [] r same weighed h nothing =
    rw (d.empty (weight after.stats)) (nothing refl)
selected-Common c d config elapsed self after (e ∷ es) r same weighed h nothing =
    let (x, chosen, member) = d.chooses e es (weight after.stats) (
      All-everywhere (λ y. 1 ≤ weight after.stats y) (e ∷ es)
        (λ y. weight-positive after.stats weighed y)) in
    let ((listed, sound), eligible) =
      All-get (Filtered config self) (e ∷ es) member.0 x h member.1 in
    let last_step : Reweighed after.stats (modify x.id favoured_decrement after.stats) =
      decrement-Reweighed x.id after.stats in
    rw chosen (
      listed,
      ground arith,
      eligible,
      Reweighed-trans self.stats after.stats (modify x.id favoured_decrement after.stats) r
          last_step,
      ap (λ (t : Scheduler). record t { stats = modify x.id favoured_decrement after.stats }) same,
    )

pub schedule_common-Common :
    (c : Chooser) (d : Documented c) (config : Config) (elapsed : ℕ) (self : Scheduler)
    → Weighed self.stats
    → Common config elapsed self (schedule_common c config elapsed self)
unfolding schedule_common uncrashed
schedule_common-Common c d config elapsed self h =
    let es : List QueueEntry = filter_entries config self.stats (uncrashed self) in
    let (r, same) = recalculate_favoured-Reweighed elapsed es self in
    selected-Common c d config elapsed self (recalculate_favoured elapsed es self) es r same
      (λ id. (r id).0 (h id))
      (All-filter_entries (λ e. Member e self.queue.entries × (not e.is_crash ≡ true)) config
        self.stats (uncrashed self) (uncrashed-All self))
      (none-Nothing config self)
