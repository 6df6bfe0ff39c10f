-- ===== src/Scheduling/Members.antt =====
-- scheduler/src/fuzzer/worker_impl/scheduling.rs: what the entries have in common that the scheduling filters.
use fuzztruction_net.Base.{
  ◌≡◌, refl, sym, ◌∙◌, Bool, true, false, some, List, [], ◌∷◌, ◌++◌, All, Bool-cases, inl, inr,
}
use fuzztruction_net.Queue.{Queue, drain, filter, iter, retain_loop}
use fuzztruction_net.Queue.Entry.{QueueEntry}
use fuzztruction_net.Queue.Order.{filter_loop-retain_loop, drain-retain_loop}
use fuzztruction_net.Scheduling.{Stats, Config, is_eligible, filter_entries, last}

module _ {A : Type 0} (Q : A → Type 0) where
  All-append : (xs ys : List A) → All Q xs → All Q ys → All Q (xs ++ ys)
  All-append [] ys h k = k
  All-append (x ∷ xs) ys h k = (h.0, All-append xs ys h.1 k)

  All-split : (xs ys : List A) → All Q (xs ++ ys) → All Q xs × All Q ys
  All-split [] ys h = (tt, h)
  All-split (x ∷ xs) ys h = let (a, b) = All-split xs ys h.1 in ((h.0, a), b)

  pub All-drain : (xs : List A) → All Q xs → All Q (drain xs)
  unfolding drain
  All-drain [] h = tt
  All-drain (x ∷ xs) h = All-append (drain xs) (x ∷ []) (All-drain xs h.1) (h.0, tt)

  pub All-drained : (xs : List A) → All Q (drain xs) → All Q xs
  unfolding drain
  All-drained [] h = tt
  All-drained (x ∷ xs) h = let (a, b) = All-split (drain xs) (x ∷ []) h in (b.0, All-drained xs a)

  pub All-retain :
      (f : A → Bool) (xs : List A) → All Q xs → All (λ x. Q x × (f x ≡ true)) (retain_loop f xs)
  unfolding retain_loop
  All-retain f [] h = tt
  All-retain f (x ∷ xs) h = elim (Bool-cases (f x)) [
    | inl t ↦ rw (t, retain_loop) ((h.0, t), All-retain f xs h.1)
    | inr t ↦ rw (t, retain_loop) (All-retain f xs h.1)
  ]

module _ {A : Type 0} where
  pub filter-drain : (f : A → Bool) (q : Queue A) → filter f q ≡ drain (retain_loop f q.entries)
  unfolding filter iter
  filter-drain f q =
      filter_loop-retain_loop f [] (drain q.entries) ∙ sym (drain-retain_loop f q.entries)

  -- Where a predicate holds of what a filter leaves, each element has it or is refused by the filter.
  pub All-refused :
      (R : A → Type 0) (f : A → Bool) (xs : List A)
      → ((x : A) → f x ≡ false → R x)
      → All R (retain_loop f xs)
      → All R xs
  unfolding retain_loop
  All-refused R f [] refused h = tt
  All-refused R f (x ∷ xs) refused h = elim (Bool-cases (f x)) [
    | inl t ↦ let (a, b) = kept (rw (t, retain_loop) at h) in (a, All-refused R f xs refused b)
    | inr t ↦ (refused x t, All-refused R f xs refused (rw (t, retain_loop) at h))
  ]
    where
      kept : All R (x ∷ retain_loop f xs) → R x × All R (retain_loop f xs)
      kept p = p

pub All-filter_entries :
    (Q : QueueEntry → Type 0) (config : Config) (stats : Stats) (es : List QueueEntry)
    → All Q es
    → All (λ e. Q e × (is_eligible config stats e ≡ true)) (filter_entries config stats es)
unfolding filter_entries
All-filter_entries Q config stats [] h = tt
All-filter_entries Q config stats (e ∷ es) h = elim (Bool-cases (is_eligible config stats e)) [
  | inl t ↦ rw (t, filter_entries) ((h.0, t), All-filter_entries Q config stats es h.1)
  | inr t ↦ rw (t, filter_entries) (All-filter_entries Q config stats es h.1)
]

-- Nothing is left: no entry was eligible.
pub filter_entries-none :
    (config : Config) (stats : Stats) (es : List QueueEntry)
    → filter_entries config stats es ≡ []
    → All (λ e. is_eligible config stats e ≡ false) es
unfolding filter_entries
filter_entries-none config stats [] h = tt
filter_entries-none config stats (e ∷ es) h = elim (Bool-cases (is_eligible config stats e)) [
  | inl t ↦ absurd (some_left (filter_entries config stats es) (rw (t, filter_entries) at h))
  | inr t ↦ (t, filter_entries-none config stats es (rw (t, filter_entries) at h))
]
  where
    some_left : (rest : List QueueEntry) → e ∷ rest ≡ [] → ⊥
    some_left rest p = cc

pub last-All :
    (Q : QueueEntry → Type 0) (e : QueueEntry) (es : List QueueEntry)
    → All Q (e ∷ es)
    → (x : QueueEntry) × (last (e ∷ es) ≡ some x) × Q x
unfolding last
last-All Q e [] h = (e, refl, h.0)
last-All Q e (f ∷ es) h = last-All Q f es h.1
