-- ===== src/Queue/Order.antt =====
-- The order of the queue and the weights of its entries.
use fuzztruction_net.Base.{
  ℕ, suc, ◌+◌, ◌≤◌, ◌<◌, ◌≡◌, refl, sym, ap, ◌∙◌, arith, Bool, true, not, Option, none, some, List,
  [], ◌∷◌, ◌++◌, length, get_elem?, Bool-cases, inl, inr, length-append,
}
use fuzztruction_net.Queue.{
  QueueEntryStats, default_favoured_weight, is_favoured, mark_favoured_once, marked, decremented,
  Queue, push, append, drain, iter, len, get, filter_loop, filter, retain_loop,
  iter_without_crashes,
}

module _ {E : Type 0} where
  append_assoc : (xs ys zs : List E) → (xs ++ ys) ++ zs ≡ xs ++ (ys ++ zs)
  append_assoc [] ys zs = refl
  append_assoc (x ∷ xs) ys zs = ap (◌∷◌ x) (append_assoc xs ys zs)

  append_none : (xs : List E) → xs ++ [] ≡ xs
  append_none [] = refl
  append_none (x ∷ xs) = ap (◌∷◌ x) (append_none xs)

  drain_append : (xs ys : List E) → drain (xs ++ ys) ≡ drain ys ++ drain xs
  unfolding drain
  drain_append [] ys = sym (append_none (drain ys))
  drain_append (x ∷ xs) ys =
      ap (λ l. l ++ x ∷ []) (drain_append xs ys) ∙ append_assoc (drain ys) (drain xs) (x ∷ [])

  entries-append : (es : List E) (q : Queue E) → (append es q).entries ≡ q.entries ++ es
  unfolding append push
  entries-append [] q = sym (append_none q.entries)
  entries-append (e ∷ es) q = entries-append es (push e q) ∙ append_assoc q.entries (e ∷ []) es

  get_elem?_behind :
      (xs ys : List E) (i : ℕ) → get_elem? (xs ++ ys) (length xs + i) ≡ get_elem? ys i
  get_elem?_behind [] ys i = let e : 0 + i ≡ i = omega arith in rw e refl
  get_elem?_behind (x ∷ xs) ys i =
      let e : suc (length xs) + i ≡ suc (length xs + i) = omega arith in
      rw e (get_elem?_behind xs ys i)

  -- An iteration over a queue meets the entries that were appended from the last to the first, and then those that
  -- were there before; the index of an entry in the queue is the number of entries before it.
  pub iter-append :
      (es : List E) (q : Queue E) (i : ℕ)
      → i < length es
      → (iter (append es q) ≡ drain es ++ iter q)
        × (get (append es q) (len q + i) ≡ get_elem? es i)
        × (len (append es q) ≡ len q + length es)
  unfolding iter get len
  iter-append es q i h =
      let e = entries-append es q in
      let l : length (q.entries ++ es) ≡ length q.entries + length es =
        length-append q.entries es in
      (
        ap drain e ∙ drain_append q.entries es,
        rw e (rw (get_elem?_behind q.entries es i) (ground arith)),
        ap length e ∙ l,
      )

  pub filter_loop-retain_loop :
      (f : E → Bool) (ret es : List E) → filter_loop f ret es ≡ ret ++ retain_loop f es
  unfolding filter_loop retain_loop
  filter_loop-retain_loop f ret [] = sym (append_none ret)
  filter_loop-retain_loop f ret (e ∷ es) = elim (Bool-cases (f e)) [
    | inl y ↦ rw y (
        filter_loop-retain_loop f (ret ++ e ∷ []) es ∙ append_assoc ret (e ∷ []) (retain_loop f es))
    | inr n ↦ rw n (filter_loop-retain_loop f ret es)
  ]

  retain_loop_append :
      (f : E → Bool) (xs ys : List E)
      → retain_loop f (xs ++ ys) ≡ retain_loop f xs ++ retain_loop f ys
  unfolding retain_loop
  retain_loop_append f [] ys = refl
  retain_loop_append f (x ∷ xs) ys = elim (Bool-cases (f x)) [
    | inl y ↦ rw y (ap (◌∷◌ x) (retain_loop_append f xs ys))
    | inr n ↦ rw n (retain_loop_append f xs ys)
  ]

  pub drain-retain_loop :
      (f : E → Bool) (es : List E) → drain (retain_loop f es) ≡ retain_loop f (drain es)
  unfolding drain retain_loop
  drain-retain_loop f [] = refl
  drain-retain_loop f (e ∷ es) = elim (Bool-cases (f e)) [
    | inl y ↦ rw y (
        ap (λ l. l ++ e ∷ []) (drain-retain_loop f es)
        ∙ sym (retain_loop_append f (drain es) (e ∷ []) ∙ rw y refl))
    | inr n ↦ rw n (
        drain-retain_loop f es
        ∙ sym (
            retain_loop_append f (drain es) (e ∷ [])
            ∙ rw n (append_none (retain_loop f (drain es)))))
  ]

  -- The iteration without crashes meets the entries that a filter for the others gives, in the same order.
  pub iter_without_crashes-filter :
      (is_crash : E → Bool) (q : Queue E)
      → iter_without_crashes is_crash q ≡ filter (λ e. not (is_crash e)) q
  unfolding iter_without_crashes filter iter
  iter_without_crashes-filter is_crash q =
      drain-retain_loop (λ e. not (is_crash e)) q.entries
      ∙ sym (filter_loop-retain_loop (λ e. not (is_crash e)) [] (drain q.entries))

-- A weight, if there is one, is from 1 to the default.
abbrev pub WeightIn : Option ℕ → Type 0
WeightIn none = Unit {0}
WeightIn (some w) = (1 ≤ w) × (w ≤ default_favoured_weight)

pub marked-WeightIn : (w : Option ℕ) → WeightIn w → WeightIn (marked w)
unfolding marked
marked-WeightIn none h = (omega arith, omega arith)
marked-WeightIn (some w) h = h

pub decremented-WeightIn : (w : Option ℕ) → WeightIn w → WeightIn (decremented w)
unfolding decremented
decremented-WeightIn none h = tt
decremented-WeightIn (some w) h = ground arith

pub is_favoured-mark_favoured_once :
    (s : QueueEntryStats) → is_favoured (mark_favoured_once s) ≡ true
unfolding is_favoured mark_favoured_once
is_favoured-mark_favoured_once s = ground arith
