-- ===== src/Mutators/Visits.antt =====
-- What a loop over a mutator sees, from what one step does: shared by the mutators that undo each
-- mutation before the next.
use fuzztruction_net.Base.{
  ℕ, zero, suc, ◌+◌, ◌≤◌, ◌<◌, ◌≡◌, refl, Bool, true, false, Option, none, some, List, [], ◌∷◌,
  ◌++◌, arith, length, get_elem?, get_or, set, length-set, set-set, set-get_or, replicate,
  length-replicate, ap, subst,
}
use fuzztruction_net.Mutators.{write, revert, visit}

-- `buffer` is `orig`, up to the byte to write back.
abbrev pub Saved : List ℕ → List ℕ → Option ℕ → ℕ → Type 0
Saved orig buffer none saved = buffer ≡ orig
Saved orig buffer (some i) saved =
    (i < length orig) × (saved ≡ get_or orig i 0) × (v : ℕ) × (buffer ≡ set orig i v)

pub revert-Saved :
    (orig buffer : List ℕ) (last : Option ℕ) (saved : ℕ)
    → Saved orig buffer last saved
    → revert last saved buffer ≡ some orig
unfolding revert write
revert-Saved orig buffer none saved h = ap some h
revert-Saved orig buffer (some i) saved (h, e, v, b) =
    rw (b, e)
      (ground (arith, length-set orig i v, set-set orig i v (get_or orig i 0), set-get_or orig i 0))

pub get_elem?-get_or : (xs : List ℕ) (i : ℕ) → i < length xs → get_elem? xs i ≡ some (get_or xs i 0)
get_elem?-get_or [] i h = elim h [ ]
get_elem?-get_or (x ∷ xs) zero h = refl
get_elem?-get_or (x ∷ xs) (suc i) h = get_elem?-get_or xs i (omega arith)

pub write-set : (xs : List ℕ) (i v : ℕ) → i < length xs → write xs i v ≡ some (set xs i v)
unfolding write
write-set xs i v h = ground arith

abbrev pub AllDraws : {D : Type 0} → (D → Type 0) → List D → Type 0
AllDraws ok [] = Unit
AllDraws ok (d ∷ ds) = ok d × AllDraws ok ds

-- The buffers from step `i` on, for the draws of the steps.
abbrev pub contents : {D : Type 0} → (ℕ → D → List ℕ) → ℕ → List D → List (List ℕ)
contents content i [] = []
contents content i (d ∷ ds) = content i d ∷ contents content (suc i) ds

module _ {S D : Type 0} (next : D → S → Option (S × Bool)) (view : S → List ℕ) (orig : List ℕ)
    (n : ℕ) (ok : D → Type 0) (content : ℕ → D → List ℕ) (At : ℕ → S → Type 0)
    (step : (i : ℕ) (d : D) (s : S)
      → i < n
      → ok d
      → At i s
      → (t : S) × (next d s ≡ some (t, true)) × (view t ≡ content i d) × At (suc i) t)
    (stop : (d : D) (s : S)
      → At n s
      → (t : S) × (next d s ≡ some (t, false)) × (view t ≡ orig) × At n t) where
  pub visit-contents :
      (i : ℕ) (ds : List D) (s : S)
      → i + length ds ≤ n
      → AllDraws ok ds
      → At i s
      → (t : S) × (visit next view ds s ≡ some (contents content i ds, t)) × At (i + length ds) t
  unfolding visit
  visit-contents i [] s h a p = (s, refl, subst (λ k. At k s) (omega arith) p)
  visit-contents i (d ∷ ds) s h (o, a) p =
      let (t, e, v, q) = step i d s (omega arith) o p in
      let (u, f, r) = visit-contents (suc i) ds t (omega arith) a q in
      (u, rw e (rw f (rw v refl)), subst (λ k. At k u) (omega arith) r)

  -- With a draw to spare, the loop runs to the end.
  pub visit_all :
      (i : ℕ) (ds : List D) (d : D) (rest : List D) (s : S)
      → i + length ds ≡ n
      → AllDraws ok ds
      → At i s
      → (t : S) × (visit next view (ds ++ d ∷ rest) s ≡ some (contents content i ds, t))
        × (view t ≡ orig)
        × At n t
  unfolding visit
  visit_all i [] d rest s h a p =
      let (t, e, v, q) = stop d s (subst (λ k. At k s) (omega arith) p) in (t, rw e refl, v, q)
  visit_all i (c ∷ ds) d rest s h (o, a) p =
      let (t, e, v, q) = step i c s (omega arith) o p in
      let (u, f, w, r) = visit_all (suc i) ds d rest t (omega arith) a q in
      (u, rw e (rw f (rw v refl)), w, r)

-- The same for a mutator that draws nothing.
abbrev pub steps :
    {S : Type 0} → (S → Option (S × Bool)) → (S → List ℕ) → ℕ → S → Option (List (List ℕ) × S)
steps next view k s = visit (λ (d : Unit {0}). next) view (replicate k tt) s

-- The buffers of `k` steps from step `i` on.
abbrev pub buffers : (ℕ → List ℕ) → ℕ → ℕ → List (List ℕ)
buffers content i zero = []
buffers content i (suc k) = content i ∷ buffers content (suc i) k

contents-replicate :
    (content : ℕ → List ℕ) (i k : ℕ)
    → contents (λ i (d : Unit {0}). content i) i (replicate k tt) ≡ buffers content i k
contents-replicate content i zero = refl
contents-replicate content i (suc k) = ap (◌∷◌ (content i)) (contents-replicate content (suc i) k)

replicate-AllDraws : (k : ℕ) → AllDraws (λ (d : Unit {0}). Unit {0}) (replicate k tt)
replicate-AllDraws zero = tt
replicate-AllDraws (suc k) = (tt, replicate-AllDraws k)

replicate_append :
    (k m : ℕ) → replicate {A = Unit {0}} (k + m) tt ≡ replicate k tt ++ replicate m tt
replicate_append zero m = let e : 0 + m ≡ m = omega arith in rw e refl
replicate_append (suc k) m =
    let e : suc k + m ≡ suc (k + m) = omega arith in rw e (ap (◌∷◌ tt) (replicate_append k m))

module _ {S : Type 0} (next : S → Option (S × Bool)) (view : S → List ℕ) (orig : List ℕ) (n : ℕ)
    (content : ℕ → List ℕ) (At : ℕ → S → Type 0)
    (step : (i : ℕ) (s : S)
      → i < n
      → At i s
      → (t : S) × (next s ≡ some (t, true)) × (view t ≡ content i) × At (suc i) t)
    (stop : (s : S)
      → At n s
      → (t : S) × (next s ≡ some (t, false)) × (view t ≡ orig) × At n t) where
  pub steps-buffers :
      (k : ℕ) (s : S)
      → k ≤ n
      → At 0 s
      → (t : S) × (steps next view k s ≡ some (buffers content 0 k, t)) × At k t
  steps-buffers k s h p =
      let (t, e, a) =
        visit-contents (λ (d : Unit {0}). next) view orig n (λ (d : Unit {0}). Unit {0})
          (λ i (d : Unit {0}). content i) At (λ i d s h o p. step i s h p) (λ d s p. stop s p) 0
          (replicate k tt) s (omega (arith, length-replicate k (tt {0}))) (replicate-AllDraws k)
          p in
      (
        t,
        rw e (rw (contents-replicate content 0 k) refl),
        subst (λ j. At j t) (omega (arith, length-replicate k (tt {0}))) a,
      )

  pub steps_all :
      (m : ℕ) (s : S)
      → At 0 s
      → (t : S) × (steps next view (n + suc m) s ≡ some (buffers content 0 n, t))
        × (view t ≡ orig)
        × At n t
  steps_all m s p =
      let (t, e, v, a) =
        visit_all (λ (d : Unit {0}). next) view orig n (λ (d : Unit {0}). Unit {0})
          (λ i (d : Unit {0}). content i) At (λ i d s h o p. step i s h p) (λ d s p. stop s p) 0
          (replicate n tt) tt (replicate m tt) s (omega (arith, length-replicate n (tt {0})))
          (replicate-AllDraws n) p in
      (t, rw (replicate_append n (suc m)) (rw e (rw (contents-replicate content 0 n) refl)), v, a)
