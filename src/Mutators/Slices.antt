-- ===== src/Mutators/Slices.antt =====
-- scheduler/src/fuzzer/worker_impl/mutators.rs: writes of a slice of the buffer.
use fuzztruction_net.Base.{
  ℕ, zero, suc, ◌+◌, ◌-◌, ◌≤◌, ◌≡◌, refl, sym, ap, ◌∙◌, true, some, List, [], ◌∷◌, ◌++◌, arith, leb,
  length, take, drop, length-take, length-append, take-append-drop,
}
use fuzztruction_net.Mutators.{write_slice}

take-append_self : (a b : List ℕ) (k : ℕ) → length a ≡ k → take k (a ++ b) ≡ a
take-append_self [] b zero h = refl
take-append_self [] b (suc k) h = absurd (omega arith)
take-append_self (x ∷ a) b zero h = absurd (omega arith)
take-append_self (x ∷ a) b (suc k) h = ap (◌∷◌ x) (take-append_self a b k (omega arith))

drop-append_self : (a b : List ℕ) (k : ℕ) → length a ≡ k → drop k (a ++ b) ≡ b
drop-append_self [] b zero h = refl
drop-append_self [] b (suc k) h = absurd (omega arith)
drop-append_self (x ∷ a) b zero h = absurd (omega arith)
drop-append_self (x ∷ a) b (suc k) h = drop-append_self a b k (omega arith)

drop_none : (j : ℕ) → drop {A = ℕ} j [] ≡ []
drop_none zero = refl
drop_none (suc j) = refl

drop-drop : (i j : ℕ) (xs : List ℕ) → drop j (drop i xs) ≡ drop (i + j) xs
drop-drop zero j xs = let e : 0 + j ≡ j = omega arith in rw e refl
drop-drop (suc i) j [] = drop_none j ∙ sym (drop_none (suc i + j))
drop-drop (suc i) j (x ∷ xs) =
    let e : suc i + j ≡ suc (i + j) = omega arith in rw e (drop-drop i j xs)

-- The buffer with the bytes from `i` on replaced.
abbrev pub patched : List ℕ → ℕ → List ℕ → List ℕ
patched orig i w = take i orig ++ (w ++ drop (i + length w) orig)

pub length-drop : (i : ℕ) (xs : List ℕ) → length (drop i xs) ≡ length xs - i
length-drop zero xs = omega arith
length-drop (suc i) [] = omega arith
length-drop (suc i) (x ∷ xs) = omega (arith, length-drop i xs)

pub length-patched :
    (orig : List ℕ) (i : ℕ) (w : List ℕ)
    → i + length w ≤ length orig
    → length (patched orig i w) ≡ length orig
length-patched orig i w h = omega (
  arith,
  length-append (take i orig) (w ++ drop (i + length w) orig),
  length-append w (drop (i + length w) orig),
  length-take i orig,
  length-drop (i + length w) orig,
)

-- Writing back the bytes that were there restores the buffer.
pub write_slice-patched :
    (orig w : List ℕ) (i n : ℕ)
    → length w ≡ n
    → i + n ≤ length orig
    → write_slice (patched orig i w) i (take n (drop i orig)) ≡ some orig
unfolding write_slice
write_slice-patched orig w i n h l =
    let lt : length (take n (drop i orig)) ≡ n =
      omega (arith, length-take n (drop i orig), length-drop i orig) in
    let lp : length (patched orig i w) ≡ length orig = length-patched orig i w (omega arith) in
    let a : take i (patched orig i w) ≡ take i orig =
      take-append_self (take i orig) (w ++ drop (i + length w) orig) i
        (omega (arith, length-take i orig)) in
    let b : drop i (patched orig i w) ≡ w ++ drop (i + length w) orig =
      drop-append_self (take i orig) (w ++ drop (i + length w) orig) i
        (omega (arith, length-take i orig)) in
    let c : drop (i + n) (patched orig i w) ≡ drop (i + n) orig =
      sym (drop-drop i n (patched orig i w))
      ∙ ap (λ z. drop n z) b
      ∙ drop-append_self w (drop (i + length w) orig) n h
      ∙ ap (λ k. drop (i + k) orig) h in
    let d : leb (i + length (take n (drop i orig))) (length (patched orig i w)) ≡ true =
      ground arith in
    rw d (rw (a, lt) (rw c (ap some (whole orig i n))))
  where
    whole :
        (orig : List ℕ) (i n : ℕ)
        → take i orig ++ (take n (drop i orig) ++ drop (i + n) orig) ≡ orig
    whole orig i n =
        ap (λ z. take i orig ++ (take n (drop i orig) ++ z)) (sym (drop-drop i n orig))
        ∙ ap (λ z. take i orig ++ z) (take-append-drop n (drop i orig))
        ∙ take-append-drop i orig
