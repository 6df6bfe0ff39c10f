-- ===== src/Cache/Retain.antt =====
-- fuzztruction_shared/src/mutation_cache.rs: the operations of `MutationCache` that go over all entries
-- of its content.
use fuzztruction_net.Base.{
  ℕ, ◌+◌, ◌≡◌, inl, inr, refl, sym, ap, subst, ◌∙◌, Bool, true, false, not, ◌||◌, ◌&&◌, Option,
  some, List, [], ◌∷◌, ◌++◌, map, arith, ltb, ◌==◌, if◌then◌else◌, length, ◌>>=◌, Bool-cases,
}
use fuzztruction_net.IntegerSet.{elem}
use fuzztruction_net.IntegerSet.Subsets.{Distinct}
use fuzztruction_net.Cache.{Sizes, Content, entries, remove}
use fuzztruction_net.Cache.EntryData.{Entry, is_nop, all_zero, msk_len}
use fuzztruction_net.Cache.Blocks.{Holds}
use fuzztruction_net.Cache.Push.{entries-Holds}
use fuzztruction_net.Cache.Remove.{has_id, remove_first, remove-Holds}

pub remove_all : Sizes → List ℕ → Content → Option Content
remove_all z [] self = some self
remove_all z (id ∷ ids) self = do self' ← remove z id self; remove_all z ids self'

-- `filter` on the ids and on the entries.
abbrev pub keep : (Entry → Bool) → List Entry → List Entry
keep f [] = []
keep f (e ∷ es) = if f e then e ∷ keep f es else keep f es

abbrev pub ids : List Entry → List ℕ
ids es = map (λ e. e.id) es

pub retain_whitelisted : Sizes → List ℕ → Content → Option Content
unfolding remove_all
retain_whitelisted z whitelist self = do
  es ← entries self
  remove_all z (ids (keep (λ e. not (elem e.id whitelist)) es)) self

-- The calls of `f` are taken to depend on the entry alone.
pub retain : Sizes → (Entry → Bool) → Content → Option Content
unfolding retain_whitelisted
retain z f self = do es ← entries self; retain_whitelisted z (ids (keep f es)) self

-- `msk_len() > 0 && msk.iter().any(|e| *e != 0)`
pub any_set : List ℕ → Bool
any_set [] = false
any_set (b ∷ bs) = not (b == 0) || any_set bs

pub purge_nop_entries : Sizes → Content → Option Content
unfolding retain_whitelisted any_set
purge_nop_entries z self = do
  es ← entries self
  retain_whitelisted z (ids (keep (λ e. ltb 0 (msk_len e) && any_set e.msk) es)) self

pub remove_by_location_type : Sizes → ℕ → Content → Option Content
unfolding retain
remove_by_location_type z loc_type self = retain z (λ e. not (e.loc_type == loc_type)) self

pub total_msk_len : Content → Option ℕ
total_msk_len self = do es ← entries self; some (sum es)
  where
    sum : List Entry → ℕ
    sum [] = 0
    sum (e ∷ es) = msk_len e + sum es

has_id-append :
    (id : ℕ) (xs ys : List Entry) → has_id id (xs ++ ys) ≡ (has_id id xs || has_id id ys)
has_id-append id [] ys = refl
has_id-append id (x ∷ xs) ys = ground (arith, has_id-append id xs ys)

remove_first-append :
    (id : ℕ) (xs : List Entry) (e : Entry) (ys : List Entry)
    → has_id id xs ≡ false
    → e.id ≡ id
    → remove_first id (xs ++ e ∷ ys) ≡ xs ++ ys
remove_first-append id [] e ys h p = let q : (e.id == id) ≡ true = ground arith in rw q refl
remove_first-append id (x ∷ xs) e ys h p =
    let q : (x.id == id) ≡ false = ground arith in
    rw q (ap (◌∷◌ x) (remove_first-append id xs e ys (ground arith) p))

pub append_last :
    (xs : List Entry) (e : Entry) (ys : List Entry) → (xs ++ e ∷ []) ++ ys ≡ xs ++ e ∷ ys
append_last [] e ys = refl
append_last (x ∷ xs) e ys = ap (◌∷◌ x) (append_last xs e ys)

-- Entries in front that are on the whitelist are passed over.
pub remove_all-Holds :
    (z : Sizes) (whitelist : List ℕ) (front es : List Entry) (s : Content)
    → ((id : ℕ) → elem id whitelist ≡ false → has_id id front ≡ false)
    → Holds z s (front ++ es)
    → (t : Content) × (remove_all z (ids (keep (λ e. not (elem e.id whitelist)) es)) s ≡ some t)
      × Holds z t (front ++ keep (λ e. elem e.id whitelist) es)
      × (t.total_size ≡ s.total_size)
unfolding remove_all
remove_all-Holds z whitelist front [] s c h = (s, refl, h, refl)
remove_all-Holds z whitelist front (e ∷ es) s c h = elim (Bool-cases (elem e.id whitelist)) [
  | inl y ↦
      let front' = front ++ e ∷ [] in
      let c' : (id : ℕ) → elem id whitelist ≡ false → has_id id front' ≡ false = λ id n.
        elim (Bool-cases (e.id == id)) [
          | inl same ↦ absurd (ground (arith, ap (λ k. elem k whitelist) (same_id e.id id same)))
          | inr other ↦ has_id-append id front (e ∷ []) ∙ ground (arith, c id n)
        ] in
      let (t, p, q, u) =
        remove_all-Holds z whitelist front' es s c'
          (subst (λ xs. Holds z s xs) (sym (append_last front e es)) h) in
      (
        t,
        rw y p,
        rw y (
            subst (λ xs. Holds z t xs) (append_last front e (keep (λ e. elem e.id whitelist) es))
              q),
        u,
      )
  | inr n ↦ elim (remove-Holds z e.id s (front ++ e ∷ es) h) [
    | inl (y, t, p, q, u) ↦
        let q' =
          subst (λ xs. Holds z t xs) (remove_first-append e.id front e es (c e.id n) refl) q in
        let (v, p', r, u') = remove_all-Holds z whitelist front es t c q' in
        (v, rw n (rw p p'), rw n r, u' ∙ u)
    | inr (y, p) ↦ absurd (ground (arith, has_id-append e.id front (e ∷ es)))
  ]
]
  where
    same_id : (a b : ℕ) → (a == b) ≡ true → a ≡ b
    same_id a b h = ground arith

abbrev pub AllEntries : (Entry → Type 0) → List Entry → Type 0
AllEntries P [] = Unit {0}
AllEntries P (e ∷ es) = P e × AllEntries P es

pub keep_ext :
    (f g : Entry → Bool) (es : List Entry) → AllEntries (λ e. f e ≡ g e) es → keep f es ≡ keep g es
keep_ext f g [] h = refl
keep_ext f g (e ∷ es) (h, hs) = rw (h, keep_ext f g es hs) refl

elem-keep :
    (f : Entry → Bool) (i : ℕ) (es : List Entry)
    → elem i (ids es) ≡ false
    → elem i (ids (keep f es)) ≡ false
elem-keep f i [] h = refl
elem-keep f i (e ∷ es) h = elim (Bool-cases (f e)) [
  | inl y ↦ rw y (ground (arith, elem-keep f i es (ground arith)))
  | inr n ↦ rw n (elem-keep f i es (ground arith))
]

-- With an id that none of the entries has put in front.
AllEntries-other :
    (f : Entry → Bool) (l : List ℕ) (i : ℕ) (es : List Entry)
    → elem i (ids es) ≡ false
    → AllEntries (λ e. elem e.id l ≡ f e) es
    → AllEntries (λ e. elem e.id (i ∷ l) ≡ f e) es
AllEntries-other f l i [] n h = tt
AllEntries-other f l i (e ∷ es) n (h, hs) =
    (ground arith, AllEntries-other f l i es (ground arith) hs)

pub ids-keep :
    (f : Entry → Bool) (es : List Entry)
    → Distinct (ids es)
    → AllEntries (λ e. elem e.id (ids (keep f es)) ≡ f e) es
ids-keep f [] d = tt
ids-keep f (e ∷ es) (n, d) = elim (Bool-cases (f e)) [
  | inl y ↦
      let k : keep f (e ∷ es) ≡ e ∷ keep f es = rw y refl in
      let h : AllEntries (λ x. elem x.id (e.id ∷ ids (keep f es)) ≡ f x) (e ∷ es) =
        (ground arith, AllEntries-other f (ids (keep f es)) e.id es n (ids-keep f es d)) in
      subst (λ l. AllEntries (λ x. elem x.id (ids l) ≡ f x) (e ∷ es)) (sym k) h
  | inr n' ↦
      let k : keep f (e ∷ es) ≡ keep f es = rw n' refl in
      let h : AllEntries (λ x. elem x.id (ids (keep f es)) ≡ f x) (e ∷ es) =
        (elem-keep f e.id es n ∙ sym n', ids-keep f es d) in
      subst (λ l. AllEntries (λ x. elem x.id (ids l) ≡ f x) (e ∷ es)) (sym k) h
]

-- Retaining the entries that satisfy a test, of a content that holds entries with distinct ids, leaves a content that
-- holds just these, in their order.
pub retain-Holds :
    (z : Sizes) (f : Entry → Bool) (s : Content) (es : List Entry)
    → Distinct (ids es)
    → Holds z s es
    → (t : Content) × (retain z f s ≡ some t)
      × Holds z t (keep f es)
      × (t.total_size ≡ s.total_size)
unfolding retain retain_whitelisted
retain-Holds z f s es d h =
    let whitelist = ids (keep f es) in
    let (t, p, q, u) = remove_all-Holds z whitelist [] es s (λ id n. refl) h in
    (
      t,
      rw (entries-Holds z s es h) p,
      subst (λ xs. Holds z t xs) (keep_ext (λ e. elem e.id whitelist) f es (ids-keep f es d)) q,
      u,
    )

any_set-all_zero : (bs : List ℕ) → any_set bs ≡ not (all_zero bs)
unfolding any_set all_zero
any_set-all_zero [] = refl
any_set-all_zero (b ∷ bs) = ground (arith, any_set-all_zero bs)

any_set-is_nop : (e : Entry) → (ltb 0 (msk_len e) && any_set e.msk) ≡ not (is_nop e)
unfolding any_set is_nop all_zero
any_set-is_nop e = go e.msk
  where
    go : (bs : List ℕ) → (ltb 0 (length bs) && any_set bs) ≡ not (all_zero bs)
    go [] = refl
    go (b ∷ bs) = ground (arith, any_set-all_zero (b ∷ bs))

all_same :
    (f g : Entry → Bool) (es : List Entry)
    → ((e : Entry) → f e ≡ g e)
    → AllEntries (λ e. f e ≡ g e) es
all_same f g [] h = tt
all_same f g (e ∷ es) h = (h e, all_same f g es h)

-- Purging the entries of a content that holds entries with distinct ids leaves those that have an effect: the entries
-- for which `is_nop` is false, in their order.
pub purge-Holds :
    (z : Sizes) (s : Content) (es : List Entry)
    → Distinct (ids es)
    → Holds z s es
    → (t : Content) × (purge_nop_entries z s ≡ some t) × Holds z t (keep (λ e. not (is_nop e)) es)
unfolding purge_nop_entries retain
purge-Holds z s es d h =
    let (t, p, q, u) = retain-Holds z (λ e. ltb 0 (msk_len e) && any_set e.msk) s es d h in
    (
      t,
      p,
      subst (λ xs. Holds z t xs)
          (keep_ext (λ e. ltb 0 (msk_len e) && any_set e.msk) (λ e. not (is_nop e)) es
            (all_same (λ e. ltb 0 (msk_len e) && any_set e.msk) (λ e. not (is_nop e)) es
              any_set-is_nop))
          q,
    )
