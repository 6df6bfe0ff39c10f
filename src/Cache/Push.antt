-- ===== src/Cache/Push.antt =====
-- What the operations that add entries do to the list of entries that a cache holds.
use fuzztruction_net.Base.{
  ℕ, zero, suc, ◌+◌, ◌-◌, ◌^◌, ◌≤◌, ◌<◌, ◌≡◌, ◌⊎◌, inl, inr, refl, sym, ap, subst, min, true, false,
  Option, none, some, List, [], ◌∷◌, ◌++◌, arith, ltb, length, get_elem?, set, replicate,
  length-set, length-replicate, Bool-cases,
}
use fuzztruction_net.Cache.{
  Sizes, Memory, Content, entries, copy_entry, clear, push, push_all, consolidate, space_left,
  sub_usize,
}
use fuzztruction_net.Cache.EntryData.{Entry, size}
use fuzztruction_net.Cache.Blocks.{
  total, Blocks, FreeFrom, Holds, entries_of-Blocks, Blocks-le, Blocks-length, Blocks-push,
  replicate-FreeFrom, FreeFrom-suc, FreeFrom-set, get_elem?-FreeFrom, FreeFrom-get_elem?,
}

pub entries-Holds : (z : Sizes) (s : Content) (es : List Entry) → Holds z s es → entries s ≡ some es
unfolding entries
entries-Holds z s es (a, f, o, b, r, w, t) =
    entries_of-Blocks z.metadata s.memory 0 s.entry_descriptor_tbl s.current_data_size es b

-- The content after an entry was added.
abbrev pub pushed : Sizes → Entry → Content → Content
pushed z e s = record s {
  entry_descriptor_tbl = set s.entry_descriptor_tbl s.next_free_slot (some s.current_data_size);
  next_free_slot = min (suc s.next_free_slot) (length s.entry_descriptor_tbl - 1);
  memory = copy_entry e (size z.metadata e) s.current_data_size s.memory;
  current_data_size = s.current_data_size + size z.metadata e;
  invalidate = true;
}

empty-Blocks : (m : ℕ) (memory : Memory) (k : ℕ) → Blocks m memory 0 (replicate k none) 0 []
empty-Blocks m memory zero = omega arith
empty-Blocks m memory (suc k) = empty-Blocks m memory k

fresh_slot : (k : ℕ) → 0 < k → get_elem? (replicate {A = Option ℕ} k none) 0 ≡ some none
fresh_slot zero h = elim h [ ]
fresh_slot (suc k) h = refl

-- A cleared content holds no entry.
pub clear-Holds :
    (z : Sizes) (s : Content)
    → 0 < z.max_entries
    → z.content ≤ s.total_size
    → s.total_size < 2 ^ 64
    → Holds z (clear z s) []
unfolding clear
clear-Holds z s h l w = (
  omega (arith, length-replicate {A = Option ℕ} z.max_entries none),
  replicate-FreeFrom 1 z.max_entries,
  inl (fresh_slot z.max_entries h),
  empty-Blocks z.metadata s.memory z.max_entries,
  omega arith,
  w,
  length-replicate {A = Option ℕ} z.max_entries none,
)

space_left-Holds :
    (z : Sizes) (s : Content) (n : ℕ)
    → z.content + s.current_data_size ≤ s.total_size
    → s.total_size < 2 ^ 64
    → ltb (space_left z s) n ≡ ltb s.total_size (z.content + s.current_data_size + n)
unfolding space_left sub_usize
space_left-Holds z s n h w = ground arith

pub push-pushed :
    (z : Sizes) (e : Entry) (s : Content) (es : List Entry)
    → Holds z s es
    → get_elem? s.entry_descriptor_tbl s.next_free_slot ≡ some none
    → z.content + s.current_data_size + size z.metadata e ≤ s.total_size
    → push z e s ≡ some (pushed z e s, true)
unfolding push
push-pushed z e s es (a, f, o, b, r, w, t) g l =
    rw (space_left-Holds z s (size z.metadata e) r w, g) (ground arith)

-- The slot to use after slot `n` was taken, in a table of `k` slots.
next_slot :
    (n k : ℕ) (tbl : List (Option ℕ))
    → length tbl ≡ k
    → n < k
    → FreeFrom (suc n) tbl
    → FreeFrom (suc (min (suc n) (k - 1))) tbl
      × ((get_elem? tbl (min (suc n) (k - 1)) ≡ some none) ⊎ (suc (min (suc n) (k - 1)) ≡ k))
next_slot n k tbl h lt f = elim (Bool-cases (ltb (suc n) k)) [
  | inl y ↦
      let e : min (suc n) (k - 1) ≡ suc n = ground arith in
      rw e (FreeFrom-suc (suc n) tbl f, inl (get_elem?-FreeFrom (suc n) tbl (ground arith) f))
  | inr y ↦ let e : min (suc n) (k - 1) ≡ n = ground arith in rw e (f, inr (ground arith))
]

pub pushed-Holds :
    (z : Sizes) (e : Entry) (s : Content) (es : List Entry)
    → Holds z s es
    → get_elem? s.entry_descriptor_tbl s.next_free_slot ≡ some none
    → z.content + s.current_data_size + size z.metadata e ≤ s.total_size
    → Holds z (pushed z e s) (es ++ e ∷ [])
pushed-Holds z e s es (a, f, o, b, r, w, t) g l =
    let n = s.next_free_slot in
    let tbl = s.entry_descriptor_tbl in
    let k = length tbl in
    let tbl' = set tbl n (some s.current_data_size) in
    let lt : length tbl' ≡ k = length-set tbl n (some s.current_data_size) in
    let (p, q) =
      next_slot n k tbl' lt a
        (FreeFrom-set (suc n) n tbl (some s.current_data_size) (omega arith) f) in
    (
      omega arith,
      p,
      subst
          (λ j.
            (get_elem? tbl' (min (suc n) (k - 1)) ≡ some none) ⊎ (suc (min (suc n) (k - 1)) ≡ j))
          t q,
      Blocks-push z.metadata s.memory 0 n tbl s.current_data_size es e a
          (FreeFrom-get_elem? n tbl g f) b,
      omega arith,
      w,
      omega arith,
    )

pub push_full :
    (z : Sizes) (e : Entry) (s : Content) (es : List Entry)
    → Holds z s es
    → ltb s.total_size (z.content + s.current_data_size + size z.metadata e) ≡ true
    → push z e s ≡ some (s, false)
unfolding push
push_full z e s es (a, f, o, b, r, w, t) l =
    rw (space_left-Holds z s (size z.metadata e) r w) (ground arith)

pub push_taken :
    (z : Sizes) (e : Entry) (s : Content) (es : List Entry) (offset : ℕ)
    → Holds z s es
    → get_elem? s.entry_descriptor_tbl s.next_free_slot ≡ some (some offset)
    → push z e s ≡ some (s, false)
unfolding push
push_taken z e s es offset (a, f, o, b, r, w, t) g = rw g (ground arith)

pub slot-cases :
    (i : ℕ) (tbl : List (Option ℕ))
    → i < length tbl
    → (get_elem? tbl i ≡ some none) ⊎ ((offset : ℕ) × (get_elem? tbl i ≡ some (some offset)))
slot-cases i [] h = elim h [ ]
slot-cases zero (none ∷ tbl) h = inl refl
slot-cases zero (some offset ∷ tbl) h = inr (offset, refl)
slot-cases (suc i) (x ∷ tbl) h = slot-cases i tbl (omega arith)

-- Adding an entry to a content that holds a list of entries appends it to the list, unless it does not fit below
-- the total size, or the next free slot is the table's last one and that is taken: then the content stays as it is.
pub push-Holds :
    (z : Sizes) (e : Entry) (s : Content) (es : List Entry)
    → Holds z s es
    → ((t : Content) × (push z e s ≡ some (t, true))
        × Holds z t (es ++ e ∷ [])
        × (t.invalidate ≡ true))
      ⊎ ((push z e s ≡ some (s, false))
          × ((s.total_size < z.content + s.current_data_size + size z.metadata e)
              ⊎ ((suc s.next_free_slot ≡ z.max_entries)
                  × (offset : ℕ) × (get_elem? s.entry_descriptor_tbl s.next_free_slot
                      ≡ some (some offset)))))
push-Holds z e s es h =
    elim (Bool-cases (ltb s.total_size (z.content + s.current_data_size + size z.metadata e))) [
      | inl y ↦ inr (push_full z e s es h y, inl (ground arith))
      | inr y ↦ elim (slot-cases s.next_free_slot s.entry_descriptor_tbl (h.0)) [
        | inl g ↦
            let l : z.content + s.current_data_size + size z.metadata e ≤ s.total_size =
              ground arith in
            inl (pushed z e s, push-pushed z e s es h g l, pushed-Holds z e s es h g l, refl)
        | inr (offset, g) ↦ inr (
          push_taken z e s es offset h g,
          inr (elim (h.2) [ inl free ↦ absurd (ground arith) | inr last ↦ last ], offset, g),
        )
      ]
    ]

append_assoc : (xs : List Entry) (y : Entry) (ys : List Entry) → (xs ++ y ∷ []) ++ ys ≡ xs ++ y ∷ ys
append_assoc [] y ys = refl
append_assoc (x ∷ xs) y ys = ap (◌∷◌ x) (append_assoc xs y ys)

append_none : (xs : List Entry) → xs ++ [] ≡ xs
append_none [] = refl
append_none (x ∷ xs) = ap (◌∷◌ x) (append_none xs)

-- Entries that all find a slot and fit.
pub push_all-Holds :
    (z : Sizes) (new es : List Entry) (s : Content)
    → Holds z s es
    → s.next_free_slot + length new ≤ z.max_entries
    → (0 < length new → FreeFrom s.next_free_slot s.entry_descriptor_tbl)
    → z.content + s.current_data_size + total z.metadata new ≤ s.total_size
    → (t : Content) × (push_all z new s ≡ some t)
      × Holds z t (es ++ new)
      × (t.current_data_size ≡ s.current_data_size + total z.metadata new)
      × (t.total_size ≡ s.total_size)
unfolding push_all
push_all-Holds z [] es s h c f l =
    (s, refl, subst (λ xs. Holds z s xs) (sym (append_none es)) h, omega arith, refl)
push_all-Holds z (e ∷ new) es s h c f l =
    let n = s.next_free_slot in
    let tbl = s.entry_descriptor_tbl in
    let tbl' = set tbl n (some s.current_data_size) in
    let g = get_elem?-FreeFrom n tbl (h.0) (f (omega arith)) in
    let room : z.content + s.current_data_size + size z.metadata e ≤ s.total_size = omega arith in
    let next : 0 < length new → FreeFrom (min (suc n) (length tbl - 1)) tbl' = λ lt.
      let j : min (suc n) (length tbl - 1) ≡ suc n = omega (arith, h.6) in
      rw j (FreeFrom-set (suc n) n tbl (some s.current_data_size) (omega arith) (h.1)) in
    let (t, p, q, d, u) =
      push_all-Holds z new (es ++ e ∷ []) (pushed z e s) (pushed-Holds z e s es h g room)
        (omega (arith, h.6)) next (omega arith) in
    (
      t,
      rw (push-pushed z e s es h g room) p,
      subst (λ xs. Holds z t xs) (append_assoc es e new) q,
      omega arith,
      u,
    )

-- Consolidating a content that holds a list of entries loses none of them, keeps their order, and leaves no byte
-- between them.
pub consolidate-Holds :
    (z : Sizes) (s : Content) (es : List Entry)
    → Holds z s es
    → (t : Content) × (consolidate z s ≡ some t)
      × Holds z t es
      × (t.current_data_size ≡ total z.metadata es)
      × (t.total_size ≡ s.total_size)
unfolding consolidate clear
consolidate-Holds z s es h =
    let le = Blocks-le z.metadata s.memory 0 s.entry_descriptor_tbl s.current_data_size es (h.3) in
    let len =
      Blocks-length z.metadata s.memory 0 s.entry_descriptor_tbl s.current_data_size es (h.3) in
    let (t, p, q, d, u) =
      push_all-Holds z es [] (clear z s)
        (clear-Holds z s (omega (arith, h.0, h.6)) (omega (arith, h.4)) (h.5)) (omega (arith, h.6))
        (λ lt. replicate-FreeFrom 0 z.max_entries) (omega (arith, h.4)) in
    (t, rw (entries-Holds z s es h) p, q, omega arith, u)
