-- ===== src/Cache/Remove.antt =====
-- What the removal of an entry does to the list of entries that a cache holds.
use fuzztruction_net.Base.{
  ℕ, zero, suc, ◌+◌, ◌≤◌, ◌≡◌, ◌⊎◌, inl, inr, refl, ap, subst, ◌∙◌, Bool, true, false, ◌||◌, Option,
  none, some, List, [], ◌∷◌, arith, ltb, ◌==◌, if◌then◌else◌, length, get_elem?, set, length-set,
  Bool-cases,
}
use fuzztruction_net.Cache.{
  Sizes, Memory, Content, entry_at, entry_ref, find, remove, remove_slot, pending_deletions_limit,
}
use fuzztruction_net.Cache.EntryData.{Entry, size, size-pos}
use fuzztruction_net.Cache.Blocks.{Block, Blocks, Holds, FreeFrom-none}
use fuzztruction_net.Cache.Push.{consolidate-Holds}

-- Whether an entry has the id, and the list without the first entry that has it.
abbrev pub has_id : ℕ → List Entry → Bool
has_id id [] = false
has_id id (e ∷ es) = (e.id == id) || has_id id es

abbrev pub remove_first : ℕ → List Entry → List Entry
remove_first id [] = []
remove_first id (e ∷ es) = if e.id == id then es else e ∷ remove_first id es

pub entry_ref-Block :
    (m : ℕ) (memory : Memory) (offset : ℕ) (e : Entry)
    → Block memory offset e (size m e)
    → entry_ref memory offset ≡ some e
unfolding entry_ref entry_at
entry_ref-Block m memory offset e b =
    let q : offset + 0 ≡ offset = omega arith in
    let p : memory offset ≡ some (e, 0) =
      subst (λ k. memory k ≡ some (e, 0)) q (b 0 (size-pos m e)) in
    rw p refl

Blocks-lower :
    (m : ℕ) (memory : Memory) (low low' : ℕ) (tbl : List (Option ℕ)) (high : ℕ) (es : List Entry)
    → low ≤ low'
    → Blocks m memory low' tbl high es
    → Blocks m memory low tbl high es
Blocks-lower m memory low low' [] high [] l h = omega arith
Blocks-lower m memory low low' [] high (e ∷ es) l h = h
Blocks-lower m memory low low' (none ∷ tbl) high es l h =
    Blocks-lower m memory low low' tbl high es l h
Blocks-lower m memory low low' (some offset ∷ tbl) high [] l h = h
Blocks-lower m memory low low' (some offset ∷ tbl) high (e ∷ es) l (a, b, r) = (omega arith, b, r)

find-Blocks :
    (m id : ℕ) (memory : Memory) (low idx : ℕ) (tbl : List (Option ℕ)) (high : ℕ) (es : List Entry)
    → Blocks m memory low tbl high es
    → ((has_id id es ≡ true)
        × (i : ℕ) × (find memory id idx tbl ≡ some (some (idx + i)))
        × Blocks m memory low (set tbl i none) high (remove_first id es))
      ⊎ ((has_id id es ≡ false) × (find memory id idx tbl ≡ some none))
unfolding find
find-Blocks m id memory low idx [] high [] h = inr (refl, refl)
find-Blocks m id memory low idx [] high (e ∷ es) h = elim h [ ]
find-Blocks m id memory low idx (none ∷ tbl) high es h =
    elim (find-Blocks m id memory low (suc idx) tbl high es h) [
      | inl (y, i, f, b) ↦
          let e : suc idx + i ≡ idx + suc i = omega arith in
          inl (y, suc i, f ∙ ap (λ k. some (some k)) e, b)
      | inr n ↦ inr n
    ]
find-Blocks m id memory low idx (some offset ∷ tbl) high [] h = elim h [ ]
find-Blocks m id memory low idx (some offset ∷ tbl) high (e ∷ es) (a, b, r) =
    let p = entry_ref-Block m memory offset e b in
    elim (Bool-cases (e.id == id)) [
      | inl y ↦
          let c : Blocks m memory low tbl high es =
            Blocks-lower m memory low (offset + size m e) tbl high es (omega arith) r in
          let k : idx ≡ idx + 0 = omega arith in
          rw y (inl (refl, 0, rw p (rw y (ap (λ k. some (some k)) k)), c))
      | inr n ↦ elim (find-Blocks m id memory (offset + size m e) (suc idx) tbl high es r) [
        | inl (y, i, f, c) ↦
            let k : suc idx + i ≡ idx + suc i = omega arith in
            rw n (inl (y, suc i, rw p (rw n (f ∙ ap (λ k. some (some k)) k)), (a, b, c)))
        | inr (y, f) ↦ rw n (inr (y, rw p (rw n f)))
      ]
    ]

get_elem?-none :
    (i n : ℕ) (tbl : List (Option ℕ))
    → get_elem? tbl n ≡ some none
    → get_elem? (set tbl i none) n ≡ some none
get_elem?-none i n [] h = h
get_elem?-none zero zero (s ∷ tbl) h = refl
get_elem?-none zero (suc n) (s ∷ tbl) h = h
get_elem?-none (suc i) zero (s ∷ tbl) h = h
get_elem?-none (suc i) (suc n) (s ∷ tbl) h = get_elem?-none i n tbl h

-- Removing an entry by its id from a content that holds a list of entries leaves a content that holds the list
-- without the first entry with that id, also where the content is consolidated; the removal panics when no entry has it.
pub remove-Holds :
    (z : Sizes) (id : ℕ) (s : Content) (es : List Entry)
    → Holds z s es
    → ((has_id id es ≡ true)
        × (t : Content) × (remove z id s ≡ some t)
        × Holds z t (remove_first id es)
        × (t.total_size ≡ s.total_size))
      ⊎ ((has_id id es ≡ false) × (remove z id s ≡ none))
unfolding remove remove_slot
remove-Holds z id s es (a, f, o, b, r, w, t) =
    elim (find-Blocks z.metadata id s.memory 0 0 s.entry_descriptor_tbl s.current_data_size es b) [
      | inr (n, p) ↦ inr (n, rw p refl)
      | inl (y, i, p, c) ↦
          let tbl = set s.entry_descriptor_tbl i none in
          let l : length tbl ≡ length s.entry_descriptor_tbl =
            length-set s.entry_descriptor_tbl i none in
          let k : 0 + i ≡ i = omega arith in
          let p' : find s.memory id 0 s.entry_descriptor_tbl ≡ some (some i) =
            p ∙ ap (λ k. some (some k)) k in
          let freed : ℕ → Content = λ pending. record s {
            invalidate = true;
            entry_descriptor_tbl = tbl;
            pending_deletions = pending;
          } in
          let o' : (get_elem? tbl s.next_free_slot ≡ some none)
              ⊎ (suc s.next_free_slot ≡ z.max_entries) =
            elim o [
              | inl e ↦ inl (get_elem?-none i s.next_free_slot s.entry_descriptor_tbl e)
              | inr e ↦ inr e
            ] in
          let held : (pending : ℕ) → Holds z (freed pending) (remove_first id es) = λ pending. (
            omega arith,
            FreeFrom-none (suc s.next_free_slot) i s.entry_descriptor_tbl f,
            o',
            c,
            r,
            w,
            omega arith,
          ) in
          elim (Bool-cases (ltb pending_deletions_limit (suc s.pending_deletions))) [
            | inl over ↦
                let (u, q, h, d, v) = consolidate-Holds z (freed 0) (remove_first id es) (held 0) in
                inl (y, u, rw p' (rw over q), h, v)
            | inr under ↦ inl (
              y,
              freed (suc s.pending_deletions),
              rw p' (rw under refl),
              held (suc s.pending_deletions),
              refl,
            )
          ]
    ]
