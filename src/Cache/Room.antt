-- ===== src/Cache/Room.antt =====
-- fuzztruction_shared/src/mutation_cache_content.rs: which of several entries find room in a content.
use fuzztruction_net.Base.{
  ℕ, zero, suc, ◌+◌, ◌-◌, ◌≤◌, ◌<◌, ◌≡◌, inl, inr, refl, sym, ap, subst, min, true, false, Option,
  none, some, List, [], ◌∷◌, ◌++◌, arith, ltb, leb, length, get_elem?, set, length-set, Bool-cases,
  if◌then◌else◌,
}
use fuzztruction_net.Cache.{Sizes, Content, push_all}
use fuzztruction_net.Cache.EntryData.{Entry, size}
use fuzztruction_net.Cache.Blocks.{Holds, get_elem?-FreeFrom, FreeFrom-set}
use fuzztruction_net.Cache.Push.{
  pushed, pushed-Holds, push-pushed, push_full, push_taken, slot-cases,
}
use fuzztruction_net.Cache.Retain.{append_last}

-- The slots from the next free one on, of `n`; none if that is taken.
abbrev pub free_slots : Option (Option ℕ) → ℕ → ℕ → ℕ
free_slots (some none) i n = n - i
free_slots (some (some offset)) i n = 0
free_slots none i n = 0

abbrev pub slots_left : Content → ℕ
slots_left s =
    free_slots (get_elem? s.entry_descriptor_tbl s.next_free_slot) s.next_free_slot
      (length s.entry_descriptor_tbl)

abbrev pub bytes_left : Sizes → Content → ℕ
bytes_left z s = s.total_size - (z.content + s.current_data_size)

-- The entries that find room in so many slots and bytes, each taken if it fits where the ones before it left off.
abbrev pub found_room : Sizes → ℕ → ℕ → List Entry → List Entry
found_room z slots bytes [] = []
found_room z zero bytes (e ∷ es) = []
found_room z (suc slots) bytes (e ∷ es) =
    let taken = found_room z slots (bytes - size z.metadata e) es in
    let passed_over = found_room z (suc slots) bytes es in
    if leb (size z.metadata e) bytes then e ∷ taken else passed_over

no_room : (z : Sizes) (bytes : ℕ) (es : List Entry) → found_room z 0 bytes es ≡ []
no_room z bytes [] = refl
no_room z bytes (e ∷ es) = refl

append_none : (xs : List Entry) → xs ++ [] ≡ xs
append_none [] = refl
append_none (x ∷ xs) = ap (◌∷◌ x) (append_none xs)

get_elem?-set :
    (tbl : List (Option ℕ)) (i : ℕ) (v : Option ℕ)
    → i < length tbl
    → get_elem? (set tbl i v) i ≡ some v
get_elem?-set [] i v h = elim h [ ]
get_elem?-set (x ∷ tbl) zero v h = refl
get_elem?-set (x ∷ tbl) (suc i) v h = get_elem?-set tbl i v (omega arith)

-- An entry takes one slot.
slots_left-pushed :
    (z : Sizes) (e : Entry) (s : Content) (es : List Entry)
    → Holds z s es
    → slots_left (pushed z e s) ≡ length s.entry_descriptor_tbl - s.next_free_slot - 1
slots_left-pushed z e s es h =
    let n = s.next_free_slot in
    let tbl = s.entry_descriptor_tbl in
    let tbl' = set tbl n (some s.current_data_size) in
    let l : length tbl' ≡ length tbl = length-set tbl n (some s.current_data_size) in
    elim (Bool-cases (ltb (suc n) (length tbl))) [
      | inl y ↦
          let next : min (suc n) (length tbl - 1) ≡ suc n = ground arith in
          let free : get_elem? tbl' (suc n) ≡ some none =
            get_elem?-FreeFrom (suc n) tbl' (ground arith)
              (FreeFrom-set (suc n) n tbl (some s.current_data_size) (omega arith) (h.1)) in
          rw (next, free, l) (omega arith)
      | inr y ↦
          let next : min (suc n) (length tbl - 1) ≡ n = ground (arith, h.0) in
          rw (next, get_elem?-set tbl n (some s.current_data_size) (h.0)) (ground (arith, h.0))
    ]

-- The slots left where the next one is free.
slots_left-free :
    (s : Content)
    → get_elem? s.entry_descriptor_tbl s.next_free_slot ≡ some none
    → s.next_free_slot < length s.entry_descriptor_tbl
    → slots_left s ≡ suc (length s.entry_descriptor_tbl - s.next_free_slot - 1)
slots_left-free s g lt = rw g (omega arith)

module _ (z : Sizes) where
  abbrev Adds : List Entry → Type 0
  Adds new =
      (es : List Entry) (s : Content)
      → Holds z s es
      → (t : Content) × (push_all z new s ≡ some t)
        × Holds z t (es ++ found_room z (slots_left s) (bytes_left z s) new)

  -- An entry that meets a free slot.
  free_slot :
      (e : Entry) (new es : List Entry) (s : Content)
      → Holds z s es
      → get_elem? s.entry_descriptor_tbl s.next_free_slot ≡ some none
      → Adds new
      → (t : Content) × (push_all z (e ∷ new) s ≡ some t)
        × Holds z t (es ++ found_room z (slots_left s) (bytes_left z s) (e ∷ new))
  unfolding push_all
  free_slot e new es s h g rest =
      let m = length s.entry_descriptor_tbl - s.next_free_slot - 1 in
      let left : slots_left s ≡ suc m = slots_left-free s g (h.0) in
      let bytes = bytes_left z s in
      elim (Bool-cases (ltb s.total_size (z.content + s.current_data_size + size z.metadata e))) [
        | inl full ↦
            let (t, p, q) = rest es s h in
            let over : leb (size z.metadata e) bytes ≡ false = ground (arith, h.4) in
            let same : found_room z (slots_left s) bytes (e ∷ new)
                ≡ found_room z (slots_left s) bytes new =
              rw (left, over) refl in
            (t, rw (push_full z e s es h full) p, subst (λ xs. Holds z t (es ++ xs)) (sym same) q)
        | inr room ↦
            let fits : z.content + s.current_data_size + size z.metadata e ≤ s.total_size =
              ground arith in
            let (t, p, q) = rest (es ++ e ∷ []) (pushed z e s) (pushed-Holds z e s es h g fits) in
            let under : leb (size z.metadata e) bytes ≡ true = ground (arith, h.4) in
            let less : bytes_left z (pushed z e s) ≡ bytes - size z.metadata e = omega arith in
            let one : slots_left (pushed z e s) ≡ m = slots_left-pushed z e s es h in
            let taken : found_room z (slots_left s) bytes (e ∷ new)
                ≡ e ∷ found_room z m (bytes - size z.metadata e) new =
              rw (left, under) refl in
            let q' : Holds z t ((es ++ e ∷ []) ++ found_room z m (bytes - size z.metadata e) new) =
              subst
                (λ k. Holds z t ((es ++ e ∷ []) ++ found_room z k (bytes - size z.metadata e) new))
                one
                (subst
                  (λ b.
                    Holds z t ((es ++ e ∷ []) ++ found_room z (slots_left (pushed z e s)) b new))
                  less q) in
            (
              t,
              rw (push-pushed z e s es h g fits) p,
              subst (λ xs. Holds z t (es ++ xs)) (sym taken)
                  (subst (λ xs. Holds z t xs)
                    (append_last es e (found_room z m (bytes - size z.metadata e) new)) q'),
            )
      ]

  -- Adding entries one after the other adds just those that find room.
  pub push_all-room : (new : List Entry) → Adds new
  unfolding push_all
  push_all-room [] es s h = (s, refl, subst (λ xs. Holds z s xs) (sym (append_none es)) h)
  push_all-room (e ∷ new) es s h = elim (slot-cases s.next_free_slot s.entry_descriptor_tbl (h.0)) [
    | inl g ↦ free_slot e new es s h g (push_all-room new)
    | inr (offset, g) ↦
        let (t, p, q) = push_all-room new es s h in
        let left : slots_left s ≡ 0 = rw g refl in
        let q' : Holds z t (es ++ found_room z 0 (bytes_left z s) new) =
          subst (λ k. Holds z t (es ++ found_room z k (bytes_left z s) new)) left q in
        (
          t,
          rw (push_taken z e s es offset h g) p,
          subst (λ k. Holds z t (es ++ found_room z k (bytes_left z s) (e ∷ new))) (sym left)
              (subst (λ xs. Holds z t (es ++ xs)) (no_room z (bytes_left z s) new) q'),
        )
  ]
