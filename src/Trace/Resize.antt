-- ===== src/Trace/Resize.antt =====
-- scheduler/src/mutation_cache_ops.rs: what the operations that follow a trace do to the list of entries that a
-- cache holds.
use fuzztruction_net.Base.{
  ℕ, zero, suc, ◌+◌, ◌-◌, ◌*◌, ◌/◌, ◌%◌, ◌^◌, ◌<◌, ◌≡◌, ◌⊎◌, inl, inr, refl, sym, ap, subst, ◌∙◌,
  arith, Bool, true, false, not, ◌&&◌, ltb, leb, ◌==◌, Option, none, some, List, [], ◌∷◌, ◌++◌, map,
  ◌>>=◌, Option-cases, Bool-cases, get_elem?, take, replicate, length, if◌then◌else◌,
}
use fuzztruction_net.IntegerSet.{elem}
use fuzztruction_net.IntegerSet.Subsets.{Distinct}
use fuzztruction_net.Cache.{Sizes, Content}
use fuzztruction_net.Cache.EntryData.{
  max_mask_len, LlvmInstruction, br, call, other, load, store, injected_call, custom_patch_point,
  switch, select, i_cmp, Entry, chunk_size_bits, chunk_size_bytes, clone_with_new_msk,
}
use fuzztruction_net.Cache.Blocks.{Holds}
use fuzztruction_net.Cache.Push.{entries-Holds}
use fuzztruction_net.Cache.Retain.{
  ids, keep, remove_all, remove_all-Holds, ids-keep, keep_ext, AllEntries, retain-Holds,
}
use fuzztruction_net.Cache.Room.{slots_left, bytes_left, found_room, push_all-room}
use fuzztruction_net.Trace.{
  Trace, map_get, covered, resized_with, resized_entries, resize_covered_entries, remove_uncovered,
}
use fuzztruction_net.Trace.Hits.{is_some, keys-map_get}

-- Removing what is not covered from a content that holds entries with distinct ids leaves a content that holds the
-- entries that the trace covers, in their order.
pub uncovered-Holds :
    (z : Sizes) (trace : Trace) (s : Content) (es : List Entry)
    → Distinct (ids es)
    → Holds z s es
    → (t : Content) × (remove_uncovered z trace s ≡ some t)
      × Holds z t (keep (λ e. elem e.id (covered trace)) es)
unfolding remove_uncovered
uncovered-Holds z trace s es d h =
    let (t, p, q, u) = retain-Holds z (λ e. elem e.id (covered trace)) s es d h in (t, p, q)

-- The width of the value that an instruction reads, if it is supported: one bit for a branch and a call, and
-- what fits 16 bits for the others that are named.
abbrev pub width_allowed : LlvmInstruction → ℕ → Bool
width_allowed br bits = bits == 1
width_allowed call bits = bits == 1
width_allowed (other n) bits = false
width_allowed load bits = ltb bits 65536
width_allowed store bits = ltb bits 65536
width_allowed injected_call bits = ltb bits 65536
width_allowed custom_patch_point bits = ltb bits 65536
width_allowed switch bits = ltb bits 65536
width_allowed select bits = ltb bits 65536
width_allowed i_cmp bits = ltb bits 65536

abbrev pub hits_of : Option ℕ → ℕ
hits_of none = 0
hits_of (some n) = n

-- The bytes for all hits of a site, in 32 bits.
abbrev pub mask_len : ℕ → Entry → ℕ
mask_len hits e = ((hits % 2 ^ 32) * ((e.target_value_size_bits + 7) / 8)) % 2 ^ 32

abbrev pub resizable_for : ℕ → Entry → Bool
resizable_for hits e =
    width_allowed e.llvm_instruction e.target_value_size_bits
    && (leb (mask_len hits e) max_mask_len && ltb 0 (mask_len hits e))

-- A mask of that many bytes, with zeros behind the old bytes.
abbrev pub fitted : ℕ → List ℕ → List ℕ
fitted zero msk = []
fitted (suc n) [] = 0 ∷ fitted n []
fitted (suc n) (b ∷ msk) = b ∷ fitted n msk

abbrev pub resized_for : ℕ → Entry → Entry
resized_for hits e = record e { msk = fitted (mask_len hits e) e.msk }

abbrev pub resizable : Trace → Entry → Bool
resizable trace e = resizable_for (hits_of (map_get e.id trace.exec_cnt)) e

abbrev pub resized : Trace → Entry → Entry
resized trace e = resized_for (hits_of (map_get e.id trace.exec_cnt)) e

fitted-take : (n : ℕ) (msk : List ℕ) → take n msk ++ replicate (n - length msk) 0 ≡ fitted n msk
fitted-take zero msk = let z : 0 - length msk ≡ 0 = omega arith in rw z refl
fitted-take (suc n) [] = let whole : suc n - 0 ≡ suc n = omega arith in rw whole (zeros (suc n))
  where
    zeros : (k : ℕ) → replicate k 0 ≡ fitted k []
    zeros zero = refl
    zeros (suc k) = ap (◌∷◌ 0) (zeros k)
fitted-take (suc n) (b ∷ msk) =
    let less : suc n - length (b ∷ msk) ≡ n - length msk = omega arith in
    rw less (ap (◌∷◌ b) (fitted-take n msk))

bits-width :
    (e : Entry)
    → chunk_size_bits e ≡ (
        if width_allowed e.llvm_instruction e.target_value_size_bits
        then some e.target_value_size_bits
        else none)
unfolding chunk_size_bits
bits-width e = by_instruction e.llvm_instruction e.target_value_size_bits
  where
    one_bit :
        (bits : ℕ) → (if bits == 1 then some 1 else none) ≡ (if bits == 1 then some bits else none)
    one_bit bits = elim (Bool-cases (bits == 1)) [
      | inl t ↦ let one : bits ≡ 1 = ground arith in rw (t, one) refl
      | inr t ↦ rw t refl
    ]

    by_instruction :
        (i : LlvmInstruction) (bits : ℕ)
        → (elim i [
          | br ↦ if bits == 1 then some 1 else none
          | call ↦ if bits == 1 then some 1 else none
          | other n ↦ none
          | _ ↦ if ltb bits (2 ^ 16) then some bits else none
        ])
          ≡ (if width_allowed i bits then some bits else none)
    by_instruction br bits = one_bit bits
    by_instruction call bits = one_bit bits
    by_instruction (other n) bits = refl
    by_instruction load bits = refl
    by_instruction store bits = refl
    by_instruction injected_call bits = refl
    by_instruction custom_patch_point bits = refl
    by_instruction switch bits = refl
    by_instruction select bits = refl
    by_instruction i_cmp bits = refl

bytes_of : (bits : ℕ) → (if ltb 0 (bits % 8) then bits / 8 + 1 else bits / 8) ≡ (bits + 7) / 8
bytes_of bits = elim (Bool-cases (ltb 0 (bits % 8))) [
  | inl t ↦ let l : 0 < bits % 8 = ground arith in rw t (omega arith)
  | inr t ↦ let l : bits % 8 ≡ 0 = ground arith in rw t (omega arith)
]

bytes-width :
    (e : Entry)
    → chunk_size_bytes e ≡ (
        if width_allowed e.llvm_instruction e.target_value_size_bits
        then some ((e.target_value_size_bits + 7) / 8)
        else none)
unfolding chunk_size_bytes
bytes-width e = elim (Bool-cases (width_allowed e.llvm_instruction e.target_value_size_bits)) [
  | inl t ↦
      let w : chunk_size_bits e ≡ some e.target_value_size_bits = bits-width e ∙ rw t refl in
      rw (w, t) (ap some (bytes_of e.target_value_size_bits))
  | inr t ↦ let w : chunk_size_bits e ≡ none = bits-width e ∙ rw t refl in rw (w, t) refl
]

-- One turn of the loop over the entries, for a covered entry.
resized_with-resized :
    (v : ℕ) (e : Entry) (rest : Option (List Entry))
    → resized_with (some v) e rest
      ≡ (if resizable_for v e then (rest >>= λ rs. some (resized_for v e ∷ rs)) else none)
unfolding resized_with clone_with_new_msk
resized_with-resized v e rest =
    elim (Bool-cases (width_allowed e.llvm_instruction e.target_value_size_bits)) [
      | inl t ↦
          let w : chunk_size_bytes e ≡ some ((e.target_value_size_bits + 7) / 8) =
            bytes-width e ∙ rw t refl in
          rw (w, t, fitted-take (mask_len v e) e.msk)
            (elim (Bool-cases (leb (mask_len v e) max_mask_len && ltb 0 (mask_len v e))) [
              | inl u ↦ rw u refl
              | inr u ↦ rw u refl
            ])
      | inr t ↦ let w : chunk_size_bytes e ≡ none = bytes-width e ∙ rw t refl in rw (w, t) refl
    ]

abbrev Resizable : Trace → List Entry → Type 0
Resizable trace es = AllEntries (λ e. resizable trace e ≡ true) es

-- An entry whose mask cannot be resized.
abbrev pub Refused : Trace → List Entry → Type 0
Refused trace es = (i : ℕ) × (e : Entry) × (get_elem? es i ≡ some e) × (resizable trace e ≡ false)

-- The entry itself or one behind it cannot be resized, or all can.
resized_entries-resized :
    (trace : Trace) (es : List Entry)
    → (Refused trace (keep (λ e. elem e.id (covered trace)) es) × (resized_entries trace es ≡ none))
      ⊎ (Resizable trace (keep (λ e. elem e.id (covered trace)) es)
          × (resized_entries trace es
              ≡ some (map (resized trace) (keep (λ e. elem e.id (covered trace)) es))))
unfolding resized_entries covered
resized_entries-resized trace [] = inr (tt, refl)
resized_entries-resized trace (e ∷ es) = elim (Option-cases (map_get e.id trace.exec_cnt)) [
  | inl n ↦
      let out : elem e.id (map (λ (p : ℕ × ℕ). p.0) trace.exec_cnt) ≡ false =
        keys-map_get e.id trace.exec_cnt ∙ ap is_some n in
      rw (out, n) (resized_entries-resized trace es)
  | inr (v, y) ↦
      let here : elem e.id (map (λ (p : ℕ × ℕ). p.0) trace.exec_cnt) ≡ true =
        keys-map_get e.id trace.exec_cnt ∙ ap is_some y in
      let turn = resized_with-resized v e (resized_entries trace es) in
      let flag : resizable trace e ≡ resizable_for v e = ap (λ o. resizable_for (hits_of o) e) y in
      elim (Bool-cases (resizable_for v e)) [
        | inr bad ↦
            rw (here, y)
              (inl (
                (0, e, refl, flag ∙ bad),
                turn
                    ∙ ap
                        (λ b.
                          if b
                          then (resized_entries trace es >>= λ rs. some (resized_for v e ∷ rs))
                          else none)
                        bad,
              ))
        | inl sound ↦ elim (resized_entries-resized trace es) [
          | inl ((i, d, at, refused), none_left) ↦
              rw (here, y) (inl ((suc i, d, at, refused), turn ∙ rw (sound, none_left) refl))
          | inr (all, r) ↦ rw (here, y) (inr ((sound, all), turn ∙ rw (sound, r) refl))
        ]
      ]
]

ids-resized : (trace : Trace) (es : List Entry) → ids (map (resized trace) es) ≡ ids es
ids-resized trace [] = refl
ids-resized trace (e ∷ es) = ap (◌∷◌ e.id) (ids-resized trace es)

AllEntries-map :
    (P Q : Entry → Type 0) (es : List Entry)
    → ((e : Entry) → P e → Q e)
    → AllEntries P es
    → AllEntries Q es
AllEntries-map P Q [] f h = tt
AllEntries-map P Q (e ∷ es) f (h, hs) = (f e h, AllEntries-map P Q es f hs)

flip : (a b : Bool) → a ≡ not b → not a ≡ b
flip a true h = ap not h
flip a false h = ap not h

-- Resizing the masks of a content that holds entries with distinct ids, after a trace, panics where one of the
-- covered entries cannot be resized: its instruction is not supported, its value has a width that is not allowed, or its new
-- mask would be empty or too long. Else the covered entries are removed, with the total size kept, and in the
-- slots and bytes that this leaves, those of the resized entries are added behind the others that still
-- fit behind the ones added before: each has a mask of the bytes for all its hits, computed in 32 bits, with the old
-- bytes as far as they go and zeros behind them.
pub resize-Holds :
    (z : Sizes) (trace : Trace) (s : Content) (es : List Entry)
    → Distinct (ids es)
    → Holds z s es
    → (Refused trace (keep (λ e. elem e.id (covered trace)) es)
        × (resize_covered_entries z trace s ≡ none))
      ⊎ (AllEntries (λ e. resizable trace e ≡ true) (keep (λ e. elem e.id (covered trace)) es)
          × (left t : Content) × (remove_all z (ids (keep (λ e. elem e.id (covered trace)) es)) s
              ≡ some left)
          × Holds z left (keep (λ e. not (elem e.id (covered trace))) es)
          × (left.total_size ≡ s.total_size)
          × (resize_covered_entries z trace s ≡ some t)
          × Holds z t (
              keep (λ e. not (elem e.id (covered trace))) es
              ++ found_room z
                  (slots_left left)
                  (bytes_left z left)
                  (map (resized trace) (keep (λ e. elem e.id (covered trace)) es))))
unfolding resize_covered_entries
resize-Holds z trace s es d h = elim (resized_entries-resized trace es) [
  | inl (refused, n) ↦ inl (refused, rw (entries-Holds z s es h) (rw n refl))
  | inr (all, r) ↦
      let cov : Entry → Bool = λ e. elem e.id (covered trace) in
      let whitelist = ids (keep (λ e. not (cov e)) es) in
      let agree = ids-keep (λ e. not (cov e)) es d in
      let (left, p, q, u) = remove_all-Holds z whitelist [] es s (λ id n. refl) h in
      let taken : keep (λ e. not (elem e.id whitelist)) es ≡ keep cov es =
        keep_ext (λ e. not (elem e.id whitelist)) cov es
          (AllEntries-map (λ e. elem e.id whitelist ≡ not (cov e))
            (λ e. not (elem e.id whitelist) ≡ cov e) es
            (λ e k. flip (elem e.id whitelist) (cov e) k) agree) in
      let kept : keep (λ e. elem e.id whitelist) es ≡ keep (λ e. not (cov e)) es =
        keep_ext (λ e. elem e.id whitelist) (λ e. not (cov e)) es agree in
      let p' : remove_all z (ids (keep cov es)) s ≡ some left =
        ap (λ l. remove_all z (ids l) s) (sym taken) ∙ p in
      let p'' : remove_all z (ids (map (resized trace) (keep cov es))) s ≡ some left =
        ap (λ l. remove_all z l s) (ids-resized trace (keep cov es)) ∙ p' in
      let q' = subst (λ xs. Holds z left xs) kept q in
      let (t, w, x) =
        push_all-room z (map (resized trace) (keep cov es)) (keep (λ e. not (cov e)) es) left q' in
      inr (all, left, t, p', q', u, rw (entries-Holds z s es h) (rw r (rw p'' w)), x)
]
