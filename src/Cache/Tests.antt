-- ===== src/Cache/Tests.antt =====
-- The mutation cache on a small memory: an entry takes 16 bytes and its mask.
use fuzztruction_net.Base.{
  ℕ, suc, ◌+◌, ◌↔◌, ◌<◌, ◌≡◌, ◌⊎◌, inl, refl, true, false, not, none, some, List, [], ◌∷◌, ◌++◌,
  arith, ◌==◌, get_elem?,
}
use fuzztruction_net.Cache.{Sizes, Content, push, remove, consolidate}
use fuzztruction_net.Cache.EntryData.{
  load, Entry, size, size_wo_overflow_padding, target_value_size_byte, padded, is_nop, alloc_size,
  padded_msk_len,
}
use fuzztruction_net.Cache.Allocation.{alloc_size-padded_msk_len}
use fuzztruction_net.Cache.Blocks.{Holds, total}
use fuzztruction_net.Cache.Push.{pushed, pushed-Holds, push-Holds, consolidate-Holds}
use fuzztruction_net.Cache.Remove.{remove-Holds}
use fuzztruction_net.Cache.Retain.{ids, keep, retain, retain-Holds, purge_nop_entries, purge-Holds}
use fuzztruction_net.Cache.Union.{union_and_replace, union-Holds}
use fuzztruction_net.Cache.Room.{slots_left, bytes_left, found_room}
use fuzztruction_net.IntegerSet.{elem}

abbrev pub sizes : Sizes
sizes = record { metadata = 16; content = 32; max_entries = 3 }

abbrev pub entry : ℕ → List ℕ → Entry
entry id msk = record {
  id = id;
  llvm_instruction = load;
  vma = 0;
  flags = 0;
  loc_type = 0;
  target_value_size_bits = 8;
  read_pos_bits = 0;
  msk = msk;
}

abbrev pub first : Entry
first = entry 7 (0 ∷ 5 ∷ [])

abbrev pub second : Entry
second = entry 9 (0 ∷ [])

abbrev third : Entry
third = entry 7 []

abbrev pub no_entries : Content
no_entries = record {
  total_size = 200;
  current_data_size = 0;
  next_free_slot = 0;
  pending_deletions = 0;
  invalidate = false;
  entry_descriptor_tbl = none ∷ none ∷ none ∷ [];
  memory = λ a. none;
}

no_entries-Holds : Holds sizes no_entries []
no_entries-Holds = (omega arith, tt, inl refl, omega arith, omega arith, omega arith, refl)

abbrev pub one_entry : Content
one_entry = pushed sizes first no_entries

one_entry-Holds : Holds sizes one_entry (first ∷ [])
unfolding size size_wo_overflow_padding target_value_size_byte padded
one_entry-Holds = pushed-Holds sizes first no_entries [] no_entries-Holds refl (omega arith)

abbrev pub two_entries : Content
two_entries = pushed sizes second one_entry

pub two_entries-Holds : Holds sizes two_entries (first ∷ second ∷ [])
unfolding size size_wo_overflow_padding target_value_size_byte padded
two_entries-Holds =
    pushed-Holds sizes second one_entry (first ∷ []) one_entry-Holds refl (omega arith)

abbrev other_entry : Content
other_entry = pushed sizes third no_entries

other_entry-Holds : Holds sizes other_entry (third ∷ [])
unfolding size size_wo_overflow_padding target_value_size_byte padded
other_entry-Holds = pushed-Holds sizes third no_entries [] no_entries-Holds refl (omega arith)

push-Holds_example :
    ((t : Content) × (push sizes second one_entry ≡ some (t, true))
      × Holds sizes t (first ∷ second ∷ [])
      × (t.invalidate ≡ true))
    ⊎ ((push sizes second one_entry ≡ some (one_entry, false))
        × ((200 < 32 + one_entry.current_data_size + size 16 second)
            ⊎ ((suc one_entry.next_free_slot ≡ 3)
                × (offset : ℕ) × (get_elem? one_entry.entry_descriptor_tbl one_entry.next_free_slot
                    ≡ some (some offset)))))
push-Holds_example = push-Holds sizes second one_entry (first ∷ []) one_entry-Holds

consolidate-Holds_example :
    (t : Content) × (consolidate sizes two_entries ≡ some t)
    × Holds sizes t (first ∷ second ∷ [])
    × (t.current_data_size ≡ total 16 (first ∷ second ∷ []))
    × (t.total_size ≡ 200)
consolidate-Holds_example =
    consolidate-Holds sizes two_entries (first ∷ second ∷ []) two_entries-Holds

remove-Holds_example :
    ((true ≡ true)
      × (t : Content) × (remove sizes 7 two_entries ≡ some t)
      × Holds sizes t (second ∷ [])
      × (t.total_size ≡ 200))
    ⊎ ((true ≡ false) × (remove sizes 7 two_entries ≡ none))
remove-Holds_example = remove-Holds sizes 7 two_entries (first ∷ second ∷ []) two_entries-Holds

retain-Holds_example :
    (t : Content) × (retain sizes (λ e. e.id == 9) two_entries ≡ some t)
    × Holds sizes t (second ∷ [])
    × (t.total_size ≡ 200)
retain-Holds_example =
    retain-Holds sizes (λ e. e.id == 9) two_entries (first ∷ second ∷ []) (refl, (refl, tt))
      two_entries-Holds

purge-Holds_example :
    (t : Content) × (purge_nop_entries sizes two_entries ≡ some t)
    × Holds sizes t (keep (λ e. not (is_nop e)) (first ∷ second ∷ []))
purge-Holds_example =
    purge-Holds sizes two_entries (first ∷ second ∷ []) (refl, (refl, tt)) two_entries-Holds

union-Holds_example :
    (kept t : Content) × (retain sizes (λ e. not (elem e.id (ids (third ∷ [])))) two_entries
      ≡ some kept)
    × Holds sizes kept (second ∷ [])
    × (kept.total_size ≡ 200)
    × (union_and_replace sizes other_entry two_entries ≡ some t)
    × Holds sizes t
        ((second ∷ []) ++ found_room sizes (slots_left kept) (bytes_left sizes kept) (third ∷ []))
union-Holds_example =
    union-Holds sizes two_entries other_entry (first ∷ second ∷ []) (third ∷ []) (refl, (refl, tt))
      two_entries-Holds other_entry-Holds

-- A mask of six bytes for a site of one byte.
alloc_size-padded_msk_len_example :
    (alloc_size 64 8 6 < 64 + padded_msk_len 6) ↔ ((0 < 6) × (1 < 7))
alloc_size-padded_msk_len_example = alloc_size-padded_msk_len 64 8 6
