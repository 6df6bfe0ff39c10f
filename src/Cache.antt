-- ===== src/Cache.antt =====
-- fuzztruction_shared/src/mutation_cache_content.rs: the mutation cache, entries of different sizes
-- copied one behind another into a memory region that the processes share, and a table of their
-- offsets. The memory maps an offset from `data` to the entry that was copied there and the place of
-- the byte in it. A panic, and a descriptor that points to no entry, is `none`.
pub mod EntryData
pub mod Flags
pub mod Allocation
pub mod Blocks
pub mod Push
pub mod Room
pub mod Remove
pub mod Retain
pub mod Union
pub mod Tests
use fuzztruction_net.Base.{
  ℕ, zero, suc, ◌+◌, ◌-◌, ◌^◌, min, Bool, true, false, ◌&&◌, Option, none, some, List, [], ◌∷◌, ltb,
  leb, ◌==◌, if◌then◌else◌, length, get_elem?, set, replicate, ◌>>=◌,
}
use EntryData.{Entry, size}

-- The sizes that the compiler and the constants of the program fix: of the metadata of an entry, of
-- `MutationCacheContent`, and of its descriptor table.
pub record Sizes : Type 0 where
  pub metadata : ℕ
  pub content : ℕ
  pub max_entries : ℕ

abbrev pub pending_deletions_limit : ℕ
pending_deletions_limit = 500

abbrev pub Memory : Type 0
Memory = ℕ → Option (Entry × ℕ)

pub record Content : Type 0 where
  pub total_size : ℕ
  pub current_data_size : ℕ
  pub next_free_slot : ℕ
  pub pending_deletions : ℕ
  pub invalidate : Bool
  pub entry_descriptor_tbl : List (Option ℕ)
  pub memory : Memory

-- `init`, in memory that holds any content.
pub init : Sizes → ℕ → Content → Option Content
init z size self =
    if leb z.content size
    then some (record self {
      current_data_size = 0;
      total_size = size;
      next_free_slot = 0;
      entry_descriptor_tbl = replicate z.max_entries none;
    })
    else none

pub update : ℕ → Content → Content
update size self = record self { total_size = size }

-- `usize` subtraction wraps around.
pub sub_usize : ℕ → ℕ → ℕ
sub_usize a b = if leb b a then a - b else 2 ^ 64 + a - b

pub space_left : Sizes → Content → ℕ
unfolding sub_usize
space_left z self = sub_usize (sub_usize self.total_size z.content) self.current_data_size

pub total_used_bytes : Sizes → Content → ℕ
total_used_bytes z self = z.content + self.current_data_size

pub clear : Sizes → Content → Content
clear z self = record self {
  invalidate = true;
  current_data_size = 0;
  next_free_slot = 0;
  entry_descriptor_tbl = replicate z.max_entries none;
}

-- `entry_ref`: the entry whose first byte stands at the offset.
pub entry_at : Option (Entry × ℕ) → Option Entry
entry_at none = none
entry_at (some (e, zero)) = some e
entry_at (some (e, suc k)) = none

pub entry_ref : Memory → ℕ → Option Entry
unfolding entry_at
entry_ref memory offset = entry_at (memory offset)

-- The table in order, its free slots left out.
pub entries_of : Memory → List (Option ℕ) → Option (List Entry)
unfolding entry_ref
entries_of memory [] = some []
entries_of memory (none ∷ tbl) = entries_of memory tbl
entries_of memory (some offset ∷ tbl) = do
  e ← entry_ref memory offset
  es ← entries_of memory tbl
  some (e ∷ es)

pub entries : Content → Option (List Entry)
unfolding entries_of
entries self = entries_of self.memory self.entry_descriptor_tbl

-- `ptr::copy_nonoverlapping` of an entry of `n` bytes.
pub copy_entry : Entry → ℕ → ℕ → Memory → Memory
copy_entry e n dst memory a = if leb dst a && ltb a (dst + n) then some (e, a - dst) else memory a

-- The flag says whether the entry was added. The slot to use stays at the last one.
pub push : Sizes → Entry → Content → Option (Content × Bool)
unfolding space_left copy_entry
push z entry self =
    if ltb self.next_free_slot (length self.entry_descriptor_tbl)
    then (if ltb (space_left z self) (size z.metadata entry)
        then some (self, false)
        else elim (get_elem? self.entry_descriptor_tbl self.next_free_slot) [
          | none ↦ none
          | some (some offset) ↦ some (self, false)
          | some none ↦ some (
            record self {
              entry_descriptor_tbl =
                  set self.entry_descriptor_tbl self.next_free_slot (some self.current_data_size);
              next_free_slot = min (suc self.next_free_slot) (length self.entry_descriptor_tbl - 1);
              memory = copy_entry entry (size z.metadata entry) self.current_data_size self.memory;
              current_data_size = self.current_data_size + size z.metadata entry;
              invalidate = true;
            },
            true,
          )
        ])
    else none

-- `entries.iter().for_each(|e| { self.push(e); })`
pub push_all : Sizes → List Entry → Content → Option Content
unfolding push
push_all z [] self = some self
push_all z (e ∷ es) self = do (self', added) ← push z e self; push_all z es self'

-- The copies of the entries are values here.
pub consolidate : Sizes → Content → Option Content
unfolding entries clear push_all
consolidate z self = do es ← entries self; push_all z es (clear z self)

-- The first slot, from slot `idx` on, whose entry has the id; the outer `none` is a descriptor that
-- points to no entry.
pub find : Memory → ℕ → ℕ → List (Option ℕ) → Option (Option ℕ)
unfolding entry_ref
find memory id idx [] = some none
find memory id idx (none ∷ tbl) = find memory id (suc idx) tbl
find memory id idx (some offset ∷ tbl) =
    let rest = find memory id (suc idx) tbl in
    entry_ref memory offset >>= λ e. if e.id == id then some (some idx) else rest

-- With the slot of the entry known; an entry that is not there is unreachable.
pub remove_slot : Sizes → Option ℕ → Content → Option Content
unfolding consolidate
remove_slot z none self = none
remove_slot z (some idx) self =
    let freed : Content = record self {
      invalidate = true;
      entry_descriptor_tbl = set self.entry_descriptor_tbl idx none;
      pending_deletions = suc self.pending_deletions;
    } in
    let purged = consolidate z (record freed { pending_deletions = 0 }) in
    if ltb pending_deletions_limit freed.pending_deletions then purged else some freed

pub remove : Sizes → ℕ → Content → Option Content
unfolding find remove_slot
remove z id self = do
  slot ← find self.memory id 0 self.entry_descriptor_tbl
  remove_slot z slot self

pub clear_invalidated : Content → Content
clear_invalidated self = record self { invalidate = false }
