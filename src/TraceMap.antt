-- ===== src/TraceMap.antt =====
-- generator/agent/src/tracing.rs: the map in which the agent counts how often each mutation site is reached. The ids that
-- the map is generic over are numbers; the shared memory behind it, the field `data`, is a list of entries.
pub mod Search
pub mod Counts
pub mod Recorded
pub mod Tests
use fuzztruction_net.Base.{
  ℕ, zero, suc, ◌+◌, ◌%◌, ◌^◌, Bool, true, false, not, Option, none, some, List, [], ◌∷◌,
  if◌then◌else◌, ◌==◌, leb, ltb, ◌>>=◌, map, ◌-◌, ◌/◌, length, get_elem?, set,
}
use fuzztruction_net.IntegerSet.{elem}

pub record TraceEntry : Type 0 where
  pub value : ℕ
  pub hits : ℕ
  pub order : Option ℕ

abbrev pub entry : ℕ → TraceEntry
entry value = record { value = value; hits = 0; order = none }

pub record TraceMap : Type 0 where
  pub entries : Option (List TraceEntry)
  pub allocated_slots : List ℕ
  pub total_hits : ℕ

abbrev pub new : TraceMap
new = record { entries = none; allocated_slots = []; total_hits = 0 }

pub alloc_slot : ℕ → TraceMap → TraceMap
alloc_slot id self =
    if elem id self.allocated_slots
    then self
    else record self { allocated_slots = id ∷ self.allocated_slots }

-- `sort`.
pub sorted_with : ℕ → List ℕ → List ℕ
sorted_with x [] = x ∷ []
sorted_with x (y ∷ ys) = if leb x y then x ∷ y ∷ ys else y ∷ sorted_with x ys

pub sort : List ℕ → List ℕ
unfolding sorted_with
sort [] = []
sort (x ∷ xs) = sorted_with x (sort xs)

-- Panics when the map was not reset since the last call.
pub finalize : TraceMap → Option TraceMap
unfolding sort
finalize self = elim self.allocated_slots [
  | [] ↦ some self
  | slot ∷ slots ↦ elim self.entries [
    | some entries ↦ none
    | none ↦
        some
          (record self { entries = some (map entry (sort (slot ∷ slots))); allocated_slots = [] })
  ]
]

-- `NonZeroU64::new`.
pub non_zero : ℕ → Option ℕ
non_zero n = if n == 0 then none else some n

pub hit : ℕ → TraceEntry → TraceEntry
unfolding non_zero
hit total_hits e = record e {
  hits = (e.hits + 1) % 2 ^ 64;
  order = elim e.order [ none ↦ non_zero total_hits | some n ↦ some n ];
}

-- `binary_search_by` on the values of the entries from `left` to before `right`; the fuel is used up by one in
-- each turn, which shortens the range.
pub search : ℕ → ℕ → List TraceEntry → ℕ → ℕ → Option ℕ
search zero id entries left right = none
search (suc fuel) id entries left right =
    let mid = left + (right - left) / 2 in
    if ltb left right
    then (elim (get_elem? entries mid) [
      | none ↦ none
      | some e ↦
          let left' = if ltb e.value id then suc mid else left in
          let right' = if ltb e.value id then right else mid in
          let rest = search fuel id entries left' right' in if e.value == id then some mid else rest
    ])
    else none

pub binary_search : ℕ → List TraceEntry → Option ℕ
unfolding search
binary_search id entries = search (suc (length entries)) id entries 0 (length entries)

-- Panics before `finalize`, and for an id without a slot.
pub report_hit : Bool → ℕ → TraceMap → Option TraceMap
unfolding binary_search hit
report_hit is_child id self = if not is_child then some self else do
  entries ← self.entries
  idx ← binary_search id entries
  e ← get_elem? entries idx
  let total_hits = (self.total_hits + 1) % 2 ^ 64
  some
      (record self { entries = some (set entries idx (hit total_hits e)); total_hits = total_hits })

pub reset_map : TraceMap → TraceMap
reset_map self = record { entries = none; allocated_slots = []; total_hits = 0 }

pub reset_hits : TraceMap → TraceMap
reset_hits self = record self {
  entries = elim self.entries [ none ↦ none | some es ↦ some (map (λ e. entry e.value) es) ];
}
