-- ===== src/Trace.antt =====
-- scheduler/src/trace.rs and scheduler/src/mutation_cache_ops.rs: the sites that a run of the source
-- covers, and the operations on the mutation cache that follow a trace. A `HashMap` is a list of keys
-- and values with each key once.
pub mod Hits
pub mod Resize
pub mod Tests
use fuzztruction_net.Base.{
  ℕ, ◌+◌, ◌*◌, ◌/◌, ◌%◌, ◌^◌, Bool, true, false, not, Option, none, some, List, [], ◌∷◌, ◌++◌, map,
  ltb, ◌==◌, if◌then◌else◌, length, ◌>>=◌,
}
use fuzztruction_net.IntegerSet.{elem}
use fuzztruction_net.Cache.{Sizes, Content, entries, push_all}
use fuzztruction_net.Cache.EntryData.{chunk_size_bytes, Entry, clone_with_new_msk}
use fuzztruction_net.Cache.Retain.{ids, retain, remove_all}

-- The statistics of one site.
pub record TracePointStat : Type 0 where
  pub patch_point_id : ℕ
  pub cnt : ℕ
  pub execution_index : Option ℕ

pub record Trace : Type 0 where
  pub exec_cnt : List (ℕ × ℕ)
  pub exec_order : List (ℕ × ℕ)

abbrev pub trace_exec_cnt_limit : ℕ
trace_exec_cnt_limit = 16384

pub map_insert : ℕ → ℕ → List (ℕ × ℕ) → List (ℕ × ℕ)
map_insert k v [] = (k, v) ∷ []
map_insert k v ((k', w) ∷ m) =
    let rest = map_insert k v m in if k' == k then (k, v) ∷ m else (k', w) ∷ rest

pub map_get : ℕ → List (ℕ × ℕ) → Option ℕ
map_get k [] = none
map_get k ((k', v) ∷ m) = let rest = map_get k m in if k' == k then some v else rest

-- One turn of the loop; the two early returns skip the site.
pub record_stat : TracePointStat → Trace → Trace
unfolding map_insert
record_stat e self = if ltb trace_exec_cnt_limit e.cnt then self else elim e.execution_index [
  | none ↦ self
  | some idx ↦ record {
    exec_cnt = map_insert e.patch_point_id e.cnt self.exec_cnt;
    exec_order = map_insert e.patch_point_id idx self.exec_order;
  }
]

pub record_stats : List TracePointStat → Trace → Trace
unfolding record_stat
record_stats [] self = self
record_stats (e ∷ es) self = record_stats es (record_stat e self)

pub from_trace_point_stats : List TracePointStat → Trace
unfolding record_stats
from_trace_point_stats msgs = record_stats msgs (record { exec_cnt = []; exec_order = [] })

pub covered : Trace → List ℕ
covered self = map (λ p. p.0) self.exec_cnt

pub is_covered : Trace → ℕ → Bool
unfolding covered
is_covered self pp = elem pp (covered self)

pub exec_order_of : Trace → ℕ → Option ℕ
unfolding map_get
exec_order_of self pp = map_get pp self.exec_order

pub trace_len : Trace → ℕ
trace_len self = length self.exec_cnt

-- The first loop of `resize_covered_entries`: the covered entries with masks for all their hits, in `u32`;
-- one turn of it, with the hits of the entry and what the other turns give.
pub resized_with : Option ℕ → Entry → Option (List Entry) → Option (List Entry)
resized_with none e rest = rest
resized_with (some v) e rest = do
  chunk ← chunk_size_bytes e
  r ← clone_with_new_msk (((v % 2 ^ 32) * chunk) % 2 ^ 32) e
  rs ← rest
  some (r ∷ rs)

pub resized_entries : Trace → List Entry → Option (List Entry)
unfolding resized_with map_get
resized_entries trace [] = some []
resized_entries trace (e ∷ es) =
    resized_with (map_get e.id trace.exec_cnt) e (resized_entries trace es)

pub resize_covered_entries : Sizes → Trace → Content → Option Content
unfolding resized_entries
resize_covered_entries z trace self = do
  es ← entries self
  resized ← resized_entries trace es
  self' ← remove_all z (ids resized) self
  push_all z resized self'

pub remove_uncovered : Sizes → Trace → Content → Option Content
unfolding covered
remove_uncovered z trace self = retain z (λ e. elem e.id (covered trace)) self
