-- ===== src/Trace/Tests.antt =====
-- A trace of two sites, and a cache with two entries.
use fuzztruction_net.Base.{ℕ, ◌≡◌, ◌⊎◌, refl, true, Option, none, some, List, [], ◌∷◌, ◌++◌, map}
use fuzztruction_net.Cache.{Content}
use fuzztruction_net.Cache.Blocks.{Holds}
use fuzztruction_net.Cache.Retain.{ids, remove_all, AllEntries}
use fuzztruction_net.Cache.Room.{slots_left, bytes_left, found_room}
use fuzztruction_net.Cache.Tests.{sizes, first, second, two_entries, two_entries-Holds}
use fuzztruction_net.Trace.{
  TracePointStat, Trace, map_get, from_trace_point_stats, exec_order_of, is_covered, covered,
  resize_covered_entries,
}
use fuzztruction_net.Trace.Hits.{trace-last_counted}
use fuzztruction_net.Trace.Resize.{Refused, resizable, resized, resize-Holds}

abbrev stat : ℕ → ℕ → Option ℕ → TracePointStat
stat id n idx = record { patch_point_id = id; cnt = n; execution_index = idx }

abbrev stats : List TracePointStat
stats = stat 9 2 (some 1) ∷ stat 7 20000 (some 2) ∷ stat 9 3 (some 4) ∷ stat 5 1 none ∷ []

trace-last_counted_example :
    (map_get 9 (from_trace_point_stats stats).exec_cnt ≡ some 3)
    × (exec_order_of (from_trace_point_stats stats) 9 ≡ some 4)
    × (is_covered (from_trace_point_stats stats) 9 ≡ true)
trace-last_counted_example = trace-last_counted stats 9

abbrev trace : Trace
trace = record { exec_cnt = (9, 3) ∷ []; exec_order = (9, 4) ∷ [] }

resize-Holds_example :
    (Refused trace (second ∷ []) × (resize_covered_entries sizes trace two_entries ≡ none))
    ⊎ (AllEntries (λ e. resizable trace e ≡ true) (second ∷ [])
        × (left t : Content) × (remove_all sizes (ids (second ∷ [])) two_entries ≡ some left)
        × Holds sizes left (first ∷ [])
        × (left.total_size ≡ 200)
        × (resize_covered_entries sizes trace two_entries ≡ some t)
        × Holds sizes t (
            (first ∷ [])
            ++ found_room sizes
                (slots_left left)
                (bytes_left sizes left)
                (map (resized trace) (second ∷ []))))
unfolding covered
resize-Holds_example =
    resize-Holds sizes trace two_entries (first ∷ second ∷ []) (refl, (refl, tt)) two_entries-Holds

-- Three hits of a site of one byte.
three_bytes : map (resized trace) (second ∷ []) ≡ record second { msk = 0 ∷ 0 ∷ 0 ∷ [] } ∷ []
unfolding map_get
three_bytes = refl
