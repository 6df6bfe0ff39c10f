-- ===== src/Cache/Union.antt =====
-- fuzztruction_shared/src/mutation_cache.rs: the union of two caches.
use fuzztruction_net.Base.{◌≡◌, not, Option, some, List, ◌++◌, ◌>>=◌}
use fuzztruction_net.IntegerSet.{elem}
use fuzztruction_net.IntegerSet.Subsets.{Distinct}
use fuzztruction_net.Cache.{Sizes, Content, entries, push_all}
use fuzztruction_net.Cache.EntryData.{Entry}
use fuzztruction_net.Cache.Blocks.{Holds}
use fuzztruction_net.Cache.Push.{entries-Holds}
use fuzztruction_net.Cache.Retain.{ids, keep, retain, retain-Holds}
use fuzztruction_net.Cache.Room.{slots_left, bytes_left, found_room, push_all-room}

-- The entries of the other cache replace those with the same ids.
pub union_and_replace : Sizes → Content → Content → Option Content
union_and_replace z other self = do
  es ← entries other
  self' ← retain z (λ e. not (elem e.id (ids es))) self
  push_all z es self'

-- The union of a content that holds entries with distinct ids and another content holds the entries of the first whose
-- ids the other does not have, and behind them those entries of the other that find room, in their order: the entries
-- with ids of the other are removed first, with the total size kept, and in the slots and bytes that this leaves,
-- each entry of the other is added that still fits behind the ones added before it.
pub union-Holds :
    (z : Sizes) (s other : Content) (es new : List Entry)
    → Distinct (ids es)
    → Holds z s es
    → Holds z other new
    → (kept t : Content) × (retain z (λ e. not (elem e.id (ids new))) s ≡ some kept)
      × Holds z kept (keep (λ e. not (elem e.id (ids new))) es)
      × (kept.total_size ≡ s.total_size)
      × (union_and_replace z other s ≡ some t)
      × Holds z t (
          keep (λ e. not (elem e.id (ids new))) es
          ++ found_room z (slots_left kept) (bytes_left z kept) new)
unfolding union_and_replace
union-Holds z s other es new d h o =
    let (kept, p, q, u) = retain-Holds z (λ e. not (elem e.id (ids new))) s es d h in
    let (t, r, w) = push_all-room z new (keep (λ e. not (elem e.id (ids new))) es) kept q in
    (kept, t, p, q, u, rw (entries-Holds z other new o) (rw p r), w)
