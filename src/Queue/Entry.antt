-- ===== src/Queue/Entry.antt =====
-- scheduler/src/fuzzer/queue.rs: a queue entry. Its input, finder, packet capture and creation time are
-- left out: the modelled operations do not read them. The mutations are the ids of the entries of the
-- cache that was saved.
use fuzztruction_net.Base.{
  ℕ, suc, ◌≡◌, Bool, false, Option, none, some, List, [], ◌>>=◌, arith, Option-cases, inl, inr,
}
use fuzztruction_net.Bitmap.{Bitmap, minimize}
use fuzztruction_net.Mutators.{MutatorType}
use fuzztruction_net.Queue.{FuzzingPhase, QueueEntryStats}

pub record QueueEntry : Type 0 where
  pub id : ℕ
  pub parent_id : Option ℕ
  pub phase : Option FuzzingPhase
  pub mutator : Option MutatorType
  pub patch_point : Option ℕ
  pub mutations : Option (List ℕ)
  pub bitmap_hash32 : ℕ
  pub covered_edges : Bitmap
  pub avg_exec_duration_raw : ℕ
  pub stats : QueueEntryStats
  pub sink_unstable : Bool
  pub generation : ℕ
  pub is_crash : Bool

abbrev pub new_stats : QueueEntryStats
new_stats = record {
  trace = none;
  tracing_in_progress = false;
  blacklisted = false;
  phases_done = [];
  discovery_pending = none;
  combine_done = none;
  mutators_done = [];
  favoured_weight = none;
}

-- Where an entry comes from.
pub record Origin : Type 0 where
  pub phase : Option FuzzingPhase
  pub mutator : Option MutatorType
  pub patch_point : Option ℕ
  pub mutations : Option (List ℕ)

-- The entry with the next id; `next_id` is the counter that the workers share.
unfoldable pub new : ℕ → Origin → ℕ → ℕ → Bool → Bitmap → Bool → Option QueueEntry
new next_id o bitmap_hash32 duration sink_unstable bitmap is_crash = do
  covered_edges ← minimize bitmap
  some (record {
    id = next_id;
    parent_id = none;
    phase = o.phase;
    mutator = o.mutator;
    patch_point = o.patch_point;
    mutations = o.mutations;
    bitmap_hash32 = bitmap_hash32;
    covered_edges = covered_edges;
    avg_exec_duration_raw = duration;
    stats = new_stats;
    sink_unstable = sink_unstable;
    generation = 0;
    is_crash = is_crash;
  })

unfoldable pub set_parent : QueueEntry → QueueEntry → QueueEntry
set_parent parent self = record self {
  parent_id = some parent.id;
  generation = suc parent.generation;
}

-- What a new entry records.
pub new_fields :
    (next_id : ℕ) (o : Origin) (bitmap_hash32 duration : ℕ) (sink_unstable : Bool) (bitmap : Bitmap)
    (is_crash : Bool) (qe : QueueEntry)
    → new next_id o bitmap_hash32 duration sink_unstable bitmap is_crash ≡ some qe
    → (qe.id ≡ next_id)
      × (qe.parent_id ≡ none)
      × (qe.generation ≡ 0)
      × (qe.is_crash ≡ is_crash)
      × (qe.sink_unstable ≡ sink_unstable)
      × (minimize bitmap ≡ some qe.covered_edges)
unfolding new
new_fields next_id o hash duration unstable bitmap is_crash qe h =
    elim (Option-cases (minimize bitmap)) [
      | inl bad ↦ absurd (nothing (rw bad at h))
      | inr (m, good) ↦ rw good (made m (rw good at h))
    ]
  where
    nothing : ◌≡◌ {A = Option QueueEntry} none (some qe) → ⊥
    nothing e = cc

    made :
        (m : Bitmap)
        → some (record {
          id = next_id;
          parent_id = none;
          phase = o.phase;
          mutator = o.mutator;
          patch_point = o.patch_point;
          mutations = o.mutations;
          bitmap_hash32 = hash;
          covered_edges = m;
          avg_exec_duration_raw = duration;
          stats = new_stats;
          sink_unstable = unstable;
          generation = 0;
          is_crash = is_crash;
        })
          ≡ some qe
        → (qe.id ≡ next_id)
          × (qe.parent_id ≡ none)
          × (qe.generation ≡ 0)
          × (qe.is_crash ≡ is_crash)
          × (qe.sink_unstable ≡ unstable)
          × (some m ≡ some qe.covered_edges)
    made m e = ground arith
