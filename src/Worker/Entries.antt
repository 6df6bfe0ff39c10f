-- ===== src/Worker/Entries.antt =====
-- scheduler/src/fuzzer/worker_impl/phases/run_common.rs: the queue entry that a finding makes, and what it does
-- to the virgin maps.
use Prim.Native.Nat.{bit_and}
use fuzztruction_net.Base.{
  ℕ, suc, ◌<◌, ◌≡◌, ◌⊎◌, inl, inr, refl, ap, sym, ◌∙◌, Bool, true, false, Option, none, some, List,
  [], ◌∷◌, arith,
}
use fuzztruction_net.Bits.{not_u8}
use fuzztruction_net.Bits.Laws.{
  bit_at-lt, bit_at-zero, bit_at-bit_and, bit_at-not_u8, bit_at_ext, bit_and-le,
}
use fuzztruction_net.Bits.Words.{Bytes}
use fuzztruction_net.Bitmap.{
  Bitmap, BitmapStatus, no_change, new_hit, new_edge, has_new_bit, not_map,
}
use fuzztruction_net.Bitmap.Chunks.{IsValid}
use fuzztruction_net.Bitmap.Operators.{IsMap}
use fuzztruction_net.Bitmap.Fresh.{not_map-size, not_map-IsValid, clone_with_pattern-IsMap}
use fuzztruction_net.Bitmap.Verdicts.{any_pair, is_hit, spent}
use fuzztruction_net.Bitmap.NewBits.{has_new_bit-bytes, has_new_bit-IsValid, has_new_bit-size}
use fuzztruction_net.Queue.{is_favoured}
use fuzztruction_net.Queue.Order.{is_favoured-mark_favoured_once}
use fuzztruction_net.Queue as Queue
use fuzztruction_net.Queue.Entry.{QueueEntry, Origin}
use fuzztruction_net.Calibration.{
  Result, ok, err, panicked, calibration_error, exec_error, unexpected, Env, Cycle,
  common_calibrate,
}
use fuzztruction_net.Calibration.Cycles.{
  AllPass, Sized, Descends, start, all_cycled-IsValid, timeout_of, common_calibrate-made, ok_eq,
}
use fuzztruction_net.Worker.{
  FuzzingWorker, mark_new, queue_entry, calibration_result, create_new_queue_entry,
}
use fuzztruction_net.Worker.Maps.{Within, bit_within, has_new_bit-idle}
use fuzztruction_net.Worker.Sharing.{Local}

-- What is not in a map that has all bits of another is not in the other.
no_bits_left :
    (c l g : ℕ) → c < 256 → l < 256 → bit_and g l ≡ g → bit_and (bit_and c (not_u8 l)) g ≡ 0
no_bits_left c l g h k w =
    bit_at_ext 8 (bit_and (bit_and c (not_u8 l)) g) 0
      (omega (
        arith,
        bit_and-le 8 (bit_and c (not_u8 l)) g (omega (arith, bit_and-le 8 c (not_u8 l) h)),
        bit_and-le 8 c (not_u8 l) h,
      ))
      (omega arith)
      λ i lt. rw (bit_at-bit_and i (bit_and c (not_u8 l)) g) (
        rw (bit_at-bit_and i c (not_u8 l)) (
          omega (
            arith,
            bit_at-not_u8 i l lt k,
            bit_at-zero i,
            bit_within g l i w,
            bit_at-lt g i,
            bit_at-lt l i,
          )))

no_hit-left :
    (cs ls gs : List ℕ)
    → Bytes cs
    → Bytes ls
    → Within gs ls
    → any_pair is_hit (spent cs ls) gs ≡ false
no_hit-left [] ls gs p q w = refl
no_hit-left (c ∷ cs) [] gs p q w = refl
no_hit-left (c ∷ cs) (l ∷ ls) [] p q w = refl
no_hit-left (c ∷ cs) (l ∷ ls) (g ∷ gs) p q w =
    ground (arith, no_bits_left c l g p.0 q.0 w.0, no_hit-left cs ls gs p.1 q.1 w.1)

-- Clearing the local map's other bits from the shared map clears nothing.
clear_nothing :
    (covered local shared : Bitmap)
    → IsValid covered
    → Local shared local
    → IsValid shared
    → covered.size ≡ shared.size
    → (has_new_bit (has_new_bit local covered).1 shared).1 ≡ shared
clear_nothing covered local shared v (w, e, within) x f =
    let same : local.size ≡ covered.size = e ∙ sym f in
    let cleared : Bitmap = (has_new_bit local covered).1 in
    let bytes : cleared.bytes ≡ spent covered.bytes local.bytes =
      ap (λ b. b.bytes) ((has_new_bit-bytes local covered w v same).1) in
    ap (λ r. r.1)
      (has_new_bit-idle cleared shared (has_new_bit-IsValid local covered w v same) x
        (has_new_bit-size local covered w v same ∙ f)
        (rw bytes
          (no_hit-left covered.bytes local.bytes shared.bytes v.are_bytes w.are_bytes within)))

-- The state after an attempt to make an entry: as it was, or with one entry more, a child of the entry that is
-- fuzzed, which every cycle of the calibration confirmed, and which is favoured if it covers a new edge. The
-- virgin maps are as they were.
abbrev pub Queued :
    Env
    → BitmapStatus
    → Bool
    → List Cycle
    → FuzzingWorker
    → FuzzingWorker
    → Option QueueEntry
    → Type 0
Queued env status is_crash cycles self self' entry =
    ((entry ≡ none) × (self' ≡ self))
    ⊎ ((qe : QueueEntry) × (entry ≡ some qe)
        × (self' ≡ record self { queue = Queue.push qe self.queue; next_id = suc self.next_id })
        × (qe.id ≡ self.next_id)
        × (qe.is_crash ≡ is_crash)
        × Descends (some self.entry) qe
        × AllPass env is_crash (timeout_of env (env.scaled self.entry.avg_exec_duration_raw)) cycles
        × (status ≡ new_edge → is_favoured qe.stats ≡ true))

mark_new_fields :
    (status : BitmapStatus) (qe : QueueEntry)
    → ((mark_new status qe).id ≡ qe.id)
      × ((mark_new status qe).is_crash ≡ qe.is_crash)
      × ((mark_new status qe).parent_id ≡ qe.parent_id)
      × ((mark_new status qe).generation ≡ qe.generation)
      × (status ≡ new_edge → is_favoured (mark_new status qe).stats ≡ true)
unfolding mark_new
mark_new_fields new_edge qe = (refl, refl, refl, refl, λ h. is_favoured-mark_favoured_once qe.stats)
mark_new_fields new_hit qe = (refl, refl, refl, refl, λ h. cc)
mark_new_fields no_change qe = (refl, refl, refl, refl, λ h. cc)

module _ (env : Env) (status : BitmapStatus) (is_crash : Bool) (coverage : Bitmap)
    (cycles : List Cycle) (self : FuzzingWorker) (m : IsMap coverage)
    (sized : Sized coverage.size cycles) (local : Local self.shared_virgin_map self.virgin_map)
    (valid : IsValid self.shared_virgin_map)
    (same : coverage.size ≡ self.shared_virgin_map.size) where
  abbrev calibrated : Origin → Bitmap → Result (QueueEntry × Bitmap)
  calibrated o virgin =
      common_calibrate env (env.scaled self.entry.avg_exec_duration_raw) is_crash (some self.entry)
        o self.next_id cycles virgin

  -- By the calibration's result.
  result_queued :
      (o : Origin) (virgin : Bitmap)
      → IsValid virgin
      → virgin.size ≡ coverage.size
      → (r : Result (QueueEntry × Bitmap)) → calibrated o virgin ≡ r
      → (self' : FuzzingWorker) (entry : Option QueueEntry)
      → calibration_result status r self ≡ ok (self', entry)
      → Queued env status is_crash cycles self self' entry
  unfolding calibration_result queue_entry
  result_queued o virgin v e (ok (qe, left)) done self' entry h =
      let (passed, i, k, (p, g), u, l) =
        common_calibrate-made env _ is_crash (some self.entry) o self.next_id cycles virgin qe left
          done in
      let (v', e') = all_cycled-IsValid cycles (start virgin) (rw e sized) v in
      let covered_valid : IsValid (not_map left) = not_map-IsValid left (rw l v') in
      let covered_size : (not_map left).size ≡ self.shared_virgin_map.size =
        not_map-size left ∙ (rw l e') ∙ e ∙ same in
      let kept : (has_new_bit (has_new_bit self.virgin_map (not_map left)).1
            self.shared_virgin_map).1
          ≡ self.shared_virgin_map =
        clear_nothing (not_map left) self.virgin_map self.shared_virgin_map covered_valid local
          valid covered_size in
      let (mi, mk, mp, mg, fav) = mark_new_fields status qe in
      let result : (self', entry) ≡ queue_entry status qe left self = ok_eq h in
      let state : self' ≡ record self {
        queue = Queue.push (mark_new status qe) self.queue;
        next_id = suc self.next_id;
      } =
        ap (λ r. r.0) result
        ∙ ap
            (λ z. record self {
              queue = Queue.push (mark_new status qe) self.queue;
              next_id = suc self.next_id;
              shared_virgin_map = z;
            })
            kept in
      inr (
        mark_new status qe,
        ap (λ r. r.1) result,
        state,
        mi ∙ i,
        mk ∙ k,
        (mp ∙ p, mg ∙ g),
        passed,
        fav,
      )
  result_queued o virgin v e (err (calibration_error x)) done self' entry h = inl (cc, cc)
  result_queued o virgin v e (err (exec_error x)) done self' entry h = cc
  result_queued o virgin v e (err unexpected) done self' entry h = cc
  result_queued o virgin v e panicked done self' entry h = cc

  -- Making an entry, where every virgin bit of the shared map is one of the local map, queues at most one entry, a
  -- child of the entry that is fuzzed that every calibration cycle confirmed and that is favoured if it covers a new
  -- edge, and leaves all virgin maps as they were: what the calibration covers is not cleared.
  pub create_new_queue_entry-Queued :
      (self' : FuzzingWorker) (entry : Option QueueEntry)
      → create_new_queue_entry env status is_crash coverage cycles self ≡ ok (self', entry)
      → Queued env status is_crash cycles self self' entry
  unfolding create_new_queue_entry
  create_new_queue_entry-Queued self' entry h =
      let (virgin, made, v, e) = clone_with_pattern-IsMap coverage 255 (omega arith) m in
      result_queued _ virgin v e _ refl self' entry (rw made at h)
