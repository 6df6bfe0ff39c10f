-- ===== src/Worker/Sharing.antt =====
-- scheduler/src/fuzzer/worker_impl/common.rs: several workers, each with a local virgin map, and the global map
-- that they share. A schedule says which worker saw which coverage, in the order of their turns at
-- the lock of the global map.
use fuzztruction_net.Base.{
  ℕ, zero, suc, ◌<◌, ◌≡◌, refl, sym, ◌∙◌, Option, some, List, [], ◌∷◌, arith, length, get_elem?,
  set, length-set, ◌>>=◌,
}
use fuzztruction_net.Bitmap.{Bitmap, BitmapStatus, has_new_bit}
use fuzztruction_net.Bitmap.Chunks.{IsValid}
use fuzztruction_net.Bitmap.NewBits.{has_new_bit-IsValid, has_new_bit-size}
use fuzztruction_net.Worker.{check_virgin_maps}
use fuzztruction_net.Worker.Maps.{
  Within, Within-trans, has_new_bit-Within, check_virgin_maps-global,
}

-- The verdicts, the local maps and the global map; `none` is a panic.
unfoldable pub report :
    List (ℕ × Bitmap) → List Bitmap → Bitmap → Option (List BitmapStatus × List Bitmap × Bitmap)
unfolding check_virgin_maps
report [] locals global = some ([], locals, global)
report ((i, coverage) ∷ turns) locals global = do
  local ← get_elem? locals i
  (status, local', global') ← check_virgin_maps coverage local global
  (statuses, locals', last) ← report turns (set locals i local') global'
  some (status ∷ statuses, locals', last)

-- The same turns against one map.
unfoldable pub one_map : List (ℕ × Bitmap) → Bitmap → List BitmapStatus × Bitmap
one_map [] global = ([], global)
one_map ((i, coverage) ∷ turns) global =
    let (status, global') = has_new_bit coverage global in
    let (statuses, last) = one_map turns global' in (status ∷ statuses, last)

-- A local map that a worker may have: a bit is virgin there if it is virgin in the global map.
abbrev pub Local : Bitmap → Bitmap → Type 0
Local global l = IsValid l × (l.size ≡ global.size) × Within global.bytes l.bytes

abbrev pub Locals : Bitmap → List Bitmap → Type 0
Locals global [] = Unit {0}
Locals global (l ∷ ls) = Local global l × Locals global ls

-- The turns of `n` workers that see bitmaps of a size.
abbrev pub Turns : ℕ → ℕ → List (ℕ × Bitmap) → Type 0
Turns n size [] = Unit {0}
Turns n size ((i, coverage) ∷ turns) =
    (i < n) × IsValid coverage × (coverage.size ≡ size) × Turns n size turns

Locals-get :
    (global : Bitmap) (ls : List Bitmap) (i : ℕ)
    → Locals global ls
    → i < length ls
    → (l : Bitmap) × (get_elem? ls i ≡ some l) × Local global l
Locals-get global [] i h lt = elim lt [ ]
Locals-get global (l ∷ ls) zero h lt = (l, refl, h.0)
Locals-get global (l ∷ ls) (suc i) h lt = Locals-get global ls i h.1 (omega arith)

Locals-set :
    (global : Bitmap) (ls : List Bitmap) (i : ℕ) (l : Bitmap)
    → Locals global ls
    → Local global l
    → Locals global (set ls i l)
Locals-set global [] i l h k = tt
Locals-set global (x ∷ ls) zero l h k = (k, h.1)
Locals-set global (x ∷ ls) (suc i) l h k = (h.0, Locals-set global ls i l h.1 k)

-- The local maps stay local maps when the global map loses bits.
Locals-fewer :
    (g g' : Bitmap) (ls : List Bitmap)
    → IsValid g'
    → g'.size ≡ g.size
    → Within g'.bytes g.bytes
    → Locals g ls
    → Locals g' ls
Locals-fewer g g' [] v e w h = tt
Locals-fewer g g' (l ∷ ls) v e w h = (
  (h.0.0, h.0.1 ∙ sym e, Within-trans g'.bytes g.bytes l.bytes v.are_bytes w h.0.2),
  Locals-fewer g g' ls v e w h.1,
)

-- However many workers take turns, in whatever order, with local maps that have all virgin bits of the global map:
-- their verdicts and the global map at the end are those of one map that sees all runs, and the local
-- maps still have all its virgin bits.
pub report-one_map :
    (turns : List (ℕ × Bitmap)) (locals : List Bitmap) (global : Bitmap)
    → IsValid global
    → Locals global locals
    → Turns (length locals) global.size turns
    → (ls : List Bitmap) × (report turns locals global
        ≡ some ((one_map turns global).0, ls, (one_map turns global).1))
      × Locals (one_map turns global).1 ls
unfolding report one_map
report-one_map [] locals global v h t = (locals, refl, h)
report-one_map ((i, coverage) ∷ turns) locals global v h t =
    let (l, found, local) = Locals-get global locals i h t.0 in
    let (l', looked, within, valid, sized) =
      check_virgin_maps-global coverage l global t.1 local.0 v (t.2 ∙ sym (local.1)) t.2
        (local.2) in
    let global' : Bitmap = (has_new_bit coverage global).1 in
    let v' : IsValid global' = has_new_bit-IsValid coverage global t.1 v t.2 in
    let e' : global'.size ≡ global.size = has_new_bit-size coverage global t.1 v t.2 in
    let h' : Locals global' (set locals i l') =
      Locals-set global' locals i l'
        (Locals-fewer global global' locals v' e' (has_new_bit-Within coverage global t.1 v t.2) h)
        (valid, sized ∙ local.1 ∙ sym e', within) in
    let n : length (set locals i l') ≡ length locals = length-set locals i l' in
    let (ls, rest, inv) = report-one_map turns (set locals i l') global' v' h' (rw (n, e') (t.3)) in
    (ls, rw (found, report) (rw (looked) (rw rest refl)), inv)
