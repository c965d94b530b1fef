-- ===== src/Tests/Media.antt =====
-- The roll of Tests.Data in the operations of src/media.rs and the bookings of src/worker.rs.
use mathlib.Core.Bool.{false≢true}
use zebra_tamer.Prelude.{eq_iff, ◌+◌, ◌≤◌, ◌≡◌, refl, ◌≢◌, [], ◌∷◌, ◌++◌, arith}
use zebra_tamer.Prelude.Int.{pos}
use zebra_tamer.Prelude.Result.{ok, err, message}
use zebra_tamer.Store.Files.{holds, fine, refused, whole}
use zebra_tamer.Media.Validate.{validate}
use zebra_tamer.Media.Accounting.{adjusted, adjustment_event}
use zebra_tamer.Media.Operations.{adjust, edit, media_revision, fresh_state}
use zebra_tamer.Media.Conservation.{job, loss, adjustment, move_all, roll_conserved}
use zebra_tamer.Media.Ledger.{adjust-repeats_sequence}
use zebra_tamer.Media.Errors.{edit-stale}
use zebra_tamer.Tests.Data.{digest, labels, roll, correction, store_with}

roll_conserved_example :
    let m = move_all 20 (job 4 ∷ loss 9 ∷ adjustment (pos 5) ∷ []) (fresh_state 5 labels) in
    (m.remaining_labels + m.consumed_labels_total ≡ 10 + 5 + m.accounting_deficit_labels)
    × (m.consumed_labels_total ≡ 13)
    × (m.accounting_deficit_labels ≤ 13)
roll_conserved_example =
    roll_conserved 5 20 labels (job 4 ∷ loss 9 ∷ adjustment (pos 5) ∷ []) (omega arith)
      (omega arith)

adjust-repeats_sequence_example :
    let s = store_with (fine ∷ refused ∷ fine ∷ fine ∷ []) in
    let first = adjustment_event 20 (correction (pos 3)) roll (adjusted 20 (pos 3) roll) in
    let second = adjustment_event 20 (correction (pos 4)) roll (adjusted 20 (pos 4) roll) in
    let s' = (adjust 20 "p1" (correction (pos 4)) (adjust 20 "p1" (correction (pos 3)) s).1).1 in
    ((s'.printers "p1").ledger.lines ≡ ([] ++ (whole first ∷ [])) ++ (whole second ∷ []))
    × ((s'.printers "p1").media ≡ holds (adjusted 20 (pos 4) roll))
    × (first.sequence ≡ second.sequence)
    × (first.before ≡ second.before)
adjust-repeats_sequence_example =
    adjust-repeats_sequence 20 "p1" (correction (pos 3)) (correction (pos 4))
      (store_with (fine ∷ refused ∷ fine ∷ fine ∷ [])) roll [] refl refl refl

labels-validate : validate labels ≡ ok tt
unfolding validate
labels-validate = refl

revision-not_a0 : media_revision digest roll ≢ "a0"
unfolding media_revision
revision-not_a0 e = false≢true ((eq_iff "5f" "a0").1 e)

edit-stale_example :
    edit digest "p1" "a0" labels (store_with [])
    ≡ (err (message "conflict: Loaded media changed; refresh before saving"), store_with [])
edit-stale_example =
    edit-stale digest "p1" "a0" labels (store_with []) roll labels-validate refl revision-not_a0
