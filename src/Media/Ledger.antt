-- ===== src/Media/Ledger.antt =====
-- The ledger beside the state: what `adjust`, the job accounting and the estimated losses leave in
-- `media.json` and `media-ledger.ndjson`, for every outcome of their two writes.
use text.Mathlib.TextPositions.{eq_refl}
use zebra_tamer.Prelude.{◌≡◌, refl, ◌⊎◌, String, false, List, [], ◌∷◌, ◌++◌, arith}
use zebra_tamer.Prelude.Int.{ℤ, pos, negsuc}
use zebra_tamer.Prelude.Words.{wrapping_suc}
use zebra_tamer.Prelude.Result.{ok, is_ok}
use zebra_tamer.Model.Job.{DateTime, Job}
use zebra_tamer.Model.Media.{MediaState, MediaAdjustment}
use zebra_tamer.Store.Files.{holds, whole, Outcome, fine, refused}
use zebra_tamer.Store.State.{Store}
use zebra_tamer.Media.Accounting.{adjusted, adjustment_event}
use zebra_tamer.Media.Operations.{adjust}

-- An adjustment that returns `ok` has written both files: the state that it returns, and its event
-- behind the old ledger (whose last line was complete).
pub adjust-durable :
    (now : DateTime) (id : String) (adj : MediaAdjustment) (s : Store) (old m : MediaState)
    → (s.printers id).media ≡ holds old
    → (s.printers id).ledger.open_end ≡ false
    → (adjust now id adj s).0 ≡ ok m
    → let d = (adjust now id adj s).1.printers id in
      (m ≡ adjusted now adj.delta old)
      × (d.media ≡ holds m)
      × (d.ledger.lines
          ≡ (s.printers id).ledger.lines ++ (whole (adjustment_event now adj old m) ∷ []))
unfolding adjust
adjust-durable now id adj s old m here closed done = ground (arith, eq_refl id)

-- An error of `adjust` on a loaded roll leaves the state file as it was or, when the error came
-- after the rename, with the adjusted state; it never holds anything else.
pub adjust-failed :
    (now : DateTime) (id : String) (adj : MediaAdjustment) (s : Store) (old : MediaState)
    → (s.printers id).media ≡ holds old
    → is_ok (adjust now id adj s).0 ≡ false
    → ((adjust now id adj s).1.printers id).media ≡ holds old
      ⊎ ((adjust now id adj s).1.printers id).media ≡ holds (adjusted now adj.delta old)
unfolding adjust
adjust-failed now id adj s old here failed = ground (arith, eq_refl id)

sequence-adjusted :
    (now : DateTime) (delta : ℤ) (m : MediaState)
    → (adjusted now delta m).ledger_sequence ≡ wrapping_suc m.ledger_sequence
unfolding adjusted
sequence-adjusted now (pos n) m = refl
sequence-adjusted now (negsuc n) m = refl

-- The ledger is written before the state: when the state's file is refused, the event stays, and
-- the next adjustment writes a second event with the same sequence number and the same `before`.
pub adjust-repeats_sequence :
    (now : DateTime) (id : String) (adj next : MediaAdjustment) (s : Store) (old : MediaState)
    (rest : List Outcome)
    → (s.printers id).media ≡ holds old
    → (s.printers id).ledger.open_end ≡ false
    → s.outcomes ≡ fine ∷ refused ∷ fine ∷ fine ∷ rest
    → let first = adjustment_event now adj old (adjusted now adj.delta old) in
      let second = adjustment_event now next old (adjusted now next.delta old) in
      let s' = (adjust now id next (adjust now id adj s).1).1 in
      ((s'.printers id).ledger.lines
        ≡ ((s.printers id).ledger.lines ++ (whole first ∷ [])) ++ (whole second ∷ []))
      × ((s'.printers id).media ≡ holds (adjusted now next.delta old))
      × (first.sequence ≡ second.sequence)
      × (first.before ≡ second.before)
unfolding adjust
adjust-repeats_sequence now id adj next s old rest here closed script =
    ground
      (arith, eq_refl id, sequence-adjusted now adj.delta old, sequence-adjusted now next.delta old)
