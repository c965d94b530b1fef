-- ===== src/Media/Accounting.antt =====
-- The places that take labels off the loaded roll: `consume_media`, `apply_reconnect_loss` and
-- `apply_maintenance_media_loss` of src/worker.rs, the boot loss of src/main.rs, and `adjust` of
-- src/media.rs. Each has its own arithmetic in the source; here they are as written there.
use zebra_tamer.Prelude.{ℕ, ◌-◌, String, Option, none, some, ◌==◌, min, unwrap_or, if◌then◌else◌}
use zebra_tamer.Prelude.Int.{ℤ, pos, negsuc}
use zebra_tamer.Prelude.Words.{
  saturating_add, saturating_sub, wrapping_suc, neg_as_i64, unsigned_abs,
}
use zebra_tamer.Prelude.Result.{Result, ok}
use zebra_tamer.Prelude.Exec.{attempt}
use zebra_tamer.Model.Job.{DateTime, Job}
use zebra_tamer.Model.Media.{MediaState, MediaLedgerEvent, MediaAdjustment, degraded}
use zebra_tamer.Store.State.{Store}
use zebra_tamer.Store.Printers.{load_media, save_media, append_media_ledger}

-- The estimated losses of `count` labels (boot, reconnect, maintenance).
unfoldable pub estimated_loss : DateTime → ℕ → MediaState → MediaState
estimated_loss now count m = record m {
  remaining_labels = saturating_sub m.remaining_labels count;
  consumed_labels_total = saturating_add m.consumed_labels_total count;
  accounting_deficit_labels =
      saturating_add m.accounting_deficit_labels (saturating_sub count m.remaining_labels);
  accounting_confidence = degraded;
  ledger_sequence = wrapping_suc m.ledger_sequence;
  last_accounting_event_at = some now;
}

unfoldable pub loss_event :
    DateTime → ℕ → String → String → MediaState → MediaState → MediaLedgerEvent
loss_event now count reason source old m = record {
  sequence = m.ledger_sequence;
  at = now;
  delta = neg_as_i64 count;
  reason = reason;
  source = source;
  job_id = none;
  before = old.remaining_labels;
  after = m.remaining_labels;
  deficit_after = m.accounting_deficit_labels;
  hardware_counter_before = none;
  hardware_counter_after = none;
}

-- `consume_media`: the labels of a job that the transport accepted.
unfoldable pub consumed_by_job : DateTime → ℕ → MediaState → MediaState
consumed_by_job now count m =
    let before = m.remaining_labels in
    let consumed = min count before in
    record m {
      remaining_labels = before - consumed;
      consumed_labels_total = saturating_add m.consumed_labels_total count;
      accounting_deficit_labels =
          saturating_add m.accounting_deficit_labels (count - min before count);
      ledger_sequence = wrapping_suc m.ledger_sequence;
      last_accounting_event_at = some now;
    }

unfoldable pub job_event : DateTime → ℕ → Job → MediaState → MediaState → MediaLedgerEvent
job_event now count job old m = record {
  sequence = m.ledger_sequence;
  at = now;
  delta = neg_as_i64 count;
  reason = "job";
  source = unwrap_or job.label_count_source "unknown";
  job_id = some job.id;
  before = old.remaining_labels;
  after = m.remaining_labels;
  deficit_after = m.accounting_deficit_labels;
  hardware_counter_before = none;
  hardware_counter_after = none;
}

-- `let _ = append_media_ledger(..); let _ = save_media(..);`
unfoldable pub book_quietly : String → MediaLedgerEvent → MediaState → Store → Store
unfolding save_media append_media_ledger
book_quietly id event m s = attempt (save_media id m) (attempt (append_media_ledger id event) s)

-- The body behind `if let Ok(Some(mut media)) = store.load_media(..)`.
unfoldable pub lose_from :
    DateTime → String → ℕ → String → String → Result (Option MediaState) → Store → Store
lose_from now id count reason source (ok (some old)) s =
    let m = estimated_loss now count old in
    book_quietly id (loss_event now count reason source old m) m s
lose_from now id count reason source _ s = s

unfoldable pub lose_quietly : DateTime → String → ℕ → String → String → Store → Store
unfolding load_media lose_from
lose_quietly now id count reason source s =
    lose_from now id count reason source (load_media id s).0 s

unfoldable pub apply_reconnect_loss : DateTime → String → ℕ → Store → Store
unfolding lose_quietly
apply_reconnect_loss now id count s =
    if count == 0
    then s
    else lose_quietly now id count "printer_reconnect_loss" "configured_estimate" s

unfoldable pub apply_maintenance_media_loss : DateTime → String → ℕ → String → Store → Store
unfolding lose_quietly
apply_maintenance_media_loss now id count action s =
    lose_quietly now id count action "maintenance_estimate" s

-- `if let (Some(count), Ok(Some(mut media))) = (job.label_count, store.load_media(..))`.
unfoldable pub consume_from :
    DateTime → String → Job → Option ℕ → Result (Option MediaState) → Store → Store
consume_from now id job (some count) (ok (some old)) s =
    let m = consumed_by_job now count old in book_quietly id (job_event now count job old m) m s
consume_from now id job _ _ s = s

unfoldable pub consume_media : DateTime → String → Job → Store → Store
unfolding load_media consume_from
consume_media now id job s = consume_from now id job job.label_count (load_media id s).0 s

-- The arithmetic of `adjust`: a negative delta is a debit, any other a credit.
unfoldable pub adjusted : DateTime → ℤ → MediaState → MediaState
adjusted now (negsuc n) m =
    let debit = unsigned_abs (negsuc n) in
    record m {
      remaining_labels = saturating_sub m.remaining_labels debit;
      consumed_labels_total = saturating_add m.consumed_labels_total debit;
      accounting_deficit_labels =
          saturating_add m.accounting_deficit_labels (saturating_sub debit m.remaining_labels);
      ledger_sequence = wrapping_suc m.ledger_sequence;
      last_accounting_event_at = some now;
    }
adjusted now (pos n) m = record m {
  remaining_labels = saturating_add m.remaining_labels n;
  ledger_sequence = wrapping_suc m.ledger_sequence;
  last_accounting_event_at = some now;
}

unfoldable pub adjustment_event :
    DateTime → MediaAdjustment → MediaState → MediaState → MediaLedgerEvent
adjustment_event now adj old m = record {
  sequence = m.ledger_sequence;
  at = now;
  delta = adj.delta;
  reason = adj.reason;
  source = adj.source;
  job_id = adj.job_id;
  before = old.remaining_labels;
  after = m.remaining_labels;
  deficit_after = m.accounting_deficit_labels;
  hardware_counter_before = adj.hardware_counter_before;
  hardware_counter_after = adj.hardware_counter_after;
}
