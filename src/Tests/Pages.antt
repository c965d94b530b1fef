-- ===== src/Tests/Pages.antt =====
-- Pages of the event log and of the job list, and the accounting of a restart of the host.
use mathlib.Core.Bool.{false≢true}
use zebra_tamer.Prelude.{
  ℕ, ◌≤◌, ◌<◌, ◌≡◌, refl, ◌≢◌, false, some, [], ◌∷◌, arith, take, eq_iff, String,
}
use zebra_tamer.Prelude.Result.{ok, is_ok}
use zebra_tamer.Model.Job.{Uuid, Event, queued}
use zebra_tamer.Store.Files.{holds, corrupt, whole, fine, refused}
use zebra_tamer.Store.State.{Store}
use zebra_tamer.Store.Paging.{read_events, of_job}
use zebra_tamer.Store.Paging.Events.{selected, read_events_lem}
use zebra_tamer.Api.{Page}
use zebra_tamer.Media.Accounting.{estimated_loss}
use zebra_tamer.Boot.{apply_boot_accounting}
use zebra_tamer.Boot.Once.{apply_boot_accounting_once, apply_boot_accounting_twice}
use zebra_tamer.Tests.Data.{job_in, store_with, roll}

abbrev event : ℕ → Uuid → Event
event n id = record {
  sequence = n;
  at = 20;
  kind = "job_writing";
  printer_id = some "p1";
  job_id = some id;
  data_text = "{}";
}

abbrev logged : Store
logged = record (store_with []) {
  events = record {
    lines = whole (event 1 1) ∷ whole (event 2 2) ∷ whole (event 3 1) ∷ [];
    open_end = false;
  };
  job_index = record { lines = whole 1 ∷ whole 2 ∷ []; open_end = false };
}

read_events_lem_example :
    (0 ≤ 1)
    × (1 ≤ 3)
    × (event 1 1 ∷ [] ≡ selected (of_job (some 1)) (take 1 logged.events.lines))
    × (1 ≤ 1)
    × (1 < 1 → ◌≡◌ {A = ℕ} 1 3)
unfolding read_events
read_events_lem_example =
    read_events_lem 0 1 (some 1) logged (event 1 1 ∷ []) 1 (omega arith) (omega arith) refl

abbrev first_page : Page
first_page = record { cursor = 0; limit = some 1 }

-- The file of job 1 does not parse.
abbrev damaged : Store
damaged = record logged { jobs = (1, corrupt) ∷ (2, holds (job_in queued 2)) ∷ [] }

apply_boot_accounting_once_example :
    let s' = (apply_boot_accounting 20 5 ("p1" ∷ []) "9d2a" (store_with [])).1 in
    apply_boot_accounting 30 5 ("p1" ∷ []) "9d2a" s' ≡ (ok tt, s')
unfolding apply_boot_accounting
apply_boot_accounting_once_example =
    apply_boot_accounting_once 20 30 5 ("p1" ∷ []) "9d2a" (store_with []) refl

other_boot : ◌≢◌ {A = String} "7c1e" "9d2a"
other_boot e = false≢true ((eq_iff "7c1e" "9d2a").1 e)

apply_boot_accounting_twice_example :
    let (answer, s') =
      apply_boot_accounting 20 5 ("p1" ∷ []) "9d2a" (store_with (fine ∷ fine ∷ refused ∷ [])) in
    let (answer', s'') = apply_boot_accounting 30 5 ("p1" ∷ []) "9d2a" s' in
    (is_ok answer ≡ false)
    × (answer' ≡ ok tt)
    × ((s''.printers "p1").media ≡ holds (estimated_loss 30 5 (estimated_loss 20 5 roll)))
apply_boot_accounting_twice_example =
    apply_boot_accounting_twice 20 30 5 "p1" "9d2a" "7c1e" roll
      (store_with (fine ∷ fine ∷ refused ∷ [])) (omega arith) other_boot refl refl refl refl
