-- ===== src/Store/State.antt =====
-- `Store` of src/persist.rs: the content of the data directory. `outcomes` scripts how the coming
-- writes go; when it is used up every write succeeds.
use zebra_tamer.Prelude.{String, Bool, List, [], ◌∷◌, str_eq, if◌then◌else◌}
use zebra_tamer.Prelude.Exec.{Exec}
use zebra_tamer.Model.Job.{Uuid, Job, Event}
use zebra_tamer.Model.Media.{MediaState, MediaLedgerEvent}
use zebra_tamer.Store.Files.{File, Log, Outcome, fine, reply}

-- `printers/{id}/`.
pub record PrinterDir : Type 0 where
  pub queue : File (List Uuid)
  pub queue_paused : File Bool
  pub media : File MediaState
  pub archives : List MediaState
  pub ledger : Log MediaLedgerEvent

pub record Store : Type 0 where
  pub jobs : List (Uuid × File Job)
  pub payloads : Uuid → Bool
  pub spool : Uuid → Bool
  pub job_index : Log Uuid
  pub events : Log Event
  pub printers : String → PrinterDir
  pub printer_configs : File (List String)  -- the ids of the configurations
  pub boot_id : File String
  pub outcomes : List Outcome

abbrev pub head_outcome : List Outcome → Outcome
head_outcome [] = fine
head_outcome (o ∷ os) = o

abbrev pub tail_outcomes : List Outcome → List Outcome
tail_outcomes [] = []
tail_outcomes (o ∷ os) = os

-- One write: it takes the next outcome, changes the directory by it and reports it.
abbrev pub write : (Outcome → Store → Store) → Exec Store (Unit {0})
write change s =
    let o = head_outcome s.outcomes in
    (reply o, change o (record s { outcomes = tail_outcomes s.outcomes }))

-- A change of one printer's directory.
abbrev pub at_printer : String → (PrinterDir → PrinterDir) → Store → Store
at_printer id change s = record s {
  printers = λ k. if str_eq k id then change (s.printers k) else s.printers k;
}
