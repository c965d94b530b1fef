-- ===== src/Api/Admin.antt =====
-- `v2_admin_save_printer` of src/api.rs: a printer's configuration is added or replaced while the
-- server runs. `event_json` is the data of the event.
use zebra_tamer.Prelude.{
  String, Bool, true, false, not, ◌&&◌, Option, none, some, List, [], ◌∷◌, any, keep, is_empty,
  if◌then◌else◌,
}
use zebra_tamer.Prelude.Text.{Text, Bytes, codes, text_eq}
use zebra_tamer.Prelude.Result.{Result, ok, err, Error, message}
use zebra_tamer.Model.Job.{DateTime}
use zebra_tamer.Store.Files.{File, put_file, reply}
use zebra_tamer.Store.State.{Store, head_outcome, tail_outcomes}
use zebra_tamer.Store.Jobs.{has_open_jobs}
use zebra_tamer.Store.Printers.{append_event, next_event}
use zebra_tamer.Config.{Config, PrinterConfig, validate_config}
use zebra_tamer.Auth.{Tokens, admin}
use zebra_tamer.Api.Agent.{
  V2Error, Answer, done, problem, bad_request, internal_error, v2_authorize,
}

-- The configuration at the start, the printers' configurations in memory and on disk, the store, and
-- the ids of the printers with a worker.
pub record Registry : Type 0 where
  pub config : Config
  pub printer_configs : List PrinterConfig
  pub file : File (List PrinterConfig)
  pub store : Store
  pub running : List Text

abbrev pub has_id : Text → PrinterConfig → Bool
has_id id p = text_eq p.id id

-- The first printer with the id is replaced, or the printer is added at the end.
unfoldable pub placed : PrinterConfig → List PrinterConfig → List PrinterConfig
placed printer [] = printer ∷ []
placed printer (p ∷ ps) =
    let rest = placed printer ps in if has_id printer.id p then printer ∷ ps else p ∷ rest

abbrev pub open_jobs : V2Error
open_jobs = record {
  status = 409;
  code = "printer_has_open_jobs";
  text = message "Pause or finish all open jobs before changing this printer";
}

abbrev pub other_id : Error
other_id = message "Path printer id and document printer id must match"

-- The configuration with other printers.
abbrev pub with_printers : List PrinterConfig → Config → Config
with_printers printers config = record config { printers = printers }

abbrev pub named : String → PrinterConfig → PrinterConfig
named id printer = if is_empty printer.id then record printer { id = codes id } else printer

abbrev restarted : PrinterConfig → List Text → List Text
restarted printer running =
    let others = keep (λ id. not (text_eq id printer.id)) running in
    if printer.enabled then printer.id ∷ others else others

module _ (event_json : PrinterConfig → String) (tokens : Tokens) (now : DateTime) where
  unfoldable pub after_event :
      PrinterConfig → Result (Unit {0}) × Store → Registry → Answer PrinterConfig × Registry
  after_event printer (ok _, store) r = (done printer, record r { store = store })
  after_event printer (err e, store) r = (problem (internal_error e), record r { store = store })

  abbrev event_kind : Bool → String
  event_kind true = "printer_updated"
  event_kind false = "printer_created"

  -- What follows the write of the file.
  unfoldable pub after_file :
      Result (Unit {0})
      → Bool
      → String
      → PrinterConfig
      → List PrinterConfig
      → Registry
      → Answer PrinterConfig × Registry
  unfolding after_event append_event next_event
  after_file (err e) known id printer candidate r = (problem (internal_error e), r)
  after_file (ok _) known id printer candidate r =
      let event = next_event now (event_kind known) (some id) none (event_json printer) r.store in
      after_event printer (append_event event r.store)
        (record r { printer_configs = candidate; running = restarted printer r.running })

  -- `save_printer_configs`.
  abbrev pub save_printer_configs : List PrinterConfig → Registry → Result (Unit {0}) × Registry
  save_printer_configs candidate r =
      let o = head_outcome r.store.outcomes in
      (
        reply o,
        record r {
          store = record r.store { outcomes = tail_outcomes r.store.outcomes };
          file = put_file o candidate r.file;
        },
      )

  unfoldable pub after_validation :
      Result (Unit {0})
      → Bool
      → String
      → PrinterConfig
      → List PrinterConfig
      → Registry
      → Answer PrinterConfig × Registry
  unfolding after_file
  after_validation (err e) known id printer candidate r = (problem (bad_request e), r)
  after_validation (ok _) known id printer candidate r =
      let (answer, after) = save_printer_configs candidate r in
      after_file answer known id printer candidate after

  unfoldable pub save_printer : String → PrinterConfig → Registry → Answer PrinterConfig × Registry
  unfolding has_open_jobs validate_config placed after_validation
  save_printer id printer r =
      let known = any (has_id (codes id)) r.printer_configs in
      let candidate = placed printer r.printer_configs in
      elim (known && has_open_jobs id r.store.jobs) [
        | true ↦ (problem open_jobs, r)
        | false ↦
            after_validation (validate_config (with_printers candidate r.config)) known id printer
              candidate r
      ]

  -- With the result of the authorisation, and whether the two ids are the same.
  unfoldable pub checked_save :
      Answer (Unit {0}) → Bool → String → PrinterConfig → Registry → Answer PrinterConfig × Registry
  unfolding save_printer
  checked_save (problem e) same id printer r = (problem e, r)
  checked_save (done _) false id printer r = (problem (bad_request other_id), r)
  checked_save (done _) true id printer r = save_printer id printer r

  unfoldable pub v2_admin_save_printer :
      Option Bytes → String → PrinterConfig → Registry → Answer PrinterConfig × Registry
  unfolding v2_authorize checked_save
  v2_admin_save_printer header id printer r =
      checked_save (v2_authorize tokens header admin) (text_eq (named id printer).id (codes id)) id
        (named id printer) r
