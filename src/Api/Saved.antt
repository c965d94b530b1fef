-- ===== src/Api/Saved.antt =====
-- The printers' configurations after src/api.rs has saved one.
use zebra_tamer.Prelude.{
  ◌≡◌, refl, String, Bool, true, false, ◌&&◌, Option, List, any, Bool-cases, inl, inr,
}
use zebra_tamer.Prelude.Text.{Bytes, codes, text_eq}
use zebra_tamer.Prelude.Result.{Result, ok, err}
use zebra_tamer.Model.Job.{DateTime}
use zebra_tamer.Store.Files.{
  File, holds, Outcome, fine, refused, torn, unterminated, late, put_file, reply,
}
use zebra_tamer.Store.State.{Store, head_outcome}
use zebra_tamer.Store.Jobs.{has_open_jobs}
use zebra_tamer.Config.{PrinterConfig, validate_config}
use zebra_tamer.Auth.{Tokens, admin}
use zebra_tamer.Api.Agent.{Answer, done, problem, v2_authorize}
use zebra_tamer.Api.Admin.{
  Registry, has_id, placed, named, checked_save, with_printers, after_event, save_printer_configs,
  after_file, after_validation, save_printer, v2_admin_save_printer,
}

-- The printers in memory pass the validation.
abbrev pub IsSound : Registry → Type 0
IsSound r = validate_config (with_printers r.printer_configs r.config) ≡ ok tt

abbrev pub IsSaved : Answer PrinterConfig × Registry → Type 0
IsSaved (answer, r') =
    IsSound r' × ((p : PrinterConfig) → answer ≡ done p → r'.file ≡ holds r'.printer_configs)

reply-placed :
    {A : Type 0} (o : Outcome) (a : A) (f : File A) (u : Unit {0})
    → reply o ≡ ok u
    → put_file o a f ≡ holds a
reply-placed fine a f u h = refl
reply-placed refused a f u h = cc
reply-placed torn a f u h = cc
reply-placed unterminated a f u h = cc
reply-placed late a f u h = cc

module _ (event_json : PrinterConfig → String) (tokens : Tokens) (now : DateTime) where
  after_event-IsSaved :
      (printer : PrinterConfig) (out : Result (Unit {0}) × Store) (r : Registry)
      → IsSound r
      → r.file ≡ holds r.printer_configs
      → IsSaved (after_event event_json tokens now printer out r)
  unfolding after_event
  after_event-IsSaved printer (ok _, store) r sound filed = (sound, λ p h. filed)
  after_event-IsSaved printer (err e, store) r sound filed = (sound, λ p h. cc)

  after_file-IsSaved :
      (answer : Result (Unit {0})) (known : Bool) (id : String) (printer : PrinterConfig)
      (candidate : List PrinterConfig) (r : Registry)
      → IsSound r
      → validate_config (with_printers candidate r.config) ≡ ok tt
      → ((u : Unit {0}) → answer ≡ ok u → r.file ≡ holds candidate)
      → IsSaved (after_file event_json tokens now answer known id printer candidate r)
  unfolding after_file
  after_file-IsSaved (err e) known id printer candidate r sound valid filed = (sound, λ p h. cc)
  after_file-IsSaved (ok u) known id printer candidate r sound valid filed =
      after_event-IsSaved printer _ _ valid (filed u refl)

  after_validation-IsSaved :
      (checked : Result (Unit {0})) (known : Bool) (id : String) (printer : PrinterConfig)
      (candidate : List PrinterConfig) (r : Registry)
      → IsSound r
      → validate_config (with_printers candidate r.config) ≡ checked
      → IsSaved (after_validation event_json tokens now checked known id printer candidate r)
  unfolding after_validation
  after_validation-IsSaved (err e) known id printer candidate r sound valid = (sound, λ p h. cc)
  after_validation-IsSaved (ok _) known id printer candidate r sound valid =
      let (answer, after) = save_printer_configs event_json tokens now candidate r in
      after_file-IsSaved answer known id printer candidate after sound valid
        (reply-placed (head_outcome r.store.outcomes) candidate r.file)

  save_printer-IsSaved :
      (id : String) (printer : PrinterConfig) (r : Registry)
      → IsSound r
      → IsSaved (save_printer event_json tokens now id printer r)
  unfolding save_printer
  save_printer-IsSaved id printer r sound =
      let known = any (has_id (codes id)) r.printer_configs in
      let candidate = placed printer r.printer_configs in
      elim (Bool-cases (known && has_open_jobs id r.store.jobs)) [
        | inl busy ↦ rw (busy, save_printer) (sound, λ p h. cc)
        | inr idle ↦
            rw (idle, save_printer)
              (after_validation-IsSaved _ known id printer candidate r sound refl)
      ]

  checked_save-IsSaved :
      (opened : Answer (Unit {0})) (same : Bool) (id : String) (printer : PrinterConfig)
      (r : Registry)
      → IsSound r
      → IsSaved (checked_save event_json tokens now opened same id printer r)
  unfolding checked_save
  checked_save-IsSaved (problem e) same id printer r sound = (sound, λ p h. cc)
  checked_save-IsSaved (done _) false id printer r sound = (sound, λ p h. cc)
  checked_save-IsSaved (done _) true id printer r sound = save_printer-IsSaved id printer r sound

  -- When the printers in memory pass the validation, they pass it after any request, whatever its
  -- writes do; and after a request that succeeds the file on disk has the same printers as the memory.
  pub v2_admin_save_printer-IsSaved :
      (header : Option Bytes) (id : String) (printer : PrinterConfig) (r : Registry)
      → IsSound r
      → IsSaved (v2_admin_save_printer event_json tokens now header id printer r)
  unfolding v2_admin_save_printer
  v2_admin_save_printer-IsSaved header id printer r sound =
      checked_save-IsSaved (v2_authorize tokens header admin)
        (text_eq (named id printer).id (codes id)) id (named id printer) r sound

  checked_save-busy :
      (opened : Answer (Unit {0})) (same : Bool) (id : String) (printer : PrinterConfig)
      (r : Registry)
      → (any (has_id (codes id)) r.printer_configs && has_open_jobs id r.store.jobs) ≡ true
      → (checked_save event_json tokens now opened same id printer r).1 ≡ r
  unfolding checked_save save_printer
  checked_save-busy (problem e) same id printer r busy = refl
  checked_save-busy (done _) false id printer r busy = refl
  checked_save-busy (done _) true id printer r busy = rw (busy, save_printer) refl

  -- A request for a printer that is known and has an open job changes nothing at all.
  pub v2_admin_save_printer-busy :
      (header : Option Bytes) (id : String) (printer : PrinterConfig) (r : Registry)
      → any (has_id (codes id)) r.printer_configs ≡ true
      → has_open_jobs id r.store.jobs ≡ true
      → (v2_admin_save_printer event_json tokens now header id printer r).1 ≡ r
  unfolding v2_admin_save_printer
  v2_admin_save_printer-busy header id printer r known waiting =
      checked_save-busy (v2_authorize tokens header admin)
        (text_eq (named id printer).id (codes id)) id (named id printer) r
        (rw (known, waiting) refl)
