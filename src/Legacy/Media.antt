-- ===== src/Legacy/Media.antt =====
-- The requests about the loaded media (src/api.rs), of the first API and of the administrator: each is
-- an operation of src/media.rs that the worker of the printer carries out. `digest` is that of
-- Media.Operations.
use zebra_tamer.Prelude.{String, Bool, true, false, Option, is_some, if◌then◌else◌}
use zebra_tamer.Prelude.Text.{Bytes, codes, strip_prefix}
use zebra_tamer.Prelude.Result.{Result, err, Error, io, message}
use zebra_tamer.Prelude.Exec.{Exec}
use zebra_tamer.Model.Job.{DateTime}
use zebra_tamer.Model.Media.{MediaState, MediaDefinition, MediaAdjustment}
use zebra_tamer.Store.State.{Store}
use zebra_tamer.Auth.{Tokens, admin, authorized}
use zebra_tamer.Media.Validate.{validate}
use zebra_tamer.Media.Operations.{load, edit, unload, adjust}
use zebra_tamer.Worker.Machine.{Machine}
use zebra_tamer.Worker.Queue.{Worker, with_store}
use zebra_tamer.Api.Agent.{
  V2Error, Answer, done, problem, Agent, Handle, Handler, Mail, handled, full, stopped, answer,
  or_error, or_problem, head_mail, tail_mail, put_worker, v2_authorize, ◌>>=◌, ◌>>◌,
}
use zebra_tamer.Legacy.{ApiResponseError, not_found}

-- `control`: an operation on the worker's machine, and the reply to it.
unfoldable pub after_control :
    {A : Type 0} → String → Worker → Result A × Machine → Agent → Result A × Agent
after_control printer w (r, m) s = (
  r,
  record s { store = m.store; workers = put_worker printer (record w { machine = m }) s.workers },
)

unfoldable pub controlled_by :
    {A : Type 0}
    → Mail
    → String
    → (Machine → Result A × Machine)
    → Worker
    → Agent
    → Result A × Agent
unfolding after_control
controlled_by full printer operation w s = (err (message "worker_queue_full"), s)
controlled_by stopped printer operation w s = (err (message "worker_stopped"), s)
controlled_by handled printer operation w s =
    after_control printer w (operation (with_store s.store w).machine) s

-- An operation of the store, as the worker runs it.
abbrev pub on_store : {A : Type 0} → Exec Store A → Machine → Result A × Machine
on_store action m = let (r, after) = action m.store in (r, record m { store = after })

unfoldable pub control : {A : Type 0} → String → Exec Store A → Worker → Agent → Result A × Agent
unfolding controlled_by
control printer action w s =
    controlled_by (head_mail s.mail) printer (on_store action) w
      (record s { mail = tail_mail s.mail })

abbrev is_conflict : Error → Bool
is_conflict io = false
is_conflict (message m) = is_some (strip_prefix (codes "conflict:") (codes m))

unfoldable pub control_error : Error → ApiResponseError
control_error e =
    if is_conflict e
    then record { status = 409; code = "conflict"; text = e }
    else record { status = 502; code = "device_operation_failed"; text = e }

abbrev pub token_wanted : ApiResponseError
token_wanted = record {
  status = 401;
  code = "unauthorized";
  text = message "Enter the ZebraTamer admin token";
}

abbrev pub invalid_media : Error → ApiResponseError
invalid_media e = record { status = 400; code = "bad_request"; text = e }

abbrev pub invalid_request : Error → V2Error
invalid_request e = record { status = 400; code = "invalid_request"; text = e }

abbrev pub load_failed : Error → V2Error
load_failed e = record { status = 409; code = "media_load_failed"; text = e }

abbrev pub when_authorized : Bool → Answer (Unit {0})
when_authorized true = done tt
when_authorized false = problem token_wanted

-- Without an admin token in the configuration everybody may.
unfoldable pub media_authorization : Tokens → Option Bytes → Answer (Unit {0})
unfolding authorized
media_authorization config header = elim (is_some config.admin_token) [
  | true ↦ when_authorized (authorized config header admin)
  | false ↦ done tt
]

-- The worker of the printer runs the operation.
unfoldable pub run_control :
    {A : Type 0} → (Error → V2Error) → String → Exec Store A → Handle → Handler A
unfolding control
run_control refused id action h s =
    let (r, after) = control id action h.worker s in (or_error refused r, after)

-- What the handlers have in common: the right, the check of the request, the worker.
unfoldable pub media_request :
    {A : Type 0}
    → Answer (Unit {0})
    → Answer (Unit {0})
    → (Error → V2Error)
    → String
    → Exec Store A
    → Handler A
unfolding run_control
media_request right checked refused id action s =
    (do
      answer right
      answer checked
      h ← answer (or_problem (s.workers id) (not_found "printer_not_found"))
      run_control refused id action h)
      s

module _ (config : Tokens) (digest : DateTime → MediaDefinition → String) (now : DateTime) where
  unfoldable pub put_media : Option Bytes → String → MediaDefinition → Handler MediaState
  unfolding media_authorization validate control_error load media_request
  put_media header id media =
      media_request (media_authorization config header) (or_error invalid_media (validate media))
        control_error id (load now id media)

  unfoldable pub edit_media : Option Bytes → String → String → MediaDefinition → Handler MediaState
  unfolding media_authorization validate control_error edit media_request
  edit_media header id revision media =
      media_request (media_authorization config header) (or_error invalid_media (validate media))
        control_error id (edit digest id revision media)

  unfoldable pub unload_media : Option Bytes → String → Handler (Unit {0})
  unfolding media_authorization control_error unload media_request
  unload_media header id =
      media_request (media_authorization config header) (done tt) control_error id (unload id)

  unfoldable pub adjust_media : Option Bytes → String → MediaAdjustment → Handler MediaState
  unfolding media_authorization control_error adjust media_request
  adjust_media header id adjustment =
      media_request (media_authorization config header) (done tt) control_error id
        (adjust now id adjustment)

  -- The administrator's request of the second API.
  unfoldable pub v2_admin_load_media : Option Bytes → String → MediaDefinition → Handler MediaState
  unfolding v2_authorize validate load media_request
  v2_admin_load_media header id media =
      media_request (v2_authorize config header admin) (or_error invalid_request (validate media))
        load_failed id (load now id media)
