-- ===== src/Api/Control.antt =====
-- src/api.rs: looking a job up, pausing a queue and cancelling a job.
use zebra_tamer.Prelude.{ℕ, String, Bool, Option, none}
use zebra_tamer.Prelude.Text.{Bytes}
use zebra_tamer.Prelude.Result.{Result, Error}
use zebra_tamer.Model.Job.{DateTime, Uuid}
use zebra_tamer.Store.Jobs.{load_job, find_job_by_idempotency_key}
use zebra_tamer.Auth.{Tokens, read, print, admin}
use zebra_tamer.Worker.Queue.{cancel, set_queue_paused}
use zebra_tamer.Worker.Process.{StorageMode}
use zebra_tamer.Api.Agent.{
  V2Error, Answer, done, Agent, Handler, answer, or_error, or_problem, stored, not_found,
  v2_authorize, send_command, ◌>>=◌, ◌>>◌,
}
use zebra_tamer.Api.Create.{JobValue, v2_job_value}

abbrev pub not_cancellable : Error → V2Error
not_cancellable e = record { status = 409; code = "job_not_cancellable"; text = e }

abbrev pub control_failed : Error → V2Error
control_failed e = record { status = 409; code = "queue_control_failed"; text = e }

module _ (config : Tokens) where
  unfoldable pub v2_job : Option Bytes → Uuid → Handler JobValue
  unfolding v2_authorize load_job
  v2_job header id s =
      (do
        answer (v2_authorize config header read)
        job ← answer (or_error (λ _. not_found "job_not_found") (load_job id s.store).0)
        answer (done (v2_job_value job)))
        s

  unfoldable pub v2_job_by_idempotency : Option Bytes → String → Handler JobValue
  unfolding v2_authorize find_job_by_idempotency_key
  v2_job_by_idempotency header key s =
      (do
        answer (v2_authorize config header read)
        job ← answer (
            or_problem (find_job_by_idempotency_key key none s.store.jobs)
              (not_found "job_not_found"))
        answer (done (v2_job_value job)))
        s

module _ (bytes_json : ℕ → String) (storage : StorageMode) (config : Tokens) where
  -- A command whose refusal is the error `refused`.
  abbrev pub ordered : (Error → V2Error) → Result (Unit {0}) × Agent → Answer (Unit {0}) × Agent
  ordered refused (r, s) = (or_error refused r, s)

  -- The printer's id and the flag of the answer.
  unfoldable pub v2_set_queue_paused :
      DateTime → Option Bytes → String → Bool → Handler (String × Bool)
  unfolding v2_authorize send_command
  v2_set_queue_paused now header id paused s =
      (do
        answer (v2_authorize config header admin)
        h ← answer (or_problem (s.workers id) (not_found "printer_not_found"))
        λ s.
            ordered control_failed
              (send_command bytes_json now storage id (set_queue_paused paused) h.worker s)
        answer (done (id, paused)))
        s

  unfoldable pub v2_cancel_job : DateTime → Option Bytes → Uuid → Handler JobValue
  unfolding v2_authorize send_command load_job
  v2_cancel_job now header id s =
      (do
        answer (v2_authorize config header print)
        job ← answer (or_error (λ _. not_found "job_not_found") (load_job id s.store).0)
        h ← answer (or_problem (s.workers job.printer_id) (not_found "printer_not_found"))
        λ s.
            ordered not_cancellable
              (send_command bytes_json now storage job.printer_id (cancel id) h.worker s)
        cancelled ← stored (load_job id)
        answer (done (v2_job_value cancelled)))
        s
