-- ===== src/Api/Cancel.antt =====
-- Which jobs the handler of src/api.rs cancels.
use zebra_tamer.Prelude.{ℕ, ◌≡◌, refl, String, Option, none, some, ◌⊎◌, inl, inr, Bool-cases}
use zebra_tamer.Prelude.Text.{Bytes}
use zebra_tamer.Prelude.Result.{err, message, Error}
use zebra_tamer.Model.Job.{DateTime, Uuid, Job}
use zebra_tamer.Store.Files.{holds}
use zebra_tamer.Store.Jobs.{job_file, load_job}
use zebra_tamer.Auth.{Tokens, print, authorized}
use zebra_tamer.Worker.Queue.{Worker, receive, cancel, remove_first}
use zebra_tamer.Worker.Process.{StorageMode}
use zebra_tamer.Api.Agent.{
  Mail, problem, Agent, Handle, v2_authorize, unauthorized, send_command, head_mail, tail_mail,
  handled, full, stopped, delivered_by,
}
use zebra_tamer.Api.Control.{v2_cancel_job, not_cancellable}

module _ (bytes_json : ℕ → String) (storage : StorageMode) (config : Tokens) where
  -- A command to cancel a job that is not in the queue is refused, or does not arrive.
  cancel-away :
      (now : DateTime) (m : Mail) (printer : String) (id : Uuid) (w : Worker) (s : Agent)
      → remove_first id w.queue ≡ none
      → let (r, s') = delivered_by bytes_json now storage m printer (cancel id) w s in
        (e : Error) × (r ≡ err e) × (s'.store ≡ s.store)
  unfolding delivered_by receive
  cancel-away now full printer id w s away = (message "worker_queue_full", refl, refl)
  cancel-away now stopped printer id w s away = (message "worker_stopped", refl, refl)
  cancel-away now handled printer id w s away =
      rw (away, receive) (message "job_is_not_waiting_in_queue", refl, refl)

  -- A job on file that does not stand in its printer's queue, such as a held one, cannot be cancelled:
  -- the request is refused, as unauthorised or as a job that cannot be cancelled, and the store stays
  -- as it was.
  pub v2_cancel_job-not_queued :
      (now : DateTime) (header : Option Bytes) (id : Uuid) (job : Job) (h : Handle) (s : Agent)
      → job_file id s.store.jobs ≡ holds job
      → s.workers job.printer_id ≡ some h
      → remove_first id h.worker.queue ≡ none
      → let (r, s') = v2_cancel_job bytes_json storage config now header id s in
        ((r ≡ problem unauthorized) ⊎ ((e : Error) × (r ≡ problem (not_cancellable e))))
        × (s'.store ≡ s.store)
  unfolding v2_cancel_job v2_authorize load_job send_command
  v2_cancel_job-not_queued now header id job h s file found away =
      elim (Bool-cases (authorized config header print)) [
        | inl opened ↦
            let (e, refused, kept) =
              cancel-away now (head_mail s.mail) job.printer_id id h.worker
                (record s { mail = tail_mail s.mail }) away in
            rw (opened, v2_authorize, file, found, refused) (inr (e, refl), kept)
        | inr shut ↦ rw (shut, v2_authorize) (inl refl, refl)
      ]
