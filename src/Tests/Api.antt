-- ===== src/Tests/Api.antt =====
-- Requests to the handlers of src/api.rs, on one agent.
use zebra_tamer.Prelude.{
  ℕ, ◌≤◌, ◌≡◌, ◌≢◌, ◌⊎◌, refl, String, Bool, Option, none, some, [], ◌∷◌, arith, if◌then◌else◌,
  str_eq,
}
use zebra_tamer.Prelude.Text.{Bytes, codes}
use zebra_tamer.Prelude.Result.{ok, Error}
use zebra_tamer.Model.Job.{Uuid, Job, queued, held}
use zebra_tamer.Store.Files.{holds}
use zebra_tamer.Store.Jobs.{find_job_by_idempotency_key, count_active_jobs, job_file}
use zebra_tamer.Store.Printers.{save_queue}
use zebra_tamer.Auth.{Tokens}
use zebra_tamer.Protocol.{SubmitJob, PreparedJob, prepare_job}
use zebra_tamer.Worker.Process.{full}
use zebra_tamer.Worker.Queue.{remove_first}
use zebra_tamer.Api.Agent.{Agent, Handle, Answer, done, problem, unauthorized}
use zebra_tamer.Api.Create.{JobValue, v2_job_value, v2_create_job}
use zebra_tamer.Api.Control.{v2_cancel_job, not_cancellable}
use zebra_tamer.Api.Known.{v2_create_job-known}
use zebra_tamer.Api.Limit.{v2_create_job-limit}
use zebra_tamer.Api.Retry.{v2_create_job-again}
use zebra_tamer.Api.Cancel.{v2_cancel_job-not_queued}
use zebra_tamer.Tests.Data.{bytes_json, digest, store_with, worker, job_in}
use zebra_tamer.Tests.Driver.{profile}
use zebra_tamer.Tests.Protocol.{parse, json_copies, decode, sha256, request_hash, request, artifact}

abbrev tokens : Tokens
tokens = record {
  read_token = none;
  print_token = some (codes "print-print-print-print-1");
  admin_token = none;
}

abbrev header : Option Bytes
header = some (codes "Bearer print-print-print-print-1")

abbrev queued_json : ℕ → Bool → String
queued_json bytes changed = if changed then "{\"reason\":\"media_revision_changed\"}" else "{}"

abbrev pub agent : Agent
agent = record {
  store = store_with [];
  workers =
      λ id. if str_eq id "p1" then some (record { profile = profile; worker = worker }) else none;
  mail = [];
}

abbrev order : SubmitJob
order = record (request (artifact (codes "a") ∷ [])) { media_revision = some "5f" }

abbrev create : Uuid → SubmitJob → Agent → Answer JobValue × Agent
create id job =
    v2_create_job parse json_copies decode sha256 request_hash digest bytes_json queued_json tokens
      4 full 30 id header "p1" job

abbrev created : JobValue
created = record {
  id = 9;
  printer_id = "p1";
  state = "queued";
  created_at = 30;
  updated_at = 30;
  label_count = some 2;
  idempotency_key = some "k";
  request_sha256 = some "p1";
  device_payload_bytes = 20;
  bytes_transferred = 0;
  delivery_attempts = 0;
  error = none;
}

abbrev later : Agent
later = (create 9 order agent).1

makes_job : create 9 order agent ≡ (done created, later)
unfolding v2_create_job save_queue
makes_job = refl

unknown_key : find_job_by_idempotency_key "k" none agent.store.jobs ≡ none
unfolding find_job_by_idempotency_key
unknown_key = refl

v2_create_job-again_example : create 12 order later ≡ (done created, later)
v2_create_job-again_example =
    v2_create_job-again parse json_copies decode sha256 request_hash digest bytes_json queued_json
      tokens 4 full 30 30 9 12 header "p1" order agent later created (refl, (refl, (refl, tt)))
      unknown_key makes_job

pub three_active : count_active_jobs "p1" agent.store.jobs ≤ 4
unfolding count_active_jobs
three_active = omega arith

v2_create_job-limit_example :
    (count_active_jobs "p1" later.store.jobs ≤ 4)
    × ((other : String)
        → "p1" ≢ other
        → count_active_jobs other later.store.jobs ≡ count_active_jobs other agent.store.jobs)
v2_create_job-limit_example =
    v2_create_job-limit parse json_copies decode sha256 request_hash digest bytes_json queued_json
      tokens 4 full 30 9 header "p1" order agent (refl, (refl, (refl, tt))) three_active

abbrev held_agent : Agent
held_agent = record agent {
  store = record (store_with []) { jobs = (3, holds (job_in held 3)) ∷ [] };
}

held_file : job_file 3 held_agent.store.jobs ≡ holds (job_in held 3)
unfolding job_file
held_file = refl

held_away : remove_first 3 worker.queue ≡ none
unfolding remove_first
held_away = refl

v2_cancel_job-not_queued_example :
    let (r, s') = v2_cancel_job bytes_json full tokens 30 header 3 held_agent in
    ((r ≡ problem unauthorized) ⊎ ((e : Error) × (r ≡ problem (not_cancellable e))))
    × (s'.store ≡ held_agent.store)
v2_cancel_job-not_queued_example =
    v2_cancel_job-not_queued bytes_json full tokens 30 header 3 (job_in held 3)
      (record { profile = profile; worker = worker }) held_agent held_file refl held_away

abbrev existing : Job
existing = record {
  id = 9;
  printer_id = "p1";
  state = queued;
  created_at = 30;
  updated_at = 30;
  label_count = some 2;
  label_count_source = some "v2_artifacts_and_copies";
  origin = some "print-service-v2";
  description = none;
  idempotency_key = some "k";
  sha256 = some "p1";
  bytes = 20;
  bytes_transferred = 0;
  delivery_attempts = 0;
  payload_path = some 9;
  error = none;
}

known_key : find_job_by_idempotency_key "k" none later.store.jobs ≡ some existing
unfolding find_job_by_idempotency_key v2_create_job save_queue
known_key = refl

v2_create_job-known_example :
    let (r, s') = create 13 order later in
    (s' ≡ later)
    × ((v : JobValue)
        → r ≡ done v
        → (v ≡ v2_job_value existing)
          × (existing.printer_id ≡ "p1")
          × (h : Handle) × (prepared : PreparedJob) × (later.workers "p1" ≡ some h)
          × (prepare_job parse json_copies decode sha256 request_hash "p1" order h.profile
              ≡ ok prepared)
          × (existing.sha256 ≡ some prepared.request_hash))
v2_create_job-known_example =
    v2_create_job-known parse json_copies decode sha256 request_hash digest bytes_json queued_json
      tokens 4 full 30 13 header "p1" order later existing known_key
