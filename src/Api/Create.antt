-- ===== src/Api/Create.antt =====
-- src/api.rs: the creation of a job (`v2_create_job`), and what the second API shows of a job.
-- Parameters: those of src/protocol_v2.rs, `media_revision` (the digest of a loaded roll) and
-- `queued_json` (the data of the event).
use zebra_tamer.Prelude.{
  ℕ, String, Bool, true, false, not, ◌&&◌, Option, none, some, length, leb, str_eq, if◌then◌else◌,
}
use zebra_tamer.Prelude.Text.{Text, Bytes}
use zebra_tamer.Prelude.Result.{Result, ok, err, Error, io, message}
use zebra_tamer.Prelude.Exec.{Exec, attempt}
use zebra_tamer.Model.Job.{
  DateTime, Uuid, JobState, Job, Event, receiving, queued, writing, verifying, transport_accepted,
  completed_observed, held, cancelled, failed, outcome_unknown,
}
use zebra_tamer.Model.Media.{MediaState, MediaDefinition}
use zebra_tamer.Store.State.{Store}
use zebra_tamer.Store.Jobs.{save_job, register_job, count_active_jobs, find_job_by_idempotency_key}
use zebra_tamer.Store.Printers.{load_media, append_event, next_event}
use zebra_tamer.Driver.{RasterPage}
use zebra_tamer.Protocol.{SubmitJob, PreparedJob, CanonicalRequest, prepare_job}
use zebra_tamer.Auth.{Tokens, print}
use zebra_tamer.Worker.Queue.{enqueue}
use zebra_tamer.Worker.Process.{StorageMode}
use zebra_tamer.Media.Operations.{media_revision}
use zebra_tamer.Api.Payload.{persist_v2_payload}
use zebra_tamer.Api.Agent.{
  V2Error, Answer, done, problem, Agent, Handle, Handler, answer, or_error, or_problem, stored,
  bad_request, not_found, internal_error, v2_authorize, send_command, ◌>>=◌, ◌>>◌,
}

-- The answer about a job: the state's name, and the fields that are passed on.
pub record JobValue : Type 0 where
  pub id : Uuid
  pub printer_id : String
  pub state : String
  pub created_at : DateTime
  pub updated_at : DateTime
  pub label_count : Option ℕ
  pub idempotency_key : Option String
  pub request_sha256 : Option String
  pub device_payload_bytes : ℕ
  pub bytes_transferred : ℕ
  pub delivery_attempts : ℕ
  pub error : Option String

abbrev pub state_name : JobState → String
state_name receiving = "receiving"
state_name queued = "queued"
state_name writing = "transmitting"
state_name verifying = "transmitting"
state_name transport_accepted = "transport_accepted"
state_name completed_observed = "completed_observed"
state_name held = "held"
state_name cancelled = "cancelled"
state_name failed = "failed"
state_name outcome_unknown = "outcome_unknown"

abbrev pub v2_job_value : Job → JobValue
v2_job_value job = record {
  id = job.id;
  printer_id = job.printer_id;
  state = state_name job.state;
  created_at = job.created_at;
  updated_at = job.updated_at;
  label_count = job.label_count;
  idempotency_key = job.idempotency_key;
  request_sha256 = job.sha256;
  device_payload_bytes = job.bytes;
  bytes_transferred = job.bytes_transferred;
  delivery_attempts = job.delivery_attempts;
  error = job.error;
}

abbrev pub conflict : V2Error
conflict = record {
  status = 409;
  code = "idempotency_conflict";
  text = message "The idempotency key already identifies a different job";
}

abbrev pub queue_full : V2Error
queue_full = record {
  status = 429;
  code = "queue_full";
  text = message "printer queue has reached its configured active-job limit";
}

abbrev pub queue_unavailable : Error → V2Error
queue_unavailable e = record { status = 503; code = "queue_unavailable"; text = e }

abbrev pub is_digest : Option String → String → Bool
is_digest none h = false
is_digest (some d) h = str_eq d h

-- The text of an error.
abbrev pub display : Error → String
display io = "io"
display (message m) = m

abbrev pub is_same_job : String → String → Job → Bool
is_same_job printer_id request_hash existing =
    str_eq existing.printer_id printer_id && is_digest existing.sha256 request_hash

-- The answer when the key is known.
unfoldable pub answer_known : String → String → Job → Answer JobValue
answer_known printer_id request_hash existing =
    if is_same_job printer_id request_hash existing
    then done (v2_job_value existing)
    else problem conflict

module _ (now : DateTime) where
  abbrev pub new_job : Uuid → String → SubmitJob → PreparedJob → Job
  new_job id printer_id request prepared = record {
    id = id;
    printer_id = printer_id;
    state = receiving;
    created_at = now;
    updated_at = now;
    label_count = some prepared.label_count;
    label_count_source = some "v2_artifacts_and_copies";
    origin = some "print-service-v2";
    description = request.description;
    idempotency_key = some request.idempotency_key;
    sha256 = some prepared.request_hash;
    bytes = length prepared.bytes;
    bytes_transferred = 0;
    delivery_attempts = 0;
    payload_path = none;
    error = none;
  }

  abbrev pub failed_job : Error → Job → Job
  failed_job e job = record job { state = failed; updated_at = now; error = some (display e) }

  abbrev pub stored_job : Bool → Job → Job
  stored_job changed job = record job {
    state = if changed then held else queued;
    updated_at = now;
    payload_path = some job.id;
  }

  abbrev pub held_job : Job → Job
  held_job job = record job { error = some "media_revision_changed" }

-- The parameters of the handler: the printer's protocol, and what it reads of the configuration.
module _ (parse : Bytes → Option RasterPage) (json_copies : Bytes → Option (Option ℕ))
    (decode : Text → Option Bytes) (sha256 : Bytes → Text)
    (request_hash : CanonicalRequest → String) (digest : DateTime → MediaDefinition → String)
    (bytes_json : ℕ → String) (queued_json : ℕ → Bool → String) (config : Tokens) (max_active : ℕ)
    (storage : StorageMode) where
  -- What becomes of the job when the worker has answered, or not.
  unfoldable pub answer_enqueued :
      DateTime → Job → Result (Unit {0}) × Agent → Answer JobValue × Agent
  unfolding save_job
  answer_enqueued now job (ok _, s) = (done (v2_job_value job), s)
  answer_enqueued now job (err e, s) =
      (stored (save_job (failed_job now e job)) >> answer (problem (queue_unavailable e))) s

  abbrev event_kind : Bool → String
  event_kind true = "job_held"
  event_kind false = "job_queued"

  abbrev pub event_of : DateTime → Bool → Job → Store → Event
  event_of now changed job s =
      next_event now (event_kind changed) (some job.printer_id) (some job.id)
        (queued_json job.bytes changed) s

  abbrev pub announce : DateTime → Bool → Job → Exec Store (Unit {0})
  announce now changed job s = append_event (event_of now changed job s) s

  -- A job whose roll was exchanged is held, any other goes to the worker.
  unfoldable pub hand_over : DateTime → Bool → Job → Handle → Handler JobValue
  unfolding save_job send_command answer_enqueued
  hand_over now true staged h s =
      (do
        stored (save_job (held_job now staged))
        answer (done (v2_job_value (held_job now staged))))
        s
  hand_over now false staged h s =
      answer_enqueued now staged
        (send_command bytes_json now storage staged.printer_id (enqueue staged.id) h.worker s)

  -- What follows the write of the payload.
  unfoldable pub enter_job : DateTime → Bool → Job → Handle → Handler JobValue
  unfolding save_job register_job append_event next_event hand_over
  enter_job now changed job h = do
    stored (save_job (stored_job now changed job))
    stored (register_job job.id)
    stored (announce now changed (stored_job now changed job))
    hand_over now changed (stored_job now changed job) h

  unfoldable pub after_payload :
      DateTime → Bool → Job → Handle → Result (Unit {0}) × Store → Agent → Answer JobValue × Agent
  unfolding enter_job save_job
  after_payload now changed job h (ok _, store) s =
      enter_job now changed job h (record s { store = store })
  after_payload now changed job h (err e, store) s = (
    problem (internal_error e),
    record s { store = attempt (save_job (failed_job now e job)) store },
  )

  unfoldable pub store_job : DateTime → Bool → Job → Handle → Handler JobValue
  unfolding save_job persist_v2_payload after_payload
  store_job now changed job h = do
    stored (save_job job)
    λ s. after_payload now changed job h (persist_v2_payload job.id s.store) s

  -- Under the lock: a key that is known is answered, a full queue refuses, and else the job is stored.
  unfoldable pub create_prepared :
      DateTime → Uuid → String → SubmitJob → PreparedJob → Bool → Handle → Handler JobValue
  unfolding find_job_by_idempotency_key answer_known count_active_jobs store_job
  create_prepared now id printer_id request prepared changed h s =
      elim (find_job_by_idempotency_key request.idempotency_key none s.store.jobs) [
        | some existing ↦ (answer_known printer_id prepared.request_hash existing, s)
        | none ↦ elim (leb max_active (count_active_jobs printer_id s.store.jobs)) [
          | true ↦ (problem queue_full, s)
          | false ↦ store_job now changed (new_job now id printer_id request prepared) h s
        ]
      ]

  -- Whether the roll is another one than the client has seen.
  unfoldable pub revision_changed : Option String → Option MediaState → Bool
  unfolding media_revision
  revision_changed none media = false
  revision_changed (some expected) none = true
  revision_changed (some expected) (some media) =
      not (str_eq (media_revision digest media) expected)

  unfoldable pub media_changed : String → Option String → Handler Bool
  unfolding load_media revision_changed
  media_changed printer_id none = answer (done false)
  media_changed printer_id (some expected) = do
    media ← stored (load_media printer_id)
    answer (done (revision_changed (some expected) media))

  unfoldable pub v2_create_job :
      DateTime → Uuid → Option Bytes → String → SubmitJob → Handler JobValue
  unfolding v2_authorize media_changed prepare_job create_prepared
  v2_create_job now id header printer_id request s =
      (do
        answer (v2_authorize config header print)
        h ← answer (or_problem (s.workers printer_id) (not_found "printer_not_found"))
        changed ← media_changed printer_id request.media_revision
        prepared ← answer (
            or_error bad_request (
              prepare_job parse json_copies decode sha256 request_hash printer_id request
                h.profile))
        create_prepared now id printer_id request prepared changed h)
        s
