-- ===== src/Legacy/Create.antt =====
-- `create_job` of src/api.rs. Parameters: `driver_of` is the driver in the configuration of a printer,
-- `sha256_hex` the hexadecimal digest, `chunks` how the reads of a stored file go, and `queued_json`
-- the data of the event.
use zebra_tamer.Prelude.{
  ℕ, String, Bool, true, false, not, ◌||◌, Option, none, some, List, ◌∷◌, ◌++◌, ltb, ◌==◌, str_eq,
  if◌then◌else◌,
}
use zebra_tamer.Prelude.Text.{Text, Bytes, codes, text_len}
use zebra_tamer.Prelude.Result.{Result, ok, err, Error, message}
use zebra_tamer.Prelude.Exec.{Exec}
use zebra_tamer.Model.Job.{DateTime, Uuid, Job, Event, receiving, queued, failed}
use zebra_tamer.Store.State.{Store}
use zebra_tamer.Store.Jobs.{
  save_job, register_job, count_active_jobs, find_job_by_idempotency_key, remove_unregistered_job,
}
use zebra_tamer.Store.Printers.{append_event, next_event}
use zebra_tamer.Driver.{RasterPage}
use zebra_tamer.Driver.Payload.{DriverDescriptor, descriptor, accepts, mime_of}
use zebra_tamer.Transport.{Chunk}
use zebra_tamer.Worker.Queue.{enqueue}
use zebra_tamer.Worker.Process.{StorageMode}
use zebra_tamer.Api.Agent.{
  Answer, done, problem, Agent, Handle, Handler, answer, or_problem, send_command, ◌>>=◌, ◌>>◌,
}
use zebra_tamer.Api.Create.{is_same_job, display}
use zebra_tamer.Legacy.{
  Submission, count_of, stored, not_found, bad_request, unavailable, conflict, queue_full,
}
use zebra_tamer.Legacy.ParsePq.{parse_pq}
use zebra_tamer.Legacy.Upload.{Received, Payload, upload, put_store}

-- The printer's driver has to be there and to take the content type. The message is that of the only
-- driver.
unfoldable pub check_driver : String → Text → Answer DriverDescriptor
unfolding descriptor accepts
check_driver driver content_type = elim (descriptor driver) [
  | none ↦ problem (unavailable (message "configured_driver_is_unknown"))
  | some d ↦
      if not d.available
      then problem (unavailable (message "configured_driver_is_not_available"))
      else if not (accepts d content_type)
      then problem (
          bad_request
            "content type must match driver zpl; accepted: application/zpl, application/vnd.printhub.raster-page+json")
      else done d
]

abbrev is_valid_key : Option String → Bool
is_valid_key none = true
is_valid_key (some key) = not (text_len (codes key) == 0 || ltb 255 (text_len (codes key)))

unfoldable pub check_key : Option String → Answer (Unit {0})
check_key key =
    if is_valid_key key
    then done tt
    else problem (bad_request "x-idempotency-key must contain between 1 and 255 characters")

module _ (now : DateTime) (printer_id : String) (request : Submission) where
  abbrev pub header_source : Option ℕ → Option String
  header_source none = none
  header_source (some n) = some "header"

  -- The job as it is first written.
  abbrev pub received_job : Uuid → Job
  received_job id = record {
    id = id;
    printer_id = printer_id;
    state = receiving;
    created_at = now;
    updated_at = now;
    label_count = count_of request.label_count;
    label_count_source = header_source (count_of request.label_count);
    origin = request.origin;
    description = request.description;
    idempotency_key = none;
    sha256 = none;
    bytes = 0;
    bytes_transferred = 0;
    delivery_attempts = 0;
    payload_path = none;
    error = none;
  }

  -- The raster page's own count comes first, then the header's, then the document's.
  unfoldable pub labels_of :
      Option (List Chunk) → DriverDescriptor → Option ℕ → Option ℕ × Option String
  unfolding count_of parse_pq
  labels_of file driver (some n) = (some n, some "raster_payload")
  labels_of file driver none = elim (count_of request.label_count) [
    | some n ↦ (some n, some "header")
    | none ↦
        if str_eq driver.id "zpl" then (parse_pq file, some "zpl_pq_best_effort") else (none, none)
  ]

  -- The job as it enters the queue.
  abbrev pub queued_job : String → Option ℕ × Option String → Received → Job → Job
  queued_job digest labels received job = record job {
    state = queued;
    updated_at = now;
    label_count = labels.0;
    label_count_source = labels.1;
    sha256 = some digest;
    bytes = if job.bytes == 0 then received.bytes else job.bytes;
    payload_path = some job.id;
    idempotency_key = request.idempotency_key;
  }

abbrev pub refused_job : Error → Job → Job
refused_job e job = record job { state = failed; error = some (display e) }

-- `remove_unregistered_job` and the answer.
abbrev pub withdraw : Uuid → Answer Job → Handler Job
withdraw id a s = (a, put_store (remove_unregistered_job id s.store) s)

unfoldable pub answer_known : String → String → Job → Answer Job
answer_known printer_id digest existing =
    if is_same_job printer_id digest existing
    then done existing
    else problem (conflict "idempotency_key_reused_for_different_job")

abbrev pub find_key : Option String → Uuid → Store → Option Job
find_key none id s = none
find_key (some key) id s = find_job_by_idempotency_key key (some id) s.jobs

module _ (bytes_json : ℕ → String) (now : DateTime) (storage : StorageMode) (max_active : ℕ)
    (queued_json : ℕ → String) where
  unfoldable pub answer_enqueued : Job → Result (Unit {0}) × Agent → Answer Job × Agent
  unfolding save_job
  answer_enqueued job (ok _, s) = (done job, s)
  answer_enqueued job (err e, s) =
      (stored (save_job (refused_job e job)) >> answer (problem (unavailable e))) s

  abbrev pub hand_over : Job → Handle → Handler Job
  hand_over job h s =
      answer_enqueued job
        (send_command bytes_json now storage job.printer_id (enqueue job.id) h.worker s)

  abbrev pub event_of : ℕ → Job → Store → Event
  event_of bytes job s =
      next_event now "job_queued" (some job.printer_id) (some job.id) (queued_json bytes) s

  abbrev pub announce : ℕ → Job → Exec Store (Unit {0})
  announce bytes job s = append_event (event_of bytes job s) s

  unfoldable pub enter_job : ℕ → Job → Handle → Handler Job
  unfolding save_job register_job append_event next_event send_command answer_enqueued
  enter_job bytes job h = do
    stored (save_job job)
    stored (register_job job.id)
    stored (announce bytes job)
    hand_over job h

  -- Under the lock. The job itself, which its file says is being received, is counted.
  unfoldable pub register : String → ℕ → Job → Handle → Handler Job
  unfolding find_job_by_idempotency_key answer_known count_active_jobs remove_unregistered_job
      enter_job
  register digest bytes job h s = elim (find_key job.idempotency_key job.id s.store) [
    | some existing ↦ withdraw job.id (answer_known job.printer_id digest existing) s
    | none ↦ elim (ltb max_active (count_active_jobs job.printer_id s.store.jobs)) [
      | true ↦ withdraw job.id (problem queue_full) s
      | false ↦ enter_job bytes job h s
    ]
  ]

module _ (parse : Bytes → Option RasterPage) (decode : Text → Option Bytes)
    (sha256_hex : Bytes → String) (chunks : Bytes → Option (List Chunk))
    (driver_of : String → String) (bytes_json : ℕ → String) (queued_json : ℕ → String)
    (storage : StorageMode) (max_active : ℕ) (max_job_bytes : ℕ) where
  -- The digest covers the type, a zero and the body as it was sent.
  abbrev pub digest_of : Text → Bytes → String
  digest_of content_type content = sha256_hex (content_type ++ (0 ∷ content))

  unfoldable pub finish_job :
      DateTime → String → Submission → DriverDescriptor → Handle → Received → Payload → Handler Job
  unfolding mime_of labels_of register
  finish_job now printer_id request driver h received payload =
      let digest = digest_of (mime_of request.content_type) received.content in
      let labels =
        labels_of now printer_id request (chunks payload.content) driver payload.counted in
      register bytes_json now storage max_active queued_json digest received.bytes
        (queued_job now printer_id request digest labels received payload.job) h

  unfoldable pub receive_job :
      DateTime → Uuid → String → Submission → DriverDescriptor → Handle → Handler Job
  unfolding save_job upload mime_of finish_job
  receive_job now id printer_id request driver h = do
    stored (save_job (received_job now printer_id request id))
    (received, payload) ←
        upload parse decode now max_job_bytes (mime_of request.content_type) h.profile
          (received_job now printer_id request id) request.body
    finish_job now printer_id request driver h received payload

  unfoldable pub create_job : DateTime → Uuid → String → Submission → Handler Job
  unfolding check_driver check_key receive_job
  create_job now id printer_id request s =
      (do
        h ← answer (or_problem (s.workers printer_id) (not_found "printer_not_found"))
        driver ← answer (check_driver (driver_of printer_id) request.content_type)
        answer (check_key request.idempotency_key)
        receive_job now id printer_id request driver h)
        s
