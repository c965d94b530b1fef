-- ===== src/Legacy/Upload.antt =====
-- src/api.rs: how `create_job` takes the body of a request to the file of the payload.
use zebra_tamer.Prelude.{ℕ, ◌+◌, true, false, Option, none, List, [], ◌∷◌, ◌++◌, length, ltb}
use zebra_tamer.Prelude.Words.{saturating_add}
use zebra_tamer.Prelude.Text.{Text, Bytes, text_eq}
use zebra_tamer.Prelude.Result.{Result, ok, err}
use zebra_tamer.Prelude.Exec.{Exec, attempt, lift}
use zebra_tamer.Model.Job.{DateTime, Uuid, Job}
use zebra_tamer.Store.State.{Store}
use zebra_tamer.Store.Jobs.{save_job, remove_unregistered_job}
use zebra_tamer.Driver.{RasterPage, DeviceProfile, PreparedPayload}
use zebra_tamer.Driver.Payload.{prepare_zebra_payload, zpl_mime}
use zebra_tamer.Api.Agent.{Answer, done, problem, Handler, Agent, answer, ◌>>=◌, ◌>>◌}
use zebra_tamer.Api.Create.{failed_job}
use zebra_tamer.Api.Payload.{create_part, unseen, rename_part}
use zebra_tamer.Legacy.{Frame, chunk, broken, internal, job_too_large}

abbrev pub put_store : Store → Agent → Agent
put_store store s = record s { store = store }

-- `fail_receiving`, and the return with its error.
unfoldable pub after_step :
    {A : Type 0} → DateTime → Job → Result A × Store → Agent → Answer A × Agent
unfolding save_job
after_step now job (ok a, store) s = (done a, put_store store s)
after_step now job (err e, store) s =
    (problem (internal e), put_store (attempt (save_job (failed_job now e job)) store) s)

unfoldable pub or_fail : {A : Type 0} → DateTime → Job → Exec Store A → Handler A
unfolding after_step
or_fail now job action s = after_step now job (action s.store) s

-- The loop over the body: the count and the content, which grow together.
pub record Received : Type 0 where
  pub bytes : ℕ
  pub content : Bytes

abbrev pub grown : Bytes → Received → Received
grown c r = record { bytes = r.bytes + length c; content = r.content ++ c }

module _ (max_job_bytes : ℕ) (now : DateTime) (job : Job) where
  unfoldable pub receive_body : List Frame → Received → Handler Received
  unfolding or_fail remove_unregistered_job
  receive_body [] r s = (done r, s)
  receive_body (broken e ∷ frames) r s = or_fail now job (lift (err e)) s
  receive_body (chunk c ∷ frames) r s =
      elim (ltb max_job_bytes (saturating_add r.bytes (length c))) [
        | true ↦ (problem job_too_large, put_store (remove_unregistered_job job.id s.store) s)
        | false ↦ (or_fail now job unseen >> receive_body frames (grown c r)) s
      ]

-- `fs::read` of the part file, which gives back what was written and synchronised.
abbrev pub giving : {A : Type 0} → A → Result (Unit {0}) → Result A
giving a (ok _) = ok a
giving a (err e) = err e

abbrev pub read_back : Bytes → Exec Store Bytes
read_back content s = let (r, after) = unseen s in (giving content r, after)

-- The payload as it is stored; `counted` is `prepared_label_count`.
pub record Payload : Type 0 where
  pub job : Job
  pub content : Bytes
  pub counted : Option ℕ

abbrev pub sized : PreparedPayload → Job → Job
sized prepared job = record job { bytes = length prepared.bytes }

abbrev pub converted : Job → PreparedPayload → Payload
converted job prepared = record {
  job = sized prepared job;
  content = prepared.bytes;
  counted = prepared.label_count;
}

module _ (parse : Bytes → Option RasterPage) (decode : Text → Option Bytes) (now : DateTime) where
  abbrev pub keep_converted : Job → PreparedPayload → Handler Payload
  keep_converted job prepared = do
    or_fail now job unseen
    or_fail now job unseen
    or_fail now job unseen
    answer (done (converted job prepared))

  abbrev pub convert_read : Text → DeviceProfile → Job → Bytes → Handler Payload
  convert_read content_type profile job source = do
    prepared ←
        or_fail now job (lift (prepare_zebra_payload parse decode content_type source profile))
    keep_converted job prepared

  -- A document that is not ZPL is replaced by its conversion.
  unfoldable pub convert : Text → DeviceProfile → Job → Bytes → Handler Payload
  unfolding or_fail prepare_zebra_payload
  convert content_type profile job content = do
    source ← or_fail now job (read_back content)
    convert_read content_type profile job source

  unfoldable pub payload_of : Text → DeviceProfile → Job → Bytes → Handler Payload
  unfolding convert
  payload_of content_type profile job content = elim (text_eq content_type zpl_mime) [
    | true ↦ answer (done (record { job = job; content = content; counted = none }))
    | false ↦ convert content_type profile job content
  ]

  -- `rename` and `sync_parent`.
  abbrev pub place : Uuid → Received → Payload → Handler (Received × Payload)
  place id received payload = do
    or_fail now payload.job (rename_part id)
    or_fail now payload.job unseen
    answer (done (received, payload))

  abbrev pub store_received : Text → DeviceProfile → Job → Received → Handler (Received × Payload)
  store_received content_type profile job received = do
    or_fail now job unseen
    payload ← payload_of content_type profile job received.content
    place job.id received payload

  -- From the creation of the part file to the payload in its place.
  unfoldable pub upload : ℕ → Text → DeviceProfile → Job → List Frame → Handler (Received × Payload)
  unfolding or_fail receive_body payload_of
  upload max_job_bytes content_type profile job body = do
    or_fail now job (create_part job.id)
    received ← receive_body max_job_bytes now job body (record { bytes = 0; content = [] })
    store_received content_type profile job received
