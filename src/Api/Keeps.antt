-- ===== src/Api/Keeps.antt =====
-- What every step of storing a new job (src/api.rs) keeps, the whole of it keeps, errors included.
use zebra_tamer.Prelude.{ℕ, String, ◌≡◌, refl, sym, subst, Bool, true, false, Option}
use zebra_tamer.Prelude.Text.{Text, Bytes}
use zebra_tamer.Prelude.Result.{Result, ok, err}
use zebra_tamer.Prelude.Exec.{Exec}
use zebra_tamer.Model.Job.{DateTime, Uuid, Job, Event}
use zebra_tamer.Model.Media.{MediaDefinition}
use zebra_tamer.Store.State.{Store}
use zebra_tamer.Store.Jobs.{save_job, register_job}
use zebra_tamer.Store.Printers.{append_event}
use zebra_tamer.Driver.{RasterPage}
use zebra_tamer.Protocol.{CanonicalRequest}
use zebra_tamer.Auth.{Tokens}
use zebra_tamer.Worker.Queue.{Worker, enqueue}
use zebra_tamer.Worker.Process.{StorageMode}
use zebra_tamer.Api.Payload.{persist_v2_payload}
use zebra_tamer.Api.Agent.{
  Answer, done, problem, Agent, Handle, Handler, continue, stored, ◌>>=◌, send_command,
  internal_error, or_error,
}
use zebra_tamer.Api.Create.{
  JobValue, announce, event_of, stored_job, held_job, failed_job, answer_enqueued, hand_over,
  enter_job, after_payload, store_job,
}

abbrev pub after_store : {A : Type 0} → Exec Store A → Agent → Agent
after_store action s = record s { store = (action s.store).1 }

-- What the operations that storing the job `id` of a printer is made of keep.
pub record IsStable (bytes_json : ℕ → String) (storage : StorageMode) (id : Uuid) (printer : String)
    (P : Agent → Type 0) : Type 0 where
  pub saved :
      (job : Job) (s : Agent)
      → job.id ≡ id
      → job.printer_id ≡ printer
      → P s
      → P (after_store (save_job job) s)
  pub registered : (s : Agent) → P s → P (after_store (register_job id) s)
  pub announced : (event : Event) (s : Agent) → P s → P (after_store (append_event event) s)
  pub persisted : (s : Agent) → P s → P (after_store (persist_v2_payload id) s)
  pub sent :
      (now : DateTime) (w : Worker) (s : Agent)
      → P s
      → P (send_command bytes_json now storage printer (enqueue id) w s).1

pub continue-keeps :
    {A B : Type 0} (P : Agent → Type 0) (r : Answer A) (next : A → Handler B) (s : Agent)
    → P s
    → ((a : A) → P (next a s).1)
    → P (continue r next s).1
continue-keeps P (done a) next s p h = h a
continue-keeps P (problem e) next s p h = p

-- A step that does not change the agent, and what follows it.
pub bind-keeps :
    {A B : Type 0} (P : Agent → Type 0) (action : Handler A) (next : A → Handler B) (s : Agent)
    → (action s).1 ≡ s
    → P s
    → ((a : A) → P (next a s).1)
    → P ((action >>= next) s).1
bind-keeps P action next s kept p h =
    subst (λ t. P (continue (action s).0 next t).1) (sym kept)
      (continue-keeps P (action s).0 next s p h)

-- An operation of the store, and what follows it when it succeeds.
stored-keeps :
    {A B : Type 0} (P : Agent → Type 0) (action : Exec Store A) (next : A → Handler B) (s : Agent)
    → P (after_store action s)
    → ((a : A) → P (next a (after_store action s)).1)
    → P ((stored action >>= next) s).1
stored-keeps P action next s p h =
    continue-keeps P (or_error internal_error (action s.store).0) next (after_store action s) p h

module _ (parse : Bytes → Option RasterPage) (json_copies : Bytes → Option (Option ℕ))
    (decode : Text → Option Bytes) (sha256 : Bytes → Text)
    (request_hash : CanonicalRequest → String) (digest : DateTime → MediaDefinition → String)
    (bytes_json : ℕ → String) (queued_json : ℕ → Bool → String) (config : Tokens) (max_active : ℕ)
    (storage : StorageMode) where
  answer_enqueued-keeps :
      (P : Agent → Type 0) (now : DateTime) (job : Job) (out : Result (Unit {0}) × Agent)
      → IsStable bytes_json storage job.id job.printer_id P
      → P out.1
      → P
          (answer_enqueued parse json_copies decode sha256 request_hash digest bytes_json
            queued_json config max_active storage now job out).1
  unfolding answer_enqueued
  answer_enqueued-keeps P now job (ok _, s) stable p = p
  answer_enqueued-keeps P now job (err e, s) stable p =
      let p1 = stable.saved (failed_job now e job) s refl refl p in
      stored-keeps {B = JobValue} P (save_job (failed_job now e job)) _ s p1 (λ _. p1)

  hand_over-keeps :
      (P : Agent → Type 0) (now : DateTime) (changed : Bool) (job : Job) (h : Handle) (s : Agent)
      → IsStable bytes_json storage job.id job.printer_id P
      → P s
      → P
          (hand_over parse json_copies decode sha256 request_hash digest bytes_json queued_json
            config max_active storage now changed job h s).1
  unfolding hand_over
  hand_over-keeps P now true job h s stable p =
      let p1 = stable.saved (held_job now job) s refl refl p in
      stored-keeps {B = JobValue} P (save_job (held_job now job)) _ s p1 (λ _. p1)
  hand_over-keeps P now false job h s stable p =
      answer_enqueued-keeps P now job
        (send_command bytes_json now storage job.printer_id (enqueue job.id) h.worker s) stable
        (stable.sent now h.worker s p)

  enter_job-keeps :
      (P : Agent → Type 0) (now : DateTime) (changed : Bool) (job : Job) (h : Handle) (s : Agent)
      → IsStable bytes_json storage job.id job.printer_id P
      → P s
      → P
          (enter_job parse json_copies decode sha256 request_hash digest bytes_json queued_json
            config max_active storage now changed job h s).1
  unfolding enter_job
  enter_job-keeps P now changed job h s stable p =
      let staged = stored_job now changed job in
      let tell =
        announce parse json_copies decode sha256 request_hash digest bytes_json queued_json config
          max_active storage now changed staged in
      let s1 = after_store (save_job staged) s in
      let s2 = after_store (register_job job.id) s1 in
      let p1 = stable.saved staged s refl refl p in
      let p2 = stable.registered s1 p1 in
      let event =
        event_of parse json_copies decode sha256 request_hash digest bytes_json queued_json config
          max_active storage now changed staged s2.store in
      let p3 = stable.announced event s2 p2 in
      stored-keeps {B = JobValue} P (save_job staged) _ s p1 (λ _.
        stored-keeps {B = JobValue} P (register_job job.id) _ s1 p2 (λ _.
          stored-keeps {B = JobValue} P tell _ s2 p3
            (λ _. hand_over-keeps P now changed staged h (after_store tell s2) stable p3)))

  after_payload-keeps :
      (P : Agent → Type 0) (now : DateTime) (changed : Bool) (job : Job) (h : Handle)
      (r : Result (Unit {0})) (store : Store) (s : Agent)
      → IsStable bytes_json storage job.id job.printer_id P
      → P (record s { store = store })
      → P
          (after_payload parse json_copies decode sha256 request_hash digest bytes_json queued_json
            config max_active storage now changed job h
            (r, store)
            s).1
  unfolding after_payload
  after_payload-keeps P now changed job h (ok _) store s stable p =
      enter_job-keeps P now changed job h (record s { store = store }) stable p
  after_payload-keeps P now changed job h (err e) store s stable p =
      stable.saved (failed_job now e job) (record s { store = store }) refl refl p

  pub store_job-keeps :
      (P : Agent → Type 0) (now : DateTime) (changed : Bool) (job : Job) (h : Handle) (s : Agent)
      → IsStable bytes_json storage job.id job.printer_id P
      → P s
      → P
          (store_job parse json_copies decode sha256 request_hash digest bytes_json queued_json
            config max_active storage now changed job h s).1
  unfolding store_job
  store_job-keeps P now changed job h s stable p =
      let p1 = stable.saved job s refl refl p in
      let s1 = after_store (save_job job) s in
      let out = persist_v2_payload job.id s1.store in
      stored-keeps {B = JobValue} P (save_job job) _ s p1 (λ _.
        after_payload-keeps P now changed job h out.0 out.1 s1 stable (stable.persisted s1 p1))
