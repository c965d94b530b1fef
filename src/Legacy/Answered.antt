-- ===== src/Legacy/Answered.antt =====
-- How a request to `create_job` of src/api.rs can end.
use zebra_tamer.Prelude.{
  ℕ, ◌≤◌, ◌≡◌, ◌≢◌, refl, sym, ap, subst, ◌∙◌, String, Option, none, some, List, [], ◌∷◌, arith,
  str_eq, Bool-cases, Option-cases, inl, inr,
}
use zebra_tamer.Prelude.Text.{Text, Bytes}
use zebra_tamer.Model.Job.{DateTime, Uuid, Job, failed}
use zebra_tamer.Store.Files.{holds}
use zebra_tamer.Store.Jobs.{JobDir, count_active_jobs}
use zebra_tamer.Driver.{RasterPage}
use zebra_tamer.Driver.Payload.{DriverDescriptor, mime_of}
use zebra_tamer.Transport.{Chunk}
use zebra_tamer.Worker.Process.{StorageMode}
use zebra_tamer.Api.Agent.{Answer, done, problem, Agent, Handle, Handler, answer, ◌>>=◌, ◌>>◌}
use zebra_tamer.Api.Limit.{IsFresh, count_active_jobs-append, IsEntry-count}
use zebra_tamer.Legacy.{not_found, Submission}
use zebra_tamer.Legacy.Upload.{upload, Received, Payload}
use zebra_tamer.Legacy.Create.{
  register, received_job, queued_job, labels_of, digest_of, finish_job, receive_job, create_job,
  check_driver, check_key,
}
use zebra_tamer.Legacy.Goes.{Lands, Goes, goes, refused, dropped, with_job, bind-Goes}
use zebra_tamer.Legacy.Settled.{Settles, earlier, entered, first_save-Goes}
use zebra_tamer.Legacy.Still.{upload-IsStill}
use zebra_tamer.Legacy.Registered.{register-Goes}
use zebra_tamer.Legacy.Received.{upload-Goes, IsOf}

-- An answer that leaves the agent alone.
answer-Goes :
    {A B : Type 0} (id : Uuid) (printer : String) (dir : JobDir) (R : B → Agent → Type 0)
    (a : Answer A) (next : A → Handler B) (s : Agent)
    → Lands dir s.store
    → ((x : A) → Goes id printer dir R (next x s))
    → Goes id printer dir R ((answer a >>= next) s)
answer-Goes id printer dir R (done x) next s h k = k x
answer-Goes id printer dir R (problem e) next s h k = refused e refl h

failed-none :
    (id : Uuid) (printer : String) (job : Job)
    → job.state ≡ failed
    → count_active_jobs printer ((id, holds job) ∷ []) ≡ 0
unfolding count_active_jobs
failed-none id printer job state = elim (Bool-cases (str_eq job.printer_id printer)) [
  | inl own ↦ rw (own, state, count_active_jobs) refl
  | inr other ↦ rw (other, count_active_jobs) refl
]

failed-count :
    (id : Uuid) (printer : String) (job : Job) (dir : JobDir)
    → job.state ≡ failed
    → count_active_jobs printer (with_job id job dir) ≡ count_active_jobs printer dir
failed-count id printer job dir state =
    let new : JobDir = (id, holds job) ∷ [] in
    omega (arith, count_active_jobs-append printer dir new, failed-none id printer job state)

-- Counts that are as before.
abbrev AreSame : JobDir → JobDir → Type 0
AreSame dir dir' =
    (printer : String) → count_active_jobs printer dir' ≡ count_active_jobs printer dir

same-limit :
    (printer : String) (max_active : ℕ) (dir dir' : JobDir)
    → count_active_jobs printer dir ≤ max_active
    → AreSame dir dir'
    → (count_active_jobs printer dir' ≤ max_active)
      × ((other : String)
          → printer ≢ other
          → count_active_jobs other dir' ≡ count_active_jobs other dir)
same-limit printer max_active dir dir' within same =
    (omega (arith, within, same printer), λ other differs. same other)

-- The counts after a request that ended in one of the ways.
Goes-limit :
    (id : Uuid) (printer : String) (key : Option String) (max_active : ℕ) (dir : JobDir)
    (queue : List Uuid) (out : Answer Job × Agent)
    → count_active_jobs printer dir ≤ max_active
    → Goes id printer dir (Settles id printer key max_active dir queue) out
    → (count_active_jobs printer out.1.store.jobs ≤ max_active)
      × ((other : String)
          → printer ≢ other
          → count_active_jobs other out.1.store.jobs ≡ count_active_jobs other dir)
Goes-limit id printer key max_active dir queue out within (goes job e (earlier k has found own h)) =
    same-limit printer max_active dir _ within (λ p. ap (count_active_jobs p) h.jobs)
Goes-limit id printer key max_active dir queue out within
      (goes job e (entered is own has state room h waits)) =
    let counts = IsEntry-count id printer dir _ (inr (job, own, h.jobs)) in
    (omega (arith, room, counts.0), counts.1)
Goes-limit id printer key max_active dir queue out within (refused e p h) =
    same-limit printer max_active dir _ within (λ p. ap (count_active_jobs p) h.jobs)
Goes-limit id printer key max_active dir queue out within (dropped e job p is own state h) =
    same-limit printer max_active dir _ within
      (λ p. ap (count_active_jobs p) h.jobs ∙ failed-count id p job dir state)

-- What waits in the queue of a printer.
abbrev pub queue_at : Option Handle → List Uuid
queue_at none = []
queue_at (some h) = h.worker.queue

module _ (parse : Bytes → Option RasterPage) (decode : Text → Option Bytes)
    (sha256_hex : Bytes → String) (chunks : Bytes → Option (List Chunk))
    (driver_of : String → String) (bytes_json : ℕ → String) (queued_json : ℕ → String)
    (storage : StorageMode) (max_active : ℕ) (max_job_bytes : ℕ) where
  module _ (now : DateTime) (id : Uuid) (printer_id : String) (request : Submission) (dir : JobDir)
      (fresh : IsFresh id dir) where
    abbrev AnsweredAt : Handle → Job → Agent → Type 0
    AnsweredAt h = Settles id printer_id request.idempotency_key max_active dir h.worker.queue

    finish_job-Goes :
        (driver : DriverDescriptor) (h : Handle) (received : Received) (payload : Payload)
        (s : Agent)
        → payload.job.id ≡ id
        → payload.job.printer_id ≡ printer_id
        → Lands (with_job id (received_job now printer_id request id) dir) s.store
        → s.workers printer_id ≡ some h
        → Goes id printer_id dir (AnsweredAt h) (
            finish_job parse decode sha256_hex chunks driver_of bytes_json queued_json storage
              max_active max_job_bytes now printer_id request driver h received payload s)
    unfolding finish_job
    finish_job-Goes driver h received payload s own of at running =
        let digest =
          digest_of parse decode sha256_hex chunks driver_of bytes_json queued_json storage
            max_active max_job_bytes (mime_of request.content_type) received.content in
        let labels =
          labels_of now printer_id request (chunks payload.content) driver payload.counted in
        let job = queued_job now printer_id request digest labels received payload.job in
        let first = received_job now printer_id request id in
        let out =
          register bytes_json now storage max_active queued_json digest received.bytes job h s in
        let key = request.idempotency_key in
        subst
          (λ i. Goes i printer_id dir (Settles i printer_id key max_active dir h.worker.queue) out)
          own
          (subst (λ q. Goes job.id q dir (Settles job.id q key max_active dir h.worker.queue) out)
            of
            (register-Goes bytes_json now storage max_active queued_json job dir
              (subst (λ i. IsFresh i dir) (sym own) fresh) digest received.bytes first h s refl
              (sym own) (sym of) refl
              (subst (λ i. Lands (with_job i first dir) s.store) (sym own) at)
              (subst (λ q. s.workers q ≡ some h) (sym of) running)))

    receive_job-Goes :
        (driver : DriverDescriptor) (h : Handle) (s : Agent)
        → Lands dir s.store
        → s.workers printer_id ≡ some h
        → Goes id printer_id dir (AnsweredAt h) (
            receive_job parse decode sha256_hex chunks driver_of bytes_json queued_json storage
              max_active max_job_bytes now id printer_id request driver h s)
    unfolding receive_job
    receive_job-Goes driver h s at running =
        let first = received_job now printer_id request id in
        let load =
          upload parse decode now max_job_bytes (mime_of request.content_type) h.profile first
            request.body in
        let finish : Received × Payload → Handler Job = λ out.
          finish_job parse decode sha256_hex chunks driver_of bytes_json queued_json storage
            max_active max_job_bytes now printer_id request driver h out.0 out.1 in
        first_save-Goes first printer_id dir (AnsweredAt h) (load >>= finish) s fresh at
          (λ s1 same h1.
            bind-Goes id printer_id dir
              (λ (out : Received × Payload) s'.
                IsOf now first dir fresh first out.1 × Lands (with_job id first dir) s'.store)
              (AnsweredAt h) load finish s1
              (upload-Goes now first dir fresh parse decode max_job_bytes
                (mime_of request.content_type) h.profile request.body s1 h1)
              (λ out h2. finish_job-Goes driver h out.0 out.1 (load s1).1 h2.0.0 h2.0.1 h2.1 (
                ap (λ ws. ws printer_id)
                  (upload-IsStill now parse decode max_job_bytes (mime_of request.content_type)
                      h.profile first request.body s1
                    ∙ same)
                ∙ running)))

    create_job-Goes :
        (s : Agent)
        → Lands dir s.store
        → Goes id printer_id dir
            (Settles id printer_id request.idempotency_key max_active dir
              (queue_at (s.workers printer_id)))
            (create_job parse decode sha256_hex chunks driver_of bytes_json queued_json storage
              max_active max_job_bytes now id printer_id request s)
    unfolding create_job
    create_job-Goes s at =
        let receive : Handle → DriverDescriptor → Handler Job = λ h driver.
          receive_job parse decode sha256_hex chunks driver_of bytes_json queued_json storage
            max_active max_job_bytes now id printer_id request driver h in
        let driver = check_driver (driver_of printer_id) request.content_type in
        let key = check_key request.idempotency_key in
        elim (Option-cases (s.workers printer_id)) [
          | inl unknown ↦ rw unknown (refused (not_found "printer_not_found") refl at)
          | inr (h, running) ↦ rw running (
              answer-Goes id printer_id dir (AnsweredAt h) driver (λ d. answer key >> receive h d) s
                at
                (λ d.
                  answer-Goes id printer_id dir (AnsweredAt h) key (λ _. receive h d) s at
                    (λ _. receive_job-Goes d h s at running)))
        ]

  -- When no write fails and the new id is fresh, every request to create a job ends in one of four
  -- ways. It is refused, and the job files are as before; or it is answered with the job of this
  -- printer that has its key, and they are as before; or it fails with an error, and one job file more
  -- says so; or it is answered with the one new job, for which there was room under the limit, whose
  -- file says that it is queued, and which stands behind all that was in the queue of its printer, in
  -- the worker's memory and in the file of the queue.
  pub create_job_lem :
      (now : DateTime) (id : Uuid) (printer_id : String) (request : Submission) (s : Agent)
      → IsFresh id s.store.jobs
      → s.store.outcomes ≡ []
      → Goes id printer_id s.store.jobs
          (Settles id printer_id request.idempotency_key max_active s.store.jobs
            (queue_at (s.workers printer_id)))
          (create_job parse decode sha256_hex chunks driver_of bytes_json queued_json storage
            max_active max_job_bytes now id printer_id request s)
  create_job_lem now id printer_id request s fresh quiet =
      create_job-Goes now id printer_id request s.store.jobs fresh s
        (record { outcomes = quiet; jobs = refl })

  -- When no write fails and the new id is fresh: however a request to create a job ends, a printer that
  -- had no more active jobs than the limit has no more afterwards, and the other printers have as many
  -- as before.
  pub create_job-limit :
      (now : DateTime) (id : Uuid) (printer_id : String) (request : Submission) (s : Agent)
      → IsFresh id s.store.jobs
      → s.store.outcomes ≡ []
      → count_active_jobs printer_id s.store.jobs ≤ max_active
      → let s' =
          (create_job parse decode sha256_hex chunks driver_of bytes_json queued_json storage
            max_active max_job_bytes now id printer_id request s).1 in
        (count_active_jobs printer_id s'.store.jobs ≤ max_active)
        × ((other : String)
            → printer_id ≢ other
            → count_active_jobs other s'.store.jobs ≡ count_active_jobs other s.store.jobs)
  create_job-limit now id printer_id request s fresh quiet within =
      Goes-limit id printer_id request.idempotency_key max_active s.store.jobs
        (queue_at (s.workers printer_id)) _ within
        (create_job_lem now id printer_id request s fresh quiet)
