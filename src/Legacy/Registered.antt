-- ===== src/Legacy/Registered.antt =====
-- Under the lock of `create_job` (src/api.rs): what becomes of a job that has been received.
use zebra_tamer.Prelude.{
  ℕ, ◌+◌, ◌<◌, ◌≡◌, refl, sym, ap, subst, ◌∙◌, String, none, some, arith, ltb, eq_iff, Bool-cases,
  Option-cases, inl, inr,
}
use zebra_tamer.Prelude.Result.{Result, ok, err}
use zebra_tamer.Model.Job.{DateTime, Job, receiving, queued}
use zebra_tamer.Store.Files.{reply}
use zebra_tamer.Store.State.{head_outcome, tail_outcomes}
use zebra_tamer.Store.Jobs.{
  JobDir, register_job, count_active_jobs, find_job_by_idempotency_key, remove_unregistered_job,
}
use zebra_tamer.Store.Printers.{append_event}
use zebra_tamer.Worker.Process.{StorageMode}
use zebra_tamer.Worker.Queue.{enqueue}
use zebra_tamer.Api.Agent.{problem, Agent, Handle, Handler, answer, send_command, ◌>>◌}
use zebra_tamer.Api.Create.{is_same_job}
use zebra_tamer.Api.Limit.{IsFresh}
use zebra_tamer.Legacy.{stored, queue_full, unavailable, conflict}
use zebra_tamer.Legacy.Upload.{put_store}
use zebra_tamer.Legacy.Create.{
  answer_enqueued, refused_job, hand_over, announce, enter_job, register, answer_known, find_key,
}
use zebra_tamer.Legacy.Goes.{
  Lands, Goes, goes, refused, dropped, with_job, IsSmooth, bind-Goes, stored-Goes,
}
use zebra_tamer.Legacy.Received.{remove-Lands}
use zebra_tamer.Legacy.Enqueued.{send_command-Lands, send_command-IsQueued}
use zebra_tamer.Legacy.Settled.{
  Settles, IsQueued, earlier, entered, find_job-own, count_active_jobs-own, save-Goes, ltb-false,
  register_job-IsSmooth,
}

module _ (bytes_json : ℕ → String) (now : DateTime) (storage : StorageMode) (max_active : ℕ)
    (queued_json : ℕ → String) (job : Job) (dir : JobDir) (fresh : IsFresh job.id dir) where
  abbrev EnteredAt : {A : Type 0} → A → Agent → Type 0
  EnteredAt a s = Lands (with_job job.id job dir) s.store

  abbrev SettledAt : Handle → Job → Agent → Type 0
  SettledAt h = Settles job.id job.printer_id job.idempotency_key max_active dir h.worker.queue

  announce-IsSmooth :
      (bytes : ℕ) → IsSmooth (announce bytes_json now storage max_active queued_json bytes job)
  unfolding append_event
  announce-IsSmooth bytes dir t h = (
    (tt, ap (λ os. reply (head_outcome os)) h.outcomes),
    record { outcomes = ap tail_outcomes h.outcomes; jobs = h.jobs },
  )

  answer_enqueued-Goes :
      (handle : Handle) (r : Result (Unit {0})) (s : Agent)
      → job.state ≡ queued
      → count_active_jobs job.printer_id dir < max_active
      → Lands (with_job job.id job dir) s.store
      → (r ≡ ok tt → IsQueued handle.worker.queue job.printer_id job.id s)
      → Goes job.id job.printer_id dir
          (SettledAt handle)
          (answer_enqueued bytes_json now storage max_active queued_json job (r, s))
  unfolding answer_enqueued
  answer_enqueued-Goes handle (ok _) s state room h there =
      goes job refl (entered refl refl refl state room h (there refl))
  answer_enqueued-Goes handle (err e) s state room h there =
      save-Goes (refused_job e job) job job.printer_id dir (SettledAt handle)
        (answer (problem (unavailable e))) s fresh h
        (λ s' same h'. dropped (unavailable e) (refused_job e job) refl refl refl refl h')

  hand_over-Goes :
      (handle : Handle) (s : Agent)
      → job.state ≡ queued
      → count_active_jobs job.printer_id dir < max_active
      → Lands (with_job job.id job dir) s.store
      → s.workers job.printer_id ≡ some handle
      → Goes job.id job.printer_id dir
          (SettledAt handle)
          (hand_over bytes_json now storage max_active queued_json job handle s)
  hand_over-Goes handle s state room at running =
      let sent =
        send_command bytes_json now storage job.printer_id (enqueue job.id) handle.worker s in
      answer_enqueued-Goes handle sent.0 sent.1 state room
        (send_command-Lands bytes_json now storage job.printer_id job.id handle.worker
          (with_job job.id job dir) s at)
        (send_command-IsQueued bytes_json now storage job.printer_id job.id handle s running)

  enter_job-Goes :
      (bytes : ℕ) (old : Job) (handle : Handle) (s : Agent)
      → job.state ≡ queued
      → count_active_jobs job.printer_id dir < max_active
      → Lands (with_job job.id old dir) s.store
      → s.workers job.printer_id ≡ some handle
      → Goes job.id job.printer_id dir
          (SettledAt handle)
          (enter_job bytes_json now storage max_active queued_json bytes job handle s)
  unfolding enter_job
  enter_job-Goes bytes old handle s state room at running =
      let tell = announce bytes_json now storage max_active queued_json bytes job in
      let end = hand_over bytes_json now storage max_active queued_json job handle in
      let telling : Handler Job = stored tell >> end in
      let files = with_job job.id job dir in
      save-Goes job old job.printer_id dir (SettledAt handle)
        (stored (register_job job.id) >> telling) s fresh at
        (λ s1 same h1.
          bind-Goes job.id job.printer_id dir EnteredAt (SettledAt handle)
            (stored (register_job job.id)) (λ _. telling) s1
            (stored-Goes job.id job.printer_id dir files (register_job job.id) s1
              (register_job-IsSmooth job.id) h1)
            (λ _ h2.
              bind-Goes job.id job.printer_id dir EnteredAt (SettledAt handle) (stored tell)
                (λ _. end) (stored (register_job job.id) s1).1
                (stored-Goes job.id job.printer_id dir files tell
                  (stored (register_job job.id) s1).1 (announce-IsSmooth bytes) h2)
                (λ _ h3.
                  hand_over-Goes handle (stored tell (stored (register_job job.id) s1).1).1 state
                    room h3 (ap (λ ws. ws job.printer_id) same ∙ running))))

  -- A job with the same key, of this printer, is the answer; a key of another job is refused.
  answer_known-Goes :
      (handle : Handle) (k digest : String) (existing : Job) (s : Agent)
      → job.idempotency_key ≡ some k
      → find_job_by_idempotency_key k (some job.id) dir ≡ some existing
      → Lands dir s.store
      → Goes job.id job.printer_id dir
          (SettledAt handle)
          (answer_known job.printer_id digest existing, s)
  unfolding answer_known
  answer_known-Goes handle k digest existing s key found h =
      elim (Bool-cases (is_same_job job.printer_id digest existing)) [
        | inl same ↦
            rw (same, answer_known)
              (goes existing refl (
                earlier k key found
                  (ground (arith, same, eq_iff existing.printer_id job.printer_id)) h))
        | inr other ↦
            rw (other, answer_known)
              (refused (conflict "idempotency_key_reused_for_different_job") refl h)
      ]

  -- Under the lock: the rest of the request, of a job whose file says that it is being received.
  register-Goes_free :
      (digest : String) (bytes : ℕ) (old : Job) (handle : Handle) (s : Agent)
      → job.state ≡ queued
      → old.printer_id ≡ job.printer_id
      → old.state ≡ receiving
      → Lands (with_job job.id old dir) s.store
      → s.workers job.printer_id ≡ some handle
      → find_key job.idempotency_key job.id s.store ≡ none
      → Goes job.id job.printer_id dir
          (SettledAt handle)
          (register bytes_json now storage max_active queued_json digest bytes job handle s)
  unfolding register
  register-Goes_free digest bytes old handle s state own waits at running unknown =
      elim (Bool-cases (ltb max_active (count_active_jobs job.printer_id s.store.jobs))) [
        | inl crowded ↦
            rw (unknown, crowded, register)
              (refused queue_full refl (remove-Lands job.id old dir s.store fresh at))
        | inr room ↦
            rw (unknown, room, register)
              (enter_job-Goes bytes old handle s state
                (omega (
                  arith,
                  ltb-false max_active (count_active_jobs job.printer_id s.store.jobs) room,
                  ap (count_active_jobs job.printer_id) at.jobs,
                  subst
                      (λ p.
                        count_active_jobs p (with_job job.id old dir) ≡ count_active_jobs p dir + 1)
                      own (count_active_jobs-own job.id old dir waits),
                ))
                at running)
      ]

  register-Goes_known :
      (digest k : String) (bytes : ℕ) (existing old : Job) (handle : Handle) (s : Agent)
      → old.id ≡ job.id
      → job.idempotency_key ≡ some k
      → Lands (with_job job.id old dir) s.store
      → s.workers job.printer_id ≡ some handle
      → find_job_by_idempotency_key k (some job.id) s.store.jobs ≡ some existing
      → Goes job.id job.printer_id dir
          (SettledAt handle)
          (register bytes_json now storage max_active queued_json digest bytes job handle s)
  unfolding register
  register-Goes_known digest k bytes existing old handle s own key at running known =
      let t = put_store (remove_unregistered_job job.id s.store) s in
      let earlier_on =
        sym (find_job-own k job.id old dir own)
        ∙ sym (ap (find_job_by_idempotency_key k (some job.id)) at.jobs)
        ∙ known in
      let found : find_key job.idempotency_key job.id s.store ≡ some existing =
        rw (key, known) refl in
      rw (found, register)
        (answer_known-Goes handle k digest existing t key earlier_on
          (remove-Lands job.id old dir s.store fresh at))

  pub register-Goes :
      (digest : String) (bytes : ℕ) (old : Job) (handle : Handle) (s : Agent)
      → job.state ≡ queued
      → old.id ≡ job.id
      → old.printer_id ≡ job.printer_id
      → old.state ≡ receiving
      → Lands (with_job job.id old dir) s.store
      → s.workers job.printer_id ≡ some handle
      → Goes job.id job.printer_id dir
          (SettledAt handle)
          (register bytes_json now storage max_active queued_json digest bytes job handle s)
  register-Goes digest bytes old handle s state same own waits at running =
      elim (Option-cases job.idempotency_key) [
        | inl none_given ↦
            register-Goes_free digest bytes old handle s state own waits at running
              (rw none_given refl)
        | inr (k, key) ↦
            elim (Option-cases (find_job_by_idempotency_key k (some job.id) s.store.jobs)) [
              | inl unknown ↦
                  register-Goes_free digest bytes old handle s state own waits at running
                    (rw (key, unknown) refl)
              | inr (existing, known) ↦
                  register-Goes_known digest k bytes existing old handle s same key at running known
            ]
      ]
