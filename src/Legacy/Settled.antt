-- ===== src/Legacy/Settled.antt =====
-- What `create_job` of src/api.rs leaves in the job directory.
use text.Mathlib.TextPositions.{eq_refl}
use zebra_tamer.Prelude.{
  ℕ, ◌+◌, ◌≤◌, ◌<◌, ◌≡◌, refl, ap, String, false, Option, some, List, [], ◌∷◌, ◌++◌, arith, ltb,
  ==_iff,
}
use zebra_tamer.Prelude.Result.{ok}
use zebra_tamer.Model.Job.{Uuid, Job, receiving, queued}
use zebra_tamer.Store.Files.{absent, corrupt, holds, reply}
use zebra_tamer.Store.State.{head_outcome, tail_outcomes}
use zebra_tamer.Store.Jobs.{
  JobDir, save_job, register_job, count_active_jobs, find_job_by_idempotency_key,
}
use zebra_tamer.Api.Agent.{Agent, Handle, Handler, ◌>>◌}
use zebra_tamer.Api.Limit.{IsFresh, count_active_jobs-append}
use zebra_tamer.Legacy.{stored}
use zebra_tamer.Legacy.Goes.{
  Lands, Goes, with_job, IsSmooth, bind-Goes, stored_result, save_job-Lands, save_job-Lands_again,
}

-- The job that waits to be received does not answer for its own key.
pub find_job-own :
    (key : String) (id : Uuid) (job : Job) (dir : JobDir)
    → job.id ≡ id
    → find_job_by_idempotency_key key (some id) (with_job id job dir)
      ≡ find_job_by_idempotency_key key (some id) dir
unfolding find_job_by_idempotency_key
find_job-own key id job [] own = rw ((==_iff job.id id).1 own) refl
find_job-own key id job ((k, absent) ∷ dir) own = find_job-own key id job dir own
find_job-own key id job ((k, corrupt) ∷ dir) own = find_job-own key id job dir own
find_job-own key id job ((k, holds other) ∷ dir) own = rw (find_job-own key id job dir own) refl

pub ltb-false : (a b : ℕ) → ltb a b ≡ false → b ≤ a
ltb-false a b h = ground arith

-- It counts, though.
pub count_active_jobs-own :
    (id : Uuid) (job : Job) (dir : JobDir)
    → job.state ≡ receiving
    → count_active_jobs job.printer_id (with_job id job dir)
      ≡ count_active_jobs job.printer_id dir + 1
unfolding count_active_jobs
count_active_jobs-own id job dir state =
    let new : JobDir = (id, holds job) ∷ [] in
    let one : count_active_jobs job.printer_id new ≡ 1 =
      rw (eq_refl job.printer_id, state, count_active_jobs) refl in
    omega (arith, count_active_jobs-append job.printer_id dir new, one)

-- The job stands behind the ones that were in its printer's queue, in the worker and in the file.
pub record IsQueued (queue : List Uuid) (printer : String) (id : Uuid) (s : Agent) : Type 0 where
  pub handle : Handle
  pub running : s.workers printer ≡ some handle
  pub in_worker : handle.worker.queue ≡ queue ++ (id ∷ [])
  pub in_file : (s.store.printers printer).queue ≡ holds (queue ++ (id ∷ []))

-- The end of a request that was answered with a job: an earlier one with the same key, or the new one,
-- which is queued behind `queue`, for which there was room.
pub data Settles (id : Uuid) (printer : String) (key : Option String) (max_active : ℕ)
    (dir : JobDir) (queue : List Uuid) (job : Job) (s : Agent) : Type 0 where
  earlier :
      (k : String)
      → key ≡ some k
      → find_job_by_idempotency_key k (some id) dir ≡ some job
      → job.printer_id ≡ printer
      → Lands dir s.store
      → Settles id printer key max_active dir queue job s
  entered :
      job.id ≡ id
      → job.printer_id ≡ printer
      → job.idempotency_key ≡ key
      → job.state ≡ queued
      → count_active_jobs printer dir < max_active
      → Lands (with_job id job dir) s.store
      → IsQueued queue printer id s
      → Settles id printer key max_active dir queue job s

pub register_job-IsSmooth : (id : Uuid) → IsSmooth (register_job id)
unfolding register_job
register_job-IsSmooth id dir t h = (
  (tt, ap (λ os. reply (head_outcome os)) h.outcomes),
  record { outcomes = ap tail_outcomes h.outcomes; jobs = h.jobs },
)

-- What follows a save.
saved-Goes :
    {A : Type 0} (job : Job) (printer : String) (dir : JobDir) (R : A → Agent → Type 0)
    (next : Handler A) (s : Agent)
    → ((save_job job s.store).0 ≡ ok tt) × Lands (with_job job.id job dir) (save_job job s.store).1
    → ((s' : Agent)
        → s'.workers ≡ s.workers
        → Lands (with_job job.id job dir) s'.store
        → Goes job.id printer dir R (next s'))
    → Goes job.id printer dir R ((stored (save_job job) >> next) s)
saved-Goes job printer dir R next s saved k =
    let at : Unit {0} → Agent → Type 0 = λ _ s'. Lands (with_job job.id job dir) s'.store in
    bind-Goes job.id printer dir at R (stored (save_job job)) (λ _. next) s
      (stored_result job.id printer dir (with_job job.id job dir) (save_job job) s
        (save_job job s.store).0 (save_job job s.store).1 (tt, saved.0) saved.1)
      (λ _ h'. k (stored (save_job job) s).1 refl h')

-- The save over an earlier form of the job.
pub save-Goes :
    {A : Type 0} (job old : Job) (printer : String) (dir : JobDir) (R : A → Agent → Type 0)
    (next : Handler A) (s : Agent)
    → IsFresh job.id dir
    → Lands (with_job job.id old dir) s.store
    → ((s' : Agent)
        → s'.workers ≡ s.workers
        → Lands (with_job job.id job dir) s'.store
        → Goes job.id printer dir R (next s'))
    → Goes job.id printer dir R ((stored (save_job job) >> next) s)
save-Goes job old printer dir R next s fresh h k =
    saved-Goes job printer dir R next s (save_job-Lands_again job old dir s.store fresh h) k

pub first_save-Goes :
    {A : Type 0} (job : Job) (printer : String) (dir : JobDir) (R : A → Agent → Type 0)
    (next : Handler A) (s : Agent)
    → IsFresh job.id dir
    → Lands dir s.store
    → ((s' : Agent)
        → s'.workers ≡ s.workers
        → Lands (with_job job.id job dir) s'.store
        → Goes job.id printer dir R (next s'))
    → Goes job.id printer dir R ((stored (save_job job) >> next) s)
first_save-Goes job printer dir R next s fresh h k =
    saved-Goes job printer dir R next s (save_job-Lands job dir s.store fresh h) k
