-- ===== src/Legacy/Goes.antt =====
-- What a step of `create_job` (src/api.rs) does when no write fails: it goes on, or it ends the request
-- with the job's file gone, or with one that says that the job has failed.
use zebra_tamer.Prelude.{◌≡◌, refl, sym, ap, subst, ◌∙◌, String, [], ◌∷◌, ◌++◌}
use zebra_tamer.Prelude.Result.{Result, ok, err, Error}
use zebra_tamer.Prelude.Exec.{Exec}
use zebra_tamer.Model.Job.{DateTime, Uuid, Job, failed}
use zebra_tamer.Store.Files.{holds, fine, reply}
use zebra_tamer.Store.State.{Store, head_outcome, tail_outcomes}
use zebra_tamer.Store.Jobs.{JobDir, save_job, put_job}
use zebra_tamer.Api.Agent.{
  V2Error, Answer, done, problem, Agent, Handler, continue, or_error, ◌>>=◌,
}
use zebra_tamer.Api.Create.{failed_job}
use zebra_tamer.Api.Entered.{problem-done}
use zebra_tamer.Api.Limit.{IsFresh, put_job-fresh, put_job-last}
use zebra_tamer.Legacy.{internal, stored}
use zebra_tamer.Legacy.Upload.{after_step, or_fail, put_store}

-- The directory with one more file, at its end.
abbrev pub with_job : Uuid → Job → JobDir → JobDir
with_job id job dir = dir ++ ((id, holds job) ∷ [])

-- The job files, in a store whose coming writes all succeed.
pub record Lands (dir : JobDir) (s : Store) : Type 0 where
  pub outcomes : s.outcomes ≡ []
  pub jobs : s.jobs ≡ dir

-- A step from job files `dir`, before the request, to the request's end or to what `R` says.
pub data Goes (id : Uuid) (printer : String) (dir : JobDir) {A : Type 0} (R : A → Agent → Type 0)
    (out : Answer A × Agent) : Type 0 where
  goes : (a : A) → out.0 ≡ done a → R a out.1 → Goes id printer dir R out
  refused : (e : V2Error) → out.0 ≡ problem e → Lands dir out.1.store → Goes id printer dir R out
  dropped :
      (e : V2Error) (job : Job)
      → out.0 ≡ problem e
      → job.id ≡ id
      → job.printer_id ≡ printer
      → job.state ≡ failed
      → Lands (with_job id job dir) out.1.store
      → Goes id printer dir R out

done-injective : {A : Type 0} {a b : A} → done a ≡ done b → a ≡ b
done-injective e = cc

module _ (id : Uuid) (printer : String) (dir : JobDir) {A B : Type 0} (R : A → Agent → Type 0)
    (T : B → Agent → Type 0) where
  continue-Goes :
      (r : Answer A) (next : A → Handler B) (s : Agent)
      → Goes id printer dir R (r, s)
      → ((a : A) → R a s → Goes id printer dir T (next a s))
      → Goes id printer dir T (continue r next s)
  continue-Goes (done a) next s (goes b e h) k = k a (subst (λ x. R x s) (sym (done-injective e)) h)
  continue-Goes (done a) next s (refused e p h) k = absurd (problem-done e a (sym p))
  continue-Goes (done a) next s (dropped e job p i q f h) k = absurd (problem-done e a (sym p))
  continue-Goes (problem x) next s (goes b e h) k = absurd (problem-done x b e)
  continue-Goes (problem x) next s (refused e p h) k = refused x refl h
  continue-Goes (problem x) next s (dropped e job p i q f h) k = dropped x job refl i q f h

  pub bind-Goes :
      (action : Handler A) (next : A → Handler B) (s : Agent)
      → Goes id printer dir R (action s)
      → ((a : A) → R a (action s).1 → Goes id printer dir T (next a (action s).1))
      → Goes id printer dir T ((action >>= next) s)
  bind-Goes action next s h k = continue-Goes (action s).0 next (action s).1 h k

-- An operation that succeeds while writes do, and does not touch the job files.
abbrev pub IsSmooth : {A : Type 0} → Exec Store A → Type 0
IsSmooth {A} action =
    (dir : JobDir) (t : Store)
    → Lands dir t
    → ((a : A) × ((action t).0 ≡ ok a)) × Lands dir (action t).1

-- A save of the job, over the directory without it or with an earlier form of it.
pub save_job-Lands :
    (job : Job) (dir : JobDir) (t : Store)
    → IsFresh job.id dir
    → Lands dir t
    → ((save_job job t).0 ≡ ok tt) × Lands (with_job job.id job dir) (save_job job t).1
unfolding save_job put_job
save_job-Lands job dir t fresh h = (
  ap (λ os. reply (head_outcome os)) h.outcomes,
  record {
    outcomes = ap tail_outcomes h.outcomes;
    jobs =
        ap (λ os. put_job (head_outcome os) job t.jobs) h.outcomes
        ∙ ap (put_job fine job) h.jobs
        ∙ put_job-fresh fine job dir fresh;
  },
)

pub save_job-Lands_again :
    (job old : Job) (dir : JobDir) (t : Store)
    → IsFresh job.id dir
    → Lands (with_job job.id old dir) t
    → ((save_job job t).0 ≡ ok tt) × Lands (with_job job.id job dir) (save_job job t).1
unfolding save_job put_job
save_job-Lands_again job old dir t fresh h = (
  ap (λ os. reply (head_outcome os)) h.outcomes,
  record {
    outcomes = ap tail_outcomes h.outcomes;
    jobs =
        ap (λ os. put_job (head_outcome os) job t.jobs) h.outcomes
        ∙ ap (put_job fine job) h.jobs
        ∙ put_job-last fine job (holds old) dir fresh;
  },
)

module _ (id : Uuid) (printer : String) (dir now_dir : JobDir) {A : Type 0} (action : Exec Store A)
    (s : Agent) where
  pub stored_result :
      (r : Result A) (t : Store)
      → ((a : A) × (r ≡ ok a))
      → Lands now_dir t
      → Goes id printer dir (λ a s'. Lands now_dir s'.store) (or_error internal r, put_store t s)
  stored_result (ok a) t (b, e) h = goes a refl h
  stored_result (err x) t (b, e) h = cc

  pub stored-Goes :
      IsSmooth action
      → Lands now_dir s.store
      → Goes id printer dir (λ a s'. Lands now_dir s'.store) (stored action s)
  stored-Goes smooth h =
      let (e, h') = smooth now_dir s.store h in
      stored_result (action s.store).0 (action s.store).1 e h'

  after_step-Goes :
      (now : DateTime) (job : Job) (r : Result A) (t : Store)
      → ((a : A) × (r ≡ ok a))
      → Lands now_dir t
      → Goes id printer dir (λ a s'. Lands now_dir s'.store) (after_step now job (r, t) s)
  unfolding after_step
  after_step-Goes now job (ok a) t (b, e) h = goes a refl h
  after_step-Goes now job (err x) t (b, e) h = cc

  pub or_fail-Goes :
      (now : DateTime) (job : Job)
      → IsSmooth action
      → Lands now_dir s.store
      → Goes id printer dir (λ a s'. Lands now_dir s'.store) (or_fail now job action s)
  unfolding or_fail
  or_fail-Goes now job smooth h =
      let (e, h') = smooth now_dir s.store h in
      after_step-Goes now job (action s.store).0 (action s.store).1 e h'

-- A step that failed leaves the job's file with the failure.
pub failed-Goes :
    {A : Type 0} (dir : JobDir) (now : DateTime) (job old : Job) (e : Error)
    (R : A → Agent → Type 0) (s : Agent)
    → IsFresh job.id dir
    → Lands (with_job job.id old dir) s.store
    → Goes job.id job.printer_id dir R (after_step now job (err e, s.store) s)
unfolding after_step
failed-Goes dir now job old e R s fresh h =
    dropped (internal e) (failed_job now e job) refl refl refl refl
      (save_job-Lands_again (failed_job now e job) old dir s.store fresh h).1
