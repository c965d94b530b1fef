-- ===== src/Store/Recovery/Entries.antt =====
-- One file of the job directory at a restart: an arm of `recover_jobs` in src/persist.rs.
use zebra_tamer.Prelude.{
  ◌≡◌, refl, sym, ap, ◌∙◌, subst, inl, inr, Bool, true, false, List, [], ◌∷◌, arith, ◌==◌, ==_iff,
  if◌then◌else◌, Bool-cases,
}
use zebra_tamer.Prelude.Result.{Result, ok}
use zebra_tamer.Prelude.Exec.{pure, attempt, ◌>>◌}
use zebra_tamer.Model.Job.{
  DateTime, Uuid, JobState, Job, is_queued, receiving, queued, writing, verifying,
  transport_accepted, completed_observed, held, cancelled, failed, outcome_unknown,
}
use zebra_tamer.Store.Files.{File, absent, holds, fine}
use zebra_tamer.Store.State.{Store}
use zebra_tamer.Store.Jobs.{JobDir, job_file, put_job, job_file-put_job, save_job, remove_spool}
use zebra_tamer.Store.Recovery.Jobs.{recovered, quiet_remove_spool, recover_job}

-- A file after the restart.
abbrev pub recovered_file : DateTime → File Job → File Job
recovered_file now (holds job) = holds (recovered now job.state job)
recovered_file now f = f

-- The jobs of a directory that still wait.
abbrev pub waiting : JobDir → List Job
waiting [] = []
waiting ((k, holds job) ∷ dir) =
    let rest = waiting dir in if is_queued job.state then job ∷ rest else rest
waiting ((k, _) ∷ dir) = waiting dir

abbrev pub has_file : Uuid → JobDir → Bool
has_file id [] = false
has_file id ((k, f) ∷ dir) = let rest = has_file id dir in if k == id then true else rest

abbrev IsOwn : Uuid → File Job → Type 0
IsOwn k (holds job) = job.id ≡ k
IsOwn k _ = Unit

-- Each name occurs once, and a file that holds a job is named by the job's id.
abbrev pub IsDirectory : JobDir → Type 0
IsDirectory [] = Unit
IsDirectory ((k, f) ∷ dir) = IsOwn k f × (has_file k dir ≡ false) × IsDirectory dir

-- The entries of a directory are what `look` says of their names.
abbrev pub Agrees : (Uuid → File Job) → JobDir → Type 0
Agrees look [] = Unit
Agrees look ((k, f) ∷ dir) = (look k ≡ f) × Agrees look dir

pub Agrees-change :
    (k : Uuid) (look look' : Uuid → File Job) (dir : JobDir)
    → has_file k dir ≡ false
    → ((x : Uuid) → (k == x) ≡ false → look' x ≡ look x)
    → Agrees look dir
    → Agrees look' dir
Agrees-change k look look' [] new same h = tt
Agrees-change k look look' ((j, f) ∷ dir) new same h =
    (same j (ground arith) ∙ h.0, Agrees-change k look look' dir (ground arith) same h.1)

pub Agrees-job_file : (dir : JobDir) → IsDirectory dir → Agrees (λ k. job_file k dir) dir
unfolding job_file
Agrees-job_file [] d = tt
Agrees-job_file ((k, f) ∷ dir) d = (
  ground arith,
  Agrees-change k (λ x. job_file x dir) (λ x. job_file x ((k, f) ∷ dir)) dir d.1
      (λ x other. rw other refl) (Agrees-job_file dir d.2),
)

pub absent-has_file : (k : Uuid) (dir : JobDir) → has_file k dir ≡ false → job_file k dir ≡ absent
unfolding job_file
absent-has_file k [] h = refl
absent-has_file k ((j, f) ∷ dir) h = ground (arith, absent-has_file k dir)

-- One file.
pub record Recovers (now : DateTime) (job : Job) (s : Store) (r : Result (List Job) × Store)
    : Type 0 where
  pub answer : r.0 ≡ ok (if is_queued job.state then job ∷ [] else [])
  pub script : r.1.outcomes ≡ []
  pub files :
      (x : Uuid)
      → job_file x r.1.jobs
        ≡ (if job.id == x then recovered_file now (holds job) else job_file x s.jobs)

same_file :
    (job : Job) (x : Uuid) (dir : JobDir)
    → job_file job.id dir ≡ holds job
    → job_file x dir ≡ (if job.id == x then holds job else job_file x dir)
same_file job x dir h = elim (Bool-cases (job.id == x)) [
  | inl e ↦ rw e (ap (λ k. job_file k dir) (sym ((==_iff job.id x).0 e)) ∙ h)
  | inr n ↦ rw n refl
]

-- A file that is not rewritten.
untouched-Recovers :
    (now : DateTime) (job : Job) (st : JobState) (s : Store)
    → job.state ≡ st
    → recovered now st job ≡ job
    → s.outcomes ≡ []
    → job_file job.id s.jobs ≡ holds job
    → Recovers now job s (ok (if is_queued st then job ∷ [] else []), s)
untouched-Recovers now job st s e same script here = record {
  answer =
      subst
        (λ t.
          ok (if is_queued st then job ∷ [] else []) ≡ ok (if is_queued t then job ∷ [] else []))
        (sym e) refl;
  script = script;
  files = λ x.
      subst (λ j. job_file x s.jobs ≡ (if job.id == x then holds j else job_file x s.jobs))
        (sym (ap (λ t. recovered now t job) e ∙ same)) (same_file job x s.jobs here);
}

saved_file :
    (job j : Job) (x : Uuid) (dir : JobDir)
    → j.id ≡ job.id
    → job_file x (put_job fine j dir) ≡ (if job.id == x then holds j else job_file x dir)
saved_file job j x dir own = job_file-put_job fine j x dir ∙ rw own refl

-- A file that is rewritten.
rewritten-Recovers :
    (now : DateTime) (job : Job) (st : JobState) (s s1 : Store)
    → job.state ≡ st
    → is_queued st ≡ false
    → (recovered now st job).id ≡ job.id
    → s1.outcomes ≡ []
    → s1.jobs ≡ s.jobs
    → Recovers now job s ((do save_job (recovered now st job); pure []) s1)
unfolding save_job
rewritten-Recovers now job st s s1 e other own script same = record {
  answer = ground (arith, e, other);
  script = ground arith;
  files = λ x. rw script (
      ap (λ d. job_file x (put_job fine (recovered now st job) d)) same
      ∙ subst
          (λ t.
            job_file x (put_job fine (recovered now st job) s.jobs)
            ≡ (if job.id == x then holds (recovered now t job) else job_file x s.jobs))
          (sym e) (saved_file job (recovered now st job) x s.jobs own));
}

pub recover_job-Recovers :
    (now : DateTime) (job : Job) (st : JobState) (s : Store)
    → job.state ≡ st
    → s.outcomes ≡ []
    → job_file job.id s.jobs ≡ holds job
    → Recovers now job s (recover_job now st job s)
unfolding recover_job save_job remove_spool quiet_remove_spool
recover_job-Recovers now job receiving s e script here =
    rewritten-Recovers now job receiving s (attempt (remove_spool job.id) s) e refl refl
      (ground arith) refl
recover_job-Recovers now job writing s e script here =
    rewritten-Recovers now job writing s s e refl refl script refl
recover_job-Recovers now job verifying s e script here =
    rewritten-Recovers now job verifying s s e refl refl script refl
recover_job-Recovers now job queued s e script here =
    untouched-Recovers now job queued s e refl script here
recover_job-Recovers now job transport_accepted s e script here =
    untouched-Recovers now job transport_accepted s e refl script here
recover_job-Recovers now job completed_observed s e script here =
    untouched-Recovers now job completed_observed s e refl script here
recover_job-Recovers now job held s e script here =
    untouched-Recovers now job held s e refl script here
recover_job-Recovers now job cancelled s e script here =
    untouched-Recovers now job cancelled s e refl script here
recover_job-Recovers now job failed s e script here =
    untouched-Recovers now job failed s e refl script here
recover_job-Recovers now job outcome_unknown s e script here =
    untouched-Recovers now job outcome_unknown s e refl script here
