-- ===== src/Store/Recovery/Fate.antt =====
-- What a restart may make of one job's file, for `recover_jobs` of src/persist.rs.
use zebra_tamer.Prelude.{◌≡◌, ◌≢◌, ◌⊎◌, some, refl, sym, ◌∙◌, inl, inr}
use zebra_tamer.Model.Job.{
  DateTime, JobState, Job, receiving, queued, writing, verifying, transport_accepted,
  completed_observed, held, cancelled, failed, outcome_unknown,
}
use zebra_tamer.Store.Files.{File, absent, corrupt, holds}
use zebra_tamer.Store.Recovery.Jobs.{recovered}
use zebra_tamer.Store.Recovery.Entries.{recovered_file}

-- What may stand in a job's file after a restart: an upload that was cut off has failed, a delivery
-- that was cut off may or may not have been printed, and any other job is as it was.
pub data IsRecovered (now : DateTime) (job : Job) : Job → Type 0 where
  cut_upload :
      job.state ≡ receiving
      → IsRecovered now job (record job {
        state = failed;
        updated_at = now;
        error = some "agent_restarted_during_upload";
      })
  cut_delivery :
      (job.state ≡ writing) ⊎ (job.state ≡ verifying)
      → IsRecovered now job (record job {
        state = outcome_unknown;
        updated_at = now;
        error = some "agent_restarted_during_delivery";
      })
  untouched :
      job.state ≢ receiving → job.state ≢ writing → job.state ≢ verifying → IsRecovered now job job

-- The same of a file, which may be missing or unreadable.
abbrev pub IsRecoveredFile : DateTime → File Job → File Job → Type 0
IsRecoveredFile now (holds job) f = (job' : Job) × (f ≡ holds job') × IsRecovered now job job'
IsRecoveredFile now absent f = f ≡ absent
IsRecoveredFile now corrupt f = f ≡ corrupt

untouched_in :
    (now : DateTime) (job : Job) (st : JobState)
    → job.state ≡ st
    → st ≢ receiving
    → st ≢ writing
    → st ≢ verifying
    → IsRecovered now job job
untouched_in now job st e r w v =
    untouched (λ q. r (sym e ∙ q)) (λ q. w (sym e ∙ q)) (λ q. v (sym e ∙ q))

recovered-IsRecovered :
    (now : DateTime) (job : Job) (st : JobState)
    → job.state ≡ st
    → IsRecovered now job (recovered now st job)
recovered-IsRecovered now job receiving e = cut_upload e
recovered-IsRecovered now job writing e = cut_delivery (inl e)
recovered-IsRecovered now job verifying e = cut_delivery (inr e)
recovered-IsRecovered now job queued e = untouched_in now job queued e (λ q. cc) (λ q. cc) (λ q. cc)
recovered-IsRecovered now job transport_accepted e =
    untouched_in now job transport_accepted e (λ q. cc) (λ q. cc) (λ q. cc)
recovered-IsRecovered now job completed_observed e =
    untouched_in now job completed_observed e (λ q. cc) (λ q. cc) (λ q. cc)
recovered-IsRecovered now job held e = untouched_in now job held e (λ q. cc) (λ q. cc) (λ q. cc)
recovered-IsRecovered now job cancelled e =
    untouched_in now job cancelled e (λ q. cc) (λ q. cc) (λ q. cc)
recovered-IsRecovered now job failed e = untouched_in now job failed e (λ q. cc) (λ q. cc) (λ q. cc)
recovered-IsRecovered now job outcome_unknown e =
    untouched_in now job outcome_unknown e (λ q. cc) (λ q. cc) (λ q. cc)

pub recovered-IsRecoveredFile :
    (now : DateTime) (before after : File Job)
    → after ≡ recovered_file now before
    → IsRecoveredFile now before after
recovered-IsRecoveredFile now absent after e = e
recovered-IsRecoveredFile now corrupt after e = e
recovered-IsRecoveredFile now (holds job) after e =
    (recovered now job.state job, e, recovered-IsRecovered now job job.state refl)
