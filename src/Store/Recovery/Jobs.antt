-- ===== src/Store/Recovery/Jobs.antt =====
-- The loop of `recover_jobs` in src/persist.rs.
use zebra_tamer.Prelude.{some, List, [], ◌∷◌, ◌++◌}
use zebra_tamer.Prelude.Exec.{Exec, pure, ◌>>=◌, ◌>>◌, attempt}
use zebra_tamer.Model.Job.{
  DateTime, Uuid, JobState, Job, receiving, queued, writing, verifying, failed, outcome_unknown,
}
use zebra_tamer.Store.Files.{holds}
use zebra_tamer.Store.State.{Store}
use zebra_tamer.Store.Jobs.{JobDir, save_job, remove_spool}
use zebra_tamer.Store.Recovery.Order.{sort}

-- What the restart writes into the file of a job that it interrupts.
abbrev pub recovered : DateTime → JobState → Job → Job
recovered now receiving job = record job {
  state = failed;
  updated_at = now;
  error = some "agent_restarted_during_upload";
}
recovered now writing job = record job {
  state = outcome_unknown;
  updated_at = now;
  error = some "agent_restarted_during_delivery";
}
recovered now verifying job = record job {
  state = outcome_unknown;
  updated_at = now;
  error = some "agent_restarted_during_delivery";
}
recovered now _ job = job

unfoldable pub quiet_remove_spool : Uuid → Exec Store (Unit {0})
unfolding remove_spool
quiet_remove_spool id s = pure tt (attempt (remove_spool id) s)

-- One job file; the result is the job if it is to be queued again.
unfoldable pub recover_job : DateTime → JobState → Job → Exec Store (List Job)
unfolding quiet_remove_spool
recover_job now receiving job = do
  quiet_remove_spool job.id
  save_job (recovered now receiving job)
  pure []
recover_job now writing job = do save_job (recovered now writing job); pure []
recover_job now verifying job = do save_job (recovered now verifying job); pure []
recover_job now queued job = pure (job ∷ [])
recover_job now _ job = pure []

unfoldable pub recover_all : DateTime → JobDir → Exec Store (List Job)
unfolding recover_job
recover_all now [] = pure []
recover_all now ((k, holds job) ∷ dir) = do
  found ← recover_job now job.state job
  rest ← recover_all now dir
  pure (found ++ rest)
recover_all now ((k, _) ∷ dir) = recover_all now dir

unfoldable pub recover_jobs : DateTime → Exec Store (List Job)
unfolding recover_all
recover_jobs now s = (do found ← recover_all now s.jobs; pure (sort found)) s
