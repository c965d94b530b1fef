-- ===== src/Tests/Store.antt =====
-- A restart over the job directory of Tests.Data.
use mathlib.Core.List.{Perm}
use zebra_tamer.Prelude.{◌≡◌, refl, List, [], ◌∷◌}
use zebra_tamer.Prelude.Result.{ok}
use zebra_tamer.Model.Job.{Uuid, Job, queued}
use zebra_tamer.Store.Jobs.{job_file}
use zebra_tamer.Store.Recovery.Order.{IsSorted}
use zebra_tamer.Store.Recovery.Jobs.{recover_jobs}
use zebra_tamer.Store.Recovery.Fate.{IsRecoveredFile}
use zebra_tamer.Store.Recovery.Files.{recover_jobs_lem}
use zebra_tamer.Tests.Data.{store_with, job_in}

recover_jobs_lem_example :
    let (answer, s') = recover_jobs 20 (store_with []) in
    (queue : List Job) × (answer ≡ ok queue)
    × Perm queue (job_in queued 2 ∷ job_in queued 1 ∷ [])
    × IsSorted queue
    × ((x : Uuid) → IsRecoveredFile 20 (job_file x (store_with []).jobs) (job_file x s'.jobs))
recover_jobs_lem_example =
    recover_jobs_lem 20 (store_with []) (refl, refl, (refl, refl, (refl, refl, tt))) refl
