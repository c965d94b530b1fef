-- ===== src/Api/Pages.antt =====
-- When the pages of the job list of src/api.rs fit together, and when they do not.
use zebra_tamer.Prelude.{◌≡◌, List, [], ◌∷◌}
use zebra_tamer.Model.Job.{Uuid, Job}
use zebra_tamer.Store.Files.{holds, Line, whole}
use zebra_tamer.Store.State.{Store}
use zebra_tamer.Store.Jobs.{JobDir, job_file}

-- The index lists some jobs, and each of their files can be read.
abbrev pub Lists : JobDir → List (Line Uuid) → List Job → Type 0
Lists dir [] [] = Unit
Lists dir (whole id ∷ lines) (job ∷ jobs) = (job_file id dir ≡ holds job) × Lists dir lines jobs
Lists dir _ _ = ⊥
