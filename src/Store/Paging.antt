-- ===== src/Store/Paging.antt =====
-- Pages of src/persist.rs: of the event log (`read_events`) and of the job list (`list_jobs_page`).
pub mod Events
use zebra_tamer.Prelude.{
  ℕ, ◌+◌, Bool, true, false, Option, none, some, List, [], ◌∷◌, ◌++◌, length, drop, leb, ◌==◌,
}
use zebra_tamer.Prelude.Result.{Result, ok, err, io}
use zebra_tamer.Prelude.Exec.{Exec}
use zebra_tamer.Model.Job.{Uuid, Job, Event}
use zebra_tamer.Store.Files.{File, absent, corrupt, holds, Line, whole, broken, Log}
use zebra_tamer.Store.State.{Store}
use zebra_tamer.Store.Jobs.{JobDir, job_file}

-- The loop of `read_ndjson_page` behind the lines that it passes over: what it has collected, the
-- cursor after the line before, and the lines left. A line that does not parse ends it.
unfoldable pub scan :
    {A : Type 0} → (A → Bool) → ℕ → List A → ℕ → List (Line A) → Result (List A × ℕ)
scan filter limit out next [] = ok (out, next)
scan filter limit out next (broken ∷ lines) = err io
scan filter limit out next (whole item ∷ lines) = elim (filter item) [
  | true ↦ elim (leb limit (length out + 1)) [
    | true ↦ ok (out ++ (item ∷ []), next + 1)
    | false ↦ scan filter limit (out ++ (item ∷ [])) (next + 1) lines
  ]
  | false ↦ scan filter limit out (next + 1) lines
]

unfoldable pub read_ndjson_page : {A : Type 0} → Log A → ℕ → ℕ → (A → Bool) → Result (List A × ℕ)
unfolding scan
read_ndjson_page f cursor limit filter = scan filter limit [] cursor (drop cursor f.lines)

abbrev same_job : Uuid → Option Uuid → Bool
same_job id none = false
same_job id (some k) = k == id

abbrev pub of_job : Option Uuid → Event → Bool
of_job none e = true
of_job (some id) e = same_job id e.job_id

unfoldable pub read_events : ℕ → ℕ → Option Uuid → Store → Result (List Event × ℕ)
unfolding read_ndjson_page
read_events cursor limit job s = read_ndjson_page s.events cursor limit (of_job job)

-- The loop of `list_jobs_page`; a job whose file cannot be read is passed over.
unfoldable pub list_from : ℕ → List Job → JobDir → List (Line Uuid) → Result (List Job)
unfolding job_file
list_from limit out dir [] = ok out
list_from limit out dir (line ∷ lines) = elim (leb limit (length out)) [
  | true ↦ ok out
  | false ↦ elim line [
    | broken ↦ err io
    | whole id ↦ elim (job_file id dir) [
      | holds job ↦ list_from limit (out ++ (job ∷ [])) dir lines
      | _ ↦ list_from limit out dir lines
    ]
  ]
]

unfoldable pub list_jobs_page : ℕ → ℕ → Store → Result (List Job)
unfolding list_from
list_jobs_page cursor limit s = list_from limit [] s.jobs (drop cursor s.job_index.lines)
