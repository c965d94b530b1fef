-- ===== src/Store/Jobs.antt =====
-- src/persist.rs: the job files, the job index and the searches over the job directory.
use zebra_tamer.Prelude.{
  ℕ, ◌+◌, String, ◌≡◌, Bool, true, false, not, ◌&&◌, Option, none, some, List, [], ◌∷◌, arith, ◌==◌,
  str_eq, is_some, if◌then◌else◌,
}
use zebra_tamer.Prelude.Exec.{Exec, attempt}
use zebra_tamer.Model.Job.{Uuid, JobState, Job, receiving, queued, writing, verifying, held}
use zebra_tamer.Store.Files.{
  File, absent, holds, Outcome, fine, refused, torn, unterminated, late, put_file, read_json,
  append_ndjson,
}
use zebra_tamer.Store.State.{Store, write}

-- The files of `jobs/`, in the order in which the directory lists them.
abbrev pub JobDir : Type 0
JobDir = List (Uuid × File Job)

unfoldable pub job_file : Uuid → JobDir → File Job
job_file id [] = absent
job_file id ((k, f) ∷ dir) = if k == id then f else job_file id dir

unfoldable pub put_job : Outcome → Job → JobDir → JobDir
put_job o job [] = elim (put_file o job absent) [ holds j ↦ (job.id, holds j) ∷ [] | _ ↦ [] ]
put_job o job ((k, f) ∷ dir) =
    if k == job.id then (k, put_file o job f) ∷ dir else (k, f) ∷ put_job o job dir

unfoldable pub drop_job : Outcome → Uuid → JobDir → JobDir
drop_job fine id [] = []
drop_job fine id ((k, f) ∷ dir) = if k == id then dir else (k, f) ∷ drop_job fine id dir
drop_job _ id dir = dir

unfoldable pub save_job : Job → Exec Store (Unit {0})
unfolding put_job
save_job job = write (λ o s. record s { jobs = put_job o job s.jobs })

unfoldable pub load_job : Uuid → Exec Store Job
unfolding job_file read_json
load_job id s = (read_json (job_file id s.jobs), s)

unfoldable pub register_job : Uuid → Exec Store (Unit {0})
unfolding append_ndjson
register_job id = write (λ o s. record s { job_index = append_ndjson o id s.job_index })

-- States that count against the limit of a printer's queue and forbid changing the printer.
abbrev pub is_active : JobState → Bool
is_active receiving = true
is_active queued = true
is_active writing = true
is_active verifying = true
is_active held = true
is_active _ = false

abbrev is_active_of : String → Job → Bool
is_active_of printer_id job = str_eq job.printer_id printer_id && is_active job.state

-- Files that do not parse are passed over.
unfoldable pub count_active_jobs : String → JobDir → ℕ
count_active_jobs printer_id [] = 0
count_active_jobs printer_id ((k, holds job) ∷ dir) =
    let rest = count_active_jobs printer_id dir in
    if is_active_of printer_id job then rest + 1 else rest
count_active_jobs printer_id ((k, _) ∷ dir) = count_active_jobs printer_id dir

unfoldable pub has_open_jobs : String → JobDir → Bool
has_open_jobs printer_id [] = false
has_open_jobs printer_id ((k, holds job) ∷ dir) =
    let rest = has_open_jobs printer_id dir in if is_active_of printer_id job then true else rest
has_open_jobs printer_id ((k, _) ∷ dir) = has_open_jobs printer_id dir

abbrev is_excluded : Option Uuid → Uuid → Bool
is_excluded none id = false
is_excluded (some e) id = id == e

abbrev has_key : String → Option String → Bool
has_key key none = false
has_key key (some k) = str_eq k key

abbrev pub answers_key : String → Option Uuid → Job → Bool
answers_key key exclude job =
    not (is_excluded exclude job.id) && is_some job.sha256 && has_key key job.idempotency_key

-- `find_job_by_idempotency_key_inner`; the two public searches pass `Some(exclude)` and `None`.
unfoldable pub find_job_by_idempotency_key : String → Option Uuid → JobDir → Option Job
find_job_by_idempotency_key key exclude [] = none
find_job_by_idempotency_key key exclude ((k, holds job) ∷ dir) =
    let rest = find_job_by_idempotency_key key exclude dir in
    if answers_key key exclude job then some job else rest
find_job_by_idempotency_key key exclude ((k, _) ∷ dir) = find_job_by_idempotency_key key exclude dir

abbrev unset : Outcome → Uuid → (Uuid → Bool) → Uuid → Bool
unset fine id present k = if k == id then false else present k
unset _ id present k = present k

unfoldable pub remove_payload : Uuid → Exec Store (Unit {0})
remove_payload id = write (λ o s. record s { payloads = unset o id s.payloads })

unfoldable pub remove_spool : Uuid → Exec Store (Unit {0})
remove_spool id = write (λ o s. record s { spool = unset o id s.spool })

unfoldable pub remove_job_file : Uuid → Exec Store (Unit {0})
unfolding drop_job
remove_job_file id = write (λ o s. record s { jobs = drop_job o id s.jobs })

unfoldable pub remove_unregistered_job : Uuid → Store → Store
unfolding remove_job_file remove_payload remove_spool
remove_unregistered_job id s =
    attempt (remove_spool id) (attempt (remove_payload id) (attempt (remove_job_file id) s))

-- Reading a job file back after a write: the job at its own id, the rest as before.
pub job_file-put_job :
    (o : Outcome) (job : Job) (id : Uuid) (dir : JobDir)
    → job_file id (put_job o job dir)
      ≡ (if job.id == id then put_file o job (job_file id dir) else job_file id dir)
unfolding job_file put_job
job_file-put_job fine job id [] = ground arith
job_file-put_job refused job id [] = ground arith
job_file-put_job torn job id [] = ground arith
job_file-put_job unterminated job id [] = ground arith
job_file-put_job late job id [] = ground arith
job_file-put_job o job id ((k, f) ∷ dir) = ground (arith, job_file-put_job o job id dir)
