-- ===== src/Store/Recovery/Files.antt =====
-- What a restart makes of the job directory: `recover_jobs` of src/persist.rs over all its files.
use mathlib.Core.List.{Perm}
use zebra_tamer.Prelude.{
  ◌≡◌, refl, sym, ap, ◌∙◌, subst, inl, inr, Bool, true, false, List, [], ◌∷◌, ◌++◌, arith, ◌==◌,
  ==_iff, if◌then◌else◌, Bool-cases,
}
use zebra_tamer.Prelude.Result.{Result, ok, err}
use zebra_tamer.Prelude.Exec.{pure, ◌>>=◌, continue}
use zebra_tamer.Model.Job.{DateTime, Uuid, Job}
use zebra_tamer.Store.Files.{File, absent, corrupt, holds}
use zebra_tamer.Store.State.{Store}
use zebra_tamer.Store.Jobs.{JobDir, job_file}
use zebra_tamer.Store.Recovery.Order.{sort, sort-perm, sort-IsOrdered, ordered-IsSorted, IsSorted}
use zebra_tamer.Store.Recovery.Fate.{IsRecoveredFile, recovered-IsRecoveredFile}
use zebra_tamer.Store.Recovery.Jobs.{recover_job, recover_all, recover_jobs}
use zebra_tamer.Store.Recovery.Entries.{
  recovered_file, waiting, IsDirectory, has_file, Agrees, Recovers, Agrees-change, Agrees-job_file,
  absent-has_file, recover_job-Recovers,
}

-- The rest of a directory, after the files before it.
record RecoversAll (now : DateTime) (dir : JobDir) (s : Store) (r : Result (List Job) × Store)
    : Type 0 where
  answer : r.0 ≡ ok (waiting dir)
  script : r.1.outcomes ≡ []
  files :
      (x : Uuid)
      → job_file x r.1.jobs
        ≡ (if has_file x dir then recovered_file now (job_file x s.jobs) else job_file x s.jobs)

joined :
    (now : DateTime) (k x : Uuid) (b : Bool) (before first last f : File Job)
    → last ≡ (if b then recovered_file now first else first)
    → first ≡ (if k == x then recovered_file now f else before)
    → ((k == x) ≡ true → (b ≡ false) × (before ≡ f))
    → last ≡ (if if k == x then true else b then recovered_file now before else before)
joined now k x b before first last f e1 e2 h = elim (Bool-cases (k == x)) [
  | inl y ↦
      let (none_left, held_here) = h y in
      rw y (e1 ∙ rw none_left (e2 ∙ rw y (ap (recovered_file now) (sym held_here))))
  | inr n ↦ rw n (e1 ∙ ap (λ g. if b then recovered_file now g else g) (e2 ∙ rw n refl))
]

-- The name that is read is the last one of its kind in the directory.
own_name :
    (k x : Uuid) (f : File Job) (dir : JobDir) (look : Uuid → File Job)
    → has_file k dir ≡ false
    → look k ≡ f
    → (k == x) ≡ true
    → (has_file x dir ≡ false) × (look x ≡ f)
own_name k x f dir look new here e =
    let same = (==_iff k x).0 e in
    (subst (λ i. has_file i dir ≡ false) same new, subst (λ i. look i ≡ f) same here)

skipped :
    (now : DateTime) (k x : Uuid) (f : File Job) (look : Uuid → File Job)
    → look k ≡ f
    → recovered_file now f ≡ f
    → look x ≡ (if k == x then recovered_file now f else look x)
skipped now k x f look here same = elim (Bool-cases (k == x)) [
  | inl y ↦ rw y (subst (λ i. look i ≡ f) ((==_iff k x).0 y) here ∙ sym same)
  | inr n ↦ rw n refl
]

unread-RecoversAll :
    (now : DateTime) (k : Uuid) (f : File Job) (dir : JobDir) (s : Store)
    (r : Result (List Job) × Store)
    → recovered_file now f ≡ f
    → waiting ((k, f) ∷ dir) ≡ waiting dir
    → has_file k dir ≡ false
    → job_file k s.jobs ≡ f
    → RecoversAll now dir s r
    → RecoversAll now ((k, f) ∷ dir) s r
unread-RecoversAll now k f dir s r same none_waits new here rest = record {
  answer = rest.answer ∙ ap ok (sym none_waits);
  script = rest.script;
  files = λ x.
      joined now k x (has_file x dir) (job_file x s.jobs) (job_file x s.jobs) (job_file x r.1.jobs)
        f (rest.files x) (skipped now k x f (λ i. job_file i s.jobs) here same)
        (own_name k x f dir (λ i. job_file i s.jobs) new here);
}

-- The rest of the loop after one job.
read-RecoversAll :
    (now : DateTime) (job : Job) (dir : JobDir) (s : Store) (found : Result (List Job) × Store)
    → has_file job.id dir ≡ false
    → job_file job.id s.jobs ≡ holds job
    → Recovers now job s found
    → RecoversAll now dir found.1 (recover_all now dir found.1)
    → RecoversAll now
        ((job.id, holds job) ∷ dir)
        s
        (continue found.0 (λ l. do rest ← recover_all now dir; pure (l ++ rest)) found.1)
read-RecoversAll now job dir s (err e, s1) new here one rest = cc one.answer
read-RecoversAll now job dir s (ok l, s1) new here one rest = record {
  answer = ground (arith, one.answer, rest.answer);
  script = ground (arith, rest.answer, rest.script);
  files = λ x. rw (rest.answer) (
      joined now job.id x (has_file x dir) (job_file x s.jobs) (job_file x s1.jobs)
        (job_file x (recover_all now dir s1).1.jobs) (holds job) (rest.files x) (one.files x)
        (own_name job.id x (holds job) dir (λ i. job_file i s.jobs) new here));
}

recover_all-RecoversAll :
    (now : DateTime) (dir : JobDir) (s : Store)
    → IsDirectory dir
    → Agrees (λ k. job_file k s.jobs) dir
    → s.outcomes ≡ []
    → RecoversAll now dir s (recover_all now dir s)
unfolding recover_all
recover_all-RecoversAll now [] s d h script = record {
  answer = refl;
  script = script;
  files = λ x. refl;
}
recover_all-RecoversAll now ((k, absent) ∷ dir) s d h script =
    unread-RecoversAll now k absent dir s (recover_all now dir s) refl refl d.1 h.0
      (recover_all-RecoversAll now dir s d.2 h.1 script)
recover_all-RecoversAll now ((k, corrupt) ∷ dir) s d h script =
    unread-RecoversAll now k corrupt dir s (recover_all now dir s) refl refl d.1 h.0
      (recover_all-RecoversAll now dir s d.2 h.1 script)
recover_all-RecoversAll now ((k, holds job) ∷ dir) s d h script =
    let new = subst (λ i. has_file i dir ≡ false) (sym d.0) d.1 in
    let here = subst (λ i. job_file i s.jobs ≡ holds job) (sym d.0) h.0 in
    let found = recover_job now job.state job s in
    let one = recover_job-Recovers now job job.state s refl script here in
    let later =
      Agrees-change job.id (λ i. job_file i s.jobs) (λ i. job_file i found.1.jobs) dir new
        (λ x other. one.files x ∙ rw other refl) h.1 in
    subst
      (λ i.
        RecoversAll now ((i, holds job) ∷ dir) s (recover_all now ((job.id, holds job) ∷ dir) s))
      d.0
      (read-RecoversAll now job dir s found new here one
        (recover_all-RecoversAll now dir found.1 d.2 later one.script))

all_recovered :
    (now : DateTime) (x : Uuid) (dir : JobDir)
    → (if has_file x dir then recovered_file now (job_file x dir) else job_file x dir)
      ≡ recovered_file now (job_file x dir)
all_recovered now x dir = elim (Bool-cases (has_file x dir)) [
  | inl y ↦ rw y refl
  | inr n ↦ rw (n, absent-has_file x dir n) refl
]

-- When no write fails and the job directory is well formed, the restart succeeds. Of every job file:
-- a job that was being received is then in the state `failed`, one that was being written or verified
-- is in the state `outcome_unknown`, each with the time and its reason and otherwise as it was, and all
-- else, unreadable files too, is as before. The queue that comes back has each waiting job of the
-- directory once and no other, in the order of creation and, within one time, of the ids.
pub recover_jobs_lem :
    (now : DateTime) (s : Store)
    → IsDirectory s.jobs
    → s.outcomes ≡ []
    → let (answer, s') = recover_jobs now s in
      (queue : List Job) × (answer ≡ ok queue)
      × Perm queue (waiting s.jobs)
      × IsSorted queue
      × ((x : Uuid) → IsRecoveredFile now (job_file x s.jobs) (job_file x s'.jobs))
unfolding recover_jobs
recover_jobs_lem now s d script =
    let all = recover_all-RecoversAll now s.jobs s d (Agrees-job_file s.jobs d) script in
    (
      sort (waiting s.jobs),
      rw all.answer refl,
      sort-perm (waiting s.jobs),
      ordered-IsSorted (sort (waiting s.jobs)) (sort-IsOrdered (waiting s.jobs)),
      λ x.
          recovered-IsRecoveredFile now (job_file x s.jobs) (job_file x (recover_jobs now s).1.jobs)
            (rw all.answer (all.files x ∙ all_recovered now x s.jobs)),
    )
