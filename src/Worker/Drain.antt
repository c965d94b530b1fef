-- ===== src/Worker/Drain.antt =====
-- The queue of src/worker.rs drains: with no failing write, every queued job gets its verdict.
use native.Mathlib.Decide.{ℕ_discrete}
use zebra_tamer.Prelude.{
  ℕ, zero, suc, ◌+◌, ◌≡◌, refl, sym, ap, subst, ◌∙◌, ◌≢◌, ◌⊎◌, inl, inr, String, true, false, List,
  [], ◌∷◌, arith, length, All,
}
use zebra_tamer.Prelude.Result.{Result, ok, err}
use zebra_tamer.Model.Job.{DateTime, Uuid, Job, JobState-discrete, queued}
use zebra_tamer.Store.Files.{File, absent, corrupt, holds}
use zebra_tamer.Store.State.{Store}
use zebra_tamer.Store.Jobs.{job_file}
use zebra_tamer.Store.Printers.{save_queue}
use zebra_tamer.Worker.Machine.{Machine, Written, delivered, failure}
use zebra_tamer.Worker.Delivery.{deliver}
use zebra_tamer.Worker.Process.{StorageMode, process_job, process_loaded, final_job, marked_writing}
use zebra_tamer.Worker.Verdict.{Settles, Verdict, process_job-Settles, process_job_skips}
use zebra_tamer.Worker.Queue.{Worker, round, round_on, after_pop, set_depth}

unfoldable pub rounds : (ℕ → String) → DateTime → StorageMode → String → ℕ → Worker → Worker
rounds bytes_json now storage printer zero w = w
rounds bytes_json now storage printer (suc n) w =
    rounds bytes_json now storage printer n (round bytes_json now storage printer w)

-- The worker with its queue paused.
abbrev pub paused : Worker → Worker
paused w = record w { queue_paused = true }

-- Every file of the job directory is named by its job's id.
abbrev pub IsNamed : Store → Type 0
IsNamed s = (k : Uuid) (job : Job) → job_file k s.jobs ≡ holds job → job.id ≡ k

-- The job is not waiting for its delivery.
abbrev pub IsDone : Store → Uuid → Type 0
IsDone s k = (job : Job) → job_file k s.jobs ≡ holds job → job.state ≢ queued

record IsClean (s : Store) : Type 0 where
  named : IsNamed s
  script : s.outcomes ≡ []

-- One job: the directory stays clean, the job is done and no other job is put back in the queue.
record Finishes (id : Uuid) (s t : Store) : Type 0 where
  clean : IsClean t
  done : IsDone t id
  keeps : (k : Uuid) → IsDone s k → IsDone t k

Verdict-ne-queued : (answer : Written) (job : Job) → Verdict answer job → job.state ≢ queued
Verdict-ne-queued (delivered n) job v e = cc
Verdict-ne-queued (failure n x) job v e = ground arith

File-cases : {A : Type 0} (f : File A) → (f ≡ absent) ⊎ ((f ≡ corrupt) ⊎ ((a : A) × (f ≡ holds a)))
File-cases absent = inl refl
File-cases corrupt = inr (inl refl)
File-cases (holds a) = inr (inr (a, refl))

holds-injective : {A : Type 0} {a b : A} → holds a ≡ holds b → a ≡ b
holds-injective e = cc

same-Finishes : (id : Uuid) (s : Store) → IsClean s → IsDone s id → Finishes id s s
same-Finishes id s c d = record { clean = c; done = d; keeps = λ k h. h }

save_queue_fine :
    (printer : String) (queue : List Uuid) (s : Store)
    → s.outcomes ≡ []
    → ((save_queue printer queue s).0 ≡ ok tt)
      × ((save_queue printer queue s).1.outcomes ≡ [])
      × ((save_queue printer queue s).1.jobs ≡ s.jobs)
unfolding save_queue
save_queue_fine printer queue s script = ground arith

module _ (bytes_json : ℕ → String) (now : DateTime) (storage : StorageMode) (printer : String) where
  Settles-Finishes :
      (id : Uuid) (job : Job) (m m' : Machine)
      → IsClean m.store
      → job.id ≡ id
      → Settles now storage job m (deliver (marked_writing now job) m.link) m'
      → Finishes id m.store m'.store
  Settles-Finishes id job m m' c own st =
      let (answer, l, job') = deliver (marked_writing now job) m.link in
      let last = final_job now storage answer job' in
      let filed : job_file id m'.store.jobs ≡ holds last =
        subst (λ k. job_file k m'.store.jobs ≡ holds last) own st.filed in
      let finished : IsDone m'.store id = λ j f q.
        Verdict-ne-queued answer last st.verdict (cc (holds-injective (sym filed ∙ f), q)) in
      record {
        clean = record {
          named = λ k j f. elim (ℕ_discrete k id) [
            | yes e ↦
                ap (λ (x : Job). x.id)
                  (holds-injective (sym f ∙ (ap (λ i. job_file i m'.store.jobs) e ∙ filed)))
                ∙ (st.same_id ∙ (own ∙ sym e))
            | no n ↦ c.named k j (sym (st.others k (λ q. n (q ∙ own))) ∙ f)
          ];
          script = st.clean;
        };
        done = finished;
        keeps = λ k h. elim (ℕ_discrete k id) [
          | yes e ↦ subst (IsDone m'.store) (sym e) finished
          | no n ↦ λ j f. h j (sym (st.others k (λ q. n (q ∙ own))) ∙ f)
        ];
      }

  -- A file that is not a job's leaves the worker alone.
  process_job_unread :
      (id : Uuid) (m : Machine)
      → (job_file id m.store.jobs ≡ absent) ⊎ (job_file id m.store.jobs ≡ corrupt)
      → m.store ≡ (process_job bytes_json now storage printer id m).store
  unfolding process_job process_loaded
  process_job_unread id m (inl e) = rw e
  process_job_unread id m (inr e) = rw e

  process_job_read :
      (id : Uuid) (job : Job) (m : Machine)
      → IsClean m.store
      → job_file id m.store.jobs ≡ holds job
      → Finishes id m.store (process_job bytes_json now storage printer id m).store
  process_job_read id job m c e = elim (JobState-discrete job.state queued) [
    | yes waiting ↦
        let own = c.named id job e in
        let m' = λ (k : Uuid). process_job bytes_json now storage printer k m in
        let filed = subst (λ k. job_file k m.store.jobs ≡ holds job) (sym own) e in
        Settles-Finishes id job m (m' id) c own (
          subst (λ k. Settles now storage job m (deliver (marked_writing now job) m.link) (m' k))
            own (process_job-Settles bytes_json now storage printer job m filed waiting c.script))
    | no other ↦
        subst (λ (t : Machine). Finishes id m.store t.store)
          (sym (process_job_skips bytes_json now storage printer id job m e other))
          (same-Finishes id m.store c
            (λ j f. subst (λ (x : Job). x.state ≢ queued) (holds-injective (sym e ∙ f)) other))
  ]

  process_job-Finishes :
      (id : Uuid) (m : Machine)
      → IsClean m.store
      → Finishes id m.store (process_job bytes_json now storage printer id m).store
  process_job-Finishes id m c = elim (File-cases (job_file id m.store.jobs)) [
    | inl e ↦
        subst (Finishes id m.store) (process_job_unread id m (inl e))
          (same-Finishes id m.store c (λ j f q. cc))
    | inr (inl e) ↦
        subst (Finishes id m.store) (process_job_unread id m (inr e))
          (same-Finishes id m.store c (λ j f q. cc))
    | inr (inr (job, e)) ↦ process_job_read id job m c e
  ]

  round-running :
      (w : Worker)
      → w.queue_paused ≡ false
      → round bytes_json now storage printer w ≡ round_on bytes_json now storage printer w.queue w
  unfolding round
  round-running w running = rw running refl

  round-paused : (w : Worker) → w.queue_paused ≡ true → round bytes_json now storage printer w ≡ w
  unfolding round
  round-paused w still = rw still refl

  rounds-paused :
      (n : ℕ) (w : Worker) → w.queue_paused ≡ true → rounds bytes_json now storage printer n w ≡ w
  unfolding rounds
  rounds-paused zero w still = refl
  rounds-paused (suc n) w still =
      ap (rounds bytes_json now storage printer n) (round-paused w still) ∙ rounds-paused n w still

  -- One round takes the head of the queue and finishes it.
  record IsRound (id : Uuid) (rest : List Uuid) (w w' : Worker) : Type 0 where
    queue : w'.queue ≡ rest
    running : w'.queue_paused ≡ w.queue_paused
    finishes : Finishes id w.machine.store w'.machine.store

  after_pop-IsRound :
      (id : Uuid) (rest : List Uuid) (r : Result (Unit {0}) × Store) (w : Worker)
      → r.0 ≡ ok tt
      → IsClean r.1
      → r.1.jobs ≡ w.machine.store.jobs
      → IsRound id rest w (after_pop bytes_json now storage printer id rest r w)
  unfolding after_pop
  after_pop-IsRound id rest (ok _, s) w h c same =
      let f =
        process_job-Finishes id (set_depth (length rest + 1) (record w.machine { store = s })) c in
      record {
        queue = refl;
        running = refl;
        finishes = record {
          clean = f.clean;
          done = f.done;
          keeps = λ k d. f.keeps k (λ j q. d j (ap (job_file k) (sym same) ∙ q));
        };
      }
  after_pop-IsRound id rest (err e, s) w h c same = cc

  round-IsRound :
      (id : Uuid) (rest : List Uuid) (w : Worker)
      → w.queue_paused ≡ false
      → w.queue ≡ id ∷ rest
      → IsClean w.machine.store
      → IsRound id rest w (round bytes_json now storage printer w)
  unfolding round_on
  round-IsRound id rest w going e c =
      let saved = save_queue_fine printer rest w.machine.store c.script in
      subst (IsRound id rest w)
        (sym (round-running w going ∙ ap (λ q. round_on bytes_json now storage printer q w) e))
        (after_pop-IsRound id rest (save_queue printer rest w.machine.store) w saved.0
          (record {
            named = λ k j f. c.named k j (ap (job_file k) (sym saved.2) ∙ f);
            script = saved.1;
          })
          saved.2)

  record IsDrained (ids : List Uuid) (w w' : Worker) : Type 0 where
    empty : w'.queue ≡ []
    done : All (IsDone w'.machine.store) ids
    keeps : (k : Uuid) → IsDone w.machine.store k → IsDone w'.machine.store k
    clean : IsClean w'.machine.store

  rounds-IsDrained :
      (ids : List Uuid) (w : Worker)
      → w.queue_paused ≡ false
      → w.queue ≡ ids
      → IsClean w.machine.store
      → IsDrained ids w (rounds bytes_json now storage printer (length ids) w)
  unfolding rounds
  rounds-IsDrained [] w going e c = record { empty = e; done = tt; keeps = λ k h. h; clean = c }
  rounds-IsDrained (id ∷ rest) w going e c =
      let w' = round bytes_json now storage printer w in
      let r = round-IsRound id rest w going e c in
      let d = rounds-IsDrained rest w' (r.running ∙ going) r.queue r.finishes.clean in
      record {
        empty = d.empty;
        done = (d.keeps id r.finishes.done, d.done);
        keeps = λ k h. d.keeps k (r.finishes.keeps k h);
        clean = d.clean;
      }

  -- When the queue is not paused, no write fails and every job file is named by its job's id, the worker
  -- empties its queue in as many rounds as it has entries; then none of the entries is a job that still
  -- waits, and every file is still named by its job's id. With the queue paused, as many rounds leave
  -- the worker as it is.
  pub queue_drains :
      (w : Worker)
      → w.queue_paused ≡ false
      → IsNamed w.machine.store
      → w.machine.store.outcomes ≡ []
      → let w' = rounds bytes_json now storage printer (length w.queue) w in
        (w'.queue ≡ [])
        × All (IsDone w'.machine.store) w.queue
        × IsNamed w'.machine.store
        × (rounds bytes_json now storage printer (length w.queue) (paused w) ≡ paused w)
  queue_drains w going named script =
      let d = rounds-IsDrained w.queue w going refl (record { named = named; script = script }) in
      (d.empty, d.done, d.clean.named, rounds-paused (length w.queue) (paused w) refl)
