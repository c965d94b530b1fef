-- ===== src/Worker/Commands.antt =====
-- What the commands of the worker (src/worker.rs) leave in memory and on disk.
use text.Mathlib.TextPositions.{eq_refl}
use zebra_tamer.Prelude.{
  ℕ, ◌≡◌, ◌≢◌, ap, String, Bool, false, none, some, List, [], ◌∷◌, ◌++◌, arith, ◌==◌, ==_iff, All,
  Bool-cases, Option-cases, inl, inr,
}
use zebra_tamer.Prelude.Result.{ok, is_ok}
use zebra_tamer.Model.Job.{DateTime, Uuid, Job, cancelled}
use zebra_tamer.Store.Files.{holds, fine}
use zebra_tamer.Store.Jobs.{job_file, save_job, job_file-put_job}
use zebra_tamer.Store.Printers.{save_queue, save_queue_paused, append_event}
use zebra_tamer.Worker.Process.{StorageMode, emit}
use zebra_tamer.Worker.Queue.{
  Worker, enqueue, set_queue_paused, cancel, receive, remove_first, marked_cancelled,
}

-- The queue without the first occurrence of the job.
pub record IsTaken (id : Uuid) (queue rest : List Uuid) : Type 0 where
  before : List Uuid
  behind : List Uuid
  stood : queue ≡ before ++ (id ∷ behind)
  none_earlier : All (λ k. k ≢ id) before
  left : rest ≡ before ++ behind

remove_first-IsTaken :
    (id : Uuid) (queue rest : List Uuid) → remove_first id queue ≡ some rest → IsTaken id queue rest
unfolding remove_first
remove_first-IsTaken id [] rest h = cc
remove_first-IsTaken id (k ∷ ks) rest h = elim (Bool-cases (k == id)) [
  | inl same ↦ record {
    before = [];
    behind = ks;
    stood = ap (λ i. i ∷ ks) ((==_iff k id).0 same);
    none_earlier = tt;
    left = ground (arith, same, h);
  }
  | inr other ↦ elim (Option-cases (remove_first id ks)) [
    | inl none_left ↦ ground (arith, other, none_left, h)
    | inr (l, found) ↦
        let taken = remove_first-IsTaken id ks l found in
        record {
          before = k ∷ taken.before;
          behind = taken.behind;
          stood = ap (λ ys. k ∷ ys) taken.stood;
          none_earlier = (λ e. ground (arith, other, (==_iff k id).1 e), taken.none_earlier);
          left = ground (arith, other, found, h, taken.left);
        }
  ]
]

module _ (bytes_json : ℕ → String) (now : DateTime) (storage : StorageMode) (printer : String) where
  -- An accepted job stands at the end of the queue, in memory and on disk; a refused one leaves the
  -- queue in memory as it was.
  pub receive-enqueue :
      (id : Uuid) (w : Worker)
      → let (r, w') = receive bytes_json now storage printer (enqueue id) w in
        (r ≡ ok tt
          → (w'.queue ≡ w.queue ++ (id ∷ []))
            × ((w'.machine.store.printers printer).queue ≡ holds (w.queue ++ (id ∷ []))))
        × (is_ok r ≡ false → w'.queue ≡ w.queue)
  unfolding receive save_queue
  receive-enqueue id w = (λ h. ground (arith, eq_refl printer), λ h. ground arith)

  -- A pause that is acknowledged survives a restart: the flag on disk is the flag in memory.
  pub receive-set_queue_paused :
      (paused : Bool) (w : Worker)
      → let (r, w') = receive bytes_json now storage printer (set_queue_paused paused) w in
        (r ≡ ok tt
          → (w'.queue_paused ≡ paused)
            × (w'.machine.jobs.queue_paused ≡ paused)
            × ((w'.machine.store.printers printer).queue_paused ≡ holds paused))
        × (is_ok r ≡ false → w'.queue_paused ≡ w.queue_paused)
        × (w'.queue ≡ w.queue)
  unfolding receive save_queue_paused
  receive-set_queue_paused paused w =
      (λ h. ground (arith, eq_refl printer), λ h. ground arith, ground arith)

  -- A cancellation that is acknowledged, in the terms of the code.
  receive-cancel_done :
      (id : Uuid) (w : Worker) (job : Job)
      → job_file id w.machine.store.jobs ≡ holds job
      → job.id ≡ id
      → let (r, w') = receive bytes_json now storage printer (cancel id) w in
        r ≡ ok tt
        → (remove_first id w.queue ≡ some w'.queue)
          × ((w'.machine.store.printers printer).queue ≡ holds w'.queue)
          × (job_file id w'.machine.store.jobs ≡ holds (marked_cancelled now job))
  unfolding receive save_queue save_job emit append_event
  receive-cancel_done id w job file own done = ground (
    arith,
    eq_refl printer,
    job_file-put_job fine (marked_cancelled now job) id w.machine.store.jobs,
  )

  receive-cancel_failed :
      (id : Uuid) (w : Worker)
      → is_ok (receive bytes_json now storage printer (cancel id) w).0 ≡ false
      → (receive bytes_json now storage printer (cancel id) w).1.queue ≡ w.queue
  unfolding receive save_queue save_job
  receive-cancel_failed id w e = ground arith

  -- A cancellation that is acknowledged, of a job whose file is named by its id, took the first
  -- occurrence of the job out of the queue and kept the order of all else there; the queue's file says
  -- the same; and the job's file holds the job in the state `cancelled`, with the time and without an
  -- error, and otherwise as it was. A cancellation that is refused leaves the queue in memory as it was.
  pub receive-cancel :
      (id : Uuid) (w : Worker) (job : Job)
      → job_file id w.machine.store.jobs ≡ holds job
      → job.id ≡ id
      → let (r, w') = receive bytes_json now storage printer (cancel id) w in
        (r ≡ ok tt
          → IsTaken id w.queue w'.queue
            × ((w'.machine.store.printers printer).queue ≡ holds w'.queue)
            × (job_file id w'.machine.store.jobs
                ≡ holds (record job { state = cancelled; updated_at = now; error = none })))
        × (is_ok r ≡ false → w'.queue ≡ w.queue)
  receive-cancel id w job file own = (
    λ done.
        let (removed, saved, marked) = receive-cancel_done id w job file own done in
        (remove_first-IsTaken id w.queue _ removed, saved, marked),
    receive-cancel_failed id w,
  )
