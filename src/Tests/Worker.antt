-- ===== src/Tests/Worker.antt =====
-- The worker (src/worker.rs) on two waiting jobs: the first is sent after a failed open, the second
-- breaks off.
use zebra_tamer.Prelude.{◌≤◌, ◌≡◌, refl, false, none, List, [], ◌∷◌, ◌++◌, arith, All, length}
use zebra_tamer.Prelude.Result.{ok, is_ok}
use zebra_tamer.Model.Job.{Uuid, queued, writing, cancelled}
use zebra_tamer.Store.Files.{holds, refused}
use zebra_tamer.Store.Jobs.{job_file, save_job}
use zebra_tamer.Store.Printers.{save_queue}
use zebra_tamer.Worker.Machine.{Written}
use zebra_tamer.Worker.Delivery.{deliver}
use zebra_tamer.Worker.Process.{metadata_only, full, process_job, marked_writing}
use zebra_tamer.Worker.Queue.{receive, enqueue, cancel, remove_first}
use zebra_tamer.Worker.Retry.{total, reached, bytes_of, deliver-careful}
use zebra_tamer.Worker.Verdict.{Settles, process_job-Settles, process_job-silent, process_job_skips}
use zebra_tamer.Worker.Commands.{IsTaken, receive-enqueue, receive-cancel}
use zebra_tamer.Worker.Drain.{IsNamed, IsDone, paused, rounds, queue_drains}
use zebra_tamer.Tests.Data.{bytes_json, store_with, machine_with, link, worker, job_in}

worker-IsNamed : IsNamed (store_with [])
unfolding job_file
worker-IsNamed k job h = ground arith

queue_drains_example :
    let w' = rounds bytes_json 20 metadata_only "p1" 2 worker in
    (w'.queue ≡ [])
    × All (IsDone w'.machine.store) (1 ∷ 2 ∷ [])
    × IsNamed w'.machine.store
    × (rounds bytes_json 20 metadata_only "p1" 2 (paused worker) ≡ paused worker)
queue_drains_example = queue_drains bytes_json 20 metadata_only "p1" worker refl worker-IsNamed refl

process_job-Settles_example :
    Settles 20 full
      (job_in queued 2)
      (machine_with [])
      (deliver (marked_writing 20 (job_in queued 2)) link)
      (process_job bytes_json 20 full "p1" 2 (machine_with []))
unfolding job_file
process_job-Settles_example =
    process_job-Settles bytes_json 20 full "p1" (job_in queued 2) (machine_with []) refl refl refl

deliver-careful_example :
    let (answer, l', job') = deliver (job_in queued 2) link in
    (added : List (Uuid × Written)) × (l'.writes ≡ added ++ [])
    × (length added ≤ 3)
    × (total added ≡ bytes_of answer)
    × (reached added ≤ 1)
deliver-careful_example = deliver-careful (job_in queued 2) link

process_job-silent_example :
    (process_job bytes_json 20 full "p1" 1 (machine_with (refused ∷ []))).link ≡ link
process_job-silent_example =
    process_job-silent bytes_json 20 full "p1" 1 (machine_with (refused ∷ [])) (λ e. cc)

process_job_skips_example :
    process_job bytes_json 20 full "p1" 3 (machine_with []) ≡ machine_with []
unfolding job_file
process_job_skips_example =
    process_job_skips bytes_json 20 full "p1" 3 (job_in writing 3) (machine_with []) refl (λ e. cc)

receive-enqueue_example :
    let (r, w') = receive bytes_json 20 full "p1" (enqueue 7) worker in
    (r ≡ ok tt
      → (w'.queue ≡ 1 ∷ 2 ∷ 7 ∷ [])
        × ((w'.machine.store.printers "p1").queue ≡ holds (1 ∷ 2 ∷ 7 ∷ [])))
    × (is_ok r ≡ false → w'.queue ≡ 1 ∷ 2 ∷ [])
receive-enqueue_example = receive-enqueue bytes_json 20 full "p1" 7 worker

receive-cancel_example :
    let (r, w') = receive bytes_json 20 full "p1" (cancel 2) worker in
    (r ≡ ok tt
      → IsTaken 2 (1 ∷ 2 ∷ []) w'.queue
        × ((w'.machine.store.printers "p1").queue ≡ holds w'.queue)
        × (job_file 2 w'.machine.store.jobs
            ≡ holds
                (record (job_in queued 2) { state = cancelled; updated_at = 20; error = none })))
    × (is_ok r ≡ false → w'.queue ≡ 1 ∷ 2 ∷ [])
unfolding job_file
receive-cancel_example = receive-cancel bytes_json 20 full "p1" 2 worker (job_in queued 2) refl refl

-- The job behind the first is taken out.
cancels_second : (receive bytes_json 20 full "p1" (cancel 2) worker).0 ≡ ok tt
unfolding receive remove_first save_job save_queue job_file
cancels_second = refl
