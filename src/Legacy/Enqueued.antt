-- ===== src/Legacy/Enqueued.antt =====
-- The command with which `create_job` (src/api.rs) hands a job to the worker, and where the job then
-- stands.
use text.Mathlib.TextPositions.{eq_refl}
use zebra_tamer.Prelude.{ℕ, ◌≡◌, refl, String, Option, some, List, [], ◌∷◌, ◌++◌, arith}
use zebra_tamer.Prelude.Result.{Result, ok}
use zebra_tamer.Model.Job.{DateTime, Uuid}
use zebra_tamer.Store.Files.{holds}
use zebra_tamer.Store.Jobs.{JobDir}
use zebra_tamer.Store.Printers.{save_queue}
use zebra_tamer.Worker.Process.{StorageMode}
use zebra_tamer.Worker.Queue.{Worker, enqueue, receive, with_store}
use zebra_tamer.Worker.Commands.{receive-enqueue}
use zebra_tamer.Api.Agent.{
  Agent, Handle, Mail, handled, full, stopped, head_mail, tail_mail, put_worker, after_command,
  delivered_by, send_command,
}
use zebra_tamer.Legacy.Goes.{Lands}
use zebra_tamer.Legacy.Settled.{IsQueued}

put_worker-own :
    (printer : String) (w : Worker) (h : Handle) (workers : String → Option Handle)
    → workers printer ≡ some h
    → put_worker printer w workers printer ≡ some (record h { worker = w })
put_worker-own printer w h workers running = rw (running, put_worker, eq_refl printer) refl

module _ (bytes_json : ℕ → String) (now : DateTime) (storage : StorageMode) where
  after_command_answer :
      (printer : String) (out : Result (Unit {0}) × Worker) (s : Agent)
      → (after_command bytes_json now storage printer out s).0 ≡ ok tt
      → out.0 ≡ ok tt
  unfolding after_command
  after_command_answer printer (r, w) s h = h

  after_command-IsQueued :
      (printer : String) (id : Uuid) (queue : List Uuid) (h : Handle)
      (out : Result (Unit {0}) × Worker) (s : Agent)
      → s.workers printer ≡ some h
      → (out.1.queue ≡ queue ++ (id ∷ []))
        × ((out.1.machine.store.printers printer).queue ≡ holds (queue ++ (id ∷ [])))
      → IsQueued queue printer id (after_command bytes_json now storage printer out s).1
  unfolding after_command
  after_command-IsQueued printer id queue h (r, w) s running (memory, file) = record {
    handle = record h { worker = w };
    running = put_worker-own printer w h s.workers running;
    in_worker = memory;
    in_file = file;
  }

  -- A command that is acknowledged has put the job at the end of the queue.
  delivered_by-IsQueued :
      (mail : Mail) (printer : String) (id : Uuid) (h : Handle) (s : Agent)
      → s.workers printer ≡ some h
      → (delivered_by bytes_json now storage mail printer (enqueue id) h.worker s).0 ≡ ok tt
      → IsQueued h.worker.queue printer id
          (delivered_by bytes_json now storage mail printer (enqueue id) h.worker s).1
  unfolding delivered_by
  delivered_by-IsQueued full printer id h s running acknowledged = cc
  delivered_by-IsQueued stopped printer id h s running acknowledged = cc
  delivered_by-IsQueued handled printer id h s running acknowledged =
      let w = with_store s.store h.worker in
      let out = receive bytes_json now storage printer (enqueue id) w in
      after_command-IsQueued printer id h.worker.queue h out s running (
        (receive-enqueue bytes_json now storage printer id w).0
          (after_command_answer printer out s acknowledged))

  pub send_command-IsQueued :
      (printer : String) (id : Uuid) (h : Handle) (s : Agent)
      → s.workers printer ≡ some h
      → (send_command bytes_json now storage printer (enqueue id) h.worker s).0 ≡ ok tt
      → IsQueued h.worker.queue printer id
          (send_command bytes_json now storage printer (enqueue id) h.worker s).1
  unfolding send_command
  send_command-IsQueued printer id h s running acknowledged =
      delivered_by-IsQueued (head_mail s.mail) printer id h (record s { mail = tail_mail s.mail })
        running acknowledged

  pub send_command-Lands :
      (printer : String) (id : Uuid) (w : Worker) (dir : JobDir) (s : Agent)
      → Lands dir s.store
      → Lands dir (send_command bytes_json now storage printer (enqueue id) w s).1.store
  unfolding send_command receive save_queue
  send_command-Lands printer id w dir s h = record {
    outcomes = ground (arith, h.outcomes);
    jobs = ground (arith, h.jobs);
  }
