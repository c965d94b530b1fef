-- ===== src/Worker/Queue.antt =====
-- The loop of `run` in src/worker.rs: `round` takes the next job of the queue, and is preferred while
-- the queue runs; `receive` handles one command. The tail of the probe's handler (`connected`) takes
-- the probe's result; the probe itself is in Probe.
use zebra_tamer.Prelude.{
  ℕ, ◌+◌, ◌-◌, String, Bool, true, false, ◌&&◌, Option, none, some, List, [], ◌∷◌, ◌++◌, leb, ◌==◌,
  length, if◌then◌else◌, unwrap_or,
}
use zebra_tamer.Prelude.Result.{Result, ok, err, message}
use zebra_tamer.Model.Job.{DateTime, Uuid, Job, cancelled}
use zebra_tamer.Store.State.{Store}
use zebra_tamer.Store.Jobs.{load_job, save_job}
use zebra_tamer.Store.Printers.{save_queue, load_queue, save_queue_paused, load_queue_paused}
use zebra_tamer.Media.Accounting.{apply_reconnect_loss}
use zebra_tamer.Worker.Machine.{Machine, close}
use zebra_tamer.Worker.Process.{StorageMode, emit, process_job}

pub record Worker : Type 0 where
  pub machine : Machine
  pub queue : List Uuid
  pub queue_paused : Bool
  pub ever_connected : Bool
  pub disconnected_at : Option DateTime

abbrev pub with_store : Store → Worker → Worker
with_store s w = record w { machine = record w.machine { store = s } }

abbrev pub set_depth : ℕ → Machine → Machine
set_depth n m = record m { jobs = record m.jobs { queue_depth = n } }

-- `unwrap_or_default`, `unwrap_or`.
abbrev value_or {ℓ} : {A : Type ℓ} → A → Result A → A
value_or d (ok a) = a
value_or d (err e) = d

-- The state before the loop.
unfoldable pub start : String → Machine → Worker
unfolding load_queue load_queue_paused
start printer m =
    let paused = value_or false (load_queue_paused printer m.store).0 in
    record {
      machine = record m { jobs = record m.jobs { queue_paused = paused } };
      queue = value_or [] (load_queue printer m.store).0;
      queue_paused = paused;
      ever_connected = false;
      disconnected_at = none;
    }

pub data Command : Type 0 where
  control : (Machine → Result (Unit {0}) × Machine) → Command
  enqueue : Uuid → Command
  set_queue_paused : Bool → Command
  cancel : Uuid → Command

-- `queue.iter().position(..)` and `candidate.remove(position)`: the first occurrence.
unfoldable pub remove_first : Uuid → List Uuid → Option (List Uuid)
remove_first id [] = none
remove_first id (k ∷ ks) =
    let rest = remove_first id ks in
    if k == id then some ks else elim rest [ none ↦ none | some l ↦ some (k ∷ l) ]

unfoldable pub reconnect_due : DateTime → ℕ → Worker → Bool
reconnect_due now debounce w =
    w.ever_connected && elim w.disconnected_at [ none ↦ false | some at ↦ leb debounce (now - at) ]

abbrev pub marked_cancelled : DateTime → Job → Job
marked_cancelled now job = record job { state = cancelled; updated_at = now; error = none }

module _ (bytes_json : ℕ → String) (now : DateTime) (storage : StorageMode) (printer : String) where
  abbrev pub run_job : Uuid → List Uuid → Machine → Machine
  run_job id rest m =
      set_depth (length rest)
        (process_job bytes_json now storage printer id (set_depth (length rest + 1) m))

  unfoldable pub after_pop : Uuid → List Uuid → Result (Unit {0}) × Store → Worker → Worker
  after_pop id rest (err e, s) w = with_store s w
  after_pop id rest (ok _, s) w = record w {
    queue = rest;
    machine = run_job id rest (record w.machine { store = s });
  }

  unfoldable pub round_on : List Uuid → Worker → Worker
  unfolding after_pop
  round_on [] w = w
  round_on (id ∷ rest) w = after_pop id rest (save_queue printer rest w.machine.store) w

  -- While the queue is not paused, its head leaves the queue's file before it is processed. When the
  -- file cannot be saved the job is put back.
  unfoldable pub round : Worker → Worker
  unfolding round_on
  round w = if w.queue_paused then w else round_on w.queue w

  after_enqueue : List Uuid → Result (Unit {0}) × Store → Worker → Result (Unit {0}) × Worker
  after_enqueue candidate (err e, s) w = (err e, with_store s w)
  after_enqueue candidate (ok _, s) w = (
    ok tt,
    record w {
      queue = candidate;
      machine = set_depth (length candidate) (record w.machine { store = s });
    },
  )

  after_pause : Bool → Result (Unit {0}) × Store → Worker → Result (Unit {0}) × Worker
  after_pause paused (err e, s) w = (err e, with_store s w)
  after_pause paused (ok _, s) w = (
    ok tt,
    record w {
      queue_paused = paused;
      machine = record {
        store = s;
        link = w.machine.link;
        jobs = record w.machine.jobs { queue_paused = paused };
      };
    },
  )

  unfoldable pub cancelled_queue :
      Uuid → List Uuid → Result (Unit {0}) × Store → Worker → Result (Unit {0}) × Worker
  cancelled_queue id candidate (err e, s) w = (err e, with_store s w)
  cancelled_queue id candidate (ok _, s) w = (
    ok tt,
    record w {
      queue = candidate;
      machine =
          set_depth (length candidate)
            (record w.machine { store = emit now "job_cancelled" printer id "{}" s });
    },
  )

  unfoldable pub cancelled_job :
      Uuid → List Uuid → Result (Unit {0}) × Store → Worker → Result (Unit {0}) × Worker
  unfolding cancelled_queue
  cancelled_job id candidate (err e, s) w = (err e, with_store s w)
  cancelled_job id candidate (ok _, s) w =
      cancelled_queue id candidate (save_queue printer candidate s) w

  unfoldable pub cancel_loaded : Uuid → List Uuid → Result Job → Worker → Result (Unit {0}) × Worker
  unfolding cancelled_job
  cancel_loaded id candidate (err e) w = (err e, w)
  cancel_loaded id candidate (ok job) w =
      cancelled_job id candidate (save_job (marked_cancelled now job) w.machine.store) w

  abbrev controlled : Result (Unit {0}) × Machine → Worker → Result (Unit {0}) × Worker
  controlled (r, m) w = (r, record w { machine = m })

  unfoldable pub receive : Command → Worker → Result (Unit {0}) × Worker
  unfolding after_enqueue after_pause cancel_loaded load_job
  receive (control operation) w = controlled (operation w.machine) w
  receive (enqueue id) w =
      let candidate = w.queue ++ (id ∷ []) in
      after_enqueue candidate (save_queue printer candidate w.machine.store) w
  receive (set_queue_paused paused) w =
      after_pause paused (save_queue_paused printer paused w.machine.store) w
  receive (cancel id) w = elim (remove_first id w.queue) [
    | none ↦ (err (message "job_is_not_waiting_in_queue"), w)
    | some candidate ↦ cancel_loaded id candidate (load_job id w.machine.store).0 w
  ]

-- What follows the probe: a printer that was away for the debounce time or longer costs labels.
unfoldable pub connected : DateTime → ℕ → ℕ → String → Result (Unit {0}) → Worker → Worker
unfolding reconnect_due
connected now debounce loss printer (ok _) w =
    let s = w.machine.store in
    let charged = with_store (apply_reconnect_loss now printer loss s) w in
    record (if reconnect_due now debounce w then charged else w) {
      ever_connected = true;
      disconnected_at = none;
    }
connected now debounce loss printer (err e) w =
    if w.ever_connected
    then record w {
      disconnected_at = some (unwrap_or w.disconnected_at now);
      machine = record w.machine { link = close w.machine.link };
    }
    else w
