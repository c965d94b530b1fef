-- ===== src/Worker/Process.antt =====
-- `process_job` of src/worker.rs, with its `emit`. The pauses between the attempts are left out.
use zebra_tamer.Prelude.{ℕ, String, Option, none, some, ltb, if◌then◌else◌}
use zebra_tamer.Prelude.Result.{Result, ok, err}
use zebra_tamer.Prelude.Exec.{attempt}
use zebra_tamer.Model.Job.{
  DateTime, Uuid, Job, writing, transport_accepted, outcome_unknown, failed, is_queued,
}
use zebra_tamer.Store.State.{Store}
use zebra_tamer.Store.Jobs.{load_job, save_job, remove_payload}
use zebra_tamer.Store.Printers.{next_event, append_event}
use zebra_tamer.Media.Accounting.{consume_media}
use zebra_tamer.Worker.Machine.{Link, Machine, Written, delivered, failure, close}
use zebra_tamer.Worker.Delivery.{deliver}

pub data StorageMode : Type 0 where
  full metadata_only : StorageMode

unfoldable pub emit : DateTime → String → String → Uuid → String → Store → Store
emit now kind printer id data_text s =
    attempt (append_event (next_event now kind (some printer) (some id) data_text s)) s

-- The state of a job after its delivery.
unfoldable pub settled : DateTime → Written → Job → Job
settled now (delivered n) job = record job {
  bytes_transferred = n;
  state = transport_accepted;
  updated_at = now;
}
settled now (failure n e) job = record job {
  bytes_transferred = n;
  state = if ltb 0 n then outcome_unknown else failed;
  error = some e;
  updated_at = now;
}

-- With `metadata_only` the payload of an accepted job is removed.
unfoldable pub forget_payload : StorageMode → Option Uuid → Store → Store
forget_payload metadata_only (some path) s = attempt (remove_payload path) s
forget_payload _ _ s = s

unfoldable pub forgotten : StorageMode → Job → Job
forgotten full job = job
forgotten metadata_only job = record job { payload_path = none }

-- The job as the last `save_job` writes it.
unfoldable pub final_job : DateTime → StorageMode → Written → Job → Job
unfolding forgotten settled
final_job now storage (delivered n) job = forgotten storage (settled now (delivered n) job)
final_job now storage (failure n e) job = settled now (failure n e) job

abbrev pub after_delivery : Written → Link → Link
after_delivery (delivered n) l = l
after_delivery (failure n e) l = close l

abbrev pub marked_writing : DateTime → Job → Job
marked_writing now job = record job { state = writing; updated_at = now }

-- `bytes_json` is the JSON text of `{"bytes": n}`.
module _ (bytes_json : ℕ → String) (now : DateTime) (storage : StorageMode) (printer : String) where
  -- The writes of the store between the delivery and the last `save_job`.
  unfoldable pub record_delivery : Written → Job → Uuid → Store → Store
  unfolding forget_payload
  record_delivery (delivered n) job id s = forget_payload storage job.payload_path (
      consume_media now printer job
        (emit now "job_transport_accepted" printer id (bytes_json n) (attempt (save_job job) s)))
  record_delivery (failure n e) job id s = s

  -- From the delivery to the end.
  unfoldable pub finish : Uuid → Written × Link × Job → Store → Machine → Machine
  unfolding record_delivery final_job
  finish id (answer, l, job) s m =
      let last = final_job now storage answer job in
      record {
        store = attempt (save_job last) (record_delivery answer (settled now answer job) id s);
        link = after_delivery answer l;
        jobs = record m.jobs { last_job_id = some id; last_job_state = some last.state };
      }

  -- The job file says `writing` before a byte is sent; if that cannot be saved, nothing is sent.
  unfoldable pub begin : Uuid → Job → Result (Unit {0}) × Store → Machine → Machine
  unfolding finish
  begin id job (err e, s) m = record m { store = s }
  begin id job (ok _, s) m =
      finish id (deliver job m.link) (emit now "job_writing" printer id "{}" s) m

  unfoldable pub process_loaded : Uuid → Result Job → Machine → Machine
  unfolding begin
  process_loaded id (err e) m = m
  process_loaded id (ok job) m =
      if is_queued job.state
      then begin id (marked_writing now job) (save_job (marked_writing now job) m.store) m
      else m

  unfoldable pub process_job : Uuid → Machine → Machine
  unfolding process_loaded load_job
  process_job id m = process_loaded id (load_job id m.store).0 m
