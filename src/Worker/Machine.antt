-- ===== src/Worker/Machine.antt =====
-- What the worker thread of src/worker.rs works on: the store, the transport and the snapshot's
-- `JobSummary`. The printer's side is an oracle: how the opens and the writes of payloads go.
use zebra_tamer.Prelude.{ℕ, ◌+◌, String, Bool, true, false, Option, none, some, List, ◌∷◌}
use zebra_tamer.Model.Job.{Uuid, JobState}
use zebra_tamer.Store.State.{Store}

-- `write_file`: the bytes of the whole payload, or a `DeliveryFailure`.
pub data Written : Type 0 where
  delivered : ℕ → Written
  failure : ℕ → String → Written

-- The transport: whether it is open, the answers of the outside to the next opens (`none` is
-- success) and payload writes, and the writes made so far, the latest first.
pub record Link : Type 0 where
  pub is_open : Bool
  pub opens : ℕ → Option String
  pub open_calls : ℕ
  pub answers : Uuid → ℕ → Written
  pub writes : List (Uuid × Written)
  pub write_calls : ℕ

pub record JobSummary : Type 0 where
  pub queue_depth : ℕ
  pub queue_paused : Bool
  pub last_job_id : Option Uuid
  pub last_job_state : Option JobState

pub record Machine : Type 0 where
  pub store : Store
  pub link : Link
  pub jobs : JobSummary

opened : Option String → Link → Option String × Link
opened none l = (none, record l { is_open = true; open_calls = l.open_calls + 1 })
opened (some e) l = (some e, record l { open_calls = l.open_calls + 1 })

-- `ensure_transport`, without the snapshot's `transport` entries; `some e` is its error.
unfoldable pub ensure_transport : Link → Option String × Link
unfolding opened
ensure_transport l = elim l.is_open [ true ↦ (none, l) | false ↦ opened (l.opens l.open_calls) l ]

unfoldable pub write_file : Uuid → Link → Written × Link
write_file path l =
    let answer = l.answers path l.write_calls in
    (answer, record l { writes = (path, answer) ∷ l.writes; write_calls = l.write_calls + 1 })

-- `*transport = None`.
abbrev pub close : Link → Link
close l = record l { is_open = false }
