-- ===== src/Model/Job.antt =====
-- src/model.rs: jobs, their states, and the events of the log.
use zebra_tamer.Prelude.{ℕ, String, Bool, true, false, Option}

-- A point in time.
abbrev pub DateTime : Type 0
DateTime = ℕ

abbrev pub Uuid : Type 0
Uuid = ℕ

pub data JobState : Type 0 where
  receiving queued writing verifying transport_accepted completed_observed : JobState
  held cancelled failed outcome_unknown : JobState

pub JobState-discrete : Discrete JobState
JobState-discrete = hlevel

abbrev pub is_queued : JobState → Bool
is_queued queued = true
is_queued _ = false

pub record Job : Type 0 where
  pub id : Uuid
  pub printer_id : String
  pub state : JobState
  pub created_at : DateTime
  pub updated_at : DateTime
  pub label_count : Option ℕ
  pub label_count_source : Option String
  pub origin : Option String
  pub description : Option String
  pub idempotency_key : Option String
  pub sha256 : Option String
  pub bytes : ℕ
  pub bytes_transferred : ℕ
  pub delivery_attempts : ℕ  -- u32
  pub payload_path : Option Uuid  -- `payloads/{id}.zpl`, named by its id
  pub error : Option String

pub record Event : Type 0 where
  pub sequence : ℕ
  pub at : DateTime
  pub kind : String
  pub printer_id : Option String
  pub job_id : Option Uuid
  pub data_text : String  -- the JSON text of `data`
