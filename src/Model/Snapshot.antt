-- ===== src/Model/Snapshot.antt =====
-- What the agent knows of a printer (src/model.rs). Maps are association lists in no order, JSON values
-- are their text, and `JobSummary` is the worker's.
use zebra_tamer.Prelude.{
  ℕ, String, Bool, false, Option, none, some, List, [], ◌∷◌, str_eq, if◌then◌else◌,
}
use zebra_tamer.Prelude.Int.{ℤ}
use zebra_tamer.Prelude.Float.{Float}
use zebra_tamer.Prelude.Text.{Text}
use zebra_tamer.Model.Job.{DateTime}
use zebra_tamer.Model.Media.{MediaState}
use zebra_tamer.Worker.Machine.{JobSummary}

pub data ValueState : Type 0 where
  value stale not_supported unavailable unknown not_configured : ValueState

pub record Observed (A : Type 0) : Type 0 where
  pub state : ValueState
  pub value : Option A
  pub unit : Option String
  pub source : String
  pub observed_at : Option DateTime
  pub reason : Option String

-- `unknown`, `not_supported`, `value` and `unavailable` of `Observed`.
module _ {A : Type 0} where
  abbrev pub never_observed : Observed A
  never_observed = record {
    state = unknown;
    value = none;
    unit = none;
    source = "agent";
    observed_at = none;
    reason = some "not_observed_yet";
  }

  abbrev pub observed_not_supported : DateTime → String → Observed A
  observed_not_supported now reason = record {
    state = not_supported;
    value = none;
    unit = none;
    source = "printer";
    observed_at = some now;
    reason = some reason;
  }

  abbrev pub observed_value : DateTime → A → Option String → String → Observed A
  observed_value now a unit source = record {
    state = value;
    value = some a;
    unit = unit;
    source = source;
    observed_at = some now;
    reason = none;
  }

  abbrev pub observed_unavailable : DateTime → String → Observed A
  observed_unavailable now reason = record {
    state = unavailable;
    value = none;
    unit = none;
    source = "printer";
    observed_at = some now;
    reason = some reason;
  }

pub record TransportSnapshot : Type 0 where
  pub present : Observed Bool
  pub is_open : Observed Bool  -- `open`
  pub protocol_up : Observed Bool
  pub connected_at : Observed DateTime
  pub disconnected_at : Observed DateTime
  pub last_response_at : Observed DateTime

pub record IdentitySnapshot : Type 0 where
  pub model : Observed Text
  pub firmware : Observed Text
  pub hardware_id : Observed Text
  pub serial_number : Observed Text
  pub resolution_dpi : Observed ℕ

pub record StatusSnapshot : Type 0 where
  pub ready : Observed Bool
  pub paused : Observed Bool
  pub media_out : Observed Bool
  pub ribbon_out : Observed Bool
  pub head_open : Observed Bool
  pub temperature_fault : Observed Bool
  pub buffer_available_bytes : Observed ℕ
  pub print_mode : Observed String
  pub batch_remaining : Observed ℕ

pub record SettingsSnapshot : Type 0 where
  pub darkness : Observed Float
  pub print_speed : Observed Float
  pub slew_speed : Observed Float
  pub backfeed_speed : Observed Float
  pub label_length_dots : Observed ℕ
  pub print_width_dots : Observed ℕ
  pub label_top_dots : Observed ℤ
  pub x_offset_dots : Observed ℤ
  pub y_offset_dots : Observed ℤ
  pub format_prefix : Observed String
  pub control_prefix : Observed String
  pub delimiter : Observed String
  pub communication : Observed String

pub record DiagnosticsSnapshot : Type 0 where
  pub head_test : Observed String
  pub temperature_celsius : Observed Float
  pub sensor_values : Observed String
  pub voltage_raw : Observed String
  pub pitch_values : Observed String

pub record MemorySnapshot : Type 0 where
  pub ram_free_bytes : Observed ℕ
  pub ram_total_bytes : Observed ℕ
  pub flash_free_bytes : Observed ℕ
  pub flash_total_bytes : Observed ℕ
  pub other : Observed String

pub record CounterSnapshot : Type 0 where
  pub odometer : Observed ℕ
  pub labels_printed : Observed ℕ
  pub marker_count : Observed ℕ
  pub manual_feed_detection : Observed Bool

pub record RawResponse : Type 0 where
  pub text : Text
  pub base64 : String
  pub observed_at : DateTime
  pub duration_ms : ℕ
  pub error : Option String
  pub classification : String

pub record QueryStats : Type 0 where
  pub count : ℕ
  pub duration_ms_total : ℕ
  pub response_bytes_total : ℕ
  pub timeouts : ℕ

abbrev pub no_stats : QueryStats
no_stats = record { count = 0; duration_ms_total = 0; response_bytes_total = 0; timeouts = 0 }

abbrev pub Map : Type 0 → Type 0
Map A = List (String × A)

pub record PrinterSnapshot : Type 0 where
  pub schema_version : ℕ
  pub printer_id : String
  pub transport : TransportSnapshot
  pub identity : IdentitySnapshot
  pub status : StatusSnapshot
  pub settings : SettingsSnapshot
  pub diagnostics : DiagnosticsSnapshot
  pub memory : MemorySnapshot
  pub counters : CounterSnapshot
  pub media : Observed MediaState
  pub jobs : JobSummary
  pub capabilities : Map (Observed Bool)
  pub raw_responses : Map RawResponse
  pub query_stats : Map QueryStats
  pub updated_at : DateTime

-- `PrinterSnapshot::new`: nothing has been observed.
abbrev no_transport : TransportSnapshot
no_transport = record {
  present = never_observed;
  is_open = never_observed;
  protocol_up = never_observed;
  connected_at = never_observed;
  disconnected_at = never_observed;
  last_response_at = never_observed;
}

abbrev no_identity : IdentitySnapshot
no_identity = record {
  model = never_observed;
  firmware = never_observed;
  hardware_id = never_observed;
  serial_number = never_observed;
  resolution_dpi = never_observed;
}

abbrev no_status : StatusSnapshot
no_status = record {
  ready = never_observed;
  paused = never_observed;
  media_out = never_observed;
  ribbon_out = never_observed;
  head_open = never_observed;
  temperature_fault = never_observed;
  buffer_available_bytes = never_observed;
  print_mode = never_observed;
  batch_remaining = never_observed;
}

abbrev no_settings : SettingsSnapshot
no_settings = record {
  darkness = never_observed;
  print_speed = never_observed;
  slew_speed = never_observed;
  backfeed_speed = never_observed;
  label_length_dots = never_observed;
  print_width_dots = never_observed;
  label_top_dots = never_observed;
  x_offset_dots = never_observed;
  y_offset_dots = never_observed;
  format_prefix = never_observed;
  control_prefix = never_observed;
  delimiter = never_observed;
  communication = never_observed;
}

abbrev no_diagnostics : DiagnosticsSnapshot
no_diagnostics = record {
  head_test = never_observed;
  temperature_celsius = never_observed;
  sensor_values = never_observed;
  voltage_raw = never_observed;
  pitch_values = never_observed;
}

abbrev no_memory : MemorySnapshot
no_memory = record {
  ram_free_bytes = never_observed;
  ram_total_bytes = never_observed;
  flash_free_bytes = never_observed;
  flash_total_bytes = never_observed;
  other = never_observed;
}

abbrev no_counters : CounterSnapshot
no_counters = record {
  odometer = never_observed;
  labels_printed = never_observed;
  marker_count = never_observed;
  manual_feed_detection = never_observed;
}

abbrev no_jobs : JobSummary
no_jobs = record {
  queue_depth = 0;
  queue_paused = false;
  last_job_id = none;
  last_job_state = none;
}

abbrev pub new_snapshot : DateTime → String → PrinterSnapshot
new_snapshot now id = record {
  schema_version = 1;
  printer_id = id;
  transport = no_transport;
  identity = no_identity;
  status = no_status;
  settings = no_settings;
  diagnostics = no_diagnostics;
  memory = no_memory;
  counters = no_counters;
  media = never_observed;
  jobs = no_jobs;
  capabilities = [];
  raw_responses = [];
  query_stats = [];
  updated_at = now;
}

module _ {A : Type 0} where
  -- `get`.
  unfoldable pub find : String → Map A → Option A
  find k [] = none
  find k ((j, a) ∷ m) = let rest = find k m in if str_eq j k then some a else rest

  -- `insert`: the entry with the key, or a new one.
  unfoldable pub insert : String → A → Map A → Map A
  insert k a [] = (k, a) ∷ []
  insert k a ((j, b) ∷ m) =
      let rest = insert k a m in if str_eq j k then (j, a) ∷ m else (j, b) ∷ rest
