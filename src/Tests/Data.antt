-- ===== src/Tests/Data.antt =====
-- Concrete inputs for the tests: one printer, a roll of labels and three jobs.
use zebra_tamer.Prelude.{
  ℕ, ◌*◌, ◌^◌, String, true, false, Option, none, some, List, [], ◌∷◌, ◌==◌, if◌then◌else◌,
}
use zebra_tamer.Prelude.Int.{ℤ, pos}
use zebra_tamer.Prelude.Float.{Float, finite}
use zebra_tamer.Prelude.Text.{codes}
use zebra_tamer.Model.Job.{DateTime, Uuid, Job, JobState, queued, writing}
use zebra_tamer.Model.Media.{
  MediaDefinition, MediaState, MediaAdjustment, gap, direct_thermal, estimated,
}
use zebra_tamer.Store.Files.{absent, holds, Outcome}
use zebra_tamer.Store.State.{Store, PrinterDir}
use zebra_tamer.Worker.Machine.{Machine, Link, Written, delivered, failure}
use zebra_tamer.Worker.Queue.{Worker}

abbrev pub bytes_json : ℕ → String
bytes_json n = if n == 0 then "{\"bytes\":0}" else "{\"bytes\":420}"

abbrev pub digest : DateTime → MediaDefinition → String
digest loaded_at media = if loaded_at == 5 then "5f" else "a0"

abbrev mm : ℕ → Float
mm n = finite (pos (n * 2 ^ 1074))

abbrev pub labels : MediaDefinition
labels = record {
  display_name = codes "Shipping labels";
  product_number = none;
  manufacturer = none;
  description = none;
  width_mm = mm 100;
  height_mm = mm 150;
  gap_mm = some (mm 3);
  corner_radius_mm = none;
  black_mark_width_mm = none;
  black_mark_height_mm = none;
  core_diameter_mm = none;
  outer_diameter_mm = none;
  shape = codes "rectangle";
  tracking = gap;
  print_technology = direct_thermal;
  color = record { name = codes "white"; hex = some (codes "#ffFFff"); description = none };
  material = none;
  surface = none;
  transparent = none;
  thermal_coating = none;
  thickness_micrometers = none;
  adhesive = none;
  liner = none;
  ribbon = none;
  preferred_settings = record {
    darkness = none;
    speed = none;
    x_offset = none;
    y_offset = none;
    print_mode = none;
  };
  labels_available_at_load = 10;
  nominal_full_roll_labels = none;
  low_warning_threshold = 2;
  custom = [];
}

abbrev pub roll : MediaState
roll = record {
  initial_labels = 10;
  remaining_labels = 10;
  consumed_labels_total = 0;
  accounting_deficit_labels = 0;
  accounting_confidence = estimated;
  last_accounting_event_at = none;
  ledger_sequence = 0;
  loaded_at = 5;
  media = labels;
}

abbrev pub correction : ℤ → MediaAdjustment
correction delta = record {
  delta = delta;
  reason = "count";
  source = "operator";
  job_id = none;
  hardware_counter_before = none;
  hardware_counter_after = none;
}

abbrev pub job_in : JobState → Uuid → Job
job_in state id = record {
  id = id;
  printer_id = "p1";
  state = state;
  created_at = 10;
  updated_at = 10;
  label_count = some 3;
  label_count_source = some "client";
  origin = none;
  description = none;
  idempotency_key = none;
  sha256 = some "00";
  bytes = 420;
  bytes_transferred = 0;
  delivery_attempts = 0;
  payload_path = some id;
  error = none;
}

abbrev pub printer_dir : PrinterDir
printer_dir = record {
  queue = holds (1 ∷ 2 ∷ []);
  queue_paused = absent;
  media = holds roll;
  archives = [];
  ledger = record { lines = []; open_end = false };
}

-- Jobs 1 and 2 wait; job 3 was interrupted in its delivery.
abbrev pub store_with : List Outcome → Store
store_with outcomes = record {
  jobs =
      (2, holds (job_in queued 2))
      ∷ (3, holds (job_in writing 3))
      ∷ (1, holds (job_in queued 1))
      ∷ [];
  payloads = λ id. true;
  spool = λ id. false;
  job_index = record { lines = []; open_end = false };
  events = record { lines = []; open_end = false };
  printers = λ id. printer_dir;
  printer_configs = absent;
  boot_id = holds "7c1e";
  outcomes = outcomes;
}

-- The first open is refused; the payload of job 1 then goes through, that of job 2 breaks off.
abbrev pub answers : Uuid → ℕ → Written
answers path n = if path == 1 then delivered 420 else failure 17 "broken pipe"

abbrev pub opens : ℕ → Option String
opens n = if n == 0 then some "No route to host" else none

abbrev pub link : Link
link = record {
  is_open = false;
  opens = opens;
  open_calls = 0;
  answers = answers;
  writes = [];
  write_calls = 0;
}

abbrev pub machine_with : List Outcome → Machine
machine_with outcomes = record {
  store = store_with outcomes;
  link = link;
  jobs = record {
    queue_depth = 2;
    queue_paused = false;
    last_job_id = none;
    last_job_state = none;
  };
}

abbrev pub worker : Worker
worker = record {
  machine = machine_with [];
  queue = 1 ∷ 2 ∷ [];
  queue_paused = false;
  ever_connected = true;
  disconnected_at = none;
}
