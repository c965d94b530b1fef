-- ===== src/Metrics.antt =====
-- src/metrics.rs: the page of metrics, as its lines. `seconds` writes a number of milliseconds as
-- seconds; the numbers that the code writes as doubles are below 2 ^ 53 and whole.
pub mod Escape
pub mod Lines
use zebra_tamer.Prelude.{
  ℕ, ◌≤◌, String, Bool, true, false, ◌&&◌, Option, none, some, List, [], ◌∷◌, ◌++◌, leb, map, ◌==◌,
  str_eq, if◌then◌else◌,
}
use zebra_tamer.Prelude.Text.{Text, codes}
use zebra_tamer.Prelude.Result.{Result, ok, err}
use zebra_tamer.Model.Media.{MediaState, AccountingConfidence, exact, estimated, degraded}
use zebra_tamer.Model.Snapshot.{
  PrinterSnapshot, Observed, ValueState, value, stale, not_supported, unavailable, unknown,
  not_configured, QueryStats, Map,
}
use zebra_tamer.Store.State.{Store}
use zebra_tamer.Store.Printers.{load_media}
use zebra_tamer.Driver.{decimal}

-- `str::replace` of one character.
unfoldable pub replace : ℕ → Text → Text → Text
replace c by [] = []
replace c by (d ∷ ds) = (if d == c then by else d ∷ []) ++ replace c by ds

unfoldable pub esc : Text → Text
unfolding replace
esc s =
    replace 10 (b'\\' ∷ b'n' ∷ [])
      (replace b'"' (b'\\' ∷ b'"' ∷ []) (replace b'\\' (b'\\' ∷ b'\\' ∷ []) s))

-- One line: `name{label="value",..} value`.
pub record Sample : Type 0 where
  pub name : String
  pub labels : List (String × Text)
  pub reading : Text

abbrev pub label : String × Text → Text
label (name, v) = codes name ++ (codes "=\"" ++ (v ++ codes "\""))

abbrev pub labels_text : List (String × Text) → Text
labels_text [] = []
labels_text (l ∷ []) = label l
labels_text (l ∷ k ∷ ls) = label l ++ (codes "," ++ labels_text (k ∷ ls))

abbrev pub sample_text : Sample → Text
sample_text m = codes m.name ++ (codes "{" ++ (labels_text m.labels ++ (codes "} " ++ m.reading)))

abbrev pub is_value : ValueState → Bool
is_value value = true
is_value _ = false

abbrev pub is_true : Option Bool → Bool
is_true none = false
is_true (some b) = b

abbrev pub digit : Bool → Text
digit b = if b then codes "1" else codes "0"

abbrev pub bool_obs : Observed Bool → Text
bool_obs v = digit (is_value v.state && is_true v.value)

abbrev pub state_name : ValueState → String
state_name value = "value"
state_name stale = "stale"
state_name not_supported = "not_supported"
state_name unavailable = "unavailable"
state_name unknown = "unknown"
state_name not_configured = "not_configured"

abbrev pub state_names : List String
state_names =
    "value" ∷ "stale" ∷ "not_supported" ∷ "unavailable" ∷ "unknown" ∷ "not_configured" ∷ []

abbrev pub confidence_of : AccountingConfidence → Text
confidence_of exact = codes "3"
confidence_of estimated = codes "2"
confidence_of degraded = codes "1"
confidence_of AccountingConfidence.unknown = codes "0"

abbrev pub build_info : Text → Text → Sample
build_info version commit = record {
  name = "zpl_agent_build_info";
  labels = ("version", version) ∷ ("commit", commit) ∷ [];
  reading = codes "1";
}

-- `writeln!` for one printer; `p` is its escaped id.
abbrev pub metric : String → Text → Text → Sample
metric name p reading = record { name = name; labels = ("printer", p) ∷ []; reading = reading }

abbrev pub fault : Text → String → Observed Bool → Sample
fault p name v = record {
  name = "zpl_printer_fault";
  labels = ("printer", p) ∷ ("fault", codes name) ∷ [];
  reading = bool_obs v;
}

abbrev pub capability_line : Text → Text → ValueState → String → Sample
capability_line p cap state name = record {
  name = "zpl_printer_capability_state";
  labels = ("printer", p) ∷ ("capability", cap) ∷ ("state", codes name) ∷ [];
  reading = digit (str_eq (state_name state) name);
}

unfoldable pub capability_lines : Text → Map (Observed Bool) → List Sample
unfolding esc
capability_lines p [] = []
capability_lines p ((capability, v) ∷ m) =
    map (capability_line p (esc (codes capability)) v.state) state_names ++ capability_lines p m

abbrev pub query_line : String → Text → Text → Text → Sample
query_line name p query reading = record {
  name = name;
  labels = ("printer", p) ∷ ("query", query) ∷ [];
  reading = reading;
}

unfoldable pub is_low : MediaState → Bool
is_low m = leb m.remaining_labels m.media.low_warning_threshold

unfoldable pub media_lines : Text → Result (Option MediaState) → List Sample
unfolding decimal is_low
media_lines p (ok (some m)) =
    metric "zpl_printer_media_remaining_labels" p (decimal m.remaining_labels)
    ∷ metric "zpl_printer_media_low" p (digit (is_low m))
    ∷ metric "zpl_printer_media_accounting_confidence" p (confidence_of m.accounting_confidence)
    ∷ record {
      name = "zpl_printer_media_consumed_labels_total";
      labels = ("printer", p) ∷ ("reason", codes "all") ∷ [];
      reading = decimal m.consumed_labels_total;
    }
    ∷ metric "zpl_printer_media_accounting_deficit_labels" p (decimal m.accounting_deficit_labels)
    ∷ []
media_lines p _ = []

unfoldable pub status_lines : Text → PrinterSnapshot → List Sample
unfolding decimal
status_lines p s =
    metric "zpl_printer_present" p (bool_obs s.transport.present)
    ∷ metric "zpl_printer_open" p (bool_obs s.transport.is_open)
    ∷ metric "zpl_printer_protocol_up" p (bool_obs s.transport.protocol_up)
    ∷ metric "zpl_printer_ready" p (bool_obs s.status.ready)
    ∷ metric "zpl_printer_job_queue_depth" p (decimal s.jobs.queue_depth)
    ∷ fault p "paused" s.status.paused
    ∷ fault p "media_out" s.status.media_out
    ∷ fault p "ribbon_out" s.status.ribbon_out
    ∷ fault p "head_open" s.status.head_open
    ∷ fault p "temperature" s.status.temperature_fault
    ∷ []

module _ (seconds : ℕ → Text) where
  unfoldable pub query_lines : Text → Map QueryStats → List Sample
  unfolding esc decimal
  query_lines p [] = []
  query_lines p ((name, stats) ∷ m) =
      let query = esc (codes name) in
      query_line "zpl_printer_queries_total" p query (decimal stats.count)
      ∷ query_line "zpl_printer_query_duration_seconds_total" p query
          (seconds stats.duration_ms_total)
      ∷ query_line "zpl_printer_query_response_bytes_total" p query
          (decimal stats.response_bytes_total)
      ∷ query_line "zpl_printer_query_timeouts_total" p query (decimal stats.timeouts)
      ∷ query_lines p m

  unfoldable pub printer_lines : Store → String × PrinterSnapshot → List Sample
  unfolding esc status_lines capability_lines query_lines media_lines load_media
  printer_lines store (id, s) =
      let p = esc (codes id) in
      status_lines p s
      ++ (capability_lines p s.capabilities
          ++ (query_lines p s.query_stats ++ media_lines p (load_media id store).0))

  -- The lines of all printers, in the order of the workers.
  unfoldable pub render_printers : Store → List (String × PrinterSnapshot) → List Sample
  unfolding printer_lines
  render_printers store [] = []
  render_printers store (w ∷ ws) = printer_lines store w ++ render_printers store ws

  -- `uptime` and `free` are the seconds since the start and the free bytes of the file system.
  unfoldable pub render : Text → Text → ℕ → ℕ → Store → List (String × PrinterSnapshot) → List Text
  unfolding decimal render_printers
  render version commit uptime free store workers =
      codes "# HELP zpl_agent_build_info Build information."
      ∷ codes "# TYPE zpl_agent_build_info gauge"
      ∷ sample_text (build_info version commit)
      ∷ codes "# TYPE zpl_agent_uptime_seconds gauge"
      ∷ (codes "zpl_agent_uptime_seconds " ++ decimal uptime)
      ∷ codes "# TYPE zpl_agent_filesystem_free_bytes gauge"
      ∷ (codes "zpl_agent_filesystem_free_bytes " ++ decimal free)
      ∷ map sample_text (render_printers store workers)
