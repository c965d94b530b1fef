-- ===== src/Probe/Run.antt =====
-- `probe` of src/worker.rs: the base queries, the optional ones, and the summary in the snapshot.
use zebra_tamer.Prelude.{
  ℕ, String, Bool, true, false, ◌&&◌, Option, none, some, List, [], ◌∷◌, str_eq, if◌then◌else◌,
}
use zebra_tamer.Prelude.Float.{Float}
use zebra_tamer.Prelude.Text.{Text, Bytes}
use zebra_tamer.Prelude.Result.{Result, ok, err, message}
use zebra_tamer.Model.Job.{DateTime}
use zebra_tamer.Model.Snapshot.{
  PrinterSnapshot, Observed, value, not_supported, unavailable, observed_value,
  observed_not_supported, observed_unavailable, never_observed, find, insert,
}
use zebra_tamer.Store.Files.{File, Outcome, put_file}
use zebra_tamer.Probe.{
  Query, Reply, answered, lost, Channel, ask, base_queries, optional_queries, record_response,
  is_timeout,
}
use zebra_tamer.Probe.Known.{parse_known}

pub data HardwareCounterPolicy : Type 0 where
  disabled prefer require : HardwareCounterPolicy

-- The snapshot in memory, its file, and the printer.
pub record Prober : Type 0 where
  pub snapshot : PrinterSnapshot
  pub file : File PrinterSnapshot
  pub channel : Channel

abbrev pub note : String → Observed Bool → PrinterSnapshot → PrinterSnapshot
note name seen s = record s { capabilities = insert name seen s.capabilities }

abbrev pub is_disabled : HardwareCounterPolicy → Bool
is_disabled disabled = true
is_disabled _ = false

-- The odometer is left alone when the configuration says so.
abbrev pub is_skipped : HardwareCounterPolicy → String → Bool
is_skipped counters name = str_eq name "odometer" && is_disabled counters

abbrev pub put_snapshot : PrinterSnapshot → Prober → Prober
put_snapshot snapshot p = record p { snapshot = snapshot }

abbrev pub is_answer : Reply → Bool
is_answer (answered bytes class ms) = true
is_answer (lost e ms) = false

module _ (lossy : Bytes → Text) (base64 : Bytes → String) (parse_f64 : Text → Option Float)
    (dpi_of : Float → ℕ) (now : DateTime) where
  abbrev keep_answer : String → Bytes → String → ℕ → PrinterSnapshot → PrinterSnapshot
  keep_answer name bytes class ms s = record_response lossy base64 now name bytes ms none class s

  abbrev keep_error : String → String → ℕ → PrinterSnapshot → PrinterSnapshot
  keep_error name e ms s = record_response lossy base64 now name [] ms (some e) "transport_error" s

  -- What the answer to a base query leaves in the snapshot.
  unfoldable pub noted_base : String → Reply → PrinterSnapshot → PrinterSnapshot
  unfolding record_response parse_known
  noted_base name (answered bytes class ms) s =
      parse_known parse_f64 dpi_of now name (lossy bytes) (keep_answer name bytes class ms s)
  noted_base name (lost e ms) s = keep_error name e ms s

  abbrev pub after_base : String → Reply × Channel → Prober → Prober
  after_base name (reply, channel) p = record p {
    snapshot = noted_base name reply p.snapshot;
    channel = channel;
  }

  -- The loop over the base queries: an error ends it unless an earlier query was answered.
  unfoldable pub probe_base : List Query → Bool → Prober → Bool × Prober
  unfolding noted_base
  probe_base [] any p = (any, p)
  probe_base ((name, command) ∷ queries) any p =
      let (reply, channel) = ask command p.channel in
      let next = after_base name (reply, channel) p in
      elim (is_answer reply) [
        | true ↦ probe_base queries true next
        | false ↦ elim any [ true ↦ probe_base queries true next | false ↦ (false, next) ]
      ]

  abbrev capability_of : Bytes → Observed Bool
  capability_of [] = observed_not_supported now "empty_response"
  capability_of (b ∷ bs) = observed_value now true none "probe"

  unfoldable pub noted_optional : String → Reply → PrinterSnapshot → PrinterSnapshot
  unfolding record_response insert is_timeout
  noted_optional name (answered bytes class ms) s =
      note name (capability_of bytes) (keep_answer name bytes class ms s)
  noted_optional name (lost e ms) s =
      note name (observed_unavailable now (if is_timeout (some e) then "probe_timeout" else e))
        (keep_error name e ms s)

  abbrev pub after_optional : String → Reply × Channel → Prober → Prober
  after_optional name (reply, channel) p = record p {
    snapshot = noted_optional name reply p.snapshot;
    channel = channel;
  }

  unfoldable pub probe_optional : HardwareCounterPolicy → List Query → Prober → Prober
  unfolding noted_optional insert
  probe_optional counters [] p = p
  probe_optional counters ((name, command) ∷ queries) p = elim (is_skipped counters name) [
    | true ↦
        probe_optional counters queries
          (put_snapshot (note name (observed_not_supported now "disabled_by_config") p.snapshot) p)
    | false ↦ probe_optional counters queries (after_optional name (ask command p.channel) p)
  ]

  abbrev detection_of : Option (Observed Bool) → Observed Bool
  detection_of none = never_observed
  detection_of (some seen) = elim seen.state [
    | value ↦ observed_value now true none "capability_probe"
    | not_supported ↦ observed_not_supported now "hardware_counter_not_supported"
    | unavailable ↦ observed_unavailable now "hardware_counter_probe_unavailable"
    | _ ↦ never_observed
  ]

  unfoldable pub detect : PrinterSnapshot → PrinterSnapshot
  unfolding find
  detect s = record s {
    counters = record s.counters {
      manual_feed_detection = detection_of (find "odometer" s.capabilities);
    };
  }

  -- With the capability probe, the optional queries follow when a base query was answered.
  unfoldable pub probe_capabilities : Bool → HardwareCounterPolicy → Bool → Prober → Prober
  unfolding probe_optional detect
  probe_capabilities false counters any p = p
  probe_capabilities true counters false p = put_snapshot (detect p.snapshot) p
  probe_capabilities true counters true p =
      let asked = probe_optional counters optional_queries p in
      put_snapshot (detect asked.snapshot) asked

  abbrev up : Bool → PrinterSnapshot → PrinterSnapshot
  up any s = record s {
    transport = record s.transport { protocol_up = observed_value now any none "probe" };
    updated_at = now;
  }

  -- The result of the write of the snapshot's file is ignored.
  unfoldable pub conclude : Outcome → Bool → Prober → Result (Unit {0}) × Prober
  conclude o any p = (
    if any then ok tt else err (message "printer did not answer any base query"),
    record p { snapshot = up any p.snapshot; file = put_file o (up any p.snapshot) p.file },
  )

  abbrev head_open : List (Option String) → Option String
  head_open [] = none
  head_open (r ∷ rs) = r

  abbrev tail_opens : List (Option String) → List (Option String)
  tail_opens [] = []
  tail_opens (r ∷ rs) = rs

  abbrev pub opened : Prober → Prober
  opened p = record p {
    snapshot = record p.snapshot {
      transport = record p.snapshot.transport {
        present = observed_value now true none "os";
        is_open = observed_value now true none "agent";
        connected_at = observed_value now now none "agent";
      };
    };
    channel = record p.channel { is_open = true; opens = tail_opens p.channel.opens };
  }

  abbrev pub not_opened : String → Prober → Prober
  not_opened e p = record p {
    snapshot = record p.snapshot {
      transport = record p.snapshot.transport {
        present = observed_unavailable now e;
        is_open = observed_value now false none "agent";
      };
    };
    channel = record p.channel { opens = tail_opens p.channel.opens };
  }

  abbrev pub open_now : Option String → Prober → Result (Unit {0}) × Prober
  open_now none p = (ok tt, opened p)
  open_now (some e) p = (err (message e), not_opened e p)

  -- `ensure_transport`, with what it writes to the snapshot.
  unfoldable pub ensure_open : Prober → Result (Unit {0}) × Prober
  ensure_open p = elim p.channel.is_open [
    | true ↦ (ok tt, p)
    | false ↦ open_now (head_open p.channel.opens) p
  ]

  unfoldable pub after_open :
      Bool
      → HardwareCounterPolicy
      → Outcome
      → Result (Unit {0}) × Prober
      → Result (Unit {0}) × Prober
  unfolding probe_base probe_capabilities conclude
  after_open capability counters o (err e, p) = (err e, p)
  after_open capability counters o (ok _, p) =
      let (any, asked) = probe_base base_queries false p in
      conclude o any (probe_capabilities capability counters any asked)

  unfoldable pub probe :
      Bool → HardwareCounterPolicy → Outcome → Prober → Result (Unit {0}) × Prober
  unfolding ensure_open after_open
  probe capability counters o p = after_open capability counters o (ensure_open p)
