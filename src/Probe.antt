-- ===== src/Probe.antt =====
-- The probe of src/worker.rs: the queries, and what the snapshot keeps of their answers. Parameters:
-- `lossy` is the decoding of a reply as UTF-8 and `base64` its encoding.
pub mod Known
pub mod Run
pub mod Asked
pub mod Stats
use zebra_tamer.Prelude.{
  ℕ, ◌+◌, String, Bool, true, false, Option, none, some, List, [], ◌∷◌, ◌++◌, length, unwrap_or,
  if◌then◌else◌,
}
use zebra_tamer.Prelude.Words.{saturating_add}
use zebra_tamer.Prelude.Text.{Text, Bytes, codes}
use zebra_tamer.Model.Job.{DateTime}
use zebra_tamer.Model.Snapshot.{PrinterSnapshot, QueryStats, RawResponse, no_stats, find, insert}
use zebra_tamer.Transport.Query.{contains}

abbrev pub Query : Type 0
Query = String × Bytes

abbrev pub base_queries : List Query
base_queries =
    ("host_status", codes "~HS")
    ∷ ("head_diagnostics", codes "~HD")
    ∷ ("memory", codes "~HM")
    ∷ ("battery", codes "~HB")
    ∷ ("configuration", codes "^XA^HH^XZ")
    ∷ ("directory_r", codes "^XA^HWR:*.*^XZ")
    ∷ ("directory_e", codes "^XA^HWE:*.*^XZ")
    ∷ ("directory_b", codes "^XA^HWB:*.*^XZ")
    ∷ ("directory_z", codes "^XA^HWZ:*.*^XZ")
    ∷ []

abbrev pub optional_queries : List Query
optional_queries =
    ("sgd_device", codes "! U1 getvar \"device.friendly_name\"\r\n")
    ∷ ("hq_status", codes "~HQES")
    ∷ ("odometer", codes "! U1 getvar \"odometer.total_print_length\"\r\n")
    ∷ []

-- How a query ends: with bytes, their classification and the milliseconds it took, or with an error.
pub data Reply : Type 0 where
  answered : Bytes → String → ℕ → Reply
  lost : String → ℕ → Reply

-- The printer's side: whether the transport is open, how the coming opens go (`none` is success), the
-- coming replies, and the commands asked so far. Scripts that are used up are success and silence.
pub record Channel : Type 0 where
  pub is_open : Bool
  pub opens : List (Option String)
  pub replies : List Reply
  pub asked : List Bytes

abbrev pub head_reply : List Reply → Reply
head_reply [] = lost "first_byte_timeout" 0
head_reply (r ∷ rs) = r

abbrev pub tail_replies : List Reply → List Reply
tail_replies [] = []
tail_replies (r ∷ rs) = rs

-- `query` of the transport.
abbrev pub ask : Bytes → Channel → Reply × Channel
ask command c = (
  head_reply c.replies,
  record c { replies = tail_replies c.replies; asked = c.asked ++ (command ∷ []) },
)

-- `e.contains("timeout")`.
unfoldable pub is_timeout : Option String → Bool
unfolding contains
is_timeout none = false
is_timeout (some e) = contains (codes "timeout") (codes e)

unfoldable pub counted : ℕ → ℕ → Option String → QueryStats → QueryStats
unfolding is_timeout
counted size ms error stats = record {
  count = saturating_add stats.count 1;
  duration_ms_total = saturating_add stats.duration_ms_total ms;
  response_bytes_total = saturating_add stats.response_bytes_total size;
  timeouts = if is_timeout error then saturating_add stats.timeouts 1 else stats.timeouts;
}

module _ (lossy : Bytes → Text) (base64 : Bytes → String) (now : DateTime) where
  unfoldable pub record_response :
      String → Bytes → ℕ → Option String → String → PrinterSnapshot → PrinterSnapshot
  unfolding counted find insert
  record_response name bytes ms error classification s = record s {
    query_stats =
        insert name (counted (length bytes) ms error (unwrap_or (find name s.query_stats) no_stats))
          s.query_stats;
    raw_responses =
        insert name
          (record {
            text = lossy bytes;
            base64 = base64 bytes;
            observed_at = now;
            duration_ms = ms;
            error = error;
            classification = classification;
          })
          s.raw_responses;
  }
