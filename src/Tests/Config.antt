-- ===== src/Tests/Config.antt =====
-- Two printers in a configuration of src/config.rs.
use zebra_tamer.Prelude.{◌≡◌, refl, ◌≢◌, true, none, some, [], ◌∷◌}
use zebra_tamer.Prelude.Text.{Text, codes, trim}
use zebra_tamer.Prelude.Result.{ok, err, io, message}
use zebra_tamer.Config.{Config, PrinterConfig, validate_config}
use zebra_tamer.Config.Identity.{
  Attempt, whole, part, with_id, IsId, ensure_agent_id, ensure_agent_id_lem,
}
use zebra_tamer.Config.Valid.{IsLong, IsFleet, validate_config_lem}
use zebra_tamer.Tests.Driver.{profile}

abbrev pub printer_named : Text → PrinterConfig
printer_named id = record {
  id = id;
  enabled = true;
  driver = codes "zpl";
  transport = codes "tcp";
  device = [];
  usb_vendor_id = none;
  usb_product_id = none;
  tcp_host = some (codes "zebra.local");
  tcp_port = 9100;
  connect_timeout_ms = 3000;
  first_byte_timeout_ms = 2000;
  idle_timeout_ms = 250;
  write_timeout_ms = 10000;
  max_response_bytes = 65536;
  device_profile = profile;
}

abbrev pub config : Config
config = record {
  agent_id = some (codes "workshop-pi");
  webui_enabled = true;
  read_token = none;
  print_token = none;
  admin_token = some (codes "admin-admin-admin-admin-1");
  max_job_bytes = 8388608;
  max_active_jobs_per_printer = 100;
  printers = printer_named (codes "zebra_1") ∷ printer_named (codes "zebra_2") ∷ [];
}

pub accepted : validate_config config ≡ ok tt
unfolding validate_config
accepted = refl

validate_config_lem_example :
    IsLong config.read_token
    × IsLong config.print_token
    × IsLong config.admin_token
    × (config.webui_enabled ≡ true → config.admin_token ≢ none)
    × IsFleet config.printers
validate_config_lem_example = validate_config_lem config accepted

abbrev unnamed : Config
unnamed = record config { agent_id = none }

abbrev good_start : Attempt
good_start = record {
  folder = ok tt;
  reading = ok tt;
  other = none;
  creating = ok tt;
  writing = whole;
}

uuid-IsId : IsId (codes "6f1c-02")
unfolding trim
uuid-IsId = record { trimmed = refl; allowed = refl }

makes_id :
    ensure_agent_id good_start (codes "6f1c-02") none unnamed
    ≡ (ok (with_id (codes "6f1c-02") unnamed), some (codes "6f1c-02"))
unfolding ensure_agent_id
makes_id = refl

ensure_agent_id_lem_example :
    ensure_agent_id good_start (codes "77aa") (some (codes "6f1c-02")) unnamed
    ≡ (ok (with_id (codes "6f1c-02") unnamed), some (codes "6f1c-02"))
ensure_agent_id_lem_example =
    ensure_agent_id_lem good_start good_start (codes "6f1c-02") (codes "77aa") none
      (some (codes "6f1c-02")) unnamed (with_id (codes "6f1c-02") unnamed) uuid-IsId refl makes_id
      refl refl

-- A first start that breaks off before the first byte leaves an empty file, and no start gets past it.
left_empty :
    ensure_agent_id (record good_start { writing = part 0 io }) (codes "6f1c-02") none unnamed
    ≡ (err io, some [])
unfolding ensure_agent_id
left_empty = refl

stays_broken :
    ensure_agent_id good_start (codes "77aa") (some []) unnamed
    ≡ (err (message "agent_id must contain only letters, digits, hyphens and underscores"), some [])
unfolding ensure_agent_id
stays_broken = refl
