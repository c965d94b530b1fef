-- ===== src/Tests/Admin.antt =====
-- Printers that are saved through src/api.rs.
use zebra_tamer.Prelude.{◌≡◌, refl, String, true, Option, some, [], ◌∷◌, none}
use zebra_tamer.Prelude.Text.{Bytes, codes}
use zebra_tamer.Store.Files.{holds}
use zebra_tamer.Store.Jobs.{has_open_jobs}
use zebra_tamer.Auth.{Tokens}
use zebra_tamer.Prelude.Result.{ok}
use zebra_tamer.Config.{PrinterConfig, validate_config}
use zebra_tamer.Api.Admin.{Registry, with_printers, v2_admin_save_printer}
use zebra_tamer.Api.Saved.{IsSaved, v2_admin_save_printer-IsSaved}
use zebra_tamer.Tests.Config.{config, printer_named}
use zebra_tamer.Tests.Data.{store_with}

abbrev tokens : Tokens
tokens = record {
  read_token = none;
  print_token = none;
  admin_token = some (codes "admin-admin-admin-admin-1");
}

abbrev header : Option Bytes
header = some (codes "Bearer admin-admin-admin-admin-1")

abbrev event_json : PrinterConfig → String
event_json p = "{}"

abbrev registry : Registry
registry = record {
  config = config;
  printer_configs = printer_named (codes "p1") ∷ printer_named (codes "zebra_2") ∷ [];
  file = holds [];
  store = store_with [];
  running = [];
}

sound : validate_config (with_printers registry.printer_configs registry.config) ≡ ok tt
unfolding validate_config
sound = refl

-- A third printer, whose id is that of the path.
saved_third :
    (v2_admin_save_printer event_json tokens 30 header "p3" (printer_named []) registry).1.file
    ≡ holds (
        printer_named (codes "p1")
        ∷ printer_named (codes "zebra_2")
        ∷ printer_named (codes "p3")
        ∷ [])
unfolding v2_admin_save_printer
saved_third = refl

v2_admin_save_printer-IsSaved_example :
    IsSaved (v2_admin_save_printer event_json tokens 30 header "p3" (printer_named []) registry)
v2_admin_save_printer-IsSaved_example =
    v2_admin_save_printer-IsSaved event_json tokens 30 header "p3" (printer_named []) registry sound

p1_open : has_open_jobs "p1" registry.store.jobs ≡ true
unfolding has_open_jobs
p1_open = refl
