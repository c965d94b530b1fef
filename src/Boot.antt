-- ===== src/Boot.antt =====
-- `apply_boot_accounting` of src/main.rs: the labels that a restart of the host is taken to cost.
-- The caller reads the boot id of the host; an unreadable one is the text "unknown".
pub mod Once
use zebra_tamer.Prelude.{
  ℕ, String, Bool, true, false, ◌&&◌, Option, none, some, List, [], ◌∷◌, str_eq, is_some, ltb,
  if◌then◌else◌, unwrap_or,
}
use zebra_tamer.Prelude.Exec.{Exec, pure, ◌>>=◌, ◌>>◌}
use zebra_tamer.Model.Job.{DateTime}
use zebra_tamer.Model.Media.{MediaState}
use zebra_tamer.Store.State.{Store}
use zebra_tamer.Store.Printers.{
  load_media, save_media, append_media_ledger, load_printer_configs, previous_boot, save_boot_id,
}
use zebra_tamer.Media.Accounting.{estimated_loss, loss_event}

charge_roll : DateTime → ℕ → String → Option MediaState → Exec Store (Unit {0})
charge_roll now count id none = pure tt
charge_roll now count id (some old) =
    let m = estimated_loss now count old in
    (do
      append_media_ledger id (loss_event now count "host_boot_loss" "configured_estimate" old m)
      save_media id m)

unfoldable pub charge_all : DateTime → ℕ → List String → Exec Store (Unit {0})
unfolding charge_roll load_media save_media append_media_ledger
charge_all now count [] = pure tt
charge_all now count (id ∷ ids) = do
  loaded ← load_media id
  charge_roll now count id loaded
  charge_all now count ids

unfoldable pub charge_boot : DateTime → ℕ → List String → Bool → Exec Store (Unit {0})
unfolding charge_all load_printer_configs
charge_boot now count configured false = pure tt
charge_boot now count configured true = do
  stored ← load_printer_configs
  charge_all now count (unwrap_or stored configured)

abbrev pub is_boot : String → Option String → Bool
is_boot boot none = false
is_boot boot (some b) = str_eq b boot

unfoldable pub account_boot :
    DateTime → ℕ → List String → String → Bool → Bool → Exec Store (Unit {0})
unfolding charge_boot save_boot_id
account_boot now count configured boot known true = pure tt
account_boot now count configured boot known false = do
  charge_boot now count configured (known && ltb 0 count)
  save_boot_id boot

-- `count` is `host_boot_loss_labels`, `configured` the printers of the configuration.
unfoldable pub apply_boot_accounting : DateTime → ℕ → List String → String → Exec Store (Unit {0})
unfolding account_boot
apply_boot_accounting now count configured boot s =
    let previous = previous_boot s in
    account_boot now count configured boot (is_some previous) (is_boot boot previous) s
