-- ===== src/Boot/Once.antt =====
-- How often a restart of the host is charged.
use text.Mathlib.TextPositions.{eq_refl}
use zebra_tamer.Prelude.{
  ℕ, ◌<◌, ◌≡◌, refl, ◌≢◌, String, Bool, true, false, List, [], ◌∷◌, arith, eq_iff, ltb, ◌&&◌,
  is_some,
}
use zebra_tamer.Prelude.Result.{Result, ok, err, is_ok}
use zebra_tamer.Prelude.Exec.{continue}
use zebra_tamer.Model.Job.{DateTime}
use zebra_tamer.Model.Media.{MediaState}
use zebra_tamer.Store.Files.{absent, holds, fine, refused}
use zebra_tamer.Store.State.{Store}
use zebra_tamer.Store.Printers.{previous_boot, save_boot_id}
use zebra_tamer.Media.Accounting.{estimated_loss}
use zebra_tamer.Boot.{is_boot, charge_boot, account_boot, apply_boot_accounting}

same_boot :
    (now : DateTime) (count : ℕ) (configured : List String) (boot : String) (s : Store)
    → is_boot boot (previous_boot s) ≡ true
    → apply_boot_accounting now count configured boot s ≡ (ok tt, s)
unfolding apply_boot_accounting account_boot
same_boot now count configured boot s h = rw h refl

-- The accounting ends with the write of the boot id.
recorded :
    (boot : String) (r : Result (Unit {0}) × Store)
    → let end = continue r.0 (λ _. save_boot_id boot) r.1 in
      end.0 ≡ ok tt → is_boot boot (previous_boot end.1) ≡ true
unfolding save_boot_id
recorded boot (err e, s) h = cc
recorded boot (ok _, s) h = ground (arith, eq_refl boot)

accounted :
    (now : DateTime) (count : ℕ) (configured : List String) (boot : String) (known same : Bool)
    (s : Store)
    → is_boot boot (previous_boot s) ≡ same
    → let (answer, s') = account_boot now count configured boot known same s in
      answer ≡ ok tt → is_boot boot (previous_boot s') ≡ true
unfolding account_boot
accounted now count configured boot known true s e h = e
accounted now count configured boot known false s e h =
    recorded boot (charge_boot now count configured (known && ltb 0 count) s) h

-- When the accounting of a restart of the host succeeds, running it once more with the same boot id
-- succeeds and changes nothing.
pub apply_boot_accounting_once :
    (now later : DateTime) (count : ℕ) (configured : List String) (boot : String) (s : Store)
    → let (answer, s') = apply_boot_accounting now count configured boot s in
      answer ≡ ok tt → apply_boot_accounting later count configured boot s' ≡ (ok tt, s')
unfolding apply_boot_accounting
apply_boot_accounting_once now later count configured boot s done =
    same_boot later count configured boot (apply_boot_accounting now count configured boot s).1 (
      accounted now count configured boot (is_some (previous_boot s))
        (is_boot boot (previous_boot s)) s refl done)

-- A restart that was charged but whose boot id could not be recorded is charged again: here one
-- printer is configured, its two writes succeed and that of the boot id is refused.
pub apply_boot_accounting_twice :
    (now later : DateTime) (count : ℕ) (id boot previous : String) (old : MediaState) (s : Store)
    → 0 < count
    → previous ≢ boot
    → s.boot_id ≡ holds previous
    → s.printer_configs ≡ absent
    → (s.printers id).media ≡ holds old
    → s.outcomes ≡ fine ∷ fine ∷ refused ∷ []
    → let (answer, s') = apply_boot_accounting now count (id ∷ []) boot s in
      let (answer', s'') = apply_boot_accounting later count (id ∷ []) boot s' in
      (is_ok answer ≡ false)
      × (answer' ≡ ok tt)
      × ((s''.printers id).media
          ≡ holds (estimated_loss later count (estimated_loss now count old)))
unfolding apply_boot_accounting
apply_boot_accounting_twice now later count id boot previous old s some_loss other was none_stored
      here script =
    ground (arith, eq_refl id, eq_iff previous boot)
