-- ===== src/Device/Report.antt =====
-- `parse_configuration` of src/device.rs: the settings in a printer's report. Parameters: `parse_f64`
-- reads a double, `dpi_of` is 25.4 times a number of dots per millimetre, `digest` that of the
-- lines of a report.
use zebra_tamer.Prelude.{
  ℕ, String, Bool, true, false, not, ◌||◌, Option, none, some, List, [], ◌∷◌, any, keep, map,
  if◌then◌else◌, ◌/◌, ◌^◌, ◌==◌, min,
}
use zebra_tamer.Prelude.Int.{pos}
use zebra_tamer.Prelude.Float.{Float, finite, of_ℕ, is_finite, float_lt}
use zebra_tamer.Prelude.Text.{Text, codes, text_eq, trim, to_ascii_uppercase}
use zebra_tamer.Prelude.Result.{Result, ok, ensure, ◌>>◌}
use zebra_tamer.Model.Job.{DateTime}
use zebra_tamer.Driver.{DeviceProfile}
use zebra_tamer.Device.{
  DeviceSettings, PrintMode, PrintMethod, Tracking, tear_off, peel_off, cutter, direct_thermal,
  thermal_transfer, gap, black_mark, continuous, is_selected,
}
use zebra_tamer.Device.Fields.{
  lines, strip_suffix, split_whitespace, get, first, normalized, parse_u32, parse_i32, dots,
}

pub record Observation : Type 0 where
  pub settings : DeviceSettings
  pub resolution_dpi : Option ℕ
  pub revision : String
  pub observed_at : DateTime
  pub raw : Text

unfoldable pub print_mode_of : Text → Option PrintMode
print_mode_of v =
    if text_eq v (codes "TEAR_OFF")
    then some tear_off
    else if text_eq v (codes "PEEL_OFF")
    then some peel_off
    else if text_eq v (codes "CUTTER")
    then some cutter
    else none

unfoldable pub print_method_of : Text → Option PrintMethod
print_method_of v =
    if text_eq v (codes "DIRECT_THERMAL")
    then some direct_thermal
    else if text_eq v (codes "THERMAL_TRANS") || text_eq v (codes "THERMAL_TRANSFER")
    then some thermal_transfer
    else none

unfoldable pub tracking_of : Text → Text → Option Tracking
tracking_of media sensor =
    if text_eq media (codes "CONTINUOUS")
    then some continuous
    else if text_eq media (codes "GAP/NOTCH") || text_eq media (codes "WEB")
    then some gap
    else if text_eq media (codes "MARK") || text_eq media (codes "BLACK_MARK")
    then some black_mark
    else if text_eq media (codes "NON_CONTINUOUS")
    then if text_eq sensor (codes "WEB")
      then some gap
      else if text_eq sensor (codes "MARK")
      then some black_mark
      else none
    else none

-- A line that does not change by itself.
unfoldable pub is_stable : Text → Bool
is_stable l = not (
    any
      (λ suffix. elim (strip_suffix (codes suffix) (map to_ascii_uppercase l)) [
        | none ↦ false
        | some rest ↦ true
      ])
      ("RTC DATE" ∷ "RTC TIME" ∷ "UPTIME" ∷ []))

abbrev pub finite_only : Option Float → Option Float
finite_only none = none
finite_only (some x) = if is_finite x then some x else none

abbrev pub or_else {ℓ} : {A : Type ℓ} → Option A → Option A → Option A
or_else none b = b
or_else (some a) b = some a

-- `as u32` of a finite double.
abbrev as_u32 : Float → ℕ
as_u32 (finite (pos k)) = min (k / 2 ^ 1074) 4294967295
as_u32 _ = 0

module _ (parse_f64 : Text → Option Float) (dpi_of : Float → ℕ) (digest : List Text → String) where
  unfoldable pub settings_of : List Text → DeviceSettings
  unfolding first normalized dots get parse_u32 parse_i32 print_mode_of print_method_of tracking_of
  settings_of report = record {
    darkness = finite_only (parse_f64 (first report "DARKNESS"));
    print_speed = parse_u32 (first report "PRINT SPEED");
    x_offset = parse_i32 (first report "LEFT POSITION");
    y_offset = parse_i32 (first report "LABEL TOP");
    print_width = dots report "PRINT WIDTH";
    label_length = dots report "LABEL LENGTH";
    print_mode = print_mode_of (normalized report "PRINT MODE");
    print_method = print_method_of (normalized report "PRINT METHOD");
    tracking = tracking_of (normalized report "MEDIA TYPE") (get report "SENSOR TYPE");
  }

  -- The usual densities, in dots per inch.
  abbrev dots_per_inch : Float → ℕ
  dots_per_inch x =
      let n = as_u32 x in
      if n == 8 then 203 else if n == 12 then 300 else if n == 24 then 600 else dpi_of x

  abbrev density : Text → Option ℕ
  density word = elim (strip_suffix (codes "/MM") word) [
    | none ↦ none
    | some n ↦ elim (finite_only (parse_f64 n)) [
      | none ↦ none
      | some x ↦ if float_lt (of_ℕ 0) x then some (dots_per_inch x) else none
    ]
  ]

  -- The first word that says how many dots a millimetre has.
  unfoldable pub resolution_of : List Text → Option ℕ
  resolution_of [] = none
  resolution_of (w ∷ ws) = or_else (density w) (resolution_of ws)

  unfoldable pub parse_configuration : DateTime → Text → DeviceProfile → Result Observation
  unfolding lines settings_of is_selected resolution_of get split_whitespace trim is_stable
  parse_configuration now raw profile = do
    ensure (is_selected (settings_of (lines raw)))
        "Printer returned no recognized configuration values"
    ok (record {
      settings = settings_of (lines raw);
      resolution_dpi =
          or_else (resolution_of (split_whitespace (get (lines raw) "RESOLUTION")))
            profile.resolution_dpi;
      revision = digest (keep is_stable (map trim (lines raw)));
      observed_at = now;
      raw = raw;
    })
