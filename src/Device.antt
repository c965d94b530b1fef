-- ===== src/Device.antt =====
-- src/device.rs: the settings of a printer, which of them its hardware allows, the ZPL that sets them,
-- and how they are compared with what the printer reports. `show_float` writes a double as Rust does.

pub mod Fields
pub mod Report
pub mod Saving
pub mod Confirmed
pub mod Verified
use zebra_tamer.Prelude.{
  ℕ, ◌+◌, zero, suc, String, Bool, true, false, not, ◌&&◌, ◌||◌, Option, none, some, List, [], ◌∷◌,
  ◌++◌, leb, ◌==◌, if◌then◌else◌,
}
use zebra_tamer.Prelude.Int.{ℤ, pos, negsuc, leb_ℤ, eq_ℤ}
use zebra_tamer.Prelude.Float.{Float, of_ℕ, is_finite, float_le, float_eq}
use zebra_tamer.Prelude.Text.{Text, codes}
use zebra_tamer.Prelude.Result.{Result, ok, ensure, ◌>>=◌, ◌>>◌}
use zebra_tamer.Driver.{DeviceProfile, decimal}

pub data PrintMode : Type 0 where
  tear_off peel_off cutter : PrintMode

pub data PrintMethod : Type 0 where
  direct_thermal thermal_transfer : PrintMethod

pub data Tracking : Type 0 where
  gap black_mark continuous : Tracking

pub record DeviceSettings : Type 0 where
  pub darkness : Option Float
  pub print_speed : Option ℕ
  pub x_offset : Option ℤ
  pub y_offset : Option ℤ
  pub print_width : Option ℕ
  pub label_length : Option ℕ
  pub print_mode : Option PrintMode
  pub print_method : Option PrintMethod
  pub tracking : Option Tracking

abbrev pub is_set {ℓ} : {A : Type ℓ} → Option A → Bool
is_set none = false
is_set (some a) = true

-- `*self != Self::default()`; a NaN is a setting too.
unfoldable pub is_selected : DeviceSettings → Bool
is_selected d =
    is_set d.darkness
    || is_set d.print_speed
    || is_set d.x_offset
    || is_set d.y_offset
    || is_set d.print_width
    || is_set d.label_length
    || is_set d.print_mode
    || is_set d.print_method
    || is_set d.tracking

-- A test of a setting that is there.
abbrev pub if_set {ℓ} : {A : Type ℓ} → (A → Bool) → Option A → Bool
if_set test none = true
if_set test (some a) = test a

abbrev pub negated : ℤ → ℤ
negated (pos zero) = pos zero
negated (pos (suc n)) = negsuc n
negated (negsuc n) = pos (suc n)

abbrev pub is_dark : Float → Bool
is_dark n = is_finite n && (float_le (of_ℕ 0) n && float_le n (of_ℕ 30))

abbrev pub is_within : ℕ → ℕ → Bool
is_within limit n = leb 1 n && leb n limit

abbrev pub is_offset : ℤ → ℤ → Bool
is_offset limit n = leb_ℤ (negated limit) n && leb_ℤ n limit

abbrev pub is_inked : DeviceProfile → PrintMethod → Bool
is_inked profile direct_thermal = true
is_inked profile thermal_transfer = profile.thermal_transfer

abbrev pub peels : PrintMode → Bool
peels peel_off = true
peels _ = false

abbrev pub cuts : PrintMode → Bool
cuts cutter = true
cuts _ = false

unfoldable pub validate : DeviceProfile → DeviceSettings → Result (Unit {0})
unfolding is_selected
validate profile d = do
  ensure (is_selected d) "No device settings selected"
  ensure (if_set is_dark d.darkness) "Darkness must be between 0 and 30"
  ensure (if_set (is_within profile.max_speed_ips) d.print_speed)
      "Print speed exceeds configured hardware limits"
  ensure (if_set (is_offset profile.max_offset_dots) d.x_offset)
      "Offset exceeds configured hardware limits"
  ensure (if_set (is_offset profile.max_offset_dots) d.y_offset)
      "Offset exceeds configured hardware limits"
  ensure (if_set (is_within profile.max_width_dots) d.print_width)
      "Print width exceeds configured hardware limits"
  ensure (if_set (is_within profile.max_length_dots) d.label_length)
      "Label length exceeds configured hardware limits"
  ensure (if_set (is_inked profile) d.print_method)
      "Thermal transfer is not enabled in this printer's hardware profile"
  ensure (if_set (λ m. not (peels m) || profile.peel_off) d.print_mode)
      "Peel-off is not enabled in this printer's hardware profile"
  ensure (if_set (λ m. not (cuts m) || profile.cutter) d.print_mode)
      "Cutter is not enabled in this printer's hardware profile"

-- A line of the command, if the setting is there.
abbrev pub line_for {ℓ} : {A : Type ℓ} → String → (A → Text) → Option A → Text
line_for prefix show none = []
line_for prefix show (some a) = codes prefix ++ (show a ++ codes "\n")

unfoldable pub signed : ℤ → Text
unfolding decimal
signed (pos n) = decimal n
signed (negsuc n) = codes "-" ++ decimal (n + 1)

abbrev pub mode_letter : PrintMode → Text
mode_letter tear_off = codes "T"
mode_letter peel_off = codes "P"
mode_letter cutter = codes "C"

abbrev pub method_letter : PrintMethod → Text
method_letter direct_thermal = codes "D"
method_letter thermal_transfer = codes "T"

abbrev pub tracking_letter : Tracking → Text
tracking_letter gap = codes "Y"
tracking_letter black_mark = codes "M"
tracking_letter continuous = codes "N"

unfoldable pub commands : (Float → Text) → DeviceSettings → Text
unfolding signed decimal
commands show_float d =
    codes "^XA\n"
    ++ (line_for "~SD" show_float d.darkness
        ++ (line_for "^PR" decimal d.print_speed
            ++ (line_for "^LS" signed d.x_offset
                ++ (line_for "^LT" signed d.y_offset
                    ++ (line_for "^PW" decimal d.print_width
                        ++ (line_for "^LL" decimal d.label_length
                            ++ (line_for "^MM" mode_letter d.print_mode
                                ++ (line_for "^MT" method_letter d.print_method
                                    ++ (line_for "^MN" tracking_letter d.tracking
                                        ++ codes "^XZ\n")))))))))

abbrev pub mode_eq : PrintMode → PrintMode → Bool
mode_eq tear_off tear_off = true
mode_eq peel_off peel_off = true
mode_eq cutter cutter = true
mode_eq _ _ = false

abbrev pub method_eq : PrintMethod → PrintMethod → Bool
method_eq direct_thermal direct_thermal = true
method_eq thermal_transfer thermal_transfer = true
method_eq _ _ = false

abbrev pub tracking_eq : Tracking → Tracking → Bool
tracking_eq gap gap = true
tracking_eq black_mark black_mark = true
tracking_eq continuous continuous = true
tracking_eq _ _ = false

-- As JSON a double that is not finite is null.
abbrev pub as_json : Option Float → Option Float
as_json none = none
as_json (some x) = if is_finite x then some x else none

-- A field that is wanted and is not what the printer has, as its name.
abbrev pub differs {ℓ} : {A : Type ℓ} → (A → A → Bool) → String → Option A → Option A → List String
differs eq key none actual = []
differs eq key (some a) none = key ∷ []
differs eq key (some a) (some b) = if eq a b then [] else key ∷ []

-- The keys of a JSON object stand in alphabetical order.
unfoldable pub mismatches : DeviceSettings → DeviceSettings → List String
mismatches d actual =
    differs float_eq "darkness" (as_json d.darkness) (as_json actual.darkness)
    ++ (differs ◌==◌ "label_length" d.label_length actual.label_length
        ++ (differs method_eq "print_method" d.print_method actual.print_method
            ++ (differs mode_eq "print_mode" d.print_mode actual.print_mode
                ++ (differs ◌==◌ "print_speed" d.print_speed actual.print_speed
                    ++ (differs ◌==◌ "print_width" d.print_width actual.print_width
                        ++ (differs tracking_eq "tracking" d.tracking actual.tracking
                            ++ (differs eq_ℤ "x_offset" d.x_offset actual.x_offset
                                ++ differs eq_ℤ "y_offset" d.y_offset actual.y_offset)))))))

-- Fields that are wanted and that the printer's report does not have.
unfoldable pub is_readable : DeviceSettings → DeviceSettings → Bool
is_readable d old =
    (not (is_set (as_json d.darkness)) || is_set (as_json old.darkness))
    && (not (is_set d.label_length) || is_set old.label_length)
    && (not (is_set d.print_method) || is_set old.print_method)
    && (not (is_set d.print_mode) || is_set old.print_mode)
    && (not (is_set d.print_speed) || is_set old.print_speed)
    && (not (is_set d.print_width) || is_set old.print_width)
    && (not (is_set d.tracking) || is_set old.tracking)
    && (not (is_set d.x_offset) || is_set old.x_offset)
    && (not (is_set d.y_offset) || is_set old.y_offset)
