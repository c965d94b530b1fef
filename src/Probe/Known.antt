-- ===== src/Probe/Known.antt =====
-- `parse_known` of src/worker.rs: what a probe reads out of the status and the configuration report.
-- `parse_f64` reads a double, and `dpi_of` is 25.4 times a number of dots per millimetre, rounded.
use mathlib.Core.List.{reverse}
use zebra_tamer.Prelude.{
  ℕ, String, Bool, true, Option, none, some, List, [], ◌∷◌, map, length, take, ◌==◌, str_eq,
  if◌then◌else◌,
}
use zebra_tamer.Prelude.Float.{Float}
use zebra_tamer.Prelude.Text.{Text, codes, text_eq, trim, trim_matches, to_ascii_uppercase}
use zebra_tamer.Model.Job.{DateTime}
use zebra_tamer.Model.Snapshot.{PrinterSnapshot, IdentitySnapshot, StatusSnapshot, observed_value}
use zebra_tamer.Device.Fields.{split_on, strip_suffix, lines, split_whitespace, is_edge}

-- A value that is not empty.
abbrev given_text : Text → Option Text
given_text [] = none
given_text (c ∷ cs) = some (c ∷ cs)

unfoldable pub configuration_value : Text → String → Option Text
unfolding trim_matches is_edge trim
configuration_value line label =
    let clean = trim_matches is_edge line in
    elim (strip_suffix (codes label) (map to_ascii_uppercase clean)) [
      | none ↦ none
      | some prefix ↦ given_text (trim (take (length prefix) clean))
    ]

-- `trim_end_matches("<-")`.
abbrev drop_arrows : Text → Text
drop_arrows [] = []
drop_arrows (c ∷ []) = c ∷ []
drop_arrows (c ∷ d ∷ cs) =
    let rest = drop_arrows cs in
    if c == b'-' then if d == b'<' then rest else c ∷ d ∷ cs else c ∷ d ∷ cs

unfoldable pub without_arrow : Text → Text
without_arrow s = reverse (drop_arrows (reverse s))

abbrev third : List Text → Option Text
third (a ∷ b ∷ c ∷ rest) = some c
third _ = none

module _ (parse_f64 : Text → Option Float) (dpi_of : Float → ℕ) (now : DateTime) where
  abbrev seen : Bool → String → StatusSnapshot → StatusSnapshot
  seen paused source s = record s {
    ready = observed_value now true none source;
    paused = observed_value now paused none source;
  }

  -- A status of more than two fields.
  unfoldable pub read_status : Text → StatusSnapshot → StatusSnapshot
  unfolding split_on trim
  read_status text s = elim (third (split_on (λ c. c == b',') text)) [
    | none ↦ s
    | some field ↦ seen (text_eq (trim field) (codes "1")) "~HS" s
  ]

  -- The number of the first word that ends in `/MM` and is one.
  unfoldable pub dpmm_of : List Text → Option Float
  dpmm_of [] = none
  dpmm_of (w ∷ ws) =
      let rest = dpmm_of ws in
      elim (strip_suffix (codes "/MM") w) [ none ↦ rest | some n ↦ parse_f64 n ]

  set_firmware : Option Text → IdentitySnapshot → IdentitySnapshot
  unfolding without_arrow trim
  set_firmware none i = i
  set_firmware (some v) i = record i {
    firmware = observed_value now (trim (without_arrow v)) none "^HH";
  }

  abbrev set_hardware : Option Text → IdentitySnapshot → IdentitySnapshot
  set_hardware none i = i
  set_hardware (some v) i = record i { hardware_id = observed_value now v none "^HH" }

  abbrev set_serial : Option Text → IdentitySnapshot → IdentitySnapshot
  set_serial none i = i
  set_serial (some v) i = record i { serial_number = observed_value now v none "^HH" }

  abbrev set_dpi : Option Float → IdentitySnapshot → IdentitySnapshot
  set_dpi none i = i
  set_dpi (some dpmm) i = record i {
    resolution_dpi = observed_value now (dpi_of dpmm) (some "dpi") "^HH";
  }

  set_resolution : Option Text → IdentitySnapshot → IdentitySnapshot
  unfolding dpmm_of split_whitespace
  set_resolution none i = i
  set_resolution (some v) i = set_dpi (dpmm_of (split_whitespace v)) i

  unfoldable pub read_line : Text → IdentitySnapshot → IdentitySnapshot
  unfolding configuration_value trim set_firmware set_resolution
  read_line line i =
      let l = trim line in
      set_resolution (configuration_value l "RESOLUTION") (
        set_serial (configuration_value l "SERIAL NUMBER") (
          set_hardware (configuration_value l "HARDWARE ID")
            (set_firmware (configuration_value l "FIRMWARE") i)))

  unfoldable pub read_lines : List Text → IdentitySnapshot → IdentitySnapshot
  unfolding read_line
  read_lines [] i = i
  read_lines (l ∷ ls) i = read_lines ls (read_line l i)

  unfoldable pub parse_known : String → Text → PrinterSnapshot → PrinterSnapshot
  unfolding read_status read_lines lines
  parse_known name text s =
      if str_eq name "host_status"
      then record s { status = read_status text s.status }
      else if str_eq name "configuration"
      then record s { identity = read_lines (lines text) s.identity }
      else s
