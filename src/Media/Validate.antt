-- ===== src/Media/Validate.antt =====
-- `validate` of src/media.rs.
use zebra_tamer.Prelude.{
  ℕ, Bool, true, false, not, ◌&&◌, Option, none, some, [], ◌∷◌, leb, all, ◌==◌,
}
use zebra_tamer.Prelude.Words.{i64_max}
use zebra_tamer.Prelude.Float.{Float, of_ℕ, is_finite, float_lt, float_le}
use zebra_tamer.Prelude.Text.{Text, text_len, is_blank, is_ascii_hexdigit}
use zebra_tamer.Prelude.Result.{Result, ensure, ◌>>◌}
use zebra_tamer.Model.Media.{MediaDefinition}

-- `n.is_finite() && n > 0.0 && n <= 10000.0`.
is_dimension : Float → Bool
unfolding of_ℕ
is_dimension n = is_finite n && float_lt (of_ℕ 0) n && float_le n (of_ℕ 10000)

-- `n.is_finite() && (0.0..=100000.0).contains(&n)`, of a measurement that is given.
is_measurement : Option Float → Bool
unfolding of_ℕ
is_measurement none = true
is_measurement (some n) = is_finite n && float_le (of_ℕ 0) n && float_le n (of_ℕ 100000)

is_name : ℕ → Text → Bool
unfolding is_blank
is_name limit name = not (is_blank name) && leb (text_len name) limit

-- `hex[1..]` is read as bytes: a character beyond ASCII is no hex digit there either.
is_hex_color : Option Text → Bool
is_hex_color none = true
is_hex_color (some []) = false
is_hex_color (some (c ∷ cs)) = text_len (c ∷ cs) == 7 && c == b'#' && all is_ascii_hexdigit cs

unfoldable pub validate : MediaDefinition → Result (Unit {0})
unfolding is_name is_dimension is_measurement is_hex_color
validate media = do
  ensure (is_name 200 media.display_name) "Media name is required (max 200 characters)"
  ensure (is_dimension media.width_mm) "Media dimensions must be finite and between 0 and 10000 mm"
  ensure (is_dimension media.height_mm) "Media dimensions must be finite and between 0 and 10000 mm"
  ensure (is_measurement media.gap_mm) "Invalid media measurement"
  ensure (is_measurement media.corner_radius_mm) "Invalid media measurement"
  ensure (is_measurement media.black_mark_width_mm) "Invalid media measurement"
  ensure (is_measurement media.black_mark_height_mm) "Invalid media measurement"
  ensure (is_measurement media.core_diameter_mm) "Invalid media measurement"
  ensure (is_measurement media.outer_diameter_mm) "Invalid media measurement"
  ensure (is_measurement media.thickness_micrometers) "Invalid media measurement"
  ensure (is_name 100 media.color.name) "Color name is required (max 100 characters)"
  ensure (is_hex_color media.color.hex) "Color hex must be #RRGGBB"
  ensure (leb media.labels_available_at_load i64_max) "Label count is too large"
