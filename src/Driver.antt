-- ===== src/Driver.antt =====
-- src/driver.rs: the raster page of PrintHub as a ZPL document. `parse` stands for serde_json's reading
-- of the page and `decode` for the base64 decoder.
pub mod Raster
pub mod Accepts
pub mod Payload
use Prim.Native.Nat.{bit_and}
use zebra_tamer.Prelude.{
  ℕ, zero, suc, ◌+◌, ◌-◌, ◌*◌, ◌/◌, ◌%◌, ◌^◌, String, Bool, true, false, ◌&&◌, ◌||◌, not, Option,
  none, some, List, [], ◌∷◌, ◌++◌, length, drop, leb, ltb, ◌==◌, if◌then◌else◌,
}
use zebra_tamer.Prelude.Int.{ℤ}
use zebra_tamer.Prelude.Words.{u64_max}
use zebra_tamer.Prelude.Text.{Text, Bytes, codes}
use zebra_tamer.Prelude.Result.{Result, ok, err, message, ensure, ok_or, ◌>>=◌, ◌>>◌}

pub record RasterPage : Type 0 where
  pub version : ℕ
  pub width_px : ℕ
  pub height_px : ℕ
  pub dpi : ℕ
  pub copies : ℕ
  pub black_bits_base64 : Text

-- `DeviceProfile` of src/device.rs; the driver asks for the first three.
pub record DeviceProfile : Type 0 where
  pub resolution_dpi : Option ℕ
  pub max_width_dots : ℕ
  pub max_length_dots : ℕ
  pub max_speed_ips : ℕ
  pub max_offset_dots : ℤ
  pub thermal_transfer : Bool
  pub peel_off : Bool
  pub cutter : Bool

pub record PreparedPayload : Type 0 where
  pub bytes : Bytes
  pub label_count : Option ℕ

-- `{}` of a number: a `u64` has at most 20 digits.
unfoldable pub decimal_from : ℕ → ℕ → Text → Text
decimal_from zero n acc = acc
decimal_from (suc fuel) n acc = elim (ltb n 10) [
  | true ↦ (48 + n) ∷ acc
  | false ↦ decimal_from fuel (n / 10) ((48 + n % 10) ∷ acc)
]

unfoldable pub decimal : ℕ → Text
unfolding decimal_from
decimal n = decimal_from 20 n []

abbrev pub hex_digit : ℕ → ℕ
hex_digit d = if ltb d 10 then 48 + d else 55 + d

-- `{byte:02X}` of every byte.
unfoldable pub hexadecimal : Bytes → Text
hexadecimal [] = []
hexadecimal (b ∷ bs) = hex_digit (b / 16) ∷ hex_digit (b % 16) ∷ hexadecimal bs

unfoldable pub div_ceil : ℕ → ℕ → ℕ
div_ceil a b = if a % b == 0 then a / b else a / b + 1

abbrev pub checked_mul : ℕ → ℕ → Option ℕ
checked_mul a b = if leb (a * b) u64_max then some (a * b) else none

abbrev head_or_zero : Bytes → ℕ
head_or_zero [] = 0
head_or_zero (b ∷ bs) = b

-- `chunks_exact(bytes_per_row).all(..)` over that many chunks.
unfoldable pub clean_rows : ℕ → ℕ → ℕ → Bytes → Bool
clean_rows zero width mask packed = true
clean_rows (suc rows) width mask packed =
    bit_and (head_or_zero (drop (width - 1) packed)) mask == 0
    && clean_rows rows width mask (drop width packed)

-- `(1u8 << (8 - used_bits)) - 1`.
abbrev pub unused_mask : ℕ → ℕ
unused_mask used = 2 ^ (8 - used) - 1

unfoldable pub is_padded : ℕ → ℕ → Bytes → Bool
unfolding clean_rows
is_padded width_px width packed =
    width_px % 8 == 0
    || clean_rows (length packed / width) width (unused_mask (width_px % 8)) packed

unfoldable pub preamble : RasterPage → ℕ → ℕ → Text
unfolding decimal
preamble page width expected =
    codes "^XA\n^PW"
    ++ (decimal page.width_px
        ++ (codes "\n^LL"
            ++ (decimal page.height_px
                ++ (codes "\n^FO0,0\n^GFA,"
                    ++ (decimal expected
                        ++ (codes ","
                            ++ (decimal expected
                                ++ (codes "," ++ (decimal width ++ codes ",")))))))))

unfoldable pub postamble : RasterPage → Text
unfolding decimal
postamble page = codes "\n^FS\n^PQ" ++ (decimal page.copies ++ codes "\n^XZ\n")

abbrev pub matches_dpi : Option ℕ → ℕ → Bool
matches_dpi none dpi = true
matches_dpi (some d) dpi = dpi == d

unfoldable pub check_page : RasterPage → DeviceProfile → Result (Unit {0})
check_page page profile = do
  ensure (page.version == 1) "unsupported raster page version"
  ensure (ltb 0 page.width_px && ltb 0 page.height_px) "raster dimensions must be positive"
  ensure (ltb 0 page.copies && leb page.copies 999) "raster copies must be between 1 and 999"
  ensure (leb page.width_px profile.max_width_dots) "raster width exceeds printer profile"
  ensure (leb page.height_px profile.max_length_dots) "raster height exceeds printer profile"
  ensure (matches_dpi profile.resolution_dpi page.dpi) "raster DPI does not match printer profile"

unfoldable pub encode_packed : RasterPage → ℕ → ℕ → Bytes → Result PreparedPayload
unfolding is_padded preamble postamble hexadecimal
encode_packed page width expected packed = do
  ensure (length packed == expected) "raster byte count does not match dimensions"
  ensure (is_padded page.width_px width packed) "unused raster row bits must be white"
  ok (record {
    bytes = preamble page width expected ++ (hexadecimal packed ++ postamble page);
    label_count = some page.copies;
  })

module _ (parse : Bytes → Option RasterPage) (decode : Text → Option Bytes) where
  unfoldable pub encode_page : RasterPage → DeviceProfile → Result PreparedPayload
  unfolding check_page encode_packed div_ceil
  encode_page page profile = do
    check_page page profile
    let width = div_ceil page.width_px 8
    expected ← ok_or (checked_mul width page.height_px) "raster dimensions overflow"
    packed ← ok_or (decode page.black_bits_base64) "invalid raster base64"
    encode_packed page width expected packed

  unfoldable pub encode_raster_page : Bytes → DeviceProfile → Result PreparedPayload
  unfolding encode_page
  encode_raster_page source profile = do
    page ← ok_or (parse source) "invalid PrintHub raster page JSON"
    encode_page page profile
