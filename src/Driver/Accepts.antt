-- ===== src/Driver/Accepts.antt =====
-- Which raster pages src/driver.rs accepts.
use zebra_tamer.Prelude.{
  ℕ, ◌*◌, ◌≤◌, ◌<◌, ◌≡◌, refl, sym, ap, ◌∙◌, true, Option, some, ◌++◌, length, arith, ==_iff,
}
use zebra_tamer.Prelude.Text.{Text, Bytes}
use zebra_tamer.Prelude.Result.{ok}
use zebra_tamer.Driver.{
  RasterPage, DeviceProfile, PreparedPayload, hexadecimal, div_ceil, is_padded, preamble, postamble,
  check_page, encode_packed, encode_page, encode_raster_page, checked_mul,
}
use zebra_tamer.Driver.Raster.{IsAllowed}

mul_le : (a b c d : ℕ) → a ≤ c → b ≤ d → a * b ≤ c * d
mul_le a b c d h k = grind arith

div_ceil-le : (w : ℕ) → w < 4294967296 → div_ceil w 8 ≤ 536870912
unfolding div_ceil
div_ceil-le w h = ground arith

check_page_ok :
    (page : RasterPage) (profile : DeviceProfile)
    → IsAllowed page profile
    → check_page page profile ≡ ok tt
unfolding check_page
check_page_ok page profile a = ground arith

-- The size of an image whose width and height are 32-bit numbers fits 64 bits.
size_fits :
    (w h : ℕ)
    → w < 4294967296
    → h < 4294967296
    → checked_mul (div_ceil w 8) h ≡ some (div_ceil w 8 * h)
size_fits w h hw hh =
    ground (arith, mul_le (div_ceil w 8) h 536870912 4294967296 (div_ceil-le w hw) (omega arith))

encode_packed_ok :
    (page : RasterPage) (width : ℕ) (packed : Bytes)
    → is_padded page.width_px width packed ≡ true
    → (out : PreparedPayload) × (encode_packed page width (length packed) packed ≡ ok out)
unfolding encode_packed
encode_packed_ok page width packed padded = (
  record {
    bytes = preamble page width (length packed) ++ (hexadecimal packed ++ postamble page);
    label_count = some page.copies;
  },
  rw ((==_iff (length packed) (length packed)).1 refl, padded) refl,
)

module _ (parse : Bytes → Option RasterPage) (decode : Text → Option Bytes) where
  -- Every page that passes the checks, whose base64 decodes to as many bytes as its size asks for
  -- and whose padding is white, is encoded; the size never overflows.
  pub encode_raster_page_ok :
      (source : Bytes) (profile : DeviceProfile) (page : RasterPage) (packed : Bytes)
      → parse source ≡ some page
      → page.width_px < 4294967296
      → page.height_px < 4294967296
      → IsAllowed page profile
      → decode page.black_bits_base64 ≡ some packed
      → length packed ≡ div_ceil page.width_px 8 * page.height_px
      → is_padded page.width_px (div_ceil page.width_px 8) packed ≡ true
      → (out : PreparedPayload) × (encode_raster_page parse decode source profile ≡ ok out)
  unfolding encode_raster_page encode_page
  encode_raster_page_ok source profile page packed parsed hw hh allowed decoded size padded =
      let (out, e) = encode_packed_ok page (div_ceil page.width_px 8) packed padded in
      let same = ap (λ n. encode_packed page (div_ceil page.width_px 8) n packed) size in
      (
        out,
        rw
            (
              parsed,
              check_page_ok page profile allowed,
              size_fits page.width_px page.height_px hw hh,
              decoded,
            )
            (sym same ∙ e),
      )
