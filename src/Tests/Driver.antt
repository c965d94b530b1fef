-- ===== src/Tests/Driver.antt =====
-- A page of 12 by 2 dots through src/driver.rs.
use zebra_tamer.Prelude.{
  ◌*◌, ◌<◌, ◌≡◌, refl, true, false, Option, none, some, [], ◌∷◌, All, arith, length, subst,
}
use zebra_tamer.Prelude.Int.{pos}
use zebra_tamer.Prelude.Text.{Text, Bytes, codes}
use zebra_tamer.Prelude.Result.{ok}
use zebra_tamer.Driver.{
  RasterPage, DeviceProfile, PreparedPayload, encode_raster_page, div_ceil, is_padded,
}
use zebra_tamer.Driver.Raster.{IsAllowed, IsDocument, encode_raster_page_lem}
use zebra_tamer.Driver.Accepts.{encode_raster_page_ok}
use zebra_tamer.Driver.Payload.{accepts, zpl_driver}

abbrev page : RasterPage
page = record {
  version = 1;
  width_px = 12;
  height_px = 2;
  dpi = 203;
  copies = 3;
  black_bits_base64 = codes "//DwAA==";
}

abbrev pub profile : DeviceProfile
profile = record {
  resolution_dpi = some 203;
  max_width_dots = 832;
  max_length_dots = 39999;
  max_speed_ips = 14;
  max_offset_dots = pos 120;
  thermal_transfer = true;
  peel_off = false;
  cutter = false;
}

abbrev pub parse : Bytes → Option RasterPage
parse [] = none
parse (b ∷ bs) = some page

abbrev image : Bytes
image = 255 ∷ 240 ∷ 240 ∷ 0 ∷ []

abbrev pub decode : Text → Option Bytes
decode [] = none
decode (c ∷ cs) = some image

decode_bytes : (t : Text) (bs : Bytes) → decode t ≡ some bs → All (λ b. b < 256) bs
decode_bytes [] bs h = cc
decode_bytes (c ∷ cs) bs h =
    subst (All (λ b. b < 256)) (some-injective h)
      (omega arith, (omega arith, (omega arith, (omega arith, tt))))
  where
    some-injective : some image ≡ some bs → image ≡ bs
    some-injective e = cc

abbrev written : Bytes
written = codes "^XA\n^PW12\n^LL2\n^FO0,0\n^GFA,4,4,2,FFF0F000\n^FS\n^PQ3\n^XZ\n"

abbrev payload : PreparedPayload
payload = record { bytes = written; label_count = some 3 }

encoded : encode_raster_page parse decode (1 ∷ []) profile ≡ ok payload
unfolding encode_raster_page
encoded = refl

encode_raster_page_lem_example :
    IsAllowed page profile
    × (packed : Bytes) × (decode page.black_bits_base64 ≡ some packed)
    × IsDocument page packed payload
encode_raster_page_lem_example =
    encode_raster_page_lem parse decode decode_bytes (1 ∷ []) profile page payload refl encoded

page-IsAllowed : IsAllowed page profile
page-IsAllowed = record {
  version = refl;
  wide = omega arith;
  high = omega arith;
  some_copies = omega arith;
  few_copies = omega arith;
  fits_width = omega arith;
  fits_height = omega arith;
  resolution = refl;
}

sized : length image ≡ div_ceil page.width_px 8 * page.height_px
unfolding div_ceil
sized = refl

padded : is_padded page.width_px (div_ceil page.width_px 8) image ≡ true
unfolding is_padded div_ceil
padded = refl

encode_raster_page_ok_example :
    (out : PreparedPayload) × (encode_raster_page parse decode (1 ∷ []) profile ≡ ok out)
encode_raster_page_ok_example =
    encode_raster_page_ok parse decode (1 ∷ []) profile page image refl (omega arith) (omega arith)
      page-IsAllowed refl sized padded

with_parameter : accepts zpl_driver (codes "application/zpl; charset=utf-8") ≡ true
unfolding accepts
with_parameter = refl
