-- ===== src/Driver/Raster.antt =====
-- What the ZPL of a raster page (src/driver.rs) holds.
use zebra_tamer.Prelude.{
  ℕ, ◌+◌, ◌-◌, ◌*◌, ◌/◌, ◌%◌, ◌≤◌, ◌<◌, ◌≡◌, refl, subst, sym, ap, ◌∙◌, true, Option, none, some,
  [], ◌∷◌, ◌++◌, length, All, arith, leb, ◌==◌, ==_iff, if◌then◌else◌,
}
use zebra_tamer.Prelude.Text.{Text, Bytes}
use zebra_tamer.Driver.{
  RasterPage, DeviceProfile, PreparedPayload, hex_digit, hexadecimal, div_ceil, is_padded, preamble,
  postamble, matches_dpi, check_page, encode_packed, encode_page, encode_raster_page, checked_mul,
}
use zebra_tamer.Prelude.Inversion.{some-injective, ok-injective, bind-ok, ok_or-ok, ensure-ok}
use zebra_tamer.Prelude.Result.{Result, ok, ok_or, ensure, ◌>>=◌}

-- The reading of a graphic field: the value of a hexadecimal digit, and the bytes of a text of them.
abbrev pub digit_value : ℕ → Option ℕ
digit_value c =
    if leb 48 c
    then if leb c 57
      then some (c - 48)
      else if leb 65 c
      then if leb c 70 then some (c - 55) else none
      else none
    else none

abbrev pair : Option ℕ → Option ℕ → Option Bytes → Option Bytes
pair (some hi) (some lo) (some bs) = some ((hi * 16 + lo) ∷ bs)
pair _ _ _ = none

abbrev pub unhex : Text → Option Bytes
unhex [] = some []
unhex (hi ∷ []) = none
unhex (hi ∷ lo ∷ rest) = pair (digit_value hi) (digit_value lo) (unhex rest)

digit_value-hex_digit : (d : ℕ) → d < 16 → digit_value (hex_digit d) ≡ some d
digit_value-hex_digit d h = ground arith

-- The field reads back as the bytes of the image.
pub unhex-hexadecimal : (bs : Bytes) → All (λ b. b < 256) bs → unhex (hexadecimal bs) ≡ some bs
unfolding hexadecimal
unhex-hexadecimal [] h = refl
unhex-hexadecimal (b ∷ bs) h =
    rw
      (
        digit_value-hex_digit (b / 16) (omega arith),
        digit_value-hex_digit (b % 16) (omega arith),
        unhex-hexadecimal bs h.1,
      )
      (ap (λ c. some (c ∷ bs)) (omega arith))

-- What the checks of a page let through.
pub record IsAllowed (page : RasterPage) (profile : DeviceProfile) : Type 0 where
  pub version : page.version ≡ 1
  pub wide : 0 < page.width_px
  pub high : 0 < page.height_px
  pub some_copies : 0 < page.copies
  pub few_copies : page.copies ≤ 999
  pub fits_width : page.width_px ≤ profile.max_width_dots
  pub fits_height : page.height_px ≤ profile.max_length_dots
  pub resolution : matches_dpi profile.resolution_dpi page.dpi ≡ true

check_page-IsAllowed :
    (page : RasterPage) (profile : DeviceProfile)
    → check_page page profile ≡ ok tt
    → IsAllowed page profile
unfolding check_page
check_page-IsAllowed page profile h = ground arith

checked_mul-some : (a b n : ℕ) → checked_mul a b ≡ some n → n ≡ a * b
checked_mul-some a b n h = ground arith

-- The document that is written for an image.
pub record IsDocument (page : RasterPage) (packed : Bytes) (out : PreparedPayload) : Type 0 where
  pub sized : length packed ≡ div_ceil page.width_px 8 * page.height_px
  pub padded : is_padded page.width_px (div_ceil page.width_px 8) packed ≡ true
  pub field : Text
  pub text :
      out.bytes
      ≡ preamble page (div_ceil page.width_px 8) (length packed) ++ (field ++ postamble page)
  pub readable : unhex field ≡ some packed
  pub counted : out.label_count ≡ some page.copies

encode_packed-IsDocument :
    (page : RasterPage) (expected : ℕ) (packed : Bytes) (out : PreparedPayload)
    → expected ≡ div_ceil page.width_px 8 * page.height_px
    → All (λ b. b < 256) packed
    → encode_packed page (div_ceil page.width_px 8) expected packed ≡ ok out
    → IsDocument page packed out
unfolding encode_packed
encode_packed-IsDocument page expected packed out size bytes h =
    let width = div_ceil page.width_px 8 in
    let document : PreparedPayload = record {
      bytes = preamble page width expected ++ (hexadecimal packed ++ postamble page);
      label_count = some page.copies;
    } in
    let from_padded : Unit {0} → Result PreparedPayload = λ _. ok document in
    let padding =
      ensure (is_padded page.width_px width packed) "unused raster row bits must be white" in
    let from_sized : Unit {0} → Result PreparedPayload = λ _. padding >>= from_padded in
    let (a, fits, h1) =
      bind-ok (ensure (length packed == expected) "raster byte count does not match dimensions")
        from_sized out h in
    let (b, white, h2) = bind-ok padding from_padded out h1 in
    let written : document ≡ out = ok-injective h2 in
    let full : length packed ≡ expected =
      (==_iff (length packed) expected).0 (ensure-ok _ _ a fits) in
    record {
      sized = full ∙ size;
      padded = ensure-ok _ _ b white;
      field = hexadecimal packed;
      text =
          ap (λ (d : PreparedPayload). d.bytes) (sym written)
          ∙ ap (λ n. preamble page width n ++ (hexadecimal packed ++ postamble page)) (sym full);
      readable = unhex-hexadecimal packed bytes;
      counted = ap (λ (d : PreparedPayload). d.label_count) (sym written);
    }

module _ (parse : Bytes → Option RasterPage) (decode : Text → Option Bytes)
    (decode_bytes : (t : Text) (bs : Bytes) → decode t ≡ some bs → All (λ b. b < 256) bs) where
  encode_page_lem :
      (page : RasterPage) (profile : DeviceProfile) (out : PreparedPayload)
      → encode_page parse decode page profile ≡ ok out
      → IsAllowed page profile
        × (packed : Bytes) × (decode page.black_bits_base64 ≡ some packed)
        × IsDocument page packed out
  unfolding encode_page
  encode_page_lem page profile out h =
      let width = div_ceil page.width_px 8 in
      let from_packed : ℕ → Bytes → Result PreparedPayload = encode_packed page width in
      let from_size : ℕ → Result PreparedPayload =
        λ n. ok_or (decode page.black_bits_base64) "invalid raster base64" >>= from_packed n in
      let from_check : Unit {0} → Result PreparedPayload =
        λ _. ok_or (checked_mul width page.height_px) "raster dimensions overflow" >>= from_size in
      let (_, allowed, h1) = bind-ok (check_page page profile) from_check out h in
      let (n, size, h2) =
        bind-ok (ok_or (checked_mul width page.height_px) "raster dimensions overflow") from_size
          out h1 in
      let (packed, decoded, h3) =
        bind-ok (ok_or (decode page.black_bits_base64) "invalid raster base64") (from_packed n) out
          h2 in
      let image = ok_or-ok (decode page.black_bits_base64) _ packed decoded in
      (
        check_page-IsAllowed page profile allowed,
        packed,
        image,
        encode_packed-IsDocument page n packed out
            (checked_mul-some width page.height_px n
              (ok_or-ok (checked_mul width page.height_px) _ n size))
            (decode_bytes page.black_bits_base64 packed image) h3,
      )

  -- A page that is accepted passes every check, its base64 decodes to an image of the size that the
  -- page says, with white padding, and the payload is a ZPL document for that image: its graphic
  -- field reads back as the image, and it counts as many labels as the page has copies. The base64
  -- decoder is assumed to return bytes.
  pub encode_raster_page_lem :
      (source : Bytes) (profile : DeviceProfile) (page : RasterPage) (out : PreparedPayload)
      → parse source ≡ some page
      → encode_raster_page parse decode source profile ≡ ok out
      → IsAllowed page profile
        × (packed : Bytes) × (decode page.black_bits_base64 ≡ some packed)
        × IsDocument page packed out
  unfolding encode_raster_page encode_page
  encode_raster_page_lem source profile page out parsed h =
      let (page', read, encoded) =
        bind-ok (ok_or (parse source) "invalid PrintHub raster page JSON")
          (λ p. encode_page parse decode p profile) out h in
      let same : page' ≡ page =
        some-injective (sym (ok_or-ok (parse source) _ page' read) ∙ parsed) in
      encode_page_lem page profile out
        (subst (λ p. encode_page parse decode p profile ≡ ok out) same encoded)
