-- ===== src/Driver/Payload.antt =====
-- The choice of an encoder by the content type (src/driver.rs).
use zebra_tamer.Prelude.{
  String, ◌≡◌, refl, Bool, true, false, not, Option, none, some, List, [], str_eq, ◌∷◌, take_while,
  any, if◌then◌else◌, Bool-cases, inl, inr, ◌==◌, ◌⊎◌,
}
use zebra_tamer.Prelude.Text.{Text, Bytes, codes, trim, text_eq}
use zebra_tamer.Prelude.Result.{Result, ok, err, message}
use zebra_tamer.Driver.{RasterPage, DeviceProfile, PreparedPayload, encode_raster_page}

-- `split(';').next().unwrap_or("").trim()`.
unfoldable pub mime_of : Text → Text
unfolding trim
mime_of content_type = trim (take_while (λ c. not (c == b';')) content_type)

abbrev pub zpl_mime : Text
zpl_mime = codes "application/zpl"

abbrev pub raster_mime : Text
raster_mime = codes "application/vnd.printhub.raster-page+json"

pub record DriverDescriptor : Type 0 where
  pub id : String
  pub accepted_mime_types : List Text
  pub available : Bool
  pub device_configuration : Bool
  pub status_probe : Bool

abbrev pub zpl_driver : DriverDescriptor
zpl_driver = record {
  id = "zpl";
  accepted_mime_types = zpl_mime ∷ raster_mime ∷ [];
  available = true;
  device_configuration = true;
  status_probe = true;
}

abbrev pub drivers : List DriverDescriptor
drivers = zpl_driver ∷ []

abbrev find_driver : String → List DriverDescriptor → Option DriverDescriptor
find_driver id [] = none
find_driver id (d ∷ ds) = let rest = find_driver id ds in if str_eq d.id id then some d else rest

unfoldable pub descriptor : String → Option DriverDescriptor
descriptor id = find_driver id drivers

unfoldable pub accepts : DriverDescriptor → Text → Bool
unfolding mime_of
accepts driver content_type = any (λ m. text_eq m (mime_of content_type)) driver.accepted_mime_types

module _ (parse : Bytes → Option RasterPage) (decode : Text → Option Bytes) where
  unfoldable pub prepare_zebra_payload : Text → Bytes → DeviceProfile → Result PreparedPayload
  unfolding mime_of encode_raster_page
  prepare_zebra_payload content_type source profile =
      if text_eq zpl_mime (mime_of content_type)
      then ok (record { bytes = source; label_count = none })
      else if text_eq raster_mime (mime_of content_type)
      then encode_raster_page parse decode source profile
      else err (message "unsupported Zebra payload type")

  -- The descriptor and the encoder agree: a content type that the driver accepts is either passed on
  -- byte for byte with no count of labels, or encoded as a raster page, and any other is refused with
  -- the message that the type is unsupported.
  pub prepare_zebra_payload_lem :
      (content_type : Text) (source : Bytes) (profile : DeviceProfile)
      → let answer = prepare_zebra_payload content_type source profile in
        (accepts zpl_driver content_type ≡ true
          → (answer ≡ ok (record { bytes = source; label_count = none }))
            ⊎ (answer ≡ encode_raster_page parse decode source profile))
        × (accepts zpl_driver content_type ≡ false
            → answer ≡ err (message "unsupported Zebra payload type"))
  unfolding prepare_zebra_payload accepts
  prepare_zebra_payload_lem content_type source profile =
      elim (Bool-cases (text_eq zpl_mime (mime_of content_type))) [
        | inl zpl ↦ rw zpl (λ h. inl refl, λ h. cc)
        | inr other ↦ elim (Bool-cases (text_eq raster_mime (mime_of content_type))) [
          | inl raster ↦ rw (other, raster) (λ h. inr refl, λ h. cc)
          | inr neither ↦ rw (other, neither) (λ h. cc, λ h. refl)
        ]
      ]
