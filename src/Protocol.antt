-- ===== src/Protocol.antt =====
-- src/protocol_v2.rs: a submitted job becomes the bytes for the printer. Parameters: `parse` reads a
-- raster page (serde_json), `json_copies` the number `copies` of any JSON document (none if it is no
-- JSON), `decode` base64, `sha256` is the hexadecimal digest, `request_hash` the digest of the
-- serialised canonical request.
pub mod Copies
pub mod Prepared
use zebra_tamer.Prelude.{
  ℕ, zero, suc, ◌+◌, ◌-◌, ◌*◌, String, Bool, true, false, not, ◌&&◌, ◌||◌, Option, none, some, List,
  [], ◌∷◌, ◌++◌, length, leb, ltb, ◌==◌, all, map, take_while, if◌then◌else◌,
}
use zebra_tamer.Prelude.Words.{u64_max}
use zebra_tamer.Prelude.Text.{
  Text, Bytes, codes, text_len, text_eq, strip_prefix, is_ascii_digit, is_ascii_hexdigit,
  to_ascii_lowercase,
}
use zebra_tamer.Prelude.Result.{Result, ok, err, message, ensure, ok_or, ◌>>=◌, ◌>>◌}
use zebra_tamer.Driver.{RasterPage, DeviceProfile, PreparedPayload, checked_mul}
use zebra_tamer.Driver.Payload.{mime_of, zpl_mime, raster_mime, prepare_zebra_payload}

-- `serde_json::Value`, as far as the code looks: null, an object, or something else, with its text.
pub data Options : Type 0 where
  null : Options
  object other : String → Options

pub record Artifact : Type 0 where
  pub mime_type : Text
  pub sha256 : Text
  pub data_base64 : Text

pub record SubmitJob : Type 0 where
  pub idempotency_key : String
  pub description : Option String
  pub media_revision : Option String
  pub copies : ℕ
  pub reprint_of : Option String
  pub artifacts : List Artifact
  pub options : Options

pub record PreparedJob : Type 0 where
  pub bytes : Bytes
  pub request_hash : String
  pub label_count : ℕ

pub record CanonicalArtifact : Type 0 where
  pub mime_type : Text
  pub sha256 : Text

pub record CanonicalRequest : Type 0 where
  pub printer_id : String
  pub copies : ℕ
  pub media_revision : Option String
  pub reprint_of : Option String
  pub options : Options
  pub artifacts : List CanonicalArtifact

abbrev pub max_artifacts : ℕ
max_artifacts = 100

abbrev pub max_artifact_bytes : ℕ
max_artifact_bytes = 4194304

abbrev pub max_job_bytes : ℕ
max_job_bytes = 8388608

-- The number that digits spell behind `n`.
abbrev pub digits_value : ℕ → Bytes → ℕ
digits_value n [] = n
digits_value n (c ∷ cs) = digits_value (n * 10 + (c - 48)) cs

-- `parse::<u64>` of digits: no digits and a number that does not fit are errors.
unfoldable pub parse_u64 : Bytes → Option ℕ
parse_u64 [] = none
parse_u64 (c ∷ cs) = let n = digits_value 0 (c ∷ cs) in if leb n u64_max then some n else none

abbrev pub more_than_one : Option ℕ → Bool
more_than_one none = false
more_than_one (some n) = ltb 1 n

-- What stands behind the marker.
abbrev pub marks_copies : Option Bytes → Bool
marks_copies none = false
marks_copies (some rest) = more_than_one (parse_u64 (take_while is_ascii_digit rest))

unfoldable pub has_multi_copy_pq : Bytes → Bool
unfolding parse_u64
has_multi_copy_pq [] = false
has_multi_copy_pq (c ∷ cs) =
    let rest = has_multi_copy_pq cs in marks_copies (strip_prefix (codes "^PQ") (c ∷ cs)) || rest

abbrev pub checked_add : ℕ → ℕ → Option ℕ
checked_add a b = if leb (a + b) u64_max then some (a + b) else none

-- `eq_ignore_ascii_case`.
abbrev pub eq_ignore_ascii_case : Text → Text → Bool
eq_ignore_ascii_case a b = text_eq (map to_ascii_lowercase a) (map to_ascii_lowercase b)

abbrev pub concat : List Bytes → Bytes
concat [] = []
concat (p ∷ ps) = p ++ concat ps

-- Collated: all pages, as often as there are copies.
unfoldable pub collate : ℕ → List Bytes → Bytes
collate zero pages = []
collate (suc n) pages = concat pages ++ collate n pages

-- The variables of the loop over the artifacts.
pub record Progress : Type 0 where
  pub pages : List Bytes
  pub canonical : List CanonicalArtifact
  pub source_bytes : ℕ
  pub prepared_bytes : ℕ

abbrev pub is_short : Option String → Bool
is_short none = true
is_short (some d) = leb (text_len (codes d)) 1000

abbrev pub is_optional_object : Options → Bool
is_optional_object (other s) = false
is_optional_object _ = true

abbrev pub is_one : Option ℕ → Bool
is_one none = false
is_one (some n) = n == 1

unfoldable pub check_request : SubmitJob → Result (Unit {0})
check_request request = do
  ensure
      (leb 1 (text_len (codes request.idempotency_key))
        && leb (text_len (codes request.idempotency_key)) 255)
      "idempotency_key must contain between 1 and 255 characters"
  ensure (is_short request.description) "description is too long"
  ensure (leb 1 request.copies && leb request.copies 999) "copies must be between 1 and 999"
  ensure (leb 1 (length request.artifacts) && leb (length request.artifacts) max_artifacts)
      "artifacts must contain between 1 and 100 pages"
  ensure (is_optional_object request.options) "options must be an object"

module _ (parse : Bytes → Option RasterPage) (json_copies : Bytes → Option (Option ℕ))
    (decode : Text → Option Bytes) (sha256 : Bytes → Text)
    (request_hash : CanonicalRequest → String) where
  -- The check of the copies that a page asks for itself.
  unfoldable pub check_copies : Text → ℕ → Bytes → Result (Unit {0})
  unfolding has_multi_copy_pq
  check_copies mime copies source = elim (text_eq mime raster_mime) [
    | true ↦ do
      n ← ok_or (json_copies source) "invalid PrintHub raster page JSON"
      ensure (is_one n) "v2 raster artifacts must use copies=1; use envelope copies"
    | false ↦
        ensure (not (ltb 1 copies && has_multi_copy_pq source))
          "native ZPL with ^PQ greater than 1 cannot be combined with envelope copies"
  ]

  -- The page's source, when its encoding, sizes and digest are right, and the bytes so far.
  unfoldable pub open_artifact : ℕ → Artifact → Result (Bytes × ℕ)
  unfolding mime_of
  open_artifact source_bytes artifact = do
    ensure
        (text_eq (mime_of artifact.mime_type) zpl_mime
          || text_eq (mime_of artifact.mime_type) raster_mime)
        "unsupported artifact mime_type"
    ensure (text_len artifact.sha256 == 64 && all is_ascii_hexdigit artifact.sha256)
        "artifact sha256 must contain 64 hexadecimal characters"
    source ← ok_or (decode artifact.data_base64) "invalid artifact base64"
    ensure (leb (length source) max_artifact_bytes) "artifact exceeds the maximum decoded size"
    total ← ok_or (checked_add source_bytes (length source)) "job size overflow"
    ensure (leb total max_job_bytes) "job exceeds the maximum decoded size"
    ensure (eq_ignore_ascii_case (sha256 source) artifact.sha256) "artifact sha256 mismatch"
    ok (source, total)

  abbrev pub fits : ℕ → Option ℕ → Bool
  fits limit none = false
  fits limit (some n) = leb n limit

  -- One round of the loop.
  unfoldable pub prepare_artifact : ℕ → DeviceProfile → Progress → Artifact → Result Progress
  unfolding open_artifact check_copies prepare_zebra_payload
  prepare_artifact copies profile p artifact = do
    (source, source_bytes) ← open_artifact p.source_bytes artifact
    check_copies (mime_of artifact.mime_type) copies source
    prepared ← prepare_zebra_payload parse decode (mime_of artifact.mime_type) source profile
    prepared_bytes ←
        ok_or (checked_add p.prepared_bytes (length prepared.bytes)) "prepared job size overflow"
    ensure (fits max_job_bytes (checked_mul prepared_bytes copies))
        "prepared job exceeds the maximum size"
    ok (record {
      pages = p.pages ++ (prepared.bytes ∷ []);
      canonical =
          p.canonical
          ++ (record { mime_type = mime_of artifact.mime_type; sha256 = artifact.sha256 } ∷ []);
      source_bytes = source_bytes;
      prepared_bytes = prepared_bytes;
    })

  unfoldable pub prepare_artifacts : ℕ → DeviceProfile → Progress → List Artifact → Result Progress
  unfolding prepare_artifact
  prepare_artifacts copies profile p [] = ok p
  prepare_artifacts copies profile p (artifact ∷ artifacts) = do
    p' ← prepare_artifact copies profile p artifact
    prepare_artifacts copies profile p' artifacts

  abbrev pub canonical_of : String → SubmitJob → Progress → CanonicalRequest
  canonical_of printer_id request p = record {
    printer_id = printer_id;
    copies = request.copies;
    media_revision = request.media_revision;
    reprint_of = request.reprint_of;
    options = request.options;
    artifacts = p.canonical;
  }

  abbrev pub nothing_yet : Progress
  nothing_yet = record { pages = []; canonical = []; source_bytes = 0; prepared_bytes = 0 }

  unfoldable pub prepare_job : String → SubmitJob → DeviceProfile → Result PreparedJob
  unfolding check_request prepare_artifacts collate
  prepare_job printer_id request profile = do
    check_request request
    p ← prepare_artifacts request.copies profile nothing_yet request.artifacts
    ok (record {
      bytes = collate request.copies p.pages;
      request_hash = request_hash (canonical_of printer_id request p);
      label_count = length request.artifacts * request.copies;
    })
