-- ===== src/Tests/Protocol.antt =====
-- Jobs of a page or two through src/protocol_v2.rs.
use zebra_tamer.Prelude.{
  ℕ, ◌*◌, ◌≤◌, ◌≡◌, ◌↔◌, refl, true, String, Option, none, some, List, [], ◌∷◌, ◌++◌, length, map,
  if◌then◌else◌, ◌==◌,
}
use zebra_tamer.Prelude.Text.{Text, Bytes, codes}
use zebra_tamer.Prelude.Result.{Result, ok, err, message}
use zebra_tamer.Driver.{RasterPage}
use zebra_tamer.Protocol.{
  null, Artifact, SubmitJob, PreparedJob, CanonicalRequest, prepare_job, has_multi_copy_pq, collate,
  max_job_bytes, max_artifacts,
}
use zebra_tamer.Protocol.Copies.{AsksForCopies, has_multi_copy_pq_iff}
use zebra_tamer.Protocol.Prepared.{
  Each, IsPage, prepare_job_lem, canonical_request, canonical_artifact,
}
use zebra_tamer.Tests.Driver.{profile}

abbrev pub two_labels : Bytes
two_labels = codes "^XA^PQ01^FDa^XZ^XA^PQ2^XZ"

-- The first ^PQ asks for one label, the second one for two.
has_multi_copy_pq_iff_example : (has_multi_copy_pq two_labels ≡ true) ↔ AsksForCopies two_labels
has_multi_copy_pq_iff_example = has_multi_copy_pq_iff two_labels

abbrev pub label : Bytes
label = codes "^XA^PQ1^XZ"

-- A toy base64 and a toy digest.
abbrev pub decode : Text → Option Bytes
decode [] = none
decode (c ∷ cs) = if c == 99 then some two_labels else some label

abbrev pub digest : Text
digest = codes "00112233445566778899aabbccddeeff00112233445566778899aabbccddeeff"

abbrev pub sha256 : Bytes → Text
sha256 bytes = digest

abbrev pub parse : Bytes → Option RasterPage
parse bytes = none

abbrev pub json_copies : Bytes → Option (Option ℕ)
json_copies bytes = none

abbrev pub request_hash : CanonicalRequest → String
request_hash request = request.printer_id

abbrev pub artifact : Text → Artifact
artifact content = record {
  mime_type = codes " application/zpl ; charset=utf-8";
  sha256 = codes "00112233445566778899AABBCCDDEEFF00112233445566778899aabbccddeeff";
  data_base64 = content;
}

abbrev pub request : List Artifact → SubmitJob
request artifacts = record {
  idempotency_key = "k";
  description = none;
  media_revision = none;
  copies = 2;
  reprint_of = none;
  artifacts = artifacts;
  options = null;
}

abbrev pub job : PreparedJob
job = record {
  bytes = label ++ (label ++ (label ++ (label ++ [])));
  request_hash = "p";
  label_count = 4;
}

abbrev pub prepare : List Artifact → Result PreparedJob
prepare artifacts =
    prepare_job parse json_copies decode sha256 request_hash "p" (request artifacts) profile

prepare_two : prepare (artifact (codes "a") ∷ artifact (codes "b") ∷ []) ≡ ok job
unfolding prepare_job
prepare_two = refl

prepare_refused :
    prepare (artifact (codes "a") ∷ artifact (codes "c") ∷ [])
    ≡ err (message "native ZPL with ^PQ greater than 1 cannot be combined with envelope copies")
unfolding prepare_job
prepare_refused = refl

prepare_job_lem_example :
    let artifacts = artifact (codes "a") ∷ artifact (codes "b") ∷ [] in
    (pages : List Bytes) × Each
      (IsPage parse json_copies decode sha256 request_hash profile 2)
      artifacts
      pages
    × (job.bytes ≡ collate 2 pages)
    × (length job.bytes ≤ max_job_bytes)
    × (job.label_count ≡ length artifacts * 2)
    × (job.request_hash
        ≡ request_hash
            (canonical_request "p" (request artifacts) (map canonical_artifact artifacts)))
    × ((1 ≤ 2) × (2 ≤ 999))
    × ((1 ≤ length artifacts) × (length artifacts ≤ max_artifacts))
prepare_job_lem_example =
    prepare_job_lem parse json_copies decode sha256 request_hash "p"
      (request (artifact (codes "a") ∷ artifact (codes "b") ∷ [])) profile job prepare_two
