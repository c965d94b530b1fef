-- ===== src/Protocol/Prepared.antt =====
-- What a job is that `prepare_job` of src/protocol_v2.rs accepts.
use zebra_tamer.Prelude.{
  ℕ, zero, suc, ◌+◌, ◌*◌, ◌≤◌, ◌≡◌, refl, sym, ap, subst, ◌∙◌, ◌⊎◌, inl, inr, String, Bool, true,
  false, ◌&&◌, ◌||◌, Option, none, some, List, [], ◌∷◌, ◌++◌, length, leb, ◌==◌, all, arith,
  length-append, Bool-cases, Option-cases, ==_iff, ◌<◌, map,
}
use mathlib.Core.List.{append-nil, append_assoc}
use zebra_tamer.Prelude.Text.{Text, Bytes, codes, text_eq, text_len, is_ascii_hexdigit}
use zebra_tamer.Prelude.Result.{ok}
use zebra_tamer.Prelude.Inversion.{bind-ok, then-ok, ensured, given, ok-injective}
use zebra_tamer.Driver.{RasterPage, DeviceProfile, PreparedPayload, checked_mul}
use zebra_tamer.Driver.Payload.{mime_of, raster_mime, zpl_mime, prepare_zebra_payload}
use zebra_tamer.Protocol.{
  Artifact, SubmitJob, PreparedJob, CanonicalArtifact, CanonicalRequest, Progress, concat, collate,
  eq_ignore_ascii_case, checked_add, max_artifact_bytes, max_job_bytes, max_artifacts,
  has_multi_copy_pq, check_copies, open_artifact, prepare_artifact, prepare_artifacts, prepare_job,
  check_request, nothing_yet, is_short, fits, is_one,
}

length-concat-append :
    (ps : List Bytes) (p : Bytes) → length (concat (ps ++ (p ∷ []))) ≡ length (concat ps) + length p
length-concat-append [] p = rw (length-append p []) (omega arith)
length-concat-append (q ∷ ps) p =
    rw
      (
        length-append q (concat (ps ++ (p ∷ []))),
        length-append q (concat ps),
        length-concat-append ps p,
      )
      (omega arith)

length-collate : (n : ℕ) (ps : List Bytes) → length (collate n ps) ≡ n * length (concat ps)
unfolding collate
length-collate zero ps = omega arith
length-collate (suc n) ps =
    rw (length-append (concat ps) (collate n ps), length-collate n ps) (omega arith)

-- Pages side by side with the artifacts they come from.
abbrev pub Each : (Artifact → Bytes → Type 0) → List Artifact → List Bytes → Type 0
Each R [] [] = Unit
Each R (a ∷ artifacts) (p ∷ pages) = R a p × Each R artifacts pages
Each R _ _ = ⊥

-- One condition or the other, from a test that joins them.
or-cases : (a b : Bool) → (a || b) ≡ true → (a ≡ true) ⊎ (b ≡ true)
or-cases true b h = inl refl
or-cases false b h = inr h

mul_comm : (a b : ℕ) → a * b ≡ b * a
mul_comm a b = grind arith

between : (a b n : ℕ) → (leb a n && leb n b) ≡ true → (a ≤ n) × (n ≤ b)
between a b n h = ground arith

check_request-ok :
    (request : SubmitJob)
    → check_request request ≡ ok tt
    → ((1 ≤ request.copies) × (request.copies ≤ 999))
      × ((1 ≤ length request.artifacts) × (length request.artifacts ≤ max_artifacts))
unfolding check_request
check_request-ok request h =
    let key = text_len (codes request.idempotency_key) in
    let (_, h1) = ensured (leb 1 key && leb key 255) _ _ tt h in
    let (_, h2) = ensured (is_short request.description) _ _ tt h1 in
    let (copies, h3) = ensured (leb 1 request.copies && leb request.copies 999) _ _ tt h2 in
    let (artifacts, _) =
      ensured (leb 1 (length request.artifacts) && leb (length request.artifacts) max_artifacts) _ _
        tt h3 in
    (
      between 1 999 request.copies copies,
      between 1 max_artifacts (length request.artifacts) artifacts,
    )

-- What of an artifact counts for the digest of the request.
abbrev pub canonical_artifact : Artifact → CanonicalArtifact
canonical_artifact artifact = record {
  mime_type = mime_of artifact.mime_type;
  sha256 = artifact.sha256;
}

abbrev pub canonical_request : String → SubmitJob → List CanonicalArtifact → CanonicalRequest
canonical_request printer_id request artifacts = record {
  printer_id = printer_id;
  copies = request.copies;
  media_revision = request.media_revision;
  reprint_of = request.reprint_of;
  options = request.options;
  artifacts = artifacts;
}

module _ (parse : Bytes → Option RasterPage) (json_copies : Bytes → Option (Option ℕ))
    (decode : Text → Option Bytes) (sha256 : Bytes → Text)
    (request_hash : CanonicalRequest → String) where
  -- The source is what the artifact announces, and small enough.
  pub record IsOpened (artifact : Artifact) (source : Bytes) : Type 0 where
    pub known :
        (text_eq (mime_of artifact.mime_type) zpl_mime ≡ true)
        ⊎ (text_eq (mime_of artifact.mime_type) raster_mime ≡ true)
    pub decoded : decode artifact.data_base64 ≡ some source
    pub digest : eq_ignore_ascii_case (sha256 source) artifact.sha256 ≡ true
    pub small : leb (length source) max_artifact_bytes ≡ true

  open_artifact-IsOpened :
      (before : ℕ) (artifact : Artifact) (source : Bytes) (total : ℕ)
      → open_artifact parse json_copies decode sha256 request_hash before artifact
        ≡ ok (source, total)
      → IsOpened artifact source
  unfolding open_artifact
  open_artifact-IsOpened before artifact source total h =
      let out : Bytes × ℕ = (source, total) in
      let mime = mime_of artifact.mime_type in
      let (known, h1) = ensured (text_eq mime zpl_mime || text_eq mime raster_mime) _ _ out h in
      let (_, h2) =
        ensured (text_len artifact.sha256 == 64 && all is_ascii_hexdigit artifact.sha256) _ _ out
          h1 in
      let (s, decoded, h3) = given (decode artifact.data_base64) _ _ out h2 in
      let (small, h4) = ensured (leb (length s) max_artifact_bytes) _ _ out h3 in
      let (t, _, h5) = given (checked_add before (length s)) _ _ out h4 in
      let (_, h6) = ensured (leb t max_job_bytes) _ _ out h5 in
      let (digest, h7) = ensured (eq_ignore_ascii_case (sha256 s) artifact.sha256) _ _ out h6 in
      let same : s ≡ source = ap (λ (o : Bytes × ℕ). o.0) (ok-injective h7) in
      subst (IsOpened artifact) same
        (record { known = or-cases _ _ known; decoded = decoded; digest = digest; small = small })

  -- A raster page asks for one copy; a native page asks for no more when the job has several.
  abbrev pub IsSingle : Artifact → ℕ → Bytes → Type 0
  IsSingle artifact copies source =
      (text_eq (mime_of artifact.mime_type) raster_mime ≡ true → json_copies source ≡ some (some 1))
      × (text_eq (mime_of artifact.mime_type) raster_mime ≡ false
          → 1 < copies
          → has_multi_copy_pq source ≡ false)

  is_one-some : (n : Option ℕ) → is_one n ≡ true → n ≡ some 1
  is_one-some none h = cc
  is_one-some (some n) h = ap (λ k. some k) ((==_iff n 1).0 h)

  check_copies-IsSingle :
      (artifact : Artifact) (copies : ℕ) (source : Bytes)
      → check_copies parse json_copies decode sha256 request_hash
          (mime_of artifact.mime_type)
          copies
          source
        ≡ ok tt
      → IsSingle artifact copies source
  unfolding check_copies
  check_copies-IsSingle artifact copies source h =
      elim (Bool-cases (text_eq (mime_of artifact.mime_type) raster_mime)) [
        | inl raster ↦ elim (Option-cases (json_copies source)) [
          | inl e ↦ ground arith
          | inr (n, e) ↦ ground (arith, is_one-some n)
        ]
        | inr zpl ↦ ground arith
      ]

  -- The page that an artifact becomes.
  pub record IsPage (profile : DeviceProfile) (copies : ℕ) (artifact : Artifact) (page : Bytes)
      : Type 0 where
    pub source : Bytes
    pub payload : PreparedPayload
    pub opened : IsOpened artifact source
    pub single : IsSingle artifact copies source
    pub prepared :
        prepare_zebra_payload parse decode (mime_of artifact.mime_type) source profile ≡ ok payload
    pub page_bytes : page ≡ payload.bytes

  -- The loop has counted the bytes of the pages it has, and all their copies fit.
  abbrev pub IsCounted : ℕ → Progress → Type 0
  IsCounted copies p =
      (p.prepared_bytes ≡ length (concat p.pages)) × (p.prepared_bytes * copies ≤ max_job_bytes)

  fits-some :
      (a b : ℕ)
      → fits parse json_copies decode sha256 request_hash max_job_bytes (checked_mul a b) ≡ true
      → a * b ≤ max_job_bytes
  fits-some a b h = ground arith

  checked_add-some : (a b n : ℕ) → checked_add a b ≡ some n → n ≡ a + b
  checked_add-some a b n h = ground arith

  -- A round adds the page of its artifact, and its canonical form, and keeps the count.
  prepare_artifact_lem :
      (copies : ℕ) (profile : DeviceProfile) (p q : Progress) (artifact : Artifact)
      → IsCounted copies p
      → prepare_artifact parse json_copies decode sha256 request_hash copies profile p artifact
        ≡ ok q
      → (page : Bytes) × IsPage profile copies artifact page
        × (q.pages ≡ p.pages ++ (page ∷ []))
        × (q.canonical ≡ p.canonical ++ (canonical_artifact artifact ∷ []))
        × IsCounted copies q
  unfolding prepare_artifact
  prepare_artifact_lem copies profile p q artifact (counted, _) h =
      let opening =
        open_artifact parse json_copies decode sha256 request_hash p.source_bytes artifact in
      let ((source, source_bytes), opened, h1) = bind-ok opening _ q h in
      let (single, h2) =
        then-ok
          (check_copies parse json_copies decode sha256 request_hash (mime_of artifact.mime_type)
            copies source)
          _ q h1 in
      let (payload, prepared, h3) =
        bind-ok (prepare_zebra_payload parse decode (mime_of artifact.mime_type) source profile) _ q
          h2 in
      let (n, added, h4) = given (checked_add p.prepared_bytes (length payload.bytes)) _ _ q h3 in
      let (small, h5) =
        ensured
          (fits parse json_copies decode sha256 request_hash max_job_bytes (checked_mul n copies)) _
          _ q h4 in
      let sum : n ≡ p.prepared_bytes + length payload.bytes = checked_add-some _ _ n added in
      let done = ok-injective h5 in
      (
        payload.bytes,
        record {
          source = source;
          payload = payload;
          opened = open_artifact-IsOpened p.source_bytes artifact source source_bytes opened;
          single = check_copies-IsSingle artifact copies source single;
          prepared = prepared;
          page_bytes = refl;
        },
        ap (λ (r : Progress). r.pages) (sym done),
        ap (λ (r : Progress). r.canonical) (sym done),
        subst (IsCounted copies) done (
          sum
              ∙ ap (λ k. k + length payload.bytes) counted
              ∙ sym (length-concat-append p.pages payload.bytes),
          fits-some n copies small,
        ),
      )

  -- The loop adds one page for each artifact, in their order.
  prepare_artifacts_lem :
      (copies : ℕ) (profile : DeviceProfile) (p q : Progress) (artifacts : List Artifact)
      → IsCounted copies p
      → prepare_artifacts parse json_copies decode sha256 request_hash copies profile p artifacts
        ≡ ok q
      → (pages : List Bytes) × Each (IsPage profile copies) artifacts pages
        × (q.pages ≡ p.pages ++ pages)
        × (q.canonical ≡ p.canonical ++ map canonical_artifact artifacts)
        × IsCounted copies q
  unfolding prepare_artifacts
  prepare_artifacts_lem copies profile p q [] c h =
      let same = ok-injective h in
      (
        [],
        tt,
        ap (λ (r : Progress). r.pages) (sym same) ∙ sym (append-nil p.pages),
        ap (λ (r : Progress). r.canonical) (sym same) ∙ sym (append-nil p.canonical),
        subst (IsCounted copies) same c,
      )
  prepare_artifacts_lem copies profile p q (artifact ∷ artifacts) c h =
      let round =
        prepare_artifact parse json_copies decode sha256 request_hash copies profile p artifact in
      let (next, first, h1) = bind-ok round _ q h in
      let (page, is_page, grown, listed, c1) =
        prepare_artifact_lem copies profile p next artifact c first in
      let (pages, are_pages, rest, more, c2) =
        prepare_artifacts_lem copies profile next q artifacts c1 h1 in
      (
        page ∷ pages,
        (is_page, are_pages),
        rest ∙ ap (λ l. l ++ pages) grown ∙ append_assoc p.pages (page ∷ []) pages,
        more
            ∙ ap (λ l. l ++ map canonical_artifact artifacts) listed
            ∙ append_assoc p.canonical (canonical_artifact artifact ∷ [])
                (map canonical_artifact artifacts),
        c2,
      )

  -- An accepted job has 1 to 999 copies of 1 to 100 pages, one for each artifact in their order, each
  -- made from a source of at most 4 MiB with the announced digest and type. A raster page asks for one
  -- copy, and a native page of a job with more than one copy has no ^PQ above 1. The job's bytes are all
  -- pages, as often as there are copies, and no more than 8 MiB; its labels are counted as pages times
  -- copies; and its digest is that of the printer, the copies, the media revision, the reprint, the
  -- options, and the type and the digest of each artifact, in their order.
  pub prepare_job_lem :
      (printer_id : String) (request : SubmitJob) (profile : DeviceProfile) (job : PreparedJob)
      → prepare_job parse json_copies decode sha256 request_hash printer_id request profile ≡ ok job
      → (pages : List Bytes) × Each (IsPage profile request.copies) request.artifacts pages
        × (job.bytes ≡ collate request.copies pages)
        × (length job.bytes ≤ max_job_bytes)
        × (job.label_count ≡ length request.artifacts * request.copies)
        × (job.request_hash
            ≡ request_hash
                (canonical_request printer_id request (map canonical_artifact request.artifacts)))
        × ((1 ≤ request.copies) × (request.copies ≤ 999))
        × ((1 ≤ length request.artifacts) × (length request.artifacts ≤ max_artifacts))
  unfolding prepare_job check_request
  prepare_job_lem printer_id request profile job h =
      let (checked, h1) = then-ok (check_request request) _ job h in
      let loop =
        prepare_artifacts parse json_copies decode sha256 request_hash request.copies profile
          (nothing_yet parse json_copies decode sha256 request_hash) request.artifacts in
      let (q, looped, h2) = bind-ok loop _ job h1 in
      let done = ok-injective h2 in
      let (pages, each, all_pages, listed, counts) =
        prepare_artifacts_lem request.copies profile
          (nothing_yet parse json_copies decode sha256 request_hash) q request.artifacts
          (refl, omega arith) looped in
      let ranges = check_request-ok request checked in
      let bytes = ap (λ (j : PreparedJob). j.bytes) (sym done) in
      (
        pages,
        each,
        bytes ∙ ap (collate request.copies) all_pages,
        subst (λ n. n ≤ max_job_bytes)
            (ap (λ n. n * request.copies) counts.0
              ∙ mul_comm _ request.copies
              ∙ sym (ap length bytes ∙ length-collate request.copies q.pages))
            counts.1,
        ap (λ (j : PreparedJob). j.label_count) (sym done),
        ap (λ (j : PreparedJob). j.request_hash) (sym done)
            ∙ ap request_hash (ap (λ l. canonical_request printer_id request l) listed),
        ranges.0,
        ranges.1,
      )
