-- ===== src/Legacy/Received.antt =====
-- The upload of `create_job` (src/api.rs), step by step, when no write fails.
use zebra_tamer.Prelude.{
  ℕ, ◌≡◌, refl, ap, ◌∙◌, ==_iff, Option, List, [], ◌∷◌, ◌++◌, length, ltb, Bool-cases, inl, inr,
}
use zebra_tamer.Prelude.Words.{saturating_add}
use zebra_tamer.Prelude.Text.{Text, Bytes, text_eq}
use zebra_tamer.Prelude.Result.{Result, ok, err}
use zebra_tamer.Prelude.Exec.{Exec, lift}
use zebra_tamer.Model.Job.{DateTime, Uuid, Job}
use zebra_tamer.Store.State.{Store, tail_outcomes, head_outcome}
use zebra_tamer.Store.Files.{File, holds, fine, reply}
use zebra_tamer.Store.Jobs.{
  JobDir, remove_unregistered_job, remove_job_file, remove_payload, remove_spool, drop_job,
}
use zebra_tamer.Driver.{RasterPage, DeviceProfile, PreparedPayload}
use zebra_tamer.Driver.Payload.{prepare_zebra_payload, zpl_mime}
use zebra_tamer.Api.Agent.{done, Agent, Handler, answer, ◌>>=◌, ◌>>◌}
use zebra_tamer.Api.Payload.{create_part, unseen, rename_part}
use zebra_tamer.Api.Limit.{IsFresh}
use zebra_tamer.Legacy.{Frame, chunk, broken, job_too_large}
use zebra_tamer.Legacy.Upload.{
  Received, Payload, grown, keep_converted, convert_read, place, store_received, receive_body,
  read_back, convert, payload_of, upload, or_fail, after_step, converted,
}
use zebra_tamer.Legacy.Goes.{
  Lands, Goes, goes, refused, with_job, IsSmooth, bind-Goes, or_fail-Goes, failed-Goes,
}

pub unseen-IsSmooth : IsSmooth unseen
unseen-IsSmooth dir t h = (
  (tt, ap (λ os. reply (head_outcome os)) h.outcomes),
  record { outcomes = ap tail_outcomes h.outcomes; jobs = h.jobs },
)

create_part-IsSmooth : (id : Uuid) → IsSmooth (create_part id)
create_part-IsSmooth id dir t h = (
  (tt, ap (λ os. reply (head_outcome os)) h.outcomes),
  record { outcomes = ap tail_outcomes h.outcomes; jobs = h.jobs },
)

rename_part-IsSmooth : (id : Uuid) → IsSmooth (rename_part id)
rename_part-IsSmooth id dir t h = (
  (tt, ap (λ os. reply (head_outcome os)) h.outcomes),
  record { outcomes = ap tail_outcomes h.outcomes; jobs = h.jobs },
)

read_back-IsSmooth : (content : Bytes) → IsSmooth (read_back content)
read_back-IsSmooth content dir t h = (
  (content, rw h.outcomes refl),
  record { outcomes = ap tail_outcomes h.outcomes; jobs = h.jobs },
)

drop_job-last :
    (id : Uuid) (f : File Job) (dir : JobDir)
    → IsFresh id dir
    → drop_job fine id (dir ++ ((id, f) ∷ [])) ≡ dir
unfolding drop_job
drop_job-last id f [] h = rw ((==_iff id id).1 refl) refl
drop_job-last id f ((k, g) ∷ dir) (other, h) = rw (other, drop_job-last id f dir h) refl

-- A withdrawal takes the job's file away.
pub remove-Lands :
    (id : Uuid) (job : Job) (dir : JobDir) (t : Store)
    → IsFresh id dir
    → Lands (with_job id job dir) t
    → Lands dir (remove_unregistered_job id t)
unfolding remove_unregistered_job remove_job_file remove_payload remove_spool
remove-Lands id job dir t fresh h = record {
  outcomes = ap (λ os. tail_outcomes (tail_outcomes (tail_outcomes os))) h.outcomes;
  jobs =
      ap (λ os. drop_job (head_outcome os) id t.jobs) h.outcomes
      ∙ ap (drop_job fine id) h.jobs
      ∙ drop_job-last id (holds job) dir fresh;
}

module _ (now : DateTime) (job : Job) (dir : JobDir) (fresh : IsFresh job.id dir) where
  abbrev ReceivedAt : {A : Type 0} → A → Agent → Type 0
  ReceivedAt a s = Lands (with_job job.id job dir) s.store

  receive_body-Goes :
      (max_job_bytes : ℕ) (frames : List Frame) (r : Received) (s : Agent)
      → Lands (with_job job.id job dir) s.store
      → Goes job.id job.printer_id dir ReceivedAt (receive_body max_job_bytes now job frames r s)
  unfolding receive_body or_fail
  receive_body-Goes max_job_bytes [] r s h = goes r refl h
  receive_body-Goes max_job_bytes (broken e ∷ frames) r s h =
      failed-Goes dir now job job e ReceivedAt s fresh h
  receive_body-Goes max_job_bytes (chunk c ∷ frames) r s h =
      elim (Bool-cases (ltb max_job_bytes (saturating_add r.bytes (length c)))) [
        | inl over ↦
            rw (over, receive_body)
              (refused job_too_large refl (remove-Lands job.id job dir s.store fresh h))
        | inr within ↦
            rw (within, receive_body)
              (bind-Goes job.id job.printer_id dir ReceivedAt ReceivedAt (or_fail now job unseen)
                (λ _. receive_body max_job_bytes now job frames (grown c r)) s
                (or_fail-Goes job.id job.printer_id dir (with_job job.id job dir) unseen s now job
                  unseen-IsSmooth h)
                (λ u h'.
                  receive_body-Goes max_job_bytes frames (grown c r) (or_fail now job unseen s).1
                    h'))
      ]

  -- The payload's job is the same job, with its size.
  abbrev pub IsOf : Job → Payload → Type 0
  IsOf job p = (p.job.id ≡ job.id) × (p.job.printer_id ≡ job.printer_id)

  abbrev StoredAt : Payload → Agent → Type 0
  StoredAt p s = IsOf job p × Lands (with_job job.id job dir) s.store

  -- A step that only writes.
  smooth-Goes :
      {A B : Type 0} (T : B → Agent → Type 0) (own : Job) (action : Exec Store A)
      (next : A → Handler B) (s : Agent)
      → IsSmooth action
      → Lands (with_job job.id job dir) s.store
      → ((a : A) (s' : Agent)
          → Lands (with_job job.id job dir) s'.store
          → Goes job.id job.printer_id dir T (next a s'))
      → Goes job.id job.printer_id dir T ((or_fail now own action >>= next) s)
  smooth-Goes T own action next s smooth h k =
      bind-Goes job.id job.printer_id dir ReceivedAt T (or_fail now own action) next s
        (or_fail-Goes job.id job.printer_id dir (with_job job.id job dir) action s now own smooth h)
        (λ a h'. k a (or_fail now own action s).1 h')

  lifted-Goes :
      {A : Type 0} (r : Result A) (s : Agent)
      → Lands (with_job job.id job dir) s.store
      → Goes job.id job.printer_id dir ReceivedAt (or_fail now job (lift r) s)
  unfolding or_fail after_step
  lifted-Goes (ok a) s h = goes a refl h
  lifted-Goes (err e) s h = failed-Goes dir now job job e ReceivedAt s fresh h

  module _ (parse : Bytes → Option RasterPage) (decode : Text → Option Bytes) where
    keep_converted-Goes :
        (prepared : PreparedPayload) (s : Agent)
        → Lands (with_job job.id job dir) s.store
        → Goes job.id job.printer_id dir StoredAt (keep_converted parse decode now job prepared s)
    keep_converted-Goes prepared s h =
        let end : Handler Payload = answer (done (converted job prepared)) in
        let last : Handler Payload = or_fail now job unseen >> end in
        smooth-Goes StoredAt job unseen (λ _. or_fail now job unseen >> last) s unseen-IsSmooth h
          (λ _ s1 h1.
            smooth-Goes StoredAt job unseen (λ _. last) s1 unseen-IsSmooth h1
              (λ _ s2 h2.
                smooth-Goes StoredAt job unseen (λ _. end) s2 unseen-IsSmooth h2
                  (λ _ s3 h3. goes (converted job prepared) refl ((refl, refl), h3))))

    convert-Goes :
        (content_type : Text) (profile : DeviceProfile) (content : Bytes) (s : Agent)
        → Lands (with_job job.id job dir) s.store
        → Goes job.id job.printer_id dir StoredAt
            (convert parse decode now content_type profile job content s)
    unfolding convert
    convert-Goes content_type profile content s h =
        let prepare : Bytes → Handler PreparedPayload = λ source.
          or_fail now job (lift (prepare_zebra_payload parse decode content_type source profile)) in
        smooth-Goes StoredAt job (read_back content)
          (convert_read parse decode now content_type profile job) s (read_back-IsSmooth content) h
          (λ source s1 h1.
            bind-Goes job.id job.printer_id dir ReceivedAt StoredAt (prepare source)
              (keep_converted parse decode now job) s1
              (lifted-Goes (prepare_zebra_payload parse decode content_type source profile) s1 h1)
              (λ prepared h2. keep_converted-Goes prepared (prepare source s1).1 h2))

    payload_of-Goes :
        (content_type : Text) (profile : DeviceProfile) (content : Bytes) (s : Agent)
        → Lands (with_job job.id job dir) s.store
        → Goes job.id job.printer_id dir StoredAt
            (payload_of parse decode now content_type profile job content s)
    unfolding payload_of
    payload_of-Goes content_type profile content s h =
        elim (Bool-cases (text_eq content_type zpl_mime)) [
          | inl zpl ↦ rw (zpl, payload_of) (goes _ refl ((refl, refl), h))
          | inr other ↦ rw (other, payload_of) (convert-Goes content_type profile content s h)
        ]

    abbrev PlacedAt : Received × Payload → Agent → Type 0
    PlacedAt out s = StoredAt out.1 s

    place-Goes :
        (received : Received) (payload : Payload) (s : Agent)
        → StoredAt payload s
        → Goes job.id job.printer_id dir PlacedAt (place parse decode now job.id received payload s)
    place-Goes received payload s h =
        let end : Handler (Received × Payload) = answer (done (received, payload)) in
        let last : Handler (Received × Payload) = or_fail now payload.job unseen >> end in
        smooth-Goes PlacedAt payload.job (rename_part job.id) (λ _. last) s
          (rename_part-IsSmooth job.id) h.1
          (λ _ s1 h1.
            smooth-Goes PlacedAt payload.job unseen (λ _. end) s1 unseen-IsSmooth h1
              (λ _ s2 h2. goes (received, payload) refl (h.0, h2)))

    store_received-Goes :
        (content_type : Text) (profile : DeviceProfile) (received : Received) (s : Agent)
        → Lands (with_job job.id job dir) s.store
        → Goes job.id job.printer_id dir PlacedAt
            (store_received parse decode now content_type profile job received s)
    store_received-Goes content_type profile received s h =
        let pay = payload_of parse decode now content_type profile job received.content in
        let end = place parse decode now job.id received in
        smooth-Goes PlacedAt job unseen (λ _. pay >>= end) s unseen-IsSmooth h
          (λ _ s1 h1.
            bind-Goes job.id job.printer_id dir StoredAt PlacedAt pay end s1
              (payload_of-Goes content_type profile received.content s1 h1)
              (λ payload h2. place-Goes received payload (pay s1).1 h2))

    -- The whole upload.
    pub upload-Goes :
        (max_job_bytes : ℕ) (content_type : Text) (profile : DeviceProfile) (body : List Frame)
        (s : Agent)
        → Lands (with_job job.id job dir) s.store
        → Goes job.id job.printer_id dir PlacedAt
            (upload parse decode now max_job_bytes content_type profile job body s)
    unfolding upload
    upload-Goes max_job_bytes content_type profile body s h =
        let start : Received = record { bytes = 0; content = [] } in
        let receive = receive_body max_job_bytes now job body start in
        let keep = store_received parse decode now content_type profile job in
        smooth-Goes PlacedAt job (create_part job.id) (λ _. receive >>= keep) s
          (create_part-IsSmooth job.id) h
          (λ _ s1 h1.
            bind-Goes job.id job.printer_id dir ReceivedAt PlacedAt receive keep s1
              (receive_body-Goes max_job_bytes body start s1 h1)
              (λ received h2. store_received-Goes content_type profile received (receive s1).1 h2))
