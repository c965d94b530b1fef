-- ===== src/Api/Retry.antt =====
-- A request that src/api.rs has accepted, sent again.
use text.Mathlib.TextPositions.{eq_refl}
use zebra_tamer.Prelude.{
  ℕ, ◌≡◌, refl, sym, ap, subst, ◌∙◌, String, Bool, true, Option, none, some, leb, eq_iff, arith,
  Bool-cases, inl, inr,
}
use zebra_tamer.Prelude.Inversion.{some-injective}
use zebra_tamer.Prelude.Text.{Text, Bytes}
use zebra_tamer.Prelude.Result.{ok}
use zebra_tamer.Model.Job.{DateTime, Uuid, Job}
use zebra_tamer.Model.Media.{MediaState, MediaDefinition}
use zebra_tamer.Store.Files.{File, read_if_exists}
use zebra_tamer.Store.State.{PrinterDir}
use zebra_tamer.Store.Jobs.{
  save_job, register_job, find_job_by_idempotency_key, answers_key, count_active_jobs,
}
use zebra_tamer.Store.Printers.{load_media, append_event}
use zebra_tamer.Worker.Process.{StorageMode}
use zebra_tamer.Driver.{RasterPage}
use zebra_tamer.Protocol.{SubmitJob, PreparedJob, CanonicalRequest, prepare_job}
use zebra_tamer.Auth.{Tokens, print}
use zebra_tamer.Api.Agent.{
  Answer, done, problem, Agent, Handle, Handler, continue, ◌>>=◌, or_problem, or_error, bad_request,
  not_found, v2_authorize, internal_error, answer,
}
use zebra_tamer.Api.Create.{
  JobValue, queue_full, revision_changed, v2_job_value, new_job, create_prepared, media_changed,
  v2_create_job, answer_known,
}
use zebra_tamer.Api.Known.{
  create_prepared-known, media_changed-kept, or_problem-done, bad_request-done,
}
use zebra_tamer.Api.Keeps.{IsStable, store_job-keeps}
use zebra_tamer.Api.Limit.{IsFresh}
use zebra_tamer.Api.Entered.{IsEntered, find_job-append, problem-done, store_job-IsEntered}
use zebra_tamer.Api.Steps.{media_of, profile_of, persist_v2_payload-IsAlike, enqueue-alike}

-- Media and profiles are as they were.
abbrev IsSteady : Agent → Agent → Type 0
IsSteady s t =
    ((k : String) → media_of t k ≡ media_of s k)
    × ((k : String) → profile_of (t.workers k) ≡ profile_of (s.workers k))

IsSteady-IsStable :
    (bytes_json : ℕ → String) (storage : StorageMode) (id : Uuid) (printer : String) (s : Agent)
    → IsStable bytes_json storage id printer (IsSteady s)
unfolding save_job register_job append_event
IsSteady-IsStable bytes_json storage id printer s = record {
  saved = λ job t own at h. h;
  registered = λ t h. h;
  announced = λ event t h. h;
  persisted = λ t h. (
    λ k.
        ap (λ (p : String → PrinterDir). (p k).media)
          (persist_v2_payload-IsAlike id t.store).printers
        ∙ h.0 k,
    h.1,
  );
  sent = λ now w t h.
      let same = enqueue-alike bytes_json now storage printer id w t in
      (λ k. same.1 k ∙ h.0 k, λ k. same.2 k ∙ h.1 k);
}

-- A worker with the same profile.
profile_of-some :
    (o : Option Handle) (h : Handle)
    → profile_of o ≡ some h.profile
    → (h' : Handle) × (o ≡ some h') × (h'.profile ≡ h.profile)
profile_of-some none h e = cc
profile_of-some (some h') h e = (h', refl, some-injective e)

-- The steps of an accepted request.
continue-runs :
    {A B : Type 0} (r : Answer A) (next : A → Handler B) (s s' : Agent) (b : B)
    → continue r next s ≡ (done b, s')
    → (a : A) × (r ≡ done a) × (next a s ≡ (done b, s'))
continue-runs (done a) next s s' b h = (a, refl, h)
continue-runs {B = B} (problem e) next s s' b h =
    absurd (problem-done e b (ap (λ (p : Answer B × Agent). p.0) h))

bind-runs :
    {A B : Type 0} (action : Handler A) (next : A → Handler B) (s s' : Agent) (b : B)
    → (action s).1 ≡ s
    → (action >>= next) s ≡ (done b, s')
    → (a : A) × ((action s).0 ≡ done a) × (next a s ≡ (done b, s'))
bind-runs action next s s' b kept h =
    continue-runs (action s).0 next s s' b
      (subst (λ t. continue (action s).0 next t ≡ (done b, s')) kept h)

-- A step that is done and does not change the agent.
bind-forward :
    {A B : Type 0} (action : Handler A) (next : A → Handler B) (s : Agent) (a : A)
    → (action s).0 ≡ done a
    → (action s).1 ≡ s
    → (action >>= next) s ≡ next a s
bind-forward action next s a e kept =
    ap (λ t. continue (action s).0 next t) kept ∙ ap (λ r. continue r next s) e

answer_known-same :
    (printer_id request_hash : String) (job : Job)
    → job.printer_id ≡ printer_id
    → job.sha256 ≡ some request_hash
    → answer_known printer_id request_hash job ≡ done (v2_job_value job)
unfolding answer_known
answer_known-same printer_id request_hash job own digest =
    ground (arith, eq_iff job.printer_id printer_id, eq_refl request_hash)

answers_key-same :
    (key : String) (job : Job) (h : String)
    → job.idempotency_key ≡ some key
    → job.sha256 ≡ some h
    → answers_key key none job ≡ true
answers_key-same key job h own digest = ground (arith, eq_refl key)

-- A step that only computes gives the same anywhere.
anywhere :
    {A B : Type 0} (r : Answer A) (f : A → B) (s t : Agent)
    → (continue r (λ a. answer (done (f a))) s).0 ≡ (continue r (λ a. answer (done (f a))) t).0
anywhere (done a) f s t = refl
anywhere (problem e) f s t = refl

module _ (parse : Bytes → Option RasterPage) (json_copies : Bytes → Option (Option ℕ))
    (decode : Text → Option Bytes) (sha256 : Bytes → Text)
    (request_hash : CanonicalRequest → String) (digest : DateTime → MediaDefinition → String)
    (bytes_json : ℕ → String) (queued_json : ℕ → Bool → String) (config : Tokens) (max_active : ℕ)
    (storage : StorageMode) where
  media_changed-same :
      (printer_id : String) (revision : Option String) (s t : Agent)
      → media_of t printer_id ≡ media_of s printer_id
      → (media_changed parse json_copies decode sha256 request_hash digest bytes_json queued_json
          config max_active storage printer_id revision t).0
        ≡ (media_changed parse json_copies decode sha256 request_hash digest bytes_json queued_json
            config max_active storage printer_id revision s).0
  unfolding media_changed load_media
  media_changed-same printer_id none s t e = refl
  media_changed-same printer_id (some expected) s t e =
      let loaded : File MediaState → Answer (Option MediaState) =
        λ file. or_error internal_error (read_if_exists file) in
      let seen =
        revision_changed parse json_copies decode sha256 request_hash digest bytes_json queued_json
          config max_active storage (some expected) in
      anywhere (loaded (media_of t printer_id)) seen t s
      ∙ ap (λ file. (continue (loaded file) (λ media. answer (done (seen media))) s).0) e

  create_prepared-IsEntered :
      (now : DateTime) (id : Uuid) (printer_id : String) (request : SubmitJob)
      (prepared : PreparedJob) (changed : Bool) (h : Handle) (s : Agent) (v : JobValue) (s' : Agent)
      → IsFresh id s.store.jobs
      → find_job_by_idempotency_key request.idempotency_key none s.store.jobs ≡ none
      → create_prepared parse json_copies decode sha256 request_hash digest bytes_json queued_json
          config max_active storage now id printer_id request prepared changed h s
        ≡ (done v, s')
      → IsEntered parse json_copies decode sha256 request_hash digest bytes_json queued_json config
          max_active storage
          (new_job now id printer_id request prepared)
          s.store.jobs
          v
          s'
        × IsSteady s s'
  unfolding create_prepared
  create_prepared-IsEntered now id printer_id request prepared changed h s v s' fresh unknown run =
      elim (Bool-cases (leb max_active (count_active_jobs printer_id s.store.jobs))) [
        | inl crowded ↦
            let refused = rw (unknown, crowded, create_prepared) at run in
            absurd (problem-done queue_full v (ap (λ (p : Answer JobValue × Agent). p.0) refused))
        | inr room ↦
            let job = new_job now id printer_id request prepared in
            let stored = rw (unknown, room, create_prepared) at run in
            (
              store_job-IsEntered parse json_copies decode sha256 request_hash digest bytes_json
                  queued_json config max_active storage now changed job h s v s' fresh stored,
              subst (IsSteady s) (ap (λ (p : Answer JobValue × Agent). p.1) stored) (
                  store_job-keeps parse json_copies decode sha256 request_hash digest bytes_json
                    queued_json config max_active storage (IsSteady s) now changed job h s
                    (IsSteady-IsStable bytes_json storage id printer_id s) (λ k. refl, λ k. refl)),
            )
      ]

  -- The same request on an agent where the job is on file is answered alike and changes nothing.
  again :
      (now : DateTime) (id : Uuid) (header : Option Bytes) (printer_id : String)
      (request : SubmitJob) (h : Handle) (changed : Bool) (prepared : PreparedJob) (final : Job)
      (t : Agent)
      → v2_authorize config header print ≡ done tt
      → t.workers printer_id ≡ some h
      → (media_changed parse json_copies decode sha256 request_hash digest bytes_json queued_json
          config max_active storage printer_id request.media_revision t).0
        ≡ done changed
      → prepare_job parse json_copies decode sha256 request_hash printer_id request h.profile
        ≡ ok prepared
      → find_job_by_idempotency_key request.idempotency_key none t.store.jobs ≡ some final
      → answer_known printer_id prepared.request_hash final ≡ done (v2_job_value final)
      → v2_create_job parse json_copies decode sha256 request_hash digest bytes_json queued_json
          config max_active storage now id header printer_id request t
        ≡ (done (v2_job_value final), t)
  unfolding v2_create_job
  again now id header printer_id request h changed prepared final t opened found asked made known
        same =
      let kept =
        media_changed-kept parse json_copies decode sha256 request_hash digest bytes_json
          queued_json config max_active storage printer_id request.media_revision t in
      rw (opened, found)
        (bind-forward
            (media_changed parse json_copies decode sha256 request_hash digest bytes_json
              queued_json config max_active storage printer_id request.media_revision)
            _ t changed asked kept
          ∙ ap
              (λ r.
                continue (or_error bad_request r)
                  (λ p.
                    create_prepared parse json_copies decode sha256 request_hash digest bytes_json
                      queued_json config max_active storage now id printer_id request p changed h)
                  t)
              made
          ∙ create_prepared-known parse json_copies decode sha256 request_hash digest bytes_json
              queued_json config max_active storage now id printer_id request prepared changed h t
              final known
          ∙ ap (λ a. (a, t)) same)

  -- An accepted request whose key was unknown and whose new id was fresh, sent again with the same
  -- token before anything else happens, gets the same answer, and the agent stays as it is.
  pub v2_create_job-again :
      (now now' : DateTime) (id id' : Uuid) (header : Option Bytes) (printer_id : String)
      (request : SubmitJob) (s s' : Agent) (v : JobValue)
      → IsFresh id s.store.jobs
      → find_job_by_idempotency_key request.idempotency_key none s.store.jobs ≡ none
      → v2_create_job parse json_copies decode sha256 request_hash digest bytes_json queued_json
          config max_active storage now id header printer_id request s
        ≡ (done v, s')
      → v2_create_job parse json_copies decode sha256 request_hash digest bytes_json queued_json
          config max_active storage now' id' header printer_id request s'
        ≡ (done v, s')
  unfolding v2_create_job
  v2_create_job-again now now' id id' header printer_id request s s' v fresh unknown run =
      let asking =
        media_changed parse json_copies decode sha256 request_hash digest bytes_json queued_json
          config max_active storage printer_id request.media_revision in
      let (_, opened, run1) = continue-runs (v2_authorize config header print) _ s s' v run in
      let (h, found, run2) =
        continue-runs (or_problem (s.workers printer_id) (not_found "printer_not_found")) _ s s' v
          run1 in
      let (changed, asked, run3) =
        bind-runs asking _ s s' v
          (media_changed-kept parse json_copies decode sha256 request_hash digest bytes_json
            queued_json config max_active storage printer_id request.media_revision s)
          run2 in
      let (prepared, made, run4) =
        continue-runs
          (or_error bad_request
            (prepare_job parse json_copies decode sha256 request_hash printer_id request h.profile))
          _ s s' v run3 in
      let (e, steady) =
        create_prepared-IsEntered now id printer_id request prepared changed h s v s' fresh unknown
          run4 in
      let had = or_problem-done (s.workers printer_id) _ h found in
      let (h', still, profile) =
        profile_of-some (s'.workers printer_id) h (steady.1 printer_id ∙ ap profile_of had) in
      let on_file =
        ap (find_job_by_idempotency_key request.idempotency_key none) e.filed
        ∙ find_job-append request.idempotency_key s.store.jobs id e.final unknown (
            answers_key-same request.idempotency_key e.final prepared.request_hash e.same_key
              e.same_digest) in
      again now' id' header printer_id request h' changed prepared e.final s' opened still
        (media_changed-same printer_id request.media_revision s s' (steady.0 printer_id) ∙ asked)
        (ap (λ p. prepare_job parse json_copies decode sha256 request_hash printer_id request p)
            profile
          ∙ bad_request-done _ prepared made)
        on_file
        (answer_known-same printer_id prepared.request_hash e.final e.same_printer e.same_digest)
      ∙ ap (λ w. (done w, s')) (sym e.shown)
