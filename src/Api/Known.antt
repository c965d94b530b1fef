-- ===== src/Api/Known.antt =====
-- What the handlers of src/api.rs make of an idempotency key that a job already has.
use zebra_tamer.Prelude.{
  ℕ, String, ◌≡◌, refl, sym, ap, subst, ◌∙◌, Bool, true, Option, none, some, Bool-cases, inl, inr,
  eq_iff, arith,
}
use zebra_tamer.Prelude.Text.{Text, Bytes}
use zebra_tamer.Prelude.Result.{Result, ok, err}
use zebra_tamer.Model.Job.{DateTime, Uuid, Job}
use zebra_tamer.Model.Media.{MediaDefinition}
use zebra_tamer.Store.Jobs.{find_job_by_idempotency_key}
use zebra_tamer.Store.Printers.{load_media}
use zebra_tamer.Driver.{RasterPage}
use zebra_tamer.Protocol.{SubmitJob, PreparedJob, CanonicalRequest, prepare_job}
use zebra_tamer.Auth.{Tokens, print}
use zebra_tamer.Worker.Process.{StorageMode}
use zebra_tamer.Api.Agent.{
  V2Error, Answer, done, problem, Agent, Handle, Handler, or_error, or_problem, bad_request,
  not_found, v2_authorize, continue, stored, ◌>>=◌,
}
use zebra_tamer.Api.Create.{
  JobValue, v2_job_value, answer_known, is_same_job, is_digest, media_changed, create_prepared,
  v2_create_job,
}

pub done-injective : {A : Type 0} {a b : A} → done a ≡ done b → a ≡ b
done-injective e = cc

-- A handler that is done has done every step.
pub bind-done :
    {A B : Type 0} (r : Answer A) (next : A → Handler B) (s : Agent) (b : B)
    → (continue r next s).0 ≡ done b
    → (a : A) × (r ≡ done a) × ((next a s).0 ≡ done b)
bind-done (done a) next s b h = (a, refl, h)
bind-done (problem e) next s b h = cc

-- A step leaves the agent alone when what follows it does.
pub bind-idle :
    {A B : Type 0} (r : Answer A) (next : A → Handler B) (s : Agent)
    → ((a : A) → (next a s).1 ≡ s)
    → (continue r next s).1 ≡ s
bind-idle (done a) next s h = h a
bind-idle (problem e) next s h = refl

-- The same of a step that does not change the agent.
bind-kept :
    {A B : Type 0} (action : Handler A) (next : A → Handler B) (s : Agent)
    → (action s).1 ≡ s
    → ((a : A) → (next a s).1 ≡ s)
    → ((action >>= next) s).1 ≡ s
bind-kept action next s kept h =
    subst (λ t. (continue (action s).0 next t).1 ≡ s) (sym kept) (bind-idle (action s).0 next s h)

pub bind-done_kept :
    {A B : Type 0} (action : Handler A) (next : A → Handler B) (s : Agent) (b : B)
    → (action s).1 ≡ s
    → ((action >>= next) s).0 ≡ done b
    → (a : A) × ((action s).0 ≡ done a) × ((next a s).0 ≡ done b)
bind-done_kept action next s b kept h =
    bind-done (action s).0 next s b (subst (λ t. (continue (action s).0 next t).0 ≡ done b) kept h)

pub or_problem-done :
    {A : Type 0} (o : Option A) (e : V2Error) (a : A) → or_problem o e ≡ done a → o ≡ some a
or_problem-done (some b) e a h = ap (λ x. some x) (done-injective h)
or_problem-done none e a h = cc

pub bad_request-done :
    {A : Type 0} (r : Result A) (a : A) → or_error bad_request r ≡ done a → r ≡ ok a
bad_request-done (ok b) a h = ap (λ x. ok x) (done-injective h)
bad_request-done (err e) a h = cc

is_digest-some : (d : Option String) (h : String) → is_digest d h ≡ true → d ≡ some h
is_digest-some none h e = cc
is_digest-some (some d) h e = ap (λ x. some x) ((eq_iff d h).0 e)

answer_known-done :
    (printer_id request_hash : String) (existing : Job) (v : JobValue)
    → answer_known printer_id request_hash existing ≡ done v
    → (v ≡ v2_job_value existing)
      × (existing.printer_id ≡ printer_id)
      × (existing.sha256 ≡ some request_hash)
unfolding answer_known
answer_known-done printer_id request_hash existing v h =
    elim (Bool-cases (is_same_job printer_id request_hash existing)) [
      | inl e ↦ ground (
        arith,
        eq_iff existing.printer_id printer_id,
        is_digest-some existing.sha256 request_hash,
      )
      | inr e ↦ ground arith
    ]

module _ (parse : Bytes → Option RasterPage) (json_copies : Bytes → Option (Option ℕ))
    (decode : Text → Option Bytes) (sha256 : Bytes → Text)
    (request_hash : CanonicalRequest → String) (digest : DateTime → MediaDefinition → String)
    (bytes_json : ℕ → String) (queued_json : ℕ → Bool → String) (config : Tokens) (max_active : ℕ)
    (storage : StorageMode) where
  pub media_changed-kept :
      (printer_id : String) (revision : Option String) (s : Agent)
      → (media_changed parse json_copies decode sha256 request_hash digest bytes_json queued_json
          config max_active storage printer_id revision s).1
        ≡ s
  unfolding media_changed load_media
  media_changed-kept printer_id none s = refl
  media_changed-kept printer_id (some expected) s =
      bind-kept (stored (load_media printer_id)) _ s refl (λ media. refl)

  pub create_prepared-known :
      (now : DateTime) (id : Uuid) (printer_id : String) (request : SubmitJob)
      (prepared : PreparedJob) (changed : Bool) (h : Handle) (s : Agent) (existing : Job)
      → find_job_by_idempotency_key request.idempotency_key none s.store.jobs ≡ some existing
      → create_prepared parse json_copies decode sha256 request_hash digest bytes_json queued_json
          config max_active storage now id printer_id request prepared changed h s
        ≡ (answer_known printer_id prepared.request_hash existing, s)
  unfolding create_prepared
  create_prepared-known now id printer_id request prepared changed h s existing known =
      rw (known, create_prepared) refl

  -- A key that is known changes nothing: the agent stays as it was, on every branch. If the request is
  -- accepted all the same, it is answered with the job that has the key, which is one for the same
  -- printer, with the digest of this very request.
  pub v2_create_job-known :
      (now : DateTime) (id : Uuid) (header : Option Bytes) (printer_id : String)
      (request : SubmitJob) (s : Agent) (existing : Job)
      → find_job_by_idempotency_key request.idempotency_key none s.store.jobs ≡ some existing
      → let (r, s') =
          v2_create_job parse json_copies decode sha256 request_hash digest bytes_json queued_json
            config max_active storage now id header printer_id request s in
        (s' ≡ s)
        × ((v : JobValue)
            → r ≡ done v
            → (v ≡ v2_job_value existing)
              × (existing.printer_id ≡ printer_id)
              × (h : Handle) × (prepared : PreparedJob) × (s.workers printer_id ≡ some h)
              × (prepare_job parse json_copies decode sha256 request_hash printer_id request
                    h.profile
                  ≡ ok prepared)
              × (existing.sha256 ≡ some prepared.request_hash))
  unfolding v2_create_job
  v2_create_job-known now id header printer_id request s existing known = (
    bind-idle (v2_authorize config header print) _ s (λ _.
        bind-idle (or_problem (s.workers printer_id) (not_found "printer_not_found")) _ s (λ h.
          bind-kept
            (media_changed parse json_copies decode sha256 request_hash digest bytes_json
              queued_json config max_active storage printer_id request.media_revision)
            _ s (media_changed-kept printer_id request.media_revision s)
            (λ changed.
              bind-idle
                (or_error bad_request (
                  prepare_job parse json_copies decode sha256 request_hash printer_id request
                    h.profile))
                _ s
                (λ prepared.
                  ap (λ (r : Answer JobValue × Agent). r.1)
                    (create_prepared-known now id printer_id request prepared changed h s existing
                      known))))),
    λ v h.
        let (_, _, h1) = bind-done (v2_authorize config header print) _ s v h in
        let (handle, found, h2) =
          bind-done (or_problem (s.workers printer_id) (not_found "printer_not_found")) _ s v h1 in
        let (changed, _, h3) =
          bind-done_kept
            (media_changed parse json_copies decode sha256 request_hash digest bytes_json
              queued_json config max_active storage printer_id request.media_revision)
            _ s v (media_changed-kept printer_id request.media_revision s) h2 in
        let (prepared, made, h4) =
          bind-done
            (or_error bad_request (
              prepare_job parse json_copies decode sha256 request_hash printer_id request
                handle.profile))
            _ s v h3 in
        let answered = answer_known-done printer_id prepared.request_hash existing v (
          ap (λ (r : Answer JobValue × Agent). r.0)
            (sym (
              create_prepared-known now id printer_id request prepared changed handle s existing
                known))
          ∙ h4) in
        (
          answered.0,
          answered.1,
          handle,
          prepared,
          or_problem-done (s.workers printer_id) _ handle found,
          bad_request-done _ prepared made,
          answered.2,
        ),
  )
