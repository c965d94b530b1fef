-- ===== src/Api/Limit.antt =====
-- The limit on the waiting jobs of a printer, which src/api.rs enforces over src/persist.rs.
use mathlib.Core.List.{append-nil}
use zebra_tamer.Prelude.{
  ℕ, ◌+◌, ◌≤◌, ◌<◌, ◌≡◌, ◌≢◌, refl, sym, ap, subst, ◌∙◌, ◌⊎◌, inl, inr, String, Bool, false, Option,
  none, [], ◌∷◌, ◌++◌, All, leb, ◌==◌, ==_iff, eq_iff, arith, Bool-cases, Option-cases,
}
use zebra_tamer.Prelude.Text.{Text, Bytes}
use zebra_tamer.Model.Job.{DateTime, Uuid, Job}
use zebra_tamer.Model.Media.{MediaDefinition}
use zebra_tamer.Store.Files.{
  File, absent, corrupt, holds, Outcome, fine, refused, torn, unterminated, late, put_file,
}
use zebra_tamer.Store.State.{head_outcome}
use zebra_tamer.Store.Jobs.{
  JobDir, put_job, save_job, find_job_by_idempotency_key, count_active_jobs, register_job,
}
use zebra_tamer.Store.Printers.{append_event}
use zebra_tamer.Worker.Process.{StorageMode}
use zebra_tamer.Driver.{RasterPage}
use zebra_tamer.Protocol.{SubmitJob, PreparedJob, CanonicalRequest, prepare_job}
use zebra_tamer.Auth.{Tokens, print}
use zebra_tamer.Api.Agent.{
  Agent, Handle, v2_authorize, or_problem, or_error, not_found, bad_request,
}
use zebra_tamer.Api.Keeps.{IsStable, store_job-keeps, continue-keeps, bind-keeps}
use zebra_tamer.Api.Steps.{persist_v2_payload-IsAlike, enqueue-alike}
use zebra_tamer.Api.Create.{JobValue, create_prepared, new_job, v2_create_job, media_changed}
use zebra_tamer.Api.Known.{media_changed-kept}

-- No entry of the directory has the id.
abbrev pub IsFresh : Uuid → JobDir → Type 0
IsFresh id dir = All (λ (e : Uuid × File Job). (e.0 == id) ≡ false) dir

-- The directory, or with one job of the printer more, under the id and at the end.
abbrev pub IsEntry : Uuid → String → JobDir → JobDir → Type 0
IsEntry id printer dir dir' =
    (dir' ≡ dir)
    ⊎ ((job : Job) × (job.printer_id ≡ printer) × (dir' ≡ dir ++ ((id, holds job) ∷ [])))

pub put_job-fresh :
    (o : Outcome) (job : Job) (dir : JobDir)
    → IsFresh job.id dir
    → put_job o job dir ≡ dir ++ put_job o job []
unfolding put_job
put_job-fresh o job [] h = refl
put_job-fresh o job ((k, f) ∷ dir) (other, h) = rw (other, put_job-fresh o job dir h) refl

pub put_job-last :
    (o : Outcome) (job : Job) (f : File Job) (dir : JobDir)
    → IsFresh job.id dir
    → put_job o job (dir ++ ((job.id, f) ∷ [])) ≡ dir ++ ((job.id, put_file o job f) ∷ [])
unfolding put_job
put_job-last o job f [] h = rw ((==_iff job.id job.id).1 refl) refl
put_job-last o job f ((k, g) ∷ dir) (other, h) = rw (other, put_job-last o job f dir h) refl

put_job-new : (o : Outcome) (job : Job) → IsEntry job.id job.printer_id [] (put_job o job [])
unfolding put_job
put_job-new fine job = inr (job, refl, refl)
put_job-new late job = inr (job, refl, refl)
put_job-new refused job = inl refl
put_job-new torn job = inl refl
put_job-new unterminated job = inl refl

put_file-held :
    (o : Outcome) (job old : Job)
    → (put_file o job (holds old) ≡ holds job) ⊎ (put_file o job (holds old) ≡ holds old)
put_file-held fine job old = inl refl
put_file-held late job old = inl refl
put_file-held refused job old = inr refl
put_file-held torn job old = inr refl
put_file-held unterminated job old = inr refl

put_job-IsEntry :
    (o : Outcome) (job : Job) (dir dir' : JobDir)
    → IsFresh job.id dir
    → IsEntry job.id job.printer_id dir dir'
    → IsEntry job.id job.printer_id dir (put_job o job dir')
put_job-IsEntry o job dir dir' fresh (inl same) =
    let grown = ap (put_job o job) same ∙ put_job-fresh o job dir fresh in
    elim (put_job-new o job) [
      | inl e ↦ inl (grown ∙ ap (λ l. dir ++ l) e ∙ append-nil dir)
      | inr (new, own, e) ↦ inr (new, own, grown ∙ ap (λ l. dir ++ l) e)
    ]
put_job-IsEntry o job dir dir' fresh (inr (old, own, e)) =
    let grown = ap (put_job o job) e ∙ put_job-last o job (holds old) dir fresh in
    elim (put_file-held o job old) [
      | inl f ↦ inr (job, refl, grown ∙ ap (λ g. dir ++ ((job.id, g) ∷ [])) f)
      | inr f ↦ inr (old, own, grown ∙ ap (λ g. dir ++ ((job.id, g) ∷ [])) f)
    ]

put_job-IsEntry_at :
    (o : Outcome) (job : Job) (id : Uuid) (printer : String) (dir dir' : JobDir)
    → job.id ≡ id
    → job.printer_id ≡ printer
    → IsFresh id dir
    → IsEntry id printer dir dir'
    → IsEntry id printer dir (put_job o job dir')
put_job-IsEntry_at o job id printer dir dir' own at =
    subst
      (λ i. IsFresh i dir → IsEntry i printer dir dir' → IsEntry i printer dir (put_job o job dir'))
      own
      (subst
        (λ q.
          IsFresh job.id dir
          → IsEntry job.id q dir dir'
          → IsEntry job.id q dir (put_job o job dir'))
        at (put_job-IsEntry o job dir dir'))

pub count_active_jobs-append :
    (printer : String) (dir dir' : JobDir)
    → count_active_jobs printer (dir ++ dir')
      ≡ count_active_jobs printer dir + count_active_jobs printer dir'
unfolding count_active_jobs
count_active_jobs-append printer [] dir' = omega arith
count_active_jobs-append printer ((k, absent) ∷ dir) dir' =
    count_active_jobs-append printer dir dir'
count_active_jobs-append printer ((k, corrupt) ∷ dir) dir' =
    count_active_jobs-append printer dir dir'
count_active_jobs-append printer ((k, holds job) ∷ dir) dir' =
    ground (arith, count_active_jobs-append printer dir dir')

count_active_jobs-one :
    (printer : String) (id : Uuid) (job : Job)
    → (count_active_jobs printer ((id, holds job) ∷ []) ≤ 1)
      × (job.printer_id ≢ printer → count_active_jobs printer ((id, holds job) ∷ []) ≡ 0)
unfolding count_active_jobs
count_active_jobs-one printer id job =
    (ground arith, λ other. ground (arith, other, eq_iff job.printer_id printer))

-- One job of a printer more: its count grows by one at most, and that of the others not at all.
pub IsEntry-count :
    (id : Uuid) (printer : String) (dir dir' : JobDir)
    → IsEntry id printer dir dir'
    → (count_active_jobs printer dir' ≤ count_active_jobs printer dir + 1)
      × ((other : String)
          → printer ≢ other
          → count_active_jobs other dir' ≡ count_active_jobs other dir)
IsEntry-count id printer dir dir' (inl e) =
    (rw e (omega arith), λ other _. ap (count_active_jobs other) e)
IsEntry-count id printer dir dir' (inr (job, own, e)) =
    let new : JobDir = (id, holds job) ∷ [] in
    (
      omega (
        arith,
        ap (count_active_jobs printer) e,
        count_active_jobs-append printer dir new,
        (count_active_jobs-one printer id job).0,
      ),
      λ other differs.
          let none_of = (count_active_jobs-one other id job).1 (λ same. differs (sym own ∙ same)) in
          omega (
            arith,
            ap (count_active_jobs other) e,
            count_active_jobs-append other dir new,
            none_of,
          ),
    )

-- Storing a job adds its entry, or nothing.
IsEntry-IsStable :
    (bytes_json : ℕ → String) (storage : StorageMode) (id : Uuid) (printer : String) (dir : JobDir)
    → IsFresh id dir
    → IsStable bytes_json storage id printer (λ s. IsEntry id printer dir s.store.jobs)
unfolding save_job register_job append_event
IsEntry-IsStable bytes_json storage id printer dir fresh = record {
  saved = λ job s own at h.
      put_job-IsEntry_at (head_outcome s.store.outcomes) job id printer dir s.store.jobs own at
        fresh h;
  registered = λ s h. h;
  announced = λ event s h. h;
  persisted =
      λ s h. subst (IsEntry id printer dir) (sym (persist_v2_payload-IsAlike id s.store).jobs) h;
  sent = λ now w s h.
      subst (IsEntry id printer dir) (sym (enqueue-alike bytes_json now storage printer id w s).0)
        h;
}

module _ (parse : Bytes → Option RasterPage) (json_copies : Bytes → Option (Option ℕ))
    (decode : Text → Option Bytes) (sha256 : Bytes → Text)
    (request_hash : CanonicalRequest → String) (digest : DateTime → MediaDefinition → String)
    (bytes_json : ℕ → String) (queued_json : ℕ → Bool → String) (config : Tokens) (max_active : ℕ)
    (storage : StorageMode) where
  create_prepared-IsEntry :
      (now : DateTime) (id : Uuid) (printer_id : String) (request : SubmitJob)
      (prepared : PreparedJob) (changed : Bool) (h : Handle) (s : Agent)
      → IsFresh id s.store.jobs
      → let s' =
          (create_prepared parse json_copies decode sha256 request_hash digest bytes_json
            queued_json config max_active storage now id printer_id request prepared changed h
            s).1 in
        (s'.store.jobs ≡ s.store.jobs)
        ⊎ ((count_active_jobs printer_id s.store.jobs < max_active)
            × IsEntry id printer_id s.store.jobs s'.store.jobs)
  unfolding create_prepared
  create_prepared-IsEntry now id printer_id request prepared changed h s fresh =
      elim (Option-cases (find_job_by_idempotency_key request.idempotency_key none s.store.jobs)) [
        | inr (existing, known) ↦ rw (known, create_prepared) (inl refl)
        | inl unknown ↦
            elim (Bool-cases (leb max_active (count_active_jobs printer_id s.store.jobs))) [
              | inl crowded ↦ rw (unknown, crowded, create_prepared) (inl refl)
              | inr room ↦
                  rw (unknown, room, create_prepared)
                    (inr (
                      ground arith,
                      store_job-keeps parse json_copies decode sha256 request_hash digest bytes_json
                          queued_json config max_active storage
                          (λ t. IsEntry id printer_id s.store.jobs t.store.jobs) now changed
                          (new_job now id printer_id request prepared) h s
                          (IsEntry-IsStable bytes_json storage id printer_id s.store.jobs fresh)
                          (inl refl),
                    ))
            ]
      ]

  v2_create_job-IsEntry :
      (now : DateTime) (id : Uuid) (header : Option Bytes) (printer_id : String)
      (request : SubmitJob) (s : Agent)
      → IsFresh id s.store.jobs
      → let s' =
          (v2_create_job parse json_copies decode sha256 request_hash digest bytes_json queued_json
            config max_active storage now id header printer_id request s).1 in
        (s'.store.jobs ≡ s.store.jobs)
        ⊎ ((count_active_jobs printer_id s.store.jobs < max_active)
            × IsEntry id printer_id s.store.jobs s'.store.jobs)
  unfolding v2_create_job
  v2_create_job-IsEntry now id header printer_id request s fresh =
      let P : Agent → Type 0 = λ t.
        (t.store.jobs ≡ s.store.jobs)
        ⊎ ((count_active_jobs printer_id s.store.jobs < max_active)
            × IsEntry id printer_id s.store.jobs t.store.jobs) in
      let asked =
        media_changed parse json_copies decode sha256 request_hash digest bytes_json queued_json
          config max_active storage printer_id request.media_revision in
      continue-keeps {B = JobValue} P (v2_authorize config header print) _ s (inl refl) (λ _.
        continue-keeps {B = JobValue} P
          (or_problem (s.workers printer_id) (not_found "printer_not_found")) _ s (inl refl)
          (λ h.
            bind-keeps {B = JobValue} P asked _ s
              (media_changed-kept parse json_copies decode sha256 request_hash digest bytes_json
                queued_json config max_active storage printer_id request.media_revision s)
              (inl refl)
              (λ changed.
                continue-keeps {B = JobValue} P
                  (or_error bad_request (
                    prepare_job parse json_copies decode sha256 request_hash printer_id request
                      h.profile))
                  _ s (inl refl)
                  (λ prepared.
                    create_prepared-IsEntry now id printer_id request prepared changed h s fresh))))

  -- When the id of the new job is fresh: whatever becomes of the request, and whatever its writes and
  -- the worker do, a printer that had no more active jobs than the limit has no more afterwards, and
  -- the other printers have as many as before.
  pub v2_create_job-limit :
      (now : DateTime) (id : Uuid) (header : Option Bytes) (printer_id : String)
      (request : SubmitJob) (s : Agent)
      → IsFresh id s.store.jobs
      → count_active_jobs printer_id s.store.jobs ≤ max_active
      → let s' =
          (v2_create_job parse json_copies decode sha256 request_hash digest bytes_json queued_json
            config max_active storage now id header printer_id request s).1 in
        (count_active_jobs printer_id s'.store.jobs ≤ max_active)
        × ((other : String)
            → printer_id ≢ other
            → count_active_jobs other s'.store.jobs ≡ count_active_jobs other s.store.jobs)
  v2_create_job-limit now id header printer_id request s fresh within =
      elim (v2_create_job-IsEntry now id header printer_id request s fresh) [
        | inl same ↦ (
          subst (λ dir. count_active_jobs printer_id dir ≤ max_active) (sym same) within,
          λ other _. ap (count_active_jobs other) same,
        )
        | inr (room, entry) ↦
            let counts = IsEntry-count id printer_id s.store.jobs _ entry in
            (omega (arith, room, counts.0), counts.1)
      ]
