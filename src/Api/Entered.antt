-- ===== src/Api/Entered.antt =====
-- What src/api.rs leaves of a job that it has accepted.
use zebra_tamer.Prelude.{
  ℕ, ◌≡◌, refl, sym, ap, ◌∙◌, String, Bool, true, false, Option, none, some, [], ◌∷◌, ◌++◌, arith,
}
use zebra_tamer.Prelude.Text.{Text, Bytes}
use zebra_tamer.Prelude.Result.{Result, ok, err}
use zebra_tamer.Prelude.Exec.{Exec}
use zebra_tamer.Model.Job.{DateTime, Uuid, Job}
use zebra_tamer.Model.Media.{MediaDefinition}
use zebra_tamer.Store.Files.{
  absent, corrupt, holds, Outcome, fine, refused, torn, unterminated, late, reply,
}
use zebra_tamer.Store.State.{Store, head_outcome}
use zebra_tamer.Store.Jobs.{
  JobDir, put_job, save_job, register_job, find_job_by_idempotency_key, answers_key,
}
use zebra_tamer.Worker.Process.{StorageMode}
use zebra_tamer.Worker.Queue.{enqueue}
use zebra_tamer.Driver.{RasterPage}
use zebra_tamer.Protocol.{CanonicalRequest}
use zebra_tamer.Auth.{Tokens}
use zebra_tamer.Api.Payload.{persist_v2_payload}
use zebra_tamer.Api.Agent.{
  V2Error, Answer, done, problem, Agent, Handle, Handler, continue, stored, ◌>>=◌, or_error,
  internal_error, send_command,
}
use zebra_tamer.Api.Create.{
  JobValue, queue_unavailable, hand_over, v2_job_value, stored_job, held_job, failed_job, announce,
  enter_job, answer_enqueued, after_payload, store_job,
}
use zebra_tamer.Api.Known.{done-injective}
use zebra_tamer.Api.Keeps.{after_store}
use zebra_tamer.Api.Limit.{IsFresh, put_job-fresh, put_job-last}
use zebra_tamer.Api.Steps.{persist_v2_payload-IsAlike, enqueue-alike}

reply-fine : (o : Outcome) (u : Unit {0}) → reply o ≡ ok u → o ≡ fine
reply-fine fine u h = refl
reply-fine refused u h = cc
reply-fine torn u h = cc
reply-fine unterminated u h = cc
reply-fine late u h = cc

pub problem-done : {A : Type 0} (e : V2Error) (a : A) → problem e ≡ done a → ⊥
problem-done e a h = cc

-- A step of the store that was done, and what follows it.
stored-runs :
    {A B : Type 0} (action : Exec Store A) (next : A → Handler B) (s s' : Agent) (b : B)
    → (stored action >>= next) s ≡ (done b, s')
    → (a : A) × ((action s.store).0 ≡ ok a) × (next a (after_store action s) ≡ (done b, s'))
stored-runs {A} {B} action next s s' b h = go (action s.store).0 h
  where
    go :
        (r : Result A)
        → continue (or_error internal_error r) next (after_store action s) ≡ (done b, s')
        → (a : A) × (r ≡ ok a) × (next a (after_store action s) ≡ (done b, s'))
    go (ok a) e = (a, refl, e)
    go (err x) e = absurd (problem-done (internal_error x) b (ap (λ (p : Answer B × Agent). p.0) e))

pub find_job-append :
    (key : String) (dir : JobDir) (id : Uuid) (job : Job)
    → find_job_by_idempotency_key key none dir ≡ none
    → answers_key key none job ≡ true
    → find_job_by_idempotency_key key none (dir ++ ((id, holds job) ∷ [])) ≡ some job
unfolding find_job_by_idempotency_key
find_job-append key [] id job h k = rw k refl
find_job-append key ((j, absent) ∷ dir) id job h k = find_job-append key dir id job h k
find_job-append key ((j, corrupt) ∷ dir) id job h k = find_job-append key dir id job h k
find_job-append key ((j, holds other) ∷ dir) id job h k =
    ground (arith, find_job-append key dir id job)

-- A job's file that was saved.
saved-fine :
    (job : Job) (s : Store) (u : Unit {0})
    → (save_job job s).0 ≡ ok u
    → (save_job job s).1.jobs ≡ put_job fine job s.jobs
unfolding save_job
saved-fine job s u h = ap (λ o. put_job o job s.jobs) (reply-fine (head_outcome s.outcomes) u h)

-- The first save of a new job, and a save over it.
first_save :
    (job : Job) (dir : JobDir)
    → IsFresh job.id dir
    → put_job fine job dir ≡ dir ++ ((job.id, holds job) ∷ [])
unfolding put_job
first_save job dir fresh = put_job-fresh fine job dir fresh

module _ (parse : Bytes → Option RasterPage) (json_copies : Bytes → Option (Option ℕ))
    (decode : Text → Option Bytes) (sha256 : Bytes → Text)
    (request_hash : CanonicalRequest → String) (digest : DateTime → MediaDefinition → String)
    (bytes_json : ℕ → String) (queued_json : ℕ → Bool → String) (config : Tokens) (max_active : ℕ)
    (storage : StorageMode) where
  -- The file of the job that the answer is about stands behind the others.
  pub record IsEntered (job : Job) (dir : JobDir) (v : JobValue) (s' : Agent) : Type 0 where
    pub final : Job
    pub shown : v ≡ v2_job_value final
    pub filed : s'.store.jobs ≡ dir ++ ((job.id, holds final) ∷ [])
    pub same_printer : final.printer_id ≡ job.printer_id
    pub same_key : final.idempotency_key ≡ job.idempotency_key
    pub same_digest : final.sha256 ≡ job.sha256

  answer_enqueued-ok :
      (now : DateTime) (job : Job) (out : Result (Unit {0}) × Agent) (v : JobValue) (s' : Agent)
      → answer_enqueued parse json_copies decode sha256 request_hash digest bytes_json queued_json
          config max_active storage now job out
        ≡ (done v, s')
      → (v ≡ v2_job_value job) × (s' ≡ out.1)
  unfolding answer_enqueued
  answer_enqueued-ok now job (ok _, s) v s' h = (
    sym (done-injective (ap (λ (p : Answer JobValue × Agent). p.0) h)),
    sym (ap (λ (p : Answer JobValue × Agent). p.1) h),
  )
  answer_enqueued-ok now job (err e, s) v s' h =
      let (_, _, k) = stored-runs (save_job (failed_job now e job)) _ s s' v h in
      absurd (problem-done (queue_unavailable e) v (ap (λ (p : Answer JobValue × Agent). p.0) k))

  hand_over-IsEntered :
      (now : DateTime) (changed : Bool) (job : Job) (h : Handle) (dir : JobDir) (s : Agent)
      (v : JobValue) (s' : Agent)
      → IsFresh job.id dir
      → s.store.jobs ≡ dir ++ ((job.id, holds job) ∷ [])
      → hand_over parse json_copies decode sha256 request_hash digest bytes_json queued_json config
          max_active storage now changed job h s
        ≡ (done v, s')
      → IsEntered job dir v s'
  unfolding hand_over
  hand_over-IsEntered now true job h dir s v s' fresh at run =
      let final = held_job now job in
      let (u, saved, run1) = stored-runs (save_job final) _ s s' v run in
      record {
        final = final;
        shown = sym (done-injective (ap (λ (p : Answer JobValue × Agent). p.0) run1));
        filed =
            ap (λ (p : Answer JobValue × Agent). p.1.store.jobs) (sym run1)
            ∙ saved-fine final s.store u saved
            ∙ ap (put_job fine final) at
            ∙ put_job-last fine final (holds job) dir fresh;
        same_printer = refl;
        same_key = refl;
        same_digest = refl;
      }
  hand_over-IsEntered now false job h dir s v s' fresh at run =
      let sent = send_command bytes_json now storage job.printer_id (enqueue job.id) h.worker s in
      let (shown, after) = answer_enqueued-ok now job sent v s' run in
      record {
        final = job;
        shown = shown;
        filed =
            ap (λ (t : Agent). t.store.jobs) after
            ∙ (enqueue-alike bytes_json now storage job.printer_id job.id h.worker s).0
            ∙ at;
        same_printer = refl;
        same_key = refl;
        same_digest = refl;
      }

  enter_job-IsEntered :
      (now : DateTime) (changed : Bool) (job : Job) (h : Handle) (dir : JobDir) (s : Agent)
      (v : JobValue) (s' : Agent)
      → IsFresh job.id dir
      → s.store.jobs ≡ dir ++ ((job.id, holds job) ∷ [])
      → enter_job parse json_copies decode sha256 request_hash digest bytes_json queued_json config
          max_active storage now changed job h s
        ≡ (done v, s')
      → IsEntered job dir v s'
  unfolding enter_job
  enter_job-IsEntered now changed job h dir s v s' fresh at run =
      let staged = stored_job now changed job in
      let tell =
        announce parse json_copies decode sha256 request_hash digest bytes_json queued_json config
          max_active storage now changed staged in
      let s1 = after_store (save_job staged) s in
      let s2 = after_store (register_job job.id) s1 in
      let s3 = after_store tell s2 in
      let (u, saved, run1) = stored-runs (save_job staged) _ s s' v run in
      let (_, _, run2) = stored-runs (register_job job.id) _ s1 s' v run1 in
      let (_, _, run3) = stored-runs tell _ s2 s' v run2 in
      let filed : s3.store.jobs ≡ dir ++ ((job.id, holds staged) ∷ []) =
        saved-fine staged s.store u saved
        ∙ ap (put_job fine staged) at
        ∙ put_job-last fine staged (holds job) dir fresh in
      let e = hand_over-IsEntered now changed staged h dir s3 v s' fresh filed run3 in
      record {
        final = e.final;
        shown = e.shown;
        filed = e.filed;
        same_printer = e.same_printer;
        same_key = e.same_key;
        same_digest = e.same_digest;
      }

  after_payload-IsEntered :
      (now : DateTime) (changed : Bool) (job : Job) (h : Handle) (dir : JobDir)
      (out : Result (Unit {0}) × Store) (s : Agent) (v : JobValue) (s' : Agent)
      → IsFresh job.id dir
      → out.1.jobs ≡ dir ++ ((job.id, holds job) ∷ [])
      → after_payload parse json_copies decode sha256 request_hash digest bytes_json queued_json
          config max_active storage now changed job h out s
        ≡ (done v, s')
      → IsEntered job dir v s'
  unfolding after_payload
  after_payload-IsEntered now changed job h dir (ok _, store) s v s' fresh at run =
      enter_job-IsEntered now changed job h dir (record s { store = store }) v s' fresh at run
  after_payload-IsEntered now changed job h dir (err e, store) s v s' fresh at run =
      absurd (problem-done (internal_error e) v (ap (λ (p : Answer JobValue × Agent). p.0) run))

  pub store_job-IsEntered :
      (now : DateTime) (changed : Bool) (job : Job) (h : Handle) (s : Agent) (v : JobValue)
      (s' : Agent)
      → IsFresh job.id s.store.jobs
      → store_job parse json_copies decode sha256 request_hash digest bytes_json queued_json config
          max_active storage now changed job h s
        ≡ (done v, s')
      → IsEntered job s.store.jobs v s'
  unfolding store_job
  store_job-IsEntered now changed job h s v s' fresh run =
      let s1 = after_store (save_job job) s in
      let (u, saved, run1) = stored-runs (save_job job) _ s s' v run in
      let filed = saved-fine job s.store u saved ∙ first_save job s.store.jobs fresh in
      after_payload-IsEntered now changed job h s.store.jobs (persist_v2_payload job.id s1.store) s1
        v s' fresh ((persist_v2_payload-IsAlike job.id s1.store).jobs ∙ filed) run1
