-- ===== src/Worker/Verdict.antt =====
-- What `process_job` of src/worker.rs leaves behind: which jobs it sends, and what it records.
use zebra_tamer.Prelude.{
  ℕ, ◌≡◌, refl, ap, sym, subst, ◌∙◌, ◌≢◌, String, true, false, Option, none, some, [], arith, ltb,
  if◌then◌else◌,
}
use zebra_tamer.Prelude.Result.{Result, ok, err}
use zebra_tamer.Prelude.Exec.{attempt}
use zebra_tamer.Model.Job.{
  DateTime, Uuid, JobState, Job, queued, transport_accepted, outcome_unknown, failed, is_queued,
}
use zebra_tamer.Store.Files.{holds, fine}
use zebra_tamer.Store.State.{Store, head_outcome}
use zebra_tamer.Store.Jobs.{job_file, job_file-put_job, save_job, remove_payload}
use zebra_tamer.Store.Printers.{append_event}
use zebra_tamer.Media.Accounting.{consume_media, consume_from, book_quietly}
use zebra_tamer.Worker.Machine.{Link, Machine, Written, delivered, failure}
use zebra_tamer.Worker.Delivery.{deliver}
use zebra_tamer.Worker.Process.{
  StorageMode, full, metadata_only, emit, settled, final_job, finish, process_job, begin,
  process_loaded, record_delivery, after_delivery, forget_payload, marked_writing,
}

-- The job files and the script of the writes, of a change that touches neither.
abbrev SameJobs : Store → Store → Type 0
SameJobs s t = (t.jobs ≡ s.jobs) × (t.outcomes ≡ [])

consume_media-SameJobs :
    (now : DateTime) (printer : String) (job : Job) (s : Store)
    → s.outcomes ≡ []
    → SameJobs s (consume_media now printer job s)
unfolding consume_media consume_from book_quietly
consume_media-SameJobs now printer job s script = ground arith

emit-SameJobs :
    (now : DateTime) (kind printer : String) (id : Uuid) (text : String) (s : Store)
    → s.outcomes ≡ []
    → SameJobs s (emit now kind printer id text s)
unfolding emit append_event
emit-SameJobs now kind printer id text s script = ground arith

forget_payload-SameJobs :
    (storage : StorageMode) (path : Option Uuid) (s : Store)
    → s.outcomes ≡ []
    → SameJobs s (forget_payload storage path s)
unfolding forget_payload remove_payload
forget_payload-SameJobs metadata_only (some path) s script = ground arith
forget_payload-SameJobs full path s script = ground arith
forget_payload-SameJobs metadata_only none s script = ground arith

not-is_queued : (st : JobState) → st ≢ queued → is_queued st ≡ false
not-is_queued queued h = absurd (h refl)
not-is_queued _ h = refl

-- From `s` to `t` no job file but that of `id` changed, and no write failed or is to fail.
abbrev Only : Uuid → Store → Store → Type 0
Only id s t = (t.outcomes ≡ []) × ((k : Uuid) → k ≢ id → job_file k t.jobs ≡ job_file k s.jobs)

SameJobs-Only : (id : Uuid) (s t : Store) → SameJobs s t → Only id s t
SameJobs-Only id s t h = (h.1, λ k _. rw h.0 refl)

Only-trans : (id : Uuid) (s t u : Store) → Only id s t → Only id t u → Only id s u
Only-trans id s t u h j = (j.0, λ k n. j.1 k n ∙ h.1 k n)

save_job_fine : (job : Job) (s : Store) → s.outcomes ≡ [] → (save_job job s).0 ≡ ok tt
unfolding save_job
save_job_fine job s script = ground arith

save_job-Only : (job : Job) (s : Store) → s.outcomes ≡ [] → Only job.id s (save_job job s).1
unfolding save_job
save_job-Only job s script = (
  ground arith,
  λ k other. rw script (job_file-put_job fine job k s.jobs ∙ ground (arith, other)),
)

save_job-file :
    (job : Job) (s : Store) → s.outcomes ≡ [] → job_file job.id (save_job job s).1.jobs ≡ holds job
unfolding save_job
save_job-file job s script = rw script (job_file-put_job fine job job.id s.jobs ∙ ground arith)

-- What a job's file says of its delivery.
abbrev pub Verdict : Written → Job → Type 0
Verdict (delivered n) job = (job.state ≡ transport_accepted) × (job.bytes_transferred ≡ n)
Verdict (failure n e) job =
    (job.state ≡ (if ltb 0 n then outcome_unknown else failed))
    × (job.bytes_transferred ≡ n)
    × (job.error ≡ some e)

-- `m'` is what the delivery `r` of a job makes of the machine `m`.
pub record Settles (now : DateTime) (storage : StorageMode) (job : Job) (m : Machine)
    (r : Written × Link × Job) (m' : Machine) : Type 0 where
  pub sent : m'.link.writes ≡ r.1.writes
  pub filed : job_file job.id m'.store.jobs ≡ holds (final_job now storage r.0 r.2)
  pub verdict : Verdict r.0 (final_job now storage r.0 r.2)
  pub reported : m'.jobs.last_job_state ≡ some (final_job now storage r.0 r.2).state
  pub clean : m'.store.outcomes ≡ []
  pub same_id : (final_job now storage r.0 r.2).id ≡ job.id
  pub others : (k : Uuid) → k ≢ job.id → job_file k m'.store.jobs ≡ job_file k m.store.jobs

writes-after_delivery : (answer : Written) (l : Link) → (after_delivery answer l).writes ≡ l.writes
writes-after_delivery (delivered n) l = refl
writes-after_delivery (failure n e) l = refl

id-deliver : (job : Job) (l : Link) → (deliver job l).2.id ≡ job.id
unfolding deliver
id-deliver job l = ground arith

module _ (bytes_json : ℕ → String) (now : DateTime) (storage : StorageMode) (printer : String) where
  -- A job whose file does not say `queued` is left alone: nothing is sent and nothing changes.
  pub process_job_skips :
      (id : Uuid) (job : Job) (m : Machine)
      → job_file id m.store.jobs ≡ holds job
      → job.state ≢ queued
      → process_job bytes_json now storage printer id m ≡ m
  unfolding process_job
  process_job_skips id job m file other =
      rw file (rw (not-is_queued job.state other, process_loaded) refl)

  -- Nothing is sent, and the transport is not touched, unless the write that marks the job's file
  -- as `writing` succeeded.
  pub process_job-silent :
      (id : Uuid) (m : Machine)
      → head_outcome m.store.outcomes ≢ fine
      → (process_job bytes_json now storage printer id m).link ≡ m.link
  unfolding process_job save_job
  process_job-silent id m trouble = ground arith

  record_delivery-Only :
      (answer : Written) (job : Job) (s : Store)
      → s.outcomes ≡ []
      → Only job.id s (record_delivery bytes_json now storage printer answer job job.id s)
  unfolding record_delivery
  record_delivery-Only (delivered n) job s script =
      let saved = save_job-Only job s script in
      let s1 = attempt (save_job job) s in
      let s2 = emit now "job_transport_accepted" printer job.id (bytes_json n) s1 in
      let emitted =
        emit-SameJobs now "job_transport_accepted" printer job.id (bytes_json n) s1 saved.0 in
      let s3 = consume_media now printer job s2 in
      let consumed = consume_media-SameJobs now printer job s2 emitted.1 in
      let gone = forget_payload-SameJobs storage job.payload_path s3 consumed.1 in
      let s4 = forget_payload storage job.payload_path s3 in
      Only-trans job.id s s1 s4 saved (
        Only-trans job.id s1 s2 s4 (SameJobs-Only job.id s1 s2 emitted) (
          Only-trans job.id s2 s3 s4 (SameJobs-Only job.id s2 s3 consumed)
            (SameJobs-Only job.id s3 s4 gone)))
  record_delivery-Only (failure n e) job s script = (script, λ k _. refl)

  id-final_job : (answer : Written) (job : Job) → (final_job now storage answer job).id ≡ job.id
  unfolding final_job
  id-final_job answer job = ground arith

  id-settled : (answer : Written) (job : Job) → (settled now answer job).id ≡ job.id
  unfolding settled
  id-settled answer job = ground arith

  finish-Only :
      (answer : Written) (l : Link) (job : Job) (s : Store) (m : Machine)
      → s.outcomes ≡ []
      → let t = (finish bytes_json now storage printer job.id (answer, l, job) s m).store in
        Only job.id s t × (job_file job.id t.jobs ≡ holds (final_job now storage answer job))
  unfolding finish
  finish-Only answer l job s m script =
      let last = final_job now storage answer job in
      let s1 =
        record_delivery bytes_json now storage printer answer (settled now answer job) job.id s in
      let after : Uuid → Store =
        λ k. record_delivery bytes_json now storage printer answer (settled now answer job) k s in
      let recorded : Only job.id s s1 =
        subst (λ k. Only k s (after k)) (id-settled answer job)
          (record_delivery-Only answer (settled now answer job) s script) in
      let t = (save_job last s1).1 in
      let saved : Only job.id s1 t =
        subst (λ k. Only k s1 t) (id-final_job answer job) (save_job-Only last s1 recorded.0) in
      (
        Only-trans job.id s s1 t recorded saved,
        subst (λ k. job_file k t.jobs ≡ holds last) (id-final_job answer job)
            (save_job-file last s1 recorded.0),
      )

  final_job-Verdict :
      (answer : Written) (job : Job) → Verdict answer (final_job now storage answer job)
  unfolding final_job
  final_job-Verdict (delivered n) job = ground arith
  final_job-Verdict (failure n e) job = (refl, refl, refl)

  begin_fine :
      (id : Uuid) (job : Job) (r : Result (Unit {0}) × Store) (m : Machine)
      → r.0 ≡ ok tt
      → begin bytes_json now storage printer id job r m
        ≡ finish bytes_json now storage printer id
            (deliver job m.link)
            (emit now "job_writing" printer id "{}" r.1)
            m
  unfolding begin
  begin_fine id job (ok _, s) m h = refl
  begin_fine id job (err e, s) m h = cc

  -- A queued job is marked as writing, and then delivered and settled.
  process_job_step :
      (id : Uuid) (job : Job) (m : Machine)
      → job_file id m.store.jobs ≡ holds job
      → is_queued job.state ≡ true
      → m.store.outcomes ≡ []
      → process_job bytes_json now storage printer id m
        ≡ finish bytes_json now storage printer id
            (deliver (marked_writing now job) m.link)
            (emit now "job_writing" printer id "{}" (save_job (marked_writing now job) m.store).1)
            m
  unfolding process_job
  process_job_step id job m file waiting script = rw file (
      rw (waiting, process_loaded)
        (begin_fine id (marked_writing now job) (save_job (marked_writing now job) m.store) m
          (save_job_fine (marked_writing now job) m.store script)))

  finish-Settles :
      (job : Job) (m : Machine) (r : Written × Link × Job) (s : Store)
      → r.2.id ≡ job.id
      → Only job.id m.store s
      → Settles now storage job m r (finish bytes_json now storage printer job.id r s m)
  unfolding finish
  finish-Settles job m (answer, l, job') s e h =
      let (only, filed) = finish-Only answer l job' s m h.0 in
      let t = λ (k : Uuid). (finish bytes_json now storage printer k (answer, l, job') s m).store in
      record {
        sent = writes-after_delivery answer l;
        filed =
            subst (λ k. job_file k (t k).jobs ≡ holds (final_job now storage answer job')) e filed;
        verdict = final_job-Verdict answer job';
        reported = refl;
        clean = subst (λ i. (t i).outcomes ≡ []) e only.0;
        same_id = id-final_job answer job' ∙ e;
        others = λ k other. (subst (λ i. Only i s (t i)) e only).1 k other ∙ h.1 k other;
      }

  -- A queued job whose writes all succeed is delivered once by `deliver`: the printer gets what that
  -- sends, the job's file ends with its verdict (accepted, failed with no byte sent, or unknown with
  -- some), and every other job's file is as before.
  pub process_job-Settles :
      (job : Job) (m : Machine)
      → job_file job.id m.store.jobs ≡ holds job
      → job.state ≡ queued
      → m.store.outcomes ≡ []
      → Settles now storage job m
          (deliver (marked_writing now job) m.link)
          (process_job bytes_json now storage printer job.id m)
  process_job-Settles job m file waiting script =
      let started = marked_writing now job in
      let s1 = (save_job started m.store).1 in
      let s2 = emit now "job_writing" printer job.id "{}" s1 in
      let saved = save_job-Only started m.store script in
      let emitted = emit-SameJobs now "job_writing" printer job.id "{}" s1 saved.0 in
      subst (λ t. Settles now storage job m (deliver started m.link) t)
        (sym (process_job_step job.id job m file (ap is_queued waiting) script))
        (finish-Settles job m (deliver started m.link) s2 (id-deliver started m.link)
          (Only-trans job.id m.store s1 s2 saved (SameJobs-Only job.id s1 s2 emitted)))
