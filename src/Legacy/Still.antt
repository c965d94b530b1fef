-- ===== src/Legacy/Still.antt =====
-- The upload of `create_job` (src/api.rs) does not involve the workers.
use zebra_tamer.Prelude.{
  ℕ, ◌≡◌, refl, ◌∙◌, Option, List, [], ◌∷◌, length, ltb, Bool-cases, inl, inr,
}
use zebra_tamer.Prelude.Words.{saturating_add}
use zebra_tamer.Prelude.Text.{Text, Bytes, text_eq}
use zebra_tamer.Prelude.Result.{Result, ok, err}
use zebra_tamer.Prelude.Exec.{Exec, lift}
use zebra_tamer.Model.Job.{DateTime, Job}
use zebra_tamer.Store.State.{Store}
use zebra_tamer.Driver.{RasterPage, DeviceProfile}
use zebra_tamer.Driver.Payload.{zpl_mime, prepare_zebra_payload}
use zebra_tamer.Api.Agent.{Answer, done, problem, Agent, Handler, continue, answer, ◌>>=◌, ◌>>◌}
use zebra_tamer.Api.Payload.{create_part, unseen, rename_part}
use zebra_tamer.Legacy.{Frame, chunk, broken}
use zebra_tamer.Legacy.Upload.{
  Received, Payload, grown, after_step, or_fail, receive_body, read_back, converted, keep_converted,
  convert_read, convert, payload_of, place, store_received, upload,
}

-- The workers are as before.
abbrev IsStill : {A : Type 0} → Handler A → Type 0
IsStill action = (s : Agent) → (action s).1.workers ≡ s.workers

module _ {A B : Type 0} where
  continue-IsStill :
      (r : Answer A) (next : A → Handler B) (s : Agent)
      → ((a : A) → IsStill (next a))
      → (continue r next s).1.workers ≡ s.workers
  continue-IsStill (done a) next s still = still a s
  continue-IsStill (problem e) next s still = refl

  bind-IsStill :
      (action : Handler A) (next : A → Handler B)
      → IsStill action
      → ((a : A) → IsStill (next a))
      → IsStill (action >>= next)
  bind-IsStill action next first rest s =
      continue-IsStill (action s).0 next (action s).1 rest ∙ first s

answer-IsStill : {A : Type 0} (a : Answer A) → IsStill (answer a)
answer-IsStill a s = refl

module _ (now : DateTime) where
  after_step-IsStill :
      {A : Type 0} (job : Job) (out : Result A × Store) (s : Agent)
      → (after_step now job out s).1.workers ≡ s.workers
  unfolding after_step
  after_step-IsStill job (ok a, store) s = refl
  after_step-IsStill job (err e, store) s = refl

  or_fail-IsStill :
      {A : Type 0} (job : Job) (action : Exec Store A) → IsStill (or_fail now job action)
  unfolding or_fail
  or_fail-IsStill job action s = after_step-IsStill job (action s.store) s

  receive_body-IsStill :
      (max_job_bytes : ℕ) (job : Job) (frames : List Frame) (r : Received)
      → IsStill (receive_body max_job_bytes now job frames r)
  unfolding receive_body
  receive_body-IsStill max_job_bytes job [] r s = refl
  receive_body-IsStill max_job_bytes job (broken e ∷ frames) r s =
      or_fail-IsStill {A = Received} job (lift (err e)) s
  receive_body-IsStill max_job_bytes job (chunk c ∷ frames) r s =
      elim (Bool-cases (ltb max_job_bytes (saturating_add r.bytes (length c)))) [
        | inl over ↦ rw (over, receive_body) refl
        | inr within ↦
            rw (within, receive_body)
              (bind-IsStill (or_fail now job unseen)
                (λ _. receive_body max_job_bytes now job frames (grown c r))
                (or_fail-IsStill job unseen)
                (λ _. receive_body-IsStill max_job_bytes job frames (grown c r)) s)
      ]

  module _ (parse : Bytes → Option RasterPage) (decode : Text → Option Bytes) where
    -- A step over the files, and what follows it.
    step-IsStill :
        {A B : Type 0} (job : Job) (action : Exec Store A) (next : A → Handler B)
        → ((a : A) → IsStill (next a))
        → IsStill (or_fail now job action >>= next)
    step-IsStill job action next rest =
        bind-IsStill (or_fail now job action) next (or_fail-IsStill job action) rest

    convert-IsStill :
        (content_type : Text) (profile : DeviceProfile) (job : Job) (content : Bytes)
        → IsStill (convert parse decode now content_type profile job content)
    unfolding convert
    convert-IsStill content_type profile job content =
        step-IsStill job (read_back content)
          (convert_read parse decode now content_type profile job)
          (λ source.
            step-IsStill job (lift (prepare_zebra_payload parse decode content_type source profile))
              (keep_converted parse decode now job)
              (λ prepared.
                let end : Handler Payload = answer (done (converted job prepared)) in
                let last : Handler Payload = or_fail now job unseen >> end in
                step-IsStill job unseen (λ _. or_fail now job unseen >> last)
                  (λ _.
                    step-IsStill job unseen (λ _. last)
                      (λ _.
                        step-IsStill job unseen (λ _. end)
                          (λ _. answer-IsStill (done (converted job prepared)))))))

    payload_of-IsStill :
        (content_type : Text) (profile : DeviceProfile) (job : Job) (content : Bytes)
        → IsStill (payload_of parse decode now content_type profile job content)
    unfolding payload_of
    payload_of-IsStill content_type profile job content s =
        elim (Bool-cases (text_eq content_type zpl_mime)) [
          | inl zpl ↦ rw (zpl, payload_of) refl
          | inr other ↦ rw (other, payload_of) (convert-IsStill content_type profile job content s)
        ]

    pub upload-IsStill :
        (max_job_bytes : ℕ) (content_type : Text) (profile : DeviceProfile) (job : Job)
        (body : List Frame)
        → IsStill (upload parse decode now max_job_bytes content_type profile job body)
    unfolding upload
    upload-IsStill max_job_bytes content_type profile job body =
        let start : Received = record { bytes = 0; content = [] } in
        let receive = receive_body max_job_bytes now job body start in
        let keep = store_received parse decode now content_type profile job in
        step-IsStill job (create_part job.id) (λ _. receive >>= keep)
          (λ _.
            bind-IsStill receive keep (receive_body-IsStill max_job_bytes job body start)
              (λ received.
                let pay = payload_of parse decode now content_type profile job received.content in
                let end = place parse decode now job.id received in
                step-IsStill job unseen (λ _. pay >>= end)
                  (λ _.
                    bind-IsStill pay end
                      (payload_of-IsStill content_type profile job received.content)
                      (λ payload.
                        let answered : Handler (Received × Payload) =
                          answer (done (received, payload)) in
                        let last : Handler (Received × Payload) =
                          or_fail now payload.job unseen >> answered in
                        step-IsStill payload.job (rename_part job.id) (λ _. last)
                          (λ _.
                            step-IsStill payload.job unseen (λ _. answered)
                              (λ _.
                                answer-IsStill {A = Received × Payload}
                                  (done (received, payload))))))))
