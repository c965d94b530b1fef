-- ===== src/Legacy/Requests.antt =====
-- The requests about media (src/api.rs), and what they leave alone.
use zebra_tamer.Legacy.Elsewhere.{
  IsElsewhere, StaysElsewhere, unload-elsewhere, adjust-elsewhere, load-elsewhere, edit-elsewhere,
}
use zebra_tamer.Prelude.{◌≡◌, refl, String, false, Option, none, some, Bool-cases, inl, inr}
use zebra_tamer.Prelude.Text.{Bytes}
use zebra_tamer.Prelude.Result.{Error}
use zebra_tamer.Prelude.Exec.{Exec}
use zebra_tamer.Model.Job.{DateTime}
use zebra_tamer.Model.Media.{MediaDefinition, MediaAdjustment}
use zebra_tamer.Store.State.{Store}
use zebra_tamer.Auth.{Tokens, admin, matches, admits, bearer, authorized}
use zebra_tamer.Media.Validate.{validate}
use zebra_tamer.Media.Operations.{load, edit, unload, adjust}
use zebra_tamer.Worker.Queue.{Worker}
use zebra_tamer.Api.Agent.{
  V2Error, Answer, done, Agent, Handler, Mail, handled, full, stopped, or_problem, v2_authorize,
  or_error, head_mail, tail_mail,
}
use zebra_tamer.Api.Keeps.{continue-keeps}
use zebra_tamer.Legacy.{not_found, legacy_authorization}
use zebra_tamer.Legacy.Media.{
  controlled_by, after_control, on_store, control, run_control, media_request, put_media,
  edit_media, unload_media, adjust_media, v2_admin_load_media, media_authorization, invalid_media,
  invalid_request, load_failed, control_error,
}

unmoved : (id : String) (s : Store) → IsElsewhere id s s
unmoved id s = record {
  jobs = refl;
  payloads = refl;
  spool = refl;
  job_index = refl;
  events = refl;
  printers = λ k differs. refl;
}

module _ {A : Type 0} (id : String) where
  controlled_by-IsElsewhere :
      (mail : Mail) (action : Exec Store A) (w : Worker) (base : Store) (s : Agent)
      → StaysElsewhere id action
      → IsElsewhere id base s.store
      → IsElsewhere id base (controlled_by mail id (on_store action) w s).1.store
  unfolding controlled_by after_control
  controlled_by-IsElsewhere full action w base s keeps h = h
  controlled_by-IsElsewhere stopped action w base s keeps h = h
  controlled_by-IsElsewhere handled action w base s keeps h = keeps base s.store h

  media_request-IsElsewhere :
      (right checked : Answer (Unit {0})) (refused : Error → V2Error) (action : Exec Store A)
      (s : Agent)
      → StaysElsewhere id action
      → IsElsewhere id s.store (media_request right checked refused id action s).1.store
  unfolding media_request run_control control
  media_request-IsElsewhere right checked refused action s keeps =
      let P : Agent → Type 0 = λ t. IsElsewhere id s.store t.store in
      let same = unmoved id s.store in
      continue-keeps {B = A} P right _ s same (λ _. continue-keeps {B = A} P checked _ s same (λ _.
        continue-keeps {B = A} P (or_problem (s.workers id) (not_found "printer_not_found")) _ s
          same
          (λ h.
            controlled_by-IsElsewhere (head_mail s.mail) action h.worker s.store
              (record s { mail = tail_mail s.mail }) keeps same)))

  -- Behind the layer of the first API.
  guarded-IsElsewhere :
      (config : Tokens) (header : Option Bytes) (next : Handler A) (s : Agent)
      → IsElsewhere id s.store (next s).1.store
      → IsElsewhere id s.store (legacy_authorization config header next s).1.store
        × (authorized config header admin ≡ false
            → (legacy_authorization config header next s).1 ≡ s)
  unfolding legacy_authorization
  guarded-IsElsewhere config header next s h = elim (Bool-cases (authorized config header admin)) [
    | inl may ↦ rw (may, legacy_authorization) (h, λ e. cc)
    | inr may_not ↦ rw (may_not, legacy_authorization) (unmoved id s.store, λ e. refl)
  ]

-- The requests about the media of a printer, by the operation.
pub data MediaRequest : Type 0 where
  to_put to_load : MediaDefinition → MediaRequest
  to_edit : String → MediaDefinition → MediaRequest
  to_unload : MediaRequest
  to_adjust : MediaAdjustment → MediaRequest

module _ (config : Tokens) (digest : DateTime → MediaDefinition → String) (now : DateTime)
    (header : Option Bytes) (id : String) where
  -- What a request leaves; `to_load` is that of the second API.
  unfoldable pub after_request : MediaRequest → Agent → Agent
  unfolding legacy_authorization put_media edit_media unload_media adjust_media v2_admin_load_media
  after_request (to_put media) s =
      (legacy_authorization config header (put_media config digest now header id media) s).1
  after_request (to_load media) s = (v2_admin_load_media config digest now header id media s).1
  after_request (to_edit revision media) s =
      (legacy_authorization config header (edit_media config digest now header id revision media)
        s).1
  after_request to_unload s =
      (legacy_authorization config header (unload_media config digest now header id) s).1
  after_request (to_adjust adjustment) s =
      (legacy_authorization config header (adjust_media config digest now header id adjustment) s).1

  v2_admin_load_media-denied :
      (media : MediaDefinition) (s : Agent)
      → authorized config header admin ≡ false
      → (v2_admin_load_media config digest now header id media s).1 ≡ s
  unfolding v2_admin_load_media media_request v2_authorize
  v2_admin_load_media-denied media s denied = rw (denied, v2_authorize) refl

  after_request-IsElsewhere :
      (r : MediaRequest) (s : Agent)
      → IsElsewhere id s.store (after_request r s).store
        × (authorized config header admin ≡ false → after_request r s ≡ s)
  unfolding after_request put_media edit_media unload_media adjust_media v2_admin_load_media
  after_request-IsElsewhere (to_put media) s =
      guarded-IsElsewhere id config header (put_media config digest now header id media) s (
        media_request-IsElsewhere id (media_authorization config header)
          (or_error invalid_media (validate media)) control_error (load now id media) s
          (load-elsewhere id now media))
  after_request-IsElsewhere (to_load media) s = (
    media_request-IsElsewhere id (v2_authorize config header admin)
        (or_error invalid_request (validate media)) load_failed (load now id media) s
        (load-elsewhere id now media),
    v2_admin_load_media-denied media s,
  )
  after_request-IsElsewhere (to_edit revision media) s =
      guarded-IsElsewhere id config header (edit_media config digest now header id revision media) s
        (media_request-IsElsewhere id (media_authorization config header)
          (or_error invalid_media (validate media)) control_error (edit digest id revision media) s
          (edit-elsewhere id digest revision media))
  after_request-IsElsewhere to_unload s =
      guarded-IsElsewhere id config header (unload_media config digest now header id) s (
        media_request-IsElsewhere id (media_authorization config header) (done tt) control_error
          (unload id) s (unload-elsewhere id))
  after_request-IsElsewhere (to_adjust adjustment) s =
      guarded-IsElsewhere id config header (adjust_media config digest now header id adjustment) s (
        media_request-IsElsewhere id (media_authorization config header) (done tt) control_error
          (adjust now id adjustment) s (adjust-elsewhere id now adjustment))

  -- Without a configured token of the administrator nobody is the administrator.
  no_admin :
      (supplied : Option Bytes) → config.admin_token ≡ none → admits config admin supplied ≡ false
  unfolding matches
  no_admin none h = refl
  no_admin (some text) h = rw (h, admits, matches) refl

  closed : config.admin_token ≡ none → authorized config header admin ≡ false
  unfolding authorized
  closed h = no_admin (bearer header) h

  -- Whatever request about the media of a printer comes, and whatever its writes and the worker do:
  -- jobs, payloads, the job index and the events stay as they are, and so does everything of the other
  -- printers. A request that does not present the token of the administrator leaves the agent as it is
  -- altogether; where no such token is configured, every request does.
  pub after_request_lem :
      (r : MediaRequest) (s : Agent)
      → IsElsewhere id s.store (after_request r s).store
        × (authorized config header admin ≡ false → after_request r s ≡ s)
        × (config.admin_token ≡ none → after_request r s ≡ s)
  after_request_lem r s =
      let (elsewhere, guarded) = after_request-IsElsewhere r s in
      (elsewhere, guarded, λ h. guarded (closed h))
