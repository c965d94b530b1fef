-- ===== src/Legacy/Elsewhere.antt =====
-- The operations of src/media.rs touch one printer's directory only.
use zebra_tamer.Prelude.{◌≡◌, ◌≢◌, ◌∙◌, String, Option, none, some, str_eq, eq_iff, arith}
use zebra_tamer.Prelude.Result.{Result, ok, err, ensure, ok_or}
use zebra_tamer.Prelude.Exec.{Exec, continue, lift, pure, ◌>>=◌, ◌>>◌}
use zebra_tamer.Model.Job.{DateTime}
use zebra_tamer.Model.Media.{MediaState, MediaDefinition, MediaAdjustment, MediaLedgerEvent}
use zebra_tamer.Store.Files.{Outcome, put_file, delete_file, append_ndjson}
use zebra_tamer.Store.State.{Store, PrinterDir, write, at_printer, head_outcome}
use zebra_tamer.Store.Printers.{load_media, save_media, remove_media, append_media_ledger}
use zebra_tamer.Media.Accounting.{adjusted, adjustment_event}
use zebra_tamer.Media.Validate.{validate}
use zebra_tamer.Media.Operations.{
  load, edit, unload, adjust, archive, archived, archive_old, fresh_state, edited, media_revision,
}

-- Jobs, payloads and events are as before, and so are the directories of the other printers.
pub record IsElsewhere (id : String) (s t : Store) : Type 0 where
  pub jobs : t.jobs ≡ s.jobs
  pub payloads : t.payloads ≡ s.payloads
  pub spool : t.spool ≡ s.spool
  pub job_index : t.job_index ≡ s.job_index
  pub events : t.events ≡ s.events
  pub printers : (k : String) → k ≢ id → t.printers k ≡ s.printers k

abbrev pub StaysElsewhere : {A : Type 0} → String → Exec Store A → Type 0
StaysElsewhere id action = (s t : Store) → IsElsewhere id s t → IsElsewhere id s (action t).1

module _ (id : String) where
  continue-IsElsewhere :
      {A B : Type 0} (s : Store) (r : Result A) (next : A → Exec Store B) (t : Store)
      → IsElsewhere id s t
      → ((a : A) → StaysElsewhere id (next a))
      → IsElsewhere id s (continue r next t).1
  continue-IsElsewhere s (ok a) next t h k = k a s t h
  continue-IsElsewhere s (err e) next t h k = h

  bind-elsewhere :
      {A B : Type 0} (action : Exec Store A) (next : A → Exec Store B)
      → StaysElsewhere id action
      → ((a : A) → StaysElsewhere id (next a))
      → StaysElsewhere id (action >>= next)
  bind-elsewhere action next f g s t h =
      continue-IsElsewhere s (action t).0 next (action t).1 (f s t h) g

  lift-elsewhere : {A : Type 0} (r : Result A) → StaysElsewhere id (lift r)
  lift-elsewhere r s t h = h

  at_printer-other :
      (change : PrinterDir → PrinterDir) (t : Store) (k : String)
      → k ≢ id
      → (at_printer id change t).printers k ≡ t.printers k
  at_printer-other change t k differs = ground (arith, differs, eq_iff k id)

  write-elsewhere :
      (change : Outcome → PrinterDir → PrinterDir)
      → StaysElsewhere id (write (λ o. at_printer id (change o)))
  write-elsewhere change s t h = record {
    jobs = h.jobs;
    payloads = h.payloads;
    spool = h.spool;
    job_index = h.job_index;
    events = h.events;
    printers = λ k differs.
        at_printer-other (change (head_outcome t.outcomes)) t k differs ∙ h.printers k differs;
  }

  load_media-elsewhere : StaysElsewhere id (load_media id)
  unfolding load_media
  load_media-elsewhere s t h = h

  save_media-elsewhere : (m : MediaState) → StaysElsewhere id (save_media id m)
  unfolding save_media
  save_media-elsewhere m = write-elsewhere (λ o d. record d { media = put_file o m d.media })

  archive-elsewhere : (m : MediaState) → StaysElsewhere id (archive id m)
  unfolding archive
  archive-elsewhere m = write-elsewhere (λ o d. record d { archives = archived o m d.archives })

  remove_media-elsewhere : StaysElsewhere id (remove_media id)
  unfolding remove_media
  remove_media-elsewhere = write-elsewhere (λ o d. record d { media = delete_file o d.media })

  append_media_ledger-elsewhere :
      (event : MediaLedgerEvent) → StaysElsewhere id (append_media_ledger id event)
  unfolding append_media_ledger
  append_media_ledger-elsewhere event =
      write-elsewhere (λ o d. record d { ledger = append_ndjson o event d.ledger })

  -- The steps that follow the look for the loaded roll.
  found-elsewhere :
      {A : Type 0} (next : MediaState → Exec Store A)
      → ((m : MediaState) → StaysElsewhere id (next m))
      → StaysElsewhere id (load_media id >>= λ found. lift (ok_or found "No media loaded") >>= next)
  found-elsewhere next h =
      bind-elsewhere (load_media id) (λ found. lift (ok_or found "No media loaded") >>= next)
        load_media-elsewhere
        (λ found.
          bind-elsewhere (lift (ok_or found "No media loaded")) next
            (lift-elsewhere (ok_or found "No media loaded")) h)

  pub unload-elsewhere : StaysElsewhere id (unload id)
  unfolding unload
  unload-elsewhere =
      found-elsewhere (λ m. archive id m >> remove_media id)
        (λ m.
          bind-elsewhere (archive id m) (λ _. remove_media id) (archive-elsewhere m)
            (λ _. remove_media-elsewhere))

  saved-elsewhere : (m : MediaState) → StaysElsewhere id (save_media id m >> pure m)
  saved-elsewhere m =
      bind-elsewhere (save_media id m) (λ _. pure m) (save_media-elsewhere m)
        (λ _. lift-elsewhere (ok m))

  pub adjust-elsewhere :
      (now : DateTime) (adj : MediaAdjustment) → StaysElsewhere id (adjust now id adj)
  unfolding adjust
  adjust-elsewhere now adj =
      let booked : MediaState → MediaState = λ old. adjusted now adj.delta old in
      let event : MediaState → MediaLedgerEvent =
        λ old. adjustment_event now adj old (booked old) in
      found-elsewhere
        (λ old.
          append_media_ledger id (event old) >> (save_media id (booked old) >> pure (booked old)))
        (λ old.
          bind-elsewhere (append_media_ledger id (event old))
            (λ _. save_media id (booked old) >> pure (booked old))
            (append_media_ledger-elsewhere (event old)) (λ _. saved-elsewhere (booked old)))

  archive_old-elsewhere : (old : Option MediaState) → StaysElsewhere id (archive_old id old)
  unfolding archive_old
  archive_old-elsewhere none = lift-elsewhere (ok tt)
  archive_old-elsewhere (some old) = archive-elsewhere old

  pub load-elsewhere :
      (now : DateTime) (media : MediaDefinition) → StaysElsewhere id (load now id media)
  unfolding load
  load-elsewhere now media =
      let fresh = fresh_state now media in
      let keep : Exec Store MediaState = save_media id fresh >> pure fresh in
      bind-elsewhere (lift (validate media))
        (λ _. load_media id >>= λ old. archive_old id old >> keep) (lift-elsewhere (validate media))
        (λ _.
          bind-elsewhere (load_media id) (λ old. archive_old id old >> keep) load_media-elsewhere
            (λ old.
              bind-elsewhere (archive_old id old) (λ _. keep) (archive_old-elsewhere old)
                (λ _. saved-elsewhere fresh)))

  pub edit-elsewhere :
      (digest : DateTime → MediaDefinition → String) (revision : String) (media : MediaDefinition)
      → StaysElsewhere id (edit digest id revision media)
  unfolding edit
  edit-elsewhere digest revision media =
      let conflict : String = "conflict: Loaded media changed; refresh before saving" in
      let same : MediaState → Result (Unit {0}) =
        λ state. ensure (str_eq (media_revision digest state) revision) conflict in
      let keep : MediaState → Exec Store MediaState =
        λ state. save_media id (edited digest media state) >> pure (edited digest media state) in
      let check : MediaState → Exec Store MediaState = λ state. lift (same state) >> keep state in
      bind-elsewhere (lift (validate media))
        (λ _. load_media id >>= λ found. lift (ok_or found "No media loaded") >>= check)
        (lift-elsewhere (validate media))
        (λ _. found-elsewhere check (λ state.
          bind-elsewhere (lift (same state)) (λ _. keep state) (lift-elsewhere (same state))
            (λ _. saved-elsewhere (edited digest media state))))
