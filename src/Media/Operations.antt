-- ===== src/Media/Operations.antt =====
-- `load`, `edit`, `unload`, `adjust` and `state_with_revision` of src/media.rs, over one printer.
-- `digest` stands for the SHA-256 of the serialised pair of `media_revision`.
use zebra_tamer.Prelude.{String, Option, none, some, List, ◌∷◌, str_eq}
use zebra_tamer.Prelude.Result.{ensure, ok_or}
use zebra_tamer.Prelude.Exec.{Exec, pure, lift, ◌>>=◌, ◌>>◌}
use zebra_tamer.Model.Job.{DateTime}
use zebra_tamer.Model.Media.{MediaDefinition, MediaState, MediaAdjustment, estimated}
use zebra_tamer.Store.Files.{Outcome, fine, late}
use zebra_tamer.Store.State.{Store, write, at_printer}
use zebra_tamer.Store.Printers.{load_media, save_media, remove_media, append_media_ledger}
use zebra_tamer.Media.Validate.{validate}
use zebra_tamer.Media.Accounting.{adjusted, adjustment_event}

abbrev pub archived : Outcome → MediaState → List MediaState → List MediaState
archived fine m l = m ∷ l
archived late m l = m ∷ l
archived _ m l = l

-- Each archive is a new file `media-{uuid}.json`; the latest stands first.
unfoldable pub archive : String → MediaState → Exec Store (Unit {0})
archive id m = write (λ o. at_printer id (λ d. record d { archives = archived o m d.archives }))

unfoldable pub archive_old : String → Option MediaState → Exec Store (Unit {0})
archive_old id none = pure tt
archive_old id (some old) = archive id old

unfoldable pub fresh_state : DateTime → MediaDefinition → MediaState
fresh_state now definition = record {
  initial_labels = definition.labels_available_at_load;
  remaining_labels = definition.labels_available_at_load;
  consumed_labels_total = 0;
  accounting_deficit_labels = 0;
  accounting_confidence = estimated;
  last_accounting_event_at = none;
  ledger_sequence = 0;
  loaded_at = now;
  media = definition;
}

unfoldable pub load : DateTime → String → MediaDefinition → Exec Store MediaState
unfolding load_media save_media archive archive_old fresh_state
load now id definition = do
  lift (validate definition)
  old ← load_media id
  archive_old id old
  save_media id (fresh_state now definition)
  pure (fresh_state now definition)

unfoldable pub unload : String → Exec Store (Unit {0})
unfolding load_media archive remove_media
unload id = do
  found ← load_media id
  state ← lift (ok_or found "No media loaded")
  archive id state
  remove_media id

unfoldable pub adjust : DateTime → String → MediaAdjustment → Exec Store MediaState
unfolding load_media save_media append_media_ledger adjusted adjustment_event
adjust now id adj = do
  found ← load_media id
  old ← lift (ok_or found "No media loaded")
  append_media_ledger id (adjustment_event now adj old (adjusted now adj.delta old))
  save_media id (adjusted now adj.delta old)
  pure (adjusted now adj.delta old)

module _ (digest : DateTime → MediaDefinition → String) where
  unfoldable pub media_revision : MediaState → String
  media_revision m = digest m.loaded_at m.media

  -- The edited state: new metadata, the accounting untouched.
  unfoldable pub edited : MediaDefinition → MediaState → MediaState
  edited media m = record m { media = record media { labels_available_at_load = m.initial_labels } }

  unfoldable pub edit : String → String → MediaDefinition → Exec Store MediaState
  unfolding load_media save_media edited media_revision
  edit id revision media = do
    lift (validate media)
    found ← load_media id
    state ← lift (ok_or found "No media loaded")
    lift (
        ensure (str_eq (media_revision state) revision)
          "conflict: Loaded media changed; refresh before saving")
    save_media id (edited media state)
    pure (edited media state)

  abbrev revision_of : Option MediaState → Option String
  revision_of none = none
  revision_of (some m) = some (media_revision m)

  unfoldable pub state_with_revision : String → Exec Store (Option MediaState × Option String)
  unfolding load_media media_revision
  state_with_revision id = do state ← load_media id; pure (state, revision_of state)
