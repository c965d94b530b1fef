-- ===== src/Media/Errors.antt =====
-- Refusals and edits of src/media.rs.
use text.Mathlib.TextPositions.{eq_refl}
use zebra_tamer.Prelude.{◌≡◌, refl, ◌∙◌, ◌≢◌, String, List, [], ◌∷◌, arith, eq_iff}
use zebra_tamer.Prelude.Result.{Error, ok, err, message}
use zebra_tamer.Model.Job.{DateTime}
use zebra_tamer.Model.Media.{MediaDefinition, MediaState}
use zebra_tamer.Store.Files.{holds}
use zebra_tamer.Store.State.{Store}
use zebra_tamer.Media.Validate.{validate}
use zebra_tamer.Media.Operations.{load, edit, edited, media_revision}
use zebra_tamer.Media.Conservation.{Movement, move, move_all, job, loss, adjustment}
use zebra_tamer.Prelude.Int.{pos, negsuc}

-- A definition that does not validate loads nothing, and the store is as before.
pub load-invalid :
    (now : DateTime) (id : String) (definition : MediaDefinition) (s : Store) (e : Error)
    → validate definition ≡ err e
    → load now id definition s ≡ (err e, s)
unfolding load
load-invalid now id definition s e invalid = ground arith

module _ (digest : DateTime → MediaDefinition → String) where
  revision-move :
      (now : DateTime) (v : Movement) (m : MediaState)
      → media_revision digest (move now v m) ≡ media_revision digest m
  unfolding move media_revision
  revision-move now (job count) m = refl
  revision-move now (loss count) m = refl
  revision-move now (adjustment (pos n)) m = refl
  revision-move now (adjustment (negsuc n)) m = refl

  -- No sequence of jobs, losses and adjustments changes the revision: an editor that was opened
  -- before them is not stale.
  pub revision-move_all :
      (now : DateTime) (vs : List Movement) (m : MediaState)
      → media_revision digest (move_all now vs m) ≡ media_revision digest m
  unfolding move_all
  revision-move_all now [] m = refl
  revision-move_all now (v ∷ vs) m = revision-move_all now vs (move now v m) ∙ revision-move now v m

  -- An edit with a stale revision is refused as a conflict, and writes nothing.
  pub edit-stale :
      (id revision : String) (media : MediaDefinition) (s : Store) (m : MediaState)
      → validate media ≡ ok tt
      → (s.printers id).media ≡ holds m
      → media_revision digest m ≢ revision
      → edit digest id revision media s
        ≡ (err (message "conflict: Loaded media changed; refresh before saving"), s)
  unfolding edit
  edit-stale id revision media s m valid here stale =
      ground (arith, eq_iff (media_revision digest m) revision)

  -- An edit that succeeds had the current revision, changes the metadata only, and writes it.
  pub edit-keeps_accounting :
      (id revision : String) (media : MediaDefinition) (s : Store) (m m' : MediaState)
      → (s.printers id).media ≡ holds m
      → (edit digest id revision media s).0 ≡ ok m'
      → (media_revision digest m ≡ revision)
        × (m' ≡ edited digest media m)
        × (((edit digest id revision media s).1.printers id).media ≡ holds m')
        × (m'.remaining_labels ≡ m.remaining_labels)
        × (m'.consumed_labels_total ≡ m.consumed_labels_total)
        × (m'.accounting_deficit_labels ≡ m.accounting_deficit_labels)
        × (m'.ledger_sequence ≡ m.ledger_sequence)
        × (m'.media.labels_available_at_load ≡ m.initial_labels)
  unfolding edit edited
  edit-keeps_accounting id revision media s m m' here done =
      ground (arith, eq_refl id, eq_iff (media_revision digest m) revision)
