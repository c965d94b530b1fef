-- ===== src/Store/Atomic.antt =====
-- `atomic_json` of src/persist.rs, step by step, over the two files that it touches.
use zebra_tamer.Prelude.{ℕ, Bool, true, false, Option, none, some, [], ◌∷◌, ◌++◌, take}
use zebra_tamer.Prelude.Text.{Bytes}
use zebra_tamer.Prelude.Result.{Result, ok, err, io}
use zebra_tamer.Store.Files.{File, absent, corrupt, holds}

-- The file and the temporary file beside it.
pub record Folder : Type 0 where
  pub target : Option Bytes
  pub temporary : Option Bytes

-- How much of a step took effect.
pub data Extent : Type 0 where
  all_of none_of : Extent
  some_of : ℕ → Extent

-- A call of the operating system goes well, or stops: with an error (true), or because the process
-- dies in it (false).
pub data Step : Type 0 where
  went : Step
  stops : Extent → Bool → Step

pub data Ending : Type 0 where
  succeeded failed died : Ending

abbrev pub ending : Bool → Ending
ending true = failed
ending false = died

-- What is returned, if the process is still there.
abbrev pub answer_of : Ending → Option (Result (Unit {0}))
answer_of succeeded = some (ok tt)
answer_of failed = some (err io)
answer_of died = none

-- The fate of each call: of `create_dir_all`, `open`, `to_writer_pretty`, `write_all`, `sync_all`,
-- `rename`, the directory's `sync_all`, and `remove_file`.
pub record Steps : Type 0 where
  pub create_folder : Step
  pub open_new : Step
  pub write_json : Step
  pub write_newline : Step
  pub sync_file : Step
  pub rename_file : Step
  pub sync_folder : Step
  pub remove_file : Step

abbrev pub run :
    Step → (Extent → Folder → Folder) → (Folder → Ending × Folder) → Folder → Ending × Folder
run went effect next f = next (effect all_of f)
run (stops x alive) effect next f = (ending alive, effect x f)

abbrev pub unseen : Extent → Folder → Folder
unseen x f = f

abbrev pub opened : Extent → Folder → Folder
opened all_of f = record f { temporary = some [] }
opened _ f = f

abbrev written_to : Bytes → Option Bytes → Option Bytes
written_to text none = none
written_to text (some old) = some (old ++ text)

abbrev pub appended : Bytes → Extent → Folder → Folder
appended text all_of f = record f { temporary = written_to text f.temporary }
appended text (some_of n) f = record f { temporary = written_to (take n text) f.temporary }
appended text none_of f = f

-- A rename happens as a whole or not at all.
abbrev pub renamed : Extent → Folder → Folder
renamed all_of f = record { target = f.temporary; temporary = none }
renamed _ f = f

abbrev pub removed : Extent → Folder → Folder
removed all_of f = record f { temporary = none }
removed _ f = f

abbrev pub newline : Bytes
newline = 10 ∷ []

abbrev all_done : Folder → Ending × Folder
all_done f = (succeeded, f)

-- The closure of `atomic_json`.
unfoldable pub replace : Steps → Bytes → Folder → Ending × Folder
replace s json = run s.open_new opened (
    run s.write_json (appended json) (
      run s.write_newline (appended newline)
        (run s.sync_file unseen (run s.rename_file renamed (run s.sync_folder unseen all_done)))))

-- After an error the temporary file is removed, or not; that step's own error is dropped.
abbrev pub clean_up : Step → Ending × Folder → Ending × Folder
clean_up s (succeeded, f) = (succeeded, f)
clean_up went (failed, f) = (failed, removed all_of f)
clean_up (stops x true) (failed, f) = (failed, removed x f)
clean_up (stops x false) (failed, f) = (died, removed x f)
clean_up s (died, f) = (died, f)

unfoldable pub atomic_json : Steps → Bytes → Folder → Ending × Folder
unfolding replace
atomic_json s json f = run s.create_folder unseen (λ f. clean_up s.remove_file (replace s json f)) f

-- The file as `read_json` sees it, with the reader of its type.
abbrev pub view : {A : Type 0} → (Bytes → Option A) → Option Bytes → File A
view decode none = absent
view decode (some bytes) = elim (decode bytes) [ none ↦ corrupt | some a ↦ holds a ]
