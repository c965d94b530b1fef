-- ===== src/Config/Identity.antt =====
-- `ensure_agent_id` of src/config.rs: the id of an agent, and the file that keeps it. A new UUID is an
-- argument, as its text.
use zebra_tamer.Prelude.{ℕ, ◌≡◌, refl, sym, ap, ◌∙◌, true, Option, none, some, take}
use zebra_tamer.Prelude.Text.{Text, trim}
use zebra_tamer.Prelude.Result.{Result, ok, err, Error, ensure, ◌>>◌}
use zebra_tamer.Config.{Config, validate_config, is_agent_id}

-- How the new file is written: whole and synchronised, or only its first bytes, with an error.
pub data Writing : Type 0 where
  whole : Writing
  part : ℕ → Error → Writing

-- How one start fares with the file: `create_dir_all`, the read of a file that is there or an error
-- other than that it is not, a file that somebody else creates between the read and the creation, and
-- that can be read, the creation, and the write.
pub record Attempt : Type 0 where
  pub folder : Result (Unit {0})
  pub reading : Result (Unit {0})
  pub other : Option Text
  pub creating : Result (Unit {0})
  pub writing : Writing

abbrev pub with_id : Text → Config → Config
with_id id config = record config { agent_id = some id }

-- The id in a file.
unfoldable pub adopt : Text → Config → Result Config
unfolding trim
adopt value config = do
  ensure (is_agent_id (some (trim value)))
      "agent_id must contain only letters, digits, hyphens and underscores"
  ok (with_id (trim value) config)

-- The file that is there afterwards stands beside the result; `none` is none.
unfoldable pub write_identity : Writing → Text → Config → Result Config × Option Text
write_identity whole uuid config = (ok (with_id uuid config), some uuid)
write_identity (part n e) uuid config = (err e, some (take n uuid))

unfoldable pub create_identity :
    Option Text → Result (Unit {0}) → Writing → Text → Config → Result Config × Option Text
unfolding adopt write_identity
create_identity (some value) creating writing uuid config = (adopt value config, some value)
create_identity none (err e) writing uuid config = (err e, none)
create_identity none (ok _) writing uuid config = write_identity writing uuid config

unfoldable pub read_identity :
    Result (Unit {0}) → Option Text → Attempt → Text → Config → Result Config × Option Text
unfolding adopt create_identity
read_identity (err e) file attempt uuid config = (err e, file)
read_identity (ok _) (some value) attempt uuid config = (adopt value config, some value)
read_identity (ok _) none attempt uuid config =
    create_identity attempt.other attempt.creating attempt.writing uuid config

unfoldable pub find_identity :
    Result (Unit {0}) → Option Text → Attempt → Text → Config → Result Config × Option Text
unfolding read_identity
find_identity (err e) file attempt uuid config = (err e, file)
find_identity (ok _) file attempt uuid config =
    read_identity attempt.reading file attempt uuid config

-- An id in the configuration makes the file unnecessary.
unfoldable pub ensure_agent_id : Attempt → Text → Option Text → Config → Result Config × Option Text
unfolding find_identity validate_config
ensure_agent_id attempt uuid file config = elim config.agent_id [
  | some id ↦ (validate_config config >> ok config, file)
  | none ↦ find_identity attempt.folder file attempt uuid config
]

-- A text that is an id, as that of a UUID is.
pub record IsId (uuid : Text) : Type 0 where
  pub trimmed : trim uuid ≡ uuid
  pub allowed : is_agent_id (some uuid) ≡ true

adopt-IsId :
    (uuid : Text) (config : Config) → IsId uuid → adopt uuid config ≡ ok (with_id uuid config)
unfolding adopt
adopt-IsId uuid config h = rw (h.trimmed, h.allowed) refl

-- Whoever found the id, the file holds it.
Keeps : Config → Result Config × Option Text → Type 0
Keeps config out =
    (found : Config)
    → out.0 ≡ ok found
    → (value : Text) × (out.1 ≡ some value) × (adopt value config ≡ ok found)

write_identity-Keeps :
    (writing : Writing) (uuid : Text) (config : Config)
    → IsId uuid
    → Keeps config (write_identity writing uuid config)
unfolding Keeps write_identity
write_identity-Keeps whole uuid config h = λ found e. (uuid, refl, adopt-IsId uuid config h ∙ e)
write_identity-Keeps (part n x) uuid config h = λ found e. cc

create_identity-Keeps :
    (other : Option Text) (creating : Result (Unit {0})) (writing : Writing) (uuid : Text)
    (config : Config)
    → IsId uuid
    → Keeps config (create_identity other creating writing uuid config)
unfolding Keeps create_identity
create_identity-Keeps (some value) creating writing uuid config h = λ found e. (value, refl, e)
create_identity-Keeps none (err x) writing uuid config h = λ found e. cc
create_identity-Keeps none (ok _) writing uuid config h = write_identity-Keeps writing uuid config h

read_identity-Keeps :
    (reading : Result (Unit {0})) (file : Option Text) (attempt : Attempt) (uuid : Text)
    (config : Config)
    → IsId uuid
    → Keeps config (read_identity reading file attempt uuid config)
unfolding Keeps read_identity
read_identity-Keeps (err x) file attempt uuid config h = λ found e. cc
read_identity-Keeps (ok _) (some value) attempt uuid config h = λ found e. (value, refl, e)
read_identity-Keeps (ok _) none attempt uuid config h =
    create_identity-Keeps attempt.other attempt.creating attempt.writing uuid config h

find_identity-Keeps :
    (folder : Result (Unit {0})) (file : Option Text) (attempt : Attempt) (uuid : Text)
    (config : Config)
    → IsId uuid
    → Keeps config (find_identity folder file attempt uuid config)
unfolding Keeps find_identity
find_identity-Keeps (err x) file attempt uuid config h = λ found e. cc
find_identity-Keeps (ok _) file attempt uuid config h =
    read_identity-Keeps attempt.reading file attempt uuid config h

-- A later start reads the file, whatever id it would make.
again :
    (value uuid : Text) (attempt : Attempt) (config : Config)
    → attempt.folder ≡ ok tt
    → attempt.reading ≡ ok tt
    → config.agent_id ≡ none
    → ensure_agent_id attempt uuid (some value) config ≡ (adopt value config, some value)
unfolding ensure_agent_id find_identity read_identity
again value uuid attempt config folder reading unnamed =
    rw (unnamed, ensure_agent_id, folder, find_identity, reading, read_identity) refl

-- The text of a new UUID is an id. An agent that is not named by its configuration and whose start
-- found an id, by reading it, by making it or because somebody else made it first, finds the same id
-- at every later start that can read the directory, and leaves the file as it is, whatever id it would
-- have made.
pub ensure_agent_id_lem :
    (first later : Attempt) (uuid uuid' : Text) (file file' : Option Text) (config found : Config)
    → IsId uuid
    → config.agent_id ≡ none
    → ensure_agent_id first uuid file config ≡ (ok found, file')
    → later.folder ≡ ok tt
    → later.reading ≡ ok tt
    → ensure_agent_id later uuid' file' config ≡ (ok found, file')
unfolding ensure_agent_id Keeps
ensure_agent_id_lem first later uuid uuid' file file' config found h unnamed run folder reading =
    let choose : Option Text → Result Config × Option Text = λ o. elim o [
      | some id ↦ (validate_config config >> ok config, file)
      | none ↦ find_identity first.folder file first uuid config
    ] in
    let start : ensure_agent_id first uuid file config
        ≡ find_identity first.folder file first uuid config =
      ap choose unnamed in
    let out = sym start ∙ run in
    let (value, kept, adopted) =
      find_identity-Keeps first.folder file first uuid config h found
        (ap (λ (p : Result Config × Option Text). p.0) out) in
    let same : file' ≡ some value =
      sym (ap (λ (p : Result Config × Option Text). p.1) out) ∙ kept in
    ap (λ f. ensure_agent_id later uuid' f config) same
    ∙ again value uuid' later config folder reading unnamed
    ∙ ap (λ r. (r, some value)) adopted
    ∙ ap (λ f. (ok found, f)) (sym same)
