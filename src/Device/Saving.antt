-- ===== src/Device/Saving.antt =====
-- `read_configuration` and `save_configuration` of src/device.rs. The printer is a script: what its
-- replies to queries and the writes to it give; so are the writes of the two files.
use zebra_tamer.Prelude.{
  ℕ, String, Bool, true, false, not, Option, none, some, List, [], ◌∷◌, ◌++◌, str_eq, ◌==◌,
  is_empty,
}
use zebra_tamer.Prelude.Float.{Float}
use zebra_tamer.Prelude.Text.{Text, Bytes, codes}
use zebra_tamer.Prelude.Result.{Result, ok, err, Error, io, message, ensure}
use zebra_tamer.Prelude.Exec.{Exec, pure, lift, ◌>>=◌, ◌>>◌}
use zebra_tamer.Model.Job.{DateTime}
use zebra_tamer.Store.Files.{File, Outcome, reply, put_file}
use zebra_tamer.Store.State.{head_outcome, tail_outcomes}
use zebra_tamer.Driver.{DeviceProfile}
use zebra_tamer.Transport.Query.{QueryResponse}
use zebra_tamer.Device.{
  DeviceSettings, Tracking, continuous, validate, commands, mismatches, is_readable, tracking_eq,
}
use zebra_tamer.Device.Report.{Observation, parse_configuration, or_else}

pub record SaveRequest : Type 0 where
  pub revision : String
  pub settings : DeviceSettings
  pub confirm_save_all : Bool

pub data SaveState : Type 0 where
  in_progress not_saved save_outcome_unknown save_sent_active_verified apply_outcome_unknown :
      SaveState

-- The JSON report, without its times.
pub record SaveReport : Type 0 where
  pub requested : DeviceSettings
  pub state : SaveState
  pub save_command_sent : Bool
  pub active_values_verified : Bool
  pub observation : Option Observation
  pub error : Option Error
  pub finished : Bool

-- What passes between the agent and the printer.
pub data Exchange : Type 0 where
  asked : Result QueryResponse → Exchange
  sent : Text → Exchange

-- The transport, the two files of the printer's directory, and the report that is being written.
-- `exchange` has the queries, with their replies, and the commands that `write_bytes` was called with,
-- the latest last. When a script is used up, queries are refused and writes succeed. Messages that
-- list fields are shortened.
pub record Session : Type 0 where
  pub replies : List (Result QueryResponse)
  pub write_answers : List (Result (Unit {0}))
  pub exchange : List Exchange
  pub outcomes : List Outcome
  pub attempt : File SaveReport
  pub configuration : File Observation
  pub report : SaveReport

abbrev pub head_reply : List (Result QueryResponse) → Result QueryResponse
head_reply [] = err io
head_reply (r ∷ rs) = r

abbrev tail_replies : List (Result QueryResponse) → List (Result QueryResponse)
tail_replies [] = []
tail_replies (r ∷ rs) = rs

abbrev pub query : Exec Session QueryResponse
query s = (
  head_reply s.replies,
  record s {
    replies = tail_replies s.replies;
    exchange = s.exchange ++ (asked (head_reply s.replies) ∷ []);
  },
)

abbrev head_write : List (Result (Unit {0})) → Result (Unit {0})
head_write [] = ok tt
head_write (r ∷ rs) = r

abbrev tail_writes : List (Result (Unit {0})) → List (Result (Unit {0}))
tail_writes [] = []
tail_writes (r ∷ rs) = rs

abbrev pub write_bytes : Text → Exec Session (Unit {0})
write_bytes text s = (
  head_write s.write_answers,
  record s {
    write_answers = tail_writes s.write_answers;
    exchange = s.exchange ++ (sent text ∷ []);
  },
)

-- `atomic_json` of the report and of an observation.
abbrev pub save_attempt : Exec Session (Unit {0})
save_attempt s =
    let o = head_outcome s.outcomes in
    (
      reply o,
      record s { outcomes = tail_outcomes s.outcomes; attempt = put_file o s.report s.attempt },
    )

abbrev pub save_observation : Observation → Exec Session (Unit {0})
save_observation observed s =
    let o = head_outcome s.outcomes in
    (
      reply o,
      record s {
        outcomes = tail_outcomes s.outcomes;
        configuration = put_file o observed s.configuration;
      },
    )

abbrev pub note : (SaveReport → SaveReport) → Exec Session (Unit {0})
note change s = (ok tt, record s { report = change s.report })

abbrev pub save_all : Text
save_all = codes "^XA^JUS^XZ\n"

abbrev length_eq : Option ℕ → ℕ → Bool
length_eq none n = false
length_eq (some m) n = m == n

abbrev is_continuous : Option Tracking → Bool
is_continuous none = false
is_continuous (some t) = tracking_eq t continuous

abbrev pub may_set_length : DeviceSettings → DeviceSettings → Bool
may_set_length wanted old = elim wanted.label_length [
  | none ↦ true
  | some n ↦ elim (is_continuous (or_else wanted.tracking old.tracking)) [
    | true ↦ true
    | false ↦ length_eq old.label_length n
  ]
]

module _ (parse_f64 : Text → Option Float) (dpi_of : Float → ℕ) (digest : List Text → String)
    (lossy : Bytes → Text) (show_float : Float → Text) (now : DateTime)
    (profile : DeviceProfile) where
  unfoldable pub read_configuration : Exec Session Observation
  unfolding parse_configuration
  read_configuration = do
    response ← query
    lift (
        ensure (not (str_eq response.classification "printer_error"))
          "Printer rejected configuration query")
    lift (parse_configuration parse_f64 dpi_of digest now (lossy response.bytes) profile)

  unfoldable pub check_confirmed : DeviceSettings → DeviceSettings → Exec Session (Unit {0})
  unfolding mismatches
  check_confirmed wanted active = elim (is_empty (mismatches wanted active)) [
    | true ↦ pure tt
    | false ↦
        note (λ r. record r { state = not_saved })
        >> lift (err (message "Device did not confirm fields"))
  ]

  -- What follows the command to save.
  unfoldable pub check_saved : DeviceSettings → Exec Session (Unit {0})
  unfolding read_configuration mismatches
  check_saved wanted = do
    observed ← read_configuration
    save_observation observed
    lift (
        ensure (is_empty (mismatches wanted observed.settings))
          "Readback after save differs from requested settings")
    note (λ r. record r { state = save_sent_active_verified; observation = some observed })

  -- The closure behind the first write of the report.
  unfoldable pub apply_and_save : DeviceSettings → Exec Session (Unit {0})
  unfolding read_configuration check_confirmed check_saved commands mismatches
  apply_and_save wanted = do
    write_bytes (commands show_float wanted)
    active ← read_configuration
    save_observation active
    check_confirmed wanted active.settings
    note (λ r. record r { active_values_verified = true; state = save_outcome_unknown })
    save_attempt
    write_bytes save_all
    note (λ r. record r { save_command_sent = true })
    check_saved wanted

  -- The checks before anything is sent.
  unfoldable pub check_save : SaveRequest → Exec Session (Unit {0})
  unfolding validate read_configuration is_readable
  check_save request = do
    lift (
        ensure request.confirm_save_all
          "Confirm that all current persistent device settings will be saved")
    lift (validate profile request.settings)
    before ← read_configuration
    lift (
        ensure (str_eq before.revision request.revision)
          "conflict: Device configuration changed; read it again before saving")
    lift (
        ensure (is_readable request.settings before.settings)
          "Cannot safely verify unsupported or unreadable field")
    lift (
        ensure (may_set_length request.settings before.settings)
          "For gap/mark labels the printer determines length by calibration")

  abbrev pub fresh_report : DeviceSettings → SaveReport
  fresh_report wanted = record {
    requested = wanted;
    state = in_progress;
    save_command_sent = false;
    active_values_verified = false;
    observation = none;
    error = none;
    finished = false;
  }

  abbrev pub after_error : SaveState → SaveState
  after_error in_progress = apply_outcome_unknown
  after_error other = other

  abbrev pub noted : Result (Unit {0}) → SaveReport → SaveReport
  noted (ok _) r = r
  noted (err e) r = record r { state = after_error r.state; error = some e }

  -- What is noted of the closure's result; the closure's error ends here.
  abbrev pub settle : Result (Unit {0}) × Session → Result (Unit {0}) × Session
  settle (r, s) = (ok tt, record s { report = record (noted r s.report) { finished = true } })

  unfoldable pub save_configuration : SaveRequest → Exec Session SaveReport
  unfolding check_save apply_and_save
  save_configuration request = do
    check_save request
    note (λ _. fresh_report request.settings)
    save_attempt
    λ s. settle (apply_and_save request.settings s)
    save_attempt
    λ s. (ok s.report, s)
