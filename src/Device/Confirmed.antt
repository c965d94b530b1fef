-- ===== src/Device/Confirmed.antt =====
-- What `apply_and_save`, a part of `save_configuration` in src/device.rs, sends to the printer.
use mathlib.Core.List.{append_assoc}
use zebra_tamer.Prelude.{
  ℕ, String, ◌≡◌, refl, ap, ◌∙◌, inl, inr, true, not, Option, some, List, [], ◌∷◌, ◌++◌, is_empty,
  Bool-cases, str_eq, All,
}
use zebra_tamer.Prelude.Float.{Float}
use zebra_tamer.Prelude.Text.{Text, Bytes}
use zebra_tamer.Prelude.Result.{Result, ok, err, Error, ensure}
use zebra_tamer.Prelude.Exec.{Exec, lift, continue, ◌>>=◌}
use zebra_tamer.Model.Job.{DateTime}
use zebra_tamer.Driver.{DeviceProfile}
use zebra_tamer.Device.{DeviceSettings, commands, mismatches}
use zebra_tamer.Transport.Query.{QueryResponse}
use zebra_tamer.Device.Report.{Observation, parse_configuration}
use zebra_tamer.Device.Saving.{
  Session, Exchange, asked, sent, head_reply, query, write_bytes, save_attempt, save_observation,
  note, save_all, read_configuration, check_confirmed, check_saved, apply_and_save,
  save_outcome_unknown, save_sent_active_verified,
}

-- What a step and what follows it when it succeeds keep, the block keeps.
pub then-keeps :
    {S A B : Type 0} (P : S → Type 0) (action : Exec S A) (next : A → Exec S B) (s : S)
    → P (action s).1
    → ((a : A) → (action s).0 ≡ ok a → P (next a (action s).1).1)
    → P ((action >>= next) s).1
then-keeps {S} {A} P action next s p h = go (action s).0 (λ a e. h a e)
  where
    go :
        (r : Result A)
        → ((a : A) → r ≡ ok a → P (next a (action s).1).1)
        → P (continue r next (action s).1).1
    go (ok a) k = k a refl
    go (err e) k = p

err-ok : {A : Type 0} (e : Error) (a : A) → err e ≡ ok a → ⊥
err-ok e a h = cc

-- A block that is done has done every step.
pub then-ok_step :
    {S A B : Type 0} (action : Exec S A) (next : A → Exec S B) (s : S) (b : B)
    → ((action >>= next) s).0 ≡ ok b
    → (a : A) × ((action s).0 ≡ ok a) × ((next a (action s).1).0 ≡ ok b)
then-ok_step {S} {A} {B} action next s b h = go (action s).0 h
  where
    go :
        (r : Result A)
        → (continue r next (action s).1).0 ≡ ok b
        → (a : A) × (r ≡ ok a) × ((next a (action s).1).0 ≡ ok b)
    go (ok a) e = (a, refl, e)
    go (err x) e = absurd (err-ok x b e)

is_empty-nil : (l : List String) → is_empty l ≡ true → l ≡ []
is_empty-nil [] h = refl
is_empty-nil (x ∷ xs) h = cc

-- The printer was asked something, and not told.
abbrev pub IsQuestion : Exchange → Type 0
IsQuestion (asked r) = Unit
IsQuestion (sent text) = ⊥

module _ (parse_f64 : Text → Option Float) (dpi_of : Float → ℕ) (digest : List Text → String)
    (lossy : Bytes → Text) (show_float : Float → Text) (now : DateTime)
    (profile : DeviceProfile) where
  -- A reply of the printer that has what is wanted.
  pub record IsConfirmed (wanted : DeviceSettings) (response : QueryResponse) : Type 0 where
    pub active : Observation
    pub reported :
        parse_configuration parse_f64 dpi_of digest now (lossy response.bytes) profile ≡ ok active
    pub same : mismatches wanted active.settings ≡ []

  pub read_configuration-exchange :
      (s : Session)
      → (read_configuration parse_f64 dpi_of digest lossy show_float now profile s).1.exchange
        ≡ s.exchange ++ (asked (head_reply s.replies) ∷ [])
  unfolding read_configuration
  read_configuration-exchange s =
      let P : Session → Type 0 =
        λ t. t.exchange ≡ s.exchange ++ (asked (head_reply s.replies) ∷ []) in
      then-keeps {B = Observation} P query _ s refl (λ response _.
        then-keeps {B = Observation} P
          (lift (
            ensure (not (str_eq response.classification "printer_error"))
              "Printer rejected configuration query"))
          _ (query s).1 refl (λ _ _. refl))

  -- What is read is the reply to the query that was made.
  read_configuration-ok :
      (s : Session) (active : Observation)
      → (read_configuration parse_f64 dpi_of digest lossy show_float now profile s).0 ≡ ok active
      → (response : QueryResponse) × (head_reply s.replies ≡ ok response)
        × (parse_configuration parse_f64 dpi_of digest now (lossy response.bytes) profile
            ≡ ok active)
  unfolding read_configuration
  read_configuration-ok s active h =
      let (response, got, h1) = then-ok_step query _ s active h in
      let (u, fine, h2) =
        then-ok_step
          (lift (
            ensure (not (str_eq response.classification "printer_error"))
              "Printer rejected configuration query"))
          _ (query s).1 active h1 in
      (response, got, h2)

  check_confirmed-ok :
      (wanted active : DeviceSettings) (s : Session) (u : Unit {0})
      → (check_confirmed parse_f64 dpi_of digest lossy show_float now profile wanted active s).0
        ≡ ok u
      → mismatches wanted active ≡ []
  unfolding check_confirmed
  check_confirmed-ok wanted active s u h = elim (Bool-cases (is_empty (mismatches wanted active))) [
    | inl e ↦ is_empty-nil (mismatches wanted active) e
    | inr e ↦ absurd (err-ok _ u (rw (e, check_confirmed) at h))
  ]

  check_confirmed-exchange :
      (wanted active : DeviceSettings) (s : Session)
      → (check_confirmed parse_f64 dpi_of digest lossy show_float now profile wanted active
          s).1.exchange
        ≡ s.exchange
  unfolding check_confirmed
  check_confirmed-exchange wanted active s =
      elim (Bool-cases (is_empty (mismatches wanted active))) [
        | inl e ↦ rw (e, check_confirmed) refl
        | inr e ↦ rw (e, check_confirmed) refl
      ]

  check_saved-exchange :
      (wanted : DeviceSettings) (s : Session)
      → (check_saved parse_f64 dpi_of digest lossy show_float now profile wanted s).1.exchange
        ≡ s.exchange ++ (asked (head_reply s.replies) ∷ [])
  unfolding check_saved
  check_saved-exchange wanted s =
      let P : Session → Type 0 =
        λ t. t.exchange ≡ s.exchange ++ (asked (head_reply s.replies) ∷ []) in
      let reading = read_configuration parse_f64 dpi_of digest lossy show_float now profile in
      let s1 = (reading s).1 in
      let same = read_configuration-exchange s in
      then-keeps {B = Unit {0}} P reading _ s same (λ observed _.
        let s2 = (save_observation observed s1).1 in
        let verified : Exec Session (Unit {0}) =
          note (λ r. record r { state = save_sent_active_verified; observation = some observed }) in
        then-keeps {B = Unit {0}} P (save_observation observed)
          (λ _.
            lift (
              ensure (is_empty (mismatches wanted observed.settings))
                "Readback after save differs from requested settings")
            >>= λ _. verified)
          s1 same
          (λ _ _.
            then-keeps {B = Unit {0}} P
              (lift (
                ensure (is_empty (mismatches wanted observed.settings))
                  "Readback after save differs from requested settings"))
              (λ _. verified) s2 same (λ _ _. same)))

  -- After what passed `before`, the commands for the settings are sent; then the printer is asked; and
  -- when this reply confirms the settings, the command to save is sent, and behind it only questions.
  pub data IsCareful (wanted : DeviceSettings) (before all : List Exchange) : Type 0 where
    applied : all ≡ before ++ (sent (commands show_float wanted) ∷ []) → IsCareful wanted before all
    read_back :
        (r : Result QueryResponse)
        → all ≡ before ++ (sent (commands show_float wanted) ∷ asked r ∷ [])
        → IsCareful wanted before all
    saved :
        (response : QueryResponse) (later : List Exchange)
        → IsConfirmed wanted response
        → All IsQuestion later
        → all
          ≡ before
            ++ (sent (commands show_float wanted) ∷ asked (ok response) ∷ sent save_all ∷ later)
        → IsCareful wanted before all

  pub apply_and_save-IsCareful :
      (wanted : DeviceSettings) (before : List Exchange) (s : Session)
      → s.exchange ≡ before
      → IsCareful wanted before
          (apply_and_save parse_f64 dpi_of digest lossy show_float now profile wanted s).1.exchange
  unfolding apply_and_save
  apply_and_save-IsCareful wanted before s fresh =
      let P : Session → Type 0 = λ t. IsCareful wanted before t.exchange in
      let zpl = commands show_float wanted in
      let reading = read_configuration parse_f64 dpi_of digest lossy show_float now profile in
      let confirming =
        check_confirmed parse_f64 dpi_of digest lossy show_float now profile wanted in
      let s1 = (write_bytes zpl s).1 in
      let w1 : s1.exchange ≡ before ++ (sent zpl ∷ []) = ap (λ l. l ++ (sent zpl ∷ [])) fresh in
      let s2 = (reading s1).1 in
      let reply = head_reply s1.replies in
      let w2 : s2.exchange ≡ before ++ (sent zpl ∷ asked reply ∷ []) =
        read_configuration-exchange s1
        ∙ ap (λ l. l ++ (asked reply ∷ [])) w1
        ∙ append_assoc before (sent zpl ∷ []) (asked reply ∷ []) in
      then-keeps {B = Unit {0}} P (write_bytes zpl) _ s (applied w1) (λ _ _.
        then-keeps {B = Unit {0}} P reading _ s1 (read_back reply w2) (λ active found.
          let s3 = (save_observation active s2).1 in
          then-keeps {B = Unit {0}} P (save_observation active) _ s2 (read_back reply w2) (λ _ _.
            let s4 = (confirming active.settings s3).1 in
            let w4 = check_confirmed-exchange wanted active.settings s3 ∙ w2 in
            then-keeps {B = Unit {0}} P (confirming active.settings) _ s3 (read_back reply w4)
              (λ u passed.
                let (response, got, reported) = read_configuration-ok s1 active found in
                let c : IsConfirmed wanted response = record {
                  active = active;
                  reported = reported;
                  same = check_confirmed-ok wanted active.settings s3 u passed;
                } in
                let w5 = w4 ∙ ap (λ r. before ++ (sent zpl ∷ asked r ∷ [])) got in
                let verified =
                  note (λ r. record r {
                    active_values_verified = true;
                    state = save_outcome_unknown;
                  }) in
                let s5 = (verified s4).1 in
                let s6 = (save_attempt s5).1 in
                let s7 = (write_bytes save_all s6).1 in
                let both : s7.exchange
                    ≡ before ++ (sent zpl ∷ asked (ok response) ∷ sent save_all ∷ []) =
                  ap (λ l. l ++ (sent save_all ∷ [])) w5
                  ∙ append_assoc before (sent zpl ∷ asked (ok response) ∷ [])
                      (sent save_all ∷ []) in
                let told = note (λ r. record r { save_command_sent = true }) in
                let s8 = (told s7).1 in
                let last : List Exchange = asked (head_reply s8.replies) ∷ [] in
                let finishing =
                  check_saved parse_f64 dpi_of digest lossy show_float now profile wanted in
                let telling : Exec Session (Unit {0}) = told >>= λ _. finishing in
                let saving : Exec Session (Unit {0}) = write_bytes save_all >>= λ _. telling in
                let recording : Exec Session (Unit {0}) = save_attempt >>= λ _. saving in
                let w9 =
                  check_saved-exchange wanted s8
                  ∙ ap (λ l. l ++ last) both
                  ∙ append_assoc before (sent zpl ∷ asked (ok response) ∷ sent save_all ∷ [])
                      last in
                then-keeps {B = Unit {0}} P verified (λ _. recording) s4 (read_back reply w4)
                  (λ _ _.
                    then-keeps {B = Unit {0}} P save_attempt (λ _. saving) s5 (read_back reply w4)
                      (λ _ _.
                        then-keeps {B = Unit {0}} P (write_bytes save_all) (λ _. telling) s6
                          (saved response [] c tt both)
                          (λ _ _.
                            then-keeps {B = Unit {0}} P told (λ _. finishing) s7
                              (saved response [] c tt both)
                              (λ _ _. saved response last c (tt, tt) w9))))))))
