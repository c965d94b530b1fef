-- ===== src/Device/Verified.antt =====
-- When `save_configuration` of src/device.rs makes the printer save its settings.
use zebra_tamer.Prelude.{
  ℕ, String, ◌≡◌, refl, sym, ap, subst, ◌∙◌, ◌⊎◌, inl, inr, true, Option, List, [], ◌∷◌, ◌++◌, All,
  str_eq, eq_iff,
}
use zebra_tamer.Prelude.Float.{Float}
use zebra_tamer.Prelude.Text.{Text, Bytes}
use zebra_tamer.Prelude.Result.{ok, ensure}
use zebra_tamer.Prelude.Inversion.{ensure-ok}
use zebra_tamer.Prelude.Exec.{Exec, lift, ◌>>=◌}
use zebra_tamer.Model.Job.{DateTime}
use zebra_tamer.Driver.{DeviceProfile}
use zebra_tamer.Device.{validate, is_readable}
use zebra_tamer.Device.Report.{Observation}
use zebra_tamer.Device.Saving.{
  SaveRequest, SaveReport, Session, Exchange, asked, head_reply, save_attempt, note,
  read_configuration, apply_and_save, check_save, save_configuration, may_set_length, fresh_report,
  settle,
}
use zebra_tamer.Device.Confirmed.{
  then-keeps, then-ok_step, read_configuration-exchange, IsQuestion, IsCareful,
  apply_and_save-IsCareful,
}

module _ (parse_f64 : Text → Option Float) (dpi_of : Float → ℕ) (digest : List Text → String)
    (lossy : Bytes → Text) (show_float : Float → Text) (now : DateTime)
    (profile : DeviceProfile) where
  -- What has been checked before anything is sent.
  pub record IsChecked (request : SaveRequest) (s : Session) : Type 0 where
    pub before : Observation
    pub confirmed : request.confirm_save_all ≡ true
    pub valid : validate profile request.settings ≡ ok tt
    pub observed :
        (read_configuration parse_f64 dpi_of digest lossy show_float now profile s).0 ≡ ok before
    pub current : before.revision ≡ request.revision
    pub readable : is_readable request.settings before.settings ≡ true

  check_save-IsChecked :
      (request : SaveRequest) (s : Session) (u : Unit {0})
      → (check_save parse_f64 dpi_of digest lossy show_float now profile request s).0 ≡ ok u
      → IsChecked request s
  unfolding check_save
  check_save-IsChecked request s u h =
      let reading = read_configuration parse_f64 dpi_of digest lossy show_float now profile in
      let (c, confirmed, h1) =
        then-ok_step
          (lift (
            ensure request.confirm_save_all
              "Confirm that all current persistent device settings will be saved"))
          _ s u h in
      let (v, valid, h2) = then-ok_step (lift (validate profile request.settings)) _ s u h1 in
      let (before, observed, h3) = then-ok_step reading _ s u h2 in
      let s1 = (reading s).1 in
      let (r, current, h4) =
        then-ok_step
          (lift (
            ensure (str_eq before.revision request.revision)
              "conflict: Device configuration changed; read it again before saving"))
          _ s1 u h3 in
      let (f, readable, _) =
        then-ok_step
          (lift (
            ensure (is_readable request.settings before.settings)
              "Cannot safely verify unsupported or unreadable field"))
          _ s1 u h4 in
      record {
        before = before;
        confirmed = ensure-ok _ _ c confirmed;
        valid = valid;
        observed = observed;
        current = (eq_iff before.revision request.revision).0 (ensure-ok _ _ r current);
        readable = ensure-ok _ _ f readable;
      }

  check_save-IsQuestion :
      (request : SaveRequest) (s : Session)
      → s.exchange ≡ []
      → All IsQuestion
          (check_save parse_f64 dpi_of digest lossy show_float now profile request s).1.exchange
  unfolding check_save
  check_save-IsQuestion request s fresh =
      let P : Session → Type 0 = λ t. All IsQuestion t.exchange in
      let reading = read_configuration parse_f64 dpi_of digest lossy show_float now profile in
      let s1 = (reading s).1 in
      let none_yet : P s = subst (All IsQuestion) (sym fresh) tt in
      let one : P s1 =
        subst (All IsQuestion)
          (sym (
            read_configuration-exchange parse_f64 dpi_of digest lossy show_float now profile s
            ∙ ap (λ l. l ++ (asked (head_reply s.replies) ∷ [])) fresh))
          (tt, tt) in
      then-keeps {B = Unit {0}} P
        (lift (
          ensure request.confirm_save_all
            "Confirm that all current persistent device settings will be saved"))
        _ s none_yet
        (λ _ _.
          then-keeps {B = Unit {0}} P (lift (validate profile request.settings)) _ s none_yet
            (λ _ _. then-keeps {B = Unit {0}} P reading _ s one (λ before _.
              then-keeps {B = Unit {0}} P
                (lift (
                  ensure (str_eq before.revision request.revision)
                    "conflict: Device configuration changed; read it again before saving"))
                _ s1 one
                (λ _ _.
                  then-keeps {B = Unit {0}} P
                    (lift (
                      ensure (is_readable request.settings before.settings)
                        "Cannot safely verify unsupported or unreadable field"))
                    (λ _. lift (
                      ensure (may_set_length request.settings before.settings)
                        "For gap/mark labels the printer determines length by calibration"))
                    s1 one (λ _ _. one)))))

  -- From a session in which nothing has passed yet, a request to save sends at most two commands. The
  -- settings are sent only when the request confirms that everything is saved, the settings are within
  -- the hardware's limits, the printer's report is the one that the client has seen, and it shows every
  -- field that is to change. The command to save is sent only behind the settings and one query, when
  -- the reply to this query reports every setting as wanted; behind it the printer is only asked.
  pub save_configuration_lem :
      (request : SaveRequest) (s : Session)
      → s.exchange ≡ []
      → let s' =
          (save_configuration parse_f64 dpi_of digest lossy show_float now profile request s).1 in
        All IsQuestion s'.exchange
        ⊎ (IsChecked request s
            × ((before : List Exchange) × All IsQuestion before
                × IsCareful parse_f64 dpi_of digest lossy show_float now profile request.settings
                    before s'.exchange))
  unfolding save_configuration
  save_configuration_lem request s fresh =
      let wanted = request.settings in
      let checking = check_save parse_f64 dpi_of digest lossy show_float now profile request in
      let s1 = (checking s).1 in
      let before = s1.exchange in
      let P : Session → Type 0 = λ t.
        All IsQuestion t.exchange
        ⊎ (IsChecked request s
            × ((b : List Exchange) × All IsQuestion b
                × IsCareful parse_f64 dpi_of digest lossy show_float now profile wanted b
                    t.exchange)) in
      let applying = apply_and_save parse_f64 dpi_of digest lossy show_float now profile wanted in
      let starting =
        note (λ _. fresh_report parse_f64 dpi_of digest lossy show_float now profile wanted) in
      let settling : Exec Session (Unit {0}) =
        λ t. settle parse_f64 dpi_of digest lossy show_float now profile (applying t) in
      let answer : Exec Session SaveReport = λ t. (ok t.report, t) in
      let filing : Exec Session SaveReport = save_attempt >>= λ _. answer in
      let running : Exec Session SaveReport = settling >>= λ _. filing in
      let recording : Exec Session SaveReport = save_attempt >>= λ _. running in
      let none_sent = check_save-IsQuestion request s fresh in
      let s2 = (starting s1).1 in
      let s3 = (save_attempt s2).1 in
      let s4 = (settling s3).1 in
      then-keeps {B = SaveReport} P checking _ s (inl none_sent) (λ u passed.
        then-keeps {B = SaveReport} P starting (λ _. recording) s1 (inl none_sent)
          (λ _ _.
            then-keeps {B = SaveReport} P save_attempt (λ _. running) s2 (inl none_sent)
              (λ _ _.
                let p4 : P s4 = inr (
                  check_save-IsChecked request s u passed,
                  (
                    before,
                    none_sent,
                    apply_and_save-IsCareful parse_f64 dpi_of digest lossy show_float now profile
                        wanted before s3 refl,
                  ),
                ) in
                then-keeps {B = SaveReport} P settling (λ _. filing) s3 p4
                  (λ _ _.
                    then-keeps {B = SaveReport} P save_attempt (λ _. answer) s4 p4 (λ _ _. p4)))))
