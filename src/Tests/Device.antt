-- ===== src/Tests/Device.antt =====
-- A change of the print speed through src/device.rs.
use zebra_tamer.Prelude.{◌≡◌, ◌⊎◌, refl, String, true, Option, none, some, List, [], ◌∷◌, ℕ, All}
use zebra_tamer.Prelude.Float.{Float}
use zebra_tamer.Prelude.Text.{Text, Bytes, codes}
use zebra_tamer.Prelude.Result.{Result, ok}
use zebra_tamer.Store.Files.{absent}
use zebra_tamer.Transport.Query.{QueryResponse}
use zebra_tamer.Device.{DeviceSettings, gap}
use zebra_tamer.Device.Fields.{lines}
use zebra_tamer.Device.Report.{settings_of}
use zebra_tamer.Device.Saving.{
  SaveRequest, Session, Exchange, asked, sent, head_reply, save_configuration, fresh_report,
}
use zebra_tamer.Device.Confirmed.{IsQuestion, IsCareful}
use zebra_tamer.Device.Verified.{IsChecked, save_configuration_lem}
use zebra_tamer.Tests.Driver.{profile}

abbrev parse_f64 : Text → Option Float
parse_f64 text = none

abbrev dpi_of : Float → ℕ
dpi_of x = 203

abbrev digest : List Text → String
digest ls = "r1"

abbrev lossy : Bytes → Text
lossy bytes = bytes

abbrev show_float : Float → Text
show_float x = []

abbrev speed : ℕ → DeviceSettings
speed n = record {
  darkness = none;
  print_speed = some n;
  x_offset = none;
  y_offset = none;
  print_width = none;
  label_length = none;
  print_mode = none;
  print_method = none;
  tracking = none;
}

abbrev said : String → Result QueryResponse
said text = ok (record { bytes = codes text; classification = "text" })

abbrev request : SaveRequest
request = record { revision = "r1"; settings = speed 4; confirm_save_all = true }

-- The printer takes the speed over, and keeps it.
abbrev session : Session
session = record {
  replies =
      said " 2  PRINT SPEED\r\n"
      ∷ said " 4  print speed\r\n"
      ∷ said " +4 PRINT SPEED  \n GAP/NOTCH  MEDIA TYPE"
      ∷ [];
  write_answers = [];
  exchange = [];
  outcomes = [];
  attempt = absent;
  configuration = absent;
  report = fresh_report parse_f64 dpi_of digest lossy show_float 30 profile (speed 4);
}

settings_read :
    settings_of parse_f64 dpi_of digest (lines (codes " +4 PRINT SPEED  \n GAP/NOTCH  MEDIA TYPE"))
    ≡ record (speed 4) { tracking = some gap }
unfolding settings_of lines
settings_read = refl

-- The first reply is the report that the client has seen, the second confirms the settings.
both_sent :
    (save_configuration parse_f64 dpi_of digest lossy show_float 30 profile request
      session).1.exchange
    ≡ asked (head_reply session.replies)
      ∷ sent (codes "^XA\n^PR4\n^XZ\n")
      ∷ asked (said " 4  print speed\r\n")
      ∷ sent (codes "^XA^JUS^XZ\n")
      ∷ asked (said " +4 PRINT SPEED  \n GAP/NOTCH  MEDIA TYPE")
      ∷ []
unfolding save_configuration
both_sent = refl

save_configuration_lem_example :
    let s' =
      (save_configuration parse_f64 dpi_of digest lossy show_float 30 profile request session).1 in
    All IsQuestion s'.exchange
    ⊎ (IsChecked parse_f64 dpi_of digest lossy show_float 30 profile request session
        × ((before : List Exchange) × All IsQuestion before
            × IsCareful parse_f64 dpi_of digest lossy show_float 30 profile
                (speed 4)
                before
                s'.exchange))
save_configuration_lem_example =
    save_configuration_lem parse_f64 dpi_of digest lossy show_float 30 profile request session refl
