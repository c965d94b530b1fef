-- ===== src/Tests/Auth.antt =====
-- Tokens of src/webui.rs.
use zebra_tamer.Prelude.{◌≡◌, ◌↔◌, refl, true, false, none, some}
use zebra_tamer.Prelude.Text.{codes}
use zebra_tamer.Auth.{read, Tokens, authorized}
use zebra_tamer.Auth.Scopes.{authorized_iff, Presents}

abbrev tokens : Tokens
tokens = record {
  read_token = some (codes "short");
  print_token = some (codes "print-print-print-print-1");
  admin_token = none;
}

authorized_iff_example :
    (authorized tokens (some (codes "Bearer print-print-print-print-1")) read ≡ true)
    ↔ Presents tokens (some (codes "Bearer print-print-print-print-1")) read
authorized_iff_example =
    authorized_iff tokens (some (codes "Bearer print-print-print-print-1")) read

-- The print token reads, but the read token is too short to open anything.
reads : authorized tokens (some (codes "Bearer print-print-print-print-1")) read ≡ true
unfolding authorized
reads = refl

too_short : authorized tokens (some (codes "Bearer short")) read ≡ false
unfolding authorized
too_short = refl
