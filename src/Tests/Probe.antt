-- ===== src/Tests/Probe.antt =====
-- Probes (src/worker.rs) of one printer, the page of metrics (src/metrics.rs) and digests (src/hash.rs).
use zebra_tamer.Prelude.{
  ℕ, ◌≡◌, refl, String, true, false, Option, some, [], ◌∷◌, ◌++◌, All, length, if◌then◌else◌,
}
use zebra_tamer.Prelude.Float.{Float, of_ℕ}
use zebra_tamer.Prelude.Text.{Text, Bytes, codes}
use zebra_tamer.Prelude.Result.{ok, err, Error, message}
use zebra_tamer.Model.Snapshot.{new_snapshot}
use zebra_tamer.Store.Files.{absent, fine}
use zebra_tamer.Probe.{answered, lost}
use zebra_tamer.Probe.Run.{Prober, disabled, ensure_open, probe}
use zebra_tamer.Probe.Asked.{asked, asked_by, first_answered, probe_lem}
use zebra_tamer.Metrics.{esc, render}
use zebra_tamer.Metrics.Escape.{read_label, read_label-esc}
use zebra_tamer.Metrics.Lines.{is_plain, render-plain}
use zebra_tamer.Hash.{encode_hex}
use zebra_tamer.Tests.Data.{store_with}

abbrev lossy : Bytes → Text
lossy bytes = bytes

abbrev base64 : Bytes → String
base64 bytes = "YQ=="

abbrev parse_f64 : Text → Option Float
parse_f64 text = some (of_ℕ 8)

abbrev dpi_of : Float → ℕ
dpi_of x = 203

-- A printer that is not open yet, answers its status and then the configuration only.
abbrev prober : Prober
prober = record {
  snapshot = new_snapshot 3 "p1";
  file = absent;
  channel = record {
    is_open = false;
    opens = [];
    replies =
        answered (codes "030,0,1,x") "response" 4
        ∷ lost "timeout" 9
        ∷ lost "timeout" 9
        ∷ lost "timeout" 9
        ∷ answered (codes "  V75.20.01<-  FIRMWARE\n  8/MM FULL  RESOLUTION") "structured" 8
        ∷ [];
    asked = [];
  };
}

abbrev probed : Prober
probed = (probe lossy base64 parse_f64 dpi_of 20 true disabled fine prober).1

knows_firmware : probed.snapshot.identity.firmware.value ≡ some (codes "V75.20.01")
unfolding probe
knows_firmware = refl

knows_dpi : probed.snapshot.identity.resolution_dpi.value ≡ some 203
unfolding probe
knows_dpi = refl

knows_pause : probed.snapshot.status.paused.value ≡ some true
unfolding probe
knows_pause = refl

asks_eleven : length (asked probed) ≡ 11
unfolding probe
asks_eleven = refl

probe_lem_example :
    let (opening, at) = ensure_open lossy base64 parse_f64 dpi_of 20 prober in
    let any = first_answered at in
    let (r, q) = probe lossy base64 parse_f64 dpi_of 20 true disabled fine prober in
    ((e : Error) → opening ≡ err e → (r ≡ err e) × (asked q ≡ asked at))
    × (opening ≡ ok tt
        → (r ≡ (if any then ok tt else err (message "printer did not answer any base query")))
          × (asked q ≡ asked at ++ asked_by any true disabled)
          × (q.snapshot.transport.protocol_up.value ≡ some any))
probe_lem_example = probe_lem lossy base64 parse_f64 dpi_of 20 true disabled fine prober

escapes : esc (codes "a\"b\\\n") ≡ codes "a\\\"b\\\\\\n"
unfolding esc
escapes = refl

read_label-esc_example :
    read_label false (esc (codes "p\"1\\\n") ++ (b'"' ∷ codes "} 1"))
    ≡ some (codes "p\"1\\\n", codes "} 1")
read_label-esc_example = read_label-esc (codes "p\"1\\\n") (codes "} 1")

abbrev seconds : ℕ → Text
seconds ms = codes "0.017"

seconds-plain : (ms : ℕ) → is_plain (seconds ms) ≡ true
unfolding is_plain
seconds-plain ms = refl

version-plain : is_plain (codes "1.0.0") ≡ true
unfolding is_plain
version-plain = refl

commit-plain : is_plain (codes "unknown") ≡ true
unfolding is_plain
commit-plain = refl

render-plain_example :
    All
      (λ l. is_plain l ≡ true)
      (render seconds
        (codes "1.0.0")
        (codes "unknown")
        5
        9
        (store_with [])
        (("p1", probed.snapshot) ∷ []))
render-plain_example =
    render-plain seconds seconds-plain (store_with []) (codes "1.0.0") (codes "unknown") 5 9
      (("p1", probed.snapshot) ∷ []) version-plain commit-plain

writes_hex : encode_hex (222 ∷ 10 ∷ []) ≡ codes "de0a"
unfolding encode_hex
writes_hex = refl
