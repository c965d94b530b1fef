-- ===== src/Tests/Transport.antt =====
-- Payloads and queries over the transports of src/transport.rs.
use zebra_tamer.Prelude.{
  ◌≤◌, ◌≡◌, ◌≢◌, refl, true, false, Option, none, some, List, [], ◌∷◌, ◌++◌, length, map,
}
use zebra_tamer.Prelude.Text.{Text, Bytes, codes}
use zebra_tamer.Prelude.Result.{Result, ok}
use zebra_tamer.Worker.Machine.{delivered, failure}
use zebra_tamer.Worker.Retry.{bytes_of}
use zebra_tamer.Transport.{
  accepted, would_block, Chunk, piece, Device, Tcp, char_device, usb_bulk, tcp, taken_of,
  write_file,
}
use zebra_tamer.Transport.Sending.{error_of, write_file_lem}
use zebra_tamer.Transport.Query.{
  Read, got, silent, QueryResponse, query_tcp, query_usb, query_char, classify,
}
use zebra_tamer.Transport.Replies.{query_tcp_lem, query_unbounded}

abbrev payload : Option (List Chunk)
payload = some (piece (1 ∷ 2 ∷ 3 ∷ 4 ∷ []) ∷ piece (5 ∷ []) ∷ [])

-- Two bytes go, then the device is busy for a while, then it is gone.
abbrev stuck : Device
stuck = record {
  taken = 9 ∷ [];
  answers = accepted 2 ∷ would_block true ∷ accepted 1 ∷ would_block false ∷ [];
}

write_file_lem_example :
    let (w, t') = write_file payload (char_device stuck) in
    (part : Bytes) × (rest : Bytes) × (1 ∷ 2 ∷ 3 ∷ 4 ∷ 5 ∷ [] ≡ part ++ rest)
    × (taken_of t' ≡ (9 ∷ []) ++ part)
    × (bytes_of w ≡ length part)
    × (error_of w ≡ none → part ≡ 1 ∷ 2 ∷ 3 ∷ 4 ∷ 5 ∷ [])
write_file_lem_example = write_file_lem payload (char_device stuck)

broken_off : (write_file payload (char_device stuck)).0 ≡ failure 3 "write_timeout"
unfolding write_file
broken_off = refl

over_usb : (write_file payload (usb_bulk stuck)).0 ≡ failure 2 "timed out"
unfolding write_file
over_usb = refl

abbrev socket : Tcp
socket = record {
  connected = true;
  wrote_since_connect = true;
  connects = [];
  device = record { taken = []; answers = [] };
}

over_tcp : (write_file payload (tcp socket)).0 ≡ delivered 5
unfolding write_file
over_tcp = refl

abbrev lossy : Bytes → Text
lossy bytes = bytes

abbrev reads : List Read
reads = got (codes "ZEB") ∷ got (codes "RA") ∷ silent ∷ []

query_tcp_lem_example :
    let (answer, t') = query_tcp lossy 5 (codes "~HI") reads socket in
    ((response : QueryResponse)
      → answer ≡ ok response
      → (length response.bytes ≤ 5) × (response.bytes ≢ []))
    × (t'.connected ≡ false)
query_tcp_lem_example = query_tcp_lem lossy 5 (codes "~HI") reads socket

answered :
    (query_tcp lossy 5 (codes "~HI") reads socket).0
    ≡ ok (record { bytes = codes "ZEBRA"; classification = "structured" })
unfolding query_tcp
answered = refl

abbrev idle : Device
idle = record { taken = []; answers = [] }

query_unbounded_example :
    let script = map (λ q. got q) (codes "ZEB" ∷ codes "RA" ∷ []) in
    let whole : Result QueryResponse =
      ok (record { bytes = codes "ZEBRA"; classification = classify lossy (codes "ZEBRA") }) in
    ((query_usb lossy true (codes "~HI") script idle).0 ≡ whole)
    × ((query_char lossy (codes "~HI") script idle).0 ≡ whole)
query_unbounded_example =
    query_unbounded lossy (codes "~HI") (codes "ZEB") (codes "RA" ∷ []) idle tt refl
