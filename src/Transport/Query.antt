-- ===== src/Transport/Query.antt =====
-- The queries of src/transport.rs: a command out, and what comes back until the printer is silent.
-- `lossy` stands for the decoding of the reply as UTF-8.
use zebra_tamer.Prelude.{
  ℕ, ◌+◌, String, Bool, true, false, ◌||◌, Option, none, some, List, [], ◌∷◌, ◌++◌, length, leb,
  map, is_some, if◌then◌else◌,
}
use zebra_tamer.Prelude.Text.{Text, Bytes, codes, strip_prefix, to_ascii_lowercase, is_blank}
use zebra_tamer.Prelude.Result.{Result, ok, err, message}
use zebra_tamer.Transport.{write_nonblocking, write_counted, Device, Tcp, stream, after}

-- One wait for the reply: bytes, the end of the connection, silence until the time is up, a device
-- that was reported as ready and had nothing (of sockets: silence), or an error. A script that is
-- used up is silence.
pub data Read : Type 0 where
  got : Bytes → Read
  silent spurious : Read
  read_error : String → Read

pub record QueryResponse : Type 0 where
  pub bytes : Bytes
  pub classification : String

-- `contains`.
unfoldable pub contains : Text → Text → Bool
contains p [] = is_some (strip_prefix p [])
contains p (c ∷ cs) = let rest = contains p cs in is_some (strip_prefix p (c ∷ cs)) || rest

unfoldable pub classify_text : Text → String
unfolding is_blank contains
classify_text text =
    if is_blank text
    then "empty"
    else if contains (codes "error") text || contains (codes "invalid") text
    then "printer_error"
    else if contains (codes "zebra") text
        || contains (codes "firmware") text
        || contains (codes "memory") text
    then "structured"
    else "response"

-- The loop of the TCP query; an empty read is the end of the connection.
unfoldable pub collect_tcp : ℕ → List Read → Bytes → Result Bytes
collect_tcp limit [] [] = err (message "first_byte_timeout")
collect_tcp limit [] (b ∷ bs) = ok (b ∷ bs)
collect_tcp limit (silent ∷ reads) [] = err (message "first_byte_timeout")
collect_tcp limit (silent ∷ reads) (b ∷ bs) = ok (b ∷ bs)
collect_tcp limit (spurious ∷ reads) [] = err (message "first_byte_timeout")
collect_tcp limit (spurious ∷ reads) (b ∷ bs) = ok (b ∷ bs)
collect_tcp limit (read_error e ∷ reads) out = err (message e)
collect_tcp limit (got [] ∷ reads) [] = err (message "connection_closed_before_response")
collect_tcp limit (got [] ∷ reads) (b ∷ bs) = ok (b ∷ bs)
collect_tcp limit (got (c ∷ cs) ∷ reads) out = elim (leb (length out + length (c ∷ cs)) limit) [
  | true ↦ collect_tcp limit reads (out ++ (c ∷ cs))
  | false ↦ err (message "response_too_large")
]

-- The loop of the query of a character device, behind the poll for the first byte.
unfoldable pub collect_char : List Read → Bytes → Result Bytes
collect_char [] out = ok out
collect_char (silent ∷ reads) out = ok out
collect_char (spurious ∷ reads) out = collect_char reads out
collect_char (read_error e ∷ reads) out = err (message e)
collect_char (got [] ∷ reads) out = ok out
collect_char (got (c ∷ cs) ∷ reads) out = collect_char reads (out ++ (c ∷ cs))

-- The second loop of the USB query; a bulk read that returns nothing has timed out.
unfoldable pub collect_usb : List Read → Bytes → Result Bytes
collect_usb [] out = ok out
collect_usb (silent ∷ reads) out = ok out
collect_usb (spurious ∷ reads) out = ok out
collect_usb (read_error e ∷ reads) out = err (message e)
collect_usb (got [] ∷ reads) out = ok out
collect_usb (got (c ∷ cs) ∷ reads) out = collect_usb reads (out ++ (c ∷ cs))

unfoldable pub first_char : List Read → Result Bytes
unfolding collect_char
first_char [] = err (message "first_byte_timeout")
first_char (silent ∷ reads) = err (message "first_byte_timeout")
first_char (r ∷ reads) = collect_char (r ∷ reads) []

unfoldable pub first_usb : List Read → Result Bytes
unfolding collect_usb
first_usb [] = err (message "first_byte_timeout")
first_usb (silent ∷ reads) = err (message "first_byte_timeout")
first_usb (spurious ∷ reads) = err (message "first_byte_timeout")
first_usb (got [] ∷ reads) = err (message "first_byte_timeout")
first_usb (r ∷ reads) = collect_usb (r ∷ reads) []

-- The command has to go out whole.
abbrev pub when_sent : Option String → Result Bytes → Result Bytes
when_sent none answer = answer
when_sent (some e) answer = err (message e)

-- `fresh_query_stream`: a connection over which something was written is replaced.
unfoldable pub fresh_query_stream : Tcp → Option String × Tcp
unfolding stream
fresh_query_stream t =
    let (e, t') = stream t in
    elim e [
      | some x ↦ (some x, t')
      | none ↦ elim t'.wrote_since_connect [
        | true ↦ stream (record t' { connected = false })
        | false ↦ (none, t')
      ]
    ]

module _ (lossy : Bytes → Text) where
  unfoldable pub classify : Bytes → String
  unfolding classify_text
  classify bytes = classify_text (map to_ascii_lowercase (lossy bytes))

  abbrev pub respond : Result Bytes → Result QueryResponse
  respond (ok bytes) = ok (record { bytes = bytes; classification = classify bytes })
  respond (err e) = err e

  -- `query` of `CharDeviceTransport`.
  unfoldable pub query_char : Bytes → List Read → Device → Result QueryResponse × Device
  unfolding first_char write_nonblocking classify
  query_char command reads d =
      let r = write_nonblocking d.answers command 0 d.taken in
      (respond (when_sent r.error (first_char reads)), after r)

  -- `query` of `UsbBulkTransport`, of a printer with or without a bulk IN endpoint.
  unfoldable pub query_usb : Bool → Bytes → List Read → Device → Result QueryResponse × Device
  unfolding first_usb write_counted classify
  query_usb false command reads d =
      (err (message "USB printer does not expose a bulk IN endpoint"), d)
  query_usb true command reads d =
      let r = write_counted d.answers command 0 d.taken in
      (respond (when_sent r.error (first_usb reads)), after r)

  unfoldable pub query_over :
      ℕ → Bytes → List Read → Option String × Tcp → Result QueryResponse × Tcp
  unfolding collect_tcp write_counted classify
  query_over limit command reads (some e, t) = (err (message e), record t { connected = false })
  query_over limit command reads (none, t) =
      let r = write_counted t.device.answers command 0 t.device.taken in
      (
        respond (when_sent r.error (collect_tcp limit reads [])),
        record t { connected = false; device = after r },
      )

  -- `query` of `TcpTransport`: it takes the connection out of the transport, for good.
  unfoldable pub query_tcp : ℕ → Bytes → List Read → Tcp → Result QueryResponse × Tcp
  unfolding query_over fresh_query_stream
  query_tcp limit command reads t = query_over limit command reads (fresh_query_stream t)
