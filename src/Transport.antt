-- ===== src/Transport.antt =====
-- src/transport.rs: how a payload goes to a printer. The outside is a script: the answers of the
-- printer's side to the coming writes and connects, and what the reads of the payload's file give.
-- When a script is used up, writes take all they are offered, connects succeed and files end.
pub mod Sending
pub mod Query
pub mod Replies
use zebra_tamer.Prelude.{
  ℕ, zero, suc, ◌+◌, String, Bool, true, false, Option, none, some, List, [], ◌∷◌, ◌++◌, length,
  take, drop, min,
}
use zebra_tamer.Prelude.Text.{Bytes}
use zebra_tamer.Worker.Machine.{Written, delivered, failure}

-- One call of `write`: it takes some bytes (never more than it is offered), would block (and the poll
-- says before the deadline that the device is ready again, or does not), or fails.
pub data Answer : Type 0 where
  accepted : ℕ → Answer
  would_block : Bool → Answer
  broken : String → Answer

-- What a loop over one chunk leaves: its error, `*total`, the bytes that the printer has taken, and
-- the answers that are left.
pub record Sent : Type 0 where
  pub error : Option String
  pub total : ℕ
  pub taken : Bytes
  pub answers : List Answer

abbrev pub stopped : String → ℕ → Bytes → List Answer → Sent
stopped e total taken answers = record {
  error = some e;
  total = total;
  taken = taken;
  answers = answers;
}

abbrev pub all_sent : ℕ → Bytes → List Answer → Sent
all_sent total taken answers = record {
  error = none;
  total = total;
  taken = taken;
  answers = answers;
}

-- `write_all_nonblocking_counted`, to a character device.
unfoldable pub write_nonblocking : List Answer → Bytes → ℕ → Bytes → Sent
write_nonblocking answers [] total taken = all_sent total taken answers
write_nonblocking [] (b ∷ bs) total taken =
    all_sent (total + length (b ∷ bs)) (taken ++ (b ∷ bs)) []
write_nonblocking (accepted zero ∷ answers) (b ∷ bs) total taken =
    stopped "device accepted zero bytes" total taken answers
write_nonblocking (accepted (suc k) ∷ answers) (b ∷ bs) total taken =
    let n = min (suc k) (length (b ∷ bs)) in
    write_nonblocking answers (drop n (b ∷ bs)) (total + n) (taken ++ take n (b ∷ bs))
write_nonblocking (would_block true ∷ answers) (b ∷ bs) total taken =
    write_nonblocking answers (b ∷ bs) total taken
write_nonblocking (would_block false ∷ answers) (b ∷ bs) total taken =
    stopped "write_timeout" total taken answers
write_nonblocking (broken e ∷ answers) (b ∷ bs) total taken = stopped e total taken answers

-- `write_counted` to a socket and the loop over a chunk to a bulk endpoint: a write that would block
-- is a write that timed out.
unfoldable pub write_counted : List Answer → Bytes → ℕ → Bytes → Sent
write_counted answers [] total taken = all_sent total taken answers
write_counted [] (b ∷ bs) total taken = all_sent (total + length (b ∷ bs)) (taken ++ (b ∷ bs)) []
write_counted (accepted zero ∷ answers) (b ∷ bs) total taken =
    stopped "printer accepted zero bytes" total taken answers
write_counted (accepted (suc k) ∷ answers) (b ∷ bs) total taken =
    let n = min (suc k) (length (b ∷ bs)) in
    write_counted answers (drop n (b ∷ bs)) (total + n) (taken ++ take n (b ∷ bs))
write_counted (would_block ready ∷ answers) (b ∷ bs) total taken =
    stopped "timed out" total taken answers
write_counted (broken e ∷ answers) (b ∷ bs) total taken = stopped e total taken answers

-- A read of the payload's file; an empty piece is its end.
pub data Chunk : Type 0 where
  piece : Bytes → Chunk
  unreadable : String → Chunk

-- The device beside its script.
pub record Device : Type 0 where
  pub taken : Bytes
  pub answers : List Answer

abbrev pub after : Sent → Device
after r = record { taken = r.taken; answers = r.answers }

-- `write_file` over the chunks of an opened file, with the loop that sends one chunk.
module _ (send : List Answer → Bytes → ℕ → Bytes → Sent) where
  unfoldable pub send_chunks : List Chunk → ℕ → Device → Written × Device
  send_chunks [] total d = (delivered total, d)
  send_chunks (piece [] ∷ chunks) total d = (delivered total, d)
  send_chunks (unreadable e ∷ chunks) total d = (failure total e, d)
  send_chunks (piece (b ∷ bs) ∷ chunks) total d =
      let r = send d.answers (b ∷ bs) total d.taken in
      elim r.error [
        | some e ↦ (failure r.total e, after r)
        | none ↦ send_chunks chunks r.total (after r)
      ]

-- `File::open`, then the loop; `none` is a file that cannot be opened.
abbrev pub opening :
    (List Chunk → ℕ → Device → Written × Device) → Option (List Chunk) → Device → Written × Device
opening loop none d = (failure 0 "cannot open the payload", d)
opening loop (some chunks) d = loop chunks 0 d

-- `write_file` of `CharDeviceTransport`.
unfoldable pub write_file_char : Option (List Chunk) → Device → Written × Device
unfolding send_chunks write_nonblocking
write_file_char file d = opening (send_chunks write_nonblocking) file d

-- `write_file` of `UsbBulkTransport`.
unfoldable pub write_file_usb : Option (List Chunk) → Device → Written × Device
unfolding send_chunks write_counted
write_file_usb file d = opening (send_chunks write_counted) file d

-- `TcpTransport`: `stream` is none after a query, which uses its connection up.
pub record Tcp : Type 0 where
  pub connected : Bool
  pub wrote_since_connect : Bool
  pub connects : List (Option String)
  pub device : Device

abbrev head_connect : List (Option String) → Option String
head_connect [] = none
head_connect (c ∷ cs) = c

abbrev tail_connects : List (Option String) → List (Option String)
tail_connects [] = []
tail_connects (c ∷ cs) = cs

connect_with : Option String → Tcp → Option String × Tcp
connect_with (some e) t = (some e, record t { connects = tail_connects t.connects })
connect_with none t = (
  none,
  record t { connected = true; wrote_since_connect = false; connects = tail_connects t.connects },
)

-- `stream`: the connection, made anew if there is none; `some e` is its error.
unfoldable pub stream : Tcp → Option String × Tcp
unfolding connect_with
stream t = elim t.connected [ true ↦ (none, t) | false ↦ connect_with (head_connect t.connects) t ]

-- One chunk over the connection: the error, if any, and the count.
unfoldable pub send_tcp : Bytes → ℕ → Option String × Tcp → Option String × ℕ × Tcp
unfolding write_counted
send_tcp bytes total (some e, t) = (some e, total, t)
send_tcp bytes total (none, t) =
    let r = write_counted t.device.answers bytes total t.device.taken in
    elim r.error [
      | some e ↦ (some e, r.total, record t { device = after r })
      | none ↦ (none, r.total, record t { device = after r; wrote_since_connect = true })
    ]

unfoldable pub send_tcp_chunks : List Chunk → ℕ → Tcp → Written × Tcp
unfolding stream send_tcp
send_tcp_chunks [] total t = (delivered total, t)
send_tcp_chunks (piece [] ∷ chunks) total t = (delivered total, t)
send_tcp_chunks (unreadable e ∷ chunks) total t = (failure total e, t)
send_tcp_chunks (piece (b ∷ bs) ∷ chunks) total t =
    let r = send_tcp (b ∷ bs) total (stream t) in
    elim r.0 [ some e ↦ (failure r.1 e, r.2) | none ↦ send_tcp_chunks chunks r.1 r.2 ]

-- `write_file` of `TcpTransport`.
unfoldable pub write_file_tcp : Option (List Chunk) → Tcp → Written × Tcp
unfolding send_tcp_chunks
write_file_tcp file t = elim file [
  | none ↦ (failure 0 "cannot open the payload", t)
  | some chunks ↦ send_tcp_chunks chunks 0 t
]

-- The trait object `dyn PrinterTransport`.
pub data PrinterTransport : Type 0 where
  char_device usb_bulk : Device → PrinterTransport
  tcp : Tcp → PrinterTransport

-- The bytes that the printer has taken.
abbrev pub taken_of : PrinterTransport → Bytes
taken_of (char_device d) = d.taken
taken_of (usb_bulk d) = d.taken
taken_of (tcp t) = t.device.taken

abbrev pub over : {A : Type 0} → (A → PrinterTransport) → Written × A → Written × PrinterTransport
over make (w, a) = (w, make a)

unfoldable pub write_file : Option (List Chunk) → PrinterTransport → Written × PrinterTransport
unfolding write_file_char write_file_usb write_file_tcp
write_file file (char_device d) = over char_device (write_file_char file d)
write_file file (usb_bulk d) = over usb_bulk (write_file_usb file d)
write_file file (tcp t) = over tcp (write_file_tcp file t)
