-- ===== src/Transport/Sending.antt =====
-- What the write loops of src/transport.rs report is what the printer has taken.
use mathlib.Core.List.{append_assoc, append-nil}
use zebra_tamer.Prelude.{
  ℕ, zero, suc, ◌+◌, ◌≤◌, ◌≡◌, refl, sym, ap, subst, ◌∙◌, true, false, Option, none, some, String,
  List, [], ◌∷◌, ◌++◌, length, length-append, length-take, take, drop, take-append-drop, min, arith,
  inl, inr, Option-cases,
}
use zebra_tamer.Prelude.Text.{Bytes}
use zebra_tamer.Worker.Machine.{Written, delivered, failure}
use zebra_tamer.Worker.Retry.{bytes_of}
use zebra_tamer.Transport.{
  Answer, accepted, would_block, broken, Sent, write_nonblocking, write_counted, Chunk, piece,
  unreadable, Device, send_chunks, write_file_char, write_file_usb, Tcp, stream, send_tcp,
  send_tcp_chunks, write_file_tcp, PrinterTransport, char_device, usb_bulk, tcp, taken_of,
  write_file,
}

-- A loop over `offered` bytes: the printer has taken a first part of them, the count has grown by its
-- length, and without an error it is the whole.
pub record IsHonest (offered : Bytes) (total : ℕ) (taken : Bytes) (error : Option String)
    (total' : ℕ) (taken' : Bytes) : Type 0 where
  pub part : Bytes
  pub rest : Bytes
  pub split : offered ≡ part ++ rest
  pub moved : taken' ≡ taken ++ part
  pub counted : total' ≡ total + length part
  pub complete : error ≡ none → rest ≡ []

nothing-IsHonest :
    (offered : Bytes) (total : ℕ) (taken : Bytes) (e : String)
    → IsHonest offered total taken (some e) total taken
nothing-IsHonest offered total taken e = record {
  part = [];
  rest = offered;
  split = refl;
  moved = sym (append-nil taken);
  counted = omega arith;
  complete = λ h. cc;
}

everything-IsHonest :
    (offered : Bytes) (total : ℕ) (taken : Bytes)
    → IsHonest offered total taken none (total + length offered) (taken ++ offered)
everything-IsHonest offered total taken = record {
  part = offered;
  rest = [];
  split = sym (append-nil offered);
  moved = refl;
  counted = refl;
  complete = λ h. refl;
}

empty-IsHonest : (total : ℕ) (taken : Bytes) → IsHonest [] total taken none total taken
empty-IsHonest total taken = record {
  part = [];
  rest = [];
  split = refl;
  moved = sym (append-nil taken);
  counted = omega arith;
  complete = λ h. refl;
}

-- A write of some bytes, and the loop over the others.
step-IsHonest :
    (n : ℕ) (offered : Bytes) (total : ℕ) (taken : Bytes) (error : Option String) (total' : ℕ)
    (taken' : Bytes)
    → n ≤ length offered
    → IsHonest (drop n offered) (total + n) (taken ++ take n offered) error total' taken'
    → IsHonest offered total taken error total' taken'
step-IsHonest n offered total taken error total' taken' fits s = record {
  part = take n offered ++ s.part;
  rest = s.rest;
  split =
      sym (take-append-drop n offered)
      ∙ (ap (λ l. take n offered ++ l) s.split ∙ sym (append_assoc (take n offered) s.part s.rest));
  moved = s.moved ∙ append_assoc taken (take n offered) s.part;
  counted = omega (arith, s.counted, length-append (take n offered) s.part, length-take n offered);
  complete = s.complete;
}

write_nonblocking-IsHonest :
    (answers : List Answer) (offered : Bytes) (total : ℕ) (taken : Bytes)
    → let r = write_nonblocking answers offered total taken in
      IsHonest offered total taken r.error r.total r.taken
unfolding write_nonblocking
write_nonblocking-IsHonest answers [] total taken = empty-IsHonest total taken
write_nonblocking-IsHonest [] (b ∷ bs) total taken = everything-IsHonest (b ∷ bs) total taken
write_nonblocking-IsHonest (accepted zero ∷ answers) (b ∷ bs) total taken =
    nothing-IsHonest (b ∷ bs) total taken "device accepted zero bytes"
write_nonblocking-IsHonest (accepted (suc k) ∷ answers) (b ∷ bs) total taken =
    let n = min (suc k) (length (b ∷ bs)) in
    step-IsHonest n (b ∷ bs) total taken _ _ _ (omega arith)
      (write_nonblocking-IsHonest answers (drop n (b ∷ bs)) (total + n) (taken ++ take n (b ∷ bs)))
write_nonblocking-IsHonest (would_block true ∷ answers) (b ∷ bs) total taken =
    write_nonblocking-IsHonest answers (b ∷ bs) total taken
write_nonblocking-IsHonest (would_block false ∷ answers) (b ∷ bs) total taken =
    nothing-IsHonest (b ∷ bs) total taken "write_timeout"
write_nonblocking-IsHonest (broken e ∷ answers) (b ∷ bs) total taken =
    nothing-IsHonest (b ∷ bs) total taken e

write_counted-IsHonest :
    (answers : List Answer) (offered : Bytes) (total : ℕ) (taken : Bytes)
    → let r = write_counted answers offered total taken in
      IsHonest offered total taken r.error r.total r.taken
unfolding write_counted
write_counted-IsHonest answers [] total taken = empty-IsHonest total taken
write_counted-IsHonest [] (b ∷ bs) total taken = everything-IsHonest (b ∷ bs) total taken
write_counted-IsHonest (accepted zero ∷ answers) (b ∷ bs) total taken =
    nothing-IsHonest (b ∷ bs) total taken "printer accepted zero bytes"
write_counted-IsHonest (accepted (suc k) ∷ answers) (b ∷ bs) total taken =
    let n = min (suc k) (length (b ∷ bs)) in
    step-IsHonest n (b ∷ bs) total taken _ _ _ (omega arith)
      (write_counted-IsHonest answers (drop n (b ∷ bs)) (total + n) (taken ++ take n (b ∷ bs)))
write_counted-IsHonest (would_block ready ∷ answers) (b ∷ bs) total taken =
    nothing-IsHonest (b ∷ bs) total taken "timed out"
write_counted-IsHonest (broken e ∷ answers) (b ∷ bs) total taken =
    nothing-IsHonest (b ∷ bs) total taken e

-- An error in a chunk ends the file there.
ended-IsHonest :
    (p more : Bytes) (total : ℕ) (taken : Bytes) (e : String) (total' : ℕ) (taken' : Bytes)
    → IsHonest p total taken (some e) total' taken'
    → IsHonest (p ++ more) total taken (some e) total' taken'
ended-IsHonest p more total taken e total' taken' s = record {
  part = s.part;
  rest = s.rest ++ more;
  split = ap (λ l. l ++ more) s.split ∙ append_assoc s.part s.rest more;
  moved = s.moved;
  counted = s.counted;
  complete = λ h. cc;
}

-- A chunk that went through, and the rest of the file.
chained-IsHonest :
    (p more : Bytes) (total : ℕ) (taken : Bytes) (total' : ℕ) (taken' : Bytes)
    (error : Option String) (total'' : ℕ) (taken'' : Bytes)
    → IsHonest p total taken none total' taken'
    → IsHonest more total' taken' error total'' taken''
    → IsHonest (p ++ more) total taken error total'' taken''
chained-IsHonest p more total taken total' taken' error total'' taken'' s u =
    let whole : p ≡ s.part =
      s.split ∙ (ap (λ l. s.part ++ l) (s.complete refl) ∙ append-nil s.part) in
    record {
      part = s.part ++ u.part;
      rest = u.rest;
      split =
          ap (λ l. p ++ l) u.split
          ∙ (ap (λ l. l ++ (u.part ++ u.rest)) whole ∙ sym (append_assoc s.part u.part u.rest));
      moved = u.moved ∙ (ap (λ l. l ++ u.part) s.moved ∙ append_assoc taken s.part u.part);
      counted = omega (arith, s.counted, u.counted, length-append s.part u.part);
      complete = u.complete;
    }

-- What the reads of a file give before its end or an error.
abbrev pub content : List Chunk → Bytes
content [] = []
content (piece [] ∷ chunks) = []
content (unreadable e ∷ chunks) = []
content (piece (b ∷ bs) ∷ chunks) = (b ∷ bs) ++ content chunks

abbrev pub error_of : Written → Option String
error_of (delivered n) = none
error_of (failure n e) = some e

abbrev pub file_content : Option (List Chunk) → Bytes
file_content none = []
file_content (some chunks) = content chunks

module _ (send : List Answer → Bytes → ℕ → Bytes → Sent)
    (honest : (answers : List Answer) (offered : Bytes) (total : ℕ) (taken : Bytes)
      → let r = send answers offered total taken in
        IsHonest offered total taken r.error r.total r.taken) where
  send_chunks-IsHonest :
      (chunks : List Chunk) (total : ℕ) (d : Device)
      → let (w, d') = send_chunks send chunks total d in
        IsHonest (content chunks) total d.taken (error_of w) (bytes_of w) d'.taken
  unfolding send_chunks
  send_chunks-IsHonest [] total d = empty-IsHonest total d.taken
  send_chunks-IsHonest (piece [] ∷ chunks) total d = empty-IsHonest total d.taken
  send_chunks-IsHonest (unreadable e ∷ chunks) total d = nothing-IsHonest [] total d.taken e
  send_chunks-IsHonest (piece (b ∷ bs) ∷ chunks) total d =
      let r = send d.answers (b ∷ bs) total d.taken in
      let here = honest d.answers (b ∷ bs) total d.taken in
      elim (Option-cases r.error) [
        | inl e ↦
            rw (e, send_chunks)
              (chained-IsHonest (b ∷ bs) (content chunks) total d.taken r.total r.taken _ _ _
                (subst (λ x. IsHonest (b ∷ bs) total d.taken x r.total r.taken) e here)
                (send_chunks-IsHonest chunks r.total
                  (record { taken = r.taken; answers = r.answers })))
        | inr (x, e) ↦
            rw (e, send_chunks)
              (ended-IsHonest (b ∷ bs) (content chunks) total d.taken x r.total r.taken
                (subst (λ x. IsHonest (b ∷ bs) total d.taken x r.total r.taken) e here))
      ]

device-stream : (t : Tcp) → (stream t).1.device ≡ t.device
unfolding stream
device-stream t = ground arith

send_tcp-IsHonest :
    (offered : Bytes) (total : ℕ) (c : Option String × Tcp)
    → let r = send_tcp offered total c in
      IsHonest offered total c.1.device.taken r.0 r.1 r.2.device.taken
unfolding send_tcp
send_tcp-IsHonest offered total (some e, t) = nothing-IsHonest offered total t.device.taken e
send_tcp-IsHonest offered total (none, t) =
    let r = write_counted t.device.answers offered total t.device.taken in
    let here = write_counted-IsHonest t.device.answers offered total t.device.taken in
    elim (Option-cases r.error) [
      | inl e ↦
          rw (e, send_tcp)
            (subst (λ x. IsHonest offered total t.device.taken x r.total r.taken) e here)
      | inr (x, e) ↦
          rw (e, send_tcp)
            (subst (λ x. IsHonest offered total t.device.taken x r.total r.taken) e here)
    ]

send_tcp_chunks-IsHonest :
    (chunks : List Chunk) (total : ℕ) (t : Tcp)
    → let (w, t') = send_tcp_chunks chunks total t in
      IsHonest (content chunks) total t.device.taken (error_of w) (bytes_of w) t'.device.taken
unfolding send_tcp_chunks
send_tcp_chunks-IsHonest [] total t = empty-IsHonest total t.device.taken
send_tcp_chunks-IsHonest (piece [] ∷ chunks) total t = empty-IsHonest total t.device.taken
send_tcp_chunks-IsHonest (unreadable e ∷ chunks) total t =
    nothing-IsHonest [] total t.device.taken e
send_tcp_chunks-IsHonest (piece (b ∷ bs) ∷ chunks) total t =
    let r = send_tcp (b ∷ bs) total (stream t) in
    let here : IsHonest (b ∷ bs) total t.device.taken r.0 r.1 r.2.device.taken =
      subst (λ (d : Device). IsHonest (b ∷ bs) total d.taken r.0 r.1 r.2.device.taken)
        (device-stream t) (send_tcp-IsHonest (b ∷ bs) total (stream t)) in
    elim (Option-cases r.0) [
      | inl e ↦
          rw (e, send_tcp_chunks)
            (chained-IsHonest (b ∷ bs) (content chunks) total t.device.taken r.1 r.2.device.taken _
              _ _
              (subst (λ x. IsHonest (b ∷ bs) total t.device.taken x r.1 r.2.device.taken) e here)
              (send_tcp_chunks-IsHonest chunks r.1 r.2))
      | inr (x, e) ↦
          rw (e, send_tcp_chunks)
            (ended-IsHonest (b ∷ bs) (content chunks) total t.device.taken x r.1 r.2.device.taken
              (subst (λ x. IsHonest (b ∷ bs) total t.device.taken x r.1 r.2.device.taken) e here))
    ]

write_file-IsHonest :
    (file : Option (List Chunk)) (t : PrinterTransport)
    → let (w, t') = write_file file t in
      IsHonest (file_content file) 0 (taken_of t) (error_of w) (bytes_of w) (taken_of t')
unfolding write_file write_file_char write_file_usb write_file_tcp
write_file-IsHonest none (char_device d) = nothing-IsHonest [] 0 d.taken _
write_file-IsHonest none (usb_bulk d) = nothing-IsHonest [] 0 d.taken _
write_file-IsHonest none (tcp t) = nothing-IsHonest [] 0 t.device.taken _
write_file-IsHonest (some chunks) (char_device d) =
    send_chunks-IsHonest write_nonblocking write_nonblocking-IsHonest chunks 0 d
write_file-IsHonest (some chunks) (usb_bulk d) =
    send_chunks-IsHonest write_counted write_counted-IsHonest chunks 0 d
write_file-IsHonest (some chunks) (tcp t) = send_tcp_chunks-IsHonest chunks 0 t

-- Over every transport, and whatever the printer and the file's reads do: the printer has taken a
-- first part of the payload, the count that is reported is the length of that part, errors included,
-- and a delivery that is reported as complete has the whole payload.
pub write_file_lem :
    (file : Option (List Chunk)) (t : PrinterTransport)
    → let (w, t') = write_file file t in
      (part : Bytes) × (rest : Bytes) × (file_content file ≡ part ++ rest)
      × (taken_of t' ≡ taken_of t ++ part)
      × (bytes_of w ≡ length part)
      × (error_of w ≡ none → part ≡ file_content file)
write_file_lem file t =
    let s = write_file-IsHonest file t in
    (
      s.part,
      s.rest,
      s.split,
      s.moved,
      omega (arith, s.counted),
      λ h. sym (s.split ∙ (ap (λ l. s.part ++ l) (s.complete h) ∙ append-nil s.part)),
    )
