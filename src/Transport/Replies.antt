-- ===== src/Transport/Replies.antt =====
-- What the queries of src/transport.rs return.
use mathlib.Core.List.{append_assoc, append-nil}
use zebra_tamer.Prelude.{
  ℕ, ◌+◌, ◌≤◌, ◌≡◌, ◌≢◌, refl, sym, ap, subst, ◌∙◌, String, true, false, Option, none, some, List,
  [], ◌∷◌, ◌++◌, length, length-append, leb, arith, inl, inr, Bool-cases, map,
}
use zebra_tamer.Prelude.Text.{Text, Bytes}
use zebra_tamer.Prelude.Result.{Result, ok, err, message}
use zebra_tamer.Prelude.Inversion.{ok-injective}
use zebra_tamer.Transport.{Device, Tcp, write_counted, write_nonblocking}
use zebra_tamer.Transport.Query.{
  Read, got, silent, spurious, read_error, QueryResponse, collect_tcp, collect_usb, collect_char,
  first_usb, first_char, query_char, when_sent, respond, query_usb, query_tcp, query_over,
  fresh_query_stream, classify,
}

module _ (limit : ℕ) (reads : List Read) (out : Bytes) (c : ℕ) (cs : Bytes) where
  step_more :
      leb (length out + length (c ∷ cs)) limit ≡ true
      → collect_tcp limit (got (c ∷ cs) ∷ reads) out ≡ collect_tcp limit reads (out ++ (c ∷ cs))
  unfolding collect_tcp
  step_more fits = ground arith

  step_too_large :
      leb (length out + length (c ∷ cs)) limit ≡ false
      → collect_tcp limit (got (c ∷ cs) ∷ reads) out ≡ err (message "response_too_large")
  unfolding collect_tcp
  step_too_large large = ground arith

returned :
    (limit : ℕ) (b : ℕ) (bs bytes : Bytes)
    → length (b ∷ bs) ≤ limit
    → ok (b ∷ bs) ≡ ok bytes
    → (length bytes ≤ limit) × (bytes ≢ [])
returned limit b bs bytes h e =
    subst (λ l. (length l ≤ limit) × (l ≢ [])) (ok-injective e) (h, λ q. cc)

collect_tcp-bounded :
    (limit : ℕ) (reads : List Read) (out bytes : Bytes)
    → length out ≤ limit
    → collect_tcp limit reads out ≡ ok bytes
    → (length bytes ≤ limit) × (bytes ≢ [])
unfolding collect_tcp
collect_tcp-bounded limit [] [] bytes h e = cc
collect_tcp-bounded limit [] (b ∷ bs) bytes h e = returned limit b bs bytes h e
collect_tcp-bounded limit (silent ∷ reads) [] bytes h e = cc
collect_tcp-bounded limit (silent ∷ reads) (b ∷ bs) bytes h e = returned limit b bs bytes h e
collect_tcp-bounded limit (spurious ∷ reads) [] bytes h e = cc
collect_tcp-bounded limit (spurious ∷ reads) (b ∷ bs) bytes h e = returned limit b bs bytes h e
collect_tcp-bounded limit (read_error x ∷ reads) out bytes h e = cc
collect_tcp-bounded limit (got [] ∷ reads) [] bytes h e = cc
collect_tcp-bounded limit (got [] ∷ reads) (b ∷ bs) bytes h e = returned limit b bs bytes h e
collect_tcp-bounded limit (got (c ∷ cs) ∷ reads) out bytes h e =
    elim (Bool-cases (leb (length out + length (c ∷ cs)) limit)) [
      | inl fits ↦
          collect_tcp-bounded limit reads (out ++ (c ∷ cs)) bytes
            (ground (arith, length-append out (c ∷ cs)))
            (sym (step_more limit reads out c cs fits) ∙ e)
      | inr large ↦ cc (step_too_large limit reads out c cs large, e)
    ]

-- The pieces of a reply, none of them empty.
abbrev pub Pieces : List Bytes → Type 0
Pieces [] = Unit
Pieces ([] ∷ pieces) = ⊥
Pieces ((c ∷ cs) ∷ pieces) = Pieces pieces

abbrev pub joined : List Bytes → Bytes
joined [] = []
joined (p ∷ pieces) = p ++ joined pieces

collect_usb-joined :
    (pieces : List Bytes) (out : Bytes)
    → Pieces pieces
    → collect_usb (map (λ p. got p) pieces) out ≡ ok (out ++ joined pieces)
unfolding collect_usb
collect_usb-joined [] out h = ap ok (sym (append-nil out))
collect_usb-joined ([] ∷ pieces) out h = absurd h
collect_usb-joined ((c ∷ cs) ∷ pieces) out h =
    collect_usb-joined pieces (out ++ (c ∷ cs)) h
    ∙ ap ok (append_assoc out (c ∷ cs) (joined pieces))

collect_char-joined :
    (pieces : List Bytes) (out : Bytes)
    → Pieces pieces
    → collect_char (map (λ p. got p) pieces) out ≡ ok (out ++ joined pieces)
unfolding collect_char
collect_char-joined [] out h = ap ok (sym (append-nil out))
collect_char-joined ([] ∷ pieces) out h = absurd h
collect_char-joined ((c ∷ cs) ∷ pieces) out h =
    collect_char-joined pieces (out ++ (c ∷ cs)) h
    ∙ ap ok (append_assoc out (c ∷ cs) (joined pieces))

counted_whole : (command taken : Bytes) → (write_counted [] command 0 taken).error ≡ none
unfolding write_counted
counted_whole [] taken = refl
counted_whole (c ∷ cs) taken = refl

nonblocking_whole : (command taken : Bytes) → (write_nonblocking [] command 0 taken).error ≡ none
unfolding write_nonblocking
nonblocking_whole [] taken = refl
nonblocking_whole (c ∷ cs) taken = refl

module _ (lossy : Bytes → Text) where
  respond-ok :
      (r : Result Bytes) (response : QueryResponse)
      → respond lossy r ≡ ok response
      → r ≡ ok response.bytes
  respond-ok (ok bytes) response e = ap ok (ap (λ (x : QueryResponse). x.bytes) (ok-injective e))
  respond-ok (err x) response e = cc

  respond-bounded :
      (limit : ℕ) (reads : List Read) (error : Option String) (response : QueryResponse)
      → respond lossy (when_sent error (collect_tcp limit reads [])) ≡ ok response
      → (length response.bytes ≤ limit) × (response.bytes ≢ [])
  respond-bounded limit reads none response e =
      collect_tcp-bounded limit reads [] response.bytes (omega arith)
        (respond-ok (collect_tcp limit reads []) response e)
  respond-bounded limit reads (some x) response e = cc

  query_over-bounded :
      (limit : ℕ) (command : Bytes) (reads : List Read) (c : Option String × Tcp)
      → let (answer, t') = query_over lossy limit command reads c in
        ((response : QueryResponse)
          → answer ≡ ok response
          → (length response.bytes ≤ limit) × (response.bytes ≢ []))
        × (t'.connected ≡ false)
  unfolding query_over
  query_over-bounded limit command reads (some x, t) = (λ response e. cc, refl)
  query_over-bounded limit command reads (none, t) = (
    respond-bounded limit reads (write_counted t.device.answers command 0 t.device.taken).error,
    refl,
  )

  -- The reply to a query over TCP that comes back is not empty and no longer than
  -- `max_response_bytes`, and the connection is used up, however the query ended.
  pub query_tcp_lem :
      (limit : ℕ) (command : Bytes) (reads : List Read) (t : Tcp)
      → let (answer, t') = query_tcp lossy limit command reads t in
        ((response : QueryResponse)
          → answer ≡ ok response
          → (length response.bytes ≤ limit) × (response.bytes ≢ []))
        × (t'.connected ≡ false)
  unfolding query_tcp
  query_tcp_lem limit command reads t =
      query_over-bounded limit command reads (fresh_query_stream t)

  -- Of a USB printer or a character device that takes the command whole, a reply of any number of
  -- pieces before the silence comes back whole: no limit on its length applies.
  pub query_unbounded :
      (command p : Bytes) (pieces : List Bytes) (d : Device)
      → Pieces (p ∷ pieces)
      → d.answers ≡ []
      → let reads = map (λ q. got q) (p ∷ pieces) in
        let bytes = joined (p ∷ pieces) in
        let whole : Result QueryResponse =
          ok (record { bytes = bytes; classification = classify lossy bytes }) in
        ((query_usb lossy true command reads d).0 ≡ whole)
        × ((query_char lossy command reads d).0 ≡ whole)
  unfolding query_usb query_char
  query_unbounded command [] pieces d h idle = absurd h
  query_unbounded command (c ∷ cs) pieces d h idle =
      let usb = collect_usb-joined ((c ∷ cs) ∷ pieces) [] h in
      let char = collect_char-joined ((c ∷ cs) ∷ pieces) [] h in
      (
        rw (idle, counted_whole command d.taken) (ap (respond lossy) (unfold first_usb in usb)),
        rw (idle, nonblocking_whole command d.taken)
            (ap (respond lossy) (unfold first_char in char)),
      )
