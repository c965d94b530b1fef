-- ===== src/Probe/Asked.antt =====
-- Which queries a probe of src/worker.rs makes.
use mathlib.Core.List.{append_assoc, append-nil}
use zebra_tamer.Prelude.{
  ℕ, ◌≡◌, refl, sym, ap, ◌∙◌, String, Bool, true, false, not, Option, some, List, [], ◌∷◌, ◌++◌,
  keep, if◌then◌else◌, Bool-cases, inl, inr,
}
use zebra_tamer.Prelude.Float.{Float}
use zebra_tamer.Prelude.Text.{Text, Bytes, codes}
use zebra_tamer.Prelude.Result.{Result, ok, err, Error, message}
use zebra_tamer.Model.Job.{DateTime}
use zebra_tamer.Model.Snapshot.{observed_not_supported}
use zebra_tamer.Store.Files.{Outcome}
use zebra_tamer.Probe.{Query, ask, head_reply, base_queries, optional_queries}
use zebra_tamer.Probe.Run.{
  HardwareCounterPolicy, Prober, is_skipped, is_answer, after_base, probe_base, after_optional,
  probe_optional, note, put_snapshot, probe_capabilities, conclude, ensure_open, after_open, probe,
}

abbrev pub commands : List Query → List Bytes
commands [] = []
commands ((name, command) ∷ queries) = command ∷ commands queries

-- The optional queries that the configuration allows.
abbrev pub allowed : HardwareCounterPolicy → List Query → List Query
allowed counters queries = keep (λ q. not (is_skipped counters q.0)) queries

abbrev pub asked : Prober → List Bytes
asked p = p.channel.asked

-- The queries that a probe makes, by whether its first one is answered.
abbrev pub asked_by : Bool → Bool → HardwareCounterPolicy → List Bytes
asked_by false capability counters = codes "~HS" ∷ []
asked_by true false counters = commands base_queries
asked_by true true counters = commands base_queries ++ commands (allowed counters optional_queries)

abbrev first_commands : Bool → List Bytes
first_commands any = if any then commands base_queries else codes "~HS" ∷ []

abbrev later_queries : List Query
later_queries = elim base_queries [ [] ↦ [] | q ∷ queries ↦ queries ]

abbrev pub first_answered : Prober → Bool
first_answered p = is_answer (head_reply p.channel.replies)

module _ (lossy : Bytes → Text) (base64 : Bytes → String) (parse_f64 : Text → Option Float)
    (dpi_of : Float → ℕ) (now : DateTime) where
  probe_base-asked :
      (queries : List Query) (p : Prober)
      → let out = probe_base lossy base64 parse_f64 dpi_of now queries true p in
        (out.0 ≡ true) × (asked out.1 ≡ asked p ++ commands queries)
  unfolding probe_base
  probe_base-asked [] p = (refl, sym (append-nil (asked p)))
  probe_base-asked ((name, command) ∷ queries) p =
      let next = after_base lossy base64 parse_f64 dpi_of now name (ask command p.channel) p in
      let (any, e) = probe_base-asked queries next in
      let both = e ∙ append_assoc (asked p) (command ∷ []) (commands queries) in
      elim (Bool-cases (is_answer (head_reply p.channel.replies))) [
        | inl there ↦ rw (there, probe_base) (any, both)
        | inr away ↦ rw (away, probe_base) (any, both)
      ]

  probe_optional-asked :
      (counters : HardwareCounterPolicy) (queries : List Query) (p : Prober)
      → asked (probe_optional lossy base64 parse_f64 dpi_of now counters queries p)
        ≡ asked p ++ commands (allowed counters queries)
  unfolding probe_optional
  probe_optional-asked counters [] p = sym (append-nil (asked p))
  probe_optional-asked counters ((name, command) ∷ queries) p =
      elim (Bool-cases (is_skipped counters name)) [
        | inl skipped ↦
            rw (skipped, probe_optional)
              (probe_optional-asked counters queries (
                put_snapshot
                  (note name (observed_not_supported now "disabled_by_config") p.snapshot) p))
        | inr wanted ↦
            let next =
              after_optional lossy base64 parse_f64 dpi_of now name (ask command p.channel) p in
            rw (wanted, probe_optional)
              (probe_optional-asked counters queries next
                ∙ append_assoc (asked p) (command ∷ []) (commands (allowed counters queries)))
      ]

  -- The first query decides whether the others follow.
  first-asked :
      (name : String) (command : Bytes) (queries : List Query) (p : Prober)
      → let any = first_answered p in
        let out =
          probe_base lossy base64 parse_f64 dpi_of now ((name, command) ∷ queries) false p in
        (out.0 ≡ any)
        × (asked out.1 ≡ asked p ++ (if any then command ∷ commands queries else command ∷ []))
  unfolding probe_base
  first-asked name command queries p =
      let next = after_base lossy base64 parse_f64 dpi_of now name (ask command p.channel) p in
      let (any, e) = probe_base-asked queries next in
      elim (Bool-cases (first_answered p)) [
        | inl there ↦
            rw (there, probe_base)
              (any, e ∙ append_assoc (asked p) (command ∷ []) (commands queries))
        | inr away ↦ rw (away, probe_base) (refl, refl)
      ]

  capabilities-asked :
      (capability : Bool) (counters : HardwareCounterPolicy) (any : Bool) (p q : Prober)
      → asked q ≡ asked p ++ first_commands any
      → asked (probe_capabilities lossy base64 parse_f64 dpi_of now capability counters any q)
        ≡ asked p ++ asked_by any capability counters
  unfolding probe_capabilities
  capabilities-asked false counters true p q h = h
  capabilities-asked false counters false p q h = h
  capabilities-asked true counters false p q h = h
  capabilities-asked true counters true p q h =
      probe_optional-asked counters optional_queries q
      ∙ ap (λ l. l ++ commands (allowed counters optional_queries)) h
      ∙ append_assoc (asked p) (commands base_queries)
          (commands (allowed counters optional_queries))

  after_open-asked :
      (capability : Bool) (counters : HardwareCounterPolicy) (o : Outcome) (p : Prober)
      → let any = first_answered p in
        let (r, q) =
          after_open lossy base64 parse_f64 dpi_of now capability counters o (ok tt, p) in
        (r ≡ (if any then ok tt else err (message "printer did not answer any base query")))
        × (asked q ≡ asked p ++ asked_by any capability counters)
        × (q.snapshot.transport.protocol_up.value ≡ some any)
  unfolding after_open conclude
  after_open-asked capability counters o p =
      let base = probe_base lossy base64 parse_f64 dpi_of now base_queries false p in
      let (same, made) = first-asked "host_status" (codes "~HS") later_queries p in
      let made_by = made ∙ ap (λ b. asked p ++ first_commands b) (sym same) in
      (
        ap
            (λ (b : Bool).
              if b then ok tt else err (message "printer did not answer any base query"))
            same,
        capabilities-asked capability counters base.0 p base.1 made_by
            ∙ ap (λ b. asked p ++ asked_by b capability counters) same,
        ap some same,
      )

  opened_lem :
      (capability : Bool) (counters : HardwareCounterPolicy) (o : Outcome)
      (opening : Result (Unit {0})) (p : Prober)
      → let any = first_answered p in
        let (r, q) =
          after_open lossy base64 parse_f64 dpi_of now capability counters o (opening, p) in
        ((e : Error) → opening ≡ err e → (r ≡ err e) × (asked q ≡ asked p))
        × (opening ≡ ok tt
            → (r ≡ (if any then ok tt else err (message "printer did not answer any base query")))
              × (asked q ≡ asked p ++ asked_by any capability counters)
              × (q.snapshot.transport.protocol_up.value ≡ some any))
  unfolding after_open
  opened_lem capability counters o (err x) p = (λ e h. (h, refl), λ h. cc)
  opened_lem capability counters o (ok _) p =
      (λ e h. cc, λ h. after_open-asked capability counters o p)

  -- Once the transport is open, the first query decides: with no answer to ~HS no other query is made
  -- and the probe fails; with one, all nine base queries are made in their order whatever becomes of
  -- them, then with a capability probe the optional ones but for an odometer that the configuration
  -- disables, and the probe succeeds. The snapshot says whether the protocol is up. A transport that
  -- does not open ends the probe with its error and no query.
  pub probe_lem :
      (capability : Bool) (counters : HardwareCounterPolicy) (o : Outcome) (p : Prober)
      → let (opening, at) = ensure_open lossy base64 parse_f64 dpi_of now p in
        let any = first_answered at in
        let (r, q) = probe lossy base64 parse_f64 dpi_of now capability counters o p in
        ((e : Error) → opening ≡ err e → (r ≡ err e) × (asked q ≡ asked at))
        × (opening ≡ ok tt
            → (r ≡ (if any then ok tt else err (message "printer did not answer any base query")))
              × (asked q ≡ asked at ++ asked_by any capability counters)
              × (q.snapshot.transport.protocol_up.value ≡ some any))
  unfolding probe
  probe_lem capability counters o p =
      opened_lem capability counters o (ensure_open lossy base64 parse_f64 dpi_of now p).0
        (ensure_open lossy base64 parse_f64 dpi_of now p).1
