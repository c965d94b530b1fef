-- ===== src/Metrics/Lines.antt =====
-- The lines of the page of metrics (src/metrics.rs).
use zebra_tamer.Prelude.{
  ℕ, zero, suc, ◌≡◌, refl, String, Bool, true, false, not, ◌&&◌, Option, none, some, List, [], ◌∷◌,
  ◌++◌, All, all, map, arith, ltb, ◌==◌, str_eq, Bool-cases, inl, inr,
}
use zebra_tamer.Prelude.Text.{Text, codes}
use zebra_tamer.Prelude.Result.{Result, ok, err}
use zebra_tamer.Model.Media.{MediaState, AccountingConfidence, exact, estimated, degraded}
use zebra_tamer.Model.Snapshot.{PrinterSnapshot, Observed, QueryStats, Map}
use zebra_tamer.Store.State.{Store}
use zebra_tamer.Store.Printers.{load_media}
use zebra_tamer.Driver.{decimal, decimal_from}
use zebra_tamer.Metrics.{
  replace, esc, Sample, label, labels_text, sample_text, digit, bool_obs, state_names,
  capability_line, capability_lines, query_lines, media_lines, status_lines, printer_lines,
  render_printers, render, confidence_of, build_info, is_value, is_true, metric, fault, is_low,
  state_name,
}

-- A text without a line feed.
unfoldable pub is_plain : Text → Bool
is_plain s = all (λ c. not (c == 10)) s

plain-append : (a b : Text) → is_plain a ≡ true → is_plain b ≡ true → is_plain (a ++ b) ≡ true
unfolding is_plain
plain-append [] b h k = k
plain-append (c ∷ cs) b h k = ground (arith, plain-append cs b, h, k)

break-plain : (s : Text) → is_plain (replace 10 (b'\\' ∷ b'n' ∷ []) s) ≡ true
unfolding is_plain replace
break-plain [] = refl
break-plain (c ∷ cs) = elim (Bool-cases (c == 10)) [
  | inl e ↦ rw (e, break-plain cs) refl
  | inr other ↦ rw (other, other, break-plain cs) refl
]

esc-plain : (s : Text) → is_plain (esc s) ≡ true
unfolding esc
esc-plain s = break-plain (replace b'"' (b'\\' ∷ b'"' ∷ []) (replace b'\\' (b'\\' ∷ b'\\' ∷ []) s))

digits-plain :
    (fuel n : ℕ) (acc : Text) → is_plain acc ≡ true → is_plain (decimal_from fuel n acc) ≡ true
unfolding is_plain decimal_from
digits-plain zero n acc h = h
digits-plain (suc fuel) n acc h = elim (Bool-cases (ltb n 10)) [
  | inl small ↦ rw (small, decimal_from) (ground (arith, h))
  | inr large ↦ rw (large, decimal_from) (digits-plain fuel _ _ (ground (arith, h)))
]

decimal-plain : (n : ℕ) → is_plain (decimal n) ≡ true
unfolding decimal is_plain
decimal-plain n = digits-plain 20 n [] refl

-- A sample whose parts have no line feed.
abbrev IsPlainLabel : String × Text → Type 0
IsPlainLabel (name, v) = (is_plain (codes name) ≡ true) × (is_plain v ≡ true)

abbrev IsPlainSample : Sample → Type 0
IsPlainSample m =
    (is_plain (codes m.name) ≡ true) × All IsPlainLabel m.labels × (is_plain m.reading ≡ true)

label-plain : (l : String × Text) → IsPlainLabel l → is_plain (label l) ≡ true
unfolding is_plain
label-plain (name, v) (h, k) =
    plain-append (codes name) (codes "=\"" ++ (v ++ codes "\"")) h
      (plain-append (codes "=\"") (v ++ codes "\"") refl (plain-append v (codes "\"") k refl))

labels_text-plain :
    (ls : List (String × Text)) → All IsPlainLabel ls → is_plain (labels_text ls) ≡ true
unfolding is_plain
labels_text-plain [] h = refl
labels_text-plain (l ∷ []) (h, hs) = label-plain l h
labels_text-plain (l ∷ k ∷ ls) (h, hs) =
    plain-append (label l) (codes "," ++ labels_text (k ∷ ls)) (label-plain l h)
      (plain-append (codes ",") (labels_text (k ∷ ls)) refl (labels_text-plain (k ∷ ls) hs))

sample_text-plain : (m : Sample) → IsPlainSample m → is_plain (sample_text m) ≡ true
unfolding is_plain
sample_text-plain m h = plain-append (codes m.name) _ h.0 (
    plain-append (codes "{") (labels_text m.labels ++ (codes "} " ++ m.reading)) refl (
      plain-append (labels_text m.labels) (codes "} " ++ m.reading) (labels_text-plain m.labels h.1)
        (plain-append (codes "} ") m.reading refl h.2)))

All-append : {A : Type 0} (P : A → Type 0) (xs ys : List A) → All P xs → All P ys → All P (xs ++ ys)
All-append P [] ys h k = k
All-append P (x ∷ xs) ys (h, hs) k = (h, All-append P xs ys hs k)

All-map :
    {A B : Type 0} (P : A → Type 0) (Q : B → Type 0) (f : A → B) (xs : List A)
    → ((x : A) → P x → Q (f x))
    → All P xs
    → All Q (map f xs)
All-map P Q f [] k h = tt
All-map P Q f (x ∷ xs) k (h, hs) = (k x h, All-map P Q f xs k hs)

digit-plain : (b : Bool) → is_plain (digit b) ≡ true
unfolding is_plain
digit-plain true = refl
digit-plain false = refl

confidence_of-plain : (c : AccountingConfidence) → is_plain (confidence_of c) ≡ true
unfolding is_plain
confidence_of-plain exact = refl
confidence_of-plain estimated = refl
confidence_of-plain degraded = refl
confidence_of-plain AccountingConfidence.unknown = refl

bool_obs-plain : (v : Observed Bool) → is_plain (bool_obs v) ≡ true
bool_obs-plain v = digit-plain (is_value v.state && is_true v.value)

module _ (p : Text) (own : is_plain p ≡ true) where
  metric-plain :
      (name : String) (reading : Text)
      → is_plain (codes name) ≡ true
      → is_plain reading ≡ true
      → IsPlainSample (metric name p reading)
  unfolding is_plain
  metric-plain name reading h k = (h, ((refl, own), tt), k)

  fault-plain :
      (name : String) (v : Observed Bool)
      → is_plain (codes name) ≡ true
      → IsPlainSample (fault p name v)
  unfolding is_plain
  fault-plain name v h = (refl, ((refl, own), ((refl, h), tt)), bool_obs-plain v)

  status_lines-plain : (s : PrinterSnapshot) → All IsPlainSample (status_lines p s)
  unfolding is_plain status_lines
  status_lines-plain s = (
    metric-plain "zpl_printer_present" (bool_obs s.transport.present) refl
        (bool_obs-plain s.transport.present),
    (
      metric-plain "zpl_printer_open" (bool_obs s.transport.is_open) refl
          (bool_obs-plain s.transport.is_open),
      (
        metric-plain "zpl_printer_protocol_up" (bool_obs s.transport.protocol_up) refl
            (bool_obs-plain s.transport.protocol_up),
        (
          metric-plain "zpl_printer_ready" (bool_obs s.status.ready) refl
              (bool_obs-plain s.status.ready),
          (
            metric-plain "zpl_printer_job_queue_depth" (decimal s.jobs.queue_depth) refl
                (decimal-plain s.jobs.queue_depth),
            (
              fault-plain "paused" s.status.paused refl,
              (
                fault-plain "media_out" s.status.media_out refl,
                (
                  fault-plain "ribbon_out" s.status.ribbon_out refl,
                  (
                    fault-plain "head_open" s.status.head_open refl,
                    (fault-plain "temperature" s.status.temperature_fault refl, tt),
                  ),
                ),
              ),
            ),
          ),
        ),
      ),
    ),
  )

  media_lines-plain : (r : Result (Option MediaState)) → All IsPlainSample (media_lines p r)
  unfolding is_plain media_lines
  media_lines-plain (ok (some m)) = (
    metric-plain "zpl_printer_media_remaining_labels" (decimal m.remaining_labels) refl
        (decimal-plain m.remaining_labels),
    (
      metric-plain "zpl_printer_media_low" (digit (is_low m)) refl (digit-plain (is_low m)),
      (
        metric-plain "zpl_printer_media_accounting_confidence"
            (confidence_of m.accounting_confidence) refl
            (confidence_of-plain m.accounting_confidence),
        (
          (refl, ((refl, own), ((refl, refl), tt)), decimal-plain m.consumed_labels_total),
          (
            metric-plain "zpl_printer_media_accounting_deficit_labels"
                (decimal m.accounting_deficit_labels) refl
                (decimal-plain m.accounting_deficit_labels),
            tt,
          ),
        ),
      ),
    ),
  )
  media_lines-plain (ok none) = tt
  media_lines-plain (err e) = tt

  capability_lines-plain : (m : Map (Observed Bool)) → All IsPlainSample (capability_lines p m)
  unfolding is_plain capability_lines
  capability_lines-plain [] = tt
  capability_lines-plain ((capability, v) ∷ m) =
      let name = esc-plain (codes capability) in
      All-append IsPlainSample
        (map (capability_line p (esc (codes capability)) v.state) state_names)
        (capability_lines p m)
        (All-map (λ n. is_plain (codes n) ≡ true) IsPlainSample
          (capability_line p (esc (codes capability)) v.state) state_names
          (λ n h. (
            refl,
            ((refl, own), ((refl, name), ((refl, h), tt))),
            digit-plain (str_eq (state_name v.state) n),
          ))
          (refl, (refl, (refl, (refl, (refl, (refl, tt)))))))
        (capability_lines-plain m)

  query_lines-plain :
      (seconds : ℕ → Text) (whole : (ms : ℕ) → is_plain (seconds ms) ≡ true) (m : Map QueryStats)
      → All IsPlainSample (query_lines seconds p m)
  unfolding is_plain query_lines
  query_lines-plain seconds whole [] = tt
  query_lines-plain seconds whole ((name, stats) ∷ m) =
      let q = esc-plain (codes name) in
      let of : All IsPlainLabel (("printer", p) ∷ ("query", esc (codes name)) ∷ []) =
        ((refl, own), ((refl, q), tt)) in
      (
        (refl, of, decimal-plain stats.count),
        (
          (refl, of, whole stats.duration_ms_total),
          (
            (refl, of, decimal-plain stats.response_bytes_total),
            ((refl, of, decimal-plain stats.timeouts), query_lines-plain seconds whole m),
          ),
        ),
      )

module _ (seconds : ℕ → Text) (whole : (ms : ℕ) → is_plain (seconds ms) ≡ true)
    (store : Store) where
  render_printers-plain :
      (workers : List (String × PrinterSnapshot))
      → All IsPlainSample (render_printers seconds store workers)
  unfolding render_printers printer_lines
  render_printers-plain [] = tt
  render_printers-plain ((id, s) ∷ ws) =
      let p = esc (codes id) in
      let own = esc-plain (codes id) in
      let queries = query_lines seconds p s.query_stats in
      let media = media_lines p (load_media id store).0 in
      All-append IsPlainSample (printer_lines seconds store (id, s)) _
        (All-append IsPlainSample (status_lines p s) _ (status_lines-plain p own s) (
          All-append IsPlainSample (capability_lines p s.capabilities) (queries ++ media)
            (capability_lines-plain p own s.capabilities)
            (All-append IsPlainSample queries media
              (query_lines-plain p own seconds whole s.query_stats)
              (media_lines-plain p own (load_media id store).0))))
        (render_printers-plain ws)

  -- When the version, the commit and the number of seconds are written without a line feed: no line of
  -- the page has one, whatever the printers, capabilities and queries are called; so each of the code's
  -- lines is one line of the page.
  pub render-plain :
      (version commit : Text) (uptime free : ℕ) (workers : List (String × PrinterSnapshot))
      → is_plain version ≡ true
      → is_plain commit ≡ true
      → All (λ l. is_plain l ≡ true) (render seconds version commit uptime free store workers)
  unfolding is_plain render
  render-plain version commit uptime free workers v c = (
    refl,
    (
      refl,
      (
        sample_text-plain (build_info version commit) (refl, ((refl, v), ((refl, c), tt)), refl),
        (
          refl,
          (
            plain-append (codes "zpl_agent_uptime_seconds ") (decimal uptime) refl
                (decimal-plain uptime),
            (
              refl,
              (
                plain-append (codes "zpl_agent_filesystem_free_bytes ") (decimal free) refl
                    (decimal-plain free),
                All-map IsPlainSample (λ l. is_plain l ≡ true) sample_text
                    (render_printers seconds store workers) sample_text-plain
                    (render_printers-plain workers),
              ),
            ),
          ),
        ),
      ),
    ),
  )
