-- ===== src/Probe/Stats.antt =====
-- What the snapshot keeps of a query (`record_response` of src/worker.rs).
use text.Mathlib.TextPositions.{eq_refl}
use zebra_tamer.Prelude.{
  ℕ, ◌+◌, ◌≤◌, ◌<◌, ◌≡◌, ◌≢◌, refl, sym, ap, subst, ◌∙◌, String, Option, some, [], ◌∷◌, length,
  unwrap_or, str_eq, eq_iff, arith, Bool-cases, inl, inr,
}
use zebra_tamer.Prelude.Words.{u64_max, saturating_add}
use zebra_tamer.Prelude.Text.{Text, Bytes}
use zebra_tamer.Model.Job.{DateTime}
use zebra_tamer.Model.Snapshot.{
  Map, PrinterSnapshot, QueryStats, RawResponse, no_stats, find, insert,
}
use zebra_tamer.Probe.{counted, record_response}

module _ {A : Type 0} where
  find-insert : (k : String) (a : A) (m : Map A) → find k (insert k a m) ≡ some a
  unfolding find insert
  find-insert k a [] = rw (eq_refl k) refl
  find-insert k a ((j, b) ∷ m) = elim (Bool-cases (str_eq j k)) [
    | inl same ↦ rw (same, insert, same, find) refl
    | inr other ↦ rw (other, insert, other, find) (find-insert k a m)
  ]

  find-insert_other : (k j : String) (a : A) (m : Map A) → k ≢ j → find j (insert k a m) ≡ find j m
  unfolding find insert
  find-insert_other k j a [] differs = ground (arith, differs, eq_iff k j)
  find-insert_other k j a ((i, b) ∷ m) differs = elim (Bool-cases (str_eq i k)) [
    | inl same ↦ rw (same, insert) (ground (arith, differs, eq_iff i k, eq_iff i j))
    | inr other ↦ rw (other, insert) (ground (arith, find-insert_other k j a m differs))
  ]

-- The statistics of a query: those of the snapshot, or none yet.
unfoldable pub stats_of : String → PrinterSnapshot → QueryStats
unfolding find
stats_of name s = unwrap_or (find name s.query_stats) no_stats

-- Counters that fit 64 bits.
pub record Fits (stats : QueryStats) : Type 0 where
  pub count : stats.count ≤ u64_max
  pub duration_ms_total : stats.duration_ms_total ≤ u64_max
  pub response_bytes_total : stats.response_bytes_total ≤ u64_max
  pub timeouts : stats.timeouts ≤ u64_max

-- Counters that have not gone back.
pub record Grows (old new : QueryStats) : Type 0 where
  pub count : old.count ≤ new.count
  pub duration_ms_total : old.duration_ms_total ≤ new.duration_ms_total
  pub response_bytes_total : old.response_bytes_total ≤ new.response_bytes_total
  pub timeouts : old.timeouts ≤ new.timeouts

counted-Grows :
    (size ms : ℕ) (error : Option String) (stats : QueryStats)
    → Fits stats
    → Fits (counted size ms error stats) × Grows stats (counted size ms error stats)
unfolding counted
counted-Grows size ms error stats h = (
  record {
    count = ground (arith, h.count);
    duration_ms_total = ground (arith, h.duration_ms_total);
    response_bytes_total = ground (arith, h.response_bytes_total);
    timeouts = ground (arith, h.timeouts);
  },
  record {
    count = ground (arith, h.count);
    duration_ms_total = ground (arith, h.duration_ms_total);
    response_bytes_total = ground (arith, h.response_bytes_total);
    timeouts = ground (arith, h.timeouts);
  },
)

one_more : (n : ℕ) → n < u64_max → saturating_add n 1 ≡ n + 1
one_more n h = ground arith

module _ (lossy : Bytes → Text) (base64 : Bytes → String) (now : DateTime) where
  -- When the counters of a query fit 64 bits: after an answer to it they fit, have not gone back, and
  -- one more query is counted unless the count was at its limit; the answer is the query's raw
  -- response; and what is kept of every other query is as before.
  pub record_response_lem :
      (name : String) (bytes : Bytes) (ms : ℕ) (error : Option String) (classification : String)
      (s : PrinterSnapshot)
      → Fits (stats_of name s)
      → let s' = record_response lossy base64 now name bytes ms error classification s in
        Fits (stats_of name s')
        × Grows (stats_of name s) (stats_of name s')
        × ((stats_of name s).count < u64_max
            → (stats_of name s').count ≡ (stats_of name s).count + 1)
        × ((r : RawResponse) × (find name s'.raw_responses ≡ some r)
            × (r.text ≡ lossy bytes)
            × (r.error ≡ error))
        × ((other : String)
            → name ≢ other
            → (stats_of other s' ≡ stats_of other s)
              × (find other s'.raw_responses ≡ find other s.raw_responses))
  unfolding record_response stats_of counted
  record_response_lem name bytes ms error classification s h =
      let old = stats_of name s in
      let new = counted (length bytes) ms error old in
      let s' = record_response lossy base64 now name bytes ms error classification s in
      let same : stats_of name s' ≡ new =
        ap (λ o. unwrap_or o no_stats) (find-insert name new s.query_stats) in
      let (fits, grows) = counted-Grows (length bytes) ms error old h in
      (
        subst (λ st. Fits st) (sym same) fits,
        subst (λ st. Grows old st) (sym same) grows,
        λ room. ap (λ (st : QueryStats). st.count) same ∙ one_more old.count room,
        (_, find-insert name _ s.raw_responses, refl, refl),
        λ other differs. (
          ap (λ o. unwrap_or o no_stats) (find-insert_other name other new s.query_stats differs),
          find-insert_other name other _ s.raw_responses differs,
        ),
      )
