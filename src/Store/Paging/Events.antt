-- ===== src/Store/Paging/Events.antt =====
-- What a page of src/persist.rs holds, and where the next one begins.
use mathlib.Core.List.{append_assoc, append-nil}
use zebra_tamer.Prelude.{
  ℕ, suc, ◌+◌, ◌-◌, ◌≤◌, ◌<◌, ◌≡◌, refl, sym, ap, subst, inl, inr, ◌∙◌, Bool, true, false, Option,
  List, [], ◌∷◌, ◌++◌, length, length-append, length-drop, take, drop, leb, arith, if◌then◌else◌,
  Bool-cases,
}
use zebra_tamer.Prelude.Inversion.{ok-injective}
use zebra_tamer.Prelude.Result.{ok}
use zebra_tamer.Model.Job.{Uuid, Event}
use zebra_tamer.Store.Files.{Line, whole, broken}
use zebra_tamer.Store.State.{Store}
use zebra_tamer.Store.Paging.{scan, read_events, of_job}

-- The entries of some lines that pass a filter.
abbrev pub selected : {A : Type 0} → (A → Bool) → List (Line A) → List A
selected filter [] = []
selected filter (broken ∷ lines) = selected filter lines
selected filter (whole item ∷ lines) =
    let rest = selected filter lines in if filter item then item ∷ rest else rest

-- A scan took the first `taken` of the lines.
record IsScan {A : Type 0} (filter : A → Bool) (limit : ℕ) (out : List A) (next : ℕ)
    (lines : List (Line A)) (found : List A) (cursor : ℕ) : Type 0 where
  taken : ℕ
  inside : taken ≤ length lines
  reached : cursor ≡ next + taken
  entries : found ≡ out ++ selected filter (take taken lines)
  short : length found < limit → taken ≡ length lines
  bounded : length out < limit → length found ≤ limit

-- A line that is passed over.
passed-IsScan :
    {A : Type 0} (filter : A → Bool) (limit : ℕ) (out : List A) (next : ℕ) (item : A)
    (lines : List (Line A)) (r : List A × ℕ)
    → filter item ≡ false
    → IsScan filter limit out (next + 1) lines r.0 r.1
    → IsScan filter limit out next (whole item ∷ lines) r.0 r.1
passed-IsScan filter limit out next item lines r other s = record {
  taken = suc s.taken;
  inside = omega (arith, s.inside);
  reached = omega (arith, s.reached);
  entries = s.entries ∙ rw other refl;
  short = λ h. ap suc (s.short h);
  bounded = s.bounded;
}

-- A line that is kept while there is room for more.
kept-IsScan :
    {A : Type 0} (filter : A → Bool) (limit : ℕ) (out : List A) (next : ℕ) (item : A)
    (lines : List (Line A)) (r : List A × ℕ)
    → filter item ≡ true
    → leb limit (length out + 1) ≡ false
    → IsScan filter limit (out ++ (item ∷ [])) (next + 1) lines r.0 r.1
    → IsScan filter limit out next (whole item ∷ lines) r.0 r.1
kept-IsScan filter limit out next item lines r fits room s = record {
  taken = suc s.taken;
  inside = omega (arith, s.inside);
  reached = omega (arith, s.reached);
  entries =
      s.entries
      ∙ (append_assoc out (item ∷ []) (selected filter (take s.taken lines)) ∙ rw fits refl);
  short = λ h. ap suc (s.short h);
  bounded = λ h. s.bounded (ground (arith, length-append out (item ∷ [])));
}

-- The line that fills the page.
last-IsScan :
    {A : Type 0} (filter : A → Bool) (limit : ℕ) (out : List A) (next : ℕ) (item : A)
    (lines : List (Line A))
    → filter item ≡ true
    → leb limit (length out + 1) ≡ true
    → IsScan filter limit out next (whole item ∷ lines) (out ++ (item ∷ [])) (next + 1)
last-IsScan filter limit out next item lines fits full = record {
  taken = 1;
  inside = omega arith;
  reached = refl;
  entries = rw fits refl;
  short = λ h. absurd (ground (arith, length-append out (item ∷ [])));
  bounded = λ h. ground (arith, length-append out (item ∷ []));
}

module _ {A : Type 0} (filter : A → Bool) (limit : ℕ) (out : List A) (next : ℕ) (item : A)
    (lines : List (Line A)) where
  step_other :
      filter item ≡ false
      → scan filter limit out next (whole item ∷ lines) ≡ scan filter limit out (next + 1) lines
  unfolding scan
  step_other other = ground arith

  step_kept :
      filter item ≡ true
      → leb limit (length out + 1) ≡ false
      → scan filter limit out next (whole item ∷ lines)
        ≡ scan filter limit (out ++ (item ∷ [])) (next + 1) lines
  unfolding scan
  step_kept fits room = ground arith

  step_last :
      filter item ≡ true
      → leb limit (length out + 1) ≡ true
      → scan filter limit out next (whole item ∷ lines) ≡ ok (out ++ (item ∷ []), next + 1)
  unfolding scan
  step_last fits full = ground arith

scan-IsScan :
    {A : Type 0} (filter : A → Bool) (limit : ℕ) (out : List A) (next : ℕ) (lines : List (Line A))
    (r : List A × ℕ)
    → scan filter limit out next lines ≡ ok r
    → IsScan filter limit out next lines r.0 r.1
unfolding scan
scan-IsScan filter limit out next [] r e =
    subst (λ q. IsScan filter limit out next [] q.0 q.1) (ok-injective e)
      (record {
        taken = 0;
        inside = omega arith;
        reached = omega arith;
        entries = sym (append-nil out);
        short = λ h. refl;
        bounded = λ h. omega arith;
      })
scan-IsScan filter limit out next (broken ∷ lines) r e = cc
scan-IsScan filter limit out next (whole item ∷ lines) r e = elim (Bool-cases (filter item)) [
  | inr other ↦ passed-IsScan filter limit out next item lines r other (
      scan-IsScan filter limit out (next + 1) lines r
        (sym (step_other filter limit out next item lines other) ∙ e))
  | inl fits ↦ elim (Bool-cases (leb limit (length out + 1))) [
    | inl full ↦
        subst (λ q. IsScan filter limit out next (whole item ∷ lines) q.0 q.1)
          (ok-injective (sym (step_last filter limit out next item lines fits full) ∙ e))
          (last-IsScan filter limit out next item lines fits full)
    | inr room ↦ kept-IsScan filter limit out next item lines r fits room (
        scan-IsScan filter limit (out ++ (item ∷ [])) (next + 1) lines r
          (sym (step_kept filter limit out next item lines fits room) ∙ e))
  ]
]

-- A page of events that is read from a cursor inside the log with a limit of at least one: the next
-- cursor is at or behind this one and not behind the end of the log, the page has exactly the entries
-- between the two that pass the filter, it is no longer than the limit, and a page shorter than the
-- limit has reached the end.
pub read_events_lem :
    (cursor limit : ℕ) (job : Option Uuid) (s : Store) (found : List Event) (next : ℕ)
    → 0 < limit
    → cursor ≤ length s.events.lines
    → read_events cursor limit job s ≡ ok (found, next)
    → (cursor ≤ next)
      × (next ≤ length s.events.lines)
      × (found ≡ selected (of_job job) (take (next - cursor) (drop cursor s.events.lines)))
      × (length found ≤ limit)
      × (length found < limit → next ≡ length s.events.lines)
unfolding read_events
read_events_lem cursor limit job s found next some_room within e =
    let rest = drop cursor s.events.lines in
    let c = scan-IsScan (of_job job) limit [] cursor rest (found, next) e in
    let size = length-drop cursor s.events.lines in
    let gone : c.taken ≡ next - cursor = omega (arith, c.reached) in
    (
      omega (arith, c.reached),
      omega (arith, c.reached, c.inside, size),
      c.entries ∙ ap (λ n. selected (of_job job) (take n rest)) gone,
      c.bounded some_room,
      λ h. omega (arith, c.reached, c.short h, size),
    )
