-- ===== src/Protocol/Copies.antt =====
-- Which ZPL documents `has_multi_copy_pq` of src/protocol_v2.rs refuses to copy.
use mathlib.Core.Bool.{false≢true}
use zebra_tamer.Prelude.{
  ℕ, ◌≤◌, ◌<◌, ◌≡◌, refl, sym, ap, subst, ◌↔◌, Bool, true, false, ◌||◌, some, [], ◌∷◌, ◌++◌, arith,
  inl, inr, ==_iff, take_while, Bool-cases, Option-cases,
}
use zebra_tamer.Prelude.Words.{u64_max}
use zebra_tamer.Prelude.Text.{Bytes, codes, strip_prefix, is_ascii_digit}
use zebra_tamer.Protocol.{digits_value, parse_u64, marks_copies, has_multi_copy_pq, more_than_one}
use zebra_tamer.Prelude.Inversion.{some-injective}

pub strip_prefix-append : (p rest : Bytes) → strip_prefix p (p ++ rest) ≡ some rest
strip_prefix-append [] rest = refl
strip_prefix-append (c ∷ cs) rest = rw ((==_iff c c).1 refl, strip_prefix-append cs rest) refl

pub strip_prefix-some : (p s rest : Bytes) → strip_prefix p s ≡ some rest → s ≡ p ++ rest
strip_prefix-some [] s rest h = some-injective h
strip_prefix-some (c ∷ cs) [] rest h = cc
strip_prefix-some (c ∷ cs) (d ∷ ds) rest h = ground (arith, strip_prefix-some cs ds rest)

-- The digits behind a marker.
abbrev pub digits_of : Bytes → Bytes
digits_of rest = take_while is_ascii_digit rest

-- Somewhere in the document `^PQ` is followed by digits whose number is above 1 (and below 2 ^ 64).
abbrev pub AsksForCopies : Bytes → Type 0
AsksForCopies bytes =
    (before : Bytes) × (rest : Bytes) × (bytes ≡ before ++ (codes "^PQ" ++ rest))
    × (1 < digits_value 0 (digits_of rest))
    × (digits_value 0 (digits_of rest) ≤ u64_max)

more_than_one_iff :
    (ds : Bytes)
    → (more_than_one (parse_u64 ds) ≡ true)
      ↔ ((1 < digits_value 0 ds) × (digits_value 0 ds ≤ u64_max))
unfolding parse_u64
more_than_one_iff [] = (λ h. cc, λ h. absurd (omega arith))
more_than_one_iff (c ∷ cs) = ground arith

here-AsksForCopies :
    (bytes : Bytes) → marks_copies (strip_prefix (codes "^PQ") bytes) ≡ true → AsksForCopies bytes
here-AsksForCopies bytes h = elim (Option-cases (strip_prefix (codes "^PQ") bytes)) [
  | inl e ↦ absurd (false≢true (subst (λ o. marks_copies o ≡ true) e h))
  | inr (rest, e) ↦
      let size = (more_than_one_iff (digits_of rest)).0 (subst (λ o. marks_copies o ≡ true) e h) in
      ([], rest, strip_prefix-some (codes "^PQ") bytes rest e, size.0, size.1)
]

later-AsksForCopies : (c : ℕ) (cs : Bytes) → AsksForCopies cs → AsksForCopies (c ∷ cs)
later-AsksForCopies c cs (before, rest, e, more, fits) =
    (c ∷ before, rest, ap (λ l. c ∷ l) e, more, fits)

has_multi_copy_pq_sound : (bytes : Bytes) → has_multi_copy_pq bytes ≡ true → AsksForCopies bytes
unfolding has_multi_copy_pq
has_multi_copy_pq_sound [] h = cc
has_multi_copy_pq_sound (c ∷ cs) h =
    elim (Bool-cases (marks_copies (strip_prefix (codes "^PQ") (c ∷ cs)))) [
      | inl here ↦ here-AsksForCopies (c ∷ cs) here
      | inr later ↦
          later-AsksForCopies c cs
            (has_multi_copy_pq_sound cs (subst (λ b. (b || has_multi_copy_pq cs) ≡ true) later h))
    ]

or-true : (b : Bool) → (b || true) ≡ true
or-true true = refl
or-true false = refl

has_multi_copy_pq_complete :
    (before rest : Bytes)
    → (1 < digits_value 0 (digits_of rest)) × (digits_value 0 (digits_of rest) ≤ u64_max)
    → has_multi_copy_pq (before ++ (codes "^PQ" ++ rest)) ≡ true
unfolding has_multi_copy_pq
has_multi_copy_pq_complete [] rest h = rw ((more_than_one_iff (digits_of rest)).1 h) refl
has_multi_copy_pq_complete (c ∷ before) rest h =
    rw (has_multi_copy_pq_complete before rest h) (or-true _)

-- The test finds a ^PQ with a number above 1 wherever in the document it stands, the first or a later
-- one, and finds nothing else; a number of 2 ^ 64 or more counts as none.
pub has_multi_copy_pq_iff : (bytes : Bytes) → (has_multi_copy_pq bytes ≡ true) ↔ AsksForCopies bytes
has_multi_copy_pq_iff bytes = (
  has_multi_copy_pq_sound bytes,
  λ (before, rest, e, more, fits).
      subst (λ l. has_multi_copy_pq l ≡ true) (sym e)
        (has_multi_copy_pq_complete before rest (more, fits)),
)
