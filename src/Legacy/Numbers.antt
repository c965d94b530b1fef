-- ===== src/Legacy/Numbers.antt =====
-- What number `parse_pq` of src/api.rs finds.
use mathlib.Core.List.{append_assoc}
use mathlib.Core.Bool.{true≢false}
use zebra_tamer.Prelude.{
  ℕ, ◌-◌, ◌≡◌, refl, sym, ap, subst, ◌∙◌, Bool, true, false, some, List, [], ◌∷◌, ◌++◌, All, arith,
  length, take, take_while, take-append-drop, is_empty, ltb, Bool-cases, Option-cases, inl, inr,
}
use zebra_tamer.Prelude.Text.{Bytes, codes, strip_prefix, is_ascii_digit}
use zebra_tamer.Protocol.{parse_u64}
use zebra_tamer.Protocol.Copies.{strip_prefix-some}
use zebra_tamer.Transport.{Chunk, piece, unreadable}
use zebra_tamer.Legacy.ParsePq.{behind_pq, drain, digits_in, scan_pq, parse_pq}

-- What the reads give, up to the end of the file.
abbrev pub read_content : List Chunk → Bytes
read_content [] = []
read_content (unreadable e ∷ chunks) = []
read_content (piece [] ∷ chunks) = []
read_content (piece (b ∷ bs) ∷ chunks) = (b ∷ bs) ++ read_content chunks

-- Somewhere in the bytes `^PQ` is followed by these digits, of which there is one at least.
pub record IsNumbered (bytes digits : Bytes) : Type 0 where
  pub before : Bytes
  pub after : Bytes
  pub place : bytes ≡ before ++ (codes "^PQ" ++ (digits ++ after))
  pub all_digits : All (λ c. is_ascii_digit c ≡ true) digits
  pub some_digit : is_empty digits ≡ false

behind_pq-some :
    (s rest : Bytes)
    → behind_pq s ≡ some rest
    → (before : Bytes) × (s ≡ before ++ (codes "^PQ" ++ rest))
unfolding behind_pq
behind_pq-some [] rest h = cc
behind_pq-some (c ∷ cs) rest h = elim (Option-cases (strip_prefix (codes "^PQ") (c ∷ cs))) [
  | inl away ↦
      let further : behind_pq (c ∷ cs) ≡ behind_pq cs = rw (away, behind_pq) refl in
      let (before, e) = behind_pq-some cs rest (sym further ∙ h) in (c ∷ before, ap (λ l. c ∷ l) e)
  | inr (r, at) ↦
      let found : behind_pq (c ∷ cs) ≡ some r = rw (at, behind_pq) refl in
      ([], strip_prefix-some (codes "^PQ") (c ∷ cs) rest (at ∙ sym found ∙ h))
]

take_while-split : (p : ℕ → Bool) (s : Bytes) → (after : Bytes) × (s ≡ take_while p s ++ after)
take_while-split p [] = ([], refl)
take_while-split p (c ∷ cs) = elim (Bool-cases (p c)) [
  | inl holding ↦ let (after, e) = take_while-split p cs in (after, rw holding (ap (λ l. c ∷ l) e))
  | inr other ↦ (c ∷ cs, rw other refl)
]

take_while-All : (p : ℕ → Bool) (s : Bytes) → All (λ c. p c ≡ true) (take_while p s)
take_while-All p [] = tt
take_while-All p (c ∷ cs) = ground (arith, take_while-All p cs)

drain-suffix : (carry : Bytes) → (before : Bytes) × (carry ≡ before ++ drain carry)
unfolding drain
drain-suffix carry = elim (Bool-cases (ltb 32 (length carry))) [
  | inl long ↦
      (take (length carry - 32) carry, rw long (sym (take-append-drop (length carry - 32) carry)))
  | inr short ↦ ([], rw short refl)
]

digits_in-IsNumbered : (s : Bytes) → is_empty (digits_in s) ≡ false → IsNumbered s (digits_in s)
unfolding digits_in
digits_in-IsNumbered s h = elim (Option-cases (behind_pq s)) [
  | inl away ↦
      let nothing : digits_in s ≡ [] = rw (away, digits_in) refl in
      absurd (true≢false (sym (ap is_empty nothing) ∙ h))
  | inr (rest, at) ↦
      let digits = take_while is_ascii_digit rest in
      let found : digits_in s ≡ digits = rw (at, digits_in) refl in
      let (before, e) = behind_pq-some s rest at in
      let (after, split) = take_while-split is_ascii_digit rest in
      subst (λ ds. IsNumbered s ds) (sym found)
        (record {
          before = before;
          after = after;
          place = e ∙ ap (λ r. before ++ (codes "^PQ" ++ r)) split;
          all_digits = take_while-All is_ascii_digit rest;
          some_digit = sym (ap is_empty found) ∙ h;
        })
]

-- More bytes on either side.
left-IsNumbered : (left s digits : Bytes) → IsNumbered s digits → IsNumbered (left ++ s) digits
left-IsNumbered left s digits h = record {
  before = left ++ h.before;
  after = h.after;
  place =
      ap (λ l. left ++ l) h.place
      ∙ sym (append_assoc left h.before (codes "^PQ" ++ (digits ++ h.after)));
  all_digits = h.all_digits;
  some_digit = h.some_digit;
}

right-IsNumbered : (s right digits : Bytes) → IsNumbered s digits → IsNumbered (s ++ right) digits
right-IsNumbered s right digits h = record {
  before = h.before;
  after = h.after ++ right;
  place =
      ap (λ l. l ++ right) h.place
      ∙ append_assoc h.before (codes "^PQ" ++ (digits ++ h.after)) right
      ∙ ap (λ l. h.before ++ (codes "^PQ" ++ l)) (append_assoc digits h.after right);
  all_digits = h.all_digits;
  some_digit = h.some_digit;
}

scan_pq-IsNumbered :
    (chunks : List Chunk) (carry : Bytes) (n : ℕ)
    → scan_pq chunks carry ≡ some n
    → (digits : Bytes) × IsNumbered (carry ++ read_content chunks) digits
      × (parse_u64 digits ≡ some n)
unfolding scan_pq
scan_pq-IsNumbered [] carry n h = cc
scan_pq-IsNumbered (unreadable e ∷ chunks) carry n h = cc
scan_pq-IsNumbered (piece [] ∷ chunks) carry n h = cc
scan_pq-IsNumbered (piece (b ∷ bs) ∷ chunks) carry n h =
    let grown = carry ++ (b ∷ bs) in
    let rest = read_content chunks in
    let whole : grown ++ rest ≡ carry ++ ((b ∷ bs) ++ rest) = append_assoc carry (b ∷ bs) rest in
    elim (Bool-cases (is_empty (digits_in grown))) [
      | inl nothing ↦
          let further : scan_pq (piece (b ∷ bs) ∷ chunks) carry ≡ scan_pq chunks (drain grown) =
            rw (nothing, scan_pq) refl in
          let (digits, numbered, value) =
            scan_pq-IsNumbered chunks (drain grown) n (sym further ∙ h) in
          let (dropped, e) = drain-suffix grown in
          let same : dropped ++ (drain grown ++ rest) ≡ carry ++ ((b ∷ bs) ++ rest) =
            sym (append_assoc dropped (drain grown) rest) ∙ ap (λ l. l ++ rest) (sym e) ∙ whole in
          (
            digits,
            subst (λ l. IsNumbered l digits) same
                (left-IsNumbered dropped (drain grown ++ rest) digits numbered),
            value,
          )
      | inr there ↦
          let found : scan_pq (piece (b ∷ bs) ∷ chunks) carry ≡ parse_u64 (digits_in grown) =
            rw (there, scan_pq) refl in
          (
            digits_in grown,
            subst (λ l. IsNumbered l (digits_in grown)) whole
                (right-IsNumbered grown rest (digits_in grown) (digits_in-IsNumbered grown there)),
            sym found ∙ h,
          )
    ]

-- A number that `parse_pq` returns is that of a run of digits that stands behind a ^PQ in the file,
-- however the reads cut the file into pieces, and although only 32 bytes are kept between them.
pub parse_pq_lem :
    (chunks : List Chunk) (n : ℕ)
    → parse_pq (some chunks) ≡ some n
    → (digits : Bytes) × IsNumbered (read_content chunks) digits × (parse_u64 digits ≡ some n)
unfolding parse_pq
parse_pq_lem chunks n h = scan_pq-IsNumbered chunks [] n h

take_while-same : (p : ℕ → Bool) (s : Bytes) → All (λ c. p c ≡ true) s → take_while p s ≡ s
take_while-same p [] h = refl
take_while-same p (c ∷ cs) (first, h) = rw (first, take_while-same p cs h) refl

digits_in-first :
    (digits : Bytes)
    → All (λ c. is_ascii_digit c ≡ true) digits
    → digits_in (codes "^PQ" ++ digits) ≡ digits
unfolding digits_in behind_pq
digits_in-first digits h = take_while-same is_ascii_digit digits h

-- When the first read of the file gives exactly ^PQ and one or more digits, these digits are taken for
-- the whole number, whatever the later reads of the file give.
pub parse_pq-cut :
    (d : ℕ) (digits : Bytes) (chunks : List Chunk)
    → All (λ c. is_ascii_digit c ≡ true) (d ∷ digits)
    → parse_pq (some (piece (codes "^PQ" ++ (d ∷ digits)) ∷ chunks)) ≡ parse_u64 (d ∷ digits)
unfolding parse_pq scan_pq
parse_pq-cut d digits chunks h =
    let grown = codes "^PQ" ++ (d ∷ digits) in
    let first : digits_in grown ≡ d ∷ digits = digits_in-first (d ∷ digits) h in
    let there : is_empty (digits_in grown) ≡ false = ap is_empty first in
    let found : scan_pq (piece grown ∷ chunks) [] ≡ parse_u64 (digits_in grown) =
      rw (there, scan_pq) refl in
    found ∙ ap parse_u64 first
