-- ===== src/Metrics/Escape.antt =====
-- Escaped label values (`esc` of src/metrics.rs), and how the text format reads them.
use mathlib.Core.List.{append_assoc}
use zebra_tamer.Prelude.{
  ℕ, ◌≡◌, refl, sym, ap, subst, ◌∙◌, Bool, true, false, Option, none, some, [], ◌∷◌, ◌++◌, ◌==◌,
  ==_iff, if◌then◌else◌, Bool-cases, inl, inr,
}
use zebra_tamer.Prelude.Text.{Text}
use zebra_tamer.Metrics.{replace, esc}

abbrev with_char : ℕ → Option (Text × Text) → Option (Text × Text)
with_char c none = none
with_char c (some (v, rest)) = some (c ∷ v, rest)

-- A label value up to its closing quote, and what follows; the flag says that a backslash came before.
-- A line that ends inside of the value, and any other escape, is no value.
unfoldable pub read_label : Bool → Text → Option (Text × Text)
read_label escaped [] = none
read_label true (c ∷ cs) =
    let rest = read_label false cs in
    if c == b'n'
    then with_char 10 rest
    else if c == b'\\'
    then with_char b'\\' rest
    else if c == b'"'
    then with_char b'"' rest
    else none
read_label false (c ∷ cs) =
    let rest = read_label false cs in
    let behind = read_label true cs in
    if c == b'"'
    then some ([], cs)
    else if c == b'\\'
    then behind
    else if c == 10
    then none
    else with_char c rest

replace-append : (c : ℕ) (by a b : Text) → replace c by (a ++ b) ≡ replace c by a ++ replace c by b
unfolding replace
replace-append c by [] b = refl
replace-append c by (d ∷ ds) b =
    ap (λ l. (if d == c then by else d ∷ []) ++ l) (replace-append c by ds b)
    ∙ sym (append_assoc (if d == c then by else d ∷ []) (replace c by ds) (replace c by b))

-- One character at a time.
esc-cons : (c : ℕ) (cs : Text) → esc (c ∷ cs) ≡ esc (c ∷ []) ++ esc cs
unfolding esc replace
esc-cons c cs =
    let quoted : Text → Text = replace b'"' (b'\\' ∷ b'"' ∷ []) in
    let slashed : Text → Text = replace b'\\' (b'\\' ∷ b'\\' ∷ []) in
    let broken : Text → Text = replace 10 (b'\\' ∷ b'n' ∷ []) in
    ap (λ l. broken (quoted l)) (replace-append b'\\' (b'\\' ∷ b'\\' ∷ []) (c ∷ []) cs)
    ∙ ap broken (replace-append b'"' (b'\\' ∷ b'"' ∷ []) (slashed (c ∷ [])) (slashed cs))
    ∙ replace-append 10 (b'\\' ∷ b'n' ∷ []) (quoted (slashed (c ∷ []))) (quoted (slashed cs))

-- The escape of one character, and what it stands for.
ReadsAs : ℕ → Type 0
ReadsAs c = (t : Text) → read_label false (esc (c ∷ []) ++ t) ≡ with_char c (read_label false t)

slash-ReadsAs : ReadsAs b'\\'
unfolding ReadsAs read_label esc replace
slash-ReadsAs t = refl

quote-ReadsAs : ReadsAs b'"'
unfolding ReadsAs read_label esc replace
quote-ReadsAs t = refl

break-ReadsAs : ReadsAs 10
unfolding ReadsAs read_label esc replace
break-ReadsAs t = refl

plain-ReadsAs : (c : ℕ) → (c == b'\\') ≡ false → (c == b'"') ≡ false → (c == 10) ≡ false → ReadsAs c
unfolding ReadsAs read_label esc replace
plain-ReadsAs c slash quote break t = rw (slash, quote, break, slash, quote, break) refl

reads_as : (c : ℕ) → ReadsAs c
reads_as c = elim (Bool-cases (c == b'\\')) [
  | inl e ↦ subst ReadsAs (sym ((==_iff c b'\\').0 e)) slash-ReadsAs
  | inr slash ↦ elim (Bool-cases (c == b'"')) [
    | inl e ↦ subst ReadsAs (sym ((==_iff c b'"').0 e)) quote-ReadsAs
    | inr quote ↦ elim (Bool-cases (c == 10)) [
      | inl e ↦ subst ReadsAs (sym ((==_iff c 10).0 e)) break-ReadsAs
      | inr break ↦ plain-ReadsAs c slash quote break
    ]
  ]
]

-- A value that is escaped is read back whole, up to the quote that ends it.
pub read_label-esc : (s rest : Text) → read_label false (esc s ++ (b'"' ∷ rest)) ≡ some (s, rest)
unfolding read_label esc replace ReadsAs
read_label-esc [] rest = refl
read_label-esc (c ∷ cs) rest =
    ap (λ l. read_label false (l ++ (b'"' ∷ rest))) (esc-cons c cs)
    ∙ ap (read_label false) (append_assoc (esc (c ∷ [])) (esc cs) (b'"' ∷ rest))
    ∙ reads_as c (esc cs ++ (b'"' ∷ rest))
    ∙ ap (with_char c) (read_label-esc cs rest)
