-- ===== src/Device/Fields.antt =====
-- The fields of a printer's report (`parse_configuration` of src/device.rs), and the numbers in them.
use mathlib.Core.List.{reverse}
use zebra_tamer.Prelude.{
  ℕ, zero, suc, String, Bool, not, ◌&&◌, ◌||◌, Option, none, some, List, [], ◌∷◌, leb, ◌==◌, all,
  keep, map, is_empty, if◌then◌else◌,
}
use zebra_tamer.Prelude.Int.{ℤ, pos, negsuc}
use zebra_tamer.Prelude.Text.{
  Text, codes, trim, trim_matches, is_control, is_whitespace, is_ascii_digit, to_ascii_uppercase,
  strip_prefix,
}
use zebra_tamer.Protocol.{digits_value}

-- The pieces between the characters that pass the test; a last piece that is empty counts.
unfoldable pub split_on : (ℕ → Bool) → Text → List Text
split_on p [] = [] ∷ []
split_on p (c ∷ cs) =
    let rest = split_on p cs in
    if p c then [] ∷ rest else elim rest [ [] ↦ (c ∷ []) ∷ [] | l ∷ ls ↦ (c ∷ l) ∷ ls ]

abbrev pub strip_suffix : Text → Text → Option Text
strip_suffix suffix s = elim (strip_prefix (reverse suffix) (reverse s)) [
  | none ↦ none
  | some rest ↦ some (reverse rest)
]

abbrev without_return : Text → Text
without_return l = elim (strip_suffix (codes "\r") l) [ none ↦ l | some rest ↦ rest ]

-- The last piece has no line end; it counts when it is not empty.
abbrev ended : List Text → List Text
ended [] = []
ended (l ∷ []) = if is_empty l then [] else l ∷ []
ended (l ∷ k ∷ ls) = without_return l ∷ ended (k ∷ ls)

-- `str::lines`.
unfoldable pub lines : Text → List Text
unfolding split_on
lines s = ended (split_on (λ c. c == 10) s)

-- `split_whitespace`.
unfoldable pub split_whitespace : Text → List Text
unfolding split_on is_whitespace
split_whitespace s = keep (λ w. not (is_empty w)) (split_on is_whitespace s)

unfoldable pub is_edge : ℕ → Bool
unfolding is_control is_whitespace
is_edge c = is_control c || is_whitespace c

-- The value of the last line that ends in the label, or nothing.
unfoldable pub field : Text → List Text → Option Text
unfolding trim_matches is_edge trim
field label [] = none
field label (l ∷ ls) =
    let later = field label ls in
    elim later [
      | some v ↦ some v
      | none ↦ elim (strip_suffix label (map to_ascii_uppercase (trim_matches is_edge l))) [
        | none ↦ none
        | some v ↦ some (trim v)
      ]
    ]

unfoldable pub get : List Text → String → Text
unfolding field
get report key = elim (field (codes key) report) [ none ↦ [] | some v ↦ v ]

abbrev pub first_word : List Text → Text
first_word [] = []
first_word (w ∷ ws) = w

unfoldable pub first : List Text → String → Text
unfolding get split_whitespace
first report key = first_word (split_whitespace (get report key))

abbrev pub underscored : ℕ → ℕ
underscored c = if c == 45 || c == 32 then 95 else c

unfoldable pub normalized : List Text → String → Text
unfolding get
normalized report key = map underscored (get report key)

-- The digits of a number that is at most `limit`.
unfoldable pub parse_digits : ℕ → Text → Option ℕ
parse_digits limit [] = none
parse_digits limit (c ∷ cs) =
    let n = digits_value 0 (c ∷ cs) in
    if all is_ascii_digit (c ∷ cs) && leb n limit then some n else none

-- `parse::<u32>`, which takes a plus sign.
unfoldable pub parse_u32 : Text → Option ℕ
unfolding parse_digits
parse_u32 [] = none
parse_u32 (c ∷ cs) =
    if c == 43 then parse_digits 4294967295 cs else parse_digits 4294967295 (c ∷ cs)

abbrev minus : Option ℕ → Option ℤ
minus none = none
minus (some zero) = some (pos zero)
minus (some (suc n)) = some (negsuc n)

abbrev plus : Option ℕ → Option ℤ
plus none = none
plus (some n) = some (pos n)

-- `parse::<i32>`.
unfoldable pub parse_i32 : Text → Option ℤ
unfolding parse_digits
parse_i32 [] = none
parse_i32 (c ∷ cs) =
    if c == 45
    then minus (parse_digits 2147483648 cs)
    else if c == 43
    then plus (parse_digits 2147483647 cs)
    else plus (parse_digits 2147483647 (c ∷ cs))

-- A number of dots is the only word of its field.
abbrev pub only_word : List Text → Option Text
only_word (w ∷ []) = some w
only_word _ = none

unfoldable pub dots : List Text → String → Option ℕ
unfolding get split_whitespace parse_u32
dots report key = elim (only_word (split_whitespace (get report key))) [
  | none ↦ none
  | some w ↦ parse_u32 (get report key)
]
