-- ===== src/Prelude/Text.antt =====
-- Texts that the code walks: lists of code points, with `str`'s tests; and byte strings.
use Prim.Native.Nat.{ℕ, ◌+◌, ◌-◌}
use Prim.Native.Char.{code}
use Prim.Native.String.{String}
use mathlib.Core.Path.{◌≡◌}
use mathlib.Core.Logic.{◌↔◌}
use mathlib.Core.Bool.{Bool, true, false, ◌&&◌, ◌||◌}
use mathlib.Core.Option.{Option, none, some}
use mathlib.Core.List.{List, [], ◌∷◌, reverse}
use native.Mathlib.Omega.{arith}
use zebra_tamer.Prelude.Tests.{leb, ltb, ◌==◌, if◌then◌else◌}

abbrev pub Text : Type 0
Text = List ℕ

abbrev pub Bytes : Type 0
Bytes = List ℕ

-- The code points of a literal. `String` has its own `[]` and `∷`.
abbrev pub codes : String → Text
codes String.[] = []
codes (String.◌∷◌ c s) = code c ∷ codes s

abbrev between : ℕ → ℕ → ℕ → Bool
between lo hi c = leb lo c && leb c hi

-- The bytes that a code point takes in UTF-8.
abbrev utf8_width : ℕ → ℕ
utf8_width c = if ltb c 128 then 1 else if ltb c 2048 then 2 else if ltb c 65536 then 3 else 4

-- `str::len`, in bytes.
abbrev pub text_len : Text → ℕ
text_len [] = 0
text_len (c ∷ cs) = utf8_width c + text_len cs

-- `char::is_whitespace`: Unicode's White_Space.
unfoldable pub is_whitespace : ℕ → Bool
is_whitespace c =
    between 9 13 c
    || c == 32
    || c == 0x85
    || c == 0xa0
    || c == 0x1680
    || between 0x2000 0x200a c
    || c == 0x2028
    || c == 0x2029
    || c == 0x202f
    || c == 0x205f
    || c == 0x3000

-- `char::is_control`: Unicode's Cc.
unfoldable pub is_control : ℕ → Bool
is_control c = ltb c 32 || between 127 159 c

abbrev pub is_ascii_digit : ℕ → Bool
is_ascii_digit c = between b'0' b'9' c

abbrev pub is_ascii_hexdigit : ℕ → Bool
is_ascii_hexdigit c = is_ascii_digit c || between b'A' b'F' c || between b'a' b'f' c

abbrev pub is_ascii_alphanumeric : ℕ → Bool
is_ascii_alphanumeric c = is_ascii_digit c || between b'A' b'Z' c || between b'a' b'z' c

abbrev pub to_ascii_uppercase : ℕ → ℕ
to_ascii_uppercase c = if between b'a' b'z' c then c - 32 else c

abbrev pub to_ascii_lowercase : ℕ → ℕ
to_ascii_lowercase c = if between b'A' b'Z' c then c + 32 else c

-- `str::trim().is_empty()`: nothing but white space.
unfoldable pub is_blank : Text → Bool
unfolding is_whitespace
is_blank [] = true
is_blank (c ∷ cs) = is_whitespace c && is_blank cs

unfoldable pub skip_while : (ℕ → Bool) → Text → Text
skip_while p [] = []
skip_while p (c ∷ cs) = let rest = skip_while p cs in if p c then rest else c ∷ cs

-- `trim_matches`.
unfoldable pub trim_matches : (ℕ → Bool) → Text → Text
unfolding skip_while
trim_matches p s = reverse (skip_while p (reverse (skip_while p s)))

unfoldable pub trim : Text → Text
unfolding trim_matches is_whitespace
trim s = trim_matches is_whitespace s

-- `strip_prefix`.
abbrev pub strip_prefix : Text → Text → Option Text
strip_prefix [] s = some s
strip_prefix (p ∷ ps) [] = none
strip_prefix (p ∷ ps) (c ∷ cs) = let rest = strip_prefix ps cs in if p == c then rest else none

abbrev pub text_eq : Text → Text → Bool
text_eq [] [] = true
text_eq (a ∷ s) (b ∷ bs) = a == b && text_eq s bs
text_eq _ _ = false

pub text_eq_iff : (a b : Text) → (text_eq a b ≡ true) ↔ (a ≡ b)
text_eq_iff [] [] = ground arith
text_eq_iff [] (b ∷ bs) = ground arith
text_eq_iff (a ∷ s) [] = ground arith
text_eq_iff (a ∷ s) (b ∷ bs) = ground (arith, text_eq_iff s bs)
