-- ===== src/Hash.antt =====
-- `encode_hex` of src/hash.rs, with which digests are written.
use zebra_tamer.Prelude.{
  ℕ, ◌+◌, ◌-◌, ◌*◌, ◌/◌, ◌%◌, ◌<◌, ◌≡◌, refl, ap, Option, none, some, [], ◌∷◌, All, arith, length,
  ltb, if◌then◌else◌,
}
use zebra_tamer.Prelude.Text.{Text, Bytes}

abbrev pub hex_digit : ℕ → ℕ
hex_digit d = if ltb d 10 then b'0' + d else b'a' + (d - 10)

-- `{byte:02x}` of every byte.
unfoldable pub encode_hex : Bytes → Text
encode_hex [] = []
encode_hex (b ∷ bs) = hex_digit (b / 16) ∷ hex_digit (b % 16) ∷ encode_hex bs

-- A reader of such a text, two lower-case digits for a byte.
abbrev pub digit_of : ℕ → Option ℕ
digit_of c =
    if ltb c 48
    then none
    else if ltb c 58
    then some (c - 48)
    else if ltb c 97
    then none
    else if ltb c 103
    then some (c - 87)
    else none

abbrev byte_of : Option ℕ → Option ℕ → Option Bytes → Option Bytes
byte_of (some a) (some b) (some bs) = some ((16 * a + b) ∷ bs)
byte_of _ _ _ = none

unfoldable pub decode_hex : Text → Option Bytes
decode_hex [] = some []
decode_hex (c ∷ []) = none
decode_hex (c ∷ d ∷ cs) = byte_of (digit_of c) (digit_of d) (decode_hex cs)

digit_of-hex_digit : (d : ℕ) → d < 16 → digit_of (hex_digit d) ≡ some d
digit_of-hex_digit d h = ground arith

same_byte : (b : ℕ) (bs : Bytes) → some ((16 * (b / 16) + b % 16) ∷ bs) ≡ some (b ∷ bs)
same_byte b bs = ap (λ x. some (x ∷ bs)) (omega arith)

-- A digest of bytes is read back from its text, which has two characters for a byte; so no two digests
-- have the same text.
pub decode_hex-encode_hex :
    (bs : Bytes)
    → All (λ b. b < 256) bs
    → (decode_hex (encode_hex bs) ≡ some bs) × (length (encode_hex bs) ≡ 2 * length bs)
unfolding decode_hex encode_hex
decode_hex-encode_hex [] h = (refl, refl)
decode_hex-encode_hex (b ∷ bs) (small, h) =
    let (back, size) = decode_hex-encode_hex bs h in
    (
      rw
          (
            digit_of-hex_digit (b / 16) (omega arith),
            digit_of-hex_digit (b % 16) (omega arith),
            back,
          )
          (same_byte b bs),
      omega (arith, size),
    )
