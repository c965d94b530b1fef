-- ===== src/Legacy/ParsePq.antt =====
-- `parse_pq` of src/api.rs: the number behind a ^PQ of a file that is read piece by piece.
use zebra_tamer.Prelude.{
  ℕ, ◌-◌, true, false, Option, none, some, List, [], ◌∷◌, ◌++◌, length, drop, take_while, is_empty,
  ltb, if◌then◌else◌,
}
use zebra_tamer.Prelude.Text.{Bytes, codes, strip_prefix, is_ascii_digit}
use zebra_tamer.Protocol.{parse_u64}
use zebra_tamer.Transport.{Chunk, piece, unreadable}

-- `windows(3).position(..)`, and what follows that place.
unfoldable pub behind_pq : Bytes → Option Bytes
behind_pq [] = none
behind_pq (c ∷ cs) =
    let rest = behind_pq cs in
    elim (strip_prefix (codes "^PQ") (c ∷ cs)) [ some r ↦ some r | none ↦ rest ]

-- The last 32 bytes.
unfoldable pub drain : Bytes → Bytes
drain carry = if ltb 32 (length carry) then drop (length carry - 32) carry else carry

-- The digits behind the first marker, if there are any.
unfoldable pub digits_in : Bytes → Bytes
unfolding behind_pq
digits_in carry = elim (behind_pq carry) [ none ↦ [] | some rest ↦ take_while is_ascii_digit rest ]

unfoldable pub scan_pq : List Chunk → Bytes → Option ℕ
unfolding digits_in drain parse_u64
scan_pq [] carry = none
scan_pq (unreadable e ∷ chunks) carry = none
scan_pq (piece [] ∷ chunks) carry = none
scan_pq (piece (b ∷ bs) ∷ chunks) carry =
    let grown = carry ++ (b ∷ bs) in
    elim (is_empty (digits_in grown)) [
      | true ↦ scan_pq chunks (drain grown)
      | false ↦ parse_u64 (digits_in grown)
    ]

-- `none` is a file that cannot be opened.
unfoldable pub parse_pq : Option (List Chunk) → Option ℕ
unfolding scan_pq
parse_pq none = none
parse_pq (some chunks) = scan_pq chunks []
