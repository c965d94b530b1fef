-- ===== src/Auth.antt =====
-- src/webui.rs: bearer tokens and the scopes that they open.
pub mod Scopes
use Prim.Native.Nat.{bit_or, bit_xor}
use zebra_tamer.Prelude.{
  ℕ, Bool, false, ◌&&◌, Option, none, some, List, [], ◌∷◌, length, leb, ◌==◌, if◌then◌else◌, any,
}
use zebra_tamer.Prelude.Text.{Bytes, codes, strip_prefix}

pub data Access : Type 0 where
  read print admin : Access

-- The tokens of the configuration, as the bytes that are compared.
pub record Tokens : Type 0 where
  pub read_token : Option Bytes
  pub print_token : Option Bytes
  pub admin_token : Option Bytes

-- The fold over the zipped bytes: the accumulated difference.
unfoldable pub difference : ℕ → Bytes → Bytes → ℕ
difference acc [] bs = acc
difference acc (a ∷ rest) [] = acc
difference acc (a ∷ rest) (b ∷ bs) = difference (bit_or acc (bit_xor a b)) rest bs

unfoldable pub constant_time_equal : Bytes → Bytes → Bool
unfolding difference
constant_time_equal a b = if length a == length b then difference 0 a b == 0 else false

unfoldable pub matches : Bytes → Option Bytes → Bool
unfolding constant_time_equal
matches supplied none = false
matches supplied (some expected) = leb 24 (length expected) && constant_time_equal expected supplied

abbrev pub candidates : Tokens → Access → List (Option Bytes)
candidates config read = config.read_token ∷ config.print_token ∷ config.admin_token ∷ []
candidates config print = config.print_token ∷ config.admin_token ∷ none ∷ []
candidates config admin = config.admin_token ∷ none ∷ none ∷ []

-- The value of the `Authorization` header, if it is there and printable.
abbrev pub bearer : Option Bytes → Option Bytes
bearer none = none
bearer (some value) = strip_prefix (codes "Bearer ") value

-- Whether the token that was supplied, if any, opens the scope.
abbrev pub admits : Tokens → Access → Option Bytes → Bool
admits config access none = false
admits config access (some supplied) = any (matches supplied) (candidates config access)

unfoldable pub authorized : Tokens → Option Bytes → Access → Bool
unfolding matches
authorized config header access = admits config access (bearer header)
