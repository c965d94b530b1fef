-- ===== src/Prelude/Float.antt =====
-- `f64`. Every finite double is an integer multiple of 2⁻¹⁰⁷⁴, the least subnormal, so comparisons
-- of finite doubles are comparisons of those integers (-0.0 and 0.0 are equal, as in the source).
use Prim.Native.Nat.{ℕ, ◌*◌, ◌^◌}
use mathlib.Core.Bool.{Bool, true, false}
use zebra_tamer.Prelude.Int.{ℤ, pos, leb_ℤ, ltb_ℤ, eq_ℤ}

pub data Float : Type 0 where
  finite : ℤ → Float
  infinite : Bool → Float
  nan : Float

-- The integer n as a double.
unfoldable pub of_ℕ : ℕ → Float
of_ℕ n = finite (pos (n * 2 ^ 1074))

abbrev pub is_finite : Float → Bool
is_finite (finite _) = true
is_finite _ = false

-- Tests of two finite doubles; the code asks `is_finite` first, and a comparison with NaN fails.
-- The flag of `infinite` is the sign: `true` is negative.
abbrev pub float_le : Float → Float → Bool
float_le (finite a) (finite b) = leb_ℤ a b
float_le (finite a) (infinite negative) = elim negative [ true ↦ false | false ↦ true ]
float_le (infinite negative) (finite b) = negative
float_le (infinite true) (infinite _) = true
float_le (infinite false) (infinite negative) = elim negative [ true ↦ false | false ↦ true ]
float_le _ _ = false

abbrev pub float_lt : Float → Float → Bool
float_lt (finite a) (finite b) = ltb_ℤ a b
float_lt (finite a) (infinite negative) = elim negative [ true ↦ false | false ↦ true ]
float_lt (infinite negative) (finite b) = negative
float_lt (infinite true) (infinite negative) = elim negative [ true ↦ false | false ↦ true ]
float_lt _ _ = false

abbrev pub float_eq : Float → Float → Bool
float_eq (finite a) (finite b) = eq_ℤ a b
float_eq (infinite true) (infinite negative) = negative
float_eq (infinite false) (infinite negative) = elim negative [ true ↦ false | false ↦ true ]
float_eq _ _ = false
