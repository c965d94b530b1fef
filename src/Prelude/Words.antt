-- ===== src/Prelude/Words.antt =====
-- Unsigned 64-bit arithmetic: the saturating operations, the wrapping increment of a release build,
-- and the casts between `u64` and `i64`.
use Prim.Native.Nat.{ℕ, suc, ◌+◌, ◌-◌, ◌%◌}
use zebra_tamer.Prelude.Tests.{leb, ◌==◌, if◌then◌else◌}
use zebra_tamer.Prelude.Int.{ℤ, pos, negsuc}

abbrev pub u64_max : ℕ
u64_max = 18446744073709551615

abbrev pub i64_max : ℕ
i64_max = 9223372036854775807

abbrev pub saturating_add : ℕ → ℕ → ℕ
saturating_add a b = if leb (a + b) u64_max then a + b else u64_max

-- `-` on ℕ stops at 0.
abbrev pub saturating_sub : ℕ → ℕ → ℕ
saturating_sub a b = a - b

abbrev pub wrapping_suc : ℕ → ℕ
wrapping_suc a = (a + 1) % 18446744073709551616

-- `-(count as i64)` in a release build: the cast and the negation wrap.
abbrev pub neg_as_i64 : ℕ → ℤ
neg_as_i64 count =
    if count == 0
    then pos 0
    else if leb count 9223372036854775808
    then negsuc (count - 1)
    else pos (18446744073709551616 - count)

-- `unsigned_abs` of an `i64`.
abbrev pub unsigned_abs : ℤ → ℕ
unsigned_abs (pos n) = n
unsigned_abs (negsuc n) = suc n
