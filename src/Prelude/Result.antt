-- ===== src/Prelude/Result.antt =====
-- `anyhow::Result`: an error carries its message, and an error of the operating system is `io`.
use Prim.Native.String.{String}
use mathlib.Core.Bool.{Bool, true, false}
use mathlib.Core.Option.{Option, none, some}

pub data Error : Type 0 where
  io : Error
  message : String → Error

pub data Result {ℓ} (A : Type ℓ) : Type ℓ where
  ok : A → Result A
  err : Error → Result A

abbrev pub is_ok {ℓ} : {A : Type ℓ} → Result A → Bool
is_ok (err _) = false
is_ok (ok _) = true

-- `ok_or_else`.
abbrev pub ok_or {ℓ} : {A : Type ℓ} → Option A → String → Result A
ok_or (some a) m = ok a
ok_or none m = err (message m)

-- `ensure!(test, message)`.
abbrev pub ensure : Bool → String → Result (Unit {0})
ensure false m = err (message m)
ensure true m = ok tt

-- The operator `?`: the first error ends the block.
module _ {ℓ κ} {A : Type ℓ} {B : Type κ} where
  infixl 5 ◌>>=◌
  abbrev pub ◌>>=◌ : Result A → (A → Result B) → Result B
  err problem >>= next = err problem
  ok value >>= next = next value

module _ {κ} {B : Type κ} where
  infixl 5 ◌>>◌
  abbrev pub ◌>>◌ : Result (Unit {0}) → Result B → Result B
  first >> second = first >>= λ _. second
