-- ===== src/Prelude/Exec.antt =====
-- Code that changes a state and may fail: an error does not undo the writes before it.
use zebra_tamer.Prelude.Result.{Result, ok, err}

abbrev pub Exec {ℓ} : Type ℓ → Type ℓ → Type ℓ
Exec S A = S → Result A × S

-- `let _ = action`: the state that it leaves, whatever its result.
abbrev pub attempt {ℓ} : {S A : Type ℓ} → Exec S A → S → S
attempt action s = (action s).1

abbrev pub pure {ℓ} : {S A : Type ℓ} → A → Exec S A
pure value s = (ok value, s)

-- An action that only looks at its arguments.
abbrev pub lift {ℓ} : {S A : Type ℓ} → Result A → Exec S A
lift answer s = (answer, s)

module _ {ℓ} {S A B : Type ℓ} where
  abbrev pub continue : Result A → (A → Exec S B) → Exec S B
  continue (err problem) next s = (err problem, s)
  continue (ok value) next s = next value s

  infixl 10 ◌>>=◌ ◌>>◌
  abbrev pub ◌>>=◌ : Exec S A → (A → Exec S B) → Exec S B
  ◌>>=◌ action next s = let (answer, after) = action s in continue answer next after

  abbrev pub ◌>>◌ : Exec S A → Exec S B → Exec S B
  first >> second = first >>= λ _. second
