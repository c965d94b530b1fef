-- ===== src/Auth/Scopes.antt =====
-- What `authorized` of src/webui.rs lets through.
use Prim.Native.Nat.{bit_or, bit_xor}
use zebra_tamer.Prelude.{
  ℕ, ◌≤◌, ◌≡◌, refl, ap, sym, ◌∙◌, ◌↔◌, ◌⊎◌, inl, inr, true, false, Option, none, some, [], ◌∷◌,
  length, arith, if◌then◌else◌, ◌==◌, ==_iff, any, Option-cases, subst,
}
use zebra_tamer.Prelude.Bits.{bit_or-zero, bit_xor-zero, bit_xor-same}
use zebra_tamer.Prelude.Inversion.{some-injective}
use zebra_tamer.Prelude.Text.{Bytes}
use zebra_tamer.Auth.{
  Access, read, print, admin, Tokens, difference, constant_time_equal, bearer, authorized, matches,
  candidates, admits,
}

difference-zero :
    (acc : ℕ) (a b : Bytes) → length a ≡ length b → difference acc a b ≡ 0 → (acc ≡ 0) × (a ≡ b)
unfolding difference
difference-zero acc [] [] e h = (h, refl)
difference-zero acc [] (y ∷ b) e h = absurd (omega arith)
difference-zero acc (x ∷ a) [] e h = absurd (omega arith)
difference-zero acc (x ∷ a) (y ∷ b) e h =
    let (first, rest) = difference-zero (bit_or acc (bit_xor x y)) a b (omega arith) h in
    let (clear, same) = bit_or-zero acc (bit_xor x y) first in
    (clear, rw (bit_xor-zero x y same, rest) refl)

difference-same : (a : Bytes) → difference 0 a a ≡ 0
unfolding difference
difference-same [] = refl
difference-same (x ∷ a) = rw (bit_xor-same x) (difference-same a)

-- The comparison that reads every byte is equality: of texts of equal length it folds the
-- differences of all bytes, and the fold is 0 exactly when no byte differs.
pub constant_time_equal_lem : (a b : Bytes) → (constant_time_equal a b ≡ true) ↔ (a ≡ b)
unfolding constant_time_equal
constant_time_equal_lem a b = (
  λ h. (difference-zero 0 a b (ground arith) (ground arith)).1,
  λ e.
      subst (λ c. (if length a == length c then difference 0 a c == 0 else false) ≡ true) e
        (rw ((==_iff (length a) (length a)).1 refl, difference-same a) refl),
)

-- The tokens that open a scope.
abbrev pub Grants : Tokens → Access → Option Bytes → Type 0
Grants config read t =
    (config.read_token ≡ t) ⊎ ((config.print_token ≡ t) ⊎ (config.admin_token ≡ t))
Grants config print t = (config.print_token ≡ t) ⊎ (config.admin_token ≡ t)
Grants config admin t = config.admin_token ≡ t

-- A request opens a scope with a bearer token of it, in full, of at least 24 bytes.
abbrev pub Presents : Tokens → Option Bytes → Access → Type 0
Presents config header access =
    (token : Bytes) × (bearer header ≡ some token)
    × (24 ≤ length token)
    × Grants config access (some token)

matches_iff :
    (supplied : Bytes) (t : Option Bytes)
    → (matches supplied t ≡ true) ↔ ((t ≡ some supplied) × (24 ≤ length supplied))
unfolding matches
matches_iff supplied none = (λ h. cc, λ h. cc h.0)
matches_iff supplied (some t) = (
  λ h.
      let same = (constant_time_equal_lem t supplied).0 (ground arith) in
      (ap some same, subst (λ x. 24 ≤ length x) same (ground arith)),
  λ h.
      let same = some-injective h.0 in
      ground (
        arith,
        (constant_time_equal_lem t supplied).1 same,
        subst (λ x. 24 ≤ length x) (sym same) h.1,
      ),
)

opens_iff :
    (config : Tokens) (access : Access) (supplied : Bytes)
    → (any (matches supplied) (candidates config access) ≡ true)
      ↔ ((24 ≤ length supplied) × Grants config access (some supplied))
opens_iff config read supplied = ground (
  arith,
  matches_iff supplied config.read_token,
  matches_iff supplied config.print_token,
  matches_iff supplied config.admin_token,
)
opens_iff config print supplied = ground (
  arith,
  matches_iff supplied config.print_token,
  matches_iff supplied config.admin_token,
  matches_iff supplied none,
)
opens_iff config admin supplied =
    ground (arith, matches_iff supplied config.admin_token, matches_iff supplied none)

-- A request passes exactly if it presents a token of the scope: the admin token opens every scope,
-- the print token also reading, the read token only reading; a token that is not configured or is
-- shorter than 24 bytes opens none.
pub authorized_iff :
    (config : Tokens) (header : Option Bytes) (access : Access)
    → (authorized config header access ≡ true) ↔ Presents config header access
unfolding authorized
authorized_iff config header access = elim (Option-cases (bearer header)) [
  | inl e ↦ rw e (λ h. cc, λ h. cc)
  | inr (t, e) ↦ (
    λ h.
        let o = (opens_iff config access t).0 (subst (λ b. admits config access b ≡ true) e h) in
        (t, e, o.0, o.1),
    λ h.
        subst (λ b. admits config access b ≡ true) (sym e)
          ((opens_iff config access t).1 (
            subst (λ x. (24 ≤ length x) × Grants config access (some x))
              (some-injective (sym h.1 ∙ e)) (h.2, h.3))),
  )
]
