-- ===== src/Config/Valid.antt =====
-- What a configuration that src/config.rs accepts is like.
use zebra_tamer.Prelude.{
  ◌≤◌, ◌≡◌, refl, ◌≢◌, Bool, true, false, not, ◌||◌, Option, none, some, List, [], ◌∷◌, All, any,
  leb, ltb, ◌&&◌, arith, is_empty,
}
use zebra_tamer.Prelude.Text.{Text, text_len, text_eq, text_eq_iff}
use zebra_tamer.Prelude.Inversion.{then-ok, ensured}
use zebra_tamer.Prelude.Result.{ok}
use zebra_tamer.Config.{
  Config, PrinterConfig, is_safe, is_long, is_none_or, is_some_and, is_agent_id, check_profile,
  check_rest, check_printers, validate_config,
}

not-true : (b : Bool) → not b ≡ true → b ≡ false
not-true true h = cc
not-true false h = refl

-- The checks of the first printer, and those of the others behind it.
record Passes (ids : List Text) (p : PrinterConfig) (ps : List PrinterConfig) : Type 0 where
  named : is_empty p.id ≡ false
  safe : is_safe p.id ≡ true
  fresh : any (λ id. text_eq id p.id) ids ≡ false
  others : check_printers (p.id ∷ ids) ps ≡ ok tt

check_printers-Passes :
    (ids : List Text) (p : PrinterConfig) (ps : List PrinterConfig)
    → check_printers ids (p ∷ ps) ≡ ok tt
    → Passes ids p ps
unfolding check_printers
check_printers-Passes ids p ps h =
    let (profile, h1) = then-ok (check_profile p.device_profile) _ tt h in
    let (named, h2) = ensured (not (is_empty p.id)) _ _ tt h1 in
    let (safe, h3) = ensured (is_safe p.id) _ _ tt h2 in
    let (fresh, h4) = ensured (not (any (λ id. text_eq id p.id) ids)) _ _ tt h3 in
    let (rest, h5) = then-ok (check_rest p) _ tt h4 in
    record { named = not-true _ named; safe = safe; fresh = not-true _ fresh; others = h5 }

unseen :
    (ids : List Text) (ps : List PrinterConfig)
    → check_printers ids ps ≡ ok tt
    → All (λ (p : PrinterConfig). any (λ id. text_eq id p.id) ids ≡ false) ps
unseen ids [] h = tt
unseen ids (p ∷ ps) h =
    let c = check_printers-Passes ids p ps h in
    (c.fresh, weaken p.id ids ps (unseen (p.id ∷ ids) ps c.others))
  where
    weaken :
        (k : Text) (l : List Text) (qs : List PrinterConfig)
        → All (λ (q : PrinterConfig). any (λ id. text_eq id q.id) (k ∷ l) ≡ false) qs
        → All (λ (q : PrinterConfig). any (λ id. text_eq id q.id) l ≡ false) qs
    weaken k l [] a = tt
    weaken k l (q ∷ qs) a = (ground (arith, a.0), weaken k l qs a.1)

-- No two printers share an id, and every id can name a directory.
abbrev pub IsFleet : List PrinterConfig → Type 0
IsFleet [] = Unit
IsFleet (p ∷ ps) =
    (p.id ≢ []) × (is_safe p.id ≡ true) × All (λ (q : PrinterConfig). p.id ≢ q.id) ps × IsFleet ps

differ_from :
    (k : Text) (l : List Text) (qs : List PrinterConfig)
    → All (λ (q : PrinterConfig). any (λ id. text_eq id q.id) (k ∷ l) ≡ false) qs
    → All (λ (q : PrinterConfig). k ≢ q.id) qs
differ_from k l [] a = tt
differ_from k l (q ∷ qs) a =
    (λ e. ground (arith, a.0, (text_eq_iff k q.id).1 e), differ_from k l qs a.1)

nonempty : (t : Text) → is_empty t ≡ false → t ≢ []
nonempty [] h e = cc
nonempty (c ∷ cs) h e = cc

check_printers-IsFleet :
    (ids : List Text) (ps : List PrinterConfig) → check_printers ids ps ≡ ok tt → IsFleet ps
check_printers-IsFleet ids [] h = tt
check_printers-IsFleet ids (p ∷ ps) h =
    let c = check_printers-Passes ids p ps h in
    (
      nonempty p.id c.named,
      c.safe,
      differ_from p.id ids ps (unseen (p.id ∷ ids) ps c.others),
      check_printers-IsFleet (p.id ∷ ids) ps c.others,
    )

abbrev pub IsLong : Option Text → Type 0
IsLong none = Unit
IsLong (some t) = 24 ≤ text_len t

long : (t : Option Text) → is_none_or is_long t ≡ true → IsLong t
long none h = tt
long (some t) h = ground arith

has_admin :
    (page : Bool) (t : Option Text)
    → (not page || is_some_and is_long t) ≡ true
    → page ≡ true
    → t ≢ none
has_admin true none h e = λ _. cc
has_admin true (some t) h e = λ q. cc
has_admin false t h e = cc

-- In a configuration that is accepted every token that is set has at least 24 bytes, the browser page
-- has an admin token, and the printers have distinct, non-empty ids of letters, digits, hyphens and
-- underscores.
pub validate_config_lem :
    (config : Config)
    → validate_config config ≡ ok tt
    → IsLong config.read_token
      × IsLong config.print_token
      × IsLong config.admin_token
      × (config.webui_enabled ≡ true → config.admin_token ≢ none)
      × IsFleet config.printers
unfolding validate_config
validate_config_lem config h =
    let (reads, h1) = ensured (is_none_or is_long config.read_token) _ _ tt h in
    let (prints, h2) = ensured (is_none_or is_long config.print_token) _ _ tt h1 in
    let (admins, h3) = ensured (is_none_or is_long config.admin_token) _ _ tt h2 in
    let (page, h4) =
      ensured (not config.webui_enabled || is_some_and is_long config.admin_token) _ _ tt h3 in
    let (size, h5) =
      ensured (ltb 0 config.max_job_bytes && leb config.max_job_bytes 8388608) _ _ tt h4 in
    let (active, h6) = ensured (ltb 0 config.max_active_jobs_per_printer) _ _ tt h5 in
    let (agent, h7) = ensured (is_agent_id config.agent_id) _ _ tt h6 in
    (
      long config.read_token reads,
      long config.print_token prints,
      long config.admin_token admins,
      has_admin config.webui_enabled config.admin_token page,
      check_printers-IsFleet [] config.printers h7,
    )
