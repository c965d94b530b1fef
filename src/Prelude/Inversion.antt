-- ===== src/Prelude/Inversion.antt =====
-- What a `Result` that came out well says of the steps that led to it.
use Prim.Native.String.{String}
use mathlib.Core.Path.{◌≡◌, refl}
use mathlib.Core.Bool.{Bool, true, false}
use mathlib.Core.Option.{Option, none, some}
use zebra_tamer.Prelude.Result.{Result, ok, err, ok_or, ensure, ◌>>=◌, ◌>>◌}

pub some-injective : {A : Type 0} {a b : A} → some a ≡ some b → a ≡ b
some-injective e = cc

pub ok-injective : {A : Type 0} {a b : A} → ok a ≡ ok b → a ≡ b
ok-injective e = cc

-- A block that returns has taken every step.
pub bind-ok :
    {A B : Type 0} (r : Result A) (next : A → Result B) (b : B)
    → (r >>= next) ≡ ok b
    → (a : A) × (r ≡ ok a) × (next a ≡ ok b)
bind-ok (ok a) next b h = (a, refl, h)
bind-ok (err e) next b h = cc

pub then-ok :
    {B : Type 0} (r : Result (Unit {0})) (next : Result B) (b : B)
    → (r >> next) ≡ ok b
    → (r ≡ ok tt) × (next ≡ ok b)
then-ok (ok _) next b h = (refl, h)
then-ok (err e) next b h = cc

-- A check that let the block go on held.
pub ensured :
    {B : Type 0} (test : Bool) (m : String) (next : Result B) (b : B)
    → (ensure test m >> next) ≡ ok b
    → (test ≡ true) × (next ≡ ok b)
ensured true m next b h = (refl, h)
ensured false m next b h = cc

-- A value that was there.
pub given :
    {A B : Type 0} (o : Option A) (m : String) (next : A → Result B) (b : B)
    → (ok_or o m >>= next) ≡ ok b
    → (a : A) × (o ≡ some a) × (next a ≡ ok b)
given (some a) m next b h = (a, refl, h)
given none m next b h = cc

pub ok_or-ok : {A : Type 0} (o : Option A) (m : String) (a : A) → ok_or o m ≡ ok a → o ≡ some a
ok_or-ok (some b) m a h = cc
ok_or-ok none m a h = cc

pub ensure-ok : (b : Bool) (m : String) (a : Unit {0}) → ensure b m ≡ ok a → b ≡ true
ensure-ok true m a h = refl
ensure-ok false m a h = cc
