-- ===== src/Base/Inversion.antt =====
-- What a result `ok` says of the calls and the guards before it.
use mathlib.Core.Path.{◌≡◌, refl}
use mathlib.Core.Bool.{Bool, true, false, not}
use shadowlark_go.Base.Outcome.{Result, ok, err, panic, Error, ◌>>=◌}
use shadowlark_go.Base.Comparison.{if◌then◌else◌}

pub bind-ok {ℓ κ} :
    {A : Type ℓ} {B : Type κ} (r : Result A) (f : A → Result B) (b : B)
    → (r >>= f) ≡ ok b
    → (a : A) × (r ≡ ok a) × (f a ≡ ok b)
bind-ok (ok a) f b e = (a, refl, e)
bind-ok (err x) f b e = cc
bind-ok panic f b e = cc

pub guard-ok {ℓ} :
    {A : Type ℓ} (refused : Bool) (x : Error) (r : Result A) (a : A)
    → (if refused then err x else r) ≡ ok a
    → (refused ≡ false) × (r ≡ ok a)
guard-ok true x r a e = cc
guard-ok false x r a e = (refl, e)

pub require-ok {ℓ} :
    {A : Type ℓ} (met : Bool) (x : Error) (r : Result A) (a : A)
    → (if not met then err x else r) ≡ ok a
    → (met ≡ true) × (r ≡ ok a)
require-ok true x r a e = (refl, e)
require-ok false x r a e = cc

pub ok_injective {ℓ} : {A : Type ℓ} (a b : A) → ok a ≡ ok b → a ≡ b
ok_injective a b e = cc
