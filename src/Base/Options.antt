-- ===== src/Base/Options.antt =====
-- Chains of steps that may fail.
use mathlib.Core.Path.{◌≡◌, refl}
use mathlib.Core.Logic.{◌≢◌}
use mathlib.Core.Bool.{Bool, true, false}
use mathlib.Core.Option.{Option, none, some}

infixl 5 ◌>>=◌
abbrev pub ◌>>=◌ {ℓ κ} : {A : Type ℓ} {B : Type κ} → Option A → (A → Option B) → Option B
none >>= f = none
some a >>= f = f a

-- A step behind a test.
abbrev pub guard {ℓ} : {A : Type ℓ} → Bool → Option A → Option A
guard true o = o
guard false o = none

pub bind-some {ℓ κ} :
    {A : Type ℓ} {B : Type κ} (o : Option A) (f : A → Option B) (b : B)
    → (o >>= f) ≡ some b
    → (a : A) × (o ≡ some a) × (f a ≡ some b)
bind-some none f b e = absurd cc
bind-some (some a) f b e = (a, refl, e)

pub guard-some {ℓ} :
    {A : Type ℓ} (t : Bool) (o : Option A) (a : A) → guard t o ≡ some a → (t ≡ true) × (o ≡ some a)
guard-some true o a e = (refl, e)
guard-some false o a e = absurd cc

pub none≢some {ℓ} : {A : Type ℓ} {a : A} → none ≢ some a
none≢some e = cc
