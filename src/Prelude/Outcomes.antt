-- ===== src/Prelude/Outcomes.antt =====
-- How a Go call ends: with a value, with an error value, with a panic, or, for a model on fuel,
-- out of fuel.
use Prim.Native.String.{String}
use mathlib.Core.Path.{◌≡◌, refl}
use mathlib.Core.Bool.{Bool, true, false}
use lbry_go.Prelude.Tests.{if◌then◌else◌}

pub data Run {ℓ} (A : Type ℓ) : Type ℓ where
  ok : A → Run A
  err : String → Run A
  panic : String → Run A
  out_of_fuel : Run A

infixl 5 ◌>>=◌
abbrev pub ◌>>=◌ {ℓ κ} : {A : Type ℓ} {B : Type κ} → Run A → (A → Run B) → Run B
out_of_fuel >>= next = out_of_fuel
panic message >>= next = panic message
err message >>= next = err message
ok a >>= next = next a

-- The `...P` functions: an error becomes a panic.
abbrev pub must {ℓ} : {A : Type ℓ} → Run A → Run A
must (ok a) = ok a
must (err message) = panic message
must (panic message) = panic message
must out_of_fuel = out_of_fuel

-- The parts of a chain that ends in a value.
pub >>=-eq-ok {ℓ κ} :
    {A : Type ℓ} {B : Type κ} (run : Run A) (next : A → Run B) {last : B}
    → (run >>= next) ≡ ok last
    → (first : A) × (run ≡ ok first) × (next first ≡ ok last)
>>=-eq-ok out_of_fuel next e = cc
>>=-eq-ok (panic message) next e = cc
>>=-eq-ok (err message) next e = cc
>>=-eq-ok (ok first) next e = (first, refl, e)

-- The call ends with a value, of which `P` holds.
abbrev pub Returns {ℓ} : {A : Type ℓ} → (A → Type 0) → Run A → Type 0
Returns P (ok a) = P a
Returns P (err message) = ⊥
Returns P (panic message) = ⊥
Returns P out_of_fuel = ⊥

pub Returns-value {ℓ} :
    {A : Type ℓ} (P : A → Type 0) (run : Run A) → Returns P run → (a : A) × (run ≡ ok a) × P a
Returns-value P (ok a) p = (a, refl, p)
Returns-value P (err message) p = absurd p
Returns-value P (panic message) p = absurd p
Returns-value P out_of_fuel p = absurd p

pub Returns-bind {ℓ κ} :
    {A : Type ℓ} {B : Type κ} (P : A → Type 0) (Q : B → Type 0) (run : Run A) (next : A → Run B)
    → Returns P run
    → ((a : A) → P a → Returns Q (next a))
    → Returns Q (run >>= next)
Returns-bind P Q (ok a) next p f = f a p
Returns-bind P Q (err message) next p f = absurd p
Returns-bind P Q (panic message) next p f = absurd p
Returns-bind P Q out_of_fuel next p f = absurd p

pub Returns-imp {ℓ} :
    {A : Type ℓ} (P Q : A → Type 0) (run : Run A)
    → ((a : A) → P a → Q a)
    → Returns P run
    → Returns Q run
Returns-imp P Q (ok a) f p = f a p
Returns-imp P Q (err message) f p = absurd p
Returns-imp P Q (panic message) f p = absurd p
Returns-imp P Q out_of_fuel f p = absurd p

pub Returns-if {ℓ} :
    {A : Type ℓ} (P : A → Type 0) (b : Bool) (x y : Run A)
    → (b ≡ true → Returns P x)
    → (b ≡ false → Returns P y)
    → Returns P (if b then x else y)
Returns-if P true x y f g = f refl
Returns-if P false x y f g = g refl
