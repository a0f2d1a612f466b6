-- ===== src/Base/Result.antt =====
-- Results of fallible code, as Rust's `Result`.
use mathlib.Core.Path.{◌≡◌, refl}
use mathlib.Core.Logic.{◌⊎◌, inl, inr}
use mathlib.Core.Bool.{Bool, true, false}
use shinyproxy_rust.Base.Tests.{if◌then◌else◌}

pub data Result {ℓ} (A E : Type ℓ) : Type ℓ where
  ok : A → Result A E
  err : E → Result A E

-- The `?` operator.
unfoldable pub and_then {ℓ} : {A B E : Type ℓ} → Result A E → (A → Result B E) → Result B E
and_then (ok a) f = f a
and_then (err e) f = err e

-- To split on a computed result and keep the equation.
pub Result-cases {ℓ} :
    {A E : Type ℓ} (r : Result A E) → ((a : A) × (r ≡ ok a)) ⊎ ((e : E) × (r ≡ err e))
Result-cases (ok a) = inl (a, refl)
Result-cases (err e) = inr (e, refl)

-- Inversion of a successful `?`.
pub and_then-eq-ok {ℓ} :
    {A B E : Type ℓ} (m : Result A E) (f : A → Result B E) {b : B}
    → and_then m f ≡ ok b
    → (a : A) × (m ≡ ok a) × (f a ≡ ok b)
unfolding and_then
and_then-eq-ok (ok a) f h = (a, refl, h)
and_then-eq-ok (err e) f h = cc

-- Inversion of a check that was passed.
pub if-err-eq-ok {ℓ} :
    {A E : Type ℓ} (b : Bool) (e : E) {r : Result A E} {a : A}
    → (if b then err e else r) ≡ ok a
    → (b ≡ false) × (r ≡ ok a)
if-err-eq-ok true e h = cc
if-err-eq-ok false e h = (refl, h)
