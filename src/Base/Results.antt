-- ===== src/Base/Results.antt =====
-- Errors of the domain package (backend/internal/domain/domain.go) and results that carry them.
use mathlib.Core.Path.{◌≡◌, refl}
use mathlib.Core.Bool.{Bool, true, false}
use mathlib.Core.Logic.{◌⊎◌, inl, inr}

-- `no_rows` is the driver's `pgx.ErrNoRows` and `password_too_long` the error of bcrypt, where a
-- method passes them on. A text wrapped
-- round `ErrInvalidInput` by `familyInvalid` is left out: callers test the kind.
pub data Error : Type 0 where
  invalid_input conflict not_found invalid_rating invalid_pin invalid_pin_format : Error
  invalid_role unauthorized forbidden : Error
  no_rows password_too_long : Error

pub data Result {ℓ} (A : Type ℓ) : Type ℓ where
  err : Error → Result A
  ok : A → Result A

infixl 5 ◌>>=◌
-- The first error ends a chain.
abbrev pub ◌>>=◌ {α β} : {X : Type α} {Y : Type β} → Result X → (X → Result Y) → Result Y
err x >>= rest = err x
ok a >>= rest = rest a

infixl 5 ◌>>◌
abbrev pub ◌>>◌ {β} : {Y : Type β} → Result (Unit {0}) → Result Y → Result Y
check >> rest = check >>= λ _. rest

-- `if test { return e }`.
abbrev pub fail_if : Bool → Error → Result (Unit {0})
fail_if true e = err e
fail_if false e = ok tt

pub >>=-eq-ok {α β} :
    {X : Type α} {Y : Type β} (check : Result X) (rest : X → Result Y) {y : Y}
    → (check >>= rest) ≡ ok y
    → (x : X) × (check ≡ ok x) × (rest x ≡ ok y)
>>=-eq-ok (err x) rest h = cc
>>=-eq-ok (ok x) rest h = (x, refl, h)

pub Result-cases {ℓ} :
    {A : Type ℓ} (m : Result A) → ((a : A) × (m ≡ ok a)) ⊎ ((e : Error) × (m ≡ err e))
Result-cases (ok a) = inl (a, refl)
Result-cases (err e) = inr (e, refl)
