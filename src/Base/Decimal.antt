-- ===== src/Base/Decimal.antt =====
-- Decimal text, as the packages strconv and fmt print integers.
use Prim.Native.Nat.{ℕ, zero, suc, ◌+◌, ◌*◌, ◌/◌, ◌%◌, ◌<◌}
use Prim.Native.Char.{Char}
use Prim.Native.String.{String, ◌++◌}
use mathlib.Core.Path.{◌≡◌, ap, ◌∙◌}
use mathlib.Core.Logic.{inl, inr}
use mathlib.Core.List.{List, [], ◌∷◌}
use native.Mathlib.Omega.{arith}
use family_quest.Base.Tests.{ltb, if◌then◌else◌, Bool-cases}
use family_quest.Base.Int.{ℤ, pos, negsuc}

infixr 60 ◌&◌
abbrev pub ◌&◌ : String → String → String
s & t = s ++ t

unfoldable pub digit : ℕ → Char
digit zero = "0"
digit (suc zero) = "1"
digit (suc (suc zero)) = "2"
digit (suc (suc (suc zero))) = "3"
digit (suc (suc (suc (suc zero)))) = "4"
digit (suc (suc (suc (suc (suc zero))))) = "5"
digit (suc (suc (suc (suc (suc (suc zero)))))) = "6"
digit (suc (suc (suc (suc (suc (suc (suc zero))))))) = "7"
digit (suc (suc (suc (suc (suc (suc (suc (suc zero)))))))) = "8"
digit _ = "9"

-- The digits of a number, the first one first, in front of `later`. The fuel is never used up
-- where it is above the number.
unfoldable pub digits_fuel : ℕ → ℕ → List ℕ → List ℕ
digits_fuel zero n later = later
digits_fuel (suc fuel) n later =
    let all_digits = digits_fuel fuel (n / 10) ((n % 10) ∷ later) in
    if ltb n 10 then n ∷ later else all_digits

unfoldable pub digits_of : ℕ → List ℕ
unfolding digits_fuel
digits_of n = digits_fuel (suc n) n []

unfoldable pub text_of : List ℕ → String
unfolding digit
text_of [] = String.[]
text_of (d ∷ ds) = String.◌∷◌ (digit d) (text_of ds)

unfoldable pub decimal : ℕ → String
unfolding digits_of text_of
decimal n = text_of (digits_of n)

-- `strconv.Itoa`, and `fmt.Sprint` of an integer.
unfoldable pub format_int : ℤ → String
unfolding decimal
format_int (pos n) = decimal n
format_int (negsuc n) = String.◌∷◌ "-" (decimal (suc n))

-- The number that digits stand for, behind a number read before.
abbrev pub value : ℕ → List ℕ → ℕ
value read [] = read
value read (d ∷ ds) = value (read * 10 + d) ds

value-digits_fuel :
    (fuel n : ℕ) (later : List ℕ) → n < fuel → value 0 (digits_fuel fuel n later) ≡ value n later
unfolding digits_fuel
value-digits_fuel zero n later h = elim h [ ]
value-digits_fuel (suc fuel) n later h = elim (Bool-cases (ltb n 10)) [
  | inl small ↦ rw small (ap (λ (r : ℕ). value r later) (omega arith))
  | inr large ↦ rw large (
      value-digits_fuel fuel (n / 10) ((n % 10) ∷ later) (ground arith)
      ∙ ap (λ (r : ℕ). value r later) (omega arith))
]

-- The digits of a number stand for it.
pub value-digits_of : (n : ℕ) → value 0 (digits_of n) ≡ n
unfolding digits_of
value-digits_of n = value-digits_fuel (suc n) n [] (omega arith)
