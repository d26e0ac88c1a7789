-- ===== src/Base/Numerals.antt =====
-- Decimal text, as the package strconv reads it.
use Prim.Native.Nat.{ℕ, zero, suc, ◌+◌, ◌-◌, ◌*◌, ◌/◌, ◌%◌, ◌<◌}
use Prim.Native.Char.{code}
use Prim.Native.String.{String}
use mathlib.Core.Path.{◌≡◌, refl, ap, sym, ◌∙◌}
use mathlib.Core.Logic.{inl, inr}
use mathlib.Core.Bool.{Bool, true, false, ◌&&◌}
use mathlib.Core.List.{List, [], ◌∷◌}
use mathlib.Core.Option.{Option, none, some}
use native.Mathlib.Omega.{arith}
use family_quest.Base.Tests.{ltb, leb, ◌==◌, if◌then◌else◌, Bool-cases}
use family_quest.Base.Lists.{all}
use family_quest.Base.Int.{ℤ, pos, neg, two_63}
use family_quest.Base.Text.{codes}
use family_quest.Base.Decimal.{
  digit, digits_fuel, digits_of, text_of, decimal, format_int, value, value-digits_of,
}

abbrev pub decimal_digit : ℕ → Bool
decimal_digit c = leb 48 c && leb c 57

-- Digits behind a number that was read before.
unfoldable pub read_digits : ℕ → List ℕ → Option ℕ
read_digits read [] = some read
read_digits read (c ∷ cs) =
    let rest = read_digits (read * 10 + (c - 48)) cs in if decimal_digit c then rest else none

-- One digit or more.
unfoldable pub read_number : List ℕ → Option ℕ
read_number [] = none
read_number (c ∷ cs) = read_digits 0 (c ∷ cs)

unfoldable pub below_limit : (ℕ → ℤ) → ℕ → Option ℕ → Option ℤ
below_limit sign limit none = none
below_limit sign limit (some n) = if ltb limit n then none else some (sign n)

abbrev pub negative : ℕ → ℤ
negative n = neg (pos n)

-- `strconv.ParseInt(s, 10, 64)`, and `strconv.Atoi`, which agrees with it on 64 bits.
unfoldable pub parse_codes_int : List ℕ → Option ℤ
parse_codes_int [] = none
parse_codes_int (c ∷ cs) =
    if c == 43
    then below_limit pos 9_223_372_036_854_775_807 (read_number cs)
    else if c == 45
    then below_limit negative 9_223_372_036_854_775_808 (read_number cs)
    else below_limit pos 9_223_372_036_854_775_807 (read_number (c ∷ cs))

unfoldable pub parse_int : String → Option ℤ
parse_int s = parse_codes_int (codes s)

abbrev below_ten : ℕ → Bool
below_ten d = ltb d 10

code-digit : (d : ℕ) → d < 10 → code (digit d) ≡ 48 + d
unfolding digit
code-digit zero h = refl
code-digit (suc zero) h = refl
code-digit (suc (suc zero)) h = refl
code-digit (suc (suc (suc zero))) h = refl
code-digit (suc (suc (suc (suc zero)))) h = refl
code-digit (suc (suc (suc (suc (suc zero))))) h = refl
code-digit (suc (suc (suc (suc (suc (suc zero)))))) h = refl
code-digit (suc (suc (suc (suc (suc (suc (suc zero))))))) h = refl
code-digit (suc (suc (suc (suc (suc (suc (suc (suc zero)))))))) h = refl
code-digit (suc (suc (suc (suc (suc (suc (suc (suc (suc zero))))))))) h = refl
code-digit (suc (suc (suc (suc (suc (suc (suc (suc (suc (suc d)))))))))) h = absurd (omega arith)

read-text_of :
    (read : ℕ) (ds : List ℕ)
    → all below_ten ds ≡ true
    → read_digits read (codes (text_of ds)) ≡ some (value read ds)
unfolding read_digits text_of
read-text_of read [] h = refl
read-text_of read (d ∷ ds) h =
    let small : d < 10 = ground arith in
    let this : decimal_digit (48 + d) ≡ true = ground arith in
    let shown : 48 + d - 48 ≡ d = omega arith in
    rw (code-digit d small, this, shown) (read-text_of (read * 10 + d) ds (ground arith))

digits_fuel-below_ten :
    (fuel n : ℕ) (later : List ℕ)
    → all below_ten later ≡ true
    → all below_ten (digits_fuel fuel n later) ≡ true
unfolding digits_fuel
digits_fuel-below_ten zero n later h = h
digits_fuel-below_ten (suc fuel) n later h =
    ground (arith, digits_fuel-below_ten fuel (n / 10) ((n % 10) ∷ later))

digits_of-below_ten : (n : ℕ) → all below_ten (digits_of n) ≡ true
unfolding digits_of
digits_of-below_ten n = digits_fuel-below_ten (suc n) n [] refl

-- The digits start with one.
digits_fuel-cons :
    (fuel n d : ℕ) (later : List ℕ)
    → (e : ℕ) × (rest : List ℕ) × (digits_fuel fuel n (d ∷ later) ≡ e ∷ rest)
unfolding digits_fuel
digits_fuel-cons zero n d later = (d, later, refl)
digits_fuel-cons (suc fuel) n d later = elim (Bool-cases (ltb n 10)) [
  | inl small ↦ (n, d ∷ later, rw small refl)
  | inr large ↦
      let (e, rest, h) = digits_fuel-cons fuel (n / 10) (n % 10) (d ∷ later) in
      (e, rest, rw large h)
]

digits_of-cons : (n : ℕ) → (e : ℕ) × (rest : List ℕ) × (digits_of n ≡ e ∷ rest)
unfolding digits_of digits_fuel
digits_of-cons n = elim (Bool-cases (ltb n 10)) [
  | inl small ↦ (n, [], rw small refl)
  | inr large ↦ let (e, rest, h) = digits_fuel-cons n (n / 10) (n % 10) [] in (e, rest, rw large h)
]

unsigned :
    (c : ℕ) (cs : List ℕ) (n : ℕ)
    → decimal_digit c ≡ true
    → read_digits 0 (c ∷ cs) ≡ some n
    → n < two_63
    → parse_codes_int (c ∷ cs) ≡ some (pos n)
unfolding parse_codes_int read_number below_limit
unsigned c cs n d h limit =
    let plus : (c == 43) ≡ false = ground arith in
    let minus : (c == 45) ≡ false = ground arith in
    let fits : ltb 9_223_372_036_854_775_807 n ≡ false = ground arith in
    rw (plus, minus, h, fits) refl

read_decimal :
    (n e : ℕ) (rest : List ℕ)
    → digits_of n ≡ e ∷ rest
    → n < two_63
    → parse_int (text_of (e ∷ rest)) ≡ some (pos n)
unfolding parse_int text_of
read_decimal n e rest h limit =
    let small : all below_ten (e ∷ rest) ≡ true =
      ap (all below_ten) (sym h) ∙ digits_of-below_ten n in
    let number : value 0 (e ∷ rest) ≡ n = ap (value 0) (sym h) ∙ value-digits_of n in
    let whole = read-text_of 0 (e ∷ rest) small ∙ ap some number in
    let one : e < 10 = ground arith in
    let first : decimal_digit (code (digit e)) ≡ true =
      ap decimal_digit (code-digit e one) ∙ ground arith in
    unsigned (code (digit e)) (codes (text_of rest)) n first whole limit

-- A number is read back from its text.
pub parse_int-format_int : (n : ℕ) → n < two_63 → parse_int (format_int (pos n)) ≡ some (pos n)
unfolding format_int decimal
parse_int-format_int n h =
    let (e, rest, cut) = digits_of-cons n in
    ap (λ ds. parse_int (text_of ds)) cut ∙ read_decimal n e rest cut h
