-- ===== src/Base/Text.antt =====
-- Texts: what the source uses of the packages strings and unicode. A Go string holds bytes; a
-- `String` holds code points, which is what decoded JSON gives.
use Prim.Native.Nat.{ℕ, ◌≤◌}
use Prim.Native.Char.{code}
use Prim.Native.String.{String, count}
use mathlib.Core.Path.{◌≡◌, refl}
use mathlib.Core.Bool.{Bool, true, false, ◌||◌, ◌&&◌}
use mathlib.Core.List.{List, [], ◌∷◌}
use native.Mathlib.Omega.{arith}
use text.Mathlib.TextLemmas.{length-cons, length-nil}
use mathlib.Core.Logic.{inl, inr}
use family_quest.Base.Tests.{Bool-cases, leb, ltb, ◌==◌, if◌then◌else◌}

-- The code points of a text: its bytes, if it is ASCII.
abbrev pub codes : String → List ℕ
codes String.[] = []
codes (String.◌∷◌ c s) = code c ∷ codes s

-- `unicode.IsSpace`.
unfoldable pub is_space : ℕ → Bool
is_space c =
    (leb 9 c && leb c 13)
    || (c == 32)
    || (c == 0x85)
    || (c == 0xa0)
    || (c == 0x1680)
    || (leb 0x2000 c && leb c 0x200a)
    || (c == 0x2028)
    || (c == 0x2029)
    || (c == 0x202f)
    || (c == 0x205f)
    || (c == 0x3000)

unfoldable pub trim_left : String → String
trim_left String.[] = String.[]
trim_left (String.◌∷◌ c s) =
    let rest = trim_left s in if is_space (code c) then rest else String.◌∷◌ c s

unfoldable pub is_empty : String → Bool
is_empty String.[] = true
is_empty (String.◌∷◌ c s) = false

unfoldable pub trim_right : String → String
trim_right String.[] = String.[]
trim_right (String.◌∷◌ c s) =
    let rest = trim_right s in
    if is_empty rest && is_space (code c) then String.[] else String.◌∷◌ c rest

-- `strings.TrimSpace`.
unfoldable pub trim_space : String → String
unfolding trim_left trim_right is_space is_empty
trim_space s = trim_left (trim_right s)

-- Comparison of strings by bytes, which for UTF-8 is the order of code points.
unfoldable pub codes_lt : List ℕ → List ℕ → Bool
codes_lt xs [] = false
codes_lt [] (y ∷ ys) = true
codes_lt (x ∷ xs) (y ∷ ys) =
    let rest = codes_lt xs ys in if ltb x y then true else if x == y then rest else false

abbrev pub str_lt : String → String → Bool
str_lt s t = codes_lt (codes s) (codes t)

count-trim_left : (s : String) → count (trim_left s) ≤ count s
unfolding trim_left
count-trim_left String.[] = omega arith
count-trim_left (String.◌∷◌ c s) =
    ground (arith, length-cons c s, length-cons c (trim_left s), count-trim_left s)

count-trim_right : (s : String) → count (trim_right s) ≤ count s
unfolding trim_right
count-trim_right String.[] = omega arith
count-trim_right (String.◌∷◌ c s) =
    elim (Bool-cases (is_empty (trim_right s) && is_space (code c))) [
      | inl blank ↦ rw blank (omega (arith, length-nil))
      | inr kept ↦
          rw kept (omega (arith, length-cons c s, length-cons c (trim_right s), count-trim_right s))
    ]

pub count-trim_space : (s : String) → count (trim_space s) ≤ count s
unfolding trim_space
count-trim_space s = omega (arith, count-trim_left (trim_right s), count-trim_right s)

codes_lt_irrefl : (xs : List ℕ) → codes_lt xs xs ≡ false
unfolding codes_lt
codes_lt_irrefl [] = refl
codes_lt_irrefl (x ∷ xs) = ground (arith, codes_lt_irrefl xs)

pub str_lt_irrefl : (s : String) → str_lt s s ≡ false
str_lt_irrefl s = codes_lt_irrefl (codes s)
