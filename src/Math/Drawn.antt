-- ===== src/Math/Drawn.antt =====
-- The questions that `NewMathSession` draws (backend/internal/domain/math.go).
use native.Mathlib.Nat.{mul-mod_right}
use family_quest.Base.{
  ℕ, ◌+◌, ◌*◌, ◌≤◌, ◌<◌, ◌≡◌, refl, true, false, [], pos, ◌%ℤ◌, str_eq, arith, Bool-cases, inl, inr,
  str_eq_excludes,
}
use family_quest.Math.Settings.{MathSettings}
use family_quest.Math.Validate.{valid_operands}
use family_quest.Math.Draws.{
  Random, Drawn, top_of, factor_of, is_columnar, draw_terms, in_order, draw_factors, draw_quotient,
  draw_operands,
}

-- `IntN` draws below its bound.
abbrev pub IsBelow : Random → Type 0
IsBelow r = (n bound : ℕ) → 0 < bound → r.int_n n bound < bound

-- What `Validate` asks of two operands.
abbrev pub Fits : MathSettings → Drawn → Type 0
Fits s (a, b, n) = valid_operands s (record { left = pos a; right = pos b; options = [] }) ≡ true

pub small_product : (a b m k : ℕ) → a ≤ m → b ≤ k → a * b ≤ m * k
small_product a b m k h l = grind arith

-- Operands in the range that `Validate` accepts.
small-Fits :
    (s : MathSettings) (a b n : ℕ)
    → a ≤ 1000
    → b ≤ 1000
    → str_eq s.operation ":" ≡ false
    → str_eq s.operation "-" ≡ false
    → Fits s (a, b, n)
unfolding valid_operands
small-Fits s a b n h k quotient difference = ground (arith, quotient, difference)

in_order-Fits :
    (s : MathSettings) (a b n : ℕ)
    → a ≤ 1000
    → b ≤ 1000
    → str_eq s.operation "-" ≡ true
    → Fits s (in_order s (a, b, n))
unfolding valid_operands in_order
in_order-Fits s a b n h k difference =
    ground (arith, str_eq_excludes s.operation "-" ":" refl difference)

quotient-Fits :
    (s : MathSettings) (b c n : ℕ)
    → 0 < b
    → b ≤ 12
    → c ≤ 100
    → str_eq s.operation ":" ≡ true
    → Fits s (b * c, b, n)
unfolding valid_operands ◌%ℤ◌
quotient-Fits s b c n p h k quotient = ground (
  arith,
  small_product b c 12 100 h k,
  mul-mod_right b c,
  str_eq_excludes s.operation ":" "-" refl quotient,
)

module _ (r : Random) (s : MathSettings) (below : IsBelow r) (n : ℕ) where
  terms_small : let (a, b, next) = draw_terms r s n in (a ≤ 1000) × (b ≤ 1000)
  unfolding draw_terms
  terms_small = elim (Bool-cases (is_columnar s)) [
    | inl col ↦ rw col (omega (arith, below (n + 2) 988), omega (arith, below (n + 3) 988))
    | inr plain ↦ rw plain (ground (arith, below n (top_of s + 1), below (n + 1) (top_of s + 1)))
  ]

  factors_small : let (a, b, next) = draw_factors r s n in (a ≤ 1000) × (b ≤ 1000)
  unfolding draw_factors
  factors_small = elim (Bool-cases (is_columnar s)) [
    | inl col ↦ rw col (omega (arith, below (n + 2) 88), omega (arith, below (n + 3) 24))
    | inr plain ↦
        rw plain (ground (arith, below n (factor_of s + 1), below (n + 1) (factor_of s + 1)))
  ]

  factor_small : (1 + r.int_n n (factor_of s) ≤ 12) × (r.int_n (n + 1) (top_of s + 1) ≤ 100)
  factor_small = ground (arith, below n (factor_of s), below (n + 1) (top_of s + 1))

  draw_quotient-Fits : str_eq s.operation ":" ≡ true → Fits s (draw_quotient r s n)
  unfolding draw_quotient
  draw_quotient-Fits quotient = elim (Bool-cases (is_columnar s)) [
    | inl col ↦ rw col (
        quotient-Fits s (2 + r.int_n (n + 2) 8) (2 + r.int_n (n + 3) 98) (n + 4) (omega arith)
          (omega (arith, below (n + 2) 8)) (omega (arith, below (n + 3) 98)) quotient)
    | inr plain ↦ rw plain (
        quotient-Fits s (1 + r.int_n n (factor_of s)) (r.int_n (n + 1) (top_of s + 1)) (n + 2)
          (omega arith) factor_small.0 factor_small.1 quotient)
  ]

pub operands-Fits :
    (r : Random) (s : MathSettings) (n : ℕ) → IsBelow r → Fits s (draw_operands r s n)
unfolding draw_operands
operands-Fits r s n below =
    let (a, b, next) = draw_terms r s n in
    let (h, k) = terms_small r s below n in
    elim (Bool-cases (str_eq s.operation "-")) [
      | inl minus ↦ rw minus (in_order-Fits s a b next h k minus)
      | inr other ↦ elim (Bool-cases (str_eq s.operation "*")) [
        | inl times ↦
            let (f, g) = factors_small r s below next in
            rw (other, times)
              (small-Fits s (draw_factors r s next).0 (draw_factors r s next).1
                (draw_factors r s next).2 f g (str_eq_excludes s.operation "*" ":" refl times)
                other)
        | inr single ↦ elim (Bool-cases (str_eq s.operation ":")) [
          | inl over ↦ rw (other, single, over) (draw_quotient-Fits r s below next over)
          | inr plus ↦ rw (other, single, plus) (small-Fits s a b next h k plus other)
        ]
      ]
    ]
