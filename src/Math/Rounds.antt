-- ===== src/Math/Rounds.antt =====
-- The rounds of a written multiplication (`Work`, backend/internal/domain/math.go).
use family_quest.Base.{
  ℕ, zero, suc, ◌+◌, ◌<◌, ◌≡◌, refl, ap, true, inl, inr, ℤ, pos, negsuc, pos_part, lt_ℤ, ◌/ℤ◌, ◌%ℤ◌,
  List, ◌++◌, ◌∷◌, count, format_int, arith, Bool-cases,
}
use family_quest.Math.Work.{Line, product_lines, mulcarry_lines, partial_line}

tenth_lt : (b : ℤ) → lt_ℤ (pos 0) b ≡ true → pos_part (b /ℤ pos 10) < pos_part b
unfolding ◌/ℤ◌
tenth_lt (pos b) h = ground arith
tenth_lt (negsuc b) h = ground arith

-- Any two fuels above the factor give the same lines of a multiplication: the loop over its digits
-- ends before the fuel does.
pub product_lines-enough :
    (fuel more : ℕ) (left : ℤ) (i : ℕ) (b : ℤ)
    → pos_part b < fuel
    → pos_part b < more
    → product_lines fuel left i b ≡ product_lines more left i b
unfolding product_lines
product_lines-enough zero more left i b h k = ground (arith, h)
product_lines-enough (suc fuel) zero left i b h k = ground (arith, k)
product_lines-enough (suc fuel) (suc more) left i b h k = elim (Bool-cases (lt_ℤ (pos 0) b)) [
  | inr over ↦ rw over refl
  | inl going ↦
      let less = tenth_lt b going in
      rw going (
        ap
          (λ (later : List Line).
            mulcarry_lines (b %ℤ pos 10) (count (format_int left)) i 0 left (pos 0)
            ++ partial_line left (b %ℤ pos 10) i ∷ later)
          (product_lines-enough fuel more left (i + 1) (b /ℤ pos 10) (omega (arith, less, h))
            (omega (arith, less, k))))
]
