-- ===== src/Auth/Split.antt =====
-- Texts joined by dots are split again (`strings.Split` in backend/internal/auth/token.go).
use family_quest.Base.{
  ℕ, ◌≡◌, refl, ap, ◌∙◌, Bool, true, false, List, [], ◌∷◌, ◌++◌, any, arith, ◌==◌, append_assoc,
}
use family_quest.Auth.Token.{dot, split, bytes_equal}

abbrev pub is_dot : ℕ → Bool
is_dot c = c == dot

pub split-whole : (xs : List ℕ) → any is_dot xs ≡ false → split xs ≡ xs ∷ []
unfolding split
split-whole [] h = refl
split-whole (c ∷ cs) h =
    let letter : (c == dot) ≡ false = ground arith in
    rw (letter, split-whole cs (ground arith)) refl

pub split-dot : (xs ys : List ℕ) → any is_dot xs ≡ false → split (xs ++ dot ∷ ys) ≡ xs ∷ split ys
unfolding split
split-dot [] ys h = refl
split-dot (c ∷ cs) ys h =
    let letter : (c == dot) ≡ false = ground arith in
    rw (letter, split-dot cs ys (ground arith)) refl

pub bytes_equal_refl : (xs : List ℕ) → bytes_equal xs xs ≡ true
unfolding bytes_equal
bytes_equal_refl [] = refl
bytes_equal_refl (x ∷ xs) = ground (arith, bytes_equal_refl xs)

pub bytes_equal-eq : (xs ys : List ℕ) → bytes_equal xs ys ≡ true → xs ≡ ys
unfolding bytes_equal
bytes_equal-eq [] [] h = refl
bytes_equal-eq [] (y ∷ ys) h = ground arith
bytes_equal-eq (x ∷ xs) [] h = ground arith
bytes_equal-eq (x ∷ xs) (y ∷ ys) h = ground (arith, bytes_equal-eq xs ys)

-- Three parts, joined by dots.
pub split-token :
    (a b c : List ℕ)
    → any is_dot a ≡ false
    → any is_dot b ≡ false
    → any is_dot c ≡ false
    → split ((a ++ dot ∷ b) ++ dot ∷ c) ≡ a ∷ b ∷ c ∷ []
split-token a b c ha hb hc =
    ap split (append_assoc a (dot ∷ b) (dot ∷ c))
    ∙ split-dot a (b ++ dot ∷ c) ha
    ∙ ap (λ parts. a ∷ parts) (split-dot b c hb ∙ ap (λ parts. b ∷ parts) (split-whole c hc))
