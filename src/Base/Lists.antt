-- ===== src/Base/Lists.antt =====
-- Lists measured and indexed by native numbers, and Boolean quantifiers that run.
use Prim.Native.Nat.{ℕ, zero, suc, ◌+◌, ◌<◌}
use Prim.Native.String.{String}
use mathlib.Core.Path.{◌≡◌, refl, sym, subst, ◌∙◌}
use mathlib.Core.Bool.{Bool, true, false, ◌&&◌, ◌||◌}
use mathlib.Core.List.{List, [], ◌∷◌, ◌++◌, map}
use mathlib.Core.Option.{Option, none, some}
use mathlib.Core.Option.{some-injective}
use native.Mathlib.Omega.{arith}
use mathlib.Core.Logic.{inl, inr}
use family_quest.Base.Tests.{str_eq, Bool-cases}

module _ {ℓ} {A : Type ℓ} where
  abbrev pub length : List A → ℕ
  length [] = 0
  length (x ∷ xs) = suc (length xs)

  abbrev pub get_elem? : List A → ℕ → Option A
  get_elem? [] i = none
  get_elem? (x ∷ xs) zero = some x
  get_elem? (x ∷ xs) (suc i) = get_elem? xs i

  -- A write out of bounds changes nothing.
  abbrev pub set : List A → ℕ → A → List A
  set [] i v = []
  set (x ∷ xs) zero v = v ∷ xs
  set (x ∷ xs) (suc i) v = x ∷ set xs i v

  abbrev pub drop : ℕ → List A → List A
  drop zero xs = xs
  drop (suc n) [] = []
  drop (suc n) (x ∷ xs) = drop n xs

  abbrev pub any : (A → Bool) → List A → Bool
  any p [] = false
  any p (x ∷ xs) = p x || any p xs

  abbrev pub all : (A → Bool) → List A → Bool
  all p [] = true
  all p (x ∷ xs) = p x && all p xs

  pub length-append : (xs ys : List A) → length (xs ++ ys) ≡ length xs + length ys
  length-append [] ys = omega arith
  length-append (x ∷ xs) ys = omega (arith, length-append xs ys)

module _ {ℓ} {A : Type ℓ} where
  pub get_elem?-append_left :
      (xs ys : List A) (i : ℕ) → i < length xs → get_elem? (xs ++ ys) i ≡ get_elem? xs i
  get_elem?-append_left [] ys i h = elim h [ ]
  get_elem?-append_left (x ∷ xs) ys zero h = refl
  get_elem?-append_left (x ∷ xs) ys (suc i) h = get_elem?-append_left xs ys i (omega arith)

  pub get_elem?-append_end : (xs : List A) (y : A) → get_elem? (xs ++ y ∷ []) (length xs) ≡ some y
  get_elem?-append_end [] y = refl
  get_elem?-append_end (x ∷ xs) y = get_elem?-append_end xs y

  pub get_elem?-lt : (xs : List A) (i : ℕ) → i < length xs → (x : A) × (get_elem? xs i ≡ some x)
  get_elem?-lt [] i h = elim h [ ]
  get_elem?-lt (x ∷ xs) zero h = (x, refl)
  get_elem?-lt (x ∷ xs) (suc i) h = get_elem?-lt xs i (omega arith)

  pub get_elem?-some : (xs : List A) (i : ℕ) (x : A) → get_elem? xs i ≡ some x → i < length xs
  get_elem?-some [] i x h = cc
  get_elem?-some (y ∷ xs) zero x h = omega arith
  get_elem?-some (y ∷ xs) (suc i) x h = omega (arith, get_elem?-some xs i x h)

  pub length-set : (xs : List A) (i : ℕ) (x : A) → length (set xs i x) ≡ length xs
  length-set [] i x = refl
  length-set (y ∷ ys) zero x = refl
  length-set (y ∷ ys) (suc i) x = omega (arith, length-set ys i x)

  -- A write at one place keeps what holds of an element, where it holds of what is written.
  pub set-keeps {κ} :
      (P : A → Type κ) (xs : List A) (i k : ℕ) (a b x : A)
      → get_elem? xs i ≡ some a
      → P a
      → get_elem? xs k ≡ some b
      → (P b → P x)
      → (c : A) × (get_elem? (set xs k x) i ≡ some c) × P c
  set-keeps P [] i k a b x h p e f = cc
  set-keeps P (y ∷ ys) zero zero a b x h p e f =
      (x, refl, f (subst P (some-injective a b (sym h ∙ e)) p))
  set-keeps P (y ∷ ys) zero (suc k) a b x h p e f = (a, h, p)
  set-keeps P (y ∷ ys) (suc i) zero a b x h p e f = (a, h, p)
  set-keeps P (y ∷ ys) (suc i) (suc k) a b x h p e f = set-keeps P ys i k a b x h p e f

  pub drop-length : (xs : List A) → drop (length xs) xs ≡ []
  drop-length [] = refl
  drop-length (x ∷ xs) = drop-length xs

  pub drop-length_append : (xs ys : List A) → drop (length xs) (xs ++ ys) ≡ ys
  drop-length_append [] ys = refl
  drop-length_append (x ∷ xs) ys = drop-length_append xs ys

  pub any-append_end :
      (p : A → Bool) (xs : List A) (y : A) → any p (xs ++ y ∷ []) ≡ (any p xs || p y)
  any-append_end p [] y = ground arith
  any-append_end p (x ∷ xs) y = ground (arith, any-append_end p xs y)

  pub all-append_end :
      (p : A → Bool) (xs : List A) (y : A) → all p (xs ++ y ∷ []) ≡ (all p xs && p y)
  all-append_end p [] y = ground arith
  all-append_end p (x ∷ xs) y = ground (arith, all-append_end p xs y)

-- `slices.Contains` on a list of texts.
abbrev pub one_of : String → List String → Bool
one_of v [] = false
one_of v (x ∷ xs) = str_eq v x || one_of v xs

module _ {α β} {A : Type α} {B : Type β} where
  pub get_elem?-map :
      (f : A → B) (xs : List A) (i : ℕ) (x : A)
      → get_elem? xs i ≡ some x
      → get_elem? (map f xs) i ≡ some (f x)
  get_elem?-map f [] i x h = cc
  get_elem?-map f (y ∷ xs) zero x h = cc
  get_elem?-map f (y ∷ xs) (suc i) x h = get_elem?-map f xs i x h

  pub get_elem?-map-some :
      (f : A → B) (xs : List A) (i : ℕ) (y : B)
      → get_elem? (map f xs) i ≡ some y
      → (x : A) × (get_elem? xs i ≡ some x) × (f x ≡ y)
  get_elem?-map-some f [] i y h = cc
  get_elem?-map-some f (x ∷ xs) zero y h = (x, refl, cc)
  get_elem?-map-some f (x ∷ xs) (suc i) y h = get_elem?-map-some f xs i y h

-- Quantifiers and positions.
module _ {ℓ} {A : Type ℓ} (test : A → Bool) where
  pub all-get_elem :
      (xs : List A) (i : ℕ) (x : A) → all test xs ≡ true → get_elem? xs i ≡ some x → test x ≡ true
  all-get_elem [] i x h place = cc
  all-get_elem (y ∷ ys) zero x h place = ground arith
  all-get_elem (y ∷ ys) (suc i) x h place = all-get_elem ys i x (ground arith) place

  pub any-none :
      (xs : List A)
      → ((i : ℕ) (x : A) → get_elem? xs i ≡ some x → test x ≡ false)
      → any test xs ≡ false
  any-none [] h = refl
  any-none (y ∷ ys) h = ground (arith, h 0 y refl, any-none ys (λ i. h (suc i)))

  pub any-get_elem :
      (xs : List A)
      → any test xs ≡ true
      → (i : ℕ) × (x : A) × (get_elem? xs i ≡ some x) × (test x ≡ true)
  any-get_elem [] h = cc
  any-get_elem (y ∷ ys) h = elim (Bool-cases (test y)) [
    | inl hit ↦ (0, y, refl, hit)
    | inr miss ↦ let (i, x, place, fact) = any-get_elem ys (rw miss at h) in (suc i, x, place, fact)
  ]
