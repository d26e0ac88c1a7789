-- ===== src/Math/Stars.antt =====
-- Bounds of the stars (backend/internal/domain/math.go).
use family_quest.Base.{◌≡◌, true, ℤ, pos, ◌≤ℤ◌, ◌+ℤ◌, ◌-ℤ◌, le_ℤ, wrap64, arith}
use family_quest.Math.Settings.{MathSettings, legacy_stars, previous_stars, stars_of, max_int}
use family_quest.Math.Session.{MathSession, version_stars, reward_stars, daily_limit, capped_stars}

abbrev pub Within : ℤ → ℤ → ℤ → Type 0
Within lo hi v = (lo ≤ℤ v) × (v ≤ℤ hi)

pub legacy_stars_bounds : (s : MathSettings) → Within (pos 1) (pos 3) (legacy_stars s)
unfolding legacy_stars
legacy_stars_bounds s = ground arith

pub previous_stars_bounds : (s : MathSettings) → Within (pos 1) (pos 5) (previous_stars s)
unfolding previous_stars ◌+ℤ◌ ◌-ℤ◌
previous_stars_bounds s = ground arith

pub stars_of_bounds : (s : MathSettings) → Within (pos 2) (pos 6) (stars_of s)
unfolding stars_of ◌+ℤ◌
stars_of_bounds s = ground (arith, previous_stars_bounds s)

pub version_stars_bounds :
    (version : ℤ) (s : MathSettings) → Within (pos 1) (pos 6) (version_stars version s)
unfolding version_stars
version_stars_bounds version s =
    ground (arith, legacy_stars_bounds s, previous_stars_bounds s, stars_of_bounds s)

-- Before the daily budget, which may lower them to nothing, the stars of a right answer are at least
-- one and at most six, whatever the settings and the version of the reward scheme.
pub reward_stars_bounds : (s : MathSession) → Within (pos 1) (pos 6) (reward_stars s)
unfolding reward_stars
reward_stars_bounds s = version_stars_bounds s.reward_version s.settings

-- From version 2 of the reward scheme on, the budget only lowers stars, never below nothing, and the
-- day stays within the limit, or where it was beyond: where neither the stars nor the day's total
-- is negative, and the total is at most 9 * 10 ^ 18.
pub capped_stars_bounds :
    (s : MathSession) (stars earned : ℤ)
    → pos 0 ≤ℤ stars
    → pos 0 ≤ℤ earned
    → earned ≤ℤ pos 9_000_000_000_000_000_000
    → le_ℤ (pos 2) s.reward_version ≡ true
    → (pos 0 ≤ℤ capped_stars s stars earned)
      × (capped_stars s stars earned ≤ℤ stars)
      × (earned +ℤ capped_stars s stars earned ≤ℤ max_int earned (daily_limit s))
unfolding capped_stars daily_limit max_int wrap64 ◌-ℤ◌ ◌+ℤ◌
capped_stars_bounds s stars earned h k m v = ground arith
