-- ===== src/Domain/Notification.antt =====
-- Retry delays of notifications (backend/internal/domain/notification.go). Durations are
-- nanoseconds, as in Go.
use native.Mathlib.Nat.{pow-suc, zero-add, suc-add}
use family_quest.Base.{
  ℕ, zero, suc, ◌+◌, ◌-◌, ◌*◌, ◌^◌, ◌≤◌, ◌≡◌, ℤ, pos, lt_ℤ, ◌≤ℤ◌, pos_part, ltb, arith,
  if◌then◌else◌,
}

abbrev pub second : ℕ
second = 1_000_000_000

abbrev pub hour : ℕ
hour = 3_600_000_000_000

-- `5 * time.Second * (1 << (attempt - 1))`, for an attempt from 1 to 11, and at most an hour.
unfoldable pub shifted_delay : ℕ → ℕ
shifted_delay attempt =
    let delay = 5 * second * 2 ^ (attempt - 1) in if ltb hour delay then hour else delay

unfoldable pub notification_retry_delay : ℤ → ℕ
notification_retry_delay given =
    let attempt = if lt_ℤ given (pos 1) then pos 1 else given in
    if lt_ℤ (pos 11) attempt then hour else shifted_delay (pos_part attempt)

shifted_delay_step : (k : ℕ) → shifted_delay k ≤ shifted_delay (suc k)
unfolding shifted_delay
shifted_delay_step zero = omega arith
shifted_delay_step (suc k) = ground (arith, pow-suc 2 k)

shifted_delay_mono : (k n : ℕ) → shifted_delay k ≤ shifted_delay (n + k)
shifted_delay_mono k zero = rw zero-add (omega arith)
shifted_delay_mono k (suc n) =
    rw suc-add (omega (arith, shifted_delay_mono k n, shifted_delay_step (n + k)))

pow_pos : (k : ℕ) → 1 ≤ 2 ^ k
pow_pos zero = omega arith
pow_pos (suc k) = omega (arith, pow-suc 2 k, pow_pos k)

shifted_delay_bounds : (k : ℕ) → (5 * second ≤ shifted_delay k) × (shifted_delay k ≤ hour)
unfolding shifted_delay
shifted_delay_bounds k = ground (arith, pow_pos (k - 1))

shifted_delay_le : (k n : ℕ) → k ≤ n → shifted_delay k ≤ shifted_delay n
shifted_delay_le k n h = let e : n ≡ n - k + k = omega arith in rw e (shifted_delay_mono k (n - k))

-- Every retry waits from five seconds to an hour, and a later attempt never waits less than an
-- earlier one.
pub notification_retry_delay_bounds :
    (attempt later : ℤ)
    → (5 * second ≤ notification_retry_delay attempt)
      × (notification_retry_delay attempt ≤ hour)
      × ((attempt ≤ℤ later) → (notification_retry_delay attempt ≤ notification_retry_delay later))
unfolding notification_retry_delay
notification_retry_delay_bounds a b = (
  ground (arith, shifted_delay_bounds (pos_part a), shifted_delay_bounds 1),
  ground (arith, shifted_delay_bounds (pos_part a), shifted_delay_bounds 1),
  λ h. ground (
    arith,
    shifted_delay_bounds (pos_part a),
    shifted_delay_bounds 1,
    shifted_delay_le 1 (pos_part b),
    shifted_delay_le (pos_part a) (pos_part b),
  ),
)
