-- ===== src/Worker/Policy.antt =====
-- The retry policy: how long a failed job waits.
use integrado_web_xd.Prelude.{ℕ, zero, suc, ◌-◌, ◌^◌, ◌≤◌, ◌<◌, ◌≡◌, arith}
use integrado_web_xd.Worker.{
  Failure, FailureType, auth, permanent, transient, retry_policy, policy_of, classify_failure,
  backoff_minutes,
}

pow-pos : (n : ℕ) → 0 < 2 ^ n
pow-pos zero = omega arith
pow-pos (suc n) = grind (arith, pow-pos n)

-- The exponent of the next attempt is at most one larger.
pow-le : (n : ℕ) → 2 ^ (n - 1) ≤ 2 ^ (suc n - 1)
pow-le zero = omega arith
pow-le (suc n) =
    let before : suc n - 1 ≡ n = omega arith in
    let after : suc (suc n) - 1 ≡ suc n = omega arith in rw (before, after) (grind arith)

module _ (a : ℕ) where
  policy_bounds :
      (t : FailureType)
      → (0 < backoff_minutes (policy_of t) a)
        × (backoff_minutes (policy_of t) a ≤ 30)
        × (backoff_minutes (policy_of t) a ≤ backoff_minutes (policy_of t) (suc a))
  unfolding backoff_minutes
  policy_bounds auth = omega (arith, pow-pos (a - 1), pow-le a)
  policy_bounds permanent = omega (arith, pow-pos (a - 1), pow-le a)
  policy_bounds transient = omega (arith, pow-pos (a - 1), pow-le a)

  -- After any failure and any number of attempts, the wait before the next attempt is positive, at
  -- most 30 minutes, and no longer than the wait after one more attempt.
  backoff_minutes_bounds :
      (f : Failure)
      → (0 < backoff_minutes (retry_policy f) a)
        × (backoff_minutes (retry_policy f) a ≤ 30)
        × (backoff_minutes (retry_policy f) a ≤ backoff_minutes (retry_policy f) (suc a))
  unfolding retry_policy
  backoff_minutes_bounds f = policy_bounds (classify_failure f)
