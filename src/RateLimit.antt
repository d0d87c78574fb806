-- ===== src/RateLimit.antt =====
-- backend/utils/rate_limit.py: the limiter of requests. Its dict of deques is a function from keys to
-- the times of the requests let through, the oldest first. `allow` reads the clock
-- before it takes the lock; a call is one step, with the time that it has read.
pub mod Window
pub mod Reference
pub mod Keys
mod Tests
use integrado_web_xd.Prelude.{
  ℕ, ◌+◌, ◌-◌, ◌*◌, ◌/◌, max, String, List, [], ◌∷◌, ◌++◌, leb, ltb, length, if◌then◌else◌, ◌==◌,
}

-- `timedelta(minutes=1)` in microseconds.
abbrev pub window : ℕ
window = 60000000

pub data RateLimitDecision : Type 0 where
  allowed : RateLimitDecision
  refused : (retry_after_seconds : ℕ) → RateLimitDecision

-- The loop `while bucket and bucket[0] < cutoff`.
unfoldable pub drop_old : ℕ → List ℕ → List ℕ
drop_old now [] = []
drop_old now (t ∷ bucket) =
    let rest = drop_old now bucket in if ltb (t + window) now then rest else t ∷ bucket

-- `max(1, int((bucket[0] + self.window - now).total_seconds()))`
unfoldable pub retry_after : ℕ → List ℕ → ℕ
retry_after now [] = 1
retry_after now (t ∷ bucket) = max 1 ((t + window - now) / 1000000)

-- `allow` on the bucket of its key.
unfoldable pub allow_bucket : ℕ → ℕ → List ℕ → List ℕ × RateLimitDecision
unfolding drop_old retry_after
allow_bucket limit now bucket =
    let kept = drop_old now bucket in
    if leb limit (length kept)
    then (kept, refused (retry_after now kept))
    else (kept ++ now ∷ [], allowed)

-- `limit_per_minute` is at least 1.
unfoldable pub allow : ℕ → String → ℕ → (String → List ℕ) → (String → List ℕ) × RateLimitDecision
unfolding allow_bucket
allow limit_per_minute key now requests =
    let (bucket, decision) = allow_bucket (max 1 limit_per_minute) now (requests key) in
    ((λ k. if k == key then bucket else requests k), decision)
