-- ===== src/RateLimit/Tests.antt =====
-- Calls for two keys under a limit of two a minute.
use integrado_web_xd.Prelude.{ℕ, ◌*◌, ◌+◌, ◌≤◌, max, ◌≡◌, refl, String, List, [], ◌∷◌, count, map}
use integrado_web_xd.RateLimit.{RateLimitDecision, refused, allow_bucket, drop_old}
use integrado_web_xd.RateLimit.Window.{is_within}
use integrado_web_xd.RateLimit.Reference.{reference}
use integrado_web_xd.RateLimit.Keys.{times_of, run, run-limit, run-reference}

abbrev seconds : ℕ → ℕ
seconds n = n * 1000000

abbrev calls : List (String × ℕ)
calls =
    ("a", seconds 1)
    ∷ ("b", seconds 2)
    ∷ ("a", seconds 30)
    ∷ ("a", seconds 40)
    ∷ ("a", seconds 62)
    ∷ []

two_a_minute :
    map (λ c. c.1) (run 2 (λ _. []) calls) ≡ seconds 1 ∷ seconds 2 ∷ seconds 30 ∷ seconds 62 ∷ []
unfolding integrado_web_xd.RateLimit.allow
two_a_minute = refl

run-limit_example : count (is_within (seconds 1)) (times_of "a" (run 2 (λ _. []) calls)) ≤ max 1 2
run-limit_example = run-limit 2 0 "a" calls refl (seconds 1)

run-reference_example : times_of "a" (run 2 (λ _. []) calls) ≡ reference 2 [] (times_of "a" calls)
run-reference_example = run-reference 2 0 "a" calls refl

-- A client that waits as long as it is told is refused again.
retry_runs :
    ((allow_bucket 1 (seconds 11 + 1) (seconds 1 ∷ [])).1 ≡ refused 49)
    × ((allow_bucket 1 (seconds 60 + 1) (seconds 1 ∷ [])).1 ≡ refused 1)
unfolding allow_bucket
retry_runs = (refl, refl)
