-- ===== src/Worker/Retries/Ends.antt =====
-- What the `except` block of `_process_job` leaves of the job and of the source configurations.
use integrado_web_xd.Prelude.{
  ℕ, ◌≡◌, refl, String, some, is_some, List, [], ◌∷◌, arith, ltb, if◌then◌else◌,
}
use integrado_web_xd.Jobs.{Job, pending, dead_letter, mark_retry, mark_dead_letter}
use integrado_web_xd.Worker.{
  Server, SourceConfig, Run, Failure, FailureType, policy_of, retry_policy, classify_failure,
  find_config, write_config, fail, attempt,
}
use integrado_web_xd.Worker.Course.{Course, course, first_failure, settle}

pub settle-failed :
    (run : Run) (job : Job) (f : Failure) (t : FailureType) (n : ℕ)
    → classify_failure f ≡ t
    → job.attempts ≡ n
    → ((settle run job f job).attempts ≡ n)
      × ((settle run job f job).source_config_id ≡ job.source_config_id)
      × ((settle run job f job).status
          ≡ (if ltb n (policy_of t).max_attempts then pending else dead_letter))
unfolding mark_retry mark_dead_letter retry_policy
settle-failed run job f t n k c = rw (← k, ← c) (ground arith)

pub settle-id : (run : Run) (job : Job) (f : Failure) (j : Job) → (settle run job f j).id ≡ j.id
unfolding mark_retry mark_dead_letter
settle-id run job f j = ground arith

is_some-write_config :
    (k id : String) (f : SourceConfig → SourceConfig) (configs : List SourceConfig)
    → ((c : SourceConfig) → (f c).id ≡ c.id)
    → is_some (find_config k (write_config id f configs)) ≡ is_some (find_config k configs)
unfolding find_config write_config
is_some-write_config k id f [] keeps = refl
is_some-write_config k id f (c ∷ configs) keeps =
    ground (arith, is_some-write_config k id f configs keeps, keeps c)

configs-fail :
    (k : String) (run : Run) (job : Job) (f : Failure) (s : Server)
    → is_some (find_config k (fail run job f s).configs) ≡ is_some (find_config k s.configs)
unfolding fail
configs-fail k run job f s = ground (
  arith,
  is_some-write_config k job.source_config_id
      (λ c. record c {
        last_status =
            if ltb job.attempts (retry_policy f).max_attempts then "retrying" else "dead_letter";
        last_error = some f.message;
      })
      s.configs (λ c. refl),
)

pub configs-attempt :
    (k : String) (run : Run) (c : ℕ) (job : Job) (s : Server) (f : Failure)
    → first_failure run ≡ some f
    → is_some (find_config k (attempt run c job s).0.configs) ≡ is_some (find_config k s.configs)
configs-attempt k run c job s f e = elim (course run c job s) [
  | Course.failed_before g h r ↦ rw r (configs-fail k run job g s)
  | Course.failed_after g h r ↦ rw r (configs-fail k run job g _)
  | Course.finished i u h r ↦ cc
]
