-- ===== src/Jobs/Lifecycle.antt =====
-- The life of a job: the calls of the repository in the order in which the scheduler, the worker
-- and TenantJobService make them.
use integrado_web_xd.Prelude.{ℕ, ◌≡◌, ◌≢◌, String, Bool, true, false, some, is_some, arith}
use integrado_web_xd.Jobs.{
  Job, done, dead_letter, failed, is_pending, is_processing, create, mark_processing, mark_done,
  mark_retry, mark_dead_letter, requeue_job, lease_expired, release,
}

-- The test of `retry_job` in backend/services/tenant_job_service.py.
abbrev pub is_retryable : Job → Bool
is_retryable j = elim j.status [ dead_letter ↦ true | failed ↦ true | _ ↦ false ]

abbrev is_dead : Job → Bool
is_dead j = elim j.status [ dead_letter ↦ true | _ ↦ false ]

abbrev is_finished : Job → Bool
is_finished j = elim j.status [ dead_letter ↦ true | done ↦ true | _ ↦ false ]

-- One call on a job, at the clock `now`, under the test that its caller makes. `_process_job` makes
-- none: a worker whose lease has expired ends the job all the same, in whatever state it finds it.
pub data Step (j : Job) : Job → Type 0 where
  leased :
      (now lease : ℕ) (worker : String)
      → is_pending j ≡ true
      → Step j (mark_processing now (some worker) lease j)
  completed : (now : ℕ) → Step j (mark_done now j)
  retried : (now backoff : ℕ) (error : String) → Step j (mark_retry now error backoff j)
  buried : (now : ℕ) (error : String) → Step j (mark_dead_letter now error j)
  expired : (now : ℕ) → lease_expired now j ≡ true → Step j (release now j)
  requeued : (now : ℕ) → is_retryable j ≡ true → Step j (requeue_job now j)

-- The jobs that such calls make of a new one.
pub data Reachable : Job → Type 0 where
  created :
      (id empresa source payload : String) (scheduled now : ℕ)
      → Reachable (create id empresa source payload scheduled now)
  next : {j k : Job} → Reachable j → Step j k → Reachable k

-- A job holds a lease exactly while it is processed, and has a finishing time exactly when it is
-- done or dead. A dead letter has a burial's time and reason, which a late worker may leave on a job
-- that it then ends otherwise; one never stands without the other.
pub record IsConsistent (j : Job) : Type 0 where
  pub lease : is_some j.lease_expires_at ≡ is_processing j
  pub worker : is_some j.leased_by ≡ is_processing j
  pub burial : is_dead j ≡ true → is_some j.dead_letter_at ≡ true
  pub reason : is_some j.dead_letter_reason ≡ is_some j.dead_letter_at
  pub finish : is_some j.finished_at ≡ is_finished j
  pub tried : is_processing j ≡ true → j.attempts ≢ 0

Step-IsConsistent : {j k : Job} → Step j k → IsConsistent j → IsConsistent k
unfolding mark_processing mark_done mark_retry mark_dead_letter requeue_job lease_expired release
Step-IsConsistent (leased now lease worker h) c = ground arith
Step-IsConsistent (completed now) c = ground arith
Step-IsConsistent (retried now backoff error) c = ground arith
Step-IsConsistent (buried now error) c = ground arith
Step-IsConsistent (expired now h) c = ground arith
Step-IsConsistent (requeued now h) c = ground arith

-- Whatever calls a job has seen, each on the row as the one before left it, and also those of workers
-- whose lease has expired: it holds a lease exactly while it is processed, and then it was tried at
-- least once; a dead letter has a burial's time and reason, which no job has one without the other;
-- and a job has a finishing time exactly when it is done or dead.
pub Reachable-IsConsistent : {j : Job} → Reachable j → IsConsistent j
unfolding create
Reachable-IsConsistent (created id empresa source payload scheduled now) = ground arith
Reachable-IsConsistent (next r st) = Step-IsConsistent st (Reachable-IsConsistent r)
