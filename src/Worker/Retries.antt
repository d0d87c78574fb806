-- ===== src/Worker/Retries.antt =====
-- How often a failing job is tried, by leases and runs of `_process_job` one after the other.
mod Ends
use Ends.{settle-failed, settle-id, configs-attempt}
use integrado_web_xd.Prelude.{
  ℕ, suc, ◌+◌, ◌<◌, ◌≡◌, refl, ap, sym, ◌∙◌, String, Bool, true, false, Option, none, some, is_some,
  List, [], ◌∷◌, arith, ltb, if◌then◌else◌, ◌==◌, eq_iff, length, Bool-cases, Option-cases, inl,
  inr,
}
use mathlib.Core.Option
use integrado_web_xd.Jobs.{
  Job, JobStatus, pending, processing, done, dead_letter, failed, is_pending, mark_processing,
  mark_retry, mark_dead_letter, write_row, get_by_id,
}
use integrado_web_xd.Worker.{
  Server, SourceConfig, Run, Failure, FailureType, policy_of, retry_policy, classify_failure,
  find_config, write_config, lease_jobs, fail, attempt, process_job,
}
use integrado_web_xd.Worker.Course.{Course, course, first_failure, verdict, outcome, settle}
use integrado_web_xd.Worker.Process.{
  get_by_id-write_row, process_job-outcome, process_job-attempt, id-get_by_id,
}

-- The job is leased at `now`, as `drain_pending_jobs` leases a selected job.
abbrev pub lease_job : ℕ → (String → String) → Job → Server → Server
lease_job now worker_id job s = record s { jobs = lease_jobs now worker_id (job ∷ []) s.jobs }

-- One turn of the queue for a job: while it waits, it is leased and run.
abbrev pub turn : ℕ → (String → String) → String → ℕ × Run → Server → Server
turn chunk_size worker_id job_id (now, run) s = elim (get_by_id job_id s.jobs) [
  | none ↦ s
  | some job ↦
      if is_pending job
      then (process_job run chunk_size job_id (lease_job now worker_id job s)).0
      else s
]

abbrev pub turns : ℕ → (String → String) → String → List (ℕ × Run) → Server → Server
turns chunk_size worker_id job_id [] s = s
turns chunk_size worker_id job_id (r ∷ runs) s =
    turns chunk_size worker_id job_id runs (turn chunk_size worker_id job_id r s)

-- Every run fails, in ways of one type.
abbrev pub AllFail : FailureType → List (ℕ × Run) → Type 0
AllFail t [] = Unit
AllFail t (r ∷ runs) =
    ((f : Failure) × (first_failure r.1 ≡ some f) × (classify_failure f ≡ t)) × AllFail t runs

abbrev pub status_of : String → Server → Option JobStatus
status_of job_id s = Option.map (λ (j : Job). j.status) (get_by_id job_id s.jobs)

abbrev pub is_configured : Job → Server → Bool
is_configured job s = is_some (find_config job.source_config_id s.configs)

module _ (chunk_size : ℕ) (worker_id : String → String) (job_id : String) (t : FailureType) where
  -- A failed run leaves the job tried `n` times.
  record Failed (n : ℕ) (s : Server) : Type 0 where
    after : Job
    found : get_by_id job_id s.jobs ≡ some after
    counted : after.attempts ≡ n
    state : after.status ≡ (if ltb n (policy_of t).max_attempts then pending else dead_letter)
    configured : is_configured after s ≡ true

  found-lease_job :
      (now : ℕ) (s : Server) (job : Job)
      → get_by_id job_id s.jobs ≡ some job
      → get_by_id job_id (lease_job now worker_id job s).jobs
        ≡ some (mark_processing now (some (worker_id job.id)) 15 job)
  unfolding lease_jobs
  found-lease_job now s job found =
      let lease = mark_processing now (some (worker_id job.id)) 15 in
      let same : (job.id == job_id) ≡ true = id-get_by_id job_id s.jobs job found in
      let keeps : (j : Job) → (lease j).id ≡ j.id = λ j. unfold mark_processing in refl in
      get_by_id-write_row job.id job_id lease s.jobs keeps ∙ rw (same, found) refl

  found-process_job :
      (run : Run) (s : Server) (job : Job) (config : SourceConfig) (f : Failure)
      → first_failure run ≡ some f
      → get_by_id job_id s.jobs ≡ some job
      → find_config job.source_config_id s.configs ≡ some config
      → get_by_id job_id (process_job run chunk_size job_id s).0.jobs ≡ some (settle run job f job)
  found-process_job run s job config f e found configured =
      let self : (job_id == job_id) ≡ true = (eq_iff job_id job_id).1 refl in
      ap (get_by_id job_id) (
        process_job-outcome run chunk_size job_id s {job = job} {config = config} found configured
        ∙ ap (λ o. write_row job_id (verdict run job o) s.jobs) e)
      ∙ get_by_id-write_row job_id job_id (settle run job f) s.jobs (settle-id run job f)
      ∙ rw (self, found) refl

  configured-process_job :
      (run : Run) (s : Server) (job : Job) (config : SourceConfig) (f : Failure)
      → first_failure run ≡ some f
      → get_by_id job_id s.jobs ≡ some job
      → find_config job.source_config_id s.configs ≡ some config
      → is_configured job (process_job run chunk_size job_id s).0 ≡ true
  configured-process_job run s job config f e found configured =
      ap (λ (r : Server × ℕ). is_configured job r.0)
        (process_job-attempt run chunk_size job_id s {job = job} {config = config} found configured)
      ∙ configs-attempt job.source_config_id run chunk_size job s f e
      ∙ ap is_some configured

  process_job-Failed :
      (run : Run) (s : Server) (job : Job) (config : SourceConfig) (f : Failure) (n : ℕ)
      → first_failure run ≡ some f
      → classify_failure f ≡ t
      → get_by_id job_id s.jobs ≡ some job
      → find_config job.source_config_id s.configs ≡ some config
      → job.attempts ≡ n
      → Failed n (process_job run chunk_size job_id s).0
  process_job-Failed run s job config f n e k found configured counted =
      let end = settle-failed run job f t n k counted in
      record {
        after = settle run job f job;
        found = found-process_job run s job config f e found configured;
        counted = end.0;
        state = end.2;
        configured =
            ap (λ id. is_some (find_config id (process_job run chunk_size job_id s).0.configs))
              (end.1)
            ∙ configured-process_job run s job config f e found configured;
      }

  turn-Failed :
      (now : ℕ) (run : Run) (s : Server) (job : Job) (f : Failure)
      → first_failure run ≡ some f
      → classify_failure f ≡ t
      → get_by_id job_id s.jobs ≡ some job
      → is_pending job ≡ true
      → is_configured job s ≡ true
      → Failed (suc job.attempts) (turn chunk_size worker_id job_id (now, run) s)
  turn-Failed now run s job f e k found waits configured =
      rw (turn, found, waits)
        (elim (Option-cases (find_config job.source_config_id s.configs)) [
          | inl missing ↦ cc
          | inr (config, there) ↦
              process_job-Failed run (lease_job now worker_id job s)
                (mark_processing now (some (worker_id job.id)) 15 job) config f (suc job.attempts) e
                k (found-lease_job now s job found) (unfold mark_processing in there)
                (unfold mark_processing in omega arith)
        ])

  -- A job that does not wait is left alone.
  turns-idle :
      (runs : List (ℕ × Run)) (s : Server) (job : Job)
      → get_by_id job_id s.jobs ≡ some job
      → is_pending job ≡ false
      → turns chunk_size worker_id job_id runs s ≡ s
  turns-idle [] s job found idle = refl
  turns-idle ((now, run) ∷ runs) s job found idle =
      let kept : turn chunk_size worker_id job_id (now, run) s ≡ s = rw (turn, found, idle) refl in
      ap (turns chunk_size worker_id job_id runs) kept ∙ turns-idle runs s job found idle

  abbrev is_pending_status : JobStatus → Bool
  is_pending_status status = elim status [ pending ↦ true | _ ↦ false ]

  abbrev pub tried : ℕ → JobStatus
  tried n = if ltb n (policy_of t).max_attempts then pending else dead_letter

  -- A waiting job with a source configuration, whose runs all fail in ways of one type, is put back in
  -- the queue as long as it was tried less often than its type allows; then it is a dead letter and is
  -- not run again.
  pub turns-status :
      (runs : List (ℕ × Run)) (s : Server) (job : Job)
      → get_by_id job_id s.jobs ≡ some job
      → is_pending job ≡ true
      → is_configured job s ≡ true
      → 0 < length runs
      → AllFail t runs
      → status_of job_id (turns chunk_size worker_id job_id runs s)
        ≡ some (tried (job.attempts + length runs))
  turns-status [] s job found waits configured p h = absurd (omega arith)
  turns-status ((now, run) ∷ []) s job found waits configured p ((f, e, k), h) =
      let r = turn-Failed now run s job f e k found waits configured in
      let one : suc job.attempts ≡ job.attempts + 1 = omega arith in
      ap (Option.map (λ (j : Job). j.status)) r.found ∙ ap some (r.state ∙ ap tried one)
  turns-status ((now, run) ∷ next ∷ runs) s job found waits configured p ((f, e, k), h) =
      let r = turn-Failed now run s job f e k found waits configured in
      let s' = turn chunk_size worker_id job_id (now, run) s in
      elim (Bool-cases (ltb (suc job.attempts) (policy_of t).max_attempts)) [
        | inl again ↦
            let state : r.after.status ≡ pending = r.state ∙ rw again refl in
            turns-status (next ∷ runs) s' r.after r.found (ap is_pending_status state) r.configured
              (omega arith) h
            ∙ ap (λ n. some (tried n)) (omega (arith, r.counted))
        | inr over ↦
            let state : r.after.status ≡ dead_letter = r.state ∙ rw over refl in
            ap (status_of job_id)
              (turns-idle (next ∷ runs) s' r.after r.found (ap is_pending_status state))
            ∙ ap (Option.map (λ (j : Job). j.status)) r.found
            ∙ ap some (state ∙ ground (arith, over))
      ]
