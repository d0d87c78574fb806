-- ===== src/Jobs.antt =====
-- The queue of synchronisation jobs: backend/models/tenant_sync_job.py and the methods of
-- backend/repositories/tenant_sync_job_repository.py that write a job or read the queue.
-- A `datetime` is a number of microseconds. A method reads the clock at one instant, `now`, which
-- is also the `onupdate` time of the row. The table is the list of its rows in order of insertion.
pub mod Lifecycle
pub mod Select
pub mod Retry
mod Tests
use integrado_web_xd.Prelude.{
  ℕ, ◌+◌, ◌*◌, String, Bool, true, false, ◌&&◌, Option, none, some, List, [], ◌∷◌, map, leb,
  if◌then◌else◌, ◌==◌, count,
}

pub data JobStatus : Type 0 where
  pending processing done dead_letter failed : JobStatus

pub record Job : Type 0 where
  pub id : String
  pub empresa_id : String
  pub source_config_id : String
  pub status : JobStatus
  pub payload_json : String
  pub attempts : ℕ
  pub last_error : Option String
  pub scheduled_at : ℕ
  pub next_run_at : ℕ
  pub leased_by : Option String
  pub lease_expires_at : Option ℕ
  pub started_at : Option ℕ
  pub finished_at : Option ℕ
  pub dead_letter_at : Option ℕ
  pub dead_letter_reason : Option String
  pub created_at : ℕ
  pub updated_at : ℕ

abbrev pub is_pending : Job → Bool
is_pending j = elim j.status [ pending ↦ true | _ ↦ false ]

abbrev pub is_processing : Job → Bool
is_processing j = elim j.status [ processing ↦ true | _ ↦ false ]

-- `timedelta(minutes=n)`
abbrev pub minutes : ℕ → ℕ
minutes n = n * 60_000_000

-- The new row of `create`; the columns that it does not name have their defaults.
unfoldable pub create : String → String → String → String → ℕ → ℕ → Job
create job_id empresa source payload scheduled now = record {
  id = job_id;
  empresa_id = empresa;
  source_config_id = source;
  status = pending;
  payload_json = payload;
  attempts = 0;
  last_error = none;
  scheduled_at = scheduled;
  next_run_at = scheduled;
  leased_by = none;
  lease_expires_at = none;
  started_at = none;
  finished_at = none;
  dead_letter_at = none;
  dead_letter_reason = none;
  created_at = now;
  updated_at = now;
}

unfoldable pub mark_processing : ℕ → Option String → ℕ → Job → Job
mark_processing now worker_id lease_minutes job = record job {
  status = processing;
  started_at = some now;
  attempts = job.attempts + 1;
  leased_by = worker_id;
  lease_expires_at = some (now + minutes lease_minutes);
  updated_at = now;
}

unfoldable pub mark_done : ℕ → Job → Job
mark_done now job = record job {
  status = done;
  finished_at = some now;
  last_error = none;
  leased_by = none;
  lease_expires_at = none;
  updated_at = now;
}

unfoldable pub mark_retry : ℕ → String → ℕ → Job → Job
mark_retry now error_message backoff_minutes job = record job {
  status = pending;
  finished_at = none;
  last_error = some error_message;
  next_run_at = now + minutes backoff_minutes;
  leased_by = none;
  lease_expires_at = none;
  updated_at = now;
}

unfoldable pub mark_dead_letter : ℕ → String → Job → Job
mark_dead_letter now error_message job = record job {
  status = dead_letter;
  finished_at = some now;
  dead_letter_at = some now;
  dead_letter_reason = some error_message;
  last_error = some error_message;
  leased_by = none;
  lease_expires_at = none;
  updated_at = now;
}

unfoldable pub requeue_job : ℕ → Job → Job
requeue_job now job = record job {
  status = pending;
  attempts = 0;
  last_error = none;
  dead_letter_at = none;
  dead_letter_reason = none;
  started_at = none;
  finished_at = none;
  next_run_at = now;
  leased_by = none;
  lease_expires_at = none;
  updated_at = now;
}

-- The WHERE of `recover_expired_leases`.
unfoldable pub lease_expired : ℕ → Job → Bool
lease_expired now job =
    is_processing job && elim job.lease_expires_at [ none ↦ false | some t ↦ leb t now ]

-- The body of its loop.
unfoldable pub release : ℕ → Job → Job
release now job = record job {
  status = pending;
  leased_by = none;
  lease_expires_at = none;
  started_at = none;
  updated_at = now;
}

abbrev pub recovered : ℕ → Job → Job
recovered now job = if lease_expired now job then release now job else job

-- The table after the call, and the number of recovered jobs.
unfoldable pub recover_expired_leases : ℕ → List Job → List Job × ℕ
unfolding lease_expired release
recover_expired_leases now table = (map (recovered now) table, count (lease_expired now) table)

-- The WHERE of the two listings.
unfoldable pub is_due : ℕ → Job → Bool
is_due now job = is_pending job && leb job.next_run_at now

-- A write to the row of a key.
unfoldable pub write_row : String → (Job → Job) → List Job → List Job
write_row job_id f [] = []
write_row job_id f (j ∷ table) =
    let rest = write_row job_id f table in if j.id == job_id then f j ∷ rest else j ∷ rest

unfoldable pub get_by_id : String → List Job → Option Job
get_by_id job_id [] = none
get_by_id job_id (j ∷ table) = if j.id == job_id then some j else get_by_id job_id table

-- `get_pending_count_by_empresa_id`
abbrev pub is_pending_of : String → Job → Bool
is_pending_of empresa j = j.empresa_id == empresa && is_pending j

unfoldable pub get_pending_count : String → List Job → ℕ
get_pending_count empresa = count (is_pending_of empresa)
