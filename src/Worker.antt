-- ===== src/Worker.antt =====
-- backend/services/tenant_sync_worker.py: a worker leases the jobs that the queue selects and
-- processes each of them.
-- The source connectors, the settings and the destinations are outside: what they give in a run is
-- a `Run`. A failure is what the worker reads of an exception. Random ids are left out of the
-- audit trail. A session's rollback keeps what an earlier commit of the run wrote.
mod Failures
pub mod Policy
pub mod Course
pub mod Process
pub mod Retries
mod Tests
unfoldable pub use Failures.*
use integrado_web_xd.Prelude.{
  ℕ, ◌+◌, ◌*◌, ◌-◌, ◌^◌, min, max, String, Bool, true, false, ◌&&◌, ◌||◌, not, Option, none, some,
  List, [], ◌∷◌, ◌++◌, map, leb, ltb, nat_eq, if◌then◌else◌, ◌==◌,
}
use integrado_web_xd.Prelude.Text.{mentions}
use integrado_web_xd.Jobs.{
  Job, minutes, mark_processing, mark_done, mark_retry, mark_dead_letter, write_row, get_by_id,
}
use integrado_web_xd.Jobs.Select.{list_pending_with_backpressure}
use integrado_web_xd.Sales.{SaleRecord, Venda, Dialect, bulk_upsert}
use integrado_web_xd.Metrics.{
  Metrics, record_sync_success, record_sync_failure, record_tenant_queue_processed,
  record_tenant_queue_failed, record_tenant_queue_retried, record_tenant_queue_dead_letter,
}

-- backend/models/tenant_source_config.py, without the times of its writes.
pub record SourceConfig : Type 0 where
  pub id : String
  pub empresa_id : String
  pub nome : String
  pub connector_type : String
  pub sync_interval_minutes : ℕ
  pub settings_json : String
  pub ativo : Bool
  pub last_run_at : Option ℕ
  pub last_scheduled_at : Option ℕ
  pub next_run_at : Option ℕ
  pub last_status : String
  pub last_error : Option String

unfoldable pub find_config : String → List SourceConfig → Option SourceConfig
find_config id [] = none
find_config id (c ∷ configs) =
    let rest = find_config id configs in if c.id == id then some c else rest

unfoldable pub write_config :
    String → (SourceConfig → SourceConfig) → List SourceConfig → List SourceConfig
write_config id f [] = []
write_config id f (c ∷ configs) =
    let rest = write_config id f configs in if c.id == id then f c ∷ rest else c ∷ rest

-- A value of the `detail` of an audit event; `num n` is the text of `n`.
pub data Detail : Type 0 where
  text : String → Detail
  num : ℕ → Detail

pub record AuditEvent : Type 0 where
  pub empresa_id : String
  pub actor : String
  pub action : String
  pub resource_type : String
  pub resource_id : String
  pub status : String
  pub detail : List (String × Detail)
  pub created_at : ℕ

pub record Server : Type 0 where
  pub jobs : List Job
  pub configs : List SourceConfig
  pub vendas : List Venda
  pub audits : List AuditEvent
  pub metrics : Metrics

-- What the world outside does in one run. `none` is no exception.
pub record Run : Type 0 where
  pub dialect : Dialect
  -- the clock of the run
  pub now : ℕ
  -- the id that `json.loads` finds in the payload, or the one made of the job's id
  pub correlation_id : String
  -- settings, connector, and normalised records
  pub fetched : Option Failure
  pub records : List SaleRecord
  -- the database during the upsert and its commit
  pub stored : Option Failure
  -- the destinations
  pub delivered : Option Failure
  -- the database during the writes after the delivery and their commit
  pub completed : Option Failure

abbrev pub event : String → String → String → String → List (String × Detail) → ℕ → AuditEvent
event empresa action job_id status detail now = record {
  empresa_id = empresa;
  actor = "tenant_sync_worker";
  action = action;
  resource_type = "sync_job";
  resource_id = job_id;
  status = status;
  detail = detail;
  created_at = now;
}

-- `_mark_dead_letter`, which the run calls with no source configuration.
unfoldable pub bury_orphan : ℕ → Job → String → Server → Server
bury_orphan now job message s = record s {
  jobs = write_row job.id (mark_dead_letter now message) s.jobs;
  audits =
      s.audits
      ++ event job.empresa_id "tenant.sync_job.dead_letter" job.id "failure"
          (("source_config_id", text job.source_config_id) ∷ ("error", text message) ∷ []) now
        ∷ [];
}

-- The end of the `try` block.
unfoldable pub complete : Run → Job → ℕ → ℕ → Server → Server
complete run job inserted updated s = record s {
  configs =
      write_config job.source_config_id
        (λ c. record c {
          last_run_at = some run.now;
          last_scheduled_at = some run.now;
          next_run_at = some (run.now + minutes (max 1 c.sync_interval_minutes));
          last_status = "ok";
          last_error = none;
        })
        s.configs;
  jobs = write_row job.id (mark_done run.now) s.jobs;
  audits =
      s.audits
      ++ event job.empresa_id "tenant.sync_job.completed" job.id "success"
          (("source_config_id", text job.source_config_id)
            ∷ ("inserted_count", num inserted)
            ∷ ("updated_count", num updated)
            ∷ ("correlation_id", text run.correlation_id)
            ∷ [])
          run.now
        ∷ [];
  metrics =
      record_tenant_queue_processed job.empresa_id run.now
        (record_sync_success job.empresa_id inserted updated run.now s.metrics);
}

-- What the `except` block writes to the job, and to the audit trail.
unfoldable pub retry : Run → Job → Failure → Server → Server
unfolding backoff_minutes
retry run job f s =
    let p = retry_policy f in
    let backoff = backoff_minutes p job.attempts in
    record s {
      jobs = write_row job.id (mark_retry run.now f.message backoff) s.jobs;
      audits =
          s.audits
          ++ event job.empresa_id "tenant.sync_job.retry_scheduled" job.id "failure"
              (("source_config_id", text job.source_config_id)
                ∷ ("failure_type", text (type_name p.failure_type))
                ∷ ("backoff_minutes", num backoff)
                ∷ ("max_attempts", num p.max_attempts)
                ∷ ("error", text f.message)
                ∷ ("correlation_id", text run.correlation_id)
                ∷ [])
              run.now
            ∷ [];
      metrics = record_tenant_queue_retried job.empresa_id run.now s.metrics;
    }

unfoldable pub bury : Run → Job → Failure → Server → Server
bury run job f s =
    let p = retry_policy f in
    record s {
      jobs = write_row job.id (mark_dead_letter run.now f.message) s.jobs;
      audits =
          s.audits
          ++ event job.empresa_id "tenant.sync_job.dead_letter" job.id "failure"
              (("source_config_id", text job.source_config_id)
                ∷ ("failure_type", text (type_name p.failure_type))
                ∷ ("max_attempts", num p.max_attempts)
                ∷ ("error", text f.message)
                ∷ ("correlation_id", text run.correlation_id)
                ∷ [])
              run.now
            ∷ [];
      metrics = record_tenant_queue_dead_letter job.empresa_id run.now s.metrics;
    }

-- The `except` block: the status of the configuration, the counters, and a retry or a burial.
unfoldable pub fail : Run → Job → Failure → Server → Server
unfolding retry bury retry_policy
fail run job f s =
    let p = retry_policy f in
    let again = ltb job.attempts p.max_attempts in
    let noted = record s {
      configs =
          write_config job.source_config_id
            (λ c. record c {
              last_status = if again then "retrying" else "dead_letter";
              last_error = some f.message;
            })
            s.configs;
      metrics =
          record_sync_failure (some job.empresa_id)
            (record_tenant_queue_failed job.empresa_id run.now s.metrics);
    } in
    if again then retry run job f noted else bury run job f noted

-- The `try` block up to its first exception, and what follows.
unfoldable pub attempt : Run → ℕ → Job → Server → Server × ℕ
unfolding fail complete
attempt run chunk_size job s = elim run.fetched [
  | some f ↦ (fail run job f s, 0)
  | none ↦ elim run.stored [
    | some f ↦ (fail run job f s, 0)
    | none ↦
        let (vendas, inserted, updated) =
          bulk_upsert run.dialect job.empresa_id run.now run.records chunk_size s.vendas in
        let stored = record s { vendas = vendas } in
        elim run.delivered [
          | some f ↦ (fail run job f stored, 0)
          | none ↦ elim run.completed [
            | some f ↦ (fail run job f stored, 0)
            | none ↦ (complete run job inserted updated stored, 1)
          ]
        ]
  ]
]

-- `_process_job`: the server after the run, and whether the job was done.
unfoldable pub process_job : Run → ℕ → String → Server → Server × ℕ
unfolding attempt bury_orphan find_config
process_job run chunk_size job_id s = elim (get_by_id job_id s.jobs) [
  | none ↦ (s, 0)
  | some job ↦ elim (find_config job.source_config_id s.configs) [
    | none ↦ (bury_orphan run.now job "source_config nao encontrado" s, 0)
    | some config ↦ attempt run chunk_size job s
  ]
]

-- The loop over the selected jobs in `drain_pending_jobs`, with the texts of the workers' ids.
unfoldable pub lease_jobs : ℕ → (String → String) → List Job → List Job → List Job
lease_jobs now worker_id [] table = table
lease_jobs now worker_id (job ∷ jobs) table =
    lease_jobs now worker_id jobs
      (write_row job.id (mark_processing now (some (worker_id job.id)) 15) table)

-- The runs of the threads, in the order in which they write.
unfoldable pub process_all : ℕ → List (String × Run) → Server → Server × ℕ
unfolding process_job
process_all chunk_size [] s = (s, 0)
process_all chunk_size ((job_id, run) ∷ runs) s =
    let (s', one) = process_job run chunk_size job_id s in
    let (s'', more) = process_all chunk_size runs s' in (s'', one + more)

-- `drain_pending_jobs` up to the start of the threads: the server with the jobs leased, and the
-- jobs. The order is the database's ORDER BY next_run_at, created_at.
unfoldable pub start_drain :
    (List Job → List Job) → ℕ → (String → String) → ℕ → ℕ → Server → Server × List Job
unfolding list_pending_with_backpressure lease_jobs
start_drain order now worker_id limit max_jobs_per_tenant s =
    let (table, jobs) = list_pending_with_backpressure order now limit max_jobs_per_tenant s.jobs in
    (record s { jobs = lease_jobs now worker_id jobs table }, jobs)
