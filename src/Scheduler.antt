-- ===== src/Scheduler.antt =====
-- backend/services/tenant_sync_scheduler.py: what a timer's run for a source configuration does.
-- The id of the new job and the JSON text of its payload are given.
pub mod Backpressure
pub mod Timers
mod Tests
use Prim.Native.String
use integrado_web_xd.Prelude.{
  ℕ, ◌+◌, max, String, Option, none, some, List, [], ◌∷◌, ◌++◌, Bool, not, ◌&&◌, ◌||◌, true, false,
  leb, if◌then◌else◌,
}
use integrado_web_xd.Prelude.Text.{decimal}
use integrado_web_xd.Jobs.{Job, minutes, create, get_pending_count}
use integrado_web_xd.Metrics.{
  record_tenant_scheduler_success, record_tenant_scheduler_failure, record_tenant_queue_enqueue,
}
use integrado_web_xd.Worker.{Server, SourceConfig, find_config, write_config}

abbrev backpressure_text : ℕ → ℕ → String
backpressure_text pending_count limit =
    String.◌++◌ "backpressure_ativa: pending="
      (String.◌++◌ (decimal pending_count) (String.◌++◌ " limite=" (decimal limit)))

abbrev next_run : ℕ → SourceConfig → ℕ
next_run now config = now + minutes (max 1 config.sync_interval_minutes)

-- The branch that skips the run, as the queue of the tenant is full.
unfoldable pub skip : ℕ → ℕ → ℕ → SourceConfig → Server → Server
skip limit now pending_count config s = record s {
  configs =
      write_config config.id
        (λ c. record c {
          last_status = "backpressure";
          last_error = some (backpressure_text pending_count limit);
          last_scheduled_at = some now;
          next_run_at = some (next_run now c);
        })
        s.configs;
}

-- The branch that puts a job into the queue.
unfoldable pub enqueue : ℕ → String → String → SourceConfig → Server → Server
enqueue now job_id payload_json config s = record s {
  jobs = s.jobs ++ create job_id config.empresa_id config.id payload_json now now ∷ [];
  configs =
      write_config config.id
        (λ c. record c { last_scheduled_at = some now; next_run_at = some (next_run now c) })
        s.configs;
  metrics =
      record_tenant_queue_enqueue 1
        (record_tenant_scheduler_success config.empresa_id now s.metrics);
}

-- `_run_source_sync_with_context`; `limit` is `tenant_queue_max_pending_per_empresa`.
unfoldable pub run_source_sync : ℕ → ℕ → String → String → String → Server → Server
unfolding skip enqueue find_config
run_source_sync limit now job_id payload_json config_id s = elim (find_config config_id s.configs) [
  | none ↦ record s { metrics = record_tenant_scheduler_failure s.metrics }
  | some config ↦
      let pending_count = get_pending_count config.empresa_id s.jobs in
      if not config.ativo
      then record s { metrics = record_tenant_scheduler_failure s.metrics }
      else if leb limit pending_count
      then skip limit now pending_count config s
      else enqueue now job_id payload_json config s
]
