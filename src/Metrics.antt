-- ===== src/Metrics.antt =====
-- The counters of backend/utils/metrics.py that the synchronisation writes. A dict from tenants to
-- numbers is an association list in order of insertion. Each method holds the lock throughout, so
-- it is one step. An epoch is the clock's reading at the call.
pub mod Totals
mod Tests
use integrado_web_xd.Prelude.{
  ℕ, ◌+◌, String, Option, none, some, List, [], ◌∷◌, ◌==◌, if◌then◌else◌,
}

abbrev pub Counts : Type 0
Counts = List (String × ℕ)

-- `d[k] = d.get(k, 0) + n`
unfoldable pub bump : String → ℕ → Counts → Counts
bump k n [] = (k, n) ∷ []
bump k n ((j, v) ∷ d) = let rest = bump k n d in if j == k then (j, v + n) ∷ d else (j, v) ∷ rest

-- `d[k] = n`
unfoldable pub assign : String → ℕ → Counts → Counts
assign k n [] = (k, n) ∷ []
assign k n ((j, v) ∷ d) = let rest = assign k n d in if j == k then (j, n) ∷ d else (j, v) ∷ rest

pub record Metrics : Type 0 where
  pub sync_batches_total : ℕ
  pub sync_records_inserted_total : ℕ
  pub sync_records_updated_total : ℕ
  pub sync_failures_total : ℕ
  pub retention_processed_total : ℕ
  pub tenant_scheduler_runs_total : ℕ
  pub tenant_scheduler_failures_total : ℕ
  pub tenant_queue_enqueued_total : ℕ
  pub tenant_queue_processed_total : ℕ
  pub tenant_queue_failed_total : ℕ
  pub tenant_queue_retried_total : ℕ
  pub tenant_queue_dead_letter_total : ℕ
  pub sync_batches_total_by_empresa : Counts
  pub sync_failures_total_by_empresa : Counts
  pub tenant_scheduler_runs_total_by_empresa : Counts
  pub tenant_queue_processed_total_by_empresa : Counts
  pub tenant_queue_failed_total_by_empresa : Counts
  pub tenant_queue_retried_total_by_empresa : Counts
  pub tenant_queue_dead_letter_total_by_empresa : Counts
  pub last_sync_epoch_by_empresa : Counts
  pub last_tenant_scheduler_epoch_by_empresa : Counts
  pub last_tenant_queue_epoch_by_empresa : Counts

abbrev pub no_metrics : Metrics
no_metrics = record {
  sync_batches_total = 0;
  sync_records_inserted_total = 0;
  sync_records_updated_total = 0;
  sync_failures_total = 0;
  retention_processed_total = 0;
  tenant_scheduler_runs_total = 0;
  tenant_scheduler_failures_total = 0;
  tenant_queue_enqueued_total = 0;
  tenant_queue_processed_total = 0;
  tenant_queue_failed_total = 0;
  tenant_queue_retried_total = 0;
  tenant_queue_dead_letter_total = 0;
  sync_batches_total_by_empresa = [];
  sync_failures_total_by_empresa = [];
  tenant_scheduler_runs_total_by_empresa = [];
  tenant_queue_processed_total_by_empresa = [];
  tenant_queue_failed_total_by_empresa = [];
  tenant_queue_retried_total_by_empresa = [];
  tenant_queue_dead_letter_total_by_empresa = [];
  last_sync_epoch_by_empresa = [];
  last_tenant_scheduler_epoch_by_empresa = [];
  last_tenant_queue_epoch_by_empresa = [];
}

unfoldable pub record_sync_success : String → ℕ → ℕ → ℕ → Metrics → Metrics
record_sync_success empresa inserted updated epoch m = record m {
  sync_batches_total = m.sync_batches_total + 1;
  sync_records_inserted_total = m.sync_records_inserted_total + inserted;
  sync_records_updated_total = m.sync_records_updated_total + updated;
  sync_batches_total_by_empresa = bump empresa 1 m.sync_batches_total_by_empresa;
  last_sync_epoch_by_empresa = assign empresa epoch m.last_sync_epoch_by_empresa;
}

-- `if empresa_id:` is false of `None` and of the empty text.
unfoldable pub record_sync_failure : Option String → Metrics → Metrics
record_sync_failure none m = record m { sync_failures_total = m.sync_failures_total + 1 }
record_sync_failure (some empresa) m = record m {
  sync_failures_total = m.sync_failures_total + 1;
  sync_failures_total_by_empresa =
      if empresa == ""
      then m.sync_failures_total_by_empresa
      else bump empresa 1 m.sync_failures_total_by_empresa;
}

unfoldable pub record_retention : ℕ → Metrics → Metrics
record_retention processed m = record m {
  retention_processed_total = m.retention_processed_total + processed;
}

unfoldable pub record_tenant_scheduler_success : String → ℕ → Metrics → Metrics
record_tenant_scheduler_success empresa epoch m = record m {
  tenant_scheduler_runs_total = m.tenant_scheduler_runs_total + 1;
  tenant_scheduler_runs_total_by_empresa = bump empresa 1 m.tenant_scheduler_runs_total_by_empresa;
  last_tenant_scheduler_epoch_by_empresa =
      assign empresa epoch m.last_tenant_scheduler_epoch_by_empresa;
}

unfoldable pub record_tenant_scheduler_failure : Metrics → Metrics
record_tenant_scheduler_failure m = record m {
  tenant_scheduler_failures_total = m.tenant_scheduler_failures_total + 1;
}

unfoldable pub record_tenant_queue_enqueue : ℕ → Metrics → Metrics
record_tenant_queue_enqueue n m = record m {
  tenant_queue_enqueued_total = m.tenant_queue_enqueued_total + n;
}

unfoldable pub record_tenant_queue_processed : String → ℕ → Metrics → Metrics
record_tenant_queue_processed empresa epoch m = record m {
  tenant_queue_processed_total = m.tenant_queue_processed_total + 1;
  tenant_queue_processed_total_by_empresa =
      bump empresa 1 m.tenant_queue_processed_total_by_empresa;
  last_tenant_queue_epoch_by_empresa = assign empresa epoch m.last_tenant_queue_epoch_by_empresa;
}

unfoldable pub record_tenant_queue_failed : String → ℕ → Metrics → Metrics
record_tenant_queue_failed empresa epoch m = record m {
  tenant_queue_failed_total = m.tenant_queue_failed_total + 1;
  tenant_queue_failed_total_by_empresa = bump empresa 1 m.tenant_queue_failed_total_by_empresa;
  last_tenant_queue_epoch_by_empresa = assign empresa epoch m.last_tenant_queue_epoch_by_empresa;
}

unfoldable pub record_tenant_queue_retried : String → ℕ → Metrics → Metrics
record_tenant_queue_retried empresa epoch m = record m {
  tenant_queue_retried_total = m.tenant_queue_retried_total + 1;
  tenant_queue_retried_total_by_empresa = bump empresa 1 m.tenant_queue_retried_total_by_empresa;
  last_tenant_queue_epoch_by_empresa = assign empresa epoch m.last_tenant_queue_epoch_by_empresa;
}

unfoldable pub record_tenant_queue_dead_letter : String → ℕ → Metrics → Metrics
record_tenant_queue_dead_letter empresa epoch m = record m {
  tenant_queue_dead_letter_total = m.tenant_queue_dead_letter_total + 1;
  tenant_queue_dead_letter_total_by_empresa =
      bump empresa 1 m.tenant_queue_dead_letter_total_by_empresa;
  last_tenant_queue_epoch_by_empresa = assign empresa epoch m.last_tenant_queue_epoch_by_empresa;
}
