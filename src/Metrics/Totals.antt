-- ===== src/Metrics/Totals.antt =====
-- The totals against the counters by tenant.
use integrado_web_xd.Prelude.{ℕ, ◌+◌, ◌≡◌, String, Option, none, some, [], ◌∷◌, arith}
use integrado_web_xd.Metrics.{
  Counts, Metrics, bump, record_sync_success, record_sync_failure, record_retention,
  record_tenant_scheduler_success, record_tenant_scheduler_failure, record_tenant_queue_enqueue,
  record_tenant_queue_processed, record_tenant_queue_failed, record_tenant_queue_retried,
  record_tenant_queue_dead_letter,
}

abbrev pub total : Counts → ℕ
total [] = 0
total ((k, n) ∷ d) = n + total d

pub total-bump : (k : String) (n : ℕ) (d : Counts) → total (bump k n d) ≡ total d + n
unfolding bump
total-bump k n [] = omega arith
total-bump k n ((j, v) ∷ d) = ground (arith, total-bump k n d)

-- Every total that has counters by tenant is their sum.
pub record IsSummed (m : Metrics) : Type 0 where
  pub batches : m.sync_batches_total ≡ total m.sync_batches_total_by_empresa
  pub runs : m.tenant_scheduler_runs_total ≡ total m.tenant_scheduler_runs_total_by_empresa
  pub processed : m.tenant_queue_processed_total ≡ total m.tenant_queue_processed_total_by_empresa
  pub failed : m.tenant_queue_failed_total ≡ total m.tenant_queue_failed_total_by_empresa
  pub retried : m.tenant_queue_retried_total ≡ total m.tenant_queue_retried_total_by_empresa
  pub dead : m.tenant_queue_dead_letter_total ≡ total m.tenant_queue_dead_letter_total_by_empresa

-- The calls of the registry.
pub data Event : Type 0 where
  sync_success : (empresa : String) (inserted updated epoch : ℕ) → Event
  sync_failure : (empresa : Option String) → Event
  retention : ℕ → Event
  scheduler_success queue_processed queue_failed queue_retried queue_dead_letter :
      (empresa : String) (epoch : ℕ) → Event
  scheduler_failure : Event
  queue_enqueue : ℕ → Event

pub handle : Event → Metrics → Metrics
handle (sync_success e i u t) = record_sync_success e i u t
handle (sync_failure e) = record_sync_failure e
handle (retention n) = record_retention n
handle (scheduler_success e t) = record_tenant_scheduler_success e t
handle (queue_processed e t) = record_tenant_queue_processed e t
handle (queue_failed e t) = record_tenant_queue_failed e t
handle (queue_retried e t) = record_tenant_queue_retried e t
handle (queue_dead_letter e t) = record_tenant_queue_dead_letter e t
handle scheduler_failure = record_tenant_scheduler_failure
handle (queue_enqueue n) = record_tenant_queue_enqueue n

-- Whatever call is made, the totals stay the sums of the counters by tenant.
handle-IsSummed : (ev : Event) (m : Metrics) → IsSummed m → IsSummed (handle ev m)
unfolding handle record_sync_success record_sync_failure record_retention
    record_tenant_scheduler_success record_tenant_scheduler_failure record_tenant_queue_enqueue
    record_tenant_queue_processed record_tenant_queue_failed record_tenant_queue_retried
    record_tenant_queue_dead_letter
handle-IsSummed (sync_success e i u t) m h =
    ground (arith, total-bump e 1 m.sync_batches_total_by_empresa)
handle-IsSummed (sync_failure none) m h = ground arith
handle-IsSummed (sync_failure (some e)) m h = ground arith
handle-IsSummed (retention n) m h = ground arith
handle-IsSummed (scheduler_success e t) m h =
    ground (arith, total-bump e 1 m.tenant_scheduler_runs_total_by_empresa)
handle-IsSummed (queue_processed e t) m h =
    ground (arith, total-bump e 1 m.tenant_queue_processed_total_by_empresa)
handle-IsSummed (queue_failed e t) m h =
    ground (arith, total-bump e 1 m.tenant_queue_failed_total_by_empresa)
handle-IsSummed (queue_retried e t) m h =
    ground (arith, total-bump e 1 m.tenant_queue_retried_total_by_empresa)
handle-IsSummed (queue_dead_letter e t) m h =
    ground (arith, total-bump e 1 m.tenant_queue_dead_letter_total_by_empresa)
handle-IsSummed scheduler_failure m h = ground arith
handle-IsSummed (queue_enqueue n) m h = ground arith
