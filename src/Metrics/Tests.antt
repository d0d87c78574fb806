-- ===== src/Metrics/Tests.antt =====
-- The counters from their start.
use integrado_web_xd.Prelude.{refl}
use integrado_web_xd.Metrics.{no_metrics}
use integrado_web_xd.Metrics.Totals.{IsSummed}

no_metrics-IsSummed : IsSummed no_metrics
no_metrics-IsSummed = record {
  batches = refl;
  runs = refl;
  processed = refl;
  failed = refl;
  retried = refl;
  dead = refl;
}
