-- ===== src/Worker/Tests.antt =====
-- Runs on one job, and the theorems applied to them.
use integrado_web_xd.Prelude.{
  ℕ, suc, ◌+◌, ◌≤◌, ◌<◌, ◌≡◌, refl, String, Bool, true, false, Option, none, some, List, [], ◌∷◌,
  arith, all, map, length,
}
use integrado_web_xd.Jobs.{Job, JobStatus, pending, dead_letter, create, write_row}
use integrado_web_xd.Sales.{sqlite}
use integrado_web_xd.Sales.Write.{rows_of}
use integrado_web_xd.Metrics.{no_metrics}
use integrado_web_xd.Worker.{
  Server, SourceConfig, Run, Failure, auth, transient, permanent, transport, other, http_status,
  classify_failure, process_job, backoff_minutes, retry_policy,
}
use integrado_web_xd.Worker.Course.{outcome, first_failure}
use integrado_web_xd.Worker.Process.{process_job-outcome, process_job_isolation}
use integrado_web_xd.Worker.Retries.{turns, status_of, AllFail, turns-status}

abbrev failure : String → Failure
failure message = record { kind = other; message = message }

classify_runs :
    map classify_failure (
      failure "Token INVALIDO"
      ∷ failure "tabela inexistente"
      ∷ failure "timed out"
      ∷ record { kind = http_status 429; message = "" }
      ∷ [])
    ≡ auth ∷ permanent ∷ transient ∷ transient ∷ []
unfolding classify_failure integrado_web_xd.Prelude.Text.mentions
classify_runs = refl

backoff_runs :
    map (backoff_minutes (retry_policy (failure "timeout"))) (1 ∷ 2 ∷ 5 ∷ 9 ∷ [])
    ≡ 2 ∷ 4 ∷ 30 ∷ 30 ∷ []
unfolding backoff_minutes retry_policy classify_failure integrado_web_xd.Prelude.Text.mentions
backoff_runs = refl

abbrev job : Job
job = create "j1" "111" "c1" "{}" 5 5

abbrev config : SourceConfig
config = record {
  id = "c1";
  empresa_id = "111";
  nome = "Caixa";
  connector_type = "mariadb";
  sync_interval_minutes = 16;
  settings_json = "{}";
  ativo = true;
  last_run_at = none;
  last_scheduled_at = none;
  next_run_at = none;
  last_status = "pending";
  last_error = none;
}

abbrev server : Server
server = record {
  jobs = job ∷ [];
  configs = config ∷ [];
  vendas = [];
  audits = [];
  metrics = no_metrics;
}

abbrev run : Option Failure → Run
run f = record {
  dialect = sqlite;
  now = 9;
  correlation_id = "wrk-j1";
  fetched = f;
  records = [];
  stored = none;
  delivered = none;
  completed = none;
}

abbrev down : Failure
down = record { kind = transport; message = "connection refused" }

process_job-outcome_example :
    (process_job (run (some down)) 250 "j1" server).0.jobs
    ≡ write_row "j1" (outcome (run (some down)) job) server.jobs
unfolding integrado_web_xd.Jobs.get_by_id integrado_web_xd.Worker.find_config create
process_job-outcome_example =
    process_job-outcome (run (some down)) 250 "j1" server {job = job} {config = config} refl refl

process_job_isolation_example :
    rows_of "222" (process_job (run none) 250 "j1" server).0.vendas ≡ rows_of "222" server.vendas
unfolding integrado_web_xd.Jobs.get_by_id integrado_web_xd.Worker.find_config create
process_job_isolation_example =
    process_job_isolation (run none) 250 "j1" server {job = job} {config = config} refl refl "222"
      refl

abbrev outage : ℕ × Run
outage = (9, run (some down))

abbrev outages : List (ℕ × Run)
outages = outage ∷ outage ∷ outage ∷ outage ∷ outage ∷ outage ∷ []

outages-AllFail : AllFail transient outages
unfolding classify_failure
outages-AllFail =
    let down_once : (f : Failure) × (first_failure (run (some down)) ≡ some f)
        × (classify_failure f ≡ transient) =
      (down, refl, refl) in
    (down_once, (down_once, (down_once, (down_once, (down_once, (down_once, tt))))))

turns-status_example : status_of "j1" (turns 250 (λ id. "w") "j1" outages server) ≡ some dead_letter
unfolding create integrado_web_xd.Jobs.get_by_id integrado_web_xd.Worker.find_config
turns-status_example =
    turns-status 250 (λ id. "w") "j1" transient outages server job refl refl refl (omega arith)
      outages-AllFail
