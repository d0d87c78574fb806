-- ===== src/Scheduler/Tests.antt =====
-- A server with one configuration, and the theorems applied to it.
use integrado_web_xd.Prelude.{
  ◌≤◌, max, ◌≡◌, refl, arith, String, true, not, Option, none, some, is_some, List, [], ◌∷◌, map,
  keep, any, first_where, if◌then◌else◌, ◌==◌, eq_iff,
}
use integrado_web_xd.Scheduler.Timers.{Timer, AsyncIoScheduler, is_own, sync_all_jobs}
use integrado_web_xd.Scheduler.Timers.Reconciled.{get_job-sync_all_jobs}
use integrado_web_xd.Jobs.{create, get_pending_count}
use integrado_web_xd.Metrics.{no_metrics}
use integrado_web_xd.Worker.{Server, SourceConfig}
use integrado_web_xd.Scheduler.{run_source_sync}
use integrado_web_xd.Scheduler.Backpressure.{get_pending_count-run_source_sync}

abbrev config : SourceConfig
config = record {
  id = "c1";
  empresa_id = "111";
  nome = "Caixa";
  connector_type = "mariadb";
  sync_interval_minutes = 16;
  settings_json = "{}";
  ativo = true;
  last_run_at = none;
  last_scheduled_at = none;
  next_run_at = none;
  last_status = "pending";
  last_error = none;
}

abbrev server : Server
server = record {
  jobs = create "j1" "111" "c1" "{}" 5 5 ∷ [];
  configs = config ∷ [];
  vendas = [];
  audits = [];
  metrics = no_metrics;
}

get_pending_count-run_source_sync_example :
    get_pending_count "111" (run_source_sync 2 9 "j2" "{}" "c1" server).jobs
    ≤ max 2 (get_pending_count "111" server.jobs)
get_pending_count-run_source_sync_example =
    get_pending_count-run_source_sync 2 9 "j2" "{}" "c1" server "111"

-- Timers in a list.
abbrev find_timer : String → List Timer → Option Timer
find_timer id = first_where (λ t. t.id == id)

abbrev put_timer : Timer → List Timer → List Timer
put_timer t [] = t ∷ []
put_timer t (u ∷ us) = let rest = put_timer t us in if u.id == t.id then t ∷ us else u ∷ rest

abbrev drop_timer : String → List Timer → List Timer
drop_timer id = keep (λ t. not (t.id == id))

find-listed :
    (id : String) (s : List Timer)
    → any (λ i. i == id) (map (λ t. t.id) s) ≡ is_some (find_timer id s)
find-listed id [] = refl
find-listed id (t ∷ s) = ground (arith, find-listed id s)

find-put :
    (id : String) (t : Timer) (s : List Timer)
    → find_timer id (put_timer t s) ≡ (if t.id == id then some t else find_timer id s)
find-put id t [] = refl
find-put id t (u ∷ s) =
    ground (arith, find-put id t s, eq_iff u.id t.id, eq_iff u.id id, eq_iff t.id id)

find-drop :
    (id other : String) (s : List Timer)
    → find_timer id (drop_timer other s) ≡ (if other == id then none else find_timer id s)
find-drop id other [] = ground arith
find-drop id other (u ∷ s) =
    ground (arith, find-drop id other s, eq_iff u.id other, eq_iff u.id id, eq_iff other id)

abbrev listed : AsyncIoScheduler
listed = record {
  Timers = List Timer;
  get_job = find_timer;
  get_jobs = map (λ t. t.id);
  add_job = put_timer;
  remove_job = drop_timer;
  get_jobs_lem = find-listed;
  get_job-add_job = find-put;
  get_job-remove_job = find-drop;
}

abbrev old_timers : List Timer
old_timers =
    record {
      id = "tenant-sync-gone";
      config_id = "gone";
      interval_minutes = 5;
      next_run_time = none;
    }
    ∷ record { id = "retention"; config_id = ""; interval_minutes = 60; next_run_time = none }
    ∷ []

get_job-sync_all_jobs_example :
    find_timer "tenant-sync-gone" (sync_all_jobs listed 9 (config ∷ []) old_timers).1 ≡ none
unfolding is_own
get_job-sync_all_jobs_example =
    get_job-sync_all_jobs listed 9 (config ∷ []) old_timers "tenant-sync-gone"

timers_kept :
    map (λ t. t.id) (sync_all_jobs listed 9 (config ∷ []) old_timers).1
    ≡ "retention" ∷ "tenant-sync-c1" ∷ []
unfolding sync_all_jobs is_own
timers_kept = refl
