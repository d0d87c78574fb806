-- ===== src/Scheduler/Timers.antt =====
-- backend/services/tenant_sync_scheduler.py: `sync_all_jobs`, which brings the timers in line with the
-- configurations. The scheduler of APScheduler is an interface: what the code calls of it, with the
-- documented behaviour as laws.
pub mod Reconciled
use Prim.Native.String
use integrado_web_xd.Prelude.{
  ℕ, max, ◌≡◌, String, Bool, true, false, not, ◌&&◌, Option, none, some, is_some, List, [], ◌∷◌,
  map, keep, any, update_where, ltb, if◌then◌else◌, ◌==◌,
}
use integrado_web_xd.Prelude.Text.{codes, starts_with}
use integrado_web_xd.Jobs.{minutes}
use integrado_web_xd.Worker.{SourceConfig}
use integrado_web_xd.Scheduler.{next_run}

-- The arguments of `add_job` that differ between the timers; the timer runs `run_source_sync config_id`.
pub record Timer : Type 0 where
  pub id : String
  pub config_id : String
  pub interval_minutes : ℕ
  pub next_run_time : Option ℕ

pub record AsyncIoScheduler : Type 1 where
  pub Timers : Type 0
  pub get_job : String → Timers → Option Timer
  -- the ids of `get_jobs`
  pub get_jobs : Timers → List String
  -- `add_job` with `replace_existing`
  pub add_job : Timer → Timers → Timers
  pub remove_job : String → Timers → Timers
  pub get_jobs_lem :
      (id : String) (s : Timers) → any (λ i. i == id) (get_jobs s) ≡ is_some (get_job id s)
  pub get_job-add_job :
      (id : String) (t : Timer) (s : Timers)
      → get_job id (add_job t s) ≡ (if t.id == id then some t else get_job id s)
  pub get_job-remove_job :
      (id other : String) (s : Timers)
      → get_job id (remove_job other s) ≡ (if other == id then none else get_job id s)

abbrev pub job_id : String → String
job_id config_id = String.◌++◌ "tenant-sync-" config_id

unfoldable pub is_own : String → Bool
unfolding starts_with
is_own id = starts_with (codes "tenant-sync-") (codes id)

abbrev pub timer_of : SourceConfig → Timer
timer_of config = record {
  id = job_id config.id;
  config_id = config.id;
  interval_minutes = config.sync_interval_minutes;
  next_run_time = config.next_run_at;
}

abbrev is_late : ℕ → Option ℕ → Bool
is_late now none = true
is_late now (some t) = ltb t now

unfoldable pub scheduled : ℕ → SourceConfig → SourceConfig
scheduled now config = record config {
  last_scheduled_at = some now;
  next_run_at =
      if is_late now config.next_run_at then some (next_run now config) else config.next_run_at;
}

module _ (scheduler : AsyncIoScheduler) where
  unfoldable pub schedule_all : List SourceConfig → scheduler.Timers → scheduler.Timers
  schedule_all [] timers = timers
  schedule_all (config ∷ configs) timers =
      schedule_all configs (scheduler.add_job (timer_of config) timers)

  unfoldable pub remove_stale : List String → List String → scheduler.Timers → scheduler.Timers
  remove_stale active [] timers = timers
  remove_stale active (id ∷ ids) timers = remove_stale active ids (
      if is_own id && not (any (λ a. a == id) active)
      then scheduler.remove_job id timers
      else timers)

  unfoldable pub sync_all_jobs :
      ℕ → List SourceConfig → scheduler.Timers → List SourceConfig × scheduler.Timers
  unfolding scheduled schedule_all remove_stale
  sync_all_jobs now configs timers =
      let active_configs = keep (λ c. c.ativo) configs in
      let with_active = schedule_all active_configs timers in
      (
        update_where (λ c. c.ativo) (scheduled now) configs,
        remove_stale (map (λ c. job_id c.id) active_configs) (scheduler.get_jobs with_active)
            with_active,
      )
