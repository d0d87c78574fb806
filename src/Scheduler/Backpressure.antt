-- ===== src/Scheduler/Backpressure.antt =====
-- The limit of pending jobs of a tenant.
use integrado_web_xd.Prelude.{
  ℕ, ◌+◌, ◌≤◌, max, ◌≡◌, String, true, not, some, List, [], ◌∷◌, ◌++◌, arith, leb, if◌then◌else◌,
  ◌==◌, eq_iff, on_if, on_option, count-append,
}
use integrado_web_xd.Jobs.{Job, create, get_pending_count, is_pending_of}
use integrado_web_xd.Worker.{Server, SourceConfig, find_config}
use integrado_web_xd.Scheduler.{skip, enqueue, run_source_sync}

get_pending_count-append :
    (t e : String) (xs : List Job) (id config payload : String) (at now : ℕ)
    → get_pending_count t (xs ++ create id e config payload at now ∷ [])
      ≡ (if e == t then get_pending_count t xs + 1 else get_pending_count t xs)
unfolding get_pending_count create
get_pending_count-append t e xs id config payload at now =
    ground (arith, count-append (is_pending_of t) xs (create id e config payload at now ∷ []))

module _ (limit now : ℕ) (job_id payload config_id : String) (s : Server) where
  -- The scheduler never takes the pending jobs of a tenant beyond the limit: after a run a tenant has
  -- at most the limit of them, or as many as before.
  pub get_pending_count-run_source_sync :
      (t : String)
      → get_pending_count t (run_source_sync limit now job_id payload config_id s).jobs
        ≤ max limit (get_pending_count t s.jobs)
  unfolding run_source_sync skip enqueue
  get_pending_count-run_source_sync t =
      on_option Bounded (find_config config_id s.configs) _ _ (λ missing. omega arith)
        (λ config found.
          on_if Bounded (not config.ativo) _ _ (λ idle. omega arith)
            (λ active.
              on_if Bounded (leb limit (get_pending_count config.empresa_id s.jobs)) _ _
                (λ full. omega arith)
                (λ room. ground (
                  arith,
                  get_pending_count-append t config.empresa_id s.jobs job_id config.id payload now
                      now,
                  eq_iff config.empresa_id t,
                ))))
    where
      Bounded : Server → Type 0
      Bounded s' = get_pending_count t s'.jobs ≤ max limit (get_pending_count t s.jobs)

  -- A run for an active configuration of a tenant below the limit puts exactly one job of that tenant
  -- into the queue, and a run at the limit none.
  run_source_sync-jobs :
      (config : SourceConfig)
      → find_config config_id s.configs ≡ some config
      → config.ativo ≡ true
      → (run_source_sync limit now job_id payload config_id s).jobs ≡ (
          if leb limit (get_pending_count config.empresa_id s.jobs)
          then s.jobs
          else s.jobs ++ create job_id config.empresa_id config.id payload now now ∷ [])
  unfolding run_source_sync skip enqueue
  run_source_sync-jobs config found active = ground arith
