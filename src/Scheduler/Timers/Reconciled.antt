-- ===== src/Scheduler/Timers/Reconciled.antt =====
-- The timers after `sync_all_jobs`.
use integrado_web_xd.Prelude.{
  ℕ, ◌≡◌, refl, sym, ◌∙◌, arith, String, Bool, not, ◌&&◌, Option, none, some, is_some, List, [],
  ◌∷◌, map, keep, any, if◌then◌else◌, ◌==◌, eq_iff, subst, Bool-cases, inl, inr,
}
use integrado_web_xd.Worker.{SourceConfig}
use integrado_web_xd.Scheduler.Timers.{
  Timer, AsyncIoScheduler, job_id, is_own, timer_of, schedule_all, remove_stale, sync_all_jobs,
}

-- The timer of an active configuration, the last one of equal ids.
abbrev pub wanted : String → List SourceConfig → Option Timer
wanted id [] = none
wanted id (c ∷ cs) = elim (wanted id cs) [
  | some t ↦ some t
  | none ↦ (if c.ativo && job_id c.id == id then some (timer_of c) else none)
]

abbrev pub or_first : Option Timer → Option Timer → Option Timer
or_first none b = b
or_first (some t) b = some t

wanted-any :
    (id : String) (cs : List SourceConfig)
    → any (λ a. a == id) (map (λ c. job_id c.id) (keep (λ c. c.ativo) cs)) ≡ is_some (wanted id cs)
wanted-any id [] = refl
wanted-any id (c ∷ cs) = ground (arith, wanted-any id cs)

module _ (scheduler : AsyncIoScheduler) where
  get_job-schedule_all :
      (id : String) (cs : List SourceConfig) (timers : scheduler.Timers)
      → scheduler.get_job id (schedule_all scheduler (keep (λ c. c.ativo) cs) timers)
        ≡ or_first (wanted id cs) (scheduler.get_job id timers)
  unfolding schedule_all
  get_job-schedule_all id [] timers = refl
  get_job-schedule_all id (c ∷ cs) timers = ground (
    arith,
    get_job-schedule_all id cs timers,
    get_job-schedule_all id cs (scheduler.add_job (timer_of c) timers),
    scheduler.get_job-add_job id (timer_of c) timers,
  )

  abbrev is_stale : List String → String → Bool
  is_stale active id = is_own id && not (any (λ a. a == id) active)

  abbrev without : List String → String → scheduler.Timers → scheduler.Timers
  without active i timers = if is_stale active i then scheduler.remove_job i timers else timers

  get_job-without :
      (id i : String) (active : List String) (timers : scheduler.Timers)
      → scheduler.get_job id (without active i timers)
        ≡ (if i == id && is_stale active id then none else scheduler.get_job id timers)
  get_job-without id i active timers = elim (Bool-cases (i == id)) [
    | inl t ↦
        let same : id ≡ i = ground (arith, t, eq_iff i id) in
        subst
          (λ k.
            scheduler.get_job k (without active i timers)
            ≡ (if i == k && is_stale active k then none else scheduler.get_job k timers))
          (sym same) (ground (arith, eq_iff i i, scheduler.get_job-remove_job i i timers))
    | inr f ↦ ground (arith, f, scheduler.get_job-remove_job id i timers)
  ]

  get_job-remove_stale :
      (id : String) (active ids : List String) (timers : scheduler.Timers)
      → scheduler.get_job id (remove_stale scheduler active ids timers) ≡ (
          if any (λ i. i == id) ids && (is_own id && not (any (λ a. a == id) active))
          then none
          else scheduler.get_job id timers)
  unfolding remove_stale
  get_job-remove_stale id active [] timers = refl
  get_job-remove_stale id active (i ∷ ids) timers = ground (
    arith,
    get_job-remove_stale id active ids (without active i timers),
    get_job-without id i active timers,
  )

  -- After `sync_all_jobs` the timers are those that the active configurations want, with their intervals
  -- and next times: of the timers `tenant-sync-...` no other is left, and the timers of other names are
  -- as they were.
  pub get_job-sync_all_jobs :
      (now : ℕ) (configs : List SourceConfig) (timers : scheduler.Timers) (id : String)
      → scheduler.get_job id (sync_all_jobs scheduler now configs timers).1
        ≡ elim (wanted id configs) [
          | some t ↦ some t
          | none ↦ (if is_own id then none else scheduler.get_job id timers)
        ]
  unfolding sync_all_jobs
  get_job-sync_all_jobs now configs timers id =
      let with_active = schedule_all scheduler (keep (λ c. c.ativo) configs) timers in
      get_job-remove_stale id (map (λ c. job_id c.id) (keep (λ c. c.ativo) configs))
        (scheduler.get_jobs with_active) with_active
      ∙ ground (
        arith,
        scheduler.get_jobs_lem id with_active,
        wanted-any id configs,
        get_job-schedule_all id configs timers,
      )
