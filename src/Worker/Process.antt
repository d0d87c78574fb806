-- ===== src/Worker/Process.antt =====
-- What a run of `process_job` leaves of its job, of the other jobs and of the other tenants.
use integrado_web_xd.Prelude.{
  ℕ, ◌≡◌, refl, ◌∙◌, ap, String, Bool, true, false, not, ◌&&◌, Option, none, some, List, [], ◌∷◌,
  arith, if◌then◌else◌, ◌==◌, eq_iff, all, Option-cases, inl, inr,
}
use mathlib.Core.Option
use mathlib.Core.Option.{some-injective}
use integrado_web_xd.Jobs.{
  Job, is_processing, mark_done, mark_retry, mark_dead_letter, write_row, get_by_id,
}
use integrado_web_xd.Sales.Write.{rows_of}
use integrado_web_xd.Worker.Course.{first_failure, verdict, outcome, jobs-attempt, rows_of-attempt}
use integrado_web_xd.Worker.{Server, Run, Failure, SourceConfig, find_config, process_job, attempt}

pub id-get_by_id :
    (job_id : String) (table : List Job) (job : Job)
    → get_by_id job_id table ≡ some job
    → (job.id == job_id) ≡ true
unfolding get_by_id
id-get_by_id job_id [] job h = cc
id-get_by_id job_id (j ∷ table) job h = ground (arith, id-get_by_id job_id table job)

-- The rows of a key after a write to it.
pub get_by_id-write_row :
    (id k : String) (f : Job → Job) (table : List Job)
    → ((j : Job) → (f j).id ≡ j.id)
    → get_by_id k (write_row id f table)
      ≡ (if id == k then Option.map f (get_by_id k table) else get_by_id k table)
unfolding get_by_id write_row
get_by_id-write_row id k f [] keeps = ground arith
get_by_id-write_row id k f (j ∷ table) keeps = ground (
  arith,
  get_by_id-write_row id k f table keeps,
  keeps j,
  eq_iff j.id id,
  eq_iff j.id k,
  eq_iff id k,
  eq_iff (f j).id k,
)

module _ (run : Run) (c : ℕ) (job_id : String) (s : Server) {job : Job} {config : SourceConfig}
    (found : get_by_id job_id s.jobs ≡ some job)
    (configured : find_config job.source_config_id s.configs ≡ some config) where
  pub process_job-attempt : process_job run c job_id s ≡ attempt run c job s
  unfolding process_job
  process_job-attempt = ground arith

  -- A run on a stored job with a source configuration writes to that job alone: it is done if
  -- nothing failed, waits for a retry if attempts are left for its kind of failure, and is a dead
  -- letter otherwise.
  pub process_job-outcome :
      (process_job run c job_id s).0.jobs ≡ write_row job_id (outcome run job) s.jobs
  process_job-outcome = rw process_job-attempt (
      jobs-attempt run c job s
      ∙ ap (λ k. write_row k (outcome run job) s.jobs)
          ((eq_iff job.id job_id).0 (id-get_by_id job_id s.jobs job found)))

  -- A run on a stored job with a source configuration leaves the sales of every tenant but the job's
  -- own as they are.
  pub process_job_isolation :
      (t : String)
      → (job.empresa_id == t) ≡ false
      → rows_of t (process_job run c job_id s).0.vendas ≡ rows_of t s.vendas
  process_job_isolation t h = rw process_job-attempt (rows_of-attempt run c job s t h)

-- No row of the key is in the state `processing`.
abbrev pub is_settled : String → Job → Bool
is_settled job_id j = not (j.id == job_id && is_processing j)

write_row-settled :
    (id : String) (f : Job → Job) (table : List Job)
    → ((j : Job) → is_processing (f j) ≡ false)
    → all (is_settled id) (write_row id f table) ≡ true
unfolding write_row
write_row-settled id f [] h = refl
write_row-settled id f (j ∷ table) h = ground (arith, write_row-settled id f table h, h j)

get_by_id-settled :
    (id : String) (table : List Job) → get_by_id id table ≡ none → all (is_settled id) table ≡ true
unfolding get_by_id
get_by_id-settled id [] h = refl
get_by_id-settled id (j ∷ table) h = ground (arith, get_by_id-settled id table)

verdict-settled :
    (run : Run) (job : Job) (o : Option Failure) (j : Job)
    → is_processing (verdict run job o j) ≡ false
unfolding mark_done mark_retry mark_dead_letter
verdict-settled run job none j = refl
verdict-settled run job (some f) j = ground arith

process_job-orphan :
    (run : Run) (c : ℕ) (job_id : String) (s : Server) (job : Job)
    → get_by_id job_id s.jobs ≡ some job
    → find_config job.source_config_id s.configs ≡ none
    → (process_job run c job_id s).0.jobs
      ≡ write_row job.id (mark_dead_letter run.now "source_config nao encontrado") s.jobs
unfolding process_job
process_job-orphan run c job_id s job found missing = ground arith

-- However a run ends, also one with no source configuration, no row of its job is left in the
-- state `processing`.
process_job-settled :
    (run : Run) (c : ℕ) (job_id : String) (s : Server)
    → all (is_settled job_id) (process_job run c job_id s).0.jobs ≡ true
process_job-settled run c job_id s = elim (Option-cases (get_by_id job_id s.jobs)) [
  | inl missing ↦
      unfold process_job in rw (missing, process_job) (get_by_id-settled job_id s.jobs missing)
  | inr (job, found) ↦
      let same = (eq_iff job.id job_id).0 (id-get_by_id job_id s.jobs job found) in
      elim (Option-cases (find_config job.source_config_id s.configs)) [
        | inr (config, configured) ↦ rw (process_job-outcome run c job_id s found configured) (
            write_row-settled job_id (outcome run job) s.jobs
              (verdict-settled run job (first_failure run)))
        | inl missing ↦
            rw (process_job-orphan run c job_id s job found missing, same)
              (write_row-settled job_id (mark_dead_letter run.now "source_config nao encontrado")
                s.jobs (λ j. unfold mark_dead_letter in refl))
      ]
]
