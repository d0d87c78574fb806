-- ===== src/Worker/Course.antt =====
-- How a run of `process_job` goes, and what each of its ends writes.
use integrado_web_xd.Prelude.{
  ℕ, ◌≡◌, sym, ◌∙◌, ap, String, false, Option, none, some, arith, if◌then◌else◌, ltb, ◌==◌,
  Option-cases, inl, inr,
}
use integrado_web_xd.Jobs.{Job, mark_done, mark_retry, mark_dead_letter, write_row}
use integrado_web_xd.Sales.{bulk_upsert}
use integrado_web_xd.Sales.Write.{rows_of}
use integrado_web_xd.Sales.Upsert.{rows_of-bulk_upsert}
use integrado_web_xd.Worker.{
  Server, Run, Failure, retry_policy, backoff_minutes, attempt, fail, complete,
}

-- The first thing that goes wrong in a run.
abbrev pub first_failure : Run → Option Failure
first_failure run = elim run.fetched [
  | some f ↦ some f
  | none ↦ elim run.stored [
    | some f ↦ some f
    | none ↦ elim run.delivered [ some f ↦ some f | none ↦ run.completed ]
  ]
]

-- The job after a failure: to be retried while attempts are left, or dead.
abbrev pub settle : Run → Job → Failure → Job → Job
settle run job f =
    if ltb job.attempts (retry_policy f).max_attempts
    then mark_retry run.now f.message (backoff_minutes (retry_policy f) job.attempts)
    else mark_dead_letter run.now f.message

-- The job after a run: done if nothing failed.
abbrev pub verdict : Run → Job → Option Failure → Job → Job
verdict run job none = mark_done run.now
verdict run job (some f) = settle run job f

abbrev pub outcome : Run → Job → Job → Job
outcome run job = verdict run job (first_failure run)

jobs-fail :
    (run : Run) (job : Job) (f : Failure) (s : Server)
    → (fail run job f s).jobs ≡ write_row job.id (settle run job f) s.jobs
unfolding fail
jobs-fail run job f s = ground arith

vendas-fail :
    (run : Run) (job : Job) (f : Failure) (s : Server) → (fail run job f s).vendas ≡ s.vendas
unfolding fail
vendas-fail run job f s = ground arith

-- The four ways in which a run fails, and the one in which it does not.
pub data Course (run : Run) (chunk_size : ℕ) (job : Job) (s : Server) : Type 0 where
  failed_before :
      (f : Failure)
      → first_failure run ≡ some f
      → attempt run chunk_size job s ≡ (fail run job f s, 0)
      → Course run chunk_size job s
  failed_after :
      (f : Failure)
      → first_failure run ≡ some f
      → attempt run chunk_size job s ≡ (
        fail run job f (record s {
          vendas =
              (bulk_upsert run.dialect job.empresa_id run.now run.records chunk_size s.vendas).0;
        }),
        0,
      )
      → Course run chunk_size job s
  finished :
      (inserted updated : ℕ)
      → first_failure run ≡ none
      → attempt run chunk_size job s ≡ (
        complete run job inserted updated (record s {
          vendas =
              (bulk_upsert run.dialect job.empresa_id run.now run.records chunk_size s.vendas).0;
        }),
        1,
      )
      → Course run chunk_size job s

pub course : (run : Run) (chunk_size : ℕ) (job : Job) (s : Server) → Course run chunk_size job s
unfolding attempt
course run c job s = elim (Option-cases run.fetched) [
  | inr (f, e) ↦ Course.failed_before f (ground arith) (ground arith)
  | inl e ↦ elim (Option-cases run.stored) [
    | inr (f, e2) ↦ Course.failed_before f (ground arith) (ground arith)
    | inl e2 ↦ elim (Option-cases run.delivered) [
      | inr (f, e3) ↦ Course.failed_after f (ground arith) (ground arith)
      | inl e3 ↦ elim (Option-cases run.completed) [
        | inr (f, e4) ↦ Course.failed_after f (ground arith) (ground arith)
        | inl e4 ↦
            let r = bulk_upsert run.dialect job.empresa_id run.now run.records c s.vendas in
            Course.finished r.1 r.2 (ground arith) (ground arith)
      ]
    ]
  ]
]

module _ (run : Run) (c : ℕ) (job : Job) (s : Server) where
  pub jobs-attempt : (attempt run c job s).0.jobs ≡ write_row job.id (outcome run job) s.jobs
  jobs-attempt = elim (course run c job s) [
    | Course.failed_before f e r ↦ rw r (jobs-fail run job f s ∙ settled (sym e))
    | Course.failed_after f e r ↦ rw r (rw (jobs-fail run job f) (settled (sym e)))
    | Course.finished i u e r ↦ rw r (unfold complete in settled (sym e))
  ]
    where
      settled :
          {o : Option Failure}
          → o ≡ first_failure run
          → write_row job.id (verdict run job o) s.jobs ≡ write_row job.id (outcome run job) s.jobs
      settled e = ap (λ o. write_row job.id (verdict run job o) s.jobs) e

  pub rows_of-attempt :
      (t : String)
      → (job.empresa_id == t) ≡ false
      → rows_of t (attempt run c job s).0.vendas ≡ rows_of t s.vendas
  rows_of-attempt t h =
      let upserted =
        rows_of-bulk_upsert run.dialect job.empresa_id run.now run.records c s.vendas t h in
      elim (course run c job s) [
        | Course.failed_before f e r ↦ rw (r, vendas-fail run job f s)
        | Course.failed_after f e r ↦ rw r (rw (vendas-fail run job f) upserted)
        | Course.finished i u e r ↦ rw r (unfold complete in upserted)
      ]
