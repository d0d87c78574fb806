-- ===== src/Jobs/Tests.antt =====
-- Small queues: what the selection takes, and the theorems applied to them.
use integrado_web_xd.Prelude.{
  ℕ, ◌≤◌, ◌≡◌, refl, String, ◌⊎◌, min, suc, some, List, [], ◌∷◌, ◌++◌, map, arith, length,
}
use integrado_web_xd.Jobs.{
  Job, create, mark_processing, mark_done, mark_dead_letter, requeue_job, release, lease_expired,
}
use integrado_web_xd.Http.{accepted}
use integrado_web_xd.Jobs.Retry.{retry_job, retry_job-result, IsRefused, IsRequeued}
use integrado_web_xd.Jobs.Lifecycle.{Reachable, Step, IsConsistent, Reachable-IsConsistent}
use integrado_web_xd.Jobs.Select.{select_rows}
use integrado_web_xd.Jobs.Select.Buckets.{of_tenant}
use integrado_web_xd.Jobs.Select.Fair.{
  length-select_rows-le, select_rows-tenant, select_rows_exhaustive, select_rows_balanced,
}

abbrev job : String → String → ℕ → Job
job id empresa at = create id empresa "cfg" "{}" at at

abbrev queue : List Job
queue = job "1" "a" 1 ∷ job "2" "a" 2 ∷ job "3" "a" 3 ∷ job "4" "b" 4 ∷ []

select_rows_runs : map (λ j. j.id) (select_rows 3 2 queue) ≡ "1" ∷ "4" ∷ "2" ∷ []
unfolding select_rows create
select_rows_runs = refl

length-select_rows-le_example : length (select_rows 3 2 queue) ≤ 3
length-select_rows-le_example = length-select_rows-le 3 2 queue

select_rows-tenant_example :
    (length (of_tenant "a" (select_rows 3 2 queue)) ≤ 2)
    × ((rest : List Job) × (of_tenant "a" (select_rows 3 2 queue) ++ rest ≡ of_tenant "a" queue))
select_rows-tenant_example = select_rows-tenant 3 2 queue (omega arith) "a"

select_rows_below : suc (length (select_rows 9 2 queue)) ≤ 9
unfolding select_rows create
select_rows_below = omega arith

select_rows_exhaustive_example :
    length (of_tenant "a" (select_rows 9 2 queue)) ≡ min 2 (length (of_tenant "a" queue))
select_rows_exhaustive_example =
    select_rows_exhaustive 9 2 queue (omega arith) "a" select_rows_below

select_rows_balanced_example :
    (length (of_tenant "a" (select_rows 3 2 queue))
      ≤ suc (length (of_tenant "b" (select_rows 3 2 queue))))
    ⊎ (of_tenant "b" (select_rows 3 2 queue) ≡ of_tenant "b" queue)
select_rows_balanced_example = select_rows_balanced 3 2 queue (omega arith) "b" "a"

-- A worker whose lease has expired ends a job that another one has buried.
abbrev ended_late : Job
ended_late = mark_done 9 (
    mark_dead_letter 8 "timeout" (
      mark_processing 7 (some "w2") 15
        (release 5 (mark_processing 2 (some "w1") 0 (job "1" "a" 1)))))

ended_late-Reachable : Reachable ended_late
unfolding create mark_processing release lease_expired
ended_late-Reachable =
    Reachable.next
      (Reachable.next
        (Reachable.next
          (Reachable.next
            (Reachable.next (Reachable.created "1" "a" "cfg" "{}" 1 1) (Step.leased 2 0 "w1" refl))
            (Step.expired 5 refl))
          (Step.leased 7 15 "w2" refl))
        (Step.buried 8 "timeout"))
      (Step.completed 9)

-- Such a job is done, and has the time of its burial.
ended_late_runs : ended_late.dead_letter_at ≡ some 8
unfolding mark_dead_letter mark_done
ended_late_runs = refl

Reachable-IsConsistent_example : IsConsistent ended_late
Reachable-IsConsistent_example = Reachable-IsConsistent ended_late-Reachable

abbrev buried : Job
buried = mark_dead_letter 8 "erro" (job "2" "a11" 1)

retry_job-result_example :
    IsRefused 9 "a11" "2"
      (job "1" "b" 1 ∷ buried ∷ [])
      (retry_job 9 "a11" "2" (job "1" "b" 1 ∷ buried ∷ []))
    ⊎ IsRequeued 9 "a11" "2"
        (job "1" "b" 1 ∷ buried ∷ [])
        (retry_job 9 "a11" "2" (job "1" "b" 1 ∷ buried ∷ []))
retry_job-result_example = retry_job-result 9 "a11" "2" (job "1" "b" 1 ∷ buried ∷ [])

retried : (retry_job 9 "a11" "2" (job "1" "b" 1 ∷ buried ∷ [])).1 ≡ accepted (requeue_job 9 buried)
unfolding retry_job create mark_dead_letter
retried = refl
