-- ===== src/Jobs/Retry.antt =====
-- backend/services/tenant_job_service.py: a tenant puts a job that failed back into the queue.
use integrado_web_xd.Prelude.{
  ℕ, ◌≡◌, refl, sym, ◌∙◌, ap, arith, String, Bool, true, false, not, none, some, List, [], ◌∷◌,
  if◌then◌else◌, ◌==◌, eq_iff, keep, first_where, update_first, on_if, on_option, Bool-cases, ◌⊎◌,
  inl, inr,
}
use integrado_web_xd.Http.{Reply, accepted, http_error}
use integrado_web_xd.Access.{validate_empresa_id}
use integrado_web_xd.Jobs.{Job, dead_letter, failed, requeue_job}

abbrev pub has_id : String → Job → Bool
has_id job_id j = j.id == job_id

-- `job.status in {"dead_letter", "failed"}`
abbrev pub is_retriable : Job → Bool
is_retriable j = elim j.status [ dead_letter ↦ true | failed ↦ true | _ ↦ false ]

unfoldable pub retry_job : ℕ → String → String → List Job → List Job × Reply Job
unfolding validate_empresa_id requeue_job
retry_job now empresa_id job_id jobs =
    if not (validate_empresa_id empresa_id)
    then (jobs, http_error 400 "empresa_id invalido.")
    else elim (first_where (has_id job_id) jobs) [
      | none ↦ (jobs, http_error 404 "Job nao encontrado.")
      | some job ↦
          if not (job.empresa_id == empresa_id)
          then (jobs, http_error 404 "Job nao encontrado.")
          else if not (is_retriable job)
          then (
            jobs,
            http_error 400 "Somente jobs falhos ou em dead letter podem ser reenfileirados.",
          )
          else (update_first (has_id job_id) (requeue_job now) jobs, accepted (requeue_job now job))
    ]

keep-update_first :
    (q p : Job → Bool) (f : Job → Job) (js : List Job) (j : Job)
    → first_where p js ≡ some j
    → q j ≡ false
    → q (f j) ≡ false
    → keep q (update_first p f js) ≡ keep q js
keep-update_first q p f [] j e h k = refl
keep-update_first q p f (x ∷ js) j e h k = elim (Bool-cases (p x)) [
  | inl t ↦
      let same : x ≡ j = ground (arith, e, t) in
      let before : q x ≡ false = ap q same ∙ h in
      let after : q (f x) ≡ false = ap (λ y. q (f y)) same ∙ k in ground (arith, t, before, after)
  | inr n ↦ ground (arith, n, keep-update_first q p f js j (ground (arith, e, n)) h k)
]

first-update_first :
    (p : Job → Bool) (f : Job → Job) (js : List Job) (j : Job)
    → p (f j) ≡ true
    → first_where p js ≡ some j
    → first_where p (update_first p f js) ≡ some (f j)
first-update_first p f [] j k e = ground (arith, e)
first-update_first p f (x ∷ js) j k e = elim (Bool-cases (p x)) [
  | inl t ↦
      let same : x ≡ j = ground (arith, e, t) in
      let after : p (f x) ≡ true = ap (λ y. p (f y)) same ∙ k in ground (arith, t, after, ap f same)
  | inr n ↦ ground (arith, n, first-update_first p f js j k (ground (arith, e, n)))
]

first-holds : (p : Job → Bool) (js : List Job) (j : Job) → first_where p js ≡ some j → p j ≡ true
first-holds p [] j e = ground (arith, e)
first-holds p (x ∷ js) j e = elim (Bool-cases (p x)) [
  | inl t ↦ let same : x ≡ j = ground (arith, e, t) in ap p (sym same) ∙ t
  | inr n ↦ first-holds p js j (ground (arith, e, n))
]

id-requeue_job : (now : ℕ) (j : Job) → (requeue_job now j).id ≡ j.id
unfolding requeue_job
id-requeue_job now j = refl

module _ (now : ℕ) (empresa_id job_id : String) (jobs : List Job) where
  abbrev pub IsRefused : List Job × Reply Job → Type 0
  IsRefused r = (code : ℕ) × (detail : String) × (r ≡ (jobs, http_error code detail))

  abbrev pub IsRequeued : List Job × Reply Job → Type 0
  IsRequeued r =
      (job : Job) × (first_where (has_id job_id) jobs ≡ some job)
      × (job.empresa_id ≡ empresa_id)
      × (is_retriable job ≡ true)
      × (r.1 ≡ accepted (requeue_job now job))
      × (first_where (has_id job_id) r.0 ≡ some (requeue_job now job))
      × (keep (λ j. not (has_id job_id j)) r.0 ≡ keep (λ j. not (has_id job_id j)) jobs)

  -- A retry is refused and changes nothing, or it puts the job of the id back: a job of the tenant that
  -- failed or is a dead letter is then pending again, as requeue_job makes it, and the others stay.
  pub retry_job-result :
      IsRefused (retry_job now empresa_id job_id jobs)
      ⊎ IsRequeued (retry_job now empresa_id job_id jobs)
  unfolding retry_job
  retry_job-result =
      on_if P (not (validate_empresa_id empresa_id)) _ _ (λ t. inl (_, _, refl))
        (λ valid.
          on_option P (first_where (has_id job_id) jobs) _ _ (λ n. inl (_, _, refl))
            (λ job found.
              on_if P (not (job.empresa_id == empresa_id)) _ _ (λ t. inl (_, _, refl))
                (λ own.
                  on_if P (not (is_retriable job)) _ _ (λ t. inl (_, _, refl))
                    (λ again. inr (
                      requeued job found (ground (arith, eq_iff job.empresa_id empresa_id, own))
                        (ground (arith, again)))))))
    where
      P : List Job × Reply Job → Type 0
      P r = IsRefused r ⊎ IsRequeued r

      requeued :
          (job : Job)
          → first_where (has_id job_id) jobs ≡ some job
          → job.empresa_id ≡ empresa_id
          → is_retriable job ≡ true
          → IsRequeued
              (update_first (has_id job_id) (requeue_job now) jobs, accepted (requeue_job now job))
      requeued job found own again =
          let named : has_id job_id job ≡ true = first-holds (has_id job_id) jobs job found in
          let kept : has_id job_id (requeue_job now job) ≡ true =
            ap (λ i. i == job_id) (id-requeue_job now job) ∙ named in
          (
            job,
            found,
            own,
            again,
            refl,
            first-update_first (has_id job_id) (requeue_job now) jobs job kept found,
            keep-update_first (λ j. not (has_id job_id j)) (has_id job_id) (requeue_job now) jobs
                job found (ap not named) (ap not kept),
          )
