-- ===== src/Jobs/Select/Buckets.antt =====
-- The buckets of the selection: what grouping the rows gives, and what a round leaves of it.
use integrado_web_xd.Prelude.{
  ℕ, ◌≡◌, refl, sym, String, Bool, true, List, [], ◌∷◌, ◌++◌, ◌&&◌, not, arith, ◌==◌, eq_iff, keep,
  all, keep-append, append_assoc, append-nil, all-append, if◌then◌else◌, ◌∙◌, ap,
}
use integrado_web_xd.Jobs.{Job}
use integrado_web_xd.Jobs.Select.{Bucket, add_row, group}

abbrev pub is_of : String → Job → Bool
is_of t job = job.empresa_id == t

-- The jobs of one tenant, in order.
abbrev pub of_tenant : String → List Job → List Job
of_tenant t = keep (is_of t)

abbrev pub is_absent : String → List Bucket → Bool
is_absent t = all (λ b. not (b.tenant == t))

-- What is left of a tenant's jobs, and how many were taken.
abbrev pub queue : String → List Bucket → List Job
queue t [] = []
queue t (b ∷ bs) = let rest = queue t bs in if b.tenant == t then b.jobs else rest

abbrev pub quota : String → List Bucket → ℕ
quota t [] = 0
quota t (b ∷ bs) = let rest = quota t bs in if b.tenant == t then b.taken else rest

-- Each tenant has one bucket, and a bucket has only its tenant's jobs.
abbrev pub IsGrouped : List Bucket → Type 0
IsGrouped [] = Unit
IsGrouped (b ∷ bs) =
    (all (is_of b.tenant) b.jobs ≡ true) × (is_absent b.tenant bs ≡ true) × IsGrouped bs

pub queue_absent : (t : String) (bs : List Bucket) → is_absent t bs ≡ true → queue t bs ≡ []
queue_absent t [] h = refl
queue_absent t (b ∷ bs) h = ground (arith, queue_absent t bs)

pub quota_absent : (t : String) (bs : List Bucket) → is_absent t bs ≡ true → quota t bs ≡ 0
quota_absent t [] h = refl
quota_absent t (b ∷ bs) h = ground (arith, quota_absent t bs)

module _ (job : Job) where
  is_absent-add_row :
      (t : String) (bs : List Bucket)
      → is_absent t (add_row job bs) ≡ (is_absent t bs && not (is_of t job))
  unfolding add_row
  is_absent-add_row t [] = ground (arith, eq_iff job.empresa_id t)
  is_absent-add_row t (b ∷ bs) = ground (
    arith,
    is_absent-add_row t bs,
    eq_iff b.tenant t,
    eq_iff b.tenant job.empresa_id,
    eq_iff job.empresa_id t,
  )

  add_row-IsGrouped : (bs : List Bucket) → IsGrouped bs → IsGrouped (add_row job bs)
  unfolding add_row
  add_row-IsGrouped [] g = ground (arith, eq_iff job.empresa_id job.empresa_id)
  add_row-IsGrouped (b ∷ bs) g = ground (
    arith,
    add_row-IsGrouped bs,
    is_absent-add_row b.tenant bs,
    eq_iff b.tenant job.empresa_id,
    eq_iff job.empresa_id b.tenant,
    all-append (is_of b.tenant) b.jobs (job ∷ []),
  )

  queue-add_row :
      (t : String) (bs : List Bucket)
      → queue t (add_row job bs) ≡ queue t bs ++ of_tenant t (job ∷ [])
  unfolding add_row
  queue-add_row t [] = ground (arith)
  queue-add_row t (b ∷ bs) = ground (
    arith,
    queue-add_row t bs,
    eq_iff b.tenant job.empresa_id,
    eq_iff job.empresa_id t,
    eq_iff b.tenant t,
    append-nil b.jobs,
    append-nil (queue t bs),
  )

  quota-add_row : (t : String) (bs : List Bucket) → quota t (add_row job bs) ≡ quota t bs
  unfolding add_row
  quota-add_row t [] = ground arith
  quota-add_row t (b ∷ bs) = ground (arith, quota-add_row t bs)

-- Grouping files every row under its tenant, in the order of the rows.
pub group-IsGrouped :
    (bs : List Bucket) (rows : List Job) → IsGrouped bs → IsGrouped (group bs rows)
unfolding group
group-IsGrouped bs [] g = g
group-IsGrouped bs (job ∷ rows) g =
    group-IsGrouped (add_row job bs) rows (add_row-IsGrouped job bs g)

pub queue-group :
    (t : String) (bs : List Bucket) (rows : List Job)
    → queue t (group bs rows) ≡ queue t bs ++ of_tenant t rows
unfolding group
queue-group t bs [] = sym (append-nil _)
queue-group t bs (job ∷ rows) =
    queue-group t (add_row job bs) rows
    ∙ (rw (queue-add_row job t bs) (
        append_assoc (queue t bs) (of_tenant t (job ∷ [])) (of_tenant t rows)
        ∙ ap (λ l. queue t bs ++ l) (sym (keep-append (is_of t) (job ∷ []) rows))))

pub quota-group :
    (t : String) (bs : List Bucket) (rows : List Job) → quota t (group bs rows) ≡ quota t bs
unfolding group
quota-group t bs [] = refl
quota-group t bs (job ∷ rows) = quota-group t (add_row job bs) rows ∙ quota-add_row job t bs
