-- ===== src/Jobs/Select/Kept.antt =====
-- A round seen from one tenant: what it takes, what it leaves, and when it passes the tenant over.
use integrado_web_xd.Prelude.{
  ℕ, suc, ◌+◌, ◌≤◌, ◌<◌, ◌≡◌, refl, sym, inl, inr, String, Bool, true, List, [], ◌∷◌, ◌++◌, arith,
  ◌==◌, eq_iff, length, length-append, keep-append, append_assoc, append-nil, Bool-cases,
  if◌then◌else◌, ◌∙◌, subst,
}
use integrado_web_xd.Jobs.{Job}
use integrado_web_xd.Jobs.Select.{Bucket, Round, round, popped, behind}
use integrado_web_xd.Jobs.Select.Visit.{Visit, visit}
use integrado_web_xd.Jobs.Select.Buckets.{
  is_of, of_tenant, is_absent, queue, quota, IsGrouped, queue_absent,
}

-- Taking one job from a bucket changes what is selected of that bucket's tenant only.
of_tenant-snoc :
    (t : String) (selected : List Job) (job : Job)
    → of_tenant t (selected ++ job ∷ [])
      ≡ (if is_of t job then of_tenant t selected ++ job ∷ [] else of_tenant t selected)
of_tenant-snoc t selected job =
    ground (arith, keep-append (is_of t) selected (job ∷ []), append-nil (of_tenant t selected))

-- What a round keeps of one tenant `t`.
pub record Kept (t : String) (per : ℕ) (selected : List Job) (bs : List Bucket) (r : Round)
    : Type 0 where
  pub jobs : of_tenant t r.selected ++ queue t r.buckets ≡ of_tenant t selected ++ queue t bs
  pub count :
      length (of_tenant t r.selected) + quota t bs
      ≡ length (of_tenant t selected) + quota t r.buckets
  pub absent : is_absent t r.buckets ≡ is_absent t bs
  pub most : quota t r.buckets ≤ suc (quota t bs)
  pub least : quota t bs ≤ quota t r.buckets
  pub capped : quota t bs ≤ per → quota t r.buckets ≤ per

pub Kept-absent :
    (t : String) (per : ℕ) (selected : List Job) (bs : List Bucket) (r : Round)
    → Kept t per selected bs r
    → is_absent t bs ≡ true
    → of_tenant t r.selected ≡ of_tenant t selected
Kept-absent t per selected bs r k h =
    sym (append-nil _)
    ∙ rw (queue_absent t bs h, queue_absent t r.buckets (k.absent ∙ h)) at k.jobs
    ∙ append-nil _

absent_at :
    (t : String) (b : Bucket) (bs : List Bucket)
    → is_absent b.tenant bs ≡ true
    → (b.tenant == t) ≡ true
    → is_absent t bs ≡ true
absent_at t b bs h e = subst (λ u. is_absent u bs ≡ true) ((eq_iff b.tenant t).0 e) h

is_of_at :
    (t : String) (b : Bucket) (job : Job)
    → is_of b.tenant job ≡ true
    → is_of t job ≡ (b.tenant == t)
is_of_at t b job h =
    ground (arith, eq_iff job.empresa_id b.tenant, eq_iff job.empresa_id t, eq_iff b.tenant t)

module _ (t : String) (per : ℕ) (selected : List Job) (b : Bucket) (bs : List Bucket) (r : Round)
    (apart : is_absent b.tenant bs ≡ true) where
  Kept-behind : Kept t per selected bs r → Kept t per selected (b ∷ bs) (behind b r)
  Kept-behind k = elim (Bool-cases (b.tenant == t)) [
    | inl own ↦
        let same = Kept-absent t per selected bs r k (absent_at t b bs apart own) in
        record {
          jobs = rw (same, own);
          count = rw (same, own);
          absent = rw own;
          most = rw own (omega arith);
          least = rw own (omega arith);
          capped = rw own (λ h. h);
        }
    | inr other ↦ record {
      jobs = rw other k.jobs;
      count = rw other k.count;
      absent = rw other k.absent;
      most = rw other k.most;
      least = rw other k.least;
      capped = rw other k.capped;
    }
  ]

  module _ (job : Job) (rest : List Job) (e : b.jobs ≡ job ∷ rest) (room : b.taken < per)
      (its : is_of b.tenant job ≡ true) where
    Kept-popped :
        Kept t per (selected ++ job ∷ []) bs r
        → Kept t per selected (b ∷ bs) (behind (popped b rest) r)
    Kept-popped k = elim (Bool-cases (b.tenant == t)) [
      | inl own ↦
          let same =
            Kept-absent t per (selected ++ job ∷ []) bs r k (absent_at t b bs apart own)
            ∙ of_tenant-snoc t selected job in
          record {
            jobs =
                rw (same, is_of_at t b job its, own, e)
                  (append_assoc (of_tenant t selected) (job ∷ []) rest);
            count =
                rw (same, is_of_at t b job its, own)
                  (omega (arith, length-append (of_tenant t selected) (job ∷ [])));
            absent = rw own;
            most = rw own (omega arith);
            least = rw own (omega arith);
            capped = rw own (λ h. omega arith);
          }
      | inr other ↦
          let same : of_tenant t (selected ++ job ∷ []) ≡ of_tenant t selected =
            rw (of_tenant-snoc t selected job, is_of_at t b job its, other) in
          record {
            jobs = rw other (rw same at k.jobs);
            count = rw other (rw same at k.count);
            absent = rw other k.absent;
            most = rw other k.most;
            least = rw other k.least;
            capped = rw other k.capped;
          }
    ]

module _ (t : String) (limit per : ℕ) where
  pub round-Kept :
      (selected : List Job) (p : Bool) (bs : List Bucket)
      → IsGrouped bs
      → Kept t per selected bs (round limit per selected p bs)
  round-Kept selected p [] g =
      unfold round in
      record {
        jobs = refl;
        count = refl;
        absent = refl;
        most = omega arith;
        least = omega arith;
        capped = λ h. h;
      }
  round-Kept selected p (b ∷ bs) g = elim (visit limit per selected p b bs) [
    | Visit.skipped _ e ↦
        rw e (Kept-behind t per selected b bs _ g.1 (round-Kept selected p bs g.2))
    | Visit.last job rest e room _ f ↦ rw f (
        Kept-popped t per selected b bs
          (record { selected = selected ++ job ∷ []; buckets = bs; progressed = true }) g.1 job rest
          e room (ground (arith))
          (record {
            jobs = refl;
            count = refl;
            absent = refl;
            most = omega arith;
            least = omega arith;
            capped = λ h. h;
          }))
    | Visit.taken job rest e room _ f ↦ rw f (
        Kept-popped t per selected b bs _ g.1 job rest e room (ground arith)
          (round-Kept (selected ++ job ∷ []) true bs g.2))
  ]
