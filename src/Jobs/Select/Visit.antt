-- ===== src/Jobs/Select/Visit.antt =====
-- A round of the selection, bucket by bucket, and the limit that it keeps.
use integrado_web_xd.Prelude.{
  ℕ, suc, ◌≤◌, ◌<◌, ◌≡◌, refl, ◌⊎◌, inl, inr, Bool, true, List, [], ◌∷◌, ◌++◌, arith, leb, length,
  length-append, Bool-cases,
}
use integrado_web_xd.Jobs.{Job}
use integrado_web_xd.Jobs.Select.{Bucket, Round, round, behind, popped}

-- What a round does at one bucket.
pub data Visit (limit per : ℕ) (selected : List Job) (p : Bool) (b : Bucket) (bs : List Bucket)
    (r : Round) : Type 0 where
  skipped :
      (leb per b.taken ≡ true) ⊎ (b.jobs ≡ [])
      → r ≡ behind b (round limit per selected p bs)
      → Visit limit per selected p b bs r
  last :
      (job : Job) (rest : List Job)
      → b.jobs ≡ job ∷ rest
      → b.taken < per
      → limit ≤ suc (length selected)
      → r ≡ record {
        selected = selected ++ job ∷ [];
        buckets = popped b rest ∷ bs;
        progressed = true;
      }
      → Visit limit per selected p b bs r
  taken :
      (job : Job) (rest : List Job)
      → b.jobs ≡ job ∷ rest
      → b.taken < per
      → suc (length selected) < limit
      → r ≡ behind (popped b rest) (round limit per (selected ++ job ∷ []) true bs)
      → Visit limit per selected p b bs r

pub visit :
    (limit per : ℕ) (selected : List Job) (p : Bool) (b : Bucket) (bs : List Bucket)
    → Visit limit per selected p b bs (round limit per selected p (b ∷ bs))
unfolding round
visit limit per selected p b bs = elim (Bool-cases (leb per b.taken)) [
  | inl full ↦ Visit.skipped (inl full) (rw full)
  | inr room ↦ go b.jobs refl (ground arith)
]
  where
    go :
        (jobs : List Job)
        → b.jobs ≡ jobs
        → b.taken < per
        → Visit limit per selected p b bs (round limit per selected p (b ∷ bs))
    go [] e room = Visit.skipped (inr e) (ground arith)
    go (job ∷ rest) e room = elim (Bool-cases (leb limit (length (selected ++ job ∷ [])))) [
      | inl full ↦
          Visit.last job rest e room (ground (arith, length-append selected (job ∷ [])))
            (ground arith)
      | inr more ↦
          Visit.taken job rest e room (ground (arith, length-append selected (job ∷ [])))
            (ground arith)
    ]

-- A round never passes the limit.
pub length-round :
    (limit per : ℕ) (selected : List Job) (p : Bool) (bs : List Bucket)
    → length selected < limit
    → length (round limit per selected p bs).selected ≤ limit
length-round limit per selected p [] h = unfold round in omega arith
length-round limit per selected p (b ∷ bs) h = elim (visit limit per selected p b bs) [
  | Visit.skipped _ e ↦ rw e (length-round limit per selected p bs h)
  | Visit.last job rest _ _ _ e ↦ rw e (omega (arith, length-append selected (job ∷ [])))
  | Visit.taken job rest _ _ more e ↦ rw e (
      length-round limit per (selected ++ job ∷ []) true bs
        (omega (arith, length-append selected (job ∷ []))))
]
