-- ===== src/Jobs/Select/Rounds.antt =====
-- How a round ends: complete for every tenant, without progress, or at the limit.
use integrado_web_xd.Prelude.{
  ℕ, suc, ◌≤◌, ◌<◌, ◌≡◌, refl, ◌⊎◌, inl, inr, String, Bool, true, false, List, [], ◌∷◌, ◌++◌, arith,
  ◌==◌, length, length-append, Bool-cases, ◌∙◌, ap,
}
use integrado_web_xd.Jobs.{Job}
use integrado_web_xd.Jobs.Select.{Bucket, Round, round}
use integrado_web_xd.Jobs.Select.Visit.{Visit, visit}
use integrado_web_xd.Jobs.Select.Buckets.{queue, quota, IsGrouped}
use integrado_web_xd.Jobs.Select.Kept.{round-Kept}

-- A tenant whose bucket is empty, or from whom the limit per tenant was taken.
abbrev pub IsIdle : String → ℕ → List Bucket → Type 0
IsIdle t per bs = (per ≤ quota t bs) ⊎ (queue t bs ≡ [])

module _ (limit per : ℕ) where
  pub round-IsGrouped :
      (selected : List Job) (p : Bool) (bs : List Bucket)
      → IsGrouped bs
      → IsGrouped (round limit per selected p bs).buckets
  round-IsGrouped selected p [] g = unfold round in tt
  round-IsGrouped selected p (b ∷ bs) g = elim (visit limit per selected p b bs) [
    | Visit.skipped _ e ↦ rw e (
      g.0,
      (round-Kept b.tenant limit per selected p bs g.2).absent ∙ g.1,
      round-IsGrouped selected p bs g.2,
    )
    | Visit.last job rest e _ _ f ↦ rw f (ground arith, g.1, g.2)
    | Visit.taken job rest e _ _ f ↦ rw f (
      ground arith,
      (round-Kept b.tenant limit per (selected ++ job ∷ []) true bs g.2).absent ∙ g.1,
      round-IsGrouped (selected ++ job ∷ []) true bs g.2,
    )
  ]

  pub length-le-round :
      (selected : List Job) (p : Bool) (bs : List Bucket)
      → length selected ≤ length (round limit per selected p bs).selected
  length-le-round selected p [] = unfold round in omega arith
  length-le-round selected p (b ∷ bs) = elim (visit limit per selected p b bs) [
    | Visit.skipped _ e ↦ rw e (length-le-round selected p bs)
    | Visit.last job rest _ _ _ f ↦ rw f (omega (arith, length-append selected (job ∷ [])))
    | Visit.taken job rest _ _ _ f ↦ rw f (
        omega (
          arith,
          length-append selected (job ∷ []),
          length-le-round (selected ++ job ∷ []) true bs,
        ))
  ]

  -- A round that says that it went on has selected a job.
  pub length-lt-round :
      (selected : List Job) (bs : List Bucket)
      → (round limit per selected false bs).progressed ≡ true
      → length selected < length (round limit per selected false bs).selected
  unfolding round
  length-lt-round selected [] h = cc h
  length-lt-round selected (b ∷ bs) h = elim (visit limit per selected false b bs) [
    | Visit.skipped _ e ↦ rw e (length-lt-round selected bs (rw e at h))
    | Visit.last job rest _ _ _ f ↦ rw f (omega (arith, length-append selected (job ∷ [])))
    | Visit.taken job rest _ _ _ f ↦ rw f (
        omega (
          arith,
          length-append selected (job ∷ []),
          length-le-round (selected ++ job ∷ []) true bs,
        ))
  ]

  progressed-round :
      (selected : List Job) (bs : List Bucket)
      → (round limit per selected true bs).progressed ≡ true
  progressed-round selected [] = unfold round in refl
  progressed-round selected (b ∷ bs) = elim (visit limit per selected true b bs) [
    | Visit.skipped _ e ↦ rw e (progressed-round selected bs)
    | Visit.last job rest _ _ _ f ↦ rw f refl
    | Visit.taken job rest _ _ _ f ↦ rw f (progressed-round (selected ++ job ∷ []) bs)
  ]

  -- A round without progress has changed nothing, and found every tenant idle.
  pub record Stuck (chosen : List Job) (bs : List Bucket) (r : Round) : Type 0 where
    pub same_selected : r.selected ≡ chosen
    pub same_buckets : r.buckets ≡ bs
    pub idle : (t : String) → IsIdle t per bs

  pub round-Stuck :
      (chosen : List Job) (bs : List Bucket)
      → (round limit per chosen false bs).progressed ≡ false
      → Stuck chosen bs (round limit per chosen false bs)
  round-Stuck chosen [] h =
      unfold round in record { same_selected = refl; same_buckets = refl; idle = λ t. inr refl }
  round-Stuck chosen (b ∷ bs) h = elim (visit limit per chosen false b bs) [
    | Visit.skipped why e ↦
        let k = round-Stuck chosen bs (rw e at h) in
        rw e (record {
          same_selected = k.same_selected;
          same_buckets = ap (λ l. b ∷ l) k.same_buckets;
          idle = λ t. elim (Bool-cases (b.tenant == t)) [
            | inl own ↦ rw own (elim why [ inl full ↦ inl (ground arith) | inr empty ↦ inr empty ])
            | inr other ↦ rw other (k.idle t)
          ];
        })
    | Visit.last job rest _ _ _ f ↦ absurd (cc (rw f at h))
    | Visit.taken job rest _ _ _ f ↦
        absurd (cc (rw f at h, progressed-round (chosen ++ job ∷ []) bs))
  ]

  -- A round that stops before the limit has taken one job from every tenant that was not idle.
  pub round_complete :
      (t : String) (chosen : List Job) (p : Bool) (bs : List Bucket)
      → length (round limit per chosen p bs).selected < limit
      → (quota t (round limit per chosen p bs).buckets ≡ suc (quota t bs)) ⊎ IsIdle t per bs
  round_complete t chosen p [] h = inr (inr refl)
  round_complete t chosen p (b ∷ bs) h = elim (visit limit per chosen p b bs) [
    | Visit.skipped why e ↦ elim (Bool-cases (b.tenant == t)) [
      | inl own ↦ rw own (inr (elim why [ inl full ↦ inl (ground arith) | inr empty ↦ inr empty ]))
      | inr other ↦ rw (e, other) (round_complete t chosen p bs (rw e at h))
    ]
    | Visit.last job rest _ _ full f ↦
        absurd
          (omega (arith, ap (λ (r : Round). length r.selected) f, length-append chosen (job ∷ [])))
    | Visit.taken job rest _ _ _ f ↦ elim (Bool-cases (b.tenant == t)) [
      | inl own ↦ rw (f, own) (inl (omega arith))
      | inr other ↦ rw (f, other) (round_complete t (chosen ++ job ∷ []) true bs (rw f at h))
    ]
  ]
