-- ===== src/Jobs/Select/Fair.antt =====
-- The loop of the selection, and what it promises to every tenant.
use integrado_web_xd.Prelude.{
  ℕ, zero, suc, ◌+◌, ◌≤◌, ◌<◌, min, ◌≡◌, refl, sym, ◌⊎◌, inl, inr, String, false, List, [], ◌∷◌,
  ◌++◌, arith, leb, nat_eq, length, length-append, length-take-le, Bool-cases, ◌∙◌, ap, append-nil,
}
use integrado_web_xd.Jobs.{Job}
use integrado_web_xd.Jobs.Select.{Bucket, Round, round, rounds, group, select_rows}
use integrado_web_xd.Jobs.Select.Buckets.{
  of_tenant, queue, quota, IsGrouped, group-IsGrouped, queue-group, quota-group,
}
use integrado_web_xd.Jobs.Select.Kept.{Kept, round-Kept}
use integrado_web_xd.Jobs.Select.Visit.{length-round}
use integrado_web_xd.Jobs.Select.Rounds.{
  IsIdle, round-IsGrouped, length-lt-round, round-Stuck, round_complete,
}

length-zero {ℓ} : {A : Type ℓ} (xs : List A) → length xs ≡ 0 → xs ≡ []
length-zero [] h = refl
length-zero (x ∷ xs) h = absurd (omega arith)

-- The tenants are within one job of one another, but for those that are idle.
abbrev IsLevel : ℕ → ℕ → ℕ → List Bucket → Type 0
IsLevel per low high bs =
    (t : String) → (quota t bs ≤ high) × ((low ≤ quota t bs) ⊎ IsIdle t per bs)

-- What holds between the rounds of the loop, for the rows that were grouped.
record Inv (limit per : ℕ) (rows chosen : List Job) (bs : List Bucket) : Type 0 where
  grouped : IsGrouped bs
  within : length chosen ≤ limit
  jobs : (t : String) → of_tenant t chosen ++ queue t bs ≡ of_tenant t rows
  counted : (t : String) → length (of_tenant t chosen) ≡ quota t bs
  capped : (t : String) → quota t bs ≤ per

-- What holds when it ends.
record End (limit per : ℕ) (rows : List Job) (r : Round) : Type 0 where
  inv : Inv limit per rows r.selected r.buckets
  level : (k : ℕ) × IsLevel per k (suc k) r.buckets
  ended : (limit ≤ length r.selected) ⊎ ((t : String) → IsIdle t per r.buckets)

module _ (limit per : ℕ) (rows : List Job) (chosen : List Job) (bs : List Bucket)
    (inv : Inv limit per rows chosen bs) (room : length chosen < limit) where
  abbrev after : Round
  after = round limit per chosen false bs

  kept : (t : String) → Kept t per chosen bs after
  kept t = round-Kept t limit per chosen false bs inv.grouped

  round-Inv : Inv limit per rows after.selected after.buckets
  round-Inv = record {
    grouped = round-IsGrouped limit per chosen false bs inv.grouped;
    within = length-round limit per chosen false bs room;
    jobs = λ t. (kept t).jobs ∙ inv.jobs t;
    counted = λ t. omega (arith, (kept t).count, inv.counted t);
    capped = λ t. (kept t).capped (inv.capped t);
  }

  -- An idle tenant stays idle.
  after-IsIdle : (t : String) → IsIdle t per bs → IsIdle t per after.buckets
  after-IsIdle t (inl full) = inl (omega (arith, (kept t).least))
  after-IsIdle t (inr empty) = inr (
      length-zero _ (
        omega (
          arith,
          (kept t).count,
          (kept t).least,
          ap length (kept t).jobs,
          ap length empty,
          length-append (of_tenant t after.selected) (queue t after.buckets),
          length-append (of_tenant t chosen) (queue t bs),
        )))

  module _ (k : ℕ) (level : IsLevel per k k bs) where
    after-IsLevel : IsLevel per k (suc k) after.buckets
    after-IsLevel t = (
      omega (arith, (kept t).most, (level t).0),
      elim (level t).1 [
        | inl low ↦ inl (omega (arith, (kept t).least))
        | inr idle ↦ inr (after-IsIdle t idle)
      ],
    )

    complete-IsLevel : length after.selected < limit → IsLevel per (suc k) (suc k) after.buckets
    complete-IsLevel more t = (
      (after-IsLevel t).0,
      elim (round_complete limit per t chosen false bs more) [
        | inr idle ↦ inr (after-IsIdle t idle)
        | inl taken ↦ elim (level t).1 [
          | inl low ↦ inl (omega arith)
          | inr idle ↦ inr (after-IsIdle t idle)
        ]
      ],
    )

-- What the loop knows of the levels: exact while it goes on.
record Levels (limit per : ℕ) (chosen : List Job) (bs : List Bucket) : Type 0 where
  loose : (k : ℕ) × IsLevel per k (suc k) bs
  exact : length chosen < limit → (k : ℕ) × IsLevel per k k bs

-- With fuel for every job that is still wanted, the loop ends by one of its tests.
rounds-End :
    (fuel limit per : ℕ) (rows chosen : List Job) (bs : List Bucket)
    → limit < fuel + length chosen
    → Inv limit per rows chosen bs
    → Levels limit per chosen bs
    → End limit per rows (rounds fuel limit per chosen bs)
unfolding rounds
rounds-End zero limit per rows chosen bs h inv levels = absurd (omega (arith, inv.within))
rounds-End (suc fuel) limit per rows chosen bs h inv levels =
    elim (Bool-cases (leb limit (length chosen))) [
      | inl full ↦ rw full (record { inv = inv; level = levels.loose; ended = inl (ground arith) })
      | inr more ↦
          let room : length chosen < limit = ground arith in
          let (k, level) = levels.exact room in
          let r = round limit per chosen false bs in
          let inv' = round-Inv limit per rows chosen bs inv room in
          let level' = after-IsLevel limit per rows chosen bs inv room k level in
          elim (Bool-cases r.progressed) [
            | inl again ↦
                rw (more, again)
                  (rounds-End fuel limit per rows r.selected r.buckets
                    (omega (arith, length-lt-round limit per chosen bs again)) inv'
                    (record {
                      loose = (k, level');
                      exact = λ left.
                          (suc k, complete-IsLevel limit per rows chosen bs inv room k level left);
                    }))
            | inr stuck ↦
                let s = round-Stuck limit per chosen bs stuck in
                rw (more, stuck)
                  (record {
                    inv = inv';
                    level = (k, level');
                    ended = inr (λ t. rw s.same_buckets (s.idle t));
                  })
          ]
    ]

-- The limit of the tenants as the list of the rows starts the loop.
start-End :
    (limit per : ℕ) (rows : List Job)
    → End limit per rows (rounds (suc limit) limit per [] (group [] rows))
start-End limit per rows =
    rounds-End (suc limit) limit per rows [] (group [] rows) (omega arith)
      (record {
        grouped = group-IsGrouped [] rows tt;
        within = omega arith;
        jobs = λ t. queue-group t [] rows;
        counted = λ t. sym (quota-group t [] rows);
        capped = λ t. omega (arith, quota-group t [] rows);
      })
      (record {
        loose = (0, λ t. (omega (arith, quota-group t [] rows), inl (omega arith)));
        exact = λ _. (0, λ t. (omega (arith, quota-group t [] rows), inl (omega arith)));
      })

select_rows-rounds :
    (limit per : ℕ) (rows : List Job)
    → 0 < per
    → select_rows limit per rows ≡ (rounds (suc limit) limit per [] (group [] rows)).selected
unfolding select_rows
select_rows-rounds limit zero rows h = absurd (omega arith)
select_rows-rounds limit (suc p) rows h = let e : nat_eq (suc p) 0 ≡ false = ground arith in rw e

-- The selection never holds more than `limit` jobs, also when the limit per tenant is off.
pub length-select_rows-le :
    (limit per : ℕ) (rows : List Job) → length (select_rows limit per rows) ≤ limit
length-select_rows-le limit zero rows = unfold select_rows in length-take-le limit rows
length-select_rows-le limit (suc p) rows =
    rw (select_rows-rounds limit (suc p) rows (omega arith))
      (start-End limit (suc p) rows).inv.within

module _ (limit per : ℕ) (rows : List Job) (positive : 0 < per) where
  -- With a positive limit per tenant, no tenant has more than that many of the selected jobs, and
  -- the selected jobs of a tenant are the first ones among its rows, in their order.
  pub select_rows-tenant :
      (t : String)
      → (length (of_tenant t (select_rows limit per rows)) ≤ per)
        × ((rest : List Job) × (of_tenant t (select_rows limit per rows) ++ rest
              ≡ of_tenant t rows))
  select_rows-tenant t =
      let inv = (start-End limit per rows).inv in
      rw (select_rows-rounds limit per rows positive)
        (omega (arith, inv.counted t, inv.capped t), (queue t _, inv.jobs t))

  -- With a positive limit per tenant, a selection below the limit leaves nothing that it could
  -- take: every tenant has as many selected jobs as its rows and its limit allow.
  pub select_rows_exhaustive :
      (t : String)
      → length (select_rows limit per rows) < limit
      → length (of_tenant t (select_rows limit per rows)) ≡ min per (length (of_tenant t rows))
  select_rows_exhaustive t =
      let e = start-End limit per rows in
      rw (select_rows-rounds limit per rows positive)
        (λ more. elim e.ended [ inl full ↦ absurd (omega arith) | inr idle ↦ exhausted (idle t) ])
    where
      exhausted :
          IsIdle t per (rounds (suc limit) limit per [] (group [] rows)).buckets
          → length (of_tenant t (rounds (suc limit) limit per [] (group [] rows)).selected)
            ≡ min per (length (of_tenant t rows))
      exhausted i =
          let inv = (start-End limit per rows).inv in
          let r = rounds (suc limit) limit per [] (group [] rows) in
          let split = length-append (of_tenant t r.selected) (queue t r.buckets) in
          elim i [
            | inl full ↦ omega (arith, inv.counted t, inv.capped t, ap length (inv.jobs t), split)
            | inr empty ↦
                omega (
                  arith,
                  inv.counted t,
                  inv.capped t,
                  ap length (inv.jobs t),
                  split,
                  ap length empty,
                )
          ]

  -- With a positive limit per tenant, no tenant is more than one job ahead of a tenant with rows
  -- that were not selected.
  pub select_rows_balanced :
      (t u : String)
      → (length (of_tenant u (select_rows limit per rows))
          ≤ suc (length (of_tenant t (select_rows limit per rows))))
        ⊎ (of_tenant t (select_rows limit per rows) ≡ of_tenant t rows)
  select_rows_balanced t u =
      let e = start-End limit per rows in
      let (k, level) = e.level in
      rw (select_rows-rounds limit per rows positive) (elim (level t).1 [
        | inl low ↦ inl (omega (arith, (level u).0, e.inv.counted t, e.inv.counted u))
        | inr (inl full) ↦ inl (omega (arith, e.inv.capped u, e.inv.counted t, e.inv.counted u))
        | inr (inr empty) ↦ inr (sym (append-nil _) ∙ rw empty at (e.inv.jobs t))
      ])
