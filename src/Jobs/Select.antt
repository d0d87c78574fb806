-- ===== src/Jobs/Select.antt =====
-- `list_pending_with_backpressure`: a round robin over the tenants of the due jobs.
pub mod Visit
pub mod Buckets
pub mod Kept
pub mod Rounds
pub mod Fair
use integrado_web_xd.Prelude.{
  ℕ, zero, suc, ◌+◌, ◌*◌, ◌≡◌, String, Bool, true, false, List, [], ◌∷◌, ◌++◌, leb, if◌then◌else◌,
  ◌==◌, keep, length, take, max, nat_eq,
}
use integrado_web_xd.Jobs.{Job, is_due, recover_expired_leases}

-- The entries of `buckets` and `selected_per_tenant` under one tenant. The list of them is in the
-- order of `tenant_order`.
pub record Bucket : Type 0 where
  pub tenant : String
  pub jobs : List Job
  pub taken : ℕ

-- The first loop: `buckets.setdefault(job.empresa_id, []).append(job)`.
unfoldable pub add_row : Job → List Bucket → List Bucket
add_row job [] = record { tenant = job.empresa_id; jobs = job ∷ []; taken = 0 } ∷ []
add_row job (b ∷ bs) =
    let rest = add_row job bs in
    if b.tenant == job.empresa_id then record b { jobs = b.jobs ++ job ∷ [] } ∷ bs else b ∷ rest

unfoldable pub group : List Bucket → List Job → List Bucket
unfolding add_row
group bs [] = bs
group bs (job ∷ rows) = group (add_row job bs) rows

pub record Round : Type 0 where
  pub selected : List Job
  pub buckets : List Bucket
  pub progressed : Bool

abbrev behind : Bucket → Round → Round
behind b r = record r { buckets = b ∷ r.buckets }

-- `bucket.pop(0)` and the count of the tenant.
abbrev pub popped : Bucket → List Job → Bucket
popped b rest = record b { jobs = rest; taken = b.taken + 1 }

-- The `for tenant_id in tenant_order` loop: one job from each tenant below its limit.
unfoldable pub round : ℕ → ℕ → List Job → Bool → List Bucket → Round
round limit per selected progressed [] = record {
  selected = selected;
  buckets = [];
  progressed = progressed;
}
round limit per selected progressed (b ∷ bs) =
    let skipped = behind b (round limit per selected progressed bs) in
    if leb per b.taken then skipped else elim b.jobs [
      | [] ↦ skipped
      | job ∷ rest ↦
          let longer = selected ++ job ∷ [] in
          let stop : Round = record { selected = longer; buckets = bs; progressed = true } in
          let go_on = round limit per longer true bs in
          behind (popped b rest) (if leb limit (length longer) then stop else go_on)
    ]

-- The `while len(selected) < limit` loop. A round that goes on adds a job, so `limit + 1` rounds
-- are enough.
unfoldable pub rounds : ℕ → ℕ → ℕ → List Job → List Bucket → Round
unfolding round
rounds zero limit per selected bs = record { selected = selected; buckets = bs; progressed = true }
rounds (suc fuel) limit per selected bs =
    let r = round limit per selected false bs in
    let again = rounds fuel limit per r.selected r.buckets in
    if leb limit (length selected)
    then record { selected = selected; buckets = bs; progressed = true }
    else if r.progressed
    then again
    else r

-- What follows the query: the rows in its order.
unfoldable pub select_rows : ℕ → ℕ → List Job → List Job
unfolding rounds group
select_rows limit per rows =
    if nat_eq per 0
    then take limit rows
    else (rounds (suc limit) limit per [] (group [] rows)).selected

-- The whole method, with the database's ORDER BY next_run_at, created_at as a parameter: the table
-- that the recovery of expired leases leaves, and the selected jobs.
unfoldable pub list_pending_with_backpressure :
    (List Job → List Job) → ℕ → ℕ → ℕ → List Job → List Job × List Job
unfolding select_rows
list_pending_with_backpressure order now limit per table =
    let table' = (recover_expired_leases now table).0 in
    (
      table',
      select_rows limit per (take (max (limit * 10) limit) (order (keep (is_due now) table'))),
    )
