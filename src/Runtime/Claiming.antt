-- ===== src/Runtime/Claiming.antt =====
-- internal/runtime/service.go: `claimNextTask`, by which a worker takes a task under a lease. The
-- store is read twice, and `later` is the store at the second read of each task.
use code_co_driver.Prelude.{
  is_some, if◌then◌else◌, Outcome, ok, err, ℕ, String, Bool, false, Option, none, some, List, [],
  ◌∷◌,
}
use code_co_driver.Domain.{Task}
use code_co_driver.Store.{Memory, StoreError, tasks, task}
use code_co_driver.Lease.{Lease, Redis, Claim, granted, taken, failed, try_claim, release}
use code_co_driver.Runtime.State.{claimable_status}

-- `leaseTTL`, in milliseconds.
abbrev pub lease_ttl : ℕ
lease_ttl = 45000

module _ {F V S : Type 0} (r : Redis S) (worker_id : String) (later : Memory F V) where
  -- Whether the task may still be claimed.
  abbrev pub still_claimable : Outcome StoreError Task → Bool
  still_claimable (ok t) = claimable_status t.status
  still_claimable (err e) = false

  -- What the loop does with an answer of the leaser: it has its task, or it goes on.
  unfoldable pub after_claim : Claim → S → Option Lease × S
  after_claim (granted l) s =
      if still_claimable (task later l.task_id) then (some l, s) else (none, (release r s l).1)
  after_claim taken s = (none, s)
  after_claim failed s = (none, s)

  -- One round of the loop.
  unfoldable pub claim_task : S → Task → Option Lease × S
  unfolding after_claim
  claim_task s t =
      let (c, s') = try_claim r worker_id s t.id lease_ttl in
      if claimable_status t.status then after_claim c s' else (none, s)

  unfoldable pub claim_first : S → List Task → Option Lease × S
  unfolding claim_task
  claim_first s [] = (none, s)
  claim_first s (t ∷ ts) =
      let (found, s') = claim_task s t in
      let rest = claim_first s' ts in if is_some found then (found, s') else rest

  -- `claimNextTask`
  unfoldable pub claim_next_task : Memory F V → S → Option Lease × S
  unfolding claim_first
  claim_next_task m s = claim_first s (tasks m)
