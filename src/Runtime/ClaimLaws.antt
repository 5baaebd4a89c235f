-- ===== src/Runtime/ClaimLaws.antt =====
-- internal/runtime/service.go, `claimNextTask`: what a worker holds when it has a task.
use code_co_driver.Prelude.{
  Bool-cases, is_some, Outcome, ok, err, ℕ, String, ◌≡◌, refl, inl, inr, Bool, true, false, Option,
  none, some, List, [], ◌∷◌,
}
use code_co_driver.Domain.{Task}
use code_co_driver.Store.{Memory, StoreError, tasks, task}
use code_co_driver.Lease.{
  Lease, Redis, RedisLaws, Claim, granted, taken, failed, lease_key, lease_value, ttl_or_default,
  after_set, after_incr, try_claim, fencing_key,
}
use code_co_driver.Lease.Exclusion.{IsLive}
use code_co_driver.Runtime.State.{claimable_status}
use code_co_driver.Runtime.Claiming.{
  lease_ttl, still_claimable, after_claim, claim_task, claim_first, claim_next_task,
}

module _ {S : Type 0} (r : Redis S) (laws : RedisLaws r) where
  -- A lease that is granted is stored, and is one of the task on that worker's name.
  abbrev Grants : String → String → Claim × S → Type 0
  Grants w t (granted l, s) = IsLive r s l × (l.task_id ≡ t) × (l.worker_id ≡ w)
  Grants w t (taken, s) = Unit
  Grants w t (failed, s) = Unit

  after_set-Grants :
      (l : Lease) (ttl : ℕ) (s : S) (p : Option Bool × S)
      → r.set_nx s (lease_key l.task_id) (lease_value l.worker_id l.token) ttl ≡ p
      → Grants l.worker_id l.task_id (after_set r l p)
  unfolding after_set
  after_set-Grants l ttl s (none, s') e = tt
  after_set-Grants l ttl s (some true, s') e = (
    (laws.set_nx_sets s (lease_key l.task_id) (lease_value l.worker_id l.token) ttl s' e).1,
    refl,
    refl,
  )
  after_set-Grants l ttl s (some false, s') e = tt

  after_incr-Grants :
      (w t : String) (ttl : ℕ) (p : Option ℕ × S) → Grants w t (after_incr r w t ttl p)
  unfolding after_incr
  after_incr-Grants w t ttl (none, s') = tt
  after_incr-Grants w t ttl (some n, s') =
      after_set-Grants (record { task_id = t; worker_id = w; token = n }) (ttl_or_default ttl) s' _
        refl

  pub try_claim-Grants :
      (w : String) (s : S) (t : String) (ttl : ℕ) → Grants w t (try_claim r w s t ttl)
  unfolding try_claim
  try_claim-Grants w s t ttl = after_incr-Grants w t ttl (r.incr s (fencing_key t))

  module _ {F V : Type 0} (w : String) (later : Memory F V) where
    -- What a claim that found a task promises.
    abbrev pub Holds : Option Lease × S → Type 0
    Holds (none, s) = Unit
    Holds (some l, s) =
        IsLive r s l
        × (l.worker_id ≡ w)
        × (t : Task) × (task later l.task_id ≡ ok t)
        × (claimable_status t.status ≡ true)

    readable :
        (o : Outcome StoreError Task)
        → still_claimable r w later o ≡ true
        → (t : Task) × (o ≡ ok t) × (claimable_status t.status ≡ true)
    readable (ok t) h = (t, refl, h)
    readable (err e) h = cc

    after_claim-Holds :
        (t : String) (c : Claim) (s : S) → Grants w t (c, s) → Holds (after_claim r w later c s)
    unfolding after_claim
    after_claim-Holds t (granted l) s g =
        elim (Bool-cases (still_claimable r w later (task later l.task_id))) [
          | inl e ↦
              let (x, found, claimable) = readable (task later l.task_id) e in
              rw e (g.0, g.2, x, found, claimable)
          | inr e ↦ rw e tt
        ]
    after_claim-Holds t taken s g = tt
    after_claim-Holds t failed s g = tt

    claim_task-Holds : (s : S) (t : Task) → Holds (claim_task r w later s t)
    unfolding claim_task
    claim_task-Holds s t = elim (Bool-cases (claimable_status t.status)) [
      | inl e ↦ rw e (
          after_claim-Holds t.id (try_claim r w s t.id lease_ttl).0
            (try_claim r w s t.id lease_ttl).1 (try_claim-Grants w s t.id lease_ttl))
      | inr e ↦ rw e tt
    ]

    claim_first-Holds : (s : S) (ts : List Task) → Holds (claim_first r w later s ts)
    unfolding claim_first
    claim_first-Holds s [] = tt
    claim_first-Holds s (t ∷ ts) = elim (Bool-cases (is_some (claim_task r w later s t).0)) [
      | inl e ↦ rw e (claim_task-Holds s t)
      | inr e ↦ rw e (claim_first-Holds (claim_task r w later s t).1 ts)
    ]

    -- When `claimNextTask` answers a task, its lease is the one that is stored for the task and is
    -- on the worker's name, and the second read of the task had a status that may be claimed.
    pub claim_next_task-Holds : (m : Memory F V) (s : S) → Holds (claim_next_task r w later m s)
    unfolding claim_next_task
    claim_next_task-Holds m s = claim_first-Holds s (tasks m)
