-- ===== src/Lease/Fencing.antt =====
-- internal/lease/redis.go: in every history of claims, renewals, releases and expiries by any
-- workers, each lease that is granted on a task has a larger token than those before it.
use code_co_driver.Prelude.{All, ℕ, ◌≤◌, ◌<◌, String, ◌≢◌, ◌⊎◌, List, [], ◌∷◌}
use code_co_driver.Lease.{
  Lease, Redis, RedisLaws, Claim, granted, taken, failed, fencing_key, try_claim, renew, release,
}

-- Time passes: counters do not fall.
abbrev pub Expires : {S : Type 0} → Redis S → S → S → Type 0
Expires {S} r s s' = (k : String) → r.counter s k ≤ r.counter s' k

-- The leases granted so far, the newest first, with the outcome of a claim.
abbrev pub log_claim : Claim → List Lease → List Lease
log_claim (granted l) ls = l ∷ ls
log_claim taken ls = ls
log_claim failed ls = ls

module _ {S : Type 0} (r : Redis S) where
  -- What can happen next, to the server's state and to the leases granted so far.
  pub data Step : S → List Lease → S → List Lease → Type 0 where
    claim :
        (worker_id task_id : String) (ttl : ℕ) {s : S} {ls : List Lease}
        → Step s ls
            (try_claim r worker_id s task_id ttl).1
            (log_claim (try_claim r worker_id s task_id ttl).0 ls)
    renewal : (l : Lease) (ttl : ℕ) {s : S} {ls : List Lease} → Step s ls (renew r s l ttl).1 ls
    removal : (l : Lease) {s : S} {ls : List Lease} → Step s ls (release r s l).1 ls
    expiry : {s s' : S} {ls : List Lease} → Expires r s s' → Step s ls s' ls

  pub data Reach (s : S) : S → List Lease → Type 0 where
    here : Reach s s []
    next : {s' s'' : S} {ls ls' : List Lease} → Reach s s' ls → Step s' ls s'' ls' → Reach s s'' ls'

-- An older lease of the same task has a smaller token.
abbrev pub IsFenced : List Lease → Type 0
IsFenced [] = Unit
IsFenced (l ∷ ls) = All (λ o. (o.task_id ≢ l.task_id) ⊎ (o.token < l.token)) ls × IsFenced ls

module _ {S : Type 0} (r : Redis S) (laws : RedisLaws r) where
  abbrev Counted : S → List Lease → Type 0
  Counted s ls = All (λ l. l.token ≤ r.counter s (fencing_key l.task_id)) ls

  abbrev Safe : S → List Lease → Type 0
  Safe s ls = Counted s ls × IsFenced ls

  -- The tokens of the task that were granted are smaller than `n`.
  abbrev Older : String → ℕ → List Lease → Type 0
  Older task_id n ls = All (λ o. (o.task_id ≢ task_id) ⊎ (o.token < n)) ls
