-- ===== src/Lease/Spec.antt =====
-- What leases promise: a lock on each task with a counter of the claims, and which answers and
-- changes each call permits.
use code_co_driver.Prelude.{
  if◌then◌else◌, ℕ, ◌≤◌, ◌<◌, String, ◌≡◌, ◌≢◌, ◌⊎◌, Option, none, some, ◌==◌,
}
use code_co_driver.Lease.{
  Lease, Claim, granted, taken, failed, LeaseError, stale_lease, client_error,
}

-- Who holds a task, with the token, and the last token of the task.
pub record Lock : Type 0 where
  pub holder : String → Option (String × ℕ)
  pub counter : String → ℕ

-- A function with another value at one task.
abbrev pub at_task {ℓ} : {A : Type ℓ} → (String → A) → String → A → String → A
at_task f t x j = if t == j then x else f j

-- The count of the task is another number.
abbrev pub counted : Lock → String → ℕ → Lock
counted a t n = record a { counter = at_task a.counter t n }

abbrev pub held : Lock → String → Option (String × ℕ) → Lock
held a t h = record a { holder = at_task a.holder t h }

pub data Call : Type 0 where
  claim : String → String → ℕ → Call
  renewal : Lease → ℕ → Call
  removal : Lease → Call

pub data Answer : Type 0 where
  claimed : Claim → Answer
  answered : Option LeaseError → Answer

-- The holder is the lease.
abbrev pub holds : Lease → Option (String × ℕ)
holds l = some (l.worker_id, l.token)

-- A claim is granted on a free task alone, with a token above every one that was counted; a lease is
-- renewed and removed by its holder alone. An answer may be lost: of a free task a claim that is not
-- granted may have taken the lock all the same, and a holder's removal that answers an error may
-- have removed it.
pub data Permits (a : Lock) : Call → Answer → Lock → Type 0 where
  claim_granted :
      (w t : String) (ttl n : ℕ)
      → a.holder t ≡ none
      → a.counter t < n
      → Permits a
          (claim w t ttl)
          (claimed (granted (record { task_id = t; worker_id = w; token = n })))
          (held (counted a t n) t (some (w, n)))
  claim_taken :
      (w t : String) (ttl n : ℕ)
      → a.holder t ≢ none
      → a.counter t < n
      → Permits a (claim w t ttl) (claimed taken) (counted a t n)
  claim_unheard :
      (w t : String) (ttl n : ℕ) (c : Claim)
      → (c ≡ taken) ⊎ (c ≡ failed)
      → a.holder t ≡ none
      → a.counter t < n
      → Permits a (claim w t ttl) (claimed c) (held (counted a t n) t (some (w, n)))
  claim_lost :
      (w t : String) (ttl n : ℕ)
      → a.counter t ≤ n
      → Permits a (claim w t ttl) (claimed failed) (counted a t n)
  renewed :
      (l : Lease) (ttl : ℕ)
      → a.holder l.task_id ≡ holds l
      → Permits a (renewal l ttl) (answered none) a
  renewal_stale :
      (l : Lease) (ttl : ℕ)
      → a.holder l.task_id ≢ holds l
      → Permits a (renewal l ttl) (answered (some stale_lease)) a
  renewal_failed :
      (l : Lease) (ttl : ℕ) → Permits a (renewal l ttl) (answered (some client_error)) a
  removed :
      (l : Lease)
      → a.holder l.task_id ≡ holds l
      → Permits a (removal l) (answered none) (held a l.task_id none)
  removal_stale :
      (l : Lease) → a.holder l.task_id ≢ holds l → Permits a (removal l) (answered none) a
  removal_unheard :
      (l : Lease)
      → a.holder l.task_id ≡ holds l
      → Permits a (removal l) (answered (some client_error)) (held a l.task_id none)
  removal_failed : (l : Lease) → Permits a (removal l) (answered (some client_error)) a
