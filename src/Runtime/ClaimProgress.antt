-- ===== src/Runtime/ClaimProgress.antt =====
-- internal/runtime/service.go, `claimNextTask`: when a worker finds a task.
use code_co_driver.Prelude.{
  Bool-cases, is_some, any, ℕ, String, ◌≡◌, refl, sym, ap, ◌∙◌, ◌≢◌, inl, inr, Bool, true, false,
  ◌&&◌, Option, none, some, List, [], ◌∷◌, arith, ◌==◌, eq_iff,
}
use mathlib.Core.Path.{subst}
use code_co_driver.Domain.{Task}
use code_co_driver.Store.{Memory, tasks, task}
use code_co_driver.Lease.{
  Lease, Fate, replied, unheard, unsent, reported, LeaseError, Redis, KeepsOthers, RedisLaws, Claim,
  granted, taken, failed, lease_key, lease_value, ttl_or_default, after_set, after_incr, try_claim,
  fencing_key, release, is_current,
}
use code_co_driver.Lease.Keys.{lease_key_injective}
use code_co_driver.Lease.Exclusion.{incr-lease_key}
use code_co_driver.Runtime.State.{claimable_status}
use code_co_driver.Runtime.Claiming.{
  lease_ttl, still_claimable, after_claim, claim_task, claim_first, claim_next_task,
}

-- Every INCR and every SET is answered, and no SET is sent again that was heard by the server: one
-- that answers that it found the key has not written it.
pub record IsReached {S : Type 0} (r : Redis S) : Type 0 where
  pub incr_answers : (s : S) (k : String) → (r.incr s k).0 ≢ none
  pub set_nx_answers : (s : S) (k v : String) (ttl : ℕ) → (r.set_nx s k v ttl).0 ≢ none
  pub set_nx_once :
      (s : S) (k v : String) (ttl : ℕ) (s' : S)
      → r.set_nx s k v ttl ≡ (some false, s')
      → r.value s' k ≡ r.value s k

-- No lease of the task is stored.
abbrev pub IsFree : {S : Type 0} → Redis S → String → S → Type 0
IsFree r task_id s = r.value s (lease_key task_id) ≡ none

module _ {S : Type 0} (r : Redis S) (laws : RedisLaws r) where
  -- What a claim of a task leaves of another task that is free.
  other-IsFree :
      (task_id t : String) (s s' : S)
      → t ≢ task_id
      → KeepsOthers r (lease_key t) s s'
      → IsFree r task_id s
      → IsFree r task_id s'
  other-IsFree task_id t s s' other kept free = elim (kept.values_kept (lease_key task_id)) [
    | inl same ↦ absurd (other (lease_key_injective t task_id same))
    | inr k ↦ k ∙ free
  ]

  -- A SET for another task leaves the task free.
  set_nx-IsFree :
      (task_id : String) (l : Lease) (ttl : ℕ) (s : S) (o : Option Bool) (s' : S)
      → l.task_id ≢ task_id
      → IsFree r task_id s
      → r.set_nx s (lease_key l.task_id) (lease_value l.worker_id l.token) ttl ≡ (o, s')
      → IsFree r task_id s'
  set_nx-IsFree task_id l ttl s o s' other free e =
      other-IsFree task_id l.task_id s s' other
        (laws.set_nx_keeps s (lease_key l.task_id) (lease_value l.worker_id l.token) ttl o s' e).1
        free

  after_set-IsFree :
      (task_id : String) (l : Lease) (ttl : ℕ) (s : S) (p : Option Bool × S)
      → l.task_id ≢ task_id
      → IsFree r task_id s
      → r.set_nx s (lease_key l.task_id) (lease_value l.worker_id l.token) ttl ≡ p
      → IsFree r task_id (after_set r l p).1
  unfolding after_set
  after_set-IsFree task_id l ttl s (none, s') other free e =
      set_nx-IsFree task_id l ttl s none s' other free e
  after_set-IsFree task_id l ttl s (some true, s') other free e =
      set_nx-IsFree task_id l ttl s (some true) s' other free e
  after_set-IsFree task_id l ttl s (some false, s') other free e =
      set_nx-IsFree task_id l ttl s (some false) s' other free e

  after_incr-IsFree :
      (task_id w t : String) (ttl : ℕ) (s : S) (p : Option ℕ × S)
      → t ≢ task_id
      → IsFree r task_id s
      → r.incr s (fencing_key t) ≡ p
      → IsFree r task_id (after_incr r w t ttl p).1
  unfolding after_incr
  after_incr-IsFree task_id w t ttl s (none, s') other free e =
      incr-lease_key r laws s t task_id none s' e ∙ free
  after_incr-IsFree task_id w t ttl s (some n, s') other free e =
      after_set-IsFree task_id (record { task_id = t; worker_id = w; token = n })
        (ttl_or_default ttl) s' _ other (incr-lease_key r laws s t task_id (some n) s' e ∙ free)
        refl

  reported-IsFree :
      (task_id : String) (fate : Fate) (s : S) (p : Option LeaseError × S)
      → IsFree r task_id s
      → IsFree r task_id p.1
      → IsFree r task_id (reported r fate s p).1
  reported-IsFree task_id replied s (e, s') free free' = free'
  reported-IsFree task_id unheard s (e, s') free free' = free'
  reported-IsFree task_id unsent s (e, s') free free' = free

  release-IsFree :
      (task_id : String) (l : Lease) (s : S)
      → IsFree r task_id s
      → IsFree r task_id (release r s l).1
  unfolding release
  release-IsFree task_id l s free =
      reported-IsFree task_id (r.fate s) s _ free (elim (Bool-cases (is_current r s l)) [
        | inr stale ↦ rw stale free
        | inl fresh ↦
            let (gone, kept) = laws.del_removes s (lease_key l.task_id) in
            rw fresh (elim (kept.values_kept (lease_key task_id)) [
              | inl same ↦ subst (λ k. r.value (r.del s (lease_key l.task_id)).1 k ≡ none) same gone
              | inr k ↦ k ∙ free
            ])
      ])

  module _ (reached : IsReached r) where
    abbrev IsGranted : String → Claim → Type 0
    IsGranted t (granted l) = l.task_id ≡ t
    IsGranted t taken = ⊥
    IsGranted t failed = ⊥

    after_set-IsGranted :
        (l : Lease) (ttl : ℕ) (s : S) (p : Option Bool × S)
        → IsFree r l.task_id s
        → r.set_nx s (lease_key l.task_id) (lease_value l.worker_id l.token) ttl ≡ p
        → IsGranted l.task_id (after_set r l p).0
    unfolding after_set
    after_set-IsGranted l ttl s (none, s') free e =
        absurd (reached.set_nx_answers s _ _ ttl (ap (λ (p : Option Bool × S). p.0) e))
    after_set-IsGranted l ttl s (some true, s') free e = refl
    after_set-IsGranted l ttl s (some false, s') free e =
        absurd (laws.set_nx_finds s _ _ ttl s' e (reached.set_nx_once s _ _ ttl s' e ∙ free))

    after_incr-IsGranted :
        (w t : String) (ttl : ℕ) (s : S) (p : Option ℕ × S)
        → IsFree r t s
        → r.incr s (fencing_key t) ≡ p
        → IsGranted t (after_incr r w t ttl p).0
    unfolding after_incr
    after_incr-IsGranted w t ttl s (none, s') free e =
        absurd (reached.incr_answers s _ (ap (λ (p : Option ℕ × S). p.0) e))
    after_incr-IsGranted w t ttl s (some n, s') free e =
        after_set-IsGranted (record { task_id = t; worker_id = w; token = n }) (ttl_or_default ttl)
          s' _ (incr-lease_key r laws s t t (some n) s' e ∙ free) refl

    module _ {F V : Type 0} (w : String) (later : Memory F V) where
      after_claim-found :
          (t : String) (c : Claim) (s : S)
          → still_claimable r w later (task later t) ≡ true
          → IsGranted t c
          → is_some (after_claim r w later c s).0 ≡ true
      unfolding after_claim
      after_claim-found t (granted l) s claimable g =
          let found : still_claimable r w later (task later l.task_id) ≡ true =
            ap (λ i. still_claimable r w later (task later i)) g ∙ claimable in
          rw found refl
      after_claim-found t taken s claimable g = absurd g
      after_claim-found t failed s claimable g = absurd g

      after_claim-IsFree :
          (task_id : String) (c : Claim) (s : S)
          → IsFree r task_id s
          → IsFree r task_id (after_claim r w later c s).1
      unfolding after_claim
      after_claim-IsFree task_id (granted l) s free =
          elim (Bool-cases (still_claimable r w later (task later l.task_id))) [
            | inl e ↦ rw e free
            | inr e ↦ rw e (release-IsFree task_id l s free)
          ]
      after_claim-IsFree task_id taken s free = free
      after_claim-IsFree task_id failed s free = free

      -- A round for another task leaves the task free.
      claim_task-IsFree :
          (task_id : String) (s : S) (t : Task)
          → t.id ≢ task_id
          → IsFree r task_id s
          → IsFree r task_id (claim_task r w later s t).1
      unfolding claim_task try_claim
      claim_task-IsFree task_id s t other free = elim (Bool-cases (claimable_status t.status)) [
        | inl e ↦ rw e (
            after_claim-IsFree task_id _ _ (
              after_incr-IsFree task_id w t.id lease_ttl s (r.incr s (fencing_key t.id)) other free
                refl))
        | inr e ↦ rw e free
      ]

      claim_task-found :
          (s : S) (t : Task)
          → claimable_status t.status ≡ true
          → still_claimable r w later (task later t.id) ≡ true
          → IsFree r t.id s
          → is_some (claim_task r w later s t).0 ≡ true
      unfolding claim_task try_claim
      claim_task-found s t claimable still free = rw claimable (
          after_claim-found t.id _ _ still
            (after_incr-IsGranted w t.id lease_ttl s (r.incr s (fencing_key t.id)) free refl))

      claim_task-this :
          (task_id : String) (s : S) (t : Task)
          → (t.id == task_id && claimable_status t.status) ≡ true
          → still_claimable r w later (task later task_id) ≡ true
          → IsFree r task_id s
          → is_some (claim_task r w later s t).0 ≡ true
      claim_task-this task_id s t this still free =
          let same : t.id ≡ task_id = (eq_iff t.id task_id).0 (ground (arith, this)) in
          claim_task-found s t (ground (arith, this))
            (ap (λ i. still_claimable r w later (task later i)) same ∙ still)
            (ap (λ i. r.value s (lease_key i)) same ∙ free)

      claim_task-other :
          (task_id : String) (s : S) (t : Task)
          → (t.id == task_id && claimable_status t.status) ≡ false
          → IsFree r task_id s
          → IsFree r task_id (claim_task r w later s t).1
      unfolding claim_task
      claim_task-other task_id s t other free = elim (Bool-cases (claimable_status t.status)) [
        | inl e ↦
            let not_this : t.id == task_id ≡ false = ground (arith, other, e) in
            claim_task-IsFree task_id s t (λ same. cc (sym not_this ∙ (eq_iff t.id task_id).1 same))
              free
        | inr e ↦ rw e free
      ]

      claim_first-found :
          (task_id : String) (s : S) (ts : List Task)
          → any (λ t. t.id == task_id && claimable_status t.status) ts ≡ true
          → still_claimable r w later (task later task_id) ≡ true
          → IsFree r task_id s
          → is_some (claim_first r w later s ts).0 ≡ true
      unfolding claim_first
      claim_first-found task_id s [] listed still free = cc
      claim_first-found task_id s (t ∷ ts) listed still free =
          elim (Bool-cases (is_some (claim_task r w later s t).0)) [
            | inl e ↦ rw e e
            | inr e ↦ rw e (elim (Bool-cases (t.id == task_id && claimable_status t.status)) [
              | inl this ↦ cc (sym e ∙ claim_task-this task_id s t this still free)
              | inr other ↦
                  claim_first-found task_id (claim_task r w later s t).1 ts (rw other at listed)
                    still (claim_task-other task_id s t other free)
            ])
          ]

      -- Where every command of the worker is answered and none is sent twice, `claimNextTask` answers a task if the
      -- store lists one with a status that may be claimed, which it still has at the second read,
      -- and no lease of this task is stored.
      pub claim_next_task-finds :
          (m : Memory F V) (s : S) (task_id : String)
          → any (λ (t : Task). t.id == task_id && claimable_status t.status) (tasks m) ≡ true
          → still_claimable r w later (task later task_id) ≡ true
          → IsFree r task_id s
          → is_some (claim_next_task r w later m s).0 ≡ true
      unfolding claim_next_task
      claim_next_task-finds m s task_id listed still free =
          claim_first-found task_id s (tasks m) listed still free
