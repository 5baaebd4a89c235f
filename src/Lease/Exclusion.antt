-- ===== src/Lease/Exclusion.antt =====
-- internal/lease/redis.go: while a lease is stored, no claim of its task is granted, and no other
-- lease of the task is renewed or removes it.
use code_co_driver.Prelude.{
  Bool-cases, ℕ, String, ◌≡◌, refl, sym, ◌∙◌, ◌≢◌, ◌⊎◌, inl, inr, Bool, true, false, Option, none,
  some, ◌==◌, eq_iff,
}
use code_co_driver.Lease.{
  Lease, Fate, replied, unheard, unsent, reported, Redis, RedisLaws, Claim, taken, failed,
  stale_lease, client_error, lease_key, fencing_key, lease_value, ttl_or_default, after_set,
  after_incr, try_claim, is_current, renew, release,
}
use code_co_driver.Lease.Keys.{lease_key-ne-fencing_key, lease_value_injective}

-- The lease is the one that is stored for its task.
abbrev pub IsLive : {S : Type 0} → Redis S → S → Lease → Type 0
IsLive r s l = r.value s (lease_key l.task_id) ≡ some (lease_value l.worker_id l.token)

module _ {S : Type 0} (r : Redis S) (laws : RedisLaws r) where
  -- INCR of a fencing key keeps the value of every lease key.
  pub incr-lease_key :
      (s : S) (t t' : String) (o : Option ℕ) (s' : S)
      → r.incr s (fencing_key t) ≡ (o, s')
      → r.value s' (lease_key t') ≡ r.value s (lease_key t')
  incr-lease_key s t t' o s' e =
      elim ((laws.incr_keeps s (fencing_key t) o s' e).1.values_kept (lease_key t')) [
        | inl same ↦ absurd (lease_key-ne-fencing_key t' t (sym same))
        | inr kept ↦ kept
      ]

  abbrev Refuses : Lease → Claim × S → Type 0
  Refuses l (c, s') = ((c ≡ taken) ⊎ (c ≡ failed)) × IsLive r s' l

  -- A SET of the key of a lease that is stored leaves it.
  set_nx-IsLive :
      (l : Lease) (v : String) (ttl : ℕ) (s : S) (o : Option Bool) (s' : S)
      → IsLive r s l
      → r.set_nx s (lease_key l.task_id) v ttl ≡ (o, s')
      → IsLive r s' l
  set_nx-IsLive l v ttl s o s' live e =
      elim (laws.set_nx_keeps s (lease_key l.task_id) v ttl o s' e).0 [
        | inl same ↦ same ∙ live
        | inr (free, set) ↦ cc (sym free ∙ live)
      ]

  after_set-Refuses :
      (l new : Lease) (v : String) (ttl : ℕ) (s : S) (p : Option Bool × S)
      → IsLive r s l
      → r.set_nx s (lease_key l.task_id) v ttl ≡ p
      → Refuses l (after_set r new p)
  unfolding after_set
  after_set-Refuses l new v ttl s (none, s') live e =
      (inr refl, set_nx-IsLive l v ttl s none s' live e)
  after_set-Refuses l new v ttl s (some true, s') live e =
      cc (sym (laws.set_nx_sets s (lease_key l.task_id) v ttl s' e).0 ∙ live)
  after_set-Refuses l new v ttl s (some false, s') live e =
      (inl refl, set_nx-IsLive l v ttl s (some false) s' live e)

  after_incr-Refuses :
      (l : Lease) (w : String) (ttl : ℕ) (s : S) (p : Option ℕ × S)
      → IsLive r s l
      → r.incr s (fencing_key l.task_id) ≡ p
      → Refuses l (after_incr r w l.task_id ttl p)
  unfolding after_incr
  after_incr-Refuses l w ttl s (none, s') live e =
      (inr refl, incr-lease_key s l.task_id l.task_id none s' e ∙ live)
  after_incr-Refuses l w ttl s (some n, s') live e =
      after_set-Refuses l _ (lease_value w n) (ttl_or_default ttl) s' _
        (incr-lease_key s l.task_id l.task_id (some n) s' e ∙ live) refl

  -- While a lease is stored, no worker is granted a claim of its task, and the claim leaves the
  -- lease where it is.
  pub try_claim_exclusive :
      (s : S) (l : Lease) (worker_id : String) (ttl : ℕ)
      → IsLive r s l
      → ((((try_claim r worker_id s l.task_id ttl).0 ≡ taken)
            ⊎ ((try_claim r worker_id s l.task_id ttl).0 ≡ failed))
          × IsLive r (try_claim r worker_id s l.task_id ttl).1 l)
  unfolding try_claim
  try_claim_exclusive s l worker_id ttl live =
      after_incr-Refuses l worker_id ttl s (r.incr s (fencing_key l.task_id)) live refl

  other-not_current :
      (s : S) (l other : Lease)
      → IsLive r s l
      → other.task_id ≡ l.task_id
      → other.token ≢ l.token
      → is_current r s other ≡ false
  unfolding is_current
  other-not_current s l other live same differs =
      rw (same, live)
        (elim (Bool-cases
          (lease_value l.worker_id l.token == lease_value other.worker_id other.token)) [
            | inl e ↦ absurd (
                differs (
                  sym
                    (lease_value_injective l.worker_id other.worker_id l.token other.token
                      ((eq_iff _ _).0 e)).1))
            | inr e ↦ e
          ])

  -- A lease of the task with another token is neither renewed nor can it remove the one that is
  -- stored: `Renew` answers an error, and neither call changes anything.
  pub other_lease_harmless :
      (s : S) (l other : Lease) (ttl : ℕ)
      → IsLive r s l
      → other.task_id ≡ l.task_id
      → other.token ≢ l.token
      → (((renew r s other ttl).0 ≡ some stale_lease)
          ⊎ ((renew r s other ttl).0 ≡ some client_error))
        × ((renew r s other ttl).1 ≡ s)
        × ((release r s other).1 ≡ s)
  unfolding renew release
  other_lease_harmless s l other ttl live same differs =
      rw (other-not_current s l other live same differs) (reported-stale (r.fate s))
    where
      reported-stale :
          (fate : Fate)
          → (((reported r fate s (some stale_lease, s)).0 ≡ some stale_lease)
              ⊎ ((reported r fate s (some stale_lease, s)).0 ≡ some client_error))
            × ((reported r fate s (some stale_lease, s)).1 ≡ s)
            × ((reported r fate s (none, s)).1 ≡ s)
      reported-stale replied = (inl refl, refl, refl)
      reported-stale unheard = (inr refl, refl, refl)
      reported-stale unsent = (inr refl, refl, refl)
