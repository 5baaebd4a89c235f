-- ===== src/Lease/Refines.antt =====
-- internal/lease/redis.go: the calls of the leaser do what Lease/Spec permits.
use code_co_driver.Prelude.{
  Bool-cases, ℕ, ◌<◌, String, ◌≡◌, refl, sym, ap, ◌∙◌, ◌≢◌, ◌⊎◌, inl, inr, Bool, true, false,
  Option, none, some, arith, eq_refl,
}
use mathlib.Core.Path.{subst}
use code_co_driver.Lease.{
  Lease, Fate, replied, unheard, unsent, reported, LeaseError, stale_lease, client_error, Claim,
  taken, failed, Redis, RedisLaws, lease_key, fencing_key, lease_value, ttl_or_default, is_value,
  after_set, after_incr, try_claim, is_current, renew, release,
}
use code_co_driver.Lease.Stored.{
  stored, Stores, is_value-stored, none-stored, incr-Stores, key-Stores, kept-Stores,
}
use code_co_driver.Lease.Spec.{
  Lock, counted, held, Call, claim, renewal, removal, Answer, claimed, answered, holds, Permits,
  claim_granted, claim_taken, claim_lost, claim_unheard, renewed, renewal_stale, renewal_failed,
  removed, removal_stale, removal_unheard, removal_failed,
}

module _ {S : Type 0} (r : Redis S) where
  pub run_call : S → Call → Answer × S
  run_call s (claim w t ttl) = let (c, s') = try_claim r w s t ttl in (claimed c, s')
  run_call s (renewal l ttl) = let (e, s') = renew r s l ttl in (answered e, s')
  run_call s (removal l) = let (e, s') = release r s l in (answered e, s')

  abbrev pub Simulates : Lock → Call → Answer × S → Type 0
  Simulates a c (answer, s') = (a' : Lock) × Permits a c answer a' × Stores r s' a'

  module _ (laws : RedisLaws r) where
    -- What SETNX makes of the lock behind the count, if it does not grant the claim.
    after_set-unheard :
        (s s' : S) (a : Lock) (w t : String) (n ttl ttl' : ℕ) (o : Option Bool) (c : Claim)
        → (c ≡ taken) ⊎ (c ≡ failed)
        → a.counter t < n
        → Stores r s (counted a t n)
        → r.set_nx s (lease_key t) (lease_value w n) ttl' ≡ (o, s')
        → (r.value s' (lease_key t) ≡ r.value s (lease_key t)
            → Permits a (claim w t ttl) (claimed c) (counted a t n))
        → Simulates a (claim w t ttl) (claimed c, s')
    after_set-unheard s s' a w t n ttl ttl' o c refused e v q unset =
        let (cases, kept) = laws.set_nx_keeps s (lease_key t) (lease_value w n) ttl' o s' q in
        elim cases [
          | inl same ↦
              (counted a t n, unset same, kept-Stores r laws s s' (counted a t n) t v kept same)
          | inr (free, set) ↦ (
            held (counted a t n) t (some (w, n)),
            claim_unheard w t ttl n c refused (none-stored (a.holder t) (sym (v.values t) ∙ free))
                e,
            key-Stores r laws s s' (counted a t n) t (some (w, n)) v kept set,
          )
        ]

    after_set-Simulates :
        (s : S) (a : Lock) (w t : String) (n ttl ttl' : ℕ) (p : Option Bool × S)
        → a.counter t < n
        → Stores r s (counted a t n)
        → r.set_nx s (lease_key t) (lease_value w n) ttl' ≡ p
        → let (c, s') = after_set r (record { task_id = t; worker_id = w; token = n }) p in
          Simulates a (claim w t ttl) (claimed c, s')
    unfolding after_set
    after_set-Simulates s a w t n ttl ttl' (none, s') e v q =
        after_set-unheard s s' a w t n ttl ttl' none failed (inr refl) e v q
          (λ same. claim_lost w t ttl n (omega (arith, e)))
    after_set-Simulates s a w t n ttl ttl' (some true, s') e v q =
        let (free, set) = laws.set_nx_sets s (lease_key t) (lease_value w n) ttl' s' q in
        let kept = (laws.set_nx_keeps s (lease_key t) (lease_value w n) ttl' (some true) s' q).1 in
        (
          held (counted a t n) t (some (w, n)),
          claim_granted w t ttl n (none-stored (a.holder t) (sym (v.values t) ∙ free)) e,
          key-Stores r laws s s' (counted a t n) t (some (w, n)) v kept set,
        )
    after_set-Simulates s a w t n ttl ttl' (some false, s') e v q =
        after_set-unheard s s' a w t n ttl ttl' (some false) taken (inl refl) e v q (λ same.
          claim_taken w t ttl n
            (λ free.
              laws.set_nx_finds s (lease_key t) (lease_value w n) ttl' s' q
                (same ∙ v.values t ∙ ap stored free))
            e)

    after_incr-Simulates :
        (s : S) (a : Lock) (w t : String) (ttl : ℕ) (p : Option ℕ × S)
        → Stores r s a
        → r.incr s (fencing_key t) ≡ p
        → let (c, s') = after_incr r w t ttl p in Simulates a (claim w t ttl) (claimed c, s')
    unfolding after_incr
    after_incr-Simulates s a w t ttl (none, s') v e = (
      counted a t (r.counter s' (fencing_key t)),
      claim_lost w t ttl _
          (omega (arith, (laws.incr_keeps s (fencing_key t) none s' e).0, v.counters t)),
      incr-Stores r laws s s' a t none v e,
    )
    after_incr-Simulates s a w t ttl (some n, s') v e =
        let (number, now) = laws.incr_counts s (fencing_key t) n s' e in
        after_set-Simulates s' a w t n ttl (ttl_or_default ttl) _ (omega (arith, v.counters t))
          (subst (λ m. Stores r s' (counted a t m)) now (incr-Stores r laws s s' a t (some n) v e))
          refl

    current_holds :
        (s : S) (a : Lock) (l : Lease)
        → Stores r s a
        → is_current r s l ≡ true
        → a.holder l.task_id ≡ holds l
    unfolding is_current
    current_holds s a l v e =
        is_value-stored (a.holder l.task_id) l.worker_id l.token
          (ap (λ o. is_value o (lease_value l.worker_id l.token)) (sym (v.values l.task_id)) ∙ e)

    holds_current :
        (s : S) (a : Lock) (l : Lease)
        → Stores r s a
        → a.holder l.task_id ≡ holds l
        → is_current r s l ≡ true
    unfolding is_current
    holds_current s a l v e =
        ap (λ o. is_value o (lease_value l.worker_id l.token)) (v.values l.task_id ∙ ap stored e)
        ∙ eq_refl (lease_value l.worker_id l.token)

    not_current :
        (s : S) (a : Lock) (l : Lease)
        → Stores r s a
        → is_current r s l ≡ false
        → a.holder l.task_id ≢ holds l
    not_current s a l v e h = cc (sym e ∙ holds_current s a l v h)

    renew-reported :
        (fate : Fate) (s s' : S) (a : Lock) (l : Lease) (ttl : ℕ) (e : Option LeaseError)
        → Stores r s a
        → Stores r s' a
        → Permits a (renewal l ttl) (answered e) a
        → let (e', s'') = reported r fate s (e, s') in
          Simulates a (renewal l ttl) (answered e', s'')
    renew-reported replied s s' a l ttl e v v' permits = (a, permits, v')
    renew-reported unheard s s' a l ttl e v v' permits = (a, renewal_failed l ttl, v')
    renew-reported unsent s s' a l ttl e v v' permits = (a, renewal_failed l ttl, v)

    renew-Simulates :
        (s : S) (a : Lock) (l : Lease) (ttl : ℕ)
        → Stores r s a
        → Simulates a (renewal l ttl) (answered (renew r s l ttl).0, (renew r s l ttl).1)
    unfolding renew
    renew-Simulates s a l ttl v = elim (Bool-cases (is_current r s l)) [
      | inr stale ↦ rw stale (
          renew-reported (r.fate s) s s a l ttl (some stale_lease) v v
            (renewal_stale l ttl (not_current s a l v stale)))
      | inl fresh ↦
          let h = current_holds s a l v fresh in
          let there = v.values l.task_id ∙ ap stored h in
          let (counts, still) =
            laws.pexpire_counts s (lease_key l.task_id) (lease_value l.worker_id l.token)
              (ttl_or_default ttl) (ground arith) there in
          let kept = laws.pexpire_keeps s (lease_key l.task_id) (ttl_or_default ttl) in
          rw (fresh, counts)
            (renew-reported (r.fate s) s _ a l ttl none v
              (kept-Stores r laws s _ a l.task_id v kept (still ∙ sym there)) (renewed l ttl h))
    ]

    release-reported :
        (fate : Fate) (s s' : S) (a a' : Lock) (l : Lease)
        → Stores r s a
        → Stores r s' a'
        → Permits a (removal l) (answered none) a'
        → Permits a (removal l) (answered (some client_error)) a'
        → let (e', s'') = reported r fate s (none, s') in Simulates a (removal l) (answered e', s'')
    release-reported replied s s' a a' l v v' heard lost = (a', heard, v')
    release-reported unheard s s' a a' l v v' heard lost = (a', lost, v')
    release-reported unsent s s' a a' l v v' heard lost = (a, removal_failed l, v)

    release-Simulates :
        (s : S) (a : Lock) (l : Lease)
        → Stores r s a
        → Simulates a (removal l) (answered (release r s l).0, (release r s l).1)
    unfolding release
    release-Simulates s a l v = elim (Bool-cases (is_current r s l)) [
      | inr stale ↦ rw stale (
          release-reported (r.fate s) s s a a l v v (removal_stale l (not_current s a l v stale))
            (removal_failed l))
      | inl fresh ↦
          let (gone, kept) = laws.del_removes s (lease_key l.task_id) in
          let h = current_holds s a l v fresh in
          rw fresh (
            release-reported (r.fate s) s _ a (held a l.task_id none) l v
              (key-Stores r laws s _ a l.task_id none v kept gone) (removed l h)
              (removal_unheard l h))
    ]

    -- Where the server stores the lock, every call of `TryClaim`, `Renew` or `Release` gives an
    -- answer that the lock permits, and leaves the server storing the lock that goes with it.
    pub run_call_refines :
        (s : S) (a : Lock) (c : Call) → Stores r s a → Simulates a c (run_call s c)
    unfolding run_call try_claim
    run_call_refines s a (claim w t ttl) v =
        after_incr-Simulates s a w t ttl (r.incr s (fencing_key t)) v refl
    run_call_refines s a (renewal l ttl) v = renew-Simulates s a l ttl v
    run_call_refines s a (removal l) v = release-Simulates s a l v
