-- ===== src/Lease/Stored.antt =====
-- internal/lease/redis.go: the keys of Redis as what stores the lock of Lease/Spec, and what the
-- commands do to it.
use code_co_driver.Prelude.{
  Bool-cases, ℕ, String, ◌≡◌, refl, sym, ap, ◌∙◌, ◌≢◌, inl, inr, true, Option, none, some, ◌==◌,
  eq_iff,
}
use mathlib.Core.Path.{ap₂}
use code_co_driver.Lease.{
  Redis, KeepsOthers, RedisLaws, lease_key, fencing_key, lease_value, is_value,
}
use code_co_driver.Lease.Keys.{
  lease_key-ne-fencing_key, lease_key_injective, fencing_key_injective, lease_value_injective,
}
use code_co_driver.Lease.Exclusion.{incr-lease_key}
use code_co_driver.Lease.Spec.{Lock, at_task, counted, held}

-- What the key of a held task stores.
abbrev pub stored : Option (String × ℕ) → Option String
stored none = none
stored (some (w, n)) = some (lease_value w n)

-- The server stores the lock.
pub record Stores {S : Type 0} (r : Redis S) (s : S) (a : Lock) : Type 0 where
  pub values : (t : String) → r.value s (lease_key t) ≡ stored (a.holder t)
  pub counters : (t : String) → r.counter s (fencing_key t) ≡ a.counter t

-- What holds of the new value at its task, and of the old ones elsewhere, holds of the function.
at_task-eq :
    {A B : Type 0} (f : String → A) (t : String) (x : A) (g : A → B) (p : String → B)
    → p t ≡ g x
    → ((j : String) → t ≢ j → p j ≡ g (f j))
    → (j : String) → p j ≡ g (at_task f t x j)
at_task-eq f t x g p here there j = elim (Bool-cases (t == j)) [
  | inl same ↦ rw same (ap p (sym ((eq_iff t j).0 same)) ∙ here)
  | inr other ↦ rw other (there j (λ e. cc (sym other ∙ (eq_iff t j).1 e)))
]

pub is_value-stored :
    (h : Option (String × ℕ)) (w : String) (n : ℕ)
    → is_value (stored h) (lease_value w n) ≡ true
    → h ≡ some (w, n)
is_value-stored none w n e = cc e
is_value-stored (some (w', n')) w n e =
    let same = lease_value_injective w' w n' n ((eq_iff _ _).0 e) in
    ap₂ (λ v k. some (v, k)) same.0 same.1

pub none-stored : (h : Option (String × ℕ)) → stored h ≡ none → h ≡ none
none-stored none e = refl
none-stored (some p) e = cc e

module _ {S : Type 0} (r : Redis S) (laws : RedisLaws r) where
  pub incr-Stores :
      (s s' : S) (a : Lock) (t : String) (o : Option ℕ)
      → Stores r s a
      → r.incr s (fencing_key t) ≡ (o, s')
      → Stores r s' (counted a t (r.counter s' (fencing_key t)))
  incr-Stores s s' a t o v e =
      let (grows, kept) = laws.incr_keeps s (fencing_key t) o s' e in
      record {
        values = λ j. incr-lease_key r laws s t j o s' e ∙ v.values j;
        counters =
            at_task-eq a.counter t (r.counter s' (fencing_key t)) (λ k. k)
              (λ j. r.counter s' (fencing_key j)) refl
              (λ j other. elim (kept.counters_kept (fencing_key j)) [
                | inl same ↦ absurd (other (fencing_key_injective t j same))
                | inr k ↦ k ∙ v.counters j
              ]);
      }

  -- A command on the lease key of a task that leaves its value as the holder says.
  pub key-Stores :
      (s s' : S) (a : Lock) (t : String) (h : Option (String × ℕ))
      → Stores r s a
      → KeepsOthers r (lease_key t) s s'
      → r.value s' (lease_key t) ≡ stored h
      → Stores r s' (held a t h)
  key-Stores s s' a t h v kept e = record {
    values =
        at_task-eq a.holder t h stored (λ j. r.value s' (lease_key j)) e
          (λ j other. elim (kept.values_kept (lease_key j)) [
            | inl same ↦ absurd (other (lease_key_injective t j same))
            | inr k ↦ k ∙ v.values j
          ]);
    counters = λ j. elim (kept.counters_kept (fencing_key j)) [
      | inl e' ↦ absurd (lease_key-ne-fencing_key t j e')
      | inr k ↦ k ∙ v.counters j
    ];
  }

  -- A command that keeps the value too.
  pub kept-Stores :
      (s s' : S) (a : Lock) (t : String)
      → Stores r s a
      → KeepsOthers r (lease_key t) s s'
      → r.value s' (lease_key t) ≡ r.value s (lease_key t)
      → Stores r s' a
  kept-Stores s s' a t v kept e = record {
    values = λ j. elim (Bool-cases (t == j)) [
      | inl same ↦
          let t≡j = ap lease_key ((eq_iff t j).0 same) in
          ap (r.value s') (sym t≡j) ∙ e ∙ ap (r.value s) t≡j ∙ v.values j
      | inr other ↦ elim (kept.values_kept (lease_key j)) [
        | inl same ↦ cc (sym other ∙ (eq_iff t j).1 (lease_key_injective t j same))
        | inr k ↦ k ∙ v.values j
      ]
    ];
    counters = λ j. elim (kept.counters_kept (fencing_key j)) [
      | inl e' ↦ absurd (lease_key-ne-fencing_key t j e')
      | inr k ↦ k ∙ v.counters j
    ];
  }
