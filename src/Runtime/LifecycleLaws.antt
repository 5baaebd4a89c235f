-- ===== src/Runtime/LifecycleLaws.antt =====
-- internal/runtime/service.go, `createTask` and `CancelTask`: what the answers promise.
use code_co_driver.Prelude.{
  Bool-cases, is_some, if◌then◌else◌, or_error, ℕ, String, ◌≡◌, refl, sym, ap, ◌∙◌, ◌⊎◌, inl, inr,
  true, false, Option, none, some, arith, ◌==◌, eq_refl,
}
use code_co_driver.Prelude.Dict.{get, put, get_or, get-put}
use code_co_driver.Domain.{Task, cancelled}
use code_co_driver.Store.{Memory, not_found, task, update_task, zero_task}
use code_co_driver.Runtime.State.{Service, ServiceError, is_terminal, missing, already_terminal}
use code_co_driver.Runtime.Lifecycle.{cancel_context, cancel_found, cancel_task}

module _ {F V : Type 0} where
  -- The service after an accepted cancellation: the task is cancelled, no other task changes, and
  -- the context of a running task is cancelled.
  pub record IsCancelled (s s' : Service F V) (task_id : String) : Type 0 where
    pub now_cancelled : (t : Task) × (get s'.store.tasks task_id ≡ some t) × (t.status ≡ cancelled)
    pub others_same :
        (j : String)
        → get s'.store.tasks j
          ≡ (if task_id == j then get s'.store.tasks task_id else get s.store.tasks j)
    pub context_cancelled :
        get s'.cancel_tasks task_id
        ≡ (if is_some (get s.cancel_tasks task_id) then some true else none)

  -- What `CancelTask` answers, and what it does to the service.
  abbrev pub Cancels : Service F V → String → Option ServiceError × Service F V → Type 0
  Cancels s task_id (none, s') =
      ((t : Task) × (get s.store.tasks task_id ≡ some t) × (is_terminal t.status ≡ false))
      × IsCancelled s s' task_id
  Cancels s task_id (some e, s') =
      (s' ≡ s)
      × (((e ≡ missing) × (get s.store.tasks task_id ≡ none))
          ⊎ ((t : Task) × (e ≡ already_terminal)
              × (get s.store.tasks task_id ≡ some t)
              × (is_terminal t.status ≡ true)))

  cancel_context-store : (s : Service F V) (i : String) → (cancel_context s i).store ≡ s.store
  unfolding cancel_context
  cancel_context-store s i = ground arith

  cancel_context-cancelled :
      (s : Service F V) (i : String)
      → get (cancel_context s i).cancel_tasks i
        ≡ (if is_some (get s.cancel_tasks i) then some true else none)
  unfolding cancel_context
  cancel_context-cancelled s i = ground (arith, get-put s.cancel_tasks i i true, eq_refl i)

  cancel_found-accepted :
      (now : ℕ) (s : Service F V) (i : String)
      → IsCancelled s
          (cancel_context
            (record s { store = update_task now s.store i cancelled "cancelled by user" })
            i)
          i
  unfolding update_task
  cancel_found-accepted now s i =
      let t = get_or s.store.tasks i zero_task in
      let t' : Task = record t {
        status = cancelled;
        error = "cancelled by user";
        updated_at = now;
      } in
      let m = update_task now s.store i cancelled "cancelled by user" in
      let same : (cancel_context (record s { store = m }) i).store.tasks ≡ put s.store.tasks i t' =
        ap (λ (x : Memory F V). x.tasks) (cancel_context-store (record s { store = m }) i) in
      let found =
        get-put s.store.tasks i i t'
        ∙ ap (λ b. if b then some t' else get s.store.tasks i) (eq_refl i) in
      record {
        now_cancelled = (t', ap (λ x. get x i) same ∙ found, refl);
        others_same = λ j.
            ap (λ x. get x j) same
            ∙ get-put s.store.tasks i j t'
            ∙ ap (λ o. if i == j then o else get s.store.tasks j)
                (sym (ap (λ x. get x i) same ∙ found));
        context_cancelled = cancel_context-cancelled (record s { store = m }) i;
      }

  cancel_found-Cancels :
      (now : ℕ) (s : Service F V) (i : String) (o : Option Task)
      → get s.store.tasks i ≡ o
      → Cancels s i (cancel_found now s i (or_error not_found o))
  unfolding cancel_found
  cancel_found-Cancels now s i none e = (refl, inl (refl, e))
  cancel_found-Cancels now s i (some t) e = elim (Bool-cases (is_terminal t.status)) [
    | inl h ↦ rw h (refl, inr (t, refl, e, h))
    | inr h ↦ rw h ((t, e, h), cancel_found-accepted now s i)
  ]

  -- `CancelTask` refuses a task that is missing or terminal and then leaves the service as it was;
  -- it accepts every other task, which is then cancelled, with its running context, and no other
  -- task changes.
  pub cancel_task-Cancels :
      (now : ℕ) (s : Service F V) (task_id : String) → Cancels s task_id (cancel_task now s task_id)
  unfolding cancel_task task
  cancel_task-Cancels now s i = cancel_found-Cancels now s i (get s.store.tasks i) refl
