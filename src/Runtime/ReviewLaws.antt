-- ===== src/Runtime/ReviewLaws.antt =====
-- internal/runtime/service.go: what `ResolveHumanReview` does with a task.
use code_co_driver.Prelude.{
  Bool-cases, if◌then◌else◌, Outcome, ok, err, ℕ, String, ◌≡◌, refl, ap, ◌∙◌, ◌⊎◌, inl, inr, Bool,
  true, false, ◌&&◌, not, none,
}
use code_co_driver.Prelude.Text.{Unicode, trim_space}
use code_co_driver.Prelude.Float.{Float}
use code_co_driver.Domain.{Task, TaskStatus, created, completed, failed}
use code_co_driver.Store.{Memory, StoreError, task, update_task, add_artifact}
use code_co_driver.Store.Ids.{id}
use code_co_driver.Agents.Values.{Codec, Value}
use code_co_driver.Runtime.State.{Service, ServiceError, missing, not_waiting}
use code_co_driver.Runtime.Evidence.{has_planner_skip_proposal}
use code_co_driver.Runtime.HumanReview.{
  waits_for_human, note_artifact, record_human_decision, refuse_skip, settled_task, settled_store,
  settle_records, settle, resolve_found, resolve_human_review,
}
use code_co_driver.Runtime.QueueLaws.{store-enqueue}
use code_co_driver.Runtime.KeepsTasks.{finalize_evaluation-tasks, persist_failure_memory-tasks}

-- The status of a task behind the decision, which a proposal to skip the task has a part in.
abbrev pub settled_status : Bool → Bool → TaskStatus
settled_status true proposed = completed
settled_status false true = created
settled_status false false = failed

module _ {F : Type 0} (f : Float F) (u : Unicode) (codec : Codec F) where
  -- The task is answered with its status, and its entry is all that changes among the tasks.
  pub record Settles (now : ℕ) (s : Service F (Value F)) (t : Task) (approve : Bool)
      (r : Outcome ServiceError Task × Service F (Value F)) : Type 0 where
    pub answered : Task
    pub answered_eq : r.0 ≡ ok answered
    pub status_eq :
        answered.status ≡ settled_status approve (has_planner_skip_proposal u codec s.store t.id)
    pub written :
        r.1.store.tasks ≡ (update_task now s.store t.id answered.status answered.error).tasks

  -- What becomes of the task that the store answers.
  abbrev pub Resolves :
      ℕ
      → Service F (Value F)
      → Bool
      → Outcome StoreError Task
      → Outcome ServiceError Task × Service F (Value F)
      → Type 0
  Resolves now s approve (err e) r = r ≡ (err missing, s)
  Resolves now s approve (ok t) r =
      ((waits_for_human t.status ≡ true) × Settles now s t approve r)
      ⊎ ((waits_for_human t.status ≡ false) × (r ≡ (err not_waiting, s)))

  refuse_skip-Settles :
      (now : ℕ) (s : Service F (Value F)) (t : Task) (reason : String)
      → has_planner_skip_proposal u codec s.store t.id ≡ true
      → Settles now s t false (refuse_skip f u codec now s t reason)
  unfolding refuse_skip record_human_decision note_artifact id add_artifact
  refuse_skip-Settles now s t reason h = record {
    answered = record t { status = created; error = "" };
    answered_eq = refl;
    status_eq = rw h refl;
    written = ap (λ (m : Memory F (Value F)). m.tasks) (store-enqueue _ t.id);
  }

  settle_records-tasks :
      (now : ℕ) (s : Service F (Value F)) (t : Task) (approve : Bool) (reason run_id : String)
      → (settle_records f u codec now s t approve reason run_id).store.tasks ≡ s.store.tasks
  unfolding settle_records record_human_decision note_artifact id add_artifact
  settle_records-tasks now s t true reason run_id = refl
  settle_records-tasks now s t false reason run_id =
      persist_failure_memory-tasks f u codec now
        (record s { store = record_human_decision f u codec now s.store t.id run_id false reason })
        t run_id _

  settle-Settles :
      (now : ℕ) (s : Service F (Value F)) (t : Task) (approve : Bool) (reason : String)
      → (if approve then completed else failed)
        ≡ settled_status approve (has_planner_skip_proposal u codec s.store t.id)
      → Settles now s t approve (settle f u codec now s t approve reason)
  unfolding settle settled_store settled_task
  settle-Settles now s t approve reason h =
      let t' = settled_task f u codec t approve reason in
      record {
        answered = t';
        answered_eq = refl;
        status_eq = h;
        written =
            settle_records-tasks now (record s { store = settled_store f u codec now s.store t' })
              t' approve reason _
            ∙ finalize_evaluation-tasks f u codec now
                (update_task now s.store t.id t'.status t'.error) t' t'.status none;
      }

  resolve_found-Resolves :
      (now : ℕ) (s : Service F (Value F)) (approve : Bool) (reason : String)
      (found : Outcome StoreError Task)
      → Resolves now s approve found (resolve_found f u codec now s approve reason found)
  unfolding resolve_found
  resolve_found-Resolves now s approve reason (err e) = refl
  resolve_found-Resolves now s approve reason (ok t) =
      elim (Bool-cases (waits_for_human t.status)) [
        | inr e ↦ inr (e, (rw e refl))
        | inl e ↦ inl (e, rw e (decide approve))
      ]
    where
      decide :
          (a : Bool)
          → Settles now s t a (
              if not a && has_planner_skip_proposal u codec s.store t.id
              then refuse_skip f u codec now s t (trim_space reason)
              else settle f u codec now s t a (trim_space reason))
      decide true = settle-Settles now s t true (trim_space reason) refl
      decide false = elim (Bool-cases (has_planner_skip_proposal u codec s.store t.id)) [
        | inl e ↦ rw e (refuse_skip-Settles now s t (trim_space reason) e)
        | inr e ↦ rw e (settle-Settles now s t false (trim_space reason) (rw e refl))
      ]

  -- `ResolveHumanReview` refuses a task that is missing or does not wait for a human and then leaves
  -- the service as it was. Of a task that waits, an approval completes it; a rejection fails it,
  -- unless one of its artifacts, of whatever run, is a proposal to skip it: then the task is created
  -- again. No other task changes.
  pub resolve_human_review-Resolves :
      (now : ℕ) (s : Service F (Value F)) (task_id : String) (approve : Bool) (reason : String)
      → Resolves now s approve
          (task s.store task_id)
          (resolve_human_review f u codec now s task_id approve reason)
  unfolding resolve_human_review
  resolve_human_review-Resolves now s task_id approve reason =
      resolve_found-Resolves now s approve reason (task s.store task_id)
