-- ===== src/Runtime/HumanReview.antt =====
-- internal/runtime/service.go: what a human reviewer decides. `now` is what `time.Now` answers.
use code_co_driver.Prelude.{
  if◌then◌else◌, Outcome, ok, err, ℕ, String, Bool, true, false, ◌&&◌, not, none, [], ◌∷◌,
}
use code_co_driver.Prelude.Text.{Unicode, trim_space, is_empty, join}
use code_co_driver.Prelude.Float.{Float}
use code_co_driver.Domain.{Task, TaskStatus, created, completed, failed, human_review}
use code_co_driver.Store.{Memory, StoreError, task, update_task, add_artifact}
use code_co_driver.Store.Ids.{id}
use code_co_driver.Runtime.State.{Service, ServiceError, missing, not_waiting}
use code_co_driver.Runtime.Queue.{enqueue}
use code_co_driver.Runtime.Evidence.{latest_run_id, has_planner_skip_proposal}
use code_co_driver.Runtime.Evaluations.{finalize_evaluation}
use code_co_driver.Runtime.Records.{persist_failure_memory}
use code_co_driver.Agents.Values.{
  Codec, Value, Fields, text, object, no_fields, field, marshal_artifact,
}

abbrev pub waits_for_human : TaskStatus → Bool
waits_for_human human_review = true
waits_for_human _ = false

module _ {F : Type 0} (f : Float F) (u : Unicode) (codec : Codec F) where
  -- An artifact of the runtime itself.
  unfoldable pub note_artifact :
      ℕ → Memory F (Value F) → String → String → String → String → String → Memory F (Value F)
  note_artifact now m task_id run_id type name content =
      let (artifact_id, m') = id m "artifact" in
      add_artifact m' (record {
        id = artifact_id;
        task_id = task_id;
        run_id = run_id;
        type = type;
        name = name;
        content = content;
        created_at = now;
      })

  -- `recordHumanDecision`
  unfoldable pub record_human_decision :
      ℕ → Memory F (Value F) → String → String → Bool → String → Memory F (Value F)
  unfolding note_artifact
  record_human_decision now m task_id run_id approve reason =
      note_artifact now m task_id run_id "human_review" "human-decision.json" (
        join
          ("{\"decision\":"
            ∷ codec.quote (if approve then "approved" else "rejected")
            ∷ ",\"reason\":"
            ∷ codec.quote reason
            ∷ "}"
            ∷ [])
          "")

  -- The part of `ResolveHumanReview` that sends a task back of which a skip was proposed.
  unfoldable pub refuse_skip :
      ℕ → Service F (Value F) → Task → String → Outcome ServiceError Task × Service F (Value F)
  unfolding record_human_decision note_artifact enqueue
  refuse_skip now s t reason =
      let m1 = update_task now s.store t.id created "" in
      let run_id = latest_run_id u codec m1 t.id in
      let m2 = record_human_decision now m1 t.id run_id false reason in
      let content : Fields F =
        field "decision" (text "continue") (field "reason" (text reason) no_fields) in
      let m3 =
        note_artifact now m2 t.id run_id "planner_skip" "planner-skip-continue.json"
          (marshal_artifact codec (object content)) in
      (ok (record t { status = created; error = "" }), enqueue (record s { store = m3 }) t.id)

  -- The part that ends the task: the task with its status, the store in which it is written and its
  -- evaluations are finalised, and what is recorded of the decision.
  unfoldable pub settled_task : Task → Bool → String → Task
  settled_task t approve reason = record t {
    status = if approve then completed else failed;
    error =
        if not (is_empty reason)
        then reason
        else if approve
        then ""
        else "rejected by human reviewer";
  }

  unfoldable pub settled_store : ℕ → Memory F (Value F) → Task → Memory F (Value F)
  unfolding finalize_evaluation
  settled_store now m t' =
      finalize_evaluation f u codec now (update_task now m t'.id t'.status t'.error) t' t'.status
        none

  unfoldable pub settle_records :
      ℕ → Service F (Value F) → Task → Bool → String → String → Service F (Value F)
  unfolding record_human_decision persist_failure_memory
  settle_records now s t' approve reason run_id =
      let s' = record s { store = record_human_decision now s.store t'.id run_id approve reason } in
      if approve
      then s'
      else persist_failure_memory f u codec now s' t' run_id
          (join ("rejected by human reviewer: " ∷ reason ∷ []) "")

  unfoldable pub settle :
      ℕ
      → Service F (Value F)
      → Task
      → Bool
      → String
      → Outcome ServiceError Task × Service F (Value F)
  unfolding settled_task settled_store settle_records
  settle now s t approve reason =
      let t' = settled_task t approve reason in
      let m = settled_store now s.store t' in
      (
        ok t',
        settle_records now (record s { store = m }) t' approve reason
            (latest_run_id u codec m t'.id),
      )

  -- `ResolveHumanReview`, with the task that the store answers.
  unfoldable pub resolve_found :
      ℕ
      → Service F (Value F)
      → Bool
      → String
      → Outcome StoreError Task
      → Outcome ServiceError Task × Service F (Value F)
  unfolding refuse_skip settle
  resolve_found now s approve reason (err e) = (err missing, s)
  resolve_found now s approve reason (ok t) =
      if not (waits_for_human t.status)
      then (err not_waiting, s)
      else if not approve && has_planner_skip_proposal u codec s.store t.id
      then refuse_skip now s t (trim_space reason)
      else settle now s t approve (trim_space reason)

  -- `ResolveHumanReview`
  unfoldable pub resolve_human_review :
      ℕ
      → Service F (Value F)
      → String
      → Bool
      → String
      → Outcome ServiceError Task × Service F (Value F)
  unfolding resolve_found
  resolve_human_review now s task_id approve reason =
      resolve_found now s approve reason (task s.store task_id)
