-- ===== src/Runtime/Failing.antt =====
-- internal/runtime/service.go: the end of a run that failed. `now` is what `time.Now` answers.
use code_co_driver.Prelude.{
  nat_eq, if◌then◌else◌, Outcome, ok, err, ℕ, String, Bool, true, false, Option, none, some,
}
use code_co_driver.Prelude.Text.{Unicode, is_empty}
use code_co_driver.Prelude.Float.{Float}
use code_co_driver.Domain.{Task, TaskStatus, failed, cancelled}
use code_co_driver.Store.{
  Memory, StoreError, stale_run, task, update_task, update_task_for_run, finish_run,
  finish_run_with_token,
}
use code_co_driver.Runtime.State.{Service}
use code_co_driver.Runtime.Evaluations.{finalize_evaluation}
use code_co_driver.Runtime.Records.{persist_failure_memory}
use code_co_driver.Agents.Values.{Codec, Value}

abbrev pub is_cancelled : Outcome StoreError Task → Bool
is_cancelled (err e) = false
is_cancelled (ok t) = elim t.status [ cancelled ↦ true | _ ↦ false ]

module _ {F : Type 0} (f : Float F) (u : Unicode) (codec : Codec F) where
  -- The end of the run, if there is one; an error of the store is passed over.
  unfoldable pub end_run :
      ℕ → Memory F (Value F) → String → String → ℕ → TaskStatus → Memory F (Value F)
  end_run now m task_id run_id token status =
      if is_empty run_id
      then m
      else if nat_eq token 0
      then finish_run now m task_id run_id status
      else (finish_run_with_token now m task_id run_id status token).0

  -- The last part of `failForRun`, once the task is written.
  unfoldable pub record_failure :
      ℕ
      → Service F (Value F)
      → Task
      → String
      → ℕ
      → String
      → Memory F (Value F) × Option StoreError
      → Service F (Value F)
  unfolding end_run finalize_evaluation persist_failure_memory
  record_failure now s t run_id token error (m, some stale_run) = record s { store = m }
  record_failure now s t run_id token error (m, _) =
      let t' = record t { error = error } in
      let ended = end_run now m t.id run_id token failed in
      persist_failure_memory f u codec now
        (record s { store = finalize_evaluation f u codec now ended t' failed none }) t' run_id
        error

  -- `failForRun`
  unfoldable pub fail_for_run :
      ℕ → Service F (Value F) → Task → String → ℕ → String → Service F (Value F)
  unfolding record_failure end_run
  fail_for_run now s t run_id token error =
      let stopped = record s { store = end_run now s.store t.id run_id token cancelled } in
      let written : Memory F (Value F) × Option StoreError =
        if nat_eq token 0
        then (update_task now s.store t.id failed error, none)
        else update_task_for_run now s.store t.id run_id token failed error in
      if is_cancelled (task s.store t.id)
      then stopped
      else record_failure now s t run_id token error written

  -- `fail`
  unfoldable pub fail : ℕ → Service F (Value F) → Task → String → String → Service F (Value F)
  unfolding fail_for_run
  fail now s t run_id error = fail_for_run now s t run_id 0 error
