-- ===== src/Workflow/PatchLoop.antt =====
-- internal/runtime/workflow.go: `runPatchLoop`, the attempts and the workspace in which they are made.
use code_co_driver.Prelude.{
  ltb, nat_eq, if◌then◌else◌, Outcome, ok, err, ℕ, zero, suc, ◌+◌, ◌-◌, String, Bool, true, false,
  Option, none, some, [], ◌∷◌,
}
use code_co_driver.Prelude.Text.{Unicode, join}
use code_co_driver.Runtime.{Service}
use code_co_driver.Agents.Values.{Value, Fields, Objects, number, no_objects, assign, count_entries}
use code_co_driver.Agents.Requests.{review_human_required}
use code_co_driver.Workflow.Specs.{max_patch_attempts}
use code_co_driver.Workflow.Steps.{Ran, Surroundings, Job, and_then}
use code_co_driver.Workflow.Attempt.{LoopState, attempt_patch}

abbrev pub decision_or_human : Option String → String
decision_or_human none = review_human_required
decision_or_human (some decision) = decision

module _ {F W : Type 0} (u : Unicode) (env : Surroundings F W) (job : Job) where
  -- The reset of the workspace in front of every attempt but the first.
  unfoldable pub reset_for : ℕ → Option ℕ → W → Option String × W
  reset_for attempt none w = (none, w)
  reset_for attempt (some workspace) w =
      if ltb 1 attempt then env.reset_workspace workspace w else (none, w)

  unfoldable pub after_reset :
      ℕ
      → Bool
      → Fields F
      → Objects F
      → Service F (Value F)
      → Option String × W
      → Ran F W (LoopState F)
  unfolding attempt_patch
  after_reset attempt last context attempts s (some e, w) =
      ((err (join ("reset task workspace: " ∷ e ∷ []) ""), s), w)
  after_reset attempt last context attempts s (none, w) =
      attempt_patch u env job attempt last context attempts s w

  -- The loop is left with a decision, and goes on without one.
  unfoldable pub next_attempt :
      (Fields F → Objects F → Service F (Value F) → W → Ran F W (LoopState F))
      → LoopState F
      → Service F (Value F)
      → W
      → Ran F W (LoopState F)
  next_attempt go l s w = elim l.decision [
    | some decision ↦ ((ok l, s), w)
    | none ↦ go l.context l.attempts s w
  ]

  -- The loop, with `left` attempts behind the one that it begins with.
  unfoldable pub attempts_from :
      ℕ → ℕ → Fields F → Objects F → Service F (Value F) → W → Ran F W (LoopState F)
  unfolding after_reset reset_for next_attempt
  attempts_from zero attempt context attempts s w =
      after_reset attempt true context attempts s (reset_for attempt job.workspace w)
  attempts_from (suc left) attempt context attempts s w =
      and_then (after_reset attempt false context attempts s (reset_for attempt job.workspace w)) (
        next_attempt
          (λ context' attempts' s' w'. attempts_from left (attempt + 1) context' attempts' s' w'))

  -- The end of the loop, with its context.
  unfoldable pub loop_result : LoopState F → String × Fields F
  loop_result l = (
    decision_or_human l.decision,
    assign l.context "repair_attempts" (number (count_entries l.attempts)),
  )

  unfoldable pub leave_with : LoopState F → Service F (Value F) → W → Ran F W (String × Fields F)
  unfolding loop_result
  leave_with l s w = ((ok (loop_result l), s), w)

  -- The loop of `runPatchLoop`, in the workspace of the job.
  unfoldable pub patch_attempts :
      ℕ → Fields F → Service F (Value F) → W → Ran F W (String × Fields F)
  unfolding attempts_from leave_with
  patch_attempts max_attempts context s w =
      let max = if nat_eq max_attempts 0 then max_patch_attempts else max_attempts in
      and_then (attempts_from (max - 1) 1 context no_objects s w) leave_with

module _ {F W : Type 0} (u : Unicode) (env : Surroundings F W) where
  -- The workspace that the loop opens itself is closed behind it.
  unfoldable pub in_own_workspace :
      Job → ℕ → Fields F → Service F (Value F) → Outcome String ℕ × W → Ran F W (String × Fields F)
  unfolding patch_attempts
  in_own_workspace job max_attempts context s (err e, w) =
      ((err (join ("create task workspace: " ∷ e ∷ []) ""), s), w)
  in_own_workspace job max_attempts context s (ok workspace, w) =
      let (result, w') =
        patch_attempts u env (record job { workspace = some workspace }) max_attempts context s w in
      (result, env.close_workspace workspace w')

  -- Where there is no workspace, one is opened if there is a factory.
  unfoldable pub open_if_needed :
      Job
      → ℕ
      → Fields F
      → Service F (Value F)
      → W
      → Option ℕ
      → Option (String → W → Outcome String ℕ × W)
      → Ran F W (String × Fields F)
  unfolding in_own_workspace patch_attempts
  open_if_needed job max_attempts context s w none (some open_workspace) =
      in_own_workspace job max_attempts context s (open_workspace job.repository.path w)
  open_if_needed job max_attempts context s w _ _ =
      patch_attempts u env job max_attempts context s w

  -- `runPatchLoop`
  unfoldable pub run_patch_loop :
      Job → ℕ → Fields F → Service F (Value F) → W → Ran F W (String × Fields F)
  unfolding open_if_needed
  run_patch_loop job max_attempts context s w =
      open_if_needed job max_attempts context s w job.workspace env.open_workspace
