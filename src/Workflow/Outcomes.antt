-- ===== src/Workflow/Outcomes.antt =====
-- internal/runtime/workflow.go: the ways in which a part of `runPatchLoop` can end.
use code_co_driver.Prelude.{
  ltb, Bool-cases, ok, err, ℕ, String, ◌≡◌, refl, inl, inr, Option, none, some, [], ◌∷◌,
}
use code_co_driver.Prelude.Text.{Unicode, join}
use code_co_driver.Domain.{TaskStatus}
use code_co_driver.Runtime.{Service}
use code_co_driver.Agents.Values.{Value, Fields}
use code_co_driver.Agents.Requests.{AgentResult}
use code_co_driver.Workflow.Steps.{Ran, Agent, Surroundings, Job, and_then, run_agent_step}
use code_co_driver.Workflow.PatchLoop.{reset_for}

-- A property of the value of a part that did not fail, and one of the error of a part that did.
abbrev pub Ends : {F W A : Type 0} → (String → Type 0) → (A → Type 0) → Ran F W A → Type 0
Ends E P ((err e, s), w) = E e
Ends E P ((ok a, s), w) = P a

pub and_then-Ends :
    {F W A B : Type 0} (E : String → Type 0) (P : A → Type 0) (Q : B → Type 0) (r : Ran F W A)
    (next : A → Service F (Value F) → W → Ran F W B)
    → Ends E P r
    → ((a : A) (s : Service F (Value F)) (w : W) → P a → Ends E Q (next a s w))
    → Ends E Q (and_then r next)
and_then-Ends E P Q ((err e, s), w) next h k = h
and_then-Ends E P Q ((ok a, s), w) next h k = k a s w h

pub Ends-map :
    {F W A : Type 0} (E : String → Type 0) (P Q : A → Type 0) (r : Ran F W A)
    → ((a : A) → P a → Q a)
    → Ends E P r
    → Ends E Q r
Ends-map E P Q ((err e, s), w) k h = h
Ends-map E P Q ((ok a, s), w) k h = k a h

module _ {F W : Type 0} (env : Surroundings F W) where
  -- The agents that the patch loop asks.
  pub data LoopAgent : Agent F W → Type 0 where
    the_planner : LoopAgent env.planner
    the_patch : LoopAgent env.patch
    the_test : LoopAgent env.test
    the_reviewer : LoopAgent env.reviewer

module _ {F W : Type 0} (env : Surroundings F W) (job : Job) where
  -- The errors of the patch loop: that of a step of one of its agents, and that of a reset.
  pub data IsFailure : String → Type 0 where
    failed_step :
        (status : TaskStatus) (a : Agent F W) (context : Fields F) (attempt : ℕ)
        (s : Service F (Value F)) (w : W) (e : String)
        → LoopAgent env a
        → (run_agent_step env job status a context attempt s w).0.0 ≡ err e
        → IsFailure e
    failed_reset :
        (workspace : ℕ) (w : W) (e : String)
        → (env.reset_workspace workspace w).0 ≡ some e
        → IsFailure (join ("reset task workspace: " ∷ e ∷ []) "")

  then-Ends :
      {A B : Type 0} (Q : B → Type 0) (r : Ran F W A)
      (next : A → Service F (Value F) → W → Ran F W B)
      → ((e : String) → r.0.0 ≡ err e → IsFailure e)
      → ((a : A) (s : Service F (Value F)) (w : W) → Ends IsFailure Q (next a s w))
      → Ends IsFailure Q (and_then r next)
  then-Ends Q ((err e, s), w) next h k = h e refl
  then-Ends Q ((ok a, s), w) next h k = k a s w

  pub step-Ends :
      {B : Type 0} (Q : B → Type 0) (status : TaskStatus) (a : Agent F W) (context : Fields F)
      (attempt : ℕ) (s : Service F (Value F)) (w : W)
      (next : AgentResult F → Service F (Value F) → W → Ran F W B)
      → LoopAgent env a
      → ((result : AgentResult F) (s' : Service F (Value F)) (w' : W)
          → Ends IsFailure Q (next result s' w'))
      → Ends IsFailure Q (and_then (run_agent_step env job status a context attempt s w) next)
  step-Ends Q status a context attempt s w next known k =
      then-Ends Q (run_agent_step env job status a context attempt s w) next
        (λ e h. failed_step status a context attempt s w e known h) k

  -- A reset that answers an error is a failure.
  pub reset_for-IsFailure :
      (u : Unicode) (attempt : ℕ) (workspace : Option ℕ) (w : W) (e : String)
      → (reset_for u env job attempt workspace w).0 ≡ some e
      → IsFailure (join ("reset task workspace: " ∷ e ∷ []) "")
  unfolding reset_for
  reset_for-IsFailure u attempt none w e h = cc
  reset_for-IsFailure u attempt (some workspace) w e h = elim (Bool-cases (ltb 1 attempt)) [
    | inl later ↦ failed_reset workspace w e (rw later at h)
    | inr first ↦ cc (rw first at h)
  ]
