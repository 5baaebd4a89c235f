-- ===== src/Workflow/Attempts.antt =====
-- internal/runtime/workflow.go: how many attempts `runPatchLoop` makes, and what it decides.
use code_co_driver.Prelude.{
  nat_eq, Bool-cases, Option-cases, is_some, if◌then◌else◌, any, ok, err, ℕ, zero, suc, ◌+◌, ◌-◌,
  ◌≤◌, ◌<◌, String, ◌≡◌, refl, sym, ◌∙◌, inl, inr, true, false, Option, none, some, arith, ◌==◌,
}
use code_co_driver.Prelude.Text.{Unicode}
use code_co_driver.Runtime.{Service}
use code_co_driver.Agents.Values.{
  context_int-assign, Value, Fields, Objects, no_objects, context_int, count_entries,
}
use code_co_driver.Agents.Review.{review_decisions}
use code_co_driver.Workflow.Turns.{Turns, Tried, attempts_from-Tried, Turns-Counts}
use mathlib.Core.Path.{subst}
use code_co_driver.Workflow.Steps.{Ran, Surroundings, Job, and_then}
use code_co_driver.Workflow.Specs.{max_patch_attempts}
use code_co_driver.Workflow.Outcomes.{and_then-Ends, Ends-map, IsFailure, reset_for-IsFailure}
use code_co_driver.Workflow.Attempted.{IsDecision, Attempted, Leaves, after_reset-Attempted}
use code_co_driver.Workflow.Attempt.{LoopState}
use code_co_driver.Workflow.PatchLoop.{
  reset_for, after_reset, next_attempt, attempts_from, loop_result, leave_with, patch_attempts,
  decision_or_human,
}

-- What the loop leaves: a decision of the three, and between one and so many entries more.
pub record Looped {F : Type 0} (before most : ℕ) (l : LoopState F) : Type 0 where
  pub decided : IsDecision l.decision
  pub some_decision : is_some l.decision ≡ true
  pub least : before < count_entries l.attempts
  pub greatest : count_entries l.attempts ≤ most

-- What the loop answers: a decision of the three, and the number of its attempts in the context.
pub record Answers {F : Type 0} (most : ℕ) (answer : String × Fields F) : Type 0 where
  pub decision : any (λ c. answer.0 == c) review_decisions ≡ true
  pub least : 0 < context_int answer.1 "repair_attempts"
  pub greatest : context_int answer.1 "repair_attempts" ≤ most

decision_or_human-IsDecision :
    (decision : Option String)
    → IsDecision decision
    → any (λ c. decision_or_human decision == c) review_decisions ≡ true
decision_or_human-IsDecision none h = refl
decision_or_human-IsDecision (some d) h = h

module _ {F W : Type 0} (u : Unicode) (env : Surroundings F W) (job : Job) where
  last-Looped :
      (before : ℕ) (l : LoopState F) → Attempted true before l → Looped before (before + 0 + 1) l
  last-Looped before l a = record {
    decided = a.decided;
    some_decision = a.ended refl;
    least = rw a.counted (omega arith);
    greatest = rw a.counted (omega arith);
  }

  later-Looped :
      (before left : ℕ) (l : LoopState F)
      → Looped (suc before) (suc before + left + 1) l
      → Looped before (before + suc left + 1) l
  later-Looped before left l k = record {
    decided = k.decided;
    some_decision = k.some_decision;
    least = omega (arith, k.least);
    greatest = omega (arith, k.greatest);
  }

  attempts_from-Looped :
      (left attempt before : ℕ) (context : Fields F) (h : Objects F) (s : Service F (Value F))
      (w : W)
      → count_entries h ≡ before
      → Leaves u env job
          (Looped before (before + left + 1))
          (attempts_from u env job left attempt context h s w)
  unfolding attempts_from
  attempts_from-Looped zero attempt before context h s w c =
      Ends-map (IsFailure env job) (Attempted true before) (Looped before (before + 0 + 1)) _
        (last-Looped before)
        (after_reset-Attempted u env job attempt before true context h s
          (reset_for u env job attempt job.workspace w)
          (reset_for-IsFailure env job u attempt job.workspace w) c)
  attempts_from-Looped (suc left) attempt before context h s w c =
      and_then-Ends (IsFailure env job) (Attempted false before)
        (Looped before (before + suc left + 1))
        (after_reset u env job attempt false context h s
          (reset_for u env job attempt job.workspace w))
        (next_attempt u env job
          (λ context' h' s' w'. attempts_from u env job left (attempt + 1) context' h' s' w'))
        (after_reset-Attempted u env job attempt before false context h s
          (reset_for u env job attempt job.workspace w)
          (reset_for-IsFailure env job u attempt job.workspace w) c)
        (λ l s' w' a. goes_on l s' w' a (
          attempts_from-Looped left (attempt + 1) (suc before) l.context l.attempts s' w'
            a.counted))
    where
      goes_on :
          (l : LoopState F) (s' : Service F (Value F)) (w' : W)
          → Attempted false before l
          → Leaves u env job
              (Looped (suc before) (suc before + left + 1))
              (attempts_from u env job left (attempt + 1) l.context l.attempts s' w')
          → Leaves u env job (Looped before (before + suc left + 1)) (
              next_attempt u env job
                (λ context' h' s'' w''.
                  attempts_from u env job left (attempt + 1) context' h' s'' w'')
                l
                s'
                w')
      goes_on l s' w' a k = elim (Option-cases l.decision) [
        | inl e ↦
            rw (e, next_attempt)
              (Ends-map (IsFailure env job) (Looped (suc before) (suc before + left + 1))
                (Looped before (before + suc left + 1)) _ (later-Looped before left) k)
        | inr (d, e) ↦
            rw (e, next_attempt)
              (record {
                decided = a.decided;
                some_decision = rw e refl;
                least = rw a.counted (omega arith);
                greatest = rw a.counted (omega arith);
              })
      ]

  leave_with-Answers :
      (most : ℕ) (l : LoopState F) (s : Service F (Value F)) (w : W)
      → Looped 0 most l
      → Leaves u env job (Answers most) (leave_with u env job l s w)
  unfolding leave_with loop_result
  leave_with-Answers most l s w k =
      let counted = context_int-assign l.context "repair_attempts" (count_entries l.attempts) in
      record {
        decision = decision_or_human-IsDecision l.decision k.decided;
        least = rw counted k.least;
        greatest = rw counted k.greatest;
      }

  -- What the loop comes to: an answer, behind so many attempts as its context tells, and made of what
  -- the last one left; or an error, behind no more attempts than were allowed.
  abbrev pub Concludes :
      ℕ → Fields F → Service F (Value F) → W → Ran F W (String × Fields F) → Type 0
  Concludes most context s w ((err e, s'), w') =
      IsFailure env job e × Tried u env job most most 1 context no_objects s w ((err e, s'), w')
  Concludes most context s w ((ok answer, s'), w') =
      Answers most answer
      × (l : LoopState F) × (answer ≡ loop_result u env job l)
      × Turns u env job most 1 context no_objects s w (context_int answer.1 "repair_attempts")
          ((ok l, s'), w')

  leave_with-Concludes :
      (most : ℕ) (context : Fields F) (s : Service F (Value F)) (w : W) (r : Ran F W (LoopState F))
      → Leaves u env job (Looped 0 most) r
      → Tried u env job most most 1 context no_objects s w r
      → Concludes most context s w (and_then r (leave_with u env job))
  unfolding leave_with count_entries
  leave_with-Concludes most context s w ((err e, s'), w') failure tried = (failure, tried)
  leave_with-Concludes most context s w ((ok l, s'), w') k (n, within, turns) =
      let counted = context_int-assign l.context "repair_attempts" (count_entries l.attempts) in
      let made = Turns-Counts u env job turns in
      (
        leave_with-Answers most l s' w' k,
        l,
        refl,
        subst (λ m. Turns u env job most 1 context no_objects s w m ((ok l, s'), w'))
            (sym (counted ∙ made ∙ omega arith)) turns,
      )

  attempts-Concludes :
      (most : ℕ) (context : Fields F) (s : Service F (Value F)) (w : W)
      → 0 < most
      → Concludes most context s w (
          and_then
            (attempts_from u env job (most - 1) 1 context no_objects s w)
            (leave_with u env job))
  unfolding count_entries
  attempts-Concludes most context s w positive =
      let all : 0 + (most - 1) + 1 ≡ most = omega arith in
      let (n, within, turns) =
        attempts_from-Tried u env job most (most - 1) 1 context no_objects s w (omega arith) in
      leave_with-Concludes most context s w
        (attempts_from u env job (most - 1) 1 context no_objects s w)
        (subst
          (λ m.
            Leaves u env job (Looped 0 m)
              (attempts_from u env job (most - 1) 1 context no_objects s w))
          all (attempts_from-Looped (most - 1) 1 0 context no_objects s w refl))
        (n, omega (arith, within), turns)

  -- Whatever the agents answer, the patch loop is a chain of attempts, at least one and no more than
  -- it was allowed, three where no number was given, each begun where the one before it ended
  -- without a decision. Its decision is one of the three of a review, and the context tells the
  -- number of the attempts that were made; or an attempt fails, and then the error is the one that a
  -- step of one of its agents answered, or it names the one that a reset of the workspace answered.
  pub patch_attempts-Answers :
      (most : ℕ) (context : Fields F) (s : Service F (Value F)) (w : W)
      → Concludes
          (if nat_eq most 0 then max_patch_attempts else most)
          context
          s
          w
          (patch_attempts u env job most context s w)
  unfolding patch_attempts
  patch_attempts-Answers most context s w = elim (Bool-cases (nat_eq most 0)) [
    | inl e ↦ rw e (attempts-Concludes max_patch_attempts context s w (omega arith))
    | inr e ↦ rw e (attempts-Concludes most context s w (ground arith))
  ]
