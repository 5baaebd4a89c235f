-- ===== src/Workflow/Attempted.antt =====
-- internal/runtime/workflow.go: what one attempt of `runPatchLoop` leaves.
use code_co_driver.Prelude.{
  Bool-cases, is_some, if◌then◌else◌, any, ℕ, suc, ◌+◌, String, ◌≡◌, refl, ap, ◌∙◌, inl, inr, Bool,
  true, false, Option, none, some, [], ◌∷◌, arith, ◌==◌,
}
use code_co_driver.Prelude.Text.{Unicode, join}
use code_co_driver.Domain.{generating_patch, running_tests, reviewing, replan_required}
use code_co_driver.Runtime.{Service}
use code_co_driver.Agents.Values.{
  Value, Fields, Objects, Report, no_objects, entry, lookup, assign, remove, append_entry,
  count_entries, as_object, as_text, as_report, text_or_empty, history,
}
use code_co_driver.Agents.Requests.{AgentResult, review_human_required}
use code_co_driver.Agents.Review.{review_decision_from_result, review_decisions}
use code_co_driver.Agents.Repair.{attempt_summary, repair_feedback, review_feedback}
use code_co_driver.Workflow.Steps.{Ran, Surroundings, Job, and_then}
use code_co_driver.Workflow.Outcomes.{
  Ends, and_then-Ends, IsFailure, the_planner, the_patch, the_test, the_reviewer, step-Ends,
}
use code_co_driver.Workflow.Attempt.{
  LoopState, note_decision, is_passed, report_or_zero, reviewed, planned, replan, review_given,
  review, leave_loop, ends_loop, after_review, after_test, tested, patched, attempt_patch,
  with_feedback, review_instruction, sandbox_instruction,
}
use code_co_driver.Workflow.PatchLoop.{after_reset}

count-append_entry :
    {F : Type 0} (h : Objects F) (x : Fields F)
    → count_entries (append_entry h x) ≡ suc (count_entries h)
unfolding count_entries append_entry
count-append_entry no_objects x = refl
count-append_entry (entry y h) x = ap suc (count-append_entry h x)

count-note_decision :
    {F : Type 0} (h : Objects F) (d : String) → count_entries (note_decision h d) ≡ count_entries h
unfolding count_entries note_decision
count-note_decision no_objects d = refl
count-note_decision (entry x no_objects) d = refl
count-note_decision (entry x (entry y h)) d = ap suc (count-note_decision (entry y h) d)

-- A decision, if there is one, is one of the three.
abbrev pub IsDecision : Option String → Type 0
IsDecision none = Unit
IsDecision (some d) = any (λ c. d == c) review_decisions ≡ true

review_decision_from_result-IsDecision :
    {F : Type 0} (output : Value F)
    → any (λ c. review_decision_from_result output == c) review_decisions ≡ true
unfolding review_decision_from_result
review_decision_from_result-IsDecision {F = F} output = go (as_object (some output))
  where
    known :
        (d : String)
        → any
            (λ c. (if any (λ c'. d == c') review_decisions then d else review_human_required) == c)
            review_decisions
          ≡ true
    known d = elim (Bool-cases (any (λ c. d == c) review_decisions)) [
      | inl e ↦ rw e e
      | inr e ↦ rw e refl
    ]

    go :
        (result : Option (Fields F))
        → any
            (λ c.
              (elim result [
                | none ↦ review_human_required
                | some r ↦
                    (if any
                        (λ c'. text_or_empty (as_text (lookup r "decision")) == c')
                        review_decisions
                      then text_or_empty (as_text (lookup r "decision"))
                      else review_human_required)
              ])
              == c)
            review_decisions
          ≡ true
    go none = refl
    go (some r) = known (text_or_empty (as_text (lookup r "decision")))

-- After an attempt: one entry more, a decision of the three, and one if it was the last attempt.
pub record Attempted {F : Type 0} (last : Bool) (before : ℕ) (l : LoopState F) : Type 0 where
  pub counted : count_entries l.attempts ≡ suc before
  pub decided : IsDecision l.decision
  pub ended : last ≡ true → is_some l.decision ≡ true

module _ {F W : Type 0} (u : Unicode) (env : Surroundings F W) (job : Job) where
  -- What a part of the loop leaves, where none of the loop's agents and no reset fails.
  abbrev pub Leaves : {A : Type 0} → (A → Type 0) → Ran F W A → Type 0
  Leaves P r = Ends (IsFailure env job) P r

  abbrev ReviewedAs : ℕ → LoopState F × AgentResult F → Type 0
  ReviewedAs before p = Attempted true before p.0

  replan-Attempted :
      (attempt before : ℕ) (context : Fields F) (h : Objects F) (s : Service F (Value F)) (w : W)
      → count_entries h ≡ suc before
      → Leaves (Attempted false before) (replan u env job attempt context h s w)
  unfolding replan planned
  replan-Attempted attempt before context h s w e =
      step-Ends env job (Attempted false before) replan_required env.planner
        (remove (remove (remove context "patch") "test") "reviewer") (attempt + 1) s w
        (planned u env job (remove (remove (remove context "patch") "test") "reviewer") h)
        the_planner (λ a s' w'. record { counted = e; decided = tt; ended = λ f. grind arith })

  review-Attempted :
      (attempt before : ℕ) (context : Fields F) (h : Objects F) (s : Service F (Value F)) (w : W)
      → count_entries h ≡ suc before
      → Leaves (ReviewedAs before) (review u env job attempt context h s w)
  unfolding review review_given reviewed
  review-Attempted attempt before context h s w e =
      step-Ends env job (ReviewedAs before) reviewing env.reviewer context attempt s w
        (review_given u env job context h) the_reviewer
        (λ a s' w'. record {
          counted = count-note_decision h (review_decision_from_result a.output) ∙ e;
          decided = review_decision_from_result-IsDecision a.output;
          ended = λ f. refl;
        })

  Attempted-last :
      (last : Bool) (before : ℕ) (l : LoopState F)
      → Attempted true before l
      → Attempted last before l
  Attempted-last last before l a = record {
    counted = a.counted;
    decided = a.decided;
    ended = λ f. a.ended refl;
  }

  after_review-Attempted :
      (attempt before : ℕ) (last : Bool) (p : LoopState F × AgentResult F) (s : Service F (Value F))
      (w : W)
      → ReviewedAs before p
      → Leaves (Attempted last before) (after_review u env job attempt last p s w)
  unfolding after_review
  after_review-Attempted attempt before true (l, result) s w a =
      elim (Bool-cases (ends_loop l.decision)) [ inl e ↦ rw e a | inr e ↦ rw e a ]
  after_review-Attempted attempt before false (l, result) s w a =
      elim (Bool-cases (ends_loop l.decision)) [
        | inl e ↦ rw e (Attempted-last false before l a)
        | inr e ↦ rw e (
            replan-Attempted attempt before
              (with_feedback l.context (review_feedback result.output) review_instruction)
              l.attempts s w a.counted)
      ]

  after_test-Attempted :
      (attempt before : ℕ) (last : Bool) (context : Fields F) (h : Objects F)
      (report : Option Report) (s : Service F (Value F)) (w : W)
      → count_entries h ≡ before
      → Leaves (Attempted last before) (after_test u env job attempt last context h report s w)
  unfolding after_test
  after_test-Attempted attempt before last context h report s w e =
      elim (Bool-cases (is_passed report)) [
        | inl b ↦ rw b (
            and_then-Ends (IsFailure env job) (ReviewedAs before) (Attempted last before)
              (review u env job attempt recorded all s w) (after_review u env job attempt last)
              (review-Attempted attempt before recorded all s w counted)
              (λ p s' w' a. after_review-Attempted attempt before last p s' w' a))
        | inr b ↦ rw b (failed_tests last)
      ]
    where
      all : Objects F
      all = append_entry h (attempt_summary u attempt (report_or_zero report))

      recorded : Fields F
      recorded = assign context "attempt_history" (history all)

      counted : count_entries all ≡ suc before
      counted = count-append_entry h _ ∙ ap suc e

      left :
          (p : LoopState F × AgentResult F) (s' : Service F (Value F)) (w' : W)
          → ReviewedAs before p
          → Leaves (Attempted true before) (leave_loop u env job p s' w')
      left (l, result) s' w' a = a

      failed_tests :
          (last' : Bool)
          → Leaves (Attempted last' before) (
              if last'
              then and_then (review u env job attempt recorded all s w) (leave_loop u env job)
              else replan u env job attempt
                  (with_feedback recorded
                    (repair_feedback u (report_or_zero report))
                    sandbox_instruction)
                  all
                  s
                  w)
      failed_tests true =
          and_then-Ends (IsFailure env job) (ReviewedAs before) (Attempted true before)
            (review u env job attempt recorded all s w) (leave_loop u env job)
            (review-Attempted attempt before recorded all s w counted) left
      failed_tests false = replan-Attempted attempt before _ all s w counted

  pub after_reset-Attempted :
      (attempt before : ℕ) (last : Bool) (context : Fields F) (h : Objects F)
      (s : Service F (Value F)) (r : Option String × W)
      → ((e : String)
          → r.0 ≡ some e
          → IsFailure env job (join ("reset task workspace: " ∷ e ∷ []) ""))
      → count_entries h ≡ before
      → Leaves (Attempted last before) (after_reset u env job attempt last context h s r)
  unfolding after_reset attempt_patch patched tested
  after_reset-Attempted attempt before last context h s (some e, w) failure c = failure e refl
  after_reset-Attempted attempt before last context h s (none, w) failure c =
      step-Ends env job (Attempted last before) generating_patch env.patch context attempt s w
        (patched u env job attempt last context h) the_patch
        (λ p s1 w1.
          step-Ends env job (Attempted last before) running_tests env.test
            (assign context "patch" p.output) attempt s1 w1
            (tested u env job attempt last (assign context "patch" p.output) h) the_test
            (λ q s2 w2.
              after_test-Attempted attempt before last
                (assign (assign context "patch" p.output) "test" q.output) h
                (as_report (some q.output)) s2 w2 c))
