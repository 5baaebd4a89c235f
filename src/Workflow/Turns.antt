-- ===== src/Workflow/Turns.antt =====
-- internal/runtime/workflow.go: the loop of `runPatchLoop` as a chain of attempts, each begun where
-- the one before it ended.
use code_co_driver.Prelude.{
  nat_eq, Option-cases, is_some, ok, err, ℕ, zero, suc, ◌+◌, ◌≤◌, String, ◌≡◌, refl, ap, inl, inr,
  Bool, true, false, none, arith,
}
use mathlib.Core.Path.{subst}
use code_co_driver.Prelude.Text.{Unicode}
use code_co_driver.Runtime.{Service}
use code_co_driver.Agents.Values.{Value, Fields, Objects, count_entries}
use code_co_driver.Workflow.Steps.{Ran, Surroundings, Job, and_then}
use code_co_driver.Workflow.Outcomes.{reset_for-IsFailure}
use code_co_driver.Workflow.Attempted.{Attempted, Leaves, after_reset-Attempted}
use code_co_driver.Workflow.Attempt.{LoopState}
use code_co_driver.Workflow.PatchLoop.{reset_for, after_reset, next_attempt, attempts_from}

module _ {F W : Type 0} (u : Unicode) (env : Surroundings F W) (job : Job) where
  -- One attempt, with the reset in front of it.
  abbrev pub turn :
      ℕ → Bool → Fields F → Objects F → Service F (Value F) → W → Ran F W (LoopState F)
  turn attempt last context h s w =
      after_reset u env job attempt last context h s (reset_for u env job attempt job.workspace w)

  -- So many attempts with a result, counted on from a number: each but the last one leaves no
  -- decision, and the last one leaves a decision or fails.
  pub data Turns (most : ℕ)
      : ℕ
        → Fields F
        → Objects F
        → Service F (Value F)
        → W
        → ℕ
        → Ran F W (LoopState F)
        → Type 0 where
    decides :
        (attempt : ℕ) (last : Bool) (context : Fields F) (h : Objects F) (s : Service F (Value F))
        (w : W) (l : LoopState F) (s' : Service F (Value F)) (w' : W)
        → last ≡ nat_eq attempt most
        → turn attempt last context h s w ≡ ((ok l, s'), w')
        → is_some l.decision ≡ true
        → Turns most attempt context h s w 1 ((ok l, s'), w')
    fails :
        (attempt : ℕ) (last : Bool) (context : Fields F) (h : Objects F) (s : Service F (Value F))
        (w : W) (e : String) (s' : Service F (Value F)) (w' : W)
        → last ≡ nat_eq attempt most
        → turn attempt last context h s w ≡ ((err e, s'), w')
        → Turns most attempt context h s w 1 ((err e, s'), w')
    goes_on :
        (attempt : ℕ) (context : Fields F) (h : Objects F) (s : Service F (Value F)) (w : W)
        (l : LoopState F) (s' : Service F (Value F)) (w' : W) (n : ℕ) (r : Ran F W (LoopState F))
        → false ≡ nat_eq attempt most
        → turn attempt false context h s w ≡ ((ok l, s'), w')
        → l.decision ≡ none
        → Turns most (attempt + 1) l.context l.attempts s' w' n r
        → Turns most attempt context h s w (suc n) r

  -- The result comes of no more attempts than a bound.
  abbrev pub Tried :
      ℕ → ℕ → ℕ → Fields F → Objects F → Service F (Value F) → W → Ran F W (LoopState F) → Type 0
  Tried most bound attempt context h s w r =
      (n : ℕ) × (n ≤ bound) × Turns most attempt context h s w n r

  turn-Attempted :
      (attempt : ℕ) (last : Bool) (context : Fields F) (h : Objects F) (s : Service F (Value F))
      (w : W)
      → Leaves u env job (Attempted last (count_entries h)) (turn attempt last context h s w)
  turn-Attempted attempt last context h s w =
      after_reset-Attempted u env job attempt (count_entries h) last context h s
        (reset_for u env job attempt job.workspace w)
        (reset_for-IsFailure env job u attempt job.workspace w) refl

  last-Tried :
      (most attempt : ℕ) (context : Fields F) (h : Objects F) (s : Service F (Value F)) (w : W)
      (r : Ran F W (LoopState F))
      → true ≡ nat_eq attempt most
      → turn attempt true context h s w ≡ r
      → Leaves u env job (Attempted true (count_entries h)) r
      → Tried most 1 attempt context h s w r
  last-Tried most attempt context h s w ((err e, s'), w') last q a =
      (1, omega arith, fails attempt true context h s w e s' w' last q)
  last-Tried most attempt context h s w ((ok l, s'), w') last q a =
      (1, omega arith, decides attempt true context h s w l s' w' last q (a.ended refl))

  next-Tried :
      (most bound attempt : ℕ) (context : Fields F) (h : Objects F) (s : Service F (Value F))
      (w : W) (r : Ran F W (LoopState F))
      (go : Fields F → Objects F → Service F (Value F) → W → Ran F W (LoopState F))
      → false ≡ nat_eq attempt most
      → turn attempt false context h s w ≡ r
      → ((context' : Fields F) (h' : Objects F) (s' : Service F (Value F)) (w' : W)
          → Tried most bound (attempt + 1) context' h' s' w' (go context' h' s' w'))
      → Tried most (suc bound) attempt context h s w (and_then r (next_attempt u env job go))
  unfolding next_attempt
  next-Tried most bound attempt context h s w ((err e, s'), w') go early q k =
      (1, omega arith, fails attempt false context h s w e s' w' early q)
  next-Tried most bound attempt context h s w ((ok l, s'), w') go early q k =
      elim (Option-cases l.decision) [
        | inl e ↦
            let (n, within, turns) = k l.context l.attempts s' w' in
            rw (e, next_attempt)
              (
                suc n,
                omega (arith, within),
                goes_on attempt context h s w l s' w' n _ early q e turns,
              )
        | inr (d, e) ↦
            rw (e, next_attempt)
              (1, omega arith, decides attempt false context h s w l s' w' early q (ap is_some e))
      ]

  pub attempts_from-Tried :
      (most left attempt : ℕ) (context : Fields F) (h : Objects F) (s : Service F (Value F)) (w : W)
      → attempt + left ≡ most
      → Tried most
          (left + 1)
          attempt
          context
          h
          s
          w
          (attempts_from u env job left attempt context h s w)
  unfolding attempts_from
  attempts_from-Tried most zero attempt context h s w e =
      last-Tried most attempt context h s w (turn attempt true context h s w) (ground (arith, e))
        refl (turn-Attempted attempt true context h s w)
  attempts_from-Tried most (suc left) attempt context h s w e =
      let (n, within, turns) =
        next-Tried most (left + 1) attempt context h s w (turn attempt false context h s w)
          (λ context' h' s' w'. attempts_from u env job left (attempt + 1) context' h' s' w')
          (ground (arith, e)) refl
          (λ context' h' s' w'.
            attempts_from-Tried most left (attempt + 1) context' h' s' w' (omega (arith, e))) in
      (n, omega (arith, within), turns)

  -- The history has one entry more for each attempt.
  abbrev pub Counts : ℕ → Ran F W (LoopState F) → Type 0
  Counts total ((err e, s), w) = Unit
  Counts total ((ok l, s), w) = count_entries l.attempts ≡ total

  pub Turns-Counts :
      {most attempt : ℕ} {context : Fields F} {h : Objects F} {s : Service F (Value F)} {w : W}
      {n : ℕ} {r : Ran F W (LoopState F)}
      → Turns most attempt context h s w n r
      → Counts (count_entries h + n) r
  Turns-Counts (decides attempt last context h s w l s' w' ending q decided) =
      let a =
        subst (Leaves u env job (Attempted last (count_entries h))) q
          (turn-Attempted attempt last context h s w) in
      omega (arith, a.counted)
  Turns-Counts (fails attempt last context h s w e s' w' ending q) = tt
  Turns-Counts (goes_on attempt context h s w l s' w' n r early q undecided turns) =
      let a =
        subst (Leaves u env job (Attempted false (count_entries h))) q
          (turn-Attempted attempt false context h s w) in
      subst (λ total. Counts total r) (omega (arith, a.counted)) (Turns-Counts turns)
