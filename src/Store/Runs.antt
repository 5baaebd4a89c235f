-- ===== src/Store/Runs.antt =====
-- internal/store/memory.go: what `FinishRunWithToken` does to the runs, and what `Tasks` lists.
use code_co_driver.Prelude.{
  ltb, Bool-cases, if◌then◌else◌, select, any, count, ℕ, String, ◌≡◌, refl, sym, ap, ◌∙◌, inl, inr,
  Bool, not, none, some, List, [], ◌∷◌, map, arith, ◌==◌, eq_refl,
}
use code_co_driver.Prelude.Dict.{get_or-put, values}
use code_co_driver.Prelude.Sort.{IsSorted, sort-IsSorted, count-sort}
use code_co_driver.Domain.{Task, TaskRun, TaskStatus}
use code_co_driver.Store.State.{Memory, stale_run}
use code_co_driver.Store.Tasks.{holds_token, finish_matching, finish_run_with_token, runs, tasks}

-- A run that is over.
abbrev pub ended : ℕ → TaskStatus → TaskRun → TaskRun
ended now status r = record r { status = status; ended_at = now }

finish_matching_others :
    (now : ℕ) (run_id : String) (token : ℕ) (status : TaskStatus) (rs : List TaskRun)
    → select
        (λ r. not (holds_token run_id token r))
        (finish_matching now (holds_token run_id token) status rs)
      ≡ select (λ r. not (holds_token run_id token r)) rs
unfolding finish_matching
finish_matching_others now run_id token status [] = refl
finish_matching_others now run_id token status (r ∷ rs) =
    elim (Bool-cases (holds_token run_id token r)) [
      | inl e ↦ rw (e, e) (finish_matching_others now run_id token status rs)
      | inr e ↦ rw (e, e) (ap (λ l. r ∷ l) (finish_matching_others now run_id token status rs))
    ]

finish_matching_held :
    (now : ℕ) (run_id : String) (token : ℕ) (status : TaskStatus) (rs : List TaskRun)
    → select (holds_token run_id token) (finish_matching now (holds_token run_id token) status rs)
      ≡ map (ended now status) (select (holds_token run_id token) rs)
unfolding finish_matching
finish_matching_held now run_id token status [] = refl
finish_matching_held now run_id token status (r ∷ rs) =
    elim (Bool-cases (holds_token run_id token r)) [
      | inl e ↦
          rw (e, e)
            (ap (λ l. ended now status r ∷ l) (finish_matching_held now run_id token status rs))
      | inr e ↦ rw (e, e) (finish_matching_held now run_id token status rs)
    ]

module _ {F V : Type 0} (now : ℕ) (m : Memory F V) (task_id run_id : String) (status : TaskStatus)
    (token : ℕ) where
  abbrev held : TaskRun → Bool
  held = holds_token run_id token

  runs-finish_run_with_token :
      (j : String)
      → runs (finish_run_with_token now m task_id run_id status token).0 j
        ≡ (if task_id == j then finish_matching now held status (runs m task_id) else runs m j)
  unfolding finish_run_with_token runs
  runs-finish_run_with_token j = get_or-put m.runs task_id j _ []

  -- `FinishRunWithToken` ends the runs of the task that have the id and the token, leaves the other
  -- runs of the task and those of other tasks as they are, all in their order, and answers
  -- `ErrStaleRun` exactly when the task has no such run.
  pub finish_run_with_token_ends :
      let m' = (finish_run_with_token now m task_id run_id status token).0 in
      (select held (runs m' task_id) ≡ map (ended now status) (select held (runs m task_id)))
      × (select (λ r. not (held r)) (runs m' task_id) ≡ select (λ r. not (held r)) (runs m task_id))
      × ((j : String) → runs m' j ≡ (if task_id == j then runs m' task_id else runs m j))
      × ((finish_run_with_token now m task_id run_id status token).1
          ≡ (if any held (runs m task_id) then none else some stale_run))
  finish_run_with_token_ends = (
    rw (runs-finish_run_with_token task_id, eq_refl task_id)
        (finish_matching_held now run_id token status (runs m task_id)),
    rw (runs-finish_run_with_token task_id, eq_refl task_id)
        (finish_matching_others now run_id token status (runs m task_id)),
    (λ j.
        runs-finish_run_with_token j
        ∙ ap (λ l. if task_id == j then l else runs m j)
            (sym (
              runs-finish_run_with_token task_id
              ∙ ap
                  (λ b.
                    if b then finish_matching now held status (runs m task_id) else runs m task_id)
                  (eq_refl task_id)))),
    (unfold finish_run_with_token runs in refl),
  )

module _ {F V : Type 0} (m : Memory F V) where
  -- `Tasks` lists the tasks of the map by their time of creation, and lists as many of every kind
  -- as the map holds.
  pub tasks-IsSorted :
      IsSorted (λ a b. ltb a.created_at b.created_at) (tasks m)
      × ((p : Task → Bool) → count p (tasks m) ≡ count p (values m.tasks))
  unfolding tasks
  tasks-IsSorted = (
    sort-IsSorted (λ (a b : Task). ltb a.created_at b.created_at) (λ x y h. ground arith)
        (values m.tasks),
    (λ p. count-sort (λ (a b : Task). ltb a.created_at b.created_at) p (values m.tasks)),
  )
