-- ===== src/Runtime/RestartLaws.antt =====
-- internal/runtime/service.go, `recoverTasks`: what a restart changes and what it leaves.
use code_co_driver.Prelude.{
  Bool-cases, any, All, ℕ, ◌<◌, String, ◌≡◌, refl, ap, ◌∙◌, ◌⊎◌, inl, inr, Bool, true, false, ◌&&◌,
  List, [], ◌∷◌, arith, ◌==◌,
}
use code_co_driver.Prelude.Dict.{get, get-put}
use code_co_driver.Domain.{Task}
use code_co_driver.Store.{Memory, tasks, runs, update_task}
use code_co_driver.Runtime.State.{Service}
use code_co_driver.Runtime.Recovery.{
  in_flight, fail_open_runs, reset_task, recover_task, recover_all, recover_tasks,
}
use code_co_driver.Runtime.RecoveryLaws.{
  tasks-fail_open_runs, if_false, store-recover_task, Recovered, recover_tasks-Recovered,
}

-- A task of that id that was being executed.
abbrev pub is_hit : String → Task → Bool
is_hit j t = t.id == j && in_flight t.status

module _ (now : ℕ) (positive : 0 < now) {F V : Type 0} where
  reset_task-others :
      (m : Memory F V) (id j : String)
      → id == j ≡ false
      → get (reset_task now m id).tasks j ≡ get m.tasks j
  unfolding reset_task update_task runs
  reset_task-others m id j other =
      get-put (fail_open_runs now m id (runs m id)).tasks id j _
      ∙ if_false (id == j) _ (get (fail_open_runs now m id (runs m id)).tasks j) other
      ∙ ap (λ x. get x j) (tasks-fail_open_runs now positive m id (runs m id))

  recover_task-others :
      (s : Service F V) (t : Task) (j : String)
      → is_hit j t ≡ false
      → get (recover_task now s t).store.tasks j ≡ get s.store.tasks j
  recover_task-others s t j other =
      ap (λ (m : Memory F V). get m.tasks j) (store-recover_task now positive s t)
      ∙ elim (Bool-cases (in_flight t.status)) [
        | inl e ↦ rw e (reset_task-others s.store t.id j (ground (arith, other, e)))
        | inr e ↦ rw e refl
      ]

  recover_all-others :
      (s : Service F V) (ts : List Task) (j : String)
      → any (is_hit j) ts ≡ false
      → get (recover_all now s ts).store.tasks j ≡ get s.store.tasks j
  unfolding recover_all
  recover_all-others s [] j other = refl
  recover_all-others s (t ∷ ts) j other =
      recover_all-others (recover_task now s t) ts j (ground (arith, other))
      ∙ recover_task-others s t j (ground (arith, other))

  -- After a restart at a time that is not 0, each task of the store that was in a status of
  -- execution is created again, and every run of it has an end; the entry of every other task is
  -- what it was.
  pub recover_tasks-restarts :
      (s : Service F V)
      → All (Recovered now positive (recover_tasks now s).store) (tasks s.store)
        × ((j : String)
            → (any (is_hit j) (tasks s.store) ≡ true)
              ⊎ (get (recover_tasks now s).store.tasks j ≡ get s.store.tasks j))
  unfolding recover_tasks
  recover_tasks-restarts s = (
    recover_tasks-Recovered now positive s,
    λ j. elim (Bool-cases (any (is_hit j) (tasks s.store))) [
      | inl e ↦ inl e
      | inr e ↦ inr (recover_all-others s (tasks s.store) j e)
    ],
  )
