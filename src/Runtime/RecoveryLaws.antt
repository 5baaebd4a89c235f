-- ===== src/Runtime/RecoveryLaws.antt =====
-- internal/runtime/service.go, `recoverTasks`: what a restart leaves of the tasks that were being
-- executed.
use code_co_driver.Prelude.{
  nat_eq, Bool-cases, if◌then◌else◌, any, All, All-map_weaken, ℕ, ◌<◌, String, ◌≡◌, refl, sym, ap,
  ◌∙◌, ◌⊎◌, inl, inr, Bool, true, false, ◌&&◌, some, List, [], ◌∷◌, arith, ◌==◌, eq_iff, eq_refl,
}
use mathlib.Core.Path.{subst}
use code_co_driver.Prelude.Dict.{get, get_or, get-put, get_or-put}
use code_co_driver.Domain.{
  Task, TaskRun, TaskStatus, created, failed, human_review, cancelled, completed,
}
use code_co_driver.Store.{Memory, tasks, runs, finish_matching, finish_run, update_task, zero_task}
use code_co_driver.Runtime.State.{Service}
use code_co_driver.Runtime.Queue.{enqueue}
use code_co_driver.Runtime.QueueLaws.{store-enqueue}
use code_co_driver.Runtime.Recovery.{
  in_flight, fail_open_runs, reset_task, recover_task, recover_all, recover_tasks,
}

-- The run has an end.
abbrev pub IsOver : TaskRun → Type 0
IsOver r = 0 < r.ended_at

-- The run is over, or it has the id of an open run of the list.
abbrev Pending : List TaskRun → TaskRun → Type 0
Pending rs x = IsOver x ⊎ (any (λ r. nat_eq r.ended_at 0 && r.id == x.id) rs ≡ true)

Pending-self : (rs : List TaskRun) → All (Pending rs) rs
Pending-self [] = tt
Pending-self (r ∷ rs) = (
  elim (Bool-cases (nat_eq r.ended_at 0)) [
    | inl e ↦ inr (rw (e, eq_refl r.id))
    | inr e ↦ inl (ground arith)
  ],
  All-map_weaken rs
      (λ x h. elim h [ inl over ↦ inl over | inr found ↦ inr (ground (arith, found)) ])
      (Pending-self rs),
)

if_both : {A : Type 0} (P : A → Type 0) (b : Bool) {x y : A} → P x → P y → P (if b then x else y)
if_both P true h k = h
if_both P false h k = k

pub if_false : {A : Type 0} (b : Bool) (x y : A) → b ≡ false → (if b then x else y) ≡ y
if_false b x y e = rw e refl

module _ (now : ℕ) (positive : 0 < now) where
  finish_matching-Pending :
      (r : TaskRun) (rs xs : List TaskRun)
      → All (Pending (r ∷ rs)) xs
      → All (Pending rs) (finish_matching now (λ x. x.id == r.id) failed xs)
  unfolding finish_matching
  finish_matching-Pending r rs [] h = tt
  finish_matching-Pending r rs (x ∷ xs) h = elim (Bool-cases (x.id == r.id)) [
    | inl e ↦ rw e (inl positive, finish_matching-Pending r rs xs h.1)
    | inr e ↦ rw e (
      elim h.0 [
        | inl over ↦ inl over
        | inr found ↦ inr (ground (arith, found, eq_iff x.id r.id, eq_iff r.id x.id))
      ],
      finish_matching-Pending r rs xs h.1,
    )
  ]

  finish_matching-IsOver :
      (p : TaskRun → Bool) (xs : List TaskRun)
      → All IsOver xs
      → All IsOver (finish_matching now p failed xs)
  unfolding finish_matching
  finish_matching-IsOver p [] h = tt
  finish_matching-IsOver p (x ∷ xs) h = elim (Bool-cases (p x)) [
    | inl e ↦ rw e (positive, finish_matching-IsOver p xs h.1)
    | inr e ↦ rw e (h.0, finish_matching-IsOver p xs h.1)
  ]

  module _ {F V : Type 0} where
    runs-finish_run :
        (m : Memory F V) (task_id run_id j : String)
        → runs (finish_run now m task_id run_id failed) j ≡ (
            if task_id == j
            then finish_matching now (λ r. r.id == run_id) failed (runs m task_id)
            else runs m j)
    unfolding finish_run runs
    runs-finish_run m task_id run_id j = get_or-put m.runs task_id j _ []

    fail_open_runs-Pending :
        (m : Memory F V) (id : String) (rs : List TaskRun)
        → All (Pending rs) (runs m id)
        → All IsOver (runs (fail_open_runs now m id rs) id)
    unfolding fail_open_runs
    fail_open_runs-Pending m id [] h =
        All-map_weaken (runs m id) (λ x k. elim k [ inl over ↦ over | inr e ↦ cc e ]) h
    fail_open_runs-Pending m id (r ∷ rs) h = elim (Bool-cases (nat_eq r.ended_at 0)) [
      | inl e ↦ rw e (
          fail_open_runs-Pending (finish_run now m id r.id failed) id rs (
            rw (runs-finish_run m id r.id id, eq_refl id)
              (finish_matching-Pending r rs (runs m id) h)))
      | inr e ↦ rw e (
          fail_open_runs-Pending m id rs (
            All-map_weaken (runs m id)
              (λ x k. elim k [ inl over ↦ inl over | inr found ↦ inr (ground (arith, found, e)) ])
              h))
    ]

    finish_run-IsOver :
        (m : Memory F V) (task_id run_id j : String)
        → All IsOver (runs m j)
        → All IsOver (runs (finish_run now m task_id run_id failed) j)
    finish_run-IsOver m task_id run_id j h =
        rw (runs-finish_run m task_id run_id j) (elim (Bool-cases (task_id == j)) [
          | inl e ↦ rw e (
              finish_matching-IsOver (λ r. r.id == run_id) (runs m task_id)
                (subst (λ k. All IsOver (runs m k)) (sym ((eq_iff task_id j).0 e)) h))
          | inr e ↦ rw e h
        ])

    fail_open_runs-IsOver :
        (m : Memory F V) (id j : String) (rs : List TaskRun)
        → All IsOver (runs m j)
        → All IsOver (runs (fail_open_runs now m id rs) j)
    unfolding fail_open_runs
    fail_open_runs-IsOver m id j [] h = h
    fail_open_runs-IsOver m id j (r ∷ rs) h = elim (Bool-cases (nat_eq r.ended_at 0)) [
      | inl e ↦ rw e (
          fail_open_runs-IsOver (finish_run now m id r.id failed) id j rs
            (finish_run-IsOver m id r.id j h))
      | inr e ↦ rw e (fail_open_runs-IsOver m id j rs h)
    ]

    pub tasks-fail_open_runs :
        (m : Memory F V) (id : String) (rs : List TaskRun)
        → (fail_open_runs now m id rs).tasks ≡ m.tasks
    unfolding fail_open_runs finish_run
    tasks-fail_open_runs m id [] = refl
    tasks-fail_open_runs m id (r ∷ rs) = elim (Bool-cases (nat_eq r.ended_at 0)) [
      | inl e ↦
          rw (fail_open_runs, e) (tasks-fail_open_runs (finish_run now m id r.id failed) id rs)
      | inr e ↦ rw (fail_open_runs, e) (tasks-fail_open_runs m id rs)
    ]

    -- The task waits for a worker again, and no run of it is open.
    abbrev pub Settled : Memory F V → String → Type 0
    Settled m id =
        ((t : Task) × (get m.tasks id ≡ some t) × (t.status ≡ created)) × All IsOver (runs m id)

    reset_task-Settled : (m : Memory F V) (id : String) → Settled (reset_task now m id) id
    unfolding reset_task update_task runs
    reset_task-Settled m id =
        let m' = fail_open_runs now m id (runs m id) in
        let t = get_or m'.tasks id zero_task in
        let t' : Task = record t {
          status = created;
          error = "recovered after process restart";
          updated_at = now;
        } in
        (
          (t', rw (get-put m'.tasks id id t', eq_refl id) refl, refl),
          fail_open_runs-Pending m id (runs m id) (Pending-self (runs m id)),
        )

    reset_task-keeps :
        (m : Memory F V) (id j : String) → Settled m j → Settled (reset_task now m id) j
    unfolding reset_task update_task runs
    reset_task-keeps m id j h = elim (Bool-cases (id == j)) [
      | inl e ↦ subst (Settled (reset_task now m id)) ((eq_iff id j).0 e) (reset_task-Settled m id)
      | inr e ↦
          let m' = fail_open_runs now m id (runs m id) in
          (
            (
              h.0.0,
              get-put m'.tasks id j _
                  ∙ if_false (id == j) _ (get m'.tasks j) e
                  ∙ ap (λ x. get x j) (tasks-fail_open_runs m id (runs m id))
                  ∙ h.0.1,
              h.0.2,
            ),
            fail_open_runs-IsOver m id j (runs m id) h.1,
          )
    ]

    -- What recovery does to a task that was being executed.
    abbrev pub Recovered : Memory F V → Task → Type 0
    Recovered m t = (in_flight t.status ≡ false) ⊎ Settled m t.id

    store-recover_status :
        (s : Service F V) (id : String) (m : Memory F V) (status : TaskStatus)
        → (if in_flight status
            then enqueue (record s { store = m }) id
            else (elim status [ created ↦ enqueue s id | _ ↦ s ])).store
          ≡ (if in_flight status then m else s.store)
    store-recover_status s id m created = store-enqueue s id
    store-recover_status s id m human_review = refl
    store-recover_status s id m cancelled = refl
    store-recover_status s id m completed = refl
    store-recover_status s id m failed = refl
    store-recover_status s id m _ = store-enqueue (record s { store = m }) id

    pub store-recover_task :
        (s : Service F V) (t : Task)
        → (recover_task now s t).store
          ≡ (if in_flight t.status then reset_task now s.store t.id else s.store)
    unfolding recover_task
    store-recover_task s t = store-recover_status s t.id (reset_task now s.store t.id) t.status

    recover_task-keeps :
        (s : Service F V) (t : Task) (j : String)
        → Settled s.store j
        → Settled (recover_task now s t).store j
    recover_task-keeps s t j h =
        let P = λ (m : Memory F V). Settled m j in
        subst P (sym (store-recover_task s t))
          (if_both P (in_flight t.status) (reset_task-keeps s.store t.id j h) h)

    recover_task-Recovered : (s : Service F V) (t : Task) → Recovered (recover_task now s t).store t
    recover_task-Recovered s t = elim (Bool-cases (in_flight t.status)) [
      | inl e ↦ inr (
          subst (λ m. Settled m t.id)
            (sym (
              store-recover_task s t
              ∙ ap (λ b. if b then reset_task now s.store t.id else s.store) e))
            (reset_task-Settled s.store t.id))
      | inr e ↦ inl e
    ]

    recover_all-keeps :
        (s : Service F V) (ts : List Task) (j : String)
        → Settled s.store j
        → Settled (recover_all now s ts).store j
    unfolding recover_all
    recover_all-keeps s [] j h = h
    recover_all-keeps s (t ∷ ts) j h =
        recover_all-keeps (recover_task now s t) ts j (recover_task-keeps s t j h)

    recover_all-Recovered :
        (s : Service F V) (ts : List Task) → All (Recovered (recover_all now s ts).store) ts
    unfolding recover_all
    recover_all-Recovered s [] = tt
    recover_all-Recovered s (t ∷ ts) = (
      elim (recover_task-Recovered s t) [
        | inl e ↦ inl e
        | inr h ↦ inr (recover_all-keeps (recover_task now s t) ts t.id h)
      ],
      recover_all-Recovered (recover_task now s t) ts,
    )

    -- After a restart at a time that is not 0, each task of the store that was in a status of
    -- execution is created again, and every run of it has an end.
    pub recover_tasks-Recovered :
        (s : Service F V) → All (Recovered (recover_tasks now s).store) (tasks s.store)
    unfolding recover_tasks
    recover_tasks-Recovered s = recover_all-Recovered s (tasks s.store)
