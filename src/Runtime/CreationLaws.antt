-- ===== src/Runtime/CreationLaws.antt =====
-- internal/runtime/service.go, `createTask` and `RerunTask`: what they refuse and
-- what they create.
use code_co_driver.Prelude.{
  Bool-cases, is_some, if◌then◌else◌, Outcome, ok, err, or_error, ℕ, String, ◌≡◌, refl, ap, ◌∙◌,
  ◌⊎◌, inl, inr, Bool, true, false, ◌||◌, Option, none, some, ◌==◌,
}
use code_co_driver.Prelude.Text.{trim_space, is_empty}
use code_co_driver.Prelude.Dict.{get, get-put}
use code_co_driver.Domain.{Task, Repository, created, memory_mode_with}
use code_co_driver.Store.{not_found, task, Memory, repository, add_task}
use code_co_driver.Store.Ids.{id}
use code_co_driver.Runtime.State.{
  Service, ServiceError, is_terminal, missing, still_active, description_required, unknown_skill,
}
use code_co_driver.Runtime.Queue.{enqueue}
use code_co_driver.Runtime.QueueLaws.{store-enqueue}
use code_co_driver.Runtime.Lifecycle.{
  add_new_task, refuse_task, accept_task, create_task, rerun_found, rerun_task,
}

module _ {F V : Type 0} where
  -- The task is the only one that is new in the store.
  abbrev pub IsAdded : Service F V → Service F V → Task → Type 0
  IsAdded s s' t =
      (j : String) → get s'.store.tasks j ≡ (if t.id == j then some t else get s.store.tasks j)

  -- What is wrong with a request that is refused with the error.
  abbrev pub Refuses : Service F V → String → String → String → ServiceError → Type 0
  Refuses s repo_id description skill missing = get s.store.repositories repo_id ≡ none
  Refuses s repo_id description skill description_required =
      (is_some (get s.store.repositories repo_id) ≡ true)
      × (is_empty (trim_space description) ≡ true)
  Refuses s repo_id description skill (unknown_skill name) =
      (is_some (get s.store.repositories repo_id) ≡ true)
      × (is_empty (trim_space description) ≡ false)
      × (name ≡ skill)
      × ((is_empty skill || s.knows_skill skill) ≡ false)
  Refuses s repo_id description skill _ = ⊥

  -- What is right with one that is accepted.
  abbrev pub Accepts : Service F V → String → String → String → Type 0
  Accepts s repo_id description skill =
      (is_some (get s.store.repositories repo_id) ≡ true)
      × (is_empty (trim_space description) ≡ false)
      × ((is_empty skill || s.knows_skill skill) ≡ true)

  abbrev Checked : Service F V → String → String → String → Option ServiceError → Type 0
  Checked s repo_id description skill none = Accepts s repo_id description skill
  Checked s repo_id description skill (some e) = Refuses s repo_id description skill e

  -- What `createTask` answers, and what it does to the service.
  abbrev pub Creates :
      ℕ
      → Service F V
      → String
      → String
      → String
      → String
      → String
      → Outcome ServiceError Task × Service F V
      → Type 0
  Creates now s repo_id title description skill mode (err e, s') =
      (s' ≡ s) × Refuses s repo_id description skill e
  Creates now s repo_id title description skill mode (ok t, s') =
      Accepts s repo_id description skill
      × (t.status ≡ created)
      × (t.error ≡ "")
      × (t.repository_id ≡ repo_id)
      × (t.title ≡ trim_space title)
      × (t.description ≡ trim_space description)
      × (t.skill_name ≡ skill)
      × (t.memory_mode ≡ (if is_empty mode then memory_mode_with else mode))
      × (t.created_at ≡ now)
      × (t.updated_at ≡ now)
      × IsAdded s s' t

  refuse_task-Checked :
      (s : Service F V) (repo_id description skill : String) (o : Option Repository)
      → get s.store.repositories repo_id ≡ o
      → Checked s repo_id description skill (refuse_task s repo_id description skill)
  unfolding refuse_task repository
  refuse_task-Checked s repo_id description skill none e = rw (refuse_task, repository, e) e
  refuse_task-Checked s repo_id description skill (some r) e =
      let there : is_some (get s.store.repositories repo_id) ≡ true = ap is_some e in
      elim (Bool-cases (is_empty (trim_space description))) [
        | inl blank ↦ rw (refuse_task, repository, e, blank) (there, blank)
        | inr text ↦ elim (Bool-cases (is_empty skill || s.knows_skill skill)) [
          | inl known ↦ rw (refuse_task, repository, e, text, known) (there, text, known)
          | inr unknown ↦
              rw (refuse_task, repository, e, text, unknown) (there, text, refl, unknown)
        ]
      ]

  store-queue :
      (s : Service F V) (i : String) (queue : Bool)
      → (if queue then enqueue s i else s).store ≡ s.store
  store-queue s i true = store-enqueue s i
  store-queue s i false = refl

  module _ (now : ℕ) (s : Service F V) (repo_id title description skill_name memory_mode : String)
      (queue : Bool) where
    add_new_task-Creates :
        (skill : String)
        → Accepts s repo_id description skill
        → Creates now s repo_id title description skill memory_mode
            (add_new_task now s repo_id title description skill memory_mode queue)
    unfolding add_new_task add_task id
    add_new_task-Creates skill accepted =
        let (i, m) = id s.store "task" in
        let new : Task = record {
          id = i;
          repository_id = repo_id;
          title = trim_space title;
          description = trim_space description;
          skill_name = skill;
          status = created;
          error = "";
          memory_mode = if is_empty memory_mode then memory_mode_with else memory_mode;
          created_at = now;
          updated_at = now;
        } in
        (
          accepted,
          refl,
          refl,
          refl,
          refl,
          refl,
          refl,
          refl,
          refl,
          refl,
          λ j.
              ap (λ (x : Memory F V). get x.tasks j)
                (store-queue (record s { store = add_task m new }) i queue)
              ∙ get-put s.store.tasks i j new,
        )

    accept_task-Creates :
        (skill : String) (o : Option ServiceError)
        → Checked s repo_id description skill o
        → Creates now s repo_id title description skill memory_mode
            (accept_task now s repo_id title description skill memory_mode queue o)
    unfolding accept_task
    accept_task-Creates skill (some e) refused = (refl, refused)
    accept_task-Creates skill none accepted = add_new_task-Creates skill accepted

    -- `createTask` refuses a request for a repository that is missing, with a description that is
    -- blank, or for a skill that is named and not known, with the error for the first of these, and
    -- leaves the service as it was. It accepts every other one: the task that it answers has the
    -- status CREATED, no error, the repository, the trimmed title, description and skill and the
    -- memory mode of the request, `with` if that is empty, and the time of the call, and is the one
    -- entry of the store's tasks that is new or replaced.
    pub create_task-Creates :
        Creates now s repo_id title description
          (trim_space skill_name)
          memory_mode
          (create_task now s repo_id title description skill_name memory_mode queue)
    unfolding create_task
    create_task-Creates = accept_task-Creates (trim_space skill_name) _ (
        refuse_task-Checked s repo_id description (trim_space skill_name)
          (get s.store.repositories repo_id) refl)

  -- What `RerunTask` answers: the answer of `createTask` for the repository of a task that is over,
  -- or an error.
  abbrev pub Reruns : ℕ → Service F V → String → Outcome ServiceError Task × Service F V → Type 0
  Reruns now s task_id result =
      ((o : Task) × (get s.store.tasks task_id ≡ some o)
        × (is_terminal o.status ≡ true)
        × Creates now s o.repository_id o.title o.description (trim_space o.skill_name)
            (if is_empty o.memory_mode then memory_mode_with else o.memory_mode) result)
      ⊎ ((result ≡ (err still_active, s))
          × ((o : Task) × (get s.store.tasks task_id ≡ some o) × (is_terminal o.status ≡ false)))
      ⊎ ((result ≡ (err missing, s)) × (get s.store.tasks task_id ≡ none))

  rerun_found-Reruns :
      (now : ℕ) (s : Service F V) (task_id : String) (o : Option Task)
      → get s.store.tasks task_id ≡ o
      → Reruns now s task_id (rerun_found now s (or_error not_found o))
  unfolding rerun_found
  rerun_found-Reruns now s task_id none e = inr (inr (refl, e))
  rerun_found-Reruns now s task_id (some o) e = elim (Bool-cases (is_terminal o.status)) [
    | inl over ↦ inl (
      o,
      e,
      over,
      rw over (
          create_task-Creates now s o.repository_id o.title o.description o.skill_name
            (if is_empty o.memory_mode then memory_mode_with else o.memory_mode) true),
    )
    | inr active ↦ inr (inl (rw active refl, (o, e, active)))
  ]

  -- `RerunTask` creates a task with the repository, the texts and the memory mode of the given one if
  -- that is over, as `createTask` does; of a task that is still active or missing it answers the error for it, and the service is
  -- as it was.
  pub rerun_task-Reruns :
      (now : ℕ) (s : Service F V) (task_id : String)
      → Reruns now s task_id (rerun_task now s task_id)
  unfolding rerun_task task
  rerun_task-Reruns now s task_id =
      rerun_found-Reruns now s task_id (get s.store.tasks task_id) refl
