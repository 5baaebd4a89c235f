-- ===== src/Store/Fencing.antt =====
-- internal/store/memory.go: what `UpdateTaskForRun` and `FinishRunWithToken` check before they
-- write, and what they write.
use code_co_driver.Prelude.{
  Bool-cases, if◌then◌else◌, any, All, ℕ, String, ◌≡◌, refl, sym, ◌∙◌, inl, inr, Bool, true, false,
  Option, none, some, List, [], ◌∷◌, ◌++◌, arith, ◌==◌, eq_iff, eq_refl,
}
use mathlib.Core.List.{Memᴰ}
use mathlib.Core.Path.{subst}
use mathlib.Core.Bool.{false≢true}
use code_co_driver.Prelude.Dict.{get, get_or, get_or-put, get-put}
use code_co_driver.Domain.{Task, TaskRun, TaskStatus}
use code_co_driver.Store.State.{Memory, StoreError, stale_run}
use code_co_driver.Store.Tasks.{zero_task, holds_token, update_task_for_run, add_run, runs}

-- The run of that id was started with that token.
abbrev pub Holds : String → ℕ → TaskRun → Type 0
Holds run_id token r = (r.id ≡ run_id) × (r.fencing_token ≡ token)

test→Holds :
    (run_id : String) (token : ℕ) (r : TaskRun)
    → holds_token run_id token r ≡ true
    → Holds run_id token r
test→Holds run_id token r h = ground (arith, eq_iff r.id run_id)

Holds→holds_token :
    (run_id : String) (token : ℕ) (r : TaskRun)
    → Holds run_id token r
    → holds_token run_id token r ≡ true
Holds→holds_token run_id token r h = ground (arith, eq_iff r.id run_id)

holder :
    (run_id : String) (token : ℕ) (rs : List TaskRun)
    → any (holds_token run_id token) rs ≡ true
    → (r : TaskRun) × Memᴰ r rs × Holds run_id token r
holder run_id token [] h = cc
holder run_id token (r ∷ rs) h = elim (Bool-cases (holds_token run_id token r)) [
  | inl e ↦ (r, Memᴰ.head refl, test→Holds run_id token r e)
  | inr e ↦ let (r', m, k) = holder run_id token rs (rw e at h) in (r', Memᴰ.tail m, k)
]

no_holder :
    (run_id : String) (token : ℕ) (rs : List TaskRun)
    → any (holds_token run_id token) rs ≡ false
    → All (λ r. ¬ Holds run_id token r) rs
no_holder run_id token [] h = tt
no_holder run_id token (r ∷ rs) h =
    let e : holds_token run_id token r ≡ false = ground arith in
    (
      (λ k. false≢true (sym e ∙ Holds→holds_token run_id token r k)),
      no_holder run_id token rs (ground arith),
    )

-- The task that `UpdateTask` writes.
abbrev pub written : ℕ → Task → TaskStatus → String → Task
written now t status error = record t { status = status; error = error; updated_at = now }

any-append_left :
    (p : TaskRun → Bool) (xs ys : List TaskRun) → any p xs ≡ true → any p (xs ++ ys) ≡ true
any-append_left p [] ys h = cc
any-append_left p (x ∷ xs) ys h = elim (Bool-cases (p x)) [
  | inl e ↦ rw e
  | inr e ↦ rw e (any-append_left p xs ys (rw e at h))
]

any-append_last :
    (p : TaskRun → Bool) (xs : List TaskRun) (y : TaskRun)
    → p y ≡ true
    → any p (xs ++ y ∷ []) ≡ true
any-append_last p [] y h = rw h
any-append_last p (x ∷ xs) y h = ground (arith, any-append_last p xs y h)

-- What a fenced write does: it writes that one task because a run of the task holds the token, or
-- it fails, changes nothing, and no run of the task holds the token.
pub data FencedWrite {F V : Type 0} (now : ℕ) (m : Memory F V) (id run_id : String) (token : ℕ)
    (status : TaskStatus) (error : String) (m' : Memory F V) (e : Option StoreError) : Type 0 where
  accepted :
      (r : TaskRun)
      → Memᴰ r (runs m id)
      → Holds run_id token r
      → e ≡ none
      → ((j : String)
          → get m'.tasks j ≡ (
              if id == j
              then some (written now (get_or m.tasks id zero_task) status error)
              else get m.tasks j))
      → m'.runs ≡ m.runs
      → FencedWrite now m id run_id token status error m' e
  refused :
      All (λ r. ¬ Holds run_id token r) (runs m id)
      → e ≡ some stale_run
      → m' ≡ m
      → FencedWrite now m id run_id token status error m' e

module _ {F V : Type 0} where
  -- `UpdateTaskForRun` writes the task, and no other one, if a run of the task has that id and that
  -- token; otherwise it answers `ErrStaleRun` and the store is what it was.
  pub update_task_for_run-FencedWrite :
      (now : ℕ) (m : Memory F V) (id run_id : String) (token : ℕ) (status : TaskStatus)
      (error : String)
      → let (m', e) = update_task_for_run now m id run_id token status error in
        FencedWrite now m id run_id token status error m' e
  unfolding update_task_for_run runs
  update_task_for_run-FencedWrite now m id run_id token status error =
      elim (Bool-cases (any (holds_token run_id token) (get_or m.runs id []))) [
        | inl e ↦
            let (r, member, holds) = holder run_id token (get_or m.runs id []) e in
            rw e (accepted r member holds refl (λ j. get-put m.tasks id j _) refl)
        | inr e ↦ rw e (refused (no_holder run_id token (get_or m.runs id []) e) refl refl)
      ]

  -- A row of runs that are started one after the other.
  pub start_runs : Memory F V → List TaskRun → Memory F V
  start_runs m [] = m
  start_runs m (r ∷ rs) = start_runs (add_run m r) rs

  runs-add_run :
      (m : Memory F V) (r : TaskRun) (id : String)
      → runs (add_run m r) id ≡ (if r.task_id == id then runs m r.task_id ++ r ∷ [] else runs m id)
  unfolding add_run runs
  runs-add_run m r id = get_or-put m.runs r.task_id id (get_or m.runs r.task_id [] ++ r ∷ []) []

  add_run-keeps_holder :
      (p : TaskRun → Bool) (m : Memory F V) (r : TaskRun) (id : String)
      → any p (runs m id) ≡ true
      → any p (runs (add_run m r) id) ≡ true
  add_run-keeps_holder p m r id h = rw (runs-add_run m r id) (elim (Bool-cases (r.task_id == id)) [
    | inl e ↦ rw e (
        any-append_left p (runs m r.task_id) (r ∷ [])
          (subst (λ j. any p (runs m j) ≡ true) (sym ((eq_iff r.task_id id).0 e)) h))
    | inr e ↦ rw e h
  ])

  start_runs-keeps_holder :
      (p : TaskRun → Bool) (m : Memory F V) (rs : List TaskRun) (id : String)
      → any p (runs m id) ≡ true
      → any p (runs (start_runs m rs) id) ≡ true
  unfolding start_runs
  start_runs-keeps_holder p m [] id h = h
  start_runs-keeps_holder p m (r ∷ rs) id h =
      start_runs-keeps_holder p (add_run m r) rs id (add_run-keeps_holder p m r id h)

  started_holder :
      (m : Memory F V) (r : TaskRun)
      → any (holds_token r.id r.fencing_token) (runs (add_run m r) r.task_id) ≡ true
  started_holder m r =
      rw (runs-add_run m r r.task_id, eq_refl r.task_id)
        (any-append_last (holds_token r.id r.fencing_token) (runs m r.task_id) r
          (Holds→holds_token r.id r.fencing_token r (refl, refl)))

  holder_writes :
      (now : ℕ) (m : Memory F V) (id run_id : String) (token : ℕ) (status : TaskStatus)
      (error : String)
      → any (holds_token run_id token) (runs m id) ≡ true
      → (update_task_for_run now m id run_id token status error).1 ≡ none
  unfolding update_task_for_run runs
  holder_writes now m id run_id token status error h = rw h

  -- The check does not refuse a stale worker: once a run is started, a write for it with its own
  -- token succeeds after any further runs are started, whatever tokens they hold.
  pub stale_write_accepted :
      (now : ℕ) (m : Memory F V) (r : TaskRun) (later : List TaskRun) (status : TaskStatus)
      (error : String)
      → let m' = start_runs (add_run m r) later in
        (update_task_for_run now m' r.task_id r.id r.fencing_token status error).1 ≡ none
  stale_write_accepted now m r later status error =
      holder_writes now (start_runs (add_run m r) later) r.task_id r.id r.fencing_token status error
        (start_runs-keeps_holder (holds_token r.id r.fencing_token) (add_run m r) later r.task_id
          (started_holder m r))
