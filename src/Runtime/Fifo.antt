-- ===== src/Runtime/Fifo.antt =====
-- What the queue of a process promises: a first-in, first-out queue of different tasks, which
-- ignores a task that it holds and, where it is full, every task.
use code_co_driver.Prelude.{
  ltb, Bool-cases, if◌then◌else◌, length, ℕ, ◌+◌, ◌<◌, String, ◌≡◌, refl, sym, inl, inr, true, List,
  [], ◌∷◌, ◌++◌, arith, eq_refl,
}
use mathlib.Core.Path.{subst}
use mathlib.Core.List.{append_assoc}
use code_co_driver.Prelude.Members.{has_text}
use code_co_driver.Runtime.QueueLaws.{QueueEvent, enqueued, received}

unfoldable pub push : ℕ → List String → String → List String
push capacity q id =
    if has_text id q then q else if ltb (length q) capacity then q ++ id ∷ [] else q

-- The tasks that are handed out, and what is left.
unfoldable pub run : ℕ → List String → List QueueEvent → List String × List String
unfolding push
run capacity q [] = ([], q)
run capacity q (enqueued id ∷ es) = run capacity (push capacity q id) es
run capacity [] (received ∷ es) = run capacity [] es
run capacity (id ∷ q) (received ∷ es) = let (ids, left) = run capacity q es in (id ∷ ids, left)

abbrev pub receipts : List QueueEvent → ℕ
receipts [] = 0
receipts (enqueued id ∷ es) = receipts es
receipts (received ∷ es) = receipts es + 1

push_behind :
    (capacity : ℕ) (before : List String) (id : String) (behind : List String) (new : String)
    → (more : List String) × (push capacity (before ++ id ∷ behind) new ≡ before ++ id ∷ more)
unfolding push
push_behind capacity before id behind new =
    elim (Bool-cases (has_text new (before ++ id ∷ behind))) [
      | inl held ↦ (behind, rw held)
      | inr fresh ↦ elim (Bool-cases (ltb (length (before ++ id ∷ behind)) capacity)) [
        | inl room ↦
            (behind ++ new ∷ [], rw (fresh, room) (append_assoc before (id ∷ behind) (new ∷ [])))
        | inr full ↦ (behind, rw (fresh, full))
      ]
    ]

-- A task is handed out once it was its turn, whatever is enqueued behind it.
pub run-hands_out :
    (capacity : ℕ) (before : List String) (id : String) (behind : List String)
    (es : List QueueEvent)
    → length before < receipts es
    → has_text id (run capacity (before ++ id ∷ behind) es).0 ≡ true
unfolding run
run-hands_out capacity before id behind [] h = absurd (omega arith)
run-hands_out capacity before id behind (enqueued new ∷ es) h =
    let (more, e) = push_behind capacity before id behind new in
    subst (λ q. has_text id (run capacity q es).0 ≡ true) (sym e)
      (run-hands_out capacity before id more es h)
run-hands_out capacity [] id behind (received ∷ es) h = rw eq_refl refl
run-hands_out capacity (first ∷ before) id behind (received ∷ es) h =
    ground (arith, run-hands_out capacity before id behind es (omega arith))
