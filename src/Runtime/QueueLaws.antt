-- ===== src/Runtime/QueueLaws.antt =====
-- internal/runtime/service.go, `enqueue`, `markDequeued` and the receive in `worker`: the queue and
-- the map `queued` agree, and no task is queued twice.
use code_co_driver.Prelude.{
  ltb, ltb→lt, if◌then◌else◌, length, IsDistinct, length-append, ◌≤◌, String, ◌≡◌, refl, sym, ap,
  ◌∙◌, Bool, true, false, List, [], ◌∷◌, arith, eq_iff,
}
use mathlib.Core.Path.{subst}
use code_co_driver.Prelude.Dict.{get_or, put, get_or-put, get_or-delete}
use code_co_driver.Prelude.Members.{
  has_text, has_text-append, not-has_text, has_text-false, IsDistinct-append_new,
}
use code_co_driver.Runtime.State.{Service, queue_capacity}
use code_co_driver.Runtime.Queue.{mark_dequeued, send, enqueue, receive}

-- The map holds exactly what is queued, no task twice, and the channel holds what it may.
pub record IsQueue {F V : Type 0} (s : Service F V) : Type 0 where
  pub tracked : (x : String) → get_or s.queued x false ≡ has_text x s.queue
  pub distinct : IsDistinct s.queue
  pub bounded : length s.queue ≤ queue_capacity

module _ {F V : Type 0} where
  IsQueue-if :
      (b : Bool) (s t : Service F V)
      → (b ≡ true → IsQueue s)
      → (b ≡ false → IsQueue t)
      → IsQueue (if b then s else t)
  IsQueue-if true s t h k = h refl
  IsQueue-if false s t h k = k refl

  send-IsQueue :
      (s : Service F V) (id : String)
      → IsQueue s
      → get_or s.queued id false ≡ false
      → IsQueue (send (record s { queued = put s.queued id true }) id)
  unfolding send
  send-IsQueue s id v new =
      IsQueue-if (ltb (length s.queue) queue_capacity) _ _
        (λ room. record {
          tracked = λ x.
              get_or-put s.queued id x true false
              ∙ ground (arith, v.tracked x, has_text-append x id s.queue);
          distinct =
              IsDistinct-append_new id s.queue v.distinct
                (not-has_text id s.queue (sym (v.tracked id) ∙ new));
          bounded =
              omega (
                arith,
                length-append s.queue (id ∷ []),
                ltb→lt (length s.queue) queue_capacity room,
              );
        })
        (λ full. record {
          tracked = λ x.
              get_or-delete (put s.queued id true) id x false
              ∙ ground (
                arith,
                v.tracked x,
                v.tracked id,
                new,
                eq_iff id x,
                get_or-put s.queued id x true false,
              );
          distinct = v.distinct;
          bounded = v.bounded;
        })

  pub enqueue-IsQueue : (s : Service F V) (id : String) → IsQueue s → IsQueue (enqueue s id)
  unfolding enqueue
  enqueue-IsQueue s id v =
      IsQueue-if s.leased _ _ (λ _. v)
        (λ _. IsQueue-if (get_or s.queued id false) _ _ (λ _. v) (λ new. send-IsQueue s id v new))

  pub receive-IsQueue :
      (s : Service F V) (q : List String) → s.queue ≡ q → IsQueue s → IsQueue (receive s q).1
  unfolding receive
  receive-IsQueue s [] e v = v
  receive-IsQueue s (id ∷ rest) e v =
      let d : IsDistinct (id ∷ rest) = subst IsDistinct e v.distinct in
      record {
        tracked = λ x.
            get_or-delete s.queued id x false
            ∙ ground
                (arith, v.tracked x, ap (has_text x) e, eq_iff id x, has_text-false id rest d.0);
        distinct = d.1;
        bounded = omega (arith, ap length e, v.bounded);
      }

module _ {F V : Type 0} where
  -- A call of `enqueue` does not touch the store.
  pub store-enqueue : (s : Service F V) (id : String) → (enqueue s id).store ≡ s.store
  unfolding enqueue send mark_dequeued
  store-enqueue s id = ground arith

-- What the callers of `enqueue` and the workers do to the queue.
pub data QueueEvent : Type 0 where
  enqueued : String → QueueEvent
  received : QueueEvent

module _ {F V : Type 0} where
  unfoldable pub queue_step : Service F V → QueueEvent → Service F V
  queue_step s (enqueued id) = enqueue s id
  queue_step s received = (receive s s.queue).1

  unfoldable pub queue_run : Service F V → List QueueEvent → Service F V
  queue_run s [] = s
  queue_run s (e ∷ es) = queue_run (queue_step s e) es

  queue_step-IsQueue : (s : Service F V) (e : QueueEvent) → IsQueue s → IsQueue (queue_step s e)
  unfolding queue_step
  queue_step-IsQueue s (enqueued id) v = enqueue-IsQueue s id v
  queue_step-IsQueue s received v = receive-IsQueue s s.queue refl v

  -- In every order of calls of `enqueue` and receives, from a state where the map `queued` holds
  -- exactly what the channel holds, this stays so, no task is in the channel twice, and the channel
  -- holds no more than its capacity.
  pub queue_run-IsQueue :
      (s : Service F V) (es : List QueueEvent) → IsQueue s → IsQueue (queue_run s es)
  unfolding queue_run
  queue_run-IsQueue s [] v = v
  queue_run-IsQueue s (e ∷ es) v = queue_run-IsQueue (queue_step s e) es (queue_step-IsQueue s e v)
