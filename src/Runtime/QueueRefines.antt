-- ===== src/Runtime/QueueRefines.antt =====
-- internal/runtime/service.go, `enqueue` and the receive in `worker`: to the workers of a process
-- without leases, the channel and the map `queued` are the queue of Runtime/Fifo.
use code_co_driver.Prelude.{
  length, ◌<◌, String, ◌≡◌, refl, ap, ◌∙◌, true, false, Option, none, some, List, [], ◌∷◌, ◌++◌,
  arith,
}
use code_co_driver.Prelude.Members.{has_text}
use code_co_driver.Runtime.State.{Service, queue_capacity}
use code_co_driver.Runtime.Queue.{mark_dequeued, send, enqueue, receive}
use code_co_driver.Runtime.QueueLaws.{
  IsQueue, QueueEvent, enqueued, received, queue_step, queue_run, enqueue-IsQueue, receive-IsQueue,
}
use code_co_driver.Runtime.Fifo

-- What a receive gave, in front of what the later ones give.
abbrev pub prepend : Option String → List String → List String
prepend none ids = ids
prepend (some id) ids = id ∷ ids

module _ {F V : Type 0} where
  -- The tasks that workers receive.
  pub delivered : Service F V → List QueueEvent → List String
  delivered s [] = []
  delivered s (enqueued id ∷ es) = delivered (enqueue s id) es
  delivered s (received ∷ es) = let (task, s') = receive s s.queue in prepend task (delivered s' es)

  queue-enqueue :
      (s : Service F V) (id : String)
      → IsQueue s
      → s.leased ≡ false
      → (enqueue s id).queue ≡ Fifo.push queue_capacity s.queue id
  unfolding enqueue send mark_dequeued Fifo.push
  queue-enqueue s id v l = ground (arith, v.tracked id, l)

  leased-enqueue : (s : Service F V) (id : String) → (enqueue s id).leased ≡ s.leased
  unfolding enqueue send mark_dequeued
  leased-enqueue s id = ground arith

  receive_refines :
      (s : Service F V) (q : List String) (es : List QueueEvent)
      → s.queue ≡ q
      → IsQueue s
      → s.leased ≡ false
      → ((s' : Service F V)
          → IsQueue s'
          → s'.leased ≡ false
          → (delivered s' es, (queue_run s' es).queue) ≡ Fifo.run queue_capacity s'.queue es)
      → let (task, s') = receive s q in
        (prepend task (delivered s' es), (queue_run s' es).queue)
        ≡ Fifo.run queue_capacity q (received ∷ es)
  unfolding receive mark_dequeued Fifo.run
  receive_refines s [] es e v l later = later s v l ∙ ap (λ q. Fifo.run queue_capacity q es) e
  receive_refines s (id ∷ q) es e v l later =
      ap (λ (p : List String × List String). (id ∷ p.0, p.1))
        (later (receive s (id ∷ q)).1 (receive-IsQueue s (id ∷ q) e v) l)

  -- In every order of calls of `enqueue` and receives, a service that works without leases hands
  -- the workers the tasks that the first-in, first-out queue hands out, and is left with its tasks.
  pub queue_run_refines :
      (s : Service F V) (es : List QueueEvent)
      → IsQueue s
      → s.leased ≡ false
      → (delivered s es, (queue_run s es).queue) ≡ Fifo.run queue_capacity s.queue es
  unfolding delivered queue_run queue_step receive Fifo.run
  queue_run_refines s [] v l = refl
  queue_run_refines s (enqueued id ∷ es) v l =
      queue_run_refines (enqueue s id) es (enqueue-IsQueue s id v) (leased-enqueue s id ∙ l)
      ∙ ap (λ q. Fifo.run queue_capacity q es) (queue-enqueue s id v l)
  queue_run_refines s (received ∷ es) v l =
      receive_refines s s.queue es refl v l (λ s' v' l'. queue_run_refines s' es v' l')

  -- A task that is in the channel of such a service is received as soon as there are more receives
  -- than tasks in front of it, whatever is enqueued in between.
  pub queued_is_received :
      (s : Service F V) (es : List QueueEvent) (before : List String) (id : String)
      (behind : List String)
      → IsQueue s
      → s.leased ≡ false
      → s.queue ≡ before ++ id ∷ behind
      → length before < Fifo.receipts es
      → has_text id (delivered s es) ≡ true
  queued_is_received s es before id behind v l e h =
      ap (λ (p : List String × List String). has_text id p.0)
        (queue_run_refines s es v l ∙ ap (λ q. Fifo.run queue_capacity q es) e)
      ∙ Fifo.run-hands_out queue_capacity before id behind es h
