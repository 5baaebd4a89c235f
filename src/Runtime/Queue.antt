-- ===== src/Runtime/Queue.antt =====
-- internal/runtime/service.go: the queue of a single process. A send on the full channel waits for
-- five seconds: a receive in that time is a step before the call, and else the send gives up.
use code_co_driver.Prelude.{
  ltb, if◌then◌else◌, length, String, true, false, Option, none, some, List, [], ◌∷◌, ◌++◌,
}
use code_co_driver.Prelude.Dict.{get_or, put, delete}
use code_co_driver.Runtime.State.{Service, queue_capacity}

module _ {F V : Type 0} where
  -- `markDequeued`
  unfoldable pub mark_dequeued : Service F V → String → Service F V
  mark_dequeued s task_id = record s { queued = delete s.queued task_id }

  -- The `select` of `enqueue`.
  unfoldable pub send : Service F V → String → Service F V
  unfolding mark_dequeued
  send s task_id =
      if ltb (length s.queue) queue_capacity
      then record s { queue = s.queue ++ task_id ∷ [] }
      else mark_dequeued s task_id

  -- `enqueue`
  unfoldable pub enqueue : Service F V → String → Service F V
  unfolding send
  enqueue s task_id =
      if s.leased
      then s
      else if get_or s.queued task_id false
      then s
      else send (record s { queued = put s.queued task_id true }) task_id

  -- What `worker` does when it receives: the task that it is to execute, if there is one.
  unfoldable pub receive : Service F V → List String → Option String × Service F V
  unfolding mark_dequeued
  receive s [] = (none, s)
  receive s (task_id ∷ rest) = (some task_id, mark_dequeued (record s { queue = rest }) task_id)
