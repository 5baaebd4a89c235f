-- ===== src/Lib.antt =====
-- CodeCoDriver: a service that lets agents work on tasks of a code repository. A verification of
-- its core: the store, the leases by which workers share tasks, the gateway through which agents
-- call tools, the life of a task in the runtime, the workflow in which the agents work on it, the
-- skills that shape their prompts, and the service that tends long-term memories.
--
-- The parts and their files:
--
-- - Prelude: what all parts share. Go's maps are association lists (Prelude/Dict), its `strings`
--   package is Prelude/Text, `sort.SliceStable` is an insertion sort (Prelude/Sort), the decimal
--   numbers of `fmt.Sprintf` are Prelude/Decimal, and `float64` is a parameter (Prelude/Float).
-- - Domain: internal/domain/models.go, a record for each struct.
-- - Store: internal/store/memory.go and internal/store/embedding.go. `Memory` of Store/State is the
--   struct; Store/Tasks, Store/Records and Store/Memories have a function for each method, named
--   after it. A method that changes the store returns the new store, with the error if there is
--   one. Store/Ids is `ID`, Store/Tokens and Store/EditDistance are the keyword search, Store/Score
--   is the embedding and the ranking. The other files under Store prove.
-- - Lease: internal/lease/redis.go, `TryClaim`, `Renew` and `Release`. The Redis client is a record
--   of commands (`Redis`) with what Redis documents of them (`RedisLaws`): the client may send a
--   command again whose answer it did not hear, so a command may have been run where it answers an
--   error, and more than once where it answers none. Lease/Fencing describes
--   the histories of claims, renewals, releases and expiries by any workers as a step relation;
--   Lease/Tokens is `ParseToken`. Lease/Spec is the lock that leases are to be, Lease/Stored
--   how the server stores it, and Lease/Refines compares it with the calls.
-- - Gateway: internal/tools/gateway.go. Tools, the observer and the clock act on a world that is a
--   parameter.
-- - RateLimit: internal/server/rate_limit.go, the middleware as a function of the time and the key.
-- - MemoryService: internal/memory. MemoryService/Similarity and MemoryService/Dedup are dedup.go,
--   MemoryService/Refine has the batches and the stored results of service.go,
--   MemoryService/Answers what the model is asked and how refine.go reads its answers,
--   MemoryService/Conflicts is conflict.go, with `Process`. The client of the model, the decoders
--   of `encoding/json` and the clock are parameters; a service without a store is left out.
-- - Runtime: internal/runtime/service.go. `Service` of Runtime/State is the part of the struct that
--   the life of a task depends on; Runtime/Queue is the queue of one process (Runtime/Fifo what it
--   is to be, which Runtime/QueueRefines compares with it), Runtime/Claiming the claim of a task
--   under a lease, Runtime/Recovery what a restart does, Runtime/Lifecycle the creation, the rerun
--   and the cancellation of a task, Runtime/Refinement the queue of memories to refine,
--   Runtime/Records and Runtime/ExecutionRecords the memories that are stored of a failure or an
--   execution, Runtime/Evidence what the artifacts of a task say, Runtime/Evaluations and
--   Runtime/EvaluationTasks the evaluation runs and batches, Runtime/Failing the failure of a run,
--   Runtime/HumanReview the answers of a human reviewer, Runtime/EvaluationReview the feedback to a
--   task and the evaluation in the reviewer's place.
-- - Skills: internal/skills, the templates (Skills/Prompt), a skill and the registry
--   (Skills/Registry), the choice of a skill (Skills/Router).
-- - Sandbox: the functions of internal/sandbox/runner.go that read the diff of a proposal
--   (Sandbox/Diff), check it before it is tried (Sandbox/Preflight) and look at its paths
--   (Sandbox/Paths).
-- - Retrieval: internal/retrieval/context.go, which reads files up to a budget.
-- - Agents: what the agents of internal/runtime share. Agents/Values is the value `any` with the
--   types that the runtime asserts, and the encoder of JSON as a record of functions;
--   Agents/SkillPrompts is skill_prompts.go, Agents/Compaction and Agents/ContextCompaction
--   compaction.go, Agents/Planner planner_skip.go, Agents/Review the decisions that orchestrator.go
--   and agents.go read from texts, Agents/Selection and Agents/Guidance the choices of agents.go,
--   Agents/Repair and Agents/Recall those of service.go.
-- - Workflow: internal/runtime/workflow.go, with `runAgentStep` and `executeTask` of service.go.
--   Workflow/Specs has the workflows, Workflow/Steps one step of an agent, Workflow/Attempt one turn
--   of patch, test, review and plan, Workflow/PatchLoop the loop of such turns
--   (Workflow/Turns is what it comes to, as a chain), Workflow/Nodes the
--   loop over the nodes, Workflow/Execution the execution and the end of a workflow, Workflow/Planned
--   what a plan leads to, Workflow/Tasks the whole of a task.
-- - Tests: runs at concrete inputs.
--
-- The runtime calls the store, the leaser and the router of the skills; the memory service calls
-- the store; the gateway and the limiter stand alone. The agents, JSON, the workspaces, the
-- indexer, the memory's refiner and the clock act on a world that is a parameter;
-- `readFileThroughReader` has its reader as one. Between two calls of such parameters one reading
-- of the clock stands for all. A method of the store holds its lock from its start to its end, so
-- it is one step. `claimNextTask` reads the store twice, and its second read is of any later store.
--
-- Numbers are unbounded: ids and fencing tokens, which are `int` and `int64`, would have to be
-- counted up to 2 ^ 63 to differ. A time is a number of units since the zero time, and 0 is the
-- zero time, in the workflow of nanoseconds. The loop over the nodes of a workflow counts the 64
-- steps that the source counts, the patch loop its attempts; every other loop runs over a list or a
-- text, and none needs fuel. In `recoverTasks` the time of the recovery is taken to be after the
-- zero time. A cancelled context is seen by the agents alone. A slice of a text out of its bounds,
-- which ends the process, is read as an empty command (Runtime/Evidence).
--
-- Not modelled: what the agents send to a hosted model and the loop of their tool calls
-- (internal/runtime/agent_tools.go), the files that skills are loaded from, the start of the
-- service and the threads of its workers, the indexer, the processes of the sandbox and the repair
-- of hunks, the HTTP handlers and the report of evaluations, the PostgreSQL store and the clients
-- of hosted models. Log lines are left out.
pub mod Prelude
pub mod Domain
pub mod Store
pub mod Lease
pub mod Gateway
pub mod RateLimit
pub mod MemoryService
pub mod Skills
pub mod Sandbox
pub mod Retrieval
pub mod Agents
pub mod Runtime
pub mod Workflow
pub mod Tests
