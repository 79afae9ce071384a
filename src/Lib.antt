-- ===== src/Lib.antt =====
-- The gates between a language model and the business services of ZXQL-AI: every call of a tool
-- passes them, and a tool that writes runs only after a person has confirmed it.
--
-- The parts and how they work together. `ToolExecutor` (src/tools/tool-executor.ts) takes a call
-- of a model, turns an unconfirmed write into a preview, and asks the customer's scope
-- (src/tools/customer-scope.guard.ts), the circuit breaker of the tool
-- (src/tools/circuit-breaker.service.ts) and, for a confirmed write, the idempotency gate
-- (src/tools/idempotency-gate.service.ts) before it runs the tool. A write waits as a token of the
-- write guard (src/brain/write-guard.service.ts); the confirmation service
-- (src/brain/confirmation.service.ts) confirms the token, runs the tool through the executor's
-- only channel that may confirm, opens the token again after a failure and keeps the operation for
-- three minutes in which it can be revoked. The graph executor
-- (src/brain/graph/graph-executor.service.ts) runs the nodes of a graph one after another through
-- the same executor, keeps the run's state in the checkpointer
-- (src/brain/graph/checkpointer.service.ts) after each, and pauses the run where a node waits for
-- a task that a person reviews (src/brain/review/review-task.service.ts) or where a tool previews
-- a write, which then waits at the confirmation service. The task runner
-- (src/brain/agent/task-runner.service.ts) runs the steps of a plan that it keeps in a table: it
-- suspends the step whose tool previews a write, and a person approves, rejects or cancels. The
-- model of an agent is called through the provider router
-- (src/brain/router/provider-router.service.ts), which falls back to other providers. The write
-- guard, the rate limiter (src/common/rate-limiter.ts) and the gate use Redis through
-- src/common/redis.provider.ts, which in the standalone form gives the client of
-- src/common/redis-memory.client.ts, which the guard and the limiter then leave unused.
--
-- The files. Prelude, Prelude/Map: tests, lists, and the JavaScript `Map` as an association list.
-- Json: the values of arguments and results. Tools: `ITool`, `ToolContext`, `ToolResult` of
-- src/tools/tool.interface.ts and the tools of the registry; ToolRegistry: setTenantDisabledTools,
-- listForTenant, toToolDefinitions, toToolDefinitionsForTenant of src/tools/tool-registry.ts.
-- Breaker: canProceed (can_proceed), recordSuccess, recordFailure, reset; status in
-- Breaker/Report. RedisMemory: get, set, setex, del, expire, incr; the sets and `multi` in
-- RedisMemory/Sets, the two Lua scripts in RedisMemory/Scripts. Redis: the client as an interface,
-- and the standalone client as an instance. RateLimiter: onModuleInit, consume, consumeMemory,
-- cleanupStaleBuckets, capacityOf; Middleware: `use` of src/common/rate-limiter.middleware.ts.
-- WriteGuard: the records, onModuleInit and the stores (save, load, remove, listTokens, audit,
-- maskToken, resolveWriteTokenTtlMs); WriteGuard/Service: suspend, get, listPending, confirm
-- (doConfirm), resetToPending, cancel (doCancel), cleanupExpired. Executor: the types, the scope
-- and the review gate; Executor/Run: executeToolCall and executeToolCalls in their steps.
-- Confirmation: create, get, getByTenant, listPending, confirm, cancel, resetToPending;
-- Confirmation/Window: registerExecuted, canRevoke, markRevoked, markRevokeFailed, cleanupExpired;
-- Confirmation/Execute: confirmAndExecute, executeConfirmed. Idempotency: the rows and the table
-- as an interface; Idempotency/Keys: isValidExplicitKey, buildKey, canonicalize,
-- pickBusinessFields; Idempotency/Gate: check, runGate, decideFromRow, complete, cleanupExpired.
-- ReviewTasks: create, list, get, approve, reject; ReviewTasks/Table: a table that keeps the laws
-- of a repository. Checkpointer: onModuleInit, save, load, clear. Graph: the types of
-- src/brain/graph/graph.types.ts and the services of the graph executor as an interface;
-- Graph/Builtin: BUILTIN_GRAPHS, getGraph, listGraphs, onModuleInit; Graph/Agent: the loop of an
-- agent node; Graph/Nodes, Graph/ToolNode, Graph/Loop: a round of `execute` and its while loop;
-- Graph/Execute: `execute` with its resumptions; Graph/Compose: the interface filled by the
-- checkpointer, the tasks and the confirmations. Plans: the types of
-- src/brain/agent/agent.types.ts, createPlan, getPlan, listPlans, savePlan, detectFinalState;
-- Plans/Decisions: approveStep, rejectStep, cancelPlan, markStepExecutedByToken; Plans/Steps: the
-- services of a run as an interface, maybeSuspendWrite; Plans/ToolStep: runToolStep;
-- Plans/AgentStep: runAgentStep; Plans/Run: run; Plans/Healing: classify, suggest and heal of
-- src/brain/agent/self-heal-loop.service.ts; Plans/Compose: the services of a run made of the
-- executor, the confirmations, the healing and the router. ProviderRouter: route, resolveChain,
-- resolveChainWithSwitch, chatWithFallback, chatSyncWithFallback, buildMeta. The files below these
-- hold proofs, and the files named Tests runs and examples.
--
-- State and effects. A service is a record, a method a function from the record to the new record
-- and its answer. `Date.now()` and `randomUUID()` are arguments, one of each for a call. A client,
-- a table, a tool or an executor is a record of functions on a state of its own, so that its
-- failures are values. The laws of the gate's table (Idempotency/Once) are hypotheses, by which a
-- rejected statement changes nothing. The table of the plans (Plans) does not reject a statement.
-- Whether a service uses Redis is decided by a ping when it starts (on_module_init); the client of
-- the standalone form has none, so that the services keep their data in memory there. A method
-- runs to its end before the next begins: awaits are not interleaved. In memory a record that is
-- read is the stored object, and its assignments show in the map. Numbers are natural numbers; the
-- token bucket counts in 1/60000 of a token, without the rounding of floating point. A run of a
-- graph has the events that it yields as a list, and the state object beside them. The results of
-- an agent's tools stand for their JSON texts. A tool call that the timer of a node cuts off has
-- its effects, and the run does not see them. The checkpointer keeps a copy of a state, where the
-- source keeps the object that the run goes on changing. A run of a plan has one time; its events
-- leave out the arguments of a call and the latency, the text of a conflict its numbers, and a log
-- of healing is its actions. The steps of a row are a list in place of their JSON text. What a
-- step throws fails the step, and its events are lost. Every function is by structural recursion;
-- the deletion in batches has the source's own bound of 200 batches, the loop of a graph the
-- source's own bound of 50 steps, that of an agent node its number of rounds, and that of an agent
-- step 6 rounds.
--
-- Not modelled: log lines, metrics of durations, the opening of connections, streams of Redis, the
-- words of isConfirmMessage and isCancelMessage, and the other subsystems: orchestration and
-- prompts, model providers, retrieval, the planner of plans, HTTP controllers, the single tools.
pub mod Prelude
pub mod Json
pub mod Breaker
pub mod RedisMemory
pub mod Redis
pub mod RateLimiter
pub mod Middleware
pub mod WriteGuard
pub mod Tools
pub mod ToolRegistry
pub mod Executor
pub mod Confirmation
pub mod Idempotency
pub mod ReviewTasks
pub mod Graph
pub mod Checkpointer
pub mod Plans
pub mod ProviderRouter
