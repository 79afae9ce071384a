-- ===== src/Graph/Compose.antt =====
-- The services of src/brain/graph/graph-executor.service.ts made of the checkpointer, the review
-- tasks, the confirmations and a tool executor.
use zxql_ai.Prelude.{ℕ, String, Bool, false, Option, none, some, List, [], ◌∷◌}
use zxql_ai.Json.{Args}
use zxql_ai.Tools.{ToolContext, ToolResult}
use zxql_ai.Executor.{ToolCall, ExecuteOptions}
use zxql_ai.Redis.{RedisClient}
use zxql_ai.WriteGuard.{Cell}
use zxql_ai.Confirmation
use zxql_ai.Confirmation.{
  PendingConfirmation, CreateConfirmationInput, Confirmations, ExecutedOperation, Evidence,
}
use zxql_ai.Confirmation.Window.{get_executed_by_confirmation}
use zxql_ai.ReviewTasks
use zxql_ai.ReviewTasks.{
  ReviewTask, CreateReviewTaskInput, Repository, ReviewResult, reviewed, failed, ReviewError,
  not_found, conflict,
}
use zxql_ai.Graph.{GraphState, NodeOutput, Attempt, answered, thrown, ToolFacts, Services}
use zxql_ai.Checkpointer
use zxql_ai.Checkpointer.{Checkpointer, StateClient}

-- The state of the services: the saved runs, the table of the tasks, the confirmations and, in them,
-- the tool executor with its state `X`.
pub record Backend (S : Type 0) (R : Type 0) (C : Type 0) (X : Type 0) : Type 0 where
  pub checkpoints : Checkpointer S
  pub reviews : R
  pub confirmations : Confirmations C X

-- What is no state: the clients, the executor's code, the registry and the environment.
pub record Wiring (S : Type 0) (R : Type 0) (C : Type 0) (X : Type 0) : Type 0 where
  pub states : StateClient S
  pub repository : Repository R
  pub redis : RedisClient C Cell
  pub run_tool : ℕ → ToolCall → ToolContext → ExecuteOptions → X → X × ToolResult
  pub facts : String → Option ToolFacts
  pub names : List String
  pub rules : Option (List String) → Option String
  pub late : ToolCall → Bool
  pub tool_timeout : Option ℕ
  pub decimal : ℕ → String
  pub summary : List (String × NodeOutput) → String

module _ {S R C X : Type 0} (w : Wiring S R C X) where
  abbrev pub attempted : ReviewResult → Attempt ReviewTask
  attempted (reviewed task) = answered task
  attempted (failed (not_found id)) = thrown "待审工单不存在"
  attempted (failed (conflict status)) = thrown "仅 pending 可审核"

  abbrev load_state : ℕ → String → String → Backend S R C X → Backend S R C X × Option GraphState
  load_state now tenant session b =
      let (c, st) = Checkpointer.load w.states now tenant session b.checkpoints in
      (record b { checkpoints = c }, st)

  abbrev run_one :
      ℕ → ToolCall → ToolContext → ExecuteOptions → Backend S R C X → Backend S R C X × ToolResult
  run_one now call context options b =
      let (x, result) = w.run_tool now call context options b.confirmations.executor in
      (record b { confirmations = record (b.confirmations) { executor = x } }, result)

  abbrev run_all :
      ℕ
      → List ToolCall
      → ToolContext
      → Backend S R C X
      → Backend S R C X × List (String × String × ToolResult)
  run_all now [] context b = (b, [])
  run_all now (call ∷ calls) context b =
      let (b', result) =
        run_one now call context (record { allow_confirm = false; idempotency_key = none }) b in
      let (b'', results) = run_all now calls context b' in
      (b'', (call.id, call.name, result) ∷ results)

  abbrev open_review :
      ℕ → CreateReviewTaskInput → Backend S R C X → Backend S R C X × Attempt ReviewTask
  open_review now input b =
      let (s, task) = ReviewTasks.create w.repository now input b.reviews in
      (record b { reviews = s }, answered task)

  abbrev look_up_write :
      ℕ → String → String → Backend S R C X → Backend S R C X × Option PendingConfirmation
  look_up_write now token tenant b =
      let (c, found) = Confirmation.get_by_tenant w.redis now token tenant b.confirmations in
      (record b { confirmations = c }, found)

  abbrev open_write :
      ℕ → String → CreateConfirmationInput → Backend S R C X → Backend S R C X × PendingConfirmation
  open_write now fresh input b =
      let (c, write) = Confirmation.create w.redis now fresh input b.confirmations in
      (record b { confirmations = c }, write)

  abbrev noted : Evidence → Option (List Evidence) → Option (List Evidence)
  noted entry none = none
  noted entry (some entries) = some (entry ∷ entries)

  abbrev note_write : ToolContext → String → Args → ToolResult → Backend S R C X → Backend S R C X
  note_write context name args result b =
      let entry : Evidence = record {
        context = context;
        tool_name = name;
        args = args;
        data_value = result.data_value;
      } in
      record b {
        confirmations = record (b.confirmations) {
          evidence = noted entry b.confirmations.evidence;
        };
      }

  unfoldable pub services : Services (Backend S R C X)
  services = record {
    load = load_state;
    save = λ now st b. record b { checkpoints = Checkpointer.save w.states now st b.checkpoints };
    clear = λ now tenant session b. record b {
      checkpoints = Checkpointer.clear w.states now tenant session b.checkpoints;
    };
    find_tool = w.facts;
    tool_names = w.names;
    find_review = λ id tenant b. attempted (ReviewTasks.get w.repository id tenant b.reviews);
    create_review = open_review;
    execute_tool_call = run_one;
    execute_tool_calls = run_all;
    find_write = look_up_write;
    create_write = open_write;
    executed_write =
        λ token tenant b. get_executed_by_confirmation token tenant b.confirmations.executed_map;
    record_write = note_write;
    rules_context = w.rules;
    timer_first = λ call b. w.late call;
    timeout = w.tool_timeout;
    number_text = w.decimal;
    results_text = w.summary;
  }
