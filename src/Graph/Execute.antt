-- ===== src/Graph/Execute.antt =====
-- `execute` of src/brain/graph/graph-executor.service.ts: a call starts a run or resumes one.
use zxql_ai.Prelude.{
  ℕ, String, Bool, true, false, Option, none, some, List, [], ◌∷◌, ◌++◌, if◌then◌else◌, ◌==◌,
  nat_eq, not, ◌||◌, string_eq,
}
use zxql_ai.Prelude.Map.{insert}
use Prim.Native.String.{◌++◌ as append}
use zxql_ai.Json.{Json, null}
use zxql_ai.WriteGuard
use zxql_ai.Confirmation.{PendingConfirmation, ExecutedOperation}
use zxql_ai.ReviewTasks.{ReviewTask}
use zxql_ai.ReviewTasks
use zxql_ai.Graph.{
  GraphStatus, running, paused, done, error, NodeOutput, tool_output, confirmed_executed,
  GraphState, GraphNode, GraphRunEvent, review_required, await_confirm, Attempt, answered, thrown,
  GraphRun,
}
use zxql_ai.Graph.Agent.{or_else}
use zxql_ai.Graph.Nodes.{find_node}
use zxql_ai.Graph.Loop.{finish_with_error, loop}

abbrev pub max_node_steps : ℕ
max_node_steps = 50

-- What a resumption comes to: the call ends, or goes on.
pub data Resumed : Type 0 where
  ended : List GraphRunEvent → GraphState → Resumed
  goes_on : GraphState → Resumed

abbrev pub is_done : GraphStatus → Bool
is_done done = true
is_done running = false
is_done paused = false
is_done error = false

abbrev is_null : Json → Bool
is_null null = true
is_null _ = false

abbrev pub executed_output : Option ExecutedOperation → NodeOutput
executed_output none = confirmed_executed
executed_output (some op) = elim op.result [
  | none ↦ confirmed_executed
  | some v ↦ if is_null v then confirmed_executed else tool_output (some v)
]

abbrev pub label_or : String → Option GraphNode → String
label_or id none = id
label_or id (some node) = node.label

abbrev next_or_end : Option GraphNode → String
next_or_end none = "end"
next_or_end (some node) = or_else node.next "end"

-- The node of the write counts as run.
unfoldable pub complete_write :
    Option ExecutedOperation → Option GraphNode → GraphState → GraphState
complete_write executed node st = record st {
  status = running;
  current_node_id = next_or_end node;
  results = insert st.current_node_id (executed_output executed) st.results;
  history =
      st.history
      ++ (record {
        node_id = st.current_node_id;
        label = label_or st.current_node_id node;
        success = true;
      }
          ∷ []);
  pending_write_token = none;
}

module _ {E : Type 0} (r : GraphRun E) where
  unfoldable pub initial_state : GraphState
  initial_state = record {
    graph_id = r.graph.id;
    tenant_id = r.tool_context.tenant_id;
    session_id = r.session_id;
    current_node_id = r.graph.entry;
    status = running;
    results = [];
    node_order = [];
    history = [];
    error_text = none;
    pending_review_id = none;
    pending_write_token = none;
    approved_node_ids = none;
    updated_at = r.now;
  }

  abbrev pub wait_review : ℕ → GraphState → E → E × Resumed
  wait_review id st e = (e, ended (review_required id "待审工单" "等待人工审核，请审批后重试" none ∷ []) st)

  abbrev stop_with : String → GraphState → E → E × Resumed
  stop_with message st e =
      let (e', events, st') = finish_with_error r message st e in (e', ended events st')

  -- The status of the task that the run waits for.
  unfoldable pub reviewed_as :
      ReviewTasks.ReviewStatus → ReviewTask → ℕ → GraphState → E → E × Resumed
  reviewed_as ReviewTasks.pending task id st e = wait_review id st e
  reviewed_as ReviewTasks.rejected task id st e =
      stop_with (append "人工审核已驳回：" (or_else task.reject_reason "未说明原因")) st e
  reviewed_as ReviewTasks.approved task id st e = (
    e,
    goes_on (record st {
      status = running;
      pending_review_id = none;
      approved_node_ids = some (or_else st.approved_node_ids [] ++ (st.current_node_id ∷ []));
    }),
  )

  unfoldable pub resume_review : ℕ → Attempt ReviewTask → GraphState → E → E × Resumed
  unfolding reviewed_as
  resume_review id (thrown _) st e = wait_review id st e
  resume_review id (answered task) st e = reviewed_as task.status task id st e

  abbrev write_over : String → GraphState → E → E × Resumed
  write_over message st e = stop_with message (record st { pending_write_token = none }) e

  abbrev write_done : String → GraphState → E → E × Resumed
  unfolding complete_write
  write_done token st e =
      let st' =
        complete_write (r.services.executed_write token r.tool_context.tenant_id e)
          (find_node st.current_node_id r.graph.nodes) st in
      (r.services.save r.now st' e, goes_on st')

  -- The status of the write that the run waits for.
  unfoldable pub written_as :
      WriteGuard.WriteGuardStatus → PendingConfirmation → String → GraphState → E → E × Resumed
  unfolding complete_write
  written_as WriteGuard.pending write token st e =
      (r.services.save r.now st e, ended (await_confirm token write.expires_at ∷ []) st)
  written_as WriteGuard.cancelled write token st e = write_over "写操作已被用户取消，图执行终止" st e
  written_as WriteGuard.first_confirmed write token st e = write_done token st e
  written_as WriteGuard.confirmed write token st e = write_done token st e
  written_as WriteGuard.expired write token st e = write_done token st e

  unfoldable pub resume_write : String → Option PendingConfirmation → GraphState → E → E × Resumed
  unfolding written_as
  resume_write token none st e = write_over "写操作确认已失效（令牌过期或已删除），图执行终止" st e
  resume_write token (some write) st e = written_as write.status write token st e

  -- `pendingReviewId` and `pendingWriteToken` count where they are neither 0 nor empty.
  abbrev pub review_awaited : GraphStatus → Option ℕ → Option ℕ
  review_awaited paused (some id) = if id == 0 then none else some id
  review_awaited paused none = none
  review_awaited running _ = none
  review_awaited done _ = none
  review_awaited error _ = none

  abbrev pub write_awaited : GraphStatus → Option String → Option String
  write_awaited paused (some token) = if token == "" then none else some token
  write_awaited paused none = none
  write_awaited running _ = none
  write_awaited done _ = none
  write_awaited error _ = none

  unfoldable pub resume_for_write : Option String → GraphState → E → E × Resumed
  unfolding resume_write
  resume_for_write none st e = (e, goes_on st)
  resume_for_write (some token) st e =
      let (e', write) = r.services.find_write r.now token r.tool_context.tenant_id e in
      resume_write token write st e'

  unfoldable pub resume_for_review : Option ℕ → GraphState → E → E × Resumed
  unfolding resume_review resume_for_write
  resume_for_review (some id) st e =
      resume_review id (r.services.find_review id (some r.tool_context.tenant_id) e) st e
  resume_for_review none st e =
      resume_for_write (write_awaited st.status st.pending_write_token) st e

  -- A run that waits goes on as far as what it waits for allows.
  unfoldable pub resume : GraphState → E → E × Resumed
  unfolding resume_for_review
  resume st e = resume_for_review (review_awaited st.status st.pending_review_id) st e

  unfoldable pub start : Option GraphState → E → E × Resumed
  unfolding initial_state resume
  start none e = (e, goes_on initial_state)
  start (some st) e =
      if not (st.graph_id == r.graph.id) || is_done st.status
      then (e, goes_on initial_state)
      else resume st e

  unfoldable pub run_on : E × Resumed → E × List GraphRunEvent × GraphState
  unfolding loop
  run_on (e, ended events st) = (e, events, st)
  run_on (e, goes_on st) = loop r max_node_steps st e

  -- The state of the services, the events of the call and the last state of the run.
  unfoldable pub execute : E → E × List GraphRunEvent × GraphState
  unfolding start run_on
  execute e =
      let (e', loaded) = r.services.load r.now r.tool_context.tenant_id r.session_id e in
      run_on (start loaded e')
