-- ===== src/Graph/ToolNode.antt =====
-- The tool nodes of src/brain/graph/graph-executor.service.ts.
use zxql_ai.Prelude.{
  ℕ, ◌+◌, ◌*◌, String, true, false, not, ◌&&◌, Option, none, some, [], ◌∷◌, ◌++◌, if◌then◌else◌,
  ◌==◌, ltb, string_eq,
}
use zxql_ai.Prelude.Map.{insert}
use Prim.Native.String.{◌++◌ as append}
use zxql_ai.Json.{Json, Args, Fields, no_fields, field, object, text, undefined}
use zxql_ai.Tools.{ToolResult, failure}
use zxql_ai.Executor.{ToolCall, parsed}
use zxql_ai.ReviewTasks.{ReviewTask, CreateReviewTaskInput}
use zxql_ai.Graph.{
  paused, error, tool_output, GraphState, GraphNode, node_end, tool_start, tool_result,
  review_required, pending_write, await_confirm, error_event, Attempt, answered, thrown, ToolFacts,
  GraphRun,
}
use zxql_ai.Graph.Agent.{or_else}
use zxql_ai.Graph.Nodes.{
  moves, stops, throws, risk_of, is_write_tool, is_reviewed, is_approved, is_preview, add_history,
  to_next, Visited,
}

fields_of : Args → Fields
fields_of [] = no_fields
fields_of ((k, v) ∷ rest) = field k v (fields_of rest)

abbrev note_json : Option String → Json
note_json none = undefined
note_json (some note) = text note

-- `reviewPayload`, or the label, the arguments and the note of the node.
unfoldable pub review_payload_of : GraphNode → Json
unfolding fields_of
review_payload_of node = or_else node.review_payload (
    object (
      field "nodeLabel" (text node.label) (
        field "args" (object (fields_of (or_else node.args [])))
          (field "reviewNote" (note_json node.review_note) no_fields))))

abbrev day_ms : ℕ
day_ms = 24 * 60 * 60 * 1000

-- `Number.isFinite(parsed) && parsed > 0 ? parsed : 60000`
unfoldable pub timeout_ms : Option ℕ → ℕ
timeout_ms none = 60000
timeout_ms (some n) = if ltb 0 n then n else 60000

module _ {E : Type 0} (r : GraphRun E) where
  unfoldable pub execute_tool_with_timeout : ToolCall → E → E × ToolResult
  unfolding timeout_ms
  execute_tool_with_timeout call e =
      let (e', result) =
        r.services.execute_tool_call r.now call r.tool_context
          (record { allow_confirm = false; idempotency_key = none }) e in
      if r.services.timer_first call e
      then (
        e',
        failure
            (append "工具执行超时（"
              (append (r.services.number_text (timeout_ms r.services.timeout)) "ms），已中止图节点"))
            none,
      )
      else (e', result)

  -- The answer to a request of a review.
  unfoldable pub wait_for_review :
      GraphNode → String → GraphState → E × Attempt ReviewTask → Visited E
  wait_for_review node name st (e, thrown message) = (e, [], throws message st)
  wait_for_review node name st (e, answered review) =
      let st' = record st { status = paused; pending_review_id = some review.id } in
      (
        r.services.save r.now st' e,
        review_required review.id name
              (or_else node.review_note (append "「" (append node.label "」需要人工审核"))) review.payload
            ∷ [],
        stops st',
      )

  abbrev pub review_of : GraphNode → String → CreateReviewTaskInput
  unfolding review_payload_of
  review_of node name = record {
    tenant_id = r.tool_context.tenant_id;
    session_id = some r.session_id;
    graph_id = some r.graph.id;
    node_id = some node.id;
    tool_name = some name;
    payload = some (review_payload_of node);
    created_by = r.tool_context.user_id;
  }

  unfoldable pub ask_review : GraphNode → String → GraphState → E → Visited E
  unfolding wait_for_review
  ask_review node name st e =
      wait_for_review node name st (r.services.create_review r.now (review_of node name) e)

  -- A preview of a write becomes a confirmation that the user is asked for.
  unfoldable pub suspend_write :
      GraphNode → String → Option ToolFacts → ToolResult → GraphState → E → Visited E
  suspend_write node name facts result st e =
      let (e', write) =
        r.services.create_write r.now r.fresh
          (record {
            tenant_id = r.tool_context.tenant_id;
            conversation_id = some r.session_id;
            customer_id = none;
            plan_id = none;
            plan_step_id = none;
            tool_name = name;
            doc_type = none;
            risk = some (risk_of facts);
            needs_review = none;
            args = or_else node.args [];
            preview = result.preview;
            operation_label =
                append "图「" (append r.graph.name (append "」节点「" (append node.label "」")));
          })
          e in
      let st' = record st { status = paused; pending_write_token = some write.confirmation_id } in
      (
        r.services.save r.now st' e',
        pending_write write.confirmation_id result.preview name (r.now + day_ms)
            ∷ await_confirm write.confirmation_id (r.now + day_ms)
            ∷ [],
        stops st',
      )

  -- The result of a tool goes into the state; a failure ends the run.
  unfoldable pub settle_tool :
      GraphNode → String → Option ToolFacts → ToolResult → GraphState → E → Visited E
  settle_tool node name facts result st e =
      let e' =
        (if is_write_tool facts && (not (is_preview result) && result.success)
          then r.services.record_write r.tool_context name (or_else node.args []) result e
          else e) in
      let st₁ =
        add_history node result.success
          (record st { results = insert node.id (tool_output result.data_value) st.results }) in
      let events = tool_result name result ∷ node_end node.id node.label result.success ∷ [] in
      let message = or_else result.error "工具执行失败" in
      let st₂ = record st₁ { status = error; error_text = some message } in
      if result.success
      then (e', events, moves (to_next node st₁))
      else (r.services.save r.now st₂ e', events ++ (error_event message ∷ []), stops st₂)

  unfoldable pub after_tool :
      GraphNode → String → Option ToolFacts → GraphState → E × ToolResult → Visited E
  unfolding suspend_write settle_tool
  after_tool node name facts st (e, result) =
      if is_write_tool facts && (result.success && is_preview result)
      then suspend_write node name facts result st e
      else settle_tool node name facts result st e

  -- A node that was approved runs for real.
  unfoldable pub run_node : GraphNode → String → GraphState → E → E × ToolResult
  unfolding execute_tool_with_timeout
  run_node node name st e =
      let call : ToolCall = record {
        id = append "graph_" (append node.id (append "_" (r.services.number_text r.now)));
        name = name;
        arguments = parsed (or_else node.args []);
      } in
      if is_approved st node
      then r.services.execute_tool_call r.now call r.tool_context
          (record { allow_confirm = true; idempotency_key = none }) e
      else execute_tool_with_timeout call e

  unfoldable pub call_tool : GraphNode → String → Option ToolFacts → GraphState → E → Visited E
  unfolding after_tool run_node
  call_tool node name facts st e =
      let (e', events, next) = after_tool node name facts st (run_node node name st e) in
      (e', tool_start name ∷ events, next)

  -- The gate of the review stands before the call.
  unfoldable pub visit_tool : GraphNode → Option String → GraphState → E → Visited E
  unfolding ask_review call_tool
  visit_tool node none st e = (e, [], throws (append "工具节点缺少 tool 名：" node.id) st)
  visit_tool node (some name) st e =
      let facts = r.services.find_tool name in
      if name == ""
      then (e, [], throws (append "工具节点缺少 tool 名：" node.id) st)
      else if not (is_approved st node) && is_reviewed node facts
      then ask_review node name st e
      else call_tool node name facts st e
