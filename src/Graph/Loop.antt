-- ===== src/Graph/Loop.antt =====
-- The loop of `execute` of src/brain/graph/graph-executor.service.ts.
use zxql_ai.Prelude.{ℕ, zero, suc, String, Option, none, some, List, [], ◌∷◌, ◌++◌, string_eq}
use Prim.Native.String.{◌++◌ as append}
use zxql_ai.Graph.{
  GraphNodeType, agent, tool, condition, end, error, GraphState, GraphNode, GraphRunEvent,
  node_start, error_event, GraphRun,
}
use zxql_ai.Graph.Nodes.{Next, moves, stops, throws, find_node, Visited}
use zxql_ai.Graph.Nodes.{visit_end, visit_condition, visit_agent}
use zxql_ai.Graph.ToolNode.{visit_tool}

module _ {E : Type 0} (r : GraphRun E) where
  unfoldable pub visit_type : GraphNodeType → GraphNode → GraphState → E → Visited E
  unfolding visit_end visit_tool visit_condition visit_agent
  visit_type end node st e = visit_end r node st e
  visit_type tool node st e = visit_tool r node node.tool_name st e
  visit_type condition node st e = visit_condition r node st e
  visit_type agent node st e = visit_agent r node st e

  -- One round of the loop: the node's events come after `node_start`.
  unfoldable pub visit : Option GraphNode → GraphState → E → Visited E
  unfolding visit_type
  visit none st e = (
    r.services.clear r.now r.tool_context.tenant_id r.session_id e,
    error_event (append "图节点不存在：" st.current_node_id) ∷ [],
    stops st,
  )
  visit (some node) st e =
      let (e', events, next) =
        visit_type node.node_type node (record st { node_order = st.node_order ++ (node.id ∷ []) })
          e in
      (e', node_start node.id node.label ∷ events, next)

  abbrev pub finish_with_error : String → GraphState → E → E × List GraphRunEvent × GraphState
  finish_with_error message st e =
      let st' = record st { status = error; error_text = some message } in
      (r.services.save r.now st' e, error_event message ∷ [], st')

  -- What follows a round.
  unfoldable pub after :
      (GraphState → E → E × List GraphRunEvent × GraphState)
      → E × List GraphRunEvent × Next
      → E × List GraphRunEvent × GraphState
  after rest (e, events, moves st) =
      let (e', events', out) = rest st (r.services.save r.now st e) in (e', events ++ events', out)
  after rest (e, events, stops st) = (e, events, st)
  after rest (e, events, throws message st) =
      let (e', events', out) = finish_with_error message st e in (e', events ++ events', out)

  -- The rounds that are left.
  unfoldable pub loop : ℕ → GraphState → E → E × List GraphRunEvent × GraphState
  unfolding after visit
  loop zero st e = finish_with_error "图执行超过 50 步（疑似死循环）" st e
  loop (suc n) st e = after (loop n) (visit (find_node st.current_node_id r.graph.nodes) st e)
