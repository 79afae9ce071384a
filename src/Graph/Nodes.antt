-- ===== src/Graph/Nodes.antt =====
-- The nodes of src/brain/graph/graph-executor.service.ts other than those of tools, and what the
-- nodes share.
use zxql_ai.Prelude.{
  String, Bool, true, false, ◌||◌, Option, none, some, List, [], ◌∷◌, ◌++◌, if◌then◌else◌, ◌==◌,
  string_eq, any,
}
use zxql_ai.Prelude.Map.{insert}
use zxql_ai.Tools.{ToolResult}
use zxql_ai.WriteGuard.{ToolRisk, low, medium, high}
use zxql_ai.Graph.{
  done, agent_output, GraphState, GraphNode, GraphRunEvent, node_end, graph_done, Attempt, answered,
  thrown, ToolFacts, Provider, GraphRun,
}
use zxql_ai.Graph.Agent.{or_else, run_agent}

-- What a node leads to: the loop goes on, the call ends, or an error is thrown.
pub data Next : Type 0 where
  moves : GraphState → Next
  stops : GraphState → Next
  throws : String → GraphState → Next

abbrev pub find_node : String → List GraphNode → Option GraphNode
find_node id [] = none
find_node id (node ∷ nodes) = if node.id == id then some node else find_node id nodes

abbrev pub risk_of : Option ToolFacts → ToolRisk
risk_of none = medium
risk_of (some t) = or_else t.risk medium

abbrev is_high : ToolRisk → Bool
is_high low = false
is_high medium = false
is_high high = true

abbrev facts_need_review : Option ToolFacts → Bool
facts_need_review none = false
facts_need_review (some t) = or_else t.needs_review false

abbrev pub is_write_tool : Option ToolFacts → Bool
is_write_tool none = false
is_write_tool (some t) = t.is_write_operation

-- Whether the node waits for a person unless one has approved it.
abbrev pub is_reviewed : GraphNode → Option ToolFacts → Bool
is_reviewed node facts =
    or_else node.needs_review false || (facts_need_review facts || is_high (risk_of facts))

abbrev pub is_approved : GraphState → GraphNode → Bool
is_approved st node = any (λ id. id == node.id) (or_else st.approved_node_ids [])

abbrev pub is_preview : ToolResult → Bool
is_preview result = elim result.preview [ none ↦ false | some _ ↦ true ]

abbrev pub add_history : GraphNode → Bool → GraphState → GraphState
add_history node ok st = record st {
  history = st.history ++ (record { node_id = node.id; label = node.label; success = ok } ∷ []);
}

abbrev pub to_next : GraphNode → GraphState → GraphState
to_next node st = record st { current_node_id = or_else node.next "end" }

abbrev pub Visited : Type 0 → Type 0
Visited E = E × List GraphRunEvent × Next

module _ {E : Type 0} (r : GraphRun E) where
  abbrev choose : GraphNode → GraphState → Option (GraphState → Option String) → Option String
  choose node st none = node.next
  choose node st (some f) = elim (f st) [ none ↦ node.next | some id ↦ some id ]

  unfoldable pub visit_condition : GraphNode → GraphState → E → Visited E
  visit_condition node st e =
      let next = or_else (choose node st node.condition_of) "end" in
      (
        e,
        node_end node.id node.label true ∷ [],
        moves (record (add_history node true st) { current_node_id = next }),
      )

  unfoldable pub after_agent :
      GraphNode
      → GraphState
      → E × List GraphRunEvent × Attempt (String × List ToolResult)
      → Visited E
  after_agent node st (e, events, thrown message) = (e, events, throws message st)
  after_agent node st (e, events, answered (words, outs)) = (
    e,
    events ++ (node_end node.id node.label true ∷ []),
    moves (
        to_next node (
          add_history node true
            (record st { results = insert node.id (agent_output words outs) st.results }))),
  )

  unfoldable pub run_with : Option (Provider E) → GraphNode → GraphState → E → Visited E
  unfolding after_agent run_agent
  run_with none node st e = (e, node_end node.id node.label true ∷ [], moves (to_next node st))
  run_with (some chat) node st e = after_agent node st (run_agent r chat node st e)

  unfoldable pub visit_agent : GraphNode → GraphState → E → Visited E
  unfolding run_with
  visit_agent node st e = run_with r.provider node st e

  unfoldable pub visit_end : GraphNode → GraphState → E → Visited E
  visit_end node st e = (
    r.services.clear r.now r.tool_context.tenant_id r.session_id e,
    node_end node.id node.label true ∷ graph_done r.graph.id ∷ [],
    stops (add_history node true (record st { status = done })),
  )
