-- ===== src/Graph/Rounds.antt =====
-- How the rounds of `execute` of src/brain/graph/graph-executor.service.ts end.
use zxql_ai.Prelude.{
  ℕ, zero, suc, String, not, ◌&&◌, Option, none, some, List, [], ◌∷◌, ◌++◌, ◌≡◌, refl, if-both,
  ◌==◌, string_eq, nat_eq,
}
use zxql_ai.Json.{Json}
use zxql_ai.Tools.{ToolResult}
use zxql_ai.ReviewTasks.{ReviewTask}
use zxql_ai.Graph.{
  GraphNodeType, agent, tool, condition, end, paused, done, error, GraphState, GraphNode,
  GraphRunEvent, review_required, await_confirm, graph_done, error_event, Attempt, answered, thrown,
  ToolFacts, Provider, GraphRun,
}
use zxql_ai.Graph.Nodes
use zxql_ai.Graph.Nodes.{Next, moves, stops, throws, find_node}
use zxql_ai.Graph.ToolNode
use zxql_ai.Graph.Loop
use zxql_ai.Graph.Loop.{loop, after, visit}

-- What the last event of a call says of the run's state.
pub data Finish (nodes : List GraphNode) : GraphRunEvent → GraphState → Type 0 where
  finished : {st : GraphState} (id : String) → st.status ≡ done → Finish nodes (graph_done id) st
  failed :
      {st : GraphState} (message : String)
      → st.status ≡ error
      → st.error_text ≡ some message
      → Finish nodes (error_event message) st
  lost :
      {st : GraphState} (message : String)
      → find_node st.current_node_id nodes ≡ none
      → Finish nodes (error_event message) st
  reviewing :
      {st : GraphState} (id : ℕ) (name note : String) (payload : Option Json)
      → st.status ≡ paused
      → st.pending_review_id ≡ some id
      → Finish nodes (review_required id name note payload) st
  confirming :
      {st : GraphState} (token : String) (at : ℕ)
      → st.status ≡ paused
      → st.pending_write_token ≡ some token
      → Finish nodes (await_confirm token at) st

-- The last of the events closes the call.
pub data Closed (nodes : List GraphNode) : List GraphRunEvent → GraphState → Type 0 where
  last : {ev : GraphRunEvent} {st : GraphState} → Finish nodes ev st → Closed nodes (ev ∷ []) st
  later :
      {evs : List GraphRunEvent} {st : GraphState} (ev : GraphRunEvent)
      → Closed nodes evs st
      → Closed nodes (ev ∷ evs) st

Closed-append :
    (nodes : List GraphNode) (xs ys : List GraphRunEvent) (st : GraphState)
    → Closed nodes ys st
    → Closed nodes (xs ++ ys) st
Closed-append nodes [] ys st c = c
Closed-append nodes (x ∷ xs) ys st c = later x (Closed-append nodes xs ys st c)

-- A round that ends the call closes it.
unfoldable Stopped : {E : Type 0} → List GraphNode → E × List GraphRunEvent × Next → Type 0
Stopped nodes (e, evs, stops st) = Closed nodes evs st
Stopped nodes (e, evs, moves st) = Unit {0}
Stopped nodes (e, evs, throws m st) = Unit {0}

unfoldable pub ClosedRun :
    {E : Type 0} → List GraphNode → E × List GraphRunEvent × GraphState → Type 0
ClosedRun nodes (e, evs, st) = Closed nodes evs st

Stopped-later :
    {E : Type 0} (nodes : List GraphNode) (e : E) (ev : GraphRunEvent) (evs : List GraphRunEvent)
    (n : Next)
    → Stopped nodes (e, evs, n)
    → Stopped nodes (e, ev ∷ evs, n)
unfolding Stopped
Stopped-later nodes e ev evs (stops st) c = later ev c
Stopped-later nodes e ev evs (moves st) c = c
Stopped-later nodes e ev evs (throws m st) c = c

module _ {E : Type 0} (r : GraphRun E) where
  wait_for_review-Stopped :
      (nodes : List GraphNode) (node : GraphNode) (name : String) (st : GraphState)
      (a : E × Attempt ReviewTask)
      → Stopped nodes (ToolNode.wait_for_review r node name st a)
  unfolding ToolNode.wait_for_review Stopped
  wait_for_review-Stopped nodes node name st (e, thrown m) = tt
  wait_for_review-Stopped nodes node name st (e, answered rv) =
      last (reviewing rv.id name _ _ refl refl)

  suspend_write-Stopped :
      (nodes : List GraphNode) (node : GraphNode) (name : String) (facts : Option ToolFacts)
      (result : ToolResult) (st : GraphState) (e : E)
      → Stopped nodes (ToolNode.suspend_write r node name facts result st e)
  unfolding ToolNode.suspend_write Stopped
  suspend_write-Stopped nodes node name facts result st e =
      later _ (last (confirming _ _ refl refl))

  settle_tool-Stopped :
      (nodes : List GraphNode) (node : GraphNode) (name : String) (facts : Option ToolFacts)
      (result : ToolResult) (st : GraphState) (e : E)
      → Stopped nodes (ToolNode.settle_tool r node name facts result st e)
  unfolding ToolNode.settle_tool Stopped
  settle_tool-Stopped nodes node name facts result st e =
      if-both (Stopped nodes) result.success _ _ tt (later _ (later _ (last (failed _ refl refl))))

  after_tool-Stopped :
      (nodes : List GraphNode) (node : GraphNode) (name : String) (facts : Option ToolFacts)
      (st : GraphState) (a : E × ToolResult)
      → Stopped nodes (ToolNode.after_tool r node name facts st a)
  unfolding ToolNode.after_tool
  after_tool-Stopped nodes node name facts st (e, result) =
      if-both (Stopped nodes) _ _ _ (suspend_write-Stopped nodes node name facts result st e)
        (settle_tool-Stopped nodes node name facts result st e)

  ask_review-Stopped :
      (nodes : List GraphNode) (node : GraphNode) (name : String) (st : GraphState) (e : E)
      → Stopped nodes (ToolNode.ask_review r node name st e)
  unfolding ToolNode.ask_review
  ask_review-Stopped nodes node name st e = search (wait_for_review-Stopped)

  call_tool-Stopped :
      (nodes : List GraphNode) (node : GraphNode) (name : String) (facts : Option ToolFacts)
      (st : GraphState) (e : E)
      → Stopped nodes (ToolNode.call_tool r node name facts st e)
  unfolding ToolNode.call_tool
  call_tool-Stopped nodes node name facts st e =
      Stopped-later nodes _ _ _ _ (after_tool-Stopped nodes node name facts st _)

  visit_tool-Stopped :
      (nodes : List GraphNode) (node : GraphNode) (name : Option String) (st : GraphState) (e : E)
      → Stopped nodes (ToolNode.visit_tool r node name st e)
  unfolding ToolNode.visit_tool
  visit_tool-Stopped nodes node none st e = unfold Stopped in tt
  visit_tool-Stopped nodes node (some name) st e =
      if-both (Stopped nodes) (name == "") _ _ (unfold Stopped in tt) (
        if-both (Stopped nodes)
          (not (Nodes.is_approved st node) && Nodes.is_reviewed node (r.services.find_tool name)) _
          _ (ask_review-Stopped nodes node name st e)
          (call_tool-Stopped nodes node name (r.services.find_tool name) st e))

  after_agent-Stopped :
      (nodes : List GraphNode) (node : GraphNode) (st : GraphState)
      (a : E × List GraphRunEvent × Attempt (String × List ToolResult))
      → Stopped nodes (Nodes.after_agent r node st a)
  unfolding Nodes.after_agent Stopped
  after_agent-Stopped nodes node st (e, evs, thrown m) = tt
  after_agent-Stopped nodes node st (e, evs, answered (w, outs)) = tt

  run_with-Stopped :
      (nodes : List GraphNode) (p : Option (Provider E)) (node : GraphNode) (st : GraphState)
      (e : E)
      → Stopped nodes (Nodes.run_with r p node st e)
  unfolding Nodes.run_with
  run_with-Stopped nodes none node st e = unfold Stopped in tt
  run_with-Stopped nodes (some chat) node st e = search (after_agent-Stopped)

  visit_type-Stopped :
      (nodes : List GraphNode) (type : GraphNodeType) (node : GraphNode) (st : GraphState) (e : E)
      → Stopped nodes (Loop.visit_type r type node st e)
  unfolding Loop.visit_type Nodes.visit_end Nodes.visit_condition Nodes.visit_agent
  visit_type-Stopped nodes end node st e = unfold Stopped in later _ (last (finished _ refl))
  visit_type-Stopped nodes tool node st e = visit_tool-Stopped nodes node node.tool_name st e
  visit_type-Stopped nodes condition node st e = unfold Stopped in tt
  visit_type-Stopped nodes agent node st e = run_with-Stopped nodes r.provider node st e

  visit-Stopped :
      (nodes : List GraphNode) (node : Option GraphNode) (st : GraphState) (e : E)
      → find_node st.current_node_id nodes ≡ node
      → Stopped nodes (visit r node st e)
  unfolding visit
  visit-Stopped nodes none st e h = unfold Stopped in last (lost _ h)
  visit-Stopped nodes (some node) st e h =
      Stopped-later nodes _ _ _ _ (visit_type-Stopped nodes node.node_type node _ e)

  after-ClosedRun :
      (nodes : List GraphNode) (rest : GraphState → E → E × List GraphRunEvent × GraphState)
      (v : E × List GraphRunEvent × Next)
      → ((st : GraphState) (e : E) → ClosedRun nodes (rest st e))
      → Stopped nodes v
      → ClosedRun nodes (after r rest v)
  unfolding after ClosedRun Stopped
  after-ClosedRun nodes rest (e, evs, moves st) h _ = Closed-append nodes evs _ _ (h st _)
  after-ClosedRun nodes rest (e, evs, stops st) h c = c
  after-ClosedRun nodes rest (e, evs, throws m st) h _ =
      Closed-append nodes evs _ _ (last (failed m refl refl))

  pub loop-ClosedRun : (n : ℕ) (st : GraphState) (e : E) → ClosedRun r.graph.nodes (loop r n st e)
  unfolding loop
  loop-ClosedRun zero st e = unfold ClosedRun in last (failed _ refl refl)
  loop-ClosedRun (suc n) st e =
      after-ClosedRun r.graph.nodes (loop r n) _ (loop-ClosedRun n)
        (visit-Stopped r.graph.nodes _ st e refl)
