-- ===== src/Graph/Smooth.antt =====
-- Rounds of src/brain/graph/graph-executor.service.ts in which nothing fails.
use zxql_ai.Prelude.{
  ℕ, zero, suc, String, true, false, not, ◌&&◌, Option, none, some, List, [], ◌∷◌, ◌≡◌, refl, arith,
  if-both, if-cases, ◌==◌, string_eq, Bool-cases, Memᴰ, All, All-append,
}
use zxql_ai.Tools.{ToolResult}
use zxql_ai.Executor.{ToolCall, ExecuteOptions}
use zxql_ai.Graph.{
  GraphNodeType, agent, tool, condition, end, done, HistoryEntry, GraphState, GraphNode,
  GraphRunEvent, graph_done, Attempt, answered, thrown, ChatMessage, ChatResult, ToolFacts,
  Provider, GraphRun,
}
use zxql_ai.Graph.Agent
use zxql_ai.Graph.Agent.{or_else, agent_loop, run_agent}
use zxql_ai.Graph.Nodes
use zxql_ai.Graph.Nodes.{Next, moves, stops, throws, find_node}
use zxql_ai.Graph.ToolNode
use zxql_ai.Graph.Forward.{is_end, target}

-- The model answers every turn; a run without a model needs none.
abbrev pub Answers : {E : Type 0} → Option (Provider E) → Type 0
Answers none = Unit {0}
Answers {E} (some chat) =
    (messages : List ChatMessage) (tools : Option (List String)) (e : E)
    → (result : ChatResult) × ((chat messages tools e).1.ending ≡ answered result)

-- A tool node names a tool and waits for no review.
abbrev pub Ready : {E : Type 0} → GraphRun E → GraphNodeType → GraphNode → Type 0
Ready r tool node =
    (name : String) × (node.tool_name ≡ some name)
    × ((name == "") ≡ false)
    × (Nodes.is_reviewed node (r.services.find_tool name) ≡ false)
Ready r agent node = Unit {0}
Ready r condition node = Unit {0}
Ready r end node = Unit {0}

-- Every tool succeeds in time, with no preview, and the model answers.
pub record Healthy {E : Type 0} (r : GraphRun E) : Type 0 where
  pub succeeds :
      (call : ToolCall) (options : ExecuteOptions) (e : E)
      → (r.services.execute_tool_call r.now call r.tool_context options e).1.success ≡ true
  pub runs_for_real :
      (call : ToolCall) (options : ExecuteOptions) (e : E)
      → (r.services.execute_tool_call r.now call r.tool_context options e).1.preview ≡ none
  pub in_time : (call : ToolCall) (e : E) → r.services.timer_first call e ≡ false
  pub answers : Answers r.provider
  pub ready : (node : GraphNode) → Memᴰ node r.graph.nodes → Ready r node.node_type node

abbrev pub Succeeded : HistoryEntry → Type 0
Succeeded entry = entry.success ≡ true

unfoldable Works : {E : Type 0} → E × ToolResult → Type 0
Works (e, result) = (result.success ≡ true) × (result.preview ≡ none)

-- A round that goes on to the node's target or ends the run as done, with no failure in the history.
unfoldable pub Smooth :
    {E : Type 0} → GraphRun E → GraphNode → E × List GraphRunEvent × Next → Type 0
Smooth r node (e, evs, moves st) =
    (st.current_node_id ≡ target node) × (is_end node.node_type ≡ false) × All Succeeded st.history
Smooth r node (e, evs, stops st) =
    (st.status ≡ done) × Memᴰ (graph_done r.graph.id) evs × All Succeeded st.history
Smooth r node (e, evs, throws m st) = ⊥

module _ {E : Type 0} (r : GraphRun E) (h : Healthy r) (node : GraphNode) where
  pub Smooth-later :
      (v : E × List GraphRunEvent × Next) (ev : GraphRunEvent)
      → Smooth r node v
      → Smooth r node (v.0, ev ∷ v.1, v.2)
  unfolding Smooth
  Smooth-later (e, _, moves st) ev s = s
  Smooth-later (e, _, stops st) ev (d, m, a) = (d, Memᴰ.tail m, a)
  Smooth-later (e, _, throws m st) ev s = s

  execute_tool_with_timeout-Works :
      (call : ToolCall) (e : E) → Works (ToolNode.execute_tool_with_timeout r call e)
  unfolding ToolNode.execute_tool_with_timeout
  execute_tool_with_timeout-Works call e =
      if-cases Works (r.services.timer_first call e) _ _
        (λ late. ground (arith, late, h.in_time call e))
        (λ _. unfold Works in (h.succeeds call _ e, h.runs_for_real call _ e))

  run_node-Works :
      (name : String) (st : GraphState) (e : E) → Works (ToolNode.run_node r node name st e)
  unfolding ToolNode.run_node
  run_node-Works name st e =
      if-both Works (Nodes.is_approved st node) _ _
        (unfold Works in (h.succeeds _ _ e, h.runs_for_real _ _ e))
        (execute_tool_with_timeout-Works _ e)

  after_tool-Smooth :
      (name : String) (facts : Option ToolFacts) (st : GraphState) (a : E × ToolResult)
      → is_end node.node_type ≡ false
      → All Succeeded st.history
      → Works a
      → Smooth r node (ToolNode.after_tool r node name facts st a)
  unfolding ToolNode.after_tool ToolNode.settle_tool Works
  after_tool-Smooth name facts st (e, result) inner good (ok, real) =
      if-cases (Smooth r node)
        (Nodes.is_write_tool facts && (result.success && Nodes.is_preview result)) _ _
        (λ preview. ground (arith, preview, real, Bool-cases (Nodes.is_write_tool facts)))
        (λ _.
          if-cases (Smooth r node) result.success _ _
            (λ _. unfold Smooth in (refl, inner, All-append Succeeded st.history _ good (ok, tt)))
            (λ failed. ground (arith, failed, ok)))

  pub visit_tool-Smooth :
      (name : String) (st : GraphState) (e : E)
      → is_end node.node_type ≡ false
      → (name == "") ≡ false
      → Nodes.is_reviewed node (r.services.find_tool name) ≡ false
      → All Succeeded st.history
      → Smooth r node (ToolNode.visit_tool r node (some name) st e)
  unfolding ToolNode.visit_tool ToolNode.call_tool
  visit_tool-Smooth name st e inner named open_gate good =
      if-cases (Smooth r node) (name == "") _ _ (λ empty. ground (arith, empty, named))
        (λ _.
          if-cases (Smooth r node)
            (not (Nodes.is_approved st node) && Nodes.is_reviewed node (r.services.find_tool name))
            _ _ (λ shut. ground (arith, shut, open_gate, Bool-cases (Nodes.is_approved st node)))
            (λ _. Smooth-later _ _ (
              after_tool-Smooth name (r.services.find_tool name) st
                (ToolNode.run_node r node name st e) inner good (run_node-Works name st e))))

-- A loop of a model that answers comes to a text.
unfoldable pub Spoken :
    {E : Type 0} → E × List GraphRunEvent × Attempt (String × List ToolResult) → Type 0
Spoken (e, evs, answered x) = Unit {0}
Spoken (e, evs, thrown m) = ⊥

module _ {E : Type 0} (r : GraphRun E) (chat : Provider E) (answers : Answers (some chat)) where
  Spoken-events :
      (v : E × List GraphRunEvent × Attempt (String × List ToolResult)) (evs : List GraphRunEvent)
      → Spoken v
      → Spoken (v.0, evs, v.2)
  unfolding Spoken
  Spoken-events (e, _, answered x) evs s = s
  Spoken-events (e, _, thrown m) evs s = s

  call_tools-Spoken :
      (rest : List ChatMessage
        → String
        → List ToolResult
        → E
        → E × List GraphRunEvent × Attempt (String × List ToolResult))
      (messages : List ChatMessage) (so_far : String) (results : List ToolResult)
      (calls : List ToolCall) (e : E)
      → ((ms : List ChatMessage) (t : String) (rs : List ToolResult) (e : E)
          → Spoken (rest ms t rs e))
      → Spoken (Agent.call_tools r rest messages so_far results calls e)
  unfolding Agent.call_tools
  call_tools-Spoken rest messages so_far results [] e s = unfold Spoken in tt
  call_tools-Spoken rest messages so_far results (call ∷ calls) e s = Spoken-events _ _ (s _ _ _ _)

  agent_loop-Spoken :
      (tools : Option (List String)) (n : ℕ) (messages : List ChatMessage) (so_far : String)
      (results : List ToolResult) (e : E)
      → Spoken (agent_loop r chat tools n messages so_far results e)
  unfolding agent_loop Agent.after_turn
  agent_loop-Spoken tools zero messages so_far results e = unfold Spoken in tt
  agent_loop-Spoken tools (suc n) messages so_far results e =
      let (result, said) = answers messages tools e in
      rw said (
        Spoken-events _ _ (
          call_tools-Spoken (agent_loop r chat tools n) messages _ results _ _
            (agent_loop-Spoken tools n)))

  pub run_agent-Spoken :
      (node : GraphNode) (st : GraphState) (e : E) → Spoken (run_agent r chat node st e)
  unfolding run_agent
  run_agent-Spoken node st e = agent_loop-Spoken _ _ _ _ _ e
