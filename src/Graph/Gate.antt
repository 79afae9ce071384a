-- ===== src/Graph/Gate.antt =====
-- The gate of the reviews in the loop of `execute` of src/brain/graph/graph-executor.service.ts.
use zxql_ai.Prelude.{
  ℕ, zero, suc, String, Bool, true, false, not, ◌&&◌, Option, none, some, List, [], ◌∷◌, ◌++◌, ◌≡◌,
  refl, sym, ◌∙◌, ap, subst, ◌⊎◌, inl, inr, arith, if-both, if-cases, ◌==◌, string_eq, nat_eq,
  str_eq_iff, Bool-cases, Memᴰ, any, All, All-append,
}
use zxql_ai.Tools.{ToolResult}
use zxql_ai.ReviewTasks.{ReviewTask}
use zxql_ai.Graph.{
  GraphNodeType, agent, tool, condition, end, GraphState, GraphNode, GraphRunEvent, node_start,
  tool_start, Attempt, answered, thrown, ToolFacts, Provider, GraphRun,
}
use zxql_ai.Graph.Agent.{or_else, run_agent}
use zxql_ai.Graph.AgentEvents.{run_agent-All}
use zxql_ai.Graph.Nodes
use zxql_ai.Graph.Nodes.{Next, moves, stops, throws, find_node}
use zxql_ai.Graph.ToolNode
use zxql_ai.Graph.Loop
use zxql_ai.Graph.Loop.{loop, after, visit}

pub find_node-mem :
    (id : String) (nodes : List GraphNode) (node : GraphNode)
    → find_node id nodes ≡ some node
    → Memᴰ node nodes × (node.id ≡ id)
find_node-mem id [] node h = ground arith
find_node-mem id (n ∷ nodes) node h = elim (Bool-cases (n.id == id)) [
  | inl e ↦
      let same : n ≡ node = ground (arith, h, e) in
      (Memᴰ.head (sym same), ap (λ (m : GraphNode). m.id) (sym same) ∙ (str_eq_iff n.id id).0 e)
  | inr e ↦ let (m, q) = find_node-mem id nodes node (ground (arith, h, e)) in (Memᴰ.tail m, q)
]

-- The ids of the nodes that have been approved.
abbrev pub ids : GraphState → List String
ids st = or_else st.approved_node_ids []

abbrev pub InList : List String → String → Type 0
InList approved id = any (λ i. i == id) approved ≡ true

-- An event that a tool starts is for a node of the graph that waits for no review, or that is
-- approved; it says nothing of other events.
abbrev pub Granted : {E : Type 0} → GraphRun E → (String → Type 0) → GraphRunEvent → Type 0
Granted r Approved (tool_start name) =
    (node : GraphNode) × Memᴰ node r.graph.nodes
    × (node.tool_name ≡ some name)
    × ((Nodes.is_reviewed node (r.services.find_tool name) ≡ false) ⊎ Approved node.id)
Granted r Approved _ = Unit {0}

-- A round that starts granted tools only and approves nothing.
unfoldable Fine : {E : Type 0} → GraphRun E → List String → E × List GraphRunEvent × Next → Type 0
Fine r approved (e, evs, moves st) = All (Granted r (InList approved)) evs × (ids st ≡ approved)
Fine r approved (e, evs, stops st) = All (Granted r (InList approved)) evs
Fine r approved (e, evs, throws m st) = All (Granted r (InList approved)) evs

unfoldable pub FineRun :
    {E : Type 0} → GraphRun E → List String → E × List GraphRunEvent × GraphState → Type 0
FineRun r approved (e, evs, st) = All (Granted r (InList approved)) evs

module _ {E : Type 0} (r : GraphRun E) where
  wait_for_review-Fine :
      (node : GraphNode) (name : String) (st : GraphState) (a : E × Attempt ReviewTask)
      → Fine r (ids st) (ToolNode.wait_for_review r node name st a)
  unfolding ToolNode.wait_for_review Fine
  wait_for_review-Fine node name st (e, thrown m) = tt
  wait_for_review-Fine node name st (e, answered rv) = (tt, tt)

  settle_tool-Fine :
      (node : GraphNode) (name : String) (facts : Option ToolFacts) (result : ToolResult)
      (st : GraphState) (e : E)
      → Fine r (ids st) (ToolNode.settle_tool r node name facts result st e)
  unfolding ToolNode.settle_tool
  settle_tool-Fine node name facts result st e =
      if-both (Fine r (ids st)) result.success _ _ (unfold Fine in ((tt, (tt, tt)), refl))
        (unfold Fine in (tt, (tt, (tt, tt))))

  after_tool-Fine :
      (node : GraphNode) (name : String) (facts : Option ToolFacts) (st : GraphState)
      (a : E × ToolResult)
      → Fine r (ids st) (ToolNode.after_tool r node name facts st a)
  unfolding ToolNode.after_tool ToolNode.suspend_write
  after_tool-Fine node name facts st (e, result) =
      if-both (Fine r (ids st))
        (Nodes.is_write_tool facts && (result.success && Nodes.is_preview result)) _ _
        (unfold Fine in (tt, (tt, tt))) (settle_tool-Fine node name facts result st e)

  start-Fine :
      (approved : List String) (name : String) (v : E × List GraphRunEvent × Next)
      → Granted r (InList approved) (tool_start name)
      → Fine r approved v
      → Fine r approved (v.0, tool_start name ∷ v.1, v.2)
  unfolding Fine
  start-Fine approved name (e, evs, moves st) g (h, k) = ((g, h), k)
  start-Fine approved name (e, evs, stops st) g h = (g, h)
  start-Fine approved name (e, evs, throws m st) g h = (g, h)

  -- The gate is open where the node is approved or under no review.
  gate :
      (approved : Bool) (reviewed : Bool)
      → (not approved && reviewed) ≡ false
      → (reviewed ≡ false) ⊎ (approved ≡ true)
  gate true reviewed h = inr refl
  gate false false h = inl refl
  gate false true h = inl h

  visit_tool-Fine :
      (node : GraphNode) (name : Option String) (st : GraphState) (e : E)
      → Memᴰ node r.graph.nodes
      → node.tool_name ≡ name
      → Fine r (ids st) (ToolNode.visit_tool r node name st e)
  unfolding ToolNode.visit_tool ToolNode.ask_review ToolNode.call_tool
  visit_tool-Fine node none st e m h = unfold Fine in tt
  visit_tool-Fine node (some name) st e m h =
      if-both (Fine r (ids st)) (name == "") _ _ (unfold Fine in tt) (
        if-cases (Fine r (ids st))
          (not (Nodes.is_approved st node) && Nodes.is_reviewed node (r.services.find_tool name)) _
          _
          (λ _.
            wait_for_review-Fine node name st
              (r.services.create_review r.now (ToolNode.review_of r node name) e))
          (λ closed.
            start-Fine (ids st) name _ (node, m, h, gate _ _ closed)
              (after_tool-Fine node name (r.services.find_tool name) st
                (ToolNode.run_node r node name st e))))

  after_agent-Fine :
      (node : GraphNode) (st : GraphState)
      (a : E × List GraphRunEvent × Attempt (String × List ToolResult))
      → All (Granted r (InList (ids st))) a.1
      → Fine r (ids st) (Nodes.after_agent r node st a)
  unfolding Nodes.after_agent Fine
  after_agent-Fine node st (e, evs, thrown m) h = h
  after_agent-Fine node st (e, evs, answered (w, outs)) h =
      (All-append (Granted r (InList (ids st))) evs _ h (tt, tt), refl)

  run_with-Fine :
      (p : Option (Provider E)) (node : GraphNode) (st : GraphState) (e : E)
      → Fine r (ids st) (Nodes.run_with r p node st e)
  unfolding Nodes.run_with
  run_with-Fine none node st e = unfold Fine in ((tt, tt), refl)
  run_with-Fine (some chat) node st e =
      after_agent-Fine node st (run_agent r chat node st e)
        (run_agent-All r (Granted r (InList (ids st))) (λ _. tt) (λ _ _. tt) chat node st e)

  visit_type-Fine :
      (type : GraphNodeType) (node : GraphNode) (st : GraphState) (e : E)
      → Memᴰ node r.graph.nodes
      → Fine r (ids st) (Loop.visit_type r type node st e)
  unfolding Loop.visit_type Nodes.visit_end Nodes.visit_condition Nodes.visit_agent
  visit_type-Fine end node st e m = unfold Fine in (tt, (tt, tt))
  visit_type-Fine tool node st e m = visit_tool-Fine node node.tool_name st e m refl
  visit_type-Fine condition node st e m = unfold Fine in ((tt, tt), refl)
  visit_type-Fine agent node st e m = run_with-Fine r.provider node st e

  begin-Fine :
      (approved : List String) (id label : String) (v : E × List GraphRunEvent × Next)
      → Fine r approved v
      → Fine r approved (v.0, node_start id label ∷ v.1, v.2)
  unfolding Fine
  begin-Fine approved id label (e, evs, moves st) (h, k) = ((tt, h), k)
  begin-Fine approved id label (e, evs, stops st) h = (tt, h)
  begin-Fine approved id label (e, evs, throws m st) h = (tt, h)

  visit-Fine :
      (node : Option GraphNode) (st : GraphState) (e : E)
      → find_node st.current_node_id r.graph.nodes ≡ node
      → Fine r (ids st) (visit r node st e)
  unfolding visit
  visit-Fine none st e h = unfold Fine in (tt, tt)
  visit-Fine (some node) st e h = begin-Fine (ids st) node.id node.label _ (
      visit_type-Fine node.node_type node
        (record st { node_order = st.node_order ++ (node.id ∷ []) }) e
        (find_node-mem st.current_node_id r.graph.nodes node h).0)

  after-FineRun :
      (approved : List String) (rest : GraphState → E → E × List GraphRunEvent × GraphState)
      (v : E × List GraphRunEvent × Next)
      → ((st : GraphState) (e : E) → FineRun r (ids st) (rest st e))
      → Fine r approved v
      → FineRun r approved (after r rest v)
  unfolding after FineRun Fine
  after-FineRun approved rest (e, evs, moves st) h (k, same) =
      All-append (Granted r (InList approved)) evs _ k (
        subst (λ l. All (Granted r (InList l)) (rest st (r.services.save r.now st e)).1) same
          (h st (r.services.save r.now st e)))
  after-FineRun approved rest (e, evs, stops st) h k = k
  after-FineRun approved rest (e, evs, throws m st) h k =
      All-append (Granted r (InList approved)) evs _ k (tt, tt)

  pub loop-FineRun : (n : ℕ) (st : GraphState) (e : E) → FineRun r (ids st) (loop r n st e)
  unfolding loop
  loop-FineRun zero st e = unfold FineRun in (tt, tt)
  loop-FineRun (suc n) st e =
      after-FineRun (ids st) (loop r n) _ (loop-FineRun n) (visit-Fine _ st e refl)
