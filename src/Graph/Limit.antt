-- ===== src/Graph/Limit.antt =====
-- The limit on the steps of `execute` of src/brain/graph/graph-executor.service.ts, which a graph
-- whose nodes lead on to later nodes does not meet.
use zxql_ai.Prelude.{
  ℕ, zero, suc, ◌≤◌, ◌<◌, String, Bool, true, false, not, ◌&&◌, Option, none, some, List, [], ◌∷◌,
  ◌++◌, ◌≡◌, refl, sym, ◌∙◌, ap, inl, inr, arith, if-both, ◌==◌, string_eq, Bool-cases, length,
}
use zxql_ai.Prelude.Map.{AllEntries, lookup-AllEntries}
use zxql_ai.Tools.{ToolResult}
use zxql_ai.ReviewTasks.{ReviewTask}
use zxql_ai.Graph.{
  GraphNodeType, agent, tool, condition, end, GraphStatus, running, paused, done, error, GraphState,
  GraphNode, GraphDefinition, GraphRunEvent, Attempt, answered, thrown, ToolFacts, Provider,
  GraphRun,
}
use zxql_ai.Graph.Nodes
use zxql_ai.Graph.Nodes.{Next, moves, stops, throws, find_node}
use zxql_ai.Graph.ToolNode
use zxql_ai.Graph.Loop
use zxql_ai.Graph.Loop.{loop, after, visit}
use zxql_ai.Graph.Forward.{
  is_end, is_condition, target, rank, rank-target, find_node-rank, is_forward, has_node,
}
use zxql_ai.Graph.Builtin.{builtin_graphs, get_graph, on_module_init}
use zxql_ai.Graph.Execute.{max_node_steps}

abbrev pub is_settled : GraphStatus → Bool
is_settled running = false
is_settled paused = true
is_settled done = true
is_settled error = true

-- A round at a node leads to the node's target, and only where it is not an end; or it settles.
unfoldable Advances : {E : Type 0} → GraphNode → E × List GraphRunEvent × Next → Type 0
Advances node (e, evs, moves st) =
    (st.current_node_id ≡ target node) × (is_end node.node_type ≡ false)
Advances node (e, evs, stops st) = is_settled st.status ≡ true
Advances node (e, evs, throws m st) = Unit {0}

module _ {E : Type 0} (r : GraphRun E) (node : GraphNode) where
  Advances-events :
      (v : E × List GraphRunEvent × Next) (evs : List GraphRunEvent)
      → Advances node v
      → Advances node (v.0, evs, v.2)
  unfolding Advances
  Advances-events (e, _, moves st) evs h = h
  Advances-events (e, _, stops st) evs h = h
  Advances-events (e, _, throws m st) evs h = h

  wait_for_review-Advances :
      (name : String) (st : GraphState) (a : E × Attempt ReviewTask)
      → Advances node (ToolNode.wait_for_review r node name st a)
  unfolding ToolNode.wait_for_review Advances
  wait_for_review-Advances name st (e, thrown m) = tt
  wait_for_review-Advances name st (e, answered rv) = refl

  module _ (inner : is_end node.node_type ≡ false) where
    settle_tool-Advances :
        (name : String) (facts : Option ToolFacts) (result : ToolResult) (st : GraphState) (e : E)
        → Advances node (ToolNode.settle_tool r node name facts result st e)
    unfolding ToolNode.settle_tool
    settle_tool-Advances name facts result st e =
        if-both (Advances node) result.success _ _ (unfold Advances in (refl, inner))
          (unfold Advances in refl)

    after_tool-Advances :
        (name : String) (facts : Option ToolFacts) (st : GraphState) (a : E × ToolResult)
        → Advances node (ToolNode.after_tool r node name facts st a)
    unfolding ToolNode.after_tool ToolNode.suspend_write
    after_tool-Advances name facts st (e, result) =
        if-both (Advances node)
          (Nodes.is_write_tool facts && (result.success && Nodes.is_preview result)) _ _
          (unfold Advances in refl) (settle_tool-Advances name facts result st e)

    visit_tool-Advances :
        (name : Option String) (st : GraphState) (e : E)
        → Advances node (ToolNode.visit_tool r node name st e)
    unfolding ToolNode.visit_tool ToolNode.ask_review ToolNode.call_tool
    visit_tool-Advances none st e = unfold Advances in tt
    visit_tool-Advances (some name) st e =
        if-both (Advances node) (name == "") _ _ (unfold Advances in tt) (
          if-both (Advances node)
            (not (Nodes.is_approved st node) && Nodes.is_reviewed node (r.services.find_tool name))
            _ _
            (wait_for_review-Advances name st
              (r.services.create_review r.now (ToolNode.review_of r node name) e))
            (Advances-events _ _ (
              after_tool-Advances name (r.services.find_tool name) st
                (ToolNode.run_node r node name st e))))

    after_agent-Advances :
        (st : GraphState) (a : E × List GraphRunEvent × Attempt (String × List ToolResult))
        → Advances node (Nodes.after_agent r node st a)
    unfolding Nodes.after_agent Advances
    after_agent-Advances st (e, evs, thrown m) = tt
    after_agent-Advances st (e, evs, answered (w, outs)) = (refl, inner)

    run_with-Advances :
        (p : Option (Provider E)) (st : GraphState) (e : E)
        → Advances node (Nodes.run_with r p node st e)
    unfolding Nodes.run_with
    run_with-Advances none st e = unfold Advances in (refl, inner)
    run_with-Advances (some chat) st e = search (after_agent-Advances)

  visit_type-Advances :
      (type : GraphNodeType) (st : GraphState) (e : E)
      → node.node_type ≡ type
      → is_condition node.node_type ≡ false
      → Advances node (Loop.visit_type r type node st e)
  unfolding Loop.visit_type Nodes.visit_end Nodes.visit_agent
  visit_type-Advances end st e t c = unfold Advances in refl
  visit_type-Advances tool st e t c = visit_tool-Advances (ap is_end t) node.tool_name st e
  visit_type-Advances condition st e t c = ground (arith, c, t)
  visit_type-Advances agent st e t c = run_with-Advances (ap is_end t) r.provider st e

  visit-Advances :
      (st : GraphState) (e : E)
      → is_condition node.node_type ≡ false
      → Advances node (visit r (some node) st e)
  unfolding visit
  visit-Advances st e c = Advances-events _ _ (
      visit_type-Advances node.node_type
        (record st { node_order = st.node_order ++ (node.id ∷ []) }) e refl c)

  -- Two ways to go on that agree where the round leads.
  after-agrees :
      (rest rest' : GraphState → E → E × List GraphRunEvent × GraphState)
      (v : E × List GraphRunEvent × Next)
      → Advances node v
      → ((st : GraphState) (e : E)
          → st.current_node_id ≡ target node
          → is_end node.node_type ≡ false
          → (rest st e ≡ rest' st e) × (is_settled (rest st e).2.status ≡ true))
      → (after r rest v ≡ after r rest' v) × (is_settled (after r rest v).2.status ≡ true)
  unfolding after Advances
  after-agrees rest rest' (e, evs, moves st) (t, inner) h =
      let (same, settled) = h st (r.services.save r.now st e) t inner in
      (ap (λ (x : E × List GraphRunEvent × GraphState). (x.0, evs ++ x.1, x.2)) same, settled)
  after-agrees rest rest' (e, evs, stops st) a h = (refl, a)
  after-agrees rest rest' (e, evs, throws m st) a h = (refl, refl)

pub inner_condition : (type : GraphNodeType) → is_condition type ≡ true → is_end type ≡ false
inner_condition end c = ground (arith, c)
inner_condition tool c = refl
inner_condition condition c = refl
inner_condition agent c = refl

pub loop-step :
    {E : Type 0} (r : GraphRun E) (n : ℕ) (st : GraphState) (e : E) (node : GraphNode)
    → find_node st.current_node_id r.graph.nodes ≡ some node
    → loop r (suc n) st e ≡ after r (loop r n) (visit r (some node) st e)
unfolding loop
loop-step r n st e node h = ap (λ o. after r (loop r n) (visit r o st e)) h

-- In a graph whose nodes have different ids and lead, but for the ends, each to a later node, none by
-- a condition, a run at a node of the graph is the same under any two limits on its steps that are
-- not below the number of nodes from that node on, and it is done, paused or in error afterwards: the
-- limit does not stop it, and it meets no missing node.
pub loop-limit :
    {E : Type 0} (r : GraphRun E)
    → is_forward r.graph.nodes ≡ true
    → (n m : ℕ) (st : GraphState) (e : E) → 0 < rank st.current_node_id r.graph.nodes
    → rank st.current_node_id r.graph.nodes ≤ n
    → rank st.current_node_id r.graph.nodes ≤ m
    → (loop r n st e ≡ loop r m st e) × (is_settled (loop r n st e).2.status ≡ true)
loop-limit r f zero m st e p a b = ground (arith, p, a)
loop-limit r f (suc n) zero st e p a b = ground (arith, p, b)
loop-limit r f (suc n) (suc m) st e p a b =
    let (node, h) = find_node-rank st.current_node_id r.graph.nodes p in
    elim (Bool-cases (is_condition node.node_type)) [
      | inl c ↦ ground (
        arith,
        c,
        (rank-target r.graph.nodes st.current_node_id node f h
            (inner_condition node.node_type c)).2,
      )
      | inr c ↦
          let both =
            after-agrees r node (loop r n) (loop r m) (visit r (some node) st e)
              (visit-Advances r node st e c)
              (λ st' e' t inner.
                let (p', q', _) = rank-target r.graph.nodes st.current_node_id node f h inner in
                loop-limit r f n m st' e' (rw t p') (rw t (omega (arith, q', a)))
                  (rw t (omega (arith, q', b)))) in
          (
            loop-step r n st e node h ∙ both.0 ∙ sym (loop-step r m st e node h),
            rw (loop-step r n st e node h) both.1,
          )
    ]

-- What the built-in graphs keep to.
abbrev pub WellFormed : String → GraphDefinition → Type 0
unfolding on_module_init
WellFormed id graph =
    (graph.id ≡ id)
    × (has_node graph.entry graph.nodes ≡ true)
    × (length graph.nodes ≤ max_node_steps)
    × (is_forward graph.nodes ≡ true)
    × (on_module_init (graph ∷ []) ≡ [])

builtin_graphs-WellFormed : AllEntries WellFormed builtin_graphs
unfolding on_module_init
builtin_graphs-WellFormed = (
  (refl, refl, omega arith, refl, refl),
  (
    (refl, refl, omega arith, refl, refl),
    ((refl, refl, omega arith, refl, refl), ((refl, refl, omega arith, refl, refl), tt)),
  ),
)

-- Each built-in graph is found under its own id, has its entry among its nodes, has at most as many
-- nodes as the steps of a call, has nodes of different ids that lead, but for the ends, each to a
-- later node and none by a condition, and declares legal categories only.
get_graph-WellFormed :
    (id : String) (graph : GraphDefinition) → get_graph id ≡ some graph → WellFormed id graph
unfolding get_graph
get_graph-WellFormed id graph h =
    lookup-AllEntries WellFormed id graph builtin_graphs builtin_graphs-WellFormed h
