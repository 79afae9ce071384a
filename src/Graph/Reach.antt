-- ===== src/Graph/Reach.antt =====
-- Runs of src/brain/graph/graph-executor.service.ts in which nothing fails.
use zxql_ai.Prelude.{List, ◌≡◌, string_eq, Memᴰ, All}
use zxql_ai.Graph.{done, GraphState, GraphRunEvent, graph_done, GraphRun}
use zxql_ai.Graph.Nodes
use zxql_ai.Graph.Nodes.{find_node}
use zxql_ai.Graph.ToolNode
use zxql_ai.Graph.Loop
use zxql_ai.Graph.Execute
use zxql_ai.Graph.Smooth.{Succeeded, Smooth}

-- A run that ends as done, with no failure in the history.
unfoldable Done : {E : Type 0} → GraphRun E → E × List GraphRunEvent × GraphState → Type 0
Done r (e, evs, st) =
    (st.status ≡ done) × Memᴰ (graph_done r.graph.id) evs × All Succeeded st.history
