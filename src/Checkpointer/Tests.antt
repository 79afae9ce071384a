-- ===== src/Checkpointer/Tests.antt =====
-- Saved runs at concrete inputs.
use zxql_ai.Prelude.{String, true, none, some, List, [], ◌≡◌, refl, arith, string_eq}
use zxql_ai.Prelude.Map.{lookup, insert}
use zxql_ai.Graph.{running, GraphState}
use zxql_ai.Checkpointer.{Checkpointer, key, touched, save, load}
use zxql_ai.Checkpointer.Laws.{load-save}
use zxql_ai.Checkpointer.Store.{store, store-Honest}

abbrev run : GraphState
run = record {
  graph_id = "sale_create_graph";
  tenant_id = "t1";
  session_id = "s1";
  current_node_id = "check_inventory";
  status = running;
  results = [];
  node_order = [];
  history = [];
  error_text = none;
  pending_review_id = none;
  pending_write_token = none;
  approved_node_ids = none;
  updated_at = 0;
}

abbrev service : Checkpointer (List (String × GraphState))
service = record { redis = []; redis_available = true; memory_store = [] }

load-save_example : (load store 900 "t1" "s1" (save store 5 run service)).1 ≡ some (touched 5 run)
unfolding lookup insert key
load-save_example = load-save store store-Honest 5 900 run service (omega arith)

-- Another session has no saved run.
loads_nothing : (load store 900 "t1" "s2" (save store 5 run service)).1 ≡ none
unfolding load save lookup insert key
loads_nothing = refl
