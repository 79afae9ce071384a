-- ===== src/Graph/Tests.antt =====
-- Runs of graphs at concrete inputs.
use zxql_ai.Prelude.{
  ℕ, ◌+◌, String, true, false, Option, none, some, List, [], ◌∷◌, ◌≡◌, ◌≢◌, ◌↔◌, refl, arith, ◌==◌,
  string_eq, nat_eq, All, Bool, any,
}
use zxql_ai.Prelude.Map.{lookup}
use zxql_ai.Tools.{ToolContext, ToolResult}
use zxql_ai.RedisMemory.{RedisMemory, new_client}
use zxql_ai.Redis.{standalone}
use zxql_ai.WriteGuard
use zxql_ai.WriteGuard.{Cell, cell_eq}
use zxql_ai.Confirmation.{PendingConfirmation}
use zxql_ai.ReviewTasks
use zxql_ai.ReviewTasks.{ReviewTask}
use zxql_ai.ReviewTasks.Table.{table, table-Lawful}
use zxql_ai.Checkpointer
use zxql_ai.Checkpointer.{Checkpointer}
use zxql_ai.Checkpointer.Store.{store}
use zxql_ai.Graph.{
  running, paused, error, GraphState, GraphRunEvent, tool_start, review_required, error_event,
  ToolFacts, GraphRun,
}
use zxql_ai.Graph.Builtin.{sale_create_graph}
use zxql_ai.Graph.Compose.{Backend, Wiring, services}
use zxql_ai.Graph.Loop.{loop}
use zxql_ai.Graph.Execute.{ended, goes_on, resume, resume_for_write, execute}
use zxql_ai.Graph.Rounds.{Closed}
use zxql_ai.Graph.Ends.{execute-Closed}
use zxql_ai.Graph.Review.{Approvals, execute-Granted}
use zxql_ai.Graph.Gate.{Granted}
use zxql_ai.Graph.Limit.{is_settled, loop-limit}
use zxql_ai.Graph.Writes.{CountsAsRun, resume_for_write-CountsAsRun}
use zxql_ai.Graph.Decide.{wired, with_reviews, released, rejection, resume-decisions}

abbrev ok : ToolResult
ok = record {
  success = true;
  data_value = none;
  error = none;
  suggestion = none;
  idempotent_replay = none;
  original_completed_at = none;
  preview = none;
}

abbrev facts_of : String → Option ToolFacts
facts_of name =
    some
      (record { is_write_operation = name == "createSalesOrder"; risk = none; needs_review = none })

-- An executor that counts its runs.
abbrev wiring : Wiring (List (String × GraphState)) (List ReviewTask) (RedisMemory Cell) ℕ
wiring = record {
  states = store;
  repository = table;
  redis = standalone;
  run_tool = λ now call context options n. (n + 1, ok);
  facts = facts_of;
  names = [];
  rules = λ categories. none;
  late = λ call. false;
  tool_timeout = none;
  decimal = λ n. "0";
  summary = λ results. "{}";
}

abbrev backend : Backend (List (String × GraphState)) (List ReviewTask) (RedisMemory Cell) ℕ
backend = record {
  checkpoints = record { redis = []; redis_available = false; memory_store = [] };
  reviews = [];
  confirmations = record {
    write_guard = record {
      redis = new_client;
      redis_available = false;
      memory_map = [];
      memory_index = [];
      token_ttl_ms = 86400000;
      audit_logger = none;
    };
    executor = 0;
    has_executor = true;
    evidence = some [];
    executed_map = [];
  };
}

abbrev staff : ToolContext
staff = record {
  tenant_id = "t1";
  user_id = some "u1";
  session_id = some "s1";
  request_id = none;
  role = none;
  customer_id = none;
  auth_token = none;
  employee_uid = none;
  dispatch_depth = none;
}

abbrev sale : GraphRun (Backend (List (String × GraphState)) (List ReviewTask) (RedisMemory Cell) ℕ)
sale = record {
  services = services wiring;
  graph = sale_create_graph;
  session_id = "s1";
  tool_context = staff;
  provider = none;
  now = 5;
  fresh = "wg_a";
}

abbrev at_inventory : GraphState
at_inventory = record {
  graph_id = "sale_create_graph";
  tenant_id = "t1";
  session_id = "s1";
  current_node_id = "check_inventory";
  status = running;
  results = [];
  node_order = [];
  history = [];
  error_text = none;
  pending_review_id = none;
  pending_write_token = none;
  approved_node_ids = none;
  updated_at = 0;
}

execute-Closed_example : Closed sale.graph.nodes (execute sale backend).1 (execute sale backend).2
execute-Closed_example = execute-Closed sale backend

loop-limit_example :
    (loop sale 3 at_inventory backend ≡ loop sale 50 at_inventory backend)
    × (is_settled (loop sale 3 at_inventory backend).2.status ≡ true)
loop-limit_example =
    loop-limit sale refl 3 50 at_inventory backend (omega arith) (omega arith) (omega arith)

-- A write of high risk with one of its two confirmations.
abbrev half_confirmed : PendingConfirmation
half_confirmed = record {
  confirmation_id = "wg_a";
  tenant_id = "t1";
  conversation_id = some "s1";
  customer_id = none;
  plan_id = none;
  plan_step_id = none;
  tool_name = "createSalesOrder";
  doc_type = "createSalesOrder";
  risk = WriteGuard.high;
  needs_review = true;
  confirm_count = 1;
  args = [];
  preview = none;
  operation_label = "order";
  created_at = 0;
  expires_at = 9000;
  status = WriteGuard.first_confirmed;
}

abbrev half_sale :
    GraphRun (Backend (List (String × GraphState)) (List ReviewTask) (RedisMemory Cell) ℕ)
half_sale = record sale {
  services = record (services wiring) {
    find_write = λ now token tenant b. (b, some half_confirmed);
  };
}

abbrev at_write : GraphState
at_write = record at_inventory {
  current_node_id = "create_sale";
  status = paused;
  pending_write_token = some "wg_a";
}

resume_for_write-CountsAsRun_example :
    CountsAsRun half_sale at_write (resume_for_write half_sale (some "wg_a") at_write backend).1 ↔ (
      (write : PendingConfirmation) × ((half_sale.services.find_write 5 "wg_a" "t1" backend).1
        ≡ some write)
      × (write.status ≢ WriteGuard.pending)
      × (write.status ≢ WriteGuard.cancelled))
resume_for_write-CountsAsRun_example =
    resume_for_write-CountsAsRun half_sale "wg_a" at_write backend

-- It counts as run, though no executor ran.
half_confirmed_counts :
    CountsAsRun half_sale at_write (resume_for_write half_sale (some "wg_a") at_write backend).1
half_confirmed_counts =
    (resume_for_write-CountsAsRun half_sale "wg_a" at_write backend).1
      (half_confirmed, refl, (λ e. ground (arith, e)), (λ e. ground (arith, e)))

abbrev waiting : ReviewTask
waiting = record {
  id = 1;
  tenant_id = "t1";
  session_id = some "s1";
  graph_id = some "sale_create_graph";
  node_id = some "create_sale";
  tool_name = some "createSalesOrder";
  payload = none;
  status = ReviewTasks.pending;
  reject_reason = none;
  created_by = none;
  reviewed_by = none;
  created_at = 0;
  reviewed_at = none;
}

abbrev at_review : GraphState
at_review = record at_inventory {
  current_node_id = "create_sale";
  status = paused;
  pending_review_id = some 1;
}

abbrev reviewing : Backend (List (String × GraphState)) (List ReviewTask) (RedisMemory Cell) ℕ
reviewing = record backend { reviews = waiting ∷ [] }

-- The tool of the sale has to be reviewed, and the saved run waits for it.
abbrev reviewed_sale :
    GraphRun (Backend (List (String × GraphState)) (List ReviewTask) (RedisMemory Cell) ℕ)
reviewed_sale = record sale {
  services = services (record wiring {
    facts = λ name. some (record {
      is_write_operation = true;
      risk = none;
      needs_review = some (name == "createSalesOrder");
    });
  });
}

abbrev with_task :
    ReviewTask → Backend (List (String × GraphState)) (List ReviewTask) (RedisMemory Cell) ℕ
with_task task = record backend {
  checkpoints = record {
    redis = [];
    redis_available = false;
    memory_store = ("ai:graph:t1:s1", at_review) ∷ [];
  };
  reviews = task ∷ [];
}

abbrev ann_approved : ReviewTask
ann_approved = record waiting {
  status = ReviewTasks.approved;
  reviewed_by = some "ann";
  reviewed_at = some 3;
}

-- The task is approved, and the tool of the node starts.
execute-Granted_example :
    let b = with_task ann_approved in
    let (e', loaded) = reviewed_sale.services.load 5 "t1" "s1" b in
    All (Granted reviewed_sale (Approvals reviewed_sale e' loaded)) (execute reviewed_sale b).1
execute-Granted_example = execute-Granted reviewed_sale (with_task ann_approved)

abbrev is_start : GraphRunEvent → Bool
is_start (tool_start name) = name == "createSalesOrder"
is_start _ = false

starts_once_approved :
    (any is_start (execute reviewed_sale (with_task ann_approved)).1 ≡ true)
    × (any is_start (execute reviewed_sale (with_task waiting)).1 ≡ false)
unfolding execute lookup Checkpointer.load Checkpointer.key services ReviewTasks.get
starts_once_approved = (refl, refl)

resume-decisions_example :
    let yes_b =
      with_reviews wiring
        (ReviewTasks.approve table 7 1 "ann" (some "t1") (waiting ∷ [])).0
        reviewing in
    let no_b =
      with_reviews wiring
        (ReviewTasks.reject table 7 1 "ann" "价格不对" (some "t1") (waiting ∷ [])).0
        reviewing in
    (resume (wired wiring sale) at_review reviewing
      ≡ (reviewing, ended (review_required 1 "待审工单" "等待人工审核，请审批后重试" none ∷ []) at_review))
    × (resume (wired wiring sale) at_review yes_b ≡ (yes_b, goes_on (released at_review)))
    × ((resume (wired wiring sale) at_review no_b).1
        ≡ ended
            (error_event (rejection "价格不对") ∷ [])
            (record at_review { status = error; error_text = some (rejection "价格不对") }))
resume-decisions_example =
    resume-decisions wiring table-Lawful sale reviewing at_review waiting 7 "ann" "价格不对" refl refl
      refl refl refl refl refl
