-- ===== src/Executor/Tests.antt =====
-- The executor at concrete inputs.
use zxql_ai.Prelude.{
  ℕ, ◌+◌, String, ◌≡◌, refl, subst, Bool, true, false, Option, none, some, List, [], ◌∷◌, arith,
  if◌then◌else◌, nat_eq, string_eq,
}
use zxql_ai.Prelude.Map.{lookup, insert}
use zxql_ai.Json.{boolean, Args}
use zxql_ai.Breaker.{configure, can_proceed, record_success}
use zxql_ai.Tools.{ToolContext, ToolResult, returned, Tool}
use zxql_ai.Executor.{
  ToolCall, parsed, ExecuteOptions, IdempotencyCheckInput, IdempotencyDecision, proceed, in_flight,
  IdempotencyGate, Executor, is_confirmed, gated_args, check_scope,
}
use zxql_ai.Executor.Run.{
  settle, run_tool, decide, claim_and_run, pass_breaker, pass_gates, find_and_pass,
  execute_tool_call,
}
use zxql_ai.Executor.Permission.{permitted, execute_tool_call-keeps}

abbrev done : ToolResult
done = record {
  success = true;
  data_value = none;
  error = none;
  suggestion = none;
  idempotent_replay = none;
  original_completed_at = none;
  preview = none;
}

-- A tool that counts the orders it has made.
abbrev order_tool : Tool ℕ
order_tool = record {
  name = "create_order";
  is_write_operation = true;
  scope = none;
  idempotency_key_fields = none;
  execute = λ args context w. (if is_confirmed args then w + 1 else w, returned done);
}

-- A gate that knows the tools whose calls run.
abbrev check_tool : IdempotencyCheckInput → List String → List String × IdempotencyDecision String
check_tool input [] = (input.tool_name ∷ [], proceed (some input.tool_name))
check_tool input (n ∷ ns) = (n ∷ ns, in_flight done)

abbrev complete_tool : Option String → List String → List String
complete_tool none i = i
complete_tool (some _) [] = []
complete_tool (some _) (n ∷ ns) = ns

abbrev toy_gate : IdempotencyGate (List String) String
toy_gate = record {
  check = λ now input i. check_tool input i;
  complete = λ now handle result i. complete_tool handle i;
}

abbrev executor : Executor ℕ (List String)
executor = record {
  world = 0;
  registry = ("create_order", order_tool) ∷ [];
  breaker = record { config = configure none none none; states = [] };
  gate = [];
  metrics = [];
  audit_log = [];
}

abbrev staff : ToolContext
staff = record {
  tenant_id = "t1";
  user_id = none;
  session_id = none;
  request_id = none;
  role = none;
  customer_id = none;
  auth_token = none;
  employee_uid = none;
  dispatch_depth = none;
}

abbrev make_order : ToolCall
make_order = record {
  id = "call_1";
  name = "create_order";
  arguments = parsed (("confirm", boolean true) ∷ []);
}

abbrev show : ℕ → String
show n = "0"

abbrev channel : Bool → ExecuteOptions
channel allowed = record { allow_confirm = allowed; idempotency_key = none }

-- Confirmed by the channel, the order is made; otherwise it is not.
orders_made :
    ((execute_tool_call toy_gate show 5 make_order staff (channel true) executor).0.world ≡ 1)
    × ((execute_tool_call toy_gate show 5 make_order staff (channel false) executor).0.world ≡ 0)
unfolding lookup insert execute_tool_call find_and_pass gated_args pass_gates pass_breaker
    check_scope claim_and_run decide run_tool settle can_proceed record_success configure
orders_made = (refl, refl)

keeps_orders :
    (tool : Tool ℕ) (args : Args)
    → lookup "create_order" executor.registry ≡ some tool
    → permitted "create_order" tool.is_write_operation args staff (channel false) ≡ true
    → (tool.execute args staff 0).0 ≡ 0
unfolding lookup
keeps_orders tool args there ok =
    let same : order_tool ≡ tool = cc in
    subst (λ (t : Tool ℕ). (t.execute args staff 0).0 ≡ 0) same (unconfirmed (rw (← same) at ok))
  where
    unconfirmed :
        permitted "create_order" true args staff (channel false) ≡ true
        → (order_tool.execute args staff 0).0 ≡ 0
    unconfirmed h = ground (arith, h)

execute_tool_call-keeps_example :
    (execute_tool_call toy_gate show 5 make_order staff (channel false) executor).0.world ≡ 0
execute_tool_call-keeps_example =
    execute_tool_call-keeps toy_gate show (λ w. w ≡ 0) 5 make_order staff (channel false) executor
      keeps_orders refl
