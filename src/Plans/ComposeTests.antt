-- ===== src/Plans/ComposeTests.antt =====
-- A run of a plan over the components at concrete inputs.
use zxql_ai.Prelude.{
  ℕ, ◌+◌, String, true, false, none, some, [], ◌∷◌, ◌≡◌, refl, sym, ◌∙◌, ap, subst, arith,
  if◌then◌else◌, string_eq, nat_eq,
}
use zxql_ai.Prelude.Map.{lookup}
use zxql_ai.Json.{boolean, Args}
use zxql_ai.Breaker.{configure}
use zxql_ai.Tools.{ToolContext, returned, Tool}
use zxql_ai.RedisMemory.{RedisMemory, new_client}
use zxql_ai.Redis.{standalone}
use zxql_ai.WriteGuard.{Cell, cell_eq}
use zxql_ai.Executor.{proceed, is_confirmed}
use zxql_ai.Executor.Permission.{permitted}
use zxql_ai.Graph.{answered, thrown}
use zxql_ai.Plans.{pending, tool, PlanEntity}
use zxql_ai.Plans.Run.{run}
use zxql_ai.Plans.Compose.{PlanBackend, PlanWiring, plan_services}
use zxql_ai.Plans.Previews.{run-keeps_world}
use zxql_ai.Plans.Tests.{step, preview_result, context}
use zxql_ai.Plans.SavingTests.{one_row}

-- A tool that counts the orders that it has made, and gives a preview in place of one without a
-- confirmation.
abbrev order_tool : Tool ℕ
order_tool = record {
  name = "createSalesOrder";
  is_write_operation = true;
  scope = none;
  idempotency_key_fields = none;
  execute = λ args c w. (if is_confirmed args then w + 1 else w, returned preview_result);
}

-- A planner that fills in a confirmation of its own.
abbrev wiring : PlanWiring PlanEntity (RedisMemory Cell) ℕ ℕ ℕ ℕ
wiring = record {
  table = one_row;
  redis = standalone;
  gate = record {
    check = λ now input i. (i, proceed (some i));
    complete = λ now handle result i. i;
  };
  decimal = λ n. "0";
  factory = record { is_registered = λ name. true; create = λ name config. thrown "no model" };
  switch = answered true;
  config = λ n. (
    n,
    answered (record { provider = "glm"; provider_config = boolean true; source = "platform" }),
  );
  fill = λ s goal n. (n, answered (("confirm", boolean true) ∷ []));
  note = λ x n. n;
  fresh = λ input. "w1";
  facts = λ name. none;
  rules = λ goal. none;
  operation = λ j. none;
  call_id = λ b. "c1";
  token_ttl_ms = 5;
}

abbrev backend : PlanBackend PlanEntity (RedisMemory Cell) ℕ ℕ ℕ
backend = record {
  plans = record {
    id = 1;
    tenant_id = "t";
    goal = some "g";
    steps = some (step "a" tool pending ∷ []);
    state = pending;
    created_by = none;
    created_at = 0;
    updated_at = 0;
  };
  confirmations = record {
    write_guard = record {
      redis = new_client;
      redis_available = false;
      memory_map = [];
      memory_index = [];
      token_ttl_ms = 86400000;
      audit_logger = none;
    };
    executor = record {
      world = 0;
      registry = ("createSalesOrder", order_tool) ∷ [];
      breaker = record { config = configure none none none; states = [] };
      gate = 0;
      metrics = [];
      audit_log = [];
    };
    has_executor = true;
    evidence = none;
    executed_map = [];
  };
  outside = 0;
}

only_tool :
    (name : String) (t : Tool ℕ)
    → lookup name backend.confirmations.executor.registry ≡ some t
    → order_tool ≡ t
unfolding lookup
only_tool name t h = ground (arith, h)

unconfirmed :
    (name : String) (args : Args) (c : ToolContext)
    → permitted name true args c (record { allow_confirm = false; idempotency_key = none }) ≡ true
    → is_confirmed args ≡ false
unconfirmed name args c h = ground (arith, h)

no_orders :
    (name : String) (t : Tool ℕ) (args : Args) (c : ToolContext) (n : ℕ)
    → lookup name backend.confirmations.executor.registry ≡ some t
    → permitted name t.is_write_operation args c
        (record { allow_confirm = false; idempotency_key = none })
      ≡ true
    → n ≡ 0
    → (t.execute args c n).0 ≡ 0
no_orders name t args c n there ok none_yet =
    let same = only_tool name t there in
    let closed : is_confirmed args ≡ false = unconfirmed name args c (
      subst
        (λ (u : Tool ℕ).
          permitted name u.is_write_operation args c
            (record { allow_confirm = false; idempotency_key = none })
          ≡ true)
        (sym same) ok) in
    subst (λ (u : Tool ℕ). (u.execute args c n).0 ≡ 0) same
      (ap (λ b. if b then n + 1 else n) closed ∙ none_yet)

-- The planner's confirmation makes no order.
run-keeps_world_example :
    (run (plan_services wiring 1 context) context 1 1 "t" backend).0.confirmations.executor.world
    ≡ 0
run-keeps_world_example = run-keeps_world wiring context 1 1 "t" backend (λ n. n ≡ 0) no_orders refl
