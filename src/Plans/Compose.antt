-- ===== src/Plans/Compose.antt =====
-- The services of a run of src/brain/agent/task-runner.service.ts made of the table of the plans, the
-- tool executor, the confirmations, the healing and the provider router. `outside` is the state of the
-- models, the planner and the store of the experiences.
use zxql_ai.Prelude.{ℕ, String, Bool, false, Option, none, List}
use zxql_ai.Json.{Json, Args}
use zxql_ai.Tools.{ToolContext, ToolResult, ToolScope}
use zxql_ai.Executor.{ToolCall, ExecuteOptions, IdempotencyGate, Executor}
use zxql_ai.Executor.Run.{execute_tool_call}
use zxql_ai.Redis.{RedisClient}
use zxql_ai.WriteGuard.{Cell}
use zxql_ai.Confirmation
use zxql_ai.Confirmation.{PendingConfirmation, CreateConfirmationInput, Confirmations}
use zxql_ai.Graph.{ToolFacts, Attempt, answered, thrown, ChatMessage, ChatResult, ChatTurn}
use zxql_ai.Plans.{PlanStep, ExecutionPlan, PlanTable, SaveResult, get_plan, save_plan}
use zxql_ai.Plans.Steps.{PlanRunContext, Kernel}
use zxql_ai.Plans.Healing.{Experience, with_healing}
use zxql_ai.ProviderRouter.{
  RouteInput, ResolvedAiConfig, FallbackMeta, ProviderFactory, chat_with_fallback,
}

pub record PlanBackend (S R M W I : Type 0) : Type 0 where
  pub plans : S
  pub confirmations : Confirmations R (Executor W I)
  pub outside : M

-- What is no state of the services.
pub record PlanWiring (S R M W I H : Type 0) : Type 0 where
  pub table : PlanTable S
  pub redis : RedisClient R Cell
  pub gate : IdempotencyGate I H
  pub decimal : ℕ → String
  pub factory : ProviderFactory Json M
  pub switch : Attempt Bool
  pub config : M → M × Attempt (ResolvedAiConfig Json)
  pub fill : PlanStep → String → M → M × Attempt Args
  pub note : Experience → M → M
  pub fresh : CreateConfirmationInput → String
  pub facts : String → Option ToolFacts
  pub rules : String → Option String
  pub operation : Json → Option String
  pub call_id : PlanBackend S R M W I → String
  pub token_ttl_ms : ℕ

-- A run may not confirm a write.
abbrev pub no_confirm : ExecuteOptions
no_confirm = record { allow_confirm = false; idempotency_key = none }

abbrev answer_of : Attempt (ChatResult × FallbackMeta) → Attempt ChatResult
answer_of (thrown message) = thrown message
answer_of (answered (result, meta)) = answered result

module _ {S R M W I H : Type 0} (w : PlanWiring S R M W I H) (now : ℕ) where
  abbrev Backend : Type 0
  Backend = PlanBackend S R M W I

  abbrev save_in : ℕ → ExecutionPlan → Backend → Backend × SaveResult
  save_in later plan b =
      let (s, result) = save_plan w.table later plan b.plans in (record b { plans = s }, result)

  abbrev fill_in : PlanStep → String → Backend → Backend × Attempt Args
  fill_in step goal b =
      let (m, args) = w.fill step goal b.outside in (record b { outside = m }, args)

  abbrev pub execute_in : ToolCall → ToolContext → Backend → Backend × ToolResult
  execute_in call context b =
      let (x, result) =
        execute_tool_call w.gate w.decimal now call context no_confirm b.confirmations.executor in
      (record b { confirmations = record (b.confirmations) { executor = x } }, result)

  abbrev config_in : Backend → Backend × Attempt (ResolvedAiConfig Json)
  config_in b = let (m, resolved) = w.config b.outside in (record b { outside = m }, resolved)

  -- The tools of the scope go with the messages to the provider.
  abbrev chat_in :
      RouteInput Json → Option ToolScope → List ChatMessage → Backend → Backend × ChatTurn
  chat_in input scope messages b =
      let (m, parts, answer) = chat_with_fallback w.factory w.switch input messages b.outside in
      (record b { outside = m }, record { parts = parts; ending = answer_of answer })

  abbrev create_in : CreateConfirmationInput → Backend → Backend × Attempt PendingConfirmation
  create_in input b =
      let (c, write) = Confirmation.create w.redis now (w.fresh input) input b.confirmations in
      (record b { confirmations = c }, answered write)

  -- The services without the healing.
  abbrev pub unhealed : Kernel Backend
  unhealed = record {
    find_plan = λ id tenant b. get_plan w.table id tenant b.plans;
    save = save_in;
    fill_step_args = fill_in;
    execute_tool_call = execute_in;
    heal = λ step goal error b. (b, thrown error);
    resolve_config = config_in;
    chat = chat_in;
    create_write = create_in;
    find_tool = w.facts;
    goal_rules = w.rules;
    operation = w.operation;
    call_id = w.call_id;
    token_ttl_ms = w.token_ttl_ms;
  }

  abbrev pub note_in : Experience → Backend → Backend
  note_in x b = record b { outside = w.note x b.outside }

  abbrev pub plan_services : PlanRunContext → Kernel Backend
  plan_services context = with_healing unhealed context note_in
