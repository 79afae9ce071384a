-- ===== src/Plans/Steps.antt =====
-- The steps of a plan's run in src/brain/agent/task-runner.service.ts: tool steps, agent steps and the
-- suspension of writes.
use zxql_ai.Prelude.{
  ℕ, ◌+◌, String, Bool, true, false, Option, none, some, List, [], ◌∷◌, ◌++◌, map, nat_eq,
  string_eq,
}
use Prim.Native.String.{◌++◌ as append}
use zxql_ai.Json.{Json, Args}
use zxql_ai.Tools.{ToolContext, ToolResult, ToolScope}
use zxql_ai.Executor.{ToolCall, Arguments, parsed, malformed}
use zxql_ai.WriteGuard.{ToolRisk, low, medium, high}
use zxql_ai.Confirmation.{PendingConfirmation, CreateConfirmationInput}
use zxql_ai.Graph.{ToolFacts, Attempt, answered, thrown, ChatMessage, ChatTurn}
use zxql_ai.ProviderRouter.{ResolvedAiConfig, RouteInput}
use zxql_ai.Plans.{
  PlanStepStatus, success, failed, suspended, StepOutput, PlanStep, ExecutionPlan, SaveResult,
  saved, save_conflict, touch_step,
}

pub record PlanRunContext : Type 0 where
  pub tenant_id : String
  pub user_id : Option String
  pub role : Option String
  pub customer_id : Option String
  pub auth_token : Option String
  pub session_id : Option String
  pub model : Option String
  pub scope : Option ToolScope

-- `heal_count` is the length of `healLog`.
pub record HealResult : Type 0 where
  pub ok : Bool
  pub result : Option ToolResult
  pub error : Option String
  pub suggestion : Option String
  pub heal_count : ℕ

-- The events, without the arguments of a call and the latency of the run.
pub data AgentRunEvent : Type 0 where
  agent_step :
      (plan_id : ℕ) (step_id label : String) → PlanStepStatus → Option String → AgentRunEvent
  text_part : String → AgentRunEvent
  tool_start : String → AgentRunEvent
  tool_result :
      (tool : String) (success : Bool) (data_value : Option Json) (error : Option String)
      (preview : Option Json) (confirmation_id : Option String)
      → AgentRunEvent
  pending_write : String → Option Json → String → ℕ → AgentRunEvent
  await_confirm : String → ℕ → AgentRunEvent
  done : ℕ → PlanStepStatus → (prompt_tokens completion_tokens steps : ℕ) → AgentRunEvent
  error_event : String → AgentRunEvent

-- The services with their state `E`. `save` is the save of a plan; `resolve_config` the reading of the
-- settings of the models; `chat` the routed model with the tools of a scope; `heal` the loop of healing with the tool's runs; `operation` the name that a
-- preview gives to its operation.
pub record Kernel (E : Type 0) : Type 0 where
  pub find_plan : ℕ → String → E → Option ExecutionPlan
  pub save : ℕ → ExecutionPlan → E → E × SaveResult
  pub fill_step_args : PlanStep → String → E → E × Attempt Args
  pub execute_tool_call : ToolCall → ToolContext → E → E × ToolResult
  pub heal : PlanStep → String → String → E → E × Attempt HealResult
  pub resolve_config : E → E × Attempt (ResolvedAiConfig Json)
  pub chat : RouteInput Json → Option ToolScope → List ChatMessage → E → E × ChatTurn
  pub create_write : CreateConfirmationInput → E → E × Attempt PendingConfirmation
  pub find_tool : String → Option ToolFacts
  pub goal_rules : String → Option String
  pub operation : Json → Option String
  pub call_id : E → String
  pub token_ttl_ms : ℕ

-- The step that runs, between the steps before and after it.
pub record Focus : Type 0 where
  pub plan : ExecutionPlan
  pub before : List PlanStep
  pub step : PlanStep
  pub later : List PlanStep

abbrev pub whole : Focus → ExecutionPlan
whole f = record (f.plan) { steps = f.before ++ (f.step ∷ f.later) }

-- A step goes on with the tokens it used, waits for a confirmation, or throws.
pub data StepEnd : Type 0 where
  continues : Focus → (prompt_tokens completion_tokens : ℕ) → StepEnd
  suspends : Focus → StepEnd
  throws : String → Focus → StepEnd

abbrev pub or_else {ℓ} : {A : Type ℓ} → Option A → A → A
or_else none d = d
or_else (some a) d = a

abbrev pub touched : ℕ → ExecutionPlan → Focus → Focus
touched now plan f = record f {
  plan = plan;
  before = map (touch_step now) f.before;
  step = touch_step now f.step;
  later = map (touch_step now) f.later;
}

abbrev pub with_step : PlanStep → Focus → Focus
with_step step f = record f { step = step }

-- The head of the text of a conflict.
abbrev pub conflict_message : String
conflict_message = "执行计划写入冲突"

unfoldable pub failed_step : ℕ → String → PlanStep → PlanStep
failed_step now message step = record step {
  status = failed;
  error_text = some message;
  updated_at = now;
}

unfoldable pub succeeded_step : ℕ → StepOutput → PlanStep → PlanStep
succeeded_step now output step = record step {
  status = success;
  output = some output;
  error_text = none;
  updated_at = now;
}

abbrev pub is_high : ToolRisk → Bool
is_high high = true
is_high medium = false
is_high low = false

abbrev pub risk_of : Option ToolFacts → ToolRisk
risk_of none = medium
risk_of (some t) = or_else t.risk medium

abbrev pub review_of : Option ToolFacts → Bool
review_of none = is_high medium
review_of (some t) = or_else t.needs_review (is_high (or_else t.risk medium))

abbrev pub to_tool_context : PlanRunContext → ToolContext
to_tool_context c = record {
  tenant_id = c.tenant_id;
  user_id = c.user_id;
  session_id = some (or_else c.session_id (append "plan-" c.tenant_id));
  request_id = none;
  role = c.role;
  customer_id = c.customer_id;
  auth_token = c.auth_token;
  employee_uid = none;
  dispatch_depth = none;
}

-- What `maybeSuspendWrite` says: not a preview, suspended, or no token could be made.
pub data SuspendEnd : Type 0 where
  no_write : SuspendEnd
  is_suspended : Focus → SuspendEnd
  not_created : String → Focus → SuspendEnd

abbrev pub Stepped : Type 0 → Type 0
Stepped E = E × List AgentRunEvent × StepEnd

module _ {E : Type 0} (k : Kernel E) (context : PlanRunContext) (now : ℕ) where
  -- A save in the middle of a step, and what follows it.
  unfoldable pub after_save :
      Focus → List AgentRunEvent → (Focus → StepEnd) → E × SaveResult → Stepped E
  after_save f events next (e, saved plan) = (e, events, next (touched now plan f))
  after_save f events next (e, save_conflict plan current) =
      (e, [], throws conflict_message (touched now plan f))

  unfoldable pub save_then : Focus → List AgentRunEvent → (Focus → StepEnd) → E → Stepped E
  unfolding after_save
  save_then f events next e = after_save f events next (k.save now (whole f) e)

  abbrev pub step_event : Focus → PlanStepStatus → Option String → AgentRunEvent
  step_event f status detail = agent_step f.plan.id f.step.id f.step.label status detail

  abbrev pub suspended_focus : PendingConfirmation → Option Json → Focus → Focus
  suspended_focus c preview f = record f {
    step = record (f.step) {
      pending_token = some c.confirmation_id;
      preview = preview;
      status = suspended;
      updated_at = now;
    };
    plan = record (f.plan) { state = suspended };
  }

  abbrev pub saved_suspended : Focus → E × SaveResult → E × SuspendEnd
  saved_suspended f (e, saved plan) = (e, is_suspended (touched now plan f))
  saved_suspended f (e, save_conflict plan current) =
      (e, not_created conflict_message (touched now plan f))

  abbrev pub created : Option Json → Focus → E × Attempt PendingConfirmation → E × SuspendEnd
  created preview f (e, thrown message) = (e, not_created message f)
  created preview f (e, answered c) =
      let f' = suspended_focus c preview f in saved_suspended f' (k.save now (whole f') e)

  abbrev pub write_input : String → Args → Json → Focus → CreateConfirmationInput
  write_input name args preview f = record {
    tenant_id = f.plan.tenant_id;
    conversation_id = context.session_id;
    customer_id = context.customer_id;
    plan_id = some f.plan.id;
    plan_step_id = some f.step.id;
    tool_name = name;
    doc_type = some name;
    risk = some (risk_of (k.find_tool name));
    needs_review = some (review_of (k.find_tool name));
    args = args;
    preview = some preview;
    operation_label = or_else (k.operation preview) name;
  }

  unfoldable pub maybe_suspend_write : String → Arguments → Option Json → Focus → E → E × SuspendEnd
  maybe_suspend_write name args none f e = (e, no_write)
  maybe_suspend_write name (malformed message head) (some preview) f e = (e, not_created message f)
  maybe_suspend_write name (parsed args) (some preview) f e =
      created (some preview) f (k.create_write (write_input name args preview f) e)

  abbrev pub token_of : Focus → String
  token_of f = or_else f.step.pending_token ""

  -- The events of a suspension and of a token that could not be made.
  abbrev pub suspended_events : String → ToolResult → Focus → List AgentRunEvent
  suspended_events name result f =
      tool_result name result.success result.data_value none result.preview (some (token_of f))
      ∷ pending_write (token_of f) f.step.preview name (now + k.token_ttl_ms)
      ∷ await_confirm (token_of f) (now + k.token_ttl_ms)
      ∷ step_event f suspended (
          some (
            append "等待确认："
              (or_else (elim f.step.preview [ none ↦ none | some p ↦ k.operation p ]) name)))
      ∷ []

  abbrev pub not_created_events : String → String → Focus → List AgentRunEvent
  not_created_events name message f =
      tool_result name false none (some (append "写操作确认令牌创建失败，操作未执行：" message)) none none
      ∷ step_event f failed (some "写确认令牌创建失败，操作未执行")
      ∷ []
