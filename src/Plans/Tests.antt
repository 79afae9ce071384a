-- ===== src/Plans/Tests.antt =====
-- Runs of plans at concrete inputs.
use zxql_ai.Prelude.{
  ℕ, ◌+◌, String, inl, inr, true, false, none, some, List, [], ◌∷◌, map, ◌≡◌, refl, sym, ap, arith,
  if◌then◌else◌, nat_beq,
}
use zxql_ai.Tools.{ToolResult}
use zxql_ai.Json.{boolean}
use zxql_ai.Executor.{ToolCall, parsed}
use zxql_ai.Graph.{answered, thrown}
use zxql_ai.Plans.{
  PlanStepStatus, pending, running, success, suspended, PlanStepType, tool, agent, end, PlanStep,
  ExecutionPlan, saved, agent_text, touch_step,
}
use zxql_ai.Plans.Healing.{
  classify, service_unavailable, unknown, suggest, Experience, with_healing,
}
use zxql_ai.Plans.Healing.Words.{includes, to_lower_case}
use zxql_ai.Plans.Healed.{healed_focus, run_with_args-heals}
use zxql_ai.Plans.ToolStep.{run_with_args}
use zxql_ai.Plans.Steps.{
  tool_start, tool_result, done, error_event, step_event, continues, touched, PlanRunContext,
  Kernel, Focus, AgentRunEvent,
}
use zxql_ai.Plans.AgentStep
use zxql_ai.Plans.AgentStep.{run_agent_step}
use zxql_ai.Plans.Run
use zxql_ai.Plans.Run.{RunEnd, returned, not_started, run}
use zxql_ai.Plans.Kept.{Kept}
use zxql_ai.Plans.Finished.{Faithful, run-keeps_finished}
use zxql_ai.Plans.Waiting.{run-waiting_done}

abbrev pub step : String → PlanStepType → PlanStepStatus → PlanStep
step id type status = record {
  id = id;
  label = id;
  step_type = type;
  tool_name = some "createSalesOrder";
  args = none;
  prompt = none;
  status = status;
  output = none;
  error_text = none;
  retry_count = 0;
  pending_token = none;
  preview = none;
  created_at = 0;
  updated_at = 0;
}

abbrev pub plan_of : PlanStepStatus → List PlanStep → ExecutionPlan
plan_of state steps = record {
  id = 1;
  tenant_id = "t";
  goal = "g";
  steps = steps;
  state = state;
  created_by = none;
  created_at = 0;
  updated_at = 0;
  persisted_state = pending;
}

abbrev pub preview_result : ToolResult
preview_result = record {
  success = true;
  data_value = none;
  error = none;
  suggestion = none;
  idempotent_replay = none;
  original_completed_at = none;
  preview = some (boolean true);
}

abbrev call : ToolCall
call = record { id = "c"; name = "createSalesOrder"; arguments = parsed [] }

-- Services that count the turns of the model, which calls a tool in its first one. Every tool gives a
-- preview, and no confirmation can be made.
abbrev kernel : ExecutionPlan → Kernel ℕ
kernel plan = record {
  find_plan = λ id tenant n. some plan;
  save =
      λ now p n. (n, saved (record p { steps = map (touch_step now) p.steps; updated_at = now }));
  fill_step_args = λ s goal n. (n, answered []);
  execute_tool_call = λ c context n. (n, preview_result);
  heal = λ s goal message n. (n, thrown "heal");
  resolve_config = λ n. (
    n,
    answered (record { provider = "glm"; provider_config = boolean true; source = "platform" }),
  );
  chat = λ input scope messages n. (
    n + 1,
    record {
      parts = "t" ∷ [];
      ending = answered (record {
        content = none;
        tool_calls = if nat_beq n 0 then some (call ∷ []) else none;
        prompt_tokens = 2;
        completion_tokens = 3;
      });
    },
  );
  create_write = λ input n. (n, thrown "no store");
  find_tool = λ name. none;
  goal_rules = λ goal. none;
  operation = λ j. none;
  call_id = λ n. "c";
  token_ttl_ms = 5;
}

abbrev pub context : PlanRunContext
context = record {
  tenant_id = "t";
  user_id = none;
  role = none;
  customer_id = none;
  auth_token = none;
  session_id = none;
  model = none;
  scope = none;
}

saved-injective : (p q : ExecutionPlan) → saved p ≡ saved q → p ≡ q
saved-injective p q h = ground (arith, h)

kernel-Faithful : (plan : ExecutionPlan) → Faithful (kernel plan)
kernel-Faithful plan = record {
  keeps = λ now p w n h. ap (λ (x : ExecutionPlan). x.steps) (sym (saved-injective _ w h));
  keeps_state = λ now p w n h. ap (λ (x : ExecutionPlan). x.state) (sym (saved-injective _ w h));
}

abbrev focus : Focus
focus = record { plan = plan_of running []; before = []; step = step "a" agent running; later = [] }

-- The last step waits for its write.
abbrev waiting : ExecutionPlan
waiting = plan_of suspended (step "a" tool success ∷ step "b" tool suspended ∷ [])

abbrev reported : ExecutionPlan
reported = record waiting {
  steps = map (touch_step 1) waiting.steps;
  state = success;
  updated_at = 1;
}

-- The services find the plan as it is in the table.
abbrev waiting_kernel : Kernel ExecutionPlan
waiting_kernel = record {
  find_plan = λ id tenant p. some p;
  save = λ now p q.
      let w = record p { steps = map (touch_step now) p.steps; updated_at = now } in (w, saved w);
  fill_step_args = λ s goal p. (p, answered []);
  execute_tool_call = λ c context p. (p, preview_result);
  heal = λ s goal message p. (p, thrown "heal");
  resolve_config = λ n. (
    n,
    answered (record { provider = "glm"; provider_config = boolean true; source = "platform" }),
  );
  chat = λ input scope messages p. (p, record { parts = []; ending = thrown "chat" });
  create_write = λ input p. (p, thrown "no store");
  find_tool = λ name. none;
  goal_rules = λ goal. none;
  operation = λ j. none;
  call_id = λ p. "c";
  token_ttl_ms = 5;
}

waiting_kernel-Faithful : Faithful waiting_kernel
waiting_kernel-Faithful = record {
  keeps = λ now p w q h. ap (λ (x : ExecutionPlan). x.steps) (sym (saved-injective _ w h));
  keeps_state = λ now p w q h. ap (λ (x : ExecutionPlan). x.state) (sym (saved-injective _ w h));
}

abbrev waiting_run : ExecutionPlan × List AgentRunEvent × RunEnd
waiting_run = run waiting_kernel context 1 1 "t" waiting

run-waiting_done_example :
    (waiting_run.1 ≡ done 1 success 0 0 2 ∷ [])
    × (waiting_run.2 ≡ returned reported)
    × (reported.steps ≡ map (touch_step 1) waiting.steps)
    × (run waiting_kernel context 2 1 "t" reported
        ≡ (reported, error_event "计划已结束，无法再次执行" ∷ [], not_started))
run-waiting_done_example =
    run-waiting_done waiting_kernel waiting_kernel-Faithful context 1 2 1 "t" waiting reported
      waiting reported refl refl (inl refl, (inr (inr refl), tt)) refl refl

-- A plan with a step that is done, and a model to ask before its end.
abbrev begun : ExecutionPlan
begun = plan_of pending (step "a" tool success ∷ step "b" agent pending ∷ step "c" end pending ∷ [])

abbrev begun_run : ℕ × List AgentRunEvent × RunEnd
begun_run = run (kernel begun) context 1 1 "t" 0

abbrev ended : ExecutionPlan
ended = record begun {
  steps =
      touch_step 1 (step "a" tool success)
      ∷ touch_step 1 (record (step "b" agent success) { output = some (agent_text "t") })
      ∷ touch_step 1 (step "c" end success)
      ∷ [];
  state = success;
  updated_at = 1;
}

run-ends : begun_run.2 ≡ returned ended
unfolding run Run.begun Run.started AgentStep.preceded AgentStep.next_round AgentStep.save_text
    Run.end_saved
run-ends = refl

run-keeps_finished_example : Kept begun.steps ended.steps
run-keeps_finished_example =
    run-keeps_finished (kernel begun) (kernel-Faithful begun) context 1 1 "t" 0 begun ended refl
      run-ends

classifies_words :
    (classify "Connect ECONNREFUSED" ≡ service_unavailable) × (classify "x" ≡ unknown)
unfolding classify includes to_lower_case
classifies_words = (refl, refl)

abbrev timed_out : ToolResult
timed_out = record preview_result { success = false; error = some "Timeout"; preview = none }

-- The first run of a tool is cut off, and the others give previews.
abbrev flaky : Kernel ℕ
flaky = record (kernel waiting) {
  execute_tool_call = λ c context n. (n + 1, if nat_beq n 0 then timed_out else preview_result);
}

abbrev tool_focus : Focus
tool_focus = record focus { step = record (step "a" tool running) { args = some [] } }

abbrev keep_count : Experience → ℕ → ℕ
keep_count x n = n

abbrev healed_plan : ExecutionPlan
healed_plan = record focus.plan {
  steps = touch_step 1 (healed_focus 1 preview_result tool_focus).step ∷ [];
  updated_at = 1;
}

-- The write that the retry previews is lost.
run_with_args-heals_example :
    run_with_args
      (with_healing flaky context keep_count)
      context
      1
      "createSalesOrder"
      []
      tool_focus
      0
    ≡ (
      2,
      tool_start "createSalesOrder"
          ∷ tool_result "createSalesOrder" false none (some "Timeout") none none
          ∷ tool_result "createSalesOrder" true none none none none
          ∷ step_event flaky context 1
              (healed_focus 1 preview_result tool_focus)
              success
              (some "自愈恢复")
          ∷ [],
      continues (touched 1 healed_plan (healed_focus 1 preview_result tool_focus)) 0 0,
    )
unfolding suggest includes to_lower_case
run_with_args-heals_example =
    run_with_args-heals flaky context keep_count 1 "createSalesOrder" [] tool_focus 0 1 2 2
      timed_out preview_result healed_plan refl refl refl refl refl refl refl refl refl
