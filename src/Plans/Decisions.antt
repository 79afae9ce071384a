-- ===== src/Plans/Decisions.antt =====
-- What a person does with the plans of src/brain/agent/task-runner.service.ts, and the result of a
-- confirmed write.
use zxql_ai.Prelude.{
  ℕ, String, Bool, ◌||◌, Option, none, some, List, [], ◌∷◌, map, if◌then◌else◌, ◌==◌, string_eq,
  any, is_some_eq,
}
use zxql_ai.Tools.{ToolResult}
use zxql_ai.Plans.{
  PlanStepStatus, pending, success, failed, suspended, skipped, tool_data, PlanStep, ExecutionPlan,
  PlanTable, SaveResult, saved, save_conflict, or_else, same_status, is_open, detect_final_state,
  get_plan, list_plans, save_plan,
}

-- What a person's call comes to: the plan, a refusal, or the conflict that a save throws.
pub data PlanAnswer : Type 0 where
  changed : ExecutionPlan → PlanAnswer
  no_plan no_step : PlanAnswer
  wrong_status : PlanStepStatus → PlanAnswer
  conflicted : PlanAnswer

abbrev pub find_step : String → List PlanStep → Option PlanStep
find_step id [] = none
find_step id (step ∷ steps) = if step.id == id then some step else find_step id steps

-- The step that `find_step` finds, changed.
abbrev pub change_step : String → (PlanStep → PlanStep) → List PlanStep → List PlanStep
change_step id f [] = []
change_step id f (step ∷ steps) =
    let rest = change_step id f steps in if step.id == id then f step ∷ steps else step ∷ rest

module _ {S : Type 0} (table : PlanTable S) where
  abbrev pub answer : S × SaveResult → S × PlanAnswer
  answer (s, saved plan) = (s, changed plan)
  answer (s, save_conflict plan current) = (s, conflicted)

  -- The decision on a suspended step of a plan.
  unfoldable pub decide_step :
      ℕ
      → String
      → (PlanStep → PlanStep)
      → (List PlanStep → PlanStepStatus)
      → S
      → ExecutionPlan
      → Option PlanStep
      → S × PlanAnswer
  unfolding save_plan
  decide_step now id mark next s plan none = (s, no_step)
  decide_step now id mark next s plan (some step) =
      let steps = change_step id mark plan.steps in
      if same_status step.status suspended
      then answer (save_plan table now (record plan { steps = steps; state = next steps }) s)
      else (s, wrong_status step.status)

  unfoldable pub decide_plan :
      ℕ
      → String
      → (PlanStep → PlanStep)
      → (List PlanStep → PlanStepStatus)
      → S
      → Option ExecutionPlan
      → S × PlanAnswer
  unfolding decide_step
  decide_plan now id mark next s none = (s, no_plan)
  decide_plan now id mark next s (some plan) =
      decide_step now id mark next s plan (find_step id plan.steps)

  abbrev pub approved_step : ℕ → PlanStep → PlanStep
  approved_step now step = record step { status = pending; updated_at = now }

  abbrev pub rejected_step : ℕ → Option String → PlanStep → PlanStep
  rejected_step now reason step = record step {
    status = skipped;
    error_text = some (or_else reason "人工驳回");
    updated_at = now;
  }

  unfoldable pub approve_step : ℕ → ℕ → String → String → S → S × PlanAnswer
  unfolding decide_plan get_plan
  approve_step now id tenant step s =
      decide_plan now step (approved_step now) (λ steps. pending) s (get_plan table id tenant s)

  unfoldable pub reject_step : ℕ → ℕ → String → String → Option String → S → S × PlanAnswer
  unfolding decide_plan get_plan detect_final_state
  reject_step now id tenant step reason s =
      decide_plan now step (rejected_step now reason) detect_final_state s
        (get_plan table id tenant s)

  abbrev pub cancelled_step : ℕ → PlanStep → PlanStep
  cancelled_step now step =
      if is_open step then record step { status = skipped; updated_at = now } else step

  abbrev pub cancel_found : ℕ → S → Option ExecutionPlan → S × PlanAnswer
  unfolding save_plan
  cancel_found now s none = (s, no_plan)
  cancel_found now s (some plan) =
      if same_status plan.state success || same_status plan.state failed
      then (s, wrong_status plan.state)
      else answer (
          save_plan table now
            (record plan { steps = map (cancelled_step now) plan.steps; state = skipped }) s)

  unfoldable pub cancel_plan : ℕ → ℕ → String → S → S × PlanAnswer
  unfolding get_plan save_plan
  cancel_plan now id tenant s = cancel_found now s (get_plan table id tenant s)

  abbrev pub executed_step : ℕ → ToolResult → PlanStep → PlanStep
  executed_step now result step =
      if result.success
      then record step {
        status = success;
        output = some (tool_data result.data_value);
        pending_token = none;
        error_text = none;
        updated_at = now;
      }
      else record step {
        status = failed;
        error_text = some (or_else result.error "确认执行失败");
        pending_token = none;
        updated_at = now;
      }

  abbrev pub has_token : String → PlanStep → Bool
  has_token token step = is_some_eq step.pending_token token

  -- The first step with the token, changed.
  abbrev pub change_token : String → (PlanStep → PlanStep) → List PlanStep → List PlanStep
  change_token token f [] = []
  change_token token f (step ∷ steps) =
      let rest = change_token token f steps in
      if has_token token step then f step ∷ steps else step ∷ rest

  -- The first of the plans that has a step with the token.
  abbrev pub with_token : String → List ExecutionPlan → Option ExecutionPlan
  with_token token [] = none
  with_token token (plan ∷ plans) =
      if any (has_token token) plan.steps then some plan else with_token token plans

  abbrev pub mark_found : ℕ → String → ToolResult → S → Option ExecutionPlan → S × PlanAnswer
  unfolding save_plan detect_final_state
  mark_found now token result s none = (s, no_plan)
  mark_found now token result s (some plan) =
      let steps = change_token token (executed_step now result) plan.steps in
      answer
        (save_plan table now (record plan { steps = steps; state = detect_final_state steps }) s)

  unfoldable pub mark_step_executed_by_token : ℕ → String → String → ToolResult → S → S × PlanAnswer
  unfolding list_plans save_plan detect_final_state
  mark_step_executed_by_token now token tenant result s =
      mark_found now token result s (with_token token (list_plans table tenant 50 s))
