-- ===== src/Plans/Run.antt =====
-- `run` of src/brain/agent/task-runner.service.ts. The first save of a run gives every step the time of
-- the run, so that the later ones leave the steps that are not yet run as they are.
use zxql_ai.Prelude.{
  ℕ, ◌+◌, String, Bool, ◌||◌, Option, none, some, List, [], ◌∷◌, ◌++◌, if◌then◌else◌, ◌==◌, nat_eq,
  string_eq, any, length,
}
use zxql_ai.Plans.{
  PlanStepStatus, running, success, failed, suspended, skipped, PlanStepType, tool, agent,
  condition, end, PlanStep, ExecutionPlan, SaveResult, saved, save_conflict, detect_final_state,
  same_status, is_open,
}
use zxql_ai.Plans.Steps.{
  PlanRunContext, AgentRunEvent, agent_step, await_confirm, done, error_event, Kernel, Focus, whole,
  continues, suspends, throws, or_else, with_step, touched, failed_step, conflict_message, Stepped,
  step_event, save_then,
}
use zxql_ai.Plans.ToolStep.{run_tool_step}
use zxql_ai.Plans.AgentStep.{run_agent_step}

-- What a step leads to: the next one, the return of the run, or an error that the run throws.
pub data After : Type 0 where
  next : Focus → (prompt_tokens completion_tokens : ℕ) → After
  returns : ExecutionPlan → After
  crashes : String → After

pub data RunEnd : Type 0 where
  returned : ExecutionPlan → RunEnd
  crashed : String → RunEnd
  not_started : RunEnd

abbrev pub is_over : PlanStepStatus → Bool
is_over s = same_status s success || (same_status s failed || same_status s skipped)

-- A step that a run passes by.
abbrev pub is_passed : PlanStep → Bool
is_passed step = same_status step.status success || same_status step.status skipped

module _ {E : Type 0} (k : Kernel E) (context : PlanRunContext) (now : ℕ) where
  abbrev pub done_event : ExecutionPlan → ℕ → ℕ → AgentRunEvent
  done_event plan p c = done plan.id plan.state p c (length plan.steps)

  abbrev pub set_status : PlanStepStatus → Focus → Focus
  set_status status f = with_step (record (f.step) { status = status; updated_at = now }) f

  abbrev pub save_caught : String → Focus → E × SaveResult → E × List AgentRunEvent × After
  save_caught message f (e, saved plan) =
      (e, step_event k context now f failed (some message) ∷ [], next (touched now plan f) 0 0)
  save_caught message f (e, save_conflict plan current) = (e, [], crashes conflict_message)

  -- What is thrown in a step fails the step.
  unfoldable pub catch_step : Stepped E → E × List AgentRunEvent × After
  unfolding failed_step
  catch_step (e, events, continues f p c) = (e, events, next f p c)
  catch_step (e, events, suspends f) = (e, events, returns (whole f))
  catch_step (e, events, throws message f) =
      let f' = with_step (failed_step now message f.step) f in
      save_caught message f' (k.save now (whole f') e)

  unfoldable pub end_saved : Focus → ℕ → ℕ → E × SaveResult → E × List AgentRunEvent × After
  unfolding catch_step
  end_saved f p c (e, saved plan) =
      let f' = touched now plan f in
      (
        e,
        step_event k context now f' success none ∷ done_event (whole f') p c ∷ [],
        returns (whole f'),
      )
  end_saved f p c (e, save_conflict plan current) =
      catch_step (e, [], throws conflict_message (touched now plan f))

  abbrev pub end_focus : Focus → Focus
  end_focus f =
      let f' = set_status success f in
      record f' { plan = record (f'.plan) { state = detect_final_state (whole f').steps } }

  -- The types of steps, `p` and `c` being the tokens so far.
  unfoldable pub run_type : PlanStepType → ℕ → ℕ → Focus → E → E × List AgentRunEvent × After
  unfolding catch_step run_tool_step run_agent_step save_then detect_final_state
  run_type end p c f e = end_saved (end_focus f) p c (k.save now (whole (end_focus f)) e)
  run_type tool p c f e = catch_step (run_tool_step k context now f.step.tool_name f e)
  run_type agent p c f e = catch_step (run_agent_step k context now f e)
  run_type condition p c f e =
      let f' = set_status success f in
      catch_step (
        save_then k context now f' (step_event k context now f' success none ∷ [])
          (λ f''. continues f'' 0 0) e)

  unfoldable pub started : ℕ → ℕ → Focus → E × SaveResult → E × List AgentRunEvent × After
  unfolding run_type
  started p c f (e, save_conflict plan current) = (e, [], crashes conflict_message)
  started p c f (e, saved plan) =
      let f' = touched now plan f in
      let (e', events, ending) = run_type f'.step.step_type p c f' e in
      (e', step_event k context now f' running none ∷ events, ending)

  unfoldable pub run_step : ℕ → ℕ → Focus → E → E × List AgentRunEvent × After
  unfolding run_type
  run_step p c f e = let f' = set_status running f in started p c f' (k.save now (whole f') e)

  abbrev pub token_events : Option String → List AgentRunEvent
  token_events none = []
  token_events (some token) =
      if token == "" then [] else await_confirm token (now + k.token_ttl_ms) ∷ []

  abbrev pub finished : ExecutionPlan → ℕ → ℕ → E × SaveResult → E × List AgentRunEvent × RunEnd
  finished plan p c (e, saved written) = (e, done_event written p c ∷ [], returned written)
  finished plan p c (e, save_conflict written current) = (e, [], crashed conflict_message)

  abbrev pub final_plan : ExecutionPlan → ExecutionPlan
  final_plan plan = record plan { state = detect_final_state plan.steps }

  -- The end of a run whose steps are all passed.
  unfoldable pub finish : ExecutionPlan → ℕ → ℕ → E → E × List AgentRunEvent × RunEnd
  unfolding detect_final_state
  finish plan p c e = finished (final_plan plan) p c (k.save now (final_plan plan) e)

  unfoldable pub after_step :
      (ExecutionPlan → List PlanStep → ℕ → ℕ → E → E × List AgentRunEvent × RunEnd)
      → ℕ
      → ℕ
      → E × List AgentRunEvent × After
      → E × List AgentRunEvent × RunEnd
  after_step rest p c (e, events, next f p' c') =
      let (e₁, more, ending) = rest f.plan (f.before ++ (f.step ∷ [])) (p + p') (c + c') e in
      (e₁, events ++ more, ending)
  after_step rest p c (e, events, returns plan) = (e, events, returned plan)
  after_step rest p c (e, events, crashes message) = (e, events, crashed message)

  -- The steps that are left, after those before them.
  unfoldable pub run_steps :
      List PlanStep → ExecutionPlan → List PlanStep → ℕ → ℕ → E → E × List AgentRunEvent × RunEnd
  unfolding finish after_step run_step
  run_steps [] plan before p c e = finish (record plan { steps = before }) p c e
  run_steps (step ∷ later) plan before p c e =
      let f : Focus = record { plan = plan; before = before; step = step; later = later } in
      let passed = run_steps later plan (before ++ (step ∷ [])) p c e in
      let ran = after_step (run_steps later) p c (run_step p c f e) in
      if is_passed step
      then passed
      else if same_status step.status suspended
      then (
        e,
        step_event k context now f suspended (some (or_else step.error_text "等待人工确认"))
            ∷ token_events step.pending_token,
        returned (whole f),
      )
      else ran

  unfoldable pub begun : E × SaveResult → E × List AgentRunEvent × RunEnd
  unfolding run_steps
  begun (e, save_conflict plan current) = (e, [], crashed conflict_message)
  begun (e, saved plan) =
      let (e', events, ending) = run_steps plan.steps plan [] 0 0 e in
      (e', agent_step plan.id "plan" "计划启动" running (some plan.goal) ∷ events, ending)

  unfoldable pub run_plan : Option ExecutionPlan → E → E × List AgentRunEvent × RunEnd
  unfolding run_steps finish
  run_plan none e = (e, error_event "计划不存在" ∷ [], not_started)
  run_plan (some plan) e =
      if is_over plan.state
      then (e, error_event "计划已结束，无法再次执行" ∷ [], not_started)
      else if any is_open plan.steps
      then begun (k.save now (record plan { state = running }) e)
      else finish plan 0 0 e

  unfoldable pub run : ℕ → String → E → E × List AgentRunEvent × RunEnd
  unfolding run_plan
  run id tenant e = run_plan (k.find_plan id tenant e) e
