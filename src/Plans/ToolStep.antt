-- ===== src/Plans/ToolStep.antt =====
-- `runToolStep` of src/brain/agent/task-runner.service.ts.
use zxql_ai.Prelude.{
  ℕ, ◌+◌, String, true, false, Option, none, some, List, [], ◌∷◌, ◌++◌, if◌then◌else◌, ◌==◌,
  string_eq,
}
use Prim.Native.String.{◌++◌ as append}
use zxql_ai.Json.{Args}
use zxql_ai.Tools.{ToolResult}
use zxql_ai.Executor.{ToolCall, parsed}
use zxql_ai.Graph.{Attempt, answered, thrown}
use zxql_ai.Plans.{success, failed, tool_data, detect_final_state}
use zxql_ai.Plans.Steps.{
  PlanRunContext, HealResult, AgentRunEvent, tool_start, tool_result, Kernel, Focus, whole, StepEnd,
  continues, suspends, throws, or_else, with_step, failed_step, succeeded_step, to_tool_context,
  Stepped, SuspendEnd, no_write, is_suspended, not_created, save_then, step_event,
  maybe_suspend_write, suspended_events, not_created_events,
}

module _ {E : Type 0} (k : Kernel E) (context : PlanRunContext) (now : ℕ) where
  -- Events that come before those of a step's end; what throws drops them all.
  unfoldable pub prefixed : List AgentRunEvent → Stepped E → Stepped E
  prefixed events (e, evs, continues f p c) = (e, events ++ evs, continues f p c)
  prefixed events (e, evs, suspends f) = (e, events ++ evs, suspends f)
  prefixed events (e, evs, throws m f) = (e, [], throws m f)

  abbrev pub goes_on : Focus → StepEnd
  goes_on f = continues f 0 0

  unfoldable pub save_failed : String → Option String → Focus → E → Stepped E
  unfolding save_then failed_step
  save_failed message detail f e =
      let f' = with_step (failed_step now message f.step) f in
      save_then k context now f' (step_event k context now f' failed detail ∷ []) goes_on e

  unfoldable pub save_succeeded : String → ToolResult → Option String → Focus → E → Stepped E
  unfolding save_then succeeded_step
  save_succeeded name result detail f e =
      let f' = with_step (succeeded_step now (tool_data result.data_value) f.step) f in
      save_then k context now f'
        (tool_result name true result.data_value none none none
          ∷ step_event k context now f' success detail
          ∷ [])
        goes_on e

  -- The end of the healing: the step counts as done where it is well and has a result.
  unfoldable pub settle_heal :
      String → ToolResult → HealResult → Focus → E → Option ToolResult → Stepped E
  unfolding save_then succeeded_step failed_step
  settle_heal name first heal f e none =
      let message = or_else heal.error (or_else first.error "工具执行失败（自愈未恢复）") in
      save_failed message (some (append message (append "｜" (or_else heal.suggestion "")))) f e
  settle_heal name first heal f e (some result) =
      let message = or_else heal.error (or_else first.error "工具执行失败（自愈未恢复）") in
      if heal.ok
      then save_succeeded name result (some "自愈恢复") f e
      else save_failed message (some (append message (append "｜" (or_else heal.suggestion "")))) f e

  unfoldable pub after_heal : String → ToolResult → HealResult → Focus → E → Stepped E
  unfolding save_then succeeded_step failed_step
  after_heal name first heal f e =
      settle_heal name first heal
        (with_step (record (f.step) { retry_count = f.step.retry_count + heal.heal_count }) f) e
        heal.result

  unfoldable pub healed : String → ToolResult → Focus → E × Attempt HealResult → Stepped E
  unfolding after_heal
  healed name first f (e, thrown message) = (e, [], throws message f)
  healed name first f (e, answered heal) =
      prefixed (tool_result name false none first.error none none ∷ [])
        (after_heal name first heal f e)

  abbrev pub no_token_focus : Focus → Focus
  no_token_focus f =
      let f' = with_step (failed_step now "写操作确认令牌创建失败，操作未执行" f.step) f in
      record f' { plan = record (f'.plan) { state = detect_final_state (whole f').steps } }

  -- The result of the first run.
  unfoldable pub after_first : String → ToolResult → Focus → E × SuspendEnd → Stepped E
  unfolding save_then failed_step succeeded_step after_heal detect_final_state
  after_first name first f (e, is_suspended f') =
      (e, suspended_events k context now name first f', suspends f')
  after_first name first f (e, not_created message f') =
      save_then k context now (no_token_focus f') (not_created_events k context now name message f')
        goes_on e
  after_first name first f (e, no_write) =
      if first.success
      then save_succeeded name first none f e
      else healed name first f (k.heal f.step f.plan.goal (or_else first.error "工具执行失败") e)

  abbrev pub tool_call : String → Args → E → ToolCall
  tool_call name args e = record { id = k.call_id e; name = name; arguments = parsed args }

  unfoldable pub run_with_args : String → Args → Focus → E → Stepped E
  unfolding after_first maybe_suspend_write
  run_with_args name args f e =
      let (e₁, first) = k.execute_tool_call (tool_call name args e) (to_tool_context context) e in
      prefixed (tool_start name ∷ []) (
        after_first name first f
          (maybe_suspend_write k context now name (parsed args) first.preview f e₁))

  unfoldable pub filled : String → Focus → E × Attempt Args → Stepped E
  unfolding run_with_args
  filled name f (e, thrown message) = (e, [], throws message f)
  filled name f (e, answered args) =
      run_with_args name args (with_step (record (f.step) { args = some args }) f) e

  unfoldable pub fill_then_run : String → Args → Focus → E → Stepped E
  unfolding run_with_args
  fill_then_run name [] f e = filled name f (k.fill_step_args f.step f.plan.goal e)
  fill_then_run name (a ∷ rest) f e = run_with_args name (a ∷ rest) f e

  unfoldable pub run_tool_step : Option String → Focus → E → Stepped E
  unfolding run_with_args save_then failed_step
  run_tool_step none f e = save_failed "工具步骤缺少 tool 名" (some "工具步骤缺少 tool 名") f e
  run_tool_step (some name) f e =
      if name == ""
      then save_failed "工具步骤缺少 tool 名" (some "工具步骤缺少 tool 名") f e
      else fill_then_run name (or_else f.step.args []) f e
