-- ===== src/Plans/AgentStep.antt =====
-- `runAgentStep` of src/brain/agent/task-runner.service.ts.
use zxql_ai.Prelude.{
  ℕ, zero, suc, ◌+◌, String, Option, none, some, List, [], ◌∷◌, ◌++◌, map, if◌then◌else◌, ◌==◌,
  string_eq,
}
use Prim.Native.String.{◌++◌ as append}
use zxql_ai.Json.{Json}
use zxql_ai.Tools.{ToolResult}
use zxql_ai.Executor.{ToolCall}
use zxql_ai.Graph.{
  Attempt, answered, thrown, ChatMessage, system_message, user_message, assistant_message,
  tool_message, ChatResult,
}
use zxql_ai.ProviderRouter.{ResolvedAiConfig, RouteInput}
use zxql_ai.Plans.{success, agent_text}
use zxql_ai.Plans.Steps.{
  PlanRunContext, AgentRunEvent, text_part, tool_start, tool_result, error_event, Kernel, Focus,
  continues, suspends, throws, or_else, with_step, failed_step, succeeded_step, to_tool_context,
  Stepped, SuspendEnd, no_write, is_suspended, not_created, save_then, step_event,
  maybe_suspend_write, suspended_events, not_created_events,
}

abbrev pub max_agent_step_rounds : ℕ
max_agent_step_rounds = 6

abbrev joined : List String → String
joined [] = ""
joined (t ∷ ts) = append t (joined ts)

abbrev calls_of : Option (List ToolCall) → List ToolCall
calls_of none = []
calls_of (some calls) = calls

-- The calls of a round are all made, with the messages of their results, or one of them waits.
pub data CallsEnd : Type 0 where
  all_called : List ChatMessage → Focus → CallsEnd
  call_suspends : Focus → CallsEnd

module _ {E : Type 0} (k : Kernel E) (context : PlanRunContext) (now : ℕ) where
  abbrev pub result_message : ToolCall → ToolResult → ChatMessage
  result_message call result = tool_message (call.id, call.name, result)

  abbrev pub returned_event : String → ToolResult → AgentRunEvent
  returned_event name result =
      tool_result name result.success result.data_value result.error none none

  -- A call and those after it. A token that could not be made is reported, and the calls go on.
  unfoldable pub after_call :
      (List ChatMessage → Focus → E → E × List AgentRunEvent × CallsEnd)
      → List ChatMessage
      → ToolCall
      → ToolResult
      → Focus
      → E × SuspendEnd
      → E × List AgentRunEvent × CallsEnd
  after_call rest messages call result f (e, is_suspended f') =
      (e, suspended_events k context now call.name result f', call_suspends f')
  after_call rest messages call result f (e, not_created message f') =
      let (e₁, events, ending) = rest (messages ++ (result_message call result ∷ [])) f' e in
      (
        e₁,
        not_created_events k context now call.name message f'
            ++ (returned_event call.name result ∷ events),
        ending,
      )
  after_call rest messages call result f (e, no_write) =
      let (e₁, events, ending) = rest (messages ++ (result_message call result ∷ [])) f e in
      (e₁, returned_event call.name result ∷ events, ending)

  unfoldable pub call_all :
      List ToolCall → List ChatMessage → Focus → E → E × List AgentRunEvent × CallsEnd
  unfolding after_call maybe_suspend_write
  call_all [] messages f e = (e, [], all_called messages f)
  call_all (call ∷ calls) messages f e =
      let (e₁, result) = k.execute_tool_call call (to_tool_context context) e in
      let (e₂, events, ending) =
        after_call (call_all calls) messages call result f
          (maybe_suspend_write k context now call.name call.arguments result.preview f e₁) in
      (e₂, tool_start call.name ∷ events, ending)

  unfoldable pub save_text : String → Option String → ℕ → ℕ → Focus → E → Stepped E
  unfolding save_then succeeded_step
  save_text words detail p c f e =
      let f' = with_step (succeeded_step now (agent_text words) f.step) f in
      save_then k context now f' (step_event k context now f' success detail ∷ [])
        (λ f''. continues f'' p c) e

  -- The rounds end with a success; an error text of the step stays.
  abbrev pub limit_focus : Focus → Focus
  limit_focus f =
      with_step
        (record (f.step) {
          status = success;
          output = some (agent_text "达到子循环轮数上限，已停止");
          updated_at = now;
        })
        f

  unfoldable pub save_limit : ℕ → ℕ → Focus → E → Stepped E
  unfolding save_then
  save_limit p c f e =
      save_then k context now (limit_focus f)
        (step_event k context now f success (some "达到子循环轮数上限") ∷ []) (λ f'. continues f' p c) e

  -- The events before a later part of the step; what throws drops them all.
  unfoldable pub preceded : List AgentRunEvent → Stepped E → Stepped E
  preceded events (e, evs, continues f p c) = (e, events ++ evs, continues f p c)
  preceded events (e, evs, suspends f) = (e, events ++ evs, suspends f)
  preceded events (e, evs, throws m f) = (e, [], throws m f)

  unfoldable pub next_round :
      (List ChatMessage → ℕ → ℕ → Focus → E → Stepped E)
      → ℕ
      → ℕ
      → E × List AgentRunEvent × CallsEnd
      → Stepped E
  next_round rest p c (e, events, call_suspends f) = (e, events, suspends f)
  next_round rest p c (e, events, all_called messages f) = preceded events (rest messages p c f e)

  unfoldable pub after_result :
      (List ChatMessage → ℕ → ℕ → Focus → E → Stepped E)
      → List ChatMessage
      → String
      → ℕ
      → ℕ
      → Focus
      → E
      → List ToolCall
      → Stepped E
  unfolding call_all save_then succeeded_step
  after_result rest messages words p c f e [] = save_text words none p c f e
  after_result rest messages words p c f e (call ∷ calls) =
      next_round rest p c
        (call_all (call ∷ calls) (messages ++ (assistant_message words (call ∷ calls) ∷ [])) f e)

  unfoldable pub after_turn :
      (List ChatMessage → ℕ → ℕ → Focus → E → Stepped E)
      → List ChatMessage
      → List String
      → ℕ
      → ℕ
      → Focus
      → E
      → Attempt ChatResult
      → Stepped E
  unfolding after_result save_then failed_step
  after_turn rest messages parts p c f e (thrown message) =
      let f' = with_step (failed_step now message f.step) f in
      preceded (map text_part parts)
        (save_then k context now f' (error_event message ∷ []) (λ f''. continues f'' 0 0) e)
  after_turn rest messages parts p c f e (answered result) = preceded (map text_part parts) (
      after_result rest messages (joined parts) (p + result.prompt_tokens)
        (c + result.completion_tokens) f e (calls_of result.tool_calls))

  unfoldable pub agent_rounds :
      RouteInput Json → ℕ → List ChatMessage → ℕ → ℕ → Focus → E → Stepped E
  unfolding after_turn save_then
  agent_rounds input zero messages p c f e = save_limit p c f e
  agent_rounds input (suc n) messages p c f e =
      let (e₁, turn) = k.chat input context.scope messages e in
      after_turn (agent_rounds input n) messages turn.parts p c f e₁ turn.ending

  abbrev with_goal_rules : String → Option String → String
  with_goal_rules base none = base
  with_goal_rules base (some rules) =
      if rules == ""
      then base
      else append base (append "\n\n## 业务规则参考（执行工具时必须遵循；与工具结果冲突时以工具结果为准）\n" rules)

  abbrev pub first_messages : Focus → List ChatMessage
  first_messages f =
      let base =
        or_else f.step.prompt
          (append "你是「" (append f.step.label (append "」域的专家 Agent，负责完成用户目标：" f.plan.goal))) in
      system_message (with_goal_rules base (k.goal_rules f.plan.goal))
      ∷ user_message f.plan.goal
      ∷ []

  unfoldable pub with_config : Focus → E × Attempt (ResolvedAiConfig Json) → Stepped E
  unfolding agent_rounds
  with_config f (e, thrown message) = (e, [], throws message f)
  with_config f (e, answered resolved) =
      agent_rounds (record { requested_model = context.model; resolved = resolved })
        max_agent_step_rounds (first_messages f) 0 0 f e

  unfoldable pub run_agent_step : Focus → E → Stepped E
  unfolding with_config
  run_agent_step f e = with_config f (k.resolve_config e)
