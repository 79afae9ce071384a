-- ===== src/Plans/KeptAgent.antt =====
-- What the agent steps of src/brain/agent/task-runner.service.ts leave of a plan.
use zxql_ai.Prelude.{ℕ, zero, suc, String, none, List, [], ◌∷◌, ◌++◌}
use zxql_ai.Json.{Json}
use zxql_ai.ProviderRouter.{ResolvedAiConfig, RouteInput}
use zxql_ai.Tools.{ToolResult}
use zxql_ai.Executor.{ToolCall}
use zxql_ai.Graph.{Attempt, answered, thrown, ChatMessage, ChatResult}
use zxql_ai.Plans.{PlanStep, agent_text}
use zxql_ai.Plans.Steps
use zxql_ai.Plans.Steps.{
  PlanRunContext, AgentRunEvent, Kernel, Focus, StepEnd, continues, suspends, throws, Stepped,
  SuspendEnd, no_write, is_suspended, not_created,
}
use zxql_ai.Plans.AgentStep
use zxql_ai.Plans.AgentStep.{CallsEnd, all_called, call_suspends}
use zxql_ai.Plans.Kept.{
  InPlace, EndInPlace, SuspendInPlace, save_then-InPlace, maybe_suspend_write-InPlace,
  continues-InPlace,
}

module _ (xs : List PlanStep) (x : PlanStep) (ls : List PlanStep) where
  abbrev Placed : Focus → Type 0
  Placed f = InPlace xs x ls f

  abbrev Ends : {E : Type 0} → Stepped E → Type 0
  Ends s = EndInPlace xs x ls s

  unfoldable CallsInPlace : {E : Type 0} → E × List AgentRunEvent × CallsEnd → Type 0
  CallsInPlace (e, events, all_called messages f) = Placed f
  CallsInPlace (e, events, call_suspends f) = Placed f

  module _ {E : Type 0} (k : Kernel E) (context : PlanRunContext) (now : ℕ) where
    with_events :
        (e : E) (events more : List AgentRunEvent) (end : CallsEnd)
        → CallsInPlace (e, events, end)
        → CallsInPlace (e, more, end)
    unfolding CallsInPlace
    with_events e events more (all_called messages f) h = h
    with_events e events more (call_suspends f) h = h

    after_call-InPlace :
        (rest : List ChatMessage → Focus → E → E × List AgentRunEvent × CallsEnd)
        (messages : List ChatMessage) (call : ToolCall) (result : ToolResult) (f : Focus)
        (a : E × SuspendEnd)
        → ((ms : List ChatMessage) (g : Focus) (e : E) → Placed g → CallsInPlace (rest ms g e))
        → Placed f
        → SuspendInPlace xs x ls a
        → CallsInPlace (AgentStep.after_call k context now rest messages call result f a)
    unfolding AgentStep.after_call
    after_call-InPlace rest messages call result f (e, is_suspended f') r h s =
        unfold CallsInPlace in (unfold SuspendInPlace in s)
    after_call-InPlace rest messages call result f (e, not_created message f') r h s =
        let placed : Placed f' = unfold SuspendInPlace in s in
        with_events _ _ _ _
          (r (messages ++ (AgentStep.result_message k context now call result ∷ [])) f' e placed)
    after_call-InPlace rest messages call result f (e, no_write) r h s =
        with_events _ _ _ _
          (r (messages ++ (AgentStep.result_message k context now call result ∷ [])) f e h)

    call_all-InPlace :
        (calls : List ToolCall) (messages : List ChatMessage) (f : Focus) (e : E)
        → Placed f
        → CallsInPlace (AgentStep.call_all k context now calls messages f e)
    unfolding AgentStep.call_all
    call_all-InPlace [] messages f e h = unfold CallsInPlace in h
    call_all-InPlace (call ∷ calls) messages f e h =
        let ran = k.execute_tool_call call (Steps.to_tool_context context) e in
        with_events _ _ _ _ (
          after_call-InPlace (AgentStep.call_all k context now calls) messages call ran.1 f
            (Steps.maybe_suspend_write k context now call.name call.arguments ran.1.preview f ran.0)
            (call_all-InPlace calls) h
            (maybe_suspend_write-InPlace xs x ls k context now call.name call.arguments
              ran.1.preview f ran.0 h))

    preceded-InPlace :
        (events : List AgentRunEvent) (s : Stepped E)
        → Ends s
        → Ends (AgentStep.preceded k context now events s)
    unfolding EndInPlace AgentStep.preceded
    preceded-InPlace events (e, evs, continues f p c) h = h
    preceded-InPlace events (e, evs, suspends f) h = h
    preceded-InPlace events (e, evs, throws message f) h = h

    next_round-InPlace :
        (rest : List ChatMessage → ℕ → ℕ → Focus → E → Stepped E) (p c : ℕ)
        (a : E × List AgentRunEvent × CallsEnd)
        → ((ms : List ChatMessage) (p c : ℕ) (g : Focus) (e : E)
            → Placed g
            → Ends (rest ms p c g e))
        → CallsInPlace a
        → Ends (AgentStep.next_round k context now rest p c a)
    unfolding AgentStep.next_round
    next_round-InPlace rest p c (e, events, call_suspends f) r h =
        unfold EndInPlace in (unfold CallsInPlace in h)
    next_round-InPlace rest p c (e, events, all_called messages f) r h =
        let placed : Placed f = unfold CallsInPlace in h in
        preceded-InPlace events (rest messages p c f e) (r messages p c f e placed)

    save_text-InPlace :
        (words : String) (p c : ℕ) (f : Focus) (e : E)
        → Placed f
        → Ends (AgentStep.save_text k context now words none p c f e)
    unfolding AgentStep.save_text Steps.succeeded_step
    save_text-InPlace words p c f e h =
        save_then-InPlace xs x ls k context now
          (Steps.with_step (Steps.succeeded_step now (agent_text words) f.step) f) _ _ e h
          (λ g i e'. continues-InPlace xs x ls k context now e' _ g p c i)

    after_result-InPlace :
        (rest : List ChatMessage → ℕ → ℕ → Focus → E → Stepped E) (messages : List ChatMessage)
        (words : String) (p c : ℕ) (f : Focus) (e : E) (calls : List ToolCall)
        → ((ms : List ChatMessage) (p c : ℕ) (g : Focus) (e : E)
            → Placed g
            → Ends (rest ms p c g e))
        → Placed f
        → Ends (AgentStep.after_result k context now rest messages words p c f e calls)
    unfolding AgentStep.after_result
    after_result-InPlace rest messages words p c f e [] r h = save_text-InPlace words p c f e h
    after_result-InPlace rest messages words p c f e (call ∷ calls) r h =
        next_round-InPlace rest p c _ r (call_all-InPlace (call ∷ calls) _ f e h)

    after_turn-InPlace :
        (rest : List ChatMessage → ℕ → ℕ → Focus → E → Stepped E) (messages : List ChatMessage)
        (parts : List String) (p c : ℕ) (f : Focus) (e : E) (a : Attempt ChatResult)
        → ((ms : List ChatMessage) (p c : ℕ) (g : Focus) (e : E)
            → Placed g
            → Ends (rest ms p c g e))
        → Placed f
        → Ends (AgentStep.after_turn k context now rest messages parts p c f e a)
    unfolding AgentStep.after_turn Steps.failed_step
    after_turn-InPlace rest messages parts p c f e (thrown message) r h = preceded-InPlace _ _ (
        save_then-InPlace xs x ls k context now
          (Steps.with_step (Steps.failed_step now message f.step) f) _ _ e h
          (λ g i e'. continues-InPlace xs x ls k context now e' _ g 0 0 i))
    after_turn-InPlace rest messages parts p c f e (answered result) r h =
        preceded-InPlace _ _ (after_result-InPlace rest messages _ _ _ f e _ r h)

    agent_rounds-InPlace :
        (input : RouteInput Json) (n : ℕ) (messages : List ChatMessage) (p c : ℕ) (f : Focus)
        (e : E)
        → Placed f
        → Ends (AgentStep.agent_rounds k context now input n messages p c f e)
    unfolding AgentStep.agent_rounds AgentStep.save_limit
    agent_rounds-InPlace input zero messages p c f e h =
        save_then-InPlace xs x ls k context now (AgentStep.limit_focus k context now f) _ _ e h
          (λ g i e'. continues-InPlace xs x ls k context now e' _ g p c i)
    agent_rounds-InPlace input (suc n) messages p c f e h =
        after_turn-InPlace (AgentStep.agent_rounds k context now input n) messages _ p c f _ _
          (agent_rounds-InPlace input n) h

    with_config-InPlace :
        (f : Focus) (a : E × Attempt (ResolvedAiConfig Json))
        → Placed f
        → Ends (AgentStep.with_config k context now f a)
    unfolding AgentStep.with_config
    with_config-InPlace f (e, thrown message) h = unfold EndInPlace in h
    with_config-InPlace f (e, answered resolved) h =
        agent_rounds-InPlace _ AgentStep.max_agent_step_rounds _ 0 0 f e h

    pub run_agent_step-InPlace :
        (f : Focus) (e : E) → Placed f → Ends (AgentStep.run_agent_step k context now f e)
    unfolding AgentStep.run_agent_step
    run_agent_step-InPlace f e h = with_config-InPlace f (k.resolve_config e) h
