-- ===== src/Plans/Upkeep.antt =====
-- What a step of src/brain/agent/task-runner.service.ts keeps of the state of the services.
use zxql_ai.Prelude.{
  ℕ, zero, suc, String, Option, none, some, List, [], ◌∷◌, if-both, ◌==◌, string_eq,
}
use zxql_ai.Json.{Json, Args}
use zxql_ai.Tools.{ToolContext, ToolResult, ToolScope}
use zxql_ai.ProviderRouter.{ResolvedAiConfig, RouteInput}
use zxql_ai.Executor.{ToolCall, Arguments, parsed, malformed}
use zxql_ai.Confirmation.{PendingConfirmation, CreateConfirmationInput}
use zxql_ai.Graph.{Attempt, answered, thrown, ChatMessage, ChatResult}
use zxql_ai.Plans.{PlanStep, ExecutionPlan, SaveResult, saved, save_conflict, tool_data, agent_text}
use zxql_ai.Plans.Steps
use zxql_ai.Plans.Steps.{
  PlanRunContext, HealResult, AgentRunEvent, Kernel, Focus, StepEnd, continues, suspends, throws,
  Stepped, SuspendEnd, no_write, is_suspended, not_created, to_tool_context,
}
use zxql_ai.Plans.ToolStep
use zxql_ai.Plans.ToolStep.{run_tool_step}
use zxql_ai.Plans.AgentStep
use zxql_ai.Plans.AgentStep.{CallsEnd, all_called, call_suspends, run_agent_step}

-- Every operation of the services keeps a property of their state.
pub record Keeping {E : Type 0} (k : Kernel E) (P : E → Type 0) : Type 0 where
  pub saves : (now : ℕ) (plan : ExecutionPlan) (e : E) → P e → P (k.save now plan e).0
  pub fills : (step : PlanStep) (goal : String) (e : E) → P e → P (k.fill_step_args step goal e).0
  pub executes :
      (call : ToolCall) (context : ToolContext) (e : E)
      → P e
      → P (k.execute_tool_call call context e).0
  pub heals : (step : PlanStep) (goal error : String) (e : E) → P e → P (k.heal step goal error e).0
  pub resolves : (e : E) → P e → P (k.resolve_config e).0
  pub chats :
      (input : RouteInput Json) (scope : Option ToolScope) (messages : List ChatMessage) (e : E)
      → P e
      → P (k.chat input scope messages e).0
  pub creates : (input : CreateConfirmationInput) (e : E) → P e → P (k.create_write input e).0

module _ {E : Type 0} (k : Kernel E) (P : E → Type 0) (h : Keeping k P) (context : PlanRunContext)
    (now : ℕ) where
  after_save-keeps :
      (f : Focus) (events : List AgentRunEvent) (next : Focus → StepEnd) (a : E × SaveResult)
      → P a.0
      → P (Steps.after_save k context now f events next a).0
  unfolding Steps.after_save
  after_save-keeps f events next (e, saved plan) p = p
  after_save-keeps f events next (e, save_conflict plan current) p = p

  pub save_then-keeps :
      (f : Focus) (events : List AgentRunEvent) (next : Focus → StepEnd) (e : E)
      → P e
      → P (Steps.save_then k context now f events next e).0
  unfolding Steps.save_then
  save_then-keeps f events next e p =
      after_save-keeps f events next (k.save now (Steps.whole f) e)
        (h.saves now (Steps.whole f) e p)

  saved_suspended-keeps :
      (f : Focus) (a : E × SaveResult) → P a.0 → P (Steps.saved_suspended k context now f a).0
  saved_suspended-keeps f (e, saved plan) p = p
  saved_suspended-keeps f (e, save_conflict plan current) p = p

  created-keeps :
      (preview : Option Json) (f : Focus) (a : E × Attempt PendingConfirmation)
      → P a.0
      → P (Steps.created k context now preview f a).0
  created-keeps preview f (e, thrown message) p = p
  created-keeps preview f (e, answered c) p =
      let f' = Steps.suspended_focus k context now c preview f in
      saved_suspended-keeps f' (k.save now (Steps.whole f') e) (h.saves now (Steps.whole f') e p)

  maybe_suspend_write-keeps :
      (name : String) (args : Arguments) (preview : Option Json) (f : Focus) (e : E)
      → P e
      → P (Steps.maybe_suspend_write k context now name args preview f e).0
  unfolding Steps.maybe_suspend_write
  maybe_suspend_write-keeps name args none f e p = p
  maybe_suspend_write-keeps name (malformed message head) (some preview) f e p = p
  maybe_suspend_write-keeps name (parsed args) (some preview) f e p =
      let input = Steps.write_input k context now name args preview f in
      created-keeps (some preview) f (k.create_write input e) (h.creates input e p)

  prefixed-keeps :
      (events : List AgentRunEvent) (a : Stepped E)
      → P a.0
      → P (ToolStep.prefixed k context now events a).0
  unfolding ToolStep.prefixed
  prefixed-keeps events (e, evs, continues f t c) p = p
  prefixed-keeps events (e, evs, suspends f) p = p
  prefixed-keeps events (e, evs, throws message f) p = p

  save_failed-keeps :
      (message : String) (detail : Option String) (f : Focus) (e : E)
      → P e
      → P (ToolStep.save_failed k context now message detail f e).0
  unfolding ToolStep.save_failed
  save_failed-keeps message detail f e p =
      save_then-keeps (Steps.with_step (Steps.failed_step now message f.step) f) _
        (ToolStep.goes_on k context now) e p

  save_succeeded-keeps :
      (name : String) (result : ToolResult) (detail : Option String) (f : Focus) (e : E)
      → P e
      → P (ToolStep.save_succeeded k context now name result detail f e).0
  unfolding ToolStep.save_succeeded
  save_succeeded-keeps name result detail f e p =
      save_then-keeps
        (Steps.with_step (Steps.succeeded_step now (tool_data result.data_value) f.step) f) _
        (ToolStep.goes_on k context now) e p

  settle_heal-keeps :
      (name : String) (first : ToolResult) (heal : HealResult) (f : Focus) (e : E)
      (result : Option ToolResult)
      → P e
      → P (ToolStep.settle_heal k context now name first heal f e result).0
  unfolding ToolStep.settle_heal
  settle_heal-keeps name first heal f e none p = save_failed-keeps _ _ f e p
  settle_heal-keeps name first heal f e (some result) p =
      if-both (λ (a : Stepped E). P a.0) heal.ok _ _ (save_succeeded-keeps name result _ f e p)
        (save_failed-keeps _ _ f e p)

  healed-keeps :
      (name : String) (first : ToolResult) (f : Focus) (a : E × Attempt HealResult)
      → P a.0
      → P (ToolStep.healed k context now name first f a).0
  unfolding ToolStep.healed ToolStep.after_heal
  healed-keeps name first f (e, thrown message) p = p
  healed-keeps name first f (e, answered heal) p =
      prefixed-keeps _ _ (settle_heal-keeps name first heal _ e heal.result p)

  after_first-keeps :
      (name : String) (first : ToolResult) (f : Focus) (a : E × SuspendEnd)
      → P a.0
      → P (ToolStep.after_first k context now name first f a).0
  unfolding ToolStep.after_first
  after_first-keeps name first f (e, is_suspended f') p = p
  after_first-keeps name first f (e, not_created message f') p =
      save_then-keeps (ToolStep.no_token_focus k context now f') _ (ToolStep.goes_on k context now)
        e p
  after_first-keeps name first f (e, no_write) p =
      if-both (λ (a : Stepped E). P a.0) first.success _ _
        (save_succeeded-keeps name first none f e p)
        (healed-keeps name first f _ (h.heals f.step f.plan.goal _ e p))

  run_with_args-keeps :
      (name : String) (args : Args) (f : Focus) (e : E)
      → P e
      → P (ToolStep.run_with_args k context now name args f e).0
  unfolding ToolStep.run_with_args
  run_with_args-keeps name args f e p =
      let call = ToolStep.tool_call k context now name args e in
      let ran = k.execute_tool_call call (to_tool_context context) e in
      let asked =
        Steps.maybe_suspend_write k context now name (parsed args) ran.1.preview f ran.0 in
      prefixed-keeps _ (ToolStep.after_first k context now name ran.1 f asked) (
        after_first-keeps name ran.1 f asked (
          maybe_suspend_write-keeps name (parsed args) ran.1.preview f ran.0
            (h.executes call (to_tool_context context) e p)))

  filled-keeps :
      (name : String) (f : Focus) (a : E × Attempt Args)
      → P a.0
      → P (ToolStep.filled k context now name f a).0
  unfolding ToolStep.filled
  filled-keeps name f (e, thrown message) p = p
  filled-keeps name f (e, answered args) p = run_with_args-keeps name args _ e p

  fill_then_run-keeps :
      (name : String) (args : Args) (f : Focus) (e : E)
      → P e
      → P (ToolStep.fill_then_run k context now name args f e).0
  unfolding ToolStep.fill_then_run
  fill_then_run-keeps name [] f e p = filled-keeps name f _ (h.fills f.step f.plan.goal e p)
  fill_then_run-keeps name (a ∷ rest) f e p = run_with_args-keeps name (a ∷ rest) f e p

  pub run_tool_step-keeps :
      (name : Option String) (f : Focus) (e : E) → P e → P (run_tool_step k context now name f e).0
  unfolding run_tool_step
  run_tool_step-keeps none f e p = save_failed-keeps _ _ f e p
  run_tool_step-keeps (some name) f e p =
      if-both (λ (a : Stepped E). P a.0) (name == "") _ _ (save_failed-keeps _ _ f e p)
        (fill_then_run-keeps name _ f e p)

  after_call-keeps :
      (rest : List ChatMessage → Focus → E → E × List AgentRunEvent × CallsEnd)
      (messages : List ChatMessage) (call : ToolCall) (result : ToolResult) (f : Focus)
      (a : E × SuspendEnd)
      → ((ms : List ChatMessage) (g : Focus) (e : E) → P e → P (rest ms g e).0)
      → P a.0
      → P (AgentStep.after_call k context now rest messages call result f a).0
  unfolding AgentStep.after_call
  after_call-keeps rest messages call result f (e, is_suspended f') r p = p
  after_call-keeps rest messages call result f (e, not_created message f') r p = r _ f' e p
  after_call-keeps rest messages call result f (e, no_write) r p = r _ f e p

  call_all-keeps :
      (calls : List ToolCall) (messages : List ChatMessage) (f : Focus) (e : E)
      → P e
      → P (AgentStep.call_all k context now calls messages f e).0
  unfolding AgentStep.call_all
  call_all-keeps [] messages f e p = p
  call_all-keeps (call ∷ calls) messages f e p =
      let ran = k.execute_tool_call call (to_tool_context context) e in
      after_call-keeps (AgentStep.call_all k context now calls) messages call ran.1 f
        (Steps.maybe_suspend_write k context now call.name call.arguments ran.1.preview f ran.0)
        (call_all-keeps calls)
        (maybe_suspend_write-keeps call.name call.arguments ran.1.preview f ran.0
          (h.executes call (to_tool_context context) e p))

  preceded-keeps :
      (events : List AgentRunEvent) (a : Stepped E)
      → P a.0
      → P (AgentStep.preceded k context now events a).0
  unfolding AgentStep.preceded
  preceded-keeps events (e, evs, continues f t c) p = p
  preceded-keeps events (e, evs, suspends f) p = p
  preceded-keeps events (e, evs, throws message f) p = p

  next_round-keeps :
      (rest : List ChatMessage → ℕ → ℕ → Focus → E → Stepped E) (t c : ℕ)
      (a : E × List AgentRunEvent × CallsEnd)
      → ((ms : List ChatMessage) (t c : ℕ) (g : Focus) (e : E) → P e → P (rest ms t c g e).0)
      → P a.0
      → P (AgentStep.next_round k context now rest t c a).0
  unfolding AgentStep.next_round
  next_round-keeps rest t c (e, events, call_suspends f) r p = p
  next_round-keeps rest t c (e, events, all_called messages f) r p =
      preceded-keeps events _ (r messages t c f e p)

  after_result-keeps :
      (rest : List ChatMessage → ℕ → ℕ → Focus → E → Stepped E) (messages : List ChatMessage)
      (words : String) (t c : ℕ) (f : Focus) (e : E) (calls : List ToolCall)
      → ((ms : List ChatMessage) (t c : ℕ) (g : Focus) (e : E) → P e → P (rest ms t c g e).0)
      → P e
      → P (AgentStep.after_result k context now rest messages words t c f e calls).0
  unfolding AgentStep.after_result AgentStep.save_text
  after_result-keeps rest messages words t c f e [] r p =
      save_then-keeps (Steps.with_step (Steps.succeeded_step now (agent_text words) f.step) f) _
        (λ g. continues g t c) e p
  after_result-keeps rest messages words t c f e (call ∷ calls) r p =
      next_round-keeps rest t c _ r (call_all-keeps (call ∷ calls) _ f e p)

  after_turn-keeps :
      (rest : List ChatMessage → ℕ → ℕ → Focus → E → Stepped E) (messages : List ChatMessage)
      (parts : List String) (t c : ℕ) (f : Focus) (e : E) (ending : Attempt ChatResult)
      → ((ms : List ChatMessage) (t c : ℕ) (g : Focus) (e : E) → P e → P (rest ms t c g e).0)
      → P e
      → P (AgentStep.after_turn k context now rest messages parts t c f e ending).0
  unfolding AgentStep.after_turn
  after_turn-keeps rest messages parts t c f e (thrown message) r p = preceded-keeps _ _ (
      save_then-keeps (Steps.with_step (Steps.failed_step now message f.step) f) _
        (λ g. continues g 0 0) e p)
  after_turn-keeps rest messages parts t c f e (answered result) r p =
      preceded-keeps _ _ (after_result-keeps rest messages _ _ _ f e _ r p)

  agent_rounds-keeps :
      (input : RouteInput Json) (n : ℕ) (messages : List ChatMessage) (t c : ℕ) (f : Focus) (e : E)
      → P e
      → P (AgentStep.agent_rounds k context now input n messages t c f e).0
  unfolding AgentStep.agent_rounds AgentStep.save_limit
  agent_rounds-keeps input zero messages t c f e p =
      save_then-keeps (AgentStep.limit_focus k context now f) _ (λ g. continues g t c) e p
  agent_rounds-keeps input (suc n) messages t c f e p =
      after_turn-keeps _ messages _ t c f _ _ (agent_rounds-keeps input n)
        (h.chats input context.scope messages e p)

  with_config-keeps :
      (f : Focus) (a : E × Attempt (ResolvedAiConfig Json))
      → P a.0
      → P (AgentStep.with_config k context now f a).0
  unfolding AgentStep.with_config
  with_config-keeps f (e, thrown message) p = p
  with_config-keeps f (e, answered resolved) p =
      agent_rounds-keeps _ AgentStep.max_agent_step_rounds _ 0 0 f e p

  pub run_agent_step-keeps : (f : Focus) (e : E) → P e → P (run_agent_step k context now f e).0
  unfolding run_agent_step
  run_agent_step-keeps f e p = with_config-keeps f (k.resolve_config e) (h.resolves e p)
