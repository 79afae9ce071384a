-- ===== src/Plans/Previews.antt =====
-- The runs of tools in a plan's run of src/brain/agent/task-runner.service.ts.
use zxql_ai.Prelude.{
  ℕ, zero, suc, String, true, false, none, some, List, [], ◌∷◌, ◌++◌, ◌≡◌, refl, sym, ◌∙◌, ap,
  subst, if-both, string_eq,
}
use zxql_ai.Prelude.Map.{lookup}
use zxql_ai.Json.{Args}
use zxql_ai.Tools.{ToolContext, ToolResult, Tool, Registry}
use zxql_ai.Executor.{ToolCall}
use zxql_ai.Executor.Permission.{permitted, execute_tool_call-keeps}
use zxql_ai.Executor.SameTools.{execute_tool_call-registry}
use zxql_ai.Confirmation
use zxql_ai.Graph.{Attempt, answered, thrown}
use zxql_ai.Plans.{PlanStep}
use zxql_ai.Plans.Steps.{or_else, PlanRunContext, Kernel}
use zxql_ai.Plans.Healing
use zxql_ai.Plans.Healing.{
  HealSuggestion, HealAction, retry, Healing, Experience, heal, heal_step, retries, after_retry,
  with_healing,
}
use zxql_ai.Plans.Upkeep.{Keeping}
use zxql_ai.Plans.UpkeepRun.{run-keeps}
use zxql_ai.Plans.Run.{run}
use zxql_ai.Plans.Compose.{PlanBackend, PlanWiring, no_confirm, unhealed, note_in, plan_services}

module _ {E : Type 0} (P : E → Type 0) (execute : Args → E → E × Attempt ToolResult)
    (capture : Experience → E → E) (executes : (args : Args) (e : E) → P e → P (execute args e).0)
    (captures : (x : Experience) (e : E) → P e → P (capture x e)) where
  after_retry-keeps :
      (rest : String → E → E × Healing) (error : String) (log : List HealAction)
      (a : E × Attempt ToolResult)
      → ((m : String) (e : E) → P e → P (rest m e).0)
      → P a.0
      → P (after_retry execute capture rest error log a).0
  unfolding after_retry
  after_retry-keeps rest error log (e, thrown message) r p = r message e p
  after_retry-keeps rest error log (e, answered result) r p =
      if-both (λ (a : E × Healing). P a.0) result.success _ _ (captures _ e p) (r _ e p)

  retries-keeps :
      (n : ℕ) (step : PlanStep) (s : HealSuggestion) (action : HealAction) (args : Args)
      (error : String) (log : List HealAction) (e : E)
      → P e
      → P (retries execute capture n step s action args error log e).0
  unfolding retries
  retries-keeps zero step s action args error log e p = captures _ e p
  retries-keeps (suc n) step s action args error log e p =
      let args' = Healing.fixed s args in
      let log' = log ++ (action ∷ []) in
      after_retry-keeps (λ m e'. retries execute capture n step s retry args' m log' e') error log'
        (execute args' e) (λ m e' q. retries-keeps n step s retry args' m log' e' q)
        (executes args' e p)

  heal-keeps :
      (step : PlanStep) (error : String) (e : E) → P e → P (heal execute capture step error e).0
  unfolding heal
  heal-keeps step error e p =
      let s = Healing.suggest step error in
      if-both (λ (a : E × Healing). P a.0) s.gives_up _ _ (captures _ e p)
        (retries-keeps Healing.max_heal_retries step s s.action (or_else step.args []) error [] e p)

with_healing-Keeping :
    {E : Type 0} (k : Kernel E) (P : E → Type 0) (context : PlanRunContext)
    (capture : Experience → E → E)
    → Keeping k P
    → ((x : Experience) (e : E) → P e → P (capture x e))
    → Keeping (with_healing k context capture) P
with_healing-Keeping k P context capture h captures = record {
  saves = h.saves;
  fills = h.fills;
  executes = h.executes;
  heals = λ step goal error e p.
      unfold heal_step in
      heal-keeps P (Healing.execute_again k context capture (Healing.tool_of step)) capture
        (λ args e' q. h.executes _ _ e' q) captures step error e p;
  resolves = h.resolves;
  chats = h.chats;
  creates = h.creates;
}

-- The tools are `tools`, and what they have done has the property.
abbrev Within : {S R M W I : Type 0} → Registry W → (W → Type 0) → PlanBackend S R M W I → Type 0
Within tools P b = (b.confirmations.executor.registry ≡ tools) × P b.confirmations.executor.world

module _ {S R M W I H : Type 0} (w : PlanWiring S R M W I H) (now : ℕ) (tools : Registry W)
    (P : W → Type 0)
    (kept : (name : String) (tool : Tool W) (args : Args) (c : ToolContext) (x : W)
      → lookup name tools ≡ some tool
      → permitted name tool.is_write_operation args c
          (record { allow_confirm = false; idempotency_key = none })
        ≡ true
      → P x
      → P (tool.execute args c x).0) where
  create-executor :
      (input : Confirmation.CreateConfirmationInput) (b : PlanBackend S R M W I)
      → ((unhealed w now).create_write input b).0.confirmations.executor ≡ b.confirmations.executor
  unfolding Confirmation.create
  create-executor input b = refl

  execute-Within :
      (call : ToolCall) (c : ToolContext) (b : PlanBackend S R M W I)
      → Within tools P b
      → Within tools P ((unhealed w now).execute_tool_call call c b).0
  execute-Within call c b (same, p) = (
    execute_tool_call-registry w.gate w.decimal now call c no_confirm b.confirmations.executor
        ∙ same,
    execute_tool_call-keeps w.gate w.decimal P now call c no_confirm b.confirmations.executor
        (λ tool args there ok.
          kept call.name tool args c _ (ap (lookup call.name) (sym same) ∙ there) ok p)
        p,
  )

  unhealed-Keeping : Keeping (unhealed w now) (Within tools P)
  unhealed-Keeping = record {
    saves = λ later plan b p. p;
    fills = λ step goal b p. p;
    executes = execute-Within;
    heals = λ step goal error b p. p;
    resolves = λ b p. p;
    chats = λ input scope messages b p. p;
    creates = λ input b p.
        subst (λ x. (x.registry ≡ tools) × P x.world) (sym (create-executor input b)) p;
  }

-- Over services made of the components, a run of a plan does to the world only what permitted runs of
-- registered tools without the right to confirm do: whatever the plan, the models and the planner say
-- and whatever the healing retries, a tool that writes never runs with `confirm: true`, no tool runs
-- without a tenant, and for a customer only tools of the customer's lists run. A property of the world
-- that such runs keep is kept by the whole run.
pub run-keeps_world :
    {S R M W I H : Type 0} (w : PlanWiring S R M W I H) (context : PlanRunContext) (now id : ℕ)
    (tenant : String) (b : PlanBackend S R M W I) (P : W → Type 0)
    → ((name : String) (tool : Tool W) (args : Args) (c : ToolContext) (x : W)
        → lookup name b.confirmations.executor.registry ≡ some tool
        → permitted name tool.is_write_operation args c
            (record { allow_confirm = false; idempotency_key = none })
          ≡ true
        → P x
        → P (tool.execute args c x).0)
    → P b.confirmations.executor.world
    → P (run (plan_services w now context) context now id tenant b).0.confirmations.executor.world
run-keeps_world w context now id tenant b P kept p =
    let tools = b.confirmations.executor.registry in
    let services =
      with_healing-Keeping (unhealed w now) (Within tools P) context (note_in w now)
        (unhealed-Keeping w now tools P kept) (λ x b' q. q) in
    (run-keeps (plan_services w now context) (Within tools P) services context now id tenant b
      (refl, p)).1
