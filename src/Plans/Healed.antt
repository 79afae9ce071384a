-- ===== src/Plans/Healed.antt =====
-- Tool steps of src/brain/agent/task-runner.service.ts that
-- src/brain/agent/self-heal-loop.service.ts heals.
use zxql_ai.Prelude.{
  ℕ, ◌+◌, String, true, false, none, some, [], ◌∷◌, ◌≡◌, refl, ◌∙◌, ap, if-true, if-false,
}
use zxql_ai.Json.{Args}
use zxql_ai.Tools.{ToolResult}
use zxql_ai.Executor.{parsed}
use zxql_ai.Graph.{answered}
use zxql_ai.Plans.{success, PlanStep, ExecutionPlan, SaveResult, saved, tool_data}
use zxql_ai.Plans.Steps.{
  PlanRunContext, HealResult, tool_start, tool_result, Kernel, Focus, whole, StepEnd, continues,
  or_else, with_step, touched, Stepped, no_write, step_event, to_tool_context, after_save,
  maybe_suspend_write,
}
use zxql_ai.Plans.Steps
use zxql_ai.Plans.ToolStep
use zxql_ai.Plans.ToolStep.{tool_call, run_with_args}
use zxql_ai.Plans.Healing
use zxql_ai.Plans.Healing.{
  HealErrorCategory, insufficient_stock, missing_args, timeout, service_unavailable, tool_unknown,
  unknown, HealSuggestion, Healing, Experience, recovered, suggest, retry, with_healing,
}

fixed-advice :
    (step : PlanStep) (c : HealErrorCategory) (args : Args)
    → Healing.fixed (Healing.advice_for step c) args ≡ args
fixed-advice step insufficient_stock args = refl
fixed-advice step missing_args args = refl
fixed-advice step timeout args = refl
fixed-advice step service_unavailable args = refl
fixed-advice step tool_unknown args = refl
fixed-advice step unknown args = refl

-- The step after a healing by its first retry.
abbrev pub healed_focus : ℕ → ToolResult → Focus → Focus
healed_focus now result f =
    with_step
      (record (f.step) {
        status = success;
        output = some (tool_data result.data_value);
        error_text = none;
        retry_count = f.step.retry_count + 2;
        updated_at = now;
      })
      f

module _ {E : Type 0} (k : Kernel E) (context : PlanRunContext) (capture : Experience → E → E)
    (now : ℕ) (name : String) (args : Args) where
  abbrev healer : Kernel E
  healer = with_healing k context capture

  first_retry :
      (step : PlanStep) (error : String) (e₁ e₂ : E) (second : ToolResult)
      → (suggest step error).gives_up ≡ false
      → Healing.execute_again k context capture name args e₁ ≡ (e₂, answered second)
      → step.args ≡ some args
      → second.success ≡ true
      → Healing.heal (Healing.execute_again k context capture name) capture step error e₁
        ≡ Healing.healed_by
            (Healing.execute_again k context capture name)
            capture
            second
            ((suggest step error).action ∷ [])
            e₂
  unfolding Healing.heal Healing.retries Healing.after_retry suggest
  first_retry step error e₁ e₂ second going again held ok =
      let s = suggest step error in
      let held_args = or_else step.args [] in
      let same : Healing.fixed s held_args ≡ args =
        fixed-advice step (Healing.classify error) held_args ∙ ap (λ a. or_else a []) held in
      let execute = Healing.execute_again k context capture name in
      let rest : String → E → E × Healing = λ error' e'.
        Healing.retries execute capture 1 step s retry (Healing.fixed s held_args) error'
          (s.action ∷ []) e' in
      if-false _ _ _ going
      ∙ ap (λ a. Healing.after_retry execute capture rest error (s.action ∷ []) (execute a e₁)) same
      ∙ ap (Healing.after_retry execute capture rest error (s.action ∷ [])) again
      ∙ if-true _ _ _ ok

  -- A tool step whose first run fails with no preview and an error that leaves hope, and whose retry
  -- succeeds, ends as a success with the data of the retry and two more retries counted, once its save
  -- goes through. That holds also where the retry is the preview of a write: no confirmation is made,
  -- the step has no new token, and no event carries the preview or a token.
  pub run_with_args-heals :
      (f : Focus) (e e₁ e₂ e₃ : E) (first second : ToolResult) (plan : ExecutionPlan)
      → f.step.tool_name ≡ some name
      → f.step.args ≡ some args
      → k.execute_tool_call (tool_call k context now name args e) (to_tool_context context) e
        ≡ (e₁, first)
      → first.success ≡ false
      → first.preview ≡ none
      → (suggest f.step (or_else first.error "工具执行失败")).gives_up ≡ false
      → k.execute_tool_call (tool_call k context now name args e₁) (to_tool_context context) e₁
        ≡ (e₂, second)
      → second.success ≡ true
      → k.save now (whole (healed_focus now second f)) (capture (recovered second) e₂)
        ≡ (e₃, saved plan)
      → let f' = healed_focus now second f in
        run_with_args healer context now name args f e ≡ (
          e₃,
          tool_start name
              ∷ tool_result name false none first.error none none
              ∷ tool_result name true second.data_value none none none
              ∷ step_event k context now f' success (some "自愈恢复")
              ∷ [],
          continues (touched now plan f') 0 0,
        )
  unfolding run_with_args maybe_suspend_write ToolStep.after_first ToolStep.healed
      ToolStep.after_heal ToolStep.prefixed ToolStep.settle_heal ToolStep.save_succeeded
      Steps.save_then after_save Steps.succeeded_step Healing.heal_step
  run_with_args-heals f e e₁ e₂ e₃ first second plan named held ran fails plain going again ok put =
      let error = or_else first.error "工具执行失败" in
      let execute = Healing.execute_again k context capture in
      let ran_again : execute name args e₁ ≡ (e₂, answered second) =
        ap (λ (a : E × ToolResult). (a.0, answered a.1)) again in
      let heals = first_retry f.step error e₁ e₂ second going ran_again held ok in
      let same_name : or_else f.step.tool_name "" ≡ name = ap (λ n. or_else n "") named in
      let start : Stepped E → Stepped E =
        ToolStep.prefixed healer context now (tool_start name ∷ []) in
      ap
        (λ (a : E × ToolResult). start (
          ToolStep.after_first healer context now name a.1 f
            (maybe_suspend_write healer context now name (parsed args) a.1.preview f a.0)))
        ran
      ∙ ap
          (λ p. start (
            ToolStep.after_first healer context now name first f
              (maybe_suspend_write healer context now name (parsed args) p f e₁)))
          plain
      ∙ ap start (if-false _ _ _ fails)
      ∙ ap
          (λ n. start (
            ToolStep.healed healer context now name first f (
              let (e', h) = Healing.heal (execute n) capture f.step error e₁ in
              (e', answered (Healing.as_result h)))))
          same_name
      ∙ ap
          (λ (a : E × Healing). start (
            ToolStep.healed healer context now name first f
              (a.0, answered (Healing.as_result a.1))))
          heals
      ∙ ap
          (λ (a : E × SaveResult). start (
            ToolStep.prefixed healer context now
              (tool_result name false none first.error none none ∷ [])
              (after_save healer context now (healed_focus now second f)
                (tool_result name true second.data_value none none none
                  ∷ step_event k context now (healed_focus now second f) success (some "自愈恢复")
                  ∷ [])
                (λ g. continues g 0 0) a)))
          put
