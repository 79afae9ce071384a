-- ===== src/Plans/Kept.antt =====
-- What the steps of src/brain/agent/task-runner.service.ts leave of a plan.
use zxql_ai.Prelude.{
  ℕ, String, true, Option, none, some, List, [], ◌∷◌, ◌++◌, map, ◌≡◌, refl, if-both, ◌==◌,
  string_eq,
}
use zxql_ai.Json.{Json, Args}
use zxql_ai.Tools.{ToolResult}
use zxql_ai.Executor.{Arguments, parsed, malformed}
use zxql_ai.Confirmation.{PendingConfirmation}
use zxql_ai.Graph.{Attempt, answered, thrown}
use zxql_ai.Plans.{tool_data, PlanStep, ExecutionPlan, SaveResult, saved, save_conflict, touch_step}
use zxql_ai.Plans.Run.{is_passed}
use zxql_ai.Plans.Steps
use zxql_ai.Plans.Steps.{
  PlanRunContext, HealResult, AgentRunEvent, Kernel, Focus, StepEnd, continues, suspends, throws,
  touched, whole, Stepped, SuspendEnd, no_write, is_suspended, not_created,
}
use zxql_ai.Plans.ToolStep

-- A step has its id, and one that was passed is as it was but for its time.
abbrev pub KeptStep : PlanStep → PlanStep → Type 0
KeptStep x y = (y.id ≡ x.id) × (is_passed x ≡ true → touch_step 0 y ≡ touch_step 0 x)

-- The steps of a plan, one by one.
pub data Kept : List PlanStep → List PlanStep → Type 0 where
  none_left : Kept [] []
  one_more :
      {x y : PlanStep} {xs ys : List PlanStep} → KeptStep x y → Kept xs ys → Kept (x ∷ xs) (y ∷ ys)

pub Kept-append :
    {xs ys vs ws : List PlanStep} → Kept xs ys → Kept vs ws → Kept (xs ++ vs) (ys ++ ws)
Kept-append none_left b = b
Kept-append (one_more r a) b = one_more r (Kept-append a b)

pub Kept-touch : (now : ℕ) {xs ys : List PlanStep} → Kept xs ys → Kept xs (map (touch_step now) ys)
Kept-touch now none_left = none_left
Kept-touch now (one_more (i, p) a) = one_more (i, p) (Kept-touch now a)

pub Kept-self : (xs : List PlanStep) → Kept xs xs
Kept-self [] = none_left
Kept-self (x ∷ xs) = one_more (refl, λ _. refl) (Kept-self xs)

module _ (xs : List PlanStep) (x : PlanStep) (ls : List PlanStep) where
  -- A focus on a step that runs.
  abbrev pub InPlace : Focus → Type 0
  InPlace f = Kept xs f.before × (f.step.id ≡ x.id) × Kept ls f.later

  pub touched-InPlace :
      (now : ℕ) (plan : ExecutionPlan) (f : Focus) → InPlace f → InPlace (touched now plan f)
  touched-InPlace now plan f (a, i, b) = (Kept-touch now a, i, Kept-touch now b)

  unfoldable pub EndInPlace : {E : Type 0} → Stepped E → Type 0
  EndInPlace (e, events, continues f p c) = InPlace f
  EndInPlace (e, events, suspends f) = InPlace f
  EndInPlace (e, events, throws message f) = InPlace f

  unfoldable pub SuspendInPlace : {E : Type 0} → E × SuspendEnd → Type 0
  SuspendInPlace (e, no_write) = Unit {0}
  SuspendInPlace (e, is_suspended f) = InPlace f
  SuspendInPlace (e, not_created message f) = InPlace f

  module _ {E : Type 0} (k : Kernel E) (context : PlanRunContext) (now : ℕ) where
    after_save-InPlace :
        (f : Focus) (events : List AgentRunEvent) (next : Focus → StepEnd) (a : E × SaveResult)
        → InPlace f
        → ((g : Focus) → InPlace g → (e : E) → EndInPlace (e, events, next g))
        → EndInPlace (Steps.after_save k context now f events next a)
    unfolding Steps.after_save
    after_save-InPlace f events next (e, saved plan) h n =
        n (touched now plan f) (touched-InPlace now plan f h) e
    after_save-InPlace f events next (e, save_conflict plan current) h n =
        unfold EndInPlace in touched-InPlace now plan f h

    pub save_then-InPlace :
        (f : Focus) (events : List AgentRunEvent) (next : Focus → StepEnd) (e : E)
        → InPlace f
        → ((g : Focus) → InPlace g → (e : E) → EndInPlace (e, events, next g))
        → EndInPlace (Steps.save_then k context now f events next e)
    unfolding Steps.save_then
    save_then-InPlace f events next e h n =
        after_save-InPlace f events next (k.save now (whole f) e) h n

    saved_suspended-InPlace :
        (f : Focus) (a : E × SaveResult)
        → InPlace f
        → SuspendInPlace (Steps.saved_suspended k context now f a)
    unfolding SuspendInPlace
    saved_suspended-InPlace f (e, saved plan) h = touched-InPlace now plan f h
    saved_suspended-InPlace f (e, save_conflict plan current) h = touched-InPlace now plan f h

    created-InPlace :
        (preview : Option Json) (f : Focus) (a : E × Attempt PendingConfirmation)
        → InPlace f
        → SuspendInPlace (Steps.created k context now preview f a)
    created-InPlace preview f (e, thrown message) h = unfold SuspendInPlace in h
    created-InPlace preview f (e, answered c) h =
        let g = Steps.suspended_focus k context now c preview f in
        saved_suspended-InPlace g (k.save now (whole g) e) h

    pub maybe_suspend_write-InPlace :
        (name : String) (args : Arguments) (preview : Option Json) (f : Focus) (e : E)
        → InPlace f
        → SuspendInPlace (Steps.maybe_suspend_write k context now name args preview f e)
    unfolding Steps.maybe_suspend_write
    maybe_suspend_write-InPlace name args none f e h = unfold SuspendInPlace in tt
    maybe_suspend_write-InPlace name (malformed message head) (some preview) f e h =
        unfold SuspendInPlace in h
    maybe_suspend_write-InPlace name (parsed args) (some preview) f e h = search (created-InPlace)

    pub continues-InPlace :
        (e : E) (events : List AgentRunEvent) (f : Focus) (p c : ℕ)
        → InPlace f
        → EndInPlace (e, events, continues f p c)
    unfolding EndInPlace
    continues-InPlace e events f p c h = h

    prefixed-InPlace :
        (events : List AgentRunEvent) (s : Stepped E)
        → EndInPlace s
        → EndInPlace (ToolStep.prefixed k context now events s)
    unfolding EndInPlace ToolStep.prefixed
    prefixed-InPlace events (e, evs, continues f p c) h = h
    prefixed-InPlace events (e, evs, suspends f) h = h
    prefixed-InPlace events (e, evs, throws message f) h = h

    save_failed-InPlace :
        (message : String) (detail : Option String) (f : Focus) (e : E)
        → InPlace f
        → EndInPlace (ToolStep.save_failed k context now message detail f e)
    unfolding Steps.failed_step ToolStep.save_failed
    save_failed-InPlace message detail f e h =
        save_then-InPlace (Steps.with_step (Steps.failed_step now message f.step) f) _ _ e h
          (λ g i e'. continues-InPlace e' _ g 0 0 i)

    save_succeeded-InPlace :
        (name : String) (result : ToolResult) (detail : Option String) (f : Focus) (e : E)
        → InPlace f
        → EndInPlace (ToolStep.save_succeeded k context now name result detail f e)
    unfolding Steps.succeeded_step ToolStep.save_succeeded
    save_succeeded-InPlace name result detail f e h =
        save_then-InPlace
          (Steps.with_step (Steps.succeeded_step now (tool_data result.data_value) f.step) f) _ _ e
          h (λ g i e'. continues-InPlace e' _ g 0 0 i)

    settle_heal-InPlace :
        (name : String) (first : ToolResult) (heal : HealResult) (f : Focus) (e : E)
        (o : Option ToolResult)
        → InPlace f
        → EndInPlace (ToolStep.settle_heal k context now name first heal f e o)
    unfolding ToolStep.settle_heal
    settle_heal-InPlace name first heal f e none h = save_failed-InPlace _ _ f e h
    settle_heal-InPlace name first heal f e (some result) h =
        if-both EndInPlace heal.ok _ _ (save_succeeded-InPlace name result _ f e h)
          (save_failed-InPlace _ _ f e h)

    after_heal-InPlace :
        (name : String) (first : ToolResult) (heal : HealResult) (f : Focus) (e : E)
        → InPlace f
        → EndInPlace (ToolStep.after_heal k context now name first heal f e)
    unfolding ToolStep.after_heal
    after_heal-InPlace name first heal f e h = settle_heal-InPlace name first heal _ e heal.result h

    healed-InPlace :
        (name : String) (first : ToolResult) (f : Focus) (a : E × Attempt HealResult)
        → InPlace f
        → EndInPlace (ToolStep.healed k context now name first f a)
    unfolding ToolStep.healed
    healed-InPlace name first f (e, thrown message) h = unfold EndInPlace in h
    healed-InPlace name first f (e, answered heal) h =
        prefixed-InPlace _ (ToolStep.after_heal k context now name first heal f e)
          (after_heal-InPlace name first heal f e h)

    after_first-InPlace :
        (name : String) (first : ToolResult) (f : Focus) (a : E × SuspendEnd)
        → InPlace f
        → SuspendInPlace a
        → EndInPlace (ToolStep.after_first k context now name first f a)
    unfolding ToolStep.after_first Steps.failed_step
    after_first-InPlace name first f (e, is_suspended f') h s =
        unfold EndInPlace in (unfold SuspendInPlace in s)
    after_first-InPlace name first f (e, not_created message f') h s =
        let placed : InPlace f' = unfold SuspendInPlace in s in
        save_then-InPlace (ToolStep.no_token_focus k context now f') _ _ e placed
          (λ g i e'. continues-InPlace e' _ g 0 0 i)
    after_first-InPlace name first f (e, no_write) h s =
        if-both EndInPlace first.success _ _ (save_succeeded-InPlace name first none f e h) (
          healed-InPlace name first f
            (k.heal f.step f.plan.goal (Steps.or_else first.error "工具执行失败") e) h)

    run_with_args-InPlace :
        (name : String) (args : Args) (f : Focus) (e : E)
        → InPlace f
        → EndInPlace (ToolStep.run_with_args k context now name args f e)
    unfolding ToolStep.run_with_args
    run_with_args-InPlace name args f e h =
        let ran =
          k.execute_tool_call (ToolStep.tool_call k context now name args e)
            (Steps.to_tool_context context) e in
        prefixed-InPlace _ _ (
          after_first-InPlace name ran.1 f _ h
            (maybe_suspend_write-InPlace name (parsed args) ran.1.preview f ran.0 h))

    filled-InPlace :
        (name : String) (f : Focus) (a : E × Attempt Args)
        → InPlace f
        → EndInPlace (ToolStep.filled k context now name f a)
    unfolding ToolStep.filled
    filled-InPlace name f (e, thrown message) h = unfold EndInPlace in h
    filled-InPlace name f (e, answered args) h = run_with_args-InPlace name args _ e h

    fill_then_run-InPlace :
        (name : String) (args : Args) (f : Focus) (e : E)
        → InPlace f
        → EndInPlace (ToolStep.fill_then_run k context now name args f e)
    unfolding ToolStep.fill_then_run
    fill_then_run-InPlace name [] f e h = filled-InPlace name f _ h
    fill_then_run-InPlace name (a ∷ rest) f e h = run_with_args-InPlace name (a ∷ rest) f e h

    pub run_tool_step-InPlace :
        (name : Option String) (f : Focus) (e : E)
        → InPlace f
        → EndInPlace (ToolStep.run_tool_step k context now name f e)
    unfolding ToolStep.run_tool_step
    run_tool_step-InPlace none f e h = save_failed-InPlace _ _ f e h
    run_tool_step-InPlace (some name) f e h =
        if-both EndInPlace (name == "") _ _ (save_failed-InPlace _ _ f e h)
          (fill_then_run-InPlace name _ f e h)
