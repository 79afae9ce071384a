-- ===== src/Plans/Finished.antt =====
-- What a run of src/brain/agent/task-runner.service.ts leaves of the steps that are finished.
use zxql_ai.Prelude.{
  ℕ, ◌+◌, String, false, ◌||◌, some, List, [], ◌∷◌, ◌++◌, map, ◌≡◌, refl, sym, ◌∙◌, ap, subst, inl,
  inr, arith, if-both, if-cases, Bool-cases, any,
}
use mathlib.Core.List.{append_assoc, append-nil}
use zxql_ai.Plans.{
  running, success, suspended, skipped, PlanStepType, tool, agent, condition, end, PlanStep,
  ExecutionPlan, SaveResult, saved, save_conflict, touch_step, same_status, is_open,
}
use zxql_ai.Plans.Steps
use zxql_ai.Plans.Steps.{
  PlanRunContext, AgentRunEvent, Kernel, Focus, whole, StepEnd, continues, suspends, throws,
  touched, Stepped,
}
use zxql_ai.Plans.Run
use zxql_ai.Plans.Run.{
  After, next, returns, crashes, RunEnd, returned, crashed, not_started, is_passed, run_steps,
  run_step, run,
}
use zxql_ai.Plans.Kept.{
  KeptStep, Kept, none_left, one_more, Kept-append, Kept-touch, Kept-self, InPlace, touched-InPlace,
  EndInPlace, save_then-InPlace, continues-InPlace, run_tool_step-InPlace,
}
use zxql_ai.Plans.KeptAgent.{run_agent_step-InPlace}

-- A save that goes through gives back the steps with the time of the save, and the state.
pub record Faithful {E : Type 0} (k : Kernel E) : Type 0 where
  pub keeps :
      (now : ℕ) (plan written : ExecutionPlan) (e : E)
      → (k.save now plan e).1 ≡ saved written
      → written.steps ≡ map (touch_step now) plan.steps
  pub keeps_state :
      (now : ℕ) (plan written : ExecutionPlan) (e : E)
      → (k.save now plan e).1 ≡ saved written
      → written.state ≡ plan.state

unfoldable pub RunKept : {E : Type 0} → List PlanStep → E × List AgentRunEvent × RunEnd → Type 0
RunKept ts (e, events, returned plan) = Kept ts plan.steps
RunKept ts (e, events, crashed message) = Unit {0}
RunKept ts (e, events, not_started) = Unit {0}

module _ (xs : List PlanStep) (x : PlanStep) (ls : List PlanStep)
    (open_step : is_passed x ≡ false) where
  unfoldable pub AfterKept : {E : Type 0} → E × List AgentRunEvent × After → Type 0
  AfterKept (e, events, next f p c) = InPlace xs x ls f
  AfterKept (e, events, returns plan) = Kept (xs ++ (x ∷ ls)) plan.steps
  AfterKept (e, events, crashes message) = Unit {0}

  KeptStep-open : (y : PlanStep) → y.id ≡ x.id → KeptStep x y
  KeptStep-open y i = (i, λ p. ground (arith, p, open_step))

  whole-Kept : (f : Focus) → InPlace xs x ls f → Kept (xs ++ (x ∷ ls)) (whole f).steps
  whole-Kept f (a, i, b) = Kept-append a (one_more (KeptStep-open f.step i) b)

  module _ {E : Type 0} (k : Kernel E) (context : PlanRunContext) (now : ℕ) where
    save_caught-AfterKept :
        (message : String) (f : Focus) (a : E × SaveResult)
        → InPlace xs x ls f
        → AfterKept (Run.save_caught k context now message f a)
    unfolding AfterKept
    save_caught-AfterKept message f (e, saved plan) h = touched-InPlace xs x ls now plan f h
    save_caught-AfterKept message f (e, save_conflict plan current) h = tt

    catch_step-AfterKept :
        (s : Stepped E) → EndInPlace xs x ls s → AfterKept (Run.catch_step k context now s)
    unfolding Run.catch_step EndInPlace Steps.failed_step
    catch_step-AfterKept (e, events, continues f p c) h = unfold AfterKept in h
    catch_step-AfterKept (e, events, suspends f) h = unfold AfterKept in whole-Kept f h
    catch_step-AfterKept (e, events, throws message f) h =
        let g = Steps.with_step (Steps.failed_step now message f.step) f in
        save_caught-AfterKept message g (k.save now (whole g) e) h

    end_saved-AfterKept :
        (f : Focus) (p c : ℕ) (a : E × SaveResult)
        → InPlace xs x ls f
        → AfterKept (Run.end_saved k context now f p c a)
    unfolding Run.end_saved
    end_saved-AfterKept f p c (e, saved plan) h =
        unfold AfterKept in whole-Kept (touched now plan f) (touched-InPlace xs x ls now plan f h)
    end_saved-AfterKept f p c (e, save_conflict plan current) h =
        catch_step-AfterKept (e, [], throws Steps.conflict_message (touched now plan f))
          (unfold EndInPlace in touched-InPlace xs x ls now plan f h)

    run_type-AfterKept :
        (type : PlanStepType) (p c : ℕ) (f : Focus) (e : E)
        → InPlace xs x ls f
        → AfterKept (Run.run_type k context now type p c f e)
    unfolding Run.run_type
    run_type-AfterKept end p c f e h = end_saved-AfterKept (Run.end_focus k context now f) p c _ h
    run_type-AfterKept tool p c f e h =
        catch_step-AfterKept _ (run_tool_step-InPlace xs x ls k context now f.step.tool_name f e h)
    run_type-AfterKept agent p c f e h =
        catch_step-AfterKept _ (run_agent_step-InPlace xs x ls k context now f e h)
    run_type-AfterKept condition p c f e h = catch_step-AfterKept _ (
        save_then-InPlace xs x ls k context now (Run.set_status k context now success f) _ _ e h
          (λ g i e'. continues-InPlace xs x ls k context now e' _ g 0 0 i))

    with_events :
        (e : E) (events more : List AgentRunEvent) (a : After)
        → AfterKept (e, events, a)
        → AfterKept (e, more, a)
    unfolding AfterKept
    with_events e events more (next f p c) h = h
    with_events e events more (returns plan) h = h
    with_events e events more (crashes message) h = h

    started-AfterKept :
        (p c : ℕ) (f : Focus) (a : E × SaveResult)
        → InPlace xs x ls f
        → AfterKept (Run.started k context now p c f a)
    unfolding Run.started
    started-AfterKept p c f (e, save_conflict plan current) h = unfold AfterKept in tt
    started-AfterKept p c f (e, saved plan) h =
        with_events _ _ _ _
          (run_type-AfterKept _ p c (touched now plan f) e (touched-InPlace xs x ls now plan f h))

    pub run_step-AfterKept :
        (p c : ℕ) (f : Focus) (e : E)
        → InPlace xs x ls f
        → AfterKept (run_step k context now p c f e)
    unfolding run_step
    run_step-AfterKept p c f e h =
        let g = Run.set_status k context now running f in
        started-AfterKept p c g (k.save now (whole g) e) h

module _ {E : Type 0} (k : Kernel E) (h : Faithful k) (context : PlanRunContext) (now : ℕ) where
  finished-RunKept :
      (ts : List PlanStep) (plan : ExecutionPlan) (p c : ℕ) (a : E × SaveResult)
      → Kept ts plan.steps
      → ((written : ExecutionPlan)
          → a.1 ≡ saved written
          → written.steps ≡ map (touch_step now) plan.steps)
      → RunKept ts (Run.finished k context now plan p c a)
  unfolding RunKept
  finished-RunKept ts plan p c (e, saved written) kept law =
      subst (λ s. Kept ts s) (sym (law written refl)) (Kept-touch now kept)
  finished-RunKept ts plan p c (e, save_conflict written current) kept law = tt

  finish-RunKept :
      (ts : List PlanStep) (plan : ExecutionPlan) (p c : ℕ) (e : E)
      → Kept ts plan.steps
      → RunKept ts (Run.finish k context now plan p c e)
  unfolding Run.finish
  finish-RunKept ts plan p c e kept =
      let final = Run.final_plan k context now plan in
      finished-RunKept ts final p c (k.save now final e) kept
        (λ written q. h.keeps now final written e q)

  with_more :
      (ts : List PlanStep) (e : E) (events more : List AgentRunEvent) (a : RunEnd)
      → RunKept ts (e, events, a)
      → RunKept ts (e, more, a)
  unfolding RunKept
  with_more ts e events more (returned plan) r = r
  with_more ts e events more (crashed message) r = tt
  with_more ts e events more not_started r = tt

  after_step-RunKept :
      (xs : List PlanStep) (x : PlanStep) (ls : List PlanStep) (open_step : is_passed x ≡ false)
      (rest : ExecutionPlan → List PlanStep → ℕ → ℕ → E → E × List AgentRunEvent × RunEnd) (p c : ℕ)
      (a : E × List AgentRunEvent × After)
      → AfterKept xs x ls open_step a
      → ((plan : ExecutionPlan) (before : List PlanStep) (p c : ℕ) (e : E)
          → Kept (xs ++ (x ∷ [])) before
          → RunKept ((xs ++ (x ∷ [])) ++ ls) (rest plan before p c e))
      → RunKept (xs ++ (x ∷ ls)) (Run.after_step k context now rest p c a)
  unfolding Run.after_step AfterKept
  after_step-RunKept xs x ls o rest p c (e, events, next f p' c') (b, i, l) r =
      with_more (xs ++ (x ∷ ls)) _ _ _ _ (
        subst (λ ts. RunKept ts (rest f.plan (f.before ++ (f.step ∷ [])) (p + p') (c + c') e))
          (append_assoc xs (x ∷ []) ls)
          (r f.plan _ _ _ e
            (Kept-append b (one_more (KeptStep-open xs x ls o f.step i) none_left))))
  after_step-RunKept xs x ls o rest p c (e, events, returns plan) a r = unfold RunKept in a
  after_step-RunKept xs x ls o rest p c (e, events, crashes message) a r = unfold RunKept in tt

  -- A step that was passed shows it still.
  passed-agrees : (x y : PlanStep) → KeptStep x y → is_passed y ≡ false → is_passed x ≡ false
  passed-agrees x y (i, same) o = elim (Bool-cases (is_passed x)) [
    | inl p ↦
        let status : y.status ≡ x.status = ap (λ (s : PlanStep). s.status) (same p) in
        let agree : is_passed y ≡ is_passed x =
          ap (λ s. same_status s success || same_status s skipped) status in
        sym agree ∙ o
    | inr p ↦ p
  ]

  returned-RunKept :
      (ts : List PlanStep) (e : E) (events : List AgentRunEvent) (plan : ExecutionPlan)
      → Kept ts plan.steps
      → RunKept ts (e, events, returned plan)
  unfolding RunKept
  returned-RunKept ts e events plan kept = kept

  from-RunKept :
      (ts : List PlanStep) (a : E × List AgentRunEvent × RunEnd) (out : ExecutionPlan)
      → RunKept ts a
      → a.2 ≡ returned out
      → Kept ts out.steps
  unfolding RunKept
  from-RunKept ts (e, events, returned plan) out kept q =
      let same : plan ≡ out = ground (arith, q) in
      subst (λ (p : ExecutionPlan). Kept ts p.steps) same kept
  from-RunKept ts (e, events, crashed message) out kept q = ground (arith, q)
  from-RunKept ts (e, events, not_started) out kept q = ground (arith, q)

  run_steps-RunKept :
      (plan : ExecutionPlan) (before : List PlanStep) (p c : ℕ) (e : E) (front : List PlanStep)
      {ls later : List PlanStep}
      → Kept front before
      → Kept ls later
      → RunKept (front ++ ls) (run_steps k context now later plan before p c e)
  unfolding run_steps
  run_steps-RunKept plan before p c e front a none_left =
      finish-RunKept (front ++ []) (record plan { steps = before }) p c e
        (subst (λ s. Kept (front ++ []) s) (append-nil before) (Kept-append a none_left))
  run_steps-RunKept plan before p c e front a (one_more {x} {y} {xs} {ys} r b) =
      if-cases (RunKept (front ++ (x ∷ xs))) (is_passed y) _ _
        (λ _.
          subst (λ ts. RunKept ts (run_steps k context now ys plan (before ++ (y ∷ [])) p c e))
            (append_assoc front (x ∷ []) xs)
            (run_steps-RunKept plan (before ++ (y ∷ [])) p c e (front ++ (x ∷ []))
              (Kept-append a (one_more r none_left)) b))
        (λ o.
          if-both (RunKept (front ++ (x ∷ xs))) (same_status y.status suspended) _ _
            (returned-RunKept _ e _
              (whole (record { plan = plan; before = before; step = y; later = ys }))
              (Kept-append a (one_more r b)))
            (after_step-RunKept front x xs (passed-agrees x y r o) (run_steps k context now ys) p c
              _
              (run_step-AfterKept front x xs (passed-agrees x y r o) k context now p c
                (record { plan = plan; before = before; step = y; later = ys }) e (a, r.0, b))
              (λ plan' before' p' c' e' kept.
                run_steps-RunKept plan' before' p' c' e' (front ++ (x ∷ [])) kept b)))

  begun-RunKept :
      (ts : List PlanStep) (a : E × SaveResult)
      → ((plan : ExecutionPlan) → a.1 ≡ saved plan → Kept ts plan.steps)
      → RunKept ts (Run.begun k context now a)
  unfolding Run.begun
  begun-RunKept ts (e, save_conflict plan current) law = unfold RunKept in tt
  begun-RunKept ts (e, saved plan) law =
      with_more ts _ _ _ _ (run_steps-RunKept plan [] 0 0 e [] none_left (law plan refl))

  run_plan-RunKept :
      (plan : ExecutionPlan) (e : E) → RunKept plan.steps (Run.run_plan k context now (some plan) e)
  unfolding Run.run_plan
  run_plan-RunKept plan e =
      if-both (RunKept plan.steps) (Run.is_over plan.state) _ _ (unfold RunKept in tt) (
        if-both (RunKept plan.steps) (any is_open plan.steps) _ _
          (begun-RunKept plan.steps (k.save now (record plan { state = running }) e) (λ written q.
            subst (λ s. Kept plan.steps s)
              (sym (h.keeps now (record plan { state = running }) written e q))
              (Kept-touch now (Kept-self plan.steps))))
          (finish-RunKept plan.steps plan 0 0 e (Kept-self plan.steps)))

-- A run that returns leaves the plan with the same steps in the same order, and every step that was
-- a success or skipped before the run as it was, but for its time: no tool, agent or error of the run
-- touches it. The saves of the plan give its steps back, as `Faithful` says.
pub run-keeps_finished :
    {E : Type 0} (k : Kernel E)
    → Faithful k
    → (context : PlanRunContext) (now id : ℕ) (tenant : String) (e : E) (plan out : ExecutionPlan)
    → k.find_plan id tenant e ≡ some plan
    → (run k context now id tenant e).2 ≡ returned out
    → Kept plan.steps out.steps
unfolding run
run-keeps_finished k h context now id tenant e plan out found ends =
    from-RunKept k h context now plan.steps (run k context now id tenant e) out
      (subst (λ o. RunKept plan.steps (Run.run_plan k context now o e)) (sym found)
        (run_plan-RunKept k h context now plan e))
      ends
