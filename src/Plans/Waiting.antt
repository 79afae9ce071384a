-- ===== src/Plans/Waiting.antt =====
-- Runs of src/brain/agent/task-runner.service.ts that report more than was done.
use zxql_ai.Prelude.{
  ℕ, String, false, some, List, [], ◌∷◌, ◌≡◌, refl, ◌∙◌, ap, ◌⊎◌, inl, inr, arith, if-true,
  if-false, any, map, All, length,
}
use zxql_ai.Plans.{
  success, suspended, skipped, PlanStep, touch_step, ExecutionPlan, SaveResult, saved,
  save_conflict, detect_final_state, is_open, is_failed,
}
use zxql_ai.Plans.Steps.{PlanRunContext, AgentRunEvent, done, error_event, Kernel}
use zxql_ai.Plans.Run
use zxql_ai.Plans.Run.{RunEnd, returned, not_started, run, done_event, final_plan, is_over}
use zxql_ai.Plans.Finished.{Faithful}

finished-saved :
    {E : Type 0} (k : Kernel E) (context : PlanRunContext) (now : ℕ) (plan written : ExecutionPlan)
    (a : E × SaveResult)
    → a.1 ≡ saved written
    → ((Run.finished k context now plan 0 0 a).1 ≡ done_event k context now written 0 0 ∷ [])
      × ((Run.finished k context now plan 0 0 a).2 ≡ returned written)
finished-saved k context now plan written (e, saved other) q =
    let same : other ≡ written = ground (arith, q) in
    (ap (λ w. done_event k context now w 0 0 ∷ []) same, ap returned same)
finished-saved k context now plan written (e, save_conflict other current) q = ground (arith, q)

-- A step that is done, skipped or waits for its write.
abbrev pub Settled : PlanStep → Type 0
Settled step = (step.status ≡ success) ⊎ (step.status ≡ skipped) ⊎ (step.status ≡ suspended)

Settled-closed :
    (step : PlanStep) → Settled step → (is_open step ≡ false) × (is_failed step ≡ false)
Settled-closed step (inl e) = rw e (refl, refl)
Settled-closed step (inr (inl e)) = rw e (refl, refl)
Settled-closed step (inr (inr e)) = rw e (refl, refl)

All-closed :
    (steps : List PlanStep)
    → All Settled steps
    → (any is_open steps ≡ false) × (any is_failed steps ≡ false)
All-closed [] a = (refl, refl)
All-closed (step ∷ steps) (settled, a) =
    let (closed, whole) = Settled-closed step settled in
    let (rest, none_failed) = All-closed steps a in
    (rw (closed, rest) refl, rw (whole, none_failed) refl)

-- A run of a suspended plan whose steps are done, skipped or suspended runs nothing and, once its
-- save goes through, reports the plan as a success, with `done` as its only event. The steps are kept
-- but for their times, so that a suspended step stays suspended with its token, and a later run that
-- finds the plan as it was written refuses it as over. The saves give back steps and state, as
-- `Faithful` says.
pub run-waiting_done :
    {E : Type 0} (k : Kernel E)
    → Faithful k
    → (context : PlanRunContext) (now later id : ℕ) (tenant : String) (e e' : E)
      (plan written : ExecutionPlan)
    → k.find_plan id tenant e ≡ some plan
    → plan.state ≡ suspended
    → All Settled plan.steps
    → (k.save now (record plan { state = success }) e).1 ≡ saved written
    → k.find_plan id tenant e' ≡ some written
    → ((run k context now id tenant e).1 ≡ done written.id success 0 0 (length written.steps) ∷ [])
      × ((run k context now id tenant e).2 ≡ returned written)
      × (written.steps ≡ map (touch_step now) plan.steps)
      × (run k context later id tenant e' ≡ (e', error_event "计划已结束，无法再次执行" ∷ [], not_started))
unfolding run Run.run_plan Run.finish
run-waiting_done {E} k h context now later id tenant e e' plan written found waits settled put
      again =
    let (closed, none_failed) = All-closed plan.steps settled in
    let ended : final_plan k context now plan ≡ record plan { state = success } =
      unfold detect_final_state in rw (closed, none_failed) refl in
    let wrote : (k.save now (final_plan k context now plan) e).1 ≡ saved written =
      ap (λ p. (k.save now p e).1) ended ∙ put in
    let (events, result) =
      finished-saved k context now (final_plan k context now plan) written
        (k.save now (final_plan k context now plan) e) wrote in
    let state : written.state ≡ success = h.keeps_state now _ written e put in
    let same : run k context now id tenant e ≡ Run.finish k context now plan 0 0 e =
      ap (λ o. Run.run_plan k context now o e) found
      ∙ if-false _ _ _ (ap is_over waits)
      ∙ if-false _ _ _ closed in
    (
      ap (λ (a : E × List AgentRunEvent × RunEnd). a.1) same
          ∙ events
          ∙ ap (λ s. done written.id s 0 0 (length written.steps) ∷ []) state,
      ap (λ (a : E × List AgentRunEvent × RunEnd). a.2) same ∙ result,
      h.keeps now _ written e put,
      ap (λ o. Run.run_plan k context later o e') again ∙ if-true _ _ _ (ap is_over state),
    )
