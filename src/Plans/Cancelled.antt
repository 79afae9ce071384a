-- ===== src/Plans/Cancelled.antt =====
-- A plan of src/brain/agent/task-runner.service.ts that is cancelled while one of its writes waits.
use zxql_ai.Prelude.{
  ℕ, String, Bool, true, false, ◌||◌, some, List, [], ◌∷◌, map, ◌≡◌, refl, ◌∙◌, ap, arith, ◌⊎◌, inl,
  inr, if-true, if-false, if-both, if-cases, any,
}
use zxql_ai.Tools.{ToolResult}
use zxql_ai.Plans
use zxql_ai.Plans.{
  PlanStepStatus, success, failed, skipped, PlanStep, ExecutionPlan, PlanEntity, PlanTable,
  SaveResult, or_else, same_status, is_open, is_failed, detect_final_state, to_plan, touch_step,
  get_plan, list_plans, save_plan,
}
use zxql_ai.Plans.Decisions
use zxql_ai.Plans.Decisions.{
  PlanAnswer, cancelled_step, executed_step, has_token, change_token, with_token, cancel_plan,
  mark_step_executed_by_token,
}
use zxql_ai.Plans.Decided.{answer-table}
use zxql_ai.Plans.Saving.{Lawful, save-writes}

-- The row that a cancellation leaves: the steps that wait for a confirmation stay as they are.
abbrev pub cancelled : {S : Type 0} → PlanTable S → ℕ → PlanEntity → PlanEntity
cancelled table now e = record e {
  steps = some (map (touch_step now) (map (cancelled_step table now) (or_else e.steps [])));
  state = skipped;
  updated_at = now;
}

module _ {S : Type 0} (table : PlanTable S) where
  cancelled_step-token :
      (now : ℕ) (token : String) (x : PlanStep)
      → has_token table token (touch_step now (cancelled_step table now x))
        ≡ has_token table token x
  cancelled_step-token now token x =
      if-both (λ y. has_token table token (touch_step now y) ≡ has_token table token x) (is_open x)
        _ _ refl refl

  cancelled_step-is_open :
      (now : ℕ) (x : PlanStep) → is_open (touch_step now (cancelled_step table now x)) ≡ false
  cancelled_step-is_open now x =
      if-cases (λ y. is_open (touch_step now y) ≡ false) (is_open x) _ _ (λ _. refl)
        (λ closed. closed)

  any-token :
      (now : ℕ) (token : String) (xs : List PlanStep)
      → any (has_token table token) (map (touch_step now) (map (cancelled_step table now) xs))
        ≡ any (has_token table token) xs
  any-token now token [] = refl
  any-token now token (x ∷ xs) =
      ap
        (λ b.
          b
          || any (has_token table token) (map (touch_step now) (map (cancelled_step table now) xs)))
        (cancelled_step-token now token x)
      ∙ ap (λ b. has_token table token x || b) (any-token now token xs)

  executed_step-is_open :
      (later : ℕ) (result : ToolResult) (x : PlanStep)
      → is_open (executed_step table later result x) ≡ false
  executed_step-is_open later result x =
      if-both (λ y. is_open y ≡ false) result.success _ _ refl refl

  all_closed :
      (now : ℕ) (xs : List PlanStep)
      → any is_open (map (touch_step now) (map (cancelled_step table now) xs)) ≡ false
  all_closed now [] = refl
  all_closed now (x ∷ xs) =
      ap (λ b. b || any is_open (map (touch_step now) (map (cancelled_step table now) xs)))
        (cancelled_step-is_open now x)
      ∙ all_closed now xs

  or-false : (a b : Bool) → (a || b) ≡ false → (a ≡ false) × (b ≡ false)
  or-false a b h = (ground (arith, h), ground (arith, h))

  change_token-closed :
      (later : ℕ) (token : String) (result : ToolResult) (xs : List PlanStep)
      → any is_open xs ≡ false
      → any is_open (change_token table token (executed_step table later result) xs) ≡ false
  change_token-closed later token result [] h = refl
  change_token-closed later token result (x ∷ xs) h =
      let (first, others) = or-false (is_open x) (any is_open xs) h in
      if-both (λ ys. any is_open ys ≡ false) (has_token table token x) _ _
        (ap (λ b. b || any is_open xs) (executed_step-is_open later result x) ∙ others)
        (ap (λ b. b || any is_open (change_token table token (executed_step table later result) xs))
            first
          ∙ change_token-closed later token result xs others)

  -- Without an open step a plan ends as a success or a failure.
  detect_final_state-ends :
      (xs : List PlanStep)
      → any is_open xs ≡ false
      → (detect_final_state xs ≡ success) ⊎ (detect_final_state xs ≡ failed)
  unfolding detect_final_state
  detect_final_state-ends xs closed =
      if-cases (λ s. (s ≡ success) ⊎ (s ≡ failed)) (any is_open xs) _ _
        (λ opened. ground (arith, opened, closed))
        (λ _.
          if-both (λ s. (s ≡ success) ⊎ (s ≡ failed)) (any is_failed xs) _ _ (inr refl) (inl refl))

  module _ (h : Lawful table) where
    cancel-row :
        (now : ℕ) (s : S) (e : PlanEntity)
        → table.find_one e.id e.tenant_id s ≡ some e
        → same_status e.state success ≡ false
        → same_status e.state failed ≡ false
        → table.find_one e.id e.tenant_id (cancel_plan table now e.id e.tenant_id s).0
          ≡ some (cancelled table now e)
    unfolding cancel_plan get_plan to_plan
    cancel-row now s e row going still =
        let plan = to_plan e in
        let gone : ExecutionPlan = record plan {
          steps = map (cancelled_step table now) plan.steps;
          state = skipped;
        } in
        let over : (same_status e.state success || same_status e.state failed) ≡ false =
          ap (λ b. b || same_status e.state failed) going ∙ still in
        ap
          (λ o.
            table.find_one e.id e.tenant_id
              (Decisions.cancel_found table now s (Plans.as_plan table o)).0)
          row
        ∙ ap (λ (r : S × PlanAnswer). table.find_one e.id e.tenant_id r.0) (if-false _ _ _ over)
        ∙ ap (table.find_one e.id e.tenant_id) (answer-table table h (save_plan table now gone s))
        ∙ (save-writes table h now gone s e row refl).0

    mark-row :
        (later : ℕ) (token : String) (result : ToolResult) (s : S) (e : PlanEntity)
        (rest : List PlanEntity)
        → table.find_one e.id e.tenant_id s ≡ some e
        → table.find e.tenant_id 50 s ≡ e ∷ rest
        → any (has_token table token) (or_else e.steps []) ≡ true
        → let steps =
            change_token table token (executed_step table later result) (or_else e.steps []) in
          table.find_one e.id e.tenant_id
            (mark_step_executed_by_token table later token e.tenant_id result s).0
          ≡ some (record e {
            steps = some (map (touch_step later) steps);
            state = detect_final_state steps;
            updated_at = later;
          })
    unfolding mark_step_executed_by_token list_plans to_plan
    mark-row later token result s e rest row newest there =
        let plan = to_plan e in
        let steps = change_token table token (executed_step table later result) plan.steps in
        let marked : ExecutionPlan = record plan {
          steps = steps;
          state = detect_final_state steps;
        } in
        ap
          (λ es.
            table.find_one e.id e.tenant_id
              (Decisions.mark_found table later token result s
                (with_token table token (map to_plan es))).0)
          newest
        ∙ ap
            (λ o.
              table.find_one e.id e.tenant_id (Decisions.mark_found table later token result s o).0)
            (if-true _ _ _ there)
        ∙ ap (table.find_one e.id e.tenant_id)
            (answer-table table h (save_plan table later marked s))
        ∙ (save-writes table h later marked s e row refl).0

-- A cancellation of a plan that is not over writes the state skipped, but a step whose write waits for a
-- confirmation keeps its token: where that write is confirmed and executed after the cancellation, the
-- mark of its step makes the cancelled plan a success or a failure. The plan is the newest of its
-- tenant, and the table keeps the laws that `Lawful` names.
pub cancel_plan-mark_executed :
    {S : Type 0} (table : PlanTable S)
    → Lawful table
    → (now later : ℕ) (token : String) (result : ToolResult) (s : S) (e : PlanEntity)
      (rest : List PlanEntity)
    → table.find_one e.id e.tenant_id s ≡ some e
    → same_status e.state success ≡ false
    → same_status e.state failed ≡ false
    → any (has_token table token) (or_else e.steps []) ≡ true
    → table.find e.tenant_id 50 (cancel_plan table now e.id e.tenant_id s).0
      ≡ cancelled table now e ∷ rest
    → let s₁ = (cancel_plan table now e.id e.tenant_id s).0 in
      let s₂ = (mark_step_executed_by_token table later token e.tenant_id result s₁).0 in
      (table.find_one e.id e.tenant_id s₁ ≡ some (cancelled table now e))
      × (row : PlanEntity) × (table.find_one e.id e.tenant_id s₂ ≡ some row)
      × ((row.state ≡ success) ⊎ (row.state ≡ failed))
cancel_plan-mark_executed table h now later token result s e rest row going still there newest =
    let s₁ = (cancel_plan table now e.id e.tenant_id s).0 in
    let gone = cancel-row table h now s e row going still in
    let old = or_else e.steps [] in
    let closed =
      change_token-closed table later token result
        (map (touch_step now) (map (cancelled_step table now) old)) (all_closed table now old) in
    (
      gone,
      _,
      mark-row table h later token result s₁ (cancelled table now e) rest gone newest
          (any-token table now token old ∙ there),
      detect_final_state-ends table _ closed,
    )
