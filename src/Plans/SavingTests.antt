-- ===== src/Plans/SavingTests.antt =====
-- Two writers of a plan at concrete inputs.
use zxql_ai.Prelude.{
  ℕ, Bool, true, false, none, some, List, [], ◌∷◌, ◌≡◌, ◌≢◌, refl, ◌∙◌, ap, subst, arith,
  if◌then◌else◌, ◌⊎◌, inl, inr, Bool-cases,
}
use zxql_ai.Plans.{
  PlanStepStatus, pending, suspended, tool, PlanStep, ExecutionPlan, PlanEntity, PlanTable, saved,
  save_conflict, same_status, touch, save_plan,
}
use zxql_ai.Plans.Saving.{Lawful, written, save-save, same_status_refl, same_status_eq}
use zxql_ai.Plans.Decisions.{
  wrong_status, approved_step, rejected_step, approve_step, reject_step, cancel_plan,
  mark_step_executed_by_token,
}
use zxql_ai.Plans.Decided.{decided, approve_step-reject_step}
use zxql_ai.Plans.{skipped, success, failed, detect_final_state}
use zxql_ai.Plans.Cancelled.{cancelled, cancel_plan-mark_executed}
use zxql_ai.Plans.Tests.{preview_result, step, plan_of}

abbrev row : PlanEntity
row = record {
  id = 1;
  tenant_id = "t";
  goal = some "g";
  steps = some (step "a" tool suspended ∷ step "b" tool suspended ∷ []);
  state = pending;
  created_by = none;
  created_at = 0;
  updated_at = 0;
}

abbrev put : List PlanStep → PlanStepStatus → ℕ → PlanEntity → PlanEntity
put steps state now e = record e { steps = some steps; state = state; updated_at = now }

-- A table of one plan.
abbrev pub one_row : PlanTable PlanEntity
one_row = record {
  insert = λ now input e. (e, e);
  find_one = λ id tenant e. some e;
  find = λ tenant limit e. e ∷ [];
  update = λ id tenant expected steps state now e.
      if same_status e.state expected then (put steps state now e, true) else (e, false);
}

some-injective : (e f : PlanEntity) → some e ≡ some f → e ≡ f
some-injective e f h = ground (arith, h)

update-met :
    (expected state : PlanStepStatus) (steps : List PlanStep) (now : ℕ) (s e : PlanEntity)
    → some s ≡ some e
    → e.state ≡ expected
    → one_row.update 1 "t" expected steps state now s ≡ (put steps state now e, true)
update-met expected state steps now s e f q =
    let same : same_status e.state expected ≡ true =
      subst (λ x. same_status e.state x ≡ true) q (same_status_refl e.state) in
    ap (one_row.update 1 "t" expected steps state now) (some-injective s e f)
    ∙ ap (λ b. if b then (put steps state now e, true) else (e, false)) same

update-missed :
    (expected state : PlanStepStatus) (steps : List PlanStep) (now : ℕ) (s e : PlanEntity)
    → some s ≡ some e
    → e.state ≢ expected
    → one_row.update 1 "t" expected steps state now s ≡ (s, false)
update-missed expected state steps now s e f q =
    let other : same_status s.state expected ≡ false =
      elim (Bool-cases (same_status s.state expected)) [
        | inl a ↦ absurd (
            q (
              subst (λ (x : PlanEntity). x.state ≡ expected) (some-injective s e f)
                (same_status_eq s.state expected a)))
        | inr a ↦ a
      ] in
    ap (λ b. if b then (put steps state now s, true) else (s, false)) other

one_row-Lawful : Lawful one_row
one_row-Lawful = record {
  writes = λ id now tenant expected state steps s e f q.
      ap (λ (a : PlanEntity × Bool). some a.0) (update-met expected state steps now s e f q);
  unaffected = λ id now tenant expected state steps s e f q no_row.
      let affected =
        ap (λ (a : PlanEntity × Bool). a.1) (update-met expected state steps now s e f q) in
      ground (arith, affected, no_row);
  skips =
      λ id now tenant expected state steps s e f q. update-missed expected state steps now s e f q;
}

abbrev first_writer : ExecutionPlan
first_writer = plan_of pending (step "a" tool pending ∷ step "b" tool suspended ∷ [])

abbrev second_writer : ExecutionPlan
second_writer = plan_of pending (step "a" tool suspended ∷ step "b" tool pending ∷ [])

-- Both approve a step of a pending plan: the approval of the first is lost.
save-save_example :
    let s₁ = (save_plan one_row 1 first_writer row).0 in
    let (s₂, result) = save_plan one_row 2 second_writer s₁ in
    (pending ≡ pending
      → (some s₂ ≡ some (written 2 second_writer (written 1 first_writer row)))
        × (result ≡ saved (record (touch 2 second_writer) { persisted_state = pending })))
    × (pending ≢ pending
        → (s₂ ≡ s₁) × (result ≡ save_conflict (touch 2 second_writer) (some pending)))
save-save_example =
    save-save one_row one_row-Lawful 1 2 first_writer second_writer row row refl refl refl refl refl

approve_step-reject_step_example :
    let s₁ = (approve_step one_row 1 1 "t" "b" row).0 in
    let s₂ = (reject_step one_row 1 1 "t" "b" none row).0 in
    (some s₁ ≡ some (decided 1 "b" (approved_step one_row 1) (λ steps. pending) row))
    × (approve_step one_row 2 1 "t" "b" s₁ ≡ (s₁, wrong_status pending))
    × (reject_step one_row 2 1 "t" "b" none s₁ ≡ (s₁, wrong_status pending))
    × (some s₂ ≡ some (decided 1 "b" (rejected_step one_row 1 none) detect_final_state row))
    × (approve_step one_row 2 1 "t" "b" s₂ ≡ (s₂, wrong_status skipped))
    × (reject_step one_row 2 1 "t" "b" none s₂ ≡ (s₂, wrong_status skipped))
approve_step-reject_step_example =
    approve_step-reject_step one_row one_row-Lawful 1 2 "b" none none row row
      (step "b" tool suspended) refl refl refl

abbrev waiting_row : PlanEntity
waiting_row = record row {
  steps = some (record (step "a" tool suspended) { pending_token = some "w1" } ∷ []);
  state = suspended;
}

-- A cancelled plan is a success once its write is confirmed.
cancel_plan-mark_executed_example :
    let s₁ = (cancel_plan one_row 1 1 "t" waiting_row).0 in
    let s₂ = (mark_step_executed_by_token one_row 2 "w1" "t" preview_result s₁).0 in
    (some s₁ ≡ some (cancelled one_row 1 waiting_row))
    × (r : PlanEntity) × (some s₂ ≡ some r)
    × ((r.state ≡ success) ⊎ (r.state ≡ failed))
unfolding cancel_plan
cancel_plan-mark_executed_example =
    cancel_plan-mark_executed one_row one_row-Lawful 1 2 "w1" preview_result waiting_row waiting_row
      [] refl refl refl refl refl
