-- ===== src/Plans/Decided.antt =====
-- The decisions of src/brain/agent/task-runner.service.ts on one step, one after another.
use zxql_ai.Prelude.{
  ℕ, String, Bool, true, false, Option, none, some, List, [], ◌∷◌, map, ◌≡◌, refl, sym, ◌∙◌, ap,
  subst, arith, if◌then◌else◌, if-true, if-false, ◌==◌, string_eq, inl, inr, Bool-cases,
}
use zxql_ai.Plans
use zxql_ai.Plans.{
  PlanStepStatus, pending, suspended, skipped, PlanStep, ExecutionPlan, PlanEntity, PlanTable,
  SaveResult, saved, save_conflict, or_else, same_status, detect_final_state, to_plan, touch_step,
  touch, get_plan, save_plan,
}
use zxql_ai.Plans.Decisions
use zxql_ai.Plans.Decisions.{
  PlanAnswer, changed, wrong_status, find_step, change_step, decide_step, decide_plan,
  approved_step, rejected_step, approve_step, reject_step,
}
use zxql_ai.Plans.Saving.{Lawful, save-writes}

-- A step that is changed is found again.
find_step-change_step :
    (now : ℕ) (id : String) (mark : PlanStep → PlanStep) (steps : List PlanStep) (found : PlanStep)
    → ((x : PlanStep) → (mark x).id ≡ x.id)
    → find_step id steps ≡ some found
    → find_step id (map (touch_step now) (change_step id mark steps))
      ≡ some (touch_step now (mark found))
find_step-change_step now id mark [] found keeps h = ground (arith, h)
find_step-change_step now id mark (x ∷ xs) found keeps h =
    let rest = change_step id mark xs in
    let look : Bool → Option PlanStep =
      λ b. find_step id (map (touch_step now) (if b then mark x ∷ xs else x ∷ rest)) in
    let later : Bool → Option PlanStep = λ b. if b then some x else find_step id xs in
    let marked : Option PlanStep → Option PlanStep =
      λ o. elim o [ none ↦ none | some y ↦ some (touch_step now (mark y)) ] in
    elim (Bool-cases (x.id == id)) [
      | inl here ↦
          ap look here
          ∙ if-true _ _ _ (ap (λ i. i == id) (keeps x) ∙ here)
          ∙ ap marked (sym (ap later here) ∙ h)
      | inr elsewhere ↦
          ap look elsewhere
          ∙ if-false _ _ _ elsewhere
          ∙ find_step-change_step now id mark xs found keeps (sym (ap later elsewhere) ∙ h)
    ]

-- The row that a decision leaves.
abbrev pub decided :
    ℕ → String → (PlanStep → PlanStep) → (List PlanStep → PlanStepStatus) → PlanEntity → PlanEntity
decided now id mark next e =
    let steps = change_step id mark (or_else e.steps []) in
    record e { steps = some (map (touch_step now) steps); state = next steps; updated_at = now }

module _ {S : Type 0} (table : PlanTable S) (h : Lawful table) where
  pub answer-table : (r : S × SaveResult) → (Decisions.answer table r).0 ≡ r.0
  answer-table (s, saved plan) = refl
  answer-table (s, save_conflict plan current) = refl

  module _ (now : ℕ) (id : String) (mark : PlanStep → PlanStep)
      (next : List PlanStep → PlanStepStatus) (s : S) (e : PlanEntity) (found : PlanStep)
      (row : table.find_one e.id e.tenant_id s ≡ some e)
      (here : find_step id (or_else e.steps []) ≡ some found) where
    abbrev decide : S × PlanAnswer
    decide = decide_plan table now id mark next s (get_plan table e.id e.tenant_id s)

    decide_of_found : decide ≡ decide_step table now id mark next s (to_plan e) (some found)
    unfolding decide_plan get_plan to_plan
    decide_of_found =
        ap (λ o. decide_plan table now id mark next s (Plans.as_plan table o)) row
        ∙ ap (decide_step table now id mark next s (to_plan e)) here

    decide_of_settled :
        same_status found.status suspended ≡ false → decide ≡ (s, wrong_status found.status)
    decide_of_settled other = decide_of_found ∙ (unfold decide_step in if-false _ _ _ other)

    decide-row :
        found.status ≡ suspended
        → table.find_one e.id e.tenant_id decide.0 ≡ some (decided now id mark next e)
    unfolding to_plan decide_step
    decide-row waits =
        let plan = to_plan e in
        let steps = change_step id mark plan.steps in
        let changed_plan : ExecutionPlan = record plan { steps = steps; state = next steps } in
        let put = save-writes table h now changed_plan s e row refl in
        let waiting : same_status found.status suspended ≡ true =
          subst (λ x. same_status x suspended ≡ true) (sym waits) refl in
        let shape = decide_of_found ∙ if-true _ _ _ waiting in
        let kept : (Decisions.answer table (save_plan table now changed_plan s)).0
            ≡ (save_plan table now changed_plan s).0 =
          answer-table (save_plan table now changed_plan s) in
        ap (λ (r : S × PlanAnswer). table.find_one e.id e.tenant_id r.0) shape
        ∙ ap (table.find_one e.id e.tenant_id) kept
        ∙ put.0

  -- A decision on a step that an earlier one has marked.
  refused_later :
      (now later : ℕ) (id : String) (mark mark' : PlanStep → PlanStep)
      (next next' : List PlanStep → PlanStepStatus) (s : S) (e : PlanEntity) (found : PlanStep)
      → table.find_one e.id e.tenant_id s ≡ some e
      → find_step id (or_else e.steps []) ≡ some found
      → found.status ≡ suspended
      → ((x : PlanStep) → (mark x).id ≡ x.id)
      → same_status (mark found).status suspended ≡ false
      → let s₁ = (decide_plan table now id mark next s (get_plan table e.id e.tenant_id s)).0 in
        decide_plan table later id mark' next' s₁ (get_plan table e.id e.tenant_id s₁)
        ≡ (s₁, wrong_status (mark found).status)
  refused_later now later id mark mark' next next' s e found row here waits keeps settled =
      decide_of_settled later id mark' next'
        (decide_plan table now id mark next s (get_plan table e.id e.tenant_id s)).0
        (decided now id mark next e) (touch_step now (mark found))
        (decide-row now id mark next s e found row here waits)
        (find_step-change_step now id mark (or_else e.steps []) found keeps here) settled

-- A person's decision on a suspended step is written to the row, and it is the only one: after an
-- approval as after a rejection, both a further approval and a further rejection of the step are
-- refused with the status that the step has and change nothing. The table keeps the laws that `Lawful`
-- names.
pub approve_step-reject_step :
    {S : Type 0} (table : PlanTable S)
    → Lawful table
    → (now later : ℕ) (id : String) (reason again : Option String) (s : S) (e : PlanEntity)
      (found : PlanStep)
    → table.find_one e.id e.tenant_id s ≡ some e
    → find_step id (or_else e.steps []) ≡ some found
    → found.status ≡ suspended
    → let s₁ = (approve_step table now e.id e.tenant_id id s).0 in
      let s₂ = (reject_step table now e.id e.tenant_id id reason s).0 in
      (table.find_one e.id e.tenant_id s₁
        ≡ some (decided now id (approved_step table now) (λ steps. pending) e))
      × (approve_step table later e.id e.tenant_id id s₁ ≡ (s₁, wrong_status pending))
      × (reject_step table later e.id e.tenant_id id again s₁ ≡ (s₁, wrong_status pending))
      × (table.find_one e.id e.tenant_id s₂
          ≡ some (decided now id (rejected_step table now reason) detect_final_state e))
      × (approve_step table later e.id e.tenant_id id s₂ ≡ (s₂, wrong_status skipped))
      × (reject_step table later e.id e.tenant_id id again s₂ ≡ (s₂, wrong_status skipped))
unfolding approve_step reject_step
approve_step-reject_step table h now later id reason again s e found row here waits =
    let approve = approved_step table now in
    let reject = rejected_step table now reason in
    let approved = refused_later table h now later id approve in
    let rejected = refused_later table h now later id reject in
    let approve_later = approved_step table later in
    let reject_later = rejected_step table later again in
    (
      decide-row table h now id approve (λ steps. pending) s e found row here waits,
      approved approve_later (λ steps. pending) (λ steps. pending) s e found row here waits
          (λ x. refl) refl,
      approved reject_later (λ steps. pending) detect_final_state s e found row here waits
          (λ x. refl) refl,
      decide-row table h now id reject detect_final_state s e found row here waits,
      rejected approve_later detect_final_state (λ steps. pending) s e found row here waits
          (λ x. refl) refl,
      rejected reject_later detect_final_state detect_final_state s e found row here waits
          (λ x. refl) refl,
    )
