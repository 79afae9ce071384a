-- ===== src/Plans/Saving.antt =====
-- Two writers of one plan of src/brain/agent/task-runner.service.ts.
use zxql_ai.Prelude.{
  ℕ, String, true, false, ◌||◌, some, List, map, ◌≡◌, ◌≢◌, refl, sym, ◌∙◌, ap, subst, inl, inr,
  arith, if-cases, nat_beq_iff, Bool-cases,
}
use zxql_ai.Plans
use zxql_ai.Plans.{
  PlanStepStatus, pending, running, success, failed, suspended, skipped, PlanStep, ExecutionPlan,
  PlanEntity, PlanTable, SaveResult, saved, save_conflict, same_status, is_state, touch_step, touch,
  save_plan,
}

-- How a table answers to `update`: a row with the key and the state is written, and counts as
-- unaffected only where its state was that already; any other row is left alone.
pub record Lawful {S : Type 0} (table : PlanTable S) : Type 0 where
  pub writes :
      (id now : ℕ) (tenant : String) (expected state : PlanStepStatus) (steps : List PlanStep)
      (s : S) (e : PlanEntity)
      → table.find_one id tenant s ≡ some e
      → e.state ≡ expected
      → table.find_one id tenant (table.update id tenant expected steps state now s).0
        ≡ some (record e { steps = some steps; state = state; updated_at = now })
  pub unaffected :
      (id now : ℕ) (tenant : String) (expected state : PlanStepStatus) (steps : List PlanStep)
      (s : S) (e : PlanEntity)
      → table.find_one id tenant s ≡ some e
      → e.state ≡ expected
      → (table.update id tenant expected steps state now s).1 ≡ false
      → state ≡ expected
  pub skips :
      (id now : ℕ) (tenant : String) (expected state : PlanStepStatus) (steps : List PlanStep)
      (s : S) (e : PlanEntity)
      → table.find_one id tenant s ≡ some e
      → e.state ≢ expected
      → table.update id tenant expected steps state now s ≡ (s, false)

pub same_status_refl : (s : PlanStepStatus) → same_status s s ≡ true
same_status_refl s = (nat_beq_iff _ _).1 refl

pub same_status_eq : (s t : PlanStepStatus) → same_status s t ≡ true → s ≡ t
same_status_eq s t h = ground arith

-- The row that a plan is written to.
abbrev pub written : ℕ → ExecutionPlan → PlanEntity → PlanEntity
written now plan e = record e {
  steps = some (map (touch_step now) plan.steps);
  state = plan.state;
  updated_at = now;
}

module _ {S : Type 0} (table : PlanTable S) (h : Lawful table) where
  -- A save on top of the state that the plan was read with.
  pub save-writes :
      (now : ℕ) (plan : ExecutionPlan) (s : S) (e : PlanEntity)
      → table.find_one plan.id plan.tenant_id s ≡ some e
      → e.state ≡ plan.persisted_state
      → (table.find_one plan.id plan.tenant_id (save_plan table now plan s).0
          ≡ some (written now plan e))
        × ((save_plan table now plan s).1
            ≡ saved (record (touch now plan) { persisted_state = plan.state }))
  unfolding save_plan touch
  save-writes now plan s e f q =
      let steps = map (touch_step now) plan.steps in
      let row = h.writes plan.id now plan.tenant_id plan.persisted_state plan.state steps s e f q in
      let up = table.update plan.id plan.tenant_id plan.persisted_state steps plan.state now s in
      let current = Plans.state_of (table.find_one plan.id plan.tenant_id up.0) in
      let seen : current ≡ some plan.state = ap Plans.state_of row in
      let taken : (up.1 || is_state plan.persisted_state current) ≡ true = elim (Bool-cases up.1) [
        | inl a ↦ rw a refl
        | inr a ↦
            let same : plan.state ≡ plan.persisted_state =
              h.unaffected plan.id now plan.tenant_id plan.persisted_state plan.state steps s e f q
                a in
            rw (a, seen, same) (same_status_refl plan.persisted_state)
      ] in
      if-cases
        (λ (r : S × SaveResult).
          (table.find_one plan.id plan.tenant_id r.0 ≡ some (written now plan e))
          × (r.1 ≡ saved (record (touch now plan) { persisted_state = plan.state })))
        (up.1 || is_state plan.persisted_state current)
        (up.0, saved (record (touch now plan) { persisted_state = plan.state }))
        (up.0, save_conflict (touch now plan) current) (λ _. (row, refl))
        (λ no_way. ground (arith, taken, no_way))

  -- A save on top of a state that has changed since.
  save-conflicts :
      (now : ℕ) (plan : ExecutionPlan) (s : S) (e : PlanEntity)
      → table.find_one plan.id plan.tenant_id s ≡ some e
      → e.state ≢ plan.persisted_state
      → save_plan table now plan s ≡ (s, save_conflict (touch now plan) (some e.state))
  unfolding save_plan touch
  save-conflicts now plan s e f q =
      let steps = map (touch_step now) plan.steps in
      let skip = h.skips plan.id now plan.tenant_id plan.persisted_state plan.state steps s e f q in
      let other : same_status plan.persisted_state e.state ≡ false =
        elim (Bool-cases (same_status plan.persisted_state e.state)) [
          | inl a ↦ absurd (q (sym (same_status_eq plan.persisted_state e.state a)))
          | inr a ↦ a
        ] in
      rw skip (rw f (rw other refl))

-- Two writers that read the same row of a plan, the first of which has written: where the first left
-- the plan's state as it was, the second write goes through and puts the steps of the second writer in
-- place of those of the first; where the first changed the state, the second write is refused with the
-- state that it met and changes nothing. The table keeps the laws that `Lawful` names.
pub save-save :
    {S : Type 0} (table : PlanTable S)
    → Lawful table
    → (now later : ℕ) (p q : ExecutionPlan) (s : S) (e : PlanEntity)
    → table.find_one p.id p.tenant_id s ≡ some e
    → q.id ≡ p.id
    → q.tenant_id ≡ p.tenant_id
    → e.state ≡ p.persisted_state
    → e.state ≡ q.persisted_state
    → let s₁ = (save_plan table now p s).0 in
      let (s₂, result) = save_plan table later q s₁ in
      (p.state ≡ e.state
        → (table.find_one q.id q.tenant_id s₂ ≡ some (written later q (written now p e)))
          × (result ≡ saved (record (touch later q) { persisted_state = q.state })))
      × (p.state ≢ e.state → (s₂ ≡ s₁) × (result ≡ save_conflict (touch later q) (some p.state)))
save-save {S} table h now later p q s e f i t a b =
    let s₁ = (save_plan table now p s).0 in
    let first = (save-writes table h now p s e f a).0 in
    let row : table.find_one q.id q.tenant_id s₁ ≡ some (written now p e) =
      subst (λ n. table.find_one n q.tenant_id s₁ ≡ some (written now p e)) (sym i)
        (subst (λ n. table.find_one p.id n s₁ ≡ some (written now p e)) (sym t) first) in
    (
      (λ same. save-writes table h later q s₁ (written now p e) row (same ∙ b)),
      (λ other.
          let refused =
            save-conflicts table h later q s₁ (written now p e) row (λ k. other (k ∙ sym b)) in
          (ap (λ (x : S × SaveResult). x.0) refused, ap (λ (x : S × SaveResult). x.1) refused)),
    )
