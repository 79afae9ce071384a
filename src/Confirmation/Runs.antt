-- ===== src/Confirmation/Runs.antt =====
-- Which tools src/brain/confirmation.service.ts runs, and what it keeps of a run.
use zxql_ai.Prelude.{
  ℕ, ◌+◌, ◌≤◌, String, ◌≡◌, refl, inl, inr, true, false, Option, arith, ltb, if◌then◌else◌,
  Bool-cases, beq_refl, nat_eq, string_eq,
}
use zxql_ai.Prelude.Map.{lookup-insert_self}
use Prim.Native.String.{◌++◌ as append}
use zxql_ai.Tools.{ToolContext, ToolResult}
use zxql_ai.Executor.{ToolCall, parsed, ExecuteOptions}
use zxql_ai.Redis.{RedisClient}
use zxql_ai.WriteGuard.{confirmed, Cell}
use zxql_ai.WriteGuard.Service.{customer_matches, WriteGuardConfirmResult, accepted, refused}
use zxql_ai.WriteGuard.Authority.{IsAuthorised, confirm-IsAuthorised}
use zxql_ai.Confirmation.{
  PendingConfirmation, RegisterExecutedInput, Operations, Confirmations, confirm, confirm_result,
  to_confirmation, reset_to_pending,
}
use zxql_ai.Confirmation.Window.{can, too_late, can_revoke, register_executed, new_operation}
use zxql_ai.Confirmation.Execute.{
  exec_args, fail_execution, finish_execution, execute_confirmed, after_confirm,
  confirm_and_execute,
}

-- The call of the executor for a record.
abbrev pub run_of : PendingConfirmation → Option String → ToolCall
run_of p remark = record {
  id = append "confirm-" p.confirmation_id;
  name = p.tool_name;
  arguments = parsed (exec_args remark p.args);
}

-- A record that its customer has confirmed in time.
abbrev pub IsReleased : ℕ → Option String → PendingConfirmation → Type 0
IsReleased now customer p =
    (now ≤ p.expires_at) × (customer_matches p.customer_id customer ≡ true) × (p.status ≡ confirmed)

module _ {S X : Type 0} (client : RedisClient S Cell)
    (execute : ℕ → ToolCall → ToolContext → ExecuteOptions → X → X × ToolResult)
    (P : X → Type 0) where
  execute_confirmed-keeps :
      (now : ℕ) (fresh : String) (p : PendingConfirmation) (context : ToolContext)
      (remark key : Option String) (c : Confirmations S X)
      → P c.executor
      → P
          (execute now
            (run_of p remark)
            context
            (record { allow_confirm = true; idempotency_key = key })
            c.executor).0
      → P (execute_confirmed client execute now fresh p context remark key c).0.executor
  unfolding execute_confirmed fail_execution finish_execution reset_to_pending
  execute_confirmed-keeps now fresh p context remark key c before after =
      let result =
        (execute now (run_of p remark) context
          (record { allow_confirm = true; idempotency_key = key }) c.executor).1 in
      elim (Bool-cases c.has_executor) [
        | inr off ↦ rw off before
        | inl on ↦ elim (Bool-cases result.success) [
          | inl ok ↦ rw (on, ok) after
          | inr ok ↦ rw (on, ok) after
        ]
      ]

  after_confirm-keeps :
      (now : ℕ) (fresh : String) (context : ToolContext) (remark key : Option String)
      (c : Confirmations S X) (result : WriteGuardConfirmResult)
      → IsAuthorised now context.customer_id result
      → P c.executor
      → ((p : PendingConfirmation)
          → IsReleased now context.customer_id p
          → P
              (execute now
                (run_of p remark)
                context
                (record { allow_confirm = true; idempotency_key = key })
                c.executor).0)
      → P
          (after_confirm client execute now fresh context remark key c
            (confirm_result result)).0.executor
  unfolding after_confirm to_confirmation
  after_confirm-keeps now fresh context remark key c (refused e) auth before after = before
  after_confirm-keeps now fresh context remark key c (accepted w true) auth before after = before
  after_confirm-keeps now fresh context remark key c (accepted w false) (live, match, (done, _))
        before after =
      execute_confirmed-keeps now fresh (to_confirmation w) context remark key c before
        (after (to_confirmation w) (live, match, done))

  -- Whatever the stores hold and answer, `confirmAndExecute` runs the executor only for a record that
  -- has not expired, that is confirmed and whose customer, if it has one, is the caller: a property
  -- of the executor's state that such runs keep is kept by the whole call.
  pub confirm_and_execute-keeps :
      (now : ℕ) (mark fresh token tenant : String) (context : ToolContext)
      (remark key : Option String) (c : Confirmations S X)
      → ((p : PendingConfirmation)
          → IsReleased now context.customer_id p
          → P
              (execute now
                (run_of p remark)
                context
                (record { allow_confirm = true; idempotency_key = key })
                c.executor).0)
      → P c.executor
      → P
          (confirm_and_execute client execute now mark fresh token tenant context remark key
            c).0.executor
  unfolding confirm_and_execute confirm
  confirm_and_execute-keeps now mark fresh token tenant context remark key c after before =
      after_confirm-keeps now fresh context remark key
        (confirm client now mark token tenant context.customer_id c).0 _
        (confirm-IsAuthorised client now mark token tenant context.customer_id c.write_guard) before
        after

register-window :
    (now later : ℕ) (fresh : String) (input : RegisterExecutedInput) (m : Operations)
    → can_revoke later fresh input.tenant_id (register_executed now fresh input m).0
      ≡ (if ltb (now + 180000) later then too_late else can)
unfolding can_revoke register_executed new_operation
register-window now later fresh input m =
    ground
      (arith, lookup-insert_self fresh (new_operation now fresh input) m, beq_refl input.tenant_id)

module _ {S X : Type 0} (client : RedisClient S Cell)
    (execute : ℕ → ToolCall → ToolContext → ExecuteOptions → X → X × ToolResult) where
  -- A run that succeeds can be revoked by the tenant of the record up to three minutes after it, and
  -- not later; one that fails leaves the operations that can be revoked as they are.
  pub execute_confirmed-window :
      (now later : ℕ) (fresh : String) (p : PendingConfirmation) (context : ToolContext)
      (remark key : Option String) (c : Confirmations S X)
      → let (c', result) = execute_confirmed client execute now fresh p context remark key c in
        if result.success
        then can_revoke later fresh p.tenant_id c'.executed_map
          ≡ (if ltb (now + 180000) later then too_late else can)
        else c'.executed_map ≡ c.executed_map
  unfolding execute_confirmed fail_execution finish_execution reset_to_pending
  execute_confirmed-window now later fresh p context remark key c =
      let result =
        (execute now (run_of p remark) context
          (record { allow_confirm = true; idempotency_key = key }) c.executor).1 in
      elim (Bool-cases c.has_executor) [
        | inr off ↦ rw off refl
        | inl on ↦ elim (Bool-cases result.success) [
          | inl ok ↦ rw (on, ok) (register-window now later fresh _ c.executed_map)
          | inr ok ↦ rw (on, ok) refl
        ]
      ]
