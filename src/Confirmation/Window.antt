-- ===== src/Confirmation/Window.antt =====
-- The operations of src/brain/confirmation.service.ts that can be revoked, and their window.
use zxql_ai.Prelude.{
  ℕ, ◌+◌, ◌-◌, String, Bool, true, false, not, ◌&&◌, Option, none, some, [], ◌∷◌, ltb,
  if◌then◌else◌, ◌==◌, nat_eq, string_eq, is_some_eq, length, filter,
}
use zxql_ai.Prelude.Map.{lookup, insert, delete}
use zxql_ai.WriteGuard.Service
use zxql_ai.Confirmation.{
  ExecutedStatus, executed, revoked, ExecutedOperation, RegisterExecutedInput, Operations,
  Confirmations, revoke_ttl_ms,
}

abbrev pub is_executed : ExecutedStatus → Bool
is_executed executed = true
is_executed revoked = false

-- `operation.revokeAttempts ?? 0`
abbrev attempts : Option ℕ → ℕ
attempts none = 0
attempts (some n) = n

unfoldable pub new_operation : ℕ → String → RegisterExecutedInput → ExecutedOperation
new_operation now fresh input = record {
  operation_id = fresh;
  tenant_id = input.tenant_id;
  conversation_id = input.conversation_id;
  confirmation_id = input.confirmation_id;
  tool_name = input.tool_name;
  args = input.args;
  result = input.result;
  operation_label = input.operation_label;
  executed_at = now;
  revoke_expires_at = now + revoke_ttl_ms;
  status = executed;
  last_revoke_error = none;
  revoke_attempts = none;
}

unfoldable pub register_executed :
    ℕ → String → RegisterExecutedInput → Operations → Operations × ExecutedOperation
unfolding new_operation
register_executed now fresh input m =
    let op = new_operation now fresh input in (insert op.operation_id op m, op)

-- The first operation of the confirmation that is still executed.
unfoldable pub get_executed_by_confirmation :
    String → String → Operations → Option ExecutedOperation
get_executed_by_confirmation id tenant [] = none
get_executed_by_confirmation id tenant ((_, op) ∷ rest) =
    if is_some_eq op.confirmation_id id && (op.tenant_id == tenant && is_executed op.status)
    then some op
    else get_executed_by_confirmation id tenant rest

unfoldable pub get_executed : String → Operations → Option ExecutedOperation
get_executed id m = lookup id m

-- The reasons of a refusal, one for each text.
pub data RevokeCheck : Type 0 where
  can missing other_tenant was_revoked too_late : RevokeCheck

abbrev pub check_operation : ℕ → String → ExecutedOperation → RevokeCheck
check_operation now tenant op =
    if op.tenant_id == tenant
    then (if is_executed op.status
        then (if ltb op.revoke_expires_at now then too_late else can)
        else was_revoked)
    else other_tenant

unfoldable pub can_revoke : ℕ → String → String → Operations → RevokeCheck
can_revoke now id tenant m = elim (lookup id m) [
  | none ↦ missing
  | some op ↦ check_operation now tenant op
]

unfoldable pub mark_revoked : ℕ → String → String → Operations → Operations × Bool
unfolding can_revoke
mark_revoked now id tenant m = elim (can_revoke now id tenant m) [
  | can ↦ (delete id m, true)
  | missing ↦ (m, false)
  | other_tenant ↦ (m, false)
  | was_revoked ↦ (m, false)
  | too_late ↦ (m, false)
]

abbrev pub noted : String → ExecutedOperation → ExecutedOperation
noted error op = record op {
  last_revoke_error = some error;
  revoke_attempts = some (attempts op.revoke_attempts + 1);
}

abbrev pub note_at : String → String → Operations → Option ExecutedOperation → Operations
note_at id error m none = m
note_at id error m (some op) = insert id (noted error op) m

unfoldable pub mark_revoke_failed : ℕ → String → String → String → Operations → Operations × Bool
unfolding can_revoke
mark_revoke_failed now id tenant error m = elim (can_revoke now id tenant m) [
  | can ↦ (note_at id error m (lookup id m), true)
  | missing ↦ (m, false)
  | other_tenant ↦ (m, false)
  | was_revoked ↦ (m, false)
  | too_late ↦ (m, false)
]

abbrev pub in_window : ℕ → String × ExecutedOperation → Bool
in_window now (_, op) = not (ltb op.revoke_expires_at now)

-- The operations whose window has ended go; the number removed.
unfoldable pub cleanup_operations : ℕ → Operations → Operations × ℕ
cleanup_operations now m = let m' = filter (in_window now) m in (m', length m - length m')

unfoldable pub cleanup_expired : {S X : Type 0} → ℕ → Confirmations S X → Confirmations S X × ℕ
unfolding cleanup_operations
cleanup_expired now c =
    let (g, writes) = Service.cleanup_expired now c.write_guard in
    let (m, operations) = cleanup_operations now c.executed_map in
    (record c { write_guard = g; executed_map = m }, writes + operations)
