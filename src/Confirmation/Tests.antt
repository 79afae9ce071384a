-- ===== src/Confirmation/Tests.antt =====
-- Confirmations at concrete inputs.
use zxql_ai.Prelude.{
  ℕ, ◌+◌, ◌≤◌, ◌≡◌, refl, true, false, none, some, List, [], ◌∷◌, arith, nat_eq, string_eq,
}
use zxql_ai.Prelude.Map.{lookup, insert, delete}
use zxql_ai.Tools.{ToolContext, ToolResult}
use zxql_ai.Executor.{ToolCall, ExecuteOptions}
use zxql_ai.RedisMemory.{RedisMemory, new_client}
use zxql_ai.Redis.{RedisClient, standalone}
use zxql_ai.WriteGuard.{low, Cell, cell_eq, confirmed}
use zxql_ai.Confirmation.{PendingConfirmation, RegisterExecutedInput, Confirmations}
use zxql_ai.Confirmation.Window.{
  can, can_revoke, register_executed, new_operation, mark_revoked, mark_revoke_failed,
  cleanup_operations,
}
use zxql_ai.Confirmation.Execute.{execute_confirmed, confirm_and_execute}
use zxql_ai.Confirmation.Runs.{confirm_and_execute-keeps, execute_confirmed-window}
use zxql_ai.Confirmation.Revocation.{
  RevokeCall, registers, revokes, fails, cleans, run_call, run_calls, revocations, revoked_by,
  registrations, Explained, run_calls-Explained, revocations-le,
}

abbrev client : RedisClient (RedisMemory Cell) Cell
client = standalone

abbrev done : ToolResult
done = record {
  success = true;
  data_value = none;
  error = none;
  suggestion = none;
  idempotent_replay = none;
  original_completed_at = none;
  preview = none;
}

-- An executor that counts its runs.
abbrev count_run : ℕ → ToolCall → ToolContext → ExecuteOptions → ℕ → ℕ × ToolResult
count_run now call context options n = (n + 1, done)

abbrev service : Confirmations (RedisMemory Cell) ℕ
service = record {
  write_guard = record {
    redis = new_client;
    redis_available = false;
    memory_map = [];
    memory_index = [];
    token_ttl_ms = 86400000;
    audit_logger = none;
  };
  executor = 0;
  has_executor = true;
  evidence = some [];
  executed_map = [];
}

abbrev staff : ToolContext
staff = record {
  tenant_id = "t1";
  user_id = none;
  session_id = none;
  request_id = none;
  role = none;
  customer_id = none;
  auth_token = none;
  employee_uid = none;
  dispatch_depth = none;
}

abbrev released_order : PendingConfirmation
released_order = record {
  confirmation_id = "wg_a";
  tenant_id = "t1";
  conversation_id = none;
  customer_id = none;
  plan_id = none;
  plan_step_id = none;
  tool_name = "create_order";
  doc_type = "order";
  risk = low;
  needs_review = false;
  confirm_count = 1;
  args = [];
  preview = none;
  operation_label = "order";
  created_at = 0;
  expires_at = 9000;
  status = confirmed;
}

confirm_and_execute-keeps_example :
    (confirm_and_execute client count_run 5 "l" "op1" "wg_a" "t1" staff none none
      service).0.executor
    ≤ 1
confirm_and_execute-keeps_example =
    confirm_and_execute-keeps client count_run (λ n. n ≤ 1) 5 "l" "op1" "wg_a" "t1" staff none none
      service (λ p released. omega arith) (omega arith)

execute_confirmed-window_example :
    can_revoke 100000 "op1" "t1"
      (execute_confirmed client count_run 5 "op1" released_order staff none none
        service).0.executed_map
    ≡ can
unfolding execute_confirmed
execute_confirmed-window_example =
    execute_confirmed-window client count_run 5 100000 "op1" released_order staff none none service

abbrev an_order : RegisterExecutedInput
an_order = record {
  tenant_id = "t1";
  conversation_id = none;
  confirmation_id = some "wg_a";
  tool_name = "create_order";
  args = [];
  result = none;
  operation_label = "order";
}

abbrev history : List RevokeCall
history =
    registers 1000 "op1" an_order
    ∷ revokes 2000 "op1" "t2"
    ∷ fails 3000 "op1" "t1" "refused"
    ∷ revokes 4000 "op1" "t1"
    ∷ revokes 5000 "op1" "t1"
    ∷ cleans 400000
    ∷ []

-- The other tenant is refused, and of the two by its own the first.
one_revocation : revocations "op1" history [] ≡ 1
unfolding revocations run_call revoked_by register_executed new_operation mark_revoked
    mark_revoke_failed can_revoke cleanup_operations lookup insert delete
one_revocation = refl

run_calls-Explained_example :
    Explained 4000 "op1" "t1"
      (run_calls history [])
      (can_revoke 4000 "op1" "t1" (run_calls history []))
run_calls-Explained_example = run_calls-Explained history 4000 "op1" "t1"

revocations-le_example : revocations "op1" history [] ≤ 1 + registrations "op1" history
revocations-le_example = revocations-le "op1" history []
