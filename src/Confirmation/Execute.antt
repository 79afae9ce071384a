-- ===== src/Confirmation/Execute.antt =====
-- `confirmAndExecute` and `executeConfirmed` of src/brain/confirmation.service.ts. A failed reset is
-- only logged there, and no step of it rejects here.
use zxql_ai.Prelude.{
  ℕ, String, Bool, true, false, not, ◌&&◌, Option, none, some, List, ◌∷◌, if◌then◌else◌, ◌==◌,
  nat_eq, string_eq,
}
use zxql_ai.Prelude.Map.{lookup, insert}
use Prim.Native.String.{◌++◌ as append}
use zxql_ai.Json.{Json, undefined, boolean, text, Args}
use zxql_ai.Tools.{ToolContext, ToolResult}
use zxql_ai.Executor.{ToolCall, parsed, ExecuteOptions}
use zxql_ai.Redis.{RedisClient}
use zxql_ai.WriteGuard.{Cell}
use zxql_ai.WriteGuard.Service.{
  ConfirmError, in_progress, missing, not_the_customer, was_cancelled, was_confirmed,
}
use zxql_ai.Confirmation.{
  PendingConfirmation, Evidence, Confirmations, ConfirmResult, confirmed_as, not_confirmed, confirm,
  reset_to_pending,
}
use zxql_ai.Confirmation.Window.{register_executed}

pub record ConfirmAndExecuteResult : Type 0 where
  pub success : Bool
  pub data_value : Option Json
  pub operation_id : Option String
  pub message : Option String
  pub error : Option String
  pub suggestion : Option String
  pub needs_second_confirm : Option Bool
  pub retry_entry_unavailable : Option Bool

abbrev pub error_text : ConfirmError → String
error_text in_progress = "该操作正在处理中，请稍后重试"
error_text missing = "待确认操作不存在或已过期，请重新发起操作"
error_text not_the_customer = "AI_012 令牌不匹配：该写操作确认人必须为本人（customerId 不一致），已拒绝执行"
error_text was_cancelled = "该操作已取消，无法确认"
error_text was_confirmed = "该操作已确认执行，请勿重复确认"

abbrev no_result : ConfirmAndExecuteResult
no_result = record {
  success = false;
  data_value = none;
  operation_id = none;
  message = none;
  error = none;
  suggestion = none;
  needs_second_confirm = none;
  retry_entry_unavailable = none;
}

-- `record.args.remark === undefined`
abbrev is_undefined : Option Json → Bool
is_undefined none = true
is_undefined (some undefined) = true
is_undefined (some _) = false

abbrev with_remark : Option String → Args → Args → Args
with_remark none own args = args
with_remark (some remark) own args =
    if not (remark == "") && is_undefined (lookup "remark" own)
    then insert "remark" (text remark) args
    else args

-- The arguments of the run: those of the record, confirmed, with the remark where it has none.
unfoldable pub exec_args : Option String → Args → Args
exec_args remark args = with_remark remark args (insert "confirm" (boolean true) args)

abbrev error_or : Option String → String → String
error_or none d = d
error_or (some e) d = e

abbrev noted : Evidence → Option (List Evidence) → Option (List Evidence)
noted e none = none
noted e (some es) = some (e ∷ es)

-- `execute` is the executor's `executeToolCall`.
module _ {S X : Type 0} (client : RedisClient S Cell)
    (execute : ℕ → ToolCall → ToolContext → ExecuteOptions → X → X × ToolResult) where
  -- After a run that failed the token is open again.
  unfoldable pub fail_execution :
      ℕ
      → PendingConfirmation
      → ToolResult
      → Confirmations S X
      → Confirmations S X × ConfirmAndExecuteResult
  fail_execution now p result c =
      let (c', _) = reset_to_pending client now p.confirmation_id p.tenant_id c in
      (
        c',
        record no_result {
          error = some (error_or result.error "工具执行失败");
          suggestion = result.suggestion;
          retry_entry_unavailable = some false;
        },
      )

  -- After a run that succeeded the operation can be revoked.
  unfoldable pub finish_execution :
      ℕ
      → String
      → PendingConfirmation
      → ToolContext
      → Args
      → ToolResult
      → Confirmations S X
      → Confirmations S X × ConfirmAndExecuteResult
  finish_execution now fresh p context args result c =
      let (m, op) =
        register_executed now fresh
          (record {
            tenant_id = p.tenant_id;
            conversation_id = p.conversation_id;
            confirmation_id = some p.confirmation_id;
            tool_name = p.tool_name;
            args = args;
            result = result.data_value;
            operation_label = p.operation_label;
          })
          c.executed_map in
      let evidence : Evidence = record {
        context = context;
        tool_name = p.tool_name;
        args = args;
        data_value = result.data_value;
      } in
      (
        record c { executed_map = m; evidence = noted evidence c.evidence },
        record no_result {
          success = true;
          data_value = result.data_value;
          operation_id = some op.operation_id;
          message = some (append p.operation_label "执行成功，3 分钟内可撤销");
        },
      )

  unfoldable pub execute_confirmed :
      ℕ
      → String
      → PendingConfirmation
      → ToolContext
      → Option String
      → Option String
      → Confirmations S X
      → Confirmations S X × ConfirmAndExecuteResult
  unfolding fail_execution finish_execution exec_args
  execute_confirmed now fresh p context remark key c =
      let args = exec_args remark p.args in
      let (x, result) =
        execute now
          (record {
            id = append "confirm-" p.confirmation_id;
            name = p.tool_name;
            arguments = parsed args;
          })
          context (record { allow_confirm = true; idempotency_key = key }) c.executor in
      let c' = record c { executor = x } in
      if c.has_executor
      then (if result.success
          then finish_execution now fresh p context args result c'
          else fail_execution now p result c')
      else (c, record no_result { error = some "工具执行器不可用（服务未装配）" })

  -- What follows the answer of `confirm`.
  unfoldable pub after_confirm :
      ℕ
      → String
      → ToolContext
      → Option String
      → Option String
      → Confirmations S X
      → ConfirmResult
      → Confirmations S X × ConfirmAndExecuteResult
  unfolding execute_confirmed
  after_confirm now fresh context remark key c (not_confirmed e) =
      (c, record no_result { error = some (error_text e) })
  after_confirm now fresh context remark key c (confirmed_as p true) = (
    c,
    record no_result {
      success = true;
      needs_second_confirm = some true;
      message = some "高危操作需二次确认，请再次确认执行";
    },
  )
  after_confirm now fresh context remark key c (confirmed_as p false) =
      execute_confirmed now fresh p context remark key c

  -- `mark` is the text of the lock and `fresh` the identifier of the operation.
  unfoldable pub confirm_and_execute :
      ℕ
      → String
      → String
      → String
      → String
      → ToolContext
      → Option String
      → Option String
      → Confirmations S X
      → Confirmations S X × ConfirmAndExecuteResult
  unfolding after_confirm
  confirm_and_execute now mark fresh token tenant context remark key c =
      let (c', result) = confirm client now mark token tenant context.customer_id c in
      after_confirm now fresh context remark key c' result
