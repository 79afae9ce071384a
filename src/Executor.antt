-- ===== src/Executor.antt =====
-- src/tools/tool-executor.ts and src/tools/customer-scope.guard.ts: the gates before a tool runs.
-- The idempotency gate is an interface here. One time stands for the `Date.now()` of a call, and
-- durations are not recorded. Arguments that parse do so to an object.
use zxql_ai.Prelude.{
  ℕ, zero, suc, ◌+◌, ◌-◌, ◌*◌, ◌/◌, ◌%◌, ◌^◌, ◌≤◌, ◌<◌, min, max, String, ◌≡◌, refl, sym, ap, ◌∙◌,
  subst, ◌≢◌, ◌↔◌, ◌⊎◌, inl, inr, Bool, true, false, not, ◌&&◌, ◌||◌, Option, none, some, List, [],
  ◌∷◌, ◌++◌, map, arith, ltb, leb, nat_beq, if◌then◌else◌, ltb→lt, lt→ltb, le→not-ltb, not-ltb→le,
  leb→le, le→leb, not-leb→lt, lt→not-leb, nat_beq_iff, Bool-cases, Option-cases, Equality, ◌==◌,
  beq_refl, nat_eq, string_eq, str_eq_iff, is_some_eq, String-discrete, decided, decision_iff,
  length, length-append, filter, length-filter-le, any, All, All-append, All-filter, All-intro,
  sort, sort-mem, length-sort, map-mem, Memᴰ,
}
use zxql_ai.Prelude.Map.{
  lookup, insert, delete, lookup-insert, lookup-delete, delete-insert, lookup-insert_self,
  length-insert-le, length-delete-le, lookup-mem, AllEntries, lookup-AllEntries, insert-AllEntries,
  delete-AllEntries, UniqueKeys, insert-UniqueKeys, delete-UniqueKeys, lookup-filter-none,
  filter-UniqueKeys, kept, lookup-filter,
}
use Prim.Native.String.{◌++◌ as append}
use zxql_ai.Json.{Json, boolean, Args}
use zxql_ai.Tools.{ToolContext, ToolResult, Ending, returned, threw, Tool, Registry, failure}
use zxql_ai.Breaker.{Breaker, Gate, allowed, refused, can_proceed, record_success, record_failure}
pub mod Run
pub mod Permission
pub mod SameTools
mod Tests

-- `check` of the guard.
pub data ScopeCheck : Type 0 where
  in_scope : ScopeCheck
  out_of_scope : String → String → ScopeCheck

abbrev pub customer_read_allow : List String
customer_read_allow =
    "api_query_my_orders" ∷ "api_query_my_order_detail" ∷ "api_query_my_deliveries"
    ∷ "api_query_my_membership" ∷ "api_query_my_prices" ∷ "api_query_my_returns"
    ∷ "api_query_my_invoices" ∷ []

abbrev pub customer_write_allow : List String
customer_write_allow =
    "api_create_return_apply" ∷ "api_create_consult" ∷ "api_confirm_receipt"
    ∷ "api_set_marketing_subscription" ∷ []

abbrev pub includes : String → List String → Bool
includes name = any (λ n. n == name)

abbrev is_falsy : Option String → Bool
is_falsy none = true
is_falsy (some s) = s == ""

unfoldable pub check_scope : String → Bool → Option String → Option String → ScopeCheck
check_scope tool_name is_write role customer_id =
    if is_some_eq role "customer"
    then (if is_falsy customer_id
        then out_of_scope "运营客户端身份不完整：缺少 customerId，无法建立客户数据边界" "请使用绑定的客户身份重新登录后重试"
        else (if includes tool_name (if is_write then customer_write_allow else customer_read_allow)
            then in_scope
            else out_of_scope
                (append "AI_010 无权限执行此操作：运营客户端仅可访问本人数据与受控写操作，「" (append tool_name "」不在客户授权范围"))
                "该操作需在管理系统端由内部人员执行"))
    else in_scope

-- The JSON text of the arguments: what it parses to, or the message of the error and the head of
-- the text.
pub data Arguments : Type 0 where
  parsed : Args → Arguments
  malformed : (message : String) (head : String) → Arguments

pub record ToolCall : Type 0 where
  pub id : String
  pub name : String
  pub arguments : Arguments

pub record ExecuteOptions : Type 0 where
  pub allow_confirm : Bool
  pub idempotency_key : Option String

pub record IdempotencyCheckInput : Type 0 where
  pub tool_name : String
  pub args : Args
  pub tool_call_id : Option String
  pub context : ToolContext
  pub explicit_key : Option String
  pub key_fields : Option (List String)

pub data IdempotencyDecision (H : Type 0) : Type 0 where
  proceed : Option H → IdempotencyDecision H
  replay : ToolResult → IdempotencyDecision H
  in_flight : ToolResult → IdempotencyDecision H
  rejected : ToolResult → IdempotencyDecision H

-- The idempotency gate, with a state `I` and handles `H` of its claims.
pub record IdempotencyGate (I : Type 0) (H : Type 0) : Type 0 where
  pub check : ℕ → IdempotencyCheckInput → I → I × IdempotencyDecision H
  pub complete : ℕ → Option H → ToolResult → I → I

-- Less the category and the duration.
pub record ToolExecutionRecord : Type 0 where
  pub tool_name : String
  pub is_write_operation : Bool
  pub success : Bool
  pub error : Option String
  pub args : Args
  pub context : ToolContext

-- The executor and what it calls: the services, the breaker, the gate, the metrics (whether each
-- call of a tool succeeded) and the audit log, the last two newest first.
pub record Executor (W : Type 0) (I : Type 0) : Type 0 where
  pub world : W
  pub registry : Registry W
  pub breaker : Breaker
  pub gate : I
  pub metrics : List (String × Bool)
  pub audit_log : List ToolExecutionRecord

abbrev is_true : Option Json → Bool
is_true (some (boolean true)) = true
is_true _ = false

-- `args.confirm === true`
abbrev pub is_confirmed : Args → Bool
is_confirmed args = is_true (lookup "confirm" args)

abbrev pub is_write : {W : Type 0} → Option (Tool W) → Bool
is_write none = false
is_write (some tool) = tool.is_write_operation

-- The arguments after the gate of the review: a confirmation of a write tool from any other caller
-- than the confirmation channel becomes a preview.
unfoldable pub gated_args : {W : Type 0} → Option (Tool W) → ExecuteOptions → Args → Args
gated_args tool options args =
    if is_write tool && is_confirmed args && not options.allow_confirm
    then insert "confirm" (boolean false) args
    else args
