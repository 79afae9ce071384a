-- ===== src/Executor/Run.antt =====
-- The steps of `executeToolCall` and `executeToolCalls` of src/tools/tool-executor.ts.
use zxql_ai.Prelude.{
  ℕ, String, Bool, true, false, ◌&&◌, Option, none, some, List, [], ◌∷◌, map, if◌then◌else◌, ◌==◌,
  nat_eq, string_eq,
}
use zxql_ai.Prelude.Map.{lookup}
use Prim.Native.String.{◌++◌ as append}
use zxql_ai.Json.{Args}
use zxql_ai.Tools.{ToolContext, ToolResult, Ending, returned, threw, Tool, listed, failure}
use zxql_ai.Breaker.{allowed, refused, can_proceed, record_success, record_failure}
use zxql_ai.Executor.{
  in_scope, out_of_scope, check_scope, ToolCall, parsed, malformed, ExecuteOptions,
  IdempotencyDecision, proceed, replay, in_flight, rejected, IdempotencyGate, Executor,
  is_confirmed, gated_args,
}

join_names : List String → String
join_names [] = ""
join_names (n ∷ []) = n
join_names (n ∷ m ∷ ns) = append n (append ", " (join_names (m ∷ ns)))

-- `show` is the decimal text of a number.
module _ {W I H : Type 0} (idempotency : IdempotencyGate I H) (show : ℕ → String) where
  abbrev record_call : String → Bool → Executor W I → Executor W I
  record_call name ok x = record x { metrics = (name, ok) ∷ x.metrics }

  abbrev log_execution :
      ToolCall → Tool W → Args → ToolContext → ToolResult → Executor W I → Executor W I
  log_execution call tool args context result x = record x {
    audit_log =
        record {
          tool_name = call.name;
          is_write_operation = tool.is_write_operation;
          success = result.success;
          error = result.error;
          args = args;
          context = context;
        }
        ∷ x.audit_log;
  }

  -- What follows the end of the tool's own code.
  unfoldable pub settle :
      ℕ
      → ToolCall
      → Tool W
      → Args
      → ToolContext
      → Option H
      → Executor W I
      → Ending
      → Executor W I × ToolResult
  settle now call tool args context handle x (returned result) =
      let x₁ = record x {
        gate = idempotency.complete now handle result x.gate;
        breaker =
            if result.success
            then record_success call.name x.breaker
            else record_failure now call.name x.breaker;
      } in
      (
        log_execution call tool args context result (record_call call.name result.success x₁),
        result,
      )
  settle now call tool args context handle x (threw message) =
      let text = append "工具执行异常：" message in
      let x₁ = record x {
        gate = idempotency.complete now handle (failure text none) x.gate;
        breaker = record_failure now call.name x.breaker;
      } in
      (
        log_execution call tool args context (failure text none) (record_call call.name false x₁),
        failure text (some "工具内部异常，请稍后重试或换一种方式表达需求"),
      )

  unfoldable pub run_tool :
      ℕ
      → ToolCall
      → Tool W
      → Args
      → ToolContext
      → Option H
      → Executor W I
      → Executor W I × ToolResult
  unfolding settle
  run_tool now call tool args context handle x =
      let (w, ending) = tool.execute args context x.world in
      settle now call tool args context handle (record x { world = w }) ending

  -- The decision of the idempotency gate.
  unfoldable pub decide :
      ℕ
      → ToolCall
      → Tool W
      → Args
      → ToolContext
      → Executor W I
      → IdempotencyDecision H
      → Executor W I × ToolResult
  unfolding run_tool
  decide now call tool args context x (proceed handle) =
      run_tool now call tool args context handle x
  decide now call tool args context x (replay result) = (record_call call.name true x, result)
  decide now call tool args context x (in_flight result) = (record_call call.name false x, result)
  decide now call tool args context x (rejected result) = (record_call call.name false x, result)

  -- A confirmed write passes the idempotency gate first.
  unfoldable pub claim_and_run :
      ℕ
      → ToolCall
      → Tool W
      → Args
      → ToolContext
      → ExecuteOptions
      → Executor W I
      → Executor W I × ToolResult
  unfolding decide run_tool
  claim_and_run now call tool args context options x =
      let (gate, decision) =
        idempotency.check now
          (record {
            tool_name = call.name;
            args = args;
            tool_call_id = some call.id;
            context = context;
            explicit_key = options.idempotency_key;
            key_fields = tool.idempotency_key_fields;
          })
          x.gate in
      if tool.is_write_operation && is_confirmed args
      then decide now call tool args context (record x { gate = gate }) decision
      else run_tool now call tool args context none x

  -- The breaker of the tool.
  unfoldable pub pass_breaker :
      ℕ
      → ToolCall
      → Tool W
      → Args
      → ToolContext
      → ExecuteOptions
      → Executor W I
      → Executor W I × ToolResult
  unfolding claim_and_run
  pass_breaker now call tool args context options x =
      let (b, gate) = can_proceed now call.name x.breaker in
      let x' = record x { breaker = b } in
      elim gate [
        | allowed ↦ claim_and_run now call tool args context options x'
        | refused seconds ↦ (
          x',
          failure (append "服务暂时熔断，请 " (append (show seconds) " 秒后重试"))
              (some "服务暂时不可用，请稍后重试或联系管理员检查对应服务"),
        )
      ]

  -- The gates on a tool that is there.
  unfoldable pub pass_gates :
      ℕ
      → ToolCall
      → Tool W
      → Args
      → ToolContext
      → ExecuteOptions
      → Executor W I
      → Executor W I × ToolResult
  unfolding pass_breaker check_scope
  pass_gates now call tool args context options x =
      if context.tenant_id == ""
      then (x, failure "执行上下文缺少 tenantId，无法执行工具（多租户隔离要求）" (some "请确认请求已通过 TenantGuard 注入 tenantId"))
      else elim (check_scope call.name tool.is_write_operation context.role context.customer_id) [
        | in_scope ↦ pass_breaker now call tool args context options x
        | out_of_scope message hint ↦ (x, failure message (some hint))
      ]

  unfoldable pub find_and_pass :
      ℕ
      → ToolCall
      → Args
      → ToolContext
      → ExecuteOptions
      → Executor W I
      → Option (Tool W)
      → Executor W I × ToolResult
  unfolding pass_gates join_names
  find_and_pass now call args context options x none = (
    x,
    failure (append "工具 \"" (append call.name "\" 未注册")) (
        some
          (append "可用工具列表：" (join_names (map (λ (t : Tool W). t.name) (listed none x.registry))))),
  )
  find_and_pass now call args context options x (some tool) =
      pass_gates now call tool args context options x

  unfoldable pub execute_tool_call :
      ℕ → ToolCall → ToolContext → ExecuteOptions → Executor W I → Executor W I × ToolResult
  unfolding find_and_pass gated_args
  execute_tool_call now call context options x =
      let tool = lookup call.name x.registry in
      elim call.arguments [
        | malformed message head ↦ (
          x,
          failure (append "参数 JSON 解析失败：" (append message (append "（原始参数：" (append head "）"))))
              (some "请检查 function calling 参数是否为合法 JSON 对象"),
        )
        | parsed args ↦ find_and_pass now call (gated_args tool options args) context options x tool
      ]

  -- `executeToolCalls`, its calls run one after another: the results under the ids and names.
  unfoldable pub execute_tool_calls :
      ℕ
      → List ToolCall
      → ToolContext
      → Executor W I
      → Executor W I × List (String × String × ToolResult)
  unfolding execute_tool_call
  execute_tool_calls now [] context x = (x, [])
  execute_tool_calls now (call ∷ calls) context x =
      let (x', result) =
        execute_tool_call now call context
          (record { allow_confirm = false; idempotency_key = none }) x in
      let (x'', results) = execute_tool_calls now calls context x' in
      (x'', (call.id, call.name, result) ∷ results)
