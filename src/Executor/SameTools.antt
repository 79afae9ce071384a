-- ===== src/Executor/SameTools.antt =====
-- A call of src/tools/tool-executor.ts leaves the tools as they are.
use zxql_ai.Prelude.{
  ℕ, String, ◌≡◌, refl, ◌&&◌, Option, none, some, inl, inr, Bool-cases, ◌==◌, string_eq,
}
use zxql_ai.Prelude.Map.{lookup}
use zxql_ai.Json.{Args}
use zxql_ai.Breaker.{can_proceed}
use zxql_ai.Tools.{ToolContext, Ending, returned, threw, Tool}
use zxql_ai.Executor.{
  Arguments, check_scope, ToolCall, parsed, malformed, ExecuteOptions, IdempotencyDecision, proceed,
  replay, in_flight, rejected, IdempotencyGate, Executor, is_confirmed, gated_args,
}
use zxql_ai.Executor.Run.{
  settle, run_tool, decide, claim_and_run, pass_breaker, pass_gates, find_and_pass,
  execute_tool_call,
}
use zxql_ai.Executor.Permission.{Gate-cases, scope-cases}

module _ {W I H : Type 0} (idempotency : IdempotencyGate I H) (show : ℕ → String) where
  settle-registry :
      (now : ℕ) (call : ToolCall) (tool : Tool W) (args : Args) (context : ToolContext)
      (handle : Option H) (x : Executor W I) (e : Ending)
      → (settle idempotency show now call tool args context handle x e).0.registry ≡ x.registry
  unfolding settle
  settle-registry now call tool args context handle x (returned r) = refl
  settle-registry now call tool args context handle x (threw m) = refl

  run_tool-registry :
      (now : ℕ) (call : ToolCall) (tool : Tool W) (args : Args) (context : ToolContext)
      (handle : Option H) (x : Executor W I)
      → (run_tool idempotency show now call tool args context handle x).0.registry ≡ x.registry
  unfolding run_tool
  run_tool-registry now call tool args context handle x =
      let (w, ending) = tool.execute args context x.world in
      settle-registry now call tool args context handle (record x { world = w }) ending

  decide-registry :
      (now : ℕ) (call : ToolCall) (tool : Tool W) (args : Args) (context : ToolContext)
      (x : Executor W I) (d : IdempotencyDecision H)
      → (decide idempotency show now call tool args context x d).0.registry ≡ x.registry
  unfolding decide
  decide-registry now call tool args context x (proceed handle) =
      run_tool-registry now call tool args context handle x
  decide-registry now call tool args context x (replay r) = refl
  decide-registry now call tool args context x (in_flight r) = refl
  decide-registry now call tool args context x (rejected r) = refl

  claim_and_run-registry :
      (now : ℕ) (call : ToolCall) (tool : Tool W) (args : Args) (context : ToolContext)
      (options : ExecuteOptions) (x : Executor W I)
      → (claim_and_run idempotency show now call tool args context options x).0.registry
        ≡ x.registry
  unfolding claim_and_run
  claim_and_run-registry now call tool args context options x =
      elim (Bool-cases (tool.is_write_operation && is_confirmed args)) [
        | inl t ↦ rw t (decide-registry now call tool args context _ _)
        | inr t ↦ rw t (run_tool-registry now call tool args context none x)
      ]

  pass_breaker-registry :
      (now : ℕ) (call : ToolCall) (tool : Tool W) (args : Args) (context : ToolContext)
      (options : ExecuteOptions) (x : Executor W I)
      → (pass_breaker idempotency show now call tool args context options x).0.registry ≡ x.registry
  unfolding pass_breaker
  pass_breaker-registry now call tool args context options x =
      elim (Gate-cases (can_proceed now call.name x.breaker).1) [
        | inl e ↦ rw (e, pass_breaker) (claim_and_run-registry now call tool args context options _)
        | inr (_, e) ↦ rw (e, pass_breaker) refl
      ]

  find_and_pass-registry :
      (now : ℕ) (call : ToolCall) (args : Args) (context : ToolContext) (options : ExecuteOptions)
      (x : Executor W I) (found : Option (Tool W))
      → (find_and_pass idempotency show now call args context options x found).0.registry
        ≡ x.registry
  unfolding find_and_pass pass_gates
  find_and_pass-registry now call args context options x none = refl
  find_and_pass-registry now call args context options x (some tool) =
      let scope = check_scope call.name tool.is_write_operation context.role context.customer_id in
      elim (Bool-cases (context.tenant_id == "")) [
        | inl t ↦ rw t refl
        | inr t ↦ elim (scope-cases scope) [
          | inl e ↦ rw (t, e) (pass_breaker-registry now call tool args context options x)
          | inr (_, _, e) ↦ rw (t, e) refl
        ]
      ]

  pub execute_tool_call-registry :
      (now : ℕ) (call : ToolCall) (context : ToolContext) (options : ExecuteOptions)
      (x : Executor W I)
      → (execute_tool_call idempotency show now call context options x).0.registry ≡ x.registry
  unfolding execute_tool_call
  execute_tool_call-registry now call context options x = by_arguments call.arguments refl
    where
      by_arguments :
          (a : Arguments)
          → call.arguments ≡ a
          → (execute_tool_call idempotency show now call context options x).0.registry ≡ x.registry
      by_arguments (malformed m h) e = rw e refl
      by_arguments (parsed args) e = rw e (
          find_and_pass-registry now call (gated_args (lookup call.name x.registry) options args)
            context options x (lookup call.name x.registry))
