-- ===== src/Executor/Permission.antt =====
-- What src/tools/tool-executor.ts lets run.
use zxql_ai.Prelude.{
  ℕ, String, ◌≡◌, refl, ◌⊎◌, inl, inr, Bool, true, false, not, ◌&&◌, ◌||◌, Option, none, some,
  arith, if◌then◌else◌, Bool-cases, ◌==◌, nat_eq, string_eq, is_some_eq,
}
use zxql_ai.Prelude.Map.{lookup, lookup-insert_self, kept}
use zxql_ai.Json.{boolean, Args}
use zxql_ai.Breaker.{Gate, allowed, refused, can_proceed}
use zxql_ai.Tools.{ToolContext, Ending, returned, threw, Tool}
use zxql_ai.Executor.{
  ScopeCheck, Arguments, in_scope, out_of_scope, check_scope, customer_read_allow,
  customer_write_allow, includes, is_falsy, ToolCall, parsed, malformed, ExecuteOptions,
  IdempotencyDecision, proceed, replay, in_flight, rejected, IdempotencyGate, Executor,
  is_confirmed, gated_args,
}
use zxql_ai.Executor.Run.{
  settle, run_tool, decide, claim_and_run, pass_breaker, pass_gates, find_and_pass,
  execute_tool_call,
}

-- The customer's own lists.
abbrev pub listed_for_customer : String → Bool → Bool
listed_for_customer name write =
    includes name (if write then customer_write_allow else customer_read_allow)

-- A run of a tool that is permitted: a confirmed write only for a caller that may confirm, for a
-- tenant, and for a customer only a tool of the customer's lists.
abbrev pub permitted : String → Bool → Args → ToolContext → ExecuteOptions → Bool
permitted name write args context options =
    (not (write && is_confirmed args) || options.allow_confirm)
    && (not (context.tenant_id == "")
        && (not (is_some_eq context.role "customer")
            || (not (is_falsy context.customer_id) && listed_for_customer name write)))

pub Gate-cases : (g : Gate) → (g ≡ allowed) ⊎ ((n : ℕ) × (g ≡ refused n))
Gate-cases allowed = inl refl
Gate-cases (refused n) = inr (n, refl)

pub scope-cases :
    (c : ScopeCheck) → (c ≡ in_scope) ⊎ ((m : String) × (h : String) × (c ≡ out_of_scope m h))
scope-cases in_scope = inl refl
scope-cases (out_of_scope m h) = inr (m, h, refl)

check_scope-lists :
    (name : String) (write : Bool) (role customer : Option String)
    → check_scope name write role customer ≡ in_scope
    → (not (is_some_eq role "customer")
        || (not (is_falsy customer) && listed_for_customer name write))
      ≡ true
unfolding check_scope
check_scope-lists name write role customer e = ground (arith, e)

-- After the gate of the review a write tool has no confirmation that it may not have.
gated_args-confirm :
    {W : Type 0} (tool : Tool W) (options : ExecuteOptions) (args : Args)
    → (not (tool.is_write_operation && is_confirmed (gated_args (some tool) options args))
        || options.allow_confirm)
      ≡ true
unfolding gated_args
gated_args-confirm tool options args =
    ground (arith, lookup-insert_self "confirm" (boolean false) args)

module _ {W I H : Type 0} (idempotency : IdempotencyGate I H) (show : ℕ → String)
    (P : W → Type 0) where
  -- `P` holds after the tool's own code.
  abbrev KeptBy : Tool W → Args → ToolContext → W → Type 0
  KeptBy tool args context w = P (tool.execute args context w).0

  settle-world :
      (now : ℕ) (call : ToolCall) (tool : Tool W) (args : Args) (context : ToolContext)
      (handle : Option H) (x : Executor W I) (e : Ending)
      → (settle idempotency show now call tool args context handle x e).0.world ≡ x.world
  unfolding settle
  settle-world now call tool args context handle x (returned r) = refl
  settle-world now call tool args context handle x (threw m) = refl

  run_tool-keeps :
      (now : ℕ) (call : ToolCall) (tool : Tool W) (args : Args) (context : ToolContext)
      (handle : Option H) (x : Executor W I)
      → KeptBy tool args context x.world
      → P (run_tool idempotency show now call tool args context handle x).0.world
  unfolding run_tool
  run_tool-keeps now call tool args context handle x kept =
      let (w, ending) = tool.execute args context x.world in
      rw (settle-world now call tool args context handle (record x { world = w }) ending) kept

  decide-keeps :
      (now : ℕ) (call : ToolCall) (tool : Tool W) (args : Args) (context : ToolContext)
      (x : Executor W I) (d : IdempotencyDecision H)
      → P x.world
      → KeptBy tool args context x.world
      → P (decide idempotency show now call tool args context x d).0.world
  unfolding decide
  decide-keeps now call tool args context x (proceed handle) p kept =
      run_tool-keeps now call tool args context handle x kept
  decide-keeps now call tool args context x (replay r) p kept = p
  decide-keeps now call tool args context x (in_flight r) p kept = p
  decide-keeps now call tool args context x (rejected r) p kept = p

  claim_and_run-keeps :
      (now : ℕ) (call : ToolCall) (tool : Tool W) (args : Args) (context : ToolContext)
      (options : ExecuteOptions) (x : Executor W I)
      → P x.world
      → KeptBy tool args context x.world
      → P (claim_and_run idempotency show now call tool args context options x).0.world
  unfolding claim_and_run
  claim_and_run-keeps now call tool args context options x p kept =
      elim (Bool-cases (tool.is_write_operation && is_confirmed args)) [
        | inl t ↦ rw t (decide-keeps now call tool args context _ _ p kept)
        | inr t ↦ rw t (run_tool-keeps now call tool args context none x kept)
      ]

  pass_breaker-keeps :
      (now : ℕ) (call : ToolCall) (tool : Tool W) (args : Args) (context : ToolContext)
      (options : ExecuteOptions) (x : Executor W I)
      → P x.world
      → KeptBy tool args context x.world
      → P (pass_breaker idempotency show now call tool args context options x).0.world
  unfolding pass_breaker
  pass_breaker-keeps now call tool args context options x p kept =
      elim (Gate-cases (can_proceed now call.name x.breaker).1) [
        | inl e ↦
            rw (e, pass_breaker) (claim_and_run-keeps now call tool args context options _ p kept)
        | inr (_, e) ↦ rw (e, pass_breaker) p
      ]

  pass_gates-keeps :
      (now : ℕ) (call : ToolCall) (tool : Tool W) (args : Args) (context : ToolContext)
      (options : ExecuteOptions) (x : Executor W I)
      → P x.world
      → (not (tool.is_write_operation && is_confirmed args) || options.allow_confirm) ≡ true
      → (permitted call.name tool.is_write_operation args context options ≡ true
          → KeptBy tool args context x.world)
      → P (pass_gates idempotency show now call tool args context options x).0.world
  unfolding pass_gates
  pass_gates-keeps now call tool args context options x p confirmable kept =
      let scope = check_scope call.name tool.is_write_operation context.role context.customer_id in
      elim (Bool-cases (context.tenant_id == "")) [
        | inl t ↦ rw t p
        | inr t ↦ elim (scope-cases scope) [
          | inl e ↦
              rw (t, e)
                (pass_breaker-keeps now call tool args context options x p (
                  kept (
                    rw (confirmable, t)
                      (check_scope-lists call.name tool.is_write_operation context.role
                        context.customer_id e))))
          | inr (_, _, e) ↦ rw (t, e) p
        ]
      ]

  find_and_pass-keeps :
      (now : ℕ) (call : ToolCall) (args : Args) (context : ToolContext) (options : ExecuteOptions)
      (x : Executor W I) (found : Option (Tool W))
      → P x.world
      → ((tool : Tool W)
          → found ≡ some tool
          → permitted call.name tool.is_write_operation
              (gated_args found options args)
              context
              options
            ≡ true
          → KeptBy tool (gated_args found options args) context x.world)
      → P
          (find_and_pass idempotency show now call
            (gated_args found options args)
            context
            options
            x
            found).0.world
  unfolding find_and_pass
  find_and_pass-keeps now call args context options x none p kept = p
  find_and_pass-keeps now call args context options x (some tool) p kept =
      pass_gates-keeps now call tool _ context options x p (gated_args-confirm tool options args)
        (kept tool refl)

  -- A property of the services that every permitted run of a registered tool keeps is kept by every
  -- call, whatever its arguments and the caller's claims are: a write tool sees `confirm: true` only
  -- where the caller may confirm, and a customer reaches only the tools of the customer's lists.
  pub execute_tool_call-keeps :
      (now : ℕ) (call : ToolCall) (context : ToolContext) (options : ExecuteOptions)
      (x : Executor W I)
      → ((tool : Tool W) (args : Args)
          → lookup call.name x.registry ≡ some tool
          → permitted call.name tool.is_write_operation args context options ≡ true
          → KeptBy tool args context x.world)
      → P x.world
      → P (execute_tool_call idempotency show now call context options x).0.world
  unfolding execute_tool_call
  execute_tool_call-keeps now call context options x kept p = by_arguments call.arguments refl
    where
      by_arguments :
          (a : Arguments)
          → call.arguments ≡ a
          → P (execute_tool_call idempotency show now call context options x).0.world
      by_arguments (malformed m h) e = rw e p
      by_arguments (parsed args) e = rw e (
          find_and_pass-keeps now call args context options x (lookup call.name x.registry) p
            (λ tool there ok. kept tool _ there ok))
