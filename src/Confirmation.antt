-- ===== src/Confirmation.antt =====
-- src/brain/confirmation.service.ts: confirmations over the write guard, and the window in which an
-- executed operation can be revoked. `now` and `fresh` stand for `Date.now()` and `randomUUID()`.
use zxql_ai.Prelude.{
  ℕ, zero, suc, ◌+◌, ◌-◌, ◌*◌, ◌/◌, ◌%◌, ◌^◌, ◌≤◌, ◌<◌, min, max, String, ◌≡◌, refl, sym, ap, ◌∙◌,
  subst, ◌≢◌, ◌↔◌, ◌⊎◌, inl, inr, Bool, true, false, not, ◌&&◌, ◌||◌, Option, none, some, List, [],
  ◌∷◌, ◌++◌, map, arith, ltb, leb, nat_beq, if◌then◌else◌, ltb→lt, lt→ltb, le→not-ltb, not-ltb→le,
  leb→le, le→leb, not-leb→lt, lt→not-leb, nat_beq_iff, Bool-cases, Option-cases, Equality, ◌==◌,
  beq_refl, nat_eq, string_eq, str_eq_iff, is_some_eq, String-discrete, decided, decision_iff,
  length, length-append, filter, length-filter-le, any, All, All-append, All-filter, All-intro,
  sort, sort-mem, length-sort, map-mem, Memᴰ,
}
use zxql_ai.Prelude.Map.{
  lookup, insert, delete, lookup-insert, lookup-delete, delete-insert, lookup-insert_self,
  length-insert-le, length-delete-le, lookup-mem, AllEntries, lookup-AllEntries, insert-AllEntries,
  delete-AllEntries, UniqueKeys, insert-UniqueKeys, delete-UniqueKeys, lookup-filter-none,
  filter-UniqueKeys, kept, lookup-filter,
}
use zxql_ai.Json.{Json, undefined, boolean, text, Args}
use zxql_ai.Tools.{ToolContext, ToolResult}
use zxql_ai.Executor.{ToolCall, parsed, ExecuteOptions}
use zxql_ai.Redis.{RedisClient}
use zxql_ai.WriteGuard.{ToolRisk, medium, high, WriteGuardStatus, PendingWrite, Cell, WriteGuard}
use zxql_ai.WriteGuard.Service.{
  SuspendWriteInput, ConfirmError, refused, accepted, WriteGuardConfirmResult,
}
use zxql_ai.WriteGuard.Service
pub mod Window
pub mod Execute
pub mod Runs
pub mod Revocation
mod Tests

-- The states are those of the write guard.
pub record PendingConfirmation : Type 0 where
  pub confirmation_id : String
  pub tenant_id : String
  pub conversation_id : Option String
  pub customer_id : Option String
  pub plan_id : Option ℕ
  pub plan_step_id : Option String
  pub tool_name : String
  pub doc_type : String
  pub risk : ToolRisk
  pub needs_review : Bool
  pub confirm_count : ℕ
  pub args : Args
  pub preview : Option Json
  pub operation_label : String
  pub created_at : ℕ
  pub expires_at : ℕ
  pub status : WriteGuardStatus

unfoldable pub to_confirmation : PendingWrite → PendingConfirmation
to_confirmation w = record {
  confirmation_id = w.token;
  tenant_id = w.tenant_id;
  conversation_id = w.conversation_id;
  customer_id = w.customer_id;
  plan_id = w.plan_id;
  plan_step_id = w.plan_step_id;
  tool_name = w.tool_name;
  doc_type = w.doc_type;
  risk = w.risk;
  needs_review = w.needs_review;
  confirm_count = w.confirm_count;
  args = w.args;
  preview = w.preview;
  operation_label = w.operation_label;
  created_at = w.created_at;
  expires_at = w.expires_at;
  status = w.status;
}

pub record CreateConfirmationInput : Type 0 where
  pub tenant_id : String
  pub conversation_id : Option String
  pub customer_id : Option String
  pub plan_id : Option ℕ
  pub plan_step_id : Option String
  pub tool_name : String
  pub doc_type : Option String
  pub risk : Option ToolRisk
  pub needs_review : Option Bool
  pub args : Args
  pub preview : Option Json
  pub operation_label : String

pub data ExecutedStatus : Type 0 where
  executed revoked : ExecutedStatus

pub record ExecutedOperation : Type 0 where
  pub operation_id : String
  pub tenant_id : String
  pub conversation_id : Option String
  pub confirmation_id : Option String
  pub tool_name : String
  pub args : Args
  pub result : Option Json
  pub operation_label : String
  pub executed_at : ℕ
  pub revoke_expires_at : ℕ
  pub status : ExecutedStatus
  pub last_revoke_error : Option String
  pub revoke_attempts : Option ℕ

pub record RegisterExecutedInput : Type 0 where
  pub tenant_id : String
  pub conversation_id : Option String
  pub confirmation_id : Option String
  pub tool_name : String
  pub args : Args
  pub result : Option Json
  pub operation_label : String

abbrev pub Operations : Type 0
Operations = List (String × ExecutedOperation)

-- What the evidence ledger is told of a write.
pub record Evidence : Type 0 where
  pub context : ToolContext
  pub tool_name : String
  pub args : Args
  pub data_value : Option Json

-- The service: the write guard with its Redis state `S`, the tool executor with its state `X` and
-- whether it is there, the evidence ledger, which may be absent, and the operations that can be
-- revoked.
pub record Confirmations (S : Type 0) (X : Type 0) : Type 0 where
  pub write_guard : WriteGuard S
  pub executor : X
  pub has_executor : Bool
  pub evidence : Option (List Evidence)
  pub executed_map : Operations

pub data ConfirmResult : Type 0 where
  confirmed_as : PendingConfirmation → Bool → ConfirmResult
  not_confirmed : ConfirmError → ConfirmResult

abbrev pub revoke_ttl_ms : ℕ
revoke_ttl_ms = 180000

abbrev or_else {ℓ} : {A : Type ℓ} → Option A → A → A
or_else none d = d
or_else (some a) d = a

abbrev is_high : ToolRisk → Bool
is_high high = true
is_high _ = false

abbrev shown : Option (Bool × PendingWrite) → Option PendingConfirmation
shown none = none
shown (some (_, w)) = some (to_confirmation w)

abbrev pub confirm_result : WriteGuardConfirmResult → ConfirmResult
confirm_result (accepted w second) = confirmed_as (to_confirmation w) second
confirm_result (refused e) = not_confirmed e

module _ {S X : Type 0} (client : RedisClient S Cell) where
  abbrev on_guard : {A : Type 0} → Confirmations S X → WriteGuard S × A → Confirmations S X × A
  on_guard c (g, a) = (record c { write_guard = g }, a)

  unfoldable pub create :
      ℕ
      → String
      → CreateConfirmationInput
      → Confirmations S X
      → Confirmations S X × PendingConfirmation
  unfolding to_confirmation
  create now fresh input c =
      let risk = or_else input.risk medium in
      let (c', w) = on_guard c (
        Service.suspend client now fresh
          (record {
            tenant_id = input.tenant_id;
            conversation_id = input.conversation_id;
            customer_id = input.customer_id;
            plan_id = input.plan_id;
            plan_step_id = input.plan_step_id;
            tool_name = input.tool_name;
            doc_type = or_else input.doc_type input.tool_name;
            risk = risk;
            needs_review = or_else input.needs_review (is_high risk);
            args = input.args;
            preview = input.preview;
            operation_label = input.operation_label;
          })
          c.write_guard) in
      (c', to_confirmation w)

  unfoldable pub get_by_tenant :
      ℕ → String → String → Confirmations S X → Confirmations S X × Option PendingConfirmation
  get_by_tenant now id tenant c =
      let (c', found) = on_guard c (Service.get client now id tenant c.write_guard) in
      (c', shown found)

  -- The query without a tenant asks for the tenant `*`.
  unfoldable pub get :
      ℕ → String → Confirmations S X → Confirmations S X × Option PendingConfirmation
  unfolding get_by_tenant
  get now id c = get_by_tenant now id "*" c

  unfoldable pub list_pending :
      ℕ → String → Confirmations S X → Confirmations S X × List PendingConfirmation
  list_pending now tenant c =
      let (c', ws) = on_guard c (Service.list_pending client now tenant c.write_guard) in
      (c', map to_confirmation ws)

  unfoldable pub confirm :
      ℕ
      → String
      → String
      → String
      → Option String
      → Confirmations S X
      → Confirmations S X × ConfirmResult
  confirm now fresh id tenant customer c =
      let (c', result) =
        on_guard c (Service.confirm client now fresh id tenant customer c.write_guard) in
      (c', confirm_result result)

  unfoldable pub cancel :
      ℕ → String → String → String → Confirmations S X → Confirmations S X × Bool
  cancel now fresh id tenant c =
      on_guard c (Service.cancel client now fresh id tenant c.write_guard)

  unfoldable pub reset_to_pending :
      ℕ → String → String → Confirmations S X → Confirmations S X × Bool
  reset_to_pending now id tenant c =
      on_guard c (Service.reset_to_pending client now id tenant c.write_guard)
