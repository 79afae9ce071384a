-- ===== src/WriteGuard/Tests.antt =====
-- The write guard at concrete inputs.
use zxql_ai.Prelude.{
  ◌+◌, ◌≤◌, String, ◌≡◌, refl, Bool, true, false, none, some, List, [], ◌∷◌, arith, nat_eq,
  string_eq,
}
use zxql_ai.Prelude.Map.{lookup, insert, delete}
use zxql_ai.RedisMemory.{RedisMemory, new_client}
use zxql_ai.Redis.{RedisClient, standalone}
use zxql_ai.WriteGuard.{
  save, save_memory, audit, load, high, Cell, cell_eq, WriteGuard, memory_key, mask_token,
  on_module_init,
}
use zxql_ai.WriteGuard.Service.{
  acquire_token_lock, release_token_lock, answer, cancel, do_cancel, cleanup_expired, clean,
  SuspendWriteInput, suspend, new_write, get as get_write, do_confirm, confirm,
}
use zxql_ai.WriteGuard.Authority.{IsAuthorised, confirm-IsAuthorised}
use zxql_ai.WriteGuard.Calls.{Call, suspends, confirms, cancels, cleans, run_call, run_calls}
use zxql_ai.WriteGuard.Moves.{quiet, voted, released, entered, outcome_of}
use zxql_ai.WriteGuard.Approval.{releases, votes, openings, released-le, released-voted}
use zxql_ai.WriteGuard.Lifecycle.{Approval, suspend-confirm}

abbrev client : RedisClient (RedisMemory Cell) Cell
client = standalone

abbrev new_guard : Bool → WriteGuard (RedisMemory Cell)
new_guard on = record {
  redis = new_client;
  redis_available = on;
  memory_map = [];
  memory_index = [];
  token_ttl_ms = 86400000;
  audit_logger = some [];
}

-- In the standalone form the writes are kept in the memory map.
standalone_start : (on_module_init client new_client (new_guard true)).redis_available ≡ false
unfolding on_module_init
standalone_start = refl

abbrev order : SuspendWriteInput
order = record {
  tenant_id = "t1";
  conversation_id = none;
  customer_id = some "c7";
  plan_id = none;
  plan_step_id = none;
  tool_name = "delete_bill";
  doc_type = "bill";
  risk = high;
  needs_review = false;
  args = [];
  preview = none;
  operation_label = "delete";
}

abbrev key : String
key = memory_key "t1" "wg_a"

abbrev history : List Call
history =
    suspends 1000 "a" order
    ∷ confirms 2000 "l1" "wg_a" "t1" (some "c8")
    ∷ confirms 2000 "l2" "wg_a" "t1" (some "c7")
    ∷ cancels 2500 "l3" "wg_b" "t1"
    ∷ confirms 3000 "l4" "wg_a" "t1" (some "c7")
    ∷ confirms 4000 "l5" "wg_a" "t1" (some "c7")
    ∷ cleans 5000
    ∷ []

history_outcomes :
    (run_calls client key history (new_guard false)).1
    ≡ entered true ∷ quiet ∷ voted ∷ released ∷ quiet ∷ []
unfolding lookup insert delete new_client run_calls run_call suspend new_write save save_memory
    audit confirm acquire_token_lock release_token_lock do_confirm answer get_write load outcome_of
    cancel do_cancel memory_key cleanup_expired clean
history_outcomes = refl

short_token : mask_token "wg_12345678-abcd" ≡ "wg_12345…abcd"
unfolding mask_token
short_token = refl

confirm-IsAuthorised_example :
    IsAuthorised 2000
      (some "c7")
      (confirm client 2000 "l" "wg_a" "t1"
        (some "c7")
        (suspend client 1000 "a" order (new_guard false)).0).1
confirm-IsAuthorised_example =
    confirm-IsAuthorised client 2000 "l" "wg_a" "t1" (some "c7")
      (suspend client 1000 "a" order (new_guard false)).0

released-le_example :
    releases (run_calls client key history (new_guard false)).1
    ≤ 1 + openings (run_calls client key history (new_guard false)).1
released-le_example = released-le client key history (new_guard false) (refl, tt)

released-voted_example :
    releases (run_calls client key history (new_guard false)).1
    ≤ 0 + votes (run_calls client key history (new_guard false)).1
unfolding lookup
released-voted_example =
    released-voted client key history (new_guard false) (refl, tt) tt
      (rw history_outcomes (refl, (refl, (refl, (refl, (refl, tt))))))

suspend-confirm_example :
    let (s₁, w) = suspend client 1000 "a" order (new_guard false) in
    let (s₂, first) = confirm client 2000 "l" w.token w.tenant_id (some "c7") s₁ in
    let (_, second) = confirm client 3000 "m" w.token w.tenant_id (some "c7") s₂ in
    Approval w first second
suspend-confirm_example =
    suspend-confirm client 1000 2000 3000 "a" "l" "m" order (some "c7") (new_guard false) (refl, tt)
      (omega arith) (omega arith) refl
