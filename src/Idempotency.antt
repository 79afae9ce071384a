-- ===== src/Idempotency.antt =====
-- src/tools/idempotency-gate.service.ts and the table of
-- src/database/entities/ai-idempotency.entity.ts: the rows, the table as an interface, and the gate
-- with its service. The text of a result is kept as the result that it parses to.
use zxql_ai.Prelude.{
  ℕ, zero, suc, ◌+◌, ◌-◌, ◌*◌, ◌/◌, ◌%◌, ◌^◌, ◌≤◌, ◌<◌, min, max, String, ◌≡◌, refl, sym, ap, ◌∙◌,
  subst, ◌≢◌, ◌↔◌, ◌⊎◌, inl, inr, Bool, true, false, not, ◌&&◌, ◌||◌, Option, none, some, List, [],
  ◌∷◌, ◌++◌, map, arith, ltb, leb, nat_beq, if◌then◌else◌, ltb→lt, lt→ltb, le→not-ltb, not-ltb→le,
  leb→le, le→leb, not-leb→lt, lt→not-leb, nat_beq_iff, Bool-cases, Option-cases, Equality, ◌==◌,
  beq_refl, nat_eq, string_eq, str_eq_iff, is_some_eq, String-discrete, decided, decision_iff,
  length, length-append, filter, length-filter-le, any, All, All-append, All-filter, All-intro,
  sort, sort-mem, length-sort, map-mem, Memᴰ,
}
use Prim.Native.String.{◌++◌ as append, count}
use text.Mathlib.Text.{find?}
use zxql_ai.Tools.{ToolContext, ToolResult, failure}
use zxql_ai.Executor.{
  IdempotencyCheckInput, IdempotencyDecision, proceed, replay, in_flight, rejected,
}
use zxql_ai.Redis.{RedisClient}
pub mod Keys
pub mod Gate
pub mod Once
pub mod Attempts
mod Tests

pub data IdempotencyKeySource : Type 0 where
  confirm_token explicit business_key payload_hash : IdempotencyKeySource

pub data IdempotencyStatus : Type 0 where
  running succeeded failed : IdempotencyStatus

-- The column `result_json`: the text of a result, or a text that does not parse.
pub data StoredResult : Type 0 where
  result_of : ToolResult → StoredResult
  unreadable : StoredResult

-- The unique key of the table.
pub record RowKey : Type 0 where
  pub tenant_id : String
  pub tool_name : String
  pub idem_key : String

pub record IdempotencyRow : Type 0 where
  pub id : String
  pub key : RowKey
  pub key_source : IdempotencyKeySource
  pub status : IdempotencyStatus
  pub result_json : Option StoredResult
  pub error_text : Option String
  pub first_seen_at : ℕ
  pub completed_at : Option ℕ
  pub created_at : ℕ
  pub updated_at : ℕ

pub record IdempotencyHandle : Type 0 where
  pub id : String
  pub key : RowKey
  pub key_source : IdempotencyKeySource

-- An error of the database driver: its own codes and those of the error it wraps.
pub record DbError : Type 0 where
  pub codes : List String
  pub errnos : List ℕ
  pub messages : List String

abbrev contains : String → String → Bool
contains part s = is_found (find? s part)
  where
    is_found : Option ℕ → Bool
    is_found none = false
    is_found (some _) = true

unfoldable pub is_duplicate_key_error : DbError → Bool
is_duplicate_key_error e =
    any (λ c. c == "ER_DUP_ENTRY") e.codes
    || (any (λ n. n == 1062) e.errnos
        || (any (λ c. c == "SQLITE_CONSTRAINT_UNIQUE") e.codes
            || (any (λ c. c == "SQLITE_CONSTRAINT_PRIMARYKEY") e.codes
                || any (λ m. contains "Duplicate entry" m || contains "UNIQUE constraint failed" m)
                    e.messages)))

-- The reply of an insert: the new identifier, or the error.
pub data InsertReply : Type 0 where
  inserted : String → InsertReply
  insert_failed : DbError → InsertReply

-- The statements that the service runs on the table, of state `D`; `none` is a rejected promise.
pub record Repository (D : Type 0) : Type 0 where
  -- `insert` of a row; the identifier of the argument is not used.
  pub insert_row : IdempotencyRow → D → D × InsertReply
  -- `findOne` by the unique key.
  pub find_row : RowKey → D → D × Option (Option IdempotencyRow)
  -- `update` of a row that has failed to one that runs since the given time: the rows affected.
  pub reopen : String → ℕ → D → D × Option ℕ
  -- `update` of a row to its end at the given time; whether it was done.
  pub finish : String → IdempotencyStatus → Option StoredResult → Option String → ℕ → D → D × Bool
  -- `update` to failed of the rows that run since before the first time; the rows affected.
  pub mark_stale : ℕ → ℕ → D → D × Option ℕ
  -- `DELETE … WHERE created_at < ? LIMIT ?`
  pub delete_before : ℕ → ℕ → D → D × Option ℕ

-- The state: the table, the Redis client, the failures reported.
pub record Idempotency (S : Type 0) (D : Type 0) : Type 0 where
  pub table : D
  pub redis : S
  pub enabled : Bool
  pub reported : List (String × String)

abbrev pub redis_ttl_sec : ℕ
redis_ttl_sec = 600

abbrev pub payload_ttl_sec : ℕ
payload_ttl_sec = 60

abbrev pub retention_ms : ℕ
retention_ms = 30 * 24 * 60 * 60 * 1000

abbrev pub in_flight_timeout_ms : ℕ
in_flight_timeout_ms = 600000

abbrev pub cleanup_batch : ℕ
cleanup_batch = 5000

abbrev pub cleanup_max_loops : ℕ
cleanup_max_loops = 200
