-- ===== src/Idempotency/Tests.antt =====
-- The idempotency gate over a small table.
use zxql_ai.Prelude.{
  nat_beq, Bool-cases, length, inl, inr, ℕ, ◌+◌, ◌≤◌, ltb, ◌&&◌, String, ◌≡◌, refl, Bool, true,
  false, Option, none, some, List, [], ◌∷◌, if◌then◌else◌, Equality, ◌==◌, beq_refl, nat_eq,
  string_eq, String-discrete, decided, decision_iff,
}
use zxql_ai.Json.{Json}
use zxql_ai.Tools.{ToolResult}
use zxql_ai.Executor.{IdempotencyCheckInput, replay}
use zxql_ai.RedisMemory.{RedisMemory, new_client}
use zxql_ai.Redis.{RedisClient, standalone}
use zxql_ai.Idempotency.{
  IdempotencyStatus, running, succeeded, failed, confirm_token, RowKey, IdempotencyRow,
  IdempotencyHandle, DbError, is_duplicate_key_error, InsertReply, inserted, insert_failed,
  Repository, Idempotency,
}
use zxql_ai.Idempotency.Keys.{is_valid_explicit_key}
use zxql_ai.Idempotency.Gate.{row_key, check, complete}
use zxql_ai.Idempotency.Once.{Table, Answers}
use zxql_ai.Idempotency.Attempts.{
  Attempt, Event, attempted, cleaned, run_events, runs-le, complete-replay,
}

RowKey-discrete : Discrete RowKey
RowKey-discrete = hlevel String-discrete

instance abbrev row_key_eq : Equality RowKey
row_key_eq = record {
  same = λ j k. decided (RowKey-discrete j k);
  same_iff = decision_iff RowKey-discrete;
}

-- A table as the function that finds its rows; each row has the same identifier.
abbrev Rows : Type 0
Rows = RowKey → Option IdempotencyRow

abbrev duplicate_error : DbError
duplicate_error = record { codes = "ER_DUP_ENTRY" ∷ []; errnos = []; messages = [] }

abbrev lost_error : DbError
lost_error = record { codes = "ECONNRESET" ∷ []; errnos = []; messages = [] }

-- A claim at the time 99 is rejected.
abbrev put_new : IdempotencyRow → Rows → Option IdempotencyRow → Rows × InsertReply
put_new row d (some _) = (d, insert_failed duplicate_error)
put_new row d none =
    if nat_beq row.first_seen_at 99
    then (d, insert_failed lost_error)
    else (λ k. if k == row.key then some (record row { id = "1" }) else d k, inserted "1")

abbrev change_row :
    (IdempotencyRow → IdempotencyRow) → Option IdempotencyRow → Option IdempotencyRow
change_row f none = none
change_row f (some row) = some (f row)

-- A claim that was seen before this time has failed.
abbrev fail_stale : ℕ → IdempotencyRow → IdempotencyRow
fail_stale before row =
    if ltb row.first_seen_at before && is_running row.status
    then record row { status = failed }
    else row
  where
    is_running : IdempotencyStatus → Bool
    is_running running = true
    is_running succeeded = false
    is_running failed = false

abbrev small_table : Repository Rows
small_table = record {
  insert_row = λ row d. put_new row d (d row.key);
  find_row = λ k d. (d, some (d k));
  reopen = λ id now d. (
    λ k.
        change_row
          (λ row. record row {
            status = running;
            first_seen_at = now;
            completed_at = none;
            error_text = none;
            updated_at = now;
          })
          (d k),
    some 1,
  );
  finish = λ id status stored error now d. (
    λ k.
        change_row
          (λ row. record row {
            status = status;
            result_json = stored;
            error_text = error;
            completed_at = some now;
            updated_at = now;
          })
          (d k),
    true,
  );
  mark_stale = λ before now d. (λ k. change_row (fail_stale before) (d k), some 1);
  delete_before = λ cutoff limit d. (d, some 0);
}

is_duplicate : is_duplicate_key_error duplicate_error ≡ true
unfolding is_duplicate_key_error
is_duplicate = refl

is_lost : is_duplicate_key_error lost_error ≡ false
unfolding is_duplicate_key_error
is_lost = refl

abbrev small_table-Table : Table small_table
small_table-Table = record {
  view = λ d k. d k;
  find_reads = λ k d. (inr refl, refl);
  insert_new = λ row d free. elim (Bool-cases (nat_beq row.first_seen_at 99)) [
    | inl e ↦ inr (lost_error, rw (free, e) refl, rw (free, e) refl, is_lost)
    | inr e ↦ inl ("1", rw (free, e) refl, rw (free, e, beq_refl row.key) refl)
  ];
  insert_held = λ row held d there. (duplicate_error, rw there refl, rw there refl);
  reopens = λ k row now d there was_failed. inl (refl, rw there refl);
  finishes = λ k row status stored error now d there. inl (refl, rw there refl);
}

small_table-Answers : Answers small_table small_table-Table
small_table-Answers = record {
  reads = λ k d. refl;
  duplicates = λ row held d there. (duplicate_error, rw there refl, is_duplicate);
}

abbrev client : RedisClient (RedisMemory String) String
client = standalone

abbrev same_text : String → String
same_text s = s

abbrev no_json : Json → String
no_json j = "{}"

abbrev no_number : ℕ → String
no_number n = "0"

abbrev start : Idempotency (RedisMemory String) Rows
start = record { table = λ k. none; redis = new_client; enabled = true; reported = [] }

abbrev order : IdempotencyCheckInput
order = record {
  tool_name = "create_order";
  args = [];
  tool_call_id = some "confirm-wg_a";
  context = record {
    tenant_id = "t1";
    user_id = none;
    session_id = none;
    request_id = none;
    role = none;
    customer_id = none;
    auth_token = none;
    employee_uid = none;
    dispatch_depth = none;
  };
  explicit_key = none;
  key_fields = none;
}

abbrev done : Bool → ToolResult
done ok = record {
  success = ok;
  data_value = none;
  error = none;
  suggestion = none;
  idempotent_replay = none;
  original_completed_at = none;
  preview = none;
}

abbrev at : ℕ → Option ToolResult → Attempt
at now outcome = record { now = now; input = order; outcome = outcome }

-- A run without a claim, which is rejected, a run that fails, one that the process does not complete, a cleanup that takes the row as failed,
-- a run that succeeds, and a request that comes again.
abbrev events : List Event
events =
    attempted (at 99 (some (done true)))
    ∷ attempted (at 1000 (some (done false)))
    ∷ attempted (at 2000 none)
    ∷ cleaned 100000000
    ∷ attempted (at 100001000 (some (done true)))
    ∷ attempted (at 100002000 (some (done true)))
    ∷ []

valid_keys :
    (is_valid_explicit_key "order-2024:0001" ≡ true)
    × (is_valid_explicit_key "short" ≡ false)
    × (is_valid_explicit_key "-order-2024" ≡ false)
unfolding is_valid_explicit_key
valid_keys = (refl, refl, refl)

abbrev order_key : RowKey
order_key = row_key client small_table same_text no_json same_text no_number no_number order

runs-le_example :
    let (s', (ran, failures)) =
      run_events client small_table same_text no_json same_text no_number no_number events start in
    ran + 0 ≤ 1 + failures + 1 + length s'.reported
runs-le_example =
    runs-le client small_table same_text no_json same_text no_number no_number small_table-Table
      order_key events start
      ((refl, refl), ((refl, refl), ((refl, refl), (tt, ((refl, refl), ((refl, refl), tt)))))) refl

abbrev running_row : IdempotencyRow
running_row = record {
  id = "1";
  key = order_key;
  key_source = confirm_token;
  status = running;
  result_json = none;
  error_text = none;
  first_seen_at = 500;
  completed_at = none;
  created_at = 500;
  updated_at = 500;
}

abbrev claimed : Idempotency (RedisMemory String) Rows
claimed = record start { table = λ k. some running_row }

abbrev handle : IdempotencyHandle
handle = record { id = "1"; key = order_key; key_source = confirm_token }

complete-replay_example :
    let s' =
      complete client small_table same_text no_json same_text no_number no_number 1000
        (some handle)
        (done true)
        claimed in
    (check client small_table same_text no_json same_text no_number no_number 2000 order s').1
    ≡ replay
        (record (done true) { idempotent_replay = some true; original_completed_at = some "0" })
complete-replay_example =
    complete-replay client small_table same_text no_json same_text no_number no_number
      small_table-Table order_key 1000 2000 order handle running_row (done true) claimed
      small_table-Answers (refl, refl) refl refl refl refl refl
