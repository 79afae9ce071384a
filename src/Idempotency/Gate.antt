-- ===== src/Idempotency/Gate.antt =====
-- The operations of src/tools/idempotency-gate.service.ts. `iso` is the text of a time and `show` of
-- a number. A step of `runGate` that rejects makes `check` let the call pass without a claim.
use zxql_ai.Prelude.{
  ℕ, zero, suc, ◌+◌, ◌-◌, ◌*◌, String, Bool, true, false, not, Option, none, some, ◌∷◌, ltb,
  nat_beq, if◌then◌else◌, nat_eq, string_eq,
}
use Prim.Native.String.{◌++◌ as append, count}
use zxql_ai.Json.{Json}
use zxql_ai.Tools.{ToolResult, failure}
use zxql_ai.Executor.{
  IdempotencyCheckInput, IdempotencyDecision, proceed, replay, in_flight, rejected,
}
use zxql_ai.Redis.{RedisClient}
use zxql_ai.Idempotency.{
  IdempotencyKeySource, IdempotencyStatus, running, succeeded, failed, StoredResult, result_of,
  unreadable, RowKey, IdempotencyRow, IdempotencyHandle, is_duplicate_key_error, inserted,
  insert_failed, Repository, Idempotency, retention_ms, in_flight_timeout_ms, cleanup_batch,
  cleanup_max_loops,
}
use zxql_ai.Idempotency.Keys.{is_valid_explicit_key, given, choose_key, build_key}

abbrev pub Decision : Type 0
Decision = IdempotencyDecision IdempotencyHandle

unfoldable pub in_flight_result : String → ToolResult
in_flight_result tool =
    failure (append "该写操作正在处理中（工具 " (append tool "），重复提交已被幂等闸门拦截"))
      (some "请稍后查询该操作的结果；重复提交不会产生第二笔单据，无需再次确认")

-- `Number` of the characters of the key, in the reason.
unfoldable pub invalid_key_result : (ℕ → String) → String → ToolResult
invalid_key_result show key =
    failure
      (append "idempotencyKey 非法：显式幂等键不合规（要求 8~128 字符、字母数字开头、仅可用 A-Z a-z 0-9 . _ : -）：长度 "
        (show (count key)))
      (some "请改用业务唯一键（如 ERP 单号/工单号，8~128 字符、字母数字开头）；不传该字段则按确认令牌/业务参数指纹自动防重")

-- A key that is given and not valid.
abbrev pub bad_key : Option String → Option String
bad_key none = none
bad_key (some key) = if is_valid_explicit_key key then none else some key

abbrev pub completed_text : (ℕ → String) → Option ℕ → Option String → Option String
completed_text iso none d = d
completed_text iso (some t) d = some (iso t)

-- The error text is whole; the source keeps its first 512 characters.
abbrev pub error_of : ToolResult → Option String
error_of r = if r.success then none else some (error_or r.error)
  where
    error_or : Option String → String
    error_or none = "未知失败"
    error_or (some e) = e

abbrev pub replayed : (ℕ → String) → IdempotencyRow → ToolResult → ToolResult
replayed iso row original = record original {
  idempotent_replay = some true;
  original_completed_at = completed_text iso row.completed_at original.original_completed_at;
}

module _ {S D : Type 0} (client : RedisClient S String) (repo : Repository D)
    (trim : String → String) (stringify : Json → String) (sha256 : String → String)
    (show iso : ℕ → String) where
  abbrev pub row_key : IdempotencyCheckInput → RowKey
  row_key input = record {
    tenant_id = input.context.tenant_id;
    tool_name = input.tool_name;
    idem_key = build_key trim stringify sha256 input;
  }

  abbrev pub redis_key : IdempotencyCheckInput → String
  redis_key input = append "ai:idem:" (
      append input.context.tenant_id
        (append ":" (append input.tool_name (append ":" (build_key trim stringify sha256 input)))))

  abbrev pub source_of : IdempotencyCheckInput → IdempotencyKeySource
  source_of input = (choose_key trim stringify sha256 input).key_source

  -- `none` where a statement is rejected.
  abbrev pub retry_failed :
      ℕ
      → IdempotencyRow
      → IdempotencyCheckInput
      → Idempotency S D
      → Idempotency S D × Option Decision
  retry_failed now row input s =
      let (table, affected) = repo.reopen row.id now s.table in
      let s' = record s { table = table } in
      let busy = in_flight (in_flight_result input.tool_name) in
      elim affected [
        | none ↦ (s', none)
        | some n ↦
            if nat_beq n 1
            then (
              s',
              some (
                  proceed
                    (some (record { id = row.id; key = row.key; key_source = source_of input }))),
            )
            else (s', some busy)
      ]

  abbrev pub replay_stored : IdempotencyRow → String → Option StoredResult → Decision
  replay_stored row tool none = in_flight (in_flight_result tool)
  replay_stored row tool (some unreadable) = in_flight (in_flight_result tool)
  replay_stored row tool (some (result_of original)) = replay (replayed iso row original)

  -- By the status of the row.
  unfoldable pub decide_status :
      ℕ
      → IdempotencyRow
      → IdempotencyCheckInput
      → Idempotency S D
      → IdempotencyStatus
      → Idempotency S D × Option Decision
  unfolding in_flight_result
  decide_status now row input s succeeded =
      (s, some (replay_stored row input.tool_name row.result_json))
  decide_status now row input s failed = retry_failed now row input s
  decide_status now row input s running = (s, some (in_flight (in_flight_result input.tool_name)))

  unfoldable pub decide_from_row :
      ℕ
      → IdempotencyRow
      → IdempotencyCheckInput
      → Idempotency S D
      → Idempotency S D × Option Decision
  unfolding decide_status
  decide_from_row now row input s = decide_status now row input s row.status

  -- A look at the row, and what to do where there is none.
  unfoldable pub look_up :
      ℕ
      → IdempotencyCheckInput
      → (Idempotency S D → Idempotency S D × Option Decision)
      → Idempotency S D
      → Idempotency S D × Option Decision
  unfolding decide_from_row
  look_up now input otherwise s =
      let (table, reply) = repo.find_row (row_key input) s.table in
      let s' = record s { table = table } in
      elim reply [
        | none ↦ (s', none)
        | some none ↦ otherwise s'
        | some (some row) ↦ decide_from_row now row input s'
      ]

  abbrev pub report : String → IdempotencyCheckInput → Idempotency S D → Idempotency S D
  report op input s = record s { reported = (op, input.tool_name) ∷ s.reported }

  abbrev pub new_row : ℕ → IdempotencyCheckInput → IdempotencyRow
  new_row now input = record {
    id = "";
    key = row_key input;
    key_source = source_of input;
    status = running;
    result_json = none;
    error_text = none;
    first_seen_at = now;
    completed_at = none;
    created_at = now;
    updated_at = now;
  }

  -- The claim in the table.
  unfoldable pub claim :
      ℕ → IdempotencyCheckInput → Idempotency S D → Idempotency S D × Option Decision
  unfolding look_up
  claim now input s =
      let (table, reply) = repo.insert_row (new_row now input) s.table in
      let s' = record s { table = table } in
      elim reply [
        | inserted id ↦ (
          s',
          some (
              proceed
                (some (record { id = id; key = row_key input; key_source = source_of input }))),
        )
        | insert_failed e ↦
            if is_duplicate_key_error e
            then look_up now input (λ t. (t, some (proceed none))) s'
            else (report "idem.claim" input s', some (proceed none))
      ]

  -- Whether Redis has the key already; a rejection counts as not.
  abbrev pub is_duplicate : Option Bool → Bool
  is_duplicate none = false
  is_duplicate (some new) = not new

  unfoldable pub run_gate :
      ℕ → IdempotencyCheckInput → Idempotency S D → Idempotency S D × Option Decision
  unfolding claim invalid_key_result
  run_gate now input s =
      let (r, reply) =
        client.set_nx now (redis_key input) "1"
          ((choose_key trim stringify sha256 input).ttl_sec * 1000) s.redis in
      let s' = record s { redis = r } in
      elim (bad_key (given input.explicit_key)) [
        | some key ↦ (s, some (rejected (invalid_key_result show key)))
        | none ↦
            if is_duplicate reply
            then look_up now input (claim now input) s'
            else claim now input s'
      ]

  abbrev pub or_pass :
      IdempotencyCheckInput → Idempotency S D × Option Decision → Idempotency S D × Decision
  or_pass input (s, some d) = (s, d)
  or_pass input (s, none) = (report "idem.gate" input s, proceed none)

  unfoldable pub check : ℕ → IdempotencyCheckInput → Idempotency S D → Idempotency S D × Decision
  unfolding run_gate
  check now input s = if s.enabled then or_pass input (run_gate now input s) else (s, proceed none)

  -- The end of a call that has claimed its key; a rejection is only reported.
  unfoldable pub complete :
      ℕ → Option IdempotencyHandle → ToolResult → Idempotency S D → Idempotency S D
  complete now none result s = s
  complete now (some handle) result s =
      let (table, done) =
        repo.finish handle.id (if result.success then succeeded else failed)
          (if result.success then some (result_of result) else none) (error_of result) now
          s.table in
      if done then record s { table = table } else record s {
        table = table;
        reported = ("idem.complete", handle.key.tool_name) ∷ s.reported;
      }

module _ {D : Type 0} (repo : Repository D) where
  -- The batches of the deletion, at most `loops`; it ends at a batch that is not full or rejected.
  unfoldable pub delete_batches : (loops : ℕ) → ℕ → D → D × ℕ
  delete_batches zero cutoff d = (d, 0)
  delete_batches (suc loops) cutoff d =
      let (d', affected) = repo.delete_before cutoff cleanup_batch d in
      let (d'', more) = delete_batches loops cutoff d' in
      elim affected [
        | none ↦ (d', 0)
        | some n ↦ if ltb n cleanup_batch then (d', n) else (d'', n + more)
      ]

  -- The rows marked as stale and those deleted. `now` is past both periods, so that the
  -- subtractions do not stop at 0.
  unfoldable pub cleanup_expired : {S : Type 0} → ℕ → Idempotency S D → Idempotency S D × (ℕ × ℕ)
  unfolding delete_batches
  cleanup_expired now s =
      let (d, stale) = repo.mark_stale (now - in_flight_timeout_ms) now s.table in
      let (d', deleted) = delete_batches cleanup_max_loops (now - retention_ms) d in
      elim stale [
        | none ↦ (record s { table = d }, (0, 0))
        | some n ↦ (record s { table = d' }, (n, deleted))
      ]
