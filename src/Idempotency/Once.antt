-- ===== src/Idempotency/Once.antt =====
-- How often src/tools/idempotency-gate.service.ts lets a write with one key run, over a table that
-- keeps its unique key, whatever Redis answers and whatever statement is rejected.
use zxql_ai.Prelude.{
  ℕ, ◌*◌, String, ◌≡◌, refl, ap, ◌⊎◌, inl, inr, Bool, true, false, Option, none, some, arith,
  Bool-cases, ◌∷◌, sym, subst, Option-cases, nat_eq, string_eq,
}
use zxql_ai.Json.{Json}
use zxql_ai.Executor.{IdempotencyCheckInput, proceed, replay, in_flight, rejected}
use zxql_ai.Redis.{RedisClient}
use zxql_ai.Idempotency.{
  IdempotencyStatus, running, succeeded, failed, StoredResult, result_of, unreadable, RowKey,
  IdempotencyRow, IdempotencyHandle, DbError, is_duplicate_key_error, inserted, insert_failed,
  Repository, Idempotency,
}
use zxql_ai.Idempotency.Keys.{given, choose_key}
use zxql_ai.Idempotency.Gate.{
  Decision, bad_key, row_key, source_of, redis_key, new_row, is_duplicate, replay_stored,
  retry_failed, report, decide_status, decide_from_row, look_up, claim, run_gate,
}

-- What the database promises: `view` is the row under a unique key. A statement is carried out, or it
-- is rejected and changes nothing. Nothing is promised of the cleanup.
pub record Table {D : Type 0} (repo : Repository D) : Type 0 where
  pub view : D → RowKey → Option IdempotencyRow
  pub find_reads :
      (k : RowKey) (d : D)
      → (((repo.find_row k d).1 ≡ none) ⊎ ((repo.find_row k d).1 ≡ some (view d k)))
        × ((repo.find_row k d).0 ≡ d)
  pub insert_new :
      (row : IdempotencyRow) (d : D)
      → view d row.key ≡ none
      → ((id : String) × ((repo.insert_row row d).1 ≡ inserted id)
          × (view (repo.insert_row row d).0 row.key ≡ some (record row { id = id })))
        ⊎ ((e : DbError) × ((repo.insert_row row d).1 ≡ insert_failed e)
            × ((repo.insert_row row d).0 ≡ d)
            × (is_duplicate_key_error e ≡ false))
  pub insert_held :
      (row held : IdempotencyRow) (d : D)
      → view d row.key ≡ some held
      → (e : DbError) × ((repo.insert_row row d).1 ≡ insert_failed e)
        × ((repo.insert_row row d).0 ≡ d)
  pub reopens :
      (k : RowKey) (row : IdempotencyRow) (now : ℕ) (d : D)
      → view d k ≡ some row
      → row.status ≡ failed
      → (((repo.reopen row.id now d).1 ≡ some 1)
          × (view (repo.reopen row.id now d).0 k
              ≡ some (record row {
                status = running;
                first_seen_at = now;
                completed_at = none;
                error_text = none;
                updated_at = now;
              })))
        ⊎ (((repo.reopen row.id now d).1 ≡ none) × ((repo.reopen row.id now d).0 ≡ d))
  pub finishes :
      (k : RowKey) (row : IdempotencyRow) (status : IdempotencyStatus)
      (stored : Option StoredResult) (error : Option String) (now : ℕ) (d : D)
      → view d k ≡ some row
      → (((repo.finish row.id status stored error now d).1 ≡ true)
          × (view (repo.finish row.id status stored error now d).0 k
              ≡ some (record row {
                status = status;
                result_json = stored;
                error_text = error;
                completed_at = some now;
                updated_at = now;
              })))
        ⊎ (((repo.finish row.id status stored error now d).1 ≡ false)
            × ((repo.finish row.id status stored error now d).0 ≡ d))

-- The table rejects no read, and a claim only for a key that is taken.
pub record Answers {D : Type 0} (repo : Repository D) (table : Table repo) : Type 0 where
  pub reads : (k : RowKey) (d : D) → (repo.find_row k d).1 ≡ some (table.view d k)
  pub duplicates :
      (row held : IdempotencyRow) (d : D)
      → table.view d row.key ≡ some held
      → (e : DbError) × ((repo.insert_row row d).1 ≡ insert_failed e)
        × (is_duplicate_key_error e ≡ true)

-- Whether the next call with the key may run.
abbrev pub budget_of : IdempotencyStatus → ℕ
budget_of running = 0
budget_of succeeded = 0
budget_of failed = 1

abbrev pub budget : Option IdempotencyRow → ℕ
budget none = 1
budget (some row) = budget_of row.status

module _ {S D : Type 0} (client : RedisClient S String) (repo : Repository D)
    (trim : String → String) (stringify : Json → String) (sha256 : String → String)
    (show iso : ℕ → String) (table : Table repo) where
  -- The call holds the row of its key.
  abbrev pub IsClaim : RowKey → Idempotency S D → Idempotency S D × Option Decision → Type 0
  IsClaim k before (s, d) =
      (h : IdempotencyHandle) × (row : IdempotencyRow) × (d ≡ some (proceed (some h)))
      × (table.view s.table k ≡ some row)
      × (row.id ≡ h.id)
      × (row.status ≡ running)
      × (s.enabled ≡ before.enabled)
      × (s.reported ≡ before.reported)

  abbrev pub refuses : Decision → Bool
  refuses (proceed _) = false
  refuses (replay _) = true
  refuses (in_flight _) = true
  refuses (rejected _) = false

  -- The call does not run, and the row stays.
  abbrev pub IsRefusal : RowKey → Idempotency S D → Idempotency S D × Option Decision → Type 0
  IsRefusal k before (s, d) =
      (decision : Decision) × (d ≡ some decision)
      × (refuses decision ≡ true)
      × (table.view s.table k ≡ table.view before.table k)
      × (s.enabled ≡ before.enabled)
      × (s.reported ≡ before.reported)

  -- A statement is rejected: the gate has no decision yet, or lets the call pass and reports it.
  abbrev pub IsPassed : RowKey → Idempotency S D → Idempotency S D × Option Decision → Type 0
  IsPassed k before (s, d) =
      (table.view s.table k ≡ table.view before.table k)
      × (s.enabled ≡ before.enabled)
      × (((d ≡ none) × (s.reported ≡ before.reported))
          ⊎ ((d ≡ some (proceed none))
              × (told : String × String) × (s.reported ≡ told ∷ before.reported)))

  abbrev pub Verdict : RowKey → Idempotency S D → Idempotency S D × Option Decision → Type 0
  Verdict k before out =
      ((budget (table.view before.table k) ≡ 1) × IsClaim k before out)
      ⊎ ((budget (table.view before.table k) ≡ 0) × IsRefusal k before out)
      ⊎ IsPassed k before out

  refuses-replay_stored :
      (row : IdempotencyRow) (tool : String) (stored : Option StoredResult)
      → refuses (replay_stored client repo trim stringify sha256 show iso row tool stored) ≡ true
  refuses-replay_stored row tool none = refl
  refuses-replay_stored row tool (some unreadable) = refl
  refuses-replay_stored row tool (some (result_of r)) = refl

  abbrev row_decision :
      ℕ
      → IdempotencyRow
      → IdempotencyCheckInput
      → Idempotency S D
      → IdempotencyStatus
      → Idempotency S D × Option Decision
  row_decision = decide_status client repo trim stringify sha256 show iso

  decide-Verdict :
      (now : ℕ) (row : IdempotencyRow) (input : IdempotencyCheckInput) (k : RowKey)
      (s : Idempotency S D)
      → table.view s.table k ≡ some row
      → (t : IdempotencyStatus) → row.status ≡ t
      → Verdict k s (row_decision now row input s t)
  unfolding decide_status
  decide-Verdict now row input k s there succeeded e = inr (
      inl (
        rw there (ap budget_of e),
        (_, refl, refuses-replay_stored row input.tool_name row.result_json, refl, refl, refl),
      ))
  decide-Verdict now row input k s there running e =
      inr (inl (rw there (ap budget_of e), (_, refl, refl, refl, refl, refl)))
  decide-Verdict now row input k s there failed e =
      let h : IdempotencyHandle = record {
        id = row.id;
        key = row.key;
        key_source = source_of client repo trim stringify sha256 show iso input;
      } in
      let s' = record s { table = (repo.reopen row.id now s.table).0 } in
      elim (table.reopens k row now s.table there e) [
        | inl (one, after) ↦
            let retried : retry_failed client repo trim stringify sha256 show iso now row input s
                ≡ (s', some (proceed (some h))) =
              ground (arith, one) in
            inl (rw there (ap budget_of e), rw retried (h, _, refl, after, refl, refl, refl, refl))
        | inr (lost, same) ↦
            let retried : retry_failed client repo trim stringify sha256 show iso now row input s
                ≡ (s', none) =
              ground (arith, lost) in
            inr (inr (rw retried (ap (λ d. table.view d k) same, refl, inl (refl, refl))))
      ]

  look_up-Verdict :
      (now : ℕ) (input : IdempotencyCheckInput)
      (otherwise : Idempotency S D → Idempotency S D × Option Decision) (s : Idempotency S D)
      → (table.view s.table (row_key client repo trim stringify sha256 show iso input) ≡ none
          → Verdict (row_key client repo trim stringify sha256 show iso input) s (otherwise s))
      → Verdict
          (row_key client repo trim stringify sha256 show iso input)
          s
          (look_up client repo trim stringify sha256 show iso now input otherwise s)
  unfolding look_up decide_from_row
  look_up-Verdict now input otherwise s free =
      let k = row_key client repo trim stringify sha256 show iso input in
      let (reads, same) = table.find_reads k s.table in
      elim reads [
        | inl lost ↦ rw (lost, look_up) (rw same (inr (inr (refl, refl, inl (refl, refl)))))
        | inr read ↦ elim (Option-cases (table.view s.table k)) [
          | inl absent ↦
              let same_as : look_up client repo trim stringify sha256 show iso now input otherwise s
                  ≡ otherwise s =
                rw (read, absent, look_up) (rw same refl) in
              subst (Verdict k s) (sym same_as) (free absent)
          | inr (row, there) ↦
              let same_as : look_up client repo trim stringify sha256 show iso now input otherwise s
                  ≡ row_decision now row input s row.status =
                rw (read, there, look_up) (rw same refl) in
              subst (Verdict k s) (sym same_as)
                (decide-Verdict now row input k s there row.status refl)
        ]
      ]

  look_up-there :
      (up : Answers repo table) (now : ℕ) (input : IdempotencyCheckInput)
      (otherwise : Idempotency S D → Idempotency S D × Option Decision) (row : IdempotencyRow)
      (s : Idempotency S D)
      → table.view s.table (row_key client repo trim stringify sha256 show iso input) ≡ some row
      → look_up client repo trim stringify sha256 show iso now input otherwise s
        ≡ decide_from_row client repo trim stringify sha256 show iso now row input s
  unfolding look_up
  look_up-there up now input otherwise row s there =
      let k = row_key client repo trim stringify sha256 show iso input in
      let (_, same) = table.find_reads k s.table in
      rw (up.reads k s.table, there, look_up) (rw same refl)

  claim-there :
      (up : Answers repo table) (now : ℕ) (input : IdempotencyCheckInput) (held : IdempotencyRow)
      (s : Idempotency S D)
      → table.view s.table (row_key client repo trim stringify sha256 show iso input) ≡ some held
      → claim client repo trim stringify sha256 show iso now input s
        ≡ decide_from_row client repo trim stringify sha256 show iso now held input s
  unfolding claim
  claim-there up now input held s there =
      let row = new_row client repo trim stringify sha256 show iso now input in
      let (e, reply, duplicate) = up.duplicates row held s.table there in
      let (_, _, same) = table.insert_held row held s.table there in
      rw (reply, duplicate, claim)
        (rw same (look_up-there up now input (λ t. (t, some (proceed none))) held s there))

  claim-Verdict :
      (now : ℕ) (input : IdempotencyCheckInput) (s : Idempotency S D)
      → Verdict
          (row_key client repo trim stringify sha256 show iso input)
          s
          (claim client repo trim stringify sha256 show iso now input s)
  unfolding claim
  claim-Verdict now input s =
      let k = row_key client repo trim stringify sha256 show iso input in
      let row = new_row client repo trim stringify sha256 show iso now input in
      elim (Option-cases (table.view s.table k)) [
        | inl free ↦ elim (table.insert_new row s.table free) [
          | inl (id, reply, after) ↦
              let h : IdempotencyHandle = record {
                id = id;
                key = k;
                key_source = source_of client repo trim stringify sha256 show iso input;
              } in
              let s' = record s { table = (repo.insert_row row s.table).0 } in
              let claimed : claim client repo trim stringify sha256 show iso now input s
                  ≡ (s', some (proceed (some h))) =
                rw (reply, claim) refl in
              inl (
                rw free refl,
                rw claimed (h, record row { id = id }, refl, after, refl, refl, refl, refl),
              )
          | inr (e, reply, same, other) ↦ rw (reply, other, claim) (rw same (passed k input s))
        ]
        | inr (held, there) ↦
            let (e, reply, same) = table.insert_held row held s.table there in
            elim (Bool-cases (is_duplicate_key_error e)) [
              | inr other ↦ rw (reply, other, claim) (rw same (passed k input s))
              | inl duplicate ↦
                  rw (reply, duplicate, claim)
                    (rw same (
                      look_up-Verdict now input (λ t. (t, some (proceed none))) s
                        (λ absent. ground (arith, there, absent))))
            ]
      ]
    where
      passed :
          (k : RowKey) (input : IdempotencyCheckInput) (s : Idempotency S D)
          → Verdict k s (
            report client repo trim stringify sha256 show iso "idem.claim" input s,
            some (proceed none),
          )
      passed k input s = inr (inr (refl, refl, inr (refl, _, refl)))

  -- With a key that is valid, whatever Redis answers.
  pub run_gate-Verdict :
      (now : ℕ) (input : IdempotencyCheckInput) (s : Idempotency S D)
      → bad_key (given input.explicit_key) ≡ none
      → Verdict
          (row_key client repo trim stringify sha256 show iso input)
          s
          (run_gate client repo trim stringify sha256 show iso now input s)
  unfolding run_gate
  run_gate-Verdict now input s valid =
      let asked =
        client.set_nx now (redis_key client repo trim stringify sha256 show iso input) "1"
          ((choose_key trim stringify sha256 input).ttl_sec * 1000) s.redis in
      let s' = record s { redis = asked.0 } in
      let otherwise = claim client repo trim stringify sha256 show iso now input in
      elim (Bool-cases (is_duplicate client repo trim stringify sha256 show iso asked.1)) [
        | inr new ↦ rw (valid, new, run_gate) (claim-Verdict now input s')
        | inl seen ↦
            rw (valid, seen, run_gate)
              (look_up-Verdict now input otherwise s' (λ absent. claim-Verdict now input s'))
      ]

  -- A key whose row is there is decided by the row.
  pub run_gate-there :
      (up : Answers repo table) (now : ℕ) (input : IdempotencyCheckInput) (held : IdempotencyRow)
      (s : Idempotency S D)
      → bad_key (given input.explicit_key) ≡ none
      → table.view s.table (row_key client repo trim stringify sha256 show iso input) ≡ some held
      → (r : S) × (run_gate client repo trim stringify sha256 show iso now input s
          ≡ decide_from_row client repo trim stringify sha256 show iso now held input
              (record s { redis = r }))
  unfolding run_gate
  run_gate-there up now input held s valid there =
      let asked =
        client.set_nx now (redis_key client repo trim stringify sha256 show iso input) "1"
          ((choose_key trim stringify sha256 input).ttl_sec * 1000) s.redis in
      let s' = record s { redis = asked.0 } in
      let otherwise = claim client repo trim stringify sha256 show iso now input in
      elim (Bool-cases (is_duplicate client repo trim stringify sha256 show iso asked.1)) [
        | inr new ↦ (asked.0, rw (valid, new, run_gate) (claim-there up now input held s' there))
        | inl seen ↦ (
          asked.0,
          rw (valid, seen, run_gate) (look_up-there up now input otherwise held s' there),
        )
      ]
