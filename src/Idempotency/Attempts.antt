-- ===== src/Idempotency/Attempts.antt =====
-- Repeated attempts at one write through src/tools/idempotency-gate.service.ts, as
-- src/tools/tool-executor.ts makes them: a check, the run if it may run, and then the completion,
-- which is missing where the process ends before it; and the cleanup that runs in between.
use zxql_ai.Prelude.{
  length, sym, ℕ, ◌+◌, ◌-◌, ◌≤◌, String, ◌≡◌, refl, ap, ◌∙◌, subst, inl, inr, Bool, true, false,
  Option, none, some, List, [], ◌∷◌, arith, if◌then◌else◌, nat_eq, string_eq, All, Option-cases,
}
use zxql_ai.Json.{Json}
use zxql_ai.Tools.{ToolResult}
use zxql_ai.Executor.{IdempotencyCheckInput, proceed, replay, in_flight, rejected}
use zxql_ai.Redis.{RedisClient}
use zxql_ai.Idempotency.{
  IdempotencyStatus, running, succeeded, failed, result_of, RowKey, IdempotencyRow,
  IdempotencyHandle, Repository, Idempotency, in_flight_timeout_ms,
}
use zxql_ai.Idempotency.Keys.{given}
use zxql_ai.Idempotency.Gate.{
  Decision, bad_key, row_key, or_pass, report, run_gate, decide_status, decide_from_row, check,
  complete, error_of, cleanup_expired,
}
use zxql_ai.Idempotency.Once.{
  Table, Answers, budget, budget_of, refuses, Verdict, run_gate-Verdict, run_gate-there,
}

pub record Attempt : Type 0 where
  pub now : ℕ
  pub input : IdempotencyCheckInput
  pub outcome : Option ToolResult

-- A check for a call of the tool, or the cleanup at a time.
pub data Event : Type 0 where
  attempted : Attempt → Event
  cleaned : ℕ → Event

abbrev pub cleanups : List Event → ℕ
cleanups [] = 0
cleanups (attempted _ ∷ events) = cleanups events
cleanups (cleaned _ ∷ events) = 1 + cleanups events

-- Whether the tool ran and failed.
abbrev fails : Option ToolResult → ℕ
fails none = 0
fails (some r) = if r.success then 0 else 1

end_budget : (ok : Bool) → budget_of (if ok then succeeded else failed) ≡ (if ok then 0 else 1)
end_budget true = refl
end_budget false = refl

budget_of-le : (t : IdempotencyStatus) → budget_of t ≤ 1
budget_of-le running = omega arith
budget_of-le succeeded = omega arith
budget_of-le failed = omega arith

budget-le : (o : Option IdempotencyRow) → budget o ≤ 1
budget-le none = omega arith
budget-le (some row) = budget_of-le row.status

module _ {S D : Type 0} (client : RedisClient S String) (repo : Repository D)
    (trim : String → String) (stringify : Json → String) (sha256 : String → String)
    (show iso : ℕ → String) where
  abbrev end_run :
      ℕ → Option IdempotencyHandle → Option ToolResult → Idempotency S D → Idempotency S D
  end_run now h none s = s
  end_run now h (some r) s = complete client repo trim stringify sha256 show iso now h r s

  -- The state, the number of runs, and the number of those with a claim that failed.
  abbrev pub answer_attempt : Attempt → Idempotency S D × Decision → Idempotency S D × (ℕ × ℕ)
  answer_attempt a (s, proceed none) = (end_run a.now none a.outcome s, (1, 0))
  answer_attempt a (s, proceed (some h)) =
      (end_run a.now (some h) a.outcome s, (1, fails a.outcome))
  answer_attempt a (s, replay _) = (s, (0, 0))
  answer_attempt a (s, in_flight _) = (s, (0, 0))
  answer_attempt a (s, rejected _) = (s, (0, 0))

  unfoldable pub attempt : Attempt → Idempotency S D → Idempotency S D × (ℕ × ℕ)
  attempt a s = answer_attempt a (check client repo trim stringify sha256 show iso a.now a.input s)

  unfoldable pub run_event : Event → Idempotency S D → Idempotency S D × (ℕ × ℕ)
  unfolding attempt
  run_event (attempted a) s = attempt a s
  run_event (cleaned now) s = ((cleanup_expired repo now s).0, (0, 0))

  unfoldable pub run_events : List Event → Idempotency S D → Idempotency S D × (ℕ × ℕ)
  unfolding run_event
  run_events [] s = (s, (0, 0))
  run_events (event ∷ events) s =
      let (s', one) = run_event event s in
      let (s'', more) = run_events events s' in (s'', (one.0 + more.0, one.1 + more.1))

module _ {S D : Type 0} (client : RedisClient S String) (repo : Repository D)
    (trim : String → String) (stringify : Json → String) (sha256 : String → String)
    (show iso : ℕ → String) (table : Table repo) (k : RowKey) where
  -- An attempt at the write with this key, whose explicit key, if any, is valid.
  abbrev pub IsFor : Attempt → Type 0
  IsFor a =
      (row_key client repo trim stringify sha256 show iso a.input ≡ k)
      × (bad_key (given a.input.explicit_key) ≡ none)

  -- What the attempt uses of the key's budget; a failure that the gate reports gives it more.
  abbrev Fits : Idempotency S D → Idempotency S D × (ℕ × ℕ) → Type 0
  Fits before (s, (ran, failures)) =
      (s.enabled ≡ before.enabled)
      × (ran + budget (table.view s.table k) + length before.reported
          ≤ budget (table.view before.table k) + failures + length s.reported)

  complete-Fits :
      (now : ℕ) (h : IdempotencyHandle) (row : IdempotencyRow) (r : ToolResult)
      (s : Idempotency S D)
      → table.view s.table k ≡ some row
      → row.id ≡ h.id
      → budget (table.view s.table k) ≡ 0
      → let s' = complete client repo trim stringify sha256 show iso now (some h) r s in
        (s'.enabled ≡ s.enabled)
        × (budget (table.view s'.table k) + length s.reported ≤ fails (some r) + length s'.reported)
  unfolding complete
  complete-Fits now h row r s there same free =
      let status = if r.success then succeeded else failed in
      let stored = if r.success then some (result_of r) else none in
      let error = error_of r in
      elim (table.finishes k row status stored error now s.table there) [
        | inl (done, after) ↦
            let used : budget (table.view (repo.finish row.id status stored error now s.table).0 k)
                ≡ fails (some r) =
              rw after (end_budget r.success) in
            rw (← same) (rw (done, complete) (refl, omega (arith, used)))
        | inr (lost, kept) ↦
            let used : budget (table.view (repo.finish row.id status stored error now s.table).0 k)
                ≡ 0 =
              ap (λ d. budget (table.view d k)) kept ∙ free in
            rw (← same) (rw (lost, complete) (refl, omega (arith, used)))
      ]

  end_run-unclaimed :
      (now : ℕ) (o : Option ToolResult) (s : Idempotency S D)
      → end_run client repo trim stringify sha256 show iso now none o s ≡ s
  unfolding complete
  end_run-unclaimed now none s = refl
  end_run-unclaimed now (some r) s = refl

  unclaimed-Fits :
      (before : Idempotency S D) (a : Attempt) (s : Idempotency S D) (told : String × String)
      → table.view s.table k ≡ table.view before.table k
      → s.enabled ≡ before.enabled
      → s.reported ≡ told ∷ before.reported
      → Fits before
          (end_run client repo trim stringify sha256 show iso a.now none a.outcome s, (1, 0))
  unclaimed-Fits before a s told same on longer =
      rw (end_run-unclaimed a.now a.outcome s) (on, omega (arith, ap budget same, ap length longer))

  answer-Fits :
      (before : Idempotency S D) (a : Attempt) (s : Idempotency S D) (d : Option Decision)
      → Verdict client repo trim stringify sha256 show iso table k before (s, d)
      → Fits before (
          answer_attempt client repo trim stringify sha256 show iso a
            (or_pass client repo trim stringify sha256 show iso a.input (s, d)))
  answer-Fits before a s d (inl (has, (h, row, claims, there, same, busy, on, told))) =
      rw claims (by_outcome a.outcome refl)
    where
      free : budget (table.view s.table k) ≡ 0
      free = rw there (ap budget_of busy)

      by_outcome :
          (o : Option ToolResult)
          → a.outcome ≡ o
          → Fits before (
            end_run client repo trim stringify sha256 show iso a.now (some h) a.outcome s,
            (1, fails a.outcome),
          )
      by_outcome none e = rw e (on, omega (arith, has, free, ap length told))
      by_outcome (some r) e =
          let (kept, used) = complete-Fits a.now h row r s there same free in
          rw e (kept ∙ on, omega (arith, has, used, ap length told))
  answer-Fits before a s d (inr (inl (has, (decision, refused, no_run, same, on, told)))) =
      rw refused (by_decision decision no_run)
    where
      by_decision :
          (e : Decision)
          → refuses client repo trim stringify sha256 show iso table e ≡ true
          → Fits before (answer_attempt client repo trim stringify sha256 show iso a (s, e))
      by_decision (proceed _) no_run = cc
      by_decision (replay _) no_run = (on, omega (arith, ap budget same, ap length told))
      by_decision (in_flight _) no_run = (on, omega (arith, ap budget same, ap length told))
      by_decision (rejected _) no_run = cc
  answer-Fits before a s d (inr (inr (same, on, inl (undecided, told)))) = rw undecided (
      unclaimed-Fits before a
        (report client repo trim stringify sha256 show iso "idem.gate" a.input s) _ same on
        (ap (λ rs. ("idem.gate", a.input.tool_name) ∷ rs) told))
  answer-Fits before a s d (inr (inr (same, on, inr (passes, told, longer)))) =
      rw passes (unclaimed-Fits before a s told same on longer)

  attempt-Fits :
      (a : Attempt) (s : Idempotency S D)
      → IsFor a
      → s.enabled ≡ true
      → Fits s (attempt client repo trim stringify sha256 show iso a s)
  unfolding attempt check
  attempt-Fits a s (same, valid) on =
      let out = run_gate client repo trim stringify sha256 show iso a.now a.input s in
      let checked : check client repo trim stringify sha256 show iso a.now a.input s
          ≡ or_pass client repo trim stringify sha256 show iso a.input out =
        ground (arith, on) in
      let at_key =
        subst (λ j. Verdict client repo trim stringify sha256 show iso table j s out) same
          (run_gate-Verdict client repo trim stringify sha256 show iso table a.now a.input s
            valid) in
      rw checked (answer-Fits s a out.0 out.1 at_key)

  cleanup-keeps :
      (now : ℕ) (s : Idempotency S D)
      → ((cleanup_expired repo now s).0.enabled ≡ s.enabled)
        × ((cleanup_expired repo now s).0.reported ≡ s.reported)
  unfolding cleanup_expired
  cleanup-keeps now s =
      elim (Option-cases (repo.mark_stale (now - in_flight_timeout_ms) now s.table).1) [
        | inl e ↦ rw (e, cleanup_expired) (refl, refl)
        | inr (n, e) ↦ rw (e, cleanup_expired) (refl, refl)
      ]

  abbrev pub IsAbout : Event → Type 0
  IsAbout (attempted a) = IsFor a
  IsAbout (cleaned _) = Unit {0}

  -- What a history uses of the key's budget.
  abbrev Spends : ℕ → Idempotency S D → Idempotency S D × (ℕ × ℕ) → Type 0
  Spends cleans before (s, (ran, failures)) =
      ran + budget (table.view s.table k) + length before.reported
      ≤ budget (table.view before.table k) + failures + cleans + length s.reported

  run_events-Spends :
      (events : List Event) (s : Idempotency S D)
      → All IsAbout events
      → s.enabled ≡ true
      → Spends (cleanups events) s (run_events client repo trim stringify sha256 show iso events s)
  unfolding run_events run_event
  run_events-Spends [] s all on = omega arith
  run_events-Spends (attempted a ∷ rest) s (here, all) on =
      let s' = (attempt client repo trim stringify sha256 show iso a s).0 in
      let (same, first) = attempt-Fits a s here on in
      let later = run_events-Spends rest s' all (same ∙ on) in omega (arith, first, later)
  run_events-Spends (cleaned now ∷ rest) s (here, all) on =
      let s' = (cleanup_expired repo now s).0 in
      let (same, told) = cleanup-keeps now s in
      omega (
        arith,
        run_events-Spends rest s' all (same ∙ on),
        budget-le (table.view s'.table k),
        ap length told,
      )

  -- With the gate on and a table that keeps its unique key, however often a write with one valid key is attempted,
  -- whatever Redis answers, whatever statement of the table is rejected, wherever the process ends
  -- before it completes, and whenever the cleanup runs and whatever rows it changes or deletes: the
  -- tool runs at most once, and once more for each run with a claim that failed, for each cleanup and
  -- for each rejection that the gate reports. A statement that is rejected changes nothing.
  pub runs-le :
      (events : List Event) (s : Idempotency S D)
      → All IsAbout events
      → s.enabled ≡ true
      → let (s', (ran, failures)) =
          run_events client repo trim stringify sha256 show iso events s in
        ran + length s.reported ≤ 1 + failures + cleanups events + length s'.reported
  runs-le events s all on =
      omega (arith, run_events-Spends events s all on, budget-le (table.view s.table k))

  -- With the gate on and a valid key: once a successful run is completed and the table takes the completion, the check of the key that
  -- follows it, before any cleanup, plays the result back, marked as a replay and with the time of the
  -- completion, whatever Redis answers, over a table that rejects none of the check's statements.
  pub complete-replay :
      (now later : ℕ) (input : IdempotencyCheckInput) (h : IdempotencyHandle) (row : IdempotencyRow)
      (r : ToolResult) (s : Idempotency S D)
      → Answers repo table
      → IsFor (record { now = later; input = input; outcome = none })
      → s.enabled ≡ true
      → table.view s.table k ≡ some row
      → row.id ≡ h.id
      → r.success ≡ true
      → (repo.finish h.id succeeded (some (result_of r)) none now s.table).1 ≡ true
      → let s' = complete client repo trim stringify sha256 show iso now (some h) r s in
        (check client repo trim stringify sha256 show iso later input s').1
        ≡ replay
            (record r { idempotent_replay = some true; original_completed_at = some (iso now) })
  unfolding check complete decide_from_row decide_status
  complete-replay now later input h row r s up (for_key, valid) on there same ok taken =
      let stored = some (result_of r) in
      let done =
        subst (λ i. (repo.finish i succeeded stored none now s.table).1 ≡ true) (sym same) taken in
      elim (table.finishes k row succeeded stored none now s.table there) [
        | inr (lost, _) ↦ ground (arith, done, lost)
        | inl (_, after) ↦ replayed_after done after
      ]
    where
      replayed_after :
          (repo.finish row.id succeeded (some (result_of r)) none now s.table).1 ≡ true
          → table.view (repo.finish row.id succeeded (some (result_of r)) none now s.table).0 k
            ≡ some (record row {
              status = succeeded;
              result_json = some (result_of r);
              error_text = none;
              completed_at = some now;
              updated_at = now;
            })
          → let s' = complete client repo trim stringify sha256 show iso now (some h) r s in
            (check client repo trim stringify sha256 show iso later input s').1
            ≡ replay
                (record r { idempotent_replay = some true; original_completed_at = some (iso now) })
      replayed_after done after =
          let stored = some (result_of r) in
          let s' = record s { table = (repo.finish row.id succeeded stored none now s.table).0 } in
          let ended : IdempotencyRow = record row {
            status = succeeded;
            result_json = stored;
            error_text = none;
            completed_at = some now;
            updated_at = now;
          } in
          let completed : complete client repo trim stringify sha256 show iso now (some h) r s
              ≡ s' =
            ground (arith, ok, done, same) in
          let (redis, gate) =
            run_gate-there client repo trim stringify sha256 show iso table up later input ended s'
              valid (rw for_key after) in
          let out = run_gate client repo trim stringify sha256 show iso later input s' in
          let checked : check client repo trim stringify sha256 show iso later input s'
              ≡ or_pass client repo trim stringify sha256 show iso input out =
            ground (arith, on) in
          rw (completed, checked, gate) refl
