-- ===== src/WriteGuard/Calls.antt =====
-- The calls of src/brain/write-guard.service.ts without Redis, each of them a run of moves.
use zxql_ai.Prelude.{
  ℕ, String, ◌≡◌, refl, inl, inr, Bool, true, false, ◌&&◌, Option, none, some, List, [], ◌∷◌, ◌++◌,
  arith, ltb, if◌then◌else◌, Bool-cases, ◌==◌, nat_eq, string_eq,
}
use zxql_ai.Prelude.Map.{delete, lookup-insert, lookup-delete, insert-AllEntries, delete-AllEntries}
use zxql_ai.Redis.{RedisClient}
use zxql_ai.WriteGuard.{
  pending, PendingWrite, Cell, WriteGuard, memory_key, unindex, save_memory, save, list_tokens,
}
use zxql_ai.WriteGuard.Service.{
  SuspendWriteInput, high_risk, get, do_confirm, confirm, acquire_token_lock, release_token_lock,
  reset_to_pending, do_cancel, cancel, get_all, list_pending, cleanup_expired, clean, suspend,
  new_write,
}
use zxql_ai.WriteGuard.Memory.{IsOwnKey, InMemory, entry, audit-map, audit-InMemory, get-memory}
use zxql_ai.WriteGuard.Moves.{
  Outcome, quiet, reopened, entered, Move, stay, drop, enter, outcome_of, get-Moves,
  do_confirm-Moves, reopen-Moves, withdraw_read-Moves,
}

-- A call and the time at which it runs; `fresh` is the text that `randomUUID` gives.
pub data Call : Type 0 where
  suspends : (now : ℕ) (fresh : String) (input : SuspendWriteInput) → Call
  reads : (now : ℕ) (token tenant : String) → Call
  lists : (now : ℕ) (tenant : String) → Call
  confirms : (now : ℕ) (fresh token tenant : String) (customer : Option String) → Call
  resets : (now : ℕ) (token tenant : String) → Call
  cancels : (now : ℕ) (fresh token tenant : String) → Call
  cleans : (now : ℕ) → Call

-- Several moves: the list keeps the outcomes that a call reports.
pub data Run : Option PendingWrite → List Outcome → Option PendingWrite → Type 0 where
  ended : {o : Option PendingWrite} → Run o [] o
  silent :
      {o o' o'' : Option PendingWrite} {outs : List Outcome}
      → Move o quiet o'
      → Run o' outs o''
      → Run o outs o''
  shown :
      {o o' o'' : Option PendingWrite} {out : Outcome} {outs : List Outcome}
      → Move o out o'
      → Run o' outs o''
      → Run o (out ∷ outs) o''

Run-append :
    {o o' o'' : Option PendingWrite} {outs more : List Outcome}
    → Run o outs o'
    → Run o' more o''
    → Run o (outs ++ more) o''
Run-append ended r = r
Run-append (silent m q) r = silent m (Run-append q r)
Run-append (shown m q) r = shown m (Run-append q r)

erased : (o : Option PendingWrite) (gone : Bool) → Move o quiet (if gone then none else o)
erased o false = stay o
erased none true = stay none
erased (some w) true = drop w

module _ {S : Type 0} (client : RedisClient S Cell) (key : String) where
  -- The state after a call, and the outcome that its answer shows for the record under the key.
  unfoldable pub run_call : Call → WriteGuard S → WriteGuard S × List Outcome
  run_call (suspends now fresh input) s =
      let (s', w) = suspend client now fresh input s in
      (s', if memory_key w.tenant_id w.token == key then entered (high_risk w) ∷ [] else [])
  run_call (reads now token tenant) s = ((get client now token tenant s).0, [])
  run_call (lists now tenant) s = ((list_pending client now tenant s).0, [])
  run_call (confirms now fresh token tenant customer) s =
      let (s', result) = confirm client now fresh token tenant customer s in
      (s', (if memory_key tenant token == key then outcome_of result else quiet) ∷ [])
  run_call (resets now token tenant) s =
      let (s', ok) = reset_to_pending client now token tenant s in
      (s', (if memory_key tenant token == key && ok then reopened else quiet) ∷ [])
  run_call (cancels now fresh token tenant) s = ((cancel client now fresh token tenant s).0, [])
  run_call (cleans now) s = ((cleanup_expired now s).0, [])

  unfoldable pub run_calls : List Call → WriteGuard S → WriteGuard S × List Outcome
  run_calls [] s = (s, [])
  run_calls (call ∷ calls) s =
      let (s', outs) = run_call call s in
      let (s'', more) = run_calls calls s' in (s'', outs ++ more)

  abbrev pub Runs : WriteGuard S → List Outcome → WriteGuard S → Type 0
  Runs s outs s' = InMemory s' × Run (entry key s) outs (entry key s')

  pub suspend-Runs :
      (now : ℕ) (fresh : String) (input : SuspendWriteInput) (s : WriteGuard S)
      → InMemory s
      → let (s', outs) = run_call (suspends now fresh input) s in Runs s outs s'
  unfolding run_call suspend save save_memory new_write
  suspend-Runs now fresh input s (off, keyed) =
      let w = new_write now fresh s.token_ttl_ms input in
      let own = memory_key w.tenant_id w.token in
      let stored : save client now w s ≡ save_memory w s = rw off refl in
      rw stored (
        audit-InMemory w pending (save_memory w s)
            (off, insert-AllEntries IsOwnKey own w s.memory_map (refl, refl) keyed),
        rw (audit-map w pending (save_memory w s), lookup-insert own key w s.memory_map)
            (elim (Bool-cases (own == key)) [
              | inl t ↦ rw t (shown (enter (entry key s) w refl) ended)
              | inr t ↦ rw t ended
            ]),
      )

  get_all-Runs :
      (now : ℕ) (tokens : List String) (tenant : String) (s : WriteGuard S)
      → InMemory s
      → Runs s [] (get_all client now tokens tenant s).0
  unfolding get_all
  get_all-Runs now [] tenant s mem = (mem, ended)
  get_all-Runs now (t ∷ ts) tenant s mem =
      let (mem', m) = get-Moves client key now t tenant s mem in
      let (mem'', r) = get_all-Runs now ts tenant _ mem' in (mem'', silent m r)

  clean-Runs :
      (now : ℕ) (rest : List (String × PendingWrite)) (s : WriteGuard S)
      → InMemory s
      → Runs s [] (clean now rest s).0
  unfolding clean
  clean-Runs now [] s mem = (mem, ended)
  clean-Runs now ((k, w) ∷ rest) s (off, keyed) = elim (Bool-cases (ltb w.expires_at now)) [
    | inl t ↦
        let gone = record s {
          memory_map = delete k s.memory_map;
          memory_index = unindex w.tenant_id w.token s.memory_index;
        } in
        let (mem, r) =
          clean-Runs now rest gone (off, delete-AllEntries IsOwnKey k s.memory_map keyed) in
        rw t
          (mem, silent (rw (lookup-delete k key s.memory_map) (erased (entry key s) (k == key))) r)
    | inr t ↦ rw t (clean-Runs now rest s (off, keyed))
  ]

  pub confirm-memory :
      (now : ℕ) (fresh token tenant : String) (customer : Option String) (s : WriteGuard S)
      → InMemory s
      → confirm client now fresh token tenant customer s
        ≡ do_confirm client now token tenant customer s
  unfolding confirm acquire_token_lock release_token_lock
  confirm-memory now fresh token tenant customer s (off, _) = rw off refl

  cancel-memory :
      (now : ℕ) (fresh token tenant : String) (s : WriteGuard S)
      → InMemory s
      → cancel client now fresh token tenant s ≡ do_cancel client now token tenant s
  unfolding cancel acquire_token_lock release_token_lock
  cancel-memory now fresh token tenant s (off, _) = rw off refl

  list_tokens-memory :
      (now : ℕ) (tenant : String) (s : WriteGuard S)
      → s.redis_available ≡ false
      → (list_tokens client now tenant s).0 ≡ s
  unfolding list_tokens
  list_tokens-memory now tenant s off = ground (arith, off)

  run_call-Runs :
      (call : Call) (s : WriteGuard S)
      → InMemory s
      → let (s', outs) = run_call call s in Runs s outs s'
  unfolding run_call list_pending reset_to_pending do_cancel cleanup_expired
  run_call-Runs (suspends now fresh input) s mem = suspend-Runs now fresh input s mem
  run_call-Runs (reads now token tenant) s mem =
      let (mem', m) = get-Moves client key now token tenant s mem in (mem', silent m ended)
  run_call-Runs (lists now tenant) s mem =
      rw (list_tokens-memory now tenant s mem.0)
        (get_all-Runs now (list_tokens client now tenant s).1 tenant s mem)
  run_call-Runs (confirms now fresh token tenant customer) s mem =
      rw (confirm-memory now fresh token tenant customer s mem) (
        let (mem', m) = do_confirm-Moves client key now token tenant customer s mem in
        (mem', shown m ended))
  run_call-Runs (resets now token tenant) s mem = rw (get-memory client now token tenant s mem.0) (
      let (mem', m) = reopen-Moves client key now (memory_key tenant token) _ s mem refl in
      (mem', shown m ended))
  run_call-Runs (cancels now fresh token tenant) s mem =
      rw (cancel-memory now fresh token tenant s mem, get-memory client now token tenant s mem.0)
        (let (mem', m) =
            withdraw_read-Moves client key now (memory_key tenant token) _ s mem refl in
          (mem', silent m ended))
  run_call-Runs (cleans now) s mem = clean-Runs now s.memory_map s mem

  -- Without Redis every history is a run of moves of the record under a key.
  pub run_calls-Runs :
      (calls : List Call) (s : WriteGuard S)
      → InMemory s
      → let (s', outs) = run_calls calls s in Runs s outs s'
  unfolding run_calls
  run_calls-Runs [] s mem = (mem, ended)
  run_calls-Runs (call ∷ calls) s mem =
      let (mem', r) = run_call-Runs call s mem in
      let (mem'', rest) = run_calls-Runs calls _ mem' in (mem'', Run-append r rest)
