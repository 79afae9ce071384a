-- ===== src/WriteGuard/Service.antt =====
-- The operations of src/brain/write-guard.service.ts.
use zxql_ai.Prelude.{
  ℕ, ◌+◌, String, Bool, true, false, not, ◌||◌, Option, none, some, List, [], ◌∷◌, ltb, leb,
  if◌then◌else◌, ◌==◌, nat_eq, string_eq, is_some_eq, sort,
}
use zxql_ai.Prelude.Map.{delete}
use Prim.Native.String.{◌++◌ as append}
use zxql_ai.Json.{Json, Args}
use zxql_ai.Redis.{RedisClient}
use zxql_ai.WriteGuard.{
  ToolRisk, high, pending, first_confirmed, confirmed, cancelled, expired, PendingWrite, Cell,
  owner, WriteGuard, lock_key, unindex, audit, assign, save, load, remove, list_tokens,
}

pub record SuspendWriteInput : Type 0 where
  pub tenant_id : String
  pub conversation_id : Option String
  pub customer_id : Option String
  pub plan_id : Option ℕ
  pub plan_step_id : Option String
  pub tool_name : String
  pub doc_type : String
  pub risk : ToolRisk
  pub needs_review : Bool
  pub args : Args
  pub preview : Option Json
  pub operation_label : String

-- The refusals, one for each text of an error.
pub data ConfirmError : Type 0 where
  in_progress missing not_the_customer was_cancelled was_confirmed : ConfirmError

-- A success carries the record and `needsSecondConfirm`.
pub data WriteGuardConfirmResult : Type 0 where
  refused : ConfirmError → WriteGuardConfirmResult
  accepted : PendingWrite → Bool → WriteGuardConfirmResult

abbrev is_high : ToolRisk → Bool
is_high high = true
is_high _ = false

abbrev pub high_risk : PendingWrite → Bool
high_risk w = is_high w.risk || w.needs_review

-- A record without a customer, or with an empty one, is confirmed by anybody.
abbrev pub customer_matches : Option String → Option String → Bool
customer_matches none given = true
customer_matches (some bound) given =
    if bound == "" then true else (if is_some_eq given "" then false else is_some_eq given bound)

unfoldable pub new_write : ℕ → String → ℕ → SuspendWriteInput → PendingWrite
new_write now fresh ttl i = record {
  token = append "wg_" fresh;
  tenant_id = i.tenant_id;
  conversation_id = i.conversation_id;
  customer_id = i.customer_id;
  plan_id = i.plan_id;
  plan_step_id = i.plan_step_id;
  tool_name = i.tool_name;
  doc_type = i.doc_type;
  risk = i.risk;
  needs_review = i.needs_review;
  args = i.args;
  preview = i.preview;
  operation_label = i.operation_label;
  created_at = now;
  expires_at = now + ttl;
  status = pending;
  confirm_count = 0;
}

module _ {S : Type 0} (client : RedisClient S Cell) where
  -- The mark of the lock that is held, or `none` while another call holds it.
  unfoldable pub acquire_token_lock :
      ℕ → String → String → WriteGuard S → WriteGuard S × Option String
  acquire_token_lock now fresh token s =
      let (r, reply) = client.set_nx now (lock_key token) (owner fresh) 5000 s.redis in
      elim s.redis_available [
        | false ↦ (s, some "memory")
        | true ↦ elim reply [
          | none ↦ (record s { redis = r }, some "memory")
          | some true ↦ (record s { redis = r }, some fresh)
          | some false ↦ (record s { redis = r }, none)
        ]
      ]

  unfoldable pub release_token_lock : ℕ → String → String → WriteGuard S → WriteGuard S
  release_token_lock now token mark s =
      if mark == "memory" || not s.redis_available
      then s
      else record s { redis = client.release now (lock_key token) (owner mark) s.redis }

  unfoldable pub suspend :
      ℕ → String → SuspendWriteInput → WriteGuard S → WriteGuard S × PendingWrite
  unfolding new_write
  suspend now fresh input s =
      let w = new_write now fresh s.token_ttl_ms input in (audit w pending (save client now w s), w)

  unfoldable pub get :
      ℕ → String → String → WriteGuard S → WriteGuard S × Option (Bool × PendingWrite)
  get now token tenant s =
      let (s', found) = load client now token tenant s in
      elim found [
        | none ↦ (s', none)
        | some (shared, w) ↦
            if ltb w.expires_at now
            then (audit w expired (remove client now w s'), none)
            else (s', some (shared, w))
      ]

  -- The new fields of a record, then the save and the audit of the event.
  abbrev pub change : ℕ → Bool → PendingWrite → WriteGuard S → WriteGuard S
  change now shared w s = audit w w.status (save client now w (assign shared w s))

  -- The rest of `doConfirm` once the record is read and its customer matches.
  abbrev pub advance :
      ℕ → Bool → PendingWrite → WriteGuard S → WriteGuard S × WriteGuardConfirmResult
  advance now shared w s =
      let first = record w { status = first_confirmed; confirm_count = 1 } in
      let full = record w { status = confirmed; confirm_count = w.confirm_count + 1 } in
      elim w.status [
        | cancelled ↦ (s, refused was_cancelled)
        | confirmed ↦ (s, refused was_confirmed)
        | pending ↦
            if high_risk w
            then (change now shared first s, accepted first true)
            else (change now shared full s, accepted full false)
        | first_confirmed ↦ (change now shared full s, accepted full false)
        | expired ↦ (change now shared full s, accepted full false)
      ]

  -- What `doConfirm` does with the record that it has read.
  unfoldable pub answer :
      ℕ
      → Option String
      → WriteGuard S × Option (Bool × PendingWrite)
      → WriteGuard S × WriteGuardConfirmResult
  answer now customer (s, none) = (s, refused missing)
  answer now customer (s, some (shared, w)) =
      if customer_matches w.customer_id customer
      then advance now shared w s
      else (s, refused not_the_customer)

  unfoldable pub do_confirm :
      ℕ → String → String → Option String → WriteGuard S → WriteGuard S × WriteGuardConfirmResult
  unfolding answer
  do_confirm now token tenant customer s = answer now customer (get now token tenant s)

  unfoldable pub confirm :
      ℕ
      → String
      → String
      → String
      → Option String
      → WriteGuard S
      → WriteGuard S × WriteGuardConfirmResult
  unfolding acquire_token_lock release_token_lock
  confirm now fresh token tenant customer s =
      let (s₁, lock) = acquire_token_lock now fresh token s in
      elim lock [
        | none ↦ (s₁, refused in_progress)
        | some mark ↦
            let (s₂, result) = do_confirm now token tenant customer s₁ in
            (release_token_lock now token mark s₂, result)
      ]

  abbrev pub reopen : ℕ → WriteGuard S × Option (Bool × PendingWrite) → WriteGuard S × Bool
  reopen now (s, none) = (s, false)
  reopen now (s, some (shared, w)) = elim w.status [
    | confirmed ↦ (change now shared (record w { status = pending }) s, true)
    | pending ↦ (s, false)
    | first_confirmed ↦ (s, false)
    | cancelled ↦ (s, false)
    | expired ↦ (s, false)
  ]

  unfoldable pub reset_to_pending : ℕ → String → String → WriteGuard S → WriteGuard S × Bool
  reset_to_pending now token tenant s = reopen now (get now token tenant s)

  abbrev pub withdraw : ℕ → Bool → PendingWrite → WriteGuard S → WriteGuard S × Bool
  withdraw now shared gone s =
      (audit gone cancelled (remove client now gone (assign shared gone s)), true)

  abbrev pub withdraw_read : ℕ → WriteGuard S × Option (Bool × PendingWrite) → WriteGuard S × Bool
  withdraw_read now (s, none) = (s, false)
  withdraw_read now (s, some (shared, w)) =
      let gone = record w { status = cancelled } in
      elim w.status [
        | confirmed ↦ (s, false)
        | pending ↦ withdraw now shared gone s
        | first_confirmed ↦ withdraw now shared gone s
        | cancelled ↦ withdraw now shared gone s
        | expired ↦ withdraw now shared gone s
      ]

  unfoldable pub do_cancel : ℕ → String → String → WriteGuard S → WriteGuard S × Bool
  do_cancel now token tenant s = withdraw_read now (get now token tenant s)

  unfoldable pub cancel : ℕ → String → String → String → WriteGuard S → WriteGuard S × Bool
  unfolding acquire_token_lock release_token_lock
  cancel now fresh token tenant s =
      let (s₁, lock) = acquire_token_lock now fresh token s in
      elim lock [
        | none ↦ (s₁, false)
        | some mark ↦
            let (s₂, done) = do_cancel now token tenant s₁ in
            (release_token_lock now token mark s₂, done)
      ]

  -- The records of the tokens that are still there, in the order of the tokens.
  unfoldable pub get_all :
      ℕ → List String → String → WriteGuard S → WriteGuard S × List PendingWrite
  get_all now [] tenant s = (s, [])
  get_all now (t ∷ ts) tenant s =
      let (s₁, found) = get now t tenant s in
      let (s₂, ws) = get_all now ts tenant s₁ in
      (s₂, elim found [ none ↦ ws | some (_, w) ↦ w ∷ ws ])

  -- Newest first.
  unfoldable pub list_pending : ℕ → String → WriteGuard S → WriteGuard S × List PendingWrite
  unfolding get_all
  list_pending now tenant s =
      let (s₁, ts) = list_tokens client now tenant s in
      let (s₂, ws) = get_all now ts tenant s₁ in
      (s₂, sort (λ a b. leb b.created_at a.created_at) ws)

module _ {S : Type 0} where
  unfoldable pub clean : ℕ → List (String × PendingWrite) → WriteGuard S → WriteGuard S × ℕ
  unfolding unindex
  clean now [] s = (s, 0)
  clean now ((key, w) ∷ rest) s =
      let gone = record s {
        memory_map = delete key s.memory_map;
        memory_index = unindex w.tenant_id w.token s.memory_index;
      } in
      let is_old = ltb w.expires_at now in
      let (s', n) = clean now rest (if is_old then gone else s) in (s', if is_old then n + 1 else n)

  unfoldable pub cleanup_expired : ℕ → WriteGuard S → WriteGuard S × ℕ
  unfolding clean
  cleanup_expired now s = clean now s.memory_map s

  -- The error event of the Redis client.
  abbrev pub lose_redis : WriteGuard S → WriteGuard S
  lose_redis s = record s { redis_available = false }
