-- ===== src/WriteGuard.antt =====
-- src/brain/write-guard.service.ts: the records of pending writes, the state of the service and the
-- two stores behind it. `Date.now()` and `randomUUID()` are the arguments `now` and `fresh`, one of
-- each for a call. A record that is read from memory is the stored object itself, so that a change
-- to it shows in the memory map even where it is saved in Redis.
use zxql_ai.Prelude.{
  ℕ, zero, suc, ◌+◌, ◌-◌, ◌*◌, ◌/◌, ◌%◌, ◌^◌, ◌≤◌, ◌<◌, min, max, String, ◌≡◌, refl, sym, ap, ◌∙◌,
  subst, ◌≢◌, ◌↔◌, ◌⊎◌, inl, inr, Bool, true, false, not, ◌&&◌, ◌||◌, Option, none, some, List, [],
  ◌∷◌, ◌++◌, map, arith, ltb, leb, nat_beq, if◌then◌else◌, ltb→lt, lt→ltb, le→not-ltb, not-ltb→le,
  leb→le, le→leb, not-leb→lt, lt→not-leb, nat_beq_iff, Bool-cases, Option-cases, Equality, ◌==◌,
  beq_refl, nat_eq, string_eq, str_eq_iff, is_some_eq, String-discrete, decided, decision_iff,
  length, length-append, filter, length-filter-le, any, All, All-append, All-filter, All-intro,
  sort, sort-mem, length-sort, map-mem, Memᴰ,
}
use zxql_ai.Prelude.Map.{
  lookup, insert, delete, lookup-insert, lookup-delete, lookup-insert_self, length-insert-le,
  length-delete-le, lookup-mem, AllEntries, lookup-AllEntries, insert-AllEntries, delete-AllEntries,
  UniqueKeys, insert-UniqueKeys, delete-UniqueKeys, lookup-filter-none, filter-UniqueKeys, kept,
  lookup-filter,
}
use native.Mathlib.Decide.{ℕ_discrete}
use Prim.Native.String.{◌++◌ as append, slice, len}
use zxql_ai.Json.{Json, Args, Json-discrete, property}
use zxql_ai.RedisMemory.Sets.{
  Command, setex_command, sadd_command, srem_command, expire_command, del_command,
}
use zxql_ai.Redis.{RedisClient}
pub mod Service
pub mod Authority
pub mod Memory
pub mod Moves
pub mod Calls
pub mod Approval
pub mod Lifecycle
mod Tests

pub data ToolRisk : Type 0 where
  low medium high : ToolRisk

pub data WriteGuardStatus : Type 0 where
  pending first_confirmed confirmed cancelled expired : WriteGuardStatus

pub record PendingWrite : Type 0 where
  pub token : String
  pub tenant_id : String
  pub conversation_id : Option String
  pub customer_id : Option String
  pub plan_id : Option ℕ
  pub plan_step_id : Option String
  pub tool_name : String
  pub doc_type : String
  pub risk : ToolRisk
  pub needs_review : Bool
  pub args : Args
  pub preview : Option Json
  pub operation_label : String
  pub created_at : ℕ
  pub expires_at : ℕ
  pub status : WriteGuardStatus
  pub confirm_count : ℕ

-- What the service keeps in Redis: the JSON text of a record, or the owner mark of a lock.
pub data Cell : Type 0 where
  saved : PendingWrite → Cell
  owner : String → Cell

pub Cell-discrete : Discrete Cell
Cell-discrete = hlevel (String-discrete, ℕ_discrete, Json-discrete)

instance abbrev pub cell_eq : Equality Cell
cell_eq = record {
  same = λ c d. decided (Cell-discrete c d);
  same_iff = decision_iff Cell-discrete;
}

-- What the audit logger receives of an event.
pub record AuditEvent : Type 0 where
  pub tenant_id : String
  pub session_id : Option String
  pub event : WriteGuardStatus
  pub token : String
  pub tool_name : String
  pub doc_type : String
  pub risk : ToolRisk
  pub needs_review : Bool
  pub operation_label : String
  pub summary : Option Json

pub record WriteGuard (S : Type 0) : Type 0 where
  pub redis : S
  pub redis_available : Bool
  pub memory_map : List (String × PendingWrite)
  pub memory_index : List (String × List String)
  pub token_ttl_ms : ℕ
  pub audit_logger : Option (List AuditEvent)

pub write_token_ttl_ms : ℕ
write_token_ttl_ms = 86400000

hour_ms : ℕ
hour_ms = 3600000

-- `WRITE_TOKEN_TTL_HOURS`: not set, not a positive finite number, or the fraction `(n + 1) / (d + 1)`.
pub data Hours : Type 0 where
  unset : Hours
  not_positive : Hours
  fraction : ℕ → ℕ → Hours

-- The service with a client: its ping decides whether Redis is in use.
unfoldable pub on_module_init : {S : Type 0} → RedisClient S Cell → S → WriteGuard S → WriteGuard S
on_module_init client redis s = record s { redis = redis; redis_available = client.ping redis }

-- `redis.on('error')`
unfoldable pub on_redis_error : {S : Type 0} → WriteGuard S → WriteGuard S
on_redis_error s = record s { redis_available = false }

-- `Math.round(hours * 60 * 60 * 1000)`
round_hours : ℕ → ℕ → ℕ
unfolding hour_ms
round_hours n d = (2 * n * hour_ms + d) / (2 * d)

unfoldable pub resolve_write_token_ttl_ms : Hours → ℕ
unfolding round_hours hour_ms write_token_ttl_ms
resolve_write_token_ttl_ms unset = write_token_ttl_ms
resolve_write_token_ttl_ms not_positive = write_token_ttl_ms
resolve_write_token_ttl_ms (fraction n d) =
    if ltb (n + 1) (d + 1)
    then hour_ms
    else (if ltb (720 * (d + 1)) (n + 1) then 720 * hour_ms else round_hours (n + 1) (d + 1))

-- The token is a text of ASCII characters.
unfoldable pub mask_token : String → String
mask_token token =
    if leb (len token) 12
    then append (slice token 0 (min 4 (len token))) "…"
    else append (slice token 0 8) (append "…" (slice token (len token - 4) (len token)))

unfoldable pub build_key : String → String → String
build_key tenant token = append "ai:writeguard:" (append tenant (append ":" token))

unfoldable pub build_index_key : String → String
build_index_key tenant = append "ai:writeguard:idx:" tenant

unfoldable pub lock_key : String → String
lock_key token = append "ai:wg:lock:" token

-- The key of the memory map.
unfoldable pub memory_key : String → String → String
memory_key tenant token = append tenant (append ":" token)

abbrev tokens_of : Option (List String) → List String
tokens_of none = []
tokens_of (some ts) = ts

abbrev is_absent : List String → String → Bool
is_absent ts t = not (any (λ u. u == t) ts)

-- `Set.add`
abbrev add_token : String → List String → List String
add_token t ts = if is_absent ts t then ts ++ t ∷ [] else ts

-- `index.delete(token)`, and the whole index once it is empty.
put_index : String → List String → List (String × List String) → List (String × List String)
put_index tenant [] m = delete tenant m
put_index tenant (t ∷ ts) m = insert tenant (t ∷ ts) m

pub unindex : String → String → List (String × List String) → List (String × List String)
unfolding put_index
unindex tenant token m = elim (lookup tenant m) [
  | none ↦ m
  | some ts ↦ put_index tenant (filter (λ u. not (u == token)) ts) m
]

module _ {S : Type 0} where
  pub audit : PendingWrite → WriteGuardStatus → WriteGuard S → WriteGuard S
  unfolding mask_token
  audit w event s = elim s.audit_logger [
    | none ↦ s
    | some events ↦ record s {
      audit_logger = some (
          record {
            tenant_id = w.tenant_id;
            session_id = w.conversation_id;
            event = event;
            token = mask_token w.token;
            tool_name = w.tool_name;
            doc_type = w.doc_type;
            risk = w.risk;
            needs_review = w.needs_review;
            operation_label = w.operation_label;
            summary = property "summary" w.preview;
          }
          ∷ events);
    }
  ]

  -- An assignment to the fields of a record that was read, `shared` if it came from memory.
  abbrev pub assign : Bool → PendingWrite → WriteGuard S → WriteGuard S
  assign shared w s =
      if shared
      then record s { memory_map = insert (memory_key w.tenant_id w.token) w s.memory_map }
      else s

  pub save_memory : PendingWrite → WriteGuard S → WriteGuard S
  save_memory w s = record s {
    memory_map = insert (memory_key w.tenant_id w.token) w s.memory_map;
    memory_index =
        insert w.tenant_id (add_token w.token (tokens_of (lookup w.tenant_id s.memory_index)))
          s.memory_index;
  }

  pub remove_memory : PendingWrite → WriteGuard S → WriteGuard S
  unfolding unindex
  remove_memory w s = record s {
    memory_map = delete (memory_key w.tenant_id w.token) s.memory_map;
    memory_index = unindex w.tenant_id w.token s.memory_index;
  }

module _ {S : Type 0} (client : RedisClient S Cell) where
  unfoldable pub save : ℕ → PendingWrite → WriteGuard S → WriteGuard S
  unfolding save_memory
  save now w s =
      let ttl = (s.token_ttl_ms + 999) / 1000 in
      let (r, reply) =
        client.multi now
          (setex_command (build_key w.tenant_id w.token) ttl (saved w)
            ∷ sadd_command (build_index_key w.tenant_id) (w.token ∷ [])
            ∷ expire_command (build_index_key w.tenant_id) ttl
            ∷ [])
          s.redis in
      elim s.redis_available [
        | false ↦ save_memory w s
        | true ↦ elim reply [
          | true ↦ record s { redis = r }
          | false ↦ save_memory w (record s { redis = r })
        ]
      ]

  -- The record and whether it is the object of the memory map.
  abbrev pub load_memory : String → String → WriteGuard S → Option (Bool × PendingWrite)
  load_memory token tenant s = elim (lookup (memory_key tenant token) s.memory_map) [
    | none ↦ none
    | some w ↦ some (true, w)
  ]

  unfoldable pub load :
      ℕ → String → String → WriteGuard S → WriteGuard S × Option (Bool × PendingWrite)
  load now token tenant s =
      let (r, reply) = client.get now (build_key tenant token) s.redis in
      elim s.redis_available [
        | false ↦ (s, load_memory token tenant s)
        | true ↦ elim reply [
          | some none ↦ (record s { redis = r }, none)
          | some (some (saved w)) ↦ (record s { redis = r }, some (false, w))
          | some (some (owner _)) ↦ (record s { redis = r }, load_memory token tenant s)
          | none ↦ (record s { redis = r }, load_memory token tenant s)
        ]
      ]

  unfoldable pub remove : ℕ → PendingWrite → WriteGuard S → WriteGuard S
  unfolding remove_memory
  remove now w s =
      let (r, reply) =
        client.multi now
          (del_command (build_key w.tenant_id w.token)
            ∷ srem_command (build_index_key w.tenant_id) (w.token ∷ [])
            ∷ [])
          s.redis in
      elim s.redis_available [
        | false ↦ remove_memory w s
        | true ↦ elim reply [
          | true ↦ record s { redis = r }
          | false ↦ remove_memory w (record s { redis = r })
        ]
      ]

  unfoldable pub list_tokens : ℕ → String → WriteGuard S → WriteGuard S × List String
  list_tokens now tenant s =
      let (r, reply) = client.smembers now (build_index_key tenant) s.redis in
      let held = tokens_of (lookup tenant s.memory_index) in
      elim s.redis_available [
        | false ↦ (s, held)
        | true ↦ elim reply [
          | some ts ↦ (record s { redis = r }, ts)
          | none ↦ (record s { redis = r }, held)
        ]
      ]
