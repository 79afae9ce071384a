-- ===== src/RateLimiter.antt =====
-- src/common/rate-limiter.ts: a token bucket for each key, in Redis or in memory.
-- Amounts are counted in units of 1/60000 token, the refill of a millisecond at one token a minute,
-- so that `capacity / 60000` tokens a millisecond are `capacity` units. The source computes in
-- floating point; its rounding is not modelled. Limits are whole numbers of tokens.
use zxql_ai.Prelude.{
  ℕ, zero, suc, ◌+◌, ◌-◌, ◌*◌, ◌/◌, ◌%◌, ◌^◌, ◌≤◌, ◌<◌, min, max, String, ◌≡◌, refl, sym, ap, ◌∙◌,
  subst, ◌≢◌, ◌↔◌, ◌⊎◌, inl, inr, Bool, true, false, not, ◌&&◌, ◌||◌, Option, none, some, List, [],
  ◌∷◌, ◌++◌, map, arith, ltb, leb, nat_beq, if◌then◌else◌, ltb→lt, lt→ltb, le→not-ltb, not-ltb→le,
  leb→le, le→leb, not-leb→lt, lt→not-leb, nat_beq_iff, Bool-cases, Option-cases, Equality, ◌==◌,
  beq_refl, nat_eq, string_eq, str_eq_iff, is_some_eq, length, length-append, filter,
  length-filter-le, any, All, All-append, All-filter, All-intro, sort, sort-mem, length-sort,
  map-mem, Memᴰ,
}
use zxql_ai.Prelude.Map.{
  lookup, insert, delete, lookup-insert, lookup-delete, lookup-insert_self, length-insert-le,
  length-delete-le, lookup-mem, AllEntries, lookup-AllEntries, insert-AllEntries, delete-AllEntries,
  UniqueKeys, insert-UniqueKeys, delete-UniqueKeys, lookup-filter-none, filter-UniqueKeys, kept,
  lookup-filter,
}
use Prim.Native.String
use mathlib.Core.Option
pub mod Keys
pub mod Level
pub mod Bounds
mod Tests

-- One token, in units; the refill window in milliseconds.
abbrev pub token : ℕ
token = 60000

abbrev pub window_ms : ℕ
window_ms = 60000

abbrev pub key_ttl_ms : ℕ
key_ttl_ms = 120000

pub data RateLimitBucket : Type 0 where
  read write : RateLimitBucket

pub record RateLimitResult : Type 0 where
  pub allowed : Bool
  pub remaining : ℕ

pub record MemoryBucket : Type 0 where
  pub tokens : ℕ
  pub last_refill_ms : ℕ

pub record Limits : Type 0 where
  pub capacity : ℕ
  pub read_capacity : ℕ
  pub cleanup_threshold : ℕ

-- The limits from the configuration: the write rate, else the general rate, else 60.
pub limits : Option ℕ → Option ℕ → Option ℕ → Limits
limits write_rate rate read_rate = record {
  capacity = max 1 (Option.get_or write_rate (Option.get_or rate 60));
  read_capacity = max 1 (Option.get_or read_rate 600);
  cleanup_threshold = 10000;
}

pub capacity_of : Limits → RateLimitBucket → ℕ
capacity_of l read = l.read_capacity
capacity_of l write = l.capacity

abbrev pub Buckets : Type 0
Buckets = List (String × MemoryBucket)

-- A bucket is stale when it was last used before `now - windowMs`.
abbrev pub is_fresh : ℕ → String × MemoryBucket → Bool
is_fresh now (_, b) = leb now (b.last_refill_ms + window_ms)

pub cleanup_stale_buckets : ℕ → Buckets → Buckets
cleanup_stale_buckets now = filter (is_fresh now)

abbrev pub cleaned : ℕ → ℕ → Buckets → Buckets
cleaned threshold now m = if leb threshold (length m) then cleanup_stale_buckets now m else m

abbrev tokens_now : ℕ → Option MemoryBucket → ℕ
tokens_now capacity none = capacity * token
tokens_now capacity (some b) = b.tokens

abbrev last_refill : ℕ → Option MemoryBucket → ℕ
last_refill now none = now
last_refill now (some b) = b.last_refill_ms

-- The bucket's units at `now`, after the refill.
abbrev pub refilled : ℕ → ℕ → Option MemoryBucket → ℕ
refilled capacity now b =
    min (capacity * token) (tokens_now capacity b + (now - last_refill now b) * capacity)

pub consume_memory : ℕ → ℕ → String → ℕ → ℕ → Buckets → Buckets × RateLimitResult
consume_memory threshold now key tokens capacity m =
    let m' = cleaned threshold now m in
    let full = refilled capacity now (lookup key m') in
    let ok = leb (tokens * token) full in
    let next = full - (if ok then tokens * token else 0) in
    (
      insert key (record { tokens = next; last_refill_ms = now }) m',
      record { allowed = ok; remaining = next / token },
    )

-- `ai:rl:${key}:${part}`
pub data KeyPart : Type 0 where
  tokens_part ts_part : KeyPart

abbrev part_name : KeyPart → String
part_name tokens_part = "tokens"
part_name ts_part = "ts"

pub build_key : String → KeyPart → String
build_key key part = String.◌++◌ "ai:rl:" (String.◌++◌ key (String.◌++◌ ":" (part_name part)))

-- The service: what the Redis client keeps, whether it is in use, and the buckets in memory.
pub record RateLimiter (R : Type 0) : Type 0 where
  pub limits : Limits
  pub redis : R
  pub redis_available : Bool
  pub memory_buckets : Buckets

-- `ping` is whether the client answers one; the client of the standalone form has none.
unfoldable pub on_module_init : {R : Type 0} → R → (ping : R → Bool) → RateLimiter R → RateLimiter R
on_module_init redis ping s = record s { redis = redis; redis_available = ping redis }

-- `redis.on('error')`
unfoldable pub on_redis_error : {R : Type 0} → RateLimiter R → RateLimiter R
on_redis_error s = record s { redis_available = false }

-- `eval(RATE_LIMITER_LUA, …)` of the client: the tokens key, the time key, the time, the capacity
-- and the request in units, the refill in units a millisecond, and the time to live. It answers
-- `none` where the promise is rejected.
abbrev pub Script : Type 0 → Type 0
Script R = String → String → ℕ → ℕ → ℕ → ℕ → ℕ → R → R × Option (Bool × ℕ)

module _ {R : Type 0} (eval : Script R) where
  pub consume_bucket :
      ℕ → String → ℕ → RateLimitBucket → RateLimiter R → RateLimiter R × RateLimitResult
  consume_bucket now key tokens bucket s =
      let (m, result) =
        consume_memory s.limits.cleanup_threshold now key tokens (capacity_of s.limits bucket)
          s.memory_buckets in
      (record s { memory_buckets = m }, result)

  pub consume : ℕ → String → ℕ → RateLimitBucket → RateLimiter R → RateLimiter R × RateLimitResult
  unfolding consume_bucket
  consume now key tokens bucket s =
      let capacity = capacity_of s.limits bucket in
      let (redis, reply) =
        eval (build_key key tokens_part) (build_key key ts_part) now (capacity * token) capacity
          (tokens * token) key_ttl_ms s.redis in
      let fallback =
        consume_bucket now key tokens bucket
          (record s { redis = redis; redis_available = false }) in
      let in_memory = consume_bucket now key tokens bucket s in
      elim s.redis_available [
        | false ↦ in_memory
        | true ↦ elim reply [
          | some (ok, left) ↦
              (record s { redis = redis }, record { allowed = ok; remaining = left })
          | none ↦ fallback
        ]
      ]
