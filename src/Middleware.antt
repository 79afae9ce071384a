-- ===== src/Middleware.antt =====
-- src/common/rate-limiter.middleware.ts: the bucket of a request and the answer to it. `upper` is
-- `toUpperCase` of the language.
use zxql_ai.Prelude.{
  ℕ, zero, suc, ◌+◌, ◌-◌, ◌*◌, ◌/◌, ◌%◌, ◌^◌, ◌≤◌, ◌<◌, min, max, String, ◌≡◌, refl, sym, ap, ◌∙◌,
  subst, ◌≢◌, ◌↔◌, ◌⊎◌, inl, inr, Bool, true, false, not, ◌&&◌, ◌||◌, Option, none, some, List, [],
  ◌∷◌, ◌++◌, map, arith, ltb, leb, nat_beq, if◌then◌else◌, ltb→lt, lt→ltb, le→not-ltb, not-ltb→le,
  leb→le, le→leb, not-leb→lt, lt→not-leb, nat_beq_iff, Bool-cases, Option-cases, Equality, ◌==◌,
  beq_refl, nat_eq, string_eq, str_eq_iff, is_some_eq, String-discrete, decided, decision_iff,
  length, length-append, filter, length-filter-le, any, All, All-append, All-filter, All-intro,
  sort, sort-mem, length-sort, map-mem, Memᴰ,
}
use Prim.Native.String.{◌++◌ as append}
use zxql_ai.RateLimiter.{
  RateLimitBucket, read, write, RateLimitResult, RateLimiter, Script, consume, window_ms,
}
pub mod Callers
mod Tests

pub record Request : Type 0 where
  pub method : Option String
  pub ip : Option String

abbrev is_read_method : (String → String) → String → Bool
is_read_method upper method = let m = upper method in m == "GET" || (m == "HEAD" || m == "OPTIONS")

abbrev or_unknown : Option String → String
or_unknown none = "unknown"
or_unknown (some ip) = ip

-- A tenant, where the context names one, or else the address.
unfoldable pub base_key : Option String → Request → String
base_key none req = append "ip:" (or_unknown req.ip)
base_key (some tenant) req =
    if tenant == "" then append "ip:" (or_unknown req.ip) else append "tenant:" tenant

abbrev pub bucket_name : RateLimitBucket → String
bucket_name read = "read"
bucket_name write = "write"

unfoldable pub bucket_of : (String → String) → Request → Option RateLimitBucket
bucket_of upper req = elim req.method [
  | none ↦ none
  | some method ↦ if is_read_method upper (upper method) then some read else some write
]

unfoldable pub request_key : Option String → Option RateLimitBucket → Request → String
unfolding base_key
request_key tenant none req = base_key tenant req
request_key tenant (some b) req = append (base_key tenant req) (append ":" (bucket_name b))

-- The request goes on with the tokens that remain, or ends with status 429 and the time to wait.
pub data Answer : Type 0 where
  passed : ℕ → Answer
  limited : (retry_after_sec retry_after_ms : ℕ) → Answer

-- A request without a method takes from the bucket of writes.
abbrev bucket_or_write : Option RateLimitBucket → RateLimitBucket
bucket_or_write none = write
bucket_or_write (some b) = b

unfoldable pub handle :
    {R : Type 0}
    → Script R
    → (String → String)
    → ℕ
    → Option String
    → Request
    → RateLimiter R
    → RateLimiter R × Answer
unfolding request_key bucket_of
handle eval upper now tenant req s =
    let bucket = bucket_of upper req in
    let (s', result) =
      consume eval now (request_key tenant bucket req) 1 (bucket_or_write bucket) s in
    (
      s',
      if result.allowed
          then passed result.remaining
          else limited (max 1 ((window_ms + 999) / 1000)) window_ms,
    )
