-- ===== src/Redis.antt =====
-- The Redis client of src/common/redis.provider.ts as the services use it. `none` stands for a
-- rejected promise, as `false` does for `multi`; every call takes the time at which it
-- runs. `ping` says whether the client answers one at the start of a service.
use zxql_ai.Prelude.{
  ℕ, String, Bool, true, false, Option, none, some, List, Equality, string_eq, nat_eq,
}
use zxql_ai.RedisMemory.{RedisMemory, get}
use zxql_ai.RedisMemory.Sets.{Command, multi, smembers}
use zxql_ai.RedisMemory.Strings.{set_nx}
use zxql_ai.RedisMemory.Scripts.{release_if_matches}

-- A client that keeps texts that stand for values of `V` and whose state is `S`.
pub record RedisClient (S : Type 0) (V : Type 0) : Type 0 where
  pub get : ℕ → String → S → S × Option (Option V)
  pub set_nx : ℕ → String → V → ℕ → S → S × Option Bool
  pub multi : ℕ → List (Command V) → S → S × Bool
  pub smembers : ℕ → String → S → S × Option (List String)
  pub release : ℕ → String → V → S → S
  pub ping : S → Bool

-- A chain with a method that is not there throws before anything runs.
abbrev multi_reply : {V : Type 0} → RedisMemory V → Option (RedisMemory V) → RedisMemory V × Bool
multi_reply c none = (c, false)
multi_reply c (some c') = (c', true)

-- The client of the standalone form. It has no `ping`, so that the call of it throws.
abbrev pub standalone : {V : Type 0} ⦃e : Equality V⦄ → RedisClient (RedisMemory V) V
standalone = record {
  get = λ now key c. let (c', v) = get now key c in (c', some v);
  set_nx = λ now key v ttl c. let (c', ok) = set_nx now key v ttl c in (c', some ok);
  multi = λ now cmds c. multi_reply c (multi now cmds c);
  smembers = λ now key c. let (c', ms) = smembers now key c in (c', some ms);
  release = λ now key v c. (release_if_matches key v now c).0;
  ping = λ c. false;
}
