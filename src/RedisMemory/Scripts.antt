-- ===== src/RedisMemory/Scripts.antt =====
-- The two Lua scripts that src/common/redis-memory.client.ts answers itself.
use zxql_ai.Prelude.{
  ℕ, ◌+◌, ◌-◌, ◌*◌, ◌/◌, min, String, Bool, Option, none, some, [], ◌∷◌, leb, if◌then◌else◌,
  Equality, nat_eq, string_eq, is_some_eq,
}
use zxql_ai.RedisMemory.{RedisMemory, px, get, set, del}

module _ {V : Type 0} where
  -- The release of a lock: the key is deleted if it holds the owner's mark; the number deleted.
  unfoldable pub release_if_matches :
      ⦃e : Equality V⦄ → String → V → ℕ → RedisMemory V → RedisMemory V × ℕ
  release_if_matches key owner now c =
      let (c', current) = get now key c in
      if is_some_eq current owner then del (key ∷ []) c' else (c', 0)

  -- The token bucket. Amounts are counted in units of 1/60000 token, of which `capacity` tokens
  -- a minute refill `capacity` units a millisecond; the answer is `allowed` and whole tokens.

  abbrev number_or : (V → ℕ) → ℕ → Option V → ℕ
  number_or to_number d none = d
  number_or to_number d (some v) = to_number v

  unfoldable pub token_bucket :
      (V → ℕ)
      → (ℕ → V)
      → String
      → String
      → ℕ
      → ℕ
      → ℕ
      → ℕ
      → ℕ
      → RedisMemory V
      → RedisMemory V × (Bool × ℕ)
  token_bucket to_number of_number tokens_key ts_key now capacity refill requested ttl c =
      let (c₁, raw_tokens) = get now tokens_key c in
      let (c₂, raw_ts) = get now ts_key c₁ in
      let tokens = number_or to_number capacity raw_tokens in
      let ts = number_or to_number now raw_ts in
      let full = min capacity (tokens + (now - ts) * refill) in
      let allowed = leb requested full in
      let left = if allowed then full - requested else full in
      let (c₃, _) = set now tokens_key (of_number left) (px ttl ∷ []) c₂ in
      let (c₄, _) = set now ts_key (of_number now) (px ttl ∷ []) c₃ in (c₄, (allowed, left / 60000))
