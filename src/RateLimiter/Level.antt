-- ===== src/RateLimiter/Level.antt =====
-- The units that a bucket offers at a time, and what the cleanup and the calls do to them.
use zxql_ai.Prelude.{
  ◌/◌, ℕ, ◌+◌, ◌-◌, ◌*◌, ◌≤◌, min, String, ◌≡◌, refl, inl, inr, false, Option, none, some, arith,
  leb, if◌then◌else◌, Bool-cases, ◌==◌, nat_eq, string_eq, length,
}
use zxql_ai.Prelude.Map.{
  lookup, lookup-insert, lookup-insert_self, UniqueKeys, insert-UniqueKeys, filter-UniqueKeys, kept,
  lookup-filter,
}
use native.Mathlib.Nat.{add-zero}
use zxql_ai.RateLimiter.{
  token, MemoryBucket, Buckets, RateLimitResult, refilled, is_fresh, cleanup_stale_buckets, cleaned,
  consume_memory,
}

-- What a request for `key` would find at time `t`.
abbrev pub level : ℕ → ℕ → String → Buckets → ℕ
level capacity t key m = refilled capacity t (lookup key m)

pub level-le :
    (capacity t : ℕ) (key : String) (m : Buckets) → level capacity t key m ≤ capacity * token
level-le capacity t key m = omega arith

pub mul-le_mul : (x y c : ℕ) → x ≤ y → x * c ≤ y * c
mul-le_mul x y c h = grind arith

refilled-wait :
    (capacity t d : ℕ) (b : Option MemoryBucket)
    → refilled capacity (t + d) b ≤ refilled capacity t b + d * capacity
refilled-wait capacity t d none =
    omega (arith, mul-le_mul (t + d - (t + d)) 0 capacity (omega arith))
refilled-wait capacity t d (some b) =
    omega (
      arith,
      mul-le_mul (t + d - b.last_refill_ms) (t - b.last_refill_ms + d) capacity (omega arith),
    )

-- Time adds at most the refill.
pub level-wait :
    (capacity t d : ℕ) (key : String) (m : Buckets)
    → level capacity (t + d) key m ≤ level capacity t key m + d * capacity
level-wait capacity t d key m = refilled-wait capacity t d (lookup key m)

refilled-kept :
    (capacity now d : ℕ) (key : String) (b : Option MemoryBucket)
    → refilled capacity (now + d) (kept (is_fresh now) key b) ≡ refilled capacity (now + d) b
refilled-kept capacity now d key none = refl
refilled-kept capacity now d key (some b) = elim (Bool-cases (is_fresh now (key, b))) [
  | inl fresh ↦ rw fresh
  | inr stale ↦
      let idle = mul-le_mul 60000 (now + d - b.last_refill_ms) capacity (ground (arith, stale)) in
      rw stale (omega (arith, idle, mul-le_mul (now + d - (now + d)) 0 capacity (omega arith)))
]

-- The cleanup takes only buckets that are full again.
pub level-cleaned :
    (threshold capacity now d : ℕ) (key : String) (m : Buckets)
    → UniqueKeys m
    → level capacity (now + d) key (cleaned threshold now m) ≡ level capacity (now + d) key m
unfolding cleanup_stale_buckets
level-cleaned threshold capacity now d key m u = elim (Bool-cases (leb threshold (length m))) [
  | inl t ↦
      rw (t, lookup-filter (is_fresh now) key m u) (refilled-kept capacity now d key (lookup key m))
  | inr t ↦ rw t
]

pub consume_memory-UniqueKeys :
    (threshold now : ℕ) (key : String) (tokens capacity : ℕ) (m : Buckets)
    → UniqueKeys m
    → UniqueKeys (consume_memory threshold now key tokens capacity m).0
unfolding consume_memory cleanup_stale_buckets
consume_memory-UniqueKeys threshold now key tokens capacity m u =
    insert-UniqueKeys key _ (cleaned threshold now m) (cleaned-UniqueKeys)
  where
    cleaned-UniqueKeys : UniqueKeys (cleaned threshold now m)
    cleaned-UniqueKeys = elim (Bool-cases (leb threshold (length m))) [
      | inl t ↦ rw t (filter-UniqueKeys (is_fresh now) m u)
      | inr t ↦ rw t u
    ]

spend_lem :
    (most level cost now capacity : ℕ)
    → level ≤ most
    → min most (level - (if leb cost level then cost else 0) + (now - now) * capacity)
        + (if leb cost level then cost else 0)
      ≡ level
spend_lem most level cost now capacity h =
    let idle = mul-le_mul (now - now) 0 capacity (omega arith) in
    elim (Bool-cases (leb cost level)) [
      | inl t ↦ rw t (ground (arith, idle, t))
      | inr t ↦ rw t (ground (arith, idle))
    ]

-- The units that an answer has granted.
abbrev pub granted : ℕ → RateLimitResult → ℕ
granted tokens r = if r.allowed then tokens * token else 0

module _ (threshold now : ℕ) (key : String) (tokens capacity : ℕ) (m : Buckets)
    (u : UniqueKeys m) where
  abbrev full : ℕ
  full = refilled capacity now (lookup key (cleaned threshold now m))

  full-level : full ≡ level capacity now key m
  full-level = let h = level-cleaned threshold capacity now 0 key m u in rw add-zero at h

  -- A request is allowed exactly when the bucket holds what it asks for.
  pub consume_memory-allowed :
      (consume_memory threshold now key tokens capacity m).1.allowed
      ≡ leb (tokens * token) (level capacity now key m)
  unfolding consume_memory
  consume_memory-allowed = rw (← full-level)

  -- What is granted is taken from the bucket.
  pub level-consume_memory :
      level capacity now key (consume_memory threshold now key tokens capacity m).0
        + granted tokens (consume_memory threshold now key tokens capacity m).1
      ≡ level capacity now key m
  unfolding consume_memory
  level-consume_memory =
      rw (lookup-insert_self key, ← full-level)
        (spend_lem (capacity * token) full (tokens * token) now capacity (omega arith))

  -- The bucket and the answer that a request leaves.
  pub lookup-consume_memory : lookup key (consume_memory threshold now key tokens capacity m).0 ≡ (
      let found = level capacity now key m in
      some (record {
        tokens = found - (if leb (tokens * token) found then tokens * token else 0);
        last_refill_ms = now;
      }))
  unfolding consume_memory
  lookup-consume_memory = rw (lookup-insert_self key, ← full-level)

  pub consume_memory-answer : (consume_memory threshold now key tokens capacity m).1 ≡ (
      let found = level capacity now key m in
      record {
        allowed = leb (tokens * token) found;
        remaining = (found - (if leb (tokens * token) found then tokens * token else 0)) / token;
      })
  unfolding consume_memory
  consume_memory-answer = rw (← full-level)

  pub level-consume_memory_other :
      (cap d : ℕ) (other : String)
      → (key == other) ≡ false
      → level cap (now + d) other (consume_memory threshold now key tokens capacity m).0
        ≡ level cap (now + d) other m
  unfolding consume_memory
  level-consume_memory_other cap d other ne =
      rw (lookup-insert key other) (rw ne (level-cleaned threshold cap now d other m u))
