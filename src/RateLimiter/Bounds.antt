-- ===== src/RateLimiter/Bounds.antt =====
-- What a history of requests can be granted by the buckets in memory of src/common/rate-limiter.ts.
use zxql_ai.Prelude.{
  ℕ, ◌+◌, ◌*◌, ◌≤◌, String, ◌≡◌, ap, ◌⊎◌, inl, inr, false, List, [], ◌∷◌, arith, if◌then◌else◌,
  Bool-cases, ◌==◌, nat_eq, string_eq, str_eq_iff, All,
}
use zxql_ai.Prelude.Map.{UniqueKeys}
use native.Mathlib.Nat.{add-zero}
use zxql_ai.RateLimiter.{
  token, RateLimitBucket, RateLimitResult, Limits, capacity_of, Buckets, consume_memory,
}
use zxql_ai.RateLimiter.Level.{
  level, level-le, level-wait, granted, consume_memory-UniqueKeys, level-consume_memory,
  level-consume_memory_other,
}

-- A request, `wait` milliseconds after the one before.
pub record Request : Type 0 where
  pub wait : ℕ
  pub key : String
  pub tokens : ℕ
  pub bucket : RateLimitBucket

unfoldable pub elapsed : List Request → ℕ
elapsed [] = 0
elapsed (r ∷ rs) = r.wait + elapsed rs

abbrev pub answer : Limits → ℕ → Request → Buckets → Buckets × RateLimitResult
answer l now r m = consume_memory l.cleanup_threshold now r.key r.tokens (capacity_of l r.bucket) m

unfoldable pub serve : Limits → ℕ → List Request → Buckets → Buckets × List RateLimitResult
serve l now [] m = (m, [])
serve l now (r ∷ rs) m =
    let (m', result) = answer l (now + r.wait) r m in
    let (m'', results) = serve l (now + r.wait) rs m' in (m'', result ∷ results)

-- The units granted to one key.
unfoldable pub granted_to : String → List Request → List RateLimitResult → ℕ
granted_to key (r ∷ rs) (a ∷ as_) =
    (if r.key == key then granted r.tokens a else 0) + granted_to key rs as_
granted_to key _ _ = 0

-- The requests for `key` are all of one kind.
abbrev pub UsesBucket : String → RateLimitBucket → Request → Type 0
UsesBucket key bucket r = ((r.key == key) ≡ false) ⊎ (r.bucket ≡ bucket)

own-spends :
    (l : Limits) (now : ℕ) (r : Request) (m : Buckets) (k : String) (c : ℕ)
    → UniqueKeys m
    → r.key ≡ k
    → capacity_of l r.bucket ≡ c
    → granted r.tokens (answer l now r m).1 + level c now k (answer l now r m).0 ≤ level c now k m
own-spends l now r m k c u same_key same_cap =
    rw (← same_key, ← same_cap)
      (omega (
        arith,
        level-consume_memory l.cleanup_threshold now r.key r.tokens (capacity_of l r.bucket) m u,
      ))

module _ (l : Limits) (key : String) (bucket : RateLimitBucket) where
  abbrev cap : ℕ
  cap = capacity_of l bucket

  answer-spends :
      (now : ℕ) (r : Request) (m : Buckets)
      → UniqueKeys m
      → UsesBucket key bucket r
      → (if r.key == key then granted r.tokens (answer l now r m).1 else 0)
          + level cap now key (answer l now r m).0
        ≤ level cap now key m
  answer-spends now r m u same =
      let unchanged = λ (other : (r.key == key) ≡ false).
        level-consume_memory_other l.cleanup_threshold now r.key r.tokens (capacity_of l r.bucket) m
          u cap 0 key other in
      elim (Bool-cases (r.key == key)) [
        | inl mine ↦ rw mine (elim same [
          | inl other ↦ absurd (ground (arith, mine, other))
          | inr e ↦
              own-spends l now r m key cap u ((str_eq_iff r.key key).0 mine) (ap (capacity_of l) e)
        ])
        | inr other ↦ rw other (omega (arith, rw add-zero at (unchanged other)))
      ]

  serve-spends :
      (now : ℕ) (rs : List Request) (m : Buckets)
      → UniqueKeys m
      → All (UsesBucket key bucket) rs
      → granted_to key rs (serve l now rs m).1 ≤ level cap now key m + elapsed rs * cap
  unfolding serve granted_to elapsed
  serve-spends now [] m u all = omega arith
  serve-spends now (r ∷ rs) m u (same, all) =
      let then_ = now + r.wait in
      let here = answer-spends (now + r.wait) r m u same in
      let later =
        serve-spends (now + r.wait) rs (answer l (now + r.wait) r m).0
          (consume_memory-UniqueKeys _ _ _ _ _ m u) all in
      omega (arith, here, later, level-wait cap now r.wait key m)

-- Over any history of requests that the buckets in memory answer (`consume_memory`, of a service that
-- does not use Redis), of any keys and at any times, a key whose requests are all of one kind is
-- granted at most one full bucket of that kind and the refill of the time that has passed, in units:
-- `capacity` tokens, and `capacity` tokens a minute. What Redis granted before a service fell back to
-- its memory is not counted.
pub granted-le :
    (l : Limits) (key : String) (bucket : RateLimitBucket) (now : ℕ) (rs : List Request)
    (m : Buckets)
    → UniqueKeys m
    → All (UsesBucket key bucket) rs
    → granted_to key rs (serve l now rs m).1
      ≤ capacity_of l bucket * token + elapsed rs * capacity_of l bucket
granted-le l key bucket now rs m u all =
    omega
      (arith, serve-spends l key bucket now rs m u all, level-le (capacity_of l bucket) now key m)
