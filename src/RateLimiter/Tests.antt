-- ===== src/RateLimiter/Tests.antt =====
-- The rate limiter at concrete inputs.
use zxql_ai.Prelude.{
  ℕ, ◌+◌, ◌*◌, ◌≤◌, ◌≡◌, refl, inr, true, false, List, [], ◌∷◌, map, nat_eq, string_eq,
}
use zxql_ai.Prelude.Map.{lookup, insert}
use zxql_ai.RateLimiter.{token, write, RateLimitResult, Limits, capacity_of, consume_memory}
use zxql_ai.RateLimiter.Bounds.{Request, serve, granted_to, elapsed, granted-le}

abbrev two_writes : Limits
two_writes = record { capacity = 2; read_capacity = 5; cleanup_threshold = 10 }

abbrev writes : ℕ → Request
writes wait = record { wait = wait; key = "t"; tokens = 1; bucket = write }

abbrev burst : List Request
burst = writes 0 ∷ writes 10 ∷ writes 10 ∷ writes 30000 ∷ []

-- Two at once, the third refused, one more after half a minute.
burst_answers :
    map (λ (r : RateLimitResult). r.allowed) (serve two_writes 1000 burst []).1
    ≡ true ∷ true ∷ false ∷ true ∷ []
unfolding serve consume_memory capacity_of lookup insert
burst_answers = refl

granted-le_example :
    granted_to "t" burst (serve two_writes 1000 burst []).1 ≤ 2 * token + elapsed burst * 2
unfolding capacity_of
granted-le_example =
    granted-le two_writes "t" write 1000 burst [] tt
      (inr refl, (inr refl, (inr refl, (inr refl, tt))))
