-- ===== src/Breaker/Episode.antt =====
-- Tripping, the half-open probe, and one tool beside another.
use zxql_ai.Prelude.{
  ℕ, ◌+◌, ◌≤◌, ◌<◌, String, true, false, Option, none, some, List, [], ◌∷◌, ◌++◌, ◌≡◌, ◌∙◌, ap,
  refl, arith, string_eq, length, All, lt→ltb, le→not-ltb,
}
use zxql_ai.Prelude.Map.{lookup-insert_self}
use zxql_ai.Breaker.{
  BreakerState, Config, Breaker, allowed, refused, ceil_seconds, recent, proceed, record_success,
  record_failure, fail, state_or_fresh, succeed,
}
use zxql_ai.Breaker.Cooldown.{
  gate, after, state_of, gate-proceed, state_of-after, cooldown-after, RefusesUntil,
  open-RefusesUntil,
}

-- The failures of one tool at these times, oldest first.
unfoldable pub failures : List ℕ → String → Breaker → Breaker
failures [] tool b = b
failures (t ∷ ts) tool b = failures ts tool (record_failure t tool b)

-- No state yet, or one that is neither open nor half open.
abbrev pub IsClosed : Option BreakerState → Type 0
IsClosed none = Unit {0}
IsClosed (some s) = (s.opened_at ≡ none) × (s.half_open ≡ false)

abbrev pub timestamps : Option BreakerState → List ℕ
timestamps none = []
timestamps (some s) = s.failure_timestamps

length-recent-append :
    (c : Config) (now : ℕ) (xs : List ℕ) (t : ℕ)
    → now < t + c.window_ms
    → length (recent c now (xs ++ t ∷ [])) ≡ length (recent c now xs) + 1
length-recent-append c now [] t h = ground (arith, lt→ltb now (t + c.window_ms) h)
length-recent-append c now (x ∷ xs) t h = ground (arith, length-recent-append c now xs t h)

fail-closed :
    (t : ℕ) (o : Option BreakerState)
    → IsClosed o
    → ((fail t (state_or_fresh o)).opened_at ≡ none)
      × ((fail t (state_or_fresh o)).half_open ≡ false)
      × ((fail t (state_or_fresh o)).failure_timestamps ≡ timestamps o ++ t ∷ [])
unfolding fail
fail-closed t none h = (refl, refl, refl)
fail-closed t (some s) h = ground arith

state_of-record_failure :
    (t : ℕ) (tool : String) (b : Breaker)
    → state_of tool (record_failure t tool b) ≡ some (fail t (state_or_fresh (state_of tool b)))
unfolding record_failure
state_of-record_failure t tool b = lookup-insert_self tool _ b.states

config-record_failure :
    (t : ℕ) (tool : String) (b : Breaker) → (record_failure t tool b).config ≡ b.config
unfolding record_failure
config-record_failure t tool b = refl

config-failures :
    (ts : List ℕ) (tool : String) (b : Breaker) → (failures ts tool b).config ≡ b.config
unfolding failures
config-failures [] tool b = refl
config-failures (t ∷ ts) tool b =
    config-failures ts tool (record_failure t tool b) ∙ config-record_failure t tool b

-- Failures of a closed tool within the window are all counted.
counted_failures :
    (c : Config) (ts : List ℕ) (tool : String) (b : Breaker) (now : ℕ)
    → IsClosed (state_of tool b)
    → All (λ t. now < t + c.window_ms) ts
    → IsClosed (state_of tool (failures ts tool b))
      × (length (recent c now (timestamps (state_of tool (failures ts tool b))))
          ≡ length (recent c now (timestamps (state_of tool b))) + length ts)
unfolding failures
counted_failures c [] tool b now h all = (h, omega arith)
counted_failures c (t ∷ ts) tool b now h all =
    let e = state_of-record_failure t tool b in
    let (opened, half, stamps) = fail-closed t (state_of tool b) h in
    let closed : IsClosed (state_of tool (record_failure t tool b)) = rw e (opened, half) in
    let (still, counted) = counted_failures c ts tool (record_failure t tool b) now closed all.1 in
    let here = length-recent-append c now (timestamps (state_of tool b)) t all.0 in
    (still, counted ∙ rw (e, stamps) (omega (arith, here)))

proceed-trips :
    (c : Config) (now : ℕ) (o : Option BreakerState)
    → IsClosed o
    → 0 < c.failure_threshold
    → c.failure_threshold ≤ length (recent c now (timestamps o))
    → (s : BreakerState) × (o ≡ some s)
      × ((proceed c now s).0.opened_at ≡ some now)
      × ((proceed c now s).1 ≡ refused (ceil_seconds c.cooldown_ms))
unfolding proceed
proceed-trips c now none h pos full = absurd (omega arith)
proceed-trips c now (some s) h pos full = (s, refl, ground arith, ground arith)

-- As many failures as the threshold, all within the window before `now`, trip a closed breaker:
-- the next call is refused with the whole cooldown to wait, later ones until `now + cooldown`,
-- and at that time a call is let through.
pub failures-trip :
    (ts : List ℕ) (tool : String) (b : Breaker) (now : ℕ)
    → IsClosed (state_of tool b)
    → 0 < b.failure_threshold
    → All (λ t. now < t + b.window_ms) ts
    → b.failure_threshold ≤ length ts
    → (gate now tool (failures ts tool b) ≡ refused (ceil_seconds b.cooldown_ms))
      × RefusesUntil (now + b.cooldown_ms) tool (after now tool (failures ts tool b))
failures-trip ts tool b now h pos all many =
    let b' = failures ts tool b in
    let e = config-failures ts tool b in
    let (closed, counted) = counted_failures b.config ts tool b now h all in
    let (s, found, opened, shut) =
      proceed-trips b.config now (state_of tool b') closed pos (omega arith) in
    let cool = ap (λ (c : Config). c.cooldown_ms) e in
    (
      gate-proceed now tool b' found ∙ rw e shut,
      open-RefusesUntil tool (after now tool b') _ now b.cooldown_ms
          (cooldown-after now tool b' ∙ cool) (state_of-after now tool b' found) (rw e opened),
    )

-- The half-open state, after the cooldown.
abbrev pub IsHalfOpen : String → Breaker → Type 0
IsHalfOpen tool b =
    (s : BreakerState) × (state_of tool b ≡ some s)
    × (s.half_open ≡ true)
    × (s.opened_at ≡ none)
    × (s.failure_timestamps ≡ [])

proceed-half-open :
    (c : Config) (now opened : ℕ) (s : BreakerState)
    → s.opened_at ≡ some opened
    → opened + c.cooldown_ms ≤ now
    → ((proceed c now s).0.half_open ≡ true)
      × ((proceed c now s).0.opened_at ≡ none)
      × ((proceed c now s).0.failure_timestamps ≡ [])
unfolding proceed
proceed-half-open c now opened s e h = ground arith

-- The call at the end of the cooldown is let through and leaves the breaker half open.
cooldown-IsHalfOpen :
    (now opened : ℕ) (tool : String) (b : Breaker) (s : BreakerState)
    → state_of tool b ≡ some s
    → s.opened_at ≡ some opened
    → opened + b.cooldown_ms ≤ now
    → (gate now tool b ≡ allowed) × IsHalfOpen tool (after now tool b)
cooldown-IsHalfOpen now opened tool b s found e h =
    let (half, shut, stamps) = proceed-half-open b.config now opened s e h in
    let past = le→not-ltb now (opened + b.cooldown_ms) h in
    (
      open-RefusesUntil tool b s opened b.cooldown_ms refl found e now ∙ (rw past),
      (_, state_of-after now tool b found, half, shut, stamps),
    )

state_of-record_success :
    (tool : String) (b : Breaker) {s : BreakerState}
    → state_of tool b ≡ some s
    → state_of tool (record_success tool b) ≡ some (succeed s)
unfolding record_success
state_of-record_success tool b {s} found =
    ground (arith, found, lookup-insert_self tool (succeed s) b.states)

succeed-IsClosed : (s : BreakerState) → IsClosed (some (succeed s))
unfolding succeed
succeed-IsClosed s = (refl, refl)

succeed-clear : (s : BreakerState) → timestamps (some (succeed s)) ≡ []
unfolding succeed
succeed-clear s = refl

fail-opened : (now : ℕ) (s : BreakerState) → s.half_open ≡ true → (fail now s).opened_at ≡ some now
unfolding fail
fail-opened now s half = ground arith

proceed-admits :
    (c : Config) (now : ℕ) (s : BreakerState)
    → s.opened_at ≡ none
    → s.failure_timestamps ≡ []
    → 0 < c.failure_threshold
    → ((proceed c now s).1 ≡ allowed) × ((proceed c now s).0 ≡ s)
unfolding proceed
proceed-admits c now s opened stamps pos = ground arith

-- A failure in the half-open state opens the breaker again for a whole cooldown, whatever the
-- threshold; a success closes it, with no failure left on record.
half_open-outcome :
    (now : ℕ) (tool : String) (b : Breaker)
    → IsHalfOpen tool b
    → RefusesUntil (now + b.cooldown_ms) tool (record_failure now tool b)
      × IsClosed (state_of tool (record_success tool b))
      × (timestamps (state_of tool (record_success tool b)) ≡ [])
half_open-outcome now tool b (s, found, half, opened, stamps) =
    let failed = state_of-record_failure now tool b in
    let passed = state_of-record_success tool b found in
    (
      open-RefusesUntil tool (record_failure now tool b) _ now b.cooldown_ms
          (ap (λ (c : Config). c.cooldown_ms) (config-record_failure now tool b)) failed
          (rw found (fail-opened now s half)),
      rw passed (succeed-IsClosed s),
      rw passed (succeed-clear s),
    )

-- In the half-open state every call is let through, not a single one: with a threshold above 0
-- a call finds the breaker half open, is let through, and leaves it half open for the next.
IsHalfOpen-admits :
    (now : ℕ) (tool : String) (b : Breaker)
    → 0 < b.failure_threshold
    → IsHalfOpen tool b
    → (gate now tool b ≡ allowed) × IsHalfOpen tool (after now tool b)
IsHalfOpen-admits now tool b pos (s, found, half, opened, stamps) =
    let (pass, same) = proceed-admits b.config now s opened stamps pos in
    (
      gate-proceed now tool b found ∙ pass,
      (s, state_of-after now tool b found ∙ ap some same, half, opened, stamps),
    )
