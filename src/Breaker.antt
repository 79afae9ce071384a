-- ===== src/Breaker.antt =====
-- src/tools/circuit-breaker.service.ts: the circuit breaker of each tool, closed, open or half open.
-- `Date.now()` is the argument `now` of each call. Durations are whole milliseconds.
use zxql_ai.Prelude.{
  string_eq, ℕ, ◌+◌, ◌-◌, ◌/◌, String, Bool, true, false, ◌&&◌, Option, none, some, List, [], ◌∷◌,
  ◌++◌, ltb, leb, nat_beq, if◌then◌else◌, length, filter,
}
use zxql_ai.Prelude.Map.{lookup, insert, delete}
pub mod Cooldown
pub mod Episode
pub mod Report
mod Tests
pub mod History

pub record BreakerState : Type 0 where
  pub failure_timestamps : List ℕ
  pub calls : ℕ
  pub opened_at : Option ℕ
  pub half_open : Bool

pub record Config : Type 0 where
  pub failure_threshold : ℕ
  pub window_ms : ℕ
  pub cooldown_ms : ℕ

pub record Breaker : Type 0 where
  pub config : Config
  pub open config use *
  pub states : List (String × BreakerState)

-- `Number(text) || default`: `none` is a text that is no number, and 0 is falsy.
abbrev number_or : Option ℕ → ℕ → ℕ
number_or none d = d
number_or (some n) d = if nat_beq n 0 then d else n

unfoldable pub configure : Option ℕ → Option ℕ → Option ℕ → Config
configure threshold window cooldown = record {
  failure_threshold = number_or threshold 5;
  window_ms = number_or window 60000;
  cooldown_ms = number_or cooldown 30000;
}

-- `{ ok: true }`, or `{ ok: false }` with the seconds that the reason names.
pub data Gate : Type 0 where
  allowed : Gate
  refused : ℕ → Gate

-- `Math.ceil(ms / 1000)`
abbrev pub ceil_seconds : ℕ → ℕ
ceil_seconds ms = (ms + 999) / 1000

-- `now - t < windowMs`, also where the clock has stepped back.
abbrev pub recent : Config → ℕ → List ℕ → List ℕ
recent c now = filter (λ t. ltb now (t + c.window_ms))

-- The part of `canProceed` below the lookup, on the tool's state.
pub proceed_open : Config → ℕ → ℕ → BreakerState → BreakerState × Gate
proceed_open c now opened s =
    if ltb now (opened + c.cooldown_ms)
    then (s, refused (ceil_seconds (opened + c.cooldown_ms - now)))
    else (record s { opened_at = none; half_open = true; failure_timestamps = [] }, allowed)

pub proceed_closed : Config → ℕ → BreakerState → BreakerState × Gate
proceed_closed c now s =
    if leb c.failure_threshold (length s.failure_timestamps)
    then (
      record s { opened_at = some now; half_open = false },
      refused (ceil_seconds c.cooldown_ms),
    )
    else (s, allowed)

pub proceed : Config → ℕ → BreakerState → BreakerState × Gate
unfolding proceed_open proceed_closed
proceed c now s =
    let s' : BreakerState = record s { failure_timestamps = recent c now s.failure_timestamps } in
    elim s.opened_at [ none ↦ proceed_closed c now s' | some opened ↦ proceed_open c now opened s' ]

unfoldable pub can_proceed : ℕ → String → Breaker → Breaker × Gate
unfolding proceed
can_proceed now tool b = elim (lookup tool b.states) [
  | none ↦ (b, allowed)
  | some s ↦
      let (s', gate) = proceed b.config now s in
      (record b { states = insert tool s' b.states }, gate)
]

pub succeed : BreakerState → BreakerState
succeed s = record s { half_open = false; opened_at = none; failure_timestamps = [] }

unfoldable pub record_success : String → Breaker → Breaker
unfolding succeed
record_success tool b = elim (lookup tool b.states) [
  | none ↦ b
  | some s ↦ record b { states = insert tool (succeed s) b.states }
]

abbrev pub fresh_state : BreakerState
fresh_state = record { failure_timestamps = []; calls = 0; opened_at = none; half_open = false }

pub fail : ℕ → BreakerState → BreakerState
fail now s =
    let s' : BreakerState = record s {
      calls = s.calls + 1;
      failure_timestamps = s.failure_timestamps ++ now ∷ [];
    } in
    if s.half_open then record s' { opened_at = some now; half_open = false } else s'

abbrev pub state_or_fresh : Option BreakerState → BreakerState
state_or_fresh none = fresh_state
state_or_fresh (some s) = s

unfoldable pub record_failure : ℕ → String → Breaker → Breaker
unfolding fail
record_failure now tool b = record b {
  states = insert tool (fail now (state_or_fresh (lookup tool b.states))) b.states;
}

-- `reset(toolName?)`: an absent or empty name clears all; the number of entries removed.
pub reset_all : Breaker → Breaker × ℕ
reset_all b = (record b { states = [] }, length b.states)

pub reset_one : String → Breaker → Breaker × ℕ
reset_one tool b = elim (lookup tool b.states) [
  | none ↦ (b, 0)
  | some _ ↦ (record b { states = delete tool b.states }, 1)
]

pub reset : Option String → Breaker → Breaker × ℕ
unfolding reset_all reset_one
reset none b = reset_all b
reset (some String.[]) b = reset_all b
reset (some (String.◌∷◌ c name)) b = reset_one (String.◌∷◌ c name) b
