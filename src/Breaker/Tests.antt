-- ===== src/Breaker/Tests.antt =====
-- The breaker at concrete inputs.
use zxql_ai.Prelude.{
  ℕ, ◌+◌, ◌-◌, ◌≡◌, refl, true, false, none, some, [], ◌∷◌, arith, nat_eq, string_eq, Memᴰ,
}
use zxql_ai.Prelude.Map.{lookup, insert, delete}
use zxql_ai.Breaker.{
  BreakerState, Config, Breaker, allowed, refused, ceil_seconds, can_proceed, configure,
  record_success, record_failure, reset,
}
use zxql_ai.Breaker.Cooldown.{gate, after, RefusesUntil, refusal-RefusesUntil}
use zxql_ai.Breaker.Episode.{failures, failures-trip, IsHalfOpen}
use zxql_ai.Breaker.Report.{BreakerStatus, status, promised_gate, status-gate}
use zxql_ai.Breaker.History.{proceeds, fails, step, run, Sound, run-Sound}

breaker : Unit {0}
unfolding can_proceed record_failure record_success reset configure lookup insert delete failures
    step run
breaker = tt

abbrev small : Config
small = record { failure_threshold = 2; window_ms = 100; cooldown_ms = 3000 }

abbrev quiet : Breaker
quiet = record { config = small; states = [] }

abbrev open_state : BreakerState
open_state = record {
  failure_timestamps = 10 ∷ 20 ∷ [];
  calls = 2;
  opened_at = some 50;
  half_open = false;
}

abbrev tripped : Breaker
tripped = record { config = small; states = ("echo", open_state) ∷ [] }

abbrev half_open_state : BreakerState
half_open_state = record { failure_timestamps = []; calls = 2; opened_at = none; half_open = true }

abbrev probing : Breaker
probing = record { config = small; states = ("echo", half_open_state) ∷ [] }

-- Two failures trip the breaker; it refuses for three seconds, admits a probe, and a failed probe
-- opens it again.
episode :
    (gate 50 "echo" (failures (10 ∷ 20 ∷ []) "echo" quiet) ≡ refused 3)
    × (after 50 "echo" (failures (10 ∷ 20 ∷ []) "echo" quiet) ≡ tripped)
    × (gate 2000 "echo" tripped ≡ refused 2)
    × (gate 3050 "echo" tripped ≡ allowed)
    × (after 3050 "echo" tripped ≡ probing)
    × (gate 4000 "echo" (record_failure 3100 "echo" probing) ≡ refused 3)
    × (gate 4000 "echo" (record_success "echo" probing) ≡ allowed)
    × ((reset (some "echo") tripped).1 ≡ 1)
    × ((reset none tripped).0 ≡ quiet)
unfolding breaker
episode = (refl, refl, refl, refl, refl, refl, refl, refl, refl)

defaults :
    configure none (some 0) (some 5)
    ≡ record { failure_threshold = 5; window_ms = 60000; cooldown_ms = 5 }
unfolding configure
defaults = refl

refusal-RefusesUntil_example :
    (opened : ℕ) × (2 ≡ ceil_seconds (opened + 3000 - 2000))
    × RefusesUntil (opened + 3000) "echo" (after 2000 "echo" tripped)
refusal-RefusesUntil_example = refusal-RefusesUntil 2000 "echo" tripped episode.2

failures-trip_example :
    (gate 50 "echo" (failures (10 ∷ 20 ∷ []) "echo" quiet) ≡ refused 3)
    × RefusesUntil 3050 "echo" (after 50 "echo" (failures (10 ∷ 20 ∷ []) "echo" quiet))
unfolding lookup
failures-trip_example =
    failures-trip (10 ∷ 20 ∷ []) "echo" quiet 50 tt (omega arith) (omega arith) (omega arith)

probing-IsHalfOpen : IsHalfOpen "echo" probing
unfolding lookup
probing-IsHalfOpen = (half_open_state, refl, refl, refl, refl)

status-gate_example :
    (r : BreakerStatus) × Memᴰ r (status (λ _ _. true) 2000 tripped)
    × (r.tool_name ≡ "echo")
    × (gate 2000 "echo" tripped ≡ promised_gate small r)
unfolding lookup
status-gate_example = status-gate (λ _ _. true) 2000 "echo" tripped open_state refl

run-Sound_example : Sound (run (fails 10 "echo" ∷ proceeds 20 "echo" ∷ []) quiet)
run-Sound_example = run-Sound (fails 10 "echo" ∷ proceeds 20 "echo" ∷ []) quiet tt
