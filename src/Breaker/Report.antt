-- ===== src/Breaker/Report.antt =====
-- `status()` of src/tools/circuit-breaker.service.ts and what its rows say of `canProceed`.
use zxql_ai.Prelude.{
  ℕ, ◌+◌, ◌-◌, String, ◌≡◌, refl, ◌∙◌, Bool, true, false, ◌&&◌, Option, none, some, List, map,
  arith, ltb, leb, if◌then◌else◌, nat_eq, string_eq, length, sort, sort-mem, map-mem, Memᴰ,
}
use zxql_ai.Prelude.Map.{lookup-mem}
use zxql_ai.Breaker.{
  BreakerState, Config, Breaker, Gate, allowed, refused, ceil_seconds, recent, proceed,
}
use zxql_ai.Breaker.Cooldown.{gate, state_of, gate-proceed}

-- 'closed' | 'open' | 'half_open'
pub data Phase : Type 0 where
  closed open_now half_open : Phase

pub record BreakerStatus : Type 0 where
  pub tool_name : String
  pub state : Phase
  pub failures : ℕ
  pub calls : ℕ
  pub opened_at : Option ℕ
  pub cooldown_remaining_ms : ℕ

is_open : Config → ℕ → Option ℕ → Bool
is_open c now none = false
is_open c now (some opened) = ltb now (opened + c.cooldown_ms)

-- `Math.max(0, openedAt + cooldownMs - now)`: `-` stops at 0.
remaining : Config → ℕ → Option ℕ → ℕ
remaining c now none = 0
remaining c now (some opened) = opened + c.cooldown_ms - now

status_row : Config → ℕ → String × BreakerState → BreakerStatus
unfolding is_open remaining
status_row c now (tool, s) = record {
  tool_name = tool;
  state =
      if is_open c now s.opened_at then open_now else (if s.half_open then half_open else closed);
  failures = length (recent c now s.failure_timestamps);
  calls = s.calls;
  opened_at = s.opened_at;
  cooldown_remaining_ms = remaining c now s.opened_at;
}

-- `le a b` stands for `a.localeCompare(b) <= 0`, the collation of the platform.
pub status : (String → String → Bool) → ℕ → Breaker → List BreakerStatus
unfolding status_row
status le now b =
    sort (λ (x y : BreakerStatus). le x.tool_name y.tool_name)
      (map (status_row b.config now) b.states)

-- What a row promises for a call at the same time.
abbrev is_none : Option ℕ → Bool
is_none none = true
is_none (some _) = false

pub promised_gate : Config → BreakerStatus → Gate
promised_gate c r = elim r.state [
  | open_now ↦ refused (ceil_seconds r.cooldown_remaining_ms)
  | _ ↦
      if is_none r.opened_at && leb c.failure_threshold r.failures
      then refused (ceil_seconds c.cooldown_ms)
      else allowed
]

proceed-promised :
    (c : Config) (now : ℕ) (tool : String) (s : BreakerState)
    → (proceed c now s).1 ≡ promised_gate c (status_row c now (tool, s))
unfolding proceed status_row promised_gate
proceed-promised c now tool s = ground arith

-- Every tool on record has a row in the status, and the row tells what a call of the tool would
-- meet at that time: in the phase `open` a refusal for the seconds that remain, else a refusal for
-- a whole cooldown when no opening is on record and the failures in the window reach the
-- threshold, else a pass.
pub status-gate :
    (le : String → String → Bool) (now : ℕ) (tool : String) (b : Breaker) (s : BreakerState)
    → state_of tool b ≡ some s
    → (r : BreakerStatus) × Memᴰ r (status le now b)
      × (r.tool_name ≡ tool)
      × (gate now tool b ≡ promised_gate b.config r)
unfolding status
status-gate le now tool b s found =
    let row = status_row b.config now (tool, s) in
    (
      row,
      sort-mem _ row _
          (map-mem (status_row b.config now) (tool, s) b.states (lookup-mem tool s b.states found)),
      refl,
      gate-proceed now tool b found ∙ proceed-promised b.config now tool s,
    )
