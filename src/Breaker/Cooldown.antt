-- ===== src/Breaker/Cooldown.antt =====
-- How an open breaker refuses and recovers.
use zxql_ai.Prelude.{
  ℕ, ◌+◌, ◌-◌, String, Option, some, ◌≡◌, ap, ltb, if◌then◌else◌, inl, inr, arith, string_eq,
  Option-cases,
}
use zxql_ai.Prelude.Map.{lookup, lookup-insert_self}
use zxql_ai.Breaker.{
  BreakerState, Config, Breaker, Gate, allowed, refused, ceil_seconds, proceed, can_proceed,
}

-- The answer of `canProceed`, and the breaker that it leaves.
abbrev pub gate : ℕ → String → Breaker → Gate
gate now tool b = (can_proceed now tool b).1

abbrev pub after : ℕ → String → Breaker → Breaker
after now tool b = (can_proceed now tool b).0

abbrev pub state_of : String → Breaker → Option BreakerState
state_of tool b = lookup tool b.states

module _ (now : ℕ) (tool : String) (b : Breaker) {s : BreakerState}
    (found : state_of tool b ≡ some s) where
  pub gate-proceed : gate now tool b ≡ (proceed b.config now s).1
  unfolding can_proceed
  gate-proceed = ground (arith, found)

  pub state_of-after : state_of tool (after now tool b) ≡ some (proceed b.config now s).0
  unfolding can_proceed
  state_of-after =
      ground (arith, found, lookup-insert_self tool (proceed b.config now s).0 b.states)

pub config-after : (now : ℕ) (tool : String) (b : Breaker) → (after now tool b).config ≡ b.config
unfolding can_proceed
config-after now tool b = ground arith

pub cooldown-after :
    (now : ℕ) (tool : String) (b : Breaker) → (after now tool b).cooldown_ms ≡ b.cooldown_ms
cooldown-after now tool b = ap (λ (c : Config). c.cooldown_ms) (config-after now tool b)

-- What an open breaker answers at any later time.
abbrev pub RefusesUntil : ℕ → String → Breaker → Type 0
RefusesUntil until tool b =
    (later : ℕ)
    → gate later tool b
      ≡ (if ltb later until then refused (ceil_seconds (until - later)) else allowed)

pub open-RefusesUntil :
    (tool : String) (b : Breaker) (s : BreakerState) (opened cool : ℕ)
    → b.cooldown_ms ≡ cool
    → state_of tool b ≡ some s
    → s.opened_at ≡ some opened
    → RefusesUntil (opened + cool) tool b
unfolding proceed
open-RefusesUntil tool b s opened cool c found e later =
    ground (arith, gate-proceed later tool b found)

proceed-refused :
    (c : Config) (now : ℕ) (s : BreakerState) {secs : ℕ}
    → (proceed c now s).1 ≡ refused secs
    → (opened : ℕ) × ((proceed c now s).0.opened_at ≡ some opened)
      × (secs ≡ ceil_seconds (opened + c.cooldown_ms - now))
unfolding proceed
proceed-refused c now s h = elim (Option-cases s.opened_at) [
  | inl closed ↦ (now, ground arith, ground arith)
  | inr (opened, e) ↦ (opened, ground arith, ground arith)
]

gate-refused-known :
    (now : ℕ) (tool : String) (b : Breaker) {secs : ℕ}
    → gate now tool b ≡ refused secs
    → (s : BreakerState) × (state_of tool b ≡ some s)
unfolding can_proceed
gate-refused-known now tool b h = elim (Option-cases (state_of tool b)) [
  | inl e ↦ absurd (ground (arith, e))
  | inr found ↦ found
]

-- A refusal names the time that is left: some opening time `opened` is on record, the breaker
-- refuses at every later time before `opened + cooldown`, naming the seconds up to then, and lets
-- the next call through from then on.
pub refusal-RefusesUntil :
    (now : ℕ) (tool : String) (b : Breaker) {secs : ℕ}
    → gate now tool b ≡ refused secs
    → (opened : ℕ) × (secs ≡ ceil_seconds (opened + b.cooldown_ms - now))
      × RefusesUntil (opened + b.cooldown_ms) tool (after now tool b)
refusal-RefusesUntil now tool b h =
    let (s, found) = gate-refused-known now tool b h in
    let (opened, e, left) =
      proceed-refused b.config now s (ground (arith, gate-proceed now tool b found)) in
    (
      opened,
      left,
      open-RefusesUntil tool (after now tool b) _ opened b.cooldown_ms (cooldown-after now tool b)
          (state_of-after now tool b found) e,
    )
