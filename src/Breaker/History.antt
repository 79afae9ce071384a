-- ===== src/Breaker/History.antt =====
-- The histories of a breaker, and one tool beside another.
use zxql_ai.Prelude.{
  ℕ, String, ◌≡◌, refl, sym, ◌∙◌, ◌≢◌, ◌⊎◌, inl, inr, false, Option, none, some, List, [], ◌∷◌,
  arith, Bool-cases, Option-cases, ◌==◌, nat_eq, string_eq, str_eq_iff,
}
use zxql_ai.Prelude.Map.{
  lookup-insert, lookup-delete, AllEntries, lookup-AllEntries, insert-AllEntries, delete-AllEntries,
}
use zxql_ai.Breaker.{
  BreakerState, Config, Breaker, Gate, allowed, proceed, can_proceed, record_success,
  record_failure, fail, state_or_fresh, succeed, reset, reset_one,
}
use zxql_ai.Breaker.Cooldown.{gate, after, state_of}

-- The calls that a breaker receives.
pub data Event : Type 0 where
  proceeds : ℕ → String → Event
  succeeds : String → Event
  fails : ℕ → String → Event
  resets : Option String → Event

unfoldable pub step : Event → Breaker → Breaker
step (proceeds now tool) b = after now tool b
step (succeeds tool) b = record_success tool b
step (fails now tool) b = record_failure now tool b
step (resets name) b = (reset name b).0

unfoldable pub run : List Event → Breaker → Breaker
run [] b = b
run (e ∷ es) b = run es (step e b)

-- Not both open and half open.
abbrev pub IsSound : BreakerState → Type 0
IsSound s = (s.half_open ≡ false) ⊎ (s.opened_at ≡ none)

abbrev pub Sound : Breaker → Type 0
Sound b = AllEntries (λ _. IsSound) b.states

proceed-IsSound :
    (c : Config) (now : ℕ) (s : BreakerState) → IsSound s → IsSound (proceed c now s).0
unfolding proceed
proceed-IsSound c now s h = ground arith

fail-IsSound :
    (now : ℕ) (o : Option BreakerState)
    → ((s : BreakerState) → o ≡ some s → IsSound s)
    → IsSound (fail now (state_or_fresh o))
unfolding fail
fail-IsSound now none h = inl refl
fail-IsSound now (some s) h = ground (arith, h s refl)

after-Sound : (now : ℕ) (tool : String) (b : Breaker) → Sound b → Sound (after now tool b)
unfolding can_proceed
after-Sound now tool b h = elim (Option-cases (state_of tool b)) [
  | inl e ↦ rw (e, after, can_proceed) h
  | inr (s, e) ↦
      rw (e, after, can_proceed)
        (insert-AllEntries (λ _. IsSound) tool _ b.states
          (proceed-IsSound b.config now s (lookup-AllEntries (λ _. IsSound) tool s b.states h e)) h)
]

record_success-Sound : (tool : String) (b : Breaker) → Sound b → Sound (record_success tool b)
unfolding record_success succeed
record_success-Sound tool b h = elim (Option-cases (state_of tool b)) [
  | inl e ↦ rw (e, record_success) h
  | inr (s, e) ↦
      rw (e, record_success) (insert-AllEntries (λ _. IsSound) tool _ b.states (inl refl) h)
]

record_failure-Sound :
    (now : ℕ) (tool : String) (b : Breaker) → Sound b → Sound (record_failure now tool b)
unfolding record_failure
record_failure-Sound now tool b h =
    insert-AllEntries (λ _. IsSound) tool _ b.states
      (fail-IsSound now (state_of tool b)
        (λ s e. lookup-AllEntries (λ _. IsSound) tool s b.states h e))
      h

reset_one-Sound : (tool : String) (b : Breaker) → Sound b → Sound (reset_one tool b).0
unfolding reset_one
reset_one-Sound tool b h = elim (Option-cases (state_of tool b)) [
  | inl e ↦ rw (e, reset_one) h
  | inr (s, e) ↦ rw (e, reset_one) (delete-AllEntries (λ _. IsSound) tool b.states h)
]

reset-Sound : (name : Option String) (b : Breaker) → Sound b → Sound (reset name b).0
unfolding reset
reset-Sound none b h = tt
reset-Sound (some String.[]) b h = tt
reset-Sound (some (String.◌∷◌ c name)) b h = reset_one-Sound (String.◌∷◌ c name) b h

step-Sound : (e : Event) (b : Breaker) → Sound b → Sound (step e b)
unfolding step
step-Sound (proceeds now tool) b h = after-Sound now tool b h
step-Sound (succeeds tool) b h = record_success-Sound tool b h
step-Sound (fails now tool) b h = record_failure-Sound now tool b h
step-Sound (resets name) b h = reset-Sound name b h

-- No history of calls, whatever the times, leaves a tool both open and half open.
pub run-Sound : (es : List Event) (b : Breaker) → Sound b → Sound (run es b)
unfolding run
run-Sound [] b h = h
run-Sound (e ∷ es) b h = run-Sound es (step e b) (step-Sound e b h)

-- The tool that a call is about; none for a reset of all.
abbrev pub about : Event → Option String
about (proceeds now tool) = some tool
about (succeeds tool) = some tool
about (fails now tool) = some tool
about (resets none) = none
about (resets (some String.[])) = none
about (resets (some (String.◌∷◌ c name))) = some (String.◌∷◌ c name)

str_ne : (s t : String) → s ≢ t → (s == t) ≡ false
str_ne s t h = elim (Bool-cases (s == t)) [ inl e ↦ absurd (h ((str_eq_iff s t).0 e)) | inr e ↦ e ]

after-other :
    (now : ℕ) (tool other : String) (b : Breaker)
    → tool ≢ other
    → state_of other (after now tool b) ≡ state_of other b
unfolding can_proceed
after-other now tool other b h = elim (Option-cases (state_of tool b)) [
  | inl e ↦ rw (e, after, can_proceed)
  | inr (s, e) ↦
      rw (e, after, can_proceed) (lookup-insert tool other _ b.states ∙ (rw (str_ne tool other h)))
]

record_success-other :
    (tool other : String) (b : Breaker)
    → tool ≢ other
    → state_of other (record_success tool b) ≡ state_of other b
unfolding record_success
record_success-other tool other b h = elim (Option-cases (state_of tool b)) [
  | inl e ↦ rw (e, record_success)
  | inr (s, e) ↦
      rw (e, record_success) (lookup-insert tool other _ b.states ∙ (rw (str_ne tool other h)))
]

record_failure-other :
    (now : ℕ) (tool other : String) (b : Breaker)
    → tool ≢ other
    → state_of other (record_failure now tool b) ≡ state_of other b
unfolding record_failure
record_failure-other now tool other b h =
    lookup-insert tool other _ b.states ∙ (rw (str_ne tool other h))

reset_one-other :
    (tool other : String) (b : Breaker)
    → tool ≢ other
    → state_of other (reset_one tool b).0 ≡ state_of other b
unfolding reset_one
reset_one-other tool other b h = elim (Option-cases (state_of tool b)) [
  | inl e ↦ rw (e, reset_one)
  | inr (s, e) ↦ rw (e, reset_one) (lookup-delete tool other b.states ∙ (rw (str_ne tool other h)))
]

same_tool : {t tool other : String} → some t ≡ some tool → tool ≢ other → t ≢ other
same_tool a h e = h (cc)

step-other :
    (e : Event) (tool other : String) (b : Breaker)
    → about e ≡ some tool
    → tool ≢ other
    → (state_of other (step e b) ≡ state_of other b)
unfolding step reset
step-other (proceeds now t) tool other b a h = after-other now t other b (same_tool a h)
step-other (succeeds t) tool other b a h = record_success-other t other b (same_tool a h)
step-other (fails now t) tool other b a h = record_failure-other now t other b (same_tool a h)
step-other (resets none) tool other b a h = cc
step-other (resets (some String.[])) tool other b a h = cc
step-other (resets (some (String.◌∷◌ c name))) tool other b a h =
    reset_one-other (String.◌∷◌ c name) other b (same_tool a h)

config-step : (e : Event) (b : Breaker) → (step e b).config ≡ b.config
unfolding step can_proceed record_success record_failure reset
config-step (proceeds now t) b = ground arith
config-step (succeeds t) b = ground arith
config-step (fails now t) b = refl
config-step (resets none) b = refl
config-step (resets (some String.[])) b = refl
config-step (resets (some (String.◌∷◌ c name))) b = ground arith

gate_from : Config → ℕ → Option BreakerState → Gate
gate_from c now none = allowed
gate_from c now (some s) = (proceed c now s).1

gate-from :
    (now : ℕ) (tool : String) (b : Breaker)
    → gate now tool b ≡ gate_from b.config now (state_of tool b)
unfolding can_proceed gate_from
gate-from now tool b = ground arith

-- A success, a failure, a call or a reset of one tool leaves unchanged what the breaker answers
-- about any other tool, at any time.
step-isolated :
    (e : Event) (now : ℕ) (tool other : String) (b : Breaker)
    → about e ≡ some tool
    → tool ≢ other
    → gate now other (step e b) ≡ gate now other b
step-isolated e now tool other b a h =
    gate-from now other (step e b)
    ∙ (rw (config-step e b, step-other e tool other b a h) (sym (gate-from now other b)))
