-- ===== src/WriteGuard/Approval.antt =====
-- How often a history of calls of src/brain/write-guard.service.ts releases a record.
use zxql_ai.Prelude.{
  ℕ, ◌+◌, ◌≤◌, String, ◌≡◌, refl, Bool, true, false, Option, none, some, List, [], ◌∷◌, arith,
  if◌then◌else◌, nat_eq, string_eq, All,
}
use zxql_ai.Redis.{RedisClient}
use zxql_ai.WriteGuard.{
  WriteGuardStatus, pending, first_confirmed, confirmed, cancelled, expired, PendingWrite, Cell,
  WriteGuard,
}
use zxql_ai.WriteGuard.Service.{high_risk}
use zxql_ai.WriteGuard.Memory.{InMemory, entry}
use zxql_ai.WriteGuard.Moves.{
  Outcome, voted, released, reopened, entered, Move, stay, drop, vote, release_low, release_voted,
  open_again, enter,
}
use zxql_ai.WriteGuard.Calls.{Call, Run, ended, silent, shown, run_calls, run_calls-Runs}

abbrev is_released : Outcome → Bool
is_released released = true
is_released _ = false

abbrev is_voted : Outcome → Bool
is_voted voted = true
is_voted _ = false

-- The record is put there, or opened again after a release.
abbrev is_opened : Outcome → Bool
is_opened reopened = true
is_opened (entered _) = true
is_opened _ = false

abbrev is_high_entry : Outcome → Bool
is_high_entry (entered high) = high
is_high_entry _ = true

unfoldable pub count : (Outcome → Bool) → List Outcome → ℕ
count p [] = 0
count p (out ∷ outs) = if p out then count p outs + 1 else count p outs

abbrev pub releases : List Outcome → ℕ
releases = count is_released

abbrev pub votes : List Outcome → ℕ
votes = count is_voted

abbrev pub openings : List Outcome → ℕ
openings = count is_opened

-- Whether the record can still be released.
abbrev budget_of : WriteGuardStatus → ℕ
budget_of confirmed = 0
budget_of _ = 1

abbrev pub budget : Option PendingWrite → ℕ
budget none = 0
budget (some w) = budget_of w.status

-- Whether the record has its first vote.
abbrev vote_of : WriteGuardStatus → ℕ
vote_of first_confirmed = 1
vote_of _ = 0

abbrev pub held_vote : Option PendingWrite → ℕ
held_vote none = 0
held_vote (some w) = vote_of w.status

abbrev pub IsHigh : Option PendingWrite → Type 0
IsHigh none = Unit
IsHigh (some w) = high_risk w ≡ true

budget_of-le : (t : WriteGuardStatus) → budget_of t ≤ 1
budget_of-le pending = omega arith
budget_of-le first_confirmed = omega arith
budget_of-le confirmed = omega arith
budget_of-le cancelled = omega arith
budget_of-le expired = omega arith

budget-le : (o : Option PendingWrite) → budget o ≤ 1
budget-le none = omega arith
budget-le (some w) = budget_of-le w.status

Move-budget :
    {o o' : Option PendingWrite} {out : Outcome}
    → Move o out o'
    → releases (out ∷ []) + budget o' ≤ budget o + openings (out ∷ [])
unfolding count
Move-budget (stay o) = omega arith
Move-budget (drop w) = omega arith
Move-budget (vote w e h) = rw e (omega arith)
Move-budget (release_low w e h) = rw e (omega arith)
Move-budget (release_voted w e) = rw e (omega arith)
Move-budget (open_again w e) = rw e (omega arith)
Move-budget (enter o w e) = rw e (omega arith)

count_cons :
    (p : Outcome → Bool) (out : Outcome) (outs : List Outcome)
    → count p (out ∷ outs) ≡ count p (out ∷ []) + count p outs
unfolding count
count_cons p out outs = ground arith

Run-budget :
    {o o' : Option PendingWrite} {outs : List Outcome}
    → Run o outs o'
    → releases outs + budget o' ≤ budget o + openings outs
unfolding count
Run-budget ended = omega arith
Run-budget (silent m r) = omega (arith, Move-budget m, Run-budget r)
Run-budget (shown {out = out} {outs = outs} m r) = omega (
  arith,
  Move-budget m,
  Run-budget r,
  count_cons is_released out outs,
  count_cons is_opened out outs,
)

abbrev pub IsHighEntry : Outcome → Type 0
IsHighEntry out = is_high_entry out ≡ true

Move-IsHigh :
    {o o' : Option PendingWrite} {out : Outcome}
    → Move o out o'
    → IsHigh o
    → IsHighEntry out
    → IsHigh o'
Move-IsHigh (stay o) h high = h
Move-IsHigh (drop w) h high = tt
Move-IsHigh (vote w e k) h high = h
Move-IsHigh (release_low w e k) h high = h
Move-IsHigh (release_voted w e) h high = h
Move-IsHigh (open_again w e) h high = h
Move-IsHigh (enter o w e) h high = high

Move-votes :
    {o o' : Option PendingWrite} {out : Outcome}
    → Move o out o'
    → IsHigh o
    → releases (out ∷ []) + held_vote o' ≤ held_vote o + votes (out ∷ [])
unfolding count
Move-votes (stay o) h = omega arith
Move-votes (drop w) h = omega arith
Move-votes (vote w e k) h = rw e (omega arith)
Move-votes (release_low w e k) h = absurd (ground (arith, h, k))
Move-votes (release_voted w e) h = rw e (omega arith)
Move-votes (open_again w e) h = rw e (omega arith)
Move-votes (enter o w e) h = rw e (omega arith)

Run-votes :
    {o o' : Option PendingWrite} {outs : List Outcome}
    → Run o outs o'
    → IsHigh o
    → All IsHighEntry outs
    → releases outs + held_vote o' ≤ held_vote o + votes outs
unfolding count
Run-votes ended h all = omega arith
Run-votes (silent m r) h all = omega (arith, Move-votes m h, Run-votes r (Move-IsHigh m h refl) all)
Run-votes (shown {out = out} {outs = outs} m r) h (one, all) = omega (
  arith,
  Move-votes m h,
  Run-votes r (Move-IsHigh m h one) all,
  count_cons is_released out outs,
  count_cons is_voted out outs,
)

module _ {S : Type 0} (client : RedisClient S Cell) where
  -- Without Redis, in any history of calls, the record under a key is released at most once, and
  -- once more for every time that it is put there or opened again by a reset after a release.
  pub released-le :
      (key : String) (calls : List Call) (s : WriteGuard S)
      → InMemory s
      → releases (run_calls client key calls s).1 ≤ 1 + openings (run_calls client key calls s).1
  released-le key calls s mem =
      let (_, r) = run_calls-Runs client key calls s mem in
      omega (arith, Run-budget r, budget-le (entry key s))

  -- Without Redis, as long as the records under a key are of high risk, each release in a history
  -- has a first confirmation of its own: there are no more releases than first confirmations in the
  -- history, not counting the one that the record may have at the start.
  pub released-voted :
      (key : String) (calls : List Call) (s : WriteGuard S)
      → InMemory s
      → IsHigh (entry key s)
      → All IsHighEntry (run_calls client key calls s).1
      → releases (run_calls client key calls s).1
        ≤ held_vote (entry key s) + votes (run_calls client key calls s).1
  released-voted key calls s mem high all =
      let (_, r) = run_calls-Runs client key calls s mem in omega (arith, Run-votes r high all)
