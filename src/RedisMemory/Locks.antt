-- ===== src/RedisMemory/Locks.antt =====
-- The lock of src/brain/write-guard.service.ts on the in-memory client: SET NX PX to acquire, and
-- the compare-and-delete script to release.
use zxql_ai.Prelude.{
  ℕ, ◌+◌, ◌<◌, String, ◌≡◌, ◌∙◌, ◌≢◌, Bool, true, false, none, some, List, [], ◌∷◌, arith, ltb, leb,
  if◌then◌else◌, lt→not-leb, Equality, beq_refl, nat_eq, string_eq, All,
}
use native.Mathlib.Nat.{add_assoc}
use zxql_ai.RedisMemory.{RedisMemory, get}
use zxql_ai.RedisMemory.Scripts.{release_if_matches}
use zxql_ai.RedisMemory.Strings.{live, set_nx, set_nx-answer, live-set_nx, get-live, live-get}

-- One call on the lock, made `wait` milliseconds after the one before.
pub data LockCall (V : Type 0) : Type 0 where
  acquires : (wait : ℕ) (mark : V) (ttl : ℕ) → LockCall V
  releases : (wait : ℕ) (mark : V) → LockCall V

module _ {V : Type 0} where
  abbrev pub wait_of : LockCall V → ℕ
  wait_of (acquires wait _ _) = wait
  wait_of (releases wait _) = wait

  -- A release by somebody else than `owner`, or an attempt to acquire.
  abbrev pub IsForeign : V → LockCall V → Type 0
  IsForeign owner (acquires _ _ _) = Unit {0}
  IsForeign owner (releases _ mark) = mark ≢ owner

  unfoldable pub elapsed : List (LockCall V) → ℕ
  elapsed [] = 0
  elapsed (call ∷ calls) = wait_of call + elapsed calls

module _ {V : Type 0} ⦃e : Equality V⦄ (key : String) where
  -- The state after the call, and whether it took or freed the lock.
  pub call_lock : ℕ → LockCall V → RedisMemory V → RedisMemory V × Bool
  call_lock now (acquires _ mark ttl) c = set_nx now key mark ttl c
  call_lock now (releases _ mark) c =
      let (c', freed) = release_if_matches key mark now c in (c', ltb 0 freed)

  pub call_locks : ℕ → List (LockCall V) → RedisMemory V → RedisMemory V × List Bool
  call_locks now [] c = (c, [])
  call_locks now (call ∷ calls) c =
      let at_time = now + wait_of call in
      let (c', answer) = call_lock at_time call c in
      let (c'', answers) = call_locks at_time calls c' in (c'', answer ∷ answers)

  -- From `now` on, the lock shows `owner` up to `until`, and nothing from then on.
  abbrev pub HeldUntil : V → ℕ → ℕ → RedisMemory V → Type 0
  HeldUntil owner until now c =
      (d : ℕ) → live (now + d) key c ≡ (if leb until (now + d) then none else some owner)

  -- A free lock is taken for the whole of its time to live.
  pub acquire-HeldUntil :
      (now : ℕ) (owner : V) (ttl : ℕ) (c : RedisMemory V)
      → live now key c ≡ none
      → ((set_nx now key owner ttl c).1 ≡ true)
        × HeldUntil owner (now + ttl) now (set_nx now key owner ttl c).0
  acquire-HeldUntil now owner ttl c free = (
    set_nx-answer now key owner ttl c ∙ (rw free),
    λ d. live-set_nx now (now + d) key key owner ttl c (omega arith) ∙ (rw (free, beq_refl key)),
  )

  held-now :
      (owner : V) (until now wait : ℕ) (c : RedisMemory V)
      → HeldUntil owner until now c
      → now + wait < until
      → live (now + wait) key c ≡ some owner
  held-now owner until now wait c h lt = h wait ∙ (rw (lt→not-leb (now + wait) until lt))

  held-later :
      (owner : V) (until now wait : ℕ) (c : RedisMemory V)
      → HeldUntil owner until now c
      → HeldUntil owner until (now + wait) c
  held-later owner until now wait c h d = rw (add_assoc now wait d) (h (wait + d))

  release-refused :
      (now : ℕ) (mark owner : V) (c : RedisMemory V)
      → live now key c ≡ some owner
      → mark ≢ owner
      → release_if_matches key mark now c ≡ ((get now key c).0, 0)
  unfolding release_if_matches
  release-refused now mark owner c held f =
      ground (arith, get-live now key c, e.same_iff owner mark, held, f)

  call_lock-held :
      (owner : V) (until now : ℕ) (call : LockCall V) (c : RedisMemory V)
      → HeldUntil owner until now c
      → IsForeign owner call
      → now + wait_of call < until
      → ((call_lock (now + wait_of call) call c).1 ≡ false)
        × HeldUntil owner until (now + wait_of call) (call_lock (now + wait_of call) call c).0
  unfolding call_lock
  call_lock-held owner until now (acquires wait mark ttl) c h f lt =
      let held = held-now owner until now wait c h lt in
      (
        set_nx-answer (now + wait) key mark ttl c ∙ (rw held),
        λ d.
            live-set_nx (now + wait) (now + wait + d) key key mark ttl c (omega arith)
            ∙ (rw held (held-later owner until now wait c h d)),
      )
  call_lock-held owner until now (releases wait mark) c h f lt =
      let held = held-now owner until now wait c h lt in
      let refuses = release-refused (now + wait) mark owner c held f in
      (
        rw refuses,
        λ d.
            (rw refuses (live-get (now + wait) (now + wait + d) key key c (omega arith)))
            ∙ held-later owner until now wait c h d,
      )

  -- A lock that `owner` holds until some time stays with `owner`, whatever others do before that
  -- time: every attempt to acquire it fails, every release with another mark frees nothing, and
  -- after all of them the lock still shows `owner` up to the same time.
  pub lock_exclusive :
      (owner : V) (until now : ℕ) (calls : List (LockCall V)) (c : RedisMemory V)
      → HeldUntil owner until now c
      → All (IsForeign owner) calls
      → now + elapsed calls < until
      → All (λ a. a ≡ false) (call_locks now calls c).1
        × HeldUntil owner until (now + elapsed calls) (call_locks now calls c).0
  unfolding call_locks elapsed
  lock_exclusive owner until now [] c h f lt = (tt, held-later owner until now 0 c h)
  lock_exclusive owner until now (call ∷ calls) c h (f, fs) lt =
      let (no_, kept) = call_lock-held owner until now call c h f (omega arith) in
      let (others, last) =
        lock_exclusive owner until (now + wait_of call) calls _ kept fs (omega arith) in
      ((no_, others), λ d. rw (← add_assoc now (wait_of call) (elapsed calls)) (last d))
