-- ===== src/WriteGuard/Moves.antt =====
-- src/brain/write-guard.service.ts without Redis as a state machine: the moves of the record under
-- one key of the memory map.
use zxql_ai.Prelude.{
  ℕ, ◌+◌, String, ◌≡◌, refl, subst, inl, inr, Bool, true, false, ◌&&◌, Option, none, some, List,
  arith, ltb, if◌then◌else◌, Bool-cases, ◌==◌, nat_eq, string_eq, str_eq_iff,
}
use zxql_ai.Prelude.Map.{lookup, lookup-delete, lookup-AllEntries, delete-AllEntries, kept}
use zxql_ai.Redis.{RedisClient}
use zxql_ai.WriteGuard.{
  WriteGuardStatus, pending, first_confirmed, confirmed, cancelled, expired, PendingWrite, Cell,
  WriteGuard, memory_key, audit, remove_memory,
}
use zxql_ai.WriteGuard.Service.{
  WriteGuardConfirmResult, refused, accepted, high_risk, customer_matches, get, answer, reopen,
  withdraw_read, change, advance, withdraw, do_confirm,
}
use zxql_ai.WriteGuard.Memory.{
  IsOwnKey, InMemory, kept_status, entry, audit-map, audit-InMemory, change-memory, withdraw-memory,
  read_memory, get-memory,
}

-- What a call shows of the record under the key.
pub data Outcome : Type 0 where
  quiet voted released reopened : Outcome
  entered : (is_high : Bool) → Outcome

-- The moves: a record stays, goes, gets its first vote, is released, opens again after a release,
-- or is put there.
pub data Move : Option PendingWrite → Outcome → Option PendingWrite → Type 0 where
  stay : (o : Option PendingWrite) → Move o quiet o
  drop : (w : PendingWrite) → Move (some w) quiet none
  vote :
      (w : PendingWrite)
      → w.status ≡ pending
      → high_risk w ≡ true
      → Move (some w) voted (some (record w { status = first_confirmed; confirm_count = 1 }))
  release_low :
      (w : PendingWrite)
      → w.status ≡ pending
      → high_risk w ≡ false
      → Move
          (some w)
          released
          (some (record w { status = confirmed; confirm_count = w.confirm_count + 1 }))
  release_voted :
      (w : PendingWrite)
      → w.status ≡ first_confirmed
      → Move
          (some w)
          released
          (some (record w { status = confirmed; confirm_count = w.confirm_count + 1 }))
  open_again :
      (w : PendingWrite)
      → w.status ≡ confirmed
      → Move (some w) reopened (some (record w { status = pending }))
  enter :
      (o : Option PendingWrite) (w : PendingWrite)
      → w.status ≡ pending
      → Move o (entered (high_risk w)) (some w)

unfoldable pub outcome_of : WriteGuardConfirmResult → Outcome
outcome_of (refused _) = quiet
outcome_of (accepted _ true) = voted
outcome_of (accepted _ false) = released

-- A move of the record under `own`, seen at `key`.
focus :
    (own key : String) (w : PendingWrite) (o : Option PendingWrite) (out : Outcome)
    (m : List (String × PendingWrite))
    → lookup own m ≡ some w
    → Move (some w) out o
    → Move
        (lookup key m)
        (if own == key then out else quiet)
        (if own == key then o else lookup key m)
focus own key w o out m at_own move = elim (Bool-cases (own == key)) [
  | inl t ↦ rw (t, ← (str_eq_iff own key).0 t, at_own) move
  | inr t ↦ rw t (stay (lookup key m))
]

same_quiet : (b : Bool) → (if b then quiet else quiet) ≡ quiet
same_quiet true = refl
same_quiet false = refl

-- `reset_to_pending` shows in the record under the key only when it answers true.
not_done : (b : Bool) → (if b && false then reopened else quiet) ≡ quiet
not_done true = refl
not_done false = refl

done : (b : Bool) → (if b && true then reopened else quiet) ≡ (if b then reopened else quiet)
done true = refl
done false = refl

focus_quiet :
    (own key : String) (w : PendingWrite) (o : Option PendingWrite)
    (m : List (String × PendingWrite))
    → lookup own m ≡ some w
    → Move (some w) quiet o
    → Move (lookup key m) quiet (if own == key then o else lookup key m)
focus_quiet own key w o m at_own move =
    subst (λ out. Move (lookup key m) out (if own == key then o else lookup key m))
      (same_quiet (own == key)) (focus own key w o quiet m at_own move)

module _ {S : Type 0} (client : RedisClient S Cell) (key : String) where
  -- A call keeps the form without Redis and is one move of the record under the key.
  abbrev pub Moves : WriteGuard S → Outcome → WriteGuard S → Type 0
  Moves s out s' = InMemory s' × Move (entry key s) out (entry key s')

  change-Moves :
      (now : ℕ) (own : String) (w w' : PendingWrite) (out : Outcome) (s : WriteGuard S)
      → InMemory s
      → entry own s ≡ some w
      → memory_key w'.tenant_id w'.token ≡ own
      → kept_status w'.status ≡ true
      → Move (some w) out (some w')
      → Moves s (if own == key then out else quiet) (change client now true w' s)
  change-Moves now own w w' out s mem at_own same kept move =
      let (mem', at_key) = change-memory client now key w' s mem kept in
      let seen = focus own key w (some w') out s.memory_map at_own move in
      (mem', rw (at_key, same) seen)

  remove-Moves :
      (own : String) (w : PendingWrite) (s : WriteGuard S)
      → InMemory s
      → entry own s ≡ some w
      → Moves s quiet (audit w expired (remove_memory w s))
  unfolding remove_memory
  remove-Moves own w s (off, keyed) at_own =
      let (same, _) = lookup-AllEntries IsOwnKey own w s.memory_map keyed at_own in
      let at = memory_key w.tenant_id w.token in
      (
        audit-InMemory w expired (remove_memory w s)
            (off, delete-AllEntries IsOwnKey at s.memory_map keyed),
        rw (audit-map w expired (remove_memory w s), lookup-delete at key s.memory_map, same)
            (focus_quiet own key w none s.memory_map at_own (drop w)),
      )

  read-Moves :
      (now : ℕ) (own : String) (o : Option PendingWrite) (s : WriteGuard S)
      → InMemory s
      → entry own s ≡ o
      → Moves s quiet (read_memory client now o s).0
  read-Moves now own none s mem at_own = (mem, stay (entry key s))
  read-Moves now own (some w) s mem at_own = elim (Bool-cases (ltb w.expires_at now)) [
    | inl t ↦ rw t (remove-Moves own w s mem at_own)
    | inr t ↦ rw t (mem, stay (entry key s))
  ]

  pub get-Moves :
      (now : ℕ) (token tenant : String) (s : WriteGuard S)
      → InMemory s
      → Moves s quiet (get client now token tenant s).0
  get-Moves now token tenant s mem =
      rw (get-memory client now token tenant s mem.0)
        (read-Moves now (memory_key tenant token) _ s mem refl)

  advance-Moves :
      (now : ℕ) (own : String) (w : PendingWrite) (s : WriteGuard S)
      → InMemory s
      → entry own s ≡ some w
      → (t : WriteGuardStatus) → w.status ≡ t
      → let (s', result) = advance client now true w s in
        Moves s (if own == key then outcome_of result else quiet) s'
  unfolding outcome_of
  advance-Moves now own w s mem at_own pending e =
      let (same, kept) = lookup-AllEntries IsOwnKey own w s.memory_map mem.1 at_own in
      elim (Bool-cases (high_risk w)) [
        | inl h ↦ rw (e, h) (change-Moves now own w _ voted s mem at_own same refl (vote w e h))
        | inr h ↦
            rw (e, h) (change-Moves now own w _ released s mem at_own same refl (release_low w e h))
      ]
  advance-Moves now own w s mem at_own first_confirmed e =
      let (same, kept) = lookup-AllEntries IsOwnKey own w s.memory_map mem.1 at_own in
      rw e (change-Moves now own w _ released s mem at_own same refl (release_voted w e))
  advance-Moves now own w s mem at_own confirmed e =
      rw (e, same_quiet (own == key)) (mem, stay (entry key s))
  advance-Moves now own w s mem at_own cancelled e =
      rw (e, same_quiet (own == key)) (mem, stay (entry key s))
  advance-Moves now own w s mem at_own expired e =
      let (same, kept) = lookup-AllEntries IsOwnKey own w s.memory_map mem.1 at_own in
      absurd (ground (arith, kept, e))

  answer-Moves :
      (now : ℕ) (own : String) (customer : Option String) (o : Option PendingWrite)
      (s : WriteGuard S)
      → InMemory s
      → entry own s ≡ o
      → let (s', result) = answer client now customer (read_memory client now o s) in
        Moves s (if own == key then outcome_of result else quiet) s'
  unfolding answer outcome_of
  answer-Moves now own customer none s mem at_own =
      rw (same_quiet (own == key)) (mem, stay (entry key s))
  answer-Moves now own customer (some w) s mem at_own = elim (Bool-cases (ltb w.expires_at now)) [
    | inl t ↦ rw (t, same_quiet (own == key)) (remove-Moves own w s mem at_own)
    | inr t ↦ elim (Bool-cases (customer_matches w.customer_id customer)) [
      | inl m ↦ rw (t, m) (advance-Moves now own w s mem at_own w.status refl)
      | inr m ↦ rw (t, m, same_quiet (own == key)) (mem, stay (entry key s))
    ]
  ]

  pub do_confirm-Moves :
      (now : ℕ) (token tenant : String) (customer : Option String) (s : WriteGuard S)
      → InMemory s
      → let (s', result) = do_confirm client now token tenant customer s in
        Moves s (if memory_key tenant token == key then outcome_of result else quiet) s'
  unfolding do_confirm
  do_confirm-Moves now token tenant customer s mem =
      rw (get-memory client now token tenant s mem.0)
        (answer-Moves now (memory_key tenant token) customer _ s mem refl)

  withdraw-Moves :
      (now : ℕ) (own : String) (w : PendingWrite) (s : WriteGuard S)
      → InMemory s
      → entry own s ≡ some w
      → Moves s quiet (withdraw client now true (record w { status = cancelled }) s).0
  withdraw-Moves now own w s mem at_own =
      let (same, _) = lookup-AllEntries IsOwnKey own w s.memory_map mem.1 at_own in
      let (mem', at_key) = withdraw-memory client now key (record w { status = cancelled }) s mem in
      (mem', rw (at_key, same) (focus_quiet own key w none s.memory_map at_own (drop w)))

  pub withdraw_read-Moves :
      (now : ℕ) (own : String) (o : Option PendingWrite) (s : WriteGuard S)
      → InMemory s
      → entry own s ≡ o
      → Moves s quiet (withdraw_read client now (read_memory client now o s)).0
  withdraw_read-Moves now own none s mem at_own = (mem, stay (entry key s))
  withdraw_read-Moves now own (some w) s mem at_own = elim (Bool-cases (ltb w.expires_at now)) [
    | inl t ↦ rw t (remove-Moves own w s mem at_own)
    | inr t ↦ rw t (by_status w.status refl)
  ]
    where
      by_status :
          (t : WriteGuardStatus)
          → w.status ≡ t
          → Moves s quiet (withdraw_read client now (s, some (true, w))).0
      by_status confirmed e = rw e (mem, stay (entry key s))
      by_status pending e = rw e (withdraw-Moves now own w s mem at_own)
      by_status first_confirmed e = rw e (withdraw-Moves now own w s mem at_own)
      by_status cancelled e = rw e (withdraw-Moves now own w s mem at_own)
      by_status expired e = rw e (withdraw-Moves now own w s mem at_own)

  pub reopen-Moves :
      (now : ℕ) (own : String) (o : Option PendingWrite) (s : WriteGuard S)
      → InMemory s
      → entry own s ≡ o
      → let (s', done) = reopen client now (read_memory client now o s) in
        Moves s (if own == key && done then reopened else quiet) s'
  reopen-Moves now own none s mem at_own = rw (not_done (own == key)) (mem, stay (entry key s))
  reopen-Moves now own (some w) s mem at_own = elim (Bool-cases (ltb w.expires_at now)) [
    | inl t ↦ rw (t, not_done (own == key)) (remove-Moves own w s mem at_own)
    | inr t ↦ rw t (by_status w.status refl)
  ]
    where
      by_status :
          (t : WriteGuardStatus)
          → w.status ≡ t
          → let (s', done) = reopen client now (s, some (true, w)) in
            Moves s (if own == key && done then reopened else quiet) s'
      by_status confirmed e =
          let (same, _) = lookup-AllEntries IsOwnKey own w s.memory_map mem.1 at_own in
          let again = record w { status = pending } in
          let (mem', at_key) = change-memory client now key again s mem refl in
          rw (e, done (own == key))
            (
              mem',
              rw (at_key, same)
                  (focus own key w (some again) reopened s.memory_map at_own (open_again w e)),
            )
      by_status pending e = rw (e, not_done (own == key)) (mem, stay (entry key s))
      by_status first_confirmed e = rw (e, not_done (own == key)) (mem, stay (entry key s))
      by_status cancelled e = rw (e, not_done (own == key)) (mem, stay (entry key s))
      by_status expired e = rw (e, not_done (own == key)) (mem, stay (entry key s))
