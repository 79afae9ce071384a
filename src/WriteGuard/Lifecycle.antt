-- ===== src/WriteGuard/Lifecycle.antt =====
-- src/brain/write-guard.service.ts: the lifetime of a token, and without Redis a record from its
-- suspension to its release.
use zxql_ai.Prelude.{
  ℕ, ◌+◌, ◌*◌, ◌≤◌, String, ◌≡◌, refl, ◌∙◌, inl, inr, true, false, Option, some, arith, ltb,
  if◌then◌else◌, le→not-ltb, not-ltb→le, Bool-cases, beq_refl, nat_eq, string_eq,
}
use zxql_ai.Prelude.Map.{lookup-insert_self, lookup-AllEntries, insert-AllEntries, kept}
use native.Mathlib.Nat.{le-div_iff_mul-le, div-lt_iff_lt-mul}
use zxql_ai.Redis.{RedisClient}
use zxql_ai.WriteGuard.{
  pending, first_confirmed, confirmed, PendingWrite, Cell, WriteGuard, memory_key, audit,
  save_memory, save, Hours, unset, not_positive, fraction, resolve_write_token_ttl_ms, round_hours,
  hour_ms, write_token_ttl_ms,
}
use zxql_ai.WriteGuard.Service.{
  SuspendWriteInput, WriteGuardConfirmResult, refused, accepted, was_confirmed, high_risk,
  customer_matches, change, advance, answer, do_confirm, confirm, suspend, new_write,
}
use zxql_ai.WriteGuard.Memory.{
  IsOwnKey, kept_status, InMemory, entry, audit-map, audit-InMemory, change-memory, get-memory,
}
use zxql_ai.WriteGuard.Calls.{confirm-memory}

round-bounds :
    (n d : ℕ)
    → d + 1 ≤ n
    → n ≤ 720 * (d + 1)
    → (3600000 ≤ round_hours n (d + 1)) × (round_hours n (d + 1) ≤ 720 * 3600000)
unfolding round_hours hour_ms
round-bounds n d low high =
    let at_least =
      (le-div_iff_mul-le {k = 2 * (d + 1)} {x = 3600000} {y = 2 * n * 3600000 + (d + 1)}
          (omega arith)).1
        (omega arith) in
    let below =
      (div-lt_iff_lt-mul {k = 2 * (d + 1)} {x = 2 * n * 3600000 + (d + 1)} {y = 720 * 3600000 + 1}
          (omega arith)).1
        (omega arith) in
    (at_least, omega (arith, below))

-- Whatever WRITE_TOKEN_TTL_HOURS holds, a token lives at least one hour and at most 720 hours.
resolve_write_token_ttl_ms-bounds :
    (hours : Hours)
    → (3600000 ≤ resolve_write_token_ttl_ms hours)
      × (resolve_write_token_ttl_ms hours ≤ 720 * 3600000)
unfolding resolve_write_token_ttl_ms write_token_ttl_ms hour_ms
resolve_write_token_ttl_ms-bounds unset = (omega arith, omega arith)
resolve_write_token_ttl_ms-bounds not_positive = (omega arith, omega arith)
resolve_write_token_ttl_ms-bounds (fraction n d) = elim (Bool-cases (ltb (n + 1) (d + 1))) [
  | inl low ↦ rw low (omega arith, omega arith)
  | inr low ↦ elim (Bool-cases (ltb (720 * (d + 1)) (n + 1))) [
    | inl high ↦ rw (low, high) (omega arith, omega arith)
    | inr high ↦
        rw (low, high)
          (round-bounds (n + 1) d (not-ltb→le (n + 1) (d + 1) low)
            (not-ltb→le (720 * (d + 1)) (n + 1) high))
  ]
]

-- The answers to two confirmations of a new record.
abbrev pub Approval : PendingWrite → WriteGuardConfirmResult → WriteGuardConfirmResult → Type 0
Approval w first second =
    if high_risk w
    then (first ≡ accepted (record w { status = first_confirmed; confirm_count = 1 }) true)
      × (second ≡ accepted (record w { status = confirmed; confirm_count = 2 }) false)
    else (first
        ≡ accepted (record w { status = confirmed; confirm_count = w.confirm_count + 1 }) false)
      × (second ≡ refused was_confirmed)

module _ {S : Type 0} (client : RedisClient S Cell) (token tenant : String) where
  -- The state without Redis holds the record under its token.
  abbrev Holds : WriteGuard S → PendingWrite → Type 0
  Holds s w = InMemory s × (entry (memory_key tenant token) s ≡ some w)

  confirm-Holds :
      (now : ℕ) (fresh : String) (customer : Option String) (s : WriteGuard S) (w : PendingWrite)
      → Holds s w
      → now ≤ w.expires_at
      → customer_matches w.customer_id customer ≡ true
      → confirm client now fresh token tenant customer s ≡ advance client now true w s
  unfolding do_confirm answer
  confirm-Holds now fresh customer s w (mem, there) live match =
      confirm-memory client (memory_key tenant token) now fresh token tenant customer s mem
      ∙ (rw
          (
            get-memory client now token tenant s mem.0,
            there,
            le→not-ltb w.expires_at now live,
            match,
          )
          refl)

  change-Holds :
      (now : ℕ) (s : WriteGuard S) (w : PendingWrite)
      → InMemory s
      → memory_key w.tenant_id w.token ≡ memory_key tenant token
      → kept_status w.status ≡ true
      → Holds (change client now true w s) w
  change-Holds now s w mem same kept =
      let (mem', at_key) = change-memory client now (memory_key tenant token) w s mem kept in
      (mem', at_key ∙ (rw (same, beq_refl (memory_key tenant token)) refl))

  -- Two confirmations by the customer of a record that has not expired by then.
  confirm_twice :
      (t₁ t₂ : ℕ) (fresh₁ fresh₂ : String) (customer : Option String) (s : WriteGuard S)
      (w : PendingWrite)
      → Holds s w
      → w.status ≡ pending
      → t₁ ≤ w.expires_at
      → t₂ ≤ w.expires_at
      → customer_matches w.customer_id customer ≡ true
      → Approval w
          (confirm client t₁ fresh₁ token tenant customer s).1
          (confirm client t₂ fresh₂ token tenant customer
            (confirm client t₁ fresh₁ token tenant customer s).0).1
  confirm_twice t₁ t₂ fresh₁ fresh₂ customer s w (mem, there) is_new live₁ live₂ match =
      let (same, _) =
        lookup-AllEntries IsOwnKey (memory_key tenant token) w s.memory_map mem.1 there in
      let once = confirm-Holds t₁ fresh₁ customer s w (mem, there) live₁ match in
      elim (Bool-cases (high_risk w)) [
        | inl h ↦
            let w' = record w { status = first_confirmed; confirm_count = 1 } in
            let held = change-Holds t₁ s w' mem same refl in
            let twice =
              confirm-Holds t₂ fresh₂ customer (change client t₁ true w' s) w' held live₂ match in
            rw (once, is_new, h) (refl, rw twice refl)
        | inr h ↦
            let w' = record w { status = confirmed; confirm_count = w.confirm_count + 1 } in
            let held = change-Holds t₁ s w' mem same refl in
            let twice =
              confirm-Holds t₂ fresh₂ customer (change client t₁ true w' s) w' held live₂ match in
            rw (once, is_new, h) (refl, rw twice refl)
      ]

module _ {S : Type 0} (client : RedisClient S Cell) where
  -- Without Redis, a suspended write that its customer confirms twice before its token expires: a
  -- record of low risk is released by the first confirmation and the second is refused; one of high
  -- risk gets its first confirmation and is then released with a count of two.
  pub suspend-confirm :
      (now t₁ t₂ : ℕ) (fresh fresh₁ fresh₂ : String) (input : SuspendWriteInput)
      (customer : Option String) (s : WriteGuard S)
      → InMemory s
      → t₁ ≤ now + s.token_ttl_ms
      → t₂ ≤ now + s.token_ttl_ms
      → customer_matches input.customer_id customer ≡ true
      → let (s₁, w) = suspend client now fresh input s in
        let (s₂, first) = confirm client t₁ fresh₁ w.token w.tenant_id customer s₁ in
        let (_, second) = confirm client t₂ fresh₂ w.token w.tenant_id customer s₂ in
        Approval w first second
  unfolding suspend new_write save save_memory
  suspend-confirm now t₁ t₂ fresh fresh₁ fresh₂ input customer s (off, keyed) live₁ live₂ match =
      let w = new_write now fresh s.token_ttl_ms input in
      let own = memory_key w.tenant_id w.token in
      let stored : save client now w s ≡ save_memory w s = rw off refl in
      let s₁ = audit w pending (save_memory w s) in
      let mem =
        audit-InMemory w pending (save_memory w s)
          (off, insert-AllEntries IsOwnKey own w s.memory_map (refl, refl) keyed) in
      let there : entry own s₁ ≡ some w =
        rw (audit-map w pending (save_memory w s)) (lookup-insert_self own w s.memory_map) in
      rw stored (
        confirm_twice client w.token w.tenant_id t₁ t₂ fresh₁ fresh₂ customer s₁ w (mem, there) refl
          live₁ live₂ match)
