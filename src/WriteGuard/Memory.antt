-- ===== src/WriteGuard/Memory.antt =====
-- src/brain/write-guard.service.ts without Redis: what each call does to the record under one key
-- of the memory map.
use zxql_ai.Prelude.{
  ℕ, String, ◌≡◌, refl, ◌∙◌, inl, inr, Bool, true, false, Option, none, some, List, arith, ltb,
  if◌then◌else◌, Option-cases, ◌==◌, nat_eq, string_eq,
}
use zxql_ai.Prelude.Map.{
  lookup, insert, lookup-insert, lookup-delete, delete-insert, AllEntries, insert-AllEntries,
  delete-AllEntries,
}
use zxql_ai.Redis.{RedisClient}
use zxql_ai.WriteGuard.{
  WriteGuardStatus, load, pending, first_confirmed, confirmed, cancelled, expired, PendingWrite,
  Cell, WriteGuard, memory_key, audit, assign, save_memory, remove_memory, save, remove,
}
use zxql_ai.WriteGuard.Service.{get, change, withdraw}

abbrev pub kept_status : WriteGuardStatus → Bool
kept_status pending = true
kept_status first_confirmed = true
kept_status confirmed = true
kept_status cancelled = false
kept_status expired = false

-- A record stands under its own tenant and token, and is neither cancelled nor expired.
abbrev pub IsOwnKey : String → PendingWrite → Type 0
IsOwnKey k w = (memory_key w.tenant_id w.token ≡ k) × (kept_status w.status ≡ true)

abbrev pub IsKeyed : List (String × PendingWrite) → Type 0
IsKeyed = AllEntries IsOwnKey

module _ {S : Type 0} where
  -- The form without Redis.
  abbrev pub InMemory : WriteGuard S → Type 0
  InMemory s = (s.redis_available ≡ false) × IsKeyed s.memory_map

  abbrev pub entry : String → WriteGuard S → Option PendingWrite
  entry key s = lookup key s.memory_map

  pub audit-map :
      (w : PendingWrite) (event : WriteGuardStatus) (s : WriteGuard S)
      → (audit w event s).memory_map ≡ s.memory_map
  unfolding audit
  audit-map w event s = elim (Option-cases s.audit_logger) [
    | inl e ↦ rw e refl
    | inr (_, e) ↦ rw e refl
  ]

  audit-available :
      (w : PendingWrite) (event : WriteGuardStatus) (s : WriteGuard S)
      → (audit w event s).redis_available ≡ s.redis_available
  unfolding audit
  audit-available w event s = elim (Option-cases s.audit_logger) [
    | inl e ↦ rw e refl
    | inr (_, e) ↦ rw e refl
  ]

  pub audit-InMemory :
      (w : PendingWrite) (event : WriteGuardStatus) (s : WriteGuard S)
      → InMemory s
      → InMemory (audit w event s)
  audit-InMemory w event s (off, keyed) =
      (audit-available w event s ∙ off, rw (audit-map w event s) keyed)

module _ {S : Type 0} (client : RedisClient S Cell) where
  saved_twice :
      (w : PendingWrite) (s : WriteGuard S)
      → InMemory s
      → kept_status w.status ≡ true
      → IsKeyed (save_memory w (assign true w s)).memory_map
  unfolding save_memory
  saved_twice w s (off, keyed) k =
      let key = memory_key w.tenant_id w.token in
      insert-AllEntries IsOwnKey key w (insert key w s.memory_map) (refl, k)
        (insert-AllEntries IsOwnKey key w s.memory_map (refl, k) keyed)

  pub change-memory :
      (now : ℕ) (key : String) (w : PendingWrite) (s : WriteGuard S)
      → InMemory s
      → kept_status w.status ≡ true
      → InMemory (change client now true w s)
        × (entry key (change client now true w s)
            ≡ (if memory_key w.tenant_id w.token == key then some w else entry key s))
  unfolding save save_memory
  change-memory now key w s (off, keyed) k =
      let stored : save client now w (assign true w s) ≡ save_memory w (assign true w s) =
        rw off refl in
      let own = memory_key w.tenant_id w.token in
      rw stored (
        audit-InMemory w w.status (save_memory w (assign true w s))
            (off, saved_twice w s (off, keyed) k),
        rw (audit-map w w.status (save_memory w (assign true w s))) (
            ground (
              arith,
              lookup-insert own key w (insert own w s.memory_map),
              lookup-insert own key w s.memory_map,
            )),
      )

  pub withdraw-memory :
      (now : ℕ) (key : String) (w : PendingWrite) (s : WriteGuard S)
      → InMemory s
      → InMemory (withdraw client now true w s).0
        × (entry key (withdraw client now true w s).0
            ≡ (if memory_key w.tenant_id w.token == key then none else entry key s))
  unfolding remove remove_memory
  withdraw-memory now key w s (off, keyed) =
      let gone : remove client now w (assign true w s) ≡ remove_memory w (assign true w s) =
        rw off refl in
      let own = memory_key w.tenant_id w.token in
      rw gone (
        audit-InMemory w cancelled (remove_memory w (assign true w s)) (
          off,
          rw (delete-insert own w s.memory_map) (delete-AllEntries IsOwnKey own s.memory_map keyed),
        ),
        rw (audit-map w cancelled (remove_memory w (assign true w s))) (
            ground (
              arith,
              lookup-delete own key (insert own w s.memory_map),
              lookup-insert own key w s.memory_map,
            )),
      )

  -- A read answers the record of its key, and removes it if it has expired.
  abbrev pub read_memory :
      ℕ → Option PendingWrite → WriteGuard S → WriteGuard S × Option (Bool × PendingWrite)
  read_memory now none s = (s, none)
  read_memory now (some w) s =
      if ltb w.expires_at now
      then (audit w expired (remove_memory w s), none)
      else (s, some (true, w))

  pub get-memory :
      (now : ℕ) (token tenant : String) (s : WriteGuard S)
      → s.redis_available ≡ false
      → get client now token tenant s ≡ read_memory now (entry (memory_key tenant token) s) s
  unfolding get load remove
  get-memory now token tenant s off = elim (Option-cases (entry (memory_key tenant token) s)) [
    | inl e ↦ ground (arith, off, e)
    | inr (w, e) ↦ ground (arith, off, e)
  ]
