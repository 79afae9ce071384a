-- ===== src/RedisMemory/Tests.antt =====
-- The in-memory client at concrete inputs.
use zxql_ai.Prelude.{
  ℕ, ◌≡◌, refl, true, false, none, some, List, [], ◌∷◌, arith, nat_eq, string_eq, All,
}
use zxql_ai.Prelude.Map.{lookup, insert, delete}
use zxql_ai.RedisMemory.{RedisMemory, ex, nx, get, set, del, expire, incr}
use zxql_ai.RedisMemory.Sets.{sadd, srem, smembers, multi, sadd_command, expire_command}
use zxql_ai.RedisMemory.Strings.{set_nx}
use zxql_ai.RedisMemory.Locks.{
  LockCall, acquires, releases, call_locks, elapsed, HeldUntil, acquire-HeldUntil, lock_exclusive,
}

abbrev empty : RedisMemory ℕ
empty = record { store = []; sets = [] }

abbrev one : RedisMemory ℕ
one = record { store = ("k", record { value = 7; expire_at = some 2000 }) ∷ []; sets = [] }

commands :
    (set 1000 "k" 7 (ex 1 ∷ nx ∷ []) empty ≡ (one, true))
    × ((set 1500 "k" 8 (ex 1 ∷ nx ∷ []) one).1 ≡ false)
    × ((get 1999 "k" one).1 ≡ some 7)
    × (get 2000 "k" one ≡ (empty, none))
    × ((del ("k" ∷ "j" ∷ []) one).1 ≡ 1)
    × ((get 2500 "k" (expire 1500 "k" 2 one).0).1 ≡ some 7)
    × ((incr (λ n. n) (λ n. n) 1500 "k" one).1 ≡ 8)
    × ((smembers 5 "s" (sadd "s" ("a" ∷ "b" ∷ "a" ∷ []) empty).0).1 ≡ "a" ∷ "b" ∷ [])
    × ((srem "s" ("a" ∷ []) (sadd "s" ("a" ∷ []) empty).0).0 ≡ empty)
    × (multi 5 (sadd_command "s" ("a" ∷ []) ∷ expire_command "s" 10 ∷ []) empty ≡ none)
unfolding set get del expire incr sadd srem smembers multi lookup insert delete
commands = (refl, refl, refl, refl, refl, refl, refl, refl, refl, refl)

held : HeldUntil "k" 7 6000 1000 (set_nx 1000 "k" 7 5000 empty).0
unfolding lookup
held = (acquire-HeldUntil "k" 1000 7 5000 empty refl).1

abbrev rivals : List (LockCall ℕ)
rivals = acquires 10 8 5000 ∷ releases 10 9 ∷ []

lock_exclusive_example :
    All (λ a. a ≡ false) (call_locks "k" 1000 rivals (set_nx 1000 "k" 7 5000 empty).0).1
    × HeldUntil "k" 7 6000 1020 (call_locks "k" 1000 rivals (set_nx 1000 "k" 7 5000 empty).0).0
unfolding elapsed
lock_exclusive_example =
    lock_exclusive "k" 7 6000 1000 rivals _ held (tt, ((λ h. absurd (omega arith)), tt))
      (omega arith)
