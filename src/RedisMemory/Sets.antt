-- ===== src/RedisMemory/Sets.antt =====
-- The set commands and `multi` of src/common/redis-memory.client.ts.
use zxql_ai.Prelude.{
  ℕ, ◌+◌, String, Bool, true, false, not, ◌&&◌, Option, none, some, List, [], ◌∷◌, map,
  if◌then◌else◌, nat_eq, string_eq, filter,
}
use zxql_ai.Prelude.Map.{lookup, insert, delete}
use zxql_ai.RedisMemory.{RedisMemory, MemberSet, has_expired, is_some, count_key, setex}

abbrev members_of : Option MemberSet → MemberSet
members_of none = []
members_of (some s) = s

-- A member that is there keeps its expiry time.
add_members : MemberSet → List String → MemberSet × ℕ
add_members s [] = (s, 0)
add_members s (m ∷ ms) =
    let present = is_some (lookup m s) in
    let (s', added) = add_members (if present then s else insert m none s) ms in
    (s', if present then added else added + 1)

remove_members : MemberSet → List String → MemberSet × ℕ
remove_members s [] = (s, 0)
remove_members s (m ∷ ms) =
    let (s', removed) = remove_members (delete m s) ms in (s', count_key m s + removed)

abbrev pub alive : ℕ → MemberSet → MemberSet
alive now = filter (λ (m : String × Option ℕ). not (has_expired now m.1))

-- A set that has become empty is deleted.
put_set : String → MemberSet → List (String × MemberSet) → List (String × MemberSet)
put_set key [] sets = delete key sets
put_set key (m ∷ ms) sets = insert key (m ∷ ms) sets

module _ {V : Type 0} where
  unfoldable pub sadd : String → List String → RedisMemory V → RedisMemory V × ℕ
  unfolding add_members
  sadd key members c =
      let (s, added) = add_members (members_of (lookup key c.sets)) members in
      (record c { sets = insert key s c.sets }, added)

  unfoldable pub srem : String → List String → RedisMemory V → RedisMemory V × ℕ
  unfolding remove_members put_set
  srem key members c = elim (lookup key c.sets) [
    | none ↦ (c, 0)
    | some s ↦
        let (s', removed) = remove_members s members in
        (record c { sets = put_set key s' c.sets }, removed)
  ]

  unfoldable pub smembers : ℕ → String → RedisMemory V → RedisMemory V × List String
  unfolding put_set
  smembers now key c = elim (lookup key c.sets) [
    | none ↦ (c, [])
    | some s ↦ (
      record c { sets = put_set key (alive now s) c.sets },
      map (λ (m : String × Option ℕ). m.0) (alive now s),
    )
  ]

-- The commands that callers queue on `multi()`.
pub data Command (V : Type 0) : Type 0 where
  setex_command : String → ℕ → V → Command V
  sadd_command : String → List String → Command V
  srem_command : String → List String → Command V
  expire_command : String → ℕ → Command V
  del_command : String → Command V

module _ {V : Type 0} where
  -- The chain has the methods `setex`, `sadd` and `srem`; calling another one throws.
  abbrev pub has_method : Command V → Bool
  has_method (setex_command _ _ _) = true
  has_method (sadd_command _ _) = true
  has_method (srem_command _ _) = true
  has_method (expire_command _ _) = false
  has_method (del_command _) = false

  run_command : ℕ → Command V → RedisMemory V → RedisMemory V
  run_command now (setex_command key ttl v) c = setex now key ttl v c
  run_command now (sadd_command key ms) c = (sadd key ms c).0
  run_command now (srem_command key ms) c = (srem key ms c).0
  run_command now (expire_command key ttl) c = c
  run_command now (del_command key) c = c

  run_commands : ℕ → List (Command V) → RedisMemory V → RedisMemory V
  run_commands now [] c = c
  run_commands now (cmd ∷ cmds) c = run_commands now cmds (run_command now cmd c)

  queueable : List (Command V) → Bool
  queueable [] = true
  queueable (cmd ∷ cmds) = has_method cmd && queueable cmds

  -- `multi()…exec()`: `none` where a method is missing, before any command has run.
  unfoldable pub multi : ℕ → List (Command V) → RedisMemory V → Option (RedisMemory V)
  unfolding run_commands run_command queueable
  multi now cmds c = if queueable cmds then some (run_commands now cmds c) else none
