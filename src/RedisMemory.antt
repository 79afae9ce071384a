-- ===== src/RedisMemory.antt =====
-- src/common/redis-memory.client.ts: the in-memory Redis client of the standalone form.
-- `Date.now()` is the argument `now`. A value is of a type `V`: the texts that the callers store
-- are JSON texts, owner marks and decimal numbers, and the model keeps what they stand for. A time
-- to live is in milliseconds; the source multiplies its seconds by 1000.
use zxql_ai.Prelude.{
  ℕ, zero, suc, ◌+◌, ◌-◌, ◌*◌, ◌/◌, ◌%◌, ◌^◌, ◌≤◌, ◌<◌, min, max, String, ◌≡◌, refl, sym, ap, ◌∙◌,
  subst, ◌≢◌, ◌↔◌, ◌⊎◌, inl, inr, Bool, true, false, not, ◌&&◌, ◌||◌, Option, none, some, List, [],
  ◌∷◌, ◌++◌, map, arith, ltb, leb, nat_beq, if◌then◌else◌, ltb→lt, lt→ltb, le→not-ltb, not-ltb→le,
  leb→le, le→leb, not-leb→lt, nat_beq_iff, Bool-cases, Option-cases, Equality, ◌==◌, beq_refl,
  nat_eq, string_eq, str_eq_iff, is_some_eq, length, length-append, filter, length-filter-le, any,
  All, All-append, All-filter, All-intro, sort, sort-mem, length-sort, map-mem, Memᴰ,
}
use zxql_ai.Prelude.Map.{
  lookup, insert, delete, lookup-insert, lookup-delete, lookup-insert_self, length-insert-le,
  length-delete-le, lookup-mem, AllEntries, lookup-AllEntries, insert-AllEntries, delete-AllEntries,
}
pub mod Strings
pub mod Sets
pub mod Scripts
pub mod Locks
mod Tests

pub record Entry (V : Type 0) : Type 0 where
  pub value : V
  pub expire_at : Option ℕ

-- A set keeps an expiry time for each member.
abbrev pub MemberSet : Type 0
MemberSet = List (String × Option ℕ)

pub record RedisMemory (V : Type 0) : Type 0 where
  pub store : List (String × Entry V)
  pub sets : List (String × MemberSet)

-- `expireAt !== null && expireAt <= now`
abbrev pub has_expired : ℕ → Option ℕ → Bool
has_expired now none = false
has_expired now (some t) = leb t now

abbrev pub deadline : ℕ → Option ℕ → Option ℕ
deadline now none = none
deadline now (some ttl) = some (now + ttl)

-- The options of `set`, in the order in which they are passed.
pub data SetOption : Type 0 where
  ex : ℕ → SetOption
  px : ℕ → SetOption
  nx : SetOption

pub record SetMode : Type 0 where
  pub ttl : Option ℕ
  pub only_new : Bool

pub set_mode : SetMode → List SetOption → SetMode
set_mode m [] = m
set_mode m (ex s ∷ rest) = set_mode (record m { ttl = some (s * 1000) }) rest
set_mode m (px ms ∷ rest) = set_mode (record m { ttl = some ms }) rest
set_mode m (nx ∷ rest) = set_mode (record m { only_new = true }) rest

abbrev pub is_some {ℓ} : {A : Type ℓ} → Option A → Bool
is_some none = false
is_some (some _) = true

-- `map.delete(key) ? 1 : 0`
abbrev pub count_key : {V : Type 0} → String → List (String × V) → ℕ
count_key key m = if is_some (lookup key m) then 1 else 0

module _ {V : Type 0} where
  unfoldable pub new_client : RedisMemory V
  new_client = record { store = []; sets = [] }

  pub read : ℕ → String → RedisMemory V → RedisMemory V × Option (Entry V)
  read now key c = elim (lookup key c.store) [
    | none ↦ (c, none)
    | some entry ↦
        if has_expired now entry.expire_at
        then (record c { store = delete key c.store }, none)
        else (c, some entry)
  ]

  pub write : ℕ → String → V → Option ℕ → RedisMemory V → RedisMemory V
  write now key v ttl c = record c {
    store = insert key (record { value = v; expire_at = deadline now ttl }) c.store;
  }

  abbrev pub value_of : Option (Entry V) → Option V
  value_of none = none
  value_of (some entry) = some entry.value

  pub get : ℕ → String → RedisMemory V → RedisMemory V × Option V
  unfolding read
  get now key c = let (c', entry) = read now key c in (c', value_of entry)

  -- The answer is whether the reply is 'OK'.
  pub set : ℕ → String → V → List SetOption → RedisMemory V → RedisMemory V × Bool
  unfolding read write set_mode
  set now key v options c =
      let mode = set_mode (record { ttl = none; only_new = false }) options in
      let (c', entry) = read now key c in
      if mode.only_new
      then (if is_some entry then (c', false) else (write now key v mode.ttl c', true))
      else (write now key v mode.ttl c, true)

  pub setex : ℕ → String → ℕ → V → RedisMemory V → RedisMemory V
  unfolding write
  setex now key seconds v c = write now key v (some (seconds * 1000)) c

  pub del : List String → RedisMemory V → RedisMemory V × ℕ
  del [] c = (c, 0)
  del (key ∷ keys) c =
      let removed = count_key key c.store + count_key key c.sets in
      let (c', more) = del keys (record { store = delete key c.store; sets = delete key c.sets }) in
      (c', removed + more)

  -- A live text entry gets the new expiry time, or else every member of the set of that name.
  pub expire : ℕ → String → ℕ → RedisMemory V → RedisMemory V × ℕ
  unfolding read
  expire now key seconds c =
      let (c', entry) = read now key c in
      let until = some (now + seconds * 1000) in
      elim entry [
        | some e ↦ (record c' { store = insert key (record e { expire_at = until }) c'.store }, 1)
        | none ↦ elim (lookup key c'.sets) [
          | none ↦ (c', 0)
          | some members ↦
              (record c' { sets = insert key (map (λ m. (m.0, until)) members) c'.sets }, 1)
        ]
      ]

  -- `incr` on values that are read and written as numbers; a key that is not there counts from 0.
  pub incr : (V → ℕ) → (ℕ → V) → ℕ → String → RedisMemory V → RedisMemory V × ℕ
  unfolding read
  incr to_number of_number now key c =
      let (c', entry) = read now key c in
      elim entry [
        | none ↦ (write now key (of_number 1) none c', 1)
        | some e ↦
            let next = to_number e.value + 1 in
            (
              record c' {
                store =
                    insert key (record { value = of_number next; expire_at = e.expire_at })
                      c'.store;
              },
              next,
            )
      ]
