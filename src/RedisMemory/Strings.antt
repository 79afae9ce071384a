-- ===== src/RedisMemory/Strings.antt =====
-- The text entries of the in-memory client seen as a map whose entries end.
use zxql_ai.Prelude.{
  ℕ, ◌+◌, ◌≤◌, String, ◌≡◌, Bool, true, not, Option, none, some, [], ◌∷◌, arith, leb, if◌then◌else◌,
  ◌==◌, nat_eq, string_eq, str_eq_iff,
}
use zxql_ai.Prelude.Map.{lookup, lookup-insert, lookup-delete}
use zxql_ai.RedisMemory.{
  RedisMemory, Entry, has_expired, deadline, px, nx, is_some, read, write, get, set, del,
}

-- What has ended stays ended.
pub has_expired_mono :
    (now later : ℕ) (t : Option ℕ)
    → now ≤ later
    → has_expired now t ≡ true
    → has_expired later t ≡ true
has_expired_mono now later none h e = e
has_expired_mono now later (some t) h e = ground arith

module _ {V : Type 0} where
  -- What a reader sees of an entry at time `t`.
  abbrev pub visible : ℕ → Option (Entry V) → Option V
  visible t none = none
  visible t (some entry) = if has_expired t entry.expire_at then none else some entry.value

  -- What a `get` at time `t` would answer.
  abbrev pub live : ℕ → String → RedisMemory V → Option V
  live t key c = visible t (lookup key c.store)

  pub get-live : (now : ℕ) (key : String) (c : RedisMemory V) → (get now key c).1 ≡ live now key c
  unfolding get
  get-live now key c = ground arith

  -- A read deletes only what has ended, so at no later time does it change what is seen.
  pub live-get :
      (now later : ℕ) (key other : String) (c : RedisMemory V)
      → now ≤ later
      → live later other (get now key c).0 ≡ live later other c
  unfolding get
  live-get now later key other c h =
      ground (arith, lookup-delete key other c.store, str_eq_iff key other)

  pub live-write :
      (now later : ℕ) (key other : String) (v : V) (ttl : Option ℕ) (c : RedisMemory V)
      → live later other (write now key v ttl c) ≡ (
          if key == other
          then (if has_expired later (deadline now ttl) then none else some v)
          else live later other c)
  unfolding write
  live-write now later key other v ttl c =
      ground (
        arith,
        lookup-insert key other (record { value = v; expire_at = deadline now ttl }) c.store,
      )

  -- `SET key value PX ttl NX`
  abbrev pub set_nx : ℕ → String → V → ℕ → RedisMemory V → RedisMemory V × Bool
  set_nx now key v ttl c = set now key v (px ttl ∷ nx ∷ []) c

  pub set_nx-answer :
      (now : ℕ) (key : String) (v : V) (ttl : ℕ) (c : RedisMemory V)
      → (set_nx now key v ttl c).1 ≡ not (is_some (live now key c))
  unfolding set
  set_nx-answer now key v ttl c = ground arith

  pub live-set_nx :
      (now later : ℕ) (key other : String) (v : V) (ttl : ℕ) (c : RedisMemory V)
      → now ≤ later
      → live later other (set_nx now key v ttl c).0 ≡ (
          if is_some (live now key c)
          then live later other c
          else (if key == other
              then (if leb (now + ttl) later then none else some v)
              else live later other c))
  unfolding set get
  live-set_nx now later key other v ttl c h = ground (
    arith,
    live-get now later key other c h,
    live-write now later key other v (some ttl) (read now key c).0,
  )

  pub live-del :
      (later : ℕ) (key other : String) (c : RedisMemory V)
      → live later other (del (key ∷ []) c).0 ≡ (if key == other then none else live later other c)
  unfolding del
  live-del later key other c = ground (arith, lookup-delete key other c.store)

  -- `SET key value PX ttl`
  pub live-set_px :
      (now later : ℕ) (key other : String) (v : V) (ttl : ℕ) (c : RedisMemory V)
      → live later other (set now key v (px ttl ∷ []) c).0 ≡ (
          if key == other
          then (if leb (now + ttl) later then none else some v)
          else live later other c)
  unfolding set
  live-set_px now later key other v ttl c = live-write now later key other v (some ttl) c
