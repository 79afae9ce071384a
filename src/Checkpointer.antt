-- ===== src/Checkpointer.antt =====
-- src/brain/graph/checkpointer.service.ts: where the state of a graph's run is kept between calls.
use zxql_ai.Prelude.{
  ℕ, ◌*◌, String, Bool, true, false, Option, none, some, List, if◌then◌else◌, string_eq,
}
use zxql_ai.Prelude.Map.{lookup, insert, delete}
use Prim.Native.String.{◌++◌ as append}
use zxql_ai.Graph.{GraphState}
pub mod Laws
pub mod Store
mod Tests

-- The commands of Redis that the service sends, with a state `S`. `none` stands for a rejected
-- promise, as `false` does for `set` and `del`. The text of a state is the state itself.
-- In memory the source keeps the state object, which the run goes on changing; here it is a copy.
pub record StateClient (S : Type 0) : Type 0 where
  pub set : ℕ → String → GraphState → ℕ → S → S × Bool
  pub get : ℕ → String → S → S × Option (Option GraphState)
  pub del : ℕ → String → S → S × Bool

pub record Checkpointer (S : Type 0) : Type 0 where
  pub redis : S
  pub redis_available : Bool
  pub memory_store : List (String × GraphState)

abbrev pub graph_ttl_seconds : ℕ
graph_ttl_seconds = 24 * 3600

unfoldable pub key : String → String → String
key tenant session = append "ai:graph:" (append tenant (append ":" session))

-- `ping` is whether the client answers one; the client of the standalone form has none.
unfoldable pub on_module_init :
    {S : Type 0} → S → (ping : S → Bool) → Checkpointer S → Checkpointer S
on_module_init redis ping c = record c { redis = redis; redis_available = ping redis }

abbrev pub touched : ℕ → GraphState → GraphState
touched now st = record st { updated_at = now }

module _ {S : Type 0} (client : StateClient S) where
  abbrev remember : GraphState → Checkpointer S → Checkpointer S
  unfolding key
  remember st c = record c {
    memory_store = insert (key st.tenant_id st.session_id) st c.memory_store;
  }

  unfoldable pub save : ℕ → GraphState → Checkpointer S → Checkpointer S
  unfolding key
  save now state c =
      let st = touched now state in
      let (r, written) =
        client.set now (key st.tenant_id st.session_id) st graph_ttl_seconds c.redis in
      let c' = record c { redis = r } in
      if c.redis_available then (if written then c' else remember st c') else remember st c

  -- What the answer of Redis leads to.
  abbrev loaded :
      String → Checkpointer S → Option (Option GraphState) → Checkpointer S × Option GraphState
  loaded k c none = (c, lookup k c.memory_store)
  loaded k c (some answer) = (c, answer)

  unfoldable pub load : ℕ → String → String → Checkpointer S → Checkpointer S × Option GraphState
  unfolding key
  load now tenant session c =
      let k = key tenant session in
      let (r, answer) = client.get now k c.redis in
      if c.redis_available
      then loaded k (record c { redis = r }) answer
      else (c, lookup k c.memory_store)

  unfoldable pub clear : ℕ → String → String → Checkpointer S → Checkpointer S
  unfolding key
  clear now tenant session c =
      let k = key tenant session in
      let (r, _) = client.del now k c.redis in
      let c' = record c { memory_store = delete k c.memory_store } in
      if c.redis_available then record c' { redis = r } else c'
