-- ===== src/Checkpointer/Laws.antt =====
-- What src/brain/graph/checkpointer.service.ts loads of what it saved.
use zxql_ai.Prelude.{
  inl, inr, ℕ, ◌+◌, ◌*◌, ◌≤◌, String, Bool, true, false, Option, none, some, ◌≡◌, arith, string_eq,
  Bool-cases, Option-cases,
}
use zxql_ai.Prelude.Map.{lookup, lookup-insert_self}
use zxql_ai.Graph.{GraphState}
use zxql_ai.Checkpointer.{StateClient, Checkpointer, key, touched, save, load, graph_ttl_seconds}

-- Redis answers with a text that it was given as long as that lives.
pub record Honest {S : Type 0} (client : StateClient S) : Type 0 where
  pub set_get :
      (now later ttl : ℕ) (k : String) (st : GraphState) (s : S) (answer : Option GraphState)
      → (client.set now k st ttl s).1 ≡ true
      → later ≤ now + ttl * 1000
      → (client.get later k (client.set now k st ttl s).0).1 ≡ some answer
      → answer ≡ some st

-- What a load finds: by whether Redis is used, whether the write was taken, what the read is
-- answered, what the memory held before, and what was saved.
abbrev pub found :
    (used written : Bool)
    → Option (Option GraphState)
    → Option GraphState
    → GraphState
    → Option GraphState
found false written answer held st = some st
found true true none held st = held
found true true (some answer) held st = some st
found true false none held st = some st
found true false (some answer) held st = answer

-- A load within the 24 hours after a save gives the saved state, with the time of the save, where
-- Redis is not used, where it takes the write and answers the read, and where it rejects both. Where
-- it takes the write and rejects the read, the load gives what the memory held before the save; where
-- it rejects the write and answers the read, the load gives that answer and not the saved state.
pub load-save :
    {S : Type 0} (client : StateClient S)
    → Honest client
    → (now later : ℕ) (st : GraphState) (c : Checkpointer S)
    → later ≤ now + graph_ttl_seconds * 1000
    → let k = key st.tenant_id st.session_id in
      let (s, written) = client.set now k (touched now st) graph_ttl_seconds c.redis in
      (load client later st.tenant_id st.session_id (save client now st c)).1
      ≡ found c.redis_available written
          (client.get later k s).1
          (lookup k c.memory_store)
          (touched now st)
unfolding load save
load-save client h now later st c soon =
    let k = key st.tenant_id st.session_id in
    let st' = touched now st in
    let put = client.set now k st' graph_ttl_seconds c.redis in
    let kept = lookup-insert_self k st' c.memory_store in
    elim (Bool-cases c.redis_available) [
      | inl u ↦ elim (Bool-cases put.1) [
        | inl w ↦ elim (Option-cases (client.get later k put.0).1) [
          | inl g ↦ ground (arith, u, w, g)
          | inr (answer, g) ↦
              let same = h.set_get now later graph_ttl_seconds k st' c.redis answer w soon g in
              ground (arith, u, w, g, same)
        ]
        | inr w ↦ elim (Option-cases (client.get later k put.0).1) [
          | inl g ↦ ground (arith, u, w, g, kept)
          | inr (answer, g) ↦ ground (arith, u, w, g)
        ]
      ]
      | inr u ↦ ground (arith, u, kept)
    ]
