-- ===== src/Checkpointer/Store.antt =====
-- A Redis client over a map that keeps what the proofs about
-- src/brain/graph/checkpointer.service.ts ask of it.
use zxql_ai.Prelude.{String, true, some, List, arith, string_eq}
use zxql_ai.Prelude.Map.{lookup, insert, delete, lookup-insert_self}
use zxql_ai.Graph.{GraphState}
use zxql_ai.Checkpointer.{StateClient}
use zxql_ai.Checkpointer.Laws.{Honest}

abbrev pub store : StateClient (List (String × GraphState))
store = record {
  set = λ now k st ttl s. (insert k st s, true);
  get = λ now k s. (s, some (lookup k s));
  del = λ now k s. (delete k s, true);
}

pub store-Honest : Honest store
store-Honest = record {
  set_get = λ now later ttl k st s answer ok soon e. ground (arith, e, lookup-insert_self k st s);
}
