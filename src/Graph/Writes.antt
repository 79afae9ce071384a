-- ===== src/Graph/Writes.antt =====
-- The runs of src/brain/graph/graph-executor.service.ts that wait for the confirmation of a write.
use zxql_ai.Prelude.{
  String, true, Option, none, some, [], ◌∷◌, ◌++◌, ◌≡◌, ◌≢◌, ◌↔◌, refl, subst, arith, string_eq,
}
use zxql_ai.WriteGuard
use zxql_ai.WriteGuard.{WriteGuardStatus}
use zxql_ai.Confirmation.{PendingConfirmation}
use zxql_ai.Graph.{running, GraphState, GraphRun}
use zxql_ai.Graph.Nodes.{find_node}
use zxql_ai.Graph.Execute.{
  Resumed, ended, goes_on, resume_for_write, label_or, complete_write, written_as, resume_write,
}

-- The statuses under which a write counts as executed.
abbrev pub Passes : WriteGuardStatus → Type 0
Passes WriteGuard.pending = ⊥
Passes WriteGuard.cancelled = ⊥
Passes WriteGuard.first_confirmed = Unit {0}
Passes WriteGuard.confirmed = Unit {0}
Passes WriteGuard.expired = Unit {0}

Passes-iff :
    (s : WriteGuardStatus) → Passes s ↔ ((s ≢ WriteGuard.pending) × (s ≢ WriteGuard.cancelled))
Passes-iff WriteGuard.pending = ((λ c. elim c [ ]), (λ (p, q). p refl))
Passes-iff WriteGuard.cancelled = ((λ c. elim c [ ]), (λ (p, q). q refl))
Passes-iff WriteGuard.first_confirmed =
    ((λ _. ((λ e. ground (arith, e)), (λ e. ground (arith, e)))), (λ _. tt))
Passes-iff WriteGuard.confirmed =
    ((λ _. ((λ e. ground (arith, e)), (λ e. ground (arith, e)))), (λ _. tt))
Passes-iff WriteGuard.expired =
    ((λ _. ((λ e. ground (arith, e)), (λ e. ground (arith, e)))), (λ _. tt))

-- The node of the write is in the history as a success, and the run waits for the write no more.
abbrev pub CountsAsRun : {E : Type 0} → GraphRun E → GraphState → Resumed → Type 0
CountsAsRun r st (goes_on st') =
    (st'.history
      ≡ st.history
        ++ (record {
          node_id = st.current_node_id;
          label = label_or st.current_node_id (find_node st.current_node_id r.graph.nodes);
          success = true;
        }
            ∷ []))
    × (st'.status ≡ running)
    × (st'.pending_write_token ≡ none)
CountsAsRun r st (ended evs st') = ⊥

module _ {E : Type 0} (r : GraphRun E) (st : GraphState) where
  written_as-CountsAsRun :
      (s : WriteGuardStatus) (write : PendingConfirmation) (token : String) (e : E)
      → CountsAsRun r st (written_as r s write token st e).1 ↔ Passes s
  unfolding written_as complete_write
  written_as-CountsAsRun WriteGuard.pending write token e = ((λ c. c), (λ c. c))
  written_as-CountsAsRun WriteGuard.cancelled write token e = ((λ c. c), (λ c. c))
  written_as-CountsAsRun WriteGuard.first_confirmed write token e =
      ((λ _. tt), (λ _. (refl, refl, refl)))
  written_as-CountsAsRun WriteGuard.confirmed write token e = ((λ _. tt), (λ _. (refl, refl, refl)))
  written_as-CountsAsRun WriteGuard.expired write token e = ((λ _. tt), (λ _. (refl, refl, refl)))

  resume_write-CountsAsRun :
      (token : String) (o : Option PendingConfirmation) (e : E)
      → CountsAsRun r st (resume_write r token o st e).1
        ↔ ((write : PendingConfirmation) × (o ≡ some write) × Passes write.status)
  unfolding resume_write
  resume_write-CountsAsRun token none e = ((λ c. elim c [ ]), (λ (w, q, p). ground (arith, q)))
  resume_write-CountsAsRun token (some write) e =
      let both = written_as-CountsAsRun write.status write token e in
      (
        (λ c. (write, refl, both.0 c)),
        (λ (w, q, p). both.1 (
            let same : w ≡ write = ground (arith, q) in
            subst (λ (u : PendingConfirmation). Passes u.status) same p)),
      )

-- A resumption of a run that waits for a write counts the node of the write as run, with a success in
-- the history, exactly when the confirmation service still has the write for the tenant and it is
-- neither pending nor cancelled: a write of high risk with the first of its two confirmations, which
-- nothing has executed, counts as run too.
pub resume_for_write-CountsAsRun :
    {E : Type 0} (r : GraphRun E) (token : String) (st : GraphState) (e : E)
    → CountsAsRun r st (resume_for_write r (some token) st e).1 ↔ (
        (write : PendingConfirmation) × ((r.services.find_write r.now token r.tool_context.tenant_id
            e).1
          ≡ some write)
        × (write.status ≢ WriteGuard.pending)
        × (write.status ≢ WriteGuard.cancelled))
unfolding resume_for_write
resume_for_write-CountsAsRun r token st e =
    let found = r.services.find_write r.now token r.tool_context.tenant_id e in
    let both = resume_write-CountsAsRun r st token found.1 found.0 in
    (
      (λ c. let (w, q, p) = both.0 c in let (a, b) = (Passes-iff w.status).0 p in (w, q, a, b)),
      (λ (w, q, a, b). both.1 (w, q, (Passes-iff w.status).1 (a, b))),
    )
