-- ===== src/Graph/Review.antt =====
-- The approvals by which tool nodes start their tools in a call of `execute` of
-- src/brain/graph/graph-executor.service.ts.
use zxql_ai.Prelude.{
  ℕ, String, true, not, ◌||◌, Option, none, some, List, [], ◌∷◌, ◌++◌, ◌≡◌, refl, sym, subst, ◌⊎◌,
  inl, inr, arith, if-both, ◌==◌, string_eq, nat_eq, str_eq_iff, Bool-cases, any, All,
}
use zxql_ai.ReviewTasks.{ReviewTask}
use zxql_ai.ReviewTasks
use zxql_ai.WriteGuard
use zxql_ai.Confirmation.{PendingConfirmation}
use zxql_ai.Graph.{
  paused, GraphState, GraphRunEvent, tool_start, Attempt, answered, thrown, GraphRun,
}
use zxql_ai.Graph.Agent.{or_else}
use zxql_ai.Graph.Ends.{review_awaited-some}
use zxql_ai.Graph.Execute
use zxql_ai.Graph.Execute.{Resumed, ended, goes_on, execute}
use zxql_ai.Graph.Gate.{ids, InList, Granted, FineRun, loop-FineRun}

-- The ways in which a node is approved before a call runs it: the run's saved state says so, or it
-- waits at the node for a task of the tenant that a reviewer has approved.
pub data Approval {E : Type 0} (r : GraphRun E) (e : E) (st : GraphState) : String → Type 0 where
  earlier :
      (id : String)
      → any (λ i. i == id) (or_else st.approved_node_ids []) ≡ true
      → Approval r e st id
  by_task :
      (id : ℕ) (task : ReviewTask)
      → st.status ≡ paused
      → st.pending_review_id ≡ some id
      → r.services.find_review id (some r.tool_context.tenant_id) e ≡ answered task
      → task.status ≡ ReviewTasks.approved
      → Approval r e st st.current_node_id

-- The approvals of a loaded state; a run without one has none.
abbrev pub Approvals : {E : Type 0} → GraphRun E → E → Option GraphState → String → Type 0
Approvals r e none id = ⊥
Approvals r e (some st) id = Approval r e st id

Granted-map :
    {E : Type 0} (r : GraphRun E) (A B : String → Type 0) (h : (id : String) → A id → B id)
    (ev : GraphRunEvent)
    → Granted r A ev
    → Granted r B ev
Granted-map r A B h (tool_start name) (node, m, t, inl g) = (node, m, t, inl g)
Granted-map r A B h (tool_start name) (node, m, t, inr a) = (node, m, t, inr (h node.id a))
Granted-map r A B h _ g = tt

All-map {ℓ κ} :
    {A : Type ℓ} (P Q : A → Type κ) (h : (x : A) → P x → Q x) (xs : List A) → All P xs → All Q xs
All-map P Q h [] a = tt
All-map P Q h (x ∷ xs) (p, a) = (h x p, All-map P Q h xs a)

InList-append :
    (xs : List String) (x id : String) → InList (xs ++ (x ∷ [])) id → InList xs id ⊎ (x ≡ id)
InList-append [] x id h = elim (Bool-cases (x == id)) [
  | inl e ↦ inr ((str_eq_iff x id).0 e)
  | inr e ↦ ground (arith, h, e)
]
InList-append (y ∷ xs) x id h = elim (Bool-cases (y == id)) [
  | inl e ↦ inl (ground (arith, e))
  | inr e ↦
      let ih : InList xs id ⊎ (x ≡ id) = InList-append xs x id (ground (arith, h, e)) in
      elim ih [ inl i ↦ inl (ground (arith, i, e)) | inr same ↦ inr same ]
]

module _ {E : Type 0} (r : GraphRun E) (A : String → Type 0) where
  -- Where a call ends at once it starts no tool; where it goes on, what is approved is in `A`.
  Grants : E × Resumed → Type 0
  Grants (e, ended evs st) = All (Granted r A) evs
  Grants (e, goes_on st) = (id : String) → InList (ids st) id → A id

  run_on-Granted : (x : E × Resumed) → Grants x → All (Granted r A) (Execute.run_on r x).1
  unfolding Execute.run_on Grants
  run_on-Granted (e, ended evs st) h = h
  run_on-Granted (e, goes_on st) h =
      All-map (Granted r (InList (ids st))) (Granted r A) (Granted-map r (InList (ids st)) A h) _
        (unfold FineRun in loop-FineRun r Execute.max_node_steps st e)

module _ {E : Type 0} (r : GraphRun E) (e : E) (st : GraphState) where
  abbrev GrantsHere : E × Resumed → Type 0
  GrantsHere x = Grants r (Approval r e st) x

  reviewed_as-Grants :
      (s : ReviewTasks.ReviewStatus) (task : ReviewTask) (id : ℕ)
      → s ≡ task.status
      → st.status ≡ paused
      → st.pending_review_id ≡ some id
      → r.services.find_review id (some r.tool_context.tenant_id) e ≡ answered task
      → GrantsHere (Execute.reviewed_as r s task id st e)
  unfolding Execute.reviewed_as Grants
  reviewed_as-Grants ReviewTasks.pending task id s p q f = (tt, tt)
  reviewed_as-Grants ReviewTasks.rejected task id s p q f = (tt, tt)
  reviewed_as-Grants ReviewTasks.approved task id s p q f = λ node h.
      elim (InList-append (ids st) st.current_node_id node h) [
        | inl i ↦ earlier node i
        | inr same ↦ subst (λ n. Approval r e st n) same (by_task id task p q f (sym s))
      ]

  resume_review-Grants :
      (id : ℕ) (a : Attempt ReviewTask)
      → st.status ≡ paused
      → st.pending_review_id ≡ some id
      → r.services.find_review id (some r.tool_context.tenant_id) e ≡ a
      → GrantsHere (Execute.resume_review r id a st e)
  unfolding Execute.resume_review
  resume_review-Grants id (thrown m) p q f = unfold Grants in (tt, tt)
  resume_review-Grants id (answered task) p q f = reviewed_as-Grants task.status task id refl p q f

  written_as-Grants :
      (s : WriteGuard.WriteGuardStatus) (write : PendingConfirmation) (token : String) (e' : E)
      → GrantsHere (Execute.written_as r s write token st e')
  unfolding Execute.written_as Grants
  written_as-Grants WriteGuard.pending write token e' = (tt, tt)
  written_as-Grants WriteGuard.cancelled write token e' = (tt, tt)
  written_as-Grants WriteGuard.first_confirmed write token e' = earlier
  written_as-Grants WriteGuard.confirmed write token e' = earlier
  written_as-Grants WriteGuard.expired write token e' = earlier

  resume_write-Grants :
      (token : String) (w : Option PendingConfirmation) (e' : E)
      → GrantsHere (Execute.resume_write r token w st e')
  unfolding Execute.resume_write
  resume_write-Grants token none e' = unfold Grants in (tt, tt)
  resume_write-Grants token (some write) e' = written_as-Grants write.status write token e'

  resume_for_write-Grants : (o : Option String) → GrantsHere (Execute.resume_for_write r o st e)
  unfolding Execute.resume_for_write
  resume_for_write-Grants none = unfold Grants in earlier
  resume_for_write-Grants (some token) =
      resume_write-Grants token (r.services.find_write r.now token r.tool_context.tenant_id e).1
        (r.services.find_write r.now token r.tool_context.tenant_id e).0

  resume_for_review-Grants :
      (o : Option ℕ)
      → Execute.review_awaited r st.status st.pending_review_id ≡ o
      → GrantsHere (Execute.resume_for_review r o st e)
  unfolding Execute.resume_for_review
  resume_for_review-Grants none h = resume_for_write-Grants _
  resume_for_review-Grants (some id) h =
      let (p, q) = review_awaited-some r st.status st.pending_review_id id h in
      resume_review-Grants id (r.services.find_review id (some r.tool_context.tenant_id) e) p q refl

start-Grants :
    {E : Type 0} (r : GraphRun E) (o : Option GraphState) (e : E)
    → Grants r (Approvals r e o) (Execute.start r o e)
unfolding Execute.start Execute.resume
start-Grants r none e = unfold Grants in λ id h. ground (arith, h)
start-Grants r (some st) e =
    if-both (Grants r (Approval r e st))
      (not (st.graph_id == r.graph.id) || Execute.is_done st.status)
      (e, goes_on (Execute.initial_state r)) (Execute.resume r st e)
      (unfold Grants in λ id h. ground (arith, h)) (resume_for_review-Grants r e st _ refl)

-- In a call of `execute` every `tool_start` event, which tool nodes give before they run their tool, is
-- for a node of the graph that names the tool and that either waits for no review, by its own mark,
-- its tool's mark or a high risk, or was approved: the loaded state lists the node as approved, or the
-- run was paused at it for a task that the review service, asked for the tenant, shows as approved.
-- Agent nodes give no such event: they run the tools that their model asks for without a review.
pub execute-Granted :
    {E : Type 0} (r : GraphRun E) (e : E)
    → let (e', loaded) = r.services.load r.now r.tool_context.tenant_id r.session_id e in
      All (Granted r (Approvals r e' loaded)) (execute r e).1
unfolding execute
execute-Granted r e =
    let (e', loaded) = r.services.load r.now r.tool_context.tenant_id r.session_id e in
    run_on-Granted r (Approvals r e' loaded) (Execute.start r loaded e') (start-Grants r loaded e')
