-- ===== src/Graph/Decide.antt =====
-- A run of src/brain/graph/graph-executor.service.ts that waits for a task of
-- src/brain/review/review-task.service.ts, before and after the task is decided.
use zxql_ai.Prelude.{
  ℕ, String, false, none, some, [], ◌∷◌, ◌++◌, ◌≡◌, ◌∙◌, ap, arith, ◌==◌, nat_eq, string_eq,
}
use Prim.Native.String.{◌++◌ as append}
use zxql_ai.ReviewTasks
use zxql_ai.ReviewTasks.{
  ReviewStatus, ReviewTask, ReviewResult, reviewed, Repository, truthy, mark_approved,
  mark_rejected, get,
}
use zxql_ai.ReviewTasks.Decisions.{Lawful}
use zxql_ai.ReviewTasks.Shown.{decisions-IsFinal, find_one-truthy}
use zxql_ai.Graph.{running, paused, error, GraphState, review_required, error_event, GraphRun}
use zxql_ai.Graph.Agent.{or_else}
use zxql_ai.Graph.Compose
use zxql_ai.Graph.Compose.{Backend, Wiring, services}
use zxql_ai.Graph.Execute
use zxql_ai.Graph.Execute.{
  Resumed, ended, goes_on, resume, resume_for_review, resume_review, reviewed_as,
}

resume-awaited :
    {E : Type 0} (r : GraphRun E) (st : GraphState) (e : E) (id : ℕ)
    → st.status ≡ paused
    → st.pending_review_id ≡ some id
    → (id == 0) ≡ false
    → resume r st e
      ≡ resume_review r id (r.services.find_review id (some r.tool_context.tenant_id) e) st e
unfolding resume resume_for_review
resume-awaited r st e id p q z =
    let awaited : Execute.review_awaited r st.status st.pending_review_id ≡ some id =
      ground (arith, p, q, z) in
    ap (λ o. resume_for_review r o st e) awaited

module _ {S R C X : Type 0} (w : Wiring S R C X) where
  -- A call whose services are those of the wiring.
  abbrev pub wired : GraphRun (Backend S R C X) → GraphRun (Backend S R C X)
  wired r = record r { services = services w }

  abbrev pub with_reviews : R → Backend S R C X → Backend S R C X
  with_reviews s b = record b { reviews = s }

  resume-shown :
      (r : GraphRun (Backend S R C X)) (b : Backend S R C X) (st : GraphState) (task : ReviewTask)
      → st.status ≡ paused
      → st.pending_review_id ≡ some task.id
      → (task.id == 0) ≡ false
      → get w.repository task.id (some r.tool_context.tenant_id) b.reviews ≡ reviewed task
      → resume (wired r) st b ≡ reviewed_as (wired r) task.status task task.id st b
  unfolding services resume_review
  resume-shown r b st task p q z shown =
      resume-awaited (wired r) st b task.id p q z
      ∙ ap (λ x. resume_review (wired r) task.id (Compose.attempted w x) st b) shown

-- The state of a run whose task was approved, and of one whose task was rejected.
abbrev pub released : GraphState → GraphState
released st = record st {
  status = running;
  pending_review_id = none;
  approved_node_ids = some (or_else st.approved_node_ids [] ++ (st.current_node_id ∷ []));
}

abbrev pub rejection : String → String
rejection reason = append "人工审核已驳回：" (or_else (truthy (some reason)) "未说明原因")

-- A run that is paused for a pending task of the caller's tenant, over services made of the
-- components: as long as nobody decides the task, a resumption asks for the review again and changes
-- nothing; after an approval by the tenant it goes on with the run's node approved; after a rejection
-- it ends with the run in error and the reviewer's reason in the message. The table of the tasks keeps
-- the laws that `Lawful` names.
pub resume-decisions :
    {S R C X : Type 0} (w : Wiring S R C X)
    → Lawful w.repository
    → (r : GraphRun (Backend S R C X)) (b : Backend S R C X) (st : GraphState) (row : ReviewTask)
      (now : ℕ) (reviewer reason : String)
    → st.status ≡ paused
    → st.pending_review_id ≡ some row.id
    → (row.id == 0) ≡ false
    → (r.tool_context.tenant_id == "") ≡ false
    → row.tenant_id ≡ r.tool_context.tenant_id
    → w.repository.find_one row.id none b.reviews ≡ some row
    → row.status ≡ ReviewTasks.pending
    → let tenant = some r.tool_context.tenant_id in
      let yes_b =
        with_reviews w
          (ReviewTasks.approve w.repository now row.id reviewer tenant b.reviews).0
          b in
      let no_b =
        with_reviews w
          (ReviewTasks.reject w.repository now row.id reviewer reason tenant b.reviews).0
          b in
      (resume (wired w r) st b
        ≡ (b, ended (review_required row.id "待审工单" "等待人工审核，请审批后重试" none ∷ []) st))
      × (resume (wired w r) st yes_b ≡ (yes_b, goes_on (released st)))
      × ((resume (wired w r) st no_b).1
          ≡ ended
              (error_event (rejection reason) ∷ [])
              (record st { status = error; error_text = some (rejection reason) }))
unfolding reviewed_as mark_approved mark_rejected
resume-decisions w h r b st row now reviewer reason p q z full own e waits =
    let tenant = r.tool_context.tenant_id in
    let final =
      decisions-IsFinal w.repository h now reviewer reason tenant b.reviews row full own e waits in
    let here : get w.repository row.id (some tenant) b.reviews ≡ reviewed row =
      unfold get in
      ap (ReviewTasks.found w.repository row.id)
        (find_one-truthy w.repository h row.id tenant b.reviews row full own e) in
    (
      resume-shown w r b st row p q z here
          ∙ ap (λ s. reviewed_as (wired w r) s row row.id st b) waits,
      resume-shown w r _ st (mark_approved now reviewer row) p q z final.1.0,
      ap (λ (x : Backend _ _ _ _ × Resumed). x.1)
          (resume-shown w r _ st (mark_rejected now reviewer reason row) p q z final.3.0),
    )
