-- ===== src/Graph/Ends.antt =====
-- How a call of `execute` of src/brain/graph/graph-executor.service.ts ends.
use zxql_ai.Prelude.{
  ℕ, String, not, ◌||◌, Option, none, some, ◌≡◌, refl, arith, if-both, ◌==◌, string_eq, nat_eq,
}
use zxql_ai.WriteGuard
use zxql_ai.Confirmation.{PendingConfirmation}
use zxql_ai.ReviewTasks.{ReviewTask}
use zxql_ai.ReviewTasks
use zxql_ai.Graph.{
  GraphStatus, running, paused, done, error, GraphState, Attempt, answered, thrown, GraphRun,
}
use zxql_ai.Graph.Execute
use zxql_ai.Graph.Execute.{Resumed, ended, goes_on, execute}
use zxql_ai.Graph.Rounds.{failed, reviewing, confirming, Closed, last, ClosedRun, loop-ClosedRun}

module _ {E : Type 0} (r : GraphRun E) where
  abbrev EndsWell : E × Resumed → Type 0
  EndsWell (e, ended evs st) = Closed r.graph.nodes evs st
  EndsWell (e, goes_on st) = Unit {0}

  reviewed_as-EndsWell :
      (s : ReviewTasks.ReviewStatus) (task : ReviewTask) (id : ℕ) (st : GraphState) (e : E)
      → st.status ≡ paused
      → st.pending_review_id ≡ some id
      → EndsWell (Execute.reviewed_as r s task id st e)
  unfolding Execute.reviewed_as
  reviewed_as-EndsWell ReviewTasks.pending task id st e p q = last (reviewing id _ _ _ p q)
  reviewed_as-EndsWell ReviewTasks.rejected task id st e p q = last (failed _ refl refl)
  reviewed_as-EndsWell ReviewTasks.approved task id st e p q = tt

  resume_review-EndsWell :
      (id : ℕ) (a : Attempt ReviewTask) (st : GraphState) (e : E)
      → st.status ≡ paused
      → st.pending_review_id ≡ some id
      → EndsWell (Execute.resume_review r id a st e)
  unfolding Execute.resume_review
  resume_review-EndsWell id (thrown m) st e p q = last (reviewing id _ _ _ p q)
  resume_review-EndsWell id (answered task) st e p q =
      reviewed_as-EndsWell task.status task id st e p q

  written_as-EndsWell :
      (s : WriteGuard.WriteGuardStatus) (write : PendingConfirmation) (token : String)
      (st : GraphState) (e : E)
      → st.status ≡ paused
      → st.pending_write_token ≡ some token
      → EndsWell (Execute.written_as r s write token st e)
  unfolding Execute.written_as
  written_as-EndsWell WriteGuard.pending write token st e p q = last (confirming token _ p q)
  written_as-EndsWell WriteGuard.cancelled write token st e p q = last (failed _ refl refl)
  written_as-EndsWell WriteGuard.first_confirmed write token st e p q = tt
  written_as-EndsWell WriteGuard.confirmed write token st e p q = tt
  written_as-EndsWell WriteGuard.expired write token st e p q = tt

  resume_write-EndsWell :
      (token : String) (w : Option PendingConfirmation) (st : GraphState) (e : E)
      → st.status ≡ paused
      → st.pending_write_token ≡ some token
      → EndsWell (Execute.resume_write r token w st e)
  unfolding Execute.resume_write
  resume_write-EndsWell token none st e p q = last (failed _ refl refl)
  resume_write-EndsWell token (some write) st e p q =
      written_as-EndsWell write.status write token st e p q

  pub review_awaited-some :
      (s : GraphStatus) (o : Option ℕ) (id : ℕ)
      → Execute.review_awaited r s o ≡ some id
      → (s ≡ paused) × (o ≡ some id)
  review_awaited-some paused (some n) id h = ground arith
  review_awaited-some paused none id h = ground arith
  review_awaited-some running o id h = ground arith
  review_awaited-some done o id h = ground arith
  review_awaited-some error o id h = ground arith

  write_awaited-some :
      (s : GraphStatus) (o : Option String) (token : String)
      → Execute.write_awaited r s o ≡ some token
      → (s ≡ paused) × (o ≡ some token)
  write_awaited-some paused (some n) token h = ground arith
  write_awaited-some paused none token h = ground arith
  write_awaited-some running o token h = ground arith
  write_awaited-some done o token h = ground arith
  write_awaited-some error o token h = ground arith

  resume_for_write-EndsWell :
      (o : Option String) (st : GraphState) (e : E)
      → Execute.write_awaited r st.status st.pending_write_token ≡ o
      → EndsWell (Execute.resume_for_write r o st e)
  unfolding Execute.resume_for_write
  resume_for_write-EndsWell none st e h = tt
  resume_for_write-EndsWell (some token) st e h =
      let (p, q) = write_awaited-some st.status st.pending_write_token token h in
      resume_write-EndsWell token (r.services.find_write r.now token r.tool_context.tenant_id e).1
        st (r.services.find_write r.now token r.tool_context.tenant_id e).0 p q

  resume_for_review-EndsWell :
      (o : Option ℕ) (st : GraphState) (e : E)
      → Execute.review_awaited r st.status st.pending_review_id ≡ o
      → EndsWell (Execute.resume_for_review r o st e)
  unfolding Execute.resume_for_review
  resume_for_review-EndsWell none st e h = resume_for_write-EndsWell _ st e refl
  resume_for_review-EndsWell (some id) st e h =
      let (p, q) = review_awaited-some st.status st.pending_review_id id h in
      resume_review-EndsWell id (r.services.find_review id (some r.tool_context.tenant_id) e) st e p
        q

  start-EndsWell : (o : Option GraphState) (e : E) → EndsWell (Execute.start r o e)
  unfolding Execute.start Execute.resume
  start-EndsWell none e = tt
  start-EndsWell (some st) e =
      if-both EndsWell (not (st.graph_id == r.graph.id) || Execute.is_done st.status)
        (e, goes_on (Execute.initial_state r)) (Execute.resume r st e) tt
        (resume_for_review-EndsWell _ st e refl)

  run_on-ClosedRun : (x : E × Resumed) → EndsWell x → ClosedRun r.graph.nodes (Execute.run_on r x)
  unfolding Execute.run_on
  run_on-ClosedRun (e, ended evs st) h = unfold ClosedRun in h
  run_on-ClosedRun (e, goes_on st) h = loop-ClosedRun r Execute.max_node_steps st e

-- Every call of `execute` produces a last event, and that event tells what the run's state is:
-- `graph_done` that it is done, an error that it is in error with that message or at a node that the
-- graph does not have, `review_required` that it is paused for that task, and `await_confirm` that
-- it is paused for the write of that token.
pub execute-Closed :
    {E : Type 0} (r : GraphRun E) (e : E) → Closed r.graph.nodes (execute r e).1 (execute r e).2
unfolding execute ClosedRun
execute-Closed r e =
    run_on-ClosedRun r
      (Execute.start r (r.services.load r.now r.tool_context.tenant_id r.session_id e).1
        (r.services.load r.now r.tool_context.tenant_id r.session_id e).0)
      (start-EndsWell r _ _)
