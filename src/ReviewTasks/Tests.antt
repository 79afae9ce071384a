-- ===== src/ReviewTasks/Tests.antt =====
-- Tasks at concrete inputs.
use zxql_ai.Prelude.{none, some, List, [], ◌∷◌, ◌≡◌, refl}
use zxql_ai.ReviewTasks.{ReviewTask, pending, mark_approved, approve, reject}
use zxql_ai.ReviewTasks.Decisions.{
  ReviewCall, approves, rejects, run_call, run_calls, Fate, run_calls-Fate,
}
use zxql_ai.ReviewTasks.Table.{table, table-Lawful}

abbrev waiting : ReviewTask
waiting = record {
  id = 1;
  tenant_id = "t1";
  session_id = some "s1";
  graph_id = none;
  node_id = none;
  tool_name = some "createSalesOrder";
  payload = none;
  status = pending;
  reject_reason = none;
  created_by = none;
  reviewed_by = none;
  created_at = 0;
  reviewed_at = none;
}

abbrev calls : List ReviewCall
calls =
    rejects 5 1 "mallory" "no" (some "t2")
    ∷ approves 6 1 "ann" (some "t1")
    ∷ rejects 7 1 "bob" "late" none
    ∷ []

run_calls-Fate_example :
    (out : ReviewTask) × (table.find_one 1 none (run_calls table calls (waiting ∷ [])) ≡ some out)
    × Fate calls waiting out
run_calls-Fate_example = run_calls-Fate table table-Lawful calls (waiting ∷ []) waiting refl

-- The tenant's approval stands.
ann_approved :
    table.find_one 1 none (run_calls table calls (waiting ∷ []))
    ≡ some (mark_approved 6 "ann" waiting)
unfolding run_calls run_call approve reject mark_approved
ann_approved = refl
