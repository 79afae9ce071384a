-- ===== src/ReviewTasks.antt =====
-- src/brain/review/review-task.service.ts: the tasks that wait for a person. The table of the tasks
-- is a repository of TypeORM, which is an interface here.
use zxql_ai.Prelude.{
  ℕ, String, Bool, true, false, Option, none, some, List, map, if◌then◌else◌, ◌==◌, string_eq,
}
use zxql_ai.Json.{Json}
pub mod Decisions
pub mod Shown
pub mod Table
mod Tests

pub data ReviewStatus : Type 0 where
  pending approved rejected : ReviewStatus

-- A row of the table, which is also what the service shows of it.
pub record ReviewTask : Type 0 where
  pub id : ℕ
  pub tenant_id : String
  pub session_id : Option String
  pub graph_id : Option String
  pub node_id : Option String
  pub tool_name : Option String
  pub payload : Option Json
  pub status : ReviewStatus
  pub reject_reason : Option String
  pub created_by : Option String
  pub reviewed_by : Option String
  pub created_at : ℕ
  pub reviewed_at : Option ℕ

pub record CreateReviewTaskInput : Type 0 where
  pub tenant_id : String
  pub session_id : Option String
  pub graph_id : Option String
  pub node_id : Option String
  pub tool_name : Option String
  pub payload : Option Json
  pub created_by : Option String

-- An entity before it is saved, which has no key and no time yet.
pub record NewReviewTask : Type 0 where
  pub tenant_id : String
  pub session_id : Option String
  pub graph_id : Option String
  pub node_id : Option String
  pub tool_name : Option String
  pub payload : Option Json
  pub status : ReviewStatus
  pub created_by : Option String

-- What `Repository` does with the table `S`: `find_one` looks up a key, `find` the rows of a tenant
-- and a status, newest first, where either may be left out; `insert` is the `save` of a new
-- entity, which makes a row under a new key; `save` of an entity that was found writes it.
pub record Repository (S : Type 0) : Type 0 where
  pub find_one : ℕ → Option String → S → Option ReviewTask
  pub find : Option String → Option ReviewStatus → S → List ReviewTask
  pub insert : ℕ → NewReviewTask → S → S × ReviewTask
  pub save : ReviewTask → S → S

pub data ReviewError : Type 0 where
  not_found : ℕ → ReviewError
  conflict : ReviewStatus → ReviewError

pub data ReviewResult : Type 0 where
  reviewed : ReviewTask → ReviewResult
  failed : ReviewError → ReviewResult

-- An empty text counts as no text.
abbrev pub truthy : Option String → Option String
truthy none = none
truthy (some t) = if t == "" then none else some t

unfoldable pub mark_approved : ℕ → String → ReviewTask → ReviewTask
mark_approved now reviewer task = record task {
  status = approved;
  reviewed_by = some reviewer;
  reviewed_at = some now;
}

unfoldable pub mark_rejected : ℕ → String → String → ReviewTask → ReviewTask
mark_rejected now reviewer reason task = record task {
  status = rejected;
  reviewed_by = some reviewer;
  reject_reason = truthy (some reason);
  reviewed_at = some now;
}

-- A missing field is stored as null.
abbrev pub entity_of : CreateReviewTaskInput → NewReviewTask
entity_of input = record {
  tenant_id = input.tenant_id;
  session_id = input.session_id;
  graph_id = input.graph_id;
  node_id = input.node_id;
  tool_name = input.tool_name;
  payload = input.payload;
  status = pending;
  created_by = input.created_by;
}

module _ {S : Type 0} (repo : Repository S) where
  unfoldable pub create : ℕ → CreateReviewTaskInput → S → S × ReviewTask
  create now input s = repo.insert now (entity_of input) s

  unfoldable pub list : Option String → Option ReviewStatus → S → List ReviewTask
  list tenant status s = repo.find (truthy tenant) status s

  abbrev pub found : ℕ → Option ReviewTask → ReviewResult
  found id none = failed (not_found id)
  found id (some task) = reviewed task

  unfoldable pub get : ℕ → Option String → S → ReviewResult
  get id tenant s = found id (repo.find_one id (truthy tenant) s)

  -- Only a pending task is decided.
  abbrev decide_by_status :
      (ReviewTask → ReviewTask) → ReviewTask → ReviewStatus → S → S × ReviewResult
  decide_by_status mark task pending s = (repo.save (mark task) s, reviewed (mark task))
  decide_by_status mark task approved s = (s, failed (conflict approved))
  decide_by_status mark task rejected s = (s, failed (conflict rejected))

  abbrev decide_task : (ReviewTask → ReviewTask) → ℕ → Option ReviewTask → S → S × ReviewResult
  decide_task mark id none s = (s, failed (not_found id))
  decide_task mark id (some task) s = decide_by_status mark task task.status s

  unfoldable pub approve : ℕ → ℕ → String → Option String → S → S × ReviewResult
  unfolding mark_approved
  approve now id reviewer tenant s =
      decide_task (mark_approved now reviewer) id (repo.find_one id (truthy tenant) s) s

  unfoldable pub reject : ℕ → ℕ → String → String → Option String → S → S × ReviewResult
  unfolding mark_rejected
  reject now id reviewer reason tenant s =
      decide_task (mark_rejected now reviewer reason) id (repo.find_one id (truthy tenant) s) s
