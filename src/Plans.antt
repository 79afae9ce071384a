-- ===== src/Plans.antt =====
-- src/brain/agent/agent.types.ts and the plans of src/brain/agent/task-runner.service.ts: how a plan
-- is kept. The table of the plans is an interface; `now` stands for
-- the time of a call. The text of the steps is the list of them, or `none` where it does not parse.
use zxql_ai.Prelude.{
  ℕ, suc, String, Bool, true, false, not, ◌&&◌, ◌||◌, Option, none, some, List, [], ◌∷◌, map,
  if◌then◌else◌, ◌==◌, nat_beq, nat_eq, string_eq, any, is_some_eq,
}
use Prim.Native.String.{◌++◌ as append}
use zxql_ai.Json.{Json, Args}
use zxql_ai.Tools.{ToolResult}
pub mod Decisions
pub mod Decided
pub mod Upkeep
pub mod UpkeepRun
pub mod Compose
pub mod Previews
pub mod Cancelled
pub mod Saving
pub mod Steps
pub mod ToolStep
pub mod AgentStep
pub mod Healing
pub mod Healed
pub mod Run
pub mod Kept
pub mod KeptAgent
pub mod Finished
pub mod Waiting
mod Tests
mod SavingTests
mod ComposeTests

pub data PlanStepStatus : Type 0 where
  pending running success failed suspended skipped : PlanStepStatus

pub data PlanStepType : Type 0 where
  tool agent condition end : PlanStepType

pub data StepOutput : Type 0 where
  tool_data : Option Json → StepOutput
  agent_text : String → StepOutput

-- A step, without the log of its healing and `next`, which nothing here reads.
pub record PlanStep : Type 0 where
  pub id : String
  pub label : String
  pub step_type : PlanStepType
  pub tool_name : Option String
  pub args : Option Args
  pub prompt : Option String
  pub status : PlanStepStatus
  pub output : Option StepOutput
  pub error_text : Option String
  pub retry_count : ℕ
  pub pending_token : Option String
  pub preview : Option Json
  pub created_at : ℕ
  pub updated_at : ℕ

-- `persisted_state` is the state that the plan was last read or written with.
pub record ExecutionPlan : Type 0 where
  pub id : ℕ
  pub tenant_id : String
  pub goal : String
  pub steps : List PlanStep
  pub state : PlanStepStatus
  pub created_by : Option String
  pub created_at : ℕ
  pub updated_at : ℕ
  pub persisted_state : PlanStepStatus

-- A row of the table.
pub record PlanEntity : Type 0 where
  pub id : ℕ
  pub tenant_id : String
  pub goal : Option String
  pub steps : Option (List PlanStep)
  pub state : PlanStepStatus
  pub created_by : Option String
  pub created_at : ℕ
  pub updated_at : ℕ

pub record CreatePlanInput : Type 0 where
  pub tenant_id : String
  pub goal : String
  pub steps : List PlanStep
  pub created_by : Option String

-- What `Repository` does with the table `S`. `update` writes the steps, the state and the time of the
-- row with the key, the tenant and the state, and says whether a row was affected. No statement is
-- rejected.
pub record PlanTable (S : Type 0) : Type 0 where
  pub insert : ℕ → CreatePlanInput → S → S × PlanEntity
  pub find_one : ℕ → String → S → Option PlanEntity
  pub find : String → ℕ → S → List PlanEntity
  pub update : ℕ → String → PlanStepStatus → List PlanStep → PlanStepStatus → ℕ → S → S × Bool

pub data SaveResult : Type 0 where
  saved : ExecutionPlan → SaveResult
  save_conflict : ExecutionPlan → Option PlanStepStatus → SaveResult

abbrev pub or_else {ℓ} : {A : Type ℓ} → Option A → A → A
or_else none d = d
or_else (some a) d = a

abbrev code : PlanStepStatus → ℕ
code pending = 0
code running = 1
code success = 2
code failed = 3
code suspended = 4
code skipped = 5

abbrev pub same_status : PlanStepStatus → PlanStepStatus → Bool
same_status s t = nat_beq (code s) (code t)

abbrev pub is_state : PlanStepStatus → Option PlanStepStatus → Bool
is_state s none = false
is_state s (some t) = same_status s t

abbrev pub is_open : PlanStep → Bool
is_open step = same_status step.status pending || same_status step.status running

abbrev pub is_failed : PlanStep → Bool
is_failed step = same_status step.status failed

-- A suspended step counts as neither open nor failed.
unfoldable pub detect_final_state : List PlanStep → PlanStepStatus
detect_final_state steps =
    if any is_open steps then pending else if any is_failed steps then failed else success

unfoldable pub to_plan : PlanEntity → ExecutionPlan
to_plan e = record {
  id = e.id;
  tenant_id = e.tenant_id;
  goal = or_else e.goal "";
  steps = or_else e.steps [];
  state = e.state;
  created_by = e.created_by;
  created_at = e.created_at;
  updated_at = e.updated_at;
  persisted_state = e.state;
}

abbrev pub touch_step : ℕ → PlanStep → PlanStep
touch_step now step = record step { updated_at = now }

unfoldable pub touch : ℕ → ExecutionPlan → ExecutionPlan
touch now plan = record plan { updated_at = now; steps = map (touch_step now) plan.steps }

abbrev pub state_of : Option PlanEntity → Option PlanStepStatus
state_of none = none
state_of (some e) = some e.state

module _ {S : Type 0} (table : PlanTable S) where
  unfoldable pub create_plan : ℕ → CreatePlanInput → S → S × ExecutionPlan
  unfolding to_plan
  create_plan now input s = let (s', e) = table.insert now input s in (s', to_plan e)

  abbrev pub as_plan : Option PlanEntity → Option ExecutionPlan
  unfolding to_plan
  as_plan none = none
  as_plan (some e) = some (to_plan e)

  unfoldable pub get_plan : ℕ → String → S → Option ExecutionPlan
  unfolding to_plan
  get_plan id tenant s = as_plan (table.find_one id tenant s)

  unfoldable pub list_plans : String → ℕ → S → List ExecutionPlan
  unfolding to_plan
  list_plans tenant limit s = map to_plan (table.find tenant limit s)

  -- A row that was affected, or that still has the state, counts as written.
  unfoldable pub save_plan : ℕ → ExecutionPlan → S → S × SaveResult
  unfolding touch
  save_plan now plan s =
      let p = touch now plan in
      let expected = plan.persisted_state in
      let (s', affected) = table.update plan.id plan.tenant_id expected p.steps plan.state now s in
      let current = state_of (table.find_one plan.id plan.tenant_id s') in
      if affected || is_state expected current
      then (s', saved (record p { persisted_state = plan.state }))
      else (s', save_conflict p current)
