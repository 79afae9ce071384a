-- ===== src/Graph.antt =====
-- src/brain/graph/graph.types.ts, and what src/brain/graph/graph-executor.service.ts asks of other
-- services. One time stands for the `Date.now()` of a run.
use zxql_ai.Prelude.{ℕ, String, Bool, Option, List}
use zxql_ai.Json.{Json, Args}
use zxql_ai.Tools.{ToolContext, ToolResult}
use zxql_ai.Executor.{ToolCall, ExecuteOptions}
use zxql_ai.WriteGuard.{ToolRisk}
use zxql_ai.Confirmation.{PendingConfirmation, CreateConfirmationInput, ExecutedOperation}
use zxql_ai.ReviewTasks.{ReviewTask, CreateReviewTaskInput}
pub mod Builtin
pub mod Agent
pub mod Nodes
pub mod ToolNode
pub mod Loop
pub mod Execute
pub mod AgentEvents
pub mod Compose
pub mod Rounds
pub mod Ends
pub mod Gate
pub mod Review
pub mod Decide
pub mod Forward
pub mod Limit
pub mod Smooth
pub mod Reach
pub mod Writes
mod Tests

pub data GraphNodeType : Type 0 where
  agent tool condition end : GraphNodeType

pub data GraphStatus : Type 0 where
  running paused done error : GraphStatus

-- What a node leaves: the data of its tool, the mark of a confirmed write whose result is gone, or
-- the text and the results of its agent.
pub data NodeOutput : Type 0 where
  tool_output : Option Json → NodeOutput
  confirmed_executed : NodeOutput
  agent_output : String → List ToolResult → NodeOutput

pub record HistoryEntry : Type 0 where
  pub node_id : String
  pub label : String
  pub success : Bool

pub record GraphState : Type 0 where
  pub graph_id : String
  pub tenant_id : String
  pub session_id : String
  pub current_node_id : String
  pub status : GraphStatus
  pub results : List (String × NodeOutput)
  pub node_order : List String
  pub history : List HistoryEntry
  pub error_text : Option String
  pub pending_review_id : Option ℕ
  pub pending_write_token : Option String
  pub approved_node_ids : Option (List String)
  pub updated_at : ℕ

pub record AgentConfig : Type 0 where
  pub system_prompt : Option String
  pub tools : Option (List String)
  pub max_tool_rounds : Option ℕ

pub record GraphNode : Type 0 where
  pub id : String
  pub label : String
  pub node_type : GraphNodeType
  pub tool_name : Option String
  pub args : Option Args
  pub prompt : Option String
  pub agent_config : Option AgentConfig
  pub next : Option String
  pub condition_of : Option (GraphState → Option String)
  pub needs_review : Option Bool
  pub review_note : Option String
  pub review_payload : Option Json

pub record GraphDefinition : Type 0 where
  pub id : String
  pub name : String
  pub entry : String
  pub nodes : List GraphNode
  pub categories : Option (List String)

pub data GraphRunEvent : Type 0 where
  node_start : (node_id label : String) → GraphRunEvent
  node_end : (node_id label : String) → Bool → GraphRunEvent
  tool_start : String → GraphRunEvent
  tool_result : String → ToolResult → GraphRunEvent
  text_part : String → GraphRunEvent
  review_required : ℕ → (tool_name note : String) → Option Json → GraphRunEvent
  pending_write : String → Option Json → (write_type : String) → ℕ → GraphRunEvent
  await_confirm : String → ℕ → GraphRunEvent
  graph_done : String → GraphRunEvent
  error_event : String → GraphRunEvent

-- What an awaited call comes to.
pub data Attempt (A : Type 0) : Type 0 where
  answered : A → Attempt A
  thrown : String → Attempt A

-- What the registry says of a tool.
pub record ToolFacts : Type 0 where
  pub is_write_operation : Bool
  pub risk : Option ToolRisk
  pub needs_review : Option Bool

pub data ChatMessage : Type 0 where
  system_message user_message : String → ChatMessage
  assistant_message : (content : String) → List ToolCall → ChatMessage
  tool_message : String × String × ToolResult → ChatMessage

-- A turn of the model: the parts of its text, then its result or an error.
pub record ChatResult : Type 0 where
  pub content : Option String
  pub tool_calls : Option (List ToolCall)
  pub prompt_tokens : ℕ
  pub completion_tokens : ℕ

pub record ChatTurn : Type 0 where
  pub parts : List String
  pub ending : Attempt ChatResult

-- The services with their state `E`. The registry does not change in a call. `timer_first` says whether the timer of a tool call comes
-- before its end; `timeout` is the number that the environment sets, if it is one; `number_text`
-- the decimal text of a number; `results_text` the first 2000 characters of the JSON text of the
-- results. The results of the tools of an agent stand for the JSON texts of them.
pub record Services (E : Type 0) : Type 0 where
  pub load : ℕ → String → String → E → E × Option GraphState
  pub save : ℕ → GraphState → E → E
  pub clear : ℕ → String → String → E → E
  pub find_tool : String → Option ToolFacts
  pub tool_names : List String
  pub find_review : ℕ → Option String → E → Attempt ReviewTask
  pub create_review : ℕ → CreateReviewTaskInput → E → E × Attempt ReviewTask
  pub execute_tool_call : ℕ → ToolCall → ToolContext → ExecuteOptions → E → E × ToolResult
  pub execute_tool_calls :
      ℕ → List ToolCall → ToolContext → E → E × List (String × String × ToolResult)
  pub find_write : ℕ → String → String → E → E × Option PendingConfirmation
  pub create_write : ℕ → String → CreateConfirmationInput → E → E × PendingConfirmation
  pub executed_write : String → String → E → Option ExecutedOperation
  pub record_write : ToolContext → String → Args → ToolResult → E → E
  pub rules_context : Option (List String) → Option String
  pub timer_first : ToolCall → E → Bool
  pub timeout : Option ℕ
  pub number_text : ℕ → String
  pub results_text : List (String × NodeOutput) → String

-- `provider.chat`
abbrev pub Provider : Type 0 → Type 0
Provider E = List ChatMessage → Option (List String) → E → E × ChatTurn

-- A call of `execute`. `fresh` stands for the token that a confirmation made in it gets.
pub record GraphRun (E : Type 0) : Type 0 where
  pub services : Services E
  pub graph : GraphDefinition
  pub session_id : String
  pub tool_context : ToolContext
  pub provider : Option (Provider E)
  pub now : ℕ
  pub fresh : String
