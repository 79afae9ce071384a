-- ===== src/Tools.antt =====
-- src/tools/tool.interface.ts and src/tools/tool-registry.ts: what a tool is, and the registry. The
-- code of a tool is a function on a state `W` of the services it calls.
use zxql_ai.Prelude.{
  ℕ, String, Bool, true, false, Option, none, some, List, [], ◌∷◌, nat_eq, string_eq, filter,
}
use zxql_ai.Prelude.Map.{insert, delete}
use zxql_ai.Json.{Json, Args}

pub record ToolContext : Type 0 where
  pub tenant_id : String
  pub user_id : Option String
  pub session_id : Option String
  pub request_id : Option String
  pub role : Option String
  pub customer_id : Option String
  pub auth_token : Option String
  pub employee_uid : Option String
  pub dispatch_depth : Option ℕ

pub record ToolResult : Type 0 where
  pub success : Bool
  pub data_value : Option Json
  pub error : Option String
  pub suggestion : Option String
  pub idempotent_replay : Option Bool
  pub original_completed_at : Option String
  pub preview : Option Json

-- What `await tool.execute(args, context)` does: it returns, or throws an error with a message.
pub data Ending : Type 0 where
  returned : ToolResult → Ending
  threw : String → Ending

pub data ToolScope : Type 0 where
  mgmt platform : ToolScope

-- The fields that the registry and the executor read.
pub record Tool (W : Type 0) : Type 0 where
  pub name : String
  pub is_write_operation : Bool
  pub scope : Option ToolScope
  pub idempotency_key_fields : Option (List String)
  pub execute : Args → ToolContext → W → W × Ending

abbrev in_mgmt : Option ToolScope → Bool
in_mgmt none = true
in_mgmt (some mgmt) = true
in_mgmt (some platform) = false

abbrev pub Registry : Type 0 → Type 0
Registry W = List (String × Tool W)

module _ {W : Type 0} where
  pub register : Tool W → Registry W → Registry W
  register tool registry = insert tool.name tool registry

  pub register_all : List (Tool W) → Registry W → Registry W
  unfolding register
  register_all [] registry = registry
  register_all (tool ∷ tools) registry = register_all tools (register tool registry)

  pub unregister : String → Registry W → Registry W
  unregister name registry = delete name registry

  abbrev pub tools_of : Registry W → List (Tool W)
  tools_of [] = []
  tools_of ((_, tool) ∷ rest) = tool ∷ tools_of rest

  -- Without a scope the tools of the platform are hidden.
  unfoldable pub is_visible_in_scope : Option ToolScope → Tool W → Bool
  is_visible_in_scope (some platform) tool = true
  is_visible_in_scope (some mgmt) tool = in_mgmt tool.scope
  is_visible_in_scope none tool = in_mgmt tool.scope

  -- The tools that `list` shows.
  unfoldable pub listed : Option ToolScope → Registry W → List (Tool W)
  unfolding is_visible_in_scope
  listed scope registry = filter (is_visible_in_scope scope) (tools_of registry)

-- A failure with a message and a suggestion.
abbrev pub failure : String → Option String → ToolResult
failure message hint = record {
  success = false;
  data_value = none;
  error = some message;
  suggestion = hint;
  idempotent_replay = none;
  original_completed_at = none;
  preview = none;
}
