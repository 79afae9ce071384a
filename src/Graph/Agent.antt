-- ===== src/Graph/Agent.antt =====
-- The agent nodes of src/brain/graph/graph-executor.service.ts: a loop of a model with tools.
use zxql_ai.Prelude.{
  ℕ, zero, suc, String, Option, none, some, List, [], ◌∷◌, ◌++◌, map, if◌then◌else◌, ◌==◌,
  string_eq, filter, any,
}
use Prim.Native.String.{◌++◌ as append}
use zxql_ai.Tools.{ToolResult}
use zxql_ai.Executor.{ToolCall}
use zxql_ai.Graph.{
  GraphState, AgentConfig, GraphNode, GraphRunEvent, tool_result, text_part, Attempt, answered,
  thrown, ChatMessage, system_message, user_message, assistant_message, tool_message, ChatResult,
  Provider, GraphRun,
}

abbrev pub or_else {ℓ} : {A : Type ℓ} → Option A → A → A
or_else none d = d
or_else (some a) d = a

abbrev pub joined : List String → String
joined [] = ""
joined (t ∷ ts) = append t (joined ts)

abbrev chain {ℓ} : {A : Type ℓ} → Option A → Option A → Option A
chain none b = b
chain (some a) b = some a

abbrev prompt_of : Option AgentConfig → Option String
prompt_of none = none
prompt_of (some c) = c.system_prompt

abbrev rounds_of : Option AgentConfig → ℕ
rounds_of none = 3
rounds_of (some c) = or_else c.max_tool_rounds 3

-- The whitelist of the node, where it has one.
abbrev white_list : Option AgentConfig → List String
white_list none = []
white_list (some c) = or_else c.tools []

abbrev offered_tools : List String → List String → Option (List String)
offered_tools [] names = none
offered_tools (t ∷ ts) names = some (filter (λ name. any (λ n. n == name) (t ∷ ts)) names)

abbrev with_rules : String → Option String → String
with_rules base none = base
with_rules base (some rules) =
    if rules == "" then base else append base (append "\n\n以下是本业务域的权威规则，执行时必须遵守：\n" rules)

-- The text so far, or the content of the result where it has one.
abbrev settled_text : String → Option String → String
settled_text so_far none = so_far
settled_text so_far (some content) = if content == "" then so_far else content

abbrev calls_of : Option (List ToolCall) → List ToolCall
calls_of none = []
calls_of (some calls) = calls

abbrev result_of : String × String × ToolResult → ToolResult
result_of (id, name, result) = result

abbrev pub result_event : String × String × ToolResult → GraphRunEvent
result_event (id, name, result) = tool_result id result

abbrev AgentRun : Type 0 → Type 0
AgentRun E = E × List GraphRunEvent × Attempt (String × List ToolResult)

module _ {E : Type 0} (r : GraphRun E) where
  -- The calls of a turn, after which the loop goes round, or ends where there are none.
  unfoldable pub call_tools :
      (List ChatMessage → String → List ToolResult → E → AgentRun E)
      → List ChatMessage
      → String
      → List ToolResult
      → List ToolCall
      → E
      → AgentRun E
  call_tools rest messages so_far results [] e = (e, [], answered (so_far, results))
  call_tools rest messages so_far results (call ∷ calls) e =
      let (e₁, outs) = r.services.execute_tool_calls r.now (call ∷ calls) r.tool_context e in
      let (e₂, events, ending) =
        rest (messages ++ (assistant_message "" (call ∷ calls) ∷ map tool_message outs)) so_far
          (results ++ map result_of outs) e₁ in
      (e₂, map result_event outs ++ events, ending)

  unfoldable pub after_turn :
      (List ChatMessage → String → List ToolResult → E → AgentRun E)
      → List ChatMessage
      → String
      → List ToolResult
      → List String
      → E
      → Attempt ChatResult
      → AgentRun E
  unfolding call_tools
  after_turn rest messages so_far results parts e (thrown message) =
      (e, map text_part parts, thrown message)
  after_turn rest messages so_far results parts e (answered result) =
      let (e₁, events, ending) =
        call_tools rest messages (settled_text (append so_far (joined parts)) result.content)
          results (calls_of result.tool_calls) e in
      (e₁, map text_part parts ++ events, ending)

  unfoldable pub agent_loop :
      Provider E
      → Option (List String)
      → ℕ
      → List ChatMessage
      → String
      → List ToolResult
      → E
      → AgentRun E
  unfolding after_turn
  agent_loop chat tools zero messages so_far results e = (e, [], answered (so_far, results))
  agent_loop chat tools (suc n) messages so_far results e =
      let (e₁, turn) = chat messages tools e in
      after_turn (agent_loop chat tools n) messages so_far results turn.parts e₁ turn.ending

  -- The node's loop, from the messages that its prompt, the rules and the results so far make.
  unfoldable pub run_agent : Provider E → GraphNode → GraphState → E → AgentRun E
  unfolding agent_loop
  run_agent chat node st e =
      let base =
        or_else (chain (prompt_of node.agent_config) node.prompt)
          (append "你是「" (append node.label "」域的专家 Agent。")) in
      agent_loop chat (offered_tools (white_list node.agent_config) r.services.tool_names)
        (rounds_of node.agent_config)
        (system_message (with_rules base (r.services.rules_context r.graph.categories))
          ∷ user_message (append "请基于当前图状态产物完成本节点任务：" (r.services.results_text st.results))
          ∷ [])
        "" [] e
