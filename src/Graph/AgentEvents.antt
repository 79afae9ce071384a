-- ===== src/Graph/AgentEvents.antt =====
-- The events of an agent node of src/brain/graph/graph-executor.service.ts.
use zxql_ai.Prelude.{ℕ, zero, suc, String, Option, List, [], ◌∷◌, map, All, All-append}
use zxql_ai.Tools.{ToolResult}
use zxql_ai.Executor.{ToolCall}
use zxql_ai.Graph.{
  GraphState, GraphNode, GraphRunEvent, tool_result, text_part, Attempt, answered, thrown,
  ChatMessage, ChatResult, Provider, GraphRun,
}
use zxql_ai.Graph.Agent
use zxql_ai.Graph.Agent.{agent_loop, run_agent}

-- A predicate on the events that holds for texts and results.
module _ {E : Type 0} (r : GraphRun E) (P : GraphRunEvent → Type 0)
    (of_text : (t : String) → P (text_part t))
    (of_result : (id : String) (result : ToolResult) → P (tool_result id result)) where
  abbrev pub AllRun : E × List GraphRunEvent × Attempt (String × List ToolResult) → Type 0
  AllRun (e, evs, ending) = All P evs

  All-texts : (ts : List String) → All P (map text_part ts)
  All-texts [] = tt
  All-texts (t ∷ ts) = (of_text t, All-texts ts)

  All-results : (outs : List (String × String × ToolResult)) → All P (map Agent.result_event outs)
  All-results [] = tt
  All-results ((id, name, result) ∷ outs) = (of_result id result, All-results outs)

  call_tools-All :
      (rest : List ChatMessage
        → String
        → List ToolResult
        → E
        → E × List GraphRunEvent × Attempt (String × List ToolResult))
      (messages : List ChatMessage) (so_far : String) (results : List ToolResult)
      (calls : List ToolCall) (e : E)
      → ((ms : List ChatMessage) (t : String) (rs : List ToolResult) (e : E)
          → AllRun (rest ms t rs e))
      → AllRun (Agent.call_tools r rest messages so_far results calls e)
  unfolding Agent.call_tools
  call_tools-All rest messages so_far results [] e h = tt
  call_tools-All rest messages so_far results (call ∷ calls) e h =
      All-append P _ _ (All-results _) (h _ _ _ _)

  after_turn-All :
      (rest : List ChatMessage
        → String
        → List ToolResult
        → E
        → E × List GraphRunEvent × Attempt (String × List ToolResult))
      (messages : List ChatMessage) (so_far : String) (results : List ToolResult)
      (parts : List String) (e : E) (ending : Attempt ChatResult)
      → ((ms : List ChatMessage) (t : String) (rs : List ToolResult) (e : E)
          → AllRun (rest ms t rs e))
      → AllRun (Agent.after_turn r rest messages so_far results parts e ending)
  unfolding Agent.after_turn
  after_turn-All rest messages so_far results parts e (thrown m) h = All-texts parts
  after_turn-All rest messages so_far results parts e (answered result) h =
      All-append P _ _ (All-texts parts) (call_tools-All rest messages _ results _ e h)

  agent_loop-All :
      (chat : Provider E) (tools : Option (List String)) (n : ℕ) (messages : List ChatMessage)
      (so_far : String) (results : List ToolResult) (e : E)
      → AllRun (agent_loop r chat tools n messages so_far results e)
  unfolding agent_loop
  agent_loop-All chat tools zero messages so_far results e = tt
  agent_loop-All chat tools (suc n) messages so_far results e =
      after_turn-All (agent_loop r chat tools n) messages so_far results _ _ _
        (agent_loop-All chat tools n)

  pub run_agent-All :
      (chat : Provider E) (node : GraphNode) (st : GraphState) (e : E)
      → AllRun (run_agent r chat node st e)
  unfolding run_agent
  run_agent-All chat node st e = agent_loop-All chat _ _ _ _ _ e
