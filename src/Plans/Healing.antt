-- ===== src/Plans/Healing.antt =====
-- src/brain/agent/self-heal-loop.service.ts: the retries of a tool step that failed. The log keeps the
-- actions, without their times and texts. Capital letters are those of ASCII.
use zxql_ai.Prelude.{
  ℕ, zero, suc, String, Bool, true, false, ◌||◌, Option, none, some, List, [], ◌∷◌, ◌++◌,
  if◌then◌else◌, ◌==◌, string_eq, any, length,
}
use zxql_ai.Prelude.Map.{insert}
use zxql_ai.Json.{Args}
use zxql_ai.Tools.{ToolResult}
use zxql_ai.Graph.{Attempt, answered, thrown}
use zxql_ai.Plans.{PlanStep}
use zxql_ai.Plans.Steps.{PlanRunContext, HealResult, Kernel, or_else, to_tool_context}
use zxql_ai.Plans.ToolStep.{tool_call}
use zxql_ai.Plans.Healing.Words.{to_lower_case, includes}
use Prim.Native.String.{◌++◌ as append}
pub mod Words

pub data HealErrorCategory : Type 0 where
  insufficient_stock missing_args timeout service_unavailable tool_unknown unknown :
      HealErrorCategory

pub data HealAction : Type 0 where
  retry fix_args clarify give_up : HealAction

pub record HealSuggestion : Type 0 where
  pub action : HealAction
  pub args : Option Args
  pub message : Option String
  pub gives_up : Bool

pub record Healing : Type 0 where
  pub ok : Bool
  pub result : Option ToolResult
  pub error : Option String
  pub suggestion : Option HealSuggestion
  pub heal_log : List HealAction
  pub gave_up : Bool

-- What the experience of a healing is.
pub data Experience : Type 0 where
  recovered : ToolResult → Experience
  not_recovered : String → Experience

abbrev pub max_heal_retries : ℕ
max_heal_retries = 2

abbrev has_any : String → List String → Bool
has_any message words = any (includes message) words

unfoldable pub classify : String → HealErrorCategory
classify error =
    let message = to_lower_case error in
    if has_any message ("库存不足" ∷ "库存不够" ∷ "insufficient stock" ∷ "库存余量不足" ∷ "库存不足" ∷ [])
    then insufficient_stock
    else if has_any message ("缺少" ∷ "缺失" ∷ "必填" ∷ "required" ∷ "参数不完整" ∷ "请补充" ∷ [])
    then missing_args
    else if has_any message ("timeout" ∷ "超时" ∷ "etimedout" ∷ "timed out" ∷ [])
    then timeout
    else if has_any message ("未注册" ∷ "unknown tool" ∷ "不存在的工具" ∷ [])
    then tool_unknown
    else if has_any message (
        "服务不可用" ∷ "熔断" ∷ "503" ∷ "circuit" ∷ "暂时不可用" ∷ "ecosystem" ∷ "connect ec" ∷ "econnrefused"
        ∷ [])
    then service_unavailable
    else unknown

abbrev pub advice : HealAction → String → HealSuggestion
advice action message = record {
  action = action;
  args = none;
  message = some message;
  gives_up = false;
}

abbrev pub advice_for : PlanStep → HealErrorCategory → HealSuggestion
advice_for step insufficient_stock = advice clarify "库存不足：请确认是否减少数量，或先生成补货/采购建议后重试"
advice_for step missing_args = advice clarify (append "「" (append step.label "」缺少必要参数，请补充后重试"))
advice_for step timeout = advice retry "执行超时，自动重试中"
advice_for step service_unavailable = advice retry "服务暂时不可用，自动重试中"
advice_for step tool_unknown = record (advice give_up "工具不可用，已终止该步骤") { gives_up = true }
advice_for step unknown = advice retry "执行异常，自动重试一次"

unfoldable pub suggest : PlanStep → String → HealSuggestion
unfolding classify
suggest step error = advice_for step (classify error)

abbrev merged : Args → Args → Args
merged args [] = args
merged args ((key, value) ∷ more) = merged (insert key value args) more

-- The arguments of a retry; no suggestion of `suggest` has any.
abbrev pub fixed : HealSuggestion → Args → Args
fixed s args = elim s.action [
  | fix_args ↦ elim s.args [ none ↦ args | some more ↦ merged args more ]
  | retry ↦ args
  | clarify ↦ args
  | give_up ↦ args
]

module _ {E : Type 0} (execute : Args → E → E × Attempt ToolResult)
    (capture : Experience → E → E) where
  abbrev pub exhausted : PlanStep → String → List HealAction → E → E × Healing
  exhausted step error log e = (
    capture (not_recovered error) e,
    record {
      ok = false;
      result = none;
      error = some error;
      suggestion =
          some (advice clarify (append "「" (append step.label "」执行失败且自动重试未恢复，请人工介入或调整请求")));
      heal_log = log;
      gave_up = false;
    },
  )

  abbrev pub healed_by : ToolResult → List HealAction → E → E × Healing
  healed_by result log e = (
    capture (recovered result) e,
    record {
      ok = true;
      result = some result;
      error = none;
      suggestion = none;
      heal_log = log ++ (retry ∷ []);
      gave_up = false;
    },
  )

  -- A retry that failed goes on with the error that it ended with.
  unfoldable pub after_retry :
      (String → E → E × Healing) → String → List HealAction → E × Attempt ToolResult → E × Healing
  after_retry rest error log (e, thrown message) = rest message e
  after_retry rest error log (e, answered result) =
      let again = rest (or_else result.error error) e in
      if result.success then healed_by result log e else again

  unfoldable pub retries :
      ℕ → PlanStep → HealSuggestion → HealAction → Args → String → List HealAction → E → E × Healing
  unfolding after_retry
  retries zero step s action args error log e = exhausted step error log e
  retries (suc n) step s action args error log e =
      let args' = fixed s args in
      let log' = log ++ (action ∷ []) in
      after_retry (λ error' e'. retries n step s retry args' error' log' e') error log'
        (execute args' e)

  unfoldable pub heal : PlanStep → String → E → E × Healing
  unfolding suggest retries
  heal step error e =
      let s = suggest step error in
      let tried = retries max_heal_retries step s s.action (or_else step.args []) error [] e in
      if s.gives_up
      then (
        capture (not_recovered error) e,
        record {
          ok = false;
          result = none;
          error = some error;
          suggestion = some s;
          heal_log = s.action ∷ [];
          gave_up = true;
        },
      )
      else tried

abbrev pub message_of : Option HealSuggestion → Option String
message_of none = none
message_of (some s) = s.message

-- What a step reads of a healing.
abbrev pub as_result : Healing → HealResult
as_result h = record {
  ok = h.ok;
  result = h.result;
  error = h.error;
  suggestion = message_of h.suggestion;
  heal_count = length h.heal_log;
}

abbrev pub tool_of : PlanStep → String
tool_of step = or_else step.tool_name ""

module _ {E : Type 0} (k : Kernel E) (context : PlanRunContext) (capture : Experience → E → E) where
  -- A retry runs the tool of the step through the same executor.
  abbrev pub execute_again : String → Args → E → E × Attempt ToolResult
  execute_again name args e =
      let (e', result) =
        k.execute_tool_call (tool_call k context 0 name args e) (to_tool_context context) e in
      (e', answered result)

  unfoldable pub heal_step : PlanStep → String → String → E → E × Attempt HealResult
  unfolding heal
  heal_step step goal error e =
      let (e', h) = heal (execute_again (tool_of step)) capture step error e in
      (e', answered (as_result h))

  -- The services of a run whose failed tool steps are healed.
  abbrev pub with_healing : Kernel E
  with_healing = record k { heal = heal_step }
