-- ===== src/ProviderRouter.antt =====
-- src/brain/router/provider-router.service.ts: the choice of a model's provider and the chain of those
-- that stand in for it. The factory of the providers and their calls are interfaces: the timer of a
-- call aborts it inside the provider. The requested model is the name after `trim`; the latency of a
-- call is left out.
use zxql_ai.Prelude.{
  ℕ, String, Bool, true, false, not, ◌||◌, ◌&&◌, Option, none, some, List, [], ◌∷◌, ◌++◌, map,
  filter, if◌then◌else◌, ◌==◌, string_eq,
}
use zxql_ai.Graph.{Attempt, answered, thrown, ChatMessage, ChatResult, ChatTurn}
use Prim.Native.String.{◌++◌ as append}
pub mod Chain
mod Tests

-- `stream` gives the parts of the text that come before the end of a call.
pub record Provider (E : Type 0) : Type 0 where
  pub stream : List ChatMessage → E → E × ChatTurn
  pub chat_sync : List ChatMessage → E → E × Attempt ChatResult

pub record ResolvedAiConfig (C : Type 0) : Type 0 where
  pub provider : String
  pub provider_config : C
  pub source : String

pub record RouteInput (C : Type 0) : Type 0 where
  pub requested_model : Option String
  pub resolved : ResolvedAiConfig C

pub record RouteResult (E : Type 0) : Type 0 where
  pub provider_name : String
  pub provider : Provider E
  pub reason : String

pub record FallbackMeta : Type 0 where
  pub used : Bool
  pub from : String
  pub to : String
  pub reason : String
  pub attempts : List String

-- `create` has no configuration where the one of the environment is meant.
pub record ProviderFactory (C E : Type 0) : Type 0 where
  pub is_registered : String → Bool
  pub create : String → Option C → Attempt (Provider E)

abbrev pub fallback_chain : String → List String
fallback_chain name =
    if name == "glm"
    then "ollama" ∷ "deepseek" ∷ "qwen" ∷ []
    else if name == "deepseek"
    then "ollama" ∷ "glm" ∷ "qwen" ∷ []
    else if name == "qwen"
    then "ollama" ∷ "glm" ∷ "deepseek" ∷ []
    else if name == "ollama"
    then "glm" ∷ "deepseek" ∷ []
    else []

abbrev pub or_else {ℓ} : {A : Type ℓ} → Option A → A → A
or_else none d = d
or_else (some a) d = a

module _ {C E : Type 0} (factory : ProviderFactory C E) where
  abbrev routed : String → String → Attempt (Provider E) → Attempt (RouteResult E)
  routed name reason (thrown message) = thrown message
  routed name reason (answered provider) =
      answered (record { provider_name = name; provider = provider; reason = reason })

  abbrev by_default : Attempt (RouteResult E)
  by_default = routed "glm" "回退内置默认：glm" (factory.create "glm" none)

  abbrev or_default : Attempt (RouteResult E) → Attempt (RouteResult E)
  or_default (thrown message) = by_default
  or_default (answered route) = answered route

  abbrev by_config : ResolvedAiConfig C → Attempt (RouteResult E)
  by_config c = or_default (
      routed c.provider
        (append "租户/平台配置：" (append c.provider (append "（source=" (append c.source "）"))))
        (factory.create c.provider (some c.provider_config)))

  abbrev by_request : String → ResolvedAiConfig C → Attempt (RouteResult E)
  by_request name c =
      routed name (append "用户指定模型：" name)
        (factory.create name (if name == c.provider then some c.provider_config else none))

  abbrev route_for : Option String → ResolvedAiConfig C → Attempt (RouteResult E)
  route_for none c = by_config c
  route_for (some name) c =
      if not (name == "") && factory.is_registered name then by_request name c else by_config c

  unfoldable pub route : RouteInput C → Attempt (RouteResult E)
  route input = route_for input.requested_model input.resolved

  abbrev pub candidate : Attempt (RouteResult E) → List (RouteResult E)
  candidate (thrown message) = []
  candidate (answered route) = route ∷ []

  -- The candidates for the names, without the primary and those that cannot be created.
  unfoldable pub candidates : String → List String → List (RouteResult E)
  candidates primary [] = []
  candidates primary (name ∷ names) =
      let rest = candidates primary names in
      let made = candidate (routed name (append "降级候选：" name) (factory.create name none)) in
      if name == primary then rest else made ++ rest

  abbrev chain_from : Attempt (RouteResult E) → Attempt (List (RouteResult E))
  unfolding candidates
  chain_from (thrown message) = thrown message
  chain_from (answered primary) =
      answered (primary ∷ candidates primary.provider_name (fallback_chain primary.provider_name))

  unfoldable pub resolve_chain : RouteInput C → Attempt (List (RouteResult E))
  unfolding candidates route
  resolve_chain input = chain_from (route input)

  unfoldable pub without_ollama : List (RouteResult E) → List (RouteResult E)
  without_ollama [] = []
  without_ollama (r ∷ rs) =
      let rest = without_ollama rs in if r.provider_name == "ollama" then rest else r ∷ rest

  abbrev switched : Bool → Attempt (List (RouteResult E)) → Attempt (List (RouteResult E))
  unfolding without_ollama
  switched enabled (thrown message) = thrown message
  switched enabled (answered []) = answered []
  switched enabled (answered (primary ∷ rest)) =
      answered (if enabled then primary ∷ rest else primary ∷ without_ollama rest)

  -- A switch that cannot be read is on.
  unfoldable pub resolve_chain_with_switch :
      Attempt Bool → RouteInput C → Attempt (List (RouteResult E))
  unfolding resolve_chain without_ollama
  resolve_chain_with_switch (thrown message) input = switched true (resolve_chain input)
  resolve_chain_with_switch (answered enabled) input = switched enabled (resolve_chain input)

abbrev is_empty : List String → Bool
is_empty [] = true
is_empty (x ∷ xs) = false

-- The first of the names of the candidates that failed and of the one that answers.
abbrev first_name : List String → String → String
first_name [] name = name
first_name (n ∷ ns) name = n

abbrev pub all_failed : Option String → String
all_failed last = append "所有 AI 服务商均不可用：" (or_else last "未知错误")

-- `failed` has the names of the candidates before the one that is used.
unfoldable pub build_meta : List String → String → Option String → FallbackMeta
build_meta failed name last = record {
  used = not (is_empty failed);
  from = first_name failed name;
  to = name;
  reason = or_else last "";
  attempts = failed ++ (name ∷ []);
}

module _ {E : Type 0} (messages : List ChatMessage) where
  -- A candidate whose call has ended, after the parts that it has given.
  unfoldable pub after_call :
      (List String → Option String → E → E × List String × Attempt (ChatResult × FallbackMeta))
      → String
      → List String
      → Option String
      → List String
      → E
      → Attempt ChatResult
      → E × List String × Attempt (ChatResult × FallbackMeta)
  unfolding build_meta
  after_call rest name failed last parts e (answered result) =
      (e, parts, answered (result, build_meta failed name last))
  after_call rest name failed last parts e (thrown message) =
      let (e', more, answer) = rest (failed ++ (name ∷ [])) (some message) e in
      (e', parts ++ more, answer)

  unfoldable pub try_chain :
      List (RouteResult E)
      → List String
      → Option String
      → E
      → E × List String × Attempt (ChatResult × FallbackMeta)
  unfolding after_call
  try_chain [] failed last e = (e, [], thrown (all_failed last))
  try_chain (r ∷ rs) failed last e =
      let (e', turn) = r.provider.stream messages e in
      after_call (try_chain rs) r.provider_name failed last turn.parts e' turn.ending

  unfoldable pub after_sync :
      (List String → Option String → E → E × Attempt (ChatResult × FallbackMeta))
      → String
      → List String
      → Option String
      → E × Attempt ChatResult
      → E × Attempt (ChatResult × FallbackMeta)
  unfolding build_meta
  after_sync rest name failed last (e, answered result) =
      (e, answered (result, build_meta failed name last))
  after_sync rest name failed last (e, thrown message) =
      rest (failed ++ (name ∷ [])) (some message) e

  unfoldable pub try_sync :
      List (RouteResult E)
      → List String
      → Option String
      → E
      → E × Attempt (ChatResult × FallbackMeta)
  unfolding after_sync
  try_sync [] failed last e = (e, thrown (all_failed last))
  try_sync (r ∷ rs) failed last e =
      after_sync (try_sync rs) r.provider_name failed last (r.provider.chat_sync messages e)

module _ {C E : Type 0} (factory : ProviderFactory C E) where
  abbrev pub stream_over :
      List ChatMessage
      → E
      → Attempt (List (RouteResult E))
      → E × List String × Attempt (ChatResult × FallbackMeta)
  unfolding try_chain
  stream_over messages e (thrown message) = (e, [], thrown message)
  stream_over messages e (answered chain) = try_chain messages chain [] none e

  unfoldable pub chat_with_fallback :
      Attempt Bool
      → RouteInput C
      → List ChatMessage
      → E
      → E × List String × Attempt (ChatResult × FallbackMeta)
  unfolding try_chain resolve_chain_with_switch
  chat_with_fallback switch input messages e =
      stream_over messages e (resolve_chain_with_switch factory switch input)

  abbrev pub sync_over :
      List ChatMessage
      → E
      → Attempt (List (RouteResult E))
      → E × Attempt (ChatResult × FallbackMeta)
  unfolding try_sync
  sync_over messages e (thrown message) = (e, thrown message)
  sync_over messages e (answered chain) = try_sync messages chain [] none e

  unfoldable pub chat_sync_with_fallback :
      Attempt Bool → RouteInput C → List ChatMessage → E → E × Attempt (ChatResult × FallbackMeta)
  unfolding try_sync resolve_chain_with_switch
  chat_sync_with_fallback switch input messages e =
      sync_over messages e (resolve_chain_with_switch factory switch input)
