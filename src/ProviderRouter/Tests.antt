-- ===== src/ProviderRouter/Tests.antt =====
-- Calls of a chain of providers at concrete inputs.
use zxql_ai.Prelude.{ℕ, ◌+◌, String, true, none, [], ◌∷◌, if◌then◌else◌, ◌==◌, string_eq}
use zxql_ai.Graph.{answered, thrown, ChatResult}
use zxql_ai.ProviderRouter.{Provider, RouteInput, RouteResult, ProviderFactory}

abbrev ok : ChatResult
ok = record { content = none; tool_calls = none; prompt_tokens = 1; completion_tokens = 1 }

-- Providers that count the calls: the one named glm breaks off in the middle of its text.
abbrev provider_of : String → Provider ℕ
provider_of name = record {
  stream = λ messages n. (
    n + 1,
    if name == "glm"
        then record { parts = "He" ∷ []; ending = thrown "aborted" }
        else record { parts = "Hello" ∷ []; ending = answered ok },
  );
  chat_sync = λ messages n. (n + 1, if name == "glm" then thrown "aborted" else answered ok);
}

abbrev factory : ProviderFactory ℕ ℕ
factory = record {
  is_registered = λ name. true;
  create = λ name config.
      if name == "qwen" then thrown "not registered" else answered (provider_of name);
}

abbrev input : RouteInput ℕ
input = record {
  requested_model = none;
  resolved = record { provider = "glm"; provider_config = 0; source = "platform" };
}

abbrev made : String → String → RouteResult ℕ
made name reason = record { provider_name = name; provider = provider_of name; reason = reason }

abbrev primary : RouteResult ℕ
primary = made "glm" "租户/平台配置：glm（source=platform）"

abbrev stand_in : RouteResult ℕ
stand_in = made "deepseek" "降级候选：deepseek"
