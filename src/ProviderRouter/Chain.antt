-- ===== src/ProviderRouter/Chain.antt =====
-- The answers of the chain of src/brain/router/provider-router.service.ts.
use zxql_ai.Prelude.{String, Option, some, List, [], ◌∷◌, ◌++◌, ◌≡◌}
use zxql_ai.Graph.{Attempt, thrown, ChatMessage, ChatResult}
use zxql_ai.ProviderRouter
use zxql_ai.ProviderRouter.{RouteResult, FallbackMeta, all_failed}

abbrev pub names : {E : Type 0} → List (RouteResult E) → List String
names [] = []
names (r ∷ rs) = r.provider_name ∷ names rs

-- Candidates that fail one after another from a state to another, the parts of the text that they give
-- before they fail, and the last error.
pub data Failed {E : Type 0} (messages : List ChatMessage)
    : List (RouteResult E) → Option String → E → List String → Option String → E → Type 0 where
  none_failed : {last : Option String} {e : E} → Failed messages [] last e [] last e
  one_failed :
      {r : RouteResult E} {rs : List (RouteResult E)} {last final : Option String} {e e₁ e₂ : E}
      {parts more : List String} {message : String}
      → r.provider.stream messages e ≡ (e₁, record { parts = parts; ending = thrown message })
      → Failed messages rs (some message) e₁ more final e₂
      → Failed messages (r ∷ rs) last e (parts ++ more) final e₂

-- What is left of the chain after candidates that failed, with the parts that they gave before it.
abbrev pub gone_on :
    {E : Type 0}
    → List String
    → E × List String × Attempt (ChatResult × FallbackMeta)
    → E × List String × Attempt (ChatResult × FallbackMeta)
gone_on parts (e, more, answer) = (e, parts ++ more, answer)
