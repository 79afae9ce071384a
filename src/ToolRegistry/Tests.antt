-- ===== src/ToolRegistry/Tests.antt =====
-- A registry with one tool of the platform.
use zxql_ai.Prelude.{
  ℕ, String, ◌≡◌, ◌≢◌, ◌↔◌, refl, true, false, Option, none, some, List, [], ◌∷◌, nat_eq, string_eq,
  Memᴰ, arith, str_eq_iff, ◌==◌,
}
use zxql_ai.Prelude.Map.{lookup}
use zxql_ai.Tools.{returned, failure, ToolScope, platform, Tool}
use zxql_ai.ToolRegistry.{
  ToolRegistry, set_tenant_disabled_tools, disabled_for, list_for_tenant,
  to_tool_definitions_for_tenant,
}
use zxql_ai.ToolRegistry.Visible.{platform-offered}

abbrev named : String → Option ToolScope → Tool ℕ
named name scope = record {
  name = name;
  is_write_operation = false;
  scope = scope;
  idempotency_key_fields = none;
  execute = λ args context w. (w, returned (failure "unused" none));
}

abbrev fleet_report : Tool ℕ
fleet_report = named "fleet_report" (some platform)

abbrev registry : ToolRegistry ℕ
registry = record {
  tools = ("fleet_report", fleet_report) ∷ ("query_stock", named "query_stock" none) ∷ [];
  disabled_tools_by_tenant = ("t1", "query_stock" ∷ []) ∷ [];
}

abbrev off : List String
off = "query_stock" ∷ []

abbrev set_off : ToolRegistry ℕ
set_off = set_tenant_disabled_tools "t1" off registry

platform-offered_example :
    (Memᴰ fleet_report (to_tool_definitions_for_tenant "t1" set_off)
      ↔ ((off ≢ []) × (¬ Memᴰ fleet_report.name off)))
    × (¬ Memᴰ fleet_report (list_for_tenant "t1" set_off))
    × (disabled_for "t2" set_off ≡ disabled_for "t2" registry)
unfolding lookup
platform-offered_example =
    platform-offered "t1" "t2" off "fleet_report" fleet_report registry refl refl refl

not_off : ¬ Memᴰ fleet_report.name off
not_off (Memᴰ.head e) = apart ((str_eq_iff _ _).1 e)
  where
    apart : ¬ ((fleet_report.name == "query_stock") ≡ true)
    apart h = absurd (ground (arith, h))
not_off (Memᴰ.tail m) = elim m [ ]

-- The tool of the platform is there for a tenant that has another tool disabled.
fleet_report_offered : Memᴰ fleet_report (to_tool_definitions_for_tenant "t1" set_off)
unfolding lookup
fleet_report_offered =
    (platform-offered "t1" "t2" off "fleet_report" fleet_report registry refl refl refl).0.1
      ((λ e. ground (arith, e)), not_off)
