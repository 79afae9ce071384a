-- ===== src/ToolRegistry.antt =====
-- src/tools/tool-registry.ts: the tools that a tenant sees. A tool stands for its meta data and for
-- its definition, and a set of names for the list of them.
use zxql_ai.Prelude.{
  ℕ, zero, suc, ◌+◌, ◌-◌, ◌*◌, ◌/◌, ◌%◌, ◌^◌, ◌≤◌, ◌<◌, min, max, String, ◌≡◌, refl, sym, ap, ◌∙◌,
  subst, ◌≢◌, ◌↔◌, ◌⊎◌, inl, inr, Bool, true, false, not, ◌&&◌, ◌||◌, Option, none, some, List, [],
  ◌∷◌, ◌++◌, map, arith, ltb, leb, nat_beq, if◌then◌else◌, ltb→lt, lt→ltb, le→not-ltb, not-ltb→le,
  leb→le, le→leb, not-leb→lt, lt→not-leb, nat_beq_iff, Bool-cases, Option-cases, Equality, ◌==◌,
  beq_refl, nat_eq, string_eq, str_eq_iff, is_some_eq, String-discrete, decided, decision_iff,
  length, length-append, filter, length-filter-le, any, All, All-append, All-filter, All-intro,
  sort, sort-mem, length-sort, map-mem, Memᴰ,
}
use zxql_ai.Prelude.Map.{
  lookup, insert, delete, lookup-insert, lookup-delete, delete-insert, lookup-insert_self,
  length-insert-le, length-delete-le, lookup-mem, AllEntries, lookup-AllEntries, insert-AllEntries,
  delete-AllEntries, UniqueKeys, insert-UniqueKeys, delete-UniqueKeys, lookup-filter-none,
  filter-UniqueKeys, kept, lookup-filter,
}
use zxql_ai.Tools.{ToolScope, mgmt, platform, Tool, Registry, tools_of, is_visible_in_scope, listed}
pub mod Visible
mod Tests

pub record ToolRegistry (W : Type 0) : Type 0 where
  pub tools : Registry W
  pub disabled_tools_by_tenant : List (String × List String)

-- No names, or an empty list of them, enables all the tools of the tenant.
unfoldable pub set_tenant_disabled_tools :
    {W : Type 0} → String → List String → ToolRegistry W → ToolRegistry W
set_tenant_disabled_tools tenant [] r = record r {
  disabled_tools_by_tenant = delete tenant r.disabled_tools_by_tenant;
}
set_tenant_disabled_tools tenant (n ∷ ns) r = record r {
  disabled_tools_by_tenant = insert tenant (n ∷ ns) r.disabled_tools_by_tenant;
}

abbrev pub names_of : Option (List String) → List String
names_of none = []
names_of (some ns) = ns

module _ {W : Type 0} where
  abbrev pub is_enabled : List String → Tool W → Bool
  is_enabled disabled tool = not (any (λ n. n == tool.name) disabled)

  abbrev pub disabled_for : String → ToolRegistry W → List String
  disabled_for tenant r = names_of (lookup tenant r.disabled_tools_by_tenant)

  abbrev pub kept_of : List String → List (Tool W) → List (Tool W)
  kept_of [] base = base
  kept_of (n ∷ ns) base = filter (is_enabled (n ∷ ns)) base

  unfoldable pub list_for_tenant : String → ToolRegistry W → List (Tool W)
  list_for_tenant tenant r = kept_of (disabled_for tenant r) (listed none r.tools)

  unfoldable pub to_tool_definitions : Option ToolScope → ToolRegistry W → List (Tool W)
  to_tool_definitions scope r = listed scope r.tools

  abbrev pub offered : List String → ToolRegistry W → List (Tool W)
  offered [] r = to_tool_definitions none r
  offered (n ∷ ns) r = filter (is_enabled (n ∷ ns)) (tools_of r.tools)

  unfoldable pub to_tool_definitions_for_tenant : String → ToolRegistry W → List (Tool W)
  unfolding to_tool_definitions
  to_tool_definitions_for_tenant tenant r = offered (disabled_for tenant r) r
