-- ===== src/ToolRegistry/Visible.antt =====
-- Which tools src/tools/tool-registry.ts shows to a tenant.
use zxql_ai.Prelude.{
  String, ◌≡◌, refl, sym, ap, ◌∙◌, subst, ◌≢◌, ◌↔◌, inl, inr, Bool, true, false, not, none, some,
  List, [], ◌∷◌, Bool-cases, nat_eq, string_eq, filter, All, Memᴰ, any, ◌==◌, beq_refl, str_eq_iff,
  if-true, if-false, if◌then◌else◌, arith,
}
use zxql_ai.Prelude.Map.{lookup, lookup-mem, lookup-insert, lookup-delete, lookup-insert_self}
use zxql_ai.Tools.{platform, Tool, Registry, tools_of, is_visible_in_scope, listed}
use zxql_ai.ToolRegistry.{
  ToolRegistry, set_tenant_disabled_tools, names_of, is_enabled, disabled_for, kept_of, offered,
  list_for_tenant, to_tool_definitions, to_tool_definitions_for_tenant,
}

All-filter_self {ℓ} :
    {A : Type ℓ} (p : A → Bool) (xs : List A) → All (λ x. p x ≡ true) (filter p xs)
All-filter_self p [] = tt
All-filter_self p (x ∷ xs) = elim (Bool-cases (p x)) [
  | inl e ↦ rw e (e, All-filter_self p xs)
  | inr e ↦ rw e (All-filter_self p xs)
]

filter-mem {ℓ} :
    {A : Type ℓ} (p : A → Bool) (x : A) (xs : List A)
    → Memᴰ x xs
    → p x ≡ true
    → Memᴰ x (filter p xs)
filter-mem p x [] m h = m
filter-mem p x (y ∷ ys) (Memᴰ.head e) h = rw (← e, h) (Memᴰ.head refl)
filter-mem p x (y ∷ ys) (Memᴰ.tail m) h = elim (Bool-cases (p y)) [
  | inl t ↦ rw t (Memᴰ.tail (filter-mem p x ys m h))
  | inr t ↦ rw t (filter-mem p x ys m h)
]

All-at {ℓ κ} : {A : Type ℓ} (P : A → Type κ) (xs : List A) → All P xs → (x : A) → Memᴰ x xs → P x
All-at P [] a x m = elim m [ ]
All-at P (y ∷ ys) (p, a) x (Memᴰ.head e) = rw e p
All-at P (y ∷ ys) (p, a) x (Memᴰ.tail m) = All-at P ys a x m

mem-wider {ℓ} :
    {A : Type ℓ} (x y : A) (xs ys : List A)
    → (Memᴰ x xs → Memᴰ x ys)
    → Memᴰ x (y ∷ xs)
    → Memᴰ x (y ∷ ys)
mem-wider x y xs ys h (Memᴰ.head e) = Memᴰ.head e
mem-wider x y xs ys h (Memᴰ.tail m) = Memᴰ.tail (h m)

mem-of_filter {ℓ} :
    {A : Type ℓ} (p : A → Bool) (x : A) (xs : List A) → Memᴰ x (filter p xs) → Memᴰ x xs
mem-of_filter p x [] m = m
mem-of_filter {A} p x (y ∷ ys) m =
    let shape : Bool → List A = λ b. if b then y ∷ filter p ys else filter p ys in
    elim (Bool-cases (p y)) [
      | inl t ↦
          mem-wider x y (filter p ys) ys (mem-of_filter p x ys) (subst (λ b. Memᴰ x (shape b)) t m)
      | inr t ↦ Memᴰ.tail (mem-of_filter p x ys (subst (λ b. Memᴰ x (shape b)) t m))
    ]

mem-any : (x : String) (ns : List String) → Memᴰ x ns → any (λ n. n == x) ns ≡ true
mem-any x [] m = elim m [ ]
mem-any x (n ∷ ns) (Memᴰ.head e) = rw (← e) (ground (arith, beq_refl x))
mem-any x (n ∷ ns) (Memᴰ.tail m) = ground (arith, mem-any x ns m)

any-mem : (x : String) (ns : List String) → any (λ n. n == x) ns ≡ true → Memᴰ x ns
any-mem x [] h = ground (arith, h)
any-mem x (n ∷ ns) h = elim (Bool-cases (n == x)) [
  | inl e ↦ Memᴰ.head (sym ((str_eq_iff n x).0 e))
  | inr e ↦ Memᴰ.tail (any-mem x ns (ground (arith, h, e)))
]

module _ {W : Type 0} where
  tools_of-mem :
      (key : String) (tool : Tool W) (tools : Registry W)
      → Memᴰ (key, tool) tools
      → Memᴰ tool (tools_of tools)
  tools_of-mem key tool [] m = elim m [ ]
  tools_of-mem key tool ((k, t) ∷ rest) (Memᴰ.head e) = Memᴰ.head (ap (λ p. p.1) e)
  tools_of-mem key tool ((k, t) ∷ rest) (Memᴰ.tail m) = Memᴰ.tail (tools_of-mem key tool rest m)

  abbrev disabling : String → List String → ToolRegistry W → ToolRegistry W
  disabling = set_tenant_disabled_tools

  disabled_for-set :
      (tenant : String) (names : List String) (r : ToolRegistry W)
      → disabled_for tenant (disabling tenant names r) ≡ names
  unfolding set_tenant_disabled_tools
  disabled_for-set tenant [] r =
      ap names_of
        (lookup-delete tenant tenant r.disabled_tools_by_tenant ∙ if-true _ _ _ (beq_refl tenant))
  disabled_for-set tenant (n ∷ ns) r =
      ap names_of (lookup-insert_self tenant (n ∷ ns) r.disabled_tools_by_tenant)

  disabled_for-other :
      (tenant other : String) (names : List String) (r : ToolRegistry W)
      → (tenant == other) ≡ false
      → disabled_for other (disabling tenant names r) ≡ disabled_for other r
  unfolding set_tenant_disabled_tools
  disabled_for-other tenant other [] r apart =
      ap names_of (lookup-delete tenant other r.disabled_tools_by_tenant ∙ if-false _ _ _ apart)
  disabled_for-other tenant other (n ∷ ns) r apart =
      ap names_of
        (lookup-insert tenant other (n ∷ ns) r.disabled_tools_by_tenant ∙ if-false _ _ _ apart)

  tools-set :
      (tenant : String) (names : List String) (r : ToolRegistry W)
      → (disabling tenant names r).tools ≡ r.tools
  unfolding set_tenant_disabled_tools
  tools-set tenant [] r = refl
  tools-set tenant (n ∷ ns) r = refl

  unlisted :
      (tool : Tool W) (tools : Registry W)
      → tool.scope ≡ some platform
      → ¬ Memᴰ tool (listed none tools)
  unfolding listed is_visible_in_scope
  unlisted tool tools scope m =
      let shown : is_visible_in_scope none tool ≡ true =
        All-at _ (listed none tools) (All-filter_self (is_visible_in_scope none) (tools_of tools))
          tool m in
      absurd (ground (arith, shown, scope))

  kept_of-unlisted :
      (names : List String) (tool : Tool W) (r : ToolRegistry W)
      → tool.scope ≡ some platform
      → ¬ Memᴰ tool (kept_of names (listed none r.tools))
  kept_of-unlisted [] tool r scope m = unlisted tool r.tools scope m
  kept_of-unlisted (n ∷ ns) tool r scope m =
      unlisted tool r.tools scope (mem-of_filter (is_enabled (n ∷ ns)) tool (listed none r.tools) m)

  offered_iff :
      (names : List String) (tool : Tool W) (r : ToolRegistry W)
      → Memᴰ tool (tools_of r.tools)
      → tool.scope ≡ some platform
      → Memᴰ tool (offered names r) ↔ ((names ≢ []) × (¬ Memᴰ tool.name names))
  unfolding to_tool_definitions
  offered_iff [] tool r there scope =
      ((λ m. absurd (unlisted tool r.tools scope m)), (λ (some_off, _). absurd (some_off refl)))
  offered_iff (n ∷ ns) tool r there scope = (
    (λ m. (
      (λ e. ground (arith, e)),
      λ off.
          let enabled =
            All-at (λ t. is_enabled (n ∷ ns) t ≡ true) _
              (All-filter_self (is_enabled (n ∷ ns)) (tools_of r.tools)) tool m in
          absurd (ground (arith, enabled, mem-any tool.name (n ∷ ns) off)),
    )),
    (λ (_, on).
        filter-mem (is_enabled (n ∷ ns)) tool (tools_of r.tools) there
          (elim (Bool-cases (any (λ m. m == tool.name) (n ∷ ns))) [
            | inl off ↦ absurd (on (any-mem tool.name (n ∷ ns) off))
            | inr off ↦ ap not off
          ])),
  )

  -- Once the disabled names of a tenant are set, a registered tool of the platform is among the
  -- definitions for the tenant if and only if at least one name was given and the tool's is not among
  -- them: a tenant for which some other tool is disabled is offered the tools of the platform, and one
  -- with nothing disabled is not. The list of the tenant's tools never shows such a tool, and the
  -- disabled names of another tenant stay as they are.
  pub platform-offered :
      (tenant other : String) (names : List String) (key : String) (tool : Tool W)
      (r : ToolRegistry W)
      → lookup key r.tools ≡ some tool
      → tool.scope ≡ some platform
      → (tenant == other) ≡ false
      → let r' = set_tenant_disabled_tools tenant names r in
        (Memᴰ tool (to_tool_definitions_for_tenant tenant r')
          ↔ ((names ≢ []) × (¬ Memᴰ tool.name names)))
        × (¬ Memᴰ tool (list_for_tenant tenant r'))
        × (disabled_for other r' ≡ disabled_for other r)
  unfolding to_tool_definitions_for_tenant list_for_tenant
  platform-offered tenant other names key tool r there scope apart =
      let r' = set_tenant_disabled_tools tenant names r in
      let same = disabled_for-set tenant names r in
      let member : Memᴰ tool (tools_of r'.tools) =
        subst (λ ts. Memᴰ tool (tools_of ts)) (sym (tools-set tenant names r))
          (tools_of-mem key tool r.tools (lookup-mem key tool r.tools there)) in
      (
        subst (λ ns. Memᴰ tool (offered ns r') ↔ ((names ≢ []) × (¬ Memᴰ tool.name names)))
            (sym same) (offered_iff names tool r' member scope),
        kept_of-unlisted (disabled_for tenant r') tool r' scope,
        disabled_for-other tenant other names r apart,
      )
