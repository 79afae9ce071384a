-- ===== src/Graph/Builtin.antt =====
-- The built-in graphs of src/brain/graph/graph.types.ts, and the check of them when the module of
-- src/brain/graph/graph-executor.service.ts starts.
use zxql_ai.Prelude.{
  ℕ, String, Bool, true, not, Option, none, some, List, [], ◌∷◌, ◌++◌, ◌==◌, string_eq, any, map,
  filter,
}
use zxql_ai.Prelude.Map.{lookup}
use zxql_ai.Graph.{agent, tool, end, AgentConfig, GraphNode, GraphDefinition}

abbrev pub tool_node : String → String → String → String → GraphNode
tool_node id label name next = record {
  id = id;
  label = label;
  node_type = tool;
  tool_name = some name;
  args = none;
  prompt = none;
  agent_config = none;
  next = some next;
  condition_of = none;
  needs_review = none;
  review_note = none;
  review_payload = none;
}

abbrev pub agent_node : String → String → AgentConfig → Option String → String → GraphNode
agent_node id label config note next = record {
  id = id;
  label = label;
  node_type = agent;
  tool_name = none;
  args = none;
  prompt = none;
  agent_config = some config;
  next = some next;
  condition_of = none;
  needs_review = elim note [ none ↦ none | some _ ↦ some true ];
  review_note = note;
  review_payload = none;
}

abbrev pub end_node : GraphNode
end_node = record {
  id = "end";
  label = "完成";
  node_type = end;
  tool_name = none;
  args = none;
  prompt = none;
  agent_config = none;
  next = none;
  condition_of = none;
  needs_review = none;
  review_note = none;
  review_payload = none;
}

abbrev config : String → Option (List String) → Option ℕ → AgentConfig
config prompt tools rounds = record {
  system_prompt = some prompt;
  tools = tools;
  max_tool_rounds = rounds;
}

abbrev pub sale_create_graph : GraphDefinition
sale_create_graph = record {
  id = "sale_create_graph";
  name = "销售开单图";
  entry = "search_customer";
  categories = some ("order" ∷ "inventory" ∷ "customer" ∷ []);
  nodes =
      (tool_node "search_customer" "搜索客户" "searchCustomer" "check_inventory")
      ∷ (tool_node "check_inventory" "库存校验" "checkInventory" "create_sale")
      ∷ (tool_node "create_sale" "创建销售单" "createSalesOrder" "end")
      ∷ end_node
      ∷ [];
}

abbrev pub purchase_plan_graph : GraphDefinition
purchase_plan_graph = record {
  id = "purchase_plan_graph";
  name = "采购计划图";
  entry = "analyze";
  categories = some ("purchase" ∷ "inventory" ∷ []);
  nodes =
      (agent_node "analyze" "补货分析"
        (config "你是补货分析 Agent。根据用户需求调用 api_suggest_purchase_plan 获取智能补货建议，分析后输出建议摘要（商品、建议量、原因）。"
          (some ("api_suggest_purchase_plan" ∷ [])) (some 2))
        none "plan")
      ∷ (agent_node "plan" "生成采购计划"
          (config
            "你是采购计划生成 Agent。基于补货建议整理采购明细，调用 api_create_purchase_plan 创建采购计划（先 confirm=false 预览，向用户确认后再 confirm=true 执行）。"
            (some ("api_create_purchase_plan" ∷ "api_query_purchase_plans" ∷ [])) (some 4))
          (some "采购计划创建涉及采购资金，需人工确认") "summarize")
      ∷ (agent_node "summarize" "结果总结"
          (config "你是结果总结 Agent。汇总采购计划结果，用简洁中文向用户说明：计划单号、商品数、建议总量、下一步操作。" none none) none "end")
      ∷ end_node
      ∷ [];
}

abbrev pub marketing_create_graph : GraphDefinition
marketing_create_graph = record {
  id = "marketing_create_graph";
  name = "营销活动配置图";
  entry = "understand";
  categories = some ("marketing" ∷ []);
  nodes =
      (agent_node "understand" "活动意图理解"
        (config
          "你是营销活动 Agent。理解用户想创建的活动类型（优惠券/秒杀/满减/拼团/赠品/限量折扣），调用对应创建工具（api_create_coupon_template / api_create_flash_sale / api_create_full_reduction / api_create_group_buy / api_create_gift_rule / api_create_limited_discount），先 confirm=false 预览，向用户确认后再 confirm=true 创建。"
          (some (
            "api_create_coupon_template" ∷ "api_create_flash_sale" ∷ "api_create_full_reduction"
            ∷ "api_create_group_buy" ∷ "api_create_gift_rule" ∷ "api_create_limited_discount"
            ∷ "api_query_coupon_templates" ∷ "api_query_flash_sales"
            ∷ "api_query_marketing_overview" ∷ []))
          (some 6))
        (some "营销活动创建涉及对外优惠，需人工确认") "activate")
      ∷ (agent_node "activate" "活动激活建议"
          (config "你是活动运营 Agent。活动创建后询问用户是否激活，确认后调用 api_set_marketing_activity_status 激活活动。"
            (some ("api_set_marketing_activity_status" ∷ [])) (some 3))
          none "summarize")
      ∷ (agent_node "summarize" "结果总结"
          (config "你是结果总结 Agent。汇总营销活动配置结果：活动名称、类型、状态、生效时间，用简洁中文向用户说明。" none none) none "end")
      ∷ end_node
      ∷ [];
}

abbrev pub stock_check_graph : GraphDefinition
stock_check_graph = record {
  id = "stock_check_graph";
  name = "库存盘点图";
  entry = "analyze";
  categories = some ("inventory" ∷ []);
  nodes =
      (agent_node "analyze" "库存分析"
        (config
          "你是库存分析 Agent。调用 api_query_stock_warnings / api_query_inventory_batches 了解库存与预警，分析需要盘点的门店与重点商品。"
          (some (
            "api_query_stock_warnings" ∷ "api_query_inventory_batches" ∷ "api_query_inventory"
            ∷ []))
          (some 3))
        none "check")
      ∷ (agent_node "check" "创建盘点"
          (config "你是盘点执行 Agent。调用 stockCheck 创建盘点单（先 confirm=false 预览，确认后 confirm=true 执行）。"
            (some ("stockCheck" ∷ [])) (some 3))
          (some "库存盘点影响账面库存，需人工确认") "summarize")
      ∷ (agent_node "summarize" "差异总结" (config "你是盘点总结 Agent。汇总盘点结果与差异处理建议，用简洁中文向用户说明。" none none)
          none "end")
      ∷ end_node
      ∷ [];
}

abbrev pub builtin_graphs : List (String × GraphDefinition)
builtin_graphs =
    ("sale_create_graph", sale_create_graph)
    ∷ ("purchase_plan_graph", purchase_plan_graph)
    ∷ ("marketing_create_graph", marketing_create_graph)
    ∷ ("stock_check_graph", stock_check_graph)
    ∷ []

abbrev pub legal_tool_categories : List String
legal_tool_categories =
    "order" ∷ "inventory" ∷ "product" ∷ "customer" ∷ "purchase" ∷ "delivery" ∷ "finance" ∷ "report"
    ∷ "marketing" ∷ "platform" ∷ "system" ∷ "utility" ∷ []

unfoldable pub get_graph : String → Option GraphDefinition
get_graph id = lookup id builtin_graphs

unfoldable pub list_graphs : List GraphDefinition
list_graphs = map (λ (entry : String × GraphDefinition). entry.1) builtin_graphs

abbrev declared : Option (List String) → List String
declared none = []
declared (some cs) = cs

abbrev is_illegal : String → Bool
is_illegal c = not (any (λ l. l == c) legal_tool_categories)

-- The graphs and the illegal categories of them that the start warns of.
unfoldable pub on_module_init : List GraphDefinition → List (String × String)
on_module_init [] = []
on_module_init (graph ∷ graphs) =
    map (λ c. (graph.id, c)) (filter is_illegal (declared graph.categories))
    ++ on_module_init graphs
