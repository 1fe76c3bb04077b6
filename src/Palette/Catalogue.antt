-- ===== src/Palette/Catalogue.antt =====
-- The entries of the command palette: client/components/command-palette/items.ts and
-- client/data/use-palette-items.ts.
use Prim.Native.String.{◌++◌}
use finance_next.Base.{
  String, Bool, true, false, ◌≡◌, refl, ◌∙◌, Option, none, some, List, [], ◌∷◌, ◌++◌ as append,
  if◌then◌else◌, lookup, keys, add_all, map, string_key,
}
use finance_next.Recent.{RecentResource}
use finance_next.Palette.{PaletteItem, grouped}
use finance_next.Palette.Groups.{grouped_lem}

pub record StaticPaletteItem : Type 0 where
  pub id : String
  pub label : String
  pub search_extra : Option String
  pub group : String
  pub target : String
  pub danger : Bool
  pub hint : Option String

abbrev static_item :
    String → String → Option String → String → String → Bool → Option String → StaticPaletteItem
static_item id label search_extra group target danger hint = record {
  id = id;
  label = label;
  search_extra = search_extra;
  group = group;
  target = target;
  danger = danger;
  hint = hint;
}

abbrev pub page_items : List StaticPaletteItem
page_items =
    static_item "nav:dashboard" "仪表盘" (some "dashboard home overview") "导航" "/dashboard" false none
    ∷ static_item "nav:ai-money" "AI 赚钱" (some "goal agent money strategy ai 目标 策略 舆情 人性") "导航"
        "/ai-money" false none
    ∷ static_item "nav:accounts" "账户列表" (some "accounts 交易所 账号") "导航" "/accounts" false none
    ∷ static_item "nav:accounts:new" "新建账户" (some "new account 添加") "导航" "/accounts/new" false none
    ∷ static_item "nav:wallets" "钱包列表" (some "wallets polygon polymarket") "导航" "/wallets" false
        none
    ∷ static_item "nav:wallets:new" "新建钱包" (some "new wallet 添加 钱包") "导航" "/wallets/new" false none
    ∷ static_item "nav:portfolio" "持仓汇总" (some "portfolio 持仓 余额 总市值") "导航" "/portfolio" false none
    ∷ static_item "nav:strategies" "策略列表" (some "strategies 策略") "导航" "/strategies" false none
    ∷ static_item "nav:strategies:new" "新建策略" (some "new strategy 添加 创建") "导航" "/option" false none
    ∷ static_item "nav:recommendations" "AI 推荐" (some "recommendations ai 推荐 优化") "导航"
        "/recommendations" false none
    ∷ static_item "nav:backtests" "回测列表" (some "backtests 回测") "导航" "/backtests" false none
    ∷ static_item "nav:backtests:new" "新建回测" (some "new backtest 添加 创建") "导航" "/backtests/new" false
        none
    ∷ static_item "nav:markets" "行情" (some "markets ohlcv k线 chart") "导航" "/markets" false none
    ∷ static_item "nav:data-explorer" "数据浏览" (some "data explorer 数据") "导航" "/data-explorer" false
        none
    ∷ static_item "nav:data-explorer:equities" "数据 · 股票" (some "equities stocks 股票") "导航"
        "/data-explorer/equities" false none
    ∷ static_item "nav:data-explorer:futures" "数据 · 期货" (some "futures 期货") "导航"
        "/data-explorer/futures" false none
    ∷ static_item "nav:data-explorer:macro" "数据 · 宏观" (some "macro 宏观 fred cpi") "导航"
        "/data-explorer/macro" false none
    ∷ static_item "nav:data-explorer:onchain" "数据 · 链上" (some "onchain 链上 chain") "导航"
        "/data-explorer/onchain" false none
    ∷ static_item "nav:data-explorer:news" "数据 · 新闻" (some "news 新闻 资讯") "导航" "/data-explorer/news"
        false none
    ∷ static_item "nav:prediction:markets" "预测市场" (some "prediction markets polymarket 预测") "导航"
        "/prediction/markets" false none
    ∷ static_item "nav:prediction:strategies" "预测策略" (some "prediction strategies polymarket 预测策略")
        "导航" "/prediction/strategies" false none
    ∷ static_item "nav:settings" "设置" (some "settings admin 管理 配置") "导航" "/settings/account" false
        none
    ∷ static_item "nav:settings:account" "设置 · 个人" (some "account profile 个人 资料") "导航"
        "/settings/account" false none
    ∷ static_item "nav:settings:system" "设置 · 系统" (some "system kill switch halt 系统 停机 限额") "导航"
        "/settings/system" false none
    ∷ static_item "nav:settings:ai" "设置 · AI" (some "ai settings claude 优化 预算") "导航" "/settings/ai"
        false none
    ∷ static_item "nav:settings:data-sources" "设置 · 数据源" (some "data sources 数据源 ingest") "导航"
        "/settings/data-sources" false none
    ∷ static_item "nav:settings:trading" "设置 · 交易" (some "trading mainnet token gate 交易 主网") "导航"
        "/settings/trading" false none
    ∷ static_item "nav:settings:observability" "设置 · 监控" (some "observability metrics audit 监控 追踪")
        "导航" "/settings/observability" false none
    ∷ static_item "nav:settings:deployment" "设置 · 部署" (some "deployment version backup 部署 版本") "导航"
        "/settings/deployment" false none
    ∷ static_item "nav:admin:audit" "审计日志" (some "audit 审计 日志 log") "导航" "/admin/audit" false none
    ∷ []

abbrev pub action_items : List StaticPaletteItem
action_items =
    static_item "act:halt" "紧急停机交易" (some "halt kill switch 停机 急停 emergency") "操作"
      "/settings/system?action=halt" true (some "需确认")
    ∷ static_item "act:resume" "恢复交易" (some "resume 恢复 重启 unhalt") "操作"
        "/settings/system?action=resume" false (some "需确认")
    ∷ static_item "act:new-strategy" "新建策略" (some "new strategy 创建 添加") "操作" "/option" false none
    ∷ static_item "act:new-account" "新建账户" (some "new account 创建 添加") "操作" "/accounts/new" false
        none
    ∷ static_item "act:new-wallet" "新建钱包" (some "new wallet 创建 添加") "操作" "/wallets/new" false none
    ∷ static_item "act:ingest-markets" "抓取行情" (some "ingest ohlcv 抓取 行情 fetch") "操作"
        "/markets?action=ingest" false none
    ∷ static_item "act:optimize" "触发 AI 优化" (some "optimize ai tune 优化") "操作"
        "/strategies?action=optimize-prompt" false none
    ∷ static_item "act:ai-goal" "让 AI 生成策略蓝图" (some "goal agent money strategy ai 目标 赚钱 策略 舆情") "操作"
        "/ai-money" false none
    ∷ []

abbrev pub kind_labels : List (String × String)
kind_labels =
    ("strategy", "策略")
    ∷ ("account", "账户")
    ∷ ("wallet", "钱包")
    ∷ ("backtest", "回测")
    ∷ ("market", "行情")
    ∷ ("recommendation", "推荐")
    ∷ []

abbrev pub or_string : Option String → String → String
or_string none b = b
or_string (some a) b = a

abbrev pub static_to_palette : StaticPaletteItem → PaletteItem
static_to_palette item = record {
  id = item.id;
  label = if item.danger then "⚠ " ++ item.label else item.label;
  search = some (item.label ++ " " ++ or_string item.search_extra "");
  group = item.group;
}

module _ {N : Type 0} where
  abbrev pub recent_item : RecentResource N → PaletteItem
  recent_item r = record {
    id = "recent:" ++ r.kind ++ ":" ++ r.id;
    label = or_string (lookup r.kind kind_labels) r.kind ++ " · " ++ r.label;
    search = some (r.label ++ " " ++ r.kind ++ " " ++ r.id);
    group = "最近访问";
  }

  abbrev pub palette_items : List (RecentResource N) → List PaletteItem
  palette_items recent =
      append (map recent_item recent)
        (append (map static_to_palette action_items) (map static_to_palette page_items))

  abbrev pub recent_group : List (RecentResource N) → List String
  recent_group [] = []
  recent_group (r ∷ rs) = "最近访问" ∷ []

  more_recent :
      (rs : List (RecentResource N))
      → add_all (map (λ i. i.group) (palette_items rs)) ("最近访问" ∷ []) ≡ "最近访问" ∷ "操作" ∷ "导航" ∷ []
  more_recent [] = refl
  more_recent (r ∷ rs) = more_recent rs

  -- Of all entries of the palette, the groups are the recent resources, if there are any, then the
  -- actions, then the pages.
  palette_groups :
      (recent : List (RecentResource N))
      → keys (grouped (palette_items recent)) ≡ append (recent_group recent) ("操作" ∷ "导航" ∷ [])
  palette_groups [] = (grouped_lem (palette_items []) "").1
  palette_groups (r ∷ rs) = (grouped_lem (palette_items (r ∷ rs)) "").1 ∙ more_recent rs
