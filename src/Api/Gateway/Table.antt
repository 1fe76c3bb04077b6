-- ===== src/Api/Gateway/Table.antt =====
-- The endpoint functions of client/data/api-client.ts with their inputs, each beside the handler of
-- the gateway that it is meant for.
use finance_next.Base.{String, Bool, Option, List, [], ◌∷◌, ◌++◌, true, ◌≡◌}
use finance_next.Json.{Json}
use finance_next.Api.{Host}
use finance_next.Api.Calls.{Encoder, Exchange}
use finance_next.Api.Calls.Accounts.{
  list_accounts, get_account, create_account, delete_account, get_balances, get_positions,
  get_ohlcv, list_backtests, get_backtest, create_backtest, get_equity_curve, get_trades,
  get_exchange_meta, get_portfolio_summary, get_equities_ohlcv, get_futures_ohlcv,
  get_macro_indicators, get_onchain_metrics, get_news, get_dashboard_summary,
}
use finance_next.Api.Calls.Strategies.{
  get_options, create_option, get_strategies, get_strategy, get_strategy_performance, delete_option,
  get_orders, set_live, set_risk, update_option, submit_order, list_recommendations,
  get_recommendation, approve_recommendation, reject_recommendation, start_optimization,
  get_optimization, list_optimizations,
}
use finance_next.Api.Calls.Admin.{
  request_mainnet_token, confirm_mainnet_token, get_mainnet_status, get_system_state, halt_trading,
  resume_trading, get_portfolio_limits, set_portfolio_limits, get_admin_ai_config,
  update_admin_ai_config, test_ai_connection, get_admin_ai_prompts, get_ai_goal_provider_status,
  analyze_ai_goal, list_ai_goal_runs, get_ai_goal_run, update_ai_goal_run_action, list_audit,
  get_settings_system_info,
}
use finance_next.Api.Calls.Prediction.{
  list_wallets, get_wallet, create_wallet, delete_wallet, get_wallet_balance, get_wallet_positions,
  approve_wallet, list_prediction_markets, get_prediction_market, get_prediction_quotes,
  get_prediction_trades, list_prediction_strategies, get_prediction_strategy,
  create_prediction_strategy, toggle_prediction_live, list_prediction_orders,
}
use finance_next.Api.Gateway.Paths.{is_segment}

-- The inputs of all calls, by their names in the source where these agree.
pub record Inputs (N : Type 0) : Type 0 where
  pub id : String
  pub input : Json N
  pub exchange_id : String
  pub symbol : String
  pub timeframe : String
  pub start : String
  pub end_time : String
  pub of_strategy : Option String
  pub limit : N
  pub on_exchange : Option String
  pub on_symbol : Option String
  pub contract : String
  pub source : String
  pub code : String
  pub from_time : Option String
  pub to_time : Option String
  pub chain : String
  pub metric : String
  pub symbols : Option (List String)
  pub since : Option String
  pub option : Json N
  pub strategy_id : String
  pub body : Json N
  pub risk : Json N
  pub patch : Json N
  pub status : Option String
  pub options : Option (Json N)
  pub study_id : String
  pub token : String
  pub reason : String
  pub limits : Json N
  pub run_id : String
  pub action_id : String
  pub actor : Option String
  pub resource_type : Option String
  pub at_most : Option N
  pub amount_usdc : N
  pub category : Option String
  pub active : Option Bool
  pub offset : Option N
  pub token_id : String
  pub market_id : String

-- The ids that stand in paths.
pub record HasSegments {N : Type 0} (i : Inputs N) : Type 0 where
  pub id : is_segment i.id ≡ true
  pub strategy_id : is_segment i.strategy_id ≡ true
  pub study_id : is_segment i.study_id ≡ true
  pub run_id : is_segment i.run_id ≡ true
  pub action_id : is_segment i.action_id ≡ true

module _ {N : Type 0} (enc : Encoder N) (host : Host N) (i : Inputs N) where
  abbrev pub account_calls : List (Exchange N × String)
  account_calls =
      (list_accounts host, "account.list")
      ∷ (get_account host i.id, "account.findOne")
      ∷ (create_account host i.input, "account.create")
      ∷ (delete_account host i.id, "account.remove")
      ∷ (get_balances host i.id, "account.balances")
      ∷ (get_positions host i.id, "account.positions")
      ∷ (
        get_ohlcv enc host i.exchange_id i.symbol i.timeframe i.start i.end_time,
        "market.getOhlcv",
      )
      ∷ (list_backtests enc host i.of_strategy, "backtest.list")
      ∷ (get_backtest host i.id, "backtest.findOne")
      ∷ (create_backtest host i.input, "backtest.create")
      ∷ (get_equity_curve enc host i.id i.limit, "backtest.equity")
      ∷ (get_trades host i.id, "backtest.trades")
      ∷ (get_exchange_meta enc host i.on_exchange i.on_symbol, "exchange_meta.list")
      ∷ (get_portfolio_summary host, "portfolio.summary")
      ∷ (
        get_equities_ohlcv enc host i.exchange_id i.symbol i.timeframe i.start i.end_time,
        "data_explorer.getOhlcv",
      )
      ∷ (
        get_futures_ohlcv enc host i.exchange_id i.contract i.timeframe i.start i.end_time,
        "data_explorer.getOhlcv",
      )
      ∷ (
        get_macro_indicators enc host i.source i.code i.from_time i.to_time,
        "data_explorer.getMacro",
      )
      ∷ (
        get_onchain_metrics enc host i.chain i.metric i.from_time i.to_time,
        "data_explorer.getOnchain",
      )
      ∷ (get_news enc host i.symbols i.since i.limit, "data_explorer.getNews")
      ∷ (get_dashboard_summary host, "dashboard.summary")
      ∷ []

  abbrev pub strategy_calls : List (Exchange N × String)
  strategy_calls =
      (get_options host, "option.list")
      ∷ (create_option host i.option, "option.create")
      ∷ (get_strategies host, "option.list")
      ∷ (get_strategy host i.id, "option.findOne")
      ∷ (get_strategy_performance host i.id, "dashboard.performance")
      ∷ (delete_option host i.id, "option.remove")
      ∷ (get_orders enc host i.strategy_id i.limit, "strategy.listOrders")
      ∷ (set_live host i.strategy_id i.body, "strategy.setLive")
      ∷ (set_risk host i.strategy_id i.risk, "option.update")
      ∷ (update_option host i.strategy_id i.patch, "option.update")
      ∷ (submit_order host i.strategy_id i.body, "strategy.submitOrder")
      ∷ (list_recommendations enc host i.status i.of_strategy, "recommendation.list")
      ∷ (get_recommendation host i.id, "recommendation.findOne")
      ∷ (approve_recommendation host i.id, "recommendation.approve")
      ∷ (reject_recommendation host i.id, "recommendation.reject")
      ∷ (start_optimization host i.strategy_id i.options, "optimization.startOptimization")
      ∷ (get_optimization host i.study_id, "optimization.findOne")
      ∷ (list_optimizations enc host i.of_strategy, "optimization.list")
      ∷ []

  abbrev pub admin_calls : List (Exchange N × String)
  admin_calls =
      (request_mainnet_token host, "strategy.requestMainnetToken")
      ∷ (confirm_mainnet_token host i.token, "strategy.confirmMainnetToken")
      ∷ (get_mainnet_status host, "strategy.mainnetStatus")
      ∷ (get_system_state host, "admin.systemState")
      ∷ (halt_trading host i.reason, "admin.halt")
      ∷ (resume_trading host, "admin.resume")
      ∷ (get_portfolio_limits host, "admin.getPortfolioLimits")
      ∷ (set_portfolio_limits host i.limits, "admin.setPortfolioLimits")
      ∷ (get_admin_ai_config host, "admin.getAIConfig")
      ∷ (update_admin_ai_config host i.patch, "admin.putAIConfig")
      ∷ (test_ai_connection host i.body, "admin.testAIConnection")
      ∷ (get_admin_ai_prompts host, "admin.getAIPrompts")
      ∷ (get_ai_goal_provider_status host, "ai_goal.providerStatus")
      ∷ (analyze_ai_goal host i.input, "ai_goal.analyze")
      ∷ (list_ai_goal_runs enc host i.limit, "ai_goal.listRuns")
      ∷ (get_ai_goal_run host i.id, "ai_goal.findRun")
      ∷ (update_ai_goal_run_action host i.run_id i.action_id i.input, "ai_goal.patchRunAction")
      ∷ (list_audit enc host i.actor i.resource_type i.since i.at_most, "admin.listAudit")
      ∷ (get_settings_system_info host, "settings.SystemInfo")
      ∷ []

  abbrev pub prediction_calls : List (Exchange N × String)
  prediction_calls =
      (list_wallets host, "wallet.list")
      ∷ (get_wallet host i.id, "wallet.findOne")
      ∷ (create_wallet host i.input, "wallet.create")
      ∷ (delete_wallet host i.id, "wallet.remove")
      ∷ (get_wallet_balance host i.id, "wallet.balance")
      ∷ (get_wallet_positions host i.id, "wallet.positions")
      ∷ (approve_wallet host i.id i.amount_usdc, "wallet.approve")
      ∷ (
        list_prediction_markets enc host i.category i.active i.at_most i.offset,
        "prediction.listMarkets",
      )
      ∷ (get_prediction_market host i.id, "prediction.getMarket")
      ∷ (get_prediction_quotes enc host i.token_id i.from_time i.to_time, "prediction.getQuotes")
      ∷ (get_prediction_trades enc host i.market_id i.limit, "prediction.getTrades")
      ∷ (list_prediction_strategies host, "prediction_strategy.list")
      ∷ (get_prediction_strategy host i.id, "prediction_strategy.get")
      ∷ (create_prediction_strategy host i.input, "prediction_strategy.create")
      ∷ (toggle_prediction_live host i.id i.body, "prediction_strategy.toggleLive")
      ∷ (list_prediction_orders enc host i.id i.limit, "prediction_strategy.listOrders")
      ∷ []

  abbrev pub all_calls : List (Exchange N × String)
  all_calls = account_calls ++ (strategy_calls ++ (admin_calls ++ prediction_calls))
