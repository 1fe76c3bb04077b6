-- ===== src/Api/Gateway.antt =====
-- The routes that the gateway registers (gateway/internal/http/router.go and the handlers beside it)
-- under /api/v1, with every store that a handler asks for present, and the routes that a request fits.
-- A handler is named by its file and its method there. The routing library itself is not modelled: what
-- it means that a request fits a route is said here, and where a request fits one route alone, it is
-- left to the library to call its handler. Middleware, CORS among it, is not modelled either.
pub mod Paths
pub mod Fitting
pub mod Contract
pub mod Table
pub mod PredictionCalls
pub mod AdminCalls
pub mod StrategiesCalls
pub mod AccountsCalls
use Prim.Native.Char.{code}
use Prim.Native.String.{◌++◌}
use finance_next.Base.{
  String, Bool, true, false, ◌&&◌, ◌||◌, Option, none, some, List, [], ◌∷◌, ◌++◌ as append,
  if◌then◌else◌, ◌==◌, string_key, nat_key,
}
use finance_next.Api.{Request, Host}

pub record Route : Type 0 where
  pub method : String
  pub pattern : String
  pub handler : String

abbrev route : String → String → String → Route
route method pattern handler = record { method = method; pattern = pattern; handler = handler }

abbrev pub option_routes : List Route
option_routes =
    route "GET" "/option" "option.list"
    ∷ route "GET" "/option/:id" "option.findOne"
    ∷ route "POST" "/option" "option.create"
    ∷ route "PUT" "/option/:id" "option.update"
    ∷ route "DELETE" "/option/:id" "option.remove"
    ∷ []

abbrev pub account_routes : List Route
account_routes =
    route "GET" "/accounts" "account.list"
    ∷ route "POST" "/accounts" "account.create"
    ∷ route "GET" "/accounts/:id" "account.findOne"
    ∷ route "DELETE" "/accounts/:id" "account.remove"
    ∷ route "GET" "/accounts/:id/balances" "account.balances"
    ∷ route "GET" "/accounts/:id/positions" "account.positions"
    ∷ []

abbrev pub market_routes : List Route
market_routes =
    route "GET" "/market/ohlcv" "market.getOhlcv"
    ∷ route "POST" "/market/ingest" "market.postIngest"
    ∷ []

abbrev pub backtest_routes : List Route
backtest_routes =
    route "POST" "/backtests" "backtest.create"
    ∷ route "GET" "/backtests" "backtest.list"
    ∷ route "GET" "/backtests/:id" "backtest.findOne"
    ∷ route "GET" "/backtests/:id/equity" "backtest.equity"
    ∷ route "GET" "/backtests/:id/trades" "backtest.trades"
    ∷ []

abbrev pub strategy_routes : List Route
strategy_routes =
    route "GET" "/strategies/:id/orders" "strategy.listOrders"
    ∷ route "POST" "/strategies/:id/live" "strategy.setLive"
    ∷ route "POST" "/strategies/:id/live/submit-order" "strategy.submitOrder"
    ∷ route "POST" "/admin/mainnet/request-token" "strategy.requestMainnetToken"
    ∷ route "POST" "/admin/mainnet/confirm" "strategy.confirmMainnetToken"
    ∷ route "GET" "/admin/mainnet/status" "strategy.mainnetStatus"
    ∷ []

abbrev pub exchange_meta_routes : List Route
exchange_meta_routes = route "GET" "/exchange/meta" "exchange_meta.list" ∷ []

abbrev pub portfolio_routes : List Route
portfolio_routes = route "GET" "/portfolio/summary" "portfolio.summary" ∷ []

abbrev pub dashboard_routes : List Route
dashboard_routes =
    route "GET" "/dashboard/summary" "dashboard.summary"
    ∷ route "GET" "/strategies/:id/performance" "dashboard.performance"
    ∷ []

abbrev pub recommendation_routes : List Route
recommendation_routes =
    route "GET" "/recommendations" "recommendation.list"
    ∷ route "GET" "/recommendations/:id" "recommendation.findOne"
    ∷ route "POST" "/recommendations/:id/approve" "recommendation.approve"
    ∷ route "POST" "/recommendations/:id/reject" "recommendation.reject"
    ∷ []

abbrev pub optimization_routes : List Route
optimization_routes =
    route "POST" "/strategies/:id/optimize" "optimization.startOptimization"
    ∷ route "GET" "/optimizations" "optimization.list"
    ∷ route "GET" "/optimizations/:id" "optimization.findOne"
    ∷ []

abbrev pub admin_routes : List Route
admin_routes =
    route "POST" "/admin/halt" "admin.halt"
    ∷ route "POST" "/admin/resume" "admin.resume"
    ∷ route "GET" "/admin/system-state" "admin.systemState"
    ∷ route "PUT" "/admin/portfolio-limits" "admin.setPortfolioLimits"
    ∷ route "GET" "/admin/portfolio-limits" "admin.getPortfolioLimits"
    ∷ route "GET" "/admin/audit" "admin.listAudit"
    ∷ route "GET" "/admin/ai/config" "admin.getAIConfig"
    ∷ route "PUT" "/admin/ai/config" "admin.putAIConfig"
    ∷ route "GET" "/admin/ai/prompts" "admin.getAIPrompts"
    ∷ route "POST" "/admin/ai/test" "admin.testAIConnection"
    ∷ []

abbrev pub ai_goal_routes : List Route
ai_goal_routes =
    route "GET" "/ai/goals/provider-status" "ai_goal.providerStatus"
    ∷ route "POST" "/ai/goals/analyze" "ai_goal.analyze"
    ∷ route "GET" "/ai/goals/runs" "ai_goal.listRuns"
    ∷ route "GET" "/ai/goals/runs/:id" "ai_goal.findRun"
    ∷ route "PATCH" "/ai/goals/runs/:id/actions/:actionId" "ai_goal.patchRunAction"
    ∷ []

abbrev pub settings_routes : List Route
settings_routes = route "GET" "/settings/system-info" "settings.SystemInfo" ∷ []

abbrev pub data_explorer_routes : List Route
data_explorer_routes =
    route "GET" "/equities/ohlcv" "data_explorer.getOhlcv"
    ∷ route "GET" "/futures/ohlcv" "data_explorer.getOhlcv"
    ∷ route "GET" "/macro/indicators" "data_explorer.getMacro"
    ∷ route "GET" "/onchain/metrics" "data_explorer.getOnchain"
    ∷ route "GET" "/news" "data_explorer.getNews"
    ∷ route "POST" "/admin/ingest/equities" "data_explorer.adminIngest.equities"
    ∷ route "POST" "/admin/ingest/futures" "data_explorer.adminIngest.futures"
    ∷ route "POST" "/admin/ingest/macro" "data_explorer.adminIngest.macro"
    ∷ route "POST" "/admin/ingest/onchain" "data_explorer.adminIngest.onchain"
    ∷ route "POST" "/admin/ingest/news" "data_explorer.adminIngest.news"
    ∷ []

abbrev pub wallet_routes : List Route
wallet_routes =
    route "GET" "/wallets" "wallet.list"
    ∷ route "POST" "/wallets" "wallet.create"
    ∷ route "GET" "/wallets/:id" "wallet.findOne"
    ∷ route "DELETE" "/wallets/:id" "wallet.remove"
    ∷ route "GET" "/wallets/:id/balance" "wallet.balance"
    ∷ route "GET" "/wallets/:id/positions" "wallet.positions"
    ∷ route "POST" "/wallets/:id/approve" "wallet.approve"
    ∷ []

abbrev pub prediction_routes : List Route
prediction_routes =
    route "GET" "/prediction/markets" "prediction.listMarkets"
    ∷ route "GET" "/prediction/markets/:id" "prediction.getMarket"
    ∷ route "GET" "/prediction/quotes" "prediction.getQuotes"
    ∷ route "GET" "/prediction/trades" "prediction.getTrades"
    ∷ route "POST" "/admin/ingest/prediction" "prediction.adminIngest"
    ∷ []

abbrev pub prediction_strategy_routes : List Route
prediction_strategy_routes =
    route "GET" "/prediction/strategies" "prediction_strategy.list"
    ∷ route "POST" "/prediction/strategies" "prediction_strategy.create"
    ∷ route "GET" "/prediction/strategies/:id" "prediction_strategy.get"
    ∷ route "PUT" "/prediction/strategies/:id" "prediction_strategy.update"
    ∷ route "DELETE" "/prediction/strategies/:id" "prediction_strategy.remove"
    ∷ route "POST" "/prediction/strategies/:id/live" "prediction_strategy.toggleLive"
    ∷ route "GET" "/prediction/strategies/:id/orders" "prediction_strategy.listOrders"
    ∷ route "POST" "/prediction/strategies/:id/live/submit-order" "prediction_strategy.submitOrder"
    ∷ []

abbrev pub auth_routes : List Route
auth_routes =
    route "POST" "/auth/register" "auth.register"
    ∷ route "POST" "/auth/login" "auth.login"
    ∷ route "POST" "/auth/logout" "auth.logout"
    ∷ route "GET" "/auth/me" "auth.me"
    ∷ route "POST" "/auth/invite" "auth.invite"
    ∷ route "POST" "/auth/accept-invite" "auth.acceptInvite"
    ∷ route "POST" "/auth/change-password" "auth.changePassword"
    ∷ route "DELETE" "/auth/me" "auth.deleteSelf"
    ∷ []

abbrev pub admin_users_routes : List Route
admin_users_routes = route "POST" "/admin/users/claim-legacy" "admin_users.claimLegacy" ∷ []

abbrev pub gateway_routes : List Route
gateway_routes = append option_routes (
    append account_routes (
      append market_routes (
        append backtest_routes (
          append strategy_routes (
            append exchange_meta_routes (
              append portfolio_routes (
                append dashboard_routes (
                  append recommendation_routes (
                    append optimization_routes (
                      append admin_routes (
                        append ai_goal_routes (
                          append settings_routes (
                            append admin_users_routes (
                              append data_explorer_routes (
                                append wallet_routes (
                                  append prediction_routes (
                                    append prediction_strategy_routes (auth_routes))))))))))))))))))

-- The segments of a path.
abbrev pub on_first : (String → String) → List String → List String
on_first f [] = f "" ∷ []
on_first f (part ∷ parts) = f part ∷ parts

unfoldable pub split : String → List String
split String.[] = "" ∷ []
split (String.◌∷◌ c s) =
    let parts = split s in if code c == 47 then "" ∷ parts else on_first (String.◌∷◌ c) parts

-- A URL up to its query.
unfoldable pub cut_query : String → String
cut_query String.[] = ""
cut_query (String.◌∷◌ c s) =
    let kept = cut_query s in if code c == 63 then "" else String.◌∷◌ c kept

-- A segment of a pattern that begins with a colon takes any one segment of a path.
abbrev pub is_param : String → Bool
is_param String.[] = false
is_param (String.◌∷◌ c s) = code c == 58

abbrev pub fits : List String → List String → Bool
fits [] [] = true
fits (p ∷ ps) (q ∷ qs) = (is_param p || p == q) && fits ps qs
fits _ _ = false

-- The handlers of all routes of the method whose pattern fits.
unfoldable pub find_routes : String → List String → List Route → List String
unfolding split
find_routes method parts [] = []
find_routes method parts (r ∷ rs) =
    if r.method == method && fits (split r.pattern) parts
    then r.handler ∷ find_routes method parts rs
    else find_routes method parts rs

-- The group /v1 of the gateway, whose own routes begin with a slash.
abbrev pub in_group : String → List String → List String
in_group method (root ∷ group ∷ parts) =
    if root == "" && group == "v1" then find_routes method ("" ∷ parts) gateway_routes else []
in_group method _ = []

-- `fetch` takes GET where no method is given.
abbrev pub method_or_get : Option String → String
method_or_get none = "GET"
method_or_get (some method) = method

-- The rest of a URL below a base.
abbrev pub below : String → String → Option String
below String.[] url = some url
below (String.◌∷◌ c base) String.[] = none
below (String.◌∷◌ c base) (String.◌∷◌ d url) = if code c == code d then below base url else none

abbrev pub fitting_below : String → Option String → List String
fitting_below method none = []
fitting_below method (some rest) = in_group method (split (cut_query rest))

-- The handlers of the routes that a request fits, on a host whose base URL is that of the gateway's
-- /api.
unfoldable pub fitting : {N : Type 0} → Host N → Request N → List String
unfolding cut_query
fitting host req = fitting_below (method_or_get req.init.method) (below host.base req.url)
