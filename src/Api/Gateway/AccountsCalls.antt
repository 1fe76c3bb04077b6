-- ===== src/Api/Gateway/AccountsCalls.antt =====
-- The routes of the calls for accounts, markets, backtests and the other data sources (client/data/api-client.ts).
use finance_next.Base.{refl, some, All}
use finance_next.Api.{Host}
use finance_next.Api.Auth.{with_body, bare}
use finance_next.Api.Calls.{Encoder, fresh}
use finance_next.Api.Calls.Accounts.{
  list_accounts, get_account, create_account, delete_account, get_balances, get_positions,
  get_ohlcv, list_backtests, get_backtest, create_backtest, get_equity_curve, get_trades,
  get_exchange_meta, get_portfolio_summary, get_equities_ohlcv, get_futures_ohlcv,
  get_macro_indicators, get_onchain_metrics, get_news, get_dashboard_summary,
}
use finance_next.Api.Gateway.{split, find_routes}
use finance_next.Api.Gateway.Paths.{IsPiece-id_then, IsPiece-id}
use finance_next.Api.Gateway.Fitting.{
  FitsOnly, ◌▸◌, literal, below_literal, fitting-query, fitting-path, fitting-asking, fitting-limit,
  query-IsQuery, by_strategy-IsQuery,
}
use finance_next.Api.Gateway.Table.{Inputs, HasSegments, account_calls}

pub account_calls-FitsOnly :
    {N : Type 0} (enc : Encoder N) (host : Host N) (i : Inputs N)
    → HasSegments i
    → All (FitsOnly host) (account_calls enc host i)
unfolding list_accounts get_account create_account delete_account get_balances get_positions
    get_ohlcv list_backtests get_backtest create_backtest get_equity_curve get_trades
    get_exchange_meta get_portfolio_summary get_equities_ohlcv get_futures_ohlcv
    get_macro_indicators get_onchain_metrics get_news get_dashboard_summary split find_routes
account_calls-FitsOnly enc host i h =
    fitting-path host fresh (literal "v1/accounts" refl)
    ▸ fitting-path host fresh (below_literal "v1/accounts/" (IsPiece-id i.id h.id) refl)
    ▸ fitting-path host (with_body "POST" i.input) (literal "v1/accounts" refl)
    ▸ fitting-path host (record bare { method = some "DELETE" })
        (below_literal "v1/accounts/" (IsPiece-id i.id h.id) refl)
    ▸ fitting-path host fresh
        (below_literal "v1/accounts/" (IsPiece-id_then i.id h.id (literal "/balances" refl)) refl)
    ▸ fitting-path host fresh
        (below_literal "v1/accounts/" (IsPiece-id_then i.id h.id (literal "/positions" refl)) refl)
    ▸ fitting-asking host fresh "v1/market/ohlcv" _ refl
    ▸ fitting-query host fresh _ (literal "v1/backtests" refl) (by_strategy-IsQuery enc _)
    ▸ fitting-path host fresh (below_literal "v1/backtests/" (IsPiece-id i.id h.id) refl)
    ▸ fitting-path host (with_body "POST" i.input) (literal "v1/backtests" refl)
    ▸ fitting-limit host fresh "v1/backtests/" i.id "/equity" _
        (below_literal "v1/backtests/" (IsPiece-id_then i.id h.id (literal "/equity" refl)) refl)
    ▸ fitting-path host fresh
        (below_literal "v1/backtests/" (IsPiece-id_then i.id h.id (literal "/trades" refl)) refl)
    ▸ fitting-query host fresh _ (literal "v1/exchange/meta" refl) (query-IsQuery enc _)
    ▸ fitting-path host fresh (literal "v1/portfolio/summary" refl)
    ▸ fitting-asking host fresh "v1/equities/ohlcv" _ refl
    ▸ fitting-asking host fresh "v1/futures/ohlcv" _ refl
    ▸ fitting-asking host fresh "v1/macro/indicators" _ refl
    ▸ fitting-asking host fresh "v1/onchain/metrics" _ refl
    ▸ fitting-asking host fresh "v1/news" _ refl
    ▸ fitting-path host fresh (literal "v1/dashboard/summary" refl)
    ▸ tt
