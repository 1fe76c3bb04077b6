-- ===== src/Api/Calls/Accounts.antt =====
-- The calls of client/data/api-client.ts for accounts, market data and backtests.
use Prim.Native.String.{◌++◌}
use finance_next.Base.{String, Option, some, List, [], ◌∷◌}
use finance_next.Json.{Json}
use finance_next.Api.{Host}
use finance_next.Api.Auth.{with_body, bare}
use finance_next.Api.Calls.{
  Encoder, Exchange, exchange, fresh, query, by_strategy, given_text, set_if, set_date, set_symbols,
}

module _ {N : Type 0} where
  unfoldable pub list_accounts : Host N → Exchange N
  list_accounts host = exchange host "v1/accounts" fresh

  unfoldable pub get_account : Host N → String → Exchange N
  get_account host id = exchange host ("v1/accounts/" ++ id) fresh

  unfoldable pub create_account : Host N → Json N → Exchange N
  create_account host input = exchange host "v1/accounts" (with_body "POST" input)

  unfoldable pub delete_account : Host N → String → Exchange N
  delete_account host id =
      exchange host ("v1/accounts/" ++ id) (record bare { method = some "DELETE" })

  unfoldable pub get_balances : Host N → String → Exchange N
  get_balances host id = exchange host ("v1/accounts/" ++ id ++ "/balances") fresh

  unfoldable pub get_positions : Host N → String → Exchange N
  get_positions host id = exchange host ("v1/accounts/" ++ id ++ "/positions") fresh

  unfoldable pub get_ohlcv :
      Encoder N → Host N → String → String → String → String → String → Exchange N
  get_ohlcv enc host exchange_id symbol timeframe start end_time =
      exchange host
        ("v1/market/ohlcv?"
          ++ enc.form (
              ("exchange", exchange_id)
              ∷ ("symbol", symbol)
              ∷ ("timeframe", timeframe)
              ∷ ("start", start)
              ∷ ("end", end_time)
              ∷ []))
        fresh

  unfoldable pub list_backtests : Encoder N → Host N → Option String → Exchange N
  list_backtests enc host strategy_id =
      exchange host ("v1/backtests" ++ by_strategy enc (given_text strategy_id)) fresh

  unfoldable pub get_backtest : Host N → String → Exchange N
  get_backtest host id = exchange host ("v1/backtests/" ++ id) fresh

  unfoldable pub create_backtest : Host N → Json N → Exchange N
  create_backtest host input = exchange host "v1/backtests" (with_body "POST" input)

  unfoldable pub get_equity_curve : Encoder N → Host N → String → N → Exchange N
  get_equity_curve enc host id limit =
      exchange host ("v1/backtests/" ++ id ++ "/equity?limit=" ++ enc.show limit) fresh

  unfoldable pub get_trades : Host N → String → Exchange N
  get_trades host id = exchange host ("v1/backtests/" ++ id ++ "/trades") fresh

  unfoldable pub get_exchange_meta : Encoder N → Host N → Option String → Option String → Exchange N
  get_exchange_meta enc host exchange_id symbol =
      exchange host
        ("v1/exchange/meta"
          ++ query enc (set_if "exchange" exchange_id (set_if "symbol" symbol [])))
        fresh

  unfoldable pub get_portfolio_summary : Host N → Exchange N
  get_portfolio_summary host = exchange host "v1/portfolio/summary" fresh

  unfoldable pub get_equities_ohlcv :
      Encoder N → Host N → String → String → String → String → String → Exchange N
  get_equities_ohlcv enc host exchange_id symbol timeframe start end_time =
      exchange host
        ("v1/equities/ohlcv?"
          ++ enc.form (
              ("exchange", exchange_id)
              ∷ ("symbol", symbol)
              ∷ ("timeframe", timeframe)
              ∷ ("start", start)
              ∷ ("end", end_time)
              ∷ []))
        fresh

  unfoldable pub get_futures_ohlcv :
      Encoder N → Host N → String → String → String → String → String → Exchange N
  get_futures_ohlcv enc host exchange_id contract timeframe start end_time =
      exchange host
        ("v1/futures/ohlcv?"
          ++ enc.form (
              ("exchange", exchange_id)
              ∷ ("contract", contract)
              ∷ ("timeframe", timeframe)
              ∷ ("start", start)
              ∷ ("end", end_time)
              ∷ []))
        fresh

  unfoldable pub get_macro_indicators :
      Encoder N → Host N → String → String → Option String → Option String → Exchange N
  get_macro_indicators enc host source code start end_time =
      exchange host
        ("v1/macro/indicators?"
          ++ enc.form (
              ("source", source)
              ∷ ("code", code)
              ∷ set_date "start" start (set_date "end" end_time [])))
        fresh

  unfoldable pub get_onchain_metrics :
      Encoder N → Host N → String → String → Option String → Option String → Exchange N
  get_onchain_metrics enc host chain metric start end_time =
      exchange host
        ("v1/onchain/metrics?"
          ++ enc.form (
              ("chain", chain)
              ∷ ("metric", metric)
              ∷ set_date "start" start (set_date "end" end_time [])))
        fresh

  unfoldable pub get_news :
      Encoder N → Host N → Option (List String) → Option String → N → Exchange N
  get_news enc host symbols since limit =
      exchange host
        ("v1/news?"
          ++ enc.form (("limit", enc.show limit) ∷ set_symbols symbols (set_date "since" since [])))
        fresh

  unfoldable pub get_dashboard_summary : Host N → Exchange N
  get_dashboard_summary host = exchange host "v1/dashboard/summary" fresh
