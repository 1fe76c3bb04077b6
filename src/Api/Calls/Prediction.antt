-- ===== src/Api/Calls/Prediction.antt =====
-- The calls of client/data/api-client.ts for wallets and prediction markets.
use Prim.Native.String.{◌++◌}
use finance_next.Base.{String, Option, some, [], ◌∷◌, Bool}
use finance_next.Json.{Json, number, object, member, end}
use finance_next.Api.{Host}
use finance_next.Api.Auth.{with_body, bare}
use finance_next.Api.Calls.{
  Encoder, Exchange, exchange, fresh, query, set_if, set_date, set_number, set_flag,
}

module _ {N : Type 0} where
  unfoldable pub list_wallets : Host N → Exchange N
  list_wallets host = exchange host "v1/wallets" fresh

  unfoldable pub get_wallet : Host N → String → Exchange N
  get_wallet host id = exchange host ("v1/wallets/" ++ id) fresh

  unfoldable pub create_wallet : Host N → Json N → Exchange N
  create_wallet host input = exchange host "v1/wallets" (with_body "POST" input)

  unfoldable pub delete_wallet : Host N → String → Exchange N
  delete_wallet host id =
      exchange host ("v1/wallets/" ++ id) (record bare { method = some "DELETE" })

  unfoldable pub get_wallet_balance : Host N → String → Exchange N
  get_wallet_balance host id = exchange host ("v1/wallets/" ++ id ++ "/balance") fresh

  unfoldable pub get_wallet_positions : Host N → String → Exchange N
  get_wallet_positions host id = exchange host ("v1/wallets/" ++ id ++ "/positions") fresh

  unfoldable pub approve_wallet : Host N → String → N → Exchange N
  approve_wallet host id amount_usdc =
      exchange host ("v1/wallets/" ++ id ++ "/approve")
        (with_body "POST" (object (member "amountUsdc" (number amount_usdc) end)))

  unfoldable pub list_prediction_markets :
      Encoder N → Host N → Option String → Option Bool → Option N → Option N → Exchange N
  list_prediction_markets enc host category active limit offset =
      exchange host
        ("v1/prediction/markets"
          ++ query enc (
              set_if "category" category (
                set_flag "active" active
                  (set_number enc "limit" limit (set_number enc "offset" offset [])))))
        fresh

  unfoldable pub get_prediction_market : Host N → String → Exchange N
  get_prediction_market host id = exchange host ("v1/prediction/markets/" ++ id) fresh

  unfoldable pub get_prediction_quotes :
      Encoder N → Host N → String → Option String → Option String → Exchange N
  get_prediction_quotes enc host token_id start end_time =
      exchange host
        ("v1/prediction/quotes?"
          ++ enc.form
              (("token_id", token_id) ∷ set_date "start" start (set_date "end" end_time [])))
        fresh

  unfoldable pub get_prediction_trades : Encoder N → Host N → String → N → Exchange N
  get_prediction_trades enc host market_id limit =
      exchange host
        ("v1/prediction/trades?"
          ++ enc.form (("market_id", market_id) ∷ ("limit", enc.show limit) ∷ []))
        fresh

  unfoldable pub list_prediction_strategies : Host N → Exchange N
  list_prediction_strategies host = exchange host "v1/prediction/strategies" fresh

  unfoldable pub get_prediction_strategy : Host N → String → Exchange N
  get_prediction_strategy host id = exchange host ("v1/prediction/strategies/" ++ id) fresh

  unfoldable pub create_prediction_strategy : Host N → Json N → Exchange N
  create_prediction_strategy host input =
      exchange host "v1/prediction/strategies" (with_body "POST" input)

  unfoldable pub toggle_prediction_live : Host N → String → Json N → Exchange N
  toggle_prediction_live host id body =
      exchange host ("v1/prediction/strategies/" ++ id ++ "/live") (with_body "POST" body)

  unfoldable pub list_prediction_orders : Encoder N → Host N → String → N → Exchange N
  list_prediction_orders enc host id limit =
      exchange host ("v1/prediction/strategies/" ++ id ++ "/orders?limit=" ++ enc.show limit) fresh
