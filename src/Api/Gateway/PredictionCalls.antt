-- ===== src/Api/Gateway/PredictionCalls.antt =====
-- The routes of the calls for wallets and prediction markets (client/data/api-client.ts).
use finance_next.Base.{refl, some, All}
use finance_next.Json.{number, object, member, end}
use finance_next.Api.{Host}
use finance_next.Api.Auth.{with_body, bare}
use finance_next.Api.Calls.{Encoder, fresh}
use finance_next.Api.Calls.Prediction.{
  list_wallets, get_wallet, create_wallet, delete_wallet, get_wallet_balance, get_wallet_positions,
  approve_wallet, list_prediction_markets, get_prediction_market, get_prediction_quotes,
  get_prediction_trades, list_prediction_strategies, get_prediction_strategy,
  create_prediction_strategy, toggle_prediction_live, list_prediction_orders,
}
use finance_next.Api.Gateway.{split, find_routes}
use finance_next.Api.Gateway.Paths.{IsPiece-id_then, IsPiece-id}
use finance_next.Api.Gateway.Fitting.{
  FitsOnly, ◌▸◌, literal, below_literal, fitting-query, fitting-path, fitting-asking, fitting-limit,
  query-IsQuery,
}
use finance_next.Api.Gateway.Table.{Inputs, HasSegments, prediction_calls}

pub prediction_calls-FitsOnly :
    {N : Type 0} (enc : Encoder N) (host : Host N) (i : Inputs N)
    → HasSegments i
    → All (FitsOnly host) (prediction_calls enc host i)
unfolding list_wallets get_wallet create_wallet delete_wallet get_wallet_balance
    get_wallet_positions approve_wallet list_prediction_markets get_prediction_market
    get_prediction_quotes get_prediction_trades list_prediction_strategies get_prediction_strategy
    create_prediction_strategy toggle_prediction_live list_prediction_orders split find_routes
prediction_calls-FitsOnly enc host i h =
    fitting-path host fresh (literal "v1/wallets" refl)
    ▸ fitting-path host fresh (below_literal "v1/wallets/" (IsPiece-id i.id h.id) refl)
    ▸ fitting-path host (with_body "POST" i.input) (literal "v1/wallets" refl)
    ▸ fitting-path host (record bare { method = some "DELETE" })
        (below_literal "v1/wallets/" (IsPiece-id i.id h.id) refl)
    ▸ fitting-path host fresh
        (below_literal "v1/wallets/" (IsPiece-id_then i.id h.id (literal "/balance" refl)) refl)
    ▸ fitting-path host fresh
        (below_literal "v1/wallets/" (IsPiece-id_then i.id h.id (literal "/positions" refl)) refl)
    ▸ fitting-path host (with_body "POST" (object (member "amountUsdc" (number i.amount_usdc) end)))
        (below_literal "v1/wallets/" (IsPiece-id_then i.id h.id (literal "/approve" refl)) refl)
    ▸ fitting-query host fresh _ (literal "v1/prediction/markets" refl) (query-IsQuery enc _)
    ▸ fitting-path host fresh (below_literal "v1/prediction/markets/" (IsPiece-id i.id h.id) refl)
    ▸ fitting-asking host fresh "v1/prediction/quotes" _ refl
    ▸ fitting-asking host fresh "v1/prediction/trades" _ refl
    ▸ fitting-path host fresh (literal "v1/prediction/strategies" refl)
    ▸ fitting-path host fresh
        (below_literal "v1/prediction/strategies/" (IsPiece-id i.id h.id) refl)
    ▸ fitting-path host (with_body "POST" i.input) (literal "v1/prediction/strategies" refl)
    ▸ fitting-path host (with_body "POST" i.body) (
        below_literal "v1/prediction/strategies/" (IsPiece-id_then i.id h.id (literal "/live" refl))
          refl)
    ▸ fitting-limit host fresh "v1/prediction/strategies/" i.id "/orders" _ (
        below_literal "v1/prediction/strategies/"
          (IsPiece-id_then i.id h.id (literal "/orders" refl)) refl)
    ▸ tt
