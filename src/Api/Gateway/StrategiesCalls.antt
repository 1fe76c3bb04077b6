-- ===== src/Api/Gateway/StrategiesCalls.antt =====
-- The routes of the calls for strategies, recommendations and optimizations (client/data/api-client.ts).
use finance_next.Base.{refl, some, All}
use finance_next.Json.{object, member, end}
use finance_next.Api.{Host}
use finance_next.Api.Auth.{with_body, bare}
use finance_next.Api.Calls.{Encoder, fresh, with_headers, given_or}
use finance_next.Api.Calls.Strategies.{
  get_options, create_option, get_strategies, get_strategy, get_strategy_performance, delete_option,
  get_orders, set_live, set_risk, update_option, submit_order, list_recommendations,
  get_recommendation, approve_recommendation, reject_recommendation, start_optimization,
  get_optimization, list_optimizations,
}
use finance_next.Api.Gateway.{split, find_routes}
use finance_next.Api.Gateway.Paths.{IsPiece-id_then, IsPiece-id}
use finance_next.Api.Gateway.Fitting.{
  FitsOnly, ◌▸◌, literal, below_literal, fitting-query, fitting-path, fitting-limit, query-IsQuery,
  by_strategy-IsQuery,
}
use finance_next.Api.Gateway.Table.{Inputs, HasSegments, strategy_calls}

pub strategy_calls-FitsOnly :
    {N : Type 0} (enc : Encoder N) (host : Host N) (i : Inputs N)
    → HasSegments i
    → All (FitsOnly host) (strategy_calls enc host i)
unfolding get_options create_option get_strategies get_strategy get_strategy_performance
    delete_option get_orders set_live set_risk update_option submit_order list_recommendations
    get_recommendation approve_recommendation reject_recommendation start_optimization
    get_optimization list_optimizations split find_routes
strategy_calls-FitsOnly enc host i h =
    fitting-path host fresh (literal "v1/option" refl)
    ▸ fitting-path host (with_body "POST" i.option) (literal "v1/option" refl)
    ▸ fitting-path host fresh (literal "v1/option" refl)
    ▸ fitting-path host fresh (below_literal "v1/option/" (IsPiece-id i.id h.id) refl)
    ▸ fitting-path host fresh (
        below_literal "v1/strategies/" (IsPiece-id_then i.id h.id (literal "/performance" refl))
          refl)
    ▸ fitting-path host (record bare { method = some "DELETE" })
        (below_literal "v1/option/" (IsPiece-id i.id h.id) refl)
    ▸ fitting-limit host fresh "v1/strategies/" i.strategy_id "/orders" _ (
        below_literal "v1/strategies/"
          (IsPiece-id_then i.strategy_id h.strategy_id (literal "/orders" refl)) refl)
    ▸ fitting-path host (with_body "POST" i.body) (
        below_literal "v1/strategies/"
          (IsPiece-id_then i.strategy_id h.strategy_id (literal "/live" refl)) refl)
    ▸ fitting-path host (with_body "PUT" (object (member "risk" i.risk end)))
        (below_literal "v1/option/" (IsPiece-id i.strategy_id h.strategy_id) refl)
    ▸ fitting-path host (with_body "PUT" i.patch)
        (below_literal "v1/option/" (IsPiece-id i.strategy_id h.strategy_id) refl)
    ▸ fitting-path host (with_body "POST" i.body) (
        below_literal "v1/strategies/"
          (IsPiece-id_then i.strategy_id h.strategy_id (literal "/live/submit-order" refl)) refl)
    ▸ fitting-query host fresh _ (literal "v1/recommendations" refl) (query-IsQuery enc _)
    ▸ fitting-path host fresh (below_literal "v1/recommendations/" (IsPiece-id i.id h.id) refl)
    ▸ fitting-path host (with_headers "POST") (
        below_literal "v1/recommendations/" (IsPiece-id_then i.id h.id (literal "/approve" refl))
          refl)
    ▸ fitting-path host (with_headers "POST") (
        below_literal "v1/recommendations/" (IsPiece-id_then i.id h.id (literal "/reject" refl))
          refl)
    ▸ fitting-path host (with_body "POST" (given_or i.options)) (
        below_literal "v1/strategies/"
          (IsPiece-id_then i.strategy_id h.strategy_id (literal "/optimize" refl)) refl)
    ▸ fitting-path host fresh
        (below_literal "v1/optimizations/" (IsPiece-id i.study_id h.study_id) refl)
    ▸ fitting-query host fresh _ (literal "v1/optimizations" refl) (by_strategy-IsQuery enc _)
    ▸ tt
