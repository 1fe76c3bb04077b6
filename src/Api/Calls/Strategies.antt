-- ===== src/Api/Calls/Strategies.antt =====
-- The calls of client/data/api-client.ts for strategies, recommendations and optimizations.
use Prim.Native.String.{◌++◌}
use finance_next.Base.{String, Option, some, []}
use finance_next.Json.{Json, object, member, end}
use finance_next.Api.{Host}
use finance_next.Api.Auth.{with_body, bare}
use finance_next.Api.Calls.{
  Encoder, Exchange, exchange, unchecked, fresh, with_headers, given_or, query, by_strategy,
  given_text, set_if,
}

module _ {N : Type 0} where
  -- The answer is parsed whatever its status.
  unfoldable pub get_options : Host N → Exchange N
  get_options host = unchecked host "v1/option" fresh

  unfoldable pub create_option : Host N → Json N → Exchange N
  create_option host option = exchange host "v1/option" (with_body "POST" option)

  unfoldable pub get_strategies : Host N → Exchange N
  get_strategies host = exchange host "v1/option" fresh

  unfoldable pub get_strategy : Host N → String → Exchange N
  get_strategy host id = exchange host ("v1/option/" ++ id) fresh

  unfoldable pub get_strategy_performance : Host N → String → Exchange N
  get_strategy_performance host id = exchange host ("v1/strategies/" ++ id ++ "/performance") fresh

  unfoldable pub delete_option : Host N → String → Exchange N
  delete_option host id =
      exchange host ("v1/option/" ++ id) (record bare { method = some "DELETE" })

  unfoldable pub get_orders : Encoder N → Host N → String → N → Exchange N
  get_orders enc host strategy_id limit =
      exchange host ("v1/strategies/" ++ strategy_id ++ "/orders?limit=" ++ enc.show limit) fresh

  unfoldable pub set_live : Host N → String → Json N → Exchange N
  set_live host strategy_id body =
      exchange host ("v1/strategies/" ++ strategy_id ++ "/live") (with_body "POST" body)

  unfoldable pub set_risk : Host N → String → Json N → Exchange N
  set_risk host strategy_id risk =
      exchange host ("v1/option/" ++ strategy_id)
        (with_body "PUT" (object (member "risk" risk end)))

  unfoldable pub update_option : Host N → String → Json N → Exchange N
  update_option host strategy_id patch =
      exchange host ("v1/option/" ++ strategy_id) (with_body "PUT" patch)

  unfoldable pub submit_order : Host N → String → Json N → Exchange N
  submit_order host strategy_id body =
      exchange host ("v1/strategies/" ++ strategy_id ++ "/live/submit-order")
        (with_body "POST" body)

  unfoldable pub list_recommendations :
      Encoder N → Host N → Option String → Option String → Exchange N
  list_recommendations enc host status strategy_id =
      exchange host
        ("v1/recommendations"
          ++ query enc (set_if "status" status (set_if "strategyId" strategy_id [])))
        fresh

  unfoldable pub get_recommendation : Host N → String → Exchange N
  get_recommendation host id = exchange host ("v1/recommendations/" ++ id) fresh

  unfoldable pub approve_recommendation : Host N → String → Exchange N
  approve_recommendation host id =
      exchange host ("v1/recommendations/" ++ id ++ "/approve") (with_headers "POST")

  unfoldable pub reject_recommendation : Host N → String → Exchange N
  reject_recommendation host id =
      exchange host ("v1/recommendations/" ++ id ++ "/reject") (with_headers "POST")

  unfoldable pub start_optimization : Host N → String → Option (Json N) → Exchange N
  start_optimization host strategy_id body =
      exchange host ("v1/strategies/" ++ strategy_id ++ "/optimize")
        (with_body "POST" (given_or body))

  unfoldable pub get_optimization : Host N → String → Exchange N
  get_optimization host study_id = exchange host ("v1/optimizations/" ++ study_id) fresh

  unfoldable pub list_optimizations : Encoder N → Host N → Option String → Exchange N
  list_optimizations enc host strategy_id =
      exchange host ("v1/optimizations" ++ by_strategy enc (given_text strategy_id)) fresh
