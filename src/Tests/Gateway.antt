-- ===== src/Tests/Gateway.antt =====
-- Tests of the endpoint functions and the gateway's routes (client/data/api-client.ts).
use finance_next.Base.{ℕ, true, ◌≡◌, refl, none, some, [], ◌∷◌, All, nat_key, string_key}
use finance_next.Json.{object, end}
use finance_next.Api.{Host, Response, merged, api_url}
use finance_next.Api.Calls.{Encoder}
use finance_next.Api.Calls.Accounts.{get_balances}
use finance_next.Api.Gateway.{split, find_routes, fitting}
use finance_next.Api.Gateway.Fitting.{FitsOnly}
use finance_next.Api.Gateway.Table.{Inputs, HasSegments, all_calls}
use finance_next.Api.Gateway.Contract.{all_calls-FitsOnly}

abbrev refusal : Response
refusal = record {
  status = 401;
  status_text = "Unauthorized";
  url = "/api/v1/option";
  body_text = "{}";
}

abbrev gateway_host : Host ℕ
gateway_host = record {
  is_browser = true;
  base = "http://localhost:3001/api";
  stored_user = none;
  cookies = none;
  dispatches = true;
  parse = λ s. some (object end);
  gateway = λ req. some refusal;
}

abbrev encoder : Encoder ℕ
encoder = record { form = λ ps. "a=b"; component = λ s. s; show = λ n. "7"; truthy = λ n. true }

abbrev inputs : Inputs ℕ
inputs = record {
  id = "x1";
  input = object end;
  exchange_id = "x1";
  symbol = "x1";
  timeframe = "x1";
  start = "x1";
  end_time = "x1";
  of_strategy = some "y";
  limit = 7;
  on_exchange = some "y";
  on_symbol = some "y";
  contract = "x1";
  source = "x1";
  code = "x1";
  from_time = some "y";
  to_time = some "y";
  chain = "x1";
  metric = "x1";
  symbols = some ("BTC" ∷ []);
  since = some "y";
  option = object end;
  strategy_id = "x1";
  body = object end;
  risk = object end;
  patch = object end;
  status = some "y";
  options = none;
  study_id = "x1";
  token = "x1";
  reason = "x1";
  limits = object end;
  run_id = "x1";
  action_id = "x1";
  actor = some "y";
  resource_type = some "y";
  at_most = some 3;
  amount_usdc = 7;
  category = some "y";
  active = some true;
  offset = some 3;
  token_id = "x1";
  market_id = "x1";
}

inputs-HasSegments : HasSegments inputs
inputs-HasSegments = record {
  id = refl;
  strategy_id = refl;
  study_id = refl;
  run_id = refl;
  action_id = refl;
}

url_test :
    (get_balances gateway_host "64ab").request.url
    ≡ "http://localhost:3001/api/v1/accounts/64ab/balances"
unfolding get_balances merged api_url
url_test = refl

-- A path with a slash too many at its front fits its route too; one whose id has a slash fits none.
double_slash_test :
    fitting gateway_host (
      merged gateway_host
        (api_url gateway_host "/v1/news?limit=5")
        (record { method = none; headers = none; body = none; cache = none; credentials = none }))
    ≡ "data_explorer.getNews" ∷ []
unfolding fitting merged api_url split find_routes
double_slash_test = refl

no_route_test : fitting gateway_host (get_balances gateway_host "a/b").request ≡ []
unfolding fitting get_balances merged api_url split find_routes
no_route_test = refl

all_calls-FitsOnly_example : All (FitsOnly gateway_host) (all_calls encoder gateway_host inputs)
all_calls-FitsOnly_example = all_calls-FitsOnly encoder gateway_host inputs inputs-HasSegments
