-- ===== src/Api/Unchecked.antt =====
-- getOptions of client/data/api-client.ts beside getStrategies, which asks for the same list.
use finance_next.Base.{false, ◌≡◌, refl, some, [], nat_key, arith}
use finance_next.Json.{Json}
use finance_next.Api.{
  Host, Response, returned, threw, api_error, is_ok, error_message, auth_events, parsed_json,
  json_or_throw,
}
use finance_next.Api.Calls.Strategies.{get_options, get_strategies}

parsed_some :
    {N : Type 0} (host : Host N) (res : Response) (v : Json N)
    → host.parse res.body_text ≡ some v
    → parsed_json host res ≡ returned v
unfolding parsed_json
parsed_some host res v p = ground arith

-- getOptions and getStrategies send the same request; where the gateway answers it with a status
-- outside 200 to 299 and a body that parses, getStrategies throws, but getOptions gives the body of
-- the error as if it were the list, and dispatches no event, also for 401.
get_options_unchecked :
    {N : Type 0} (host : Host N) (res : Response) (v : Json N)
    → host.gateway (get_options host).request ≡ some res
    → is_ok res ≡ false
    → host.parse res.body_text ≡ some v
    → ((get_options host).request ≡ (get_strategies host).request)
      × ((get_options host).outcome ≡ record { events = []; result = returned v })
      × ((get_strategies host).outcome ≡ record {
        events = auth_events host res;
        result = threw (api_error res.status (error_message (some v) res.body_text) res.body_text);
      })
unfolding get_options get_strategies json_or_throw
get_options_unchecked host res v g n p =
    (refl, rw (g, parsed_some host res v p) refl, rw (g, n, p) refl)
