-- ===== src/Api/Calls.antt =====
-- What the endpoint functions of client/data/api-client.ts share, which are in the children: each
-- makes one request and ends as its answer says. A call whose value the source drops keeps it here.
pub mod Accounts
pub mod Strategies
pub mod Admin
pub mod Prediction
use Prim.Native.String.{◌++◌}
use finance_next.Base.{
  String, Bool, true, false, Option, none, some, List, [], ◌∷◌, if◌then◌else◌, ◌==◌, string_key,
}
use finance_next.Json.{Json, object, end}
use finance_next.Api.{
  Init, Request, Response, Host, Outcome, threw, network_failure, api_url, merged, parsed_json,
  json_or_throw,
}
use finance_next.Api.Auth.{bare}

-- URLSearchParams as a text, encodeURIComponent, String on numbers, and the truth of a number. A
-- date is given by its ISO text.
pub record Encoder (N : Type 0) : Type 0 where
  pub form : List (String × String) → String
  pub component : String → String
  pub show : N → String
  pub truthy : N → Bool

-- The request that a call makes, and how the call ends.
pub record Exchange (N : Type 0) : Type 0 where
  pub request : Request N
  pub outcome : Outcome N (Json N)

-- `if (v) params.set(k, v)`, in front of what is set after it.
abbrev pub set_if : String → Option String → List (String × String) → List (String × String)
set_if k none ps = ps
set_if k (some v) ps = if v == "" then ps else (k, v) ∷ ps

-- A date is an object, so that it is set whenever it is given.
abbrev pub set_date : String → Option String → List (String × String) → List (String × String)
set_date k none ps = ps
set_date k (some iso) ps = (k, iso) ∷ ps

abbrev pub set_flag : String → Option Bool → List (String × String) → List (String × String)
set_flag k none ps = ps
set_flag k (some b) ps = (k, (if b then "true" else "false")) ∷ ps

abbrev pub join_commas : List String → String
join_commas [] = ""
join_commas (s ∷ []) = s
join_commas (s ∷ ss) = s ++ "," ++ join_commas ss

abbrev pub set_symbols : Option (List String) → List (String × String) → List (String × String)
set_symbols none ps = ps
set_symbols (some []) ps = ps
set_symbols (some (s ∷ ss)) ps = ("symbols", join_commas (s ∷ ss)) ∷ ps

abbrev pub given_text : Option String → String
given_text none = ""
given_text (some s) = s

module _ {N : Type 0} where
  -- `jsonOrThrow(await apiFetch(parseUrl(path), init))`
  abbrev pub exchange : Host N → String → Init N → Exchange N
  exchange host path init = record {
    request = merged host (api_url host path) init;
    outcome = json_or_throw host (host.gateway (merged host (api_url host path) init));
  }

  -- `(await apiFetch(parseUrl(path), init)).json()`
  abbrev pub json_of : Host N → Option Response → Outcome N (Json N)
  json_of host none = record { events = []; result = threw network_failure }
  json_of host (some res) = record { events = []; result = parsed_json host res }

  abbrev pub unchecked : Host N → String → Init N → Exchange N
  unchecked host path init = record {
    request = merged host (api_url host path) init;
    outcome = json_of host (host.gateway (merged host (api_url host path) init));
  }

  -- `{ cache: "no-store" }`
  abbrev pub fresh : Init N
  fresh = record bare { cache = some "no-store" }

  abbrev pub with_headers : String → Init N
  with_headers method = record bare {
    method = some method;
    headers = some (("Content-Type", "application/json") ∷ []);
  }

  -- `body ?? {}`
  abbrev pub given_or : Option (Json N) → Json N
  given_or none = object end
  given_or (some body) = body

  module _ (enc : Encoder N) where
    abbrev pub set_number : String → Option N → List (String × String) → List (String × String)
    set_number k none ps = ps
    set_number k (some n) ps = if enc.truthy n then (k, enc.show n) ∷ ps else ps

    -- `params.toString() ? "?" + params.toString() : ""`
    abbrev pub query : List (String × String) → String
    query ps = if enc.form ps == "" then "" else "?" ++ enc.form ps

    abbrev pub by_strategy : String → String
    by_strategy id = if id == "" then "" else "?strategyId=" ++ enc.component id
