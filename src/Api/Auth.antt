-- ===== src/Api/Auth.antt =====
-- The calls of client/data/auth-client.ts.
use finance_next.Base.{
  String, Bool, true, false, not, ◌&&◌, ◌||◌, Option, none, some, [], ◌∷◌, if◌then◌else◌, ◌==◌,
  string_key, nat_key,
}
use finance_next.Json.{Json, null, text, array, object}
use finance_next.Api.{
  Init, Response, Host, Result, returned, threw, network_failure, auth_error, api_url, api_fetch,
  said, is_ok, parsed_json,
}

module _ {N : Type 0} where
  -- An array or object with neither member gives the text, any other body the text or the status text.
  abbrev pub read_err : Option (Json N) → Response → Json N
  read_err (some (object ms)) res = said (object ms) res.body_text
  read_err (some (array vs)) res = said (array vs) res.body_text
  read_err _ res = text (if res.body_text == "" then res.status_text else res.body_text)

  abbrev pub auth_throw : {A : Type 0} → Host N → Response → Result N A
  auth_throw host res = threw (auth_error res.status (read_err (host.parse res.body_text) res))

  -- The end of the calls that give back what the gateway sent.
  unfoldable pub answer : Host N → Option Response → Result N (Json N)
  unfolding parsed_json
  answer host none = threw network_failure
  answer host (some res) = if not (is_ok res) then auth_throw host res else parsed_json host res

  -- The end of the calls that give back nothing.
  unfoldable pub done : Host N → Option Response → Result N (Unit {0})
  done host none = threw network_failure
  done host (some res) =
      if not (is_ok res) && not (res.status == 204) then auth_throw host res else returned tt

  abbrev pub with_body : String → Json N → Init N
  with_body method input = record {
    method = some method;
    headers = some (("Content-Type", "application/json") ∷ []);
    body = some input;
    cache = none;
    credentials = none;
  }

  abbrev pub bare : Init N
  bare = record { method = none; headers = none; body = none; cache = none; credentials = none }

  unfoldable pub register : Host N → Json N → Result N (Json N)
  unfolding answer api_url
  register host input =
      answer host (api_fetch host (api_url host "v1/auth/register") (with_body "POST" input))

  unfoldable pub login : Host N → Json N → Result N (Json N)
  unfolding answer api_url
  login host input =
      answer host (api_fetch host (api_url host "v1/auth/login") (with_body "POST" input))

  unfoldable pub logout : Host N → Result N (Unit {0})
  unfolding done api_url
  logout host =
      done host
        (api_fetch host (api_url host "v1/auth/logout") (record bare { method = some "POST" }))

  abbrev pub is_null : Json N → Bool
  is_null null = true
  is_null _ = false

  -- A body that is the JSON null is `null` as well.
  abbrev pub known_user : Result N (Json N) → Result N (Option (Json N))
  known_user (returned user) = returned (if is_null user then none else some user)
  known_user (threw e) = threw e

  -- `null` for 401 and 403 too.
  abbrev pub me_answer : Host N → Option Response → Result N (Option (Json N))
  me_answer host none = threw network_failure
  me_answer host (some res) =
      if res.status == 401 || res.status == 403
      then returned none
      else known_user (answer host (some res))

  unfoldable pub get_me : Host N → Result N (Option (Json N))
  unfolding api_url
  get_me host =
      me_answer host
        (api_fetch host (api_url host "v1/auth/me") (record bare { cache = some "no-store" }))

  unfoldable pub invite : Host N → Json N → Result N (Json N)
  unfolding answer api_url
  invite host input =
      answer host (api_fetch host (api_url host "v1/auth/invite") (with_body "POST" input))

  unfoldable pub accept_invite : Host N → Json N → Result N (Json N)
  unfolding answer api_url
  accept_invite host input =
      answer host (api_fetch host (api_url host "v1/auth/accept-invite") (with_body "POST" input))

  unfoldable pub change_password : Host N → Json N → Result N (Unit {0})
  unfolding done api_url
  change_password host input =
      done host (api_fetch host (api_url host "v1/auth/change-password") (with_body "POST" input))

  unfoldable pub delete_self : Host N → Json N → Result N (Unit {0})
  unfolding done api_url
  delete_self host input =
      done host (api_fetch host (api_url host "v1/auth/me") (with_body "DELETE" input))
