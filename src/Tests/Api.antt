-- ===== src/Tests/Api.antt =====
-- Tests of the requests to the gateway (client/data/api-client.ts, client/data/auth-client.ts).
use finance_next.Base.{
  ℕ, String, true, false, ◌≡◌, ◌↔◌, ◌⊎◌, refl, Option, none, some, [], ◌∷◌, if◌then◌else◌, ◌==◌,
  nat_key, string_key, lookup,
}
use finance_next.Json.{Json, null, text, object, member, end}
use finance_next.Api.{
  Host, Response, returned, or_headers, given, user_header, cookie_header, merged, api_url,
}
use finance_next.Api.Auth.{answer, with_body, bare, login, get_me, is_null}
use finance_next.Api.Headers.{first_of, merged_lem}
use finance_next.Api.Session.{get_me_server}
use finance_next.Api.Answers.{Gave, Refused, asked, get_me_iff}

abbrev refusal : Response
refusal = record { status = 401; status_text = "Unauthorized"; url = "/api/v1/x"; body_text = "no" }

abbrev welcome : Response
welcome = record { status = 200; status_text = "OK"; url = "/api/v1/x"; body_text = "yes" }

-- A gateway that knows the POST requests alone.
abbrev replies : Option String → Option Response
replies none = some refusal
replies (some method) = some welcome

abbrev parses : String → Option (Json ℕ)
parses s = if s == "yes" then some (object (member "id" (text "u") end)) else none

abbrev host : Host ℕ
host = record {
  is_browser = true;
  base = "/api";
  stored_user = some (some "u");
  cookies = none;
  dispatches = true;
  parse = parses;
  gateway = λ req. replies req.init.method;
}

abbrev user : Json ℕ
user = object (member "id" (text "u") end)

url_test : api_url host "/v1/x" ≡ "/api/v1/x"
unfolding api_url
url_test = refl

login_test : login host (text "x") ≡ returned user
unfolding login merged
login_test = refl

get_me_test : get_me host ≡ returned none
unfolding get_me merged
get_me_test = refl

merged_lem_example :
    ((merged host "u" (with_body "POST" user)).init.method ≡ some "POST")
    × ((merged host "u" (with_body "POST" user)).init.body ≡ some user)
    × ((merged host "u" (with_body "POST" user)).init.cache ≡ none)
    × ((merged host "u" (with_body "POST" user)).init.credentials ≡ given none "include")
    × (lookup "X-User-Id" (or_headers (merged host "u" (with_body "POST" user)).init.headers)
        ≡ first_of (lookup "X-User-Id" (or_headers (with_body "POST" user).headers)) (
            if host.is_browser
            then lookup "X-User-Id" (user_header host.stored_user)
            else lookup "X-User-Id" (cookie_header host.cookies)))
merged_lem_example = merged_lem host "u" "X-User-Id" (with_body "POST" user) (refl, tt)

get_me_iff_example :
    ((get_me host ≡ returned none) ↔ (
      Refused (asked host "v1/auth/me" (record bare { cache = some "no-store" }))
      ⊎ Gave host (asked host "v1/auth/me" (record bare { cache = some "no-store" })) null))
    × ((get_me host ≡ returned (some user)) ↔ (
        Gave host (asked host "v1/auth/me" (record bare { cache = some "no-store" })) user
        × (is_null user ≡ false)))
get_me_iff_example = get_me_iff host user

-- A gateway that knows no user, and says so with 200 and null.
abbrev nobody : Host ℕ
nobody = record host { parse = λ s. some null; gateway = λ req. some welcome }

get_me-nobody_test : get_me nobody ≡ returned none
unfolding get_me merged answer
get_me-nobody_test = refl

abbrev server : Host ℕ
server = record host { is_browser = false; cookies = some (("auth_token", "t") ∷ []) }

get_me_server_test : get_me_server server ≡ some user
unfolding get_me_server
get_me_server_test = refl
