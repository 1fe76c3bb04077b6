-- ===== src/Api/Session.antt =====
-- getMeServer of client/data/auth-server.ts, and who it takes for signed in.
use Prim.Native.String.{◌++◌}
use finance_next.Base.{
  String, false, not, ◌≡◌, ◌↔◌, Option, none, some, List, [], ◌∷◌, if◌then◌else◌, ◌==◌, lookup,
  string_key, arith,
}
use finance_next.Json.{Json}
use finance_next.Api.{Request, Response, Host, api_url, is_ok}
use finance_next.Api.Auth.{is_null}
use finance_next.Api.Answers.{Gave}

-- `c.get(COOKIE_NAME)?.value ?? ""`, or the end with null where the cookies cannot be had.
abbrev pub auth_token : Option (List (String × String)) → String
auth_token none = ""
auth_token (some cs) = value_or_empty (lookup "auth_token" cs)
  where
    value_or_empty : Option String → String
    value_or_empty none = ""
    value_or_empty (some value) = value

module _ {N : Type 0} where
  abbrev pub session_request : Host N → String → Request N
  session_request host token = record {
    url = api_url host "v1/auth/me";
    init = record {
      method = some "GET";
      headers = some (("Cookie", "auth_token=" ++ token) ∷ []);
      body = none;
      cache = some "no-store";
      credentials = none;
    };
  }

  -- A body that is the JSON null is no user to the callers.
  abbrev pub unless_null : Option (Json N) → Option (Json N)
  unless_null none = none
  unless_null (some v) = if is_null v then none else some v

  abbrev pub session_answer : Host N → Option Response → Option (Json N)
  session_answer host none = none
  session_answer host (some res) =
      if not (is_ok res) then none else unless_null (host.parse res.body_text)

  unfoldable pub get_me_server : Host N → Option (Json N)
  get_me_server host =
      let token : String = auth_token host.cookies in
      if token == "" then none else session_answer host (host.gateway (session_request host token))

  unless_null_iff :
      (r : Option (Json N)) (v : Json N)
      → (unless_null r ≡ some v) ↔ ((r ≡ some v) × (is_null v ≡ false))
  unless_null_iff none v = ground arith
  unless_null_iff (some w) v = ground arith

  session_answer_iff :
      (host : Host N) (res : Option Response) (v : Json N)
      → (session_answer host res ≡ some v) ↔ (Gave host res v × (is_null v ≡ false))
  session_answer_iff host none v = ground arith
  session_answer_iff host (some res) v =
      ground (arith, unless_null_iff (host.parse res.body_text) v)

  -- The server takes a request for signed in as v exactly if it has a token, the gateway answered the
  -- token with a status of 200 to 299 and a body that parses to v, and v is not null.
  get_me_server_iff :
      (host : Host N) (v : Json N)
      → (get_me_server host ≡ some v) ↔ (
          ((auth_token host.cookies == "") ≡ false)
          × Gave host (host.gateway (session_request host (auth_token host.cookies))) v
          × (is_null v ≡ false))
  unfolding get_me_server
  get_me_server_iff host v = ground (
    arith,
    session_answer_iff host (host.gateway (session_request host (auth_token host.cookies))) v,
  )
