-- ===== src/Api.antt =====
-- Requests to the gateway: apiFetch and jsonOrThrow of client/data/api-client.ts, with the URLs of
-- client/data/api-base.mjs. One call is one request; what the gateway answers is an argument.
pub mod Auth
pub mod Calls
pub mod Gateway
pub mod Unchecked
pub mod Headers
pub mod Answers
pub mod Session
use Prim.Native.Char.{code}
use Prim.Native.String.{◌++◌}
use finance_next.Base.{
  ℕ, String, Bool, true, false, not, ◌&&◌, Option, none, some, List, [], ◌∷◌, if◌then◌else◌, ◌==◌,
  leb, insert, string_key, nat_key,
}
use finance_next.Json.{Json, Members, null, text, array, object, at_key}

-- `headers` of a request, as the object that the code builds.
abbrev pub Headers : Type 0
Headers = List (String × String)

-- The second argument of `apiFetch`: the fields that are given. A body is the value that
-- JSON.stringify prints.
pub record Init (N : Type 0) : Type 0 where
  pub method : Option String
  pub headers : Option Headers
  pub body : Option (Json N)
  pub cache : Option String
  pub credentials : Option String

-- What `fetch` is called with.
pub record Request (N : Type 0) : Type 0 where
  pub url : String
  pub init : Init N

pub record Response : Type 0 where
  pub status : ℕ
  pub status_text : String
  pub url : String
  pub body_text : String

-- Where the code runs: in a browser or not, the base URL, the user id in localStorage (`none`
-- outside if the access throws), the cookies of the incoming request on the server (`none` if they
-- cannot be had), whether CustomEvent works, JSON.parse (`none` where it throws), and the gateway
-- behind `fetch` (`none` where that rejects).
pub record Host (N : Type 0) : Type 0 where
  pub is_browser : Bool
  pub base : String
  pub stored_user : Option (Option String)
  pub cookies : Option (List (String × String))
  pub dispatches : Bool
  pub parse : String → Option (Json N)
  pub gateway : Request N → Option Response

pub record AuthEvent : Type 0 where
  pub status : ℕ
  pub url : String

-- What a call can throw.
pub data Failure (N : Type 0) : Type 0 where
  network_failure bad_json : Failure N
  api_error : ℕ → Json N → String → Failure N
  auth_error : ℕ → Json N → Failure N

pub data Result (N A : Type 0) : Type 0 where
  returned : A → Result N A
  threw : Failure N → Result N A

-- The events that a call dispatches, and how it ends.
pub record Outcome (N A : Type 0) : Type 0 where
  pub events : List AuthEvent
  pub result : Result N A

-- `replace("//", "/")`: the first two slashes in a row become one.
abbrev pub replace_slashes : String → String
replace_slashes String.[] = ""
replace_slashes (String.◌∷◌ c String.[]) = String.◌∷◌ c ""
replace_slashes (String.◌∷◌ c (String.◌∷◌ d s)) =
    if code c == 47 && code d == 47
    then String.◌∷◌ c s
    else String.◌∷◌ c (replace_slashes (String.◌∷◌ d s))

-- `{ ...a, ...b }`
abbrev pub spread : Headers → Headers → Headers
spread hs [] = hs
spread hs ((k, v) ∷ more) = spread (insert k v hs) more

abbrev pub or_headers : Option Headers → Headers
or_headers none = []
or_headers (some hs) = hs

abbrev pub given {ℓ} : {A : Type ℓ} → Option A → A → Option A
given none a = some a
given (some b) a = some b

abbrev pub user_header : Option (Option String) → Headers
user_header (some (some v)) = if v == "" then [] else ("X-User-Id", v) ∷ []
user_header _ = []

abbrev pub join_cookies : List (String × String) → String
join_cookies [] = ""
join_cookies ((name, value) ∷ []) = name ++ "=" ++ value
join_cookies ((name, value) ∷ more) = name ++ "=" ++ value ++ "; " ++ join_cookies more

abbrev pub cookie_header : Option (List (String × String)) → Headers
cookie_header none = []
cookie_header (some cs) = if join_cookies cs == "" then [] else ("Cookie", join_cookies cs) ∷ []

-- 200 to 299
abbrev pub is_ok : Response → Bool
is_ok res = leb 200 res.status && leb res.status 299

module _ {N : Type 0} where
  unfoldable pub api_url : Host N → String → String
  api_url host path = host.base ++ replace_slashes ("/" ++ path)

  unfoldable pub user_id_header : Host N → Headers
  user_id_header host = if host.is_browser then user_header host.stored_user else []

  unfoldable pub server_cookie_header : Host N → Headers
  server_cookie_header host = if host.is_browser then [] else cookie_header host.cookies

  -- The request that `apiFetch` makes.
  unfoldable pub merged : Host N → String → Init N → Request N
  unfolding user_id_header server_cookie_header
  merged host url init = record {
    url = url;
    init = record init {
      credentials = given init.credentials "include";
      headers = some (
          spread (spread (user_id_header host) (server_cookie_header host))
            (or_headers init.headers));
    };
  }

  abbrev pub api_fetch : Host N → String → Init N → Option Response
  api_fetch host url init = host.gateway (merged host url init)

  -- `a ?? b`, where a member that is missing is undefined.
  abbrev pub or_json : Option (Json N) → Json N → Json N
  or_json none b = b
  or_json (some null) b = b
  or_json (some a) b = a

  -- `parsed.message ?? parsed.error ?? text`
  abbrev pub said : Json N → String → Json N
  said parsed raw =
      or_json (at_key "message" (some parsed)) (or_json (at_key "error" (some parsed)) (text raw))

  abbrev pub error_message : Option (Json N) → String → Json N
  error_message (some (object ms)) raw = said (object ms) raw
  error_message (some (array vs)) raw = said (array vs) raw
  error_message _ raw = text raw

  unfoldable pub parsed_json : Host N → Response → Result N (Json N)
  parsed_json host res = elim (host.parse res.body_text) [
    | none ↦ threw bad_json
    | some v ↦ returned v
  ]

  abbrev pub auth_events : Host N → Response → List AuthEvent
  auth_events host res =
      if res.status == 401 && host.is_browser && host.dispatches
      then record { status = res.status; url = res.url } ∷ []
      else []

  unfoldable pub json_or_throw : Host N → Option Response → Outcome N (Json N)
  unfolding parsed_json
  json_or_throw host none = record { events = []; result = threw network_failure }
  json_or_throw host (some res) =
      if not (is_ok res)
      then record {
        events = auth_events host res;
        result = threw (
            api_error res.status (error_message (host.parse res.body_text) res.body_text)
              res.body_text);
      }
      else record { events = []; result = parsed_json host res }
