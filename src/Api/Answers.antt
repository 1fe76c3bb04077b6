-- ===== src/Api/Answers.antt =====
-- How the calls of client/data/auth-client.ts end.
use finance_next.Base.{
  String, true, false, ◌||◌, ◌≡◌, refl, ◌↔◌, ◌⊎◌, Option, none, some, ◌==◌, nat_key, arith,
}
use finance_next.Json.{Json, null, boolean, number, text, array, object}
use finance_next.Api.{
  Init, Response, Host, Result, returned, threw, api_url, merged, is_ok, parsed_json,
}
use finance_next.Api.Auth.{
  answer, done, with_body, bare, register, login, logout, get_me, invite, accept_invite,
  change_password, delete_self, me_answer, is_null, known_user,
}

-- The gateway answered with a status of 200 to 299.
abbrev pub Accepted : Option Response → Type 0
Accepted none = ⊥
Accepted (some res) = is_ok res ≡ true

abbrev pub Refused : Option Response → Type 0
Refused none = ⊥
Refused (some res) = (res.status == 401 || res.status == 403) ≡ true

module _ {N : Type 0} where
  -- The gateway answered with a status of 200 to 299 and a body that parses to v.
  abbrev pub Gave : Host N → Option Response → Json N → Type 0
  Gave host none v = ⊥
  Gave host (some res) v = (is_ok res ≡ true) × (host.parse res.body_text ≡ some v)

  answer_iff :
      (host : Host N) (res : Option Response) (v : Json N)
      → (answer host res ≡ returned v) ↔ Gave host res v
  unfolding answer parsed_json
  answer_iff host none v = ground arith
  answer_iff host (some res) v = ground arith

  done_iff : (host : Host N) (res : Option Response) → (done host res ≡ returned tt) ↔ Accepted res
  unfolding done
  done_iff host none = ground arith
  done_iff host (some res) = ground arith

  -- What a call under the path asks the gateway.
  abbrev pub asked : Host N → String → Init N → Option Response
  asked host path init = host.gateway (merged host (api_url host path) init)

  -- Each of register, login, invite and accept-invite gives back v exactly if the gateway answered
  -- the POST of the input under its path with a status of 200 to 299 and a body that parses to v.
  user_calls_iff :
      (host : Host N) (input v : Json N)
      → ((register host input ≡ returned v)
          ↔ Gave host (asked host "v1/auth/register" (with_body "POST" input)) v)
        × ((login host input ≡ returned v)
            ↔ Gave host (asked host "v1/auth/login" (with_body "POST" input)) v)
        × ((invite host input ≡ returned v)
            ↔ Gave host (asked host "v1/auth/invite" (with_body "POST" input)) v)
        × ((accept_invite host input ≡ returned v)
            ↔ Gave host (asked host "v1/auth/accept-invite" (with_body "POST" input)) v)
  unfolding register login invite accept_invite
  user_calls_iff host input v =
      (answer_iff host _ v, answer_iff host _ v, answer_iff host _ v, answer_iff host _ v)

  -- Each of logout, change-password and the deletion of the account ends without an error exactly
  -- if the gateway answered its request with a status of 200 to 299.
  pub done_calls_iff :
      (host : Host N) (input : Json N)
      → ((logout host ≡ returned tt)
          ↔ Accepted (asked host "v1/auth/logout" (record bare { method = some "POST" })))
        × ((change_password host input ≡ returned tt)
            ↔ Accepted (asked host "v1/auth/change-password" (with_body "POST" input)))
        × ((delete_self host input ≡ returned tt)
            ↔ Accepted (asked host "v1/auth/me" (with_body "DELETE" input)))
  unfolding logout change_password delete_self
  done_calls_iff host input = (done_iff host _, done_iff host _, done_iff host _)

  is_null-eq : (v : Json N) → is_null v ≡ true → v ≡ null
  is_null-eq null h = refl
  is_null-eq (boolean b) h = cc
  is_null-eq (number n) h = cc
  is_null-eq (text t) h = cc
  is_null-eq (array vs) h = cc
  is_null-eq (object ms) h = cc

  known_none_iff : (r : Result N (Json N)) → (known_user r ≡ returned none) ↔ (r ≡ returned null)
  known_none_iff (returned v) = ground (arith, is_null-eq v)
  known_none_iff (threw e) = ground arith

  known_some_iff :
      (r : Result N (Json N)) (v : Json N)
      → (known_user r ≡ returned (some v)) ↔ ((r ≡ returned v) × (is_null v ≡ false))
  known_some_iff (returned w) v = ground arith
  known_some_iff (threw e) v = ground arith

  me_none_iff :
      (host : Host N) (res : Option Response)
      → (me_answer host res ≡ returned none) ↔ (Refused res ⊎ Gave host res null)
  me_none_iff host none = ground arith
  me_none_iff host (some res) =
      ground (arith, known_none_iff (answer host (some res)), answer_iff host (some res) null)

  me_some_iff :
      (host : Host N) (res : Option Response) (v : Json N)
      → (me_answer host res ≡ returned (some v)) ↔ (Gave host res v × (is_null v ≡ false))
  me_some_iff host none v = ground arith
  me_some_iff host (some res) v =
      ground (arith, known_some_iff (answer host (some res)) v, answer_iff host (some res) v)

  -- getMe says that nobody is signed in exactly if the gateway answered with 401 or 403, or with a
  -- status of 200 to 299 and the body null; and it gives v exactly if the answer has a status of 200
  -- to 299 and a body that parses to v, and v is not null.
  pub get_me_iff :
      (host : Host N) (v : Json N)
      → ((get_me host ≡ returned none) ↔ (
          Refused (asked host "v1/auth/me" (record bare { cache = some "no-store" }))
          ⊎ Gave host (asked host "v1/auth/me" (record bare { cache = some "no-store" })) null))
        × ((get_me host ≡ returned (some v)) ↔ (
            Gave host (asked host "v1/auth/me" (record bare { cache = some "no-store" })) v
            × (is_null v ≡ false)))
  unfolding get_me
  get_me_iff host v = (me_none_iff host _, me_some_iff host _ v)
