-- ===== src/Api/Headers.antt =====
-- What apiFetch of client/data/api-client.ts sends.
use finance_next.Base.{
  String, ◌≡◌, refl, ap, ◌∙◌, inl, inr, Option, none, some, List, [], ◌∷◌, if◌then◌else◌, ◌==◌,
  lookup, insert, keys, IsNodup, lookup-insert, lookup_of_has-false, string_key, arith, Bool-cases,
  eq_of_same, sym,
}
use finance_next.Api.{
  Headers, Init, Host, spread, or_headers, given, user_header, cookie_header, merged,
  user_id_header, server_cookie_header,
}

abbrev pub first_of : Option String → Option String → Option String
first_of none b = b
first_of (some a) b = some a

first_of-none : (a : Option String) → first_of a none ≡ a
first_of-none none = refl
first_of-none (some a) = refl

lookup-spread :
    (k : String) (hs more : Headers)
    → IsNodup (keys more)
    → lookup k (spread hs more) ≡ first_of (lookup k more) (lookup k hs)
lookup-spread k hs [] n = refl
lookup-spread k hs ((j, v) ∷ more) (h, n) =
    lookup-spread k (insert j v hs) more n
    ∙ ap (first_of (lookup k more)) (lookup-insert j k v hs)
    ∙ elim (Bool-cases (j == k)) [
      | inl e ↦ rw (e, lookup_of_has-false k more (rw (sym (eq_of_same j k e)) h)) refl
      | inr e ↦ rw e refl
    ]

cookie-IsNodup : (c : Option (List (String × String))) → IsNodup (keys (cookie_header c))
cookie-IsNodup none = tt
cookie-IsNodup (some cs) = ground arith

-- A request keeps the method, the body and the cache mode of the call and carries the cookies of
-- the browser if the call does not say otherwise; a header has the call's own value before that of
-- the user id (in a browser) or of the forwarded cookies (on the server).
pub merged_lem :
    {N : Type 0} (host : Host N) (url k : String) (init : Init N)
    → IsNodup (keys (or_headers init.headers))
    → ((merged host url init).init.method ≡ init.method)
      × ((merged host url init).init.body ≡ init.body)
      × ((merged host url init).init.cache ≡ init.cache)
      × ((merged host url init).init.credentials ≡ given init.credentials "include")
      × (lookup k (or_headers (merged host url init).init.headers)
          ≡ first_of (lookup k (or_headers init.headers)) (
              if host.is_browser
              then lookup k (user_header host.stored_user)
              else lookup k (cookie_header host.cookies)))
unfolding merged user_id_header server_cookie_header
merged_lem host url k init n = (
  refl,
  refl,
  refl,
  refl,
  lookup-spread k _ (or_headers init.headers) n
      ∙ ap (first_of (lookup k (or_headers init.headers))) (elim (Bool-cases host.is_browser) [
        | inl e ↦ rw e refl
        | inr e ↦ rw e (
            lookup-spread k [] (cookie_header host.cookies) (cookie-IsNodup host.cookies)
            ∙ first_of-none (lookup k (cookie_header host.cookies)))
      ]),
)
