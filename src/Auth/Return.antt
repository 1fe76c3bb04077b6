-- ===== src/Auth/Return.antt =====
-- The way of a visitor without a cookie through client/middleware.ts to the login page and back.
use Prim.Native.String.{◌++◌}
use finance_next.Base.{String, true, false, ◌≡◌, refl, ap, ◌∙◌, ◌==◌, string_key, arith}
use finance_next.Auth.{
  Url, Platform, next_handler, redirect, is_path, public_prefixes, is_public, protected_next,
  with_next, middleware,
}
use finance_next.Auth.Safety.{IsPlatform, destination_some, middleware_public}

abbrev login_of : Platform → Url → Url
login_of p u = record {
  origin = u.origin;
  pathname = "/login";
  search = p.set "next" (u.pathname ++ u.search) "";
}

path-ne_empty : (t : String) → is_path t ≡ true → (t == "") ≡ false
path-ne_empty t h = ground arith

to_login :
    (p : Platform) (laws : IsPlatform p) (u : Url)
    → is_public public_prefixes u.pathname ≡ false
    → (u.pathname == "/") ≡ false
    → is_path (u.pathname ++ u.search) ≡ true
    → middleware p (record { url = u; has_cookie = false }) ≡ redirect 307 (login_of p u)
unfolding middleware protected_next
to_login p laws u h r i =
    rw (h, r)
      (ap (redirect 307) (
        ap (with_next p (u.pathname ++ u.search)) (laws.resolve_plain "/login" u refl)
        ∙ rw (path-ne_empty (u.pathname ++ u.search) i) refl))

-- A visitor without a cookie who asks for a page other than the start page and the auth pages, at
-- a path that does not begin with two slashes, is sent to a login page that loads without a
-- cookie, and that leads back to the page that was asked for once the cookie is there.
pub login_returns :
    (p : Platform) (t : String) (base : Url)
    → IsPlatform p
    → is_public public_prefixes (p.resolve t base).pathname ≡ false
    → ((p.resolve t base).pathname == "/") ≡ false
    → is_path ((p.resolve t base).pathname ++ (p.resolve t base).search) ≡ true
    → (login : Url) × (middleware p (record { url = p.resolve t base; has_cookie = false })
        ≡ redirect 307 login)
      × (middleware p (record { url = login; has_cookie = false }) ≡ next_handler)
      × (middleware p (record { url = login; has_cookie = true }) ≡ redirect 307 (p.resolve t base))
login_returns p t base laws h r i =
    let u : Url = p.resolve t base in
    let login : Url = login_of p u in
    (
      login,
      to_login p laws u h r i,
      unfold middleware in refl,
      middleware_public p login (u.pathname ++ u.search) refl (
            destination_some p login (u.pathname ++ u.search) (laws.resolve_no_space t base)
              (laws.get-set "next" (u.pathname ++ u.search) "")
            ∙ rw i refl)
          ∙ ap (redirect 307) (laws.resolve_again t base login refl i),
    )
