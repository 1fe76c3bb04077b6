-- ===== src/Tests/Auth.antt =====
-- Tests of the pages a visitor gets (client/data/auth-redirect.mjs, client/middleware.ts).
use Prim.Native.String.{◌++◌}
use text.Mathlib.TextLemmas.{append-nil}
use finance_next.Base.{
  String, Bool, true, false, ◌≡◌, refl, ap, ◌∙◌, inl, inr, some, string_key, Bool-cases, arith,
}
use finance_next.Auth.{
  Url, Platform, NextRequest, next_handler, redirect, auth_page_destination, auth_href_with_next,
  middleware,
}
use finance_next.Auth.Safety.{IsPlatform, no_space, is_plain}
use finance_next.Auth.Circles.{Loads, follow-Loads}
use finance_next.Auth.Return.{login_returns}

-- A platform without searches but of the login page: a text without spaces is the path.
abbrev at_path : String → Url → Bool → Url
at_path t base true = record { origin = base.origin; pathname = t; search = "" }
at_path t base false = record { origin = base.origin; pathname = "/"; search = "" }

abbrev plain : Platform
plain = record {
  resolve = λ t base. at_path t base (no_space t);
  get = λ k s. some s;
  set = λ k v s. v;
  print = λ k v. k ++ "=" ++ v;
}

origin-at_path : (t : String) (base : Url) (u : Bool) → (at_path t base u).origin ≡ base.origin
origin-at_path t base true = refl
origin-at_path t base false = refl

again :
    (t : String) (base b : Url)
    → b.origin ≡ base.origin
    → (u : Bool) → no_space t ≡ u
    → (at_path ((at_path t base u).pathname ++ "") b (no_space ((at_path t base u).pathname ++ "")))
      ≡ at_path t base u
again t base b o true e =
    rw (append-nil t, e) (ap (λ a. record { origin = a; pathname = t; search = "" }) o)
again t base b o false e = ap (λ a. record { origin = a; pathname = "/"; search = "" }) o

search-at_path : (t : String) (base : Url) (u : Bool) → (at_path t base u).search ≡ ""
search-at_path t base true = refl
search-at_path t base false = refl

plain-no_space : (t : String) → is_plain t ≡ true → no_space t ≡ true
plain-no_space t h = ground arith

plain-IsPlatform : IsPlatform plain
plain-IsPlatform = record {
  resolve_path = λ t base h k. origin-at_path t base (no_space t);
  resolve_plain = λ t base h. rw (plain-no_space t h) refl;
  resolve_no_space = λ t base. elim (Bool-cases (no_space t)) [
    | inl e ↦ rw e (ap no_space (append-nil t) ∙ e)
    | inr e ↦ rw e refl
  ];
  resolve_again = λ t base b o h.
      rw (search-at_path t base (no_space t))
        (again t base b (o ∙ origin-at_path t base (no_space t)) (no_space t) refl);
  get-set = λ k v s. refl;
}

abbrev here : Url
here = record { origin = "https://a"; pathname = "/login"; search = "/markets" }

abbrev visit : NextRequest
visit = record { url = here; has_cookie = true }

legacy_test :
    middleware plain (record { url = record here { pathname = "/admin" }; has_cookie = true })
    ≡ redirect 308 (record { origin = "https://a"; pathname = "/settings/system"; search = "" })
unfolding middleware
legacy_test = refl

href_test :
    auth_href_with_next plain (some " /register ") (some "/markets") ≡ "/register?next=/markets"
unfolding auth_href_with_next
href_test = refl

login_returns_example :
    (login : Url) × (middleware plain
        (record { url = plain.resolve "/markets" here; has_cookie = false })
      ≡ redirect 307 login)
    × (middleware plain (record { url = login; has_cookie = false }) ≡ next_handler)
    × (middleware plain (record { url = login; has_cookie = true })
        ≡ redirect 307 (plain.resolve "/markets" here))
login_returns_example = login_returns plain "/markets" here plain-IsPlatform refl refl refl

follow-Loads_example : Loads 2 plain true here
follow-Loads_example =
    follow-Loads plain plain-IsPlatform true here (λ b h. unfold auth_page_destination in refl)
