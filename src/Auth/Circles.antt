-- ===== src/Auth/Circles.antt =====
-- Following the redirects of client/middleware.ts, one request after the other.
use finance_next.Base.{
  ℕ, String, zero, suc, Bool, true, false, not, ◌≡◌, refl, ap, ◌∙◌, inl, inr, Option, none, some,
  ◌==◌, lookup, string_key, arith, Bool-cases,
}
use finance_next.Auth.{
  Url, Platform, NextResponse, next_handler, redirect, public_prefixes, legacy_redirects, is_public,
  default_destination, auth_page_destination, protected_next, with_next, legacy_response,
  middleware,
}
use finance_next.Auth.Safety.{IsPlatform, is_plain, middleware_public}

-- What a response comes to at a URL, where a redirect is followed as given.
abbrev landed : Url → (Url → Option Url) → NextResponse → Option Url
landed u next next_handler = some u
landed u next (redirect status v) = next v

-- The URL that loads, where that takes at most the given number of redirects.
abbrev pub follow : ℕ → Platform → Bool → Url → Option Url
follow zero p has_cookie u =
    landed u (λ v. none) (middleware p (record { url = u; has_cookie = has_cookie }))
follow (suc n) p has_cookie u =
    landed u (follow n p has_cookie) (middleware p (record { url = u; has_cookie = has_cookie }))

-- A page loads after at most n redirects, and it is an auth page exactly if there is no cookie.
abbrev pub Loads : ℕ → Platform → Bool → Url → Type 0
Loads n p has_cookie u =
    (v : Url) × (follow n p has_cookie u ≡ some v)
    × (is_public public_prefixes v.pathname ≡ not has_cookie)

module _ (p : Platform) where
  Loads-next :
      (n : ℕ) (has_cookie : Bool) (u : Url)
      → middleware p (record { url = u; has_cookie = has_cookie }) ≡ next_handler
      → is_public public_prefixes u.pathname ≡ not has_cookie
      → Loads n p has_cookie u
  Loads-next zero b u e h = (u, ap (landed u (λ v. none)) e, h)
  Loads-next (suc n) b u e h = (u, ap (landed u (follow n p b)) e, h)

  Loads-redirect :
      (n : ℕ) (has_cookie : Bool) (u v : Url) (status : ℕ)
      → middleware p (record { url = u; has_cookie = has_cookie }) ≡ redirect status v
      → Loads n p has_cookie v
      → Loads (suc n) p has_cookie u
  Loads-redirect n b u v status e (w, f, h) = (w, ap (landed u (follow n p b)) e ∙ f, h)

  middleware_private :
      (u : Url)
      → is_public public_prefixes u.pathname ≡ false
      → middleware p (record { url = u; has_cookie = true })
        ≡ legacy_response p (lookup u.pathname legacy_redirects) u
  unfolding middleware
  middleware_private u h = rw h refl

  middleware_open :
      (u : Url)
      → is_public public_prefixes u.pathname ≡ true
      → middleware p (record { url = u; has_cookie = false }) ≡ next_handler
  unfolding middleware
  middleware_open u h = rw h refl

  unfoldable login_page : Url → Url
  login_page u = with_next p (protected_next u) (p.resolve "/login" u)

  middleware_closed :
      (u : Url)
      → is_public public_prefixes u.pathname ≡ false
      → middleware p (record { url = u; has_cookie = false }) ≡ redirect 307 (login_page u)
  unfolding middleware login_page
  middleware_closed u h = rw h refl

module _ (p : Platform) (laws : IsPlatform p) where
  -- A page that has moved loads from its new place.
  moved-Loads :
      (n : ℕ) (u : Url) (target : String)
      → is_plain target ≡ true
      → is_public public_prefixes target ≡ false
      → lookup target legacy_redirects ≡ none
      → Loads n p true (p.resolve target u)
  moved-Loads n u target plain private unmoved =
      let e = laws.resolve_plain target u plain in
      Loads-next p n true (p.resolve target u)
        (middleware_private p (p.resolve target u)
            (ap (λ v. is_public public_prefixes v.pathname) e ∙ private)
          ∙ ap (λ v. legacy_response p (lookup v.pathname legacy_redirects) (p.resolve target u)) e
          ∙ ap (λ o. legacy_response p o (p.resolve target u)) unmoved)
        (ap (λ v. is_public public_prefixes v.pathname) e ∙ private)

  private-Loads :
      (n : ℕ) (u : Url) → is_public public_prefixes u.pathname ≡ false → Loads (suc n) p true u
  private-Loads n u h = elim (Bool-cases ("/admin" == u.pathname)) [
    | inl e ↦
        Loads-redirect p n true u (p.resolve "/settings/system" u) 308
          (middleware_private p u h ∙ rw e refl) (moved-Loads n u "/settings/system" refl refl refl)
    | inr e ↦ elim (Bool-cases ("/admin/ai" == u.pathname)) [
      | inl f ↦
          Loads-redirect p n true u (p.resolve "/settings/ai" u) 308
            (middleware_private p u h ∙ rw (e, f) refl)
            (moved-Loads n u "/settings/ai" refl refl refl)
      | inr f ↦ Loads-next p (suc n) true u (middleware_private p u h ∙ rw (e, f) refl) h
    ]
  ]

  pathname-with_next : (next : String) (u : Url) → (with_next p next u).pathname ≡ u.pathname
  pathname-with_next next u = ground arith

  login_page-public : (u : Url) → is_public public_prefixes (login_page p u).pathname ≡ true
  unfolding login_page
  login_page-public u = ap (is_public public_prefixes) (
      pathname-with_next (protected_next u) (p.resolve "/login" u)
      ∙ ap (λ w. w.pathname) (laws.resolve_plain "/login" u refl))

  -- The redirects of the middleware do not go in circles: every request leads, after at most two
  -- redirects, to a page that loads, and that is an auth page exactly if there is no cookie. For a
  -- request for an auth page with a cookie that holds if the destination that it asks for is no auth
  -- page itself.
  pub follow-Loads :
      (has_cookie : Bool) (u : Url)
      → (has_cookie ≡ true
          → is_public public_prefixes u.pathname ≡ true
          → is_public public_prefixes
              (p.resolve (auth_page_destination p u default_destination) u).pathname
            ≡ false)
      → Loads 2 p has_cookie u
  follow-Loads true u away = elim (Bool-cases (is_public public_prefixes u.pathname)) [
    | inl e ↦
        Loads-redirect p 1 true u _ 307 (middleware_public p u _ e refl)
          (private-Loads 0 _ (away refl e))
    | inr e ↦ private-Loads 1 u e
  ]
  follow-Loads false u away = elim (Bool-cases (is_public public_prefixes u.pathname)) [
    | inl e ↦ Loads-next p 2 false u (middleware_open p u e) e
    | inr e ↦ Loads-redirect p 1 false u (login_page p u) 307 (middleware_closed p u e) (
        Loads-next p 1 false (login_page p u) (middleware_open p _ (login_page-public u))
          (login_page-public u))
  ]
