-- ===== src/Auth/Safety.antt =====
-- Where the redirects of client/middleware.ts lead.
use Prim.Native.Char.{Char, code}
use Prim.Native.String.{◌++◌}
use text.Mathlib.TextLemmas.{cons-ne-nil}
use finance_next.Base.{
  String, Bool, true, false, not, ◌&&◌, ◌||◌, ◌≡◌, refl, inl, inr, some, [], ◌∷◌, if◌then◌else◌,
  ◌==◌, leb, string_key, nat_key, arith, Bool-cases, ap, ◌∙◌, sym, has, eq_of_same,
}
use finance_next.Auth.{
  Url, Platform, NextResponse, next_handler, redirect, is_space, trim, trim_start, trim_end, cut,
  is_path, default_destination, public_prefixes, is_public, safe_next_or_default, or_text,
  auth_page_destination, middleware,
}

abbrev pub has_escape : String → Bool
has_escape String.[] = false
has_escape (String.◌∷◌ c s) = has (code c) (92 ∷ 9 ∷ 10 ∷ 13 ∷ []) || has_escape s

abbrev pub no_space : String → Bool
no_space String.[] = true
no_space (String.◌∷◌ c s) = not (is_space c) && no_space s

-- Small letters, dashes and slashes alone.
abbrev pub is_word : String → Bool
is_word String.[] = true
is_word (String.◌∷◌ c s) =
    (leb 97 (code c) && leb (code c) 122 || code c == 45 || code c == 47) && is_word s

abbrev pub is_plain : String → Bool
is_plain t = is_path t && no_space t && is_word t

-- What the URL standard says of URLs of http and https: a text that is an absolute path without
-- backslashes, tabs and line breaks stays on the base's origin, a plain one is the path as it
-- stands, a parsed URL has no spaces, its path and search lead to it again from its own origin, and
-- get finds what set has put.
pub record IsPlatform (p : Platform) : Type 0 where
  pub resolve_path :
      (t : String) (base : Url)
      → is_path t ≡ true
      → has_escape t ≡ false
      → (p.resolve t base).origin ≡ base.origin
  pub resolve_plain :
      (t : String) (base : Url)
      → is_plain t ≡ true
      → p.resolve t base ≡ record { origin = base.origin; pathname = t; search = "" }
  pub resolve_no_space :
      (t : String) (base : Url)
      → no_space ((p.resolve t base).pathname ++ (p.resolve t base).search) ≡ true
  pub resolve_again :
      (t : String) (base b : Url)
      → b.origin ≡ (p.resolve t base).origin
      → is_path ((p.resolve t base).pathname ++ (p.resolve t base).search) ≡ true
      → p.resolve ((p.resolve t base).pathname ++ (p.resolve t base).search) b ≡ p.resolve t base
  pub get-set : (k v s : String) → p.get k (p.set k v s) ≡ some v

pub trim-no_space : (s : String) → no_space s ≡ true → trim s ≡ s
trim-no_space s h = ap trim_end (start s h) ∙ end s h
  where
    start : (s : String) → no_space s ≡ true → trim_start s ≡ s
    start String.[] h = refl
    start (String.◌∷◌ c s) h = ground arith

    end : (s : String) → no_space s ≡ true → trim_end s ≡ s
    end String.[] h = refl
    end (String.◌∷◌ c String.[]) h = ground arith
    end (String.◌∷◌ c (String.◌∷◌ d s)) h = ap (cut c) (end (String.◌∷◌ d s) (ground arith))

-- A redirect, if there is one, is to this origin.
abbrev pub IsOn : String → NextResponse → Type 0
IsOn origin next_handler = Unit
IsOn origin (redirect status u) = u.origin ≡ origin

cons-eq_empty : (c : Char) (s : String) → (String.◌∷◌ c s == "") ≡ false
cons-eq_empty c s = elim (Bool-cases (String.◌∷◌ c s == "")) [
  | inl e ↦ absurd (cons-ne-nil c s (eq_of_same (String.◌∷◌ c s) "" e))
  | inr e ↦ e
]

or_text_empty : (t : String) → or_text t "" ≡ t
or_text_empty t = elim (Bool-cases (t == "")) [
  | inl e ↦ rw e (sym (eq_of_same t "" e))
  | inr e ↦ rw e refl
]

pub destination_some :
    (p : Platform) (u : Url) (t : String)
    → no_space t ≡ true
    → p.get "next" u.search ≡ some t
    → auth_page_destination p u default_destination ≡ (if is_path t then t else default_destination)
unfolding auth_page_destination safe_next_or_default
destination_some p u t n g = rw g (
    ap (λ s. if is_path s then s else default_destination)
      (ap trim (or_text_empty t) ∙ trim-no_space t n))

pub middleware_public :
    (p : Platform) (u : Url) (t : String)
    → is_public public_prefixes u.pathname ≡ true
    → auth_page_destination p u default_destination ≡ t
    → middleware p (record { url = u; has_cookie = true }) ≡ redirect 307 (p.resolve t u)
unfolding middleware
middleware_public p u t e d = rw e (ap (λ s. redirect 307 (p.resolve s u)) d)

-- On an auth page with a cookie, a destination of two slashes and a host is refused for the
-- default one, but a slash, a backslash and a host is passed to `new URL`, which takes a backslash
-- for a slash (the hypothesis): the redirect goes where the two slashes would have led.
backslash_redirect :
    (p : Platform) (u v : Url) (host : String)
    → ((t : String) (base : Url)
        → p.resolve (String.◌∷◌ "/" (String.◌∷◌ "\\" t)) base
          ≡ p.resolve (String.◌∷◌ "/" (String.◌∷◌ "/" t)) base)
    → no_space host ≡ true
    → is_public public_prefixes u.pathname ≡ true
    → is_public public_prefixes v.pathname ≡ true
    → p.get "next" u.search ≡ some (String.◌∷◌ "/" (String.◌∷◌ "/" host))
    → p.get "next" v.search ≡ some (String.◌∷◌ "/" (String.◌∷◌ "\\" host))
    → (middleware p (record { url = u; has_cookie = true })
        ≡ redirect 307 (p.resolve "/ai-money" u))
      × (middleware p (record { url = v; has_cookie = true })
          ≡ redirect 307 (p.resolve (String.◌∷◌ "/" (String.◌∷◌ "/" host)) v))
backslash_redirect p u v host slashes n pu pv gu gv = (
  middleware_public p u _ pu (
      destination_some p u (String.◌∷◌ "/" (String.◌∷◌ "/" host)) n gu
      ∙ rw (cons-eq_empty "/" (String.◌∷◌ "/" host)) refl),
  middleware_public p v _ pv (
        destination_some p v (String.◌∷◌ "/" (String.◌∷◌ "\\" host)) n gv
        ∙ rw (cons-eq_empty "/" (String.◌∷◌ "\\" host)) refl)
      ∙ ap (redirect 307) (slashes host v),
)
