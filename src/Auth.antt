-- ===== src/Auth.antt =====
-- Which page a visitor gets: client/data/auth-redirect.mjs and client/middleware.ts.
pub mod Safety
pub mod Return
pub mod Circles
use Prim.Native.Char.{Char, code}
use Prim.Native.String.{◌++◌}
use finance_next.Base.{
  ℕ, String, Bool, true, false, not, ◌&&◌, ◌||◌, Option, none, some, List, [], ◌∷◌, if◌then◌else◌,
  ◌==◌, leb, lookup, has, string_key, nat_key,
}

-- `s.startsWith(t)`
abbrev pub starts_with : String → String → Bool
starts_with s String.[] = true
starts_with String.[] (String.◌∷◌ d t) = false
starts_with (String.◌∷◌ c s) (String.◌∷◌ d t) = code c == code d && starts_with s t

-- The characters that `trim` cuts, by their code points.
abbrev pub is_space : Char → Bool
is_space c =
    leb 9 (code c) && leb (code c) 13
    || leb 8192 (code c) && leb (code c) 8202
    || has (code c) (32 ∷ 160 ∷ 5760 ∷ 8232 ∷ 8233 ∷ 8239 ∷ 8287 ∷ 12288 ∷ 65279 ∷ [])

abbrev pub trim_start : String → String
trim_start String.[] = ""
trim_start (String.◌∷◌ c s) = if is_space c then trim_start s else String.◌∷◌ c s

abbrev pub cut : Char → String → String
cut c String.[] = if is_space c then "" else String.◌∷◌ c ""
cut c (String.◌∷◌ d s) = String.◌∷◌ c (String.◌∷◌ d s)

abbrev pub trim_end : String → String
trim_end String.[] = ""
trim_end (String.◌∷◌ c s) = cut c (trim_end s)

abbrev pub trim : String → String
trim s = trim_end (trim_start s)

-- `a || b` on texts.
abbrev pub or_text : String → String → String
or_text a b = if a == "" then b else a

-- A text, or null or undefined.
abbrev pub text_or : Option String → String → String
text_or none b = b
text_or (some a) b = or_text a b

abbrev pub default_destination : String
default_destination = "/ai-money"

-- What `safeNextOrDefault` lets through.
abbrev pub is_path : String → Bool
is_path next = not (next == "") && starts_with next "/" && not (starts_with next "//")

unfoldable pub safe_next_or_default : Option String → String → String
safe_next_or_default raw fallback =
    let next : String = trim (text_or raw "") in if is_path next then next else fallback

-- A parsed URL: its fragment plays no part.
pub record Url : Type 0 where
  pub origin : String
  pub pathname : String
  pub search : String

-- What the code uses of URL and URLSearchParams: `new URL(text, base)`, `get` and `set` on the
-- parameters of a search, and the text of a single parameter.
pub record Platform : Type 0 where
  pub resolve : String → Url → Url
  pub get : String → String → Option String
  pub set : String → String → String → String
  pub print : String → String → String

pub record NextRequest : Type 0 where
  pub url : Url
  pub has_cookie : Bool

pub data NextResponse : Type 0 where
  next_handler : NextResponse
  redirect : ℕ → Url → NextResponse

abbrev pub public_prefixes : List String
public_prefixes = "/login" ∷ "/register" ∷ "/accept-invite" ∷ []

abbrev pub legacy_redirects : List (String × String)
legacy_redirects = ("/admin", "/settings/system") ∷ ("/admin/ai", "/settings/ai") ∷ []

-- The loop over the prefixes, up to its first return.
abbrev pub is_public : List String → String → Bool
is_public [] pathname = false
is_public (prefix ∷ ps) pathname =
    pathname == prefix || starts_with pathname (prefix ++ "/") || is_public ps pathname

unfoldable pub protected_next : Url → String
protected_next u = if u.pathname == "/" then "" else u.pathname ++ u.search

module _ (p : Platform) where
  unfoldable pub auth_href_with_next : Option String → Option String → String
  unfolding safe_next_or_default
  auth_href_with_next pathname raw_next =
      let path : String = or_text (trim (text_or pathname "/login")) "/login" in
      let next : String = safe_next_or_default raw_next "" in
      if next == "" then path else path ++ "?" ++ p.print "next" next

  unfoldable pub auth_page_destination : Url → String → String
  unfolding safe_next_or_default
  auth_page_destination u fallback = safe_next_or_default (p.get "next" u.search) fallback

  unfoldable pub login_href : Url → String
  unfolding auth_href_with_next protected_next
  login_href u = auth_href_with_next (some "/login") (some (protected_next u))

  unfoldable pub login_href_for_path : Option String → Option String → String
  unfolding auth_href_with_next
  login_href_for_path pathname search =
      let path : String = trim (text_or pathname "") in
      let query : String = trim (text_or search "") in
      let next : String =
        if path == "/" then "" else path ++ (if starts_with query "?" then query else "") in
      auth_href_with_next (some "/login") (some next)

  abbrev pub with_next : String → Url → Url
  with_next next u = if next == "" then u else record u { search = p.set "next" next u.search }

  abbrev pub legacy_response : Option String → Url → NextResponse
  legacy_response none u = next_handler
  legacy_response (some target) u = redirect 308 (p.resolve target u)

  unfoldable pub middleware : NextRequest → NextResponse
  unfolding auth_page_destination protected_next
  middleware req =
      if is_public public_prefixes req.url.pathname
      then (if req.has_cookie
          then redirect 307 (p.resolve (auth_page_destination req.url default_destination) req.url)
          else next_handler)
      else (if req.has_cookie
          then legacy_response (lookup req.url.pathname legacy_redirects) req.url
          else redirect 307 (with_next (protected_next req.url) (p.resolve "/login" req.url)))
