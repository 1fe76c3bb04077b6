-- ===== src/Api/Gateway/Fitting.antt =====
-- The routes that a call of the API client fits, from the path that the call is given.
use Prim.Native.Char.{Char, code}
use Prim.Native.String.{◌++◌}
use text.Mathlib.TextLemmas.{append-nil, append_assoc, cons-append}
use finance_next.Base.{
  String, Bool, true, false, not, ◌&&◌, arith, ◌≡◌, refl, sym, ap, ◌∙◌, none, some, List, [], ◌∷◌,
  Bool-cases, inl, inr, ◌==◌, string_key, if◌then◌else◌,
}
use finance_next.Api.{Init, Host, api_url, merged, replace_slashes}
use finance_next.Api.Calls.{Exchange, Encoder, query, by_strategy}
use finance_next.Api.Gateway.{split, cut_query, in_group, method_or_get, fitting_below, fitting}
use finance_next.Api.Gateway.Paths.{
  calm, no_query, follow, IsPiece, IsQuery, IsPiece-literal_then, cut_query-replace_slashes,
  below-append,
}

-- A literal part that keeps calm, ends in a slash or not, and asks nothing.
abbrev pub is_calm : Bool → Bool → String → Bool
is_calm b e s =
    no_query s && (elim (calm b s) [ none ↦ false | some ended ↦ if ended then e else not e ])

calm_of : (b e : Bool) (s : String) → is_calm b e s ≡ true → calm b s ≡ some e
calm_of b true s h = ground arith
calm_of b false s h = ground arith

no_query_of : (b e : Bool) (s : String) → is_calm b e s ≡ true → no_query s ≡ true
no_query_of b e s h = ground arith

pub literal : {b : Bool} (s : String) → is_calm b false s ≡ true → IsPiece b s (split s)
literal {b} s h = record {
  quiet = (false, calm_of b false s h);
  unasked = no_query_of b false s h;
  parted = refl;
}

pub below_literal :
    {b e : Bool} {t : String} {parts : List String} (s : String)
    → IsPiece e t parts
    → is_calm b e s ≡ true
    → IsPiece b (s ++ t) (follow s parts)
below_literal {b} {e} s p h = IsPiece-literal_then s p (calm_of b e s h) (no_query_of b e s h)

infixr 3 ◌▸◌
abbrev pub ◌▸◌ {ℓ κ} : {A : Type ℓ} {B : Type κ} → A → B → A × B
p ▸ ps = (p, ps)

-- The call fits one route of the gateway and no other, which is that of the handler.
abbrev pub FitsOnly : {N : Type 0} → Host N → Exchange N × String → Type 0
FitsOnly host call = fitting host call.0.request ≡ call.1 ∷ []

module _ {N : Type 0} (host : Host N) (init : Init N) where
  pub fitting-query :
      {s : String} {parts : List String} (q : String)
      → IsPiece true s parts
      → IsQuery q
      → fitting host (merged host (api_url host (s ++ q)) init)
        ≡ in_group (method_or_get init.method) ("" ∷ parts)
  unfolding fitting merged api_url
  fitting-query {s} {parts} q p i =
      let slashed : IsPiece false ("/" ++ s) ("" ∷ parts) = IsPiece-literal_then "/" p refl refl in
      ap (fitting_below (method_or_get init.method)) (below-append host.base _)
      ∙ ap (λ t. in_group (method_or_get init.method) (split t))
          (ap (λ t. cut_query (replace_slashes t)) (sym (append_assoc "/" s q))
            ∙ cut_query-replace_slashes false ("/" ++ s) q slashed.quiet.1 slashed.unasked i)
      ∙ ap (in_group (method_or_get init.method)) slashed.parted

  pub fitting-path :
      {s : String} {parts : List String}
      → IsPiece true s parts
      → fitting host (merged host (api_url host s) init)
        ≡ in_group (method_or_get init.method) ("" ∷ parts)
  fitting-path {s} p =
      ap (λ t. fitting host (merged host (api_url host t) init)) (sym (append-nil s))
      ∙ fitting-query "" p tt

-- A text that goes on behind a question mark.
asking : (c : Char) (s x : String) → code c ≡ 63 → IsQuery (String.◌∷◌ c s ++ x)
asking c s x h = rw cons-append h

pub query-IsQuery :
    {N : Type 0} (enc : Encoder N) (ps : List (String × String)) → IsQuery (query enc ps)
query-IsQuery enc ps = elim (Bool-cases (enc.form ps == "")) [
  | inl e ↦ rw e tt
  | inr e ↦ rw e (asking "?" "" (enc.form ps) refl)
]

pub by_strategy-IsQuery :
    {N : Type 0} (enc : Encoder N) (id : String) → IsQuery (by_strategy enc id)
by_strategy-IsQuery enc id = elim (Bool-cases (id == "")) [
  | inl e ↦ rw e tt
  | inr e ↦ rw e (asking "?" "strategyId=" (enc.component id) refl)
]

apart :
    (pre id path question x : String)
    → pre ++ (id ++ ((path ++ question) ++ x)) ≡ (pre ++ (id ++ path)) ++ (question ++ x)
apart pre id path question x =
    ap (λ t. pre ++ t)
      (ap (λ t. id ++ t) (append_assoc path question x)
        ∙ sym (append_assoc id path (question ++ x)))
    ∙ sym (append_assoc pre (id ++ path) (question ++ x))

module _ {N : Type 0} (host : Host N) (init : Init N) where
  -- A path with the parameters behind it.
  pub fitting-asking :
      (s x : String)
      → is_calm true false s ≡ true
      → fitting host (merged host (api_url host ((s ++ "?") ++ x)) init)
        ≡ in_group (method_or_get init.method) ("" ∷ split s)
  fitting-asking s x h =
      ap (λ t. fitting host (merged host (api_url host t) init)) (append_assoc s "?" x)
      ∙ fitting-query host init ("?" ++ x) (literal s h) (asking "?" "" x refl)

  -- A path with an id in it and a limit behind it.
  pub fitting-limit :
      (pre id path x : String) {parts : List String}
      → IsPiece true (pre ++ (id ++ path)) parts
      → fitting host (merged host (api_url host (pre ++ (id ++ ((path ++ "?limit=") ++ x)))) init)
        ≡ in_group (method_or_get init.method) ("" ∷ parts)
  fitting-limit pre id path x p =
      ap (λ t. fitting host (merged host (api_url host t) init)) (apart pre id path "?limit=" x)
      ∙ fitting-query host init ("?limit=" ++ x) p (asking "?" "limit=" x refl)
