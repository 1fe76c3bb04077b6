-- ===== src/Api/Gateway/Paths.antt =====
-- Paths that are put together from literal parts and ids: what is left of them once apiUrl has
-- dropped a slash and the query is cut, and their segments.
use Prim.Native.Char.{Char, code}
use Prim.Native.String.{◌++◌}
use text.Mathlib.TextLemmas.{nil-append, cons-append, append-nil}
use finance_next.Base.{
  String, Bool, true, false, not, ◌&&◌, ◌||◌, ◌≡◌, refl, sym, ap, ◌∙◌, Option, none, some, List, [],
  ◌∷◌, if◌then◌else◌, ◌==◌, nat_key, arith, leb,
}
use finance_next.Api.{replace_slashes}
use finance_next.Api.Gateway.{on_first, split, cut_query, below}

-- Letters, digits, dashes and underscores.
abbrev pub id_char : Char → Bool
id_char c =
    leb 48 (code c) && leb (code c) 57
    || leb 65 (code c) && leb (code c) 90
    || leb 97 (code c) && leb (code c) 122
    || code c == 45
    || code c == 95

abbrev pub id_chars : String → Bool
id_chars String.[] = true
id_chars (String.◌∷◌ c s) = id_char c && id_chars s

abbrev pub is_segment : String → Bool
is_segment String.[] = false
is_segment (String.◌∷◌ c s) = id_char c && id_chars s

abbrev pub no_query : String → Bool
no_query String.[] = true
no_query (String.◌∷◌ c s) = not (code c == 63) && no_query s

-- Whether a text ends in a slash, given whether one stands before it, and `none` for two in a row.
abbrev pub calm : Bool → String → Option Bool
calm b String.[] = some b
calm b (String.◌∷◌ c s) =
    let rest = calm (code c == 47) s in if b && code c == 47 then none else rest

abbrev pub calm_then : Option Bool → String → Option Bool
calm_then none t = none
calm_then (some b) t = calm b t

-- The segments of a text in front of segments that are there.
abbrev pub follow : String → List String → List String
follow String.[] parts = parts
follow (String.◌∷◌ c s) parts =
    let rest = follow s parts in if code c == 47 then "" ∷ rest else on_first (String.◌∷◌ c) rest

no_query-append : (s t : String) → no_query (s ++ t) ≡ (no_query s && no_query t)
no_query-append String.[] t = rw nil-append
no_query-append (String.◌∷◌ c s) t = rw cons-append (ground (arith, no_query-append s t))

calm-append : (b : Bool) (s t : String) → calm b (s ++ t) ≡ calm_then (calm b s) t
calm-append b String.[] t = rw nil-append
calm-append b (String.◌∷◌ c s) t = rw cons-append (ground (arith, calm-append (code c == 47) s t))

split-append : (s t : String) → split (s ++ t) ≡ follow s (split t)
unfolding split
split-append String.[] t = rw nil-append
split-append (String.◌∷◌ c s) t = rw cons-append (ground (arith, split-append s t))

follow-id :
    (s : String) (parts : List String) → id_chars s ≡ true → follow s ("" ∷ parts) ≡ s ∷ parts
follow-id String.[] parts h = refl
follow-id (String.◌∷◌ c s) parts h = ground (arith, follow-id s parts)

calm-id : (b : Bool) (s : String) → is_segment s ≡ true → calm b s ≡ some false
calm-id b String.[] h = cc
calm-id b (String.◌∷◌ c String.[]) h = ground arith
calm-id b (String.◌∷◌ c (String.◌∷◌ d s)) h = ground (arith, calm-id false (String.◌∷◌ d s))

no_query-id : (s : String) → id_chars s ≡ true → no_query s ≡ true
no_query-id String.[] h = refl
no_query-id (String.◌∷◌ c s) h = ground (arith, no_query-id s)

id_of_segment : (s : String) → is_segment s ≡ true → id_chars s ≡ true
id_of_segment String.[] h = cc
id_of_segment (String.◌∷◌ c s) h = h

-- A text without a query or two slashes in a row, also behind what stands before it, and its
-- segments.
pub record IsPiece (b : Bool) (s : String) (parts : List String) : Type 0 where
  pub quiet : (e : Bool) × (calm b s ≡ some e)
  pub unasked : no_query s ≡ true
  pub parted : split s ≡ parts

pub IsPiece-literal_then :
    {b e : Bool} {t : String} {parts : List String} (s : String)
    → IsPiece e t parts
    → calm b s ≡ some e
    → no_query s ≡ true
    → IsPiece b (s ++ t) (follow s parts)
IsPiece-literal_then {b} {t = t} s p c n = record {
  quiet = (p.quiet.0, calm-append b s t ∙ ap (λ o. calm_then o t) c ∙ p.quiet.1);
  unasked = no_query-append s t ∙ rw (n, p.unasked) refl;
  parted = split-append s t ∙ ap (follow s) p.parted;
}

pub IsPiece-id_then :
    {b : Bool} {t : String} {parts : List String} (id : String)
    → is_segment id ≡ true
    → IsPiece false t ("" ∷ parts)
    → IsPiece b (id ++ t) (id ∷ parts)
IsPiece-id_then {b} {t} {parts} id h p = record {
  quiet = (p.quiet.0, calm-append b id t ∙ ap (λ o. calm_then o t) (calm-id b id h) ∙ p.quiet.1);
  unasked = no_query-append id t ∙ rw (no_query-id id (id_of_segment id h), p.unasked) refl;
  parted = split-append id t ∙ ap (follow id) p.parted ∙ follow-id id parts (id_of_segment id h);
}

pub IsPiece-id : {b : Bool} (id : String) → is_segment id ≡ true → IsPiece b id (id ∷ [])
unfolding split
IsPiece-id {b} id h = record {
  quiet = (false, calm-id b id h);
  unasked = no_query-id id (id_of_segment id h);
  parted =
      ap split (sym (append-nil id)) ∙ split-append id "" ∙ follow-id id [] (id_of_segment id h);
}

-- Nothing, or a question mark and more.
abbrev pub IsQuery : String → Type 0
IsQuery String.[] = Unit
IsQuery (String.◌∷◌ c q) = code c ≡ 63

cut_query_of_IsQuery : (q : String) → IsQuery q → cut_query (replace_slashes q) ≡ ""
unfolding cut_query
cut_query_of_IsQuery String.[] i = refl
cut_query_of_IsQuery (String.◌∷◌ c String.[]) i = ground arith
cut_query_of_IsQuery (String.◌∷◌ c (String.◌∷◌ d q)) i = ground arith

cut_query-char :
    (c : Char) (q : String)
    → no_query (String.◌∷◌ c "") ≡ true
    → IsQuery q
    → cut_query (replace_slashes (String.◌∷◌ c q)) ≡ String.◌∷◌ c ""
unfolding cut_query
cut_query-char c String.[] n i = ground arith
cut_query-char c (String.◌∷◌ d q) n i = ground (arith, cut_query_of_IsQuery (String.◌∷◌ d q) i)

-- Neither the slash that apiUrl drops nor the query changes a quiet path.
pub cut_query-replace_slashes :
    (b : Bool) {e : Bool} (s q : String)
    → calm b s ≡ some e
    → no_query s ≡ true
    → IsQuery q
    → cut_query (replace_slashes (s ++ q)) ≡ s
unfolding cut_query
cut_query-replace_slashes b String.[] q c n i = rw nil-append (cut_query_of_IsQuery q i)
cut_query-replace_slashes b (String.◌∷◌ x String.[]) q c n i =
    rw (cons-append x "" q, nil-append q) (cut_query-char x q n i)
cut_query-replace_slashes b {e} (String.◌∷◌ x (String.◌∷◌ y s)) q c n i =
    rw (cons-append x (String.◌∷◌ y s) q, cons-append y s q)
      (ground (
        arith,
        ap (λ t. cut_query (replace_slashes t)) (sym (cons-append y s q))
            ∙ cut_query-replace_slashes (code x == 47) {e = e} (String.◌∷◌ y s) q (ground arith)
                (ground arith) i,
      ))

pub below-append : (base t : String) → below base (base ++ t) ≡ some t
below-append String.[] t = rw nil-append
below-append (String.◌∷◌ c base) t = rw cons-append (ground (arith, below-append base t))
