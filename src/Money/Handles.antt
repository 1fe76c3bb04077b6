-- ===== src/Money/Handles.antt =====
-- The runs that an update of the action names are read back from the action that is stored.
use Prim.Native.Char.{code}
use Prim.Native.String.{◌++◌, count}
use text.Mathlib.TextLemmas.{nil-append, cons-append, length-cons}
use mathlib.Core.Option.{some-injective}
use finance_next.Base.{
  ℕ, zero, suc, ◌≡◌, refl, ◌≤◌, Bool, true, not, ◌&&◌, ◌||◌, ◌==◌, Option, none, some, List, [],
  ◌∷◌, All, arith, String, string_key, nat_key, add, add_all, add_all-nodup, IsNodup, ◌∙◌, ap,
  same_refl,
}
use finance_next.Preset.{take_chars}
use finance_next.Auth.{starts_with, trim}
use finance_next.Decision.Evidence.{
  not_blank, split_commas, segment, drop_chars, backtest_in, add_ids, add_decoded, text_of,
  backtest_run_ids_from_action,
}
use finance_next.Goal.{join}
use finance_next.Json.{Json, at_key}
use finance_next.Numbers.{Numbers}
use finance_next.Money.Plan.{
  ValidationPlan, handle_ids, action_update, backtest_action_update_from_validation_result,
}

-- No comma, no slash, no question mark and no number sign.
abbrev pub is_plain : String → Bool
is_plain String.[] = true
is_plain (String.◌∷◌ c s) =
    not (code c == 44) && not (code c == 47 || code c == 63 || code c == 35) && is_plain s

split_commas-plain : (s : String) → is_plain s ≡ true → split_commas s ≡ s ∷ []
unfolding split_commas
split_commas-plain String.[] h = refl
split_commas-plain (String.◌∷◌ c s) h = ground (arith, split_commas-plain s)

split_commas-append :
    (s t : String) → is_plain s ≡ true → split_commas (s ++ "," ++ t) ≡ s ∷ split_commas t
unfolding split_commas
split_commas-append String.[] t h =
    rw (cons-append "," "" t, nil-append t, nil-append (String.◌∷◌ "," t)) refl
split_commas-append (String.◌∷◌ c s) t h =
    rw (cons-append c s ("," ++ t)) (ground (arith, split_commas-append s t))

segment-plain : (s : String) → is_plain s ≡ true → segment s ≡ s
unfolding segment
segment-plain String.[] h = refl
segment-plain (String.◌∷◌ c s) h = ground (arith, segment-plain s)

take_chars-whole : (n : ℕ) (s : String) → count s ≤ n → take_chars n s ≡ s
take_chars-whole zero String.[] h = refl
take_chars-whole zero (String.◌∷◌ c s) h = ground (arith, length-cons c s)
take_chars-whole (suc n) String.[] h = refl
take_chars-whole (suc n) (String.◌∷◌ c s) h =
    rw (take_chars-whole n s (omega (arith, length-cons c s))) refl

starts_with-append : (t s : String) → starts_with (t ++ s) t ≡ true
starts_with-append String.[] s = refl
starts_with-append (String.◌∷◌ c t) s =
    rw (cons-append c t s) (ground (arith, starts_with-append t s))

drop_chars-append : (t s : String) → drop_chars (count t) (t ++ s) ≡ s
drop_chars-append String.[] s = nil-append s
drop_chars-append (String.◌∷◌ c t) s =
    rw (cons-append c t s, length-cons c t) (drop_chars-append t s)

backtest_in-path :
    (id : String)
    → is_plain id ≡ true
    → not_blank id ≡ true
    → backtest_in ("/backtests/" ++ id) ≡ some id
unfolding backtest_in
backtest_in-path id h k =
    let first : "/backtests/" ++ id ≡ String.◌∷◌ "/" ("backtests/" ++ id) =
      cons-append "/" "backtests/" id in
    rw first (
      rw
        (
          starts_with-append "backtests/" id,
          drop_chars-append "backtests/" id,
          segment-plain id h,
          k,
        )
        refl)

-- A text that is an id: plain, not empty, and without spaces at its ends.
abbrev pub IsId : String → Type 0
IsId s = (is_plain s ≡ true) × (not_blank s ≡ true) × (trim s ≡ s)

split_commas-join :
    (id : String) (ids : List String)
    → All IsId (id ∷ ids)
    → split_commas (join "," (id ∷ ids)) ≡ id ∷ ids
split_commas-join id [] ((h, n, e), k) = split_commas-plain id h
split_commas-join id (v ∷ ids) ((h, n, e), k) =
    rw (split_commas-append id (join "," (v ∷ ids)) h, split_commas-join v ids k) refl

add_ids-All-IsId : (vs ids : List String) → All IsId vs → add_ids vs ids ≡ add_all vs ids
add_ids-All-IsId [] ids h = refl
add_ids-All-IsId (v ∷ vs) ids ((p, n, e), h) = rw (e, n) (add_ids-All-IsId vs (add v ids) h)

module _ {N : Type 0} (num : Numbers N) (decode : String → Option String) where
  abbrev with_named : List String → Option String → Option (List String)
  with_named ids none = some ids
  with_named ids (some id) = add_decoded ids (decode id)

  abbrev ids_in : String → String → Option (List String)
  ids_in related href = with_named (add_ids (split_commas related) []) (backtest_in href)

  ids_in-named :
      (id : String) (ids : List String)
      → All IsId (id ∷ ids)
      → IsNodup (id ∷ ids)
      → decode id ≡ some id
      → ids_in (join "," (id ∷ ids)) ("/backtests/" ++ id) ≡ some (id ∷ ids)
  ids_in-named id ids ((h, n, e), k) fresh decoded =
      let named : add_ids (split_commas (join "," (id ∷ ids))) [] ≡ id ∷ ids =
        rw (split_commas-join id ids ((h, n, e), k))
          (add_ids-All-IsId (id ∷ ids) [] ((h, n, e), k) ∙ add_all-nodup (id ∷ ids) [] fresh) in
      ap (with_named (add_ids (split_commas (join "," (id ∷ ids))) [])) (backtest_in-path id h n)
      ∙ ap (add_decoded (add_ids (split_commas (join "," (id ∷ ids))) [])) decoded
      ∙ ap (λ v. some (add_ids (id ∷ []) v)) named
      ∙ rw (e, n, same_refl id) refl

  read_back :
      (plan : ValidationPlan N) (id : String) (ids : List String) (action : Json N)
      → All IsId (id ∷ ids)
      → IsNodup (id ∷ ids)
      → count (join "," (id ∷ ids)) ≤ 200
      → decode id ≡ some id
      → some (text_of num (at_key "relatedId" (some action)))
        ≡ (action_update num plan (id ∷ ids)).related_id
      → some (text_of num (at_key "href" (some action))) ≡ (action_update num plan (id ∷ ids)).href
      → backtest_run_ids_from_action num decode (some action) ≡ some (id ∷ ids)
  unfolding backtest_run_ids_from_action
  read_back plan id ids action ((h, n, e), k) fresh short decoded related href =
      let names : text_of num (at_key "relatedId" (some action)) ≡ join "," (id ∷ ids) =
        some-injective _ _ related ∙ take_chars-whole 200 (join "," (id ∷ ids)) short in
      let path : text_of num (at_key "href" (some action)) ≡ "/backtests/" ++ id =
        some-injective _ _ href in
      ap (λ r. ids_in r (text_of num (at_key "href" (some action)))) names
      ∙ ap (ids_in (join "," (id ∷ ids))) path
      ∙ ids_in-named id ids ((h, n, e), k) fresh decoded

  -- Where the handles name different runs, with ids without a comma, a slash, a question mark or a
  -- number sign, not empty and without spaces at their ends, which decodeURIComponent leaves, and
  -- where the ids with commas between them have at most 200 characters: the page reads back all of
  -- them, in their order, from an action that holds the texts of the update.
  pub backtest_run_ids_from_action-update :
      (plan : ValidationPlan N) (handles : List (Json N)) (id : String) (ids : List String)
      (action : Json N)
      → handle_ids num handles ≡ id ∷ ids
      → All IsId (id ∷ ids)
      → IsNodup (id ∷ ids)
      → count (join "," (id ∷ ids)) ≤ 200
      → decode id ≡ some id
      → some (text_of num (at_key "relatedId" (some action)))
        ≡ (backtest_action_update_from_validation_result num plan handles).related_id
      → some (text_of num (at_key "href" (some action)))
        ≡ (backtest_action_update_from_validation_result num plan handles).href
      → backtest_run_ids_from_action num decode (some action) ≡ some (handle_ids num handles)
  unfolding backtest_action_update_from_validation_result
  backtest_run_ids_from_action-update plan handles id ids action named valid fresh short decoded
        related href =
      rw named (
        read_back plan id ids action valid fresh short decoded
          (related ∙ ap (λ v. (action_update num plan v).related_id) named)
          (href ∙ ap (λ v. (action_update num plan v).href) named))
