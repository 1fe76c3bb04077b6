-- ===== src/Decision/Evidence.antt =====
-- What a decision on an AI goal reads from the analysis and from the stored actions, in
-- client/data/ai-goal-preset.mjs: the notes of an action, the runs that an action names, and the
-- stage of the sentiment compass.
use Prim.Native.Char.{code}
use Prim.Native.String.{◌++◌}
use finance_next.Base.{
  ℕ, String, Bool, true, false, not, ◌&&◌, ◌||◌, Option, none, some, List, [], ◌∷◌, ◌++◌ as append,
  if◌then◌else◌, ◌==◌, filter, has, add, map, string_key, nat_key,
}
use finance_next.Json.{Json, at_key}
use finance_next.Numbers.{Numbers, less, whole, truthy_text}
use finance_next.Auth.{starts_with, trim}
use finance_next.Palette.{includes}
use finance_next.Preset.{first_given, is_text}
use finance_next.Validation.{array_or_empty, number_or_zero}

pub data CompassStage : Type 0 where
  data_gap balanced heated fearful : CompassStage

abbrev pub is_balanced : CompassStage → Bool
is_balanced balanced = true
is_balanced _ = false

abbrev pub is_empty : {A : Type 0} → List A → Bool
is_empty [] = true
is_empty (x ∷ xs) = false

-- `[first, ...].some(...)` on words, and `every` on groups of words.
abbrev pub any_word : (String → Bool) → List String → Bool
any_word p [] = false
any_word p (w ∷ ws) = p w || any_word p ws

abbrev pub all_groups : (List String → Bool) → List (List String) → Bool
all_groups p [] = true
all_groups p (g ∷ gs) = p g && all_groups p gs

abbrev pub not_blank : String → Bool
not_blank s = not (s == "")

-- `parts.join(" ")`
abbrev pub join_words : List String → String
join_words [] = ""
join_words (w ∷ []) = w
join_words (w ∷ v ∷ ws) = w ++ " " ++ join_words (v ∷ ws)

abbrev pub on_head : (String → String) → List String → List String
on_head f [] = f "" ∷ []
on_head f (w ∷ ws) = f w ∷ ws

-- `s.split(",")`
unfoldable pub split_commas : String → List String
split_commas String.[] = "" ∷ []
split_commas (String.◌∷◌ c s) =
    let parts = split_commas s in if code c == 44 then "" ∷ parts else on_head (String.◌∷◌ c) parts

-- The text up to the first `/`, `?` or `#`.
unfoldable pub segment : String → String
segment String.[] = ""
segment (String.◌∷◌ c s) =
    let rest = segment s in
    if code c == 47 || code c == 63 || code c == 35 then "" else String.◌∷◌ c rest

abbrev pub drop_chars : ℕ → String → String
drop_chars ℕ.zero s = s
drop_chars (ℕ.suc n) String.[] = ""
drop_chars (ℕ.suc n) (String.◌∷◌ c s) = drop_chars n s

-- The group of `href.match(/\/backtests\/([^/?#]+)/)`, which is not empty: "/backtests/" has 11
-- characters.
unfoldable pub backtest_in : String → Option String
unfolding segment
backtest_in String.[] = none
backtest_in (String.◌∷◌ c s) =
    let later = backtest_in s in
    let id = segment (drop_chars 11 (String.◌∷◌ c s)) in
    if starts_with (String.◌∷◌ c s) "/backtests/" && not_blank id then some id else later

-- `add` of backtestRunIdsFromAction on several values.
abbrev pub add_ids : List String → List String → List String
add_ids [] ids = ids
add_ids (v ∷ vs) ids = add_ids vs (if not_blank (trim v) then add (trim v) ids else ids)

abbrev pub add_decoded : List String → Option String → Option (List String)
add_decoded ids none = none
add_decoded ids (some id) = some (add_ids (id ∷ []) ids)

module _ {N : Type 0} (num : Numbers N) where
  -- `String(v || "")`
  abbrev pub text_of : Option (Json N) → String
  text_of v = first_given (truthy_text num v) ""

  abbrev pub trimmed : List (Json N) → List String
  trimmed vs = map (λ v. trim (text_of (some v))) vs

  -- `safeStringList`
  abbrev pub safe_string_list : Option (Json N) → List String
  safe_string_list v = filter not_blank (trimmed (array_or_empty v))

  abbrev pub find_action : String → List (Json N) → Option (Json N)
  find_action id [] = none
  find_action id (a ∷ actions) =
      if is_text (at_key "id" (some a)) id then some a else find_action id actions

  -- `persistedActionById`
  abbrev pub persisted_action_by_id : Option (Json N) → String → Option (Json N)
  persisted_action_by_id actions id = find_action id (array_or_empty actions)

  -- `decode` is decodeURIComponent, and `none` where it throws.
  unfoldable pub backtest_run_ids_from_action :
      (String → Option String) → Option (Json N) → Option (List String)
  backtest_run_ids_from_action decode action =
      let ids : List String = add_ids (split_commas (text_of (at_key "relatedId" action))) [] in
      elim (backtest_in (text_of (at_key "href" action))) [
        | none ↦ some ids
        | some id ↦ add_decoded ids (decode id)
      ]

module _ {N : Type 0} (num : Numbers N) (lower : String → String) where
  -- Does a text have a word of each group?
  abbrev pub has_groups : String → List (List String) → Bool
  has_groups note groups = all_groups (any_word (λ w. includes note (lower w))) groups

  -- The runs that the action of the backtests names, once that is done.
  abbrev pub started_ids : (String → Option String) → Option (Json N) → Option (List String)
  started_ids decode action =
      if lower (text_of num (at_key "status" action)) == "done"
      then backtest_run_ids_from_action num decode action
      else some []

  unfoldable pub paper_watch_completion_has_evidence : Option (Json N) → Bool
  paper_watch_completion_has_evidence action =
      let note : String = lower (text_of num (at_key "note" action)) in
      not_blank note
      && has_groups note (
          ("24-72" ∷ "24h" ∷ "72h" ∷ "观察" ∷ [])
          ∷ ("市场风向" ∷ "market" ∷ [])
          ∷ ("舆论" ∷ "sentiment" ∷ "情绪" ∷ [])
          ∷ ("人性偏差" ∷ "fomo" ∷ "behavior" ∷ [])
          ∷ ("执行摩擦" ∷ "滑点" ∷ "friction" ∷ [])
          ∷ ("回撤" ∷ "drawdown" ∷ "日亏损" ∷ [])
          ∷ ("测试网" ∷ "不进入主网" ∷ "testnet" ∷ "mainnet" ∷ [])
          ∷ [])

  unfoldable pub sentiment_review_completion_has_evidence : Option (Json N) → Bool
  sentiment_review_completion_has_evidence action =
      let note : String = lower (text_of num (at_key "note" action)) in
      not (not_blank note)
      || has_groups note (
          ("市场风向" ∷ "market" ∷ [])
          ∷ ("舆论" ∷ "sentiment" ∷ "情绪" ∷ [])
          ∷ ("人性偏差" ∷ "拥挤" ∷ "fomo" ∷ "behavior" ∷ "crowding" ∷ [])
          ∷ [])

  unfoldable pub sentiment_review_completed : Option (Json N) → Bool
  sentiment_review_completed action =
      is_text (at_key "status" action) "done" && sentiment_review_completion_has_evidence action

  -- The signals whose source is one of the words.
  abbrev pub signal_items_by_source : List (Json N) → List String → List (Json N)
  signal_items_by_source signals sources =
      filter (λ item. has (lower (text_of num (at_key "source" (some item)))) sources) signals

  -- The stage that `sentimentTemperature` gives, `data_gap` for its data gap.
  unfoldable pub sentiment_temperature :
      List String → List (Json N) → Option (Json N) → CompassStage
  sentiment_temperature human_factors watch_signals context =
      let signals : List String =
        map (λ item. text_of num (at_key "signal" (some item))) watch_signals in
      let joined : String = lower (join_words (append human_factors signals)) in
      if any_word (λ w. includes joined (lower w)) ("fomo" ∷ "贪婪" ∷ "过热" ∷ "拥挤" ∷ "追涨" ∷ "热度" ∷ [])
      then heated
      else if any_word (λ w. includes joined (lower w)) ("恐慌" ∷ "panic" ∷ "抛售" ∷ "冷却" ∷ "低迷" ∷ [])
      then fearful
      else if is_positive (number_or_zero num (at_key "newsCount" context))
          || not (is_empty watch_signals)
      then balanced
      else data_gap
    where
      is_positive : Option N → Bool
      is_positive none = false
      is_positive (some n) = less num (whole num 0) n
