-- ===== src/Decision/Compass.antt =====
-- The drafts that can be backtested and the stage of the sentiment compass, as the decision on a goal
-- reads them (client/data/ai-goal-preset.mjs).
use Prim.Native.String.{◌++◌}
use finance_next.Base.{
  String, Bool, false, not, ◌&&◌, ◌||◌, Option, none, some, List, [], ◌∷◌, ◌++◌ as append,
  if◌then◌else◌, ◌==◌, leb, length, filter, has, string_key,
}
use finance_next.Json.{Json, at_key}
use finance_next.Numbers.{Numbers, less, whole, truthy_value}
use finance_next.Auth.{trim}
use finance_next.Preset.Draft.{BacktestRequest, backtest_request_from_draft}
use finance_next.Validation.{Arithmetic, array_or_empty, number_or_zero}
use finance_next.Decision.Evidence.{
  CompassStage, data_gap, balanced, heated, fearful, is_empty, not_blank, text_of, safe_string_list,
  signal_items_by_source, sentiment_temperature,
}

abbrev pub key_of : {N : Type 0} → BacktestRequest N → String
key_of r = r.strategy_id ++ ":" ++ r.symbol

module _ {N : Type 0} (num : Numbers N) (lower upper : String → String) where
  -- The keys of `runnableBacktestRequestsFromAnalysis`'s list are those not seen before.
  abbrev pub take_new :
      Option (BacktestRequest N)
      → Json N
      → List String
      → (List String → List (Json N × BacktestRequest N))
      → List (Json N × BacktestRequest N)
  take_new none draft seen rest = rest seen
  take_new (some r) draft seen rest =
      if has (key_of r) seen then rest seen else (draft, r) ∷ rest (key_of r ∷ seen)

  abbrev pub runnable_requests :
      String → String → List (Json N) → List String → List (Json N × BacktestRequest N)
  runnable_requests start stop [] seen = []
  runnable_requests start stop (d ∷ ds) seen =
      take_new (backtest_request_from_draft num lower upper start stop d) d seen
        λ seen'. runnable_requests start stop ds seen'

  unfoldable pub runnable_backtest_requests_from_analysis :
      String → String → Option (Json N) → List (Json N × BacktestRequest N)
  runnable_backtest_requests_from_analysis start stop analysis =
      runnable_requests start stop (array_or_empty (at_key "strategyDrafts" analysis)) []

  -- The rows of `riskRows`.
  abbrev pub risk_text : Json N → String
  risk_text item =
      let read : String = text_of num (at_key "interpretation" (some item)) in
      trim (if read == "" then text_of num (at_key "signal" (some item)) else read)

  abbrev pub risk_texts : List (Json N) → List String
  risk_texts [] = []
  risk_texts (item ∷ items) = risk_text item ∷ risk_texts items

  abbrev pub risk_rows : List String → List (Json N) → List String
  risk_rows human_factors watch_signals = filter not_blank (
      append human_factors (
        risk_texts
          (signal_items_by_source num lower watch_signals ("macro" ∷ "onchain" ∷ "price" ∷ []))))

  abbrev pub stage_of : CompassStage → Bool → CompassStage
  stage_of heated many = heated
  stage_of fearful many = if many then heated else fearful
  stage_of balanced many = if many then heated else balanced
  stage_of data_gap many = if many then heated else balanced

  -- The sum of two numbers, `none` where it is not finite.
  abbrev pub sum_of : Arithmetic N → Option N → Option N → Option N
  sum_of ar none b = none
  sum_of ar (some a) none = none
  sum_of ar (some a) (some b) = ar.add a b

  -- Counts are finite, so that a sum that is not was a count that is no number.
  abbrev pub exceeds_zero : Option N → Bool
  exceeds_zero none = false
  exceeds_zero (some n) = less num (whole num 0) n

  -- The stage of `aiSentimentCompassFromAnalysis`.
  unfoldable pub ai_sentiment_compass_from_analysis : Arithmetic N → Option (Json N) → CompassStage
  ai_sentiment_compass_from_analysis ar analysis =
      let context : Option (Json N) = at_key "context" analysis in
      let human_factors : List String = safe_string_list num (at_key "humanFactors" analysis) in
      let watch_signals : List (Json N) = array_or_empty (at_key "watchSignals" analysis) in
      let count : String → Option N = λ key. number_or_zero num (at_key key context) in
      let has_context : Bool =
        exceeds_zero
          (sum_of ar (sum_of ar (count "newsCount") (count "macroCount")) (count "onchainCount")) in
      if not (truthy_value num analysis)
        || not has_context && not (is_empty (safe_string_list num (at_key "notes" context)))
      then data_gap
      else stage_of (sentiment_temperature num lower human_factors watch_signals context)
          (leb 3 (length (risk_rows human_factors watch_signals)))
