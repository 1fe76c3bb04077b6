-- ===== src/Validation.antt =====
-- How the AI ranks the backtests of its drafts: rankBacktestValidation and
-- validationRunsNeedPolling of client/data/ai-goal-preset.mjs. A run is the untyped value of an
-- answer.
pub mod Pick
pub mod Rows
pub mod Ranking
pub mod Candidate
use Prim.Native.String.{◌++◌}
use finance_next.Base.{
  ℕ, String, Bool, true, false, not, ◌&&◌, ◌||◌, Option, none, some, List, [], ◌∷◌, if◌then◌else◌,
  ◌==◌, string_key, sort,
}
use finance_next.Json.{
  Json, Items, Members, null, boolean, number, text as json_text, array, object, nil, cons, at_key,
}
use finance_next.Numbers.{Numbers, less, lesser, whole, percent, to_number, truthy_value}
use finance_next.Recent.{JsonCodec}
use finance_next.Preset.Draft.{
  BacktestRequest, backtest_request_from_draft, strategy_preset_from_draft,
}

infixl 5 ◌>>=◌
abbrev ◌>>=◌ : {A B : Type 0} → Option A → (A → Option B) → Option B
◌>>=◌ none f = none
◌>>=◌ (some a) f = f a

-- Addition, subtraction, multiplication and division: `none` where the result is not finite, which
-- it is then for all that is computed from it. `abs` is Math.abs.
pub record Arithmetic (N : Type 0) : Type 0 where
  pub add : N → N → Option N
  pub subtract : N → N → Option N
  pub multiply : N → N → Option N
  pub divide : N → N → Option N
  pub abs : N → N

-- 失败, 验证中, 继续观察, 优先 paper and 淘汰.
pub data Recommendation : Type 0 where
  failed validating keep_watching paper_first drop : Recommendation

pub data Tone : Type 0 where
  success warning danger : Tone

pub record Row (N : Type 0) : Type 0 where
  pub run_id : Json N
  pub strategy_id : Json N
  pub state : Option N
  pub progress : Option N
  pub score : Option N
  pub total_return : N
  pub sharpe : N
  pub max_drawdown : N
  pub n_trades : N
  pub recommendation : Recommendation
  pub tone : Tone

abbrev pub is_paper_first : Recommendation → Bool
is_paper_first paper_first = true
is_paper_first _ = false

-- The elements of an array.
abbrev pub elements : {N : Type 0} → Items N → List (Json N)
elements nil = []
elements (cons v vs) = v ∷ elements vs

-- `Array.isArray(v) ? v : []`
abbrev pub array_or_empty : {N : Type 0} → Option (Json N) → List (Json N)
array_or_empty (some (array vs)) = elements vs
array_or_empty _ = []

abbrev pub or_number : {N : Type 0} → Option N → N → N
or_number none fallback = fallback
or_number (some n) fallback = n

module _ {N : Type 0} (num : Numbers N) where
  -- Is a number the whole number n?
  abbrev pub is_whole : Option N → ℕ → Bool
  is_whole none n = false
  is_whole (some a) n = num.leq a (whole num n) && num.leq (whole num n) a

  -- `v || ""`
  abbrev pub or_blank : Option (Json N) → Json N
  or_blank none = json_text ""
  or_blank (some v) = if truthy_value num (some v) then v else json_text ""

  -- `Number(v || 0)`
  abbrev pub number_or_zero : Option (Json N) → Option N
  number_or_zero v = if truthy_value num v then to_number num v else some (whole num 0)

  abbrev pub metric_of : Json N → String → N
  metric_of run key =
      or_number (to_number num (at_key key (at_key "metrics" (some run)))) (whole num 0)

  -- `clampScore`, on a number that may not be finite.
  unfoldable pub clamp_score : Option N → N
  clamp_score none = whole num 0
  clamp_score (some n) =
      let low : N = lesser num (whole num 100) (num.round n) in
      if num.leq (whole num 0) low then low else whole num 0

  unfoldable pub recommend : N → N → N → N → Recommendation × Tone
  recommend score total_return sharpe max_drawdown =
      if num.leq (whole num 70) score
        && less num (whole num 0) total_return
        && num.leq (whole num 1) sharpe
        && num.leq max_drawdown (percent num 20)
      then (paper_first, success)
      else if less num score (whole num 50) || num.leq total_return (whole num 0)
      then (drop, danger)
      else (keep_watching, warning)

  -- Is the comparison of two rows at most 0? Scores lie between 0 and 100, so that the sign of
  -- their difference is their order.
  abbrev pub stays_by : Option N → Option N → Bool
  stays_by a none = true
  stays_by none (some b) = false
  stays_by (some a) (some b) = num.leq b a

  abbrev pub stays_before : Row N → Row N → Bool
  stays_before a b = stays_by a.score b.score

  abbrev pub needs_polling : Json N → Option N → Bool
  needs_polling run none =
      truthy_value num (at_key "runId" (some run)) || truthy_value num (at_key "id" (some run))
  needs_polling run (some state) = not (is_whole (some state) 3) && not (is_whole (some state) 4)

  abbrev pub any_polling : List (Json N) → Bool
  any_polling [] = false
  any_polling (run ∷ runs) =
      needs_polling run (to_number num (at_key "state" (some run))) || any_polling runs

  unfoldable pub validation_runs_need_polling : Option (Json N) → Bool
  validation_runs_need_polling backtests = any_polling (array_or_empty backtests)

module _ {N : Type 0} (num : Numbers N) (ar : Arithmetic N) where
  -- `50 + totalReturn * 180 + sharpe * 12 - maxDrawdown * 160 + tradeConfidence * 8`
  unfoldable pub raw_score : N → N → N → N → Option N
  raw_score total_return sharpe max_drawdown n_trades = do
    confidence ← ar.divide (lesser num n_trades (whole num 30)) (whole num 30)
    gain ← ar.multiply total_return (whole num 180)
    a ← ar.add (whole num 50) gain
    steady ← ar.multiply sharpe (whole num 12)
    b ← ar.add a steady
    loss ← ar.multiply max_drawdown (whole num 160)
    c ← ar.subtract b loss
    trust ← ar.multiply confidence (whole num 8)
    ar.add c trust

  -- The row of a run, with the score and the words of its state.
  abbrev pub row_with : Json N → Option N → Recommendation × Tone → Row N
  row_with run score words = record {
    run_id = or_blank num (at_key "runId" (some run));
    strategy_id = or_blank num (at_key "strategyId" (some run));
    state = to_number num (at_key "state" (some run));
    progress = number_or_zero num (at_key "progress" (some run));
    score = score;
    total_return = metric_of num run "total_return";
    sharpe = metric_of num run "sharpe";
    max_drawdown = ar.abs (metric_of num run "max_dd");
    n_trades = metric_of num run "n_trades";
    recommendation = words.0;
    tone = words.1;
  }

  abbrev pub run_score : Json N → N
  run_score run = clamp_score num (
      raw_score (metric_of num run "total_return") (metric_of num run "sharpe")
        (ar.abs (metric_of num run "max_dd")) (metric_of num run "n_trades"))

  unfoldable pub row_of : Json N → Row N
  row_of run =
      let state : Option N = to_number num (at_key "state" (some run)) in
      if is_whole num state 4
      then row_with run (some (whole num 0)) (failed, danger)
      else if not (is_whole num state 3)
      then row_with run none (validating, warning)
      else row_with run (some (run_score run)) (
          recommend num (run_score run) (metric_of num run "total_return")
            (metric_of num run "sharpe") (ar.abs (metric_of num run "max_dd")))

  abbrev pub rows_of : List (Json N) → List (Row N)
  rows_of [] = []
  rows_of (run ∷ runs) = row_of run ∷ rows_of runs

  unfoldable pub rank_backtest_validation : Option (Json N) → List (Row N)
  rank_backtest_validation backtests = sort (stays_before num) (rows_of (array_or_empty backtests))
