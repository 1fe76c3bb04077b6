-- ===== src/Validation/Pick.antt =====
-- The candidate for paper: paperCandidateFromValidation of client/data/ai-goal-preset.mjs.
use Prim.Native.String.{◌++◌}
use finance_next.Base.{
  String, Bool, false, Option, none, some, List, [], ◌∷◌, if◌then◌else◌, ◌==◌, string_key,
}
use finance_next.Json.{Json, text as json_text, at_key}
use finance_next.Numbers.{Numbers}
use finance_next.Recent.{JsonCodec}
use finance_next.Preset.Draft.{
  BacktestRequest, backtest_request_from_draft, strategy_preset_from_draft,
}
use finance_next.Validation.{
  Arithmetic, Recommendation, Row, is_paper_first, array_or_empty, rank_backtest_validation,
}

pub record PaperCandidate (N : Type 0) : Type 0 where
  pub draft : Json N
  pub run_id : Json N
  pub strategy_id : Json N
  pub score : Option N
  pub total_return : N
  pub sharpe : N
  pub max_drawdown : N
  pub n_trades : N
  pub recommendation : Recommendation
  pub strategy_href : String
  pub backtest_href : String

-- encodeURIComponent on what `String` prints, and the text of URLSearchParams.
pub record Links (N : Type 0) : Type 0 where
  pub component : Json N → String
  pub search : List (String × String) → String

-- `v === s`, s a text
abbrev pub is_id : {N : Type 0} → Json N → String → Bool
is_id (json_text t) s = s == t
is_id _ s = false

abbrev pub request_has_id : {N : Type 0} → Json N → Option (BacktestRequest N) → Bool
request_has_id v none = false
request_has_id v (some r) = is_id v r.strategy_id

module _ {N : Type 0} (num : Numbers N) (lower upper : String → String) where
  -- Would the backtest of a draft be that of a strategy's id? The dates play no part.
  unfoldable pub is_draft_of : Json N → Json N → Bool
  is_draft_of id draft = request_has_id id (backtest_request_from_draft num lower upper "" "" draft)

  abbrev pub find_draft : Json N → List (Json N) → Option (Json N)
  find_draft id [] = none
  find_draft id (d ∷ ds) = if is_draft_of id d then some d else find_draft id ds

  abbrev pub draft_for : List (Json N) → Row N → Option (Json N)
  draft_for drafts row =
      if is_paper_first row.recommendation then find_draft row.strategy_id drafts else none

module _ {N : Type 0} (num : Numbers N) (lower upper : String → String) (json : JsonCodec String N)
    (links : Links N) where
  -- A row and a draft, as the candidate.
  abbrev pub candidate_of : Row N → Json N → PaperCandidate N
  candidate_of row draft = record {
    draft = draft;
    run_id = row.run_id;
    strategy_id = row.strategy_id;
    score = row.score;
    total_return = row.total_return;
    sharpe = row.sharpe;
    max_drawdown = row.max_drawdown;
    n_trades = row.n_trades;
    recommendation = row.recommendation;
    strategy_href =
        "/option?" ++ links.search (strategy_preset_from_draft num lower upper json draft);
    backtest_href = "/backtests/" ++ links.component row.run_id;
  }

  abbrev pub first_candidate : List (Json N) → List (Row N) → Option (PaperCandidate N)
  first_candidate drafts [] = none
  first_candidate drafts (row ∷ rows) = elim (draft_for num lower upper drafts row) [
    | none ↦ first_candidate drafts rows
    | some draft ↦ some (candidate_of row draft)
  ]

  unfoldable pub paper_candidate_from_validation :
      Arithmetic N → Option (Json N) → Option (Json N) → Option (PaperCandidate N)
  paper_candidate_from_validation ar analysis backtests =
      first_candidate (array_or_empty (at_key "strategyDrafts" analysis))
        (rank_backtest_validation num ar backtests)
