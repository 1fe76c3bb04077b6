-- ===== src/Tests/Validation.antt =====
-- Tests of the ranking of backtests and of the candidate for paper (client/data/ai-goal-preset.mjs).
use Prim.Native.Nat.{◌/◌}
use finance_next.Base.{ℕ, String, ◌≡◌, refl, true, some, Option, List, [], ◌∷◌, ◌+◌, ◌-◌, ◌*◌}
use finance_next.Json.{Json, number, text, array, object, nil, cons, end, member, at_key}
use finance_next.Preset.{normalize_name}
use finance_next.Preset.Draft.{backtest_request_from_draft}
use finance_next.Validation.{
  Arithmetic, Row, array_or_empty, rows_of, row_of, recommend, raw_score, clamp_score,
  rank_backtest_validation, validation_runs_need_polling,
}
use finance_next.Validation.Pick.{
  Links, PaperCandidate, is_draft_of, candidate_of, paper_candidate_from_validation,
}
use finance_next.Validation.Ranking.{IsRanking, rank_backtest_validation-IsRanking}
use finance_next.Validation.Candidate.{IsBest, paper_candidate_from_validation-IsBest}
use finance_next.Tests.Preset.{decimals, decimals-IsOrdered, two_rows, same_text}

-- The arithmetic of ten-thousandths from 0 on.
abbrev pub plain : Arithmetic ℕ
plain = record {
  add = λ a b. some (a + b);
  subtract = λ a b. some (a - b);
  multiply = λ a b. some (a * b / 10000);
  divide = λ a b. some (a * 10000 / b);
  abs = λ a. a;
}

abbrev pub links : Links ℕ
links = record { component = λ v. "r"; search = λ ps. "s" }

abbrev pub run : String → String → ℕ → ℕ → Json ℕ
run id strategy state gain = object (
    member "runId" (text id) (
      member "strategyId" (text strategy) (
        member "state" (number state) (
          member "metrics"
            (object (
              member "total_return" (number gain) (
                member "sharpe" (number 20000)
                  (member "max_dd" (number 500) (member "n_trades" (number 400000) end)))))
            end))))

-- A run that goes on, a failed one, and two that are finished, the better one last.
abbrev pub runs : Option (Json ℕ)
runs = some (
    array (
      cons (run "1" "btcgridc" 20000 0) (
        cons (run "2" "btcgridc" 40000 0)
          (cons (run "3" "btcgridc" 30000 100) (cons (run "4" "btcgridc" 30000 3000) nil)))))

abbrev pub draft : String → String → Json ℕ
draft name symbol = object (
    member "name" (text name) (member "symbol" (text symbol) (member "kind" (text "grid_dca") end)))

-- Two drafts for two markets, whose names have the same first eight letters.
abbrev analysis : Option (Json ℕ)
analysis = some (
    object (
      member "strategyDrafts"
        (array (cons (draft "btcgridcore" "BTC") (cons (draft "btcgridcalm" "ETH") nil))) end))

ids : List (Row ℕ) → List (Json ℕ)
ids [] = []
ids (r ∷ rs) = r.run_id ∷ ids rs

ranked_test :
    ids (rank_backtest_validation decimals plain runs)
    ≡ text "4" ∷ text "3" ∷ text "2" ∷ text "1" ∷ []
unfolding ids rank_backtest_validation row_of recommend raw_score clamp_score
ranked_test = refl

polling_test : validation_runs_need_polling decimals runs ≡ true
unfolding validation_runs_need_polling
polling_test = refl

rank_backtest_validation-IsRanking_example :
    IsRanking decimals
      (rows_of decimals plain (array_or_empty runs))
      (rank_backtest_validation decimals plain runs)
rank_backtest_validation-IsRanking_example =
    rank_backtest_validation-IsRanking decimals-IsOrdered plain runs

-- The draft of the first market takes the run, which may be that of the second.
abbrev first_draft : PaperCandidate ℕ
first_draft =
    candidate_of decimals same_text same_text two_rows links
      (row_of decimals plain (run "4" "btcgridc" 30000 3000)) (draft "btcgridcore" "BTC")

paper_candidate_from_validation-IsBest_example :
    IsBest decimals same_text same_text two_rows links
      (array_or_empty (at_key "strategyDrafts" analysis))
      (rank_backtest_validation decimals plain runs)
      first_draft
paper_candidate_from_validation-IsBest_example =
    paper_candidate_from_validation-IsBest decimals-IsOrdered same_text same_text two_rows links
      plain analysis runs first_draft
      (unfold paper_candidate_from_validation rank_backtest_validation row_of recommend raw_score
          clamp_score is_draft_of backtest_request_from_draft normalize_name in
        refl)

shared_id_test :
    is_draft_of decimals same_text same_text (text "btcgridc") (draft "btcgridcalm" "ETH") ≡ true
unfolding is_draft_of backtest_request_from_draft normalize_name
shared_id_test = refl
