-- ===== src/Tests/Decision.antt =====
-- Tests of the decision on a goal (client/data/ai-goal-preset.mjs).
use finance_next.Base.{ℕ, String, ◌≡◌, refl, true, none, some, Option, List, [], ◌∷◌}
use finance_next.Json.{Json, number, text, array, object, nil, cons, end, member}
use finance_next.Preset.{normalize_name}
use finance_next.Preset.Draft.{backtest_request_from_draft}
use finance_next.Validation.{rank_backtest_validation, row_of, recommend, raw_score, clamp_score}
use finance_next.Validation.Pick.{paper_candidate_from_validation, is_draft_of}
use finance_next.Decision.{
  Stage, Decision, testnet_candidate, paper_watch, validating, decide, can_testnet, facts_of,
  is_done, next_ai_goal_decision,
}
use finance_next.Decision.Compass.{ai_sentiment_compass_from_analysis}
use finance_next.Decision.Evidence.{
  split_commas, backtest_in, backtest_run_ids_from_action, paper_watch_completion_has_evidence,
  sentiment_temperature, segment,
}
use finance_next.Decision.Transition.{Transition, manual_action_transition}
use finance_next.Decision.Completion.{KeepsWords, holding, manual_action_transition-completes}
use finance_next.Decision.Gates.{Justifies, next_ai_goal_decision-Justifies}
use finance_next.Tests.Preset.{decimals, two_rows, same_text}
use finance_next.Tests.Validation.{plain, links, run, draft, runs}

abbrev decode : String → Option String
decode s = some s

ids_test :
    backtest_run_ids_from_action decimals decode (
      some
        (object (member "relatedId" (text "a, b,,a") (member "href" (text "/backtests/c?x") end))))
    ≡ some ("a" ∷ "b" ∷ "c" ∷ [])
unfolding backtest_run_ids_from_action split_commas backtest_in segment
ids_test = refl

abbrev ended : Option (Json ℕ)
ended = some (array (cons (run "4" "btcgridc" 30000 3000) nil))

abbrev plan : Option (Json ℕ)
plan = some (
    object (
      member "strategyDrafts" (array (cons (draft "btcgridcore" "BTC") nil))
        (member "context" (object (member "newsCount" (number 30000) end)) end)))

abbrev watched : String → Option (Json ℕ)
watched note = some (
    array (
      cons
        (object (
          member "id" (text "paper_watch")
            (member "status" (text "done") (member "note" (text note) end))))
        nil))

abbrev reviewed : String
reviewed = "24-72 小时：市场风向、舆论变化、人性偏差、执行摩擦和回撤表现；只允许进入测试网前检查。"

abbrev decided : Option (Json ℕ) → Option (Json ℕ) → Option (Decision ℕ)
decided actions backtests =
    next_ai_goal_decision decimals plain two_rows links same_text same_text decode plan actions
      backtests

stages : Option (Decision ℕ) → List Stage
stages none = []
stages (some d) = d.stage ∷ []

testnet_test : stages (decided (watched reviewed) ended) ≡ testnet_candidate ∷ []
unfolding stages next_ai_goal_decision decide can_testnet ai_sentiment_compass_from_analysis
    sentiment_temperature paper_watch_completion_has_evidence paper_candidate_from_validation
    rank_backtest_validation row_of recommend raw_score clamp_score is_draft_of
    backtest_request_from_draft normalize_name
testnet_test = refl

thin_review_test : stages (decided (watched "24h") ended) ≡ paper_watch ∷ []
unfolding stages next_ai_goal_decision decide can_testnet ai_sentiment_compass_from_analysis
    sentiment_temperature paper_watch_completion_has_evidence paper_candidate_from_validation
    rank_backtest_validation row_of recommend raw_score clamp_score is_draft_of
    backtest_request_from_draft normalize_name
thin_review_test = refl

waiting_test : stages (decided (watched reviewed) runs) ≡ validating ∷ []
unfolding stages next_ai_goal_decision decide can_testnet ai_sentiment_compass_from_analysis
    sentiment_temperature paper_watch_completion_has_evidence paper_candidate_from_validation
    rank_backtest_validation row_of recommend raw_score clamp_score is_draft_of
    backtest_request_from_draft normalize_name
waiting_test = refl

next_ai_goal_decision-Justifies_example :
    (d : Decision ℕ) × (decided (watched reviewed) ended ≡ some d)
    × Justifies decimals
        (facts_of decimals plain two_rows links same_text same_text plan
          (watched reviewed)
          ended
          [])
        d.stage
next_ai_goal_decision-Justifies_example =
    next_ai_goal_decision-Justifies decimals plain two_rows links same_text same_text decode plan
      (watched reviewed) ended [] refl

same_text-KeepsWords : KeepsWords same_text
same_text-KeepsWords = record { lower_word = λ w h. refl; keeps = λ s w h k. k }

abbrev on_paper : Json ℕ
on_paper = object (
    member "id" (text "paper_watch")
      (member "status" (text "manual") (member "note" (text "ok") end)))

manual_action_transition-completes_example :
    (t : Transition) × (manual_action_transition decimals same_text (some on_paper) ≡ some t)
    × (is_done decimals (holding t) ≡ true)
    × (paper_watch_completion_has_evidence decimals same_text (some (holding t)) ≡ true)
manual_action_transition-completes_example =
    manual_action_transition-completes decimals same_text same_text-KeepsWords on_paper refl refl
      refl

-- A blocked watch is not offered for completion.
blocked_test :
    manual_action_transition decimals same_text
      (some (object (member "id" (text "paper_watch") (member "status" (text "blocked") end))))
    ≡ none
unfolding manual_action_transition
blocked_test = refl
