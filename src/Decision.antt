-- ===== src/Decision.antt =====
-- The next step that the AI advises for a goal, from nothing to a candidate for the test network:
-- nextAIGoalDecision of client/data/ai-goal-preset.mjs. Of a decision, its texts (title, summary,
-- reasons and next actions) are not modelled.
pub mod Evidence
pub mod Compass
pub mod Gates
pub mod Words
pub mod Completion
pub mod Transition
use Prim.Native.String.{◌++◌}
use finance_next.Base.{
  ℕ, String, Bool, true, false, not, ◌&&◌, ◌||◌, Option, none, some, List, [], ◌∷◌, ◌++◌ as append,
  if◌then◌else◌, ◌==◌, leb, length, filter, has, string_key,
}
use finance_next.Json.{Json, text as json_text, at_key}
use finance_next.Numbers.{Numbers, less, whole, percent, truthy_value, truthy_text}
use finance_next.Auth.{trim}
use finance_next.Recent.{JsonCodec}
use finance_next.Preset.{is_text}
use finance_next.Preset.Draft.{BacktestRequest, backtest_request_from_draft}
use finance_next.Validation.{
  Arithmetic, Tone, success, warning, danger, Row, array_or_empty, number_or_zero,
  rank_backtest_validation,
}
use finance_next.Validation.Pick.{Links, PaperCandidate, paper_candidate_from_validation}
use finance_next.Decision.Evidence.{
  CompassStage, data_gap, balanced, heated, fearful, is_balanced, is_empty, not_blank, text_of,
  safe_string_list, persisted_action_by_id, started_ids, paper_watch_completion_has_evidence,
  sentiment_review_completed, signal_items_by_source, sentiment_temperature,
}
use finance_next.Decision.Compass.{
  runnable_backtest_requests_from_analysis, ai_sentiment_compass_from_analysis,
}

pub data Stage : Type 0 where
  no_data validating backtest redesign sentiment_review paper_candidate paper_watch
        testnet_candidate continue_paper :
      Stage

pub data PrimaryAction : Type 0 where
  open_link run_all_backtests analyze_and_validate accept_paper_candidate : PrimaryAction

pub record Decision (N : Type 0) : Type 0 where
  pub stage : Stage
  pub tone : Tone
  pub primary_href : Option (Json N)
  pub primary_action : Option PrimaryAction

-- What the decision depends on: `started` are the runs that the stored action names, and
-- `runnable` says whether some draft can be backtested.
pub record Facts (N : Type 0) : Type 0 where
  pub notes : List String
  pub ranked : List (Row N)
  pub candidate : Option (PaperCandidate N)
  pub started : List String
  pub backtest_href : Option (Json N)
  pub runnable : Bool
  pub watch : Option (Json N)
  pub watch_has_evidence : Bool
  pub review_completed : Bool
  pub compass : CompassStage

module _ {N : Type 0} (num : Numbers N) where
  abbrev pub is_unscored : Row N → Bool
  is_unscored row = elim row.score [ none ↦ true | some s ↦ false ]

  abbrev pub any_unscored : List (Row N) → Bool
  any_unscored [] = false
  any_unscored (row ∷ rows) = is_unscored row || any_unscored rows

  -- `score >= n`, where null is 0.
  abbrev pub at_least : Option N → ℕ → Bool
  at_least none n = num.leq (whole num n) (whole num 0)
  at_least (some s) n = num.leq (whole num n) s

  -- `canTestnet`
  unfoldable pub can_testnet : PaperCandidate N → Bool
  can_testnet c =
      at_least c.score 75
      && less num (whole num 0) c.total_return
      && num.leq (whole num 1) c.sharpe
      && num.leq c.max_drawdown (percent num 12)

  -- `v || s`
  abbrev pub href_or : Option (Json N) → String → Json N
  href_or none s = json_text s
  href_or (some v) s = if truthy_value num (some v) then v else json_text s

  abbrev pub advise : Stage → Tone → Option (Json N) → Option PrimaryAction → Decision N
  advise stage tone href action = record {
    stage = stage;
    tone = tone;
    primary_href = href;
    primary_action = action;
  }

  abbrev pub is_done : Json N → Bool
  is_done action = is_text (at_key "status" (some action)) "done"

  abbrev pub decide_watched : PaperCandidate N → Json N → Bool → Decision N
  decide_watched c watch has_evidence =
      let back : Json N = href_or (at_key "href" (some watch)) c.backtest_href in
      if not (is_done watch) || not has_evidence
      then advise paper_watch warning (some back) none
      else if can_testnet c
      then advise testnet_candidate success (some (json_text c.strategy_href)) (some open_link)
      else advise continue_paper warning (some back) none

  -- `watch` is the stored action, and `needs_review` the constant needsSentimentReview.
  abbrev pub decide_candidate : PaperCandidate N → Option (Json N) → Bool → Bool → Decision N
  decide_candidate c none has_evidence needs_review =
      if needs_review
      then advise sentiment_review warning (some (json_text "/data-explorer/news")) none
      else advise paper_candidate success (some (json_text c.backtest_href))
          (some accept_paper_candidate)
  decide_candidate c (some watch) has_evidence needs_review = decide_watched c watch has_evidence

  -- The page of the best run.
  abbrev pub best_href : Links N → List (Row N) → Option (Json N)
  best_href links [] = none
  best_href links (row ∷ rows) =
      if truthy_value num (some row.run_id)
      then some (json_text ("/backtests/" ++ links.component row.run_id))
      else none

  abbrev pub decide_unranked : Links N → List String → Option (Json N) → Bool → Decision N
  decide_unranked links [] href runnable =
      advise backtest warning none (if runnable then some run_all_backtests else none)
  decide_unranked links (id ∷ ids) href runnable =
      advise validating warning
        (some (href_or href ("/backtests/" ++ links.component (json_text id)))) (some open_link)

  abbrev pub decide_ended : Option (PaperCandidate N) → Option (Json N) → Bool → Bool → Decision N
  decide_ended none watch has_evidence needs_review =
      advise redesign danger none (some analyze_and_validate)
  decide_ended (some c) watch has_evidence needs_review =
      decide_candidate c watch has_evidence needs_review

  unfoldable pub decide : Links N → Facts N → Decision N
  decide links f =
      if not (is_empty f.notes) && is_empty f.ranked
      then advise no_data warning (some (json_text "/data-explorer/news")) none
      else if any_unscored f.ranked
      then advise validating warning (best_href links f.ranked) none
      else if is_empty f.ranked
      then decide_unranked links f.started f.backtest_href f.runnable
      else decide_ended f.candidate f.watch f.watch_has_evidence
          (not (is_balanced f.compass) && not f.review_completed)

module _ {N : Type 0} (num : Numbers N) (ar : Arithmetic N) (json : JsonCodec String N)
    (links : Links N) (lower upper : String → String) where
  abbrev pub facts_of : Option (Json N) → Option (Json N) → Option (Json N) → List String → Facts N
  facts_of analysis actions backtests started =
      let watch : Option (Json N) = persisted_action_by_id num actions "paper_watch" in
      record {
        notes = safe_string_list num (at_key "notes" (at_key "context" analysis));
        ranked = rank_backtest_validation num ar backtests;
        candidate =
            paper_candidate_from_validation num lower upper json links ar analysis backtests;
        started = started;
        backtest_href = at_key "href" (persisted_action_by_id num actions "backtest");
        runnable =
            not
              (is_empty (runnable_backtest_requests_from_analysis num lower upper "" "" analysis));
        watch = watch;
        watch_has_evidence = paper_watch_completion_has_evidence num lower watch;
        review_completed =
            sentiment_review_completed num lower
              (persisted_action_by_id num actions "sentiment_review");
        compass = ai_sentiment_compass_from_analysis num lower upper ar analysis;
      }

  abbrev pub decide_on : (List String → Facts N) → Option (List String) → Option (Decision N)
  decide_on facts none = none
  decide_on facts (some started) = some (decide num links (facts started))

  -- `decode` is decodeURIComponent: `none` where it throws on the href of the stored action.
  unfoldable pub next_ai_goal_decision :
      (String → Option String)
      → Option (Json N)
      → Option (Json N)
      → Option (Json N)
      → Option (Decision N)
  next_ai_goal_decision decode analysis actions backtests =
      decide_on (facts_of analysis actions backtests)
        (started_ids num lower decode (persisted_action_by_id num actions "backtest"))
