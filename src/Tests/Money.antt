-- ===== src/Tests/Money.antt =====
-- Tests of the handlers of the AI Money page (client/app/(dashboard)/ai-money/client.tsx).
use mathlib.Core.Path.{subst}
use finance_next.Base.{
  All, ℕ, String, true, false, ◌≡◌, refl, Option, none, some, List, [], ◌∷◌, ap, arith,
}
use finance_next.Json.{Json, text, array, object, cons, nil, end, member, null}
use finance_next.Preset.Draft.{BacktestRequest, backtest_request_from_draft}
use finance_next.Preset.{normalize_name, normalize_symbol, grid_dca}
use finance_next.Decision.Compass.{runnable_backtest_requests_from_analysis}
use finance_next.Decision.Evidence.{backtest_run_ids_from_action}
use finance_next.Validation.Pick.{PaperCandidate, candidate_of}
use finance_next.Validation.{row_of}
use finance_next.Money.State.{
  Analysis, Run, ActionPatch, PageRequest, backtesting, Ended, gave, threw, Gateway, Page,
}
use finance_next.Money.Provider.{
  ai_settings_return_auto_run_decision, auto_daily_radar_decision, Gate, blocked, ready,
}
use finance_next.Money.Plan.{
  auto_validation_plan_from_analysis, backtest_action_update_from_validation_result,
}
use finance_next.Money.Batch.{no_more, one_more, run_validation_backtests-threw}
use finance_next.Money.Order.{
  SavedInOrder, draft_payload, save_and_accept_paper_candidate-SavedInOrder,
}
use finance_next.Money.Handles.{backtest_run_ids_from_action-update}
use finance_next.Money.Handoff.{OptionPayload, Hrefs}
use finance_next.Money.Client.{Client}
use finance_next.Money.Scans
use finance_next.Money.Actions
use finance_next.Money.Logic.{Returns}
use finance_next.Money.Sound.{IsResting, AsksNoGoal}
use finance_next.Money.Commands.{
  typed, submit, open_old, refresh_old, backtest_all, save_and_accept, refresh_list, perform,
  perform_all, ListsTidy, perform_all-IsResting, perform_all-AsksNoGoal,
}
use finance_next.Money.Returned.{perform-Returns}
use finance_next.Money.Runs.{IsTidy}
use finance_next.Money.Auto.{Seen, on_return, on_day, loaded_keys, starts, IsPaced, starts-IsPaced}
use finance_next.Tests.Preset.{decimals, two_rows, same_text}
use finance_next.Tests.Validation.{plain, links, run, draft}
use finance_next.Tests.Goal.{greedy}

abbrev Sent : Type 0
Sent = List (PageRequest ℕ (OptionPayload ℕ))

-- An analysis with two drafts for two markets.
abbrev goal_analysis : Analysis ℕ
goal_analysis = record {
  id = "run-1";
  value = object (
      member "strategyDrafts"
        (array (cons (draft "btcgridcore" "BTC") (cons (draft "ethgridcalm" "ETH") nil))) end);
}

abbrev goal_run : Run ℕ
goal_run = record { id = "run-1"; analysis = some goal_analysis; value = goal_analysis.value }

abbrev handle : String → Json ℕ
handle id = object (member "runId" (text id) end)

-- A gateway that answers everything but a second request after the first two.
abbrev gateway : Gateway String ℕ (OptionPayload ℕ)
gateway = record {
  list_runs = λ sent. gave (goal_run ∷ []);
  analyze = λ sent r. gave goal_analysis;
  get_run = λ sent id. gave goal_run;
  update_action = λ sent id action patch. gave goal_run;
  create_backtest = λ sent r. elim sent [ [] ↦ gave (handle "7") | ◌∷◌ first rest ↦ threw "busy" ];
  create_option = λ sent payload. gave (handle "9");
}

abbrev hrefs : Hrefs ℕ
hrefs = record { parse = λ s. none; set_param = λ k v s. s; fixed = λ n v. "" }

abbrev client : Gate → Client String ℕ
client gate = record {
  num = decimals;
  ar = plain;
  json = two_rows;
  links = links;
  hrefs = hrefs;
  lower = same_text;
  upper = same_text;
  gateway = gateway;
  provider = gate;
  day = "2026-01-01";
  now = "now";
  start = "start";
  stop = "end";
  iso = λ v. "now";
  message = same_text;
}

abbrev open_gate : Gate
open_gate = record {
  stage = ready;
  block_manual_analysis = false;
  block_auto_radar = false;
  primary_href = "";
}

abbrev closed_gate : Gate
closed_gate = record open_gate { stage = blocked; block_manual_analysis = true }

abbrev page : Page String ℕ (OptionPayload ℕ)
page = record {
  form = greedy;
  analysis = some goal_analysis;
  active_run = none;
  runs = [];
  error = none;
  run_error = none;
  busy = false;
  runs_busy = false;
  backtest_busy_key = none;
  batch_backtest_busy = false;
  pipeline_busy = false;
  action_busy_key = none;
  strategy_save_busy_key = none;
  validation_runs = [];
  validation_error = none;
  pushed = [];
  sent = [];
}

abbrev candidate : PaperCandidate ℕ
candidate =
    candidate_of decimals same_text same_text two_rows links
      (row_of decimals plain (run "4" "btcgridc" 30000 3000)) (draft "btcgridcore" "BTC")

answered : Ended String (List (Run ℕ)) → List (Run ℕ)
answered (gave rs) = rs
answered (threw e) = []

client-ListsTidy : (gate : Gate) → ListsTidy (client gate)
unfolding answered
client-ListsTidy gate sent rs h = subst IsTidy (ap answered h) (omega arith, (refl, tt))

perform_all-IsResting_example : IsResting (
    perform_all
      (client open_gate)
      (typed greedy ∷ submit ∷ open_old "run-1" ∷ save_and_accept candidate ∷ refresh_list ∷ [])
      page)
perform_all-IsResting_example =
    perform_all-IsResting (client open_gate) (client-ListsTidy open_gate)
      (typed greedy ∷ submit ∷ open_old "run-1" ∷ save_and_accept candidate ∷ refresh_list ∷ [])
      page (refl, (omega arith, tt), tt)

perform-Returns_example : Returns (perform (client open_gate) (backtest_all goal_analysis))
perform-Returns_example = perform-Returns (client open_gate) (backtest_all goal_analysis)

perform_all-AsksNoGoal_example :
    All AsksNoGoal
      (perform_all
        (client closed_gate)
        (submit ∷ refresh_old "run-1" ∷ backtest_all goal_analysis ∷ [])
        page).sent
perform_all-AsksNoGoal_example =
    perform_all-AsksNoGoal (client closed_gate) (client-ListsTidy closed_gate) "/settings/ai" refl
      (submit ∷ refresh_old "run-1" ∷ backtest_all goal_analysis ∷ []) page
      (refl, (omega arith, tt), tt) tt

-- The request of a draft, where it has one.
given : Option (BacktestRequest ℕ) → BacktestRequest ℕ
given (some r) = r
given none = record {
  strategy_id = "";
  kind = grid_dca;
  params = null;
  symbol = "";
  exchange = "";
  timeframe = "";
  start = "";
  stop = "";
  initial_capital = 0;
  commission_rate = 0;
  slippage_bps = 0;
}

abbrev request : Json ℕ → BacktestRequest ℕ
request d = given (backtest_request_from_draft decimals same_text same_text "start" "end" d)

abbrev first_draft : Json ℕ
first_draft = draft "btcgridcore" "BTC"

abbrev second_draft : Json ℕ
second_draft = draft "ethgridcalm" "ETH"

two_items :
    (Scans.plan_for (client open_gate) goal_analysis).items
    ≡ (first_draft, request first_draft) ∷ (second_draft, request second_draft) ∷ []
unfolding given auto_validation_plan_from_analysis runnable_backtest_requests_from_analysis
    backtest_request_from_draft normalize_name normalize_symbol
two_items = refl

abbrev sent_first : Sent
sent_first = backtesting (request first_draft) ∷ []

-- The second backtest is refused: the run "7" is started and not shown.
run_validation_backtests-threw_example :
    Scans.run_validation_backtests (client open_gate) goal_analysis page ≡ (
      gave [],
      record page {
        error = some "busy";
        batch_backtest_busy = false;
        sent = backtesting (request first_draft) ∷ backtesting (request second_draft) ∷ [];
      },
    )
run_validation_backtests-threw_example =
    run_validation_backtests-threw (client open_gate) goal_analysis
      ((first_draft, request first_draft) ∷ []) second_draft (request second_draft) []
      (handle "7" ∷ []) sent_first "busy" page two_items (one_more refl no_more) refl

-- An analysis with the first draft alone.
abbrev single : Analysis ℕ
single = record {
  id = "run-1";
  value = object (member "strategyDrafts" (array (cons first_draft nil)) end);
}

abbrev stored : ActionPatch
stored =
    backtest_action_update_from_validation_result decimals
      (Scans.plan_for (client open_gate) single) (handle "7" ∷ [])

save_and_accept_paper_candidate-SavedInOrder_example :
    SavedInOrder
      (client open_gate)
      goal_analysis
      candidate
      (draft_payload (client open_gate) goal_analysis candidate)
      []
      (Actions.save_and_accept_paper_candidate (client open_gate) candidate page).1.sent
save_and_accept_paper_candidate-SavedInOrder_example =
    save_and_accept_paper_candidate-SavedInOrder (client open_gate) goal_analysis candidate refl
      page refl

backtest_run_ids_from_action-update_example :
    backtest_run_ids_from_action decimals
      (λ s. some s)
      (some (object (member "relatedId" (text "7,8") (member "href" (text "/backtests/7") end))))
    ≡ some ("7" ∷ "8" ∷ [])
backtest_run_ids_from_action-update_example =
    backtest_run_ids_from_action-update decimals (λ s. some s)
      (Scans.plan_for (client open_gate) goal_analysis) (handle "7" ∷ handle "8" ∷ []) "7"
      ("8" ∷ [])
      (object (member "relatedId" (text "7,8") (member "href" (text "/backtests/7") end))) refl
      ((refl, refl, refl), ((refl, refl, refl), tt)) (refl, (refl, tt)) (omega arith) refl
      (unfold backtest_action_update_from_validation_result in refl)
      (unfold backtest_action_update_from_validation_result in refl)

-- A return from the settings, then two renderings of one day.
abbrev returned : Seen
returned = record {
  intent = "rerun_ai";
  is_loaded = true;
  enabled = true;
  busy = false;
  runs_busy = false;
  gate = open_gate;
  kind = "scan_today";
  run_id = "";
  day = "2026-01-01";
  writes = true;
}

abbrev rendered : Seen
rendered = record returned { intent = "" }

abbrev all_seen : List Seen
all_seen = returned ∷ returned ∷ rendered ∷ rendered ∷ []

starts_test :
    starts decimals same_text all_seen (loaded_keys none)
    ≡ (returned, on_return) ∷ (rendered, on_day "2026-01-01:scan_today:none") ∷ []
unfolding ai_settings_return_auto_run_decision auto_daily_radar_decision
starts_test = refl

starts-IsPaced_example :
    IsPaced decimals same_text "" "" (starts decimals same_text all_seen (loaded_keys none))
starts-IsPaced_example = starts-IsPaced decimals same_text all_seen none
