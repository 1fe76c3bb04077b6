-- ===== src/Money/Plan.antt =====
-- The plan of the backtests for an analysis, what is stored of the runs that were started and what
-- is shown of them at once, in client/data/ai-goal-preset.mjs. Of the plan the texts for the activity
-- center, the coverage, the guardrails and the skipped drafts are not modelled.
use Prim.Native.String.{◌++◌}
use finance_next.Base.{
  String, Option, some, List, [], ◌∷◌, if◌then◌else◌, ◌==◌, length, filter, take, map, string_key,
}
use finance_next.Json.{
  Json, null, number, text as json_text, array, object, nil, end, member, at_key,
}
use finance_next.Numbers.{Numbers, whole}
use finance_next.Auth.{trim}
use finance_next.Preset.{take_chars, kind_text}
use finance_next.Preset.Draft.{BacktestRequest}
use finance_next.Decision.Evidence.{not_blank, text_of, is_empty}
use finance_next.Decision.Compass.{runnable_backtest_requests_from_analysis}
use finance_next.Goal.{text_else, join}
use finance_next.Money.State.{ActionPatch}

pub record ValidationPlan (N : Type 0) : Type 0 where
  pub items : List (Json N × BacktestRequest N)
  pub action_note : String

module _ {N : Type 0} (num : Numbers N) where
  -- `draft?.name || draft?.symbol`
  abbrev pub name_of : Json N → String
  name_of draft =
      text_else (text_of num (at_key "name" (some draft)))
        (text_of num (at_key "symbol" (some draft)))

  abbrev pub names_of : List (Json N × BacktestRequest N) → List String
  names_of [] = []
  names_of ((draft, request) ∷ items) = name_of draft ∷ names_of items

  abbrev pub plan_names : List (Json N × BacktestRequest N) → String
  plan_names items = join "、" (take 6 (filter not_blank (names_of items)))

  abbrev pub count_text : {A : Type 0} → List A → String
  count_text vs = num.show (whole num (length vs))

  unfoldable pub auto_validation_plan_from_analysis :
      (String → String) → (String → String) → String → String → Option (Json N) → ValidationPlan N
  auto_validation_plan_from_analysis lower upper start stop analysis =
      let items : List (Json N × BacktestRequest N) =
        runnable_backtest_requests_from_analysis num lower upper start stop analysis in
      record {
        items = items;
        action_note =
            if is_empty items
            then "没有可回测的 AI 草案；需要先调整目标或生成新的策略蓝图。"
            else "待发起 " ++ count_text items ++ " 个 AI 草案回测：" ++ plan_names items;
      }

  -- The ids of the runs that the handles name.
  abbrev pub handle_id : Json N → String
  handle_id handle = trim (text_of num (at_key "runId" (some handle)))

  abbrev pub handle_ids : List (Json N) → List String
  handle_ids handles = filter not_blank (map handle_id handles)

  abbrev pub action_update : ValidationPlan N → List String → ActionPatch
  action_update plan [] = record {
    status = "blocked";
    related_id = some "";
    href = some "";
    note = text_else plan.action_note "没有可回测的 AI 草案；需要先调整目标或生成新的策略蓝图。";
  }
  action_update plan (id ∷ ids) =
      let names : String = plan_names plan.items in
      record {
        status = "done";
        related_id = some (take_chars 200 (join "," (id ∷ ids)));
        href = some ("/backtests/" ++ id);
        note =
            "已发起 "
            ++ count_text (id ∷ ids)
            ++ " 个 AI 草案回测"
            ++ (if names == "" then "" else "：" ++ names);
      }

  unfoldable pub backtest_action_update_from_validation_result :
      ValidationPlan N → List (Json N) → ActionPatch
  backtest_action_update_from_validation_result plan handles =
      action_update plan (handle_ids handles)

  abbrev pub request_json : BacktestRequest N → Json N
  request_json r = object (
      member "strategyId" (json_text r.strategy_id) (
        member "kind" (json_text (kind_text r.kind)) (
          member "params" r.params (
            member "symbol" (json_text r.symbol) (
              member "exchange" (json_text r.exchange) (
                member "timeframe" (json_text r.timeframe) (
                  member "start" (json_text r.start) (
                    member "end" (json_text r.stop) (
                      member "initialCapital" (number r.initial_capital) (
                        member "commissionRate" (number r.commission_rate)
                          (member "slippageBps" (number r.slippage_bps) end)))))))))))

  -- `iso` is `safeDateISOString` on the time at which the handle was put in the queue.
  abbrev pub optimistic_run :
      (Option (Json N) → String) → Json N → Json N → BacktestRequest N → Json N
  optimistic_run iso handle draft request =
      let run_id : String = handle_id handle in
      object (
        member "runId" (json_text run_id) (
          member "strategyId"
            (json_text (
              text_else request.strategy_id
                (text_else (text_of num (at_key "name" (some draft))) run_id)))
            (member "kind" (json_text (kind_text request.kind)) (
              member "params" request.params (
                member "request" (request_json request) (
                  member "state" (number (whole num 1)) (
                    member "progress" (number (whole num 0)) (
                      member "metrics" (object end) (
                        member "trades" (array nil) (
                          member "createdAt" (json_text (iso (at_key "enqueuedAt" (some handle)))) (
                            member "startedAt" null (
                              member "finishedAt" null
                                (member "error" (json_text "") end)))))))))))))

  unfoldable pub optimistic_validation_runs_from_handles :
      (Option (Json N) → String) → List (Json N × BacktestRequest N) → List (Json N) → List (Json N)
  optimistic_validation_runs_from_handles iso [] handles = []
  optimistic_validation_runs_from_handles iso (item ∷ items) [] = []
  optimistic_validation_runs_from_handles iso ((draft, request) ∷ items) (handle ∷ handles) =
      let rest : List (Json N) = optimistic_validation_runs_from_handles iso items handles in
      if handle_id handle == "" then rest else optimistic_run iso handle draft request ∷ rest
