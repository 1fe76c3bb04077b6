-- ===== src/Money/Preview.antt =====
-- The run that the page shows of a new analysis before it is read back: runFromAnalysis of
-- client/app/(dashboard)/ai-money/client.tsx, with defaultAIGoalRunActionsFromAnalysis of
-- client/data/ai-goal-preset.mjs.
use finance_next.Base.{
  String, Bool, true, false, not, ◌&&◌, ◌||◌, Option, none, some, List, [], ◌∷◌, ◌++◌ as append,
  if◌then◌else◌, ◌==◌, length, take, map, string_key,
}
use finance_next.Json.{
  Json, Items, Members, null, boolean, number, text as json_text, array, object, nil, cons, end,
  member, at_key,
}
use finance_next.Numbers.{Numbers, whole}
use finance_next.Auth.{trim}
use finance_next.Validation.{array_or_empty}
use finance_next.Decision.Evidence.{is_empty, text_of, safe_string_list}
use finance_next.Goal.{join, text_else}
use finance_next.Money.State.{Analysis, Run}
use finance_next.Money.Handoff.{labelled, join_given}

abbrev pub items_of : {N : Type 0} → List (Json N) → Items N
items_of [] = nil
items_of (v ∷ vs) = cons v (items_of vs)

-- A member that may be undefined.
abbrev pub given_member : {N : Type 0} → String → Option (Json N) → Members N → Members N
given_member key none ms = ms
given_member key (some v) ms = member key v ms

module _ {N : Type 0} (num : Numbers N) where
  abbrev pub field : Json N → String → String
  field v key = text_of num (at_key key (some v))

  abbrev pub signal_text : Json N → String
  signal_text signal = join_given "；" (
      trim (text_else (field signal "signal") (field signal "source"))
      ∷ labelled "含义：" (trim (field signal "interpretation"))
      ∷ labelled "建议：" (trim (field signal "action"))
      ∷ [])

  abbrev pub watch_signal_review_text : Json N → String
  watch_signal_review_text (json_text s) = trim s
  watch_signal_review_text null = signal_text null
  watch_signal_review_text (boolean b) = signal_text (boolean b)
  watch_signal_review_text (number n) = signal_text (number n)
  watch_signal_review_text (array vs) = signal_text (array vs)
  watch_signal_review_text (object ms) = signal_text (object ms)

  unfoldable pub sentiment_review_note_from_evidence : List String → List (Json N) → String → String
  sentiment_review_note_from_evidence human_factors watch_signals fallback =
      text_else
        (join_given "；"
          (append (take 2 human_factors) (map watch_signal_review_text (take 2 watch_signals))))
        fallback

  -- The name and the symbol of the first draft that has one of them and is not only to be watched.
  abbrev pub first_default_action_draft :
      (String → String) → List (Json N) → Option (String × String)
  first_default_action_draft lower [] = none
  first_default_action_draft lower (draft ∷ drafts) =
      let name : String = trim (field draft "name") in
      let symbol : String = trim (field draft "symbol") in
      if lower (trim (field draft "kind")) == "watch_only" || name == "" && symbol == ""
      then first_default_action_draft lower drafts
      else some (name, symbol)

  abbrev pub related_of : Option (String × String) → String
  related_of none = ""
  related_of (some (name, symbol)) = text_else name symbol

  abbrev pub action_json : String → String → Option String → String → String → Json N
  action_json id status related note updated_at = object (
      member "id" (json_text id) (
        member "status" (json_text status) (
          given_member "relatedId" (elim related [ none ↦ none | some s ↦ some (json_text s) ])
            (member "note" (json_text note) (member "updatedAt" (json_text updated_at) end)))))

  abbrev pub has_draft : Option (String × String) → Bool
  has_draft none = false
  has_draft (some draft) = true

  abbrev pub paper_watch_actions : Bool → String → String → List (Json N)
  paper_watch_actions tradable related updated_at =
      if tradable
      then action_json "paper_watch" "blocked" (some related)
          "等待回测结果后生成 24-72 小时 paper 观察计划；完成前必须复盘市场风向、舆论、人性偏差、执行摩擦和回撤表现。" updated_at
        ∷ []
      else []

  -- The time is an argument.
  unfoldable pub default_ai_goal_run_actions_from_analysis :
      (String → String) → String → Json N → List (Json N)
  default_ai_goal_run_actions_from_analysis lower updated_at analysis =
      let notes : List String =
        safe_string_list num (at_key "notes" (at_key "context" (some analysis))) in
      let human_factors : List String =
        safe_string_list num (at_key "humanFactors" (some analysis)) in
      let watch_signals : List (Json N) = array_or_empty (at_key "watchSignals" (some analysis)) in
      let first : Option (String × String) =
        first_default_action_draft lower
          (array_or_empty (at_key "strategyDrafts" (some analysis))) in
      let needs_review : Bool = not (is_empty human_factors) || not (is_empty watch_signals) in
      let ready : String = if has_draft first then "ready" else "blocked" in
      append
        (action_json "review" "manual" none "复核市场判断、人性 / 舆情假设和风险上限。" updated_at
          ∷ action_json "data" (if is_empty notes then "done" else "blocked") none
              (if is_empty notes then "新闻、宏观、链上数据没有明显缺口。" else join "；" (take 2 notes)) updated_at
          ∷ action_json "sentiment_review" (if needs_review then "manual" else "done") none
              (if needs_review
                then sentiment_review_note_from_evidence human_factors watch_signals
                    "AI 未发现明显额外舆论或人性阻塞。"
                else "AI 未发现明显额外舆论或人性阻塞。")
              updated_at
          ∷ action_json "backtest" ready (some (related_of first)) "运行 AI 草案回测，比较收益、回撤、夏普和交易次数。"
              updated_at
          ∷ action_json "strategy" ready (some (related_of first)) "把 AI 参数带入策略表单，人工复核后再保存。"
              updated_at
          ∷ [])
        (append (paper_watch_actions (has_draft first) (related_of first) updated_at) (
          action_json "gate" "blocked" none "测试网 / 主网前确认 kill switch、组合限额、交易闸门和 paper 复盘证据。"
            updated_at
          ∷ []))

  unfoldable pub run_from_analysis :
      (String → String) → String → Analysis N → String → String → Run N
  run_from_analysis lower updated_at analysis horizon risk_preference =
      let at : String → Option (Json N) = λ key. at_key key (some analysis.value) in
      let context : String → Option (Json N) = λ key. at_key key (at "context") in
      record {
        id = analysis.id;
        analysis = some analysis;
        value = object (
            member "id" (json_text analysis.id) (
              member "userId" (json_text "default") (
                given_member "createdAt" (at "createdAt") (
                  given_member "updatedAt" (at "createdAt") (
                    given_member "goal" (at "goal") (
                      given_member "summary" (at "summary") (
                        given_member "symbols" (context "symbols") (
                          member "horizon" (json_text horizon) (
                            member "riskPreference" (json_text risk_preference) (
                              given_member "status" (at_key "status" (at "ai")) (
                                given_member "aiStatus" (at_key "status" (at "ai")) (
                                  given_member "aiModel" (at_key "model" (at "ai")) (
                                    given_member "executionMode" (at_key "mode" (at "execution")) (
                                      member "strategyDraftCount"
                                        (number (
                                          whole num
                                            (length (array_or_empty (at "strategyDrafts")))))
                                        (given_member "contextNewsCount" (context "newsCount") (
                                          given_member "contextMacroCount" (context "macroCount") (
                                            given_member "contextOnchainCount"
                                              (context "onchainCount")
                                              (member "analysis" analysis.value (
                                                member "actions"
                                                  (array (
                                                    items_of (
                                                      default_ai_goal_run_actions_from_analysis
                                                        lower updated_at analysis.value)))
                                                  end)))))))))))))))))));
      }
