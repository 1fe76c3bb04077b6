-- ===== src/Money/Handoff.antt =====
-- What the page saves of a draft and hands to the next step: the payload of createOption, the page
-- that follows and the patches of the stored actions (client/data/ai-goal-preset.mjs).
mod Payload
unfoldable pub use Payload.*
use Prim.Native.String.{◌++◌, count}
use finance_next.Base.{
  ℕ, String, Bool, true, false, not, ◌&&◌, ◌||◌, Option, none, some, List, [], ◌∷◌, if◌then◌else◌,
  ◌==◌, leb, filter, string_key,
}
use finance_next.Json.{Json, text as json_text, array, at_key}
use finance_next.Numbers.{Numbers, less, lesser, whole, percent, to_number, truthy_value}
use finance_next.Recent.{JsonCodec}
use finance_next.Auth.{trim}
use finance_next.Preset.{Position, RiskCaps, take_chars, read_positions, normalize_risk_caps}
use finance_next.Preset.Draft.{DraftPreset, draft_preset, draft_risk, positions_json, bool_text}
use finance_next.Validation.{Arithmetic, array_or_empty}
use finance_next.Validation.Pick.{Links, PaperCandidate}
use finance_next.Decision.Evidence.{not_blank, text_of, safe_string_list, join_words}
use finance_next.Decision.Transition.{tidy}
use finance_next.Goal.{text_else, join}
use finance_next.Money.State.{Analysis, ActionPatch}

-- `new URL(href, "http://local")` as its path and its search, `none` where it throws, and the text of
-- a search in which a parameter was set. `fixed` is toFixed on a number that may not be finite.
pub record Hrefs (N : Type 0) : Type 0 where
  pub parse : String → Option (String × String)
  pub set_param : String → String → String → String
  pub fixed : ℕ → Option N → String

-- `parts.filter(Boolean).join(separator)`
abbrev pub join_given : String → List String → String
join_given separator parts = join separator (filter not_blank parts)

-- `s ? label + s : ""`
abbrev pub labelled : String → String → String
labelled label s = if s == "" then "" else label ++ s

module _ {N : Type 0} (num : Numbers N) (hrefs : Hrefs N) where
  abbrev pub with_run_param : Option (String × String) → String → String → String
  with_run_param none raw id = raw
  with_run_param (some (path, search)) raw id = path ++ "?" ++ hrefs.set_param "aiRunId" id search

  unfoldable pub strategy_href_with_ai_run_id : String → String → String
  strategy_href_with_ai_run_id href ai_run_id =
      let id : String = trim ai_run_id in
      let raw : String = trim href in
      if id == "" then href else if raw == "" then raw else with_run_param (hrefs.parse raw) raw id

  -- The id of what was saved, `response?.value?.id`, and its name.
  abbrev pub saved_id : Json N → String
  saved_id response = text_of num (at_key "id" (at_key "value" (some response)))

  abbrev pub saved_name : Json N → String
  saved_name response = text_of num (at_key "name" (at_key "value" (some response)))

  -- `optionCreateRedirectHref` of a preset of the AI.
  unfoldable pub option_create_redirect_href : Links N → Json N → String → String
  option_create_redirect_href links response run_id =
      let id : String = trim (saved_id response) in
      let source : String = trim run_id in
      if id == ""
      then "/strategies"
      else "/strategies/"
        ++ links.component (json_text id)
        ++ "?"
        ++ links.search
            (("from", "ai-draft") ∷ (if source == "" then [] else ("aiRunId", source) ∷ []))

  abbrev pub field_of : Json N → String → String
  field_of v key = text_of num (at_key key (some v))

  unfoldable pub strategy_action_patch_from_saved_draft :
      Analysis N → Json N → Json N → String → ActionPatch
  strategy_action_patch_from_saved_draft analysis draft response href =
      let name : String =
        trim (text_else (saved_name response) (text_else (field_of draft "name") "AI 策略")) in
      let symbol : String = trim (
        text_else (field_of draft "symbol")
          (text_of num (at_key "execSymbol" (at_key "params" (some draft))))) in
      record {
        status = "done";
        related_id = some (
            trim (
              text_else (saved_id response)
                (text_else (saved_name response) (field_of draft "name"))));
        href = if_given href;
        note = join_given "；" (
            (name ++ " 已保存为 AI 策略配置")
            ∷ labelled "来源 AI run " (trim analysis.id)
            ∷ labelled "目标：" (trim (field_of analysis.value "goal"))
            ∷ labelled "标的：" symbol
            ∷ labelled "假设："
                (trim (text_else (field_of draft "hypothesis") (field_of draft "rationale")))
            ∷ "live 仍关闭"
            ∷ "下一步必须先补回测证据，再进入 paper 观察"
            ∷ "paper 中继续记录市场风向、舆论变化、人性偏差和真实执行摩擦"
            ∷ "未完成安全账户、风控和测试网检查前不进入主网"
            ∷ []);
      }

  -- `formatPercentValue` and `money`.
  abbrev pub format_percent_value : Arithmetic N → N → String
  format_percent_value ar n = hrefs.fixed 2 (ar.multiply n (whole num 100)) ++ "%"

  abbrev pub money : N → String
  money n = if num.leq n (whole num 0) then "—" else "$" ++ num.show (num.round n)

  abbrev pub greater : N → N → N
  greater a b = if num.leq a b then b else a

  abbrev pub limit_of : Option N → N
  limit_of none = greater (percent num 3) (percent num 25)
  limit_of (some n) = greater (percent num 3) (lesser num (percent num 25) n)

  unfoldable pub paper_drawdown_limit : Arithmetic N → N → N
  paper_drawdown_limit ar max_drawdown =
      let n : N = ar.abs max_drawdown in
      limit_of
        (ar.multiply (if less num (whole num 0) n then n else percent num 5) (percent num 150))

  abbrev pub boundary_of : Option (RiskCaps N) → String
  boundary_of none = ""
  boundary_of (some r) =
      "资金边界：paper 仓位不超过 "
      ++ money r.max_position_usd
      ++ "，杠杆不超过 "
      ++ hrefs.fixed 0 (some r.max_leverage)
      ++ "x，日亏损上限 "
      ++ money r.daily_loss_cap_usd
      ++ "。"

  -- The text of the first trigger of the observation plan: the first signal that is not blank, else
  -- the first human factor.
  abbrev pub trigger_text : String → String → String
  trigger_text signal action = if action == "" then signal else signal ++ " -> " ++ action

  abbrev pub first_factor : List String → String
  first_factor [] = ""
  first_factor (factor ∷ factors) = trigger_text factor "出现该行为偏差时暂停加仓或降低观察仓位。"

  abbrev pub first_trigger : List (Json N) → List String → String
  first_trigger [] factors = first_factor factors
  first_trigger (item ∷ items) factors =
      let signal : String = trim (field_of item "signal") in
      if signal == ""
      then first_trigger items factors
      else trigger_text signal (trim (text_else (field_of item "action") "人工复核后再调整 paper 观察。"))

  abbrev pub score_text : Option N → String
  score_text none = "—"
  score_text (some s) = num.show s

  -- `compactPaperWatchNote`
  abbrev pub compact_paper_watch_note : String → String
  compact_paper_watch_note text =
      let value : String = tidy text in
      if leb (count value) 480 then value else take_chars 479 value ++ "…"

  unfoldable pub paper_watch_action_patch_from_candidate :
      Arithmetic N → Analysis N → PaperCandidate N → ActionPatch
  paper_watch_action_patch_from_candidate ar analysis c =
      let strategy : String = text_of num (some c.strategy_id) in
      let draft_name : String =
        text_else (field_of c.draft "name")
          (text_else strategy (text_else (field_of c.draft "symbol") "AI 策略")) in
      let limit : String = format_percent_value ar (paper_drawdown_limit ar c.max_drawdown) in
      record {
        status = "manual";
        related_id = some (text_else strategy draft_name);
        href =
            if c.backtest_href == ""
            then if_given (labelled "/backtests/" (text_of num (some c.run_id)))
            else some c.backtest_href;
        note = compact_paper_watch_note (
            join_given " " (
              ("AI paper 观察计划："
                ++ draft_name
                ++ "，评分 "
                ++ score_text c.score
                ++ "，关联回测 "
                ++ text_else (text_of num (some c.run_id)) "—"
                ++ "。")
              ∷ "窗口：24-72 小时。"
              ∷ ("指标：收益 "
                  ++ format_percent_value ar c.total_return
                  ++ "，回撤 "
                  ++ format_percent_value ar c.max_drawdown
                  ++ "，夏普 "
                  ++ hrefs.fixed 2 (some c.sharpe)
                  ++ "。")
              ∷ boundary_of (draft_risk num (λ s. s) (λ s. s) c.draft)
              ∷ labelled "停止规则：" ("paper 期间最大回撤超过 " ++ limit ++ " 时暂停观察并回到策略蓝图。")
              ∷ labelled "首个触发器：" (
                  first_trigger (array_or_empty (at_key "watchSignals" (some analysis.value)))
                    (safe_string_list num (at_key "humanFactors" (some analysis.value))))
              ∷ []));
      }
