-- ===== src/Goal.antt =====
-- The goal that a user gives the AI: the form, what is filled in for it and the request that is made
-- of it, in client/data/ai-goal-preset.mjs. toLowerCase, toUpperCase and today's date are arguments.
pub mod Lists
pub mod Safety
mod Texts
unfoldable pub use Texts.*
use Prim.Native.Char.{Char, code}
use Prim.Native.String.{◌++◌, count}
use finance_next.Base.{
  ℕ, String, Bool, true, false, not, ◌&&◌, ◌||◌, Option, none, some, List, [], ◌∷◌, ◌++◌ as append,
  if◌then◌else◌, ◌==◌, ltb, take, has, map, string_key, nat_key,
}
use finance_next.Json.{Json, null, boolean, number, text as json_text, array, object, at_key}
use finance_next.Numbers.{Numbers}
use finance_next.Auth.{trim, is_space}
use finance_next.Palette.{includes}
use finance_next.Preset.{take_chars}
use finance_next.Validation.{elements, array_or_empty}
use finance_next.Decision.Evidence.{text_of, on_head, any_word}

module _ (lower upper : String → String) where
  unfoldable pub clean_symbol_list : List String → List String
  clean_symbol_list values = clean_values (λ s. upper (trim s)) (λ s. s) 8 [] values

  unfoldable pub symbols_from_text : String → List String
  symbols_from_text raw = clean_symbol_list (split_runs is_symbol_separator false raw)

  unfoldable pub safe_execution_mode_for_goal : String → String
  safe_execution_mode_for_goal mode =
      if lower (trim (text_else mode "paper")) == "observe" then "observe" else "paper"

  unfoldable pub safe_risk_preference_for_goal : String → String
  safe_risk_preference_for_goal preference =
      let value : String = lower (trim (text_else preference "balanced")) in
      if has value ("conservative" ∷ "balanced" ∷ "aggressive" ∷ []) then value else "balanced"

  -- The words of the regular expression in `isVagueMoneyGoal`, which ignores case: the text is in
  -- lower case.
  abbrev pub context_words : List String
  context_words =
      "btc" ∷ "eth" ∷ "sol" ∷ "usdt" ∷ "加密" ∷ "新闻" ∷ "舆论" ∷ "情绪" ∷ "宏观" ∷ "链上" ∷ "回测" ∷ "paper"
      ∷ "低回撤" ∷ "风险" ∷ "周期" ∷ []

  unfoldable pub is_vague_money_goal : String → Bool
  is_vague_money_goal goal =
      let text : String = lower (trim goal) in
      ltb (count text) 12
      || any_word (includes text) ("赚钱" ∷ "挣钱" ∷ "盈利" ∷ "make money" ∷ "profit" ∷ [])
        && not (any_word (includes text) context_words)

  unfoldable pub ai_goal_request_from_form_state : FormState → GoalRequest
  ai_goal_request_from_form_state state = record {
    goal = trim state.goal;
    symbols = symbols_from_text state.symbols_text;
    horizon = trim state.horizon;
    risk_preference = safe_risk_preference_for_goal state.risk_preference;
    execution_mode = safe_execution_mode_for_goal state.execution_mode;
    behavior_constraints =
        clean_operator_list_or_default (text_or_default state.behavior_text "")
          default_behavior_text;
    market_narrative_focus =
        clean_operator_list_or_default (text_or_default state.narrative_text "")
          default_narrative_text;
    avoid_scenarios =
        clean_operator_list_or_default (text_or_default state.avoid_text "") default_avoid_text;
  }

  module _ {N : Type 0} (num : Numbers N) where
    -- `run?.symbols`, where that is an array.
    abbrev pub run_symbols : Json N → List String
    run_symbols run = map (λ v. text_of num (some v)) (array_or_empty (at_key "symbols" (some run)))

    abbrev pub runs_symbols : List (Json N) → List String
    runs_symbols [] = []
    runs_symbols (run ∷ runs) = append (run_symbols run) (runs_symbols runs)

    unfoldable pub inferred_symbols_from_runs : List (Json N) → List String
    inferred_symbols_from_runs runs =
        or_list (take 6 (clean_symbol_list (runs_symbols runs)))
          (clean_symbol_list ("BTC" ∷ "ETH" ∷ "SOL" ∷ []))

    unfoldable pub clean_symbols_for_text : Json N → String
    clean_symbols_for_text run = join ", " (clean_symbol_list (run_symbols run))

    -- `proposedFormState` of `aiGoalComposerFromFormState`, which
    -- `aiGoalExecutableFormStateFromState` gives.
    unfoldable pub ai_goal_executable_form_state : String → List (Json N) → FormState → FormState
    ai_goal_executable_form_state day runs state =
        let raw_goal : String = trim state.goal in
        let vague : Bool = is_vague_money_goal raw_goal in
        let symbols_text : String =
          join ", "
            (or_list (symbols_from_text state.symbols_text) (inferred_symbols_from_runs runs)) in
        let horizon : String =
          text_else (trim state.horizon) (if vague then "24h-7d" else "1-4 weeks") in
        let risk_preference : String = safe_risk_preference_for_goal state.risk_preference in
        let text_of_field : Option String → String → Option String =
          λ v fallback. some (text_else (trim (text_or_default v "")) fallback) in
        record {
          goal =
              if vague
              then day ++ " AI 自动补全赚钱目标：围绕 " ++ symbols_text
                ++ " 检查市场风向、新闻舆论、宏观冲击、链上变化、交易拥挤和人性偏差，寻找 " ++ horizon
                ++ " 内可先回测和 paper 验证的低回撤机会；不直接主网交易。"
              else raw_goal;
          symbols_text = symbols_text;
          horizon = horizon;
          risk_preference =
              if vague && risk_preference == "aggressive" then "balanced" else risk_preference;
          execution_mode = safe_execution_mode_for_goal state.execution_mode;
          behavior_text = text_of_field state.behavior_text default_behavior_text;
          narrative_text = text_of_field state.narrative_text default_narrative_text;
          avoid_text = text_of_field state.avoid_text default_avoid_text;
        }

    unfoldable pub ai_goal_analyze_target_form_state :
        String → List (Json N) → FormState → Option FormState → FormState
    ai_goal_analyze_target_form_state day runs state none =
        ai_goal_executable_form_state day runs state
    ai_goal_analyze_target_form_state day runs state (some target) = target

    unfoldable pub daily_radar_form_state_from_runs : String → List (Json N) → FormState
    daily_radar_form_state_from_runs day runs =
        let symbols : List String =
          take 6 (clean_symbol_list ("BTC" ∷ "ETH" ∷ "SOL" ∷ runs_symbols runs)) in
        record {
          goal =
              day
              ++ " 今日 AI 机会雷达：AI 自动围绕 "
              ++ join "/" symbols
              ++ " 检查市场风向、近 24 小时新闻舆论、宏观冲击、链上变化、市场拥挤和人性偏差，"
              ++ "寻找未来 24h-7d 内可先回测和 paper 验证的赚钱机会；优先低回撤、可解释、可观察的策略，不直接主网交易。";
          symbols_text = join ", " symbols;
          horizon = "24h-7d";
          risk_preference = "balanced";
          execution_mode = "paper";
          behavior_text = none;
          narrative_text = none;
          avoid_text = none;
        }

    -- `...(s ? { field: s } : {})`
    abbrev pub kept_or : String → String → String
    kept_or s current = text_else s current

    abbrev pub kept_text : String → Option String → Option String
    kept_text s current = if s == "" then current else some s

    abbrev pub operator_values : Json N → String → List String
    operator_values run key =
        map (λ v. text_of num (some v))
          (array_or_empty (
            at_key key
              (at_key "operatorConstraints" (at_key "context" (at_key "analysis" (some run))))))

    -- The constraints of a run are lists, if they are there.
    unfoldable pub form_state_from_ai_goal_run : Json N → FormState → FormState
    form_state_from_ai_goal_run run current =
        let field : String → String = λ key. trim (text_of num (at_key key (some run))) in
        let constraints : String → String =
          λ key. join "\n" (clean_operator_values (operator_values run key)) in
        record {
          goal = kept_or (field "goal") current.goal;
          symbols_text = kept_or (clean_symbols_for_text run) current.symbols_text;
          horizon = kept_or (field "horizon") current.horizon;
          risk_preference = kept_or (field "riskPreference") current.risk_preference;
          execution_mode = kept_or (field "executionMode") current.execution_mode;
          behavior_text = kept_text (constraints "behaviorConstraints") current.behavior_text;
          narrative_text = kept_text (constraints "marketNarrativeFocus") current.narrative_text;
          avoid_text = kept_text (constraints "avoidScenarios") current.avoid_text;
        }

    abbrev pub template_mode : Option (Json N) → String
    template_mode (some (json_text s)) = if has s ("observe" ∷ "paper" ∷ []) then s else "paper"
    template_mode _ = "paper"

    -- A template is an object.
    unfoldable pub form_state_from_goal_template : Json N → FormState → FormState
    form_state_from_goal_template template current =
        let field : String → String → String =
          λ key fallback. text_else (text_of num (at_key key (some template))) fallback in
        record current {
          goal = field "goal" current.goal;
          symbols_text = text_else (clean_symbols_for_text template) current.symbols_text;
          horizon = field "horizon" current.horizon;
          risk_preference = field "riskPreference" (text_else current.risk_preference "balanced");
          execution_mode = template_mode (at_key "executionMode" (some template));
        }
