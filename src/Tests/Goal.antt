-- ===== src/Tests/Goal.antt =====
-- Tests of the form of a goal and of its request (client/data/ai-goal-preset.mjs).
use finance_next.Base.{◌≡◌, refl, some, none, [], ◌∷◌}
use finance_next.Goal.{
  FormState, GoalRequest, ai_goal_request_from_form_state, clean_operator_list, clean_symbol_list,
  symbols_from_text, clean_operator_list_or_default, safe_execution_mode_for_goal,
  safe_risk_preference_for_goal,
}
use finance_next.Goal.Safety.{IsSafe, ai_goal_request_from_form_state-IsSafe}
use finance_next.Tests.Preset.{same_text}

-- A form that asks for the main network and names a symbol twice.
abbrev pub greedy : FormState
greedy = record {
  goal = " grow ";
  symbols_text = "BTC, ETH BTC";
  horizon = "1w";
  risk_preference = "reckless";
  execution_mode = "mainnet";
  behavior_text = some "no FOMO;;no FOMO";
  narrative_text = some "";
  avoid_text = none;
}

abbrev pub lowered : GoalRequest
lowered = ai_goal_request_from_form_state same_text same_text greedy

lowered_test : lowered ≡ record {
  goal = "grow";
  symbols = "BTC" ∷ "ETH" ∷ [];
  horizon = "1w";
  risk_preference = "balanced";
  execution_mode = "paper";
  behavior_constraints = "no FOMO" ∷ [];
  market_narrative_focus = "ETF 资金流" ∷ "监管消息" ∷ "社媒拥挤度" ∷ [];
  avoid_scenarios = "高杠杆" ∷ "数据缺口时执行" ∷ "主网自动下单" ∷ [];
}
unfolding ai_goal_request_from_form_state clean_operator_list clean_symbol_list symbols_from_text
    clean_operator_list_or_default safe_execution_mode_for_goal safe_risk_preference_for_goal
lowered_test = refl

ai_goal_request_from_form_state-IsSafe_example : IsSafe lowered
ai_goal_request_from_form_state-IsSafe_example =
    ai_goal_request_from_form_state-IsSafe same_text same_text greedy
