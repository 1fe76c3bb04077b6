-- ===== src/Goal/Safety.antt =====
-- The request that is made of a form is within the bounds of a goal, whatever the form holds.
use finance_next.Base.{
  String, true, false, ◌≡◌, ◌⊎◌, inl, inr, ◌≤◌, List, [], ◌∷◌, ◌==◌, Bool-cases, All, length, has,
  string_key, arith,
}
use finance_next.Auth.{trim}
use finance_next.Preset.{take_chars}
use finance_next.Goal.{
  split_runs, is_operator_separator, is_symbol_separator, FormState, GoalRequest, text_else,
  or_list, clean_operator_list, clean_operator_list_or_default, clean_symbol_list,
  symbols_from_text, safe_execution_mode_for_goal, safe_risk_preference_for_goal,
  ai_goal_request_from_form_state, default_behavior_text, default_narrative_text,
  default_avoid_text,
}
use finance_next.Goal.Lists.{
  AreFresh, IsShort, length-clean_values, clean_values-AreFresh, clean_values-All-IsShort,
}

-- One to eight texts of at most 120 characters.
abbrev pub AreConstraints : List String → Type 0
AreConstraints vs = (1 ≤ length vs) × (length vs ≤ 8) × All IsShort vs

pub record IsSafe (r : GoalRequest) : Type 0 where
  pub mode : (r.execution_mode ≡ "observe") ⊎ (r.execution_mode ≡ "paper")
  pub risk : has r.risk_preference ("conservative" ∷ "balanced" ∷ "aggressive" ∷ []) ≡ true
  pub few_symbols : length r.symbols ≤ 8
  pub fresh_symbols : AreFresh [] r.symbols
  pub behavior : AreConstraints r.behavior_constraints
  pub narrative : AreConstraints r.market_narrative_focus
  pub avoid : AreConstraints r.avoid_scenarios

or_list-AreConstraints :
    (vs fallback : List String)
    → length vs ≤ 8
    → All IsShort vs
    → AreConstraints fallback
    → AreConstraints (or_list vs fallback)
or_list-AreConstraints [] fallback h k f = f
or_list-AreConstraints (v ∷ vs) fallback h k f = (omega arith, h, k)

clean_operator_list-Short :
    (raw : String) → (length (clean_operator_list raw) ≤ 8) × All IsShort (clean_operator_list raw)
unfolding clean_operator_list
clean_operator_list-Short raw =
    let parts : List String = split_runs is_operator_separator false raw in
    (length-clean_values trim (take_chars 120) 8 [] parts, clean_values-All-IsShort trim 8 [] parts)

clean-AreConstraints :
    (raw fallback : String)
    → 1 ≤ length (clean_operator_list fallback)
    → AreConstraints (clean_operator_list_or_default raw fallback)
unfolding clean_operator_list_or_default
clean-AreConstraints raw fallback h =
    let (few, short) = clean_operator_list-Short raw in
    or_list-AreConstraints (clean_operator_list raw) (clean_operator_list fallback) few short
      (h, (clean_operator_list-Short fallback).0, (clean_operator_list-Short fallback).1)

module _ (lower upper : String → String) where
  execution_mode-IsSafe :
      (mode : String)
      → (safe_execution_mode_for_goal lower upper mode ≡ "observe")
        ⊎ (safe_execution_mode_for_goal lower upper mode ≡ "paper")
  unfolding safe_execution_mode_for_goal
  execution_mode-IsSafe mode =
      elim (Bool-cases (lower (trim (text_else mode "paper")) == "observe")) [
        | inl e ↦ inl (rw e)
        | inr e ↦ inr (rw e)
      ]

  risk_preference-IsSafe :
      (preference : String)
      → has
          (safe_risk_preference_for_goal lower upper preference)
          ("conservative" ∷ "balanced" ∷ "aggressive" ∷ [])
        ≡ true
  unfolding safe_risk_preference_for_goal
  risk_preference-IsSafe preference =
      elim (Bool-cases (
        has (lower (trim (text_else preference "balanced")))
          ("conservative" ∷ "balanced" ∷ "aggressive" ∷ []))) [ inl e ↦ rw e e | inr e ↦ rw e ]

  -- The request of a form asks for observation or paper and for nothing else, with one of the three
  -- risk preferences, at most eight symbols, none of them empty or there twice, and one to eight
  -- constraints of each kind, each of at most 120 characters.
  pub ai_goal_request_from_form_state-IsSafe :
      (state : FormState) → IsSafe (ai_goal_request_from_form_state lower upper state)
  unfolding ai_goal_request_from_form_state symbols_from_text clean_symbol_list
  ai_goal_request_from_form_state-IsSafe state = record {
    mode = execution_mode-IsSafe state.execution_mode;
    risk = risk_preference-IsSafe state.risk_preference;
    few_symbols =
        length-clean_values (λ s. upper (trim s)) (λ s. s) 8 []
          (split_runs is_symbol_separator false state.symbols_text);
    fresh_symbols =
        clean_values-AreFresh (λ s. upper (trim s)) 8 []
          (split_runs is_symbol_separator false state.symbols_text);
    behavior =
        clean-AreConstraints _ default_behavior_text (unfold clean_operator_list in omega arith);
    narrative =
        clean-AreConstraints _ default_narrative_text (unfold clean_operator_list in omega arith);
    avoid = clean-AreConstraints _ default_avoid_text (unfold clean_operator_list in omega arith);
  }
