-- ===== src/Goal/Texts.antt =====
-- The form and the request of a goal, and how their texts are split and cleaned
-- (client/data/ai-goal-preset.mjs).
use Prim.Native.Char.{Char, code}
use Prim.Native.String.{◌++◌}
use finance_next.Base.{
  ℕ, String, Bool, true, false, ◌||◌, Option, none, some, List, [], ◌∷◌, if◌then◌else◌, ◌==◌, has,
  string_key, nat_key,
}
use finance_next.Auth.{trim, is_space}
use finance_next.Preset.{take_chars}
use finance_next.Decision.Evidence.{on_head}

-- `AIGoalFormState`: the last three texts may be undefined.
pub record FormState : Type 0 where
  pub goal : String
  pub symbols_text : String
  pub horizon : String
  pub risk_preference : String
  pub execution_mode : String
  pub behavior_text : Option String
  pub narrative_text : Option String
  pub avoid_text : Option String

pub record GoalRequest : Type 0 where
  pub goal : String
  pub symbols : List String
  pub horizon : String
  pub risk_preference : String
  pub execution_mode : String
  pub behavior_constraints : List String
  pub market_narrative_focus : List String
  pub avoid_scenarios : List String

abbrev pub default_behavior_text : String
default_behavior_text = "避免 FOMO 追涨\n连续亏损后暂停加仓\n市场过热时降低仓位"

abbrev pub default_narrative_text : String
default_narrative_text = "ETF 资金流\n监管消息\n社媒拥挤度"

abbrev pub default_avoid_text : String
default_avoid_text = "高杠杆\n数据缺口时执行\n主网自动下单"

-- `s.split(/[...]+/)`: `after` says that the last character was a separator.
abbrev pub split_runs : (Char → Bool) → Bool → String → List String
split_runs p after String.[] = "" ∷ []
split_runs p after (String.◌∷◌ c s) =
    if p c
    then if after then split_runs p true s else "" ∷ split_runs p true s
    else on_head (String.◌∷◌ c) (split_runs p false s)

-- `[,\s，、]`
abbrev pub is_symbol_separator : Char → Bool
is_symbol_separator c = is_space c || has (code c) (44 ∷ 65292 ∷ 12289 ∷ [])

-- `[\n,;，；、]`
abbrev pub is_operator_separator : Char → Bool
is_operator_separator c = has (code c) (10 ∷ 44 ∷ 59 ∷ 65292 ∷ 65307 ∷ 12289 ∷ [])

-- The loop that collects up to n values: `norm` is done to each, and `cut` to those that are new.
abbrev pub clean_values :
    (String → String) → (String → String) → ℕ → List String → List String → List String
clean_values norm cut ℕ.zero seen values = []
clean_values norm cut (ℕ.suc n) seen [] = []
clean_values norm cut (ℕ.suc n) seen (v ∷ values) =
    if norm v == "" || has (norm v) seen
    then clean_values norm cut (ℕ.suc n) seen values
    else cut (norm v) ∷ clean_values norm cut n (norm v ∷ seen) values

-- `list.join(separator)`
abbrev pub join : String → List String → String
join separator [] = ""
join separator (v ∷ []) = v
join separator (v ∷ w ∷ vs) = v ++ separator ++ join separator (w ∷ vs)

abbrev pub or_list : List String → List String → List String
or_list [] fallback = fallback
or_list (v ∷ vs) fallback = v ∷ vs

-- `String(v || "")`, then `|| fallback` on texts.
abbrev pub text_else : String → String → String
text_else s fallback = if s == "" then fallback else s

abbrev pub text_or_default : Option String → String → String
text_or_default none fallback = fallback
text_or_default (some s) fallback = s

-- `cleanOperatorList` of a text.
unfoldable pub clean_operator_list : String → List String
clean_operator_list raw =
    clean_values trim (take_chars 120) 8 [] (split_runs is_operator_separator false raw)

unfoldable pub clean_operator_list_or_default : String → String → List String
clean_operator_list_or_default raw fallback =
    or_list (clean_operator_list raw) (clean_operator_list fallback)

-- Of a list.
unfoldable pub clean_operator_values : List String → List String
clean_operator_values values = clean_values trim (take_chars 120) 8 [] values
