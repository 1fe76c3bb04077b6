-- ===== src/Money/Handoff/Payload.antt =====
-- The payload of createOption that is made of a draft of the AI (client/data/ai-goal-preset.mjs).
use finance_next.Base.{String, Bool, Option, none, some, List, if◌then◌else◌, ◌==◌, string_key}
use finance_next.Json.{Json, array, at_key}
use finance_next.Numbers.{Numbers}
use finance_next.Recent.{JsonCodec}
use finance_next.Auth.{trim}
use finance_next.Preset.{Position, RiskCaps, read_positions, normalize_risk_caps}
use finance_next.Preset.Draft.{DraftPreset, draft_preset, positions_json, bool_text}
use finance_next.Decision.Evidence.{text_of}

-- `TypeOption`, with the numbers as `Number` gives them.
pub record OptionPayload (N : Type 0) : Type 0 where
  pub name : String
  pub position_level : Option N
  pub open_position_stop_time : Option N
  pub exec_symbol : String
  pub order_group_margin : Option N
  pub stop_profit_rate : Option N
  pub stop_loss_rate : Option N
  pub profit_rate_after_at_add_position : Option N
  pub create_cost_order_in_profit : Bool
  pub create_positions : List (Position N)
  pub ai_run_id : Option String
  pub risk : Option (RiskCaps N)

abbrev pub if_given : String → Option String
if_given s = if s == "" then none else some s

module _ {N : Type 0} (num : Numbers N) (lower upper : String → String)
    (json : JsonCodec String N) where
  abbrev pub caps_of_texts : Option (RiskCaps N) → Option (RiskCaps N)
  caps_of_texts none = normalize_risk_caps num none none none
  caps_of_texts (some r) =
      normalize_risk_caps num (num.read (num.show r.max_position_usd))
        (num.read (num.show r.max_leverage)) (num.read (num.show r.daily_loss_cap_usd))

  abbrev pub payload_of : DraftPreset N → String → OptionPayload N
  payload_of p run_id = record {
    name = p.name;
    position_level = num.read (num.show p.position_level);
    open_position_stop_time = num.read (num.show p.open_position_stop_time);
    exec_symbol = p.exec_symbol;
    order_group_margin = num.read (num.show p.order_group_margin);
    stop_profit_rate = num.read (num.show p.stop_profit_rate);
    stop_loss_rate = num.read (num.show p.stop_loss_rate);
    profit_rate_after_at_add_position = num.read (num.show p.profit_rate_after_at_add_position);
    create_cost_order_in_profit = bool_text p.create_cost_order_in_profit == "true";
    create_positions =
        read_positions num json
          (some (json.stringify (array (positions_json num lower upper p.create_positions))));
    ai_run_id = if_given (trim run_id);
    risk = caps_of_texts p.risk;
  }

  unfoldable pub option_payload_from_strategy_draft : Json N → String → Option (OptionPayload N)
  option_payload_from_strategy_draft draft run_id =
      if text_of num (at_key "kind" (some draft)) == "grid_dca"
      then some (payload_of (draft_preset num lower upper draft) run_id)
      else none
