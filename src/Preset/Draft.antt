-- ===== src/Preset/Draft.antt =====
-- What client/data/ai-goal-preset.mjs makes of a draft of the AI: the parameters of the link to the
-- form, the record that is saved directly, and the request for a backtest.
use finance_next.Base.{
  String, Bool, Option, none, some, List, [], ◌∷◌, ◌++◌ as append, if◌then◌else◌, string_key,
}
use finance_next.Json.{Json, Items, number, array, object, nil, cons, end, member, at_key}
use finance_next.Numbers.{
  Numbers, lesser, whole, percent, to_number, truthy_text, truthy_value, clamp_int,
}
use finance_next.Recent.{JsonCodec}
use finance_next.Preset.{
  Position, RiskCaps, StrategyKind, kind_text, is_text, normalize_name, normalize_symbol,
  normalize_kind, normalize_risk_caps, max_leverage_of, max_margin_of, clamp_rate,
  positions_or_default,
}

-- The fields of a draft's preset, before they are put as texts.
pub record DraftPreset (N : Type 0) : Type 0 where
  pub name : String
  pub kind : StrategyKind
  pub exec_symbol : String
  pub position_level : N
  pub open_position_stop_time : N
  pub order_group_margin : N
  pub stop_profit_rate : N
  pub stop_loss_rate : N
  pub profit_rate_after_at_add_position : N
  pub create_cost_order_in_profit : Bool
  pub create_positions : List (Position N)
  pub risk : Option (RiskCaps N)

pub record BacktestRequest (N : Type 0) : Type 0 where
  pub strategy_id : String
  pub kind : StrategyKind
  pub params : Json N
  pub symbol : String
  pub exchange : String
  pub timeframe : String
  pub start : String
  pub stop : String
  pub initial_capital : N
  pub commission_rate : N
  pub slippage_bps : N

-- `String(b)`
abbrev pub bool_text : Bool → String
bool_text b = if b then "true" else "false"

module _ {N : Type 0} (num : Numbers N) (lower upper : String → String) where
  -- A member of `draft.params`: what is no object has none.
  abbrev pub param_of : Json N → String → Option (Json N)
  param_of draft key = at_key key (at_key "params" (some draft))

  abbrev pub draft_risk : Json N → Option (RiskCaps N)
  draft_risk draft =
      let cap : String → Option N =
        λ key. to_number num (at_key key (at_key "riskCaps" (some draft))) in
      normalize_risk_caps num (cap "maxPositionUsd") (cap "maxLeverage") (cap "dailyLossCapUsd")

  abbrev pub positions_or : Option (Json N) → List (Position N)
  positions_or v = positions_or_default num v

  abbrev pub draft_name : Json N → String
  draft_name draft =
      normalize_name lower (truthy_text num (at_key "name" (some draft)))
        (truthy_text num (at_key "symbol" (some draft)))

  abbrev pub draft_symbol : Json N → String
  draft_symbol draft = normalize_symbol upper (truthy_text num (at_key "symbol" (some draft)))

  unfoldable pub draft_preset : Json N → DraftPreset N
  draft_preset draft =
      let value : String → Option (Json N) = param_of draft in
      let risk : Option (RiskCaps N) = draft_risk draft in
      let max_leverage : N = max_leverage_of num risk 3 in
      let max_margin : N = max_margin_of num risk in
      record {
        name = draft_name draft;
        kind = normalize_kind (at_key "kind" (some draft));
        exec_symbol = draft_symbol draft;
        position_level =
            clamp_int num (to_number num (value "positionLevel"))
              (lesser num (whole num 3) max_leverage) (whole num 1) max_leverage;
        open_position_stop_time =
            clamp_int num (to_number num (value "openPositionStopTime")) (whole num 30)
              (whole num 0) (whole num 1440);
        order_group_margin =
            clamp_int num (to_number num (value "orderGroupMargin"))
              (lesser num (whole num 100) max_margin) (whole num 0) max_margin;
        stop_profit_rate = clamp_rate num (value "stopProfitRate") (percent num 3);
        stop_loss_rate = clamp_rate num (value "stopLossRate") (percent num 5);
        profit_rate_after_at_add_position =
            clamp_rate num (value "profitRateAfterAtAddPosition") (percent num 1);
        create_cost_order_in_profit = truthy_value num (value "createCostOrderInProfit");
        create_positions = positions_or (value "createPositions");
        risk = risk;
      }

  abbrev pub position_json : Position N → Json N
  position_json p = object (
      member "marginRate" (number p.margin_rate)
        (member "lossAddRate" (number p.loss_add_rate) end))

  abbrev pub positions_json : List (Position N) → Items N
  positions_json [] = nil
  positions_json (p ∷ ps) = cons (position_json p) (positions_json ps)

  abbrev pub risk_pairs : Option (RiskCaps N) → List (String × String)
  risk_pairs none = []
  risk_pairs (some r) =
      ("riskMaxPositionUsd", num.show r.max_position_usd)
      ∷ ("riskMaxLeverage", num.show r.max_leverage)
      ∷ ("riskDailyLossCapUsd", num.show r.daily_loss_cap_usd)
      ∷ []

  abbrev pub preset_pairs : JsonCodec String N → DraftPreset N → List (String × String)
  preset_pairs json p =
      append
        (("source", "ai-goal")
          ∷ ("name", p.name)
          ∷ ("kind", kind_text p.kind)
          ∷ ("execSymbol", p.exec_symbol)
          ∷ ("positionLevel", num.show p.position_level)
          ∷ ("openPositionStopTime", num.show p.open_position_stop_time)
          ∷ ("orderGroupMargin", num.show p.order_group_margin)
          ∷ ("stopProfitRate", num.show p.stop_profit_rate)
          ∷ ("stopLossRate", num.show p.stop_loss_rate)
          ∷ ("profitRateAfterAtAddPosition", num.show p.profit_rate_after_at_add_position)
          ∷ ("createCostOrderInProfit", bool_text p.create_cost_order_in_profit)
          ∷ ("createPositions", json.stringify (array (positions_json p.create_positions)))
          ∷ [])
        (risk_pairs p.risk)

  -- The members of the preset, which the search of the link holds as its parameters.
  unfoldable pub strategy_preset_from_draft : JsonCodec String N → Json N → List (String × String)
  unfolding draft_preset
  strategy_preset_from_draft json draft = preset_pairs json (draft_preset draft)

  -- `draft?.params && typeof draft.params === "object" ? draft.params : {}`
  abbrev pub params_or_empty : Option (Json N) → Json N
  params_or_empty (some (array vs)) = array vs
  params_or_empty (some (object ms)) = object ms
  params_or_empty _ = object end

  -- The texts of the two dates are arguments.
  unfoldable pub backtest_request_from_draft : String → String → Json N → Option (BacktestRequest N)
  backtest_request_from_draft start stop draft =
      if is_text (at_key "kind" (some draft)) "watch_only"
      then none
      else some (record {
        strategy_id = draft_name draft;
        kind = normalize_kind (at_key "kind" (some draft));
        params = params_or_empty (at_key "params" (some draft));
        symbol = draft_symbol draft;
        exchange = "binance";
        timeframe = "1h";
        start = start;
        stop = stop;
        initial_capital = whole num 10000;
        commission_rate = num.literal 4;
        slippage_bps = whole num 1;
      })
