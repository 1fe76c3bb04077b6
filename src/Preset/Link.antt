-- ===== src/Preset/Link.antt =====
-- The numbers of a draft go through the link to the form unchanged.
use mathlib.Core.Option
use mathlib.Core.Path.{subst}
use finance_next.Base.{
  ℕ, ◌≤◌, String, Bool, true, false, ◌||◌, ◌≡◌, refl, inl, inr, Option, none, some, Bool-cases,
  lookup, string_key, arith,
}
use finance_next.Json.{Json}
use finance_next.Numbers.{Numbers, IsOrdered, lesser, whole, to_number, clamp_number, clamp_int}
use finance_next.Numbers.Clamp.{Within, clamp_number-Within, clamp_number_fixed, clamp_int_fixed}
use finance_next.Recent.{JsonCodec}
use finance_next.Preset.{
  RiskCaps, StrategyPreset, StrategyKind, polymarket_event, grid_dca, kind_text, is_text, clamp_cap,
  normalize_kind, normalize_risk_caps, max_leverage_of, max_margin_of, param, parse_strategy_preset,
}
use finance_next.Preset.Bounds.{
  whole_mono, level-Within, margin-Within, whole-Within, clamp_rate-IsRate, clamp_int_whole,
}
use finance_next.Preset.Draft.{
  DraftPreset, draft_preset, strategy_preset_from_draft, bool_text, risk_pairs,
}

-- The form's preset p has the numbers, the kind, the flag and the risk of the draft's d.
pub record IsKept {N : Type 0} (d : DraftPreset N) (p : StrategyPreset N) : Type 0 where
  pub is_preset : p.is_preset ≡ true
  pub kind : p.kind ≡ d.kind
  pub level : p.position_level ≡ d.position_level
  pub stop_time : p.open_position_stop_time ≡ d.open_position_stop_time
  pub margin : p.order_group_margin ≡ d.order_group_margin
  pub stop_profit : p.stop_profit_rate ≡ d.stop_profit_rate
  pub stop_loss : p.stop_loss_rate ≡ d.stop_loss_rate
  pub profit_add : p.profit_rate_after_at_add_position ≡ d.profit_rate_after_at_add_position
  pub cost : p.create_cost_order_in_profit ≡ d.create_cost_order_in_profit
  pub risk : p.risk ≡ d.risk

-- Does `normalizeRiskCaps` give null?
abbrev is_dropped : {N : Type 0} → Numbers N → RiskCaps N → Bool
is_dropped num r =
    num.leq r.max_position_usd (whole num 0)
    || num.leq r.max_leverage (whole num 0)
    || num.leq r.daily_loss_cap_usd (whole num 0)

module _ {N : Type 0} {num : Numbers N} (laws : IsOrdered num) where
  clamp_cap_fixed :
      (v : Option N) (most : ℕ)
      → most ≤ 1000000000
      → clamp_cap num (some (clamp_cap num v most)) most ≡ clamp_cap num v most
  clamp_cap_fixed v most s = clamp_number_fixed laws _ _ _ _ (
      clamp_number-Within laws v _ _ _ (laws.leq_refl _, whole_mono laws 0 most (omega arith) s)
        (whole_mono laws 0 most (omega arith) s))

  -- Caps that are kept are kept again.
  normalize_risk_caps_fixed :
      (a b c : Option N) (r : RiskCaps N)
      → normalize_risk_caps num a b c ≡ some r
      → normalize_risk_caps num
          (some r.max_position_usd)
          (some r.max_leverage)
          (some r.daily_loss_cap_usd)
        ≡ some r
  unfolding normalize_risk_caps
  normalize_risk_caps_fixed a b c r h =
      let raw : RiskCaps N = record {
        max_position_usd = clamp_cap num a 1000000000;
        max_leverage = clamp_cap num b 125;
        daily_loss_cap_usd = clamp_cap num c 1000000000;
      } in
      elim (Bool-cases (is_dropped num raw)) [
        | inl e ↦ let gone : none ≡ some r = rw e at h in cc
        | inr e ↦
            let same : raw ≡ r = Option.some-injective _ _ (rw e at h) in
            subst
              (λ s.
                normalize_risk_caps num (some s.max_position_usd) (some s.max_leverage)
                  (some s.daily_loss_cap_usd)
                ≡ some s)
              same
              (rw (
                clamp_cap_fixed a 1000000000 (omega arith),
                clamp_cap_fixed b 125 (omega arith),
                clamp_cap_fixed c 1000000000 (omega arith),
                e,
              ))
      ]

  clamp_int_mono :
      (n a b lo hi : N)
      → num.leq a b ≡ true
      → num.leq (clamp_int num (some n) a lo hi) (clamp_int num (some n) b lo hi) ≡ true
  unfolding clamp_int clamp_number
  clamp_int_mono n a b lo hi h = elim (Bool-cases (num.leq lo n)) [
    | inl e ↦ rw (e, clamp_int) (laws.leq_refl _)
    | inr e ↦ rw (e, clamp_int) (laws.round_mono a b h)
  ]

  max_leverage_mono :
      (o : Option (RiskCaps N)) → num.leq (max_leverage_of num o 3) (max_leverage_of num o 5) ≡ true
  max_leverage_mono none = laws.leq_refl _
  max_leverage_mono (some r) =
      clamp_int_mono r.max_leverage _ _ _ _ (whole_mono laws 3 5 (omega arith) (omega arith))

  module _ (lower upper : String → String) (prints : (a : N) → num.read (num.show a) ≡ some a) where
    -- The caps that the link's parameters give, for the risk of a draft.
    risk_kept :
        (a b c : Option N) (o : Option (RiskCaps N))
        → normalize_risk_caps num a b c ≡ o
        → normalize_risk_caps num
            (to_number num (param num (lookup "riskMaxPositionUsd" (risk_pairs num lower upper o))))
            (to_number num (param num (lookup "riskMaxLeverage" (risk_pairs num lower upper o))))
            (to_number num
              (param num (lookup "riskDailyLossCapUsd" (risk_pairs num lower upper o))))
          ≡ o
    unfolding normalize_risk_caps clamp_number
    risk_kept a b c none h = rw (
      laws.leq_refl (whole num 0),
      whole_mono laws 0 1000000000 (omega arith) (omega arith),
      laws.leq_refl (whole num 0),
    )
    risk_kept a b c (some r) h =
        rw (prints r.max_position_usd, prints r.max_leverage, prints r.daily_loss_cap_usd)
          (normalize_risk_caps_fixed a b c r h)

    level_kept :
        (x : N) (o risk : Option (RiskCaps N))
        → o ≡ risk
        → Within num (whole num 1) (max_leverage_of num risk 3) x
        → num.round x ≡ x
        → clamp_int num
            (num.read (num.show x))
            (lesser num (whole num 5) (max_leverage_of num o 5))
            (whole num 1)
            (max_leverage_of num o 5)
          ≡ x
    level_kept x o risk e w r =
        rw (e, prints x)
          (clamp_int_fixed laws x _ _ _ (w.0, laws.leq_trans x _ _ w.1 (max_leverage_mono risk)) r)

    margin_kept :
        (x : N) (o risk : Option (RiskCaps N))
        → o ≡ risk
        → Within num (whole num 0) (max_margin_of num risk) x
        → num.round x ≡ x
        → clamp_int num
            (num.read (num.show x))
            (lesser num (whole num 100) (max_margin_of num o))
            (whole num 0)
            (max_margin_of num o)
          ≡ x
    margin_kept x o risk e w r = rw (e, prints x) (clamp_int_fixed laws x _ _ _ w r)

    minutes_kept :
        (x : N)
        → Within num (whole num 0) (whole num 1440) x
        → num.round x ≡ x
        → clamp_int num (num.read (num.show x)) (whole num 30) (whole num 0) (whole num 1440) ≡ x
    minutes_kept x w r = rw (prints x) (clamp_int_fixed laws x _ _ _ w r)

    rate_kept :
        (x fallback : N)
        → Within num (whole num 0) (whole num 1) x
        → clamp_number num (num.read (num.show x)) fallback (whole num 0) (whole num 1) ≡ x
    rate_kept x fallback w = rw (prints x) (clamp_number_fixed laws x _ _ _ w)

    kind_kept : (k : StrategyKind) → normalize_kind (param num (some (kind_text k))) ≡ k
    kind_kept polymarket_event = refl
    kind_kept grid_dca = refl

    cost_kept : (b : Bool) → is_text (param num (some (bool_text b))) "true" ≡ b
    cost_kept true = refl
    cost_kept false = refl

    -- Where the link holds the parameters that strategyPresetFromDraft makes of a draft, the form's
    -- preset has the draft's kind, numbers, flag and risk, since Number reads back what String prints
    -- of a number. (Its name, symbol and positions are not compared.)
    pub parse_strategy_preset-IsKept :
        (json : JsonCodec String N) (draft : Json N)
        → IsKept (draft_preset num lower upper draft) (
            parse_strategy_preset num json lower upper
              (λ key. lookup key (strategy_preset_from_draft num lower upper json draft)))
    unfolding parse_strategy_preset strategy_preset_from_draft draft_preset
    parse_strategy_preset-IsKept json draft =
        let risk = risk_kept _ _ _ _ refl in
        record {
          is_preset = refl;
          kind = kind_kept _;
          level =
              level_kept _ _ _ risk (level-Within laws _ _ 3 (omega arith) (omega arith))
                (clamp_int_whole laws _ _ _ _);
          stop_time =
              minutes_kept _
                (whole-Within laws _ 30 0 1440 (omega arith) (omega arith) (omega arith))
                (clamp_int_whole laws _ _ _ _);
          margin = margin_kept _ _ _ risk (margin-Within laws _ _) (clamp_int_whole laws _ _ _ _);
          stop_profit = rate_kept _ _ (clamp_rate-IsRate laws _ 300 (omega arith));
          stop_loss = rate_kept _ _ (clamp_rate-IsRate laws _ 500 (omega arith));
          profit_add = rate_kept _ _ (clamp_rate-IsRate laws _ 100 (omega arith));
          cost = cost_kept _;
          risk = risk;
        }
