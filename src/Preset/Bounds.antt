-- ===== src/Preset/Bounds.antt =====
-- What the form gets from a link stays within its bounds, whatever the parameters are.
use Prim.Native.String.{count}
use finance_next.Base.{
  ◌==◌, string_key, ℕ, String, true, false, ◌≡◌, ◌≤◌, Option, none, some, List, [], ◌∷◌, filter,
  take, length, All, All-take, All-filter, length-take_le, Bool-cases, ◌⊎◌, inl, inr, arith,
}
use finance_next.Json.{
  Json, Items, null, boolean, number, text as json_text, array, object, nil, cons,
}
use finance_next.Numbers.{Numbers, IsOrdered, lesser, whole, clamp_int}
use finance_next.Numbers.Clamp.{
  Within, lesser-Within, clamp_int_le_round, clamp_number-Within, clamp_int-Within,
}
use finance_next.Recent.{JsonCodec}
use finance_next.Preset.{
  Position, RiskCaps, StrategyPreset, ends_with, default_positions, clamp_rate, positions_of,
  is_used, or_default, normalize_positions, positions_or_default, read_positions, max_leverage_of,
  max_margin_of, parse_strategy_preset,
}
use finance_next.Preset.Names.{normalize_name-Length, normalize_symbol-EndsWith}

module _ {N : Type 0} (num : Numbers N) where
  abbrev pub IsRate : N → Type 0
  IsRate = Within num (whole num 0) (whole num 1)

  abbrev pub HasRates : Position N → Type 0
  HasRates p = IsRate p.margin_rate × IsRate p.loss_add_rate

  abbrev pub ArePositions : List (Position N) → Type 0
  ArePositions ps = (1 ≤ length ps) × (length ps ≤ 8) × All HasRates ps

  -- Where the risk has a cap on the leverage, and the cap is at least 1, then the leverage is at
  -- most the cap, rounded.
  abbrev pub RespectsCap : Option (RiskCaps N) → N → Type 0
  RespectsCap none level = Unit
  RespectsCap (some r) level =
      (num.leq (whole num 1) r.max_leverage ≡ false)
      ⊎ (num.leq level (num.round r.max_leverage) ≡ true)

  -- The bounds of a preset; those of the leverage and of the margin depend on its risk.
  pub record IsBounded (p : StrategyPreset N) : Type 0 where
    pub name : (3 ≤ count p.name) × (count p.name ≤ 8)
    pub symbol : ends_with p.exec_symbol "USDT" ≡ true
    pub level : Within num (whole num 1) (whole num 125) p.position_level
    pub level_whole : num.round p.position_level ≡ p.position_level
    pub respects_cap : RespectsCap p.risk p.position_level
    pub stop_time : Within num (whole num 0) (whole num 1440) p.open_position_stop_time
    pub margin : Within num (whole num 0) (max_margin_of num p.risk) p.order_group_margin
    pub margin_most : num.leq p.order_group_margin (whole num 1000000) ≡ true
    pub stop_profit : IsRate p.stop_profit_rate
    pub stop_loss : IsRate p.stop_loss_rate
    pub profit_add : IsRate p.profit_rate_after_at_add_position
    pub positions : ArePositions p.create_positions

module _ {N : Type 0} {num : Numbers N} (laws : IsOrdered num) where
  pub clamp_rate-IsRate :
      (v : Option (Json N)) (n : ℕ) → n ≤ 10000 → IsRate num (clamp_rate num v (num.literal n))
  clamp_rate-IsRate v n h =
      clamp_number-Within laws _ _ _ _
        (
          laws.literal_mono 0 n (omega arith) (omega arith),
          laws.literal_mono n 10000 h (omega arith),
        )
        (laws.literal_mono 0 10000 (omega arith) (omega arith))

  positions_of-HasRates : (rows : Items N) → All (HasRates num) (positions_of num rows)
  positions_of-HasRates nil = tt
  positions_of-HasRates (cons row rows) = (
    (clamp_rate-IsRate _ 0 (omega arith), clamp_rate-IsRate _ 0 (omega arith)),
    positions_of-HasRates rows,
  )

  default_positions-ArePositions : ArePositions num (default_positions num)
  default_positions-ArePositions = (
    omega arith,
    omega arith,
    (
      (
        (laws.literal_mono 0 10000 (omega arith) (omega arith), laws.leq_refl _),
        (laws.leq_refl _, laws.literal_mono 0 10000 (omega arith) (omega arith)),
      ),
      tt,
    ),
  )

  or_default-ArePositions :
      (ps : List (Position N))
      → length ps ≤ 8
      → All (HasRates num) ps
      → ArePositions num (or_default num ps)
  or_default-ArePositions [] h k = default_positions-ArePositions
  or_default-ArePositions (p ∷ ps) h k = (omega arith, h, k)

  pub normalize_positions-ArePositions : (v : Json N) → ArePositions num (normalize_positions num v)
  unfolding normalize_positions
  normalize_positions-ArePositions null = default_positions-ArePositions
  normalize_positions-ArePositions (boolean b) = default_positions-ArePositions
  normalize_positions-ArePositions (number n) = default_positions-ArePositions
  normalize_positions-ArePositions (json_text s) = default_positions-ArePositions
  normalize_positions-ArePositions (object ms) = default_positions-ArePositions
  normalize_positions-ArePositions (array rows) =
      let used : List (Position N) = filter (is_used num) (positions_of num rows) in
      or_default-ArePositions (take 8 used) (length-take_le 8 used)
        (All-take _ 8 used (All-filter _ (is_used num) _ (positions_of-HasRates rows)))

  positions_or_default-ArePositions :
      (v : Option (Json N)) → ArePositions num (positions_or_default num v)
  positions_or_default-ArePositions none = default_positions-ArePositions
  positions_or_default-ArePositions (some v) = normalize_positions-ArePositions v

  read_positions-ArePositions :
      (json : JsonCodec String N) (raw : Option String)
      → ArePositions num (read_positions num json raw)
  unfolding read_positions
  read_positions-ArePositions json none = default_positions-ArePositions
  read_positions-ArePositions json (some raw) = elim (Bool-cases (raw == "")) [
    | inl e ↦ rw e default_positions-ArePositions
    | inr e ↦ rw e (positions_or_default-ArePositions (json.parse raw))
  ]

  -- A whole bound is its own rounding.
  clamp_whole-Within :
      (v : Option N) (fallback : N) (lo : ℕ) (hi : N)
      → lo ≤ 1000000000
      → Within num (whole num lo) hi fallback
      → num.leq (whole num lo) hi ≡ true
      → num.round hi ≡ hi
      → Within num (whole num lo) hi (clamp_int num v fallback (whole num lo) hi)
  clamp_whole-Within v fallback lo hi s f h r =
      clamp_int-Within laws v fallback (whole num lo) hi f h (laws.round-whole lo s) r

  pub whole_mono : (a b : ℕ) → a ≤ b → b ≤ 1000000000 → num.leq (whole num a) (whole num b) ≡ true
  whole_mono a b h k = laws.literal_mono _ _ (omega arith) (omega arith)

  pub whole-Within :
      (v : Option N) (fallback lo hi : ℕ)
      → lo ≤ fallback
      → fallback ≤ hi
      → hi ≤ 1000000000
      → Within num
          (whole num lo)
          (whole num hi)
          (clamp_int num v (whole num fallback) (whole num lo) (whole num hi))
  whole-Within v fallback lo hi h k s =
      clamp_whole-Within v _ lo _ (omega arith) (whole_mono _ _ h (omega arith), whole_mono _ _ k s)
        (whole_mono lo hi (omega arith) s) (laws.round-whole hi s)

  pub max_leverage_of-Within :
      (risk : Option (RiskCaps N)) (fallback : ℕ)
      → 1 ≤ fallback
      → fallback ≤ 125
      → Within num (whole num 1) (whole num 125) (max_leverage_of num risk fallback)
  max_leverage_of-Within none fallback h k =
      (whole_mono 1 125 (omega arith) (omega arith), laws.leq_refl _)
  max_leverage_of-Within (some r) fallback h k = whole-Within _ fallback 1 125 h k (omega arith)

  pub max_margin_of-Within :
      (risk : Option (RiskCaps N))
      → Within num (whole num 1) (whole num 1000000) (max_margin_of num risk)
  max_margin_of-Within none = (whole_mono 1 1000000 (omega arith) (omega arith), laws.leq_refl _)
  max_margin_of-Within (some r) =
      whole-Within _ 100 1 1000000 (omega arith) (omega arith) (omega arith)

  pub clamp_int_whole :
      (v : Option N) (fallback lo hi : N)
      → num.round (clamp_int num v fallback lo hi) ≡ clamp_int num v fallback lo hi
  unfolding clamp_int
  clamp_int_whole v fallback lo hi = laws.round_round _

  pub max_leverage_of_whole :
      (risk : Option (RiskCaps N)) (fallback : ℕ)
      → num.round (max_leverage_of num risk fallback) ≡ max_leverage_of num risk fallback
  max_leverage_of_whole none fallback = laws.round-whole 125 (omega arith)
  max_leverage_of_whole (some r) fallback = clamp_int_whole _ _ _ _

  pub max_margin_of_whole :
      (risk : Option (RiskCaps N)) → num.round (max_margin_of num risk) ≡ max_margin_of num risk
  max_margin_of_whole none = laws.round-whole 1000000 (omega arith)
  max_margin_of_whole (some r) = clamp_int_whole _ _ _ _

  pub level-Within :
      (v : Option N) (risk : Option (RiskCaps N)) (fallback : ℕ)
      → 1 ≤ fallback
      → fallback ≤ 125
      → Within num (whole num 1) (max_leverage_of num risk fallback) (
          clamp_int num v
            (lesser num (whole num fallback) (max_leverage_of num risk fallback))
            (whole num 1)
            (max_leverage_of num risk fallback))
  level-Within v risk fallback h k =
      let low : num.leq (whole num 1) (max_leverage_of num risk fallback) ≡ true =
        (max_leverage_of-Within risk fallback h k).0 in
      clamp_whole-Within v _ 1 _ (omega arith)
        (lesser-Within laws _ _ _ (whole_mono 1 fallback h (omega arith)) low) low
        (max_leverage_of_whole risk fallback)

  pub margin-Within :
      (v : Option N) (risk : Option (RiskCaps N))
      → Within num (whole num 0) (max_margin_of num risk) (
          clamp_int num v
            (lesser num (whole num 100) (max_margin_of num risk))
            (whole num 0)
            (max_margin_of num risk))
  margin-Within v risk =
      let low : num.leq (whole num 0) (max_margin_of num risk) ≡ true =
        laws.leq_trans _ _ _ (whole_mono 0 1 (omega arith) (omega arith))
          (max_margin_of-Within risk).0 in
      clamp_whole-Within v _ 0 _ (omega arith)
        (lesser-Within laws _ _ _ (whole_mono 0 100 (omega arith) (omega arith)) low) low
        (max_margin_of_whole risk)

  Within-weaken :
      (lo most hi n : N) → Within num lo most n → num.leq most hi ≡ true → Within num lo hi n
  Within-weaken lo most hi n w h = (w.0, laws.leq_trans n most hi w.1 h)

  level-RespectsCap :
      (risk : Option (RiskCaps N)) (level : N)
      → num.leq level (max_leverage_of num risk 5) ≡ true
      → RespectsCap num risk level
  level-RespectsCap none level h = tt
  level-RespectsCap (some r) level h = elim (Bool-cases (num.leq (whole num 1) r.max_leverage)) [
    | inl e ↦
        inr (laws.leq_trans _ _ _ h (clamp_int_le_round laws r.max_leverage (whole num 5) _ _ e))
    | inr e ↦ inl e
  ]

  -- The preset of any link is bounded: a name of 3 to 8 characters, a USDT symbol, a whole
  -- leverage from 1 to 125, and up to the rounded cap of the link's risk where that is at least 1, a
  -- holding time of up to 1440 minutes, a margin up to its own cap, rates from 0 to 1, and 1 to 8
  -- positions.
  pub parse_strategy_preset-IsBounded :
      (json : JsonCodec String N) (lower upper : String → String) (get : String → Option String)
      → IsBounded num (parse_strategy_preset num json lower upper get)
  unfolding parse_strategy_preset
  parse_strategy_preset-IsBounded json lower upper get = record {
    name = normalize_name-Length lower _ _;
    symbol = normalize_symbol-EndsWith upper _;
    level =
        Within-weaken _ _ _ _ (level-Within _ _ 5 (omega arith) (omega arith))
          (max_leverage_of-Within _ 5 (omega arith) (omega arith)).1;
    level_whole = clamp_int_whole _ _ _ _;
    respects_cap = level-RespectsCap _ _ (level-Within _ _ 5 (omega arith) (omega arith)).1;
    stop_time = whole-Within _ 30 0 1440 (omega arith) (omega arith) (omega arith);
    margin = margin-Within _ _;
    margin_most = laws.leq_trans _ _ _ (margin-Within _ _).1 (max_margin_of-Within _).1;
    stop_profit = clamp_rate-IsRate _ 500 (omega arith);
    stop_loss = clamp_rate-IsRate _ 500 (omega arith);
    profit_add = clamp_rate-IsRate _ 200 (omega arith);
    positions = read_positions-ArePositions json _;
  }
