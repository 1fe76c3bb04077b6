-- ===== src/Preset.antt =====
-- The trading parameters that the AI goal hands over to a strategy's form, in the link to the form
-- or saved directly: client/data/ai-goal-preset.mjs. N is the type of numbers; toLowerCase,
-- toUpperCase and JSON on texts are arguments.
pub mod Names
pub mod Bounds
pub mod Draft
pub mod Link
use Prim.Native.Char.{Char, code}
use Prim.Native.String.{◌++◌, count}
use finance_next.Base.{
  ℕ, zero, suc, String, Bool, true, false, not, ◌&&◌, ◌||◌, Option, none, some, List, [], ◌∷◌, map,
  if◌then◌else◌, ◌==◌, leb, ltb, take, filter, string_key,
}
use finance_next.Json.{
  Json, Items, Members, null, number, text as json_text, array, object, nil, cons, end, member,
  at_key,
}
use finance_next.Numbers.{
  Numbers, less, lesser, whole, percent, to_number, truthy_text, clamp_number, clamp_int,
}
use finance_next.Recent.{JsonCodec}
use finance_next.Auth.{trim}

-- A character of A-Z, a-z or 0-9, by its code point.
abbrev pub between : ℕ → ℕ → Char → Bool
between lo hi c = leb lo (code c) && leb (code c) hi

-- `[a-z0-9_-]`
abbrev pub is_name_char : Char → Bool
is_name_char c = between 97 122 c || between 48 57 c || between 95 95 c || between 45 45 c

-- `[A-Z0-9]`
abbrev pub is_symbol_char : Char → Bool
is_symbol_char c = between 65 90 c || between 48 57 c

-- `s.replace(/[^...]/g, "")`
abbrev pub keep_chars : (Char → Bool) → String → String
keep_chars p String.[] = ""
keep_chars p (String.◌∷◌ c s) = if p c then String.◌∷◌ c (keep_chars p s) else keep_chars p s

-- `s.slice(0, n)`
abbrev pub take_chars : ℕ → String → String
take_chars zero s = ""
take_chars (suc n) String.[] = ""
take_chars (suc n) (String.◌∷◌ c s) = String.◌∷◌ c (take_chars n s)

-- `s.endsWith(t)`
abbrev pub ends_with : String → String → Bool
ends_with String.[] t = "" == t
ends_with (String.◌∷◌ c s) t = String.◌∷◌ c s == t || ends_with s t

-- `a || b`, where `none` is a falsy value.
abbrev pub first_given : Option String → String → String
first_given none b = b
first_given (some a) b = a

-- `${trimmed || "ai"}ai`
abbrev pub pad_name : String → String
pad_name s = (if s == "" then "ai" else s) ++ "ai"

abbrev pub short_name : String → String
short_name base =
    let trimmed : String = take_chars 8 base in
    if leb 3 (count trimmed) then trimmed else take_chars 8 (pad_name trimmed)

abbrev pub with_usdt : String → String
with_usdt raw = if raw == "" then "BTCUSDT" else if ends_with raw "USDT" then raw else raw ++ "USDT"

-- `normalizeName` and `normalizeSymbol`: the first argument is toLowerCase or toUpperCase.
unfoldable pub normalize_name : (String → String) → Option String → Option String → String
normalize_name lower name symbol =
    short_name (keep_chars is_name_char (lower (trim (first_given name (first_given symbol "ai")))))

unfoldable pub normalize_symbol : (String → String) → Option String → String
normalize_symbol upper symbol =
    with_usdt (keep_chars is_symbol_char (upper (first_given symbol "BTCUSDT")))

pub data StrategyKind : Type 0 where
  polymarket_event grid_dca : StrategyKind

abbrev pub kind_text : StrategyKind → String
kind_text polymarket_event = "polymarket_event"
kind_text grid_dca = "grid_dca"

-- `v === s`
abbrev pub is_text : {N : Type 0} → Option (Json N) → String → Bool
is_text (some (json_text t)) s = t == s
is_text _ s = false

abbrev pub normalize_kind : {N : Type 0} → Option (Json N) → StrategyKind
normalize_kind kind = if is_text kind "polymarket_event" then polymarket_event else grid_dca

pub record Position (N : Type 0) : Type 0 where
  pub margin_rate : N
  pub loss_add_rate : N

pub record RiskCaps (N : Type 0) : Type 0 where
  pub max_position_usd : N
  pub max_leverage : N
  pub daily_loss_cap_usd : N

-- The form's preset.
pub record StrategyPreset (N : Type 0) : Type 0 where
  pub is_preset : Bool
  pub name : String
  pub kind : StrategyKind
  pub exec_symbol : String
  pub position_level : N
  pub open_position_stop_time : N
  pub order_group_margin : N
  pub stop_profit_rate : N
  pub stop_loss_rate : N
  pub profit_rate_after_at_add_position : N
  pub create_cost_order_in_profit : Bool
  pub create_positions : List (Position N)
  pub ai_run_id : String
  pub risk : Option (RiskCaps N)

module _ {N : Type 0} (num : Numbers N) where
  abbrev pub default_positions : List (Position N)
  default_positions = record { margin_rate = whole num 1; loss_add_rate = whole num 0 } ∷ []

  -- `clampNumber(value, fallback, 0, 1)`
  abbrev pub clamp_rate : Option (Json N) → N → N
  clamp_rate v fallback = clamp_number num (to_number num v) fallback (whole num 0) (whole num 1)

  abbrev pub position_of : Json N → Position N
  position_of row = record {
    margin_rate = clamp_rate (at_key "marginRate" (some row)) (whole num 0);
    loss_add_rate = clamp_rate (at_key "lossAddRate" (some row)) (whole num 0);
  }

  abbrev pub positions_of : Items N → List (Position N)
  positions_of nil = []
  positions_of (cons row rows) = position_of row ∷ positions_of rows

  abbrev pub is_used : Position N → Bool
  is_used p = less num (whole num 0) p.margin_rate

  abbrev pub or_default : List (Position N) → List (Position N)
  or_default [] = default_positions
  or_default (p ∷ ps) = p ∷ ps

  unfoldable pub normalize_positions : Json N → List (Position N)
  normalize_positions (array rows) = or_default (take 8 (filter is_used (positions_of rows)))
  normalize_positions _ = default_positions

  abbrev pub positions_or_default : Option (Json N) → List (Position N)
  positions_or_default none = default_positions
  positions_or_default (some v) = normalize_positions v

  -- A text that JSON.parse refuses is `none` of the codec, and null of the parameters no text.
  unfoldable pub read_positions : JsonCodec String N → Option String → List (Position N)
  read_positions json none = default_positions
  read_positions json (some raw) =
      if raw == "" then default_positions else positions_or_default (json.parse raw)

  abbrev pub clamp_cap : Option N → ℕ → N
  clamp_cap v most = clamp_number num v (whole num 0) (whole num 0) (whole num most)

  abbrev pub caps_of : RiskCaps N → Option (RiskCaps N)
  caps_of r =
      if num.leq r.max_position_usd (whole num 0)
        || num.leq r.max_leverage (whole num 0)
        || num.leq r.daily_loss_cap_usd (whole num 0)
      then none
      else some r

  -- The three members of the argument of `normalizeRiskCaps`, as numbers. What is no object has no
  -- members, and gives null as well.
  unfoldable pub normalize_risk_caps : Option N → Option N → Option N → Option (RiskCaps N)
  normalize_risk_caps position leverage loss = caps_of (record {
    max_position_usd = clamp_cap position 1000000000;
    max_leverage = clamp_cap leverage 125;
    daily_loss_cap_usd = clamp_cap loss 1000000000;
  })

  -- `risk ? clampInt(risk.maxLeverage, fallback, 1, 125) : 125`
  abbrev pub max_leverage_of : Option (RiskCaps N) → ℕ → N
  max_leverage_of none fallback = whole num 125
  max_leverage_of (some r) fallback =
      clamp_int num (some r.max_leverage) (whole num fallback) (whole num 1) (whole num 125)

  abbrev pub max_margin_of : Option (RiskCaps N) → N
  max_margin_of none = whole num 1000000
  max_margin_of (some r) =
      clamp_int num (some r.max_position_usd) (whole num 100) (whole num 1) (whole num 1000000)

  -- `searchParams.get(key)`, as the value that `Number` takes.
  abbrev pub param : Option String → Option (Json N)
  param none = some null
  param (some s) = some (json_text s)

  -- A parameter that `||` keeps.
  abbrev pub nonblank : Option String → Option String
  nonblank none = none
  nonblank (some s) = if s == "" then none else some s

  unfoldable pub parse_strategy_preset :
      JsonCodec String N
      → (String → String)
      → (String → String)
      → (String → Option String)
      → StrategyPreset N
  parse_strategy_preset json lower upper get =
      let value : String → Option (Json N) = λ key. param (get key) in
      let risk : Option (RiskCaps N) =
        normalize_risk_caps (to_number num (value "riskMaxPositionUsd"))
          (to_number num (value "riskMaxLeverage")) (to_number num (value "riskDailyLossCapUsd")) in
      let max_leverage : N = max_leverage_of risk 5 in
      let max_margin : N = max_margin_of risk in
      record {
        is_preset = is_text (value "source") "ai-goal";
        name = normalize_name lower (nonblank (get "name")) none;
        kind = normalize_kind (value "kind");
        exec_symbol = normalize_symbol upper (nonblank (get "execSymbol"));
        position_level =
            clamp_int num (to_number num (value "positionLevel"))
              (lesser num (whole num 5) max_leverage) (whole num 1) max_leverage;
        open_position_stop_time =
            clamp_int num (to_number num (value "openPositionStopTime")) (whole num 30)
              (whole num 0) (whole num 1440);
        order_group_margin =
            clamp_int num (to_number num (value "orderGroupMargin"))
              (lesser num (whole num 100) max_margin) (whole num 0) max_margin;
        stop_profit_rate = clamp_rate (value "stopProfitRate") (percent num 5);
        stop_loss_rate = clamp_rate (value "stopLossRate") (percent num 5);
        profit_rate_after_at_add_position =
            clamp_rate (value "profitRateAfterAtAddPosition") (percent num 2);
        create_cost_order_in_profit = is_text (value "createCostOrderInProfit") "true";
        create_positions = read_positions json (get "createPositions");
        ai_run_id = trim (first_given (get "aiRunId") "");
        risk = risk;
      }
