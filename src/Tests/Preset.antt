-- ===== src/Tests/Preset.antt =====
-- Tests of the preset of a strategy's form (client/data/ai-goal-preset.mjs).
use Prim.Native.Nat.{◌/◌}
use Prim.Native.String.{count}
use text.Mathlib.TextLemmas.{length-nil, length-cons}
use finance_next.Base.{
  zero, suc, ap, ℕ, String, ◌≡◌, refl, false, none, some, Option, [], ◌∷◌, arith, leb, ◌+◌, ◌*◌,
  lookup, string_key,
}
use finance_next.Json.{Json, text as json_text, number, array, object, nil, cons, end, member}
use finance_next.Numbers.{Numbers, IsOrdered, clamp_int, clamp_number}
use finance_next.Recent.{JsonCodec}
use finance_next.Preset.{StrategyPreset, parse_strategy_preset, normalize_name, normalize_risk_caps}
use finance_next.Preset.Draft.{draft_preset, strategy_preset_from_draft}
use finance_next.Preset.Link.{IsKept, parse_strategy_preset-IsKept}
use finance_next.Preset.Bounds.{IsBounded, parse_strategy_preset-IsBounded}

-- The numbers from 0 on with four decimals, as numbers of ten-thousandths: of the texts that stand
-- for one, those that the tests use.
abbrev pub decimals : Numbers ℕ
decimals = record {
  leq = leb;
  literal = λ n. n;
  round = λ n. (n + 5000) / 10000 * 10000;
  show = λ n. "";
  read = λ s. lookup s (("0.5", 5000) ∷ ("4", 40000) ∷ ("12", 120000) ∷ ("900", 9000000) ∷ []);
  print = λ v. "";
  weigh = λ v. none;
}

pub decimals-IsOrdered : IsOrdered decimals
decimals-IsOrdered = record {
  leq_refl = λ a. ground arith;
  leq_trans = λ a b c h k. ground arith;
  leq_total = λ a b h. ground arith;
  round_mono = λ a b h. ground arith;
  round_round = λ a. omega arith;
  round-whole = λ a h. omega arith;
  literal_mono = λ a b h k. ground arith;
  literal_less = λ a b h k. ground arith;
}

-- JSON.parse, which knows one text.
abbrev pub two_rows : JsonCodec String ℕ
two_rows = record {
  parse = λ s. some (
      array (
        cons (object (member "marginRate" (number 4000) end))
          (cons (object (member "marginRate" (number 90000) end)) nil)));
  stringify = λ v. "";
  falsy = λ s. false;
}

abbrev link : String → Option String
link key = lookup key (
    ("source", "ai-goal")
    ∷ ("name", " BTC dip! ")
    ∷ ("execSymbol", "BTC/")
    ∷ ("positionLevel", "12")
    ∷ ("createPositions", "[..]")
    ∷ ("riskMaxPositionUsd", "900")
    ∷ ("riskMaxLeverage", "4")
    ∷ ("riskDailyLossCapUsd", "12")
    ∷ [])

abbrev pub same_text : String → String
same_text s = s

abbrev linked : StrategyPreset ℕ
linked = parse_strategy_preset decimals two_rows same_text same_text link

linked_level : linked.position_level ≡ 40000
unfolding parse_strategy_preset normalize_risk_caps clamp_int clamp_number
linked_level = refl

linked_name : linked.name ≡ "dip"
unfolding parse_strategy_preset normalize_name
linked_name = refl

parse_strategy_preset-IsBounded_example : IsBounded decimals linked
parse_strategy_preset-IsBounded_example =
    parse_strategy_preset-IsBounded decimals-IsOrdered two_rows same_text same_text link

-- The same numbers with texts of their own: as many marks as the number has ten-thousandths.
marks : ℕ → String
marks zero = ""
marks (suc n) = String.◌∷◌ "1" (marks n)

count-marks : (n : ℕ) → count (marks n) ≡ n
unfolding marks
count-marks zero = omega (arith, length-nil)
count-marks (suc n) = omega (arith, count-marks n, length-cons "1" (marks n))

abbrev tallies : Numbers ℕ
tallies = record decimals { show = marks; read = λ s. some (count s) }

tallies-IsOrdered : IsOrdered tallies
tallies-IsOrdered = record {
  leq_refl = decimals-IsOrdered.leq_refl;
  leq_trans = decimals-IsOrdered.leq_trans;
  leq_total = decimals-IsOrdered.leq_total;
  round_mono = decimals-IsOrdered.round_mono;
  round_round = decimals-IsOrdered.round_round;
  round-whole = decimals-IsOrdered.round-whole;
  literal_mono = decimals-IsOrdered.literal_mono;
  literal_less = decimals-IsOrdered.literal_less;
}

-- A draft with a leverage above its cap.
abbrev bold : Json ℕ
bold = object (
    member "kind" (json_text "grid_dca") (
      member "params" (object (member "positionLevel" (number 400000) end)) (
        member "riskCaps"
          (object (
            member "maxPositionUsd" (number 9000000)
              (member "maxLeverage" (number 40000) (member "dailyLossCapUsd" (number 120000) end))))
          end)))

bold_level : (draft_preset tallies same_text same_text bold).position_level ≡ 40000
unfolding draft_preset normalize_risk_caps clamp_int clamp_number
bold_level = refl

parse_strategy_preset-IsKept_example : IsKept (draft_preset tallies same_text same_text bold) (
    parse_strategy_preset tallies two_rows same_text same_text
      (λ key. lookup key (strategy_preset_from_draft tallies same_text same_text two_rows bold)))
parse_strategy_preset-IsKept_example =
    parse_strategy_preset-IsKept tallies-IsOrdered same_text same_text
      (λ a. ap some (count-marks a)) two_rows bold
