-- ===== src/Tests/Palette.antt =====
-- Tests of the command palette (client/components/command-palette.tsx).
use finance_next.Base.{
  ℕ, ◌≡◌, refl, true, false, none, some, inr, List, [], ◌∷◌, ◌++◌, String, arith, filter, lookup,
  keys, add_all, map, ◌==◌, string_key,
}
use finance_next.Palette.{
  PaletteItem, Palette, listed, add_to_group, grouped, matches, filtered, active_item, enter,
}
use finance_next.Recent.{RecentResource}
use finance_next.Palette.Groups.{grouped_lem}
use finance_next.Palette.Keys.{Input, opening, down, up, typing, run, enter-run}

abbrev halt : PaletteItem
halt = record {
  id = "act:halt";
  label = "halt";
  search = some "halt kill switch";
  group = "actions";
}

abbrev markets : PaletteItem
markets = record { id = "nav:markets"; label = "markets"; search = none; group = "pages" }

abbrev strategies : PaletteItem
strategies = record { id = "nav:strategies"; label = "strategies"; search = none; group = "pages" }

abbrev same_text : String → String
same_text s = s

abbrev shut : Palette
shut = record {
  items = halt ∷ markets ∷ strategies ∷ [];
  is_open = false;
  query = "";
  active_plus_one = 1;
  chosen = [];
}

abbrev inputs : List Input
inputs = opening ∷ down ∷ typing "strat" ∷ down ∷ up ∷ []

grouped_test :
    grouped (markets ∷ halt ∷ strategies ∷ [])
    ≡ ("pages", markets ∷ strategies ∷ []) ∷ ("actions", halt ∷ []) ∷ []
unfolding grouped add_to_group
grouped_test = refl

enter_test : (enter same_text (run same_text inputs shut)).chosen ≡ strategies ∷ []
unfolding enter run matches
enter_test = refl

grouped_lem_example :
    (listed (lookup "pages" (grouped (markets ∷ halt ∷ strategies ∷ [])))
      ≡ filter (λ i. i.group == "pages") (markets ∷ halt ∷ strategies ∷ []))
    × (keys (grouped (markets ∷ halt ∷ strategies ∷ []))
        ≡ add_all (map (λ i. i.group) (markets ∷ halt ∷ strategies ∷ [])) [])
grouped_lem_example = grouped_lem (markets ∷ halt ∷ strategies ∷ []) "pages"

enter-run_example :
    (item : PaletteItem) × (active_item
        (filtered same_text (run same_text inputs shut))
        (run same_text inputs shut).active_plus_one
      ≡ some item)
    × (matches same_text (run same_text inputs shut).query item ≡ true)
    × ((enter same_text (run same_text inputs shut)).chosen
        ≡ (run same_text inputs shut).chosen ++ item ∷ [])
    × ((enter same_text (run same_text inputs shut)).is_open ≡ false)
enter-run_example =
    enter-run same_text inputs shut (unfold matches in inr (omega arith, omega arith))
      (unfold run matches in omega arith)

abbrev recent : List (RecentResource ℕ)
recent =
    record { id = "1"; kind = "strategy"; label = "one"; path = "/strategies/1"; last_seen_at = 7 }
    ∷ []
