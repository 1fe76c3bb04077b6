-- ===== src/Palette.antt =====
-- The command palette, client/components/command-palette.tsx, with its own open state: the search,
-- the groups and the keys. `lower` stands for toLowerCase.
pub mod Keys
pub mod Groups
pub mod Catalogue
use finance_next.Base.{
  ℕ, suc, zero, ◌+◌, ◌-◌, String, Bool, true, false, not, ◌&&◌, ◌||◌, Option, none, some, List, [],
  ◌∷◌, ◌++◌, if◌then◌else◌, ◌==◌, ltb, filter, get_elem?, length, lookup, insert, string_key, min,
  max,
}
use finance_next.Auth.{starts_with}

pub record PaletteItem : Type 0 where
  pub id : String
  pub label : String
  pub search : Option String
  pub group : String

-- The index of the active entry is -1 after an arrow on an empty list, so that the state has the
-- index plus one. `chosen` are the items whose action was scheduled, the first first.
pub record Palette : Type 0 where
  pub items : List PaletteItem
  pub is_open : Bool
  pub query : String
  pub active_plus_one : ℕ
  pub chosen : List PaletteItem

-- `s.includes(t)`
abbrev pub includes : String → String → Bool
includes String.[] t = t == ""
includes (String.◌∷◌ c s) t = starts_with (String.◌∷◌ c s) t || includes s t

abbrev pub search_text : PaletteItem → Option String → String
search_text item none = item.label
search_text item (some s) = s

-- `groups.get(it.group) ?? []`
abbrev pub listed : Option (List PaletteItem) → List PaletteItem
listed none = []
listed (some its) = its

-- The groups in the order of their first items, each with its items in order.
unfoldable pub add_to_group :
    PaletteItem → List (String × List PaletteItem) → List (String × List PaletteItem)
add_to_group it groups = insert it.group (listed (lookup it.group groups) ++ it ∷ []) groups

abbrev pub group_all :
    List PaletteItem → List (String × List PaletteItem) → List (String × List PaletteItem)
group_all [] groups = groups
group_all (it ∷ its) groups = group_all its (add_to_group it groups)

unfoldable pub grouped : List PaletteItem → List (String × List PaletteItem)
grouped its = group_all its []

-- `filtered[activeIndex]`
abbrev pub active_item : List PaletteItem → ℕ → Option PaletteItem
active_item its zero = none
active_item its (suc i) = get_elem? its i

module _ (lower : String → String) where
  unfoldable pub matches : String → PaletteItem → Bool
  matches query item =
      if query == ""
      then true
      else (includes (lower (search_text item item.search)) (lower query)
          || includes (lower item.group) (lower query))

  abbrev pub filtered : Palette → List PaletteItem
  filtered p = filter (matches p.query) p.items

  -- `setOpen`, with the effect that runs when the palette opens.
  unfoldable pub set_open : Bool → Palette → Palette
  set_open next p =
      if next && not p.is_open
      then record p { is_open = true; query = ""; active_plus_one = 1 }
      else record p { is_open = next }

  -- `handleSelect`: the action is scheduled for the next tick.
  unfoldable pub handle_select : PaletteItem → Palette → Palette
  unfolding set_open
  handle_select item p = record (set_open false p) { chosen = p.chosen ++ item ∷ [] }

  abbrev pub select : Option PaletteItem → Palette → Palette
  select none p = p
  select (some item) p = handle_select item p

  unfoldable pub arrow_down : Palette → Palette
  arrow_down p = record p { active_plus_one = min (length (filtered p)) (suc p.active_plus_one) }

  unfoldable pub arrow_up : Palette → Palette
  arrow_up p = record p { active_plus_one = max 1 (p.active_plus_one - 1) }

  unfoldable pub enter : Palette → Palette
  enter p = select (active_item (filtered p) p.active_plus_one) p

  -- `onValueChange` of the input.
  unfoldable pub type_query : String → Palette → Palette
  type_query v p = record p { query = v; active_plus_one = 1 }

  -- The pointer comes over the i-th shown entry.
  unfoldable pub mouse_enter : ℕ → Palette → Palette
  mouse_enter i p = if ltb i (length (filtered p)) then record p { active_plus_one = suc i } else p
