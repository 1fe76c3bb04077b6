-- ===== src/Palette/Groups.antt =====
-- The groups of client/components/command-palette.tsx.
use mathlib.Core.List.{append_assoc, append-nil}
use finance_next.Base.{
  String, ◌≡◌, refl, sym, ap, ◌∙◌, inl, inr, List, [], ◌∷◌, ◌++◌, ◌==◌, filter, lookup,
  lookup-insert, string_key, Bool-cases, eq_of_same, keys, add_all, keys-insert, map,
}
use finance_next.Palette.{PaletteItem, listed, add_to_group, group_all, grouped}

listed-add_to_group :
    (g : String) (it : PaletteItem) (groups : List (String × List PaletteItem))
    → listed (lookup g (add_to_group it groups))
      ≡ listed (lookup g groups) ++ filter (λ i. i.group == g) (it ∷ [])
unfolding add_to_group
listed-add_to_group g it groups =
    ap listed (lookup-insert it.group g (listed (lookup it.group groups) ++ it ∷ []) groups)
    ∙ elim (Bool-cases (it.group == g)) [
      | inl e ↦ rw (e, eq_of_same it.group g e) refl
      | inr e ↦ rw e (sym (append-nil (listed (lookup g groups))))
    ]

filter-cons :
    (g : String) (it : PaletteItem) (its : List PaletteItem)
    → filter (λ i. i.group == g) (it ∷ its)
      ≡ filter (λ i. i.group == g) (it ∷ []) ++ filter (λ i. i.group == g) its
filter-cons g it its = elim (Bool-cases (it.group == g)) [ inl e ↦ rw e refl | inr e ↦ rw e refl ]

listed-group_all :
    (g : String) (its : List PaletteItem) (groups : List (String × List PaletteItem))
    → listed (lookup g (group_all its groups))
      ≡ listed (lookup g groups) ++ filter (λ i. i.group == g) its
listed-group_all g [] groups = sym (append-nil (listed (lookup g groups)))
listed-group_all g (it ∷ its) groups =
    listed-group_all g its (add_to_group it groups)
    ∙ ap (λ l. l ++ filter (λ i. i.group == g) its) (listed-add_to_group g it groups)
    ∙ append_assoc (listed (lookup g groups)) (filter (λ i. i.group == g) (it ∷ []))
        (filter (λ i. i.group == g) its)
    ∙ ap (λ l. listed (lookup g groups) ++ l) (sym (filter-cons g it its))

keys-group_all :
    (its : List PaletteItem) (groups : List (String × List PaletteItem))
    → keys (group_all its groups) ≡ add_all (map (λ i. i.group) its) (keys groups)
unfolding add_to_group
keys-group_all [] groups = refl
keys-group_all (it ∷ its) groups =
    keys-group_all its (add_to_group it groups)
    ∙ ap (add_all (map (λ i. i.group) its))
        (keys-insert it.group (listed (lookup it.group groups) ++ it ∷ []) groups)

-- The palette shows every entry of the list in the group of its name, in the order of the list, and
-- the groups in the order in which their names come first, each once.
pub grouped_lem :
    (its : List PaletteItem) (g : String)
    → (listed (lookup g (grouped its)) ≡ filter (λ i. i.group == g) its)
      × (keys (grouped its) ≡ add_all (map (λ i. i.group) its) [])
unfolding grouped
grouped_lem its g = (listed-group_all g its [], keys-group_all its [])
