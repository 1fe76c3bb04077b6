-- ===== src/Palette/Keys.antt =====
-- The keys of client/components/command-palette.tsx: runs of inputs over a fixed list of items.
use finance_next.Base.{
  ℕ, zero, suc, ◌≤◌, ◌<◌, ◌≡◌, refl, inl, inr, ◌⊎◌, String, true, false, Option, some, none, List,
  [], ◌∷◌, ◌++◌, filter, get_elem?, length, arith, Bool-cases, All-filter_self, All-get_elem?,
  string_key,
}
use finance_next.Palette.{
  PaletteItem, Palette, matches, filtered, set_open, handle_select, select, active_item, arrow_down,
  arrow_up, enter, type_query, mouse_enter,
}

pub data Input : Type 0 where
  opening closing down up entering : Input
  typing : String → Input
  pointing : ℕ → Input
  clicking : PaletteItem → Input

get_elem?-Some :
    (its : List PaletteItem) (i : ℕ)
    → i < length its
    → (item : PaletteItem) × (get_elem? its i ≡ some item)
get_elem?-Some [] i h = elim h [ ]
get_elem?-Some (it ∷ its) zero h = (it, refl)
get_elem?-Some (it ∷ its) (suc i) h = get_elem?-Some its i (omega arith)

active-Some :
    (its : List PaletteItem) (k : ℕ)
    → (1 ≤ k) × (k ≤ length its)
    → (item : PaletteItem) × (active_item its k ≡ some item)
active-Some its zero (h, g) = elim h [ ]
active-Some its (suc i) (h, g) = get_elem?-Some its i (omega arith)

module _ (lower : String → String) where
  unfoldable pub step : Input → Palette → Palette
  unfolding set_open arrow_down arrow_up enter type_query mouse_enter handle_select
  step opening p = set_open lower true p
  step closing p = set_open lower false p
  step down p = arrow_down lower p
  step up p = arrow_up lower p
  step entering p = enter lower p
  step (typing v) p = type_query lower v p
  step (pointing i) p = mouse_enter lower i p
  step (clicking item) p = handle_select lower item p

  unfoldable pub run : List Input → Palette → Palette
  unfolding step
  run [] p = p
  run (i ∷ is) p = run is (step i p)

  -- If anything matches, the active entry is one of the matches.
  abbrev pub IsPlaced : Palette → Type 0
  IsPlaced p =
      (length (filtered lower p) ≡ 0)
      ⊎ ((1 ≤ p.active_plus_one) × (p.active_plus_one ≤ length (filtered lower p)))

  placed_first : (n : ℕ) → (n ≡ 0) ⊎ ((1 ≤ 1) × (1 ≤ n))
  placed_first zero = inl refl
  placed_first (suc n) = inr (omega arith, omega arith)

  handle_select-IsPlaced :
      (item : PaletteItem) (p : Palette) → IsPlaced p → IsPlaced (handle_select lower item p)
  unfolding handle_select set_open
  handle_select-IsPlaced item p h = h

  select-IsPlaced :
      (o : Option PaletteItem) (p : Palette) → IsPlaced p → IsPlaced (select lower o p)
  select-IsPlaced none p h = h
  select-IsPlaced (some item) p h = handle_select-IsPlaced item p h

  step-IsPlaced : (i : Input) (p : Palette) → IsPlaced p → IsPlaced (step i p)
  unfolding step set_open arrow_down arrow_up enter type_query mouse_enter
  step-IsPlaced opening p h = elim (Bool-cases p.is_open) [
    | inl e ↦ rw e h
    | inr e ↦ rw e (placed_first (length (filter (matches lower "") p.items)))
  ]
  step-IsPlaced closing p h = h
  step-IsPlaced down p h = ground arith
  step-IsPlaced up p h = ground arith
  step-IsPlaced entering p h = select-IsPlaced _ p h
  step-IsPlaced (typing v) p h = placed_first (length (filter (matches lower v) p.items))
  step-IsPlaced (pointing i) p h = ground arith
  step-IsPlaced (clicking item) p h = handle_select-IsPlaced item p h

  run-IsPlaced : (is : List Input) (p : Palette) → IsPlaced p → IsPlaced (run is p)
  unfolding run
  run-IsPlaced [] p h = h
  run-IsPlaced (i ∷ is) p h = run-IsPlaced is (step i p) (step-IsPlaced i p h)

  placed-le :
      (p : Palette)
      → IsPlaced p
      → 1 ≤ length (filtered lower p)
      → (1 ≤ p.active_plus_one) × (p.active_plus_one ≤ length (filtered lower p))
  placed-le p (inl e) h = absurd (ground arith)
  placed-le p (inr g) h = g

  active-matches :
      (p : Palette) (k : ℕ) {item : PaletteItem}
      → active_item (filtered lower p) k ≡ some item
      → matches lower p.query item ≡ true
  active-matches p zero e = cc
  active-matches p (suc i) e =
      All-get_elem? _ (filtered lower p) i (All-filter_self (matches lower p.query) p.items) e

  enter_placed :
      (p : Palette)
      → (item : PaletteItem) × (active_item (filtered lower p) p.active_plus_one ≡ some item)
      → (item : PaletteItem) × (active_item (filtered lower p) p.active_plus_one ≡ some item)
        × (matches lower p.query item ≡ true)
        × ((enter lower p).chosen ≡ p.chosen ++ item ∷ [])
        × ((enter lower p).is_open ≡ false)
  unfolding enter handle_select set_open
  enter_placed p (item, e) = (item, e, active-matches p p.active_plus_one e, rw e refl, rw e refl)

  -- After any inputs to an open or closed palette over a fixed list, if any entry matches the query,
  -- Enter schedules the action of the active entry, which matches, and closes the palette.
  pub enter-run :
      (is : List Input) (p : Palette)
      → IsPlaced p
      → 1 ≤ length (filtered lower (run is p))
      → (item : PaletteItem) × (active_item (filtered lower (run is p)) (run is p).active_plus_one
          ≡ some item)
        × (matches lower (run is p).query item ≡ true)
        × ((enter lower (run is p)).chosen ≡ (run is p).chosen ++ item ∷ [])
        × ((enter lower (run is p)).is_open ≡ false)
  enter-run is p h some_match = enter_placed (run is p) (
      active-Some (filtered lower (run is p)) (run is p).active_plus_one
        (placed-le (run is p) (run-IsPlaced is p h) some_match))
