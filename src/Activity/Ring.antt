-- ===== src/Activity/Ring.antt =====
-- The items of the Activity Center (client/data/use-activity-center.tsx) as a ring of at most 20,
-- and sequences of its operations.
use mathlib.Core.Option
use finance_next.Base.{
  ℕ, zero, suc, ◌≤◌, String, ◌≡◌, refl, ap, ◌∙◌, inl, inr, Bool, true, false, Option, none, some,
  List, [], ◌∷◌, map, arith, if◌then◌else◌, Bool-cases, ltb, take, length, length-take_le,
  get_elem?, string_key,
}
use finance_next.Activity.{
  ActivityItem, ActivityInput, ActivityPatch, ActivityCenter, JsonText, StoredItems, broken,
  other_value, entries, max_items, update_item, cancel_stale, keep_items, decoded_items, read_items,
  mount, set_enabled, new_item, push, update, clear,
}

pub data Op : Type 0 where
  mounting : ℕ → Op
  enabling : Bool → Bool → Op
  pushing : Bool → String → ℕ → ActivityInput → Op
  updating : Bool → String → ActivityPatch → ℕ → Op
  clearing : Bool → Op

module _ {A : Type 0} {B : Type 0} where
  get_elem?-map :
      (f : A → B) (xs : List A) (k : ℕ) → get_elem? (map f xs) k ≡ Option.map f (get_elem? xs k)
  get_elem?-map f [] k = refl
  get_elem?-map f (x ∷ xs) zero = refl
  get_elem?-map f (x ∷ xs) (suc k) = get_elem?-map f xs k

  length-map : (f : A → B) (xs : List A) → length (map f xs) ≡ length xs
  length-map f [] = refl
  length-map f (x ∷ xs) = ap suc (length-map f xs)

get_elem?-take :
    {A : Type 0} (n k : ℕ) (xs : List A)
    → get_elem? (take n xs) k ≡ (if ltb k n then get_elem? xs k else none)
get_elem?-take zero k xs = ground arith
get_elem?-take (suc n) k [] = ground arith
get_elem?-take (suc n) zero (x ∷ xs) = ground arith
get_elem?-take (suc n) (suc k) (x ∷ xs) = get_elem?-take n k xs ∙ ground arith

length-keep_items : (es : List (Option ActivityItem)) → length (keep_items es) ≤ length es
length-keep_items [] = omega arith
length-keep_items (none ∷ es) = omega (arith, length-keep_items es)
length-keep_items (some i ∷ es) = omega (arith, length-keep_items es)

module _ {T : Type 0} (json : JsonText T) where
  unfoldable pub step : Op → ActivityCenter T → ActivityCenter T
  step (mounting now) c = mount json now c
  step (enabling writable v) c = set_enabled writable v c
  step (pushing writable id now input) c = push json writable id now input c
  step (updating writable id patch now) c = update json writable id patch now c
  step (clearing writable) c = clear json writable c

  unfoldable pub run : List Op → ActivityCenter T → ActivityCenter T
  run [] c = c
  run (op ∷ ops) c = run ops (step op c)

  pub items-push :
      (writable : Bool) (id : String) (now : ℕ) (input : ActivityInput) (c : ActivityCenter T)
      → (push json writable id now input c).items
        ≡ (if c.enabled then take max_items (new_item id now input ∷ c.items) else c.items)
  unfolding push
  items-push writable id now input c = ground arith

  pub items-update :
      (writable : Bool) (id : String) (patch : ActivityPatch) (now : ℕ) (c : ActivityCenter T)
      → (update json writable id patch now c).items ≡ map (update_item id patch now) c.items
  unfolding update
  items-update writable id patch now c = ground arith

  pub items-set_enabled :
      (writable v : Bool) (c : ActivityCenter T) → (set_enabled writable v c).items ≡ c.items
  unfolding set_enabled
  items-set_enabled writable v c = ground arith

  length-decoded : (now : ℕ) (s : StoredItems) → length (decoded_items now s) ≤ max_items
  length-decoded now broken = omega arith
  length-decoded now other_value = omega arith
  length-decoded now (entries es) = omega (
    arith,
    length-map (cancel_stale now) (keep_items (take max_items es)),
    length-keep_items (take max_items es),
    length-take_le max_items es,
  )

  length-read : (now : ℕ) (raw : Option T) → length (read_items json now raw) ≤ max_items
  unfolding read_items
  length-read now none = omega arith
  length-read now (some raw) = elim (Bool-cases (json.falsy raw)) [
    | inl e ↦ rw e (omega arith)
    | inr e ↦ rw e (length-decoded now (json.decode raw))
  ]

  length-step :
      (op : Op) (c : ActivityCenter T)
      → length c.items ≤ max_items
      → length (step op c).items ≤ max_items
  unfolding step
  length-step (mounting now) c h = unfold mount in length-read now c.stored_items
  length-step (enabling writable v) c h = rw items-set_enabled h
  length-step (pushing writable id now input) c h = rw items-push (elim (Bool-cases c.enabled) [
    | inl e ↦ rw e (length-take_le max_items (new_item id now input ∷ c.items))
    | inr e ↦ rw e h
  ])
  length-step (updating writable id patch now) c h = rw items-update (rw length-map h)
  length-step (clearing writable) c h = unfold clear in ground arith

  -- Whatever is done, and whatever localStorage held, there are never more than 20 items.
  pub length-run :
      (ops : List Op) (c : ActivityCenter T)
      → length c.items ≤ max_items
      → length (run ops c).items ≤ max_items
  unfolding run
  length-run [] c h = h
  length-run (op ∷ ops) c h = length-run ops (step op c) (length-step op c h)

  -- A push to an enabled center puts the new item first and moves each other one back by a place;
  -- the one that was in the 20th place is gone.
  pub get_elem?-push :
      (writable : Bool) (id : String) (now : ℕ) (input : ActivityInput) (c : ActivityCenter T)
      (k : ℕ)
      → c.enabled ≡ true
      → (get_elem? (push json writable id now input c).items 0 ≡ some (new_item id now input))
        × (get_elem? (push json writable id now input c).items (suc k)
            ≡ (if ltb (suc k) max_items then get_elem? c.items k else none))
  get_elem?-push writable id now input c k on =
      rw items-push
        (rw on (refl, get_elem?-take max_items (suc k) (new_item id now input ∷ c.items)))

  -- A disabled center is left as it is by a push, storage included.
  pub push_disabled :
      (writable : Bool) (id : String) (now : ℕ) (input : ActivityInput) (c : ActivityCenter T)
      → c.enabled ≡ false
      → push json writable id now input c ≡ c
  unfolding push
  push_disabled writable id now input c off = rw off

  pub get_elem?-update :
      (writable : Bool) (id : String) (patch : ActivityPatch) (now k : ℕ) (c : ActivityCenter T)
      → get_elem? (update json writable id patch now c).items k
        ≡ Option.map (update_item id patch now) (get_elem? c.items k)
  get_elem?-update writable id patch now k c =
      rw items-update (get_elem?-map (update_item id patch now) c.items k)
