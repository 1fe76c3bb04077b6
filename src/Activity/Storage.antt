-- ===== src/Activity/Storage.antt =====
-- What a reload of the page keeps of the Activity Center (client/data/use-activity-center.tsx).
use finance_next.Base.{
  ℕ, zero, suc, ◌≤◌, ◌≡◌, refl, ap, ◌∙◌, inl, inr, true, false, Option, none, some, List, [], ◌∷◌,
  map, arith, Bool-cases, take, length, string_key, All,
}
use finance_next.Activity.{
  ActivityItem, ActivityCenter, JsonText, StoredItems, broken, other_value, entries, max_items,
  is_running, cancel_stale, keep_items, decoded_items, read_items, read_enabled, mount, set_enabled,
  push, update, clear,
}
use finance_next.Activity.Ring.{
  Op, mounting, enabling, pushing, updating, clearing, step, run, length-run,
}

abbrev IsSettled : ActivityItem → Type 0
IsSettled i = is_running i.status ≡ false

cancel_stale-IsSettled : (now : ℕ) (i : ActivityItem) → IsSettled (cancel_stale now i)
unfolding cancel_stale
cancel_stale-IsSettled now i = ground arith

All-map_cancel : (now : ℕ) (is : List ActivityItem) → All IsSettled (map (cancel_stale now) is)
All-map_cancel now [] = tt
All-map_cancel now (i ∷ is) = (cancel_stale-IsSettled now i, All-map_cancel now is)

-- After a mount no item is running, whatever localStorage held.
mount-IsSettled :
    {T : Type 0} (json : JsonText T) (now : ℕ) (c : ActivityCenter T)
    → All IsSettled (mount json now c).items
unfolding mount
mount-IsSettled {T} json now c = go c.stored_items
  where
    decoded : (s : StoredItems) → All IsSettled (decoded_items now s)
    decoded broken = tt
    decoded other_value = tt
    decoded (entries es) = All-map_cancel now (keep_items (take max_items es))

    go : (raw : Option T) → All IsSettled (read_items json now raw)
    go none = tt
    go (some raw) = elim (Bool-cases (json.falsy raw)) [
      | inl e ↦ rw e tt
      | inr e ↦ rw e (decoded (json.decode raw))
    ]

-- JSON.parse gives back what JSON.stringify wrote, which is never the empty text.
pub record IsJson {T : Type 0} (json : JsonText T) : Type 0 where
  pub decode-encode :
      (is : List ActivityItem) → json.decode (json.encode is) ≡ entries (map some is)
  pub falsy-encode : (is : List ActivityItem) → json.falsy (json.encode is) ≡ false

-- localStorage mirrors the items and the flag.
pub record IsMirrored {T : Type 0} (json : JsonText T) (c : ActivityCenter T) : Type 0 where
  pub items : c.stored_items ≡ some (json.encode c.items)
  pub enabled : read_enabled c.stored_enabled ≡ c.enabled

-- The operations of a page that stays loaded, with a localStorage that takes every write.
abbrev pub IsWritten : Op → Type 0
IsWritten (mounting now) = ⊥
IsWritten (enabling writable v) = writable ≡ true
IsWritten (pushing writable id now input) = writable ≡ true
IsWritten (updating writable id patch now) = writable ≡ true
IsWritten (clearing writable) = writable ≡ true

module _ {T : Type 0} (json : JsonText T) where
  step-IsMirrored :
      (op : Op) (c : ActivityCenter T)
      → IsWritten op
      → IsMirrored json c
      → IsMirrored json (step json op c)
  unfolding step set_enabled push update clear
  step-IsMirrored (mounting now) c w h = absurd w
  step-IsMirrored (enabling writable true) c w h = ground arith
  step-IsMirrored (enabling writable false) c w h = ground arith
  step-IsMirrored (pushing writable id now input) c w h = ground arith
  step-IsMirrored (updating writable id patch now) c w h = ground arith
  step-IsMirrored (clearing writable) c w h = ground arith

  run-IsMirrored :
      (ops : List Op) (c : ActivityCenter T)
      → All IsWritten ops
      → IsMirrored json c
      → IsMirrored json (run json ops c)
  unfolding run
  run-IsMirrored [] c w h = h
  run-IsMirrored (op ∷ ops) c (w, ws) h =
      run-IsMirrored ops (step json op c) ws (step-IsMirrored op c w h)

keep_items-map-some :
    (n : ℕ) (is : List ActivityItem) → length is ≤ n → keep_items (take n (map some is)) ≡ is
keep_items-map-some zero [] h = refl
keep_items-map-some zero (i ∷ is) h = elim h [ ]
keep_items-map-some (suc n) [] h = refl
keep_items-map-some (suc n) (i ∷ is) h = ap (λ l. i ∷ l) (keep_items-map-some n is (omega arith))

items-mount :
    {T : Type 0} (json : JsonText T) (now : ℕ) (c : ActivityCenter T)
    → IsJson json
    → IsMirrored json c
    → length c.items ≤ max_items
    → (mount json now c).items ≡ map (cancel_stale now) c.items
unfolding mount read_items
items-mount json now c j m h = rw m.items (
    rw j.falsy-encode (
      ap (decoded_items now) (j.decode-encode c.items)
      ∙ ap (map (cancel_stale now)) (keep_items-map-some max_items c.items h)))

-- A reload brings back what the page had. On a page of at most 20 items whose localStorage holds
-- exactly its items and its flag (IsMirrored), and that takes every write: after any pushes, updates,
-- clears and switches, a mount gives the same flag and the same items in the same order, the running
-- ones canceled at the time of the mount.
pub mount-run :
    {T : Type 0} (json : JsonText T) (now : ℕ) (ops : List Op) (c : ActivityCenter T)
    → IsJson json
    → IsMirrored json c
    → length c.items ≤ max_items
    → All IsWritten ops
    → ((mount json now (run json ops c)).items ≡ map (cancel_stale now) (run json ops c).items)
      × ((mount json now (run json ops c)).enabled ≡ (run json ops c).enabled)
mount-run json now ops c j m h w =
    let m' = run-IsMirrored json ops c w m in
    (
      items-mount json now (run json ops c) j m' (length-run json ops c h),
      unfold mount in m'.enabled,
    )
