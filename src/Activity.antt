-- ===== src/Activity.antt =====
-- The Activity Center of client/data/use-activity-center.tsx: the state of its provider, the two
-- entries of localStorage and the operations on them. The clock and the random part of an id are
-- arguments. An item that was read back may lack any field but its id, since only that is checked.
pub mod Ring
pub mod Storage
pub mod Lifecycle
use finance_next.Base.{
  ℕ, String, Bool, true, false, not, Option, none, some, List, [], ◌∷◌, if◌then◌else◌, ◌==◌, take,
  string_key, map,
}

pub data ActivityKind : Type 0 where
  ingest backtest optimization order claim_legacy ai_test other : ActivityKind

pub data ActivityStatus : Type 0 where
  running success failed canceled : ActivityStatus

pub record ActivityItem : Type 0 where
  pub id : String
  pub kind : ActivityKind
  pub label : String
  pub status : ActivityStatus
  pub detail : Option String
  pub href : Option String
  pub started_at : ℕ
  pub completed_at : Option ℕ

-- The argument of `push`.
pub record ActivityInput : Type 0 where
  pub kind : ActivityKind
  pub label : String
  pub status : Option ActivityStatus
  pub detail : Option String
  pub href : Option String

-- The argument of `update`: the fields that are given.
pub record ActivityPatch : Type 0 where
  pub kind : Option ActivityKind
  pub label : Option String
  pub status : Option ActivityStatus
  pub detail : Option String
  pub href : Option String
  pub started_at : Option ℕ
  pub completed_at : Option ℕ

-- What JSON.parse makes of a stored text: it throws, gives something else than an array, or an
-- array, `none` standing for an entry that is no object with a string for an id.
pub data StoredItems : Type 0 where
  broken other_value : StoredItems
  entries : List (Option ActivityItem) → StoredItems

-- JSON on the texts of localStorage: T is the type of these texts, and `falsy` their test.
pub record JsonText (T : Type 0) : Type 0 where
  pub encode : List ActivityItem → T
  pub decode : T → StoredItems
  pub falsy : T → Bool

-- The provider's state, and what localStorage holds under its two keys.
pub record ActivityCenter (T : Type 0) : Type 0 where
  pub enabled : Bool
  pub items : List ActivityItem
  pub stored_enabled : Option String
  pub stored_items : Option T

abbrev pub max_items : ℕ
max_items = 20

abbrev pub is_running : ActivityStatus → Bool
is_running running = true
is_running _ = false

abbrev pub or_else {ℓ} : {A : Type ℓ} → Option A → A → A
or_else none a = a
or_else (some b) a = b

abbrev pub or_option {ℓ} : {A : Type ℓ} → Option A → Option A → Option A
or_option none o = o
or_option (some b) o = some b

-- `{ ...i, ...patch }`
unfoldable pub merge : ActivityPatch → ActivityItem → ActivityItem
merge p i = record {
  id = i.id;
  kind = or_else p.kind i.kind;
  label = or_else p.label i.label;
  status = or_else p.status i.status;
  detail = or_option p.detail i.detail;
  href = or_option p.href i.href;
  started_at = or_else p.started_at i.started_at;
  completed_at = or_option p.completed_at i.completed_at;
}

-- `patch.status && patch.status !== "running"`
abbrev pub settles : Option ActivityStatus → Bool
settles none = false
settles (some s) = not (is_running s)

abbrev pub stamp : ℕ → Option ℕ → Option ℕ
stamp now none = some now
stamp now (some t) = some t

-- The function that `update` maps over the items.
unfoldable pub update_item : String → ActivityPatch → ℕ → ActivityItem → ActivityItem
unfolding merge
update_item id patch now i =
    if i.id == id
    then (let merged : ActivityItem = merge patch i in
        if settles patch.status
        then record merged { completed_at = stamp now merged.completed_at }
        else merged)
    else i

-- A reloaded item that was running is canceled.
unfoldable pub cancel_stale : ℕ → ActivityItem → ActivityItem
cancel_stale now i =
    if is_running i.status then record i { status = canceled; completed_at = some now } else i

abbrev pub keep_items : List (Option ActivityItem) → List ActivityItem
keep_items [] = []
keep_items (none ∷ es) = keep_items es
keep_items (some i ∷ es) = i ∷ keep_items es

abbrev pub read_enabled : Option String → Bool
read_enabled none = true
read_enabled (some e) = not (e == "false")

abbrev pub decoded_items : ℕ → StoredItems → List ActivityItem
decoded_items now broken = []
decoded_items now other_value = []
decoded_items now (entries es) = map (cancel_stale now) (keep_items (take max_items es))

module _ {T : Type 0} (json : JsonText T) where
  unfoldable pub read_items : ℕ → Option T → List ActivityItem
  read_items now none = []
  read_items now (some raw) = if json.falsy raw then [] else decoded_items now (json.decode raw)

  -- The effect that runs once on mount: `readPersisted`, into the state.
  unfoldable pub mount : ℕ → ActivityCenter T → ActivityCenter T
  unfolding read_items
  mount now c = record c {
    enabled = read_enabled c.stored_enabled;
    items = read_items now c.stored_items;
  }

abbrev pub new_item : String → ℕ → ActivityInput → ActivityItem
new_item id now input = record {
  id = id;
  kind = input.kind;
  label = input.label;
  status = or_else input.status running;
  detail = input.detail;
  href = input.href;
  started_at = now;
  completed_at = none;
}

-- `writable` tells whether localStorage takes a write; where it throws, the code goes on.
unfoldable pub write_enabled : {T : Type 0} → Bool → Bool → ActivityCenter T → ActivityCenter T
write_enabled writable v c =
    if writable then record c { stored_enabled = some (if v then "true" else "false") } else c

unfoldable pub set_enabled : {T : Type 0} → Bool → Bool → ActivityCenter T → ActivityCenter T
unfolding write_enabled
set_enabled writable v c = write_enabled writable v (record c { enabled = v })

module _ {T : Type 0} (json : JsonText T) where
  unfoldable pub write_items : Bool → List ActivityItem → ActivityCenter T → ActivityCenter T
  write_items writable items c =
      if writable then record c { stored_items = some (json.encode items) } else c

  -- The id, which the source makes and returns in either case, is an argument.
  unfoldable pub push : Bool → String → ℕ → ActivityInput → ActivityCenter T → ActivityCenter T
  unfolding write_items
  push writable id now input c =
      if c.enabled
      then (let next : List ActivityItem = take max_items (new_item id now input ∷ c.items) in
          write_items writable next (record c { items = next }))
      else c

  unfoldable pub update : Bool → String → ActivityPatch → ℕ → ActivityCenter T → ActivityCenter T
  unfolding write_items
  update writable id patch now c =
      let next : List ActivityItem = map (update_item id patch now) c.items in
      write_items writable next (record c { items = next })

  unfoldable pub clear : Bool → ActivityCenter T → ActivityCenter T
  unfolding write_items
  clear writable c = write_items writable [] (record c { items = [] })
