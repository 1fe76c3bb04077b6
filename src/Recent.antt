-- ===== src/Recent.antt =====
-- The list of recently visited resources, client/data/use-recent-resources.ts: the entry of
-- localStorage, pushRecent and the hooks that show the list. T is the type of stored texts, N that
-- of numbers; localStorage, JSON and the clock are arguments.
pub mod Mru
pub mod Views
use finance_next.Base.{
  ℕ, String, Bool, true, not, ◌&&◌, Option, none, some, List, [], ◌∷◌, ◌++◌, if◌then◌else◌, ◌==◌,
  take, filter, string_key, map,
}
use finance_next.Json.{
  Json, Items, Members, number, text, array, object, nil, cons, end, member, at_key, as_text,
  as_number,
}

pub data RecentResourceKind : Type 0 where
  strategy account wallet backtest market recommendation : RecentResourceKind

abbrev pub kind_name : RecentResourceKind → String
kind_name strategy = "strategy"
kind_name account = "account"
kind_name wallet = "wallet"
kind_name backtest = "backtest"
kind_name market = "market"
kind_name recommendation = "recommendation"

-- The kind of an entry is only known to be a string, since that is all that a read checks.
pub record RecentResource (N : Type 0) : Type 0 where
  pub id : String
  pub kind : String
  pub label : String
  pub path : String
  pub last_seen_at : N

-- The argument of `pushRecent`.
pub record Visit : Type 0 where
  pub id : String
  pub kind : RecentResourceKind
  pub label : String
  pub path : String

-- JSON.parse, `none` where it throws, JSON.stringify, and `!raw`.
pub record JsonCodec (T N : Type 0) : Type 0 where
  pub parse : T → Option (Json N)
  pub stringify : Json N → T
  pub falsy : T → Bool

abbrev pub storage_key : String
storage_key = "finance_next_recent_resources"

abbrev pub max_recent : ℕ
max_recent = 5

module _ {N : Type 0} where
  -- The test of the filter in `readStorage`: all five members have their type. Other members of
  -- an entry are not modelled.
  abbrev pub checked :
      Option String
      → Option String
      → Option String
      → Option String
      → Option N
      → Option (RecentResource N)
  checked (some id) (some kind) (some label) (some path) (some t) =
      some (record { id = id; kind = kind; label = label; path = path; last_seen_at = t })
  checked _ _ _ _ _ = none

  unfoldable pub read_entry : Json N → Option (RecentResource N)
  read_entry r =
      checked (as_text (at_key "id" (some r))) (as_text (at_key "kind" (some r)))
        (as_text (at_key "label" (some r))) (as_text (at_key "path" (some r)))
        (as_number (at_key "lastSeenAt" (some r)))

  abbrev pub keep_entry :
      Option (RecentResource N) → List (RecentResource N) → List (RecentResource N)
  keep_entry none rs = rs
  keep_entry (some r) rs = r ∷ rs

  abbrev pub read_entries : Items N → List (RecentResource N)
  read_entries nil = []
  read_entries (cons r rs) = keep_entry (read_entry r) (read_entries rs)

  abbrev pub read_parsed : Option (Json N) → List (RecentResource N)
  read_parsed (some (array rs)) = read_entries rs
  read_parsed _ = []

  -- The value that `JSON.stringify(items)` prints.
  abbrev pub entry_json : RecentResource N → Json N
  entry_json r = object (
      member "id" (text r.id) (
        member "kind" (text r.kind) (
          member "label" (text r.label)
            (member "path" (text r.path) (member "lastSeenAt" (number r.last_seen_at) end)))))

  abbrev pub entries_json : List (RecentResource N) → Items N
  entries_json [] = nil
  entries_json (r ∷ rs) = cons (entry_json r) (entries_json rs)

  abbrev pub is_same : Visit → RecentResource N → Bool
  is_same v r = r.kind == kind_name v.kind && r.id == v.id

  abbrev pub seen : Visit → N → RecentResource N
  seen v now = record {
    id = v.id;
    kind = kind_name v.kind;
    label = v.label;
    path = v.path;
    last_seen_at = now;
  }

  -- The list that `pushRecent` writes.
  unfoldable pub next_recent : Visit → N → List (RecentResource N) → List (RecentResource N)
  next_recent v now existing =
      take max_recent (seen v now ∷ filter (λ r. not (is_same v r)) existing)

-- One tab: the stored text, which it shares with the other tabs, and what its mounted hooks show.
pub record Tab (T N : Type 0) : Type 0 where
  pub stored : Option T
  pub views : List (List (RecentResource N))

module _ {T N : Type 0} (json : JsonCodec T N) where
  unfoldable pub read_storage : Option T → List (RecentResource N)
  read_storage none = []
  read_storage (some raw) = if json.falsy raw then [] else read_parsed (json.parse raw)

  -- `setItems(readStorage())` in every mounted hook.
  unfoldable pub refresh : Tab T N → Tab T N
  refresh w = record w { views = map (λ view. read_storage w.stored) w.views }

  -- A localStorage that does not take the write throws, and no event is sent.
  unfoldable pub write_storage : Bool → List (RecentResource N) → Tab T N → Tab T N
  unfolding refresh
  write_storage writable items w =
      if writable
      then refresh (record w { stored = some (json.stringify (array (entries_json items))) })
      else w

  unfoldable pub push_recent : Bool → N → Visit → Tab T N → Tab T N
  unfolding read_storage write_storage
  push_recent writable now v w =
      write_storage writable (next_recent v now (read_storage w.stored)) w

  -- A hook is mounted.
  unfoldable pub mount_hook : Tab T N → Tab T N
  unfolding read_storage
  mount_hook w = record w { views = w.views ++ read_storage w.stored ∷ [] }

  -- `onStorage`: another tab has changed the entry under this key.
  unfoldable pub on_storage : String → Tab T N → Tab T N
  unfolding refresh
  on_storage k w = if k == storage_key then refresh w else w
