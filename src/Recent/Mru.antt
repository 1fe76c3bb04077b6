-- ===== src/Recent/Mru.antt =====
-- The list of client/data/use-recent-resources.ts as a cache of the resources that were seen last.
use finance_next.Base.{
  ℕ, zero, suc, All-imp, ◌≡◌, refl, ap, ◌∙◌, inl, inr, Bool, true, false, not, ◌&&◌, some, List, [],
  ◌∷◌, arith, Bool-cases, take, filter, string_key, ◌==◌, All, All-filter, All-filter_self,
  IsFewFalse, take-filter-take, All-take,
}
use finance_next.Json.{Json, array}
use finance_next.Recent.{
  RecentResource, Visit, JsonCodec, Tab, kind_name, max_recent, is_same, seen, next_recent,
  read_entry, read_entries, entries_json, read_storage, refresh, write_storage, push_recent,
}

module _ {N : Type 0} where
  -- The entry of a visit, and whether an entry is of the resource that a visit is to: the same kind
  -- and the same id.
  abbrev pub entry_of : Visit → N → RecentResource N
  entry_of v now = record {
    id = v.id;
    kind = kind_name v.kind;
    label = v.label;
    path = v.path;
    last_seen_at = now;
  }

  abbrev pub is_of : Visit → RecentResource N → Bool
  is_of v r = r.kind == kind_name v.kind && r.id == v.id

  -- The resources of a history of visits, the latest first, each at its latest visit. A visit stands
  -- with its time and whether localStorage takes the write; those that it refuses leave nothing.
  abbrev pub latest : List (Visit × N × Bool) → List (RecentResource N)
  latest [] = []
  latest ((v, now, true) ∷ history) =
      entry_of v now ∷ filter (λ r. not (is_of v r)) (latest history)
  latest ((v, now, false) ∷ history) = latest history

  -- No two entries have the same kind and id.
  abbrev pub IsDistinct : List (RecentResource N) → Type 0
  IsDistinct [] = Unit
  IsDistinct (r ∷ rs) =
      All (λ (s : RecentResource N). (s.kind == r.kind && s.id == r.id) ≡ false) rs × IsDistinct rs

  IsDistinct-filter :
      (p : RecentResource N → Bool) (rs : List (RecentResource N))
      → IsDistinct rs
      → IsDistinct (filter p rs)
  IsDistinct-filter p [] h = tt
  IsDistinct-filter p (r ∷ rs) (a, h) = elim (Bool-cases (p r)) [
    | inl e ↦ rw e (All-filter _ p rs a, IsDistinct-filter p rs h)
    | inr e ↦ rw e (IsDistinct-filter p rs h)
  ]

  pub IsDistinct-take :
      (n : ℕ) (rs : List (RecentResource N)) → IsDistinct rs → IsDistinct (take n rs)
  IsDistinct-take zero rs h = tt
  IsDistinct-take (suc n) [] h = tt
  IsDistinct-take (suc n) (r ∷ rs) (a, h) = (All-take _ n rs a, IsDistinct-take n rs h)

  pub IsDistinct-seen :
      (v : Visit) (now : N) (rs : List (RecentResource N))
      → IsDistinct rs
      → IsDistinct (seen v now ∷ filter (λ r. not (is_same v r)) rs)
  IsDistinct-seen v now rs h = (
    All-imp (λ s e. ground arith) _ (All-filter_self (λ r. not (is_same v r)) rs),
    IsDistinct-filter _ rs h,
  )

  latest-IsDistinct : (history : List (Visit × N × Bool)) → IsDistinct (latest history)
  latest-IsDistinct [] = tt
  latest-IsDistinct ((v, now, true) ∷ history) =
      IsDistinct-seen v now (latest history) (latest-IsDistinct history)
  latest-IsDistinct ((v, now, false) ∷ history) = latest-IsDistinct history

  -- A list of distinct entries has a resource once at most.
  IsFewFalse-distinct :
      (v : Visit) (rs : List (RecentResource N))
      → IsDistinct rs
      → IsFewFalse (λ r. not (is_same v r)) rs
  IsFewFalse-distinct v [] h = tt
  IsFewFalse-distinct v (r ∷ rs) (a, h) = elim (Bool-cases (is_same v r)) [
    | inl e ↦ rw e (
        All-imp
          (λ s d. ground (
            arith,
            string_key.same_iff s.kind r.kind,
            string_key.same_iff s.id r.id,
            string_key.same_iff r.kind (kind_name v.kind),
            string_key.same_iff r.id v.id,
            string_key.same_iff s.kind (kind_name v.kind),
            string_key.same_iff s.id v.id,
          ))
          rs a)
    | inr e ↦ rw e (IsFewFalse-distinct v rs h)
  ]

  next_recent-take :
      (v : Visit) (now : N) (rs : List (RecentResource N))
      → IsDistinct rs
      → next_recent v now (take max_recent rs)
        ≡ take max_recent (seen v now ∷ filter (λ r. not (is_same v r)) rs)
  unfolding next_recent
  next_recent-take v now rs h =
      ap (λ l. seen v now ∷ l)
        (take-filter-take (λ r. not (is_same v r)) 4 rs (IsFewFalse-distinct v rs h))

  read_entries-json : (rs : List (RecentResource N)) → read_entries (entries_json rs) ≡ rs
  unfolding read_entry
  read_entries-json [] = refl
  read_entries-json (r ∷ rs) = ap (λ l. r ∷ l) (read_entries-json rs)

-- JSON.parse gives back the value that JSON.stringify wrote, which is never the empty text.
pub record IsCodec {T N : Type 0} (json : JsonCodec T N) : Type 0 where
  pub parse-stringify : (v : Json N) → json.parse (json.stringify v) ≡ some v
  pub falsy-stringify : (v : Json N) → json.falsy (json.stringify v) ≡ false

module _ {T N : Type 0} (json : JsonCodec T N) where
  -- The visits of a history, which has the latest first.
  abbrev pub push_all : List (Visit × N × Bool) → Tab T N → Tab T N
  push_all [] w = w
  push_all ((v, now, writable) ∷ history) w = push_recent json writable now v (push_all history w)

module _ {T N : Type 0} (json : JsonCodec T N) (codec : IsCodec json) where
  pub read-stringify :
      (rs : List (RecentResource N))
      → read_storage json (some (json.stringify (array (entries_json rs)))) ≡ rs
  unfolding read_storage
  read-stringify rs =
      rw
        (
          codec.falsy-stringify (array (entries_json rs)),
          codec.parse-stringify (array (entries_json rs)),
        )
        (read_entries-json rs)

  -- A list that has no entry before the visits holds, after any history of visits, the five resources
  -- that were visited last, each once, the latest first. Visits whose write localStorage refuses do not
  -- count.
  pub read-push_all :
      (history : List (Visit × N × Bool)) (w : Tab T N)
      → read_storage json w.stored ≡ []
      → read_storage json (push_all json history w).stored ≡ take 5 (latest history)
  unfolding push_recent write_storage refresh
  read-push_all [] w h = h
  read-push_all ((v, now, true) ∷ history) w h =
      read-stringify _
      ∙ ap (next_recent v now) (read-push_all history w h)
      ∙ next_recent-take v now (latest history) (latest-IsDistinct history)
  read-push_all ((v, now, false) ∷ history) w h = read-push_all history w h
