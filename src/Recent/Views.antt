-- ===== src/Recent/Views.antt =====
-- What the hooks of client/data/use-recent-resources.ts show, in runs of a tab beside others.
use finance_next.Base.{
  String, ◌≤◌, ◌≡◌, refl, inl, inr, Bool, true, false, not, List, [], ◌∷◌, arith, map, Bool-cases,
  take, length, filter, string_key, ◌==◌, All, All-push, length-take_le,
}
use finance_next.Recent.{
  RecentResource, Visit, JsonCodec, Tab, storage_key, max_recent, is_same, seen, next_recent,
  read_storage, refresh, write_storage, push_recent, mount_hook, on_storage,
}
use finance_next.Recent.Mru.{IsDistinct, IsDistinct-take, IsDistinct-seen, IsCodec, read-stringify}

-- What can happen: a visit, a hook that is mounted, a storage event for a key, and a visit in
-- another tab, which this tab has not heard of yet.
pub data Op (N : Type 0) : Type 0 where
  visiting : Bool → N → Visit → Op N
  mounting : Op N
  hearing : String → Op N
  elsewhere : Bool → N → Visit → Op N

abbrev pub IsHere : {N : Type 0} → Op N → Type 0
IsHere (elsewhere writable now v) = ⊥
IsHere _ = Unit

module _ {T N : Type 0} (json : JsonCodec T N) where
  unfoldable pub step : Op N → Tab T N → Tab T N
  unfolding push_recent mount_hook on_storage
  step (visiting writable now v) w = push_recent json writable now v w
  step mounting w = mount_hook json w
  step (hearing k) w = on_storage json k w
  step (elsewhere writable now v) w = record w {
    stored = (push_recent json writable now v w).stored;
  }

  unfoldable pub run : List (Op N) → Tab T N → Tab T N
  unfolding step
  run [] w = w
  run (op ∷ ops) w = run ops (step op w)

  -- Every hook shows the stored list.
  abbrev pub IsCurrent : Tab T N → Type 0
  IsCurrent w = All (λ view. view ≡ read_storage json w.stored) w.views

  pub refresh-IsCurrent : (w : Tab T N) → IsCurrent (refresh json w)
  unfolding refresh
  refresh-IsCurrent w = go w.views
    where
      go :
          (views : List (List (RecentResource N)))
          → All
              (λ view. view ≡ read_storage json w.stored)
              (map (λ view. read_storage json w.stored) views)
      go [] = tt
      go (view ∷ views) = (refl, go views)

  step-IsCurrent : (op : Op N) (w : Tab T N) → IsHere op → IsCurrent w → IsCurrent (step op w)
  unfolding step push_recent write_storage on_storage mount_hook
  step-IsCurrent (visiting true now v) w h c =
      refresh-IsCurrent (record w { stored = (push_recent json true now v w).stored })
  step-IsCurrent (visiting false now v) w h c = c
  step-IsCurrent mounting w h c = All-push _ w.views c refl
  step-IsCurrent (hearing k) w h c = elim (Bool-cases (k == storage_key)) [
    | inl e ↦ rw e (refresh-IsCurrent w)
    | inr e ↦ rw e c
  ]
  step-IsCurrent (elsewhere writable now v) w h c = absurd h

  -- As long as no other tab visits a resource, every hook shows the stored list, whatever writes
  -- are refused; and at any time a storage event under the key brings all hooks up to date.
  pub run-IsCurrent :
      (ops : List (Op N)) (w : Tab T N)
      → All IsHere ops
      → IsCurrent w
      → IsCurrent (run ops w) × ((u : Tab T N) → IsCurrent (on_storage json storage_key u))
  unfolding run on_storage
  run-IsCurrent [] w h c = (c, refresh-IsCurrent)
  run-IsCurrent (op ∷ ops) w (h, hs) c = run-IsCurrent ops (step op w) hs (step-IsCurrent op w h c)

  abbrev pub IsBounded : List (RecentResource N) → Type 0
  IsBounded rs = (length rs ≤ max_recent) × IsDistinct rs

  module _ (codec : IsCodec json) where
    push_recent-IsBounded :
        (writable : Bool) (now : N) (v : Visit) (w : Tab T N)
        → IsBounded (read_storage json w.stored)
        → IsBounded (read_storage json (push_recent json writable now v w).stored)
    unfolding push_recent write_storage refresh next_recent
    push_recent-IsBounded false now v w h = h
    push_recent-IsBounded true now v w (l, d) =
        let next = seen v now ∷ filter (λ r. not (is_same v r)) (read_storage json w.stored) in
        rw (read-stringify json codec (take max_recent next)) (
          length-take_le max_recent next,
          IsDistinct-take max_recent next (IsDistinct-seen v now _ d),
        )

    step-IsBounded :
        (op : Op N) (w : Tab T N)
        → IsBounded (read_storage json w.stored)
        → IsBounded (read_storage json (step op w).stored)
    unfolding step mount_hook on_storage refresh
    step-IsBounded (visiting writable now v) w h = push_recent-IsBounded writable now v w h
    step-IsBounded mounting w h = h
    step-IsBounded (hearing k) w h = ground arith
    step-IsBounded (elsewhere writable now v) w h = push_recent-IsBounded writable now v w h

    -- With visits in this tab and in others, refused writes, and storage events in any order, the
    -- stored list keeps to at most five entries, no two with the same kind and id.
    run-IsBounded :
        (ops : List (Op N)) (w : Tab T N)
        → IsBounded (read_storage json w.stored)
        → IsBounded (read_storage json (run ops w).stored)
    unfolding run
    run-IsBounded [] w h = h
    run-IsBounded (op ∷ ops) w h = run-IsBounded ops (step op w) (step-IsBounded op w h)
