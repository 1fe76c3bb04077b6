-- ===== src/Activity/Lifecycle.antt =====
-- withActivity of client/data/use-activity-center.tsx: an entry that is pushed when an operation
-- starts and settled when it ends, with anything else happening in between.
use mathlib.Core.Option
use finance_next.Base.{
  ℕ, suc, ◌+◌, ◌≤◌, ◌<◌, String, ◌≡◌, refl, ap, ◌∙◌, inl, inr, Bool, true, false, Option, none,
  some, List, [], ◌∷◌, arith, Bool-cases, length, get_elem?, ◌==◌, same_refl, string_key, All,
}
use finance_next.Activity.{
  ActivityItem, ActivityInput, ActivityPatch, ActivityCenter, JsonText, ActivityKind,
  ActivityStatus, success, failed, max_items, update_item, new_item, push, update,
}
use finance_next.Activity.Ring.{
  Op, mounting, enabling, pushing, updating, clearing, step, run, items-set_enabled, get_elem?-push,
  push_disabled, get_elem?-update,
}

-- How the promise of the wrapped call ends; a rejection with the message that the code makes of
-- what was thrown.
pub data Outcome (A : Type 0) : Type 0 where
  fulfilled : A → Outcome A
  rejected : String → Outcome A

abbrev pub empty_patch : ActivityPatch
empty_patch = record {
  kind = none;
  label = none;
  status = none;
  detail = none;
  href = none;
  started_at = none;
  completed_at = none;
}

-- The description that withActivity takes: no status.
pub record Description : Type 0 where
  pub kind : ActivityKind
  pub label : String
  pub detail : Option String
  pub href : Option String

abbrev pub input_of : Description → ActivityInput
input_of d = record {
  kind = d.kind;
  label = d.label;
  status = none;
  detail = d.detail;
  href = d.href;
}

module _ {A : Type 0} (clip : String → String) where
  -- `clip` is `slice(0, 200)`.
  unfoldable pub settle_patch : Outcome A → ActivityPatch
  settle_patch (fulfilled a) = record empty_patch { status = some success }
  settle_patch (rejected message) = record empty_patch {
    status = some failed;
    detail = some (clip message);
  }

  abbrev pub settled_status : Outcome A → ActivityStatus
  settled_status (fulfilled a) = success
  settled_status (rejected message) = failed

  abbrev pub settled_detail : Outcome A → Option String → Option String
  settled_detail (fulfilled a) old = old
  settled_detail (rejected message) old = some (clip message)

  -- `meanwhile` is what the other callers do while the call is awaited, `t0` and `t1` the times of
  -- the push and of the update. The outcome is passed on.
  unfoldable pub with_activity :
      {T : Type 0} (json : JsonText T)
      → Bool
      → String
      → ℕ
      → ℕ
      → Description
      → List Op
      → Outcome A
      → ActivityCenter T
      → ActivityCenter T × Outcome A
  unfolding settle_patch
  with_activity json writable id t0 t1 d meanwhile outcome c =
      let started = push json writable id t0 (input_of d) c in
      let later = run json meanwhile started in
      (update json writable id (settle_patch outcome) t1 later, outcome)

-- An operation that leaves the entry with this id alone.
abbrev pub Spares : String → Op → Type 0
Spares id (mounting now) = ⊥
Spares id (enabling writable v) = Unit
Spares id (pushing writable j now input) = Unit
Spares id (updating writable j patch now) = (id == j) ≡ false
Spares id (clearing writable) = ⊥

module _ {T : Type 0} (json : JsonText T) (item : ActivityItem) where
  -- One operation moves the entry back by at most one place.
  step_keeps :
      (op : Op) (c : ActivityCenter T) (k : ℕ)
      → Spares item.id op
      → suc k < max_items
      → get_elem? c.items k ≡ some item
      → (j : ℕ) × (j ≤ suc k) × (get_elem? (step json op c).items j ≡ some item)
  unfolding step
  step_keeps (mounting now) c k s h e = absurd s
  step_keeps (clearing writable) c k s h e = absurd s
  step_keeps (enabling writable v) c k s h e = (k, omega arith, rw items-set_enabled e)
  step_keeps (updating writable j patch now) c k s h e = (
    k,
    omega arith,
    get_elem?-update json writable j patch now k c
        ∙ ap (Option.map (update_item j patch now)) e
        ∙ unfold update_item in rw s,
  )
  step_keeps (pushing writable j now input) c k s h e = elim (Bool-cases c.enabled) [
    | inl on ↦ (
      suc k,
      omega arith,
      (get_elem?-push json writable j now input c k on).1 ∙ ground (arith, e),
    )
    | inr off ↦ (k, omega arith, rw push_disabled e)
  ]

  run_keeps :
      (ops : List Op) (c : ActivityCenter T) (k : ℕ)
      → All (Spares item.id) ops
      → k + length ops < max_items
      → get_elem? c.items k ≡ some item
      → (j : ℕ) × (j < max_items) × (get_elem? (run json ops c).items j ≡ some item)
  unfolding run
  run_keeps [] c k s h e = (k, omega arith, e)
  run_keeps (op ∷ ops) c k (s, ss) h e =
      let (j, near, e') = step_keeps op c k s (omega arith) e in
      run_keeps ops (step json op c) j ss (omega arith) e'

-- The entry of a wrapped call that has ended.
abbrev pub settled_item :
    {A : Type 0} → (String → String) → String → ℕ → ℕ → Description → Outcome A → ActivityItem
settled_item clip id t0 t1 d outcome = record {
  id = id;
  kind = d.kind;
  label = d.label;
  status = settled_status clip outcome;
  detail = settled_detail clip outcome d.detail;
  href = d.href;
  started_at = t0;
  completed_at = some t1;
}

settle_item :
    {A : Type 0} (clip : String → String) (id : String) (t0 t1 : ℕ) (d : Description)
    (outcome : Outcome A)
    → update_item id (settle_patch clip outcome) t1 (new_item id t0 (input_of d))
      ≡ settled_item clip id t0 t1 d outcome
unfolding update_item settle_patch
settle_item clip id t0 t1 d (fulfilled a) = rw same_refl
settle_item clip id t0 t1 d (rejected message) = rw same_refl

-- On an enabled center, and with fewer than 20 operations in between that leave the entry alone,
-- the entry of a wrapped call ends as a success, or as a failure with the clipped message, with
-- the time of the end; the outcome of the call is passed on as it is.
pub with_activity-settles :
    {A : Type 0} (clip : String → String) {T : Type 0} (json : JsonText T) (writable : Bool)
    (id : String) (t0 t1 : ℕ) (d : Description) (meanwhile : List Op) (outcome : Outcome A)
    (c : ActivityCenter T)
    → c.enabled ≡ true
    → All (Spares id) meanwhile
    → length meanwhile < max_items
    → ((j : ℕ) × (get_elem?
            (with_activity clip json writable id t0 t1 d meanwhile outcome c).0.items
            j
          ≡ some (settled_item clip id t0 t1 d outcome)))
      × ((with_activity clip json writable id t0 t1 d meanwhile outcome c).1 ≡ outcome)
unfolding with_activity
with_activity-settles clip json writable id t0 t1 d meanwhile outcome c on s h =
    let start = (get_elem?-push json writable id t0 (input_of d) c 0 on).0 in
    let (j, near, e) =
      run_keeps json (new_item id t0 (input_of d)) meanwhile
        (push json writable id t0 (input_of d) c) 0 s (omega arith) start in
    (
      (
        j,
        get_elem?-update json writable id (settle_patch clip outcome) t1 j _
            ∙ ap (Option.map (update_item id (settle_patch clip outcome) t1)) e
            ∙ ap some (settle_item clip id t0 t1 d outcome),
      ),
      refl,
    )
