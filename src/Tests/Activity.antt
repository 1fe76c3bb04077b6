-- ===== src/Tests/Activity.antt =====
-- Tests of the Activity Center (client/data/use-activity-center.tsx).

use finance_next.Base.{ℕ, ◌≡◌, refl, true, false, none, some, List, [], ◌∷◌, map, arith, get_elem?}
use finance_next.Activity.{
  ActivityItem, ActivityCenter, backtest, JsonText, entries, cancel_stale, mount, push,
}
use finance_next.Activity.Ring.{Op, pushing, enabling, run, push_disabled}
use finance_next.Activity.Storage.{IsJson, mount-run}
use finance_next.Activity.Lifecycle.{
  Description, input_of, rejected, with_activity, settled_item, with_activity-settles,
}

abbrev desc : Description
desc = record { kind = backtest; label = "run"; detail = none; href = some "/backtests" }

-- JSON on a store that keeps the items as they are.
abbrev json : JsonText (List ActivityItem)
json = record { encode = λ is. is; decode = λ is. entries (map some is); falsy = λ is. false }

json-IsJson : IsJson json
json-IsJson = record { decode-encode = λ is. refl; falsy-encode = λ is. refl }

abbrev empty : ActivityCenter (List ActivityItem)
empty = record { enabled = true; items = []; stored_enabled = none; stored_items = some [] }

abbrev other_ops : List Op
other_ops = pushing true "b" 5 (input_of desc) ∷ enabling true false ∷ []

with_activity-settles_example :
    ((j : ℕ) × (get_elem?
          (with_activity {A = ℕ}
            (λ s. s)
            json
            true
            "a"
            3
            8
            desc
            other_ops
            (rejected "no")
            empty).0.items
          j
        ≡ some (settled_item {A = ℕ} (λ s. s) "a" 3 8 desc (rejected "no"))))
    × ((with_activity {A = ℕ} (λ s. s) json true "a" 3 8 desc other_ops (rejected "no") empty).1
        ≡ rejected "no")
with_activity-settles_example =
    with_activity-settles (λ s. s) json true "a" 3 8 desc other_ops (rejected "no") empty refl
      (tt, (tt, tt)) (omega arith)

mount-run_example :
    ((mount json 9 (run json other_ops empty)).items
      ≡ map (cancel_stale 9) (run json other_ops empty).items)
    × ((mount json 9 (run json other_ops empty)).enabled ≡ (run json other_ops empty).enabled)
mount-run_example =
    mount-run json 9 other_ops empty json-IsJson (record { items = refl; enabled = refl })
      (omega arith) (refl, (refl, tt))

push_disabled_example :
    push json true "a" 3 (input_of desc) (record empty { enabled = false })
    ≡ record empty { enabled = false }
push_disabled_example =
    push_disabled json true "a" 3 (input_of desc) (record empty { enabled = false }) refl
