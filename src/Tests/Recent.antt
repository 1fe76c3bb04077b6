-- ===== src/Tests/Recent.antt =====
-- Tests of the recent resources (client/data/use-recent-resources.ts).
use finance_next.Base.{Bool, ℕ, ◌≡◌, refl, true, false, none, some, [], ◌∷◌, take, List}
use finance_next.Json.{Json}
use finance_next.Recent.{
  Visit, strategy, market, JsonCodec, Tab, storage_key, read_storage, on_storage, seen,
}
use finance_next.Recent.Mru.{IsCodec, latest, push_all, read-push_all}
use finance_next.Recent.Views.{visiting, mounting, hearing, run, IsCurrent, run-IsCurrent}

-- JSON on a store that keeps the values as they are.
abbrev values : JsonCodec (Json ℕ) ℕ
values = record { parse = λ v. some v; stringify = λ v. v; falsy = λ v. false }

values-IsCodec : IsCodec values
values-IsCodec = record { parse-stringify = λ v. refl; falsy-stringify = λ v. refl }

abbrev s1 : Visit
s1 = record { id = "1"; kind = strategy; label = "one"; path = "/strategies/1" }

abbrev m1 : Visit
m1 = record { id = "1"; kind = market; label = "one"; path = "/market/1" }

abbrev blank : Tab (Json ℕ) ℕ
blank = record { stored = none; views = [] ∷ [] }

abbrev visits : List (Visit × ℕ × Bool)
visits = (m1, 10, false) ∷ (s1, 9, true) ∷ (m1, 8, true) ∷ (s1, 7, true) ∷ []

-- The second visit of s1 replaces the first, and the refused one of m1 leaves nothing.
latest_test : latest visits ≡ seen s1 9 ∷ seen m1 8 ∷ []
latest_test = refl

read-push_all_example :
    read_storage values (push_all values visits blank).stored ≡ take 5 (latest visits)
read-push_all_example =
    read-push_all values values-IsCodec visits blank (unfold read_storage in refl)

run-IsCurrent_example :
    IsCurrent values
      (run values (mounting ∷ visiting true 3 s1 ∷ visiting false 4 m1 ∷ hearing "x" ∷ []) blank)
    × ((u : Tab (Json ℕ) ℕ) → IsCurrent values (on_storage values storage_key u))
run-IsCurrent_example =
    run-IsCurrent values (mounting ∷ visiting true 3 s1 ∷ visiting false 4 m1 ∷ hearing "x" ∷ [])
      blank (tt, (tt, (tt, (tt, tt)))) (unfold read_storage in (refl, tt))
