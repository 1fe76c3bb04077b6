-- ===== src/Money/Runs.antt =====
-- The list of runs that the page shows: at most 20, none of them twice.
use finance_next.Base.{
  ℕ, zero, suc, String, true, false, not, ◌≡◌, refl, ◌≤◌, ◌⊎◌, inl, inr, sym, List, [], ◌∷◌,
  if◌then◌else◌, ◌==◌, Bool-cases, length, length-take_le, take, filter, string_key, eq_of_same,
  arith,
}
use finance_next.Money.State.{Run, with_run, replace_run, has_run, with_old_run}

module _ {N : Type 0} where
  abbrev pub AreDistinct : List (Run N) → Type 0
  AreDistinct [] = Unit
  AreDistinct (r ∷ rs) = (has_run r.id rs ≡ false) × AreDistinct rs

  abbrev pub IsTidy : List (Run N) → Type 0
  IsTidy rs = (length rs ≤ 20) × AreDistinct rs

  has_run-take :
      (id : String) (n : ℕ) (rs : List (Run N))
      → has_run id rs ≡ false
      → has_run id (take n rs) ≡ false
  has_run-take id zero rs h = refl
  has_run-take id (suc n) [] h = refl
  has_run-take id (suc n) (r ∷ rs) h = ground (arith, has_run-take id n rs)

  AreDistinct-take : (n : ℕ) (rs : List (Run N)) → AreDistinct rs → AreDistinct (take n rs)
  AreDistinct-take zero rs h = tt
  AreDistinct-take (suc n) [] h = tt
  AreDistinct-take (suc n) (r ∷ rs) (h, k) = (has_run-take r.id n rs h, AreDistinct-take n rs k)

  abbrev without : String → List (Run N) → List (Run N)
  without id rs = filter (λ r. not (r.id == id)) rs

  has_run-without :
      (id key : String) (rs : List (Run N))
      → has_run id rs ≡ false
      → has_run id (without key rs) ≡ false
  has_run-without id key [] h = refl
  has_run-without id key (r ∷ rs) h = ground (arith, has_run-without id key rs)

  has_run-without_self : (id : String) (rs : List (Run N)) → has_run id (without id rs) ≡ false
  has_run-without_self id [] = refl
  has_run-without_self id (r ∷ rs) = ground (arith, has_run-without_self id rs)

  AreDistinct-without :
      (id : String) (rs : List (Run N)) → AreDistinct rs → AreDistinct (without id rs)
  AreDistinct-without id [] h = tt
  AreDistinct-without id (r ∷ rs) (h, k) =
      ground (arith, has_run-without r.id id rs h, AreDistinct-without id rs k)

  has_run-replace :
      (id : String) (run : Run N) (rs : List (Run N))
      → has_run id (replace_run run rs) ≡ has_run id rs
  has_run-replace id run [] = refl
  has_run-replace id run (r ∷ rs) = ground (
    arith,
    has_run-replace id run rs,
    string_key.same_iff r.id run.id,
    string_key.same_iff r.id id,
    string_key.same_iff run.id id,
  )

  replaced-fresh :
      (run r : Run N) (rs : List (Run N))
      → ((r.id == run.id) ≡ true) ⊎ ((r.id == run.id) ≡ false)
      → has_run r.id rs ≡ false
      → has_run (if r.id == run.id then run else r).id (replace_run run rs) ≡ false
  replaced-fresh run r rs (inl e) h =
      rw (e, has_run-replace run.id run rs, sym (eq_of_same r.id run.id e)) h
  replaced-fresh run r rs (inr e) h = rw (e, has_run-replace r.id run rs) h

  AreDistinct-replace :
      (run : Run N) (rs : List (Run N)) → AreDistinct rs → AreDistinct (replace_run run rs)
  AreDistinct-replace run [] h = tt
  AreDistinct-replace run (r ∷ rs) (h, k) =
      (replaced-fresh run r rs (Bool-cases (r.id == run.id)) h, AreDistinct-replace run rs k)

  length-replace : (run : Run N) (rs : List (Run N)) → length (replace_run run rs) ≡ length rs
  length-replace run [] = refl
  length-replace run (r ∷ rs) = omega (arith, length-replace run rs)

  pub with_run-IsTidy : (run : Run N) (rs : List (Run N)) → IsTidy rs → IsTidy (with_run run rs)
  with_run-IsTidy run rs (h, k) = (
    length-take_le 20 (run ∷ without run.id rs),
    AreDistinct-take 20 (run ∷ without run.id rs)
        (has_run-without_self run.id rs, AreDistinct-without run.id rs k),
  )

  pub with_old_run-IsTidy :
      (run : Run N) (rs : List (Run N)) → IsTidy rs → IsTidy (with_old_run run rs)
  with_old_run-IsTidy run rs (h, k) = elim (Bool-cases (has_run run.id rs)) [
    | inl e ↦ rw e (rw (length-replace run rs) h, AreDistinct-replace run rs k)
    | inr e ↦ rw e (length-take_le 20 (run ∷ rs), AreDistinct-take 20 (run ∷ rs) (e, k))
  ]
