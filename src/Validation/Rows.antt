-- ===== src/Validation/Rows.antt =====
-- What the row of a single run says.
use finance_next.Base.{
  ℕ, Bool, true, false, ◌&&◌, ◌≡◌, inl, inr, ◌≤◌, Option, none, some, List, [], ◌∷◌, Bool-cases,
  All, arith,
}
use finance_next.Json.{Json, at_key}
use finance_next.Numbers.{Numbers, IsOrdered, less, lesser, whole, percent, to_number}
use finance_next.Numbers.Clamp.{Within, lesser_le_left}
use finance_next.Validation.{
  Arithmetic, Row, is_paper_first, is_whole, clamp_score, recommend, row_of, rows_of,
}

module _ {N : Type 0} (num : Numbers N) where
  abbrev IsScore : Option N → Type 0
  IsScore none = Unit
  IsScore (some s) = Within num (whole num 0) (whole num 100) s

  abbrev reaches : Option N → Bool
  reaches none = false
  reaches (some s) = num.leq (whole num 70) s

  -- The thresholds of a row that is to be watched on paper.
  abbrev pub meets : Row N → Bool
  meets r =
      is_whole num r.state 3
      && reaches r.score
      && less num (whole num 0) r.total_return
      && num.leq (whole num 1) r.sharpe
      && num.leq r.max_drawdown (percent num 20)

  abbrev pub IsSound : Row N → Type 0
  IsSound r = IsScore r.score × (is_paper_first r.recommendation ≡ meets r)

module _ {N : Type 0} {num : Numbers N} (laws : IsOrdered num) (ar : Arithmetic N) where
  whole_mono : (a b : ℕ) → a ≤ b → b ≤ 1000000000 → num.leq (whole num a) (whole num b) ≡ true
  whole_mono a b h k = laws.literal_mono _ _ (omega arith) (omega arith)

  clamp_score-Within : (n : Option N) → Within num (whole num 0) (whole num 100) (clamp_score num n)
  unfolding clamp_score
  clamp_score-Within none = (laws.leq_refl _, whole_mono 0 100 (omega arith) (omega arith))
  clamp_score-Within (some n) =
      elim (Bool-cases (num.leq (whole num 0) (lesser num (whole num 100) (num.round n)))) [
        | inl e ↦ rw e (e, lesser_le_left laws (whole num 100) _)
        | inr e ↦ rw e (laws.leq_refl _, whole_mono 0 100 (omega arith) (omega arith))
      ]

  recommend_iff :
      (score total_return sharpe max_drawdown : N)
      → is_paper_first (recommend num score total_return sharpe max_drawdown).0 ≡ (
          num.leq (whole num 70) score
          && less num (whole num 0) total_return
          && num.leq (whole num 1) sharpe
          && num.leq max_drawdown (percent num 20))
  unfolding recommend
  recommend_iff score total_return sharpe max_drawdown = ground arith

  not_three : (state : Option N) → is_whole num state 4 ≡ true → is_whole num state 3 ≡ false
  not_three none h = ground arith
  not_three (some n) h = ground (
    arith,
    laws.leq_trans (whole num 4) n (whole num 3),
    laws.literal_less 30000 40000 (omega arith) (omega arith),
  )

  row_of-IsSound : (run : Json N) → IsSound num (row_of num ar run)
  unfolding row_of
  row_of-IsSound run =
      let state : Option N = to_number num (at_key "state" (some run)) in
      elim (Bool-cases (is_whole num state 4)) [
        | inl e ↦ rw e (
          (laws.leq_refl _, whole_mono 0 100 (omega arith) (omega arith)),
          rw (not_three state e),
        )
        | inr e ↦ elim (Bool-cases (is_whole num state 3)) [
          | inl k ↦ rw (e, k) (clamp_score-Within _, rw k (recommend_iff _ _ _ _))
          | inr k ↦ rw (e, k) (tt, rw k)
        ]
      ]

  pub rows_of-IsSound : (runs : List (Json N)) → All (IsSound num) (rows_of num ar runs)
  rows_of-IsSound [] = tt
  rows_of-IsSound (run ∷ runs) = (row_of-IsSound run, rows_of-IsSound runs)
