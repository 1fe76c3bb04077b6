-- ===== src/Validation/Ranking.antt =====
-- The order of the ranked rows.
use mathlib.Core.List.{Perm}
use finance_next.Base.{
  true, false, ◌≡◌, refl, Option, none, some, List, All, sort-perm, sort-All, sort-IsSorted,
  IsSorted,
}
use finance_next.Json.{Json}
use finance_next.Numbers.{Numbers, IsOrdered}
use finance_next.Validation.{
  Arithmetic, Row, array_or_empty, rows_of, stays_by, stays_before, rank_backtest_validation,
}
use finance_next.Validation.Rows.{IsSound, rows_of-IsSound}

module _ {N : Type 0} (num : Numbers N) where
  pub record IsRanking (rows ranked : List (Row N)) : Type 0 where
    pub same_rows : Perm ranked rows
    pub ordered : IsSorted (stays_before num) ranked
    pub sound : All (IsSound num) ranked

module _ {N : Type 0} {num : Numbers N} (laws : IsOrdered num) (ar : Arithmetic N) where
  stays_total : (a b : Option N) → stays_by num a b ≡ false → stays_by num b a ≡ true
  stays_total a none h = cc
  stays_total none (some b) h = refl
  stays_total (some a) (some b) h = laws.leq_total b a h

  stays_trans :
      (a b c : Option N)
      → stays_by num a b ≡ true
      → stays_by num b c ≡ true
      → stays_by num a c ≡ true
  stays_trans a b none h k = refl
  stays_trans a none (some c) h k = cc
  stays_trans none (some b) (some c) h k = cc
  stays_trans (some a) (some b) (some c) h k = laws.leq_trans c b a k h

  -- The ranking has the rows of the runs, each once: the higher score first, and the rows without a
  -- score last. Each score is between 0 and 100, and exactly the rows that meet the thresholds
  -- (finished, a score of at least 70, a positive return, a Sharpe ratio of at least 1 and a
  -- drawdown of at most 0.2) are recommended for paper.
  pub rank_backtest_validation-IsRanking :
      (backtests : Option (Json N))
      → IsRanking num
          (rows_of num ar (array_or_empty backtests))
          (rank_backtest_validation num ar backtests)
  unfolding rank_backtest_validation
  rank_backtest_validation-IsRanking backtests =
      let rows : List (Row N) = rows_of num ar (array_or_empty backtests) in
      record {
        same_rows = sort-perm (stays_before num) rows;
        ordered =
            sort-IsSorted (stays_before num) (λ a b. stays_total a.score b.score)
              (λ a b c. stays_trans a.score b.score c.score) rows;
        sound = sort-All (stays_before num) (IsSound num) rows (rows_of-IsSound laws ar _);
      }
