-- ===== src/Money/Sound.antt =====
-- What every program of the page keeps: which of the page's marks of running work are set, that the
-- list of runs is tidy, and that each goal that was sent has a given property.
use finance_next.Base.{Bool, false, ◌≡◌, refl, String, Option, none, List, [], ◌∷◌, All, All-append}
use finance_next.Goal.{GoalRequest}
use finance_next.Goal.Safety.{IsSafe}
use finance_next.Money.State.{
  Run, PageRequest, listing, analyzing, getting, updating, backtesting, saving, Ended, gave, threw,
  Page, ◌>>=◌, on_value, set, call, set_error, set_run_error, with_run, with_old_run, show_run,
  push_route,
}
use finance_next.Money.Logic.{Keeps}
use finance_next.Money.Runs.{IsTidy, with_run-IsTidy, with_old_run-IsTidy}

pub record Marks : Type 0 where
  pub busy : Bool
  pub runs_busy : Bool
  pub backtest_busy_key : Option String
  pub batch_backtest_busy : Bool
  pub pipeline_busy : Bool
  pub action_busy_key : Option String
  pub strategy_save_busy_key : Option String

-- No work but that on the runs, and that of the pipeline.
abbrev pub marks : Bool → Bool → Marks
marks runs_busy pipeline_busy = record {
  busy = false;
  runs_busy = runs_busy;
  backtest_busy_key = none;
  batch_backtest_busy = false;
  pipeline_busy = pipeline_busy;
  action_busy_key = none;
  strategy_save_busy_key = none;
}

-- The goal of a request that asks for an analysis is as Q says.
module _ (Q : GoalRequest → Type 0) where
  abbrev pub IsFit : {N P : Type 0} → PageRequest N P → Type 0
  IsFit listing = Unit
  IsFit (analyzing r) = Q r
  IsFit (getting id) = Unit
  IsFit (updating id action patch) = Unit
  IsFit (backtesting r) = Unit
  IsFit (saving payload) = Unit

-- The request asks for no analysis.
abbrev pub AsksNoGoal : {N P : Type 0} → PageRequest N P → Type 0
AsksNoGoal r = IsFit (λ goal. ⊥) r

module _ {E N P : Type 0} where
  abbrev pub marks_of : Page E N P → Marks
  marks_of p = record {
    busy = p.busy;
    runs_busy = p.runs_busy;
    backtest_busy_key = p.backtest_busy_key;
    batch_backtest_busy = p.batch_backtest_busy;
    pipeline_busy = p.pipeline_busy;
    action_busy_key = p.action_busy_key;
    strategy_save_busy_key = p.strategy_save_busy_key;
  }

  abbrev pub IsSound : (GoalRequest → Type 0) → Marks → Page E N P → Type 0
  IsSound Q m p = (marks_of p ≡ m) × IsTidy p.runs × All (IsFit Q) p.sent

  -- Sound, with no work marked as running.
  abbrev pub IsAtRest : (GoalRequest → Type 0) → Page E N P → Type 0
  IsAtRest Q p = IsSound Q (marks false false) p

  -- Each goal that was sent is within its bounds.
  abbrev pub IsResting : Page E N P → Type 0
  IsResting p = IsAtRest IsSafe p

module _ (E N P : Type 0) (Q : GoalRequest → Type 0) (m : Marks) where
  pub set_error-Keeps : (e : Option E) → Keeps (IsSound Q m) (set_error {E = E} {N = N} {P = P} e)
  unfolding Keeps set
  set_error-Keeps e p h = h

  pub set_run_error-Keeps :
      (e : Option E) → Keeps (IsSound Q m) (set_run_error {E = E} {N = N} {P = P} e)
  unfolding Keeps set
  set_run_error-Keeps e p h = h

  pub push_route-Keeps :
      (href : String) → Keeps (IsSound Q m) (push_route {E = E} {N = N} {P = P} href)
  unfolding Keeps set
  push_route-Keeps href p h = h

  pub show_run-Keeps : (run : Run N) → Keeps (IsSound Q m) (show_run {E = E} {N = N} {P = P} run)
  unfolding Keeps set
  show_run-Keeps run p (h, t, s) = (h, with_run-IsTidy run p.runs t, s)

  pub with_run-Keeps :
      (run : Run N)
      → Keeps
          (IsSound Q m)
          (set {E = E} {N = N} {P = P} λ p. record p { runs = with_run run p.runs })
  unfolding Keeps set
  with_run-Keeps run p (h, t, s) = (h, with_run-IsTidy run p.runs t, s)

  pub with_old_run-Keeps :
      (run : Run N)
      → Keeps
          (IsSound Q m)
          (set {E = E} {N = N} {P = P} λ p. record p { runs = with_old_run run p.runs })
  unfolding Keeps set
  with_old_run-Keeps run p (h, t, s) = (h, with_old_run-IsTidy run p.runs t, s)

  pub call-Keeps :
      {A : Type 0} (r : PageRequest N P) (answer : List (PageRequest N P) → Ended E A)
      → IsFit Q r
      → Keeps (IsSound Q m) (call r answer)
  unfolding Keeps call
  call-Keeps r answer safe p (h, t, s) = (h, t, All-append (IsFit Q) p.sent (r ∷ []) s (safe, tt))

  listed :
      (r : Ended E (List (Run N))) (q : Page E N P)
      → ((rs : List (Run N)) → r ≡ gave rs → IsTidy rs)
      → IsSound Q m q
      → IsSound Q m (on_value (r, q) λ runs. set λ p. record p { runs = runs }).1
  unfolding set
  listed (gave rs) q tidy (h, t, s) = (h, tidy rs refl, s)
  listed (threw e) q tidy h = h

  -- The gateway lists tidy runs.
  pub listing-Keeps :
      (answer : List (PageRequest N P) → Ended E (List (Run N)))
      → ((sent : List (PageRequest N P)) (rs : List (Run N)) → answer sent ≡ gave rs → IsTidy rs)
      → Keeps (IsSound Q m) (call listing answer >>= λ runs. set λ p. record p { runs = runs })
  unfolding Keeps call set ◌>>=◌
  listing-Keeps answer tidy p h =
      listed (answer p.sent) _ (tidy p.sent) (call-Keeps listing answer tt p h)
