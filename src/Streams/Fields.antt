-- ===== src/Streams/Fields.antt =====
-- What the other fields of the hooks of client/data/ws-client.ts hold after any events.
use mathlib.Core.List.{foldl}
use text.Mathlib.Text.{starts_with}
use finance_next.Base.{
  ℕ, String, ◌≡◌, refl, ◌∙◌, ap, Bool, true, false, ◌||◌, Option, none, some, List, [], ◌∷◌, arith,
  if◌then◌else◌, ◌==◌, string_key,
}
use finance_next.Json.{Json}
use finance_next.Hub.Messages.{WsEvent}
use finance_next.Streams.{
  or_keep, number_in, text_in, AccountStream, BacktestStream, StrategyStream, OptimizationStream,
  on_account_event, on_backtest_event, on_strategy_event, on_optimization_event,
}

-- The value that the latest event with a value carries, or else the default.
abbrev pub latest {ℓ} : {E : Type 0} {A : Type ℓ} → (E → Option A) → List E → A → A
latest f [] a = a
latest f (ev ∷ evs) a = latest f evs (or_keep (f ev) a)

-- A field that each event sets, or keeps.
latest-foldl {ℓ} :
    {E S : Type 0} {A : Type ℓ} (get : S → A) (step : S → E → S) (f : E → Option A)
    → ((s : S) (ev : E) → get (step s ev) ≡ or_keep (f ev) (get s))
    → (evs : List E) (s : S) → get (foldl step s evs) ≡ latest f evs (get s)
latest-foldl get step f sets [] s = refl
latest-foldl get step f sets (ev ∷ evs) s =
    latest-foldl get step f sets evs (step s ev) ∙ ap (latest f evs) (sets s ev)

abbrev pub any {ℓ} : {A : Type ℓ} → (A → Bool) → List A → Bool
any p [] = false
any p (x ∷ xs) = p x || any p xs

module _ {N : Type 0} where
  -- What an event says of the connection, and of its notice.
  abbrev pub account_link : WsEvent (Json N) → Option Bool
  account_link ev =
      if ev.type == "account.upstream_closed"
      then some false
      else if ev.type == "account.event"
      then some true
      else none

  abbrev pub notice_of : WsEvent (Json N) → Option (Option String)
  notice_of ev =
      if ev.type == "notice"
      then (elim ev.message [ none ↦ none | some m ↦ some (some m) ])
      else none

  -- useAccountStream: `connected` and `notice` are what the latest event that says so says.
  pub account_fields :
      (size : ℕ) (evs : List (WsEvent (Json N))) (s : AccountStream N)
      → ((foldl (on_account_event size) s evs).connected ≡ latest account_link evs s.connected)
        × ((foldl (on_account_event size) s evs).notice ≡ latest notice_of evs s.notice)
  account_fields size evs s = (
    latest-foldl (λ (t : AccountStream N). t.connected) (on_account_event size) account_link
        (λ s ev. unfold on_account_event in ground arith) evs s,
    latest-foldl (λ (t : AccountStream N). t.notice) (on_account_event size) notice_of
        (λ s ev. unfold on_account_event in ground arith) evs s,
  )

  any-foldl :
      {S : Type 0} (get : S → Bool) (step : S → WsEvent (Json N) → S) (p : WsEvent (Json N) → Bool)
      → ((s : S) (ev : WsEvent (Json N)) → get (step s ev) ≡ (if p ev then true else get s))
      → (evs : List (WsEvent (Json N))) (s : S) → get (foldl step s evs) ≡ (get s || any p evs)
  any-foldl get step p sets [] s = ground arith
  any-foldl get step p sets (ev ∷ evs) s =
      any-foldl get step p sets evs (step s ev) ∙ ground (arith, sets s ev)

  -- `state` of the hooks, null until an event brings a number.
  abbrev pub state_of : WsEvent (Json N) → Option (Option N)
  state_of ev = elim (number_in "state" ev) [ none ↦ none | some n ↦ some (some n) ]

  -- useBacktestStream: `progress` and `state` are the latest numbers that events brought, and the
  -- run is completed exactly if it was, or a "backtest.completed" event has come.
  backtest_fields :
      (size : ℕ) (evs : List (WsEvent (Json N))) (s : BacktestStream N)
      → ((foldl (on_backtest_event size) s evs).progress
          ≡ latest (number_in "progress") evs s.progress)
        × ((foldl (on_backtest_event size) s evs).state ≡ latest state_of evs s.state)
        × ((foldl (on_backtest_event size) s evs).completed
            ≡ (s.completed || any (λ ev. ev.type == "backtest.completed") evs))
  backtest_fields size evs s = (
    latest-foldl (λ (t : BacktestStream N). t.progress) (on_backtest_event size)
        (number_in "progress") (λ s ev. unfold on_backtest_event in refl) evs s,
    latest-foldl (λ (t : BacktestStream N). t.state) (on_backtest_event size) state_of
        (λ s ev. unfold on_backtest_event in ground arith) evs s,
    any-foldl (λ (t : BacktestStream N). t.completed) (on_backtest_event size)
        (λ ev. ev.type == "backtest.completed") (λ s ev. unfold on_backtest_event in refl) evs s,
  )

  abbrev pub strategy_link : WsEvent (Json N) → Option Bool
  strategy_link ev =
      if ev.type == "strategy.upstream_closed"
      then some false
      else if starts_with ev.type "event.order."
      then some true
      else none

  abbrev pub suggestion_of : WsEvent (Json N) → Option (Option String)
  suggestion_of ev =
      if ev.type == "optimization.suggested"
      then (elim (text_in "recommendation_id" ev) [ none ↦ none | some r ↦ some (some r) ])
      else none

  -- useStrategyStream: `connected` is what the latest event that says so says.
  pub strategy_fields :
      (size : ℕ) (evs : List (WsEvent (Json N))) (s : StrategyStream N)
      → (foldl (on_strategy_event size) s evs).connected ≡ latest strategy_link evs s.connected
  strategy_fields size evs s =
      latest-foldl (λ (t : StrategyStream N). t.connected) (on_strategy_event size) strategy_link
        (λ s ev. unfold on_strategy_event in ground arith) evs s

  -- useOptimizationStream: each number is the latest that an event brought under its key, and the
  -- recommendation is the one of the latest "optimization.suggested" event that names one.
  pub optimization_fields :
      (size : ℕ) (evs : List (WsEvent (Json N))) (s : OptimizationStream N)
      → ((foldl (on_optimization_event size) s evs).trials_completed
          ≡ latest (number_in "trials_completed") evs s.trials_completed)
        × ((foldl (on_optimization_event size) s evs).trials_total
            ≡ latest (number_in "trials_total") evs s.trials_total)
        × ((foldl (on_optimization_event size) s evs).best_value
            ≡ latest (number_in "best_value") evs s.best_value)
        × ((foldl (on_optimization_event size) s evs).cost_usd
            ≡ latest (number_in "current_cost_usd") evs s.cost_usd)
        × ((foldl (on_optimization_event size) s evs).state ≡ latest state_of evs s.state)
        × ((foldl (on_optimization_event size) s evs).recommendation_id
            ≡ latest suggestion_of evs s.recommendation_id)
  optimization_fields size evs s = (
    latest-foldl (λ (t : OptimizationStream N). t.trials_completed) (on_optimization_event size)
        (number_in "trials_completed") (λ s ev. unfold on_optimization_event in refl) evs s,
    latest-foldl (λ (t : OptimizationStream N). t.trials_total) (on_optimization_event size)
        (number_in "trials_total") (λ s ev. unfold on_optimization_event in refl) evs s,
    latest-foldl (λ (t : OptimizationStream N). t.best_value) (on_optimization_event size)
        (number_in "best_value") (λ s ev. unfold on_optimization_event in refl) evs s,
    latest-foldl (λ (t : OptimizationStream N). t.cost_usd) (on_optimization_event size)
        (number_in "current_cost_usd") (λ s ev. unfold on_optimization_event in refl) evs s,
    latest-foldl (λ (t : OptimizationStream N). t.state) (on_optimization_event size) state_of
        (λ s ev. unfold on_optimization_event in ground arith) evs s,
    latest-foldl (λ (t : OptimizationStream N). t.recommendation_id) (on_optimization_event size)
        suggestion_of (λ s ev. unfold on_optimization_event in ground arith) evs s,
  )
