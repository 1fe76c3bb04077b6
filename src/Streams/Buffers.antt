-- ===== src/Streams/Buffers.antt =====
-- The buffers of recent events that the hooks of client/data/ws-client.ts keep.
use mathlib.Core.List.{foldl, reverse, reverse-cons, append_assoc, append-nil}
use finance_next.Base.{
  ℕ, zero, suc, ◌≡◌, refl, sym, ap, ◌∙◌, List, [], ◌∷◌, ◌++◌, take, take-take_suc,
}
use finance_next.Json.{Json}
use finance_next.Hub.Messages.{WsEvent}
use finance_next.Streams.{
  push_event, AccountStream, BacktestStream, StrategyStream, OptimizationStream, on_account_event,
  on_backtest_event, on_strategy_event, on_optimization_event, new_account_stream,
  new_backtest_stream, new_strategy_stream, new_optimization_stream, cleanup_account,
}

module _ {N : Type 0} (size : ℕ) where
  -- A hook with a buffer that each event is pushed on.
  module _ {S : Type 0} (events : S → List (WsEvent (Json N))) (step : S → WsEvent (Json N) → S)
      (pushes : (s : S) (ev : WsEvent (Json N))
        → events (step s ev) ≡ push_event size ev (events s)) where
    -- The buffer holds the newest events, the newest first.
    events-foldl :
        (evs prev : List (WsEvent (Json N))) (s : S)
        → events s ≡ take size prev
        → events (foldl step s evs) ≡ take size (reverse evs ++ prev)
    events-foldl [] prev s h = h
    events-foldl (ev ∷ evs) prev s h =
        events-foldl evs (ev ∷ prev) (step s ev)
          (pushes s ev ∙ ap (λ l. take size (ev ∷ l)) h ∙ take-take_suc size ev prev)
        ∙ ap (take size) (
            sym (
              ap (λ l. l ++ prev) (reverse-cons ev evs)
              ∙ append_assoc (reverse evs) (ev ∷ []) prev))

take_nil : {A : Type 0} (n : ℕ) → [] ≡ take {A = A} n []
take_nil zero = refl
take_nil (suc n) = refl

account_events :
    {N : Type 0} (size : ℕ) (evs : List (WsEvent (Json N)))
    → (foldl (on_account_event size) (new_account_stream N) evs).events ≡ take size (reverse evs)
unfolding new_account_stream
account_events {N} size evs =
    events-foldl size (λ (s : AccountStream N). s.events) (on_account_event size)
      (unfold on_account_event in λ s ev. refl) evs [] _ (take_nil size)
    ∙ ap (take size) (append-nil (reverse evs))

-- After any events, each of the four hooks holds the newest `size` of them, the newest first.
pub events-eq-take :
    {N : Type 0} (origin : N) (size : ℕ) (evs : List (WsEvent (Json N)))
    → ((foldl (on_account_event size) (new_account_stream N) evs).events ≡ take size (reverse evs))
      × ((foldl (on_backtest_event size) (new_backtest_stream origin) evs).events
          ≡ take size (reverse evs))
      × ((foldl (on_strategy_event size) (new_strategy_stream N) evs).events
          ≡ take size (reverse evs))
      × ((foldl (on_optimization_event size) (new_optimization_stream origin) evs).events
          ≡ take size (reverse evs))
unfolding new_backtest_stream new_strategy_stream new_optimization_stream
events-eq-take {N} origin size evs =
    let cut = ap (take size) (append-nil (reverse evs)) in
    (
      account_events size evs,
      events-foldl size (λ (s : BacktestStream N). s.events) (on_backtest_event size)
            (unfold on_backtest_event in λ s ev. refl) evs [] _ (take_nil size)
          ∙ cut,
      events-foldl size (λ (s : StrategyStream N). s.events) (on_strategy_event size)
            (unfold on_strategy_event in λ s ev. refl) evs [] _ (take_nil size)
          ∙ cut,
      events-foldl size (λ (s : OptimizationStream N). s.events) (on_optimization_event size)
            (unfold on_optimization_event in λ s ev. refl) evs [] _ (take_nil size)
          ∙ cut,
    )

-- When the account of useAccountStream changes, the cleanup runs and the hook stays as it is
-- otherwise: behind the events of the new account the buffer still holds those of the old one.
stale_account_events :
    {N : Type 0} (size : ℕ) (old new : List (WsEvent (Json N)))
    → (foldl
        (on_account_event size)
        (cleanup_account (foldl (on_account_event size) (new_account_stream N) old))
        new).events
      ≡ take size (reverse new ++ reverse old)
unfolding cleanup_account
stale_account_events {N} size old new =
    events-foldl size (λ (s : AccountStream N). s.events) (on_account_event size)
      (unfold on_account_event in λ s ev. refl) new (reverse old) _ (account_events size old)
