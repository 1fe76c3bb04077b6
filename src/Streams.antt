-- ===== src/Streams.antt =====
-- The hooks of client/data/ws-client.ts that listen to the hub: useAccountStream,
-- useBacktestStream, useStrategyStream and useOptimizationStream. Each keeps the state of a
-- component, which its listener changes with every event.
pub mod Fields
pub mod Buffers
use text.Mathlib.Text.{starts_with}
use finance_next.Base.{
  ℕ, String, Bool, true, false, Option, none, some, List, [], ◌∷◌, if◌then◌else◌, ◌==◌, take,
  string_key, ◌&&◌,
}
use finance_next.Json.{Json, at_key, as_number, as_text}
use finance_next.Hub.Messages.{WsEvent}

-- `set(v)` when there is a value.
abbrev pub or_keep {ℓ} : {A : Type ℓ} → Option A → A → A
or_keep none a = a
or_keep (some b) a = b

module _ {N : Type 0} where
  -- `[ev, ...prev].slice(0, bufferSize)`
  abbrev pub push_event : ℕ → WsEvent (Json N) → List (WsEvent (Json N)) → List (WsEvent (Json N))
  push_event size ev prev = take size (ev ∷ prev)

  abbrev pub number_in : String → WsEvent (Json N) → Option N
  number_in key ev = as_number (at_key key ev.payload)

  abbrev pub text_in : String → WsEvent (Json N) → Option String
  text_in key ev = as_text (at_key key ev.payload)

  abbrev pub last_event : List (WsEvent (Json N)) → Option (WsEvent (Json N))
  last_event [] = none
  last_event (ev ∷ evs) = some ev

pub record AccountStream (N : Type 0) : Type 0 where
  pub events : List (WsEvent (Json N))
  pub connected : Bool
  pub notice : Option String

pub record BacktestStream (N : Type 0) : Type 0 where
  pub events : List (WsEvent (Json N))
  pub progress : N
  pub state : Option N
  pub completed : Bool

pub record StrategyStream (N : Type 0) : Type 0 where
  pub events : List (WsEvent (Json N))
  pub connected : Bool

pub record OptimizationStream (N : Type 0) : Type 0 where
  pub events : List (WsEvent (Json N))
  pub trials_completed : N
  pub trials_total : N
  pub best_value : N
  pub cost_usd : N
  pub state : Option N
  pub recommendation_id : Option String

module _ {N : Type 0} (size : ℕ) where
  unfoldable pub on_account_event : AccountStream N → WsEvent (Json N) → AccountStream N
  on_account_event s ev = record {
    events = push_event size ev s.events;
    connected =
        if ev.type == "account.upstream_closed"
        then false
        else if ev.type == "account.event"
        then true
        else s.connected;
    notice =
        if ev.type == "notice"
        then (elim ev.message [ none ↦ s.notice | some m ↦ some m ])
        else s.notice;
  }

  unfoldable pub on_backtest_event : BacktestStream N → WsEvent (Json N) → BacktestStream N
  on_backtest_event s ev = record {
    events = push_event size ev s.events;
    progress = or_keep (number_in "progress" ev) s.progress;
    state = elim (number_in "state" ev) [ none ↦ s.state | some n ↦ some n ];
    completed = if ev.type == "backtest.completed" then true else s.completed;
  }

  unfoldable pub on_strategy_event : StrategyStream N → WsEvent (Json N) → StrategyStream N
  on_strategy_event s ev = record {
    events = push_event size ev s.events;
    connected =
        if ev.type == "strategy.upstream_closed"
        then false
        else if starts_with ev.type "event.order."
        then true
        else s.connected;
  }

  unfoldable pub on_optimization_event :
      OptimizationStream N → WsEvent (Json N) → OptimizationStream N
  on_optimization_event s ev = record {
    events = push_event size ev s.events;
    trials_completed = or_keep (number_in "trials_completed" ev) s.trials_completed;
    trials_total = or_keep (number_in "trials_total" ev) s.trials_total;
    best_value = or_keep (number_in "best_value" ev) s.best_value;
    cost_usd = or_keep (number_in "current_cost_usd" ev) s.cost_usd;
    state = elim (number_in "state" ev) [ none ↦ s.state | some n ↦ some n ];
    recommendation_id =
        if ev.type == "optimization.suggested"
        then (elim (text_in "recommendation_id" ev) [
          | none ↦ s.recommendation_id
          | some r ↦ some r
        ])
        else s.recommendation_id;
  }

-- What the hooks start from; the numbers start at 0.
unfoldable pub new_account_stream : (N : Type 0) → AccountStream N
new_account_stream N = record { events = []; connected = false; notice = none }

unfoldable pub new_backtest_stream : {N : Type 0} → N → BacktestStream N
new_backtest_stream origin = record {
  events = [];
  progress = origin;
  state = none;
  completed = false;
}

unfoldable pub new_strategy_stream : (N : Type 0) → StrategyStream N
new_strategy_stream N = record { events = []; connected = false }

unfoldable pub new_optimization_stream : {N : Type 0} → N → OptimizationStream N
new_optimization_stream origin = record {
  events = [];
  trials_completed = origin;
  trials_total = origin;
  best_value = origin;
  cost_usd = origin;
  state = none;
  recommendation_id = none;
}

-- The cleanup of the effects of useAccountStream and useStrategyStream, which runs when the id
-- changes; those of the other two only unsubscribe.
unfoldable pub cleanup_account : {N : Type 0} → AccountStream N → AccountStream N
cleanup_account s = record s { connected = false; notice = none }

unfoldable pub cleanup_strategy : {N : Type 0} → StrategyStream N → StrategyStream N
cleanup_strategy s = record s { connected = false }

-- `trialsTotal > 0 ? trialsCompleted / trialsTotal : 0`, over the arithmetic of the numbers.
unfoldable pub optimization_progress :
    {N : Type 0} (origin : N) (positive : N → Bool) (div : N → N → N) → OptimizationStream N → N
optimization_progress origin positive div s =
    if positive s.trials_total then div s.trials_completed s.trials_total else origin
