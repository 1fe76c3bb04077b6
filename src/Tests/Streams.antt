-- ===== src/Tests/Streams.antt =====
-- Tests of the hooks of client/data/ws-client.ts.
use mathlib.Core.List.{foldl, reverse}
use finance_next.Base.{ℕ, String, ◌≡◌, refl, true, none, some, List, [], ◌∷◌, take, string_key}
use finance_next.Json.{Json, number, text, object, end, member}
use finance_next.Hub.Messages.{WsEvent}
use finance_next.Streams.{
  on_account_event, on_backtest_event, on_strategy_event, on_optimization_event, new_account_stream,
  new_backtest_stream, new_strategy_stream, new_optimization_stream,
}
use finance_next.Streams.Buffers.{events-eq-take}
use finance_next.Streams.Fields.{
  latest, account_link, notice_of, strategy_link, account_fields, strategy_fields,
}

abbrev envelope : String → Json ℕ → WsEvent (Json ℕ)
envelope type payload = record {
  type = type;
  topic = none;
  id = none;
  account_id = none;
  payload = some payload;
  error = none;
  reason = none;
  message = some "m";
}

abbrev progress_event : ℕ → WsEvent (Json ℕ)
progress_event n = envelope "backtest.progress" (object (member "progress" (number n) end))

abbrev completed_event : WsEvent (Json ℕ)
completed_event = envelope "backtest.completed" (object (member "state" (number 3) end))

abbrev backtest_events : List (WsEvent (Json ℕ))
backtest_events = progress_event 40 ∷ completed_event ∷ progress_event 90 ∷ []

abbrev account_events : List (WsEvent (Json ℕ))
account_events =
    envelope "account.event" (text "x")
    ∷ envelope "notice" (text "y")
    ∷ envelope "account.upstream_closed" (text "z")
    ∷ []

abbrev suggested : List (WsEvent (Json ℕ))
suggested =
    envelope "optimization.suggested"
      (object (member "recommendation_id" (text "rec") (member "trials_total" (number 8) end)))
    ∷ []

backtest_run : foldl (on_backtest_event 2) (new_backtest_stream 0) backtest_events ≡ record {
  events = progress_event 90 ∷ completed_event ∷ [];
  progress = 90;
  state = some 3;
  completed = true;
}
unfolding on_backtest_event new_backtest_stream
backtest_run = refl

events-eq-take_example :
    ((foldl (on_account_event 2) (new_account_stream ℕ) account_events).events
      ≡ take 2 (reverse account_events))
    × ((foldl (on_backtest_event 2) (new_backtest_stream 0) account_events).events
        ≡ take 2 (reverse account_events))
    × ((foldl (on_strategy_event 2) (new_strategy_stream ℕ) account_events).events
        ≡ take 2 (reverse account_events))
    × ((foldl (on_optimization_event 2) (new_optimization_stream 0) account_events).events
        ≡ take 2 (reverse account_events))
events-eq-take_example = events-eq-take 0 2 account_events

account_fields_example :
    ((foldl (on_account_event 2) (new_account_stream ℕ) account_events).connected
      ≡ latest account_link account_events (new_account_stream ℕ).connected)
    × ((foldl (on_account_event 2) (new_account_stream ℕ) account_events).notice
        ≡ latest notice_of account_events (new_account_stream ℕ).notice)
account_fields_example = account_fields 2 account_events (new_account_stream ℕ)

strategy_fields_example :
    (foldl (on_strategy_event 2) (new_strategy_stream ℕ) account_events).connected
    ≡ latest strategy_link account_events (new_strategy_stream ℕ).connected
strategy_fields_example = strategy_fields 2 account_events (new_strategy_stream ℕ)
