-- ===== src/Tests/Hub.antt =====
-- Tests of the hub (client/data/ws-client.ts).
use text.Mathlib.TextEquality.{eq_iff}
use finance_next.Base.{
  ℕ, String, ◌≡◌, ◌≢◌, refl, inr, true, false, none, some, [], ◌∷◌, arith, has, delete, length,
  keys, suc, get_elem?, string_key, nat_key,
}
use finance_next.Hub.State.{
  account, backtest, topic_name, tk, connecting, opened, Socket, World, start, subscribe_frame,
  unsubscribe_frame,
}
use finance_next.Hub.Operations.{
  send, send_to, transmit, connect, resend, resubscribe, on_open, on_close, on_timer,
  ensure_connected, subscribe, drop_listener, unsubscribe, shutdown,
}
use finance_next.Hub.Messages.{WsEvent, route_key, broadcast, deliver}
use finance_next.Hub.Registry.{topic_key, IsConsistent, SameRegistries}
use finance_next.Hub.Transport.{known, known_over}
use finance_next.Hub.Steps.{subscribing, opening, closing, Reach, begin, next, Reach-IsConsistent}
use finance_next.Hub.Synced.{known-eq-subscribed, known-on_open_self}
use finance_next.Hub.Backoff.{IsPaced, Reach-IsPaced}
use finance_next.Hub.Delivery.{
  IsFor, tagged, called, tk-injective, deliver-unsubscribe, unsubscribe-subscribe,
}
use finance_next.Hub.Leaks.{doubled, double_subscription}

-- All that the runs below compute with.
hub : Unit {0}
unfolding start topic_name tk send send_to transmit connect resend resubscribe on_open on_close
    on_timer ensure_connected subscribe drop_listener unsubscribe shutdown route_key broadcast
    deliver known
hub = tt

abbrev waiting : World
waiting = subscribe account "a1" 7 start

abbrev live : World
live = on_open 0 waiting

abbrev lost : World
lost = on_close 0 live

abbrev first_socket : Socket
first_socket = record { ready = connecting; sent = [] }

abbrev open_socket : Socket
open_socket = record { ready = opened; sent = subscribe_frame account "a1" ∷ [] }

live_socket : get_elem? live.sockets 0 ≡ some open_socket
unfolding hub
live_socket = refl

waiting-Reach : Reach waiting
waiting-Reach = next begin (subscribing account "a1" 7)

live-Reach : Reach live
unfolding hub
live-Reach = next waiting-Reach (opening 0 first_socket refl refl)

lost-Reach : Reach lost
lost-Reach = next live-Reach (closing 0 open_socket live_socket ((cc)))

frames_of_unsubscribe :
    get_elem? (unsubscribe account "a1" 7 live).sockets 0
    ≡ some (record {
      ready = opened;
      sent = subscribe_frame account "a1" ∷ unsubscribe_frame account "a1" ∷ [];
    })
unfolding hub
frames_of_unsubscribe = refl

Reach-IsConsistent_example : IsConsistent lost.client
Reach-IsConsistent_example = Reach-IsConsistent lost-Reach

known-live : known live ≡ some ("account:a1" ∷ [])
unfolding hub
known-live = refl

known-eq-subscribed_example :
    ("account:a1" ∷ [] ≡ live.subscribed) × ("account:a1" ∷ [] ≡ keys live.listeners)
known-eq-subscribed_example = known-eq-subscribed ("account:a1" ∷ []) live-Reach known-live

known-on_open_self_example : known (on_open 0 waiting) ≡ some waiting.subscribed
unfolding hub
known-on_open_self_example =
    known-on_open_self 0 waiting first_socket refl refl refl (Reach-IsConsistent waiting-Reach)

Reach-IsPaced_example : IsPaced lost
Reach-IsPaced_example = Reach-IsPaced lost-Reach

abbrev news : String → WsEvent ℕ
news id = record {
  type = "account.event";
  topic = some "account";
  id = some id;
  account_id = none;
  payload = some 5;
  error = none;
  reason = none;
  message = none;
}

a1_ne_nil : ◌≢◌ {A = String} "a1" ""
a1_ne_nil = ground (arith, eq_iff "a1" "")

b2_ne_nil : ◌≢◌ {A = String} "b2" ""
b2_ne_nil = ground (arith, eq_iff "b2" "")

a1_ne_b2 : ◌≢◌ {A = String} "a1" "b2"
a1_ne_b2 = ground (arith, eq_iff "a1" "b2")

IsFor-a1 : IsFor (news "a1") account "a1"
unfolding hub
IsFor-a1 = tagged refl refl a1_ne_nil

IsFor-b2 : IsFor (news "b2") account "b2"
unfolding hub
IsFor-b2 = tagged refl refl b2_ne_nil

tk-injective_example : (account ≡ account) × (◌≡◌ {A = String} "a1" "a1")
tk-injective_example = tk-injective account account "a1" "a1" refl

deliver-unsubscribe_example :
    (called (deliver (unsubscribe account "a1" 7 live).client (news "a1"))
      ≡ delete 7 (called (deliver live.client (news "a1"))))
    × (has 7 (called (deliver (unsubscribe account "a1" 7 live).client (news "a1"))) ≡ false)
    × (deliver (unsubscribe account "a1" 7 live).client (news "b2")
        ≡ deliver live.client (news "b2"))
deliver-unsubscribe_example =
    deliver-unsubscribe account "a1" 7 live (news "a1") (news "b2") account "b2"
      (Reach-IsConsistent live-Reach) IsFor-a1 IsFor-b2 (inr a1_ne_b2)

unsubscribe-subscribe_example :
    SameRegistries (unsubscribe account "a1" 8 (subscribe account "a1" 8 live)).client live.client
unfolding hub
unsubscribe-subscribe_example =
    unsubscribe-subscribe account "a1" 8 live (Reach-IsConsistent live-Reach) refl

-- The lost connection, with the timer of its reconnect pending.
double_subscription_example :
    Reach (doubled backtest "r1" 9 lost)
    × (known_over (get_elem? (doubled backtest "r1" 9 lost).sockets (length lost.sockets))
        ≡ some (doubled backtest "r1" 9 lost).subscribed)
    × (known_over (get_elem? (doubled backtest "r1" 9 lost).sockets (suc (length lost.sockets)))
        ≡ some (doubled backtest "r1" 9 lost).subscribed)
    × (has (topic_key backtest "r1") (doubled backtest "r1" 9 lost).subscribed ≡ true)
unfolding hub
double_subscription_example =
    double_subscription backtest "r1" 9 lost lost-Reach refl refl (omega arith)
