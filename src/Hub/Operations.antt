-- ===== src/Hub/Operations.antt =====
-- The methods and the handlers of class HubClient (client/data/ws-client.ts), as functions on the
-- client together with its sockets and timers.
use finance_next.Base.{
  ℕ, zero, suc, ◌*◌, min, String, true, Option, none, some, List, [], ◌∷◌, ◌++◌, if◌then◌else◌,
  length, modify, has, add, delete, lookup, insert, erase, nat_key, string_key,
}
use finance_next.Hub.State.{
  WsTopic, topic_name, tk, ReadyState, connecting, opened, closing as is_closing, closed, Frame,
  subscribe_frame, unsubscribe_frame, Socket, Meta, World, max_backoff, initial_backoff, is_open,
}

-- `this.ws.send(...)` when `this.ws` is there and OPEN.
unfoldable pub transmit : Frame → Socket → Socket
transmit f s = if is_open s.ready then record s { sent = s.sent ++ f ∷ [] } else s

unfoldable pub send_to : Option ℕ → Frame → World → World
send_to none f w = w
send_to (some i) f w = record w { sockets = modify i (transmit f) w.sockets }

unfoldable pub send : Frame → World → World
send f w = send_to w.ws f w

-- `connect()`, up to its handlers, which are the operations below.
unfoldable pub connect : World → World
connect w = if w.closing then w else record w {
  client = record w.client { ws = some (length w.sockets) };
  sockets = w.sockets ++ record { ready = connecting; sent = [] } ∷ [];
}

abbrev pub set_ready : ReadyState → Socket → Socket
set_ready r s = record s { ready = r }

unfoldable pub resend : Option Meta → World → World
resend none w = w
resend (some m) w = send (subscribe_frame m.topic m.id) w

-- The loop of the "open" handler over the subscribed keys.
unfoldable pub resubscribe : List String → World → World
resubscribe [] w = w
resubscribe (key ∷ ks) w = resubscribe ks (resend (lookup key w.subscribed_meta) w)

-- The "open" event of socket i: the browser has set its state.
unfoldable pub on_open : ℕ → World → World
on_open i w =
    let w' : World = record w {
      client = record w.client { backoff = initial_backoff };
      sockets = modify i (set_ready opened) w.sockets;
    } in
    resubscribe w'.subscribed w'

-- The "close" event of socket i, whose handler is `reconnect`.
unfoldable pub on_close : ℕ → World → World
on_close i w =
    let w' : World = record w {
      client = record w.client { ws = none };
      sockets = modify i (set_ready closed) w.sockets;
    } in
    if w.closing then w' else record w' {
      client = record w'.client { backoff = min (w.backoff * 2) max_backoff };
      timers = w.timers ++ min w.backoff max_backoff ∷ [];
    }

-- WebSocket.close() leaves a socket that is closing or closed alone.
abbrev pub close_ready : ReadyState → ReadyState
close_ready closed = closed
close_ready _ = is_closing

abbrev pub close_socket : Option ℕ → World → World
close_socket none w = w
close_socket (some i) w = record w {
  sockets = modify i (λ s. record s { ready = close_ready s.ready }) w.sockets;
}

-- The "error" event of any socket: `this.ws?.close()`.
unfoldable pub on_error : World → World
on_error w = close_socket w.ws w

-- The n-th pending timer fires: `() => this.connect()`.
abbrev pub drop_at {ℓ} : {A : Type ℓ} → ℕ → List A → List A
drop_at i [] = []
drop_at zero (x ∷ xs) = xs
drop_at (suc i) (x ∷ xs) = x ∷ drop_at i xs

unfoldable pub on_timer : ℕ → World → World
unfolding connect
on_timer n w = connect (record w { timers = drop_at n w.timers })

unfoldable pub ensure_connected : Option ℕ → World → World
unfolding connect
ensure_connected none w = connect w
ensure_connected (some i) w = w

abbrev pub or_empty : Option (List ℕ) → List ℕ
or_empty none = []
or_empty (some set) = set

-- `subscribe(topic, id, listener)` up to the closure that it returns.
unfoldable pub subscribe : WsTopic → String → ℕ → World → World
subscribe topic id listener w0 =
    let w : World = ensure_connected w0.ws w0 in
    let key : String = tk (topic_name topic) id in
    let set : List ℕ = add listener (or_empty (lookup key w.listeners)) in
    let w1 : World = record w {
      client = record w.client { listeners = insert key set w.listeners };
    } in
    if has key w1.subscribed
    then w1
    else send (subscribe_frame topic id) (record w1 {
      client = record w1.client {
        subscribed = add key w1.subscribed;
        subscribed_meta = insert key (record { topic = topic; id = id }) w1.subscribed_meta;
      };
    })

-- `cur.delete(listener)` has left the set `cur`.
unfoldable pub drop_listener : WsTopic → String → List ℕ → World → World
drop_listener topic id [] w =
    let key : String = tk (topic_name topic) id in
    send (unsubscribe_frame topic id) (record w {
      client = record w.client {
        listeners = erase key w.listeners;
        subscribed = delete key w.subscribed;
        subscribed_meta = erase key w.subscribed_meta;
      };
    })
drop_listener topic id (l ∷ cur) w = record w {
  client = record w.client { listeners = insert (tk (topic_name topic) id) (l ∷ cur) w.listeners };
}

-- The closure that `subscribe` returns.
unfoldable pub unsubscribe : WsTopic → String → ℕ → World → World
unsubscribe topic id listener w = elim (lookup (tk (topic_name topic) id) w.listeners) [
  | none ↦ w
  | some cur ↦ drop_listener topic id (delete listener cur) w
]

unfoldable pub shutdown : World → World
shutdown w = close_socket w.ws (record w { client = record w.client { closing = true } })
