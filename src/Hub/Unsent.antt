-- ===== src/Hub/Unsent.antt =====
-- A socket of the hub (client/data/ws-client.ts) that is still connecting has sent nothing.
use finance_next.Base.{
  ℕ, String, ◌≡◌, refl, Bool-cases, inl, inr, Option, none, some, List, [], ◌∷◌, arith,
  Option-cases, has, lookup, All, All-push, All-modify, string_key,
}
use finance_next.Hub.State.{
  WsTopic, topic_name, tk, ReadyState, connecting, opened, closed, Frame, Socket, Meta, World,
  start,
}
use finance_next.Hub.Operations.{
  transmit, send, send_to, connect, set_ready, close_ready, close_socket, resend, resubscribe,
  on_open, on_close, on_error, on_timer, ensure_connected, subscribe, unsubscribe, drop_listener,
  shutdown,
}
use finance_next.Hub.Steps.{
  Step, subscribing, unsubscribing, opening, failing, firing, shutting_down, Reach, begin, next,
}

abbrev pub IsUnsent : Socket → Type 0
IsUnsent s = s.ready ≡ connecting → s.sent ≡ []

abbrev pub AllUnsent : World → Type 0
AllUnsent w = All IsUnsent w.sockets

transmit-IsUnsent : (f : Frame) (s : Socket) → IsUnsent s → IsUnsent (transmit f s)
unfolding transmit
transmit-IsUnsent f s h = ground arith

set_ready-IsUnsent : (r : ReadyState) (s : Socket) → (r ≡ connecting → ⊥) → IsUnsent (set_ready r s)
set_ready-IsUnsent r s n = λ e. absurd (n e)

close-IsUnsent : (s : Socket) → IsUnsent (record s { ready = close_ready s.ready })
close-IsUnsent s = ground arith

send_to-AllUnsent : (o : Option ℕ) (f : Frame) (w : World) → AllUnsent w → AllUnsent (send_to o f w)
unfolding send_to
send_to-AllUnsent none f w h = h
send_to-AllUnsent (some i) f w h =
    All-modify IsUnsent i (transmit f) (transmit-IsUnsent f) w.sockets h

send-AllUnsent : (f : Frame) (w : World) → AllUnsent w → AllUnsent (send f w)
unfolding send
send-AllUnsent f w h = send_to-AllUnsent w.ws f w h

resend-AllUnsent : (m : Option Meta) (w : World) → AllUnsent w → AllUnsent (resend m w)
unfolding resend
resend-AllUnsent none w h = h
resend-AllUnsent (some m) w h = send-AllUnsent _ w h

resubscribe-AllUnsent : (ks : List String) (w : World) → AllUnsent w → AllUnsent (resubscribe ks w)
unfolding resubscribe
resubscribe-AllUnsent [] w h = h
resubscribe-AllUnsent (key ∷ ks) w h = resubscribe-AllUnsent ks _ (resend-AllUnsent _ w h)

connect-AllUnsent : (w : World) → AllUnsent w → AllUnsent (connect w)
unfolding connect
connect-AllUnsent w h = elim (Bool-cases w.closing) [
  | inl e ↦ rw e h
  | inr e ↦ rw e (All-push IsUnsent w.sockets h (λ _. refl))
]

ensure-AllUnsent : (o : Option ℕ) (w : World) → AllUnsent w → AllUnsent (ensure_connected o w)
unfolding ensure_connected
ensure-AllUnsent none w h = connect-AllUnsent w h
ensure-AllUnsent (some i) w h = h

close_socket-AllUnsent : (o : Option ℕ) (w : World) → AllUnsent w → AllUnsent (close_socket o w)
close_socket-AllUnsent none w h = h
close_socket-AllUnsent (some i) w h = All-modify IsUnsent i _ (λ s _. close-IsUnsent s) w.sockets h

subscribe-AllUnsent :
    (topic : WsTopic) (id : String) (l : ℕ) (w : World)
    → AllUnsent w
    → AllUnsent (subscribe topic id l w)
unfolding subscribe
subscribe-AllUnsent topic id l w h =
    let v : World = ensure_connected w.ws w in
    let k : AllUnsent v = ensure-AllUnsent w.ws w h in
    elim (Bool-cases (has (tk (topic_name topic) id) v.subscribed)) [
      | inl e ↦ rw e k
      | inr e ↦ rw e (send-AllUnsent _ _ k)
    ]

drop_listener-AllUnsent :
    (topic : WsTopic) (id : String) (cur : List ℕ) (w : World)
    → AllUnsent w
    → AllUnsent (drop_listener topic id cur w)
unfolding drop_listener
drop_listener-AllUnsent topic id [] w h = send-AllUnsent _ _ h
drop_listener-AllUnsent topic id (l ∷ cur) w h = h

unsubscribe-AllUnsent :
    (topic : WsTopic) (id : String) (l : ℕ) (w : World)
    → AllUnsent w
    → AllUnsent (unsubscribe topic id l w)
unfolding unsubscribe
unsubscribe-AllUnsent topic id l w h =
    elim (Option-cases (lookup (tk (topic_name topic) id) w.listeners)) [
      | inl e ↦ rw (e, unsubscribe) h
      | inr (cur, e) ↦ rw (e, unsubscribe) (drop_listener-AllUnsent topic id _ w h)
    ]

on_close-AllUnsent : (i : ℕ) (w : World) → AllUnsent w → AllUnsent (on_close i w)
unfolding on_close
on_close-AllUnsent i w h =
    let k =
      All-modify IsUnsent i (set_ready closed) (λ s _. set_ready-IsUnsent closed s (cc)) w.sockets
        h in
    elim (Bool-cases w.closing) [ inl e ↦ rw e k | inr e ↦ rw e k ]

Step-AllUnsent : {w v : World} → Step w v → AllUnsent w → AllUnsent v
unfolding on_error shutdown on_timer on_open
Step-AllUnsent {w} (subscribing topic id l) h = subscribe-AllUnsent topic id l w h
Step-AllUnsent {w} (unsubscribing topic id l) h = unsubscribe-AllUnsent topic id l w h
Step-AllUnsent {w} (opening i s _ _) h =
    resubscribe-AllUnsent w.subscribed _ (
      All-modify IsUnsent i (set_ready opened) (λ s _. set_ready-IsUnsent opened s (cc)) w.sockets
        h)
Step-AllUnsent {w} (Step.closing i s _ _) h = on_close-AllUnsent i w h
Step-AllUnsent {w} (failing i _) h = close_socket-AllUnsent w.ws w h
Step-AllUnsent {w} (firing n _) h = connect-AllUnsent _ h
Step-AllUnsent {w} shutting_down h = close_socket-AllUnsent w.ws _ h

pub Reach-AllUnsent : {w : World} → Reach w → AllUnsent w
Reach-AllUnsent begin = unfold start in tt
Reach-AllUnsent (next r st) = Step-AllUnsent st (Reach-AllUnsent r)
