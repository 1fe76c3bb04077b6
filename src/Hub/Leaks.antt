-- ===== src/Hub/Leaks.antt =====
-- A second socket in the hub (client/data/ws-client.ts): `subscribe` connects at once while a
-- reconnect is pending, and the timer then connects again.
use mathlib.Core.Option
use mathlib.Core.Path.{subst}
use finance_next.Base.{
  ℕ, suc, ◌<◌, String, ◌≡◌, ◌≢◌, refl, sym, ◌∙◌, ap, Bool-cases, inl, inr, true, false, Option,
  none, some, List, [], ◌∷◌, arith, has, has-add, lookup, length, length-append, length-modify,
  get_elem?, get_elem?-modify_self, get_elem?-modify_ne, get_elem?-push_new, get_elem?-lt,
  get_elem?-append_left, string_key, same_refl,
}
use finance_next.Hub.State.{
  WsTopic, topic_name, tk, connecting, Socket, Meta, HubClient, World, Frame,
}
use finance_next.Hub.Operations.{
  send, send_to, transmit, connect, on_open, on_timer, ensure_connected, subscribe, shutdown,
  resubscribe, resend,
}
use finance_next.Hub.Registry.{
  client-on_open, client-resend, topic_key, subscribed-subscribe, on_timer-SameRegistries,
}
use finance_next.Hub.Transport.{known, known_over, socket_at}
use finance_next.Hub.Steps.{subscribing, opening, firing, Reach, next, Reach-IsConsistent}
use finance_next.Hub.Backoff.{timers-on_open, subscribe-SamePace}
use finance_next.Hub.Synced.{known-on_open_self}

resend_other :
    (m : Option Meta) (w : World) (i j : ℕ)
    → w.ws ≡ some i
    → i ≢ j
    → get_elem? (resend m w).sockets j ≡ get_elem? w.sockets j
unfolding resend send send_to
resend_other none w i j e n = refl
resend_other (some m) w i j e n = rw e (get_elem?-modify_ne i j _ w.sockets n)

resubscribe_other :
    (ks : List String) (w : World) (i j : ℕ)
    → w.ws ≡ some i
    → i ≢ j
    → get_elem? (resubscribe ks w).sockets j ≡ get_elem? w.sockets j
unfolding resubscribe
resubscribe_other [] w i j e n = refl
resubscribe_other (k ∷ ks) w i j e n =
    resubscribe_other ks _ i j (ap (λ c. c.ws) (client-resend _ w) ∙ e) n
    ∙ resend_other (lookup k w.subscribed_meta) w i j e n

-- The "open" event of the current socket leaves the others alone.
on_open_other :
    (w : World) (i j : ℕ)
    → w.ws ≡ some i
    → i ≢ j
    → get_elem? (on_open i w).sockets j ≡ get_elem? w.sockets j
unfolding on_open
on_open_other w i j e n =
    resubscribe_other w.subscribed _ i j e n ∙ get_elem?-modify_ne i j _ w.sockets n

abbrev fresh : Socket
fresh = record { ready = connecting; sent = [] }

record IsFreshlyConnected (i : ℕ) (w : World) : Type 0 where
  ws : w.ws ≡ some i
  socket : get_elem? w.sockets i ≡ some fresh
  count : length w.sockets ≡ suc i
  closing : w.closing ≡ false

connect-IsFreshlyConnected :
    (w : World) → w.closing ≡ false → IsFreshlyConnected (length w.sockets) (connect w)
unfolding connect
connect-IsFreshlyConnected w c = rw c (record {
  ws = refl;
  socket = get_elem?-push_new w.sockets fresh;
  count = length-append w.sockets (fresh ∷ []) ∙ omega arith;
  closing = refl;
})

send-IsFreshlyConnected :
    (f : Frame) (i : ℕ) (w : World) → IsFreshlyConnected i w → IsFreshlyConnected i (send f w)
unfolding send send_to transmit
send-IsFreshlyConnected f i w h = rw h.ws (record {
  ws = refl;
  socket = get_elem?-modify_self i (transmit f) w.sockets ∙ ap (Option.map (transmit f)) h.socket;
  count = length-modify i _ w.sockets ∙ h.count;
  closing = h.closing;
})

ensure-IsFreshlyConnected :
    (w : World)
    → w.ws ≡ none
    → w.closing ≡ false
    → IsFreshlyConnected (length w.sockets) (ensure_connected w.ws w)
unfolding ensure_connected
ensure-IsFreshlyConnected w e c = simp e (connect-IsFreshlyConnected w c)

subscribe-IsFreshlyConnected :
    (topic : WsTopic) (id : String) (l : ℕ) (w : World)
    → w.ws ≡ none
    → w.closing ≡ false
    → IsFreshlyConnected (length w.sockets) (subscribe topic id l w)
unfolding subscribe
subscribe-IsFreshlyConnected topic id l w e c =
    let v : World = ensure_connected w.ws w in
    let h : IsFreshlyConnected (length w.sockets) v = ensure-IsFreshlyConnected w e c in
    elim (Bool-cases (has (tk (topic_name topic) id) v.subscribed)) [
      | inl old ↦
          rw old (record { ws = h.ws; socket = h.socket; count = h.count; closing = h.closing })
      | inr new ↦ rw new (
          send-IsFreshlyConnected _ _ _
            (record { ws = h.ws; socket = h.socket; count = h.count; closing = h.closing }))
    ]

on_timer-IsFreshlyConnected :
    (n : ℕ) (w : World) → w.closing ≡ false → IsFreshlyConnected (length w.sockets) (on_timer n w)
unfolding on_timer
on_timer-IsFreshlyConnected n w c = connect-IsFreshlyConnected _ c

-- A timer leaves the sockets that are there as they are.
on_timer_other :
    (n j : ℕ) (w : World) {s : Socket}
    → get_elem? w.sockets j ≡ some s
    → get_elem? (on_timer n w).sockets j ≡ some s
unfolding on_timer connect
on_timer_other n j w h = elim (Bool-cases w.closing) [
  | inl c ↦ rw c h
  | inr c ↦ rw c (get_elem?-append_left w.sockets (fresh ∷ []) j h)
]

length-send_to :
    (o : Option ℕ) (f : Frame) (w : World) → length (send_to o f w).sockets ≡ length w.sockets
unfolding send_to
length-send_to none f w = refl
length-send_to (some i) f w = length-modify i _ w.sockets

length-resend : (m : Option Meta) (w : World) → length (resend m w).sockets ≡ length w.sockets
unfolding resend send
length-resend none w = refl
length-resend (some m) w = length-send_to w.ws _ w

length-resubscribe :
    (ks : List String) (w : World) → length (resubscribe ks w).sockets ≡ length w.sockets
unfolding resubscribe
length-resubscribe [] w = refl
length-resubscribe (k ∷ ks) w =
    length-resubscribe ks _ ∙ length-resend (lookup k w.subscribed_meta) w

length-on_open : (i : ℕ) (w : World) → length (on_open i w).sockets ≡ length w.sockets
unfolding on_open
length-on_open i w = length-resubscribe w.subscribed _ ∙ length-modify i _ w.sockets

-- The run: subscribe, the socket opens, the timer fires, the second socket opens.
pub doubled : WsTopic → String → ℕ → World → World
doubled topic id l w =
    on_open (suc (length w.sockets))
      (on_timer 0 (on_open (length w.sockets) (subscribe topic id l w)))

known_over-eq-some :
    (o : Option Socket) {k : List String} → known_over o ≡ some k → (s : Socket) × (o ≡ some s)
known_over-eq-some none h = cc
known_over-eq-some (some s) h = (s, refl)

-- Two keys of sockets that the gateway serves at the same time.
known_over_current :
    (i : ℕ) (w : World) {k : List String}
    → w.ws ≡ some i
    → known w ≡ some k
    → known_over (get_elem? w.sockets i) ≡ some k
unfolding known
known_over_current i w e h = ap (λ o. known_over (socket_at o w.sockets)) (sym e) ∙ h

ws-on_open : (i : ℕ) (w : World) → (on_open i w).ws ≡ w.ws
ws-on_open i w = ap (λ (c : HubClient). c.ws) (client-on_open i w)

subscribed-on_open : (i : ℕ) (w : World) → (on_open i w).subscribed ≡ w.subscribed
subscribed-on_open i w = ap (λ (c : HubClient). c.subscribed) (client-on_open i w)

closing-on_open : (i : ℕ) (w : World) → (on_open i w).closing ≡ w.closing
closing-on_open i w = ap (λ (c : HubClient). c.closing) (client-on_open i w)

module _ (topic : WsTopic) (id : String) (l : ℕ) (w : World) (r : Reach w) (alone : w.ws ≡ none)
    (running : w.closing ≡ false) (pending : 0 < length w.timers) where
  abbrev first : ℕ
  first = length w.sockets

  abbrev w1 : World
  w1 = subscribe topic id l w

  abbrev w2 : World
  w2 = on_open first w1

  abbrev w3 : World
  w3 = on_timer 0 w2

  fresh1 : IsFreshlyConnected first w1
  fresh1 = subscribe-IsFreshlyConnected topic id l w alone running

  reach1 : Reach w1
  reach1 = next r (subscribing topic id l)

  reach2 : Reach w2
  reach2 = next reach1 (opening first fresh fresh1.socket refl)

  known2 : known_over (get_elem? w2.sockets first) ≡ some w1.subscribed
  known2 =
      known_over_current first w2 (ws-on_open first w1 ∙ fresh1.ws)
        (known-on_open_self first w1 fresh fresh1.ws fresh1.socket refl (Reach-IsConsistent reach1))

  reach3 : Reach w3
  reach3 =
      next reach2
        (firing 0 (rw timers-on_open (rw (subscribe-SamePace topic id l w).timers pending)))

  fresh3 : IsFreshlyConnected (suc first) w3
  fresh3 =
      subst (λ n. IsFreshlyConnected n w3) (length-on_open first w1 ∙ fresh1.count)
        (on_timer-IsFreshlyConnected 0 w2 (closing-on_open first w1 ∙ fresh1.closing))

  subscribed3 : w3.subscribed ≡ w1.subscribed
  subscribed3 = (on_timer-SameRegistries 0 w2).subscribed ∙ subscribed-on_open first w1

  known3 : known_over (get_elem? w3.sockets first) ≡ some w1.subscribed
  known3 =
      let (s, at) = known_over-eq-some _ known2 in
      ap known_over (on_timer_other 0 first w2 at ∙ sym at) ∙ known2

  known4_first : known_over (get_elem? (on_open (suc first) w3).sockets first) ≡ some w1.subscribed
  known4_first = ap known_over (on_open_other w3 (suc first) first fresh3.ws (omega arith)) ∙ known3

  known4_second :
      known_over (get_elem? (on_open (suc first) w3).sockets (suc first)) ≡ some w3.subscribed
  known4_second = known_over_current (suc first) _ (ws-on_open (suc first) w3 ∙ fresh3.ws) (
      known-on_open_self (suc first) w3 fresh fresh3.ws fresh3.socket refl
        (Reach-IsConsistent reach3))

  subscribed4 : (on_open (suc first) w3).subscribed ≡ w1.subscribed
  subscribed4 = subscribed-on_open (suc first) w3 ∙ subscribed3

-- Whenever a component subscribes while a reconnect is pending, a run of the hub leads to two open
-- sockets over each of which the gateway is subscribed to every subscribed key, the new one
-- included.
pub double_subscription :
    (topic : WsTopic) (id : String) (l : ℕ) (w : World)
    → Reach w
    → w.ws ≡ none
    → w.closing ≡ false
    → 0 < length w.timers
    → Reach (doubled topic id l w)
      × (known_over (get_elem? (doubled topic id l w).sockets (length w.sockets))
          ≡ some (doubled topic id l w).subscribed)
      × (known_over (get_elem? (doubled topic id l w).sockets (suc (length w.sockets)))
          ≡ some (doubled topic id l w).subscribed)
      × (has (topic_key topic id) (doubled topic id l w).subscribed ≡ true)
unfolding doubled
double_subscription topic id l w r alone running pending =
    let s4 = subscribed4 topic id l w r alone running pending in
    (
      next (reach3 topic id l w r alone running pending)
          (opening _ fresh (fresh3 topic id l w r alone running pending).socket refl),
      known4_first topic id l w r alone running pending ∙ ap some (sym s4),
      known4_second topic id l w r alone running pending
          ∙ ap some (subscribed3 topic id l w r alone running pending ∙ sym s4),
      rw (s4, subscribed-subscribe)
          (has-add (topic_key topic id) (topic_key topic id) w.subscribed ∙ rw same_refl),
    )

-- When a timer has made another socket current, `shutdown` closes that one alone: a socket that was
-- there before stays as it is, and one that was open stays open.
shutdown_leaves_open :
    (w : World) (i n : ℕ) (s : Socket)
    → w.closing ≡ false
    → get_elem? w.sockets i ≡ some s
    → get_elem? (shutdown (on_timer n w)).sockets i ≡ some s
unfolding shutdown
shutdown_leaves_open w i n s c at =
    let h = on_timer-IsFreshlyConnected n w c in
    rw h.ws (
      get_elem?-modify_ne (length w.sockets) i _ (on_timer n w).sockets
        (omega (arith, get_elem?-lt w.sockets i at))
      ∙ on_timer_other n i w at)
