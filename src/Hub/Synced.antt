-- ===== src/Hub/Synced.antt =====
-- The gateway knows what the hub (client/data/ws-client.ts) has subscribed: over the current
-- socket, once it is open, the frames sent amount to the set of subscribed keys.
use mathlib.Core.Option
use finance_next.Base.{
  ℕ, String, ◌≡◌, refl, sym, ap, ◌∙◌, inl, inr, true, Option, none, some, List, [], ◌∷◌, ◌⊎◌, arith,
  if◌then◌else◌, Bool-cases, Option-cases, has, add, delete, add_all, add_all-nodup,
  add_all-present, All-has_self, lookup, keys, get_elem?, get_elem?-push_new, get_elem?-modify_self,
  get_elem?-modify_ne, modify, All, All-get_elem?, nat_key, nat_same_iff, ◌==◌, string_key,
}
use finance_next.Hub.State.{
  WsTopic, topic_name, tk, opened, Socket, World, HubClient, start, new_hub_client, initial_backoff,
}
use finance_next.Hub.Operations.{
  connect, set_ready, close_ready, close_socket, on_open, on_close, on_error, on_timer,
  ensure_connected, subscribe, unsubscribe, drop_listener, shutdown,
}
use finance_next.Hub.Registry.{
  topic_key, IsConsistent, subscribed-subscribe, client-on_open, client-drop_last,
  on_timer-SameRegistries,
}
use finance_next.Hub.Transport.{known, known_over, known-send, known-resubscribe}
use finance_next.Hub.Steps.{
  Step, subscribing, unsubscribing, opening, failing, firing, shutting_down, Reach, begin, next,
  Reach-IsConsistent,
}
use finance_next.Hub.Unsent.{IsUnsent, Reach-AllUnsent}

-- What the gateway knows over an open current socket is what is subscribed.
abbrev pub IsSynced : World → Type 0
IsSynced w = (k : List String) → known w ≡ some k → k ≡ w.subscribed

known_of_no_socket : (w : World) → w.ws ≡ none → known w ≡ none
unfolding known
known_of_no_socket w e = rw e

known-connect : (w : World) → w.ws ≡ none → known (connect w) ≡ none
unfolding connect known
known-connect w e = elim (Bool-cases w.closing) [
  | inl c ↦ rw c (rw e)
  | inr c ↦ rw c (rw get_elem?-push_new)
]

known-ensure_none : (o : Option ℕ) (w : World) → w.ws ≡ o → known (ensure_connected o w) ≡ known w
unfolding ensure_connected
known-ensure_none none w e = known-connect w e ∙ sym (known_of_no_socket w e)
known-ensure_none (some i) w e = refl

subscribed-ensure : (o : Option ℕ) (w : World) → (ensure_connected o w).subscribed ≡ w.subscribed
unfolding ensure_connected connect
subscribed-ensure none w = ground arith
subscribed-ensure (some i) w = refl

known-subscribe :
    (topic : WsTopic) (id : String) (l : ℕ) (w : World)
    → known (subscribe topic id l w) ≡ (
        if has (topic_key topic id) w.subscribed
        then known w
        else Option.map (add (topic_key topic id)) (known w))
unfolding subscribe known
known-subscribe topic id l w = elim (Bool-cases (has (topic_key topic id) w.subscribed)) [
  | inl e ↦ rw (subscribed-ensure, e) (known-ensure_none w.ws w refl)
  | inr e ↦
      rw (subscribed-ensure, e)
        (known-send _ _
          ∙ ap (Option.map (add (topic_key topic id))) (known-ensure_none w.ws w refl))
]

-- A key that `subscribe` adds is known, or becomes known by the frame.
subscribe-IsSynced :
    (topic : WsTopic) (id : String) (l : ℕ) (w : World)
    → IsSynced w
    → IsSynced (subscribe topic id l w)
subscribe-IsSynced topic id l w h k e =
    rw subscribed-subscribe (go (known w) refl (sym (known-subscribe topic id l w) ∙ e))
  where
    go :
        (o : Option (List String))
        → known w ≡ o
        → (if has (topic_key topic id) w.subscribed
            then o
            else Option.map (add (topic_key topic id)) o)
          ≡ some k
        → k ≡ add (topic_key topic id) w.subscribed
    go none p q = ground arith
    go (some known_keys) p q = let same = h known_keys p in ground arith

known-drop_last :
    (topic : WsTopic) (id : String) (w : World)
    → known (drop_listener topic id [] w) ≡ Option.map (delete (topic_key topic id)) (known w)
unfolding drop_listener known
known-drop_last topic id w = known-send _ _

subscribed-drop_last :
    (topic : WsTopic) (id : String) (w : World)
    → (drop_listener topic id [] w).subscribed ≡ delete (topic_key topic id) w.subscribed
subscribed-drop_last topic id w = ap (λ (c : HubClient). c.subscribed) (client-drop_last topic id w)

drop_listener-IsSynced :
    (topic : WsTopic) (id : String) (cur : List ℕ) (w : World)
    → IsSynced w
    → IsSynced (drop_listener topic id cur w)
drop_listener-IsSynced topic id (l ∷ cur) w h k e = unfold drop_listener known in h k e
drop_listener-IsSynced topic id [] w h k e =
    rw subscribed-drop_last (go (known w) refl (sym (known-drop_last topic id w) ∙ e))
  where
    go :
        (o : Option (List String))
        → known w ≡ o
        → Option.map (delete (topic_key topic id)) o ≡ some k
        → k ≡ delete (topic_key topic id) w.subscribed
    go none p q = cc
    go (some known_keys) p q = cc (h known_keys p)

unsubscribe-IsSynced :
    (topic : WsTopic) (id : String) (l : ℕ) (w : World)
    → IsSynced w
    → IsSynced (unsubscribe topic id l w)
unfolding unsubscribe
unsubscribe-IsSynced topic id l w h =
    elim (Option-cases (lookup (tk (topic_name topic) id) w.listeners)) [
      | inl e ↦ rw (e, unsubscribe) h
      | inr (cur, e) ↦ rw (e, unsubscribe) (drop_listener-IsSynced topic id _ w h)
    ]

known-close_socket : (o : Option ℕ) (w : World) → w.ws ≡ o → known (close_socket o w) ≡ none
unfolding known
known-close_socket none w e = rw e
known-close_socket (some i) w e =
    rw e (rw get_elem?-modify_self (closed_unknown (get_elem? w.sockets i)))
  where
    closed_unknown :
        (s : Option Socket)
        → known_over (Option.map (λ (t : Socket). record t { ready = close_ready t.ready }) s)
          ≡ none
    closed_unknown none = refl
    closed_unknown (some s) = ground arith

known-on_close : (i : ℕ) (w : World) → known (on_close i w) ≡ none
unfolding on_close known
known-on_close i w = ground arith

known-on_timer :
    (n : ℕ) (w : World) → (known (on_timer n w) ≡ known w) ⊎ (known (on_timer n w) ≡ none)
unfolding on_timer connect known
known-on_timer n w = elim (Bool-cases w.closing) [
  | inl c ↦ inl (rw c)
  | inr c ↦ inr (rw c (rw get_elem?-push_new))
]

module _ (i : ℕ) (w : World) where
  -- The state in which the loop of the "open" handler starts.
  abbrev just_opened : World
  just_opened = record w {
    client = record w.client { backoff = initial_backoff };
    sockets = modify i (set_ready opened) w.sockets;
  }

  known-just_opened_self :
      (s : Socket)
      → w.ws ≡ some i
      → get_elem? w.sockets i ≡ some s
      → s.sent ≡ []
      → known just_opened ≡ some []
  unfolding known
  known-just_opened_self s e at unsent = rw e (rw get_elem?-modify_self (rw at (rw unsent)))

  known-just_opened :
      (s : Socket)
      → get_elem? w.sockets i ≡ some s
      → s.sent ≡ []
      → (known just_opened ≡ some []) ⊎ (known just_opened ≡ known w)
  unfolding known
  known-just_opened s at unsent = elim (Option-cases w.ws) [
    | inl e ↦ inr (rw e)
    | inr (j, e) ↦ elim (Bool-cases (i == j)) [
      | inl same ↦
          inl (known-just_opened_self s (e ∙ ap some (sym ((nat_same_iff i j).0 same))) at unsent)
      | inr other ↦
          inr (rw e (ap known_over (get_elem?-modify_ne i j _ w.sockets (λ p. ground arith))))
    ]
  ]

  known-on_open :
      IsConsistent w.client
      → known (on_open i w) ≡ Option.map (add_all w.subscribed) (known just_opened)
  unfolding on_open
  known-on_open c =
      known-resubscribe w.subscribed just_opened c.metas
        (rw c.same_meta (All-has_self w.subscribed))

  -- The "open" handler of the current socket subscribes it to all that is subscribed.
  pub known-on_open_self :
      (s : Socket)
      → w.ws ≡ some i
      → get_elem? w.sockets i ≡ some s
      → s.sent ≡ []
      → IsConsistent w.client
      → known (on_open i w) ≡ some w.subscribed
  known-on_open_self s e at unsent c =
      known-on_open c
      ∙ ap (Option.map (add_all w.subscribed)) (known-just_opened_self s e at unsent)
      ∙ ap some (add_all-nodup w.subscribed [] c.nodup)

  on_open-IsSynced :
      (s : Socket)
      → get_elem? w.sockets i ≡ some s
      → s.sent ≡ []
      → IsConsistent w.client
      → IsSynced w
      → IsSynced (on_open i w)
  unfolding on_open
  on_open-IsSynced s at unsent c h k e =
      rw client-on_open (go (known just_opened) refl (sym (known-on_open c) ∙ e))
    where
      go :
          (o : Option (List String))
          → known just_opened ≡ o
          → Option.map (add_all w.subscribed) o ≡ some k
          → k ≡ w.subscribed
      go none p q = cc
      go (some o) p q = elim (known-just_opened s at unsent) [
        | inl first ↦
            sym (Option.some-injective _ _ q)
            ∙ ap (add_all w.subscribed) (Option.some-injective _ _ (sym p ∙ first))
            ∙ add_all-nodup w.subscribed [] c.nodup
        | inr same ↦
            sym (Option.some-injective _ _ q)
            ∙ ap (add_all w.subscribed) (h o (sym same ∙ p))
            ∙ add_all-present w.subscribed w.subscribed (All-has_self w.subscribed)
      ]

on_timer-IsSynced : (n : ℕ) (w : World) → IsSynced w → IsSynced (on_timer n w)
on_timer-IsSynced n w h k e = elim (known-on_timer n w) [
  | inl same ↦ h k (sym same ∙ e) ∙ sym (on_timer-SameRegistries n w).subscribed
  | inr gone ↦ cc
]

Step-IsSynced :
    {w v : World}
    → Step w v
    → IsConsistent w.client
    → All IsUnsent w.sockets
    → IsSynced w
    → IsSynced v
unfolding on_error shutdown
Step-IsSynced {w} (subscribing topic id l) c u h = subscribe-IsSynced topic id l w h
Step-IsSynced {w} (unsubscribing topic id l) c u h = unsubscribe-IsSynced topic id l w h
Step-IsSynced {w} (opening i s at new) c u h =
    on_open-IsSynced i w s at (All-get_elem? IsUnsent w.sockets i u at new) c h
Step-IsSynced {w} (Step.closing i s _ _) c u h = λ k e. cc (known-on_close i w)
Step-IsSynced {w} (failing i _) c u h = λ k e. cc (known-close_socket w.ws w refl)
Step-IsSynced {w} (firing n _) c u h = on_timer-IsSynced n w h
Step-IsSynced {w} shutting_down c u h = λ k e.
    cc (known-close_socket w.ws (record w { client = record w.client { closing = true } }) refl)

start-IsSynced : IsSynced start
unfolding start new_hub_client known
start-IsSynced k e = cc

pub Reach-IsSynced : {w : World} → Reach w → IsSynced w
Reach-IsSynced begin = start-IsSynced
Reach-IsSynced (next r st) =
    Step-IsSynced st (Reach-IsConsistent r) (Reach-AllUnsent r) (Reach-IsSynced r)

-- In every run, while the current socket is open, replaying the frames that were sent over it
-- gives the subscribed keys in their order, which are the keys that have a listener: the gateway
-- is subscribed to what somebody listens to, and to nothing else.
pub known-eq-subscribed :
    {w : World} (k : List String)
    → Reach w
    → known w ≡ some k
    → (k ≡ w.subscribed) × (k ≡ keys w.listeners)
known-eq-subscribed k r e =
    let same = Reach-IsSynced r k e in (same, same ∙ sym (Reach-IsConsistent r).same_keys)
