-- ===== src/Hub/Registry.antt =====
-- What the operations of the hub (client/data/ws-client.ts) do to its three registries, the map of
-- listeners, the set of subscribed keys and the map of their topics, and the invariant that ties
-- these together.
use finance_next.Base.{
  ℕ, String, ◌≡◌, refl, sym, ap, ◌∙◌, ◌≢◌, inl, inr, true, Option, none, some, List, [], ◌∷◌, arith,
  if◌then◌else◌, Bool-cases, Option-cases, has, add, delete, IsNodup, IsNodup-add, add-ne-nil,
  IsNodup-delete, lookup, insert, erase, keys, keys-insert, keys-erase, has_of_lookup, All,
  All-insert, All-erase, All-lookup, nat_key, string_key,
}
use finance_next.Hub.State.{
  WsTopic, topic_name, tk, Meta, Frame, HubClient, World, new_hub_client, meta_key, initial_backoff,
}
use finance_next.Hub.Operations.{
  send, send_to, connect, resend, resubscribe, on_open, on_close, on_error, on_timer,
  ensure_connected, or_empty, subscribe, drop_listener, unsubscribe, shutdown,
}

abbrev pub IsListenerSet : List ℕ → Type 0
IsListenerSet s = (s ≢ []) × IsNodup s

-- A key is subscribed exactly if it has a listener, and its topic and id are kept under it.
pub record IsConsistent (c : HubClient) : Type 0 where
  pub same_keys : keys c.listeners ≡ c.subscribed
  pub same_meta : keys c.subscribed_meta ≡ c.subscribed
  pub nodup : IsNodup c.subscribed
  pub sets : All (λ b. IsListenerSet b.1) c.listeners
  pub metas : All (λ b. b.0 ≡ meta_key b.1) c.subscribed_meta

client-send_to : (o : Option ℕ) (f : Frame) (w : World) → (send_to o f w).client ≡ w.client
unfolding send_to
client-send_to none f w = refl
client-send_to (some i) f w = refl

pub client-send : (f : Frame) (w : World) → (send f w).client ≡ w.client
unfolding send
client-send f w = client-send_to w.ws f w

pub client-resend : (m : Option Meta) (w : World) → (resend m w).client ≡ w.client
unfolding resend
client-resend none w = refl
client-resend (some m) w = client-send _ w

pub client-resubscribe : (ks : List String) (w : World) → (resubscribe ks w).client ≡ w.client
unfolding resubscribe
client-resubscribe [] w = refl
client-resubscribe (key ∷ ks) w =
    client-resubscribe ks (resend (lookup key w.subscribed_meta) w)
    ∙ client-resend (lookup key w.subscribed_meta) w

abbrev pub topic_key : WsTopic → String → String
topic_key topic id = tk (topic_name topic) id

module _ (topic : WsTopic) (id : String) (l : ℕ) (w : World) where
  abbrev key : String
  key = topic_key topic id

  pub listeners-subscribe :
      (subscribe topic id l w).listeners
      ≡ insert key (add l (or_empty (lookup key w.listeners))) w.listeners
  unfolding subscribe ensure_connected connect send send_to
  listeners-subscribe = ground arith

  pub subscribed-subscribe : (subscribe topic id l w).subscribed ≡ add key w.subscribed
  unfolding subscribe ensure_connected connect send send_to
  subscribed-subscribe = ground arith

  pub meta-subscribe : (subscribe topic id l w).subscribed_meta ≡ (
      if has key w.subscribed
      then w.subscribed_meta
      else insert key (record { topic = topic; id = id }) w.subscribed_meta)
  unfolding subscribe ensure_connected connect send send_to
  meta-subscribe = ground arith

IsListenerSet-add : (l : ℕ) (s : List ℕ) → IsNodup s → IsListenerSet (add l s)
IsListenerSet-add l s h = (add-ne-nil l s, IsNodup-add l s h)

pub or_empty-IsNodup :
    (key : String) (m : List (String × List ℕ))
    → All (λ b. IsListenerSet b.1) m
    → IsNodup (or_empty (lookup key m))
or_empty-IsNodup key m h = elim (Option-cases (lookup key m)) [
  | inl e ↦ rw e tt
  | inr (s, e) ↦ rw e (All-lookup (λ _ s. IsListenerSet s) key m h e).1
]

-- Adding to the three registries what `subscribe` adds.
pub subscribe-IsConsistent :
    (topic : WsTopic) (id : String) (l : ℕ) (w : World)
    → IsConsistent w.client
    → IsConsistent (subscribe topic id l w).client
subscribe-IsConsistent topic id l w h =
    let key = topic_key topic id in
    record {
      same_keys =
          ap keys (listeners-subscribe topic id l w)
          ∙ keys-insert key _ w.listeners
          ∙ ap (add key) h.same_keys
          ∙ sym (subscribed-subscribe topic id l w);
      same_meta =
          rw (meta-subscribe, subscribed-subscribe)
            (ground (
              arith,
              keys-insert key (record { topic = topic; id = id }) w.subscribed_meta,
              h.same_meta,
            ));
      nodup = rw subscribed-subscribe (IsNodup-add key w.subscribed h.nodup);
      sets = rw listeners-subscribe (
          All-insert (λ _ s. IsListenerSet s) key _ w.listeners h.sets
            (IsListenerSet-add l _ (or_empty-IsNodup key w.listeners h.sets)));
      metas = rw meta-subscribe (elim (Bool-cases (has key w.subscribed)) [
        | inl old ↦ rw old h.metas
        | inr new ↦ rw new (All-insert (λ k m. k ≡ meta_key m) key _ w.subscribed_meta h.metas refl)
      ]);
    }

pub client-drop_last :
    (topic : WsTopic) (id : String) (w : World)
    → (drop_listener topic id [] w).client ≡ record w.client {
      listeners = erase (topic_key topic id) w.listeners;
      subscribed = delete (topic_key topic id) w.subscribed;
      subscribed_meta = erase (topic_key topic id) w.subscribed_meta;
    }
unfolding drop_listener
client-drop_last topic id w = client-send _ _

IsConsistent-erase :
    (key : String) (c : HubClient)
    → IsConsistent c
    → IsConsistent (record c {
      listeners = erase key c.listeners;
      subscribed = delete key c.subscribed;
      subscribed_meta = erase key c.subscribed_meta;
    })
IsConsistent-erase key c h = record {
  same_keys = keys-erase key c.listeners ∙ ap (delete key) h.same_keys;
  same_meta = keys-erase key c.subscribed_meta ∙ ap (delete key) h.same_meta;
  nodup = IsNodup-delete key c.subscribed h.nodup;
  sets = All-erase (λ _ s. IsListenerSet s) key c.listeners h.sets;
  metas = All-erase (λ k m. k ≡ meta_key m) key c.subscribed_meta h.metas;
}

drop_listener-IsConsistent :
    (topic : WsTopic) (id : String) (cur : List ℕ) (w : World)
    → IsNodup cur
    → has (topic_key topic id) (keys w.listeners) ≡ true
    → IsConsistent w.client
    → IsConsistent (drop_listener topic id cur w).client
unfolding drop_listener
drop_listener-IsConsistent topic id [] w n present h =
    rw client-drop_last (IsConsistent-erase (topic_key topic id) w.client h)
drop_listener-IsConsistent topic id (l ∷ cur) w n present h = record {
  same_keys = keys-insert (topic_key topic id) (l ∷ cur) w.listeners ∙ rw present h.same_keys;
  same_meta = h.same_meta;
  nodup = h.nodup;
  sets =
      All-insert (λ _ s. IsListenerSet s) (topic_key topic id) (l ∷ cur) w.listeners h.sets
        ((cc), n);
  metas = h.metas;
}

pub unsubscribe-IsConsistent :
    (topic : WsTopic) (id : String) (l : ℕ) (w : World)
    → IsConsistent w.client
    → IsConsistent (unsubscribe topic id l w).client
unfolding unsubscribe
unsubscribe-IsConsistent topic id l w h =
    elim (Option-cases (lookup (topic_key topic id) w.listeners)) [
      | inl e ↦ rw (e, unsubscribe) h
      | inr (cur, e) ↦
          rw (e, unsubscribe)
            (drop_listener-IsConsistent topic id (delete l cur) w
              (IsNodup-delete l cur
                (All-lookup (λ _ s. IsListenerSet s) (topic_key topic id) w.listeners h.sets e).1)
              (has_of_lookup (topic_key topic id) w.listeners e) h)
    ]

pub IsConsistent-start : IsConsistent new_hub_client
unfolding new_hub_client
IsConsistent-start = record {
  same_keys = refl;
  same_meta = refl;
  nodup = tt;
  sets = tt;
  metas = tt;
}

-- The other operations leave the three registries alone.
pub record SameRegistries (c d : HubClient) : Type 0 where
  pub listeners : c.listeners ≡ d.listeners
  pub subscribed : c.subscribed ≡ d.subscribed
  pub meta : c.subscribed_meta ≡ d.subscribed_meta

pub connect-SameRegistries : (w : World) → SameRegistries (connect w).client w.client
unfolding connect
connect-SameRegistries w = ground arith

pub on_timer-SameRegistries : (n : ℕ) (w : World) → SameRegistries (on_timer n w).client w.client
unfolding on_timer
on_timer-SameRegistries n w = ground arith

pub on_close-SameRegistries : (i : ℕ) (w : World) → SameRegistries (on_close i w).client w.client
unfolding on_close
on_close-SameRegistries i w = ground arith

pub on_error-SameRegistries : (w : World) → SameRegistries (on_error w).client w.client
unfolding on_error
on_error-SameRegistries w = ground arith

pub shutdown-SameRegistries : (w : World) → SameRegistries (shutdown w).client w.client
unfolding shutdown
shutdown-SameRegistries w = ground arith

pub client-on_open :
    (i : ℕ) (w : World) → (on_open i w).client ≡ record w.client { backoff = initial_backoff }
unfolding on_open
client-on_open i w = client-resubscribe w.subscribed _

pub on_open-SameRegistries : (i : ℕ) (w : World) → SameRegistries (on_open i w).client w.client
on_open-SameRegistries i w =
    rw client-on_open (record { listeners = refl; subscribed = refl; meta = refl })

pub SameRegistries-IsConsistent :
    {c d : HubClient} → SameRegistries c d → IsConsistent d → IsConsistent c
SameRegistries-IsConsistent s h = record {
  same_keys = rw (s.listeners, s.subscribed) h.same_keys;
  same_meta = rw (s.meta, s.subscribed) h.same_meta;
  nodup = rw s.subscribed h.nodup;
  sets = rw s.listeners h.sets;
  metas = rw s.meta h.metas;
}
