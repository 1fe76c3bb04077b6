-- ===== src/Hub/Delivery.antt =====
-- Which listeners an event of the hub (client/data/ws-client.ts) reaches.
use Prim.Native.String
use Prim.Native.Char.{code}
use text.Mathlib.TextLemmas.{cons-append, append_cancel_left}
use text.Mathlib.TextEquality.{eq_iff}
use finance_next.Base.{
  ℕ, String, ◌≡◌, ◌≢◌, refl, sym, ap, ◌∙◌, ◌⊎◌, inl, inr, true, false, Option, none, some, List, [],
  ◌∷◌, arith, if◌then◌else◌, Bool-cases, Option-cases, has, has-delete_self, add, delete, IsNodup,
  lookup, lookup-insert, lookup-erase, keys, ◌==◌, same_refl, eq_of_same, string_key, nat_key,
  All-lookup, delete-add_fresh, has_of_lookup, has_of_lookup-none, erase-insert_new, insert-insert,
  insert-lookup_self,
}
use finance_next.Hub.State.{
  WsTopic, account, backtest, strategy, optimization, topic_name, tk, HubClient, World,
}
use finance_next.Hub.Operations.{or_empty, subscribe, drop_listener, unsubscribe}
use finance_next.Hub.Messages.{WsEvent, truthy, route_key, calls, deliver}
use finance_next.Hub.Registry.{
  topic_key, IsConsistent, IsListenerSet, listeners-subscribe, client-drop_last, or_empty-IsNodup,
  SameRegistries, subscribed-subscribe, meta-subscribe,
}

first_code : String → ℕ
first_code String.[] = 0
first_code (String.◌∷◌ c s) = code c

first_code-append : (s t : String) → s ≢ "" → first_code (String.◌++◌ s t) ≡ first_code s
unfolding first_code
first_code-append String.[] t h = absurd (h refl)
first_code-append (String.◌∷◌ c s) t h = rw cons-append

topic_of : ℕ → WsTopic
topic_of c =
    if c == b'a'
    then account
    else if c == b'b'
    then backtest
    else if c == b's'
    then strategy
    else optimization

topic_name-ne-nil : (t : WsTopic) → topic_name t ≢ ""
unfolding topic_name
topic_name-ne-nil account = ground (arith, eq_iff "account" "")
topic_name-ne-nil backtest = ground (arith, eq_iff "backtest" "")
topic_name-ne-nil strategy = ground (arith, eq_iff "strategy" "")
topic_name-ne-nil optimization = ground (arith, eq_iff "optimization" "")

topic_of-name : (t : WsTopic) → topic_of (first_code (topic_name t)) ≡ t
unfolding topic_of topic_name first_code
topic_of-name account = refl
topic_of-name backtest = refl
topic_of-name strategy = refl
topic_of-name optimization = refl

topic_of-tk : (t : WsTopic) (id : String) → topic_of (first_code (tk (topic_name t) id)) ≡ t
unfolding tk
topic_of-tk t id =
    ap topic_of (first_code-append (topic_name t) _ (topic_name-ne-nil t)) ∙ topic_of-name t

tk_cancel : (t i j : String) → tk t i ≡ tk t j → i ≡ j
unfolding tk
tk_cancel t i j e = append_cancel_left ":" i j (append_cancel_left t _ _ e)

-- Keys tell topics and ids apart, whatever the id holds.
pub tk-injective :
    (t u : WsTopic) (i j : String) → tk (topic_name t) i ≡ tk (topic_name u) j → (t ≡ u) × (i ≡ j)
tk-injective t u i j e =
    let same : t ≡ u =
      sym (topic_of-tk t i) ∙ ap (λ k. topic_of (first_code k)) e ∙ topic_of-tk u j in
    (same, tk_cancel (topic_name t) i j (e ∙ ap (λ v. tk (topic_name v) j) (sym same)))

key_ne :
    (t u : WsTopic) (i j : String) → (t ≢ u) ⊎ (i ≢ j) → (topic_key t i == topic_key u j) ≡ false
key_ne t u i j h = elim (Bool-cases (topic_key t i == topic_key u j)) [
  | inl same ↦
      let (a, b) = tk-injective t u i j (eq_of_same _ _ same) in
      absurd (elim h [ inl n ↦ n a | inr n ↦ n b ])
  | inr other ↦ other
]

truthy-some : (s : String) → s ≢ "" → truthy (some s) ≡ some s
truthy-some s h = ground (arith, eq_iff s "")

-- What the two methods do to the listeners of a key.
module _ (t : WsTopic) (i : String) (l : ℕ) (w : World) where
  listeners_self :
      or_empty (lookup (topic_key t i) (subscribe t i l w).listeners)
      ≡ add l (or_empty (lookup (topic_key t i) w.listeners))
  listeners_self = rw listeners-subscribe (rw lookup-insert (rw same_refl))

  listeners_other :
      (key : String)
      → (topic_key t i == key) ≡ false
      → lookup key (subscribe t i l w).listeners ≡ lookup key w.listeners
  listeners_other key n = rw listeners-subscribe (rw lookup-insert (rw n))

  drop_listener_other :
      (cur : List ℕ) (key : String)
      → IsConsistent w.client
      → (topic_key t i == key) ≡ false
      → lookup key (drop_listener t i cur w).listeners ≡ lookup key w.listeners
  drop_listener_other [] key c n =
      ap (λ (d : HubClient). lookup key d.listeners) (client-drop_last t i w)
      ∙ lookup-erase (topic_key t i) key w.listeners (rw c.same_keys c.nodup)
      ∙ rw n
  drop_listener_other (x ∷ cur) key c n =
      unfold drop_listener in (lookup-insert (topic_key t i) key (x ∷ cur) w.listeners ∙ rw n)

  drop_listener_self :
      (cur : List ℕ)
      → IsConsistent w.client
      → or_empty (lookup (topic_key t i) (drop_listener t i cur w).listeners) ≡ cur
  drop_listener_self [] c =
      ap (λ (d : HubClient). or_empty (lookup (topic_key t i) d.listeners)) (client-drop_last t i w)
      ∙ ap or_empty
          (lookup-erase (topic_key t i) (topic_key t i) w.listeners (rw c.same_keys c.nodup))
      ∙ rw same_refl
  drop_listener_self (x ∷ cur) c =
      unfold drop_listener in
      (ap or_empty (lookup-insert (topic_key t i) (topic_key t i) (x ∷ cur) w.listeners)
        ∙ rw same_refl)

  unsubscribed_self :
      IsConsistent w.client
      → or_empty (lookup (topic_key t i) (unsubscribe t i l w).listeners)
        ≡ delete l (or_empty (lookup (topic_key t i) w.listeners))
  unfolding unsubscribe
  unsubscribed_self c = elim (Option-cases (lookup (topic_key t i) w.listeners)) [
    | inl e ↦ rw (e, unsubscribe) (rw e)
    | inr (cur, e) ↦ rw (e, unsubscribe) (drop_listener_self (delete l cur) c)
  ]

  unsubscribed_other :
      (key : String)
      → IsConsistent w.client
      → (topic_key t i == key) ≡ false
      → lookup key (unsubscribe t i l w).listeners ≡ lookup key w.listeners
  unfolding unsubscribe
  unsubscribed_other key c n = elim (Option-cases (lookup (topic_key t i) w.listeners)) [
    | inl e ↦ rw (e, unsubscribe)
    | inr (cur, e) ↦ rw (e, unsubscribe) (drop_listener_other (delete l cur) key c n)
  ]

module _ {P : Type 0} where
  -- An event for the listeners of a topic and an id: one that names both, or an account's event in
  -- the older form, which gives the account alone.
  pub data IsFor (ev : WsEvent P) (t : WsTopic) (i : String) : Type 0 where
    tagged : ev.topic ≡ some (topic_name t) → ev.id ≡ some i → i ≢ "" → IsFor ev t i
    legacy : ev.topic ≡ none → ev.account_id ≡ some i → i ≢ "" → t ≡ account → IsFor ev t i

  route_key_of_IsFor :
      (ev : WsEvent P) (t : WsTopic) (i : String)
      → IsFor ev t i
      → route_key ev ≡ some (topic_key t i)
  unfolding route_key
  route_key_of_IsFor ev t i (tagged a b n) =
      rw (a, b) (rw (truthy-some i n) (rw (truthy-some (topic_name t) (topic_name-ne-nil t))))
  route_key_of_IsFor ev t i (legacy a b n e) = rw (a, b) (rw (truthy-some i n) (rw e))

  deliver_of_IsFor :
      (c : HubClient) (ev : WsEvent P) (t : WsTopic) (i : String)
      → IsFor ev t i
      → deliver c ev ≡ calls (or_empty (lookup (topic_key t i) c.listeners)) ev
  unfolding deliver
  deliver_of_IsFor c ev t i h = ground (arith, route_key_of_IsFor ev t i h)

  -- The listeners that are called, in order.
  abbrev pub called : List (ℕ × WsEvent P) → List ℕ
  called [] = []
  called ((fn, ev) ∷ cs) = fn ∷ called cs

  called-calls : (set : List ℕ) (ev : WsEvent P) → called (calls set ev) ≡ set
  called-calls [] ev = refl
  called-calls (l ∷ set) ev = ap (λ s. l ∷ s) (called-calls set ev)

  called-deliver :
      (c : HubClient) (ev : WsEvent P) (t : WsTopic) (i : String)
      → IsFor ev t i
      → called (deliver c ev) ≡ or_empty (lookup (topic_key t i) c.listeners)
  called-deliver c ev t i h = ap called (deliver_of_IsFor c ev t i h) ∙ called-calls _ ev

  -- After `subscribe`, an event for its topic and id is handed to the new listener, behind those
  -- that were there; an event for another topic or id is delivered as before.
  deliver-subscribe :
      (t : WsTopic) (i : String) (l : ℕ) (w : World) (ev other : WsEvent P) (u : WsTopic)
      (j : String)
      → IsFor ev t i
      → IsFor other u j
      → (t ≢ u) ⊎ (i ≢ j)
      → (called (deliver (subscribe t i l w).client ev) ≡ add l (called (deliver w.client ev)))
        × (deliver (subscribe t i l w).client other ≡ deliver w.client other)
  deliver-subscribe t i l w ev other u j h k n = (
    called-deliver _ ev t i h
        ∙ listeners_self t i l w
        ∙ ap (add l) (sym (called-deliver w.client ev t i h)),
    deliver_of_IsFor _ other u j k
        ∙ ap (λ s. calls (or_empty s) other)
            (listeners_other t i l w (topic_key u j) (key_ne t u i j n))
        ∙ sym (deliver_of_IsFor w.client other u j k),
  )

  called-IsNodup :
      (c : HubClient) (ev : WsEvent P) (t : WsTopic) (i : String)
      → IsConsistent c
      → IsFor ev t i
      → IsNodup (called (deliver c ev))
  called-IsNodup c ev t i v h =
      rw (called-deliver c ev t i h) (or_empty-IsNodup (topic_key t i) c.listeners v.sets)

  -- After the closure that `subscribe` returned was called, an event for its topic and id is handed
  -- to the other listeners of these, in their order, and not to that one; an event for another
  -- topic or id is delivered as before.
  pub deliver-unsubscribe :
      (t : WsTopic) (i : String) (l : ℕ) (w : World) (ev other : WsEvent P) (u : WsTopic)
      (j : String)
      → IsConsistent w.client
      → IsFor ev t i
      → IsFor other u j
      → (t ≢ u) ⊎ (i ≢ j)
      → (called (deliver (unsubscribe t i l w).client ev) ≡ delete l (called (deliver w.client ev)))
        × (has l (called (deliver (unsubscribe t i l w).client ev)) ≡ false)
        × (deliver (unsubscribe t i l w).client other ≡ deliver w.client other)
  deliver-unsubscribe t i l w ev other u j c h k n =
      let rest : called (deliver (unsubscribe t i l w).client ev)
          ≡ delete l (called (deliver w.client ev)) =
        called-deliver _ ev t i h
        ∙ unsubscribed_self t i l w c
        ∙ ap (delete l) (sym (called-deliver w.client ev t i h)) in
      (
        rest,
        rw rest (has-delete_self l _ (called-IsNodup w.client ev t i c h)),
        deliver_of_IsFor _ other u j k
            ∙ ap (λ s. calls (or_empty s) other)
                (unsubscribed_other t i l w (topic_key u j) c (key_ne t u i j n))
            ∙ sym (deliver_of_IsFor w.client other u j k),
      )

module _ (t : WsTopic) (i : String) (l : ℕ) (w : World) (c : IsConsistent w.client) where
  abbrev key : String
  key = topic_key t i

  abbrev v : World
  v = subscribe t i l w

  -- The closure finds the set that `subscribe` left, without the listener.
  unsubscribe-eq-drop_listener :
      (old : List ℕ)
      → or_empty (lookup key w.listeners) ≡ old
      → has l old ≡ false
      → unsubscribe t i l v ≡ drop_listener t i old v
  unfolding unsubscribe
  unsubscribe-eq-drop_listener old e new =
      let found : lookup key v.listeners ≡ some (add l old) =
        rw listeners-subscribe (rw lookup-insert (rw same_refl (ap (λ s. some (add l s)) e))) in
      rw (found, unsubscribe) (ap (λ s. drop_listener t i s v) (delete-add_fresh l old new))

  restored_first :
      lookup key w.listeners ≡ none → SameRegistries (drop_listener t i [] v).client w.client
  restored_first e =
      let absent : has key (keys w.listeners) ≡ false = has_of_lookup-none key w.listeners e in
      let absent_key : has key w.subscribed ≡ false = rw c.same_keys at absent in
      let absent_meta : has key (keys w.subscribed_meta) ≡ false = rw c.same_meta absent_key in
      rw client-drop_last (record {
        listeners = rw listeners-subscribe (erase-insert_new key _ w.listeners absent);
        subscribed = rw subscribed-subscribe (delete-add_fresh key w.subscribed absent_key);
        meta =
            rw meta-subscribe
              (rw absent_key (erase-insert_new key _ w.subscribed_meta absent_meta));
      })

  restored_more :
      (x : ℕ) (cur : List ℕ)
      → lookup key w.listeners ≡ some (x ∷ cur)
      → SameRegistries (drop_listener t i (x ∷ cur) v).client w.client
  unfolding drop_listener
  restored_more x cur e =
      let there : has key (keys w.listeners) ≡ true = has_of_lookup key w.listeners e in
      let there_key : has key w.subscribed ≡ true = rw c.same_keys at there in
      record {
        listeners = rw listeners-subscribe (
            insert-insert key _ (x ∷ cur) w.listeners
            ∙ insert-lookup_self key (x ∷ cur) w.listeners e);
        subscribed = rw subscribed-subscribe (rw there_key);
        meta = rw meta-subscribe (rw there_key);
      }

  restored :
      (o : Option (List ℕ))
      → lookup key w.listeners ≡ o
      → has l (or_empty o) ≡ false
      → SameRegistries (unsubscribe t i l v).client w.client
  restored none e new = rw (unsubscribe-eq-drop_listener [] (rw e) new) (restored_first e)
  restored (some []) e new =
      absurd ((All-lookup (λ _ s. IsListenerSet s) key w.listeners c.sets e).0 refl)
  restored (some (x ∷ cur)) e new =
      rw (unsubscribe-eq-drop_listener (x ∷ cur) (rw e) new) (restored_more x cur e)

-- A listener that subscribes and takes its subscription back leaves the three registries as they
-- were, whether or not there were other listeners of the same topic and id.
pub unsubscribe-subscribe :
    (t : WsTopic) (i : String) (l : ℕ) (w : World)
    → IsConsistent w.client
    → has l (or_empty (lookup (topic_key t i) w.listeners)) ≡ false
    → SameRegistries (unsubscribe t i l (subscribe t i l w)).client w.client
unsubscribe-subscribe t i l w c new = restored t i l w c _ refl new
