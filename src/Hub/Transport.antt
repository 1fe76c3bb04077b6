-- ===== src/Hub/Transport.antt =====
-- What the gateway knows over one connection of the hub (client/data/ws-client.ts): the frames
-- that were sent, replayed. gateway/internal/ws/hub.go keeps the topics of a session as a set.
use mathlib.Core.Option
use mathlib.Core.List.{foldl, foldl-append}
use finance_next.Base.{
  ℕ, String, ◌≡◌, refl, ap, ◌∙◌, true, false, Option, none, some, List, [], ◌∷◌, arith, has, add,
  delete, add_all, lookup_of_has, All-lookup, keys, get_elem?, get_elem?-modify_self, All, nat_key,
  string_key,
}
use finance_next.Hub.State.{
  topic_name, tk, Frame, subscribe_frame, unsubscribe_frame, Socket, Meta, World, is_open, meta_key,
}
use finance_next.Hub.Operations.{transmit, send, send_to, resend, resubscribe}
use finance_next.Hub.Registry.{client-resend, client-send}

abbrev pub after : List String → Frame → List String
after known (subscribe_frame topic id) = add (tk (topic_name topic) id) known
after known (unsubscribe_frame topic id) = delete (tk (topic_name topic) id) known

abbrev pub replay : List Frame → List String
replay = foldl after []

abbrev pub known_over : Option Socket → Option (List String)
known_over none = none
known_over (some s) = elim (is_open s.ready) [ true ↦ some (replay s.sent) | false ↦ none ]

abbrev pub socket_at : Option ℕ → List Socket → Option Socket
socket_at none l = none
socket_at (some i) l = get_elem? l i

-- The keys that the gateway has for the current socket, if that is open.
unfoldable pub known : World → Option (List String)
known w = known_over (socket_at w.ws w.sockets)

known_over-transmit :
    (f : Frame) (o : Option Socket)
    → known_over (Option.map (transmit f) o) ≡ Option.map (λ k. after k f) (known_over o)
unfolding transmit
known_over-transmit f none = refl
known_over-transmit f (some s) = ground (arith, foldl-append after [] s.sent (f ∷ []))

socket_at-send_to :
    (o : Option ℕ) (f : Frame) (w : World)
    → socket_at o (send_to o f w).sockets ≡ Option.map (transmit f) (socket_at o w.sockets)
unfolding send_to
socket_at-send_to none f w = refl
socket_at-send_to (some i) f w = get_elem?-modify_self i (transmit f) w.sockets

socket_at-send :
    (f : Frame) (w : World)
    → socket_at w.ws (send f w).sockets ≡ Option.map (transmit f) (socket_at w.ws w.sockets)
unfolding send
socket_at-send f w = socket_at-send_to w.ws f w

pub known-send : (f : Frame) (w : World) → known (send f w) ≡ Option.map (λ k. after k f) (known w)
unfolding known
known-send f w =
    ap (λ c. known_over (socket_at c.ws (send f w).sockets)) (client-send f w)
    ∙ ap known_over (socket_at-send f w)
    ∙ known_over-transmit f (socket_at w.ws w.sockets)

known-resend :
    (key : String) (m : Meta) (w : World)
    → key ≡ meta_key m
    → known (resend (some m) w) ≡ Option.map (add key) (known w)
unfolding resend
known-resend key m w e = rw e (known-send (subscribe_frame m.topic m.id) w)

map-map-add_all :
    (key : String) (ks : List String) (o : Option (List String))
    → Option.map (add_all ks) (Option.map (add key) o) ≡ Option.map (add_all (key ∷ ks)) o
map-map-add_all key ks none = refl
map-map-add_all key ks (some k) = refl

map-add_all_nil : (o : Option (List String)) → o ≡ Option.map (add_all []) o
map-add_all_nil none = refl
map-add_all_nil (some k) = refl

-- A frame is sent for each key, since each key has its topic.
pub known-resubscribe :
    (ks : List String) (w : World)
    → All (λ b. b.0 ≡ meta_key b.1) w.subscribed_meta
    → All (λ k. has k (keys w.subscribed_meta) ≡ true) ks
    → known (resubscribe ks w) ≡ Option.map (add_all ks) (known w)
unfolding resubscribe
known-resubscribe [] w h p = map-add_all_nil (known w)
known-resubscribe (key ∷ ks) w h (p, q) =
    let (m, e) = lookup_of_has key w.subscribed_meta p in
    let same : key ≡ meta_key m = All-lookup (λ k m. k ≡ meta_key m) key w.subscribed_meta h e in
    rw e (
      known-resubscribe ks (resend (some m) w) (rw client-resend h) (rw client-resend q)
      ∙ ap (Option.map (add_all ks)) (known-resend key m w same)
      ∙ map-map-add_all key ks (known w))
