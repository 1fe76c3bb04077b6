-- ===== src/Hub/Backoff.antt =====
-- The delays of the hub's reconnects (client/data/ws-client.ts).
use finance_next.Base.{
  ℕ, zero, suc, ◌*◌, ◌^◌, ◌≤◌, min, String, ◌≡◌, refl, ◌∙◌, Bool-cases, inl, inr, Option, none,
  some, List, [], ◌∷◌, arith, Option-cases, lookup, All, All-push, string_key,
}
use finance_next.Hub.State.{
  WsTopic, topic_name, tk, Meta, World, Frame, start, new_hub_client, initial_backoff, max_backoff,
}
use finance_next.Hub.Operations.{
  send, send_to, connect, close_socket, on_open, on_close, on_error, on_timer, drop_at,
  ensure_connected, subscribe, unsubscribe, drop_listener, shutdown, resubscribe, resend,
}
use finance_next.Hub.Registry.{client-on_open}
use finance_next.Hub.Steps.{
  Step, subscribing, unsubscribing, opening, failing, firing, shutting_down, Reach, begin, next,
}

abbrev pub InBounds : ℕ → Type 0
InBounds t = (initial_backoff ≤ t) × (t ≤ max_backoff)

pub record IsPaced (w : World) : Type 0 where
  pub backoff : InBounds w.backoff
  pub timers : All InBounds w.timers

pub record SamePace (v w : World) : Type 0 where
  pub backoff : v.backoff ≡ w.backoff
  pub timers : v.timers ≡ w.timers

SamePace-IsPaced : {v w : World} → SamePace v w → IsPaced w → IsPaced v
SamePace-IsPaced s h = record { backoff = rw s.backoff h.backoff; timers = rw s.timers h.timers }

send-SamePace : (f : Frame) (w : World) → SamePace (send f w) w
unfolding send send_to
send-SamePace f w = ground arith

pub subscribe-SamePace :
    (topic : WsTopic) (id : String) (l : ℕ) (w : World) → SamePace (subscribe topic id l w) w
unfolding subscribe ensure_connected connect send send_to
subscribe-SamePace topic id l w = ground arith

drop_listener-SamePace :
    (topic : WsTopic) (id : String) (cur : List ℕ) (w : World)
    → SamePace (drop_listener topic id cur w) w
unfolding drop_listener send send_to
drop_listener-SamePace topic id [] w = ground arith
drop_listener-SamePace topic id (l ∷ cur) w = ground arith

unsubscribe-SamePace :
    (topic : WsTopic) (id : String) (l : ℕ) (w : World) → SamePace (unsubscribe topic id l w) w
unfolding unsubscribe
unsubscribe-SamePace topic id l w =
    elim (Option-cases (lookup (tk (topic_name topic) id) w.listeners)) [
      | inl e ↦ rw (e, unsubscribe) (record { backoff = refl; timers = refl })
      | inr (cur, e) ↦ rw (e, unsubscribe) (drop_listener-SamePace topic id _ w)
    ]

close_socket-SamePace : (o : Option ℕ) (w : World) → SamePace (close_socket o w) w
close_socket-SamePace none w = record { backoff = refl; timers = refl }
close_socket-SamePace (some i) w = record { backoff = refl; timers = refl }

timers-resend : (m : Option Meta) (w : World) → (resend m w).timers ≡ w.timers
unfolding resend send send_to
timers-resend none w = refl
timers-resend (some m) w = ground arith

timers-resubscribe : (ks : List String) (w : World) → (resubscribe ks w).timers ≡ w.timers
unfolding resubscribe
timers-resubscribe [] w = refl
timers-resubscribe (k ∷ ks) w =
    timers-resubscribe ks _ ∙ timers-resend (lookup k w.subscribed_meta) w

pub timers-on_open : (i : ℕ) (w : World) → (on_open i w).timers ≡ w.timers
unfolding on_open
timers-on_open i w = timers-resubscribe w.subscribed _

on_open-IsPaced : (i : ℕ) (w : World) → IsPaced w → IsPaced (on_open i w)
on_open-IsPaced i w h = record {
  backoff = rw client-on_open (omega arith);
  timers = rw timers-on_open h.timers;
}

All-drop_at : (n : ℕ) (xs : List ℕ) → All InBounds xs → All InBounds (drop_at n xs)
All-drop_at n [] h = tt
All-drop_at zero (x ∷ xs) h = h.1
All-drop_at (suc n) (x ∷ xs) h = (h.0, All-drop_at n xs h.1)

on_close-IsPaced : (i : ℕ) (w : World) → IsPaced w → IsPaced (on_close i w)
unfolding on_close
on_close-IsPaced i w h = elim (Bool-cases w.closing) [
  | inl c ↦ rw c (record { backoff = h.backoff; timers = h.timers })
  | inr c ↦ rw c (record {
    backoff = omega (arith, h.backoff);
    timers = All-push InBounds w.timers h.timers (omega (arith, h.backoff));
  })
]

on_timer-IsPaced : (n : ℕ) (w : World) → IsPaced w → IsPaced (on_timer n w)
unfolding on_timer connect
on_timer-IsPaced n w h = elim (Bool-cases w.closing) [
  | inl c ↦ rw c (record { backoff = h.backoff; timers = All-drop_at n w.timers h.timers })
  | inr c ↦ rw c (record { backoff = h.backoff; timers = All-drop_at n w.timers h.timers })
]

Step-IsPaced : {w v : World} → Step w v → IsPaced w → IsPaced v
unfolding on_error shutdown
Step-IsPaced {w} (subscribing topic id l) h = SamePace-IsPaced (subscribe-SamePace topic id l w) h
Step-IsPaced {w} (unsubscribing topic id l) h =
    SamePace-IsPaced (unsubscribe-SamePace topic id l w) h
Step-IsPaced {w} (opening i s _ _) h = on_open-IsPaced i w h
Step-IsPaced {w} (Step.closing i s _ _) h = on_close-IsPaced i w h
Step-IsPaced {w} (failing i _) h = SamePace-IsPaced (close_socket-SamePace w.ws w) h
Step-IsPaced {w} (firing n _) h = on_timer-IsPaced n w h
Step-IsPaced {w} shutting_down h =
    SamePace-IsPaced (close_socket-SamePace w.ws _)
      (record { backoff = h.backoff; timers = h.timers })

start-IsPaced : IsPaced start
unfolding start new_hub_client
start-IsPaced = record { backoff = omega arith; timers = tt }

-- In every run, the backoff and every delay that a timer was set with is between half a second
-- and thirty seconds.
pub Reach-IsPaced : {w : World} → Reach w → IsPaced w
Reach-IsPaced begin = start-IsPaced
Reach-IsPaced (next r st) = Step-IsPaced st (Reach-IsPaced r)

-- Sockets that close one after the other, none of them having opened.
pub close_all : List ℕ → World → World
close_all [] w = w
close_all (i ∷ is) w = close_all is (on_close i w)

pub delay : ℕ → ℕ
delay n = min (initial_backoff * 2 ^ n) max_backoff

pub delays : ℕ → ℕ → List ℕ
delays n zero = []
delays n (suc k) = delay n ∷ delays (suc n) k
