-- ===== src/Hub/Steps.antt =====
-- Every run of the hub (client/data/ws-client.ts): the calls of its users and the events of the
-- browser, in any order that the browser allows.
use finance_next.Base.{ℕ, ◌<◌, String, ◌≡◌, ◌≢◌, some, length, get_elem?, nat_key, string_key}
use finance_next.Hub.State.{WsTopic, connecting, closed, Socket, World, start}
use finance_next.Hub.Operations.{
  on_open, on_close, on_error, on_timer, subscribe, unsubscribe, shutdown,
}
use finance_next.Hub.Registry.{
  IsConsistent, IsConsistent-start, subscribe-IsConsistent, unsubscribe-IsConsistent,
  SameRegistries-IsConsistent, on_open-SameRegistries, on_close-SameRegistries,
  on_error-SameRegistries, on_timer-SameRegistries, shutdown-SameRegistries,
}

pub data Step (w : World) : World → Type 0 where
  subscribing : (topic : WsTopic) (id : String) (l : ℕ) → Step w (subscribe topic id l w)
  unsubscribing : (topic : WsTopic) (id : String) (l : ℕ) → Step w (unsubscribe topic id l w)
  opening :
      (i : ℕ) (s : Socket)
      → get_elem? w.sockets i ≡ some s
      → s.ready ≡ connecting
      → Step w (on_open i w)
  closing :
      (i : ℕ) (s : Socket)
      → get_elem? w.sockets i ≡ some s
      → s.ready ≢ closed
      → Step w (on_close i w)
  failing : (i : ℕ) → i < length w.sockets → Step w (on_error w)
  firing : (n : ℕ) → n < length w.timers → Step w (on_timer n w)
  shutting_down : Step w (shutdown w)

pub data Reach : World → Type 0 where
  begin : Reach start
  next : {w v : World} → Reach w → Step w v → Reach v

Step-IsConsistent : {w v : World} → Step w v → IsConsistent w.client → IsConsistent v.client
Step-IsConsistent {w} (subscribing topic id l) h = subscribe-IsConsistent topic id l w h
Step-IsConsistent {w} (unsubscribing topic id l) h = unsubscribe-IsConsistent topic id l w h
Step-IsConsistent {w} (opening i s _ _) h =
    SameRegistries-IsConsistent (on_open-SameRegistries i w) h
Step-IsConsistent {w} (closing i s _ _) h =
    SameRegistries-IsConsistent (on_close-SameRegistries i w) h
Step-IsConsistent {w} (failing i _) h = SameRegistries-IsConsistent (on_error-SameRegistries w) h
Step-IsConsistent {w} (firing n _) h = SameRegistries-IsConsistent (on_timer-SameRegistries n w) h
Step-IsConsistent {w} shutting_down h = SameRegistries-IsConsistent (shutdown-SameRegistries w) h

-- In every run, a key is subscribed exactly if it has a listener (in the same order), the topic
-- and the id of each such key are kept under it, no key is there twice, and no set of listeners
-- is empty or holds a listener twice.
pub Reach-IsConsistent : {w : World} → Reach w → IsConsistent w.client
Reach-IsConsistent begin = unfold start in IsConsistent-start
Reach-IsConsistent (next r st) = Step-IsConsistent st (Reach-IsConsistent r)
