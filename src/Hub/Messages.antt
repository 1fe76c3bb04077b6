-- ===== src/Hub/Messages.antt =====
-- The "message" handler of class HubClient (client/data/ws-client.ts). P is the type of payloads;
-- listeners only set the state of a component, so the client stays as it is.
use finance_next.Base.{
  ℕ, String, Option, none, some, List, [], ◌∷◌, ◌++◌, if◌then◌else◌, ◌==◌, lookup, string_key,
}
use finance_next.Hub.State.{account, topic_name, tk, HubClient}

pub record WsEvent (P : Type 0) : Type 0 where
  pub type : String
  pub topic : Option String
  pub id : Option String
  pub account_id : Option String
  pub payload : Option P
  pub error : Option String
  pub reason : Option String
  pub message : Option String

-- What JSON.parse makes of a message: it throws, or gives a falsy value, or an event.
pub data Parsed (P : Type 0) : Type 0 where
  malformed falsy : Parsed P
  event : WsEvent P → Parsed P

-- A string that is truthy.
abbrev pub truthy : Option String → Option String
truthy none = none
truthy (some s) = if s == "" then none else some s

abbrev pub key_for : Option String → Option String → Option String → Option String
key_for (some topic) (some id) account_id = some (tk topic id)
key_for _ _ (some account_id) = some (tk (topic_name account) account_id)
key_for _ _ none = none

module _ {P : Type 0} where
  -- The key that an event is routed by.
  unfoldable pub route_key : WsEvent P → Option String
  route_key ev = key_for (truthy ev.topic) (truthy ev.id) (truthy ev.account_id)

  abbrev pub calls : List ℕ → WsEvent P → List (ℕ × WsEvent P)
  calls [] ev = []
  calls (fn ∷ fns) ev = (fn, ev) ∷ calls fns ev

  -- `for (const set of this.listeners.values()) for (const fn of set) fn(parsed)`
  unfoldable pub broadcast : List (String × List ℕ) → WsEvent P → List (ℕ × WsEvent P)
  broadcast [] ev = []
  broadcast ((key, set) ∷ m) ev = calls set ev ++ broadcast m ev

  unfoldable pub deliver : HubClient → WsEvent P → List (ℕ × WsEvent P)
  deliver c ev = elim (route_key ev) [
    | none ↦ broadcast c.listeners ev
    | some key ↦ elim (lookup key c.listeners) [ none ↦ [] | some set ↦ calls set ev ]
  ]

  -- The "message" handler: the calls that it makes, in order. `parse` is JSON.parse.
  unfoldable pub on_message : (String → Parsed P) → String → HubClient → List (ℕ × WsEvent P)
  on_message parse text c = elim (parse text) [
    | malformed ↦ []
    | falsy ↦ []
    | event ev ↦ deliver c ev
  ]
