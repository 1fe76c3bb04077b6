-- ===== src/Hub/State.antt =====
-- The state of class HubClient (client/data/ws-client.ts) and of what it drives. A socket is named
-- by its place in the list of all that were made, a listener by a number for its identity.
use Prim.Native.String
use finance_next.Base.{ℕ, String, Bool, true, false, Option, none, List, []}

pub data WsTopic : Type 0 where
  account backtest strategy optimization : WsTopic

-- The four strings of the union type `WsTopic`.
unfoldable pub topic_name : WsTopic → String
topic_name account = "account"
topic_name backtest = "backtest"
topic_name strategy = "strategy"
topic_name optimization = "optimization"

-- `${topic}:${id}`; the topic of an incoming frame may be any string.
unfoldable pub tk : String → String → String
tk topic id = String.◌++◌ topic (String.◌++◌ ":" id)

pub data ReadyState : Type 0 where
  connecting opened closing closed : ReadyState

pub data Frame : Type 0 where
  subscribe_frame unsubscribe_frame : WsTopic → String → Frame

pub record Socket : Type 0 where
  pub ready : ReadyState
  pub sent : List Frame

pub record Meta : Type 0 where
  pub topic : WsTopic
  pub id : String

pub record HubClient : Type 0 where
  pub ws : Option ℕ
  pub listeners : List (String × List ℕ)
  pub subscribed : List String
  pub subscribed_meta : List (String × Meta)
  pub backoff : ℕ
  pub closing : Bool

pub record World : Type 0 where
  pub client : HubClient
  pub open client use *
  pub sockets : List Socket
  pub timers : List ℕ

abbrev pub max_backoff : ℕ
max_backoff = 30000

abbrev pub initial_backoff : ℕ
initial_backoff = 500

-- The fields as the class initialises them, before any socket was made.
unfoldable pub new_hub_client : HubClient
new_hub_client = record {
  ws = none;
  listeners = [];
  subscribed = [];
  subscribed_meta = [];
  backoff = initial_backoff;
  closing = false;
}

unfoldable pub start : World
unfolding new_hub_client
start = record { client = new_hub_client; sockets = []; timers = [] }

abbrev pub is_open : ReadyState → Bool
is_open opened = true
is_open _ = false

abbrev pub meta_key : Meta → String
meta_key m = tk (topic_name m.topic) m.id
