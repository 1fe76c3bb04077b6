-- ===== src/Money/Client.antt =====
-- What the handlers of the page find around them: the platform's functions, the gateway, the state of
-- the provider and the texts of the times.
use finance_next.Base.{String, Option}
use finance_next.Json.{Json}
use finance_next.Numbers.{Numbers}
use finance_next.Recent.{JsonCodec}
use finance_next.Validation.{Arithmetic}
use finance_next.Validation.Pick.{Links}
use finance_next.Money.State.{Gateway}
use finance_next.Money.Provider.{Gate}
use finance_next.Money.Handoff.{OptionPayload, Hrefs}

-- `day`, `now`, `start` and `stop` are the texts of today, of the time and of the two ends of a
-- backtest, `iso` that of a handle's time, and `message` is `new Error`.
pub record Client (E N : Type 0) : Type 0 where
  pub num : Numbers N
  pub ar : Arithmetic N
  pub json : JsonCodec String N
  pub links : Links N
  pub hrefs : Hrefs N
  pub lower : String → String
  pub upper : String → String
  pub gateway : Gateway E N (OptionPayload N)
  pub provider : Gate
  pub day : String
  pub now : String
  pub start : String
  pub stop : String
  pub iso : Option (Json N) → String
  pub message : String → E
