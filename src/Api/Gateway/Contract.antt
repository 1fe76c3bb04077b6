-- ===== src/Api/Gateway/Contract.antt =====
-- The endpoint functions of client/data/api-client.ts against the routes of the gateway.
use finance_next.Base.{◌++◌, All, All-append}
use finance_next.Api.{Host}
use finance_next.Api.Calls.{Encoder}
use finance_next.Api.Gateway.Fitting.{FitsOnly}
use finance_next.Api.Gateway.Table.{
  Inputs, HasSegments, account_calls, strategy_calls, admin_calls, prediction_calls, all_calls,
}
use finance_next.Api.Gateway.AccountsCalls.{account_calls-FitsOnly}
use finance_next.Api.Gateway.StrategiesCalls.{strategy_calls-FitsOnly}
use finance_next.Api.Gateway.AdminCalls.{admin_calls-FitsOnly}
use finance_next.Api.Gateway.PredictionCalls.{prediction_calls-FitsOnly}

-- Each of the 73 endpoint functions makes a request that fits one route of the gateway and no other,
-- and that is the route of the handler which the table of calls names beside it: the method is the
-- route's and the segments of the path are those of its pattern, where a segment with a colon stands
-- for any. That holds whatever the query, the body, the base URL and the host are, if the ids in the
-- path are letters, digits, dashes and underscores.
pub all_calls-FitsOnly :
    {N : Type 0} (enc : Encoder N) (host : Host N) (i : Inputs N)
    → HasSegments i
    → All (FitsOnly host) (all_calls enc host i)
all_calls-FitsOnly enc host i h =
    let rest = admin_calls enc host i ++ prediction_calls enc host i in
    All-append (FitsOnly host) (account_calls enc host i) (strategy_calls enc host i ++ rest)
      (account_calls-FitsOnly enc host i h)
      (All-append (FitsOnly host) (strategy_calls enc host i) rest
        (strategy_calls-FitsOnly enc host i h)
        (All-append (FitsOnly host) (admin_calls enc host i) (prediction_calls enc host i)
          (admin_calls-FitsOnly enc host i h) (prediction_calls-FitsOnly enc host i h)))
