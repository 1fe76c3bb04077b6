-- ===== src/Money/Batch.antt =====
-- The loop that starts the backtests of a plan, and what is left where the gateway refuses one of them.
use finance_next.Base.{◌≡◌, refl, true, false, none, some, List, [], ◌∷◌, ◌++◌ as append}
use finance_next.Json.{Json}
use finance_next.Preset.Draft.{BacktestRequest}
use finance_next.Decision.Evidence.{is_empty}
use finance_next.Money.State.{
  Analysis, PageRequest, backtesting, gave, threw, Page, ◌>>=◌, return, set, try_catch, finally,
  call,
}
use finance_next.Money.Handoff.{OptionPayload}
use finance_next.Money.Client.{Client}
use finance_next.Money.Scans

module _ {E N : Type 0} (c : Client E N) where
  abbrev Items : Type 0
  Items = List (Json N × BacktestRequest N)

  abbrev Sent : Type 0
  Sent = List (PageRequest N (OptionPayload N))

  -- After the first requests the gateway accepts the backtests of all the items and gives the handles;
  -- the last requests are those that were sent then.
  pub data Starts : Sent → Items → List (Json N) → Sent → Type 0 where
    no_more : {sent : Sent} → Starts sent [] [] sent
    one_more :
        {sent after : Sent} {items : Items} {handles : List (Json N)} {draft handle : Json N}
        {request : BacktestRequest N}
        → c.gateway.create_backtest sent request ≡ gave handle
        → Starts (append sent (backtesting request ∷ [])) items handles after
        → Starts sent ((draft, request) ∷ items) (handle ∷ handles) after

  start_backtests-threw :
      (sent : Sent) (items : Items) (handles : List (Json N)) (after : Sent)
      → Starts sent items handles after
      → (draft : Json N) (request : BacktestRequest N) (others : Items) (e : E)
      → c.gateway.create_backtest after request ≡ threw e
      → (p : Page E N (OptionPayload N)) → p.sent ≡ sent
      → Scans.start_backtests c (append items ((draft, request) ∷ others)) p
        ≡ (threw e, record p { sent = append after (backtesting request ∷ []) })
  unfolding Scans.start_backtests ◌>>=◌ return call
  start_backtests-threw sent _ _ _ no_more draft request others e k p same = rw (same, k) refl
  start_backtests-threw sent _ _ after (one_more {items = items} {handles} {request = first} h s)
        draft request others e k p same =
      rw
        (
          same,
          h,
          start_backtests-threw (append sent (backtesting first ∷ [])) items handles after s draft
              request others e k (record p { sent = append sent (backtesting first ∷ []) }) refl,
        )
        refl

  is_empty-append :
      {A : Type 0} (xs : List A) (y : A) (ys : List A) → is_empty (append xs (y ∷ ys)) ≡ false
  is_empty-append [] y ys = refl
  is_empty-append (x ∷ xs) y ys = refl

  -- Where the gateway accepts the backtests of the first items of the plan and refuses the next one:
  -- the handler gives no handles and shows the error, and the runs of the backtests that were started
  -- are neither shown nor stored. The last request is the refused one, so that nothing is started
  -- after it.
  pub run_validation_backtests-threw :
      (a : Analysis N) (before : Items) (draft : Json N) (request : BacktestRequest N)
      (others : Items) (handles : List (Json N)) (after : Sent) (e : E)
      (p : Page E N (OptionPayload N))
      → (Scans.plan_for c a).items ≡ append before ((draft, request) ∷ others)
      → Starts p.sent before handles after
      → c.gateway.create_backtest after request ≡ threw e
      → Scans.run_validation_backtests c a p ≡ (
        gave [],
        record p {
          error = some e;
          batch_backtest_busy = false;
          sent = append after (backtesting request ∷ []);
        },
      )
  unfolding Scans.run_validation_backtests ◌>>=◌ return set try_catch finally
  run_validation_backtests-threw a before draft request others handles after e p plan started
        refused =
      rw
        (
          plan,
          is_empty-append before (draft, request) others,
          start_backtests-threw p.sent before handles after started draft request others e refused
              (record p { batch_backtest_busy = true; error = none }) refl,
        )
        refl
