-- ===== src/Money/Returned.antt =====
-- No handler of the page throws: what the gateway refuses is caught, and shown as an error.
use finance_next.Base.{String, Bool, true, false, Option, none, some, [], string_key}
use finance_next.Json.{Json}
use finance_next.Preset.Draft.{BacktestRequest}
use finance_next.Decision.Evidence.{is_empty}
use finance_next.Decision.Transition.{Transition}
use finance_next.Validation.Pick.{PaperCandidate}
use finance_next.Goal.{FormState, GoalRequest}
use finance_next.Money.State.{Analysis, Page, ◌>>◌}
use finance_next.Money.Provider.{Attempt, redirect, allow, ai_provider_analysis_attempt_from_gate}
use finance_next.Money.Handoff.{OptionPayload}
use finance_next.Money.Client.{Client}
use finance_next.Money.Scans
use finance_next.Money.Actions
use finance_next.Money.Logic.{
  Returns, Returns-bind, Returns-return, Returns-set, Returns-try, Returns-if, Returns-within,
}
use finance_next.Money.Commands.{
  Command, typed, refresh_list, submit, analyze_and_validate, scan_radar, open_old, refresh_old,
  validate_old, backtest_one, backtest_all, fill_template, analyze_template, validate_template,
  save_draft, accept, save_and_accept, complete_action, perform,
}

module _ {E N : Type 0} (c : Client E N) where
  skipped : Returns (Scans.skip c)
  skipped = Returns-return _ _ _ tt

  Returns-page :
      {A : Type 0} (f : Page E N (OptionPayload N) → Scans.Handler c A)
      → ((page : Page E N (OptionPayload N)) → Returns (f page))
      → Returns (Scans.with_page c f)
  unfolding Returns Scans.with_page
  Returns-page f h p = h p p

  -- A handler before which another one returns.
  after :
      {A B : Type 0} (m : Scans.Handler c A) (k : Scans.Handler c B)
      → Returns m
      → Returns k
      → Returns (m >> k)
  after m k h j = Returns-bind m _ h λ a. j

  run_goal_analysis-Returns : (payload : GoalRequest) → Returns (Scans.run_goal_analysis c payload)
  unfolding Scans.run_goal_analysis
  run_goal_analysis-Returns payload =
      Returns-within _ _ _
        (Returns-try _ _ λ e. after _ _ (Returns-set _) (Returns-return _ _ _ none))

  run_validation_backtests-Returns : (a : Analysis N) → Returns (Scans.run_validation_backtests c a)
  unfolding Scans.run_validation_backtests
  run_validation_backtests-Returns a =
      Returns-if (is_empty (Scans.plan_for c a).items) _ _ (Returns-return _ _ _ []) (
        Returns-within _ _ _
          (Returns-try _ _ λ e. after _ _ (Returns-set _) (Returns-return _ _ _ [])))

  validate_next-Returns : (next : Option (Analysis N)) → Returns (Scans.validate_next c next)
  validate_next-Returns none = skipped
  validate_next-Returns (some next) = after _ _ (run_validation_backtests-Returns next) skipped

  analyze_and_validate_goal-Returns :
      (payload : GoalRequest) → Returns (Scans.analyze_and_validate_goal c payload)
  unfolding Scans.analyze_and_validate_goal
  analyze_and_validate_goal-Returns payload = Returns-within _ _ _ (
      Returns-bind _ _ (run_goal_analysis-Returns payload)
        λ next. after _ _ (validate_next-Returns next) (Returns-return _ _ _ next))

  apply_form_state-Returns : (next : FormState) → Returns (Scans.apply_form_state c next)
  unfolding Scans.apply_form_state
  apply_form_state-Returns next = Returns-set _

  apply_given-Returns :
      (target : Option FormState) (next : FormState) → Returns (Scans.apply_given c target next)
  apply_given-Returns none next = skipped
  apply_given-Returns (some target) next = apply_form_state-Returns next

  attempt-Returns :
      (a : Attempt) (body : Scans.Handler c Unit) → Returns body → Returns (Scans.attempt c a body)
  attempt-Returns (redirect href) body h = Returns-set _
  attempt-Returns allow body h = h

  unless_blocked-Returns :
      (body : Scans.Handler c Unit) → Returns body → Returns (Scans.unless_blocked c body)
  unless_blocked-Returns body h =
      attempt-Returns (ai_provider_analysis_attempt_from_gate c.provider) body h

  refresh_runs-Returns : Returns (Scans.refresh_runs c)
  unfolding Scans.refresh_runs
  refresh_runs-Returns = Returns-within _ _ _ (Returns-try _ _ λ e. Returns-set _)

  busy_with_runs-Returns : (body : Scans.Handler c Unit) → Returns (Scans.busy_with_runs c body)
  busy_with_runs-Returns body = Returns-within _ _ _ (Returns-try _ _ λ e. Returns-set _)

  on_analyze_and_validate-Returns :
      (target : Option FormState) → Returns (Scans.on_analyze_and_validate c target)
  unfolding Scans.on_analyze_and_validate
  on_analyze_and_validate-Returns target = Returns-page _ λ page. unless_blocked-Returns _ (
      after _ _ (after _ _ (apply_given-Returns target _) (analyze_and_validate_goal-Returns _))
        skipped)

  on_daily_radar_scan-Returns :
      (target : Option FormState) → Returns (Scans.on_daily_radar_scan c target)
  unfolding Scans.on_daily_radar_scan
  on_daily_radar_scan-Returns target = Returns-page _ λ page. unless_blocked-Returns _ (
      after _ _ (after _ _ (apply_form_state-Returns _) (analyze_and_validate_goal-Returns _))
        skipped)

  backtest_draft-Returns :
      (draft : Json N) (request : Option (BacktestRequest N))
      → Returns (Scans.backtest_draft c draft request)
  backtest_draft-Returns draft none = skipped
  backtest_draft-Returns draft (some request) =
      Returns-page _ λ page. Returns-within _ _ _ (Returns-try _ _ λ e. Returns-set _)

  accept_candidate-Returns :
      (skip_strategy : Bool) (a : Analysis N) (candidate : PaperCandidate N)
      → Returns (Actions.accept_candidate c skip_strategy a candidate)
  unfolding Actions.accept_candidate
  accept_candidate-Returns skip_strategy a candidate =
      after _ _ (Returns-set _) (Returns-try _ _ λ e. Returns-set _)

  if_open-Returns :
      (a : Option (Analysis N)) (f : Analysis N → Scans.Handler c Unit)
      → ((a : Analysis N) → Returns (f a))
      → Returns (Actions.if_open c (Scans.skip c) a f)
  if_open-Returns none f h = skipped
  if_open-Returns (some a) f h = h a

  save_given-Returns :
      (redirected required : Bool) (analysis : Option (Analysis N)) (draft : Json N)
      (payload : Option (OptionPayload N))
      → Returns (Actions.save_given c redirected required analysis draft payload)
  save_given-Returns redirected required analysis draft none =
      after _ _ (Returns-set _) (Returns-return _ _ _ none)
  save_given-Returns redirected required analysis draft (some payload) =
      Returns-within _ _ _
        (Returns-try _ _ λ e. after _ _ (Returns-set _) (Returns-return _ _ _ none))

  accept_saved-Returns :
      (a : Analysis N) (candidate : PaperCandidate N) (saved : Option String)
      → Returns (Actions.accept_saved c a candidate saved)
  accept_saved-Returns a candidate none = skipped
  accept_saved-Returns a candidate (some href) = accept_candidate-Returns true a _

  complete-Returns :
      (a : Analysis N) (item : Json N) (transition : Option Transition)
      → Returns (Actions.complete c a item transition)
  complete-Returns a item none = skipped
  complete-Returns a item (some t) = Returns-within _ _ _ (Returns-try _ _ λ e. Returns-set _)

  -- Every command ends with a value and never throws, whatever the page shows and whatever the
  -- gateway answers or refuses.
  pub perform-Returns : (command : Command N) → Returns (perform c command)
  unfolding Scans.on_submit Scans.open_run Scans.refresh_run Scans.validate_run
      Scans.run_backtest_draft Scans.run_all_backtests Scans.apply_goal_template
      Scans.analyze_goal_template Scans.validate_goal_template Actions.save_strategy_draft
      Actions.save_strategy_draft_core Actions.accept_paper_candidate
      Actions.save_and_accept_paper_candidate Actions.update_queue_action
  perform-Returns (typed form) = Returns-set _
  perform-Returns refresh_list = refresh_runs-Returns
  perform-Returns submit = Returns-page _ λ page. on_analyze_and_validate-Returns _
  perform-Returns (analyze_and_validate target) = on_analyze_and_validate-Returns target
  perform-Returns (scan_radar target) = on_daily_radar_scan-Returns target
  perform-Returns (open_old id) = Returns-page _ λ page. busy_with_runs-Returns _
  perform-Returns (refresh_old id) = Returns-page _ λ page. busy_with_runs-Returns _
  perform-Returns (validate_old id) = Returns-page _ λ page. busy_with_runs-Returns _
  perform-Returns (backtest_one draft) = backtest_draft-Returns draft _
  perform-Returns (backtest_all a) = after _ _ (run_validation_backtests-Returns a) skipped
  perform-Returns (fill_template template) = Returns-page _ λ page. apply_form_state-Returns _
  perform-Returns (analyze_template template) = Returns-page _ λ page.
      after _ _ (apply_form_state-Returns _)
        (unless_blocked-Returns _ (after _ _ (run_goal_analysis-Returns _) skipped))
  perform-Returns (validate_template template) =
      Returns-page _
        λ page. after _ _ (apply_form_state-Returns _) (on_analyze_and_validate-Returns _)
  perform-Returns (save_draft draft) =
      Returns-page _ λ page. after _ _ (save_given-Returns true false page.analysis draft _) skipped
  perform-Returns (accept candidate) = Returns-page _ λ page.
      if_open-Returns (Actions.open_analysis c page.analysis) _
        λ a. accept_candidate-Returns false a candidate
  perform-Returns (save_and_accept candidate) = Returns-page _ λ page.
      if_open-Returns (Actions.open_analysis c page.analysis) _ λ a.
        Returns-bind _ _ (save_given-Returns false true page.analysis candidate.draft _)
          (accept_saved-Returns a candidate)
  perform-Returns (complete_action item) = Returns-page _ λ page.
      if_open-Returns (Actions.open_analysis c page.analysis) _ λ a. complete-Returns a item _
