-- ===== src/Money/Resting.antt =====
-- The handlers that the page's buttons call leave it sound and with no work marked as running.
use finance_next.Base.{String, true, false, ◌≡◌, Option, none, some, List, ◌==◌, ap, string_key}
use finance_next.Json.{Json}
use finance_next.Preset.Draft.{BacktestRequest}
use finance_next.Goal.{FormState, GoalRequest}
use finance_next.Money.State.{Analysis, Run, ActionPatch, PageRequest, backtesting, getting, gave}
use finance_next.Money.Handoff.{OptionPayload}
use finance_next.Money.Client.{Client}
use finance_next.Money.Scans
use finance_next.Money.Logic.{
  Keeps, Keeps-bind, Keeps-then, Keeps-try, Keeps-within, Keeps-set, Keeps-if,
}
use finance_next.Money.Runs.{IsTidy}
use finance_next.Money.Sound.{
  Marks, marks, IsSound, IsAtRest, set_error-Keeps, set_run_error-Keeps, push_route-Keeps,
  with_run-Keeps, with_old_run-Keeps, call-Keeps, listing-Keeps,
}
use finance_next.Money.Kept.{
  Open, run_goal_analysis-Keeps, update_action-Keeps, store_action-Keeps,
  run_validation_backtests-Keeps, apply_form_state-Keeps, unless_blocked-Keeps, analysis_of-Keeps,
  Keeps-page, Keeps-skip,
}

-- Where the provider allows an analysis, the request of each form is as Q says.
module _ {E N : Type 0} (c : Client E N) (Q : GoalRequest → Type 0)
    (fits : Open c → (state : FormState) → Q (Scans.request_of c state)) where
  pub refresh_runs-Keeps :
      ((sent : List (PageRequest N (OptionPayload N))) (rs : List (Run N))
        → c.gateway.list_runs sent ≡ gave rs
        → IsTidy rs)
      → Keeps (IsAtRest Q) (Scans.refresh_runs c)
  unfolding Scans.refresh_runs
  refresh_runs-Keeps tidy =
      let m : Marks = marks true false in
      Keeps-within (IsAtRest Q) (IsSound Q m) _ _ _
        (λ p (h, t, s). (ap (λ (x : Marks). record x { runs_busy = true }) h, t, s))
        (Keeps-try (IsSound Q m) _ _ (listing-Keeps _ _ _ Q m _ tidy)
          λ e. set_run_error-Keeps _ _ _ Q m _)
        λ p (h, t, s). (ap (λ (x : Marks). record x { runs_busy = false }) h, t, s)

  busy_with_runs-Keeps :
      (body : Scans.Handler c Unit)
      → Keeps (IsSound Q (marks true false)) body
      → Keeps (IsAtRest Q) (Scans.busy_with_runs c body)
  busy_with_runs-Keeps body h =
      let m : Marks = marks true false in
      Keeps-within (IsAtRest Q) (IsSound Q m) _ _ _
        (λ p (h, t, s). (ap (λ (x : Marks). record x { runs_busy = true }) h, t, s))
        (Keeps-try (IsSound Q m) _ _ h λ e. set_run_error-Keeps _ _ _ Q m _)
        λ p (h, t, s). (ap (λ (x : Marks). record x { runs_busy = false }) h, t, s)

  pub run_all_backtests-Keeps : (a : Analysis N) → Keeps (IsAtRest Q) (Scans.run_all_backtests c a)
  unfolding Scans.run_all_backtests
  run_all_backtests-Keeps a =
      Keeps-then (IsAtRest Q) _ _ (run_validation_backtests-Keeps c Q false false a)
        (Keeps-skip c (IsAtRest Q))

  apply_given-Keeps :
      (target : Option FormState) (next : FormState)
      → Keeps (IsAtRest Q) (Scans.apply_given c target next)
  apply_given-Keeps none next = Keeps-skip c (IsAtRest Q)
  apply_given-Keeps (some target) next = apply_form_state-Keeps c Q (marks false false) next

  pub on_analyze_and_validate-Keeps :
      (target : Option FormState) → Keeps (IsAtRest Q) (Scans.on_analyze_and_validate c target)
  unfolding Scans.on_analyze_and_validate
  on_analyze_and_validate-Keeps target = Keeps-page c (IsAtRest Q) _ λ page.
      unless_blocked-Keeps c Q (marks false false) _ (λ ok.
        Keeps-then (IsAtRest Q) _ _
          (Keeps-then (IsAtRest Q) _ _ (apply_given-Keeps target _)
            (analysis_of-Keeps c Q false _ (fits ok _)))
          (Keeps-skip c (IsAtRest Q)))

  pub on_submit-Keeps : Keeps (IsAtRest Q) (Scans.on_submit c)
  unfolding Scans.on_submit
  on_submit-Keeps = Keeps-page c (IsAtRest Q) _ λ page. on_analyze_and_validate-Keeps _

  pub on_daily_radar_scan-Keeps :
      (target : Option FormState) → Keeps (IsAtRest Q) (Scans.on_daily_radar_scan c target)
  unfolding Scans.on_daily_radar_scan
  on_daily_radar_scan-Keeps target = Keeps-page c (IsAtRest Q) _ λ page.
      unless_blocked-Keeps c Q (marks false false) _ (λ ok.
        Keeps-then (IsAtRest Q) _ _
          (Keeps-then (IsAtRest Q) _ _ (apply_form_state-Keeps c Q (marks false false) _)
            (analysis_of-Keeps c Q false _ (fits ok _)))
          (Keeps-skip c (IsAtRest Q)))

  show_analysis-Keeps :
      (m : Marks) (a : Option (Analysis N)) → Keeps (IsSound Q m) (Scans.show_analysis c a)
  show_analysis-Keeps m none = Keeps-skip c (IsSound Q m)
  show_analysis-Keeps m (some a) = Keeps-set (IsSound Q m) _ λ p h. h

  get_run-Keeps : (m : Marks) (id : String) → Keeps (IsSound Q m) (Scans.get_run c id)
  get_run-Keeps m id = call-Keeps _ _ _ Q m (getting id) _ tt

  pub open_run-Keeps : (id : String) → Keeps (IsAtRest Q) (Scans.open_run c id)
  unfolding Scans.open_run
  open_run-Keeps id =
      let m : Marks = marks true false in
      Keeps-page c (IsAtRest Q) _ λ page. busy_with_runs-Keeps _ (
        Keeps-bind (IsSound Q m) _ _ (get_run-Keeps m id) λ detail.
          Keeps-then (IsSound Q m) _ _
            (Keeps-then (IsSound Q m) _ _
              (Keeps-then (IsSound Q m) _ _ (show_analysis-Keeps m detail.analysis)
                (Keeps-set (IsSound Q m) _ λ p h. h))
              (Keeps-set (IsSound Q m) _ λ p h. h))
            (with_run-Keeps _ _ _ Q m detail))

  note_refreshed-Keeps :
      (m : Marks) (detail : Run N) (a : Option (Analysis N))
      → Keeps (IsSound Q m) (Scans.note_refreshed c detail a)
  note_refreshed-Keeps m detail none = Keeps-skip c (IsSound Q m)
  note_refreshed-Keeps m detail (some a) =
      Keeps-try (IsSound Q m) _ _
        (Keeps-bind (IsSound Q m) _ _ (update_action-Keeps c Q m detail.id "refresh_context" _)
          λ updated. with_old_run-Keeps _ _ _ Q m updated)
        λ e. set_error-Keeps _ _ _ Q m _

  pub refresh_run-Keeps : (id : String) → Keeps (IsAtRest Q) (Scans.refresh_run c id)
  unfolding Scans.refresh_run
  refresh_run-Keeps id =
      let m : Marks = marks true false in
      Keeps-page c (IsAtRest Q) _ λ page. busy_with_runs-Keeps _ (
        Keeps-bind (IsSound Q m) _ _ (get_run-Keeps m id) λ detail.
          Keeps-then (IsSound Q m) _ _ (apply_form_state-Keeps c Q m _) (
            unless_blocked-Keeps c Q m _ (λ ok.
              Keeps-bind (IsSound Q m) _ _ (analysis_of-Keeps c Q true _ (fits ok _))
                (note_refreshed-Keeps m detail))))

  validate_detail-Keeps :
      (form : FormState) (detail : Run N) (a : Option (Analysis N))
      → Keeps (IsSound Q (marks true false)) (Scans.validate_detail c form detail a)
  validate_detail-Keeps form detail none = set_run_error-Keeps _ _ _ Q (marks true false) _
  validate_detail-Keeps form detail (some a) =
      let m : Marks = marks true false in
      Keeps-then (IsSound Q m) _ _
        (Keeps-then (IsSound Q m) _ _
          (Keeps-then (IsSound Q m) _ _
            (Keeps-then (IsSound Q m) _ _ (Keeps-set (IsSound Q m) _ λ p h. h)
              (apply_form_state-Keeps c Q m _))
            (with_run-Keeps _ _ _ Q m detail))
          (run_validation_backtests-Keeps c Q true false a))
        (Keeps-skip c (IsSound Q m))

  pub validate_run-Keeps : (id : String) → Keeps (IsAtRest Q) (Scans.validate_run c id)
  unfolding Scans.validate_run
  validate_run-Keeps id =
      let m : Marks = marks true false in
      Keeps-page c (IsAtRest Q) _ λ page. busy_with_runs-Keeps _ (
        Keeps-bind (IsSound Q m) _ _ (get_run-Keeps m id)
          λ detail. validate_detail-Keeps page.form detail detail.analysis)

  store_for-Keeps :
      (m : Marks) (a : Option (Analysis N)) (action : String) (patch : ActionPatch)
      → Keeps (IsSound Q m) (Scans.store_for c a action patch)
  store_for-Keeps m none action patch = Keeps-skip c (IsSound Q m)
  store_for-Keeps m (some a) action patch =
      Keeps-if (IsSound Q m) (a.id == "") _ _ (Keeps-skip c (IsSound Q m))
        (store_action-Keeps c Q m a.id action patch)

  backtest_draft-Keeps :
      (draft : Json N) (request : Option (BacktestRequest N))
      → Keeps (IsAtRest Q) (Scans.backtest_draft c draft request)
  backtest_draft-Keeps draft none = Keeps-skip c (IsAtRest Q)
  backtest_draft-Keeps draft (some request) =
      let key : Option String = some (Scans.draft_key c draft) in
      let m : Marks = record (marks false false) { backtest_busy_key = key } in
      Keeps-page c (IsAtRest Q) _ λ page.
        Keeps-within (IsAtRest Q) (IsSound Q m) _ _ _
          (λ p (h, t, s). (ap (λ (x : Marks). record x { backtest_busy_key = key }) h, t, s))
          (Keeps-try (IsSound Q m) _ _
            (Keeps-bind (IsSound Q m) _ _ (call-Keeps _ _ _ Q m (backtesting request) _ tt)
              λ handle.
                Keeps-then (IsSound Q m) _ _ (store_for-Keeps m page.analysis "backtest" _)
                  (push_route-Keeps _ _ _ Q m _))
            λ e. set_error-Keeps _ _ _ Q m _)
          λ p (h, t, s). (ap (λ (x : Marks). record x { backtest_busy_key = none }) h, t, s)

  pub run_backtest_draft-Keeps :
      (draft : Json N) → Keeps (IsAtRest Q) (Scans.run_backtest_draft c draft)
  unfolding Scans.run_backtest_draft
  run_backtest_draft-Keeps draft = backtest_draft-Keeps draft _

  pub apply_goal_template-Keeps :
      (template : Json N) → Keeps (IsAtRest Q) (Scans.apply_goal_template c template)
  unfolding Scans.apply_goal_template
  apply_goal_template-Keeps template =
      Keeps-page c (IsAtRest Q) _ λ page. apply_form_state-Keeps c Q (marks false false) _

  pub analyze_goal_template-Keeps :
      (template : Json N) → Keeps (IsAtRest Q) (Scans.analyze_goal_template c template)
  unfolding Scans.analyze_goal_template
  analyze_goal_template-Keeps template = Keeps-page c (IsAtRest Q) _ λ page.
      Keeps-then (IsAtRest Q) _ _ (apply_form_state-Keeps c Q (marks false false) _) (
        unless_blocked-Keeps c Q (marks false false) _ (λ ok.
          Keeps-then (IsAtRest Q) _ _ (run_goal_analysis-Keeps c Q false false _ (fits ok _))
            (Keeps-skip c (IsAtRest Q))))

  pub validate_goal_template-Keeps :
      (template : Json N) → Keeps (IsAtRest Q) (Scans.validate_goal_template c template)
  unfolding Scans.validate_goal_template
  validate_goal_template-Keeps template = Keeps-page c (IsAtRest Q) _ λ page.
      Keeps-then (IsAtRest Q) _ _ (apply_form_state-Keeps c Q (marks false false) _)
        (on_analyze_and_validate-Keeps _)
