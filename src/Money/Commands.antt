-- ===== src/Money/Commands.antt =====
-- What the user does on the AI Money page, one command after the other, and what every sequence of
-- commands leaves.
use finance_next.Base.{All, Option, List, [], ◌∷◌, ◌≡◌, String}
use finance_next.Json.{Json}
use finance_next.Validation.Pick.{PaperCandidate}
use finance_next.Goal.{FormState, GoalRequest}
use finance_next.Goal.Safety.{IsSafe, ai_goal_request_from_form_state-IsSafe}
use finance_next.Money.State.{Analysis, Run, PageRequest, gave, Page, set}
use finance_next.Money.Handoff.{OptionPayload}
use finance_next.Money.Client.{Client}
use finance_next.Money.Scans
use finance_next.Money.Actions
use finance_next.Money.Logic.{Keeps, Keeps-set, Keeps-use}
use finance_next.Money.Runs.{IsTidy}
use finance_next.Money.Sound.{IsAtRest, IsResting, AsksNoGoal}
use finance_next.Money.Provider.{redirect, ai_provider_analysis_attempt_from_gate}
use finance_next.Money.Kept.{Open}
use finance_next.Money.Resting.{
  refresh_runs-Keeps, run_all_backtests-Keeps, on_analyze_and_validate-Keeps, on_submit-Keeps,
  on_daily_radar_scan-Keeps, open_run-Keeps, refresh_run-Keeps, validate_run-Keeps,
  run_backtest_draft-Keeps, apply_goal_template-Keeps, analyze_goal_template-Keeps,
  validate_goal_template-Keeps,
}
use finance_next.Money.Acting.{
  accept_paper_candidate-Keeps, save_strategy_draft-Keeps, save_and_accept_paper_candidate-Keeps,
  update_queue_action-Keeps,
}

-- `typed` is the change of a field of the form.
pub data Command (N : Type 0) : Type 0 where
  typed : FormState → Command N
  refresh_list : Command N
  submit : Command N
  analyze_and_validate : Option FormState → Command N
  scan_radar : Option FormState → Command N
  open_old : String → Command N
  refresh_old : String → Command N
  validate_old : String → Command N
  backtest_one : Json N → Command N
  backtest_all : Analysis N → Command N
  fill_template : Json N → Command N
  analyze_template : Json N → Command N
  validate_template : Json N → Command N
  save_draft : Json N → Command N
  accept : PaperCandidate N → Command N
  save_and_accept : PaperCandidate N → Command N
  complete_action : Json N → Command N

module _ {E N : Type 0} (c : Client E N) where
  abbrev pub perform : Command N → Scans.Handler c Unit
  perform (typed form) = set λ p. record p { form = form }
  perform refresh_list = Scans.refresh_runs c
  perform submit = Scans.on_submit c
  perform (analyze_and_validate target) = Scans.on_analyze_and_validate c target
  perform (scan_radar target) = Scans.on_daily_radar_scan c target
  perform (open_old id) = Scans.open_run c id
  perform (refresh_old id) = Scans.refresh_run c id
  perform (validate_old id) = Scans.validate_run c id
  perform (backtest_one draft) = Scans.run_backtest_draft c draft
  perform (backtest_all a) = Scans.run_all_backtests c a
  perform (fill_template template) = Scans.apply_goal_template c template
  perform (analyze_template template) = Scans.analyze_goal_template c template
  perform (validate_template template) = Scans.validate_goal_template c template
  perform (save_draft draft) = Actions.save_strategy_draft c draft
  perform (accept candidate) = Actions.accept_paper_candidate c candidate
  perform (save_and_accept candidate) = Actions.save_and_accept_paper_candidate c candidate
  perform (complete_action item) = Actions.update_queue_action c item

  -- The page after the commands, however each of them ended.
  abbrev pub perform_all :
      List (Command N) → Page E N (OptionPayload N) → Page E N (OptionPayload N)
  perform_all [] p = p
  perform_all (command ∷ commands) p = perform_all commands (perform command p).1

  -- The gateway lists at most 20 runs, none of them twice.
  abbrev pub ListsTidy : Type 0
  ListsTidy =
      (sent : List (PageRequest N (OptionPayload N))) (rs : List (Run N))
      → c.gateway.list_runs sent ≡ gave rs
      → IsTidy rs

  closed :
      (href : String)
      → ai_provider_analysis_attempt_from_gate c.provider ≡ redirect href
      → Open c
      → ⊥
  closed href refused ok = cc

  module _ (tidy : ListsTidy) where
    module _ (Q : GoalRequest → Type 0)
        (fits : Open c → (state : FormState) → Q (Scans.request_of c state)) where
      perform-Keeps : (command : Command N) → Keeps (IsAtRest Q) (perform command)
      perform-Keeps (typed form) = Keeps-set (IsAtRest Q) _ λ p h. h
      perform-Keeps refresh_list = refresh_runs-Keeps c Q fits tidy
      perform-Keeps submit = on_submit-Keeps c Q fits
      perform-Keeps (analyze_and_validate target) = on_analyze_and_validate-Keeps c Q fits target
      perform-Keeps (scan_radar target) = on_daily_radar_scan-Keeps c Q fits target
      perform-Keeps (open_old id) = open_run-Keeps c Q fits id
      perform-Keeps (refresh_old id) = refresh_run-Keeps c Q fits id
      perform-Keeps (validate_old id) = validate_run-Keeps c Q fits id
      perform-Keeps (backtest_one draft) = run_backtest_draft-Keeps c Q fits draft
      perform-Keeps (backtest_all a) = run_all_backtests-Keeps c Q fits a
      perform-Keeps (fill_template template) = apply_goal_template-Keeps c Q fits template
      perform-Keeps (analyze_template template) = analyze_goal_template-Keeps c Q fits template
      perform-Keeps (validate_template template) = validate_goal_template-Keeps c Q fits template
      perform-Keeps (save_draft draft) = save_strategy_draft-Keeps c Q draft
      perform-Keeps (accept candidate) = accept_paper_candidate-Keeps c Q candidate
      perform-Keeps (save_and_accept candidate) =
          save_and_accept_paper_candidate-Keeps c Q candidate
      perform-Keeps (complete_action item) = update_queue_action-Keeps c Q item

      perform_all-Keeps :
          (commands : List (Command N)) (p : Page E N (OptionPayload N))
          → IsAtRest Q p
          → IsAtRest Q (perform_all commands p)
      perform_all-Keeps [] p h = h
      perform_all-Keeps (command ∷ commands) p h =
          perform_all-Keeps commands (perform command p).1
            (Keeps-use (IsAtRest Q) _ (perform-Keeps command) p h)

    -- Where the gateway lists at most 20 runs, none of them twice: whatever commands are given to a
    -- sound page, one after the other, and whatever the gateway answers or refuses, no work is marked
    -- as running in the end, at most 20 runs are shown and none of them twice, and every goal that was
    -- sent asks for observation or paper and is within the bounds of a goal.
    pub perform_all-IsResting :
        (commands : List (Command N)) (p : Page E N (OptionPayload N))
        → IsResting p
        → IsResting (perform_all commands p)
    perform_all-IsResting =
        perform_all-Keeps IsSafe λ ok. ai_goal_request_from_form_state-IsSafe c.lower c.upper

    -- Where the gateway lists at most 20 runs, none of them twice, and the provider's gate refuses a
    -- manual analysis: whatever commands are given, one after the other, to a sound page on which no
    -- work is marked as running and that has not asked for an analysis, and whatever the gateway
    -- answers or refuses, no analysis is asked for.
    pub perform_all-AsksNoGoal :
        (href : String)
        → ai_provider_analysis_attempt_from_gate c.provider ≡ redirect href
        → (commands : List (Command N)) (p : Page E N (OptionPayload N)) → IsResting p
        → All AsksNoGoal p.sent
        → All AsksNoGoal (perform_all commands p).sent
    perform_all-AsksNoGoal href refused commands p (h, t, s) none_sent =
        (perform_all-Keeps (λ goal. ⊥) (λ ok. absurd (closed href refused ok)) commands p
          (h, t, none_sent)).2
