-- ===== src/Money/Scans.antt =====
-- The handlers of the AI Money page that scan, refresh and validate runs and that use templates of goals
-- (client/app/(dashboard)/ai-money/client.tsx).
mod Parts
unfoldable pub use Parts.*
use Prim.Native.String.{◌++◌}
use finance_next.Base.{
  String, Bool, true, false, not, Option, none, some, List, [], ◌∷◌, ◌++◌ as append, if◌then◌else◌,
  ◌==◌, take, map, string_key,
}
use finance_next.Json.{Json, at_key}
use finance_next.Preset.Draft.{BacktestRequest, backtest_request_from_draft}
use finance_next.Decision.Evidence.{is_empty, text_of}
use finance_next.Goal.{
  FormState, GoalRequest, ai_goal_request_from_form_state, ai_goal_executable_form_state,
  ai_goal_analyze_target_form_state, daily_radar_form_state_from_runs, form_state_from_ai_goal_run,
  form_state_from_goal_template, default_behavior_text, default_narrative_text, default_avoid_text,
  text_or_default,
}
use finance_next.Money.State.{
  Analysis, Run, ActionPatch, PageRequest, listing, analyzing, getting, updating, backtesting,
  Ended, gave, threw, Gateway, Page, Program, ◌>>=◌, ◌>>◌, return, set, try_catch, finally, call,
  set_error, set_run_error, with_run, with_old_run, show_run, push_route,
}
use finance_next.Money.Provider.{Attempt, redirect, allow, ai_provider_analysis_attempt_from_gate}
use finance_next.Money.Plan.{
  ValidationPlan, name_of, auto_validation_plan_from_analysis,
  backtest_action_update_from_validation_result, optimistic_validation_runs_from_handles,
}
use finance_next.Money.Handoff.{OptionPayload}
use finance_next.Money.Preview.{run_from_analysis}
use finance_next.Money.Client.{Client}

module _ {E N : Type 0} (c : Client E N) where
  -- `if (redirectIfProviderBlocksAnalysis()) return;` before a handler.
  abbrev pub attempt : Attempt → Handler c Unit → Handler c Unit
  attempt (redirect href) body = push_route href
  attempt allow body = body

  abbrev pub unless_blocked : Handler c Unit → Handler c Unit
  unless_blocked body = attempt (ai_provider_analysis_attempt_from_gate c.provider) body

  abbrev pub request_of : FormState → GoalRequest
  request_of state = ai_goal_request_from_form_state c.lower c.upper state

  abbrev pub apply_given : Option FormState → FormState → Handler c Unit
  apply_given none next = skip c
  apply_given (some target) next = apply_form_state c next

  unfoldable pub on_analyze_and_validate : Option FormState → Handler c Unit
  on_analyze_and_validate target = with_page c λ page. unless_blocked (
      let next : FormState =
        ai_goal_analyze_target_form_state c.lower c.upper c.num c.day (runs_of c page) page.form
          target in
      apply_given target next >> analyze_and_validate_goal c (request_of next) >> skip c)

  unfoldable pub on_submit : Handler c Unit
  on_submit = with_page c λ page.
      on_analyze_and_validate (
        some (ai_goal_executable_form_state c.lower c.upper c.num c.day (runs_of c page) page.form))

  abbrev pub scan : FormState → Handler c Unit
  scan next = apply_form_state c next >> analyze_and_validate_goal c (request_of next) >> skip c

  unfoldable pub on_daily_radar_scan : Option FormState → Handler c Unit
  on_daily_radar_scan target = with_page c λ page. unless_blocked (
      scan (elim target [
        | none ↦ daily_radar_form_state_from_runs c.lower c.upper c.num c.day (runs_of c page)
        | some next ↦ next
      ]))

  abbrev pub note_refreshed : Run N → Option (Analysis N) → Handler c Unit
  note_refreshed detail none = skip c
  note_refreshed detail (some refreshed) =
      try_catch
        (update_action c detail.id "refresh_context" (record {
          status = "done";
          related_id = some refreshed.id;
          href = some ("/ai-money?" ++ c.links.search (("runId", refreshed.id) ∷ []));
          note = "已重新扫描为新 AI run：" ++ refreshed.id;
        })
          >>= λ updated. set λ p. record p { runs = with_old_run updated p.runs })
        λ e. set_error (some e)

  unfoldable pub refresh_run : String → Handler c Unit
  refresh_run id = with_page c λ page. busy_with_runs c (
      get_run c id >>= λ detail.
      let restored : FormState =
        form_state_from_ai_goal_run c.lower c.upper c.num detail.value page.form in
      apply_form_state c restored
      >> unless_blocked (
          analyze_and_validate_goal c (request_of restored) >>= λ next. note_refreshed detail next))

  abbrev pub validate_detail : FormState → Run N → Option (Analysis N) → Handler c Unit
  validate_detail form detail none = set_run_error (some (c.message "此 AI run 缺少可验证的分析结果。"))
  validate_detail form detail (some a) =
      set (λ p. record p { analysis = some a; active_run = some detail })
      >> apply_form_state c (form_state_from_ai_goal_run c.lower c.upper c.num detail.value form)
      >> set (λ p. record p { runs = with_run detail p.runs })
      >> run_validation_backtests c a
      >> skip c

  unfoldable pub validate_run : String → Handler c Unit
  validate_run id = with_page c λ page.
      busy_with_runs c (get_run c id >>= λ detail. validate_detail page.form detail detail.analysis)

  -- The three handlers of a template of goals.
  abbrev pub template_form : Json N → FormState → FormState
  template_form template form = form_state_from_goal_template c.lower c.upper c.num template form

  unfoldable pub apply_goal_template : Json N → Handler c Unit
  apply_goal_template template =
      with_page c λ page. apply_form_state c (template_form template page.form)

  unfoldable pub analyze_goal_template : Json N → Handler c Unit
  analyze_goal_template template = with_page c λ page.
      apply_form_state c (template_form template page.form)
      >> unless_blocked
          (run_goal_analysis c (request_of (template_form template page.form)) >> skip c)

  unfoldable pub validate_goal_template : Json N → Handler c Unit
  validate_goal_template template = with_page c λ page.
      apply_form_state c (template_form template page.form)
      >> on_analyze_and_validate (some (template_form template page.form))
