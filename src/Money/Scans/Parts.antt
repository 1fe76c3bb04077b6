-- ===== src/Money/Scans/Parts.antt =====
-- The parts of the handlers of the AI Money page: the analysis of a goal, the open run and the backtests
-- (client/app/(dashboard)/ai-money/client.tsx). A handler runs alone from its start to its end; what
-- withActivity adds is the entry in the activity center alone (Activity/Lifecycle.antt).
use Prim.Native.String.{◌++◌}
use finance_next.Base.{
  String, true, false, Option, none, some, List, [], ◌∷◌, if◌then◌else◌, ◌==◌, map, string_key,
}
use finance_next.Json.{Json, at_key}
use finance_next.Preset.Draft.{BacktestRequest, backtest_request_from_draft}
use finance_next.Decision.Evidence.{is_empty, text_of}
use finance_next.Goal.{
  FormState, GoalRequest, form_state_from_ai_goal_run, default_behavior_text,
  default_narrative_text, default_avoid_text, text_or_default,
}
use finance_next.Money.State.{
  Analysis, Run, ActionPatch, listing, analyzing, getting, updating, backtesting, Page, Program,
  ◌>>=◌, ◌>>◌, return, set, try_catch, finally, call, set_error, set_run_error, with_run, show_run,
  push_route,
}
use finance_next.Money.Plan.{
  ValidationPlan, auto_validation_plan_from_analysis, backtest_action_update_from_validation_result,
  optimistic_validation_runs_from_handles,
}
use finance_next.Money.Handoff.{OptionPayload}
use finance_next.Money.Preview.{run_from_analysis}
use finance_next.Money.Client.{Client}

module _ {E N : Type 0} (c : Client E N) where
  abbrev pub Handler : Type 0 → Type 0
  Handler A = Program E N (OptionPayload N) A

  -- What a handler reads of the page when it starts.
  unfoldable pub with_page : {A : Type 0} → (Page E N (OptionPayload N) → Handler A) → Handler A
  with_page f p = f p p

  abbrev pub skip : Handler Unit
  skip = return tt

  abbrev pub runs_of : Page E N (OptionPayload N) → List (Json N)
  runs_of p = map (λ (r : Run N). r.value) p.runs

  -- `updateAIGoalRunAction`
  abbrev pub update_action : String → String → ActionPatch → Handler (Run N)
  update_action id action patch =
      call (updating id action patch) λ sent. c.gateway.update_action sent id action patch

  unfoldable pub refresh_runs : Handler Unit
  refresh_runs =
      set (λ p. record p { runs_busy = true; run_error = none })
      >> finally
          (try_catch
            (call listing c.gateway.list_runs >>= λ runs. set λ p. record p { runs = runs })
            λ e. set_run_error (some e))
          λ p. record p { runs_busy = false }

  -- `applyFormState`
  abbrev pub shown : Option String → String → Option String
  shown v fallback = some (text_or_default v fallback)

  unfoldable pub apply_form_state : FormState → Handler Unit
  apply_form_state next = set λ p. record p {
    form = record next {
      behavior_text = shown next.behavior_text default_behavior_text;
      narrative_text = shown next.narrative_text default_narrative_text;
      avoid_text = shown next.avoid_text default_avoid_text;
    };
  }

  unfoldable pub run_goal_analysis : GoalRequest → Handler (Option (Analysis N))
  run_goal_analysis payload =
      set (λ p. record p { busy = true; error = none })
      >> finally
          (try_catch
            (call (analyzing payload) (λ sent. c.gateway.analyze sent payload) >>= λ next.
              set (λ p. record p { analysis = some next })
              >> show_run (
                  run_from_analysis c.num c.lower c.now next payload.horizon
                    payload.risk_preference)
              >> return (some next))
            λ e. set_error (some e) >> return none)
          λ p. record p { busy = false }

  -- `if (detail.analysis) setAnalysis(detail.analysis)`
  abbrev pub show_analysis : Option (Analysis N) → Handler Unit
  show_analysis none = skip
  show_analysis (some a) = set λ p. record p { analysis = some a }

  -- The texts of the constraints are not restored.
  abbrev pub restore_form : FormState → Handler Unit
  restore_form restored = set λ p. record p {
    form = record p.form {
      goal = restored.goal;
      symbols_text = restored.symbols_text;
      horizon = restored.horizon;
      risk_preference = restored.risk_preference;
      execution_mode = restored.execution_mode;
    };
  }

  abbrev pub get_run : String → Handler (Run N)
  get_run id = call (getting id) λ sent. c.gateway.get_run sent id

  abbrev pub busy_with_runs : Handler Unit → Handler Unit
  busy_with_runs body =
      set (λ p. record p { runs_busy = true; run_error = none })
      >> finally (try_catch body (λ e. set_run_error (some e))) λ p. record p { runs_busy = false }

  unfoldable pub open_run : String → Handler Unit
  open_run id = with_page λ page. busy_with_runs (
      get_run id >>= λ detail.
      show_analysis detail.analysis
      >> set (λ p. record p { active_run = some detail })
      >> restore_form (form_state_from_ai_goal_run c.lower c.upper c.num detail.value page.form)
      >> set λ p. record p { runs = with_run detail p.runs })

  -- The update of a stored action, with the error shown.
  abbrev pub store_action : String → String → ActionPatch → Handler Unit
  store_action id action patch =
      try_catch (update_action id action patch >>= λ updated. show_run updated)
        λ e. set_error (some e)

  abbrev pub store_for : Option (Analysis N) → String → ActionPatch → Handler Unit
  store_for none action patch = skip
  store_for (some a) action patch = if a.id == "" then skip else store_action a.id action patch

  abbrev pub start_backtest : BacktestRequest N → Handler (Json N)
  start_backtest r = call (backtesting r) λ sent. c.gateway.create_backtest sent r

  abbrev pub run_id_of : Json N → String
  run_id_of handle = text_of c.num (at_key "runId" (some handle))

  abbrev pub draft_key : Json N → String
  draft_key draft =
      text_of c.num (at_key "name" (some draft))
      ++ "-"
      ++ text_of c.num (at_key "symbol" (some draft))

  abbrev pub backtest_draft : Json N → Option (BacktestRequest N) → Handler Unit
  backtest_draft draft none = skip
  backtest_draft draft (some request) = with_page λ page.
      set (λ p. record p { backtest_busy_key = some (draft_key draft); error = none })
      >> finally
          (try_catch
            (start_backtest request >>= λ handle.
              store_for page.analysis "backtest" (record {
                status = "done";
                related_id = some (run_id_of handle);
                href = some ("/backtests/" ++ run_id_of handle);
                note = "已发起 AI 草案回测";
              })
              >> push_route ("/backtests/" ++ run_id_of handle))
            λ e. set_error (some e))
          λ p. record p { backtest_busy_key = none }

  unfoldable pub run_backtest_draft : Json N → Handler Unit
  run_backtest_draft draft =
      backtest_draft draft (backtest_request_from_draft c.num c.lower c.upper c.start c.stop draft)

  -- The loop that starts the backtests one after the other.
  unfoldable pub start_backtests : List (Json N × BacktestRequest N) → Handler (List (Json N))
  start_backtests [] = return []
  start_backtests ((draft, request) ∷ items) = start_backtest request >>= λ handle.
      start_backtests items >>= λ handles. return (handle ∷ handles)

  abbrev pub show_started : Analysis N → ValidationPlan N → List (Json N) → Handler Unit
  show_started target plan [] = skip
  show_started target plan (handle ∷ handles) =
      set (λ p. record p {
        validation_runs =
            optimistic_validation_runs_from_handles c.num c.iso plan.items (handle ∷ handles);
        validation_error = none;
      })
      >> store_action target.id "backtest"
          (backtest_action_update_from_validation_result c.num plan (handle ∷ handles))

  abbrev pub plan_for : Analysis N → ValidationPlan N
  plan_for target =
      auto_validation_plan_from_analysis c.num c.lower c.upper c.start c.stop (some target.value)

  unfoldable pub run_validation_backtests : Analysis N → Handler (List (Json N))
  run_validation_backtests target =
      if is_empty (plan_for target).items
      then return []
      else set (λ p. record p { batch_backtest_busy = true; error = none })
        >> finally
            (try_catch
              (start_backtests (plan_for target).items >>= λ handles.
                show_started target (plan_for target) handles >> return handles)
              λ e. set_error (some e) >> return [])
            λ p. record p { batch_backtest_busy = false }

  unfoldable pub run_all_backtests : Analysis N → Handler Unit
  run_all_backtests target = run_validation_backtests target >> skip

  abbrev pub validate_next : Option (Analysis N) → Handler Unit
  validate_next none = skip
  validate_next (some next) = run_validation_backtests next >> skip

  unfoldable pub analyze_and_validate_goal : GoalRequest → Handler (Option (Analysis N))
  analyze_and_validate_goal payload =
      set (λ p. record p { pipeline_busy = true })
      >> finally (run_goal_analysis payload >>= λ next. validate_next next >> return next)
          λ p. record p { pipeline_busy = false }
