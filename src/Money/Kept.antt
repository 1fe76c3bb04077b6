-- ===== src/Money/Kept.antt =====
-- Each handler keeps the page sound: the marks that it sets it takes back, however it ends.
use finance_next.Base.{
  ◌≡◌, refl, String, Bool, true, false, Option, none, some, List, [], ◌∷◌, ap, string_key,
}
use finance_next.Json.{Json}
use finance_next.Preset.Draft.{BacktestRequest}
use finance_next.Decision.Evidence.{is_empty}
use finance_next.Goal.{FormState, GoalRequest}
use finance_next.Money.State.{Analysis, ActionPatch, backtesting, updating, analyzing, Page}
use finance_next.Money.Provider.{Attempt, redirect, allow, ai_provider_analysis_attempt_from_gate}
use finance_next.Money.Handoff.{OptionPayload}
use finance_next.Money.Client.{Client}
use finance_next.Money.Scans
use finance_next.Money.Logic.{
  Keeps, Keeps-bind, Keeps-then, Keeps-try, Keeps-if, Keeps-within, Keeps-return, Keeps-set,
}
use finance_next.Money.Sound.{
  Marks, marks, IsSound, set_error-Keeps, push_route-Keeps, show_run-Keeps, call-Keeps,
}

-- The provider lets the page ask for an analysis.
abbrev pub Open : {E N : Type 0} → Client E N → Type 0
Open c = ai_provider_analysis_attempt_from_gate c.provider ≡ allow

module _ {E N : Type 0} (c : Client E N) (Q : GoalRequest → Type 0) where
  pub run_goal_analysis-Keeps :
      (ρ π : Bool) (payload : GoalRequest)
      → Q payload
      → Keeps (IsSound Q (marks ρ π)) (Scans.run_goal_analysis c payload)
  unfolding Scans.run_goal_analysis
  run_goal_analysis-Keeps ρ π payload safe =
      let m : Marks = record (marks ρ π) { busy = true } in
      Keeps-within (IsSound Q (marks ρ π)) (IsSound Q m) _ _ _
        (λ p (h, t, s). (ap (λ (x : Marks). record x { busy = true }) h, t, s))
        (Keeps-try (IsSound Q m) _ _
          (Keeps-bind (IsSound Q m) _ _ (call-Keeps _ _ _ Q m (analyzing payload) _ safe) λ next.
            Keeps-then (IsSound Q m) _ _
              (Keeps-then (IsSound Q m) _ _ (Keeps-set (IsSound Q m) _ λ p h. h)
                (show_run-Keeps _ _ _ Q m _))
              (Keeps-return (IsSound Q m) _))
          λ e.
            Keeps-then (IsSound Q m) _ _ (set_error-Keeps _ _ _ Q m _)
              (Keeps-return (IsSound Q m) _))
        λ p (h, t, s). (ap (λ (x : Marks). record x { busy = false }) h, t, s)

  pub update_action-Keeps :
      (m : Marks) (id action : String) (patch : ActionPatch)
      → Keeps (IsSound Q m) (Scans.update_action c id action patch)
  update_action-Keeps m id action patch = call-Keeps _ _ _ Q m (updating id action patch) _ tt

  pub store_action-Keeps :
      (m : Marks) (id action : String) (patch : ActionPatch)
      → Keeps (IsSound Q m) (Scans.store_action c id action patch)
  store_action-Keeps m id action patch =
      Keeps-try (IsSound Q m) _ _
        (Keeps-bind (IsSound Q m) _ _ (update_action-Keeps m id action patch)
          (show_run-Keeps _ _ _ Q m))
        λ e. set_error-Keeps _ _ _ Q m _

  start_backtests-Keeps :
      (m : Marks) (items : List (Json N × BacktestRequest N))
      → Keeps (IsSound Q m) (Scans.start_backtests c items)
  unfolding Scans.start_backtests
  start_backtests-Keeps m [] = Keeps-return (IsSound Q m) _
  start_backtests-Keeps m ((draft, request) ∷ items) =
      Keeps-bind (IsSound Q m) _ _ (call-Keeps _ _ _ Q m (backtesting request) _ tt) λ handle.
        Keeps-bind (IsSound Q m) _ _ (start_backtests-Keeps m items)
          λ handles. Keeps-return (IsSound Q m) _

  show_started-Keeps :
      (m : Marks) (a : Analysis N) (handles : List (Json N))
      → Keeps (IsSound Q m) (Scans.show_started c a (Scans.plan_for c a) handles)
  show_started-Keeps m a [] = Keeps-return (IsSound Q m) _
  show_started-Keeps m a (handle ∷ handles) =
      Keeps-then (IsSound Q m) _ _ (Keeps-set (IsSound Q m) _ λ p h. h)
        (store_action-Keeps m a.id "backtest" _)

  pub run_validation_backtests-Keeps :
      (ρ π : Bool) (a : Analysis N)
      → Keeps (IsSound Q (marks ρ π)) (Scans.run_validation_backtests c a)
  unfolding Scans.run_validation_backtests
  run_validation_backtests-Keeps ρ π a =
      let m : Marks = record (marks ρ π) { batch_backtest_busy = true } in
      Keeps-if (IsSound Q (marks ρ π)) (is_empty (Scans.plan_for c a).items) _ _
        (Keeps-return (IsSound Q (marks ρ π)) _)
        (Keeps-within (IsSound Q (marks ρ π)) (IsSound Q m) _ _ _
          (λ p (h, t, s). (ap (λ (x : Marks). record x { batch_backtest_busy = true }) h, t, s))
          (Keeps-try (IsSound Q m) _ _
            (Keeps-bind (IsSound Q m) _ _ (start_backtests-Keeps m (Scans.plan_for c a).items)
              λ handles.
                Keeps-then (IsSound Q m) _ _ (show_started-Keeps m a handles)
                  (Keeps-return (IsSound Q m) _))
            λ e.
              Keeps-then (IsSound Q m) _ _ (set_error-Keeps _ _ _ Q m _)
                (Keeps-return (IsSound Q m) _))
          λ p (h, t, s). (ap (λ (x : Marks). record x { batch_backtest_busy = false }) h, t, s))

  pub validate_next-Keeps :
      (ρ π : Bool) (next : Option (Analysis N))
      → Keeps (IsSound Q (marks ρ π)) (Scans.validate_next c next)
  validate_next-Keeps ρ π none = Keeps-return (IsSound Q (marks ρ π)) _
  validate_next-Keeps ρ π (some next) =
      Keeps-then (IsSound Q (marks ρ π)) _ _ (run_validation_backtests-Keeps ρ π next)
        (Keeps-return (IsSound Q (marks ρ π)) _)

  pub analyze_and_validate_goal-Keeps :
      (ρ : Bool) (payload : GoalRequest)
      → Q payload
      → Keeps (IsSound Q (marks ρ false)) (Scans.analyze_and_validate_goal c payload)
  unfolding Scans.analyze_and_validate_goal
  analyze_and_validate_goal-Keeps ρ payload safe =
      let m : Marks = marks ρ true in
      Keeps-within (IsSound Q (marks ρ false)) (IsSound Q m) _ _ _
        (λ p (h, t, s). (ap (λ (x : Marks). record x { pipeline_busy = true }) h, t, s))
        (Keeps-bind (IsSound Q m) _ _ (run_goal_analysis-Keeps ρ true payload safe) λ next.
          Keeps-then (IsSound Q m) _ _ (validate_next-Keeps ρ true next)
            (Keeps-return (IsSound Q m) _))
        λ p (h, t, s). (ap (λ (x : Marks). record x { pipeline_busy = false }) h, t, s)

  pub apply_form_state-Keeps :
      (m : Marks) (next : FormState) → Keeps (IsSound Q m) (Scans.apply_form_state c next)
  unfolding Scans.apply_form_state
  apply_form_state-Keeps m next = Keeps-set (IsSound Q m) _ λ p h. h

  attempt-Keeps :
      (m : Marks) (a : Attempt) (body : Scans.Handler c Unit)
      → (a ≡ allow → Keeps (IsSound Q m) body)
      → Keeps (IsSound Q m) (Scans.attempt c a body)
  attempt-Keeps m (redirect href) body h = push_route-Keeps _ _ _ Q m href
  attempt-Keeps m allow body h = h refl

  pub unless_blocked-Keeps :
      (m : Marks) (body : Scans.Handler c Unit)
      → (Open c → Keeps (IsSound Q m) body)
      → Keeps (IsSound Q m) (Scans.unless_blocked c body)
  unless_blocked-Keeps m body h =
      attempt-Keeps m (ai_provider_analysis_attempt_from_gate c.provider) body h

  -- The form is made the request of an analysis.
  pub analysis_of-Keeps :
      (ρ : Bool) (state : FormState)
      → Q (Scans.request_of c state)
      → Keeps
          (IsSound Q (marks ρ false))
          (Scans.analyze_and_validate_goal c (Scans.request_of c state))
  analysis_of-Keeps ρ state = analyze_and_validate_goal-Keeps ρ (Scans.request_of c state)

module _ {E N : Type 0} (c : Client E N) where
  module _ (I : Page E N (OptionPayload N) → Type 0) where
    -- A handler that reads the page keeps what it keeps for each page that it could read.
    pub Keeps-page :
        {A : Type 0} (f : Page E N (OptionPayload N) → Scans.Handler c A)
        → ((page : Page E N (OptionPayload N)) → Keeps I (f page))
        → Keeps I (Scans.with_page c f)
    unfolding Keeps Scans.with_page
    Keeps-page f h p = h p p

    pub Keeps-skip : Keeps I (Scans.skip c)
    Keeps-skip = Keeps-return I tt
