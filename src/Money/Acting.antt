-- ===== src/Money/Acting.antt =====
-- The handlers that save strategies, take them over to paper and complete actions leave the page sound
-- and with no work marked as running.
use finance_next.Base.{String, Bool, true, false, not, ◌&&◌, Option, none, some, ap}
use finance_next.Json.{Json, at_key}
use finance_next.Decision.Evidence.{text_of}
use finance_next.Goal.{GoalRequest}
use finance_next.Validation.Pick.{PaperCandidate}
use finance_next.Decision.Transition.{Transition}
use finance_next.Money.State.{Analysis, ActionPatch, saving}
use finance_next.Money.Handoff.{OptionPayload}
use finance_next.Money.Client.{Client}
use finance_next.Money.Scans
use finance_next.Money.Actions
use finance_next.Money.Logic.{
  Keeps, Keeps-bind, Keeps-then, Keeps-try, Keeps-if, Keeps-within, Keeps-return,
}
use finance_next.Money.Sound.{
  Marks, marks, IsSound, IsAtRest, set_error-Keeps, push_route-Keeps, show_run-Keeps, call-Keeps,
}
use finance_next.Money.Kept.{update_action-Keeps, store_action-Keeps, Keeps-page, Keeps-skip}

module _ {E N : Type 0} (c : Client E N) (Q : GoalRequest → Type 0) where
  watch_on_paper-Keeps :
      (a : Analysis N) (candidate : PaperCandidate N)
      → Keeps (IsAtRest Q) (Actions.watch_on_paper c a candidate)
  watch_on_paper-Keeps a candidate =
      Keeps-bind (IsAtRest Q) _ _ (update_action-Keeps c Q (marks false false) a.id "paper_watch" _)
        (show_run-Keeps _ _ _ Q (marks false false))

  accept_candidate-Keeps :
      (skipped : Bool) (a : Analysis N) (candidate : PaperCandidate N)
      → Keeps (IsAtRest Q) (Actions.accept_candidate c skipped a candidate)
  unfolding Actions.accept_candidate
  accept_candidate-Keeps skipped a candidate =
      let m : Marks = marks false false in
      Keeps-then (IsAtRest Q) _ _ (set_error-Keeps _ _ _ Q m _) (
        Keeps-try (IsAtRest Q) _ _
          (Keeps-then (IsAtRest Q) _ _
            (Keeps-if (IsAtRest Q) skipped _ _ (Keeps-skip c (IsAtRest Q)) (
              Keeps-then (IsAtRest Q) _ _ (update_action-Keeps c Q m a.id "strategy" _)
                (Keeps-skip c (IsAtRest Q))))
            (watch_on_paper-Keeps a _))
          λ e. set_error-Keeps _ _ _ Q m _)

  if_open-Keeps :
      (a : Option (Analysis N)) (f : Analysis N → Scans.Handler c Unit)
      → ((a : Analysis N) → Keeps (IsAtRest Q) (f a))
      → Keeps (IsAtRest Q) (Actions.if_open c (Scans.skip c) a f)
  if_open-Keeps none f h = Keeps-skip c (IsAtRest Q)
  if_open-Keeps (some a) f h = h a

  pub accept_paper_candidate-Keeps :
      (candidate : PaperCandidate N)
      → Keeps (IsAtRest Q) (Actions.accept_paper_candidate c candidate)
  unfolding Actions.accept_paper_candidate
  accept_paper_candidate-Keeps candidate = Keeps-page c (IsAtRest Q) _ λ page.
      if_open-Keeps (Actions.open_analysis c page.analysis) _
        λ a. accept_candidate-Keeps false a candidate

  store_saved-Keeps :
      (m : Marks) (a : Option (Analysis N)) (patch : ActionPatch)
      → Keeps (IsSound Q m) (Actions.store_saved c a patch)
  store_saved-Keeps m none patch = Keeps-return (IsSound Q m) true
  store_saved-Keeps m (some a) patch =
      Keeps-try (IsSound Q m) _ _
        (Keeps-bind (IsSound Q m) _ _ (update_action-Keeps c Q m a.id "strategy" patch) λ updated.
          Keeps-then (IsSound Q m) _ _ (show_run-Keeps _ _ _ Q m updated)
            (Keeps-return (IsSound Q m) true))
        λ e.
          Keeps-then (IsSound Q m) _ _ (set_error-Keeps _ _ _ Q m _)
            (Keeps-return (IsSound Q m) false)

  finish_save-Keeps :
      (m : Marks) (redirected : Bool) (href : String)
      → Keeps (IsSound Q m) (Actions.finish_save c redirected href)
  finish_save-Keeps m redirected href =
      Keeps-then (IsSound Q m) _ _
        (Keeps-if (IsSound Q m) redirected _ _ (push_route-Keeps _ _ _ Q m href)
          (Keeps-skip c (IsSound Q m)))
        (Keeps-return (IsSound Q m) _)

  save_given-Keeps :
      (redirected required : Bool) (analysis : Option (Analysis N)) (draft : Json N)
      (payload : Option (OptionPayload N))
      → Keeps (IsAtRest Q) (Actions.save_given c redirected required analysis draft payload)
  save_given-Keeps redirected required analysis draft none =
      Keeps-then (IsAtRest Q) _ _ (set_error-Keeps _ _ _ Q (marks false false) _)
        (Keeps-return (IsAtRest Q) none)
  save_given-Keeps redirected required analysis draft (some payload) =
      let key : Option String = some (Scans.draft_key c draft) in
      let m : Marks = record (marks false false) { strategy_save_busy_key = key } in
      Keeps-within (IsAtRest Q) (IsSound Q m) _ _ _
        (λ p (h, t, s). (ap (λ (x : Marks). record x { strategy_save_busy_key = key }) h, t, s))
        (Keeps-try (IsSound Q m) _ _
          (Keeps-bind (IsSound Q m) _ _ (call-Keeps _ _ _ Q m (saving payload) _ tt) λ response.
            Keeps-bind (IsSound Q m) _ _ (store_saved-Keeps m (Actions.open_analysis c analysis) _)
              λ done.
                Keeps-if (IsSound Q m) (not done && required) _ _ (Keeps-return (IsSound Q m) none)
                  (finish_save-Keeps m redirected _))
          λ e.
            Keeps-then (IsSound Q m) _ _ (set_error-Keeps _ _ _ Q m _)
              (Keeps-return (IsSound Q m) none))
        λ p (h, t, s). (ap (λ (x : Marks). record x { strategy_save_busy_key = none }) h, t, s)

  save_strategy_draft_core-Keeps :
      (redirected required : Bool) (analysis : Option (Analysis N)) (draft : Json N)
      → Keeps (IsAtRest Q) (Actions.save_strategy_draft_core c redirected required analysis draft)
  unfolding Actions.save_strategy_draft_core
  save_strategy_draft_core-Keeps redirected required analysis draft =
      save_given-Keeps redirected required analysis draft _

  pub save_strategy_draft-Keeps :
      (draft : Json N) → Keeps (IsAtRest Q) (Actions.save_strategy_draft c draft)
  unfolding Actions.save_strategy_draft
  save_strategy_draft-Keeps draft = Keeps-page c (IsAtRest Q) _ λ page.
      Keeps-then (IsAtRest Q) _ _ (save_strategy_draft_core-Keeps true false page.analysis draft)
        (Keeps-skip c (IsAtRest Q))

  accept_saved-Keeps :
      (a : Analysis N) (candidate : PaperCandidate N) (saved : Option String)
      → Keeps (IsAtRest Q) (Actions.accept_saved c a candidate saved)
  accept_saved-Keeps a candidate none = Keeps-skip c (IsAtRest Q)
  accept_saved-Keeps a candidate (some href) = accept_candidate-Keeps true a _

  pub save_and_accept_paper_candidate-Keeps :
      (candidate : PaperCandidate N)
      → Keeps (IsAtRest Q) (Actions.save_and_accept_paper_candidate c candidate)
  unfolding Actions.save_and_accept_paper_candidate
  save_and_accept_paper_candidate-Keeps candidate = Keeps-page c (IsAtRest Q) _ λ page.
      if_open-Keeps (Actions.open_analysis c page.analysis) _ λ a.
        Keeps-bind (IsAtRest Q) _ _
          (save_strategy_draft_core-Keeps false true page.analysis candidate.draft)
          (accept_saved-Keeps a candidate)

  complete-Keeps :
      (a : Analysis N) (item : Json N) (transition : Option Transition)
      → Keeps (IsAtRest Q) (Actions.complete c a item transition)
  complete-Keeps a item none = Keeps-skip c (IsAtRest Q)
  complete-Keeps a item (some t) =
      let key : Option String = some (text_of c.num (at_key "id" (some item))) in
      let m : Marks = record (marks false false) { action_busy_key = key } in
      Keeps-within (IsAtRest Q) (IsSound Q m) _ _ _
        (λ p (h, t, s). (ap (λ (x : Marks). record x { action_busy_key = key }) h, t, s))
        (store_action-Keeps c Q m a.id _ _)
        λ p (h, t, s). (ap (λ (x : Marks). record x { action_busy_key = none }) h, t, s)

  pub update_queue_action-Keeps :
      (item : Json N) → Keeps (IsAtRest Q) (Actions.update_queue_action c item)
  unfolding Actions.update_queue_action
  update_queue_action-Keeps item =
      Keeps-page c (IsAtRest Q) _
        λ page. if_open-Keeps (Actions.open_analysis c page.analysis) _ λ a. complete-Keeps a item _
