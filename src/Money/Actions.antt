-- ===== src/Money/Actions.antt =====
-- The handlers of the AI Money page that save a strategy, take it over to paper and complete an action
-- (client/app/(dashboard)/ai-money/client.tsx).
use Prim.Native.String.{◌++◌}
use finance_next.Base.{
  String, Bool, true, false, not, ◌&&◌, Option, none, some, if◌then◌else◌, ◌==◌, string_key,
}
use finance_next.Json.{Json, at_key}
use finance_next.Validation.Pick.{PaperCandidate}
use finance_next.Decision.Evidence.{text_of}
use finance_next.Decision.Transition.{Transition, manual_action_transition}
use finance_next.Money.State.{
  Analysis, ActionPatch, saving, ◌>>=◌, ◌>>◌, return, set, try_catch, finally, call, set_error,
  show_run, push_route,
}
use finance_next.Money.Handoff.{
  OptionPayload, if_given, option_payload_from_strategy_draft, option_create_redirect_href,
  strategy_action_patch_from_saved_draft, strategy_href_with_ai_run_id,
  paper_watch_action_patch_from_candidate,
}
use finance_next.Money.Client.{Client}
use finance_next.Money.Scans.{Handler, with_page, skip, update_action, store_action, draft_key}

module _ {E N : Type 0} (c : Client E N) where
  -- `analysis?.id`, where that is not empty.
  abbrev pub open_analysis : Option (Analysis N) → Option (Analysis N)
  open_analysis none = none
  open_analysis (some a) = if a.id == "" then none else some a

  abbrev pub if_open : {A : Type 0} → A → Option (Analysis N) → (Analysis N → A) → A
  if_open closed none f = closed
  if_open closed (some a) f = f a

  abbrev pub with_href : PaperCandidate N → String → PaperCandidate N
  with_href candidate href = record candidate { strategy_href = href }

  -- `${candidate.score}`
  abbrev pub printed_score : Option N → String
  printed_score none = "null"
  printed_score (some s) = c.num.show s

  -- The patch of "strategy" on the adoption of a candidate.
  abbrev pub adoption_patch : PaperCandidate N → ActionPatch
  adoption_patch candidate = record {
    status = "ready";
    related_id = some (text_of c.num (some candidate.strategy_id));
    href = some candidate.strategy_href;
    note =
        "AI 推荐进入 paper 观察："
        ++ text_of c.num (at_key "name" (some candidate.draft))
        ++ "，评分 "
        ++ printed_score candidate.score
        ++ "，关联回测 "
        ++ text_of c.num (some candidate.run_id);
  }

  abbrev pub watch_on_paper : Analysis N → PaperCandidate N → Handler c Unit
  watch_on_paper a candidate =
      update_action c a.id "paper_watch"
        (paper_watch_action_patch_from_candidate c.num c.hrefs c.ar a candidate)
      >>= λ updated. show_run updated

  unfoldable pub accept_candidate : Bool → Analysis N → PaperCandidate N → Handler c Unit
  accept_candidate skip_strategy a candidate =
      let adopted : PaperCandidate N =
        with_href candidate
          (strategy_href_with_ai_run_id c.num c.hrefs candidate.strategy_href a.id) in
      set_error none
      >> try_catch
          ((if skip_strategy
              then skip c
              else update_action c a.id "strategy" (adoption_patch adopted) >> skip c)
            >> watch_on_paper a adopted)
          λ e. set_error (some e)

  unfoldable pub accept_paper_candidate : PaperCandidate N → Handler c Unit
  accept_paper_candidate candidate =
      with_page c λ page.
        if_open (skip c) (open_analysis page.analysis) λ a. accept_candidate false a candidate

  -- The stored action of a saved strategy: `true` where that succeeded or there is no analysis.
  abbrev pub store_saved : Option (Analysis N) → ActionPatch → Handler c Bool
  store_saved none patch = return true
  store_saved (some a) patch =
      try_catch
        (update_action c a.id "strategy" patch >>= λ updated. show_run updated >> return true)
        λ e. set_error (some e) >> return false

  abbrev pub saved_patch : Option (Analysis N) → Json N → Json N → String → ActionPatch
  saved_patch none draft response href = record {
    status = "";
    related_id = none;
    href = none;
    note = "";
  }
  saved_patch (some a) draft response href =
      strategy_action_patch_from_saved_draft c.num c.hrefs a draft response href

  abbrev pub id_of : Option (Analysis N) → String
  id_of none = ""
  id_of (some a) = a.id

  -- The page that follows, `none` in place of null.
  abbrev pub finish_save : Bool → String → Handler c (Option String)
  finish_save redirected href =
      (if redirected then push_route href else skip c) >> return (some href)

  abbrev pub save_option : OptionPayload N → Handler c (Json N)
  save_option payload = call (saving payload) λ sent. c.gateway.create_option sent payload

  abbrev pub save_payload :
      Bool → Bool → Option (Analysis N) → Json N → OptionPayload N → Handler c (Option String)
  save_payload redirected required analysis draft payload =
      set (λ p. record p { strategy_save_busy_key = some (draft_key c draft); error = none })
      >> finally
          (try_catch
            (save_option payload >>= λ response.
              let href : String =
                option_create_redirect_href c.num c.hrefs c.links response (id_of analysis) in
              store_saved (open_analysis analysis) (saved_patch analysis draft response href)
              >>= λ done. if not done && required then return none else finish_save redirected href)
            λ e. set_error (some e) >> return none)
          λ p. record p { strategy_save_busy_key = none }

  abbrev pub save_given :
      Bool
      → Bool
      → Option (Analysis N)
      → Json N
      → Option (OptionPayload N)
      → Handler c (Option String)
  save_given redirected required analysis draft none =
      set_error (some (c.message "该 AI 草案不是可直接保存的 Grid DCA 策略。")) >> return none
  save_given redirected required analysis draft (some payload) =
      save_payload redirected required analysis draft payload

  unfoldable pub save_strategy_draft_core :
      Bool → Bool → Option (Analysis N) → Json N → Handler c (Option String)
  save_strategy_draft_core redirected required analysis draft =
      save_given redirected required analysis draft
        (option_payload_from_strategy_draft c.num c.lower c.upper c.json draft (id_of analysis))

  unfoldable pub save_strategy_draft : Json N → Handler c Unit
  save_strategy_draft draft =
      with_page c λ page. save_strategy_draft_core true false page.analysis draft >> skip c

  abbrev pub accept_saved : Analysis N → PaperCandidate N → Option String → Handler c Unit
  accept_saved a candidate none = skip c
  accept_saved a candidate (some href) = accept_candidate true a (with_href candidate href)

  unfoldable pub save_and_accept_paper_candidate : PaperCandidate N → Handler c Unit
  save_and_accept_paper_candidate candidate = with_page c λ page.
      if_open (skip c) (open_analysis page.analysis) λ a.
        save_strategy_draft_core false true page.analysis candidate.draft >>= λ saved.
        accept_saved a candidate saved

  abbrev pub complete : Analysis N → Json N → Option Transition → Handler c Unit
  complete a item none = skip c
  complete a item (some t) =
      let id : String = text_of c.num (at_key "id" (some item)) in
      set (λ p. record p { action_busy_key = some id; error = none })
      >> finally
          (store_action c a.id id (record {
            status = t.next_status;
            related_id = if_given (text_of c.num (at_key "relatedId" (some item)));
            href = if_given (text_of c.num (at_key "href" (some item)));
            note = t.note;
          }))
          λ p. record p { action_busy_key = none }

  unfoldable pub update_queue_action : Json N → Handler c Unit
  update_queue_action item = with_page c λ page.
      if_open (skip c) (open_analysis page.analysis)
        λ a. complete a item (manual_action_transition c.num c.lower (some item))
