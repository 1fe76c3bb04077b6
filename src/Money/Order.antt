-- ===== src/Money/Order.antt =====
-- The order in which a candidate is saved, stored and taken over to paper.
use finance_next.Base.{
  String, ◌≡◌, refl, sym, ◌⊎◌, inl, inr, true, false, Option, none, some, List, [], ◌∷◌,
  ◌++◌ as append, ◌==◌, string_key,
}
use mathlib.Core.Path.{subst}
use finance_next.Json.{Json}
use finance_next.Validation.Pick.{PaperCandidate}
use finance_next.Money.State.{
  Analysis, Run, ActionPatch, PageRequest, saving, updating, Ended, gave, threw, Page, ◌>>=◌,
  return, set, try_catch, finally, call,
}
use finance_next.Money.Handoff.{
  OptionPayload, strategy_href_with_ai_run_id, paper_watch_action_patch_from_candidate,
  option_payload_from_strategy_draft, option_create_redirect_href,
}
use finance_next.Money.Client.{Client}
use finance_next.Money.Scans
use finance_next.Money.Actions

Ended-cases : {E A : Type 0} (r : Ended E A) → ((a : A) × (r ≡ gave a)) ⊎ ((e : E) × (r ≡ threw e))
Ended-cases (gave a) = inl (a, refl)
Ended-cases (threw e) = inr (e, refl)

Option-cases : {A : Type 0} (o : Option A) → (o ≡ none) ⊎ ((a : A) × (o ≡ some a))
Option-cases none = inl refl
Option-cases (some a) = inr (a, refl)

module _ {E N : Type 0} (c : Client E N) where
  abbrev Sent : Type 0
  Sent = List (PageRequest N (OptionPayload N))

  abbrev watch_patch : Analysis N → PaperCandidate N → ActionPatch
  watch_patch a candidate = paper_watch_action_patch_from_candidate c.num c.hrefs c.ar a (
      Actions.with_href c candidate
        (strategy_href_with_ai_run_id c.num c.hrefs candidate.strategy_href a.id))

  abbrev saved_href : Analysis N → Json N → String
  saved_href a response = option_create_redirect_href c.num c.hrefs c.links response a.id

  abbrev strategy_patch : Analysis N → PaperCandidate N → Json N → ActionPatch
  strategy_patch a candidate response =
      Actions.saved_patch c (some a) candidate.draft response (saved_href a response)

  -- The payload of the draft, and the requests before and after: the strategy is saved first; its
  -- action is stored only where the strategy was saved; the watch on paper, with the link of the saved
  -- strategy, only where both succeeded.
  pub data SavedInOrder (a : Analysis N) (candidate : PaperCandidate N)
      : Option (OptionPayload N) → Sent → Sent → Type 0 where
    no_strategy : {sent : Sent} → SavedInOrder a candidate none sent sent
    not_saved :
        {sent : Sent} {payload : OptionPayload N} {e : E}
        → c.gateway.create_option sent payload ≡ threw e
        → SavedInOrder a candidate (some payload) sent (append sent (saving payload ∷ []))
    not_stored :
        {sent : Sent} {payload : OptionPayload N} {response : Json N} {e : E}
        → c.gateway.create_option sent payload ≡ gave response
        → c.gateway.update_action
            (append sent (saving payload ∷ []))
            a.id
            "strategy"
            (strategy_patch a candidate response)
          ≡ threw e
        → SavedInOrder a candidate (some payload) sent (
            append
              (append sent (saving payload ∷ []))
              (updating a.id "strategy" (strategy_patch a candidate response) ∷ []))
    watched :
        {sent : Sent} {payload : OptionPayload N} {response : Json N} {run : Run N}
        → c.gateway.create_option sent payload ≡ gave response
        → c.gateway.update_action
            (append sent (saving payload ∷ []))
            a.id
            "strategy"
            (strategy_patch a candidate response)
          ≡ gave run
        → SavedInOrder a candidate (some payload) sent (
            append
              (append
                (append sent (saving payload ∷ []))
                (updating a.id "strategy" (strategy_patch a candidate response) ∷ []))
              (updating a.id "paper_watch"
                  (watch_patch a (Actions.with_href c candidate (saved_href a response)))
                ∷ []))

  accept_candidate-sent :
      (a : Analysis N) (candidate : PaperCandidate N) (q : Page E N (OptionPayload N))
      → (Actions.accept_candidate c true a candidate q).1.sent
        ≡ append q.sent (updating a.id "paper_watch" (watch_patch a candidate) ∷ [])
  unfolding Actions.accept_candidate ◌>>=◌ return set try_catch call
  accept_candidate-sent a candidate q =
      elim (Ended-cases
        (c.gateway.update_action q.sent a.id "paper_watch" (watch_patch a candidate))) [
          | inl (run, h) ↦ rw h refl
          | inr (e, h) ↦ rw h refl
        ]

  module _ (a : Analysis N) (candidate : PaperCandidate N) where
    abbrev pub draft_payload : Option (OptionPayload N)
    draft_payload =
        option_payload_from_strategy_draft c.num c.lower c.upper c.json candidate.draft a.id

    abbrev save_on : Option (OptionPayload N) → Scans.Handler c Unit
    save_on payload = Actions.save_given c false true (some a) candidate.draft payload >>= λ saved.
        Actions.accept_saved c a candidate saved

    saved_on :
        (a.id == "") ≡ false
        → (payload : Option (OptionPayload N)) (p : Page E N (OptionPayload N))
        → SavedInOrder a candidate payload p.sent (save_on payload p).1.sent
    unfolding ◌>>=◌ return set try_catch finally call
    saved_on h none p = no_strategy
    saved_on h (some payload) p = elim (Ended-cases (c.gateway.create_option p.sent payload)) [
      | inr (e, k) ↦ rw k (not_saved k)
      | inl (response, k) ↦
          elim (Ended-cases (
            c.gateway.update_action (append p.sent (saving payload ∷ [])) a.id "strategy" (
              Actions.saved_patch c (some a) candidate.draft response
                (option_create_redirect_href c.num c.hrefs c.links response a.id)))) [
                  | inr (e, l) ↦ rw (k, h, l) (not_stored k l)
                  | inl (run, l) ↦
                      rw (k, h, l)
                        (subst (SavedInOrder a candidate (some payload) p.sent)
                          (sym (accept_candidate-sent a _ _)) (watched k l))
                ]
    ]

    saved_open :
        (a.id == "") ≡ false
        → (o : Option (Analysis N)) (p : Page E N (OptionPayload N)) → o ≡ some a
        → SavedInOrder a candidate draft_payload p.sent
            (Actions.if_open c
              (Scans.skip c)
              (Actions.open_analysis c o)
              (λ (b : Analysis N).
                Actions.save_strategy_draft_core c false true o candidate.draft >>= λ saved.
                Actions.accept_saved c b candidate saved)
              p).1.sent
    unfolding Actions.save_strategy_draft_core
    saved_open h o p e = rw (e, h) (saved_on h draft_payload p)

    -- On the page of an analysis whose id is not empty: taking over a candidate saves its strategy
    -- first, stores the action "strategy" only where the strategy was saved, and "paper_watch" only
    -- where both succeeded, with the link of the saved strategy; no other request is sent, and no
    -- request at all exactly where the draft has no payload.
    pub save_and_accept_paper_candidate-SavedInOrder :
        (a.id == "") ≡ false
        → (p : Page E N (OptionPayload N)) → p.analysis ≡ some a
        → SavedInOrder a candidate draft_payload p.sent
            (Actions.save_and_accept_paper_candidate c candidate p).1.sent
    unfolding Actions.save_and_accept_paper_candidate Scans.with_page
    save_and_accept_paper_candidate-SavedInOrder h p e = saved_open h p.analysis p e
