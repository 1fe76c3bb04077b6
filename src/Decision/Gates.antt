-- ===== src/Decision/Gates.antt =====
-- Each stage of a decision rests on what it needs: above all, the last stages on a candidate and on
-- the review of its time on paper.
use finance_next.Base.{
  String, Bool, true, false, not, ◌&&◌, ◌||◌, ◌≡◌, refl, ◌⊎◌, inl, inr, Option, none, some, List,
  [], ◌∷◌, if_cases, ap, arith,
}
use finance_next.Json.{Json}
use finance_next.Numbers.{Numbers}
use finance_next.Recent.{JsonCodec}
use finance_next.Validation.{Arithmetic}
use finance_next.Validation.Pick.{Links, PaperCandidate}
use finance_next.Decision.Evidence.{is_balanced, is_empty, started_ids, persisted_action_by_id}
use finance_next.Decision.{
  Stage, no_data, validating, backtest, redesign, sentiment_review, paper_candidate, paper_watch,
  testnet_candidate, continue_paper, Decision, Facts, any_unscored, can_testnet, is_done,
  decide_watched, decide_ended, decide_unranked, decide, facts_of, next_ai_goal_decision,
}

module _ {N : Type 0} (num : Numbers N) (f : Facts N) where
  -- There are runs, all of them have ended, and c is the candidate.
  pub record IsReady (c : PaperCandidate N) : Type 0 where
    pub ran : is_empty f.ranked ≡ false
    pub ended : any_unscored num f.ranked ≡ false
    pub chosen : f.candidate ≡ some c

  -- The watch on paper is done, with evidence.
  abbrev pub is_reviewed : Json N → Bool
  is_reviewed watch = is_done num watch && f.watch_has_evidence

  -- needsSentimentReview
  abbrev pub needs_review : Bool
  needs_review = not (is_balanced f.compass) && not f.review_completed

  abbrev pub Watched : Bool → Bool → Type 0
  Watched reviewed strong =
      (c : PaperCandidate N) × (w : Json N) × IsReady c
      × (f.watch ≡ some w)
      × (is_reviewed w ≡ reviewed)
      × ((is_reviewed w && can_testnet num c) ≡ strong)

  abbrev pub Unwatched : Bool → Type 0
  Unwatched pending =
      (c : PaperCandidate N) × IsReady c × (f.watch ≡ none) × (needs_review ≡ pending)

  -- What a stage rests on.
  abbrev pub Justifies : Stage → Type 0
  Justifies no_data = (is_empty f.notes ≡ false) × (is_empty f.ranked ≡ true)
  Justifies validating =
      (any_unscored num f.ranked ≡ true)
      ⊎ ((is_empty f.ranked ≡ true) × (is_empty f.started ≡ false))
  Justifies backtest =
      (is_empty f.notes ≡ true) × (is_empty f.ranked ≡ true) × (is_empty f.started ≡ true)
  Justifies redesign =
      (is_empty f.ranked ≡ false) × (any_unscored num f.ranked ≡ false) × (f.candidate ≡ none)
  Justifies sentiment_review = Unwatched true
  Justifies paper_candidate = Unwatched false
  Justifies paper_watch = Watched false false
  Justifies testnet_candidate = Watched true true
  Justifies continue_paper = Watched true false

  abbrev Fits : Decision N → Type 0
  Fits d = Justifies d.stage

  decide_watched-Justifies :
      (c : PaperCandidate N) (w : Json N)
      → IsReady c
      → f.watch ≡ some w
      → Fits (decide_watched num c w f.watch_has_evidence)
  decide_watched-Justifies c w ready e =
      if_cases Fits (not (is_done num w) || not f.watch_has_evidence) _ _
        (λ h. (c, w, ready, e, ground arith, ground arith))
        λ h.
          if_cases Fits (can_testnet num c) _ _ (λ s. (c, w, ready, e, ground arith, ground arith))
            λ s. (c, w, ready, e, ground arith, ground arith)

  decide_ended-Justifies :
      (o : Option (PaperCandidate N)) (watch : Option (Json N))
      → f.candidate ≡ o
      → f.watch ≡ watch
      → is_empty f.ranked ≡ false
      → any_unscored num f.ranked ≡ false
      → Fits (decide_ended num o watch f.watch_has_evidence needs_review)
  decide_ended-Justifies none watch e k n u = (n, u, e)
  decide_ended-Justifies (some c) (some w) e k n u =
      decide_watched-Justifies c w (record { ran = n; ended = u; chosen = e }) k
  decide_ended-Justifies (some c) none e k n u =
      if_cases Fits needs_review _ _ (λ r. (c, record { ran = n; ended = u; chosen = e }, k, r))
        λ r. (c, record { ran = n; ended = u; chosen = e }, k, r)

  decide_unranked-Justifies :
      (links : Links N) (started : List String)
      → f.started ≡ started
      → is_empty f.notes ≡ true
      → is_empty f.ranked ≡ true
      → Fits (decide_unranked num links started f.backtest_href f.runnable)
  decide_unranked-Justifies links [] e n r = (n, r, ap is_empty e)
  decide_unranked-Justifies links (id ∷ ids) e n r = inr (r, ap is_empty e)

  pub decide-Justifies : (links : Links N) → Fits (decide num links f)
  unfolding decide
  decide-Justifies links =
      if_cases Fits (not (is_empty f.notes) && is_empty f.ranked) _ _
        (λ h. (ground arith, ground arith))
        λ h.
          if_cases Fits (any_unscored num f.ranked) _ _ (λ u. inl u)
            λ u.
              if_cases Fits (is_empty f.ranked) _ _
                (λ r. decide_unranked-Justifies links f.started refl (ground arith) r)
                λ r. decide_ended-Justifies f.candidate f.watch refl refl r u

-- Unless the stored href of the backtest cannot be decoded, there is a decision, and what its stage
-- rests on holds. Above all, the test network is only advised where all runs have ended, a candidate
-- passes the stricter test, and the watch on paper is done with evidence; and a candidate is only
-- put on paper where the compass is balanced or the review of it complete.
pub next_ai_goal_decision-Justifies :
    {N : Type 0} (num : Numbers N) (ar : Arithmetic N) (json : JsonCodec String N) (links : Links N)
    (lower upper : String → String) (decode : String → Option String)
    (analysis actions backtests : Option (Json N)) (started : List String)
    → started_ids num lower decode (persisted_action_by_id num actions "backtest") ≡ some started
    → (d : Decision N) × (next_ai_goal_decision num ar json links lower upper decode analysis
          actions backtests
        ≡ some d)
      × Justifies num
          (facts_of num ar json links lower upper analysis actions backtests started)
          d.stage
unfolding next_ai_goal_decision
next_ai_goal_decision-Justifies num ar json links lower upper decode analysis actions backtests
      started h =
    let facts = facts_of num ar json links lower upper analysis actions backtests started in
    (decide num links facts, rw h, decide-Justifies num facts links)
