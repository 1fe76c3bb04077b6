-- ===== src/Validation/Candidate.antt =====
-- Which run and which draft the candidate for paper has.
use mathlib.Core.Path.{subst}
use mathlib.Core.List.{Mem, mem-cons_self, mem-cons_of_mem}
use mathlib.Core.Option
use finance_next.Base.{
  String, true, ◌≡◌, refl, sym, ◌∙◌, ◌⊎◌, inl, inr, Option, none, some, List, [], ◌∷◌, All, All-imp,
  IsSorted, Bool-cases, Option-cases,
}
use finance_next.Json.{Json, at_key}
use finance_next.Numbers.{Numbers, IsOrdered}
use finance_next.Recent.{JsonCodec}
use finance_next.Validation.{
  Arithmetic, Row, is_paper_first, array_or_empty, stays_by, stays_before, rank_backtest_validation,
}
use finance_next.Validation.Pick.{
  PaperCandidate, Links, is_draft_of, find_draft, candidate_of, draft_for, first_candidate,
  paper_candidate_from_validation,
}
use finance_next.Validation.Rows.{IsSound, meets}
use finance_next.Validation.Ranking.{rank_backtest_validation-IsRanking}

module _ {N : Type 0} (num : Numbers N) (lower upper : String → String) (json : JsonCodec String N)
    (links : Links N) where
  -- A row without a draft to be watched, or with no higher score.
  abbrev Yields : List (Json N) → Row N → Row N → Type 0
  Yields drafts row r =
      (draft_for num lower upper drafts r ≡ none) ⊎ (stays_before num row r ≡ true)

  -- What makes a row's run the candidate's: `row` meets the thresholds, the draft is one of the
  -- drafts and its backtest has the run's strategy id, and each ranked row with a draft of its own
  -- that is recommended has no higher score.
  pub record IsBest (drafts : List (Json N)) (ranked : List (Row N)) (c : PaperCandidate N)
      : Type 0 where
    pub row : Row N
    pub draft : Json N
    pub is_candidate : c ≡ candidate_of num lower upper json links row draft
    pub listed : Mem row ranked
    pub passes : meets num row ≡ true
    pub has_draft : Mem draft drafts
    pub fits : is_draft_of num lower upper row.strategy_id draft ≡ true
    pub best : All (Yields drafts row) ranked

module _ {N : Type 0} {num : Numbers N} (laws : IsOrdered num) (lower upper : String → String)
    (json : JsonCodec String N) (links : Links N) where
  find_draft-some :
      (id : Json N) (drafts : List (Json N)) (d : Json N)
      → find_draft num lower upper id drafts ≡ some d
      → Mem d drafts × (is_draft_of num lower upper id d ≡ true)
  find_draft-some id [] d h = cc
  find_draft-some id (x ∷ xs) d h = elim (Bool-cases (is_draft_of num lower upper id x)) [
    | inl e ↦
        let same : x ≡ d = Option.some-injective _ _ (rw e at h) in
        subst (λ y. Mem y (x ∷ xs) × (is_draft_of num lower upper id y ≡ true)) same
          (mem-cons_self, e)
    | inr e ↦
        let below : Mem d xs × (is_draft_of num lower upper id d ≡ true) =
          find_draft-some id xs d (rw e at h) in
        (mem-cons_of_mem x below.0, below.1)
  ]

  draft_for-some :
      (drafts : List (Json N)) (row : Row N) (d : Json N)
      → draft_for num lower upper drafts row ≡ some d
      → (is_paper_first row.recommendation ≡ true)
        × (find_draft num lower upper row.strategy_id drafts ≡ some d)
  draft_for-some drafts row d h = elim (Bool-cases (is_paper_first row.recommendation)) [
    | inl e ↦ (e, rw e at h)
    | inr e ↦ let gone : none ≡ some d = rw e at h in cc
  ]

  stays_refl : (score : Option N) → stays_by num score score ≡ true
  stays_refl none = refl
  stays_refl (some s) = laws.leq_refl s

  first_candidate-IsBest :
      (drafts : List (Json N)) (rows : List (Row N))
      → IsSorted (stays_before num) rows
      → All (IsSound num) rows
      → (c : PaperCandidate N) → first_candidate num lower upper json links drafts rows ≡ some c
      → IsBest num lower upper json links drafts rows c
  first_candidate-IsBest drafts [] o s c h = cc
  first_candidate-IsBest drafts (row ∷ rows) (first, o) (sound, s) c h =
      elim (Option-cases (draft_for num lower upper drafts row)) [
        | inl e ↦
            let b = first_candidate-IsBest drafts rows o s c (rw (e, first_candidate) at h) in
            record {
              row = b.row;
              draft = b.draft;
              is_candidate = b.is_candidate;
              listed = mem-cons_of_mem row b.listed;
              passes = b.passes;
              has_draft = b.has_draft;
              fits = b.fits;
              best = (inl e, b.best);
            }
        | inr (d, e) ↦
            let found = draft_for-some drafts row d e in
            let member = find_draft-some row.strategy_id drafts d found.1 in
            record {
              row = row;
              draft = d;
              is_candidate = sym (Option.some-injective _ _ (rw (e, first_candidate) at h));
              listed = mem-cons_self;
              passes = sym sound.1 ∙ found.0;
              has_draft = member.0;
              fits = member.1;
              best = (inr (stays_refl row.score), All-imp (λ r k. inr k) rows first);
            }
      ]

  -- A candidate is made of a ranked run that meets the thresholds and of one of the analysis' drafts,
  -- whose backtest has the run's strategy id; each ranked run that is recommended and has a draft has
  -- no higher score.
  pub paper_candidate_from_validation-IsBest :
      (ar : Arithmetic N) (analysis backtests : Option (Json N)) (c : PaperCandidate N)
      → paper_candidate_from_validation num lower upper json links ar analysis backtests ≡ some c
      → IsBest num lower upper json links
          (array_or_empty (at_key "strategyDrafts" analysis))
          (rank_backtest_validation num ar backtests)
          c
  unfolding paper_candidate_from_validation
  paper_candidate_from_validation-IsBest ar analysis backtests c h =
      let ranking = rank_backtest_validation-IsRanking laws ar backtests in
      first_candidate-IsBest _ _ ranking.ordered ranking.sound c h
