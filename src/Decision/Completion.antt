-- ===== src/Decision/Completion.antt =====
-- The note of a user who completes the watch on paper counts as evidence.
use Prim.Native.String.{◌++◌}
use text.Mathlib.TextLemmas.{append_assoc}
use finance_next.Base.{
  String, true, false, ◌≡◌, refl, inl, inr, some, List, [], ◌∷◌, ◌==◌, Bool-cases, string_key, has,
  eq_of_same, sym,
}
use finance_next.Json.{Json, text as json_text, object, member, end, at_key}
use finance_next.Numbers.{Numbers}
use finance_next.Palette.{includes}
use finance_next.Decision.{is_done}
use finance_next.Decision.Evidence.{text_of, not_blank, paper_watch_completion_has_evidence}
use finance_next.Decision.Transition.{
  Transition, paper_watch_completion_note, tidy, append_transition_evidence_note,
  manual_action_transition,
}
use finance_next.Decision.Words.{includes_trans, includes_refl, includes-append}

-- Words of the completion note that have no letters with a case.
abbrev pub caseless_words : List String
caseless_words = "24-72" ∷ "市场风向" ∷ "舆论" ∷ "人性偏差" ∷ "执行摩擦" ∷ "回撤" ∷ "测试网" ∷ []

-- toLowerCase leaves these words, and a text keeps those that it contains.
pub record KeepsWords (lower : String → String) : Type 0 where
  pub lower_word : (w : String) → has w caseless_words ≡ true → lower w ≡ w
  pub keeps :
      (s w : String)
      → has w caseless_words ≡ true
      → includes s w ≡ true
      → includes (lower s) w ≡ true

note-includes :
    (existing : String)
    → includes
        (append_transition_evidence_note existing paper_watch_completion_note)
        paper_watch_completion_note
      ≡ true
unfolding append_transition_evidence_note
note-includes existing = elim (Bool-cases (tidy existing == "")) [
  | inl e ↦ rw e (includes_refl paper_watch_completion_note)
  | inr e ↦ elim (Bool-cases (includes (tidy existing) paper_watch_completion_note)) [
    | inl k ↦ rw (e, k) k
    | inr k ↦
        rw (e, k)
          (rw (← append_assoc (tidy existing) " " paper_watch_completion_note)
            (includes-append (tidy existing ++ " ") paper_watch_completion_note))
  ]
]

-- An action of the watch on paper that holds the status and the note of a transition.
abbrev pub holding : {N : Type 0} → Transition → Json N
holding t = object (
    member "id" (json_text "paper_watch")
      (member "status" (json_text t.next_status) (member "note" (json_text t.note) end)))

module _ {N : Type 0} (num : Numbers N) (lower : String → String) (laws : KeepsWords lower) where
  word-kept :
      (note w : String)
      → includes note paper_watch_completion_note ≡ true
      → has w caseless_words ≡ true
      → includes paper_watch_completion_note w ≡ true
      → includes (lower note) (lower w) ≡ true
  word-kept note w n h k =
      rw (laws.lower_word w h)
        (laws.keeps note w h (includes_trans note paper_watch_completion_note w n k))

  text_of-text : (s : String) → text_of num (some (json_text s)) ≡ s
  text_of-text s = elim (Bool-cases (s == "")) [
    | inl e ↦ rw e (sym (eq_of_same s "" e))
    | inr e ↦ rw e
  ]

  lower_filled :
      (note : String)
      → includes note paper_watch_completion_note ≡ true
      → not_blank (lower note) ≡ true
  lower_filled note n = elim (Bool-cases (lower note == "")) [
    | inr e ↦ rw e
    | inl e ↦
        let k : includes (lower note) "24-72" ≡ true =
          laws.keeps note "24-72" refl (includes_trans note paper_watch_completion_note _ n refl) in
        let gone : includes "" "24-72" ≡ true = rw (eq_of_same (lower note) "" e) at k in cc
  ]

  completed-HasEvidence :
      (t : Transition)
      → includes t.note paper_watch_completion_note ≡ true
      → paper_watch_completion_has_evidence num lower (some (holding t)) ≡ true
  unfolding paper_watch_completion_has_evidence
  completed-HasEvidence t n =
      rw
        (
          text_of-text t.note,
          lower_filled t.note n,
          word-kept t.note "24-72" n refl refl,
          word-kept t.note "市场风向" n refl refl,
          word-kept t.note "舆论" n refl refl,
          word-kept t.note "人性偏差" n refl refl,
          word-kept t.note "执行摩擦" n refl refl,
          word-kept t.note "回撤" n refl refl,
          word-kept t.note "测试网" n refl refl,
        )
        refl

  -- The completion of a watch on paper that is neither done nor blocked is offered, and an action that
  -- holds the status and the note of the transition is done and has the evidence that the decision
  -- asks for, whatever the note before was. (It is not stated that the gateway takes the note.)
  pub manual_action_transition-completes :
      (action : Json N)
      → text_of num (at_key "id" (some action)) ≡ "paper_watch"
      → is_done num action ≡ false
      → (lower (text_of num (at_key "status" (some action))) == "blocked") ≡ false
      → (t : Transition) × (manual_action_transition num lower (some action) ≡ some t)
        × (is_done num (holding t) ≡ true)
        × (paper_watch_completion_has_evidence num lower (some (holding t)) ≡ true)
  unfolding manual_action_transition
  manual_action_transition-completes action i d b =
      let t : Transition = record {
        label = "完成 paper 复盘";
        next_status = "done";
        note =
            append_transition_evidence_note (text_of num (at_key "note" (some action)))
              paper_watch_completion_note;
      } in
      (t, rw (i, d, b), refl, completed-HasEvidence t (note-includes _))
