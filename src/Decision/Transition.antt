-- ===== src/Decision/Transition.antt =====
-- What a user's completion of an action stores: manualActionTransition of
-- client/data/ai-goal-preset.mjs.
use Prim.Native.String.{◌++◌}
use finance_next.Base.{
  String, Bool, true, false, not, ◌&&◌, ◌||◌, Option, none, some, List, [], ◌∷◌, if◌then◌else◌,
  ◌==◌, has, string_key,
}
use finance_next.Json.{Json, at_key}
use finance_next.Numbers.{Numbers, truthy_text}
use finance_next.Auth.{trim, is_space}
use finance_next.Palette.{includes}
use finance_next.Preset.{first_given, is_text}
use finance_next.Decision.Evidence.{text_of}

pub record Transition : Type 0 where
  pub label : String
  pub next_status : String
  pub note : String

abbrev pub manual_transition_action_ids : List String
manual_transition_action_ids = "review" ∷ "data" ∷ "sentiment_review" ∷ "paper_watch" ∷ "gate" ∷ []

abbrev pub sentiment_review_completion_note : String
sentiment_review_completion_note = "已复核市场风向、舆论情绪和人性偏差/拥挤度；确认未出现 FOMO 追涨或单边叙事过热，只允许进入 paper 采用前检查。"

abbrev pub paper_watch_completion_note : String
paper_watch_completion_note =
    "Paper 观察已完成 24-72 小时复盘：已检查市场风向、舆论变化、人性偏差、执行摩擦和回撤表现；只允许进入测试网前检查，不进入主网。"

-- `s.replace(/\s+/g, " ")`: `after` says that the last character was a space.
abbrev pub squeeze : Bool → String → String
squeeze after String.[] = ""
squeeze after (String.◌∷◌ c s) =
    if is_space c
    then if after then squeeze true s else " " ++ squeeze true s
    else String.◌∷◌ c (squeeze false s)

abbrev pub tidy : String → String
tidy s = trim (squeeze false s)

unfoldable pub append_transition_evidence_note : String → String → String
append_transition_evidence_note existing_note completion_note =
    let existing : String = tidy existing_note in
    let completion : String = tidy completion_note in
    if existing == ""
    then completion
    else if completion == "" || includes existing completion
    then existing
    else existing ++ " " ++ completion

module _ {N : Type 0} (num : Numbers N) (lower : String → String) where
  -- `String(action?.title || id || "行动项").trim()`
  abbrev pub title_of : Option (Json N) → String → String
  title_of action id =
      trim (first_given (truthy_text num (at_key "title" action)) (if id == "" then "行动项" else id))

  abbrev pub completed : Option (Json N) → String → String → Option Transition
  completed action id title =
      if id == "paper_watch"
      then some (record {
        label = "完成 paper 复盘";
        next_status = "done";
        note =
            append_transition_evidence_note (text_of num (at_key "note" action))
              paper_watch_completion_note;
      })
      else if id == "sentiment_review"
      then some (record {
        label = "完成风向 / 人性复核";
        next_status = "done";
        note = sentiment_review_completion_note;
      })
      else if id == "gate"
      then some (record {
        label = "完成执行闸门复核";
        next_status = "done";
        note = "已确认 kill switch、组合限额、交易闸门和 paper 复盘证据；只允许进入测试网前检查。";
      })
      else some (record { label = "标记完成"; next_status = "done"; note = title ++ " 已人工确认完成" })

  unfoldable pub manual_action_transition : Option (Json N) → Option Transition
  manual_action_transition action =
      let id : String = text_of num (at_key "id" action) in
      let title : String = title_of action id in
      let status : String = lower (text_of num (at_key "status" action)) in
      if not (has id manual_transition_action_ids)
      then none
      else if is_text (at_key "status" action) "done"
      then some (record { label = "重新检查"; next_status = "manual"; note = title ++ " 需要重新人工检查" })
      else if status == "blocked" && (id == "paper_watch" || id == "gate")
      then none
      else completed action id title
