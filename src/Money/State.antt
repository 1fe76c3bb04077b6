-- ===== src/Money/State.antt =====
-- The state of the AI Money page, the requests that its handlers make and the programs that they are:
-- functions on the state that end with a value or by throwing (client/app/(dashboard)/ai-money/
-- client.tsx). The gateway answers a request by what was sent before it.
use finance_next.Base.{
  String, Bool, true, false, not, Option, some, List, [], ◌∷◌, ◌++◌ as append, if◌then◌else◌, ◌==◌,
  take, filter, string_key,
}
use finance_next.Json.{Json}
use finance_next.Preset.Draft.{BacktestRequest}
use finance_next.Goal.{FormState, GoalRequest}

-- An analysis and a run, with the ids that the page reads, and the whole value.
pub record Analysis (N : Type 0) : Type 0 where
  pub id : String
  pub value : Json N

pub record Run (N : Type 0) : Type 0 where
  pub id : String
  pub analysis : Option (Analysis N)
  pub value : Json N

-- `TypeAIGoalRunActionPatch`
pub record ActionPatch : Type 0 where
  pub status : String
  pub related_id : Option String
  pub href : Option String
  pub note : String

-- `P` is the type of the payload of createOption.
pub data PageRequest (N P : Type 0) : Type 0 where
  listing : PageRequest N P
  analyzing : GoalRequest → PageRequest N P
  getting : String → PageRequest N P
  updating : String → String → ActionPatch → PageRequest N P
  backtesting : BacktestRequest N → PageRequest N P
  saving : P → PageRequest N P

pub data Ended (E A : Type 0) : Type 0 where
  gave : A → Ended E A
  threw : E → Ended E A

-- The answers of the gateway after the requests that were sent: listAIGoalRuns, analyzeAIGoal,
-- getAIGoalRun, updateAIGoalRunAction, createBacktest and createOption of the API client.
pub record Gateway (E N P : Type 0) : Type 0 where
  pub list_runs : List (PageRequest N P) → Ended E (List (Run N))
  pub analyze : List (PageRequest N P) → GoalRequest → Ended E (Analysis N)
  pub get_run : List (PageRequest N P) → String → Ended E (Run N)
  pub update_action : List (PageRequest N P) → String → String → ActionPatch → Ended E (Run N)
  pub create_backtest : List (PageRequest N P) → BacktestRequest N → Ended E (Json N)
  pub create_option : List (PageRequest N P) → P → Ended E (Json N)

-- `sent` has the requests, `pushed` what the router was told, both from the first on.
pub record Page (E N P : Type 0) : Type 0 where
  pub form : FormState
  pub analysis : Option (Analysis N)
  pub active_run : Option (Run N)
  pub runs : List (Run N)
  pub error : Option E
  pub run_error : Option E
  pub busy : Bool
  pub runs_busy : Bool
  pub backtest_busy_key : Option String
  pub batch_backtest_busy : Bool
  pub pipeline_busy : Bool
  pub action_busy_key : Option String
  pub strategy_save_busy_key : Option String
  pub validation_runs : List (Json N)
  pub validation_error : Option E
  pub pushed : List String
  pub sent : List (PageRequest N P)

-- `[run, ...prev.filter((r) => r.id !== run.id)].slice(0, 20)`
abbrev pub with_run : {N : Type 0} → Run N → List (Run N) → List (Run N)
with_run run prev = take 20 (run ∷ filter (λ r. not (r.id == run.id)) prev)

-- `prev.map((r) => r.id === run.id ? run : r)`
abbrev pub replace_run : {N : Type 0} → Run N → List (Run N) → List (Run N)
replace_run run [] = []
replace_run run (r ∷ rs) = (if r.id == run.id then run else r) ∷ replace_run run rs

abbrev pub has_run : {N : Type 0} → String → List (Run N) → Bool
has_run id [] = false
has_run id (r ∷ rs) = if r.id == id then true else has_run id rs

-- The run is put in its place, or first where it is not shown.
abbrev pub with_old_run : {N : Type 0} → Run N → List (Run N) → List (Run N)
with_old_run run prev = if has_run run.id prev then replace_run run prev else take 20 (run ∷ prev)

module _ (E N P : Type 0) where
  -- An asynchronous function of the page.
  abbrev pub Program : Type 0 → Type 0
  Program A = Page E N P → Ended E A × Page E N P

module _ {E N P : Type 0} where
  -- What follows on a value, and on a throw.
  abbrev pub on_value :
      {A B : Type 0} → Ended E A × Page E N P → (A → Program E N P B) → Ended E B × Page E N P
  on_value (gave a, q) f = f a q
  on_value (threw e, q) f = (threw e, q)

  abbrev pub on_throw :
      {A : Type 0} → Ended E A × Page E N P → (E → Program E N P A) → Ended E A × Page E N P
  on_throw (gave a, q) handler = (gave a, q)
  on_throw (threw e, q) handler = handler e q

  infixl 5 ◌>>=◌ ◌>>◌
  unfoldable pub ◌>>=◌ : {A B : Type 0} → Program E N P A → (A → Program E N P B) → Program E N P B
  ◌>>=◌ m f p = on_value (m p) f

  abbrev pub ◌>>◌ : {A B : Type 0} → Program E N P A → Program E N P B → Program E N P B
  ◌>>◌ m k = m >>= λ a. k

  unfoldable pub return : {A : Type 0} → A → Program E N P A
  return a p = (gave a, p)

  unfoldable pub set : (Page E N P → Page E N P) → Program E N P Unit
  set f p = (gave tt, f p)

  -- `try { m } catch (e) { handler(e) }`
  unfoldable pub try_catch :
      {A : Type 0} → Program E N P A → (E → Program E N P A) → Program E N P A
  try_catch m handler p = on_throw (m p) handler

  -- `try { m } finally { f }`
  unfoldable pub finally :
      {A : Type 0} → Program E N P A → (Page E N P → Page E N P) → Program E N P A
  finally m f p = let (a, q) = m p in (a, f q)

  -- A request with its answer.
  unfoldable pub call :
      {A : Type 0} → PageRequest N P → (List (PageRequest N P) → Ended E A) → Program E N P A
  call r answer p = (answer p.sent, record p { sent = append p.sent (r ∷ []) })

  abbrev pub set_error : Option E → Program E N P Unit
  set_error e = set λ p. record p { error = e }

  abbrev pub set_run_error : Option E → Program E N P Unit
  set_run_error e = set λ p. record p { run_error = e }

  -- `setActiveRun(run)` and the update of the runs.
  abbrev pub show_run : Run N → Program E N P Unit
  show_run run = set λ p. record p { active_run = some run; runs = with_run run p.runs }

  abbrev pub push_route : String → Program E N P Unit
  push_route href = set λ p. record p { pushed = append p.pushed (href ∷ []) }
