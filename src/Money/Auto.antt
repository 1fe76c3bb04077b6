-- ===== src/Money/Auto.antt =====
-- The effects of the AI Money page that start the radar's scan by themselves
-- (client/app/(dashboard)/ai-money/client.tsx).
use finance_next.Base.{
  map, ◌≡◌, String, Bool, true, false, not, ◌||◌, Option, none, some, List, [], ◌∷◌, ◌++◌ as append,
  if◌then◌else◌, ◌==◌, string_key, Bool-cases, inl, inr, arith,
}
use finance_next.Numbers.{Numbers}
use finance_next.Money.Provider.{
  Gate, is_ready, AutoRun, ai_settings_return_auto_run_decision, auto_daily_radar_decision,
}

-- What the effects see of one rendering: `busy` is `busy || pipelineBusy || batchBacktestBusy`, `kind`
-- and `run_id` are those of the status of the radar, and `writes` says that localStorage takes a write.
pub record Seen : Type 0 where
  pub intent : String
  pub is_loaded : Bool
  pub enabled : Bool
  pub busy : Bool
  pub runs_busy : Bool
  pub gate : Gate
  pub kind : String
  pub run_id : String
  pub day : String
  pub writes : Bool

-- The two refs and the last key in localStorage.
pub record Keys : Type 0 where
  pub settings_return : String
  pub last_key : String
  pub stored_last_key : Option String

-- The keys when the page is loaded: `stored` is what localStorage has, `none` where it cannot be read.
abbrev pub loaded_keys : Option String → Keys
loaded_keys stored = record {
  settings_return = "";
  last_key = elim stored [ none ↦ "" | some key ↦ key ];
  stored_last_key = stored;
}

-- A scan that an effect starts.
pub data Start : Type 0 where
  on_return : Start
  on_day : String → Start

module _ {N : Type 0} (num : Numbers N) (lower : String → String) where
  abbrev pub settings_decision : Seen → Keys → AutoRun
  settings_decision s k =
      ai_settings_return_auto_run_decision num lower s.intent (s.busy || s.runs_busy) s.gate
        k.settings_return

  abbrev pub radar_decision : Seen → Keys → AutoRun
  radar_decision s k =
      if lower s.intent == "rerun_ai" || not s.is_loaded || s.gate.block_auto_radar || s.runs_busy
      then record { should_run = false; key = "" }
      else auto_daily_radar_decision num lower s.enabled s.busy s.gate s.kind s.run_id s.day
          k.last_key

  -- The effect of a return from the settings, with the scans that it starts.
  abbrev pub settings_effect : Seen → Keys → List Start × Keys
  settings_effect s k =
      let decision : AutoRun = settings_decision s k in
      if decision.should_run
      then (on_return ∷ [], record k { settings_return = decision.key })
      else ([], k)

  -- The effect of the daily radar.
  abbrev pub radar_effect : Seen → Keys → List Start × Keys
  radar_effect s k =
      let decision : AutoRun = radar_decision s k in
      if decision.should_run
      then (
        on_day decision.key ∷ [],
        record k {
          last_key = decision.key;
          stored_last_key = if s.writes then some decision.key else k.stored_last_key;
        },
      )
      else ([], k)

  -- One rendering after the other: what each of them saw, with the scans that it started.
  abbrev pub starts : List Seen → Keys → List (Seen × Start)
  starts [] k = []
  starts (s ∷ seen) k =
      let (a, k') = settings_effect s k in
      let (b, k'') = radar_effect s k' in
      append (map (λ v. (s, v)) a) (append (map (λ v. (s, v)) b) (starts seen k''))

  -- No work is running and the provider is ready.
  abbrev pub IsCalm : Seen → Type 0
  IsCalm s =
      (s.busy ≡ false)
      × (s.runs_busy ≡ false)
      × (s.gate.block_auto_radar ≡ false)
      × (is_ready s.gate.stage ≡ true)

  -- Each scan starts in a calm page. The one on the return from the settings is the first of its kind
  -- in the session, and each daily one has another key than the daily one before.
  abbrev pub IsPaced : String → String → List (Seen × Start) → Type 0
  IsPaced returned last [] = Unit
  IsPaced returned last ((s, on_return) ∷ vs) =
      IsCalm s
      × ((returned == "settings_return:rerun_ai") ≡ false)
      × IsPaced "settings_return:rerun_ai" last vs
  IsPaced returned last ((s, on_day key) ∷ vs) =
      IsCalm s × ((last == key) ≡ false) × (s.enabled ≡ true) × IsPaced returned key vs

  settings_decision-IsCalm :
      (s : Seen) (k : Keys)
      → (settings_decision s k).should_run ≡ true
      → IsCalm s
        × ((settings_decision s k).key ≡ "settings_return:rerun_ai")
        × ((k.settings_return == "settings_return:rerun_ai") ≡ false)
  unfolding ai_settings_return_auto_run_decision
  settings_decision-IsCalm s k h = ground arith

  radar_decision-IsCalm :
      (s : Seen) (k : Keys)
      → (radar_decision s k).should_run ≡ true
      → IsCalm s × ((k.last_key == (radar_decision s k).key) ≡ false) × (s.enabled ≡ true)
  unfolding auto_daily_radar_decision
  radar_decision-IsCalm s k h = ground arith

  settings_effect-IsPaced :
      (s : Seen) (k : Keys) (vs : List (Seen × Start))
      → IsPaced (settings_effect s k).1.settings_return (settings_effect s k).1.last_key vs
      → IsPaced k.settings_return k.last_key (append (map (λ v. (s, v)) (settings_effect s k).0) vs)
  settings_effect-IsPaced s k vs = elim (Bool-cases (settings_decision s k).should_run) [
    | inl e ↦
        let (calm, key, fresh) = settings_decision-IsCalm s k e in
        rw (e, key) (λ h. (calm, fresh, h))
    | inr e ↦ rw e (λ h. h)
  ]

  radar_effect-IsPaced :
      (s : Seen) (k : Keys) (vs : List (Seen × Start))
      → IsPaced (radar_effect s k).1.settings_return (radar_effect s k).1.last_key vs
      → IsPaced k.settings_return k.last_key (append (map (λ v. (s, v)) (radar_effect s k).0) vs)
  radar_effect-IsPaced s k vs = elim (Bool-cases (radar_decision s k).should_run) [
    | inl e ↦
        let (calm, fresh, enabled) = radar_decision-IsCalm s k e in
        rw e (λ h. (calm, fresh, enabled, h))
    | inr e ↦ rw e (λ h. h)
  ]

  -- Whatever the renderings of a page see, one after the other: a scan starts by itself only where no
  -- work is running and the provider is ready, the one on the return from the settings at most once,
  -- the daily one only where the radar is on, and not twice in a row for the same key, nor for the key
  -- that the page was loaded with.
  pub starts-IsPaced :
      (seen : List Seen) (stored : Option String)
      → IsPaced "" (loaded_keys stored).last_key (starts seen (loaded_keys stored))
  starts-IsPaced seen stored = from seen (loaded_keys stored)
    where
      from : (seen : List Seen) (k : Keys) → IsPaced k.settings_return k.last_key (starts seen k)
      from [] k = tt
      from (s ∷ seen) k = settings_effect-IsPaced s k _ (
          radar_effect-IsPaced s (settings_effect s k).1 _
            (from seen (radar_effect s (settings_effect s k).1).1))
