-- ===== src/Money/Provider.antt =====
-- Whether the AI provider lets an analysis start: aiProviderReadinessGateFromStatus and
-- aiProviderAnalysisAttemptFromGate of client/data/ai-goal-preset.mjs, and the decisions to start one
-- by itself. The texts of the gate are not modelled, but for its link.
use Prim.Native.String.{◌++◌}
use finance_next.Base.{
  String, Bool, true, false, not, ◌&&◌, ◌||◌, Option, none, some, if◌then◌else◌, ◌==◌, string_key,
}
use finance_next.Json.{Json, boolean, array, object, at_key}
use finance_next.Numbers.{Numbers}
use finance_next.Auth.{trim}
use finance_next.Decision.Evidence.{text_of}
use finance_next.Goal.{text_else}

pub data GateStage : Type 0 where
  loading unknown blocked ready : GateStage

pub record Gate : Type 0 where
  pub stage : GateStage
  pub block_manual_analysis : Bool
  pub block_auto_radar : Bool
  pub primary_href : String

pub data Attempt : Type 0 where
  redirect : String → Attempt
  allow : Attempt

abbrev pub is_ready : GateStage → Bool
is_ready ready = true
is_ready _ = false

-- `typeof status === "object"`, for a value that is not null.
abbrev pub is_object : {N : Type 0} → Option (Json N) → Bool
is_object (some (array vs)) = true
is_object (some (object ms)) = true
is_object _ = false

abbrev pub is_false : {N : Type 0} → Option (Json N) → Bool
is_false (some (boolean b)) = not b
is_false _ = false

abbrev pub ai_provider_analysis_attempt_from_gate : Gate → Attempt
ai_provider_analysis_attempt_from_gate gate =
    if gate.block_manual_analysis
    then redirect (text_else (trim (text_else gate.primary_href "/settings/ai")) "/settings/ai")
    else allow

pub record AutoRun : Type 0 where
  pub should_run : Bool
  pub key : String

module _ {N : Type 0} (num : Numbers N) (lower : String → String) where
  abbrev pub is_blocked : Option (Json N) → Bool
  is_blocked status =
      lower (text_of num (at_key "status" status)) == "blocked"
      || is_false (at_key "keyConfigured" status)

  unfoldable pub ai_provider_readiness_gate_from_status : Bool → Option (Json N) → Gate
  ai_provider_readiness_gate_from_status is_loading status =
      if is_loading
      then record {
        stage = loading;
        block_manual_analysis = false;
        block_auto_radar = true;
        primary_href = "/settings/ai";
      }
      else if not (is_object status)
      then record {
        stage = unknown;
        block_manual_analysis = false;
        block_auto_radar = false;
        primary_href = "/settings/ai";
      }
      else record {
        stage = if is_blocked status then blocked else ready;
        block_manual_analysis = is_blocked status;
        block_auto_radar = is_blocked status;
        primary_href =
            text_else (trim (text_else (text_of num (at_key "primaryHref" status)) "/settings/ai"))
              "/settings/ai";
      }

  -- `aiSettingsReturnAutoRunDecision` on what the page gives of the gate; the reasons are not modelled.
  unfoldable pub ai_settings_return_auto_run_decision : String → Bool → Gate → String → AutoRun
  ai_settings_return_auto_run_decision intent busy gate last_key =
      let active : Bool = lower intent == "rerun_ai" in
      let key : String = if active then "settings_return:rerun_ai" else "" in
      record {
        should_run =
            active
            && not busy
            && not gate.block_auto_radar
            && is_ready gate.stage
            && not (last_key == key);
        key = key;
      }

  -- `autoDailyRadarDecision`: the kind of the status' action and the id of its run are arguments.
  unfoldable pub auto_daily_radar_decision :
      Bool → Bool → Gate → String → String → String → String → AutoRun
  auto_daily_radar_decision enabled busy gate kind run_id day last_key =
      let key : String = day ++ ":" ++ kind ++ ":" ++ text_else run_id "none" in
      if not enabled
        || busy
        || not (is_ready gate.stage)
        || not (kind == "scan_today") && not (kind == "rescan_today")
      then record { should_run = false; key = "" }
      else record { should_run = not (last_key == key); key = key }

  -- `autoDailyRadarEnabledFromStorage` and `autoDailyRadarPreferencePersistence`.
  unfoldable pub auto_daily_radar_enabled_from_storage : Option String → Bool → Bool
  auto_daily_radar_enabled_from_storage value fallback =
      let text : String = lower (trim (elim value [ none ↦ "" | some s ↦ s ])) in
      if text == "true" then true else if text == "false" then false else fallback

  unfoldable pub auto_daily_radar_preference_persistence : Bool → Bool → Option String
  auto_daily_radar_preference_persistence is_loaded enabled =
      if is_loaded then some (if enabled then "true" else "false") else none
