-- ===== src/Api/Calls/Admin.antt =====
-- The calls of client/data/api-client.ts for administration, settings and AI goals.
use Prim.Native.String.{◌++◌}
use finance_next.Base.{String, Option, some, [], ◌∷◌}
use finance_next.Json.{Json, text, object, member, end}
use finance_next.Api.{Host}
use finance_next.Api.Auth.{with_body, bare}
use finance_next.Api.Calls.{
  Encoder, Exchange, exchange, fresh, with_headers, query, set_if, set_number,
}

module _ {N : Type 0} where
  unfoldable pub request_mainnet_token : Host N → Exchange N
  request_mainnet_token host =
      exchange host "v1/admin/mainnet/request-token" (record bare { method = some "POST" })

  unfoldable pub confirm_mainnet_token : Host N → String → Exchange N
  confirm_mainnet_token host token =
      exchange host "v1/admin/mainnet/confirm"
        (with_body "POST" (object (member "token" (text token) end)))

  unfoldable pub get_mainnet_status : Host N → Exchange N
  get_mainnet_status host = exchange host "v1/admin/mainnet/status" fresh

  unfoldable pub get_system_state : Host N → Exchange N
  get_system_state host = exchange host "v1/admin/system-state" fresh

  unfoldable pub halt_trading : Host N → String → Exchange N
  halt_trading host reason =
      exchange host "v1/admin/halt" (with_body "POST" (object (member "reason" (text reason) end)))

  unfoldable pub resume_trading : Host N → Exchange N
  resume_trading host = exchange host "v1/admin/resume" (with_headers "POST")

  unfoldable pub get_portfolio_limits : Host N → Exchange N
  get_portfolio_limits host = exchange host "v1/admin/portfolio-limits" fresh

  unfoldable pub set_portfolio_limits : Host N → Json N → Exchange N
  set_portfolio_limits host limits =
      exchange host "v1/admin/portfolio-limits" (with_body "PUT" limits)

  unfoldable pub get_admin_ai_config : Host N → Exchange N
  get_admin_ai_config host = exchange host "v1/admin/ai/config" fresh

  unfoldable pub update_admin_ai_config : Host N → Json N → Exchange N
  update_admin_ai_config host patch = exchange host "v1/admin/ai/config" (with_body "PUT" patch)

  unfoldable pub test_ai_connection : Host N → Json N → Exchange N
  test_ai_connection host body = exchange host "v1/admin/ai/test" (with_body "POST" body)

  unfoldable pub get_admin_ai_prompts : Host N → Exchange N
  get_admin_ai_prompts host = exchange host "v1/admin/ai/prompts" fresh

  unfoldable pub get_ai_goal_provider_status : Host N → Exchange N
  get_ai_goal_provider_status host = exchange host "v1/ai/goals/provider-status" fresh

  unfoldable pub analyze_ai_goal : Host N → Json N → Exchange N
  analyze_ai_goal host input = exchange host "v1/ai/goals/analyze" (with_body "POST" input)

  unfoldable pub list_ai_goal_runs : Encoder N → Host N → N → Exchange N
  list_ai_goal_runs enc host limit =
      exchange host ("v1/ai/goals/runs?" ++ enc.form (("limit", enc.show limit) ∷ [])) fresh

  unfoldable pub get_ai_goal_run : Host N → String → Exchange N
  get_ai_goal_run host id = exchange host ("v1/ai/goals/runs/" ++ id) fresh

  unfoldable pub update_ai_goal_run_action : Host N → String → String → Json N → Exchange N
  update_ai_goal_run_action host run_id action_id input =
      exchange host ("v1/ai/goals/runs/" ++ run_id ++ "/actions/" ++ action_id)
        (with_body "PATCH" input)

  unfoldable pub list_audit :
      Encoder N → Host N → Option String → Option String → Option String → Option N → Exchange N
  list_audit enc host actor resource_type since limit =
      exchange host
        ("v1/admin/audit"
          ++ query enc (
              set_if "actor" actor (
                set_if "resourceType" resource_type
                  (set_if "since" since (set_number enc "limit" limit [])))))
        fresh

  unfoldable pub get_settings_system_info : Host N → Exchange N
  get_settings_system_info host = exchange host "v1/settings/system-info" fresh
