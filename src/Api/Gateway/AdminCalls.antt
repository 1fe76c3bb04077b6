-- ===== src/Api/Gateway/AdminCalls.antt =====
-- The routes of the calls for administration, settings and AI goals (client/data/api-client.ts).
use finance_next.Base.{refl, some, All}
use finance_next.Json.{text as json_text, object, member, end}
use finance_next.Api.{Host}
use finance_next.Api.Auth.{with_body, bare}
use finance_next.Api.Calls.{Encoder, fresh, with_headers}
use finance_next.Api.Calls.Admin.{
  request_mainnet_token, confirm_mainnet_token, get_mainnet_status, get_system_state, halt_trading,
  resume_trading, get_portfolio_limits, set_portfolio_limits, get_admin_ai_config,
  update_admin_ai_config, test_ai_connection, get_admin_ai_prompts, get_ai_goal_provider_status,
  analyze_ai_goal, list_ai_goal_runs, get_ai_goal_run, update_ai_goal_run_action, list_audit,
  get_settings_system_info,
}
use finance_next.Api.Gateway.{split, find_routes}
use finance_next.Api.Gateway.Paths.{IsPiece-id_then, IsPiece-id}
use finance_next.Api.Gateway.Fitting.{
  FitsOnly, ◌▸◌, literal, below_literal, fitting-query, fitting-path, fitting-asking, query-IsQuery,
}
use finance_next.Api.Gateway.Table.{Inputs, HasSegments, admin_calls}

pub admin_calls-FitsOnly :
    {N : Type 0} (enc : Encoder N) (host : Host N) (i : Inputs N)
    → HasSegments i
    → All (FitsOnly host) (admin_calls enc host i)
unfolding request_mainnet_token confirm_mainnet_token get_mainnet_status get_system_state
    halt_trading resume_trading get_portfolio_limits set_portfolio_limits get_admin_ai_config
    update_admin_ai_config test_ai_connection get_admin_ai_prompts get_ai_goal_provider_status
    analyze_ai_goal list_ai_goal_runs get_ai_goal_run update_ai_goal_run_action list_audit
    get_settings_system_info split find_routes
admin_calls-FitsOnly enc host i h =
    fitting-path host (record bare { method = some "POST" })
      (literal "v1/admin/mainnet/request-token" refl)
    ▸ fitting-path host (with_body "POST" (object (member "token" (json_text i.token) end)))
        (literal "v1/admin/mainnet/confirm" refl)
    ▸ fitting-path host fresh (literal "v1/admin/mainnet/status" refl)
    ▸ fitting-path host fresh (literal "v1/admin/system-state" refl)
    ▸ fitting-path host (with_body "POST" (object (member "reason" (json_text i.reason) end)))
        (literal "v1/admin/halt" refl)
    ▸ fitting-path host (with_headers "POST") (literal "v1/admin/resume" refl)
    ▸ fitting-path host fresh (literal "v1/admin/portfolio-limits" refl)
    ▸ fitting-path host (with_body "PUT" i.limits) (literal "v1/admin/portfolio-limits" refl)
    ▸ fitting-path host fresh (literal "v1/admin/ai/config" refl)
    ▸ fitting-path host (with_body "PUT" i.patch) (literal "v1/admin/ai/config" refl)
    ▸ fitting-path host (with_body "POST" i.body) (literal "v1/admin/ai/test" refl)
    ▸ fitting-path host fresh (literal "v1/admin/ai/prompts" refl)
    ▸ fitting-path host fresh (literal "v1/ai/goals/provider-status" refl)
    ▸ fitting-path host (with_body "POST" i.input) (literal "v1/ai/goals/analyze" refl)
    ▸ fitting-asking host fresh "v1/ai/goals/runs" _ refl
    ▸ fitting-path host fresh (below_literal "v1/ai/goals/runs/" (IsPiece-id i.id h.id) refl)
    ▸ fitting-path host (with_body "PATCH" i.input) (
        below_literal "v1/ai/goals/runs/"
          (IsPiece-id_then i.run_id h.run_id
            (below_literal "/actions/" (IsPiece-id i.action_id h.action_id) refl))
          refl)
    ▸ fitting-query host fresh _ (literal "v1/admin/audit" refl) (query-IsQuery enc _)
    ▸ fitting-path host fresh (literal "v1/settings/system-info" refl)
    ▸ tt
