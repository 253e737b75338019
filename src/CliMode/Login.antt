-- ===== src/CliMode/Login.antt =====
-- Login of internal/github/cli_mode.go: which flow a request runs.
pub mod Precedence
pub mod Isolation
use scafctl_plugin_auth_gith.Prelude.{
  String, ◌<>◌, ◌==◌, Bool, true, false, ◌&&◌, List, [], ◌∷◌, if◌then◌else◌,
}
use scafctl_plugin_auth_gith.Effect.{Exec, fail, gets, ◌>>=◌}
use scafctl_plugin_auth_gith.Types.{
  Flow, no_flow, pat, device_code, github_app, interactive, other_flow, LoginRequest, LoginResponse,
}
use scafctl_plugin_auth_gith.World.{World}
use scafctl_plugin_auth_gith.Handler.{Handler, Context}
use scafctl_plugin_auth_gith.Pat.{has_pat_credentials, pat_login}
use scafctl_plugin_auth_gith.DeviceFlow.{device_code_login, interactive_device_code_login}
use scafctl_plugin_auth_gith.AppFlow.{app_login}
use scafctl_plugin_auth_gith.AuthCodeFlow.{auth_code_login}

abbrev pub is_empty : List String → Bool
is_empty [] = true
is_empty (scope ∷ scopes) = false

module _ ⦃W : World⦄ where
  -- `FlowInteractive`, and no flow once the environment's token is ruled out.
  unfoldable pub interactive_login :
      Handler W → Context W → LoginRequest → Exec W.State LoginResponse
  interactive_login p ctx req =
      if p.config.client_secret == ""
      then interactive_device_code_login p ctx req
      else auth_code_login p ctx req

  unfoldable pub login_by : Flow → Handler W → Context W → LoginRequest → Exec W.State LoginResponse
  unfolding interactive_login
  login_by pat p ctx req = pat_login p
  login_by device_code p ctx req = device_code_login p ctx req
  login_by github_app p ctx req = app_login p ctx
  login_by interactive p ctx req = interactive_login p ctx req
  login_by no_flow p ctx req = do
    has_pat ← gets has_pat_credentials
    if has_pat && is_empty req.scopes then pat_login p else interactive_login p ctx req
  login_by (other_flow text) p ctx req = fail ("unsupported flow: " <> text)

  unfoldable pub login : Handler W → Context W → LoginRequest → Exec W.State LoginResponse
  unfolding login_by
  login p ctx req = login_by req.flow p ctx req
