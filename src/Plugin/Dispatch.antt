-- ===== src/Plugin/Dispatch.antt =====
-- The operations of the plugin's interface: each checks the handler's name, then delegates to the
-- active mode.
use scafctl_plugin_auth_gith.Prelude.{
  String, ◌==◌, ℕ, Option, none, some, List, [], ◌∷◌, if◌then◌else◌,
}
use scafctl_plugin_auth_gith.Effect.{Result, ok, Exec, panic, pure, fail, lift}
use scafctl_plugin_auth_gith.Types.{
  Flow, interactive, device_code, pat, github_app, LoginRequest, LoginResponse, TokenRequest,
  TokenReply, Status, CachedTokenInfo, FlowAvailability,
}
use scafctl_plugin_auth_gith.World.{World}
use scafctl_plugin_auth_gith.Handler.{Handler, Context}
use scafctl_plugin_auth_gith.Cache.{handler_name}
use scafctl_plugin_auth_gith.CliMode
use scafctl_plugin_auth_gith.ServerMode.{
  ServerState, unimplemented, server_get_token, nil_dereference,
}
use scafctl_plugin_auth_gith.Plugin.State.{Mode, cli, serving, Plugin, System, handler_of, in_world}
use scafctl_plugin_auth_gith.Plugin.Configure.{unknown_handler}

abbrev pub not_configured : String
not_configured =
    "auth handler not configured: call ConfigureAuthHandler or ActivateServerMode first"

-- The flows that GetAuthHandlers advertises.
abbrev pub advertised_flows : List Flow
advertised_flows = interactive ∷ device_code ∷ pat ∷ github_app ∷ []

abbrev pub handler_display_name : String
handler_display_name = "GitHub"

-- `auth.Capability`, as far as the plugin names them, and `sdkplugin.AuthHandlerInfo`.
pub data Capability : Type 0 where
  scopes_on_login hostname callback_port : Capability

pub record AuthHandlerInfo : Type 0 where
  pub name : String
  pub display_name : String
  pub flows : List Flow
  pub capabilities : List Capability

abbrev pub get_auth_handlers : Result (List AuthHandlerInfo)
get_auth_handlers = ok (
    record {
      name = handler_name;
      display_name = handler_display_name;
      flows = advertised_flows;
      capabilities = scopes_on_login ∷ hostname ∷ callback_port ∷ [];
    }
    ∷ [])

module _ ⦃W : World⦄ where
  unfoldable pub on_handler :
      {A : Type 0} → Option (Handler W) → (Handler W → Exec W.State A) → Exec (System W) A
  on_handler none operation = lift (panic nil_dereference)
  on_handler (some p) operation = in_world (operation p)

  -- activeMode, and the call of the mode's method.
  unfoldable pub on_mode :
      {A : Type 0}
      → Plugin W
      → Option (Mode W)
      → (Handler W → Exec W.State A)
      → (ServerState W → Exec W.State A)
      → Exec (System W) A
  unfolding on_handler
  on_mode p none on_cli on_server = fail not_configured
  on_mode p (some cli) on_cli on_server = on_handler (handler_of p) on_cli
  on_mode p (some (serving m)) on_cli on_server = in_world (on_server m)

  unfoldable pub dispatch :
      {A : Type 0}
      → String
      → (Handler W → Exec W.State A)
      → (ServerState W → Exec W.State A)
      → Exec (System W) A
  unfolding on_mode
  dispatch name on_cli on_server s =
      if name == handler_name
      then on_mode s.plugin s.plugin.mode on_cli on_server s
      else fail (unknown_handler name) s

  unfoldable pub login : Context W → String → LoginRequest → Exec (System W) LoginResponse
  login ctx name req = dispatch name (λ p. CliMode.login p ctx req) (λ m. unimplemented "login")

  unfoldable pub logout : Context W → String → Exec (System W) (Unit {0})
  logout ctx name = dispatch name (λ p. CliMode.logout p ctx) (λ m. unimplemented "logout")

  unfoldable pub get_status : Context W → String → Exec (System W) Status
  get_status ctx name =
      dispatch name (λ p. CliMode.get_status p ctx) (λ m. unimplemented "get status")

  unfoldable pub get_token : Context W → String → TokenRequest → Exec (System W) TokenReply
  get_token ctx name req =
      dispatch name (λ p. CliMode.get_token p ctx req) (λ m. server_get_token m req)

  unfoldable pub list_cached_tokens : Context W → String → Exec (System W) (List CachedTokenInfo)
  list_cached_tokens ctx name =
      dispatch name (λ p. CliMode.list_cached_tokens p ctx)
        (λ m. unimplemented "list cached tokens")

  unfoldable pub purge_expired_tokens : Context W → String → Exec (System W) ℕ
  purge_expired_tokens ctx name =
      dispatch name (λ p. CliMode.purge_expired_tokens p ctx)
        (λ m. unimplemented "purge expired tokens")

  unfoldable pub detect_available_flows : String → Exec (System W) (List FlowAvailability)
  detect_available_flows name =
      dispatch name CliMode.detect_available_flows (λ m. unimplemented "detect available flows")

  -- StopAuthHandler.
  unfoldable pub stop_auth_handler : String → Exec (System W) (Unit {0})
  stop_auth_handler name = if name == handler_name then pure tt else fail (unknown_handler name)
