-- ===== src/CliMode/Login/Isolation.antt =====
-- Which secrets the command line's login touches.
use scafctl_plugin_auth_gith.Prelude.{String, ◌≡◌}
use scafctl_plugin_auth_gith.Effect.{ok}
use scafctl_plugin_auth_gith.Effect.Keeps.{Keeps, keeps_rules, Keeps-fail}
use scafctl_plugin_auth_gith.World.{World}
use scafctl_plugin_auth_gith.Profile.{validate_profile}
use scafctl_plugin_auth_gith.Frame.{Frame}
use scafctl_plugin_auth_gith.Types.{
  Flow, no_flow, pat, device_code, github_app, interactive, other_flow, LoginRequest,
}
use scafctl_plugin_auth_gith.Handler.{Handler, Context}
use scafctl_plugin_auth_gith.Pat.Isolation.{pat_login-Keeps}
use scafctl_plugin_auth_gith.DeviceFlow.{browser_opener}
use scafctl_plugin_auth_gith.DeviceFlow.Isolation.{
  device_code_login-Keeps, interactive_device_code_login-Keeps,
}
use scafctl_plugin_auth_gith.AuthCodeFlow.Isolation.{auth_code_login-Keeps}
use scafctl_plugin_auth_gith.AppFlow.Isolation.{app_login-Keeps}
use scafctl_plugin_auth_gith.CliMode.Login.{interactive_login, login_by, login}

module _ ⦃W : World⦄ {P : W.State → Type 0} (ctx : Context W) (F : Frame W P ctx.profile)
    (valid : validate_profile ctx.profile ≡ ok tt) where
  module _ (p : Handler W) (opens : (url : String) → Keeps P (browser_opener p url)) where
    interactive_login-Keeps : (req : LoginRequest) → Keeps P (interactive_login p ctx req)
    unfolding interactive_login
    interactive_login-Keeps req = search (
      keeps_rules,
      interactive_device_code_login-Keeps ctx F valid p opens,
      auth_code_login-Keeps ctx F valid p opens,
    )

    login_by-Keeps : (flow : Flow) (req : LoginRequest) → Keeps P (login_by flow p ctx req)
    unfolding login_by
    login_by-Keeps pat req = pat_login-Keeps ctx F valid p
    login_by-Keeps device_code req = device_code_login-Keeps ctx F valid p opens req
    login_by-Keeps github_app req = app_login-Keeps ctx F valid p
    login_by-Keeps interactive req = interactive_login-Keeps req
    login_by-Keeps no_flow req =
        search (keeps_rules, pat_login-Keeps ctx F valid, interactive_login-Keeps)
    login_by-Keeps (other_flow text) req = Keeps-fail _

    pub login-Keeps : (req : LoginRequest) → Keeps P (login p ctx req)
    unfolding login
    login-Keeps req = login_by-Keeps req.flow req
