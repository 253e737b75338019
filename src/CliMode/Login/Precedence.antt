-- ===== src/CliMode/Login/Precedence.antt =====
-- Which flow a login runs, as the order of precedence says that is documented in
-- internal/github/auth_handler.go.
use scafctl_plugin_auth_gith.Prelude.{
  String, ◌<>◌, ◌==◌, Bool, true, false, not, ◌&&◌, ◌||◌, ◌≡◌, refl, if◌then◌else◌,
}
use scafctl_plugin_auth_gith.Effect.{Exec, fail, gets, ◌>>=◌}
use scafctl_plugin_auth_gith.Types.{
  Flow, no_flow, pat, device_code, github_app, interactive, other_flow, LoginRequest, LoginResponse,
}
use scafctl_plugin_auth_gith.World.{World}
use scafctl_plugin_auth_gith.Handler.{Handler, Context}
use scafctl_plugin_auth_gith.Pat.{has_pat_credentials, pat_login}
use scafctl_plugin_auth_gith.DeviceFlow.{device_code_login, interactive_device_code_login}
use scafctl_plugin_auth_gith.AppFlow.{app_login}
use scafctl_plugin_auth_gith.AuthCodeFlow.{auth_code_login}
use scafctl_plugin_auth_gith.CliMode.Login.{login, login_by, interactive_login, is_empty}

abbrev is_flow : Flow → Flow → Bool
is_flow no_flow no_flow = true
is_flow pat pat = true
is_flow device_code device_code = true
is_flow github_app github_app = true
is_flow interactive interactive = true
is_flow (other_flow a) (other_flow b) = a == b
is_flow _ _ = false

abbrev other_name : Flow → String
other_name (other_flow text) = text
other_name _ = ""

module _ ⦃W : World⦄ where
  -- The documented rules, tried from the first to the last.
  abbrev pub by_precedence :
      Flow → Handler W → Context W → LoginRequest → Bool → Exec W.State LoginResponse
  by_precedence flow p ctx req has_pat =
      if is_flow flow pat
      then pat_login p
      else if is_flow flow no_flow && (has_pat && is_empty req.scopes)
      then pat_login p
      else if is_flow flow device_code
      then device_code_login p ctx req
      else if is_flow flow github_app
      then app_login p ctx
      else if is_flow flow interactive || is_flow flow no_flow
      then (if not (p.config.client_secret == "")
          then auth_code_login p ctx req
          else interactive_device_code_login p ctx req)
      else fail ("unsupported flow: " <> other_name flow)

  either_way :
      (b : Bool) (m n : Exec W.State LoginResponse) (s : W.State)
      → (if b then m else n) s ≡ (if not b then n else m) s
  either_way true m n s = refl
  either_way false m n s = refl

  under_if :
      (b : Bool) (m n k : Exec W.State LoginResponse) (s : W.State)
      → n s ≡ k s
      → (if b then m else n) s ≡ (if b then m else k) s
  under_if true m n k s e = refl
  under_if false m n k s e = e

  by_flow :
      (flow : Flow) (p : Handler W) (ctx : Context W) (req : LoginRequest) (s : W.State)
      → login_by flow p ctx req s ≡ by_precedence flow p ctx req (has_pat_credentials s) s
  unfolding login_by interactive_login ◌>>=◌ gets
  by_flow pat p ctx req s = refl
  by_flow device_code p ctx req s = refl
  by_flow github_app p ctx req s = refl
  by_flow interactive p ctx req s = either_way (p.config.client_secret == "") _ _ s
  by_flow no_flow p ctx req s =
      under_if (has_pat_credentials s && is_empty req.scopes) _ _ _ s
        (either_way (p.config.client_secret == "") _ _ s)
  by_flow (other_flow text) p ctx req s = refl

  -- A login does what the first documented rule says that applies: a personal access token where
  -- it is asked for, or where no flow and no scopes are asked for and the environment has one; then
  -- the device code flow, the GitHub App flow, and for the interactive flow or none the
  -- authorization code flow if a client secret is configured and else the device code flow with a
  -- browser. Any other flow is an error.
  pub login-by_precedence :
      (p : Handler W) (ctx : Context W) (req : LoginRequest) (s : W.State)
      → login p ctx req s ≡ by_precedence req.flow p ctx req (has_pat_credentials s) s
  unfolding login
  login-by_precedence p ctx req s = by_flow req.flow p ctx req s
