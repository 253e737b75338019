-- ===== src/AuthCodeFlow/Isolation.antt =====
-- Which secrets the authorization code login touches.
use scafctl_plugin_auth_gith.Prelude.{String, ◌≡◌, ℤ}
use scafctl_plugin_auth_gith.Effect.{ok}
use scafctl_plugin_auth_gith.Effect.Keeps.{
  Keeps, keeps_rules, Keeps-bind, Keeps-pure, Keeps-lift, Keeps-try, Keeps-fail, Keeps-or_wrap,
  Keeps-finally,
}
use scafctl_plugin_auth_gith.World.{World}
use scafctl_plugin_auth_gith.Profile.{validate_profile}
use scafctl_plugin_auth_gith.Frame.{Frame}
use scafctl_plugin_auth_gith.Types.{LoginRequest, interactive}
use scafctl_plugin_auth_gith.World.{Callback, code, failed, timed_out, cancelled}
use scafctl_plugin_auth_gith.Handler.{Handler, Context}
use scafctl_plugin_auth_gith.Token.Store.Isolation.{store_credentials-Keeps}
use scafctl_plugin_auth_gith.DeviceFlow.{browser_opener, timeout_or_default, scopes_or_default}
use scafctl_plugin_auth_gith.DeviceFlow.Isolation.{session_deadline-Keeps}
use scafctl_plugin_auth_gith.AuthCodeFlow.{
  exchange_auth_code, received, with_callback_server, auth_code_login,
}

module _ ⦃W : World⦄ {P : W.State → Type 0} (ctx : Context W) (F : Frame W P ctx.profile)
    (valid : validate_profile ctx.profile ≡ ok tt) where
  exchange_auth_code-Keeps : (p : Handler W) (a b c : String) → Keeps P (exchange_auth_code p a b c)
  unfolding exchange_auth_code
  exchange_auth_code-Keeps p a b c = search (keeps_rules, F.post_form)

  received-Keeps : (timeout : ℤ) (event : Callback) → Keeps P (received timeout event)
  unfolding received
  received-Keeps timeout (code c) = Keeps-pure c
  received-Keeps timeout (failed e) = Keeps-lift _
  received-Keeps timeout timed_out = Keeps-fail _
  received-Keeps timeout cancelled = Keeps-fail _

  module _ (p : Handler W) (opens : (url : String) → Keeps P (browser_opener p url)) where
    with_callback_server-Keeps :
        (req : LoginRequest) (verifier state uri : String)
        → Keeps P (with_callback_server p ctx req verifier state uri)
    unfolding with_callback_server
    with_callback_server-Keeps req verifier state uri = Keeps-bind _ _ (Keeps-try _ (opens _)) λ _.
        Keeps-bind _ _ (F.notify _) λ _.
          Keeps-bind _ _ (F.await_callback (timeout_or_default req)) λ event.
            Keeps-bind _ _ (received-Keeps (timeout_or_default req) event) λ auth_code.
              Keeps-bind _ _ (Keeps-or_wrap _ _ (exchange_auth_code-Keeps p auth_code uri verifier))
                λ resp.
                  Keeps-bind _ _
                    (Keeps-or_wrap _ _ (
                      store_credentials-Keeps ctx F valid p resp (scopes_or_default req p.config) ""
                        interactive))
                    λ claims.
                      Keeps-bind _ _ (session_deadline-Keeps ctx F valid resp)
                        λ deadline. Keeps-pure _

    pub auth_code_login-Keeps : (req : LoginRequest) → Keeps P (auth_code_login p ctx req)
    unfolding auth_code_login
    auth_code_login-Keeps req =
        Keeps-bind _ _ (Keeps-or_wrap _ _ F.generate_code_verifier) λ verifier.
          Keeps-bind _ _ (Keeps-or_wrap _ _ F.generate_code_verifier) λ state.
            Keeps-bind _ _ (Keeps-or_wrap _ _ (F.start_callback_server state)) λ uri.
              Keeps-finally _ _ (with_callback_server-Keeps req verifier state uri)
                F.close_callback_server
