-- ===== src/DeviceFlow/Isolation.antt =====
-- Which secrets the device code login touches.
use scafctl_plugin_auth_gith.Prelude.{
  String, ◌≡◌, ℕ, zero, suc, ℤ, Bool, true, false, List, Option, some, none,
}
use scafctl_plugin_auth_gith.Effect.{ok}
use scafctl_plugin_auth_gith.Effect.Keeps.{
  Keeps, keeps_rules, Keeps-bind, Keeps-pure, Keeps-lift, Keeps-try, Keeps-fail, Keeps-or_wrap,
}
use scafctl_plugin_auth_gith.World.{World}
use scafctl_plugin_auth_gith.Profile.{validate_profile}
use scafctl_plugin_auth_gith.Frame.{Frame}
use scafctl_plugin_auth_gith.Types.{
  LoginRequest, DeviceCodeResponse, TokenResponse, Response, device_code,
}
use scafctl_plugin_auth_gith.Handler.{Handler, Context}
use scafctl_plugin_auth_gith.Token.Store.Isolation.{store_credentials-Keeps}
use scafctl_plugin_auth_gith.DeviceFlow.{
  browser_opener, check_ticker, poll_round, poll_loop, again, slow_down, finished, slowed, polled,
  poll_for_token, device_code_of, request_device_code, session_deadline, open_if,
  perform_device_code_flow, device_code_login, interactive_device_code_login, scopes_or_default,
  timeout_or_default,
}

module _ ⦃W : World⦄ {P : W.State → Type 0} (ctx : Context W) (F : Frame W P ctx.profile)
    (valid : validate_profile ctx.profile ≡ ok tt) where
  check_ticker-Keeps : (interval : ℤ) → Keeps P (check_ticker interval)
  check_ticker-Keeps interval = search (keeps_rules)

  poll_round-Keeps :
      (p : Handler W) (code : String) (interval : ℤ) → Keeps P (poll_round p code interval)
  unfolding poll_round
  poll_round-Keeps p code interval = search (keeps_rules, F.await_tick, F.post_form)

  poll_loop-Keeps :
      (fuel : ℕ) (p : Handler W) (code : String) (interval : ℤ)
      → Keeps P (poll_loop fuel p code interval)
  unfolding poll_loop
  poll_loop-Keeps zero p code interval = Keeps-pure none
  poll_loop-Keeps (suc fuel) p code interval =
      Keeps-bind _ _ (poll_round-Keeps p code interval) (elim [
        | again ↦ poll_loop-Keeps fuel p code interval
        | slow_down ↦
            Keeps-bind _ _ (check_ticker-Keeps (slowed p.config interval))
              λ _. poll_loop-Keeps fuel p code (slowed p.config interval)
        | finished r ↦ Keeps-bind _ _ (Keeps-lift r) λ resp. Keeps-pure _
      ])

  polled-Keeps : (o : Option TokenResponse) → Keeps P (polled o)
  unfolding polled
  polled-Keeps none = Keeps-fail _
  polled-Keeps (some resp) = Keeps-pure resp

  poll_for_token-Keeps : (p : Handler W) (r : DeviceCodeResponse) → Keeps P (poll_for_token p r)
  unfolding poll_for_token
  poll_for_token-Keeps p r =
      search (keeps_rules, check_ticker-Keeps, poll_loop-Keeps, polled-Keeps) depth 8

  device_code_of-Keeps : (resp : Response) → Keeps P (device_code_of resp)
  unfolding device_code_of
  device_code_of-Keeps resp = search (keeps_rules)

  request_device_code-Keeps :
      (p : Handler W) (scopes : List String) → Keeps P (request_device_code p scopes)
  unfolding request_device_code
  request_device_code-Keeps p scopes = search (keeps_rules, F.post_form, device_code_of-Keeps)

  pub session_deadline-Keeps : (resp : TokenResponse) → Keeps P (session_deadline resp)
  unfolding session_deadline
  session_deadline-Keeps resp = search (keeps_rules, F.now)

  module _ (p : Handler W) (opens : (url : String) → Keeps P (browser_opener p url)) where
    open_if-Keeps : (b : Bool) (url : String) → Keeps P (open_if p b url)
    unfolding open_if
    open_if-Keeps false url = Keeps-pure tt
    open_if-Keeps true url = Keeps-bind _ _ (Keeps-try _ (opens url)) λ _. Keeps-pure tt

    perform_device_code_flow-Keeps :
        (scopes : List String) (b : Bool) → Keeps P (perform_device_code_flow p ctx scopes b)
    unfolding perform_device_code_flow
    perform_device_code_flow-Keeps scopes b =
        Keeps-bind _ _ (Keeps-or_wrap _ _ (request_device_code-Keeps p scopes)) λ response.
          Keeps-bind _ _ (open_if-Keeps b response.verification_uri) λ _.
            Keeps-bind _ _ (F.notify _) λ _.
              Keeps-bind _ _ (Keeps-or_wrap _ _ (poll_for_token-Keeps p response)) λ resp.
                Keeps-bind _ _
                  (Keeps-or_wrap _ _
                    (store_credentials-Keeps ctx F valid p resp scopes "" device_code))
                  λ claims. Keeps-bind _ _ (session_deadline-Keeps resp) λ deadline. Keeps-pure _

    pub device_code_login-Keeps : (req : LoginRequest) → Keeps P (device_code_login p ctx req)
    unfolding device_code_login
    device_code_login-Keeps req =
        Keeps-bind _ _ (F.with_timeout (timeout_or_default req))
          λ _. perform_device_code_flow-Keeps (scopes_or_default req p.config) false

    pub interactive_device_code_login-Keeps :
        (req : LoginRequest) → Keeps P (interactive_device_code_login p ctx req)
    unfolding interactive_device_code_login
    interactive_device_code_login-Keeps req =
        Keeps-bind _ _ (F.with_timeout (timeout_or_default req))
          λ _. perform_device_code_flow-Keeps (scopes_or_default req p.config) true
