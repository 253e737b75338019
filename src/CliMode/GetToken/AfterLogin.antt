-- ===== src/CliMode/GetToken/AfterLogin.antt =====
-- A token request after a login with the device flow: Login and GetToken of
-- internal/github/cli_mode.go.
use scafctl_plugin_auth_gith.Prelude.{
  String, ◌==◌, ℤ, ◌+ℤ◌, true, false, Option, some, ◌≡◌, ◌⊎◌, inl, inr, ◌&&◌, ◌∙◌, refl, sym, subst,
  ap,
}
use scafctl_plugin_auth_gith.Effect.{ok, panic, Exec, gets, ◌>>=◌}
use scafctl_plugin_auth_gith.Effect.Ensures.{Ensures}
use scafctl_plugin_auth_gith.Types.{
  no_flow, device_code, interactive, LoginRequest, LoginResponse, TokenRequest, TokenCacheEntry,
}
use scafctl_plugin_auth_gith.World.{World}
use scafctl_plugin_auth_gith.Reliable.{Reliable}
use scafctl_plugin_auth_gith.Isolation.{IsHost}
use scafctl_plugin_auth_gith.Profile.{validate_profile}
use scafctl_plugin_auth_gith.Profile.Keys.{key_of, access_token}
use scafctl_plugin_auth_gith.Handler.{Handler, Context, host_client}
use scafctl_plugin_auth_gith.Token.Store.{one_year}
use scafctl_plugin_auth_gith.Pat.{has_pat_credentials, reply_of}
use scafctl_plugin_auth_gith.DeviceFlow.{device_code_login, interactive_device_code_login}
use scafctl_plugin_auth_gith.DeviceFlow.SignedIn.{
  Anything, SignedIn, device_code-SignedIn, interactive-SignedIn,
}
use scafctl_plugin_auth_gith.CliMode.Login.{is_empty, login, login_by, interactive_login}
use scafctl_plugin_auth_gith.CliMode.GetToken.{get_token, stored_token}
use scafctl_plugin_auth_gith.CliMode.GetToken.Stored.{get_token-stored}

-- The requests that run the device flow: those that ask for it, and where no client secret is set
-- those that ask for the interactive flow or, unless the environment's token applies, for none.
abbrev pub RunsDeviceFlow : ⦃W : World⦄ → Handler W → LoginRequest → W.State → Type 0
RunsDeviceFlow p req s =
    (req.flow ≡ device_code)
    ⊎ ((p.config.client_secret == "" ≡ true)
        × ((req.flow ≡ interactive)
            ⊎ ((req.flow ≡ no_flow) × (has_pat_credentials s && is_empty req.scopes ≡ false))))

module _ ⦃W : World⦄ {secrets : W.State → String → Option String} {time : W.State → ℤ}
    (R : Reliable W secrets time) (host : IsHost secrets) (client : W.HostClient) (p : Handler W)
    (ctx : Context W) (here : host_client p ctx ≡ some client)
    (valid : validate_profile ctx.profile ≡ ok tt) where
  without_secret :
      (req : LoginRequest) (s : W.State)
      → p.config.client_secret == "" ≡ true
      → interactive_login p ctx req s ≡ interactive_device_code_login p ctx req s
  unfolding interactive_login
  without_secret req s no_secret = rw no_secret refl

  by_default :
      (req : LoginRequest) (s : W.State)
      → has_pat_credentials s && is_empty req.scopes ≡ false
      → login_by no_flow p ctx req s ≡ interactive_login p ctx req s
  unfolding login_by ◌>>=◌ gets
  by_default req s no_pat = rw no_pat refl

  ends :
      (req : LoginRequest) (s : W.State) (flow : Exec W.State LoginResponse)
      (response : LoginResponse)
      → login p ctx req s ≡ flow s
      → Ensures Anything flow (λ _. SignedIn R host client p ctx here valid)
      → (login p ctx req s).0 ≡ ok response
      → SignedIn R host client p ctx here valid (login p ctx req s).1
  ends req s flow response same ensured returned =
      subst (λ r. SignedIn R host client p ctx here valid r.1) (sym same)
        (ensured.then s response tt (sym (ap (λ r. r.0) same) ∙ returned))

  -- Whichever device flow the login runs, the profile is signed in if it returns.
  login-SignedIn :
      (req : LoginRequest) (s : W.State) (response : LoginResponse)
      → RunsDeviceFlow p req s
      → (login p ctx req s).0 ≡ ok response
      → SignedIn R host client p ctx here valid (login p ctx req s).1
  login-SignedIn req s response (inl flow) =
      ends req s (device_code_login p ctx req) response
        (unfold login login_by in ap (λ f. login_by f p ctx req s) flow)
        (device_code-SignedIn R host client p ctx here valid req)
  login-SignedIn req s response (inr (no_secret, inl flow)) =
      ends req s (interactive_device_code_login p ctx req) response
        (unfold login login_by in
          (ap (λ f. login_by f p ctx req s) flow ∙ without_secret req s no_secret))
        (interactive-SignedIn R host client p ctx here valid req)
  login-SignedIn req s response (inr (no_secret, inr (flow, no_pat))) =
      ends req s (interactive_device_code_login p ctx req) response
        (unfold login in
          (ap (λ f. login_by f p ctx req s) flow
            ∙ by_default req s no_pat
            ∙ without_secret req s no_secret))
        (interactive-SignedIn R host client p ctx here valid req)

  -- If the host is reliable and changes no secret that it is not told to change, a host client is
  -- there, the profile's name is valid, encoding a cache entry as JSON does not panic, a login that
  -- runs the device flow, the default login without a client secret included, succeeds, and no
  -- personal access token is in the environment then, a token request that forces a refresh
  -- answers with a token that is not empty, the one that is stored, and an expiry of one year from
  -- then.
  pub login-get_token :
      (req : LoginRequest) (token_req : TokenRequest) (s t : W.State) (response : LoginResponse)
      → RunsDeviceFlow p req s
      → ((entry : TokenCacheEntry) (e : String) → ¬ (W.encode_entry entry ≡ panic e))
      → login p ctx req s ≡ (ok response, t)
      → has_pat_credentials t ≡ false
      → token_req.force_refresh ≡ true
      → (token : String) × (token == "" ≡ false)
        × (secrets t (key_of ctx.profile access_token) ≡ some token)
        × ((get_token p ctx token_req t).0
            ≡ ok (reply_of (stored_token token (time t +ℤ one_year))))
  login-get_token req token_req s t response device safe logged_in no_pat forced =
      let signed_in =
        subst (SignedIn R host client p ctx here valid) (ap (λ r. r.1) logged_in)
          (login-SignedIn req s response device (ap (λ r. r.0) logged_in)) in
      (
        signed_in.0,
        signed_in.1,
        signed_in.2,
        get_token-stored R client p ctx here valid token_req signed_in.0 t no_pat forced signed_in.2
            signed_in.1 safe,
      )
