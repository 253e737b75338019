-- ===== src/DeviceFlow/SignedIn.antt =====
-- What a login with the device flow leaves in the store: performDeviceCodeFlow of
-- internal/github/device_flow.go.
use scafctl_plugin_auth_gith.Prelude.{
  String, ◌==◌, ℕ, suc, ℤ, Bool, true, false, Option, none, some, List, ◌≡◌, sym, ap, subst,
}
use scafctl_plugin_auth_gith.Effect.{ok, err, Exec, fail}
use scafctl_plugin_auth_gith.Effect.Keeps.{Keeps, Keeps-bind, Keeps-pure, keeps_rules}
use scafctl_plugin_auth_gith.Effect.Ensures.{
  Ensures, Ensures-of_Keeps, Ensures-or_wrap, Ensures-pure, Ensures-bind, Ensures-after,
}
use scafctl_plugin_auth_gith.Types.{device_code, LoginRequest, TokenResponse, DeviceCodeResponse}
use scafctl_plugin_auth_gith.World.{World}
use scafctl_plugin_auth_gith.Reliable.{Reliable}
use scafctl_plugin_auth_gith.Isolation.{IsHost}
use scafctl_plugin_auth_gith.Profile.{validate_profile}
use scafctl_plugin_auth_gith.Profile.Keys.{key_of, access_token}
use scafctl_plugin_auth_gith.Profile.Apart.{stranger}
use scafctl_plugin_auth_gith.Handler.{Handler, Context, host_client}
use scafctl_plugin_auth_gith.Token.Store.{store_credentials, store_on}
use scafctl_plugin_auth_gith.Token.Store.Outcome.{store_with-access}
use scafctl_plugin_auth_gith.DeviceFlow.{
  poll_for_token, poll_loop, polled, session_deadline, perform_device_code_flow, device_code_login,
  interactive_device_code_login,
}
use scafctl_plugin_auth_gith.DeviceFlow.Tokens.{poll_loop-token}

module _ ⦃W : World⦄ where
  abbrev pub Anything : W.State → Type 0
  Anything s = Unit {0}

  anything : {A : Type 0} (m : Exec W.State A) → Keeps Anything m
  anything m = record { at = λ s h. tt }

  abbrev Full : TokenResponse → W.State → Type 0
  Full resp s = resp.access_token == "" ≡ false

  abbrev FullIf : Option TokenResponse → W.State → Type 0
  FullIf none s = Unit {0}
  FullIf (some resp) s = Full resp s

  polled-Full : (o : Option TokenResponse) → Ensures (FullIf o) (polled o) Full
  unfolding polled fail
  polled-Full none = record { then = λ s v h e. absurd (no e) }
    where
      no : {a : TokenResponse} {x : String} → ¬ (err x ≡ ok a)
      no h = cc
  polled-Full (some resp) = Ensures-pure resp (λ s h. h)

  loop-Full :
      (fuel : ℕ) (p : Handler W) (code : String) (interval : ℤ)
      → Ensures Anything (poll_loop fuel p code interval) FullIf
  loop-Full fuel p code interval = record {
    then = λ s o h e.
        elim o
            as (λ o.
              (poll_loop fuel p code interval s).0 ≡ ok o
              → FullIf o (poll_loop fuel p code interval s).1) [
                | none ↦ λ e. tt
                | some resp ↦ λ e. poll_loop-token p code fuel interval s resp e
              ]
          e;
  }

  poll_for_token-Full :
      (p : Handler W) (response : DeviceCodeResponse)
      → Ensures Anything (poll_for_token p response) Full
  unfolding poll_for_token
  poll_for_token-Full p response = Ensures-after _ _ (anything _) λ _.
      Ensures-after _ _ (anything _)
        λ bound. Ensures-bind _ _ (loop-Full (suc bound) p response.device_code _) polled-Full

module _ ⦃W : World⦄ {secrets : W.State → String → Option String} {time : W.State → ℤ}
    (R : Reliable W secrets time) (host : IsHost secrets) (client : W.HostClient) (p : Handler W)
    (ctx : Context W) (here : host_client p ctx ≡ some client)
    (valid : validate_profile ctx.profile ≡ ok tt) where
  -- A non-empty access token is stored for the profile.
  abbrev pub SignedIn : W.State → Type 0
  SignedIn t =
      (token : String) × (token == "" ≡ false)
      × (secrets t (key_of ctx.profile access_token) ≡ some token)

  now-SignedIn : Keeps SignedIn W.now
  now-SignedIn = record { at = λ s h. subst SignedIn (sym (ap (λ r. r.1) (R.now s))) h }

  deadline-SignedIn : (resp : TokenResponse) → Keeps SignedIn (session_deadline resp)
  unfolding session_deadline
  deadline-SignedIn resp = search (keeps_rules, now-SignedIn)

  stored-SignedIn :
      (resp : TokenResponse) (scopes : List String) (session_id : String)
      → Ensures
          (Full resp)
          (store_credentials p ctx resp scopes session_id device_code)
          (λ _. SignedIn)
  unfolding store_credentials store_on
  stored-SignedIn resp scopes session_id = rw here (record {
    then = λ s claims full e. (
      resp.access_token,
      full,
      (store_with-access R host ctx.profile valid (stranger ctx.profile valid) p client resp scopes
            session_id device_code full).then
          s claims tt e,
    );
  })

  performed-SignedIn :
      (scopes : List String) (open_browser : Bool)
      → Ensures Anything (perform_device_code_flow p ctx scopes open_browser) (λ _. SignedIn)
  unfolding perform_device_code_flow
  performed-SignedIn scopes open_browser = Ensures-after _ _ (anything _) λ response.
      Ensures-after _ _ (anything _) λ _. Ensures-after _ _ (anything _) λ _.
        Ensures-bind _ _ (Ensures-or_wrap _ _ (poll_for_token-Full p response)) λ resp.
          Ensures-bind _ _ (Ensures-or_wrap _ _ (stored-SignedIn resp scopes ""))
            λ claims. Ensures-of_Keeps _ (Keeps-bind _ _ (deadline-SignedIn resp) λ _. Keeps-pure _)

  -- Both logins with a device code end signed in.
  pub device_code-SignedIn :
      (req : LoginRequest) → Ensures Anything (device_code_login p ctx req) (λ _. SignedIn)
  unfolding device_code_login
  device_code-SignedIn req = Ensures-after _ _ (anything _) λ _. performed-SignedIn _ false

  pub interactive-SignedIn :
      (req : LoginRequest)
      → Ensures Anything (interactive_device_code_login p ctx req) (λ _. SignedIn)
  unfolding interactive_device_code_login
  interactive-SignedIn req = Ensures-after _ _ (anything _) λ _. performed-SignedIn _ true
