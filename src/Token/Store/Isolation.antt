-- ===== src/Token/Store/Isolation.antt =====
-- Which secrets storing credentials touches.
use scafctl_plugin_auth_gith.Prelude.{String, ℤ, ◌≡◌, Option, none, some, List}
use scafctl_plugin_auth_gith.Effect.{ok}
use scafctl_plugin_auth_gith.Effect.Keeps.{
  Keeps, keeps_rules, Keeps-bind, Keeps-pure, Keeps-lift, Keeps-try, Keeps-fail,
}
use scafctl_plugin_auth_gith.World.{World}
use scafctl_plugin_auth_gith.Profile.{validate_profile}
use scafctl_plugin_auth_gith.Frame.{Frame}
use scafctl_plugin_auth_gith.Types.{Flow, TokenResponse, TokenMetadata}
use scafctl_plugin_auth_gith.Config.{Config}
use scafctl_plugin_auth_gith.Handler.{Handler, Context, host_client}
use scafctl_plugin_auth_gith.Frame.Rules.{refresh_token-Owned, access_token-Owned, metadata-Owned}
use scafctl_plugin_auth_gith.Profile.Keys.{Owned}
use scafctl_plugin_auth_gith.Cache.Isolation.{cache_set-Keeps}
use scafctl_plugin_auth_gith.UserClaims.Isolation.{fetch_user_claims-Keeps}
use scafctl_plugin_auth_gith.Token.Store.{
  far_future, store_if_set, session_or_new, deadline_or_zero, login_deadline, store_metadata,
  cache_login, store_with, store_on, store_credentials,
}

module _ ⦃W : World⦄ {P : W.State → Type 0} {profile : String} (F : Frame W P profile)
    (valid : validate_profile profile ≡ ok tt) where
  pub far_future-Keeps : Keeps P far_future
  unfolding far_future
  far_future-Keeps = search (keeps_rules, F.now)

  store_if_set-Keeps :
      (c : W.HostClient) (key value failure : String)
      → Owned profile key
      → Keeps P (store_if_set c key value failure)
  unfolding store_if_set
  store_if_set-Keeps c key value failure owned = search (keeps_rules, F.set_secret)

  pub session_or_new-Keeps : (session_id : String) → Keeps P (session_or_new session_id)
  unfolding session_or_new
  session_or_new-Keeps session_id = search (keeps_rules, F.new_uuid)

  pub deadline_or_zero-Keeps : (expires_in : ℤ) → Keeps P (deadline_or_zero expires_in)
  unfolding deadline_or_zero
  deadline_or_zero-Keeps expires_in = search (keeps_rules, F.now)

  pub login_deadline-Keeps : (resp : TokenResponse) → Keeps P (login_deadline resp)
  unfolding login_deadline
  login_deadline-Keeps resp = search (keeps_rules, F.now, far_future-Keeps)

  store_metadata-Keeps :
      (c : W.HostClient) (m : TokenMetadata) → Keeps P (store_metadata c profile m)
  unfolding store_metadata
  store_metadata-Keeps c m = search (keeps_rules, F.set_secret, metadata-Owned profile valid)

  cache_login-Keeps :
      (config : Config) (c : W.HostClient) (resp : TokenResponse) (scopes : List String)
      (flow : Flow) (session_id : String)
      → Keeps P (cache_login config c profile resp scopes flow session_id)
  unfolding cache_login
  cache_login-Keeps config c resp scopes flow session_id =
      search (keeps_rules, login_deadline-Keeps, cache_set-Keeps F valid) depth 8

  store_with-Keeps :
      (p : Handler W) (c : W.HostClient) (resp : TokenResponse) (scopes : List String)
      (session_id : String) (flow : Flow)
      → Keeps P (store_with p c profile resp scopes session_id flow)
  unfolding store_with
  store_with-Keeps p c resp scopes session_id flow = Keeps-bind _ _ (Keeps-lift _) λ _.
      Keeps-bind _ _
        (store_if_set-Keeps c _ resp.refresh_token "failed to store refresh token"
          (refresh_token-Owned profile valid))
        λ _.
          Keeps-bind _ _
            (store_if_set-Keeps c _ resp.access_token "failed to store access token"
              (access_token-Owned profile valid))
            λ _.
              Keeps-bind _ _ (Keeps-try _ (fetch_user_claims-Keeps F valid p resp.access_token))
                λ fetched. Keeps-bind _ _ (session_or_new-Keeps session_id) λ session.
                  Keeps-bind _ _ (deadline_or_zero-Keeps resp.refresh_token_expires_in) λ deadline.
                    Keeps-bind _ _ F.now λ now. Keeps-bind _ _ (store_metadata-Keeps c _) λ _.
                      Keeps-bind _ _ (cache_login-Keeps p.config c resp scopes flow session)
                        λ _. Keeps-pure _

  store_on-Keeps :
      (p : Handler W) (o : Option W.HostClient) (resp : TokenResponse) (scopes : List String)
      (session_id : String) (flow : Flow)
      → Keeps P (store_on p o profile resp scopes session_id flow)
  unfolding store_on
  store_on-Keeps p none resp scopes session_id flow = Keeps-fail _
  store_on-Keeps p (some c) resp scopes session_id flow =
      store_with-Keeps p c resp scopes session_id flow

module _ ⦃W : World⦄ {P : W.State → Type 0} (ctx : Context W) (F : Frame W P ctx.profile)
    (valid : validate_profile ctx.profile ≡ ok tt) where
  pub store_credentials-Keeps :
      (p : Handler W) (resp : TokenResponse) (scopes : List String) (session_id : String)
      (flow : Flow)
      → Keeps P (store_credentials p ctx resp scopes session_id flow)
  unfolding store_credentials
  store_credentials-Keeps p resp scopes session_id flow =
      store_on-Keeps F valid p (host_client p ctx) resp scopes session_id flow
