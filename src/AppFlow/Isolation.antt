-- ===== src/AppFlow/Isolation.antt =====
-- Which secrets the GitHub App login touches.
use scafctl_plugin_auth_gith.Prelude.{String, ◌≡◌, ℤ, Option, some, none}
use scafctl_plugin_auth_gith.Effect.{ok}
use scafctl_plugin_auth_gith.Effect.Keeps.{
  Keeps, keeps_rules, Keeps-bind, Keeps-pure, Keeps-lift, Keeps-or_wrap,
}
use scafctl_plugin_auth_gith.World.{World}
use scafctl_plugin_auth_gith.Profile.{validate_profile}
use scafctl_plugin_auth_gith.Frame.{Frame}
use scafctl_plugin_auth_gith.Types.{Response, AppInfo, InstallationTokenResponse}
use scafctl_plugin_auth_gith.Handler.{Handler, Context, host_client}
use scafctl_plugin_auth_gith.Config.Isolation.{get_private_key-Keeps, validate_app_config-Keeps}
use scafctl_plugin_auth_gith.Frame.Rules.{access_token-Owned, metadata-Owned}
use scafctl_plugin_auth_gith.Pat.Isolation.{cache_if_host-Keeps}
use scafctl_plugin_auth_gith.AppFlow.{
  create_app_jwt, create_server_app_jwt, app_info_of, get_app_info, installation_of,
  create_installation_token_http, create_installation_token, store_app_token, store_app_metadata,
  keep_installation, app_login,
}

module _ ⦃W : World⦄ {P : W.State → Type 0} (ctx : Context W) (F : Frame W P ctx.profile)
    (valid : validate_profile ctx.profile ≡ ok tt) where
  pub create_server_app_jwt-Keeps :
      (issuer : String) (key : W.PrivateKey) → Keeps P (create_server_app_jwt issuer key)
  unfolding create_server_app_jwt
  create_server_app_jwt-Keeps issuer key = search (keeps_rules, F.now)

  create_app_jwt-Keeps : (id : ℤ) (key : W.PrivateKey) → Keeps P (create_app_jwt id key)
  unfolding create_app_jwt
  create_app_jwt-Keeps id key = create_server_app_jwt-Keeps _ key

  app_info_of-Keeps : (resp : Response) → Keeps P (app_info_of resp)
  unfolding app_info_of
  app_info_of-Keeps resp = search (keeps_rules)

  get_app_info-Keeps : (p : Handler W) (jwt : String) → Keeps P (get_app_info p jwt)
  unfolding get_app_info
  get_app_info-Keeps p jwt = search (keeps_rules, F.http_get, app_info_of-Keeps)

  installation_of-Keeps : (id : ℤ) (resp : Response) → Keeps P (installation_of id resp)
  unfolding installation_of
  installation_of-Keeps id resp = search (keeps_rules)

  create_installation_token_http-Keeps :
      (c : W.HttpClient) (url jwt : String) (id : ℤ)
      → Keeps P (create_installation_token_http c url jwt id)
  unfolding create_installation_token_http
  create_installation_token_http-Keeps c url jwt id =
      search (keeps_rules, F.post_json, installation_of-Keeps)

  create_installation_token-Keeps :
      (p : Handler W) (jwt : String) (id : ℤ) → Keeps P (create_installation_token p jwt id)
  unfolding create_installation_token
  create_installation_token-Keeps p jwt id = create_installation_token_http-Keeps _ _ jwt id

  store_app_token-Keeps :
      (o : Option W.HostClient) (token : String) → Keeps P (store_app_token o ctx.profile token)
  unfolding store_app_token
  store_app_token-Keeps none token = Keeps-pure tt
  store_app_token-Keeps (some c) token =
      Keeps-or_wrap _ _ (F.set_secret c _ token (access_token-Owned ctx.profile valid))

  store_app_metadata-Keeps :
      (o : Option W.HostClient) (value : String) → Keeps P (store_app_metadata o ctx.profile value)
  unfolding store_app_metadata
  store_app_metadata-Keeps none value = Keeps-pure tt
  store_app_metadata-Keeps (some c) value =
      Keeps-or_wrap _ _ (F.set_secret c _ value (metadata-Owned ctx.profile valid))

  keep_installation-Keeps :
      (p : Handler W) (app_id installation_id : ℤ) (info : AppInfo) (t : InstallationTokenResponse)
      → Keeps P (keep_installation p ctx app_id installation_id info t)
  unfolding keep_installation
  keep_installation-Keeps p app_id installation_id info t = Keeps-bind _ _ (Keeps-lift _) λ _.
      Keeps-bind _ _ (cache_if_host-Keeps ctx F valid (host_client p ctx) _ _) λ _.
        Keeps-bind _ _ (store_app_token-Keeps (host_client p ctx) t.token) λ _.
          Keeps-bind _ _ F.now λ issued_at. Keeps-bind _ _ F.now λ last_refresh.
            Keeps-bind _ _ (Keeps-lift _) λ value.
              Keeps-bind _ _ (store_app_metadata-Keeps (host_client p ctx) value) λ _. Keeps-pure _

  pub app_login-Keeps : (p : Handler W) → Keeps P (app_login p ctx)
  unfolding app_login
  app_login-Keeps p =
      search
        (
          keeps_rules,
          validate_app_config-Keeps F valid,
          get_private_key-Keeps F valid,
          create_app_jwt-Keeps,
          get_app_info-Keeps,
          create_installation_token-Keeps,
          keep_installation-Keeps,
        )
        depth 16
