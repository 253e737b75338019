-- ===== src/CliMode/Listing.antt =====
-- ListCachedTokens and PurgeExpiredTokens of internal/github/cli_mode.go.
pub mod Isolation
use scafctl_plugin_auth_gith.Prelude.{
  String, ℕ, Bool, true, false, Option, none, some, List, [], ◌∷◌, ◌++◌,
}
use scafctl_plugin_auth_gith.Effect.{
  Result, ok, err, panic, Exec, pure, fail, lift, try, or_empty, ◌>>=◌, ◌>>◌,
}
use scafctl_plugin_auth_gith.Types.{
  no_flow, device_code, Token, TokenMetadata, CachedTokenInfo, zero_time,
}
use scafctl_plugin_auth_gith.World.{World}
use scafctl_plugin_auth_gith.Profile.{
  validate_profile, profile_secret_key, secret_key_refresh_token, secret_key_access_token,
}
use scafctl_plugin_auth_gith.Handler.{Handler, Context, host_client, secret_exists}
use scafctl_plugin_auth_gith.Cache.{
  handler_name, cache_get, cache_list_entries, cache_purge_expired, is_past,
}
use scafctl_plugin_auth_gith.Token.Load.{load_metadata}
use scafctl_plugin_auth_gith.Token.Store.{token_cache_key}

module _ ⦃W : World⦄ where
  -- The entry of a refresh token, with what the metadata adds.
  abbrev refresh_info : Result TokenMetadata → CachedTokenInfo
  refresh_info (ok m) = record {
    handler = handler_name;
    token_kind = "refresh";
    token_type = "";
    scope = "";
    flow = elim m.flow [ no_flow ↦ device_code | flow ↦ flow ];
    expires_at = m.refresh_token_expires_at;
    cached_at = m.last_refresh;
    is_expired = false;
    session_id = m.session_id;
  }
  refresh_info _ = record {
    handler = handler_name;
    token_kind = "refresh";
    token_type = "";
    scope = "";
    flow = device_code;
    expires_at = zero_time;
    cached_at = zero_time;
    is_expired = false;
    session_id = "";
  }

  list_refresh : Handler W → Context W → Bool → Exec W.State (List CachedTokenInfo)
  list_refresh p ctx false = pure []
  list_refresh p ctx true = do
    metadata ← try (load_metadata p ctx)
    let info = refresh_info metadata
    expired ← is_past info.expires_at
    pure (record info { is_expired = expired } ∷ [])

  abbrev access_info : Result TokenMetadata → CachedTokenInfo
  access_info (ok m) = record {
    handler = handler_name;
    token_kind = "access";
    token_type = "Bearer";
    scope = "";
    flow = m.flow;
    expires_at = zero_time;
    cached_at = m.last_refresh;
    is_expired = false;
    session_id = m.session_id;
  }
  access_info _ = record {
    handler = handler_name;
    token_kind = "access";
    token_type = "Bearer";
    scope = "";
    flow = no_flow;
    expires_at = zero_time;
    cached_at = zero_time;
    is_expired = false;
    session_id = "";
  }

  abbrev is_cached : Result (Option Token) → Bool
  is_cached (ok (some token)) = true
  is_cached (ok none) = false
  is_cached (err e) = false
  is_cached (panic e) = false

  list_uncached : Handler W → Context W → Bool → Exec W.State (List CachedTokenInfo)
  list_uncached p ctx true = pure []
  list_uncached p ctx false = do
    metadata ← try (load_metadata p ctx)
    pure (access_info metadata ∷ [])

  list_access : Handler W → Context W → W.HostClient → Bool → Exec W.State (List CachedTokenInfo)
  unfolding list_uncached
  list_access p ctx client false = pure []
  list_access p ctx client true = do
    cached ← try (cache_get client (token_cache_key p.config) ctx.profile)
    list_uncached p ctx (is_cached cached)

  abbrev or_nil : Result (List CachedTokenInfo) → List CachedTokenInfo
  or_nil (ok entries) = entries
  or_nil _ = []

  list_on : Handler W → Context W → Option W.HostClient → Exec W.State (List CachedTokenInfo)
  unfolding list_refresh list_access
  list_on p ctx none = fail "host service not available"
  list_on p ctx (some client) = do
    lift (validate_profile ctx.profile)
    has_refresh ←
        secret_exists p ctx (or_empty (profile_secret_key secret_key_refresh_token ctx.profile))
    refresh ← list_refresh p ctx has_refresh
    entries ← try (cache_list_entries client ctx.profile)
    has_access ←
        secret_exists p ctx (or_empty (profile_secret_key secret_key_access_token ctx.profile))
    access ← list_access p ctx client has_access
    pure (refresh ++ (or_nil entries ++ access))

  unfoldable pub list_cached_tokens : Handler W → Context W → Exec W.State (List CachedTokenInfo)
  unfolding list_on
  list_cached_tokens p ctx = list_on p ctx (host_client p ctx)

  purge_on : Option W.HostClient → String → Exec W.State ℕ
  purge_on none profile = pure 0
  purge_on (some client) profile = do
    lift (validate_profile profile)
    cache_purge_expired client profile

  unfoldable pub purge_expired_tokens : Handler W → Context W → Exec W.State ℕ
  unfolding purge_on
  purge_expired_tokens p ctx = purge_on (host_client p ctx) ctx.profile
