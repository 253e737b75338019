-- ===== src/Pat.antt =====
-- internal/github/pat.go: personal access tokens from the environment.
pub mod Cached
pub mod Isolation
use scafctl_plugin_auth_gith.Prelude.{
  String, ◌<>◌, ◌==◌, ℤ, pos, ◌+ℤ◌, eqb_ℤ, Bool, true, false, not, Option, none, some, [],
  if◌then◌else◌,
}
use scafctl_plugin_auth_gith.Effect.{
  Result, ok, err, panic, Exec, pure, fail, lift, gets, try, ◌>>=◌, ◌>>◌, ◌or_wrap◌,
}
use scafctl_plugin_auth_gith.Types.{
  pat, no_identity, user, Claims, Token, TokenRequest, TokenReply, LoginResponse, Status, zero_time,
}
use scafctl_plugin_auth_gith.World.{World}
use scafctl_plugin_auth_gith.Profile.{default_cache_key}
use scafctl_plugin_auth_gith.Config.{Config}
use scafctl_plugin_auth_gith.Handler.{Handler, Context, host_client}
use scafctl_plugin_auth_gith.Cache.{cache_get, cache_set, fingerprint_hash}
use scafctl_plugin_auth_gith.UserClaims.{fetch_user_claims}
use scafctl_plugin_auth_gith.Token.Store.{one_year}

abbrev pub env_github_token : String
env_github_token = "GITHUB_TOKEN"

abbrev pub env_gh_token : String
env_gh_token = "GH_TOKEN"

abbrev pub no_pat : String
no_pat = "personal access token not configured: set GITHUB_TOKEN or GH_TOKEN environment variable"

-- The reply that hands a cached or minted token on.
abbrev pub reply_of : Token → TokenReply
reply_of token = record {
  access_token = token.access_token;
  token_type = token.token_type;
  expires_at = token.expires_at;
  scope = token.scope;
  flow = token.flow;
  session_id = token.session_id;
}

abbrev pub unauthenticated : Status
unauthenticated = record {
  authenticated = false;
  reason = "";
  claims = none;
  expires_at = zero_time;
  last_refresh = zero_time;
  identity_type = no_identity;
  client_id = "";
  scopes = [];
}

module _ ⦃W : World⦄ where
  -- GITHUB_TOKEN goes before GH_TOKEN.
  unfoldable pub get_pat_from_env : W.State → String
  get_pat_from_env s =
      let token = W.getenv s env_github_token in
      if token == "" then W.getenv s env_gh_token else token

  unfoldable pub has_pat_credentials : W.State → Bool
  unfolding get_pat_from_env
  has_pat_credentials s = not (get_pat_from_env s == "")

  unfoldable pub pat_login : Handler W → Exec W.State LoginResponse
  pat_login p = do
    token ← gets get_pat_from_env
    if token == "" then fail no_pat else (do
      claims ← fetch_user_claims p token or_wrap "PAT authentication failed"
      pure (record { claims = claims; expires_at = zero_time }))

  pat_status_of : Config → Result Claims → Status
  pat_status_of c (ok claims) = record {
    authenticated = true;
    reason = "";
    claims = some claims;
    expires_at = zero_time;
    last_refresh = zero_time;
    identity_type = user;
    client_id = "";
    scopes = c.default_scopes;
  }
  pat_status_of c (err e) = unauthenticated
  pat_status_of c (panic e) = unauthenticated

  unfoldable pub pat_status : Handler W → Exec W.State Status
  unfolding pat_status_of
  pat_status p = do
    token ← gets get_pat_from_env
    if token == ""
        then pure unauthenticated
        else (do fetched ← try (fetch_user_claims p token); pure (pat_status_of p.config fetched))

  unfoldable pub pat_cache_key : Config → String
  pat_cache_key c = fingerprint_hash c.hostname <> (":pat:" <> default_cache_key)

  -- The request's validity, or the SDK's default where it is zero.
  unfoldable pub min_valid_for : TokenRequest → ℤ
  min_valid_for req =
      if eqb_ℤ req.min_valid_for (pos 0) then W.default_min_valid_for else req.min_valid_for

  -- The cached token, if it can be read and stays valid long enough.
  unfoldable pub valid_or_none : TokenRequest → Result (Option Token) → Exec W.State (Option Token)
  valid_or_none req (ok (some token)) = do
    valid ← W.is_valid_for token (min_valid_for req)
    pure (if valid then some token else none)
  valid_or_none req (ok none) = pure none
  valid_or_none req (err e) = pure none
  valid_or_none req (panic e) = lift (panic e)

  unfoldable pub cached_in :
      Option W.HostClient → String → String → TokenRequest → Exec W.State (Option Token)
  unfolding valid_or_none
  cached_in none cache_key profile req = pure none
  cached_in (some client) cache_key profile req = do
    cached ← try (cache_get client cache_key profile)
    valid_or_none req cached

  -- The lookup that getPATToken and the CLI's GetToken begin with.
  unfoldable pub cached_token :
      Option W.HostClient → String → String → TokenRequest → Exec W.State (Option Token)
  unfolding cached_in
  cached_token client cache_key profile req =
      if req.force_refresh then pure none else cached_in client cache_key profile req

  -- Caching is best effort: a failure is logged and dropped.
  unfoldable pub cache_if_host :
      Option W.HostClient → String → Token → String → Exec W.State (Unit {0})
  cache_if_host none cache_key token profile = pure tt
  cache_if_host (some client) cache_key token profile =
      try (cache_set client cache_key token profile) >> pure tt

  abbrev pub pat_token : String → ℤ → Token
  pat_token token expires_at = record {
    access_token = token;
    token_type = "Bearer";
    expires_at = expires_at;
    scope = "";
    cached_at = zero_time;
    flow = pat;
    session_id = "";
  }

  unfoldable pub validated_pat : Handler W → Context W → String → Exec W.State TokenReply
  unfolding cache_if_host
  validated_pat p ctx token = do
    fetch_user_claims p token or_wrap "PAT validation failed"
    now ← W.now
    cache_if_host (host_client p ctx) (pat_cache_key p.config) (pat_token token (now +ℤ one_year))
        ctx.profile
    pure (reply_of (pat_token token (now +ℤ one_year)))

  unfoldable pub pat_reply : Handler W → Context W → String → Option Token → Exec W.State TokenReply
  unfolding validated_pat
  pat_reply p ctx token (some cached) = pure (reply_of cached)
  pat_reply p ctx token none = validated_pat p ctx token

  unfoldable pub get_pat_token : Handler W → Context W → TokenRequest → Exec W.State TokenReply
  unfolding pat_reply cached_token
  get_pat_token p ctx req = do
    token ← gets get_pat_from_env
    if token == "" then fail no_pat else (do
      cached ← cached_token (host_client p ctx) (pat_cache_key p.config) ctx.profile req
      pat_reply p ctx token cached)
