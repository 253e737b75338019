-- ===== src/Pat/Cached.antt =====
-- A personal access token that was cached and the one in the environment.
use scafctl_plugin_auth_gith.Prelude.{
  String, ◌<>◌, ◌==◌, true, false, Option, none, some, ℤ, ◌≡◌, ◌∙◌, ap, if◌then◌else◌,
}
use scafctl_plugin_auth_gith.Effect.{ok, pure, gets, ◌>>=◌}
use scafctl_plugin_auth_gith.Effect.Laws.{bind_runs, bind_of_tried}
use scafctl_plugin_auth_gith.Types.{TokenRequest, TokenCacheEntry, Token}
use scafctl_plugin_auth_gith.World.{World}
use scafctl_plugin_auth_gith.Reliable.{Reliable}
use scafctl_plugin_auth_gith.Profile.{validate_profile}
use scafctl_plugin_auth_gith.Profile.Keys.{prefix_of}
use scafctl_plugin_auth_gith.Handler.{Handler, Context, host_client}
use scafctl_plugin_auth_gith.Cache.{cache_get, token_of}
use scafctl_plugin_auth_gith.Cache.RoundTrip.{get-runs}
use scafctl_plugin_auth_gith.Pat.{
  get_pat_from_env, get_pat_token, cached_token, cached_in, valid_or_none, min_valid_for,
  pat_cache_key, pat_reply, reply_of,
}

module _ ⦃W : World⦄ {secrets : W.State → String → Option String} {time : W.State → ℤ}
    (R : Reliable W secrets time) (client : W.HostClient) (p : Handler W) (ctx : Context W)
    (here : host_client p ctx ≡ some client) (valid : validate_profile ctx.profile ≡ ok tt) where
  still_valid :
      (req : TokenRequest) (token : Token) (s : W.State)
      → W.is_valid_for token (min_valid_for req) s ≡ (ok true, s)
      → valid_or_none req (ok (some token)) s ≡ (ok (some token), s)
  unfolding valid_or_none pure
  still_valid req token s h = bind_runs (W.is_valid_for token (min_valid_for req)) _ s s true h

  cached-found :
      (key value : String) (entry : TokenCacheEntry) (req : TokenRequest) (s : W.State)
      → secrets s (prefix_of ctx.profile <> key) ≡ some value
      → W.decode_entry value ≡ ok entry
      → W.is_valid_for (token_of entry) (min_valid_for req) s ≡ (ok true, s)
      → req.force_refresh ≡ false
      → cached_token (host_client p ctx) key ctx.profile req s ≡ (ok (some (token_of entry)), s)
  unfolding cached_token cached_in
  cached-found key value entry req s held decoded lives cached =
      ap (λ c. cached_token c key ctx.profile req s) here
      ∙ ap (λ b. (if b then pure none else cached_in (some client) key ctx.profile req) s) cached
      ∙ bind_of_tried (cache_get client key ctx.profile) (valid_or_none req) s
          (some (token_of entry))
          (ap (λ r. r.0) (get-runs R client ctx.profile valid key value entry s held decoded))
      ∙ ap (λ t. valid_or_none req (ok (some (token_of entry))) t)
          (ap (λ r. r.1) (get-runs R client ctx.profile valid key value entry s held decoded))
      ∙ still_valid req (token_of entry) s lives

  -- If the host is reliable, the profile's name is valid, some personal access token is in the
  -- environment and an entry is cached under the host name's key that stays valid for long enough,
  -- then a token request that does not force a refresh answers with the cached token, whichever
  -- token the environment holds, and leaves the world as it is.
  pub get_pat_token-cached :
      (value : String) (entry : TokenCacheEntry) (req : TokenRequest) (s : W.State)
      → get_pat_from_env s == "" ≡ false
      → secrets s (prefix_of ctx.profile <> pat_cache_key p.config) ≡ some value
      → W.decode_entry value ≡ ok entry
      → W.is_valid_for (token_of entry) (min_valid_for req) s ≡ (ok true, s)
      → req.force_refresh ≡ false
      → get_pat_token p ctx req s ≡ (ok (reply_of (token_of entry)), s)
  unfolding get_pat_token gets pat_reply pure ◌>>=◌
  get_pat_token-cached value entry req s given held decoded lives cached = rw given (
      bind_runs (cached_token (host_client p ctx) (pat_cache_key p.config) ctx.profile req) _ s s _
        (cached-found (pat_cache_key p.config) value entry req s held decoded lives cached))
