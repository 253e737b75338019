-- ===== src/CliMode/GetToken/Stored.antt =====
-- What a token request answers from the stored secrets.
use scafctl_plugin_auth_gith.Prelude.{
  String, ◌==◌, ℤ, ◌+ℤ◌, true, false, Option, none, some, ◌≡◌, refl, ◌∙◌, ap, if◌then◌else◌,
}
use scafctl_plugin_auth_gith.Effect.{ok, panic, pure, lift, gets, ◌>>=◌}
use scafctl_plugin_auth_gith.Effect.Laws.{bind_runs, bind_of_tried, bind_of_ok, tried_returns}
use scafctl_plugin_auth_gith.Types.{TokenRequest, Token, TokenCacheEntry}
use scafctl_plugin_auth_gith.World.{World}
use scafctl_plugin_auth_gith.Reliable.{Reliable}
use scafctl_plugin_auth_gith.Profile.{validate_profile}
use scafctl_plugin_auth_gith.Profile.Keys.{key_of, access_token}
use scafctl_plugin_auth_gith.Handler.{Handler, Context, host_client}
use scafctl_plugin_auth_gith.Cache.{cache_set}
use scafctl_plugin_auth_gith.Cache.RoundTrip.{set-no_panic}
use scafctl_plugin_auth_gith.Token.Load.{load_access_token}
use scafctl_plugin_auth_gith.Token.Load.Stored.{access-runs}
use scafctl_plugin_auth_gith.Token.Store.{far_future, one_year, token_cache_key}
use scafctl_plugin_auth_gith.Pat.{has_pat_credentials, reply_of, cached_token, cache_if_host}
use scafctl_plugin_auth_gith.CliMode.GetToken.{
  get_token, oauth_token, fresh_token, stored_or_minted, reply_and_cache, stored_token,
  stored_access,
}

module _ ⦃W : World⦄ {secrets : W.State → String → Option String} {time : W.State → ℤ}
    (R : Reliable W secrets time) (client : W.HostClient) (p : Handler W) (ctx : Context W)
    (here : host_client p ctx ≡ some client) (valid : validate_profile ctx.profile ≡ ok tt) where
  -- Caching returns: where the entry cannot be encoded the error is dropped.
  cached-runs :
      (key : String) (token : Token) (s : W.State)
      → ((entry : TokenCacheEntry) (e : String) → ¬ (W.encode_entry entry ≡ panic e))
      → (cache_if_host (host_client p ctx) key token ctx.profile s).0 ≡ ok tt
  unfolding cache_if_host pure
  cached-runs key token s safe =
      ap (λ c. (cache_if_host c key token ctx.profile s).0) here
      ∙ tried_returns (cache_set client key token ctx.profile) s tt
          (set-no_panic R client ctx.profile valid key token s (safe _))

  replied :
      (token : Token) (s : W.State)
      → ((entry : TokenCacheEntry) (e : String) → ¬ (W.encode_entry entry ≡ panic e))
      → (reply_and_cache p ctx token s).0 ≡ ok (reply_of token)
  unfolding reply_and_cache pure
  replied token s safe =
      ap (λ r. r.0)
        (bind_of_ok (cache_if_host (host_client p ctx) (token_cache_key p.config) token ctx.profile)
          (λ _. pure (reply_of token)) s tt (cached-runs (token_cache_key p.config) token s safe))

  deadline-runs : (s : W.State) → far_future s ≡ (ok (time s +ℤ one_year), s)
  unfolding far_future pure
  deadline-runs s = bind_runs W.now _ s s (time s) (R.now s)

  -- What a request with no cached token answers where an access token is stored.
  stored-runs :
      (token : String) (s : W.State)
      → secrets s (key_of ctx.profile access_token) ≡ some token
      → token == "" ≡ false
      → ((entry : TokenCacheEntry) (e : String) → ¬ (W.encode_entry entry ≡ panic e))
      → (fresh_token p ctx none s).0 ≡ ok (reply_of (stored_token token (time s +ℤ one_year)))
  unfolding fresh_token stored_or_minted
  stored-runs token s held full safe =
      ap (λ r. r.0)
        (bind_of_tried (load_access_token p ctx)
          (λ loaded. stored_or_minted p ctx (stored_access loaded)) s token
          (ap (λ r. r.0) (access-runs R client p ctx here valid token s held)))
      ∙ ap (λ t. (stored_or_minted p ctx (stored_access (ok token)) t).0)
          (ap (λ r. r.1) (access-runs R client p ctx here valid token s held))
      ∙ ap (λ b. (stored_or_minted p ctx (if b then none else some token) s).0) full
      ∙ ap (λ r. r.0) (bind_runs far_future _ s s _ (deadline-runs s))
      ∙ replied (stored_token token (time s +ℤ one_year)) s safe

  pub passed :
      (req : TokenRequest) (s : W.State)
      → has_pat_credentials s ≡ false
      → req.force_refresh ≡ true
      → get_token p ctx req s ≡ fresh_token p ctx none s
  unfolding get_token oauth_token cached_token ◌>>=◌ lift gets pure
  passed req s no_pat forced = rw (valid, no_pat, forced) refl

  -- If the host is reliable, a host client is there, the profile's name is valid, encoding a cache
  -- entry as JSON does not panic, no personal access token is in the environment, and a non-empty
  -- access token is stored for the profile, then a forced refresh answers with that stored token and an expiry of one year from now, whatever refresh token is
  -- stored and however old the token is.
  pub get_token-stored :
      (req : TokenRequest) (token : String) (s : W.State)
      → has_pat_credentials s ≡ false
      → req.force_refresh ≡ true
      → secrets s (key_of ctx.profile access_token) ≡ some token
      → token == "" ≡ false
      → ((entry : TokenCacheEntry) (e : String) → ¬ (W.encode_entry entry ≡ panic e))
      → (get_token p ctx req s).0 ≡ ok (reply_of (stored_token token (time s +ℤ one_year)))
  get_token-stored req token s no_pat forced held full safe =
      ap (λ r. r.0) (passed req s no_pat forced) ∙ stored-runs token s held full safe
