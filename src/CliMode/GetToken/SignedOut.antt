-- ===== src/CliMode/GetToken/SignedOut.antt =====
-- What a token request answers where the profile has no secrets.
use scafctl_plugin_auth_gith.Prelude.{
  String, ◌<>◌, Bool, true, false, Option, none, some, ℤ, ◌≡◌, refl, ◌∙◌, ap, if◌then◌else◌,
}
use scafctl_plugin_auth_gith.Effect.{
  ok, err, pure, lift, gets, try, caught, wrapped, ◌or_wrap◌, ◌>>=◌,
}
use scafctl_plugin_auth_gith.Types.{TokenRequest}
use scafctl_plugin_auth_gith.World.{World}
use scafctl_plugin_auth_gith.Reliable.{Reliable}
use scafctl_plugin_auth_gith.Profile.{validate_profile}
use scafctl_plugin_auth_gith.Profile.Keys.{
  Owned, key_of, key_of-Owned, prefix_of, prefix_of-Owned, access_token, refresh_token,
  profile_secret_key_valid, profile_token_prefix_valid,
}
use scafctl_plugin_auth_gith.Handler.{Handler, Context, host_client}
use scafctl_plugin_auth_gith.Cache.{cache_get, decode_found}
use scafctl_plugin_auth_gith.Token.Load.{load_access_token, load_refresh_token}
use scafctl_plugin_auth_gith.Token.Store.{token_cache_key}
use scafctl_plugin_auth_gith.Token.Mint.{mint_token}
use scafctl_plugin_auth_gith.Pat.{has_pat_credentials, cached_token, cached_in, valid_or_none}
use scafctl_plugin_auth_gith.CliMode.GetToken.{
  get_token, oauth_token, fresh_token, stored_or_minted,
}
use scafctl_plugin_auth_gith.Token.Load.Stored.{secret-missing}

module _ ⦃W : World⦄ {secrets : W.State → String → Option String} {time : W.State → ℤ}
    (R : Reliable W secrets time) (client : W.HostClient) (p : Handler W) (ctx : Context W)
    (here : host_client p ctx ≡ some client) (valid : validate_profile ctx.profile ≡ ok tt)
    (s : W.State) (gone : (key : String) → Owned ctx.profile key → secrets s key ≡ none) where
  not_cached : (key : String) → cache_get client key ctx.profile s ≡ (ok none, s)
  unfolding cache_get ◌>>=◌ lift
  not_cached key =
      rw
        (
          profile_token_prefix_valid ctx.profile valid,
          R.get_secret client (prefix_of ctx.profile <> key) s,
          gone (prefix_of ctx.profile <> key) (prefix_of-Owned ctx.profile key),
          decode_found,
        )
        refl

  lookup_misses :
      (key : String) (req : TokenRequest)
      → cached_in (some client) key ctx.profile req s ≡ (ok none, s)
  unfolding cached_in ◌>>=◌ try
  lookup_misses key req = rw (not_cached key, caught, valid_or_none, pure) refl

  cached_token-misses :
      (key : String) (req : TokenRequest)
      → cached_token (host_client p ctx) key ctx.profile req s ≡ (ok none, s)
  unfolding cached_token pure
  cached_token-misses key req =
      ap (λ c. cached_token c key ctx.profile req s) here ∙ either req.force_refresh
    where
      either :
          (b : Bool)
          → (if b then pure none else cached_in (some client) key ctx.profile req) s ≡ (ok none, s)
      either true = refl
      either false = lookup_misses key req

  abbrev pub missing : String → String
  missing key = "secret " <> (W.quote key <> " not found")

  access-missing : load_access_token p ctx s ≡ (err (missing (key_of ctx.profile access_token)), s)
  unfolding load_access_token ◌>>=◌ lift
  access-missing = rw (profile_secret_key_valid access_token ctx.profile valid) (
      secret-missing R client p ctx here valid _ s (gone _ (key_of-Owned ctx.profile access_token)))

  refresh-missing :
      load_refresh_token p ctx s ≡ (err (missing (key_of ctx.profile refresh_token)), s)
  unfolding load_refresh_token ◌>>=◌ lift
  refresh-missing = rw (profile_secret_key_valid refresh_token ctx.profile valid) (
      secret-missing R client p ctx here valid _ s
        (gone _ (key_of-Owned ctx.profile refresh_token)))

  fresh-fails :
      (fresh_token p ctx none s).0
      ≡ err ("not authenticated" <> (": " <> missing (key_of ctx.profile refresh_token)))
  unfolding fresh_token stored_or_minted mint_token ◌>>=◌ try ◌or_wrap◌ wrapped
  fresh-fails = rw (access-missing, caught, refresh-missing) refl

  -- If the host is reliable, the profile's name is valid, the host holds no secret of the profile
  -- and no personal access token is in the environment, a token request fails, and its error says
  -- that the refresh token is not there.
  pub get_token-signed_out :
      (req : TokenRequest)
      → has_pat_credentials s ≡ false
      → (get_token p ctx req s).0
        ≡ err ("not authenticated" <> (": " <> missing (key_of ctx.profile refresh_token)))
  unfolding get_token oauth_token ◌>>=◌ lift gets
  get_token-signed_out req no_pat =
      rw (valid, no_pat, cached_token-misses (token_cache_key p.config) req) fresh-fails
