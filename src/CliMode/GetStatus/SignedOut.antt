-- ===== src/CliMode/GetStatus/SignedOut.antt =====
-- The status of a profile that has no secrets, as a logout leaves it.
use scafctl_plugin_auth_gith.Prelude.{String, ◌<>◌, false, Option, none, some, ℤ, ◌≡◌, refl}
use scafctl_plugin_auth_gith.Effect.{ok, err, pure, lift, gets, try, caught, ◌>>=◌}
use scafctl_plugin_auth_gith.Types.{TokenRequest}
use scafctl_plugin_auth_gith.World.{World}
use scafctl_plugin_auth_gith.Reliable.{Reliable}
use scafctl_plugin_auth_gith.Profile.{validate_profile}
use scafctl_plugin_auth_gith.Profile.Keys.{
  Owned, key_of, key_of-Owned, access_token, refresh_token, profile_secret_key_valid,
}
use scafctl_plugin_auth_gith.Handler.{
  Handler, Context, host_client, secret_exists, exists_in, was_found,
}
use scafctl_plugin_auth_gith.Pat.{has_pat_credentials, unauthenticated}
use scafctl_plugin_auth_gith.CliMode.GetStatus.{get_status, stored_status}
use scafctl_plugin_auth_gith.CliMode.Logout.{logout}
use scafctl_plugin_auth_gith.CliMode.Logout.Complete.{logout_complete}
use scafctl_plugin_auth_gith.CliMode.GetToken.{get_token}
use scafctl_plugin_auth_gith.CliMode.GetToken.SignedOut.{get_token-signed_out}

module _ ⦃W : World⦄ {secrets : W.State → String → Option String} {time : W.State → ℤ}
    (R : Reliable W secrets time) (client : W.HostClient) (p : Handler W) (ctx : Context W)
    (here : host_client p ctx ≡ some client) (valid : validate_profile ctx.profile ≡ ok tt) where
  not_found :
      (key : String) (s : W.State)
      → secrets s key ≡ none
      → secret_exists p ctx key s ≡ (ok false, s)
  unfolding secret_exists exists_in ◌>>=◌ try
  not_found key s gone = rw (here, R.get_secret client key s, gone, caught, was_found, pure) refl

  stored-absent :
      (s : W.State)
      → ((key : String) → Owned ctx.profile key → secrets s key ≡ none)
      → (stored_status p ctx s).0 ≡ ok unauthenticated
  unfolding stored_status ◌>>=◌ pure
  stored-absent s gone =
      rw
        (
          profile_secret_key_valid refresh_token ctx.profile valid,
          not_found (key_of ctx.profile refresh_token) s
              (gone _ (key_of-Owned ctx.profile refresh_token)),
          profile_secret_key_valid access_token ctx.profile valid,
          not_found (key_of ctx.profile access_token) s
              (gone _ (key_of-Owned ctx.profile access_token)),
        )
        refl

  status-absent :
      (s : W.State)
      → ((key : String) → Owned ctx.profile key → secrets s key ≡ none)
      → has_pat_credentials s ≡ false
      → (get_status p ctx s).0 ≡ ok unauthenticated
  unfolding get_status ◌>>=◌ lift gets
  status-absent s gone no_pat = rw (valid, no_pat) (stored-absent s gone)

  -- If the host is reliable, a host client is there, the profile's name is valid and no personal
  -- access token is in the environment after a logout, then the status after the logout is
  -- unauthenticated and every token request fails with an error that names the refresh token.
  pub logout-signs_out :
      (s : W.State) (req : TokenRequest)
      → has_pat_credentials (logout p ctx s).1 ≡ false
      → ((get_status p ctx (logout p ctx s).1).0 ≡ ok unauthenticated)
        × ((get_token p ctx req (logout p ctx s).1).0
            ≡ err (
                "not authenticated"
                <> (": "
                    <> ("secret "
                        <> (W.quote (key_of ctx.profile refresh_token) <> " not found")))))
  logout-signs_out s req no_pat = (
    status-absent _ (λ key owned. (logout_complete R client p ctx here valid s key owned).1) no_pat,
    get_token-signed_out R client p ctx here valid _
        (λ key owned. (logout_complete R client p ctx here valid s key owned).1) req no_pat,
  )
