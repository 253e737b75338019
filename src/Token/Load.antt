-- ===== src/Token/Load.antt =====
-- The three loaders of token.go: refresh token, access token and metadata of a profile.
pub mod Isolation
pub mod Stored
use scafctl_plugin_auth_gith.Prelude.{String}
use scafctl_plugin_auth_gith.Effect.{Exec, lift, wrapped, ◌>>=◌}
use scafctl_plugin_auth_gith.Types.{TokenMetadata}
use scafctl_plugin_auth_gith.World.{World}
use scafctl_plugin_auth_gith.Profile.{
  profile_secret_key, secret_key_refresh_token, secret_key_access_token, secret_key_metadata,
}
use scafctl_plugin_auth_gith.Handler.{Handler, Context, get_secret}

module _ ⦃W : World⦄ where
  unfoldable pub load_refresh_token : Handler W → Context W → Exec W.State String
  load_refresh_token p ctx = do
    key ← lift (profile_secret_key secret_key_refresh_token ctx.profile)
    get_secret p ctx key

  unfoldable pub load_access_token : Handler W → Context W → Exec W.State String
  load_access_token p ctx = do
    key ← lift (profile_secret_key secret_key_access_token ctx.profile)
    get_secret p ctx key

  unfoldable pub load_metadata : Handler W → Context W → Exec W.State TokenMetadata
  load_metadata p ctx = do
    key ← lift (profile_secret_key secret_key_metadata ctx.profile)
    value ← get_secret p ctx key
    lift (wrapped "failed to unmarshal metadata" (W.decode_metadata value))
