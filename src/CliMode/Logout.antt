-- ===== src/CliMode/Logout.antt =====
-- Logout of cli_mode.go and logoutInternal of auth_handler.go.
pub mod Complete
pub mod Isolation
use scafctl_plugin_auth_gith.Prelude.{String, Option, none, some}
use scafctl_plugin_auth_gith.Effect.{Exec, pure, fail, lift, try, or_empty, ◌>>◌}
use scafctl_plugin_auth_gith.World.{World}
use scafctl_plugin_auth_gith.Profile.{
  validate_profile, profile_secret_key, secret_key_refresh_token, secret_key_access_token,
  secret_key_metadata,
}
use scafctl_plugin_auth_gith.Handler.{Handler, Context, host_client}
use scafctl_plugin_auth_gith.Cache.{cache_clear}

module _ ⦃W : World⦄ where
  abbrev delete_quietly : W.HostClient → String → String → Exec W.State (Unit {0})
  delete_quietly client key profile =
      try (W.delete_secret client (or_empty (profile_secret_key key profile))) >> pure tt

  unfoldable pub logout_on : Option W.HostClient → String → Exec W.State (Unit {0})
  logout_on none profile = fail "host service not available"
  logout_on (some client) profile = do
    lift (validate_profile profile)
    cache_clear client profile
    delete_quietly client secret_key_refresh_token profile
    delete_quietly client secret_key_access_token profile
    delete_quietly client secret_key_metadata profile

  unfoldable pub logout : Handler W → Context W → Exec W.State (Unit {0})
  unfolding logout_on
  logout p ctx = logout_on (host_client p ctx) ctx.profile
