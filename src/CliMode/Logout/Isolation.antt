-- ===== src/CliMode/Logout/Isolation.antt =====
-- Which secrets logging out touches.
use scafctl_plugin_auth_gith.Prelude.{String, ◌≡◌, Option, some, none}
use scafctl_plugin_auth_gith.Effect.{ok}
use scafctl_plugin_auth_gith.Effect.Keeps.{
  Keeps, Keeps-bind, Keeps-pure, Keeps-lift, Keeps-try, Keeps-fail,
}
use scafctl_plugin_auth_gith.World.{World}
use scafctl_plugin_auth_gith.Profile.{validate_profile}
use scafctl_plugin_auth_gith.Frame.{Frame}
use scafctl_plugin_auth_gith.Handler.{Handler, Context, host_client}
use scafctl_plugin_auth_gith.Cache.Isolation.{cache_clear-Keeps}
use scafctl_plugin_auth_gith.Profile.Keys.{Owned}
use scafctl_plugin_auth_gith.Profile.{profile_secret_key}
use scafctl_plugin_auth_gith.Effect.{or_empty}
use scafctl_plugin_auth_gith.Frame.Rules.{refresh_token-Owned, access_token-Owned, metadata-Owned}
use scafctl_plugin_auth_gith.CliMode.Logout.{delete_quietly, logout_on, logout}

module _ ⦃W : World⦄ {P : W.State → Type 0} (ctx : Context W) (F : Frame W P ctx.profile)
    (valid : validate_profile ctx.profile ≡ ok tt) where
  delete_quietly-Keeps :
      (c : W.HostClient) (key : String)
      → Owned ctx.profile (or_empty (profile_secret_key key ctx.profile))
      → Keeps P (delete_quietly c key ctx.profile)
  delete_quietly-Keeps c key owned =
      Keeps-bind _ _ (Keeps-try _ (F.delete_secret c _ owned)) λ _. Keeps-pure tt

  logout_on-Keeps : (o : Option W.HostClient) → Keeps P (logout_on o ctx.profile)
  unfolding logout_on
  logout_on-Keeps none = Keeps-fail _
  logout_on-Keeps (some c) = Keeps-bind _ _ (Keeps-lift _) λ _.
      Keeps-bind _ _ (cache_clear-Keeps F valid c) λ _.
        Keeps-bind _ _ (delete_quietly-Keeps c _ (refresh_token-Owned ctx.profile valid)) λ _.
          Keeps-bind _ _ (delete_quietly-Keeps c _ (access_token-Owned ctx.profile valid))
            λ _. delete_quietly-Keeps c _ (metadata-Owned ctx.profile valid)

  pub logout-Keeps : (p : Handler W) → Keeps P (logout p ctx)
  unfolding logout
  logout-Keeps p = logout_on-Keeps (host_client p ctx)
