-- ===== src/Token/Load/Isolation.antt =====
-- Which secrets the loaders touch.
use scafctl_plugin_auth_gith.Prelude.{◌≡◌}
use scafctl_plugin_auth_gith.Effect.{ok}
use scafctl_plugin_auth_gith.Effect.Keeps.{Keeps, keeps_rules}
use scafctl_plugin_auth_gith.World.{World}
use scafctl_plugin_auth_gith.Profile.{validate_profile}
use scafctl_plugin_auth_gith.Frame.{Frame}
use scafctl_plugin_auth_gith.Handler.{Handler, Context}
use scafctl_plugin_auth_gith.Handler.Isolation.{get_secret-Keeps}
use scafctl_plugin_auth_gith.Token.Load.{load_refresh_token, load_access_token, load_metadata}

module _ ⦃W : World⦄ {P : W.State → Type 0} (ctx : Context W) (F : Frame W P ctx.profile)
    (valid : validate_profile ctx.profile ≡ ok tt) where
  pub load_refresh_token-Keeps : (p : Handler W) → Keeps P (load_refresh_token p ctx)
  unfolding load_refresh_token
  load_refresh_token-Keeps p = search (keeps_rules, get_secret-Keeps F valid)

  pub load_access_token-Keeps : (p : Handler W) → Keeps P (load_access_token p ctx)
  unfolding load_access_token
  load_access_token-Keeps p = search (keeps_rules, get_secret-Keeps F valid)

  pub load_metadata-Keeps : (p : Handler W) → Keeps P (load_metadata p ctx)
  unfolding load_metadata
  load_metadata-Keeps p = search (keeps_rules, get_secret-Keeps F valid)
