-- ===== src/CliMode/GetStatus/Isolation.antt =====
-- Which secrets the status touches.
use scafctl_plugin_auth_gith.Prelude.{◌≡◌}
use scafctl_plugin_auth_gith.Effect.{Result, ok, err, panic}
use scafctl_plugin_auth_gith.Effect.Keeps.{Keeps, keeps_rules, Keeps-pure, Keeps-lift}
use scafctl_plugin_auth_gith.World.{World}
use scafctl_plugin_auth_gith.Profile.{validate_profile}
use scafctl_plugin_auth_gith.Frame.{Frame}
use scafctl_plugin_auth_gith.Types.{TokenMetadata}
use scafctl_plugin_auth_gith.Handler.{Handler, Context}
use scafctl_plugin_auth_gith.Handler.Isolation.{secret_exists-Keeps}
use scafctl_plugin_auth_gith.Cache.Isolation.{is_past-Keeps}
use scafctl_plugin_auth_gith.Token.Load.Isolation.{load_metadata-Keeps}
use scafctl_plugin_auth_gith.Pat.Isolation.{pat_status-Keeps}
use scafctl_plugin_auth_gith.CliMode.GetStatus.{status_of, stored_status, get_status}

module _ ⦃W : World⦄ {P : W.State → Type 0} (ctx : Context W) (F : Frame W P ctx.profile)
    (valid : validate_profile ctx.profile ≡ ok tt) where
  status_of-Keeps : (r : Result TokenMetadata) → Keeps P (status_of r)
  unfolding status_of
  status_of-Keeps (ok m) = search (keeps_rules, is_past-Keeps F valid)
  status_of-Keeps (err e) = Keeps-pure _
  status_of-Keeps (panic e) = Keeps-lift _

  stored_status-Keeps : (p : Handler W) → Keeps P (stored_status p ctx)
  unfolding stored_status
  stored_status-Keeps p =
      search
        (keeps_rules, secret_exists-Keeps F valid, load_metadata-Keeps ctx F valid, status_of-Keeps)
        depth 8

  pub get_status-Keeps : (p : Handler W) → Keeps P (get_status p ctx)
  unfolding get_status
  get_status-Keeps p = search (keeps_rules, pat_status-Keeps ctx F valid, stored_status-Keeps)
