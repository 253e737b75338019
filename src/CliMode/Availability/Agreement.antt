-- ===== src/CliMode/Availability/Agreement.antt =====
-- What the reported availability of a flow says of the login by that flow.
use scafctl_plugin_auth_gith.Prelude.{
  pos, eqb_ℤ, true, false, inl, inr, List, [], ◌∷◌, ◌⊎◌, ◌≡◌, refl,
}
use scafctl_plugin_auth_gith.Effect.{err, fail, gets, wrapped, ◌or_wrap◌, ◌>>=◌}
use scafctl_plugin_auth_gith.Types.{github_app, FlowAvailability}
use scafctl_plugin_auth_gith.World.{World}
use scafctl_plugin_auth_gith.Config.{
  get_app_id, get_installation_id, validate_app_config, no_installation_id,
}
use scafctl_plugin_auth_gith.Handler.{Handler, Context}
use scafctl_plugin_auth_gith.AppFlow.{app_login}
use scafctl_plugin_auth_gith.CliMode.Availability.{
  available_flows, has_private_key, app_availability,
}

-- The availability is one of those reported.
abbrev pub Reported : FlowAvailability → List FlowAvailability → Type 0
Reported a [] = ⊥
Reported a (b ∷ rest) = (a ≡ b) ⊎ Reported a rest

module _ ⦃W : World⦄ (p : Handler W) where
  -- Where an App ID and a private key are configured and an installation ID is not, the GitHub App
  -- flow is reported as available, and a login by it fails at once for want of the installation ID.
  pub available_app-login :
      (ctx : Context W) (s : W.State)
      → eqb_ℤ (get_app_id p.config s) (pos 0) ≡ false
      → has_private_key p.config s ≡ true
      → eqb_ℤ (get_installation_id p.config s) (pos 0) ≡ true
      → ((a : FlowAvailability) × Reported a (available_flows p s)
          × (a.flow ≡ github_app)
          × (a.available ≡ true))
        × (app_login p ctx s ≡ (wrapped "github: app_config" (err no_installation_id), s))
  unfolding available_flows app_availability app_login validate_app_config ◌>>=◌ gets fail ◌or_wrap◌
      wrapped
  available_app-login ctx s app key missing =
      ((_, inr (inl refl), refl, rw (app, key) refl), rw (app, missing) refl)
