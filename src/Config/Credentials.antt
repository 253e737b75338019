-- ===== src/Config/Credentials.antt =====
-- What the configuration's checks guarantee.
use scafctl_plugin_auth_gith.Prelude.{
  String, ◌==◌, pos, eqb_ℤ, false, Bool-cases, inl, inr, Option, ◌≡◌, refl,
}
use scafctl_plugin_auth_gith.Prelude.Text.{contains_any}
use scafctl_plugin_auth_gith.Effect.{
  Result, ok, err, panic, pure, fail, gets, wrapped, continue, ◌or_wrap◌, ◌>>=◌,
}
use scafctl_plugin_auth_gith.World.{World}
use scafctl_plugin_auth_gith.Config.{
  Config, validate, get_app_id, get_installation_id, get_private_key, validate_app_config,
}

refused : {e : String} → ¬ (◌≡◌ {A = Result (Unit {0})} (err e) (ok tt))
refused h = cc

module _ ⦃W : World⦄ where
  -- A configuration that is accepted has a client ID, and a host name that is not empty and holds
  -- no blank, quote or semicolon.
  pub validate_sound :
      (c : Config)
      → validate c ≡ ok tt
      → (c.client_id == "" ≡ false)
        × (c.hostname == "" ≡ false)
        × (contains_any c.hostname " \t\n\r;\"'" ≡ false)
  unfolding validate
  validate_sound c h = elim (Bool-cases (c.client_id == "")) [
    | inl no_client ↦ absurd (refused (rw no_client at h))
    | inr client ↦ elim (Bool-cases (c.hostname == "")) [
      | inl no_host ↦ absurd (refused (rw (client, no_host) at h))
      | inr host ↦ elim (Bool-cases (contains_any c.hostname " \t\n\r;\"'")) [
        | inl bad ↦ absurd (refused (rw (client, host, bad) at h))
        | inr good ↦ (client, host, good)
      ]
    ]
  ]

  key_found :
      (r : Result String) (s : W.State)
      → (continue (wrapped "github app" r) (λ k. pure tt) s).0 ≡ ok (tt {0})
      → (key : String) × (r ≡ ok key)
  unfolding wrapped pure
  key_found (ok key) s h = (key, refl)
  key_found (err e) s h = cc
  key_found (panic e) s h = cc

  -- Where the GitHub App's configuration is accepted, the App ID and the installation ID are not
  -- zero, and a private key was read.
  pub validate_app_config_sound :
      (c : Config) (client : Option W.HostClient) (s : W.State)
      → (validate_app_config c client s).0 ≡ ok tt
      → (eqb_ℤ (get_app_id c s) (pos 0) ≡ false)
        × (eqb_ℤ (get_installation_id c s) (pos 0) ≡ false)
        × ((key : String) × ((get_private_key c client s).0 ≡ ok key))
  unfolding validate_app_config ◌>>=◌ gets fail ◌or_wrap◌
  validate_app_config_sound c client s h = elim (Bool-cases (eqb_ℤ (get_app_id c s) (pos 0))) [
    | inl no_app ↦ absurd (refused (rw no_app at h))
    | inr app ↦ elim (Bool-cases (eqb_ℤ (get_installation_id c s) (pos 0))) [
      | inl no_installation ↦ absurd (refused (rw (app, no_installation) at h))
      | inr installation ↦ (
        app,
        installation,
        key_found (get_private_key c client s).0 _ (rw (app, installation) at h),
      )
    ]
  ]
