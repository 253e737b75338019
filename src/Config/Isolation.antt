-- ===== src/Config/Isolation.antt =====
-- Which secrets finding the app's private key touches.
use scafctl_plugin_auth_gith.Prelude.{String, ◌≡◌, Option, none, some}
use scafctl_plugin_auth_gith.Effect.{ok}
use scafctl_plugin_auth_gith.Effect.Keeps.{Keeps, keeps_rules, Keeps-pure, Keeps-fail}
use scafctl_plugin_auth_gith.World.{World}
use scafctl_plugin_auth_gith.Profile.{validate_profile}
use scafctl_plugin_auth_gith.Frame.{Frame}
use scafctl_plugin_auth_gith.Config.{
  Config, get_private_key, validate_app_config, key_from_secret, key_from_store,
}

module _ ⦃W : World⦄ {P : W.State → Type 0} {profile : String} (F : Frame W P profile)
    (valid : validate_profile profile ≡ ok tt) where
  key_from_secret-Keeps : (name : String) (o : Option String) → Keeps P (key_from_secret name o)
  unfolding key_from_secret
  key_from_secret-Keeps name none = Keeps-fail _
  key_from_secret-Keeps name (some value) = Keeps-pure value

  key_from_store-Keeps : (c : Config) (o : Option W.HostClient) → Keeps P (key_from_store c o)
  unfolding key_from_store
  key_from_store-Keeps c none = Keeps-fail _
  key_from_store-Keeps c (some client) = search (keeps_rules, F.get_secret, key_from_secret-Keeps)

  pub get_private_key-Keeps : (c : Config) (o : Option W.HostClient) → Keeps P (get_private_key c o)
  unfolding get_private_key
  get_private_key-Keeps c o = search (keeps_rules, F.read_file, key_from_store-Keeps) depth 8

  pub validate_app_config-Keeps :
      (c : Config) (o : Option W.HostClient) → Keeps P (validate_app_config c o)
  unfolding validate_app_config
  validate_app_config-Keeps c o = search (keeps_rules, get_private_key-Keeps) depth 8
