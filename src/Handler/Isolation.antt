-- ===== src/Handler/Isolation.antt =====
-- Which secrets reading a secret touches.
use scafctl_plugin_auth_gith.Prelude.{String, ◌≡◌, Option, none, some}
use scafctl_plugin_auth_gith.Effect.{ok}
use scafctl_plugin_auth_gith.Effect.Keeps.{Keeps, keeps_rules, Keeps-pure, Keeps-fail}
use scafctl_plugin_auth_gith.World.{World}
use scafctl_plugin_auth_gith.Profile.{validate_profile}
use scafctl_plugin_auth_gith.Frame.{Frame}
use scafctl_plugin_auth_gith.Handler.{
  Handler, Context, get_secret, secret_exists, host_client, secret_of, exists_in, found_secret,
}

module _ ⦃W : World⦄ {P : W.State → Type 0} {profile : String} (F : Frame W P profile)
    (valid : validate_profile profile ≡ ok tt) where
  found_secret-Keeps : (name : String) (o : Option String) → Keeps P (found_secret name o)
  unfolding found_secret
  found_secret-Keeps name none = Keeps-fail _
  found_secret-Keeps name (some value) = Keeps-pure value

  secret_of-Keeps : (o : Option W.HostClient) (name : String) → Keeps P (secret_of o name)
  unfolding secret_of
  secret_of-Keeps none name = Keeps-fail _
  secret_of-Keeps (some client) name = search (keeps_rules, F.get_secret, found_secret-Keeps)

  pub get_secret-Keeps :
      (p : Handler W) (ctx : Context W) (name : String) → Keeps P (get_secret p ctx name)
  unfolding get_secret
  get_secret-Keeps p ctx name = secret_of-Keeps (host_client p ctx) name

  exists_in-Keeps : (o : Option W.HostClient) (name : String) → Keeps P (exists_in o name)
  unfolding exists_in
  exists_in-Keeps none name = Keeps-pure _
  exists_in-Keeps (some client) name = search (keeps_rules, F.get_secret)

  pub secret_exists-Keeps :
      (p : Handler W) (ctx : Context W) (name : String) → Keeps P (secret_exists p ctx name)
  unfolding secret_exists
  secret_exists-Keeps p ctx name = exists_in-Keeps (host_client p ctx) name
