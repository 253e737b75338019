-- ===== src/Tests/SettingsExamples.antt =====
-- The configuration's checks, and the reported flows, at concrete settings.
use scafctl_plugin_auth_gith.Prelude.{String, pos, eqb_ℤ, true, false, none, [], ◌≡◌, refl}
use scafctl_plugin_auth_gith.Effect.{ok, err, wrapped, ◌>>=◌, gets, pure, ◌or_wrap◌}
use scafctl_plugin_auth_gith.Config.{
  Config, default_config, validate_app_config, get_app_id, get_installation_id, get_private_key,
  no_installation_id,
}
use scafctl_plugin_auth_gith.Config.Credentials.{validate_app_config_sound}
use scafctl_plugin_auth_gith.CliMode.Availability.{available_flows, has_private_key}
use scafctl_plugin_auth_gith.CliMode.Availability.Agreement.{Reported, available_app-login}
use scafctl_plugin_auth_gith.Types.{github_app, FlowAvailability}
use scafctl_plugin_auth_gith.Handler.{Handler}
use scafctl_plugin_auth_gith.AppFlow.{app_login}
use scafctl_plugin_auth_gith.Tests.TestWorld.{test_world, TestState}
use scafctl_plugin_auth_gith.Tests.Fixtures.{handler, under_profile, state_with}

abbrev app_config : Config
app_config = record default_config { app_id = pos 7; installation_id = pos 9; private_key = "key" }

abbrev nothing_set : TestState
nothing_set = state_with [] []

app_accepted : (validate_app_config ⦃W = test_world⦄ app_config none nothing_set).0 ≡ ok tt
unfolding validate_app_config get_app_id get_installation_id get_private_key ◌>>=◌ gets pure
    ◌or_wrap◌ wrapped
app_accepted = refl

validate_app_config_sound_example :
    (eqb_ℤ (get_app_id ⦃W = test_world⦄ app_config nothing_set) (pos 0) ≡ false)
    × (eqb_ℤ (get_installation_id ⦃W = test_world⦄ app_config nothing_set) (pos 0) ≡ false)
    × ((key : String) × ((get_private_key ⦃W = test_world⦄ app_config none nothing_set).0 ≡ ok key))
validate_app_config_sound_example =
    validate_app_config_sound app_config none nothing_set app_accepted

-- A plugin with an App ID and a key, and no installation ID.
abbrev half_app : Handler test_world
half_app = record handler { config = record default_config { app_id = pos 7; private_key = "key" } }

half_app_id : eqb_ℤ (get_app_id ⦃W = test_world⦄ half_app.config nothing_set) (pos 0) ≡ false
unfolding get_app_id
half_app_id = refl

half_app_key : has_private_key ⦃W = test_world⦄ half_app.config nothing_set ≡ true
unfolding has_private_key
half_app_key = refl

half_app_installation :
    eqb_ℤ (get_installation_id ⦃W = test_world⦄ half_app.config nothing_set) (pos 0) ≡ true
unfolding get_installation_id
half_app_installation = refl

available_app-login_example :
    ((a : FlowAvailability) × Reported a (available_flows ⦃W = test_world⦄ half_app nothing_set)
      × (a.flow ≡ github_app)
      × (a.available ≡ true))
    × (app_login ⦃W = test_world⦄ half_app (under_profile "") nothing_set
        ≡ (wrapped "github: app_config" (err no_installation_id), nothing_set))
available_app-login_example =
    available_app-login half_app (under_profile "") nothing_set half_app_id half_app_key
      half_app_installation
