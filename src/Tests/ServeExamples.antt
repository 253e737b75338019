-- ===== src/Tests/ServeExamples.antt =====
-- Server mode with a personal access token, at concrete settings.
use scafctl_plugin_auth_gith.Prelude.{pos, ◌+ℤ◌, false, none, some, [], ◌≡◌, refl}
use scafctl_plugin_auth_gith.Effect.{ok, lift, wrapped}
use scafctl_plugin_auth_gith.Types.{pat}
use scafctl_plugin_auth_gith.Settings.{ServerConfig}
use scafctl_plugin_auth_gith.World.{World}
use scafctl_plugin_auth_gith.Handler.{Context}
use scafctl_plugin_auth_gith.Token.Store.{one_year}
use scafctl_plugin_auth_gith.ServerMode.{ServerState, validate_server, pat_answer}
use scafctl_plugin_auth_gith.Plugin.{System, new_plugin, activate_server_mode, is_blank, get_token}
use scafctl_plugin_auth_gith.Plugin.Serve.{
  pat_server, in_server_mode, RefusesAll, activated-get_token, serving-refuses,
}
use scafctl_plugin_auth_gith.Tests.TestWorld.{test_world, TestState}
use scafctl_plugin_auth_gith.Tests.Fixtures.{state_with, token_request, device_login}

abbrev server_settings : ServerConfig
server_settings = record {
  server_flow = pat;
  delegated = false;
  hostname = "";
  credential = record { pat = some (record { token = "env:PAT" }); app = none };
}

-- The settings decode, with a line break behind them.
abbrev serving_world : World
serving_world = record test_world { decode_server_config = λ raw. ok (server_settings, "\n") }

abbrev at_time : TestState
at_time = state_with [] []

abbrev idle : System serving_world
idle = record { plugin = new_plugin serving_world; world = at_time }

abbrev later : TestState
later = record at_time { time = pos 500 }

abbrev served_state : ServerState serving_world
served_state = pat_server ⦃W = serving_world⦄ false "env:PAT"

abbrev no_profile : Context serving_world
no_profile = record { host_client = none; profile = "" }

activated-get_token_example :
    (activate_server_mode ⦃W = serving_world⦄ "{}" idle
      ≡ (ok tt, in_server_mode ⦃W = serving_world⦄ idle served_state at_time))
    × (get_token ⦃W = serving_world⦄ no_profile "github" token_request
          (in_server_mode ⦃W = serving_world⦄ idle served_state later)
        ≡ (
          ok (pat_answer "env:PAT" (pos 500 +ℤ one_year)),
          in_server_mode ⦃W = serving_world⦄ idle served_state later,
        ))
unfolding is_blank validate_server lift wrapped
activated-get_token_example =
    activated-get_token ⦃W = serving_world⦄ "{}" "\n" "env:PAT" server_settings
      (record { token = "env:PAT" }) idle at_time at_time later later no_profile token_request
      (pos 500) refl refl refl refl refl refl refl

serving-refuses_example :
    RefusesAll ⦃W = serving_world⦄ no_profile "github" device_login
      (in_server_mode ⦃W = serving_world⦄ idle served_state later)
serving-refuses_example =
    serving-refuses ⦃W = serving_world⦄ idle served_state later no_profile "github" device_login
