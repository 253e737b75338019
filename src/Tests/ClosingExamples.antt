-- ===== src/Tests/ClosingExamples.antt =====
-- The authorization code login in a world that records whether the callback server is open.
use scafctl_plugin_auth_gith.Prelude.{pos, none, some, [], ◌∷◌, ◌≡◌, refl}
use scafctl_plugin_auth_gith.Effect.{ok}
use scafctl_plugin_auth_gith.Types.{interactive, LoginRequest}
use scafctl_plugin_auth_gith.World.{World}
use scafctl_plugin_auth_gith.Handler.{Handler, Context}
use scafctl_plugin_auth_gith.Config.{default_config}
use scafctl_plugin_auth_gith.AuthCodeFlow.{auth_code_login}
use scafctl_plugin_auth_gith.AuthCodeFlow.Closing.{Closes, auth_code_login-closes}
use scafctl_plugin_auth_gith.Tests.TestWorld.{test_world, TestState}
use scafctl_plugin_auth_gith.Tests.Fixtures.{state_with}

abbrev door_world : World
door_world = record test_world {
  start_callback_server =
      λ state s. (ok "http://localhost", record s { env = ("server", "open") ∷ [] });
  close_callback_server = λ s. (ok tt, record s { env = [] });
}

abbrev IsShut : TestState → Type 0
IsShut s = s.env ≡ []

door_closes : Closes door_world IsShut
door_closes = record {
  generate = record { at = λ s h. h };
  not_started = λ state s refused h. absurd (refused "http://localhost" refl);
  close = λ s. refl;
}

abbrev door_handler : Handler door_world
door_handler = record {
  config = default_config;
  http_client = tt;
  cached_host_client = none;
  open_browser = none;
  binary_name = "";
}

abbrev door_context : Context door_world
door_context = record { host_client = some tt; profile = "work" }

abbrev browser_login : LoginRequest
browser_login = record { flow = interactive; scopes = []; timeout = pos 0 }

auth_code_login-closes_example :
    IsShut
      (auth_code_login ⦃W = door_world⦄ door_handler door_context browser_login
        (state_with [] [])).1
auth_code_login-closes_example =
    auth_code_login-closes ⦃W = door_world⦄ door_closes door_handler door_context browser_login
      (state_with [] []) refl
