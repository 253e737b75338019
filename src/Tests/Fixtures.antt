-- ===== src/Tests/Fixtures.antt =====
-- A plugin, contexts and states that the examples share.
use scafctl_plugin_auth_gith.Prelude.{String, pos, true, none, some, [], ◌∷◌}
use scafctl_plugin_auth_gith.Types.{device_code, LoginRequest, TokenRequest, server}
use scafctl_plugin_auth_gith.Config.{default_config}
use scafctl_plugin_auth_gith.Handler.{Handler, Context}
use scafctl_plugin_auth_gith.Tests.Store.{Secrets}
use scafctl_plugin_auth_gith.Tests.TestWorld.{test_world, TestState}

abbrev pub handler : Handler test_world
handler = record {
  config = default_config;
  http_client = tt;
  cached_host_client = none;
  open_browser = none;
  binary_name = "";
}

-- A call under a profile, with a host.
abbrev pub under_profile : String → Context test_world
under_profile profile = record { host_client = some tt; profile = profile }

abbrev pub state_with : Secrets → Secrets → TestState
state_with secrets env = record { secrets = secrets; env = env; time = pos 60; ticks = 3 }

abbrev pub device_login : LoginRequest
device_login = record { flow = device_code; scopes = "repo" ∷ []; timeout = pos 0 }

abbrev pub token_request : TokenRequest
token_request = record {
  scope = "";
  min_valid_for = pos 0;
  force_refresh = true;
  server_context = server;
}
