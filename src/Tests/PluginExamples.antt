-- ===== src/Tests/PluginExamples.antt =====
-- The plugin and its server mode at concrete settings.
use scafctl_plugin_auth_gith.Effect.{err}
use scafctl_plugin_auth_gith.Tests.Fixtures.{handler}
use scafctl_plugin_auth_gith.Settings.{ProviderConfig}
use scafctl_plugin_auth_gith.Config.{default_config, validate}
use scafctl_plugin_auth_gith.Plugin.{cli, handler_of, handler_with, in_world, config_of}
use scafctl_plugin_auth_gith.Plugin.Reconfigure.{configure-refused}
use scafctl_plugin_auth_gith.Prelude.{String, true, none, some, [], ◌≡◌, refl}
use scafctl_plugin_auth_gith.Effect.{ok, Exec, ◌>>=◌, pure, lift, ◌or_wrap◌, wrapped}
use scafctl_plugin_auth_gith.Types.{pat}
use scafctl_plugin_auth_gith.Settings.{ServerConfig}
use scafctl_plugin_auth_gith.Handler.{Handler}
use scafctl_plugin_auth_gith.ServerMode.{validate_server, validate_flow, validate_pat}
use scafctl_plugin_auth_gith.ServerMode.{build_server_flow_fn, resolved_pat, pat_flow, cached_flow}
use scafctl_plugin_auth_gith.ServerMode.{
  ServerState, server_state, cache_for, strategies_for, unimplemented,
}
use scafctl_plugin_auth_gith.ServerMode.Activation.{
  Serves, Safe, server_state-strategies, validated-builds,
}
use scafctl_plugin_auth_gith.Plugin.{System, new_plugin}
use scafctl_plugin_auth_gith.Plugin.{activate_server_mode}
use scafctl_plugin_auth_gith.Plugin.Atomic.{Atomic, activate_server_mode-Atomic}
use scafctl_plugin_auth_gith.Plugin.{configure_auth_handler}
use scafctl_plugin_auth_gith.Plugin.{dispatch}
use scafctl_plugin_auth_gith.Plugin.Invariant.{
  WellFormed, Reachable, start, configured, Reachable-WellFormed,
}
use scafctl_plugin_auth_gith.Tests.TestWorld.{test_world, TestState}
use scafctl_plugin_auth_gith.Tests.Fixtures.{under_profile, state_with}

abbrev pat_settings : ServerConfig
pat_settings = record {
  server_flow = pat;
  delegated = true;
  hostname = "";
  credential = record { pat = some (record { token = "env:PAT" }); app = none };
}

abbrev begin : TestState
begin = state_with [] []

settings_accepted : (validate_server ⦃W = test_world⦄ pat_settings begin).0 ≡ ok tt
unfolding validate_server validate_flow validate_pat lift wrapped
settings_accepted = refl

resolves : (ref : String) → Safe ⦃W = test_world⦄ (test_world.resolve_ref ref)
unfolding Safe
resolves ref s e h = cc

validated-builds_example : Safe ⦃W = test_world⦄ (
    build_server_flow_fn pat_settings.server_flow pat_settings.credential "https://api.github.com"
      tt)
validated-builds_example =
    validated-builds pat_settings "https://api.github.com" tt resolves begin settings_accepted

abbrev pat_server : ServerState test_world
pat_server = record {
  strategies = strategies_for ⦃W = test_world⦄ true (cached_flow (pat_flow "env:PAT") none);
  cache_manager = none;
}

built : (server_state ⦃W = test_world⦄ pat_settings tt begin).0 ≡ ok pat_server
unfolding server_state build_server_flow_fn resolved_pat cache_for ◌>>=◌ ◌or_wrap◌ wrapped pure
built = refl

server_state-strategies_example : Serves ⦃W = test_world⦄ true pat_server.strategies
server_state-strategies_example = server_state-strategies pat_settings tt begin pat_server built

abbrev fresh : System test_world
fresh = record { plugin = new_plugin test_world; world = begin }

activate_server_mode-Atomic_example :
    Atomic ⦃W = test_world⦄ fresh.plugin
      (activate_server_mode "{}" fresh).0
      (activate_server_mode "{}" fresh).1
activate_server_mode-Atomic_example = activate_server_mode-Atomic "{}" fresh

abbrev after_configuring : System test_world
after_configuring =
    (configure_auth_handler ⦃W = test_world⦄ (under_profile "") "github"
      (record { settings = λ name. none; binary_name = "" }) fresh).1

configured_once : Reachable after_configuring
configured_once =
    configured (under_profile "") "github" (record { settings = λ name. none; binary_name = "" })
      (start begin)

Reachable-WellFormed_example : WellFormed after_configuring
Reachable-WellFormed_example = Reachable-WellFormed configured_once

abbrev quiet : Handler test_world → Exec TestState (Unit {0})
quiet p s = (ok tt, s)

abbrev refuses : ServerState test_world → Exec TestState (Unit {0})
refuses m = unimplemented "logout"

-- A host that is configured twice, the second time with a host name that is refused.
abbrev bad_settings : ProviderConfig
bad_settings = record { settings = λ name. some "git hub"; binary_name = "" }

abbrev configured_system : System test_world
configured_system = record {
  plugin = record (new_plugin test_world) {
    config = some default_config;
    http_client = some tt;
    has_clock = true;
    mode = some cli;
  };
  world = begin;
}

bad_parses : (config_of ⦃W = test_world⦄ bad_settings).1 ≡ ok tt
unfolding config_of
bad_parses = refl

bad_refused :
    validate ⦃W = test_world⦄ (config_of ⦃W = test_world⦄ bad_settings).0
    ≡ err "github auth: hostname contains invalid characters"
unfolding config_of validate
bad_refused = refl

handler_given : handler_of ⦃W = test_world⦄ configured_system.plugin ≡ some handler
unfolding handler_of handler_with
handler_given = refl

configure-refused_example :
    ((configure_auth_handler ⦃W = test_world⦄
        (under_profile "")
        "github"
        bad_settings
        configured_system).0
      ≡ err "github auth: hostname contains invalid characters")
    × (dispatch ⦃W = test_world⦄ "github" quiet refuses
          (configure_auth_handler (under_profile "") "github" bad_settings configured_system).1
        ≡ in_world
            (quiet (record handler {
              config = (config_of ⦃W = test_world⦄ bad_settings).0;
              binary_name = "";
            }))
            (configure_auth_handler (under_profile "") "github" bad_settings configured_system).1)
configure-refused_example =
    configure-refused quiet refuses (under_profile "") bad_settings
      "github auth: hostname contains invalid characters" configured_system handler refl
      handler_given bad_parses bad_refused
