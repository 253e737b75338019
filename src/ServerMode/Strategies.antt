-- ===== src/ServerMode/Strategies.antt =====
-- `githubServerMode` of internal/github/server_mode.go: the strategies that activateServerMode
-- builds, GetToken over them, and the operations that server mode refuses.
use scafctl_plugin_auth_gith.Prelude.{
  String, ◌<>◌, ◌==◌, Bool, true, false, Option, none, some, if◌then◌else◌,
}
use scafctl_plugin_auth_gith.Effect.{Exec, pure, fail, ◌>>=◌, ◌or_wrap◌}
use scafctl_plugin_auth_gith.Types.{
  Flow, github_app, ServerContext, server, delegated, other_context, TokenReply, TokenRequest,
}
use scafctl_plugin_auth_gith.Settings.{ServerConfig}
use scafctl_plugin_auth_gith.World.{World}
use scafctl_plugin_auth_gith.ServerMode.Settings.{server_api_base_url}
use scafctl_plugin_auth_gith.ServerMode.Flows.{
  FlowFn, build_server_flow_fn, cached_flow, new_installation_cache_manager,
}

-- The map from contexts to flows.
abbrev pub Strategies : World → Type 0
Strategies W = ServerContext → Option (FlowFn W)

abbrev pub context_text : ServerContext → String
context_text server = "server"
context_text delegated = "delegated"
context_text (other_context text) = text

-- Equality of the named strings.
abbrev pub same_context : ServerContext → ServerContext → Bool
same_context server server = true
same_context delegated delegated = true
same_context (other_context a) (other_context b) = a == b
same_context _ _ = false

-- The fields of `githubServerMode`.
pub record ServerState (W : World) : Type 0 where
  pub strategies : Strategies W
  pub cache_manager : Option W.Manager

abbrev pub refusal : String → String
refusal operation = operation <> " is not supported in server mode"

module _ ⦃W : World⦄ where
  abbrev pub no_strategies : Strategies W
  no_strategies context = none

  abbrev pub with_strategy : ServerContext → FlowFn W → Strategies W → Strategies W
  with_strategy key flow strategies context =
      if same_context key context then some flow else strategies context

  -- The methods of `unimplementedServerMode`.
  unfoldable pub unimplemented : {A : Type 0} → String → Exec W.State A
  unimplemented operation = fail (refusal operation)

  unfoldable pub run_strategy :
      ServerContext → Option (FlowFn W) → TokenRequest → Exec W.State TokenReply
  run_strategy context none req =
      fail ("no strategy configured for context " <> W.quote (context_text context))
  run_strategy context (some flow) req = flow (record { scope = req.scope })

  unfoldable pub server_get_token : ServerState W → TokenRequest → Exec W.State TokenReply
  unfolding run_strategy
  server_get_token m req = run_strategy req.server_context (m.strategies req.server_context) req

  -- Only the GitHub App flow is cached.
  unfoldable pub cache_for : Flow → Exec W.State (Option W.Manager)
  cache_for github_app = do manager ← new_installation_cache_manager; pure (some manager)
  cache_for flow = pure none

  -- The server's flow, and for delegated use the same one.
  unfoldable pub strategies_for : Bool → FlowFn W → Strategies W
  strategies_for false flow = with_strategy server flow no_strategies
  strategies_for true flow = with_strategy delegated flow (with_strategy server flow no_strategies)

  -- activateServerMode, up to the assignment of the plugin's mode.
  unfoldable pub server_state : ServerConfig → W.HttpClient → Exec W.State (ServerState W)
  unfolding cache_for
  server_state sc client = do
    flow ←
        build_server_flow_fn sc.server_flow sc.credential (server_api_base_url sc) client
        or_wrap "server flow"
    manager ← cache_for sc.server_flow
    pure (record {
      strategies = strategies_for sc.delegated (cached_flow flow manager);
      cache_manager = manager;
    })
