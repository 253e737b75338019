-- ===== src/Plugin/Serve.antt =====
-- The plugin in server mode: what an activation with a personal access token answers later, and
-- what server mode refuses.
use scafctl_plugin_auth_gith.Prelude.{
  String, ◌<>◌, ℤ, ◌+ℤ◌, ◌==◌, Bool, true, false, Bool-cases, inl, inr, none, some, ◌≡◌, refl, ap,
  ◌∙◌, if◌then◌else◌,
}
use scafctl_plugin_auth_gith.Effect.{
  Result, ok, err, Exec, pure, fail, lift, wrapped, ◌>>=◌, ◌or_wrap◌,
}
use scafctl_plugin_auth_gith.Types.{
  Flow, pat, ServerContext, server, delegated, other_context, LoginRequest, TokenRequest,
  TokenReply,
}
use scafctl_plugin_auth_gith.Settings.{ServerConfig, PatCredentialConfig}
use scafctl_plugin_auth_gith.World.{World}
use scafctl_plugin_auth_gith.Handler.{Handler, Context}
use scafctl_plugin_auth_gith.Cache.{handler_name}
use scafctl_plugin_auth_gith.Token.Store.{far_future, one_year}
use scafctl_plugin_auth_gith.ServerMode.{
  ServerState, run_strategy, server_state, server_get_token, strategies_for, cached_flow, pat_flow,
  pat_answer, context_text, build_server_flow_fn, resolved_pat, cache_for, validate_server,
  unimplemented, refusal, server_api_base_url,
}
use scafctl_plugin_auth_gith.Plugin.State.{serving, Plugin, System, in_world, plugin_of, update}
use scafctl_plugin_auth_gith.Plugin.Configure.{or_given, unknown_handler}
use scafctl_plugin_auth_gith.Plugin.Activate.{activate_server_mode, activate, is_blank}
use scafctl_plugin_auth_gith.Plugin.Dispatch.{
  dispatch, on_mode, login, logout, get_status, get_token, list_cached_tokens, purge_expired_tokens,
  detect_available_flows,
}

module _ ⦃W : World⦄ where
  -- The server's state for a personal access token.
  abbrev pub pat_server : Bool → String → ServerState W
  pat_server is_delegated token = record {
    strategies = strategies_for is_delegated (cached_flow (pat_flow token) none);
    cache_manager = none;
  }

  abbrev pub in_server_mode : System W → ServerState W → W.State → System W
  in_server_mode s m w = record { plugin = record s.plugin { mode = some (serving m) }; world = w }

  module _ (sc : ServerConfig) (c : PatCredentialConfig) (token : String)
      (asked : sc.server_flow ≡ pat) (given : sc.credential.pat ≡ some c) (w v : W.State)
      (resolved : W.resolve_ref c.token w ≡ (ok token, v)) where
    resolves : resolved_pat (some c) w ≡ (ok (pat_flow token), v)
    unfolding resolved_pat ◌>>=◌ ◌or_wrap◌ wrapped pure
    resolves = rw resolved refl

    built :
        (url : String) (client : W.HttpClient)
        → build_server_flow_fn sc.server_flow sc.credential url client w ≡ (ok (pat_flow token), v)
    unfolding build_server_flow_fn
    built url client =
        ap (λ f. build_server_flow_fn f sc.credential url client w) asked
        ∙ ap (λ o. resolved_pat o w) given
        ∙ resolves

    abbrev with_cache : Flow → Exec W.State (ServerState W)
    with_cache flow = do
      manager ← cache_for flow
      pure (record {
        strategies = strategies_for sc.delegated (cached_flow (pat_flow token) manager);
        cache_manager = manager;
      })

    uncached : with_cache pat v ≡ (ok (pat_server sc.delegated token), v)
    unfolding cache_for ◌>>=◌ pure
    uncached = refl

    server_state-runs :
        (client : W.HttpClient) → server_state sc client w ≡ (ok (pat_server sc.delegated token), v)
    unfolding server_state ◌>>=◌ ◌or_wrap◌ wrapped
    server_state-runs client =
        rw (built (server_api_base_url sc) client) (ap (λ f. with_cache f v) asked ∙ uncached)

    activate-runs :
        (p : Plugin W)
        → activate sc (record { plugin = p; world = w }) ≡ (
          ok tt,
          in_server_mode (record { plugin = p; world = w }) (pat_server sc.delegated token) v,
        )
    unfolding activate ◌>>=◌ plugin_of in_world update
    activate-runs p = rw (server_state-runs (or_given p.http_client W.default_http_client)) refl

  pat_flow-runs :
      (token scope : String) (v u : W.State) (now : ℤ)
      → W.now v ≡ (ok now, u)
      → cached_flow (pat_flow token) none (record { scope = scope }) v
        ≡ (ok (pat_answer token (now +ℤ one_year)), u)
  unfolding cached_flow pat_flow far_future ◌>>=◌ pure
  pat_flow-runs token scope v u now read = rw read refl

  -- The answer for a context, read off the settings.
  abbrev pub is_served : Bool → ServerContext → Bool
  is_served is_delegated server = true
  is_served is_delegated delegated = is_delegated
  is_served is_delegated (other_context text) = false

  abbrev pub served :
      {S : Type 0} → Bool → ServerContext → TokenReply → S → S → Result TokenReply × S
  served is_delegated context reply before after =
      if is_served is_delegated context
      then (ok reply, after)
      else (err ("no strategy configured for context " <> W.quote (context_text context)), before)

  abbrev in_plugin :
      System W → ServerState W → Result TokenReply × W.State → Result TokenReply × System W
  in_plugin s m q = (q.0, in_server_mode s m q.1)

  placed :
      (s : System W) (m : ServerState W) (b : Bool) (reply : TokenReply) (e : String)
      (v u : W.State)
      → in_plugin s m (if b then (ok reply, u) else (err e, v))
        ≡ (if b then (ok reply, in_server_mode s m u) else (err e, in_server_mode s m v))
  placed s m true reply e v u = refl
  placed s m false reply e v u = refl

  module _ (token : String) (req : TokenRequest) (v u : W.State) (now : ℤ)
      (read : W.now v ≡ (ok now, u)) where
    by_context :
        (is_delegated : Bool) (context : ServerContext)
        → run_strategy context ((pat_server is_delegated token).strategies context) req v
          ≡ served is_delegated context (pat_answer token (now +ℤ one_year)) v u
    unfolding run_strategy strategies_for fail
    by_context true server = pat_flow-runs token req.scope v u now read
    by_context false server = pat_flow-runs token req.scope v u now read
    by_context true delegated = pat_flow-runs token req.scope v u now read
    by_context false delegated = refl
    by_context true (other_context text) = refl
    by_context false (other_context text) = refl

    server-answers :
        (is_delegated : Bool)
        → server_get_token (pat_server is_delegated token) req v
          ≡ served is_delegated req.server_context (pat_answer token (now +ℤ one_year)) v u
    unfolding server_get_token
    server-answers is_delegated = by_context is_delegated req.server_context

    -- The plugin stays in server mode.
    plugin-answers :
        (ctx : Context W) (s : System W) (is_delegated : Bool)
        → get_token ctx handler_name req (in_server_mode s (pat_server is_delegated token) v)
          ≡ served is_delegated req.server_context
              (pat_answer token (now +ℤ one_year))
              (in_server_mode s (pat_server is_delegated token) v)
              (in_server_mode s (pat_server is_delegated token) u)
    unfolding get_token dispatch on_mode in_world
    plugin-answers ctx s is_delegated =
        ap (in_plugin s (pat_server is_delegated token)) (server-answers is_delegated)
        ∙ placed s (pat_server is_delegated token) (is_served is_delegated req.server_context) _ _ v
            u

  -- If the settings decode, with nothing but blanks behind them, and are accepted, ask for the
  -- flow `pat`, and their credential is resolved to a token, then the activation succeeds and
  -- changes the plugin's mode alone. At any later time a token request for the context `server`
  -- answers with that token and an expiry of one year from then, one for the context `delegated`
  -- does so exactly if the settings ask for delegated use, and any other is an error; the plugin
  -- stays in server mode with the same strategies.
  pub activated-get_token :
      (settings rest token : String) (sc : ServerConfig) (c : PatCredentialConfig) (s : System W)
      (w v later u : W.State) (ctx : Context W) (req : TokenRequest) (now : ℤ)
      → W.decode_server_config settings ≡ ok (sc, rest)
      → is_blank rest ≡ true
      → validate_server sc s.world ≡ (ok tt, w)
      → sc.server_flow ≡ pat
      → sc.credential.pat ≡ some c
      → W.resolve_ref c.token w ≡ (ok token, v)
      → W.now later ≡ (ok now, u)
      → (activate_server_mode settings s
          ≡ (ok tt, in_server_mode s (pat_server sc.delegated token) v))
        × (get_token ctx handler_name req (in_server_mode s (pat_server sc.delegated token) later)
            ≡ served sc.delegated req.server_context
                (pat_answer token (now +ℤ one_year))
                (in_server_mode s (pat_server sc.delegated token) later)
                (in_server_mode s (pat_server sc.delegated token) u))
  unfolding activate_server_mode ◌>>=◌ wrapped lift in_world
  activated-get_token settings rest token sc c s w v later u ctx req now decoded blank valid asked
        given resolved read =
      (
        rw (decoded, blank, valid) (activate-runs sc c token asked given w v resolved s.plugin),
        plugin-answers token req later u now read ctx s sc.delegated,
      )

  -- What every operation but the token request returns in server mode.
  abbrev pub refused_as : {A : Type 0} → String → String → System W → Result A × System W
  refused_as name operation s =
      (err (if name == handler_name then refusal operation else unknown_handler name), s)

  refuses :
      {A : Type 0} (name operation : String) (on_cli : Handler W → Exec W.State A) (s : System W)
      (m : ServerState W) (w : W.State)
      → dispatch name on_cli (λ _. unimplemented operation) (in_server_mode s m w)
        ≡ refused_as name operation (in_server_mode s m w)
  unfolding dispatch on_mode in_world unimplemented fail
  refuses name operation on_cli s m w = elim (Bool-cases (name == handler_name)) [
    | inl same ↦ rw same refl
    | inr other ↦ rw other refl
  ]

  abbrev pub RefusesAll : Context W → String → LoginRequest → System W → Type 0
  RefusesAll ctx name req s =
      (login ctx name req s ≡ refused_as name "login" s)
      × (logout ctx name s ≡ refused_as name "logout" s)
      × (get_status ctx name s ≡ refused_as name "get status" s)
      × (list_cached_tokens ctx name s ≡ refused_as name "list cached tokens" s)
      × (purge_expired_tokens ctx name s ≡ refused_as name "purge expired tokens" s)
      × (detect_available_flows name s ≡ refused_as name "detect available flows" s)

  -- In server mode every operation but the token request is refused by its name, or for a handler
  -- that is not the plugin's as unknown, and neither the plugin nor the world is changed.
  pub serving-refuses :
      (s : System W) (m : ServerState W) (w : W.State) (ctx : Context W) (name : String)
      (req : LoginRequest)
      → RefusesAll ctx name req (in_server_mode s m w)
  unfolding login logout get_status list_cached_tokens purge_expired_tokens detect_available_flows
  serving-refuses s m w ctx name req = (
    refuses name "login" _ s m w,
    refuses name "logout" _ s m w,
    refuses name "get status" _ s m w,
    refuses name "list cached tokens" _ s m w,
    refuses name "purge expired tokens" _ s m w,
    refuses name "detect available flows" _ s m w,
  )
