-- ===== src/ServerMode/Activation.antt =====
-- What a server configuration that is accepted leads to.
use scafctl_plugin_auth_gith.Prelude.{
  String, Bool, true, false, Option, none, some, ◌≡◌, refl, sym, subst, if◌then◌else◌,
}
use scafctl_plugin_auth_gith.Effect.{
  Result, ok, err, panic, Exec, pure, fail, wrapped, continue, ◌or_wrap◌, ◌>>=◌,
}
use scafctl_plugin_auth_gith.Types.{
  Flow, no_flow, pat, device_code, github_app, interactive, other_flow, server, delegated,
  other_context,
}
use scafctl_plugin_auth_gith.Settings.{ServerConfig, PatCredentialConfig}
use scafctl_plugin_auth_gith.World.{World}
use scafctl_plugin_auth_gith.ServerMode.Settings.{validate_server, validate_flow, validate_pat}
use scafctl_plugin_auth_gith.ServerMode.Flows.{
  FlowFn, build_server_flow_fn, resolved_pat, cached_flow, pat_flow,
}
use scafctl_plugin_auth_gith.ServerMode.Strategies.{
  ServerState, Strategies, server_state, cache_for, strategies_for,
}

module _ ⦃W : World⦄ where
  -- The two contexts that server mode serves, and no other.
  unfoldable pub Serves : Bool → Strategies W → Type 0
  Serves is_delegated strategies =
      (flow : FlowFn W) × (strategies server ≡ some flow)
      × (strategies delegated ≡ (if is_delegated then some flow else none))
      × ((text : String) → strategies (other_context text) ≡ none)

  strategies_for-Serves : (d : Bool) (flow : FlowFn W) → Serves d (strategies_for d flow)
  unfolding Serves strategies_for
  strategies_for-Serves false flow = (flow, refl, refl, λ text. refl)
  strategies_for-Serves true flow = (flow, refl, refl, λ text. refl)

  after_cache :
      (sc : ServerConfig) (flow : FlowFn W) (r : Result (Option W.Manager)) (m : ServerState W)
      (t : W.State)
      → (continue r
          (λ manager. pure (record {
            strategies = strategies_for sc.delegated (cached_flow flow manager);
            cache_manager = manager;
          }))
          t).0
        ≡ ok m
      → Serves sc.delegated m.strategies
  unfolding pure
  after_cache sc flow (ok manager) m t e =
      subst (Serves sc.delegated) (strategies_of e)
        (strategies_for-Serves sc.delegated (cached_flow flow manager))
    where
      strategies_of : {a b : ServerState W} → ok a ≡ ok b → a.strategies ≡ b.strategies
      strategies_of h = cc
  after_cache sc flow (err x) m t e = absurd (no (sym e))
    where
      no : ¬ (ok m ≡ err x)
      no h = cc
  after_cache sc flow (panic x) m t e = absurd (no (sym e))
    where
      no : ¬ (ok m ≡ panic x)
      no h = cc

  after_build :
      (sc : ServerConfig) (r : Result (FlowFn W)) (m : ServerState W) (t : W.State)
      → (continue r
          (λ flow. cache_for sc.server_flow >>= λ manager. pure (record {
            strategies = strategies_for sc.delegated (cached_flow flow manager);
            cache_manager = manager;
          }))
          t).0
        ≡ ok m
      → Serves sc.delegated m.strategies
  unfolding ◌>>=◌
  after_build sc (ok flow) m t e =
      after_cache sc flow (cache_for sc.server_flow t).0 m (cache_for sc.server_flow t).1 e
  after_build sc (err x) m t e = absurd (no (sym e))
    where
      no : ¬ (ok m ≡ err x)
      no h = cc
  after_build sc (panic x) m t e = absurd (no (sym e))
    where
      no : ¬ (ok m ≡ panic x)
      no h = cc

  -- Where server mode is built, it has a flow for the context `server`, the same flow for the
  -- context `delegated` exactly if the settings ask for delegated use, and none for any other.
  pub server_state-strategies :
      (sc : ServerConfig) (client : W.HttpClient) (s : W.State) (m : ServerState W)
      → (server_state sc client s).0 ≡ ok m
      → Serves sc.delegated m.strategies
  unfolding server_state ◌>>=◌ ◌or_wrap◌
  server_state-strategies sc client s m e = after_build sc _ m _ e

  -- The personal access token is there in settings that are accepted.
  pat_given :
      (o : Option PatCredentialConfig) (s : W.State)
      → (validate_pat o s).0 ≡ ok (tt {0})
      → (c : PatCredentialConfig) × (o ≡ some c)
  unfolding validate_pat fail
  pat_given none s h = cc
  pat_given (some c) s h = (c, refl)

  unfoldable pub Safe : {A : Type 0} → Exec W.State A → Type 0
  Safe m = (s : W.State) (e : String) → ¬ ((m s).0 ≡ panic e)

  resolved-safe :
      {A : Type 0} (r : Result String) (f : String → A) (t : W.State) (e : String)
      → ¬ (r ≡ panic e)
      → ¬ ((continue (wrapped "resolving PAT" r) (λ token. pure (f token)) t).0 ≡ panic e)
  unfolding wrapped pure
  resolved-safe (ok x) f t e n h = cc
  resolved-safe (err x) f t e n h = cc
  resolved-safe (panic x) f t e n h = n cc

  module _ (sc : ServerConfig) (url : String) (client : W.HttpClient)
      (resolves : (ref : String) → Safe (W.resolve_ref ref)) where
    pat-Safe :
        (o : Option PatCredentialConfig) (c : PatCredentialConfig)
        → o ≡ some c
        → Safe (resolved_pat o)
    unfolding Safe resolved_pat ◌>>=◌ ◌or_wrap◌
    pat-Safe none c h s e q = cc
    pat-Safe (some c) d h s e q =
        resolved-safe (W.resolve_ref c.token s).0 pat_flow _ e (resolves c.token s e) q

    flow-Safe :
        (flow : Flow) (s : W.State)
        → (validate_flow sc flow s).0 ≡ ok tt
        → Safe (build_server_flow_fn flow sc.credential url client)
    unfolding Safe build_server_flow_fn validate_flow fail pure
    flow-Safe pat s h t e q =
        let (c, given) = pat_given sc.credential.pat s h in pat-Safe sc.credential.pat c given t e q
    flow-Safe github_app s h t e q = cc
    flow-Safe device_code s h t e q = cc
    flow-Safe interactive s h t e q = cc
    flow-Safe no_flow s h t e q = cc
    flow-Safe (other_flow text) s h t e q = cc

    -- If reading a secret reference does not panic, then with settings that are accepted the
    -- construction of the server's flow does not panic: no credential that it reads is nil.
    pub validated-builds :
        (s : W.State)
        → (validate_server sc s).0 ≡ ok tt
        → Safe (build_server_flow_fn sc.server_flow sc.credential url client)
    unfolding validate_server
    validated-builds s h = flow-Safe sc.server_flow s h
