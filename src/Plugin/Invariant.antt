-- ===== src/Plugin/Invariant.antt =====
-- The plugin's fields that its operations rely on, in the states that it gets into.
use scafctl_plugin_auth_gith.Prelude.{
  String, ◌==◌, Bool, true, false, Bool-cases, inl, inr, Option, none, some, ◌≡◌, refl, sym, subst,
}
use scafctl_plugin_auth_gith.Effect.{
  Result, ok, err, panic, Exec, lift, fail, ◌>>=◌, continue, wrapped,
}
use scafctl_plugin_auth_gith.Effect.Keeps.{Keeps, keeps_rules}
use scafctl_plugin_auth_gith.Settings.{Config, ProviderConfig, ServerConfig}
use scafctl_plugin_auth_gith.World.{World}
use scafctl_plugin_auth_gith.Handler.{Handler, Context}
use scafctl_plugin_auth_gith.Cache.{handler_name}
use scafctl_plugin_auth_gith.Config.{validate}
use scafctl_plugin_auth_gith.ServerMode.{ServerState}
use scafctl_plugin_auth_gith.Plugin.State.{
  Mode, cli, serving, Plugin, System, new_plugin, handler_of, update, plugin_of, in_world,
}
use scafctl_plugin_auth_gith.Plugin.Configure.{configure_auth_handler, ready, loaded, config_of}
use scafctl_plugin_auth_gith.Plugin.Activate.{activate, activate_server_mode}
use scafctl_plugin_auth_gith.Plugin.Dispatch.{dispatch, on_mode, on_handler}

abbrev HasFields {ℓ κ} : {A : Type ℓ} {B : Type κ} → Option A → Option B → Bool → Type 0
HasFields (some a) (some b) true = Unit
HasFields _ _ _ = ⊥

-- In the command line's mode the configuration, the transport and the clock are set.
abbrev pub Ready : {W : World} → Plugin W → Option (Mode W) → Type 0
Ready p (some cli) = HasFields p.config p.http_client p.has_clock
Ready p (some (serving m)) = Unit
Ready p none = Unit

abbrev pub WellFormed : {W : World} → System W → Type 0
WellFormed s = Ready s.plugin s.plugin.mode

with_config :
    {A B : Type 0} (a : A) (o : Option A) (b : Option B) (c : Bool)
    → HasFields o b c
    → HasFields (some a) b c
with_config a (some x) (some y) true h = tt
with_config a (some x) (some y) false h = h
with_config a (some x) none c h = h
with_config a none b c h = absurd h

module _ ⦃W : World⦄ where
  loaded-Ready :
      (cfg : ProviderConfig) (config : Config) (p : Plugin W) (mode : Option (Mode W))
      → Ready p mode
      → Ready (loaded cfg config p) mode
  loaded-Ready cfg config p (some cli) h = with_config config p.config p.http_client p.has_clock h
  loaded-Ready cfg config p (some (serving m)) h = tt
  loaded-Ready cfg config p none h = tt

  -- The three steps after the new configuration is in place.
  finish-WellFormed :
      (ctx : Context W) (cfg : ProviderConfig) (config : Config) (r v : Result (Unit {0}))
      (s : System W)
      → WellFormed s
      → WellFormed
          (continue r
            (λ _. continue v (λ _. update (ready ctx)))
            (record s { plugin = loaded cfg config s.plugin })).1
  unfolding update
  finish-WellFormed ctx cfg config (ok x) (ok y) s h = tt
  finish-WellFormed ctx cfg config (ok x) (err e) s h =
      loaded-Ready cfg config s.plugin s.plugin.mode h
  finish-WellFormed ctx cfg config (ok x) (panic e) s h =
      loaded-Ready cfg config s.plugin s.plugin.mode h
  finish-WellFormed ctx cfg config (err e) v s h = loaded-Ready cfg config s.plugin s.plugin.mode h
  finish-WellFormed ctx cfg config (panic e) v s h =
      loaded-Ready cfg config s.plugin s.plugin.mode h

  configure-WellFormed :
      (ctx : Context W) (name : String) (cfg : ProviderConfig) (s : System W)
      → WellFormed s
      → WellFormed (configure_auth_handler ctx name cfg s).1
  unfolding configure_auth_handler ◌>>=◌ lift update fail
  configure-WellFormed ctx name cfg s h = elim (Bool-cases (name == handler_name)) [
    | inl same ↦ rw same (
        finish-WellFormed ctx cfg (config_of cfg).0
          (wrapped "failed to parse handler config" (config_of cfg).1) (validate (config_of cfg).0)
          s h)
    | inr other ↦ rw other h
  ]

  in_world-plugin :
      {A : Type 0} (m : Exec W.State A) (s : System W) → (in_world m s).1.plugin ≡ s.plugin
  unfolding in_world
  in_world-plugin m s = refl

  built-WellFormed :
      (r : Result (ServerState W)) (s : System W)
      → WellFormed s
      → WellFormed (continue r (λ m. update (λ q. record q { mode = some (serving m) })) s).1
  unfolding update
  built-WellFormed (ok m) s h = tt
  built-WellFormed (err e) s h = h
  built-WellFormed (panic e) s h = h

  activate-WellFormed : (sc : ServerConfig) → Keeps WellFormed (activate sc)
  unfolding activate ◌>>=◌ plugin_of in_world
  activate-WellFormed sc = record { at = λ s h. built-WellFormed _ (record s { world = _ }) h }

  in_world-WellFormed : {A : Type 0} (m : Exec W.State A) → Keeps WellFormed (in_world m)
  unfolding in_world
  in_world-WellFormed m = record { at = λ s h. h }

  activate_server_mode-WellFormed :
      (settings : String) → Keeps WellFormed (activate_server_mode settings)
  unfolding activate_server_mode
  activate_server_mode-WellFormed settings =
      search (keeps_rules, in_world-WellFormed, activate-WellFormed)

  module _ {A : Type 0} (on_cli : Handler W → Exec W.State A)
      (on_server : ServerState W → Exec W.State A) where
    on_handler-plugin :
        (h : Option (Handler W)) (s : System W) → (on_handler h on_cli s).1.plugin ≡ s.plugin
    unfolding on_handler in_world lift
    on_handler-plugin none s = refl
    on_handler-plugin (some h) s = refl

    on_mode-plugin :
        (p : Plugin W) (mode : Option (Mode W)) (s : System W)
        → (on_mode p mode on_cli on_server s).1.plugin ≡ s.plugin
    unfolding on_mode in_world fail
    on_mode-plugin p none s = refl
    on_mode-plugin p (some cli) s = on_handler-plugin (handler_of p) s
    on_mode-plugin p (some (serving m)) s = refl

    dispatch-plugin :
        (name : String) (s : System W) → (dispatch name on_cli on_server s).1.plugin ≡ s.plugin
    unfolding dispatch fail
    dispatch-plugin name s = elim (Bool-cases (name == handler_name)) [
      | inl same ↦ rw same (on_mode-plugin s.plugin s.plugin.mode s)
      | inr other ↦ rw other refl
    ]

  -- The states that a plugin gets into: it starts with its zero value, and is configured, put into
  -- server mode and asked for operations in any order.
  pub data Reachable : System W → Type 1 where
    start : (w : W.State) → Reachable (record { plugin = new_plugin W; world = w })
    configured :
        (ctx : Context W) (name : String) (cfg : ProviderConfig) {s : System W}
        → Reachable s
        → Reachable (configure_auth_handler ctx name cfg s).1
    activated :
        (settings : String) {s : System W}
        → Reachable s
        → Reachable (activate_server_mode settings s).1
    served :
        {A : Type 0} (name : String) (on_cli : Handler W → Exec W.State A)
        (on_server : ServerState W → Exec W.State A) {s : System W}
        → Reachable s
        → Reachable (dispatch name on_cli on_server s).1

  -- In every state that the plugin gets into, by any sequence of configurations, failed ones
  -- included, activations and operations: if the command line's mode is active, then the
  -- configuration, the transport and the clock are set.
  pub Reachable-WellFormed : {s : System W} → Reachable s → WellFormed s
  Reachable-WellFormed (start w) = tt
  Reachable-WellFormed (configured ctx name cfg r) =
      configure-WellFormed ctx name cfg _ (Reachable-WellFormed r)
  Reachable-WellFormed (activated settings r) =
      (activate_server_mode-WellFormed settings).at _ (Reachable-WellFormed r)
  Reachable-WellFormed (served name on_cli on_server {s} r) =
      subst (λ p. Ready p p.mode) (sym (dispatch-plugin on_cli on_server name s))
        (Reachable-WellFormed r)
