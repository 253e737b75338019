-- ===== src/Plugin/Reconfigure.antt =====
-- What a configuration that is refused leaves behind.
use scafctl_plugin_auth_gith.Prelude.{String, Bool, true, Option, none, some, ◌≡◌, refl, ◌∙◌, ap}
use scafctl_plugin_auth_gith.Effect.{ok, err, Exec, lift, wrapped, ◌>>=◌}
use scafctl_plugin_auth_gith.Settings.{Config, ProviderConfig}
use scafctl_plugin_auth_gith.World.{World}
use scafctl_plugin_auth_gith.Config.{validate}
use scafctl_plugin_auth_gith.Cache.{handler_name}
use scafctl_plugin_auth_gith.Handler.{Handler, Context}
use scafctl_plugin_auth_gith.ServerMode.{ServerState}
use scafctl_plugin_auth_gith.Plugin.State.{
  cli, Plugin, System, handler_of, handler_with, update, in_world,
}
use scafctl_plugin_auth_gith.Plugin.Configure.{configure_auth_handler, config_of, loaded}
use scafctl_plugin_auth_gith.Plugin.Dispatch.{dispatch, on_mode, on_handler}

module _ ⦃W : World⦄ where
  reload : ProviderConfig → Config → Option (Handler W) → Option (Handler W)
  reload cfg config none = none
  reload cfg config (some h) = some (record h { config = config; binary_name = cfg.binary_name })

  -- The handler of a plugin whose configuration is replaced.
  reloaded :
      (cfg : ProviderConfig) (config : Config) (p : Plugin W) (o : Option Config)
      (client : Option W.HttpClient) (clock : Bool) (h : Handler W)
      → handler_with p o client clock ≡ some h
      → handler_with (loaded cfg config p) (some config) client clock
        ≡ some (record h { config = config; binary_name = cfg.binary_name })
  unfolding handler_with reload
  reloaded cfg config p (some c) (some client) true h e = ap (reload cfg config) e
  reloaded cfg config p (some c) (some client) Bool.false h e = cc
  reloaded cfg config p (some c) none clock h e = cc
  reloaded cfg config p none client clock h e = cc

  refused_runs :
      (ctx : Context W) (cfg : ProviderConfig) (e : String) (s : System W)
      → (config_of cfg).1 ≡ ok tt
      → validate (config_of cfg).0 ≡ err e
      → configure_auth_handler ctx handler_name cfg s
        ≡ (err e, record s { plugin = loaded cfg (config_of cfg).0 s.plugin })
  unfolding configure_auth_handler ◌>>=◌ update lift wrapped
  refused_runs ctx cfg e s parsed rejected = rw (parsed, rejected) refl

  module _ {A : Type 0} (on_cli : Handler W → Exec W.State A)
      (on_server : ServerState W → Exec W.State A) where
    cli_runs :
        (s : System W) (h : Handler W)
        → s.plugin.mode ≡ some cli
        → handler_of s.plugin ≡ some h
        → dispatch handler_name on_cli on_server s ≡ in_world (on_cli h) s
    unfolding dispatch on_mode on_handler
    cli_runs s h mode given =
        ap (λ m. on_mode s.plugin m on_cli on_server s) mode ∙ ap (λ o. on_handler o on_cli s) given

    -- If the command line's mode is active and a new configuration parses but is refused by its
    -- validation, then the call returns the validation's error, and every operation after it runs
    -- in the command line's mode under the refused configuration.
    pub configure-refused :
        (ctx : Context W) (cfg : ProviderConfig) (e : String) (s : System W) (h : Handler W)
        → s.plugin.mode ≡ some cli
        → handler_of s.plugin ≡ some h
        → (config_of cfg).1 ≡ ok tt
        → validate (config_of cfg).0 ≡ err e
        → ((configure_auth_handler ctx handler_name cfg s).0 ≡ err e)
          × (dispatch handler_name on_cli on_server
                (configure_auth_handler ctx handler_name cfg s).1
              ≡ in_world
                  (on_cli (record h { config = (config_of cfg).0; binary_name = cfg.binary_name }))
                  (configure_auth_handler ctx handler_name cfg s).1)
    unfolding handler_of
    configure-refused ctx cfg e s h mode given parsed rejected = (
      ap (λ r. r.0) (refused_runs ctx cfg e s parsed rejected),
      rw (refused_runs ctx cfg e s parsed rejected) (
          cli_runs _ _ mode (
            reloaded cfg (config_of cfg).0 s.plugin s.plugin.config s.plugin.http_client
              s.plugin.has_clock h given)),
    )
