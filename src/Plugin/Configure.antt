-- ===== src/Plugin/Configure.antt =====
-- ConfigureAuthHandler of internal/github/auth_handler.go.
use scafctl_plugin_auth_gith.Prelude.{String, ◌<>◌, ◌==◌, true, Option, none, some, if◌then◌else◌}
use scafctl_plugin_auth_gith.Effect.{Result, ok, Exec, fail, lift, wrapped, ◌>>◌}
use scafctl_plugin_auth_gith.Settings.{Config, ProviderConfig}
use scafctl_plugin_auth_gith.World.{World}
use scafctl_plugin_auth_gith.Config.{default_config, validate}
use scafctl_plugin_auth_gith.Handler.{Context}
use scafctl_plugin_auth_gith.Cache.{handler_name}
use scafctl_plugin_auth_gith.Plugin.State.{Plugin, System, cli, update}

abbrev pub unknown_handler : String → String
unknown_handler name = "unknown handler: " <> name

abbrev pub or_given {ℓ} : {A : Type ℓ} → Option A → A → A
or_given none default = default
or_given (some a) default = a

module _ ⦃W : World⦄ where
  -- The defaults, overwritten by the raw settings where there are any.
  abbrev parsed : Option String → Config × Result (Unit {0})
  parsed none = (default_config, ok tt)
  parsed (some raw) = W.unmarshal_config raw default_config

  unfoldable pub config_of : ProviderConfig → Config × Result (Unit {0})
  config_of cfg = parsed (cfg.settings handler_name)

  -- The client and the opener that are set already, by a test, stay.
  abbrev pub ready : Context W → Plugin W → Plugin W
  ready ctx p = record p {
    http_client = some (or_given p.http_client W.default_http_client);
    has_clock = true;
    cached_host_client = ctx.host_client;
    open_browser = some (or_given p.open_browser W.open_browser);
    mode = some cli;
  }

  abbrev pub loaded : ProviderConfig → Config → Plugin W → Plugin W
  loaded cfg config p = record p { cfg = cfg; config = some config }

  unfoldable pub configure_auth_handler :
      Context W → String → ProviderConfig → Exec (System W) (Unit {0})
  unfolding config_of update
  configure_auth_handler ctx name cfg =
      if name == handler_name
      then (do
        update (loaded cfg (config_of cfg).0)
        lift (wrapped "failed to parse handler config" (config_of cfg).1)
        lift (validate (config_of cfg).0)
        update (ready ctx))
      else fail (unknown_handler name)
