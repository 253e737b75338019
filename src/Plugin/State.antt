-- ===== src/Plugin/State.antt =====
-- The fields of `Plugin`, the modes, and actions on a plugin beside the world.
use scafctl_plugin_auth_gith.Prelude.{Bool, false, Option, none, some}
use scafctl_plugin_auth_gith.Effect.{ok, Exec}
use scafctl_plugin_auth_gith.Settings.{Config, ProviderConfig}
use scafctl_plugin_auth_gith.World.{World}
use scafctl_plugin_auth_gith.Handler.{Handler, BrowserOpener}
use scafctl_plugin_auth_gith.ServerMode.{ServerState}

-- The implementations of the `mode` interface. `cliMode` holds the plugin itself, so it sees the
-- fields that the plugin has when it is called.
pub data Mode (W : World) : Type 0 where
  cli : Mode W
  serving : ServerState W → Mode W

-- `has_clock` says that the clock is set; outside of tests it is the real one.
pub record Plugin (W : World) : Type 0 where
  pub cfg : ProviderConfig
  pub config : Option Config
  pub http_client : Option W.HttpClient
  pub has_clock : Bool
  pub cached_host_client : Option W.HostClient
  pub open_browser : Option (BrowserOpener W)
  pub mode : Option (Mode W)

-- The plugin and the world that its calls act on.
pub record System (W : World) : Type 0 where
  pub plugin : Plugin W
  pub world : W.State

-- `&github.Plugin{}`, as main.go serves it.
abbrev pub new_plugin : (W : World) → Plugin W
new_plugin W = record {
  cfg = record { settings = λ name. none; binary_name = "" };
  config = none;
  http_client = none;
  has_clock = false;
  cached_host_client = none;
  open_browser = none;
  mode = none;
}

module _ ⦃W : World⦄ where
  -- What the command line's operations read of a plugin, if no pointer that they follow is nil.
  unfoldable pub handler_with :
      Plugin W → Option Config → Option W.HttpClient → Bool → Option (Handler W)
  handler_with p (some config) (some client) Bool.true = some (record {
    config = config;
    http_client = client;
    cached_host_client = p.cached_host_client;
    open_browser = p.open_browser;
    binary_name = p.cfg.binary_name;
  })
  handler_with p _ _ _ = none

  unfoldable pub handler_of : Plugin W → Option (Handler W)
  unfolding handler_with
  handler_of p = handler_with p p.config p.http_client p.has_clock

  unfoldable pub update : (Plugin W → Plugin W) → Exec (System W) (Unit {0})
  update f s = (ok tt, record s { plugin = f s.plugin })

  unfoldable pub plugin_of : Exec (System W) (Plugin W)
  plugin_of s = (ok s.plugin, s)

  -- An action on the world leaves the plugin alone.
  unfoldable pub in_world : {A : Type 0} → Exec W.State A → Exec (System W) A
  in_world m s = let (r, w) = m s.world in (r, record s { world = w })
