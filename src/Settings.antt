-- ===== src/Settings.antt =====
-- The settings of internal/github/config.go, as the host passes them: the command line's `Config`
-- and server mode's `ServerConfig`; and the SDK's `ProviderConfig` that carries the former.
use scafctl_plugin_auth_gith.Prelude.{String, ℤ, Bool, Option, List}
use scafctl_plugin_auth_gith.Types.{Flow}

pub record Config : Type 0 where
  pub client_id : String
  pub client_secret : String
  pub hostname : String
  pub default_scopes : List String
  pub min_poll_interval : ℤ
  pub slow_down_increment : ℤ
  pub app_id : ℤ
  pub installation_id : ℤ
  pub private_key : String
  pub private_key_path : String
  pub private_key_secret_name : String

-- A `SecretRef` is a text that names where a secret is (`env://...` or `file://...`).
pub record PatCredentialConfig : Type 0 where
  pub token : String

pub record AppCredentialConfig : Type 0 where
  pub client_id : String
  pub app_id : ℤ
  pub installation_id : ℤ
  pub private_key : String

-- The pointers of `CredentialConfig`.
pub record CredentialConfig : Type 0 where
  pub pat : Option PatCredentialConfig
  pub app : Option AppCredentialConfig

pub record ServerConfig : Type 0 where
  pub hostname : String
  pub server_flow : Flow
  pub credential : CredentialConfig
  pub delegated : Bool

-- `sdkplugin.ProviderConfig`: the raw JSON of each handler's settings, and the host's name.
pub record ProviderConfig : Type 0 where
  pub settings : String → Option String
  pub binary_name : String
