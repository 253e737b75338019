-- ===== src/Config.antt =====
-- `Config` of internal/github/config.go: defaults, validation, base URLs, and where the GitHub App
-- credentials come from.
pub mod Credentials
pub mod Isolation
use scafctl_plugin_auth_gith.Prelude.{
  String, ◌<>◌, ◌==◌, ℤ, pos, eqb_ℤ, not, Option, none, some, [], if◌then◌else◌,
}
use scafctl_plugin_auth_gith.Prelude.Text.{contains_any}
use scafctl_plugin_auth_gith.Effect.{
  Result, ok, err, Exec, pure, fail, gets, ◌>>=◌, ◌>>◌, ◌or_wrap◌,
}
use scafctl_plugin_auth_gith.World.{World}
pub use scafctl_plugin_auth_gith.Settings.{Config}

abbrev pub second : ℤ
second = pos 1000000000

abbrev pub default_client_id : String
default_client_id = "Ov23li6xn492GhPmt4YG"

abbrev pub default_hostname : String
default_hostname = "github.com"

abbrev pub default_config : Config
default_config = record {
  client_id = default_client_id;
  client_secret = "";
  hostname = default_hostname;
  default_scopes = [];
  min_poll_interval = pos 5000000000;
  slow_down_increment = pos 5000000000;
  app_id = pos 0;
  installation_id = pos 0;
  private_key = "";
  private_key_path = "";
  private_key_secret_name = "";
}

unfoldable pub get_oauth_base_url : Config → String
get_oauth_base_url c =
    if c.hostname == default_hostname then "https://github.com" else "https://" <> c.hostname

-- Shared with `ServerConfig`, whose method is the same over its hostname.
unfoldable pub api_base_url : String → String
api_base_url hostname =
    if hostname == default_hostname
    then "https://api.github.com"
    else "https://" <> (hostname <> "/api/v3")

unfoldable pub get_api_base_url : Config → String
unfolding api_base_url
get_api_base_url c = api_base_url c.hostname

abbrev pub env_github_app_id : String
env_github_app_id = "GITHUB_APP_ID"

abbrev pub env_github_app_installation_id : String
env_github_app_installation_id = "GITHUB_APP_INSTALLATION_ID"

abbrev pub env_github_app_private_key : String
env_github_app_private_key = "GITHUB_APP_PRIVATE_KEY"

abbrev pub env_github_app_private_key_path : String
env_github_app_private_key_path = "GITHUB_APP_PRIVATE_KEY_PATH"

-- The field, or the environment variable where the field is empty.
abbrev or_env : String → String → String
or_env field value = if field == "" then value else field

abbrev pub no_private_key : String
no_private_key =
    "no private key configured: set GITHUB_APP_PRIVATE_KEY env var, provide --private-key flag, or configure privateKeyPath/privateKeySecretName in config"

abbrev pub no_installation_id : String
no_installation_id =
    "github app: installation ID is required (set GITHUB_APP_INSTALLATION_ID or configure installationId)"

module _ ⦃W : World⦄ where
  unfoldable pub validate : Config → Result (Unit {0})
  validate c =
      if c.client_id == ""
      then err "github auth: client ID is required"
      else if c.hostname == ""
      then err "github auth: hostname is required"
      else if contains_any c.hostname " \t\n\r;\"'"
      then err "github auth: hostname contains invalid characters"
      else elim (W.split_host c.hostname) [
        | none ↦ ok tt
        | some host ↦ if host == "" then err "github auth: hostname is empty" else ok tt
      ]

  -- The tail of GetPrivateKey, by what the secret store answered.
  key_from_secret : String → Option String → Exec W.State String
  key_from_secret name none =
      fail ("private key secret " <> (W.quote name <> " not found in secret store"))
  key_from_secret name (some value) = pure value

  key_from_store : Config → Option W.HostClient → Exec W.State String
  unfolding key_from_secret
  key_from_store c none = fail no_private_key
  key_from_store c (some client) =
      if c.private_key_secret_name == "" then fail no_private_key else do
        found ←
            W.get_secret client c.private_key_secret_name
            or_wrap ("reading private key from secret store ("
                <> (c.private_key_secret_name <> ")"))
        key_from_secret c.private_key_secret_name found

  -- The inline key, then the file, then the host's secret store.
  unfoldable pub get_private_key : Config → Option W.HostClient → Exec W.State String
  unfolding key_from_store
  get_private_key c client = do
    inline ← gets (λ s. or_env c.private_key (W.getenv s env_github_app_private_key))
    path ← gets (λ s. or_env c.private_key_path (W.getenv s env_github_app_private_key_path))
    if not (inline == "")
        then pure inline
        else if not (path == "")
        then W.read_file path or_wrap ("reading private key from " <> path)
        else key_from_store c client

  -- The numeric setting, or the environment variable if that scans as a number.
  abbrev scanned : String → Option ℤ → ℤ
  scanned v none = pos 0
  scanned v (some id) = if v == "" then pos 0 else id

  abbrev or_env_int : ℤ → String → ℤ
  or_env_int field v = if eqb_ℤ field (pos 0) then scanned v (W.scan_int64 v) else field

  unfoldable pub get_app_id : Config → W.State → ℤ
  get_app_id c s = or_env_int c.app_id (W.getenv s env_github_app_id)

  unfoldable pub get_installation_id : Config → W.State → ℤ
  get_installation_id c s = or_env_int c.installation_id (W.getenv s env_github_app_installation_id)

  unfoldable pub validate_app_config : Config → Option W.HostClient → Exec W.State (Unit {0})
  unfolding get_app_id get_installation_id
  validate_app_config c client = do
    app_id ← gets (get_app_id c)
    installation_id ← gets (get_installation_id c)
    if eqb_ℤ app_id (pos 0)
        then fail "github app: app ID is required (set GITHUB_APP_ID or configure appId)"
        else if eqb_ℤ installation_id (pos 0)
        then fail no_installation_id
        else (get_private_key c client or_wrap "github app") >> pure tt
