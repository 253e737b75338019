-- ===== src/Transport/DefaultClient/Construction.antt =====
-- NewDefaultHTTPClient of internal/github/http.go, with the settings of config.go, and
-- `DefaultHTTPClient` as an implementation of the interface. The httpc package makes the client
-- from its settings and sends the requests.
use scafctl_plugin_auth_gith.Prelude.{String, ℕ, ℤ, pos, Bool, false}
use scafctl_plugin_auth_gith.Effect.{Result, Exec}
use scafctl_plugin_auth_gith.Types.{Response}
use scafctl_plugin_auth_gith.World.{Form}
use scafctl_plugin_auth_gith.Transport.Interface.{HttpClient}
use scafctl_plugin_auth_gith.Transport.DefaultClient.{Request, post_form, post_json, get}

-- The fields of `httpc.ClientConfig` that the source sets, but for the logger.
pub record ClientConfig : Type 0 where
  pub timeout : ℤ
  pub retry_max : ℕ
  pub retry_wait_min : ℤ
  pub retry_wait_max : ℤ
  pub enable_cache : Bool
  pub enable_compression : Bool

-- The default settings of config.go: 30 seconds, 3, 1 second and 10 seconds.
abbrev pub default_http_timeout : ℤ
default_http_timeout = pos 30000000000

abbrev pub default_http_retry_max : ℕ
default_http_retry_max = 3

abbrev pub default_http_retry_wait_floor : ℤ
default_http_retry_wait_floor = pos 1000000000

abbrev pub default_http_retry_wait_max : ℤ
default_http_retry_wait_max = pos 10000000000

abbrev pub client_config : ClientConfig
client_config = record {
  timeout = default_http_timeout;
  retry_max = default_http_retry_max;
  retry_wait_min = default_http_retry_wait_floor;
  retry_wait_max = default_http_retry_wait_max;
  enable_cache = false;
  enable_compression = false;
}

-- `DefaultHTTPClient`, over a client of the httpc package.
pub record DefaultHttpClient (Client : Type 0) : Type 0 where
  pub client : Client

module _ {Client S : Type 0} (new_client : ClientConfig → Client)
    (do_with : Client → Request → Exec S Response)
    (check_request : String → String → Result (Unit {0})) (encode : Form → String) where
  unfoldable pub new_default_http_client : DefaultHttpClient Client
  new_default_http_client = record { client = new_client client_config }

  unfoldable pub as_http_client : DefaultHttpClient Client → HttpClient S
  as_http_client c = record {
    post_form = post_form check_request encode (do_with c.client);
    post_json = post_json check_request encode (do_with c.client);
    get = get check_request encode (do_with c.client);
  }
